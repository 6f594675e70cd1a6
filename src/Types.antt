-- ===== src/Types.antt =====
-- torch_checkpointing/types.py: paths to the values of a checkpoint.
use torch_checkpointing.Prelude.{
  ℕ, ◌≡◌, ◌↔◌, Bool, true, false, String, List, Eq, arith, nat_eq, string_eq, list_eq, ◌==◌,
}

-- A component of a path: the key of a dict, or a place in a sequence.
pub data PathKey : Type 0 where
  name : String → PathKey
  place : ℕ → PathKey

abbrev same_key : PathKey → PathKey → Bool
same_key (name s) (name t) = s == t
same_key (place i) (place j) = i == j
same_key _ _ = false

pub same_key_iff : (k j : PathKey) → (same_key k j ≡ true) ↔ (k ≡ j)
same_key_iff (name s) (name t) = ground (arith, string_eq.equal_iff s t)
same_key_iff (place i) (place j) = ground (arith, nat_eq.equal_iff i j)
same_key_iff (name s) (place j) = ((λ h. ground arith), λ h. cc)
same_key_iff (place i) (name t) = ((λ h. ground arith), λ h. cc)

instance abbrev pub path_key_eq : Eq PathKey
path_key_eq = record { equal_iff = same_key_iff; equal = same_key }

abbrev pub NestedPath : Type 0
NestedPath = List PathKey

pub record CheckpointPath : Type 0 where
  pub item_key : String
  pub nested_path : NestedPath
