-- ===== src/Resharder/Aliases.antt =====
-- `dedupe_aliased_targets` of torch_checkpointing/resharding_utils.py. A target is its `data_ptr`, or `none`
-- where it is no tensor or an empty one.
pub mod Deduped
mod Tests
use torch_checkpointing.Prelude.{
  ℕ, Bool, true, false, not, Option, none, some, List, [], ◌∷◌, Eq, ◌==◌, ◌||◌, nat_eq,
  if◌then◌else◌,
}
use torch_checkpointing.Prelude.Dict.{Dict, get, put}

module _ {K : Type 0} ⦃e : Eq K⦄ where
  -- The last key of each address, after the keys so far.
  unfoldable pub key_for_data_ptr : Dict ℕ K → Dict K (Option ℕ) → Dict ℕ K
  key_for_data_ptr acc [] = acc
  key_for_data_ptr acc ((key, none) ∷ targets) = key_for_data_ptr acc targets
  key_for_data_ptr acc ((key, some ptr) ∷ targets) = key_for_data_ptr (put ptr key acc) targets

  unfoldable pub key_to_data_ptr : Dict K ℕ → Dict K (Option ℕ) → Dict K ℕ
  key_to_data_ptr acc [] = acc
  key_to_data_ptr acc ((key, none) ∷ targets) = key_to_data_ptr acc targets
  key_to_data_ptr acc ((key, some ptr) ∷ targets) = key_to_data_ptr (put key ptr acc) targets

  -- The pairs of a dropped key and the key that is kept for it.
  unfoldable pub aliased_pairs : Dict ℕ K → Dict K ℕ → List (K × K)
  aliased_pairs last [] = []
  aliased_pairs last ((key, ptr) ∷ rest) =
      let later = aliased_pairs last rest in
      elim (get ptr last) [
        | none ↦ later
        | some kept ↦ if kept == key then later else (key, kept) ∷ later
      ]

  unfoldable pub is_aliased : K → List (K × K) → Bool
  is_aliased key [] = false
  is_aliased key ((dropped, kept) ∷ pairs) = dropped == key || is_aliased key pairs

  unfoldable pub without {ℓ} : {V : Type ℓ} → List (K × K) → Dict K V → Dict K V
  without pairs [] = []
  without pairs ((key, v) ∷ d) =
      let rest = without pairs d in if is_aliased key pairs then rest else (key, v) ∷ rest

  unfoldable pub dedupe_aliased_targets :
      {V : Type 0} → Dict K (Option ℕ) → Dict K V → Dict K (Option ℕ) × Dict K V × List (K × K)
  dedupe_aliased_targets targets load_plans =
      let pairs = aliased_pairs (key_for_data_ptr [] targets) (key_to_data_ptr [] targets) in
      (without pairs targets, without pairs load_plans, pairs)
