-- ===== src/Consolidation/Group.antt =====
-- Which ranks take part in a consolidation, and in which process group
-- (torch_checkpointing/hf/consolidation.py).
pub mod Members
use torch_checkpointing.Prelude.{
  ℕ, not, Bool, true, false, ◌||◌, Option, none, some, List, [], ◌∷◌, eqb, ltb, if◌then◌else◌,
  length,
}

-- torch's process groups: that of all ranks, or one that `new_group` makes.
pub data ProcessGroup : Type 0 where
  world : ProcessGroup
  new_group : List ℕ → ProcessGroup

-- What `_create_consolidation_process_group` returns.
pub record Participation : Type 0 where
  pub participates : Bool
  pub group : Option ProcessGroup
  pub created : Bool

-- `owner != 0 for owner in output_index_owners.values()`, any of them
unfoldable pub use_distributed : List ℕ → Bool
use_distributed [] = false
use_distributed (owner ∷ owners) = not (eqb owner 0) || use_distributed owners

-- One more rank in a sorted list without duplicates.
unfoldable pub insert_rank : ℕ → List ℕ → List ℕ
insert_rank r [] = r ∷ []
insert_rank r (x ∷ xs) =
    let rest = insert_rank r xs in
    if eqb r x then x ∷ xs else if ltb r x then r ∷ x ∷ xs else x ∷ rest

-- `sorted({0, *output_index_owners})`
unfoldable pub participating_ranks : List ℕ → List ℕ
participating_ranks [] = 0 ∷ []
participating_ranks (owner ∷ owners) = insert_rank owner (participating_ranks owners)

unfoldable pub is_among : ℕ → List ℕ → Bool
is_among r [] = false
is_among r (x ∷ xs) = eqb r x || is_among r xs

unfoldable pub create_consolidation_process_group : ℕ → ℕ → List ℕ → Bool → Participation
create_consolidation_process_group rank world_size owners distributed =
    let ranks = participating_ranks owners in
    if not distributed
    then record { participates = eqb rank 0; group = none; created = false }
    else if not (is_among rank ranks)
    then record { participates = false; group = none; created = false }
    else if eqb (length ranks) world_size
    then record { participates = true; group = some world; created = false }
    else record { participates = true; group = some (new_group ranks); created = true }
