-- ===== src/Consolidation/Owners.antt =====
-- Which rank owns which output file, and which tensors go to which file
-- (torch_checkpointing/hf/consolidation.py). The order of the items themselves, by which sizes that
-- are equal are told apart, is the parameter `precedes`.
pub mod Balance
pub mod Sorted
use torch_checkpointing.Prelude.{
  ℕ, zero, suc, ◌+◌, min, not, Bool, true, false, ◌&&◌, ◌||◌, Option, none, some, List, [], ◌∷◌,
  leb, ltb, eqb, map, if◌then◌else◌, length, replicate,
}

-- The least load, and the first index that has it.
unfoldable pub least_loaded : List ℕ → ℕ × ℕ
least_loaded [] = (0, 0)
least_loaded (x ∷ []) = (x, 0)
least_loaded (x ∷ y ∷ ys) =
    let (load, i) = least_loaded (y ∷ ys) in if leb x load then (x, 0) else (load, suc i)

-- `owner_loads[owner] += size`
unfoldable pub add_load : ℕ → ℕ → List ℕ → List ℕ
add_load i size [] = []
add_load zero size (x ∷ xs) = (x + size) ∷ xs
add_load (suc i) size (x ∷ xs) = x ∷ add_load i size xs

module _ {Item : Type 0} where
  -- The loop over the sorted items, with `item_to_owner` and `owner_loads` at its end.
  unfoldable pub assign : List (Item × ℕ) → List ℕ → List (Item × ℕ) × List ℕ
  assign [] loads = ([], loads)
  assign ((item, size) ∷ items) loads =
      let owner = (least_loaded loads).1 in
      let (owners, after) = assign items (add_load owner size loads) in
      ((item, owner) ∷ owners, after)

module _ {Item : Type 0} (precedes : Item → Item → Bool) where
  -- The order of `(-size, item)`
  unfoldable pub before : Item × ℕ → Item × ℕ → Bool
  before (a, m) (b, n) = ltb n m || eqb m n && precedes a b

  unfoldable pub insert_sorted : Item × ℕ → List (Item × ℕ) → List (Item × ℕ)
  insert_sorted x [] = x ∷ []
  insert_sorted x (y ∷ ys) =
      let rest = insert_sorted x ys in if before x y then x ∷ y ∷ ys else y ∷ rest

  unfoldable pub sorted_by_size : List (Item × ℕ) → List (Item × ℕ)
  sorted_by_size [] = []
  sorted_by_size (x ∷ xs) = insert_sorted x (sorted_by_size xs)

  -- None where `assert num_owners >= 1` fails.
  unfoldable pub assign_items_to_owners_by_size : List (Item × ℕ) → ℕ → Option (List (Item × ℕ))
  assign_items_to_owners_by_size item_sizes num_owners =
      if leb 1 num_owners
      then some (assign (sorted_by_size item_sizes) (replicate num_owners 0)).0
      else none

  abbrev pub next_index : Item × ℕ → Item × ℕ
  next_index (fqn, owner) = (fqn, owner + 1)

  -- `_default_fqn_to_index_mapping`
  unfoldable pub default_fqn_to_index_mapping : List (Item × ℕ) → ℕ → Option (List (Item × ℕ))
  unfolding assign_items_to_owners_by_size
  default_fqn_to_index_mapping fqn_to_num_bytes world_size =
      elim (assign_items_to_owners_by_size fqn_to_num_bytes
        (min world_size (length fqn_to_num_bytes))) [
          | none ↦ none
          | some owners ↦ some (map next_index owners)
        ]
