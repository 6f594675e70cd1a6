-- ===== src/Consolidation/Owners/Sorted.antt =====
-- The order in which items are assigned, and the whole of the assignment.
use torch_checkpointing.Prelude.{
  ℕ, suc, ◌+◌, ◌≤◌, ◌<◌, ◌≡◌, ◌↔◌, ◌⊎◌, refl, inl, inr, Bool, some, List, [], ◌∷◌, length,
  replicate, length-replicate, arith, Bool-cases, map,
}
use torch_checkpointing.Consolidation.Owners.{
  before, insert_sorted, sorted_by_size, assign, assign_items_to_owners_by_size,
}
use torch_checkpointing.Consolidation.Owners.Balance.{
  load_of, IsWithin, IsLargest, AreOwners, assign-IsWithin, assign-load_of, assign-AreOwners,
  assign-items, All-get, All-replicate, get-replicate,
}

-- `x` is one of the items.
abbrev pub Has : {Item : Type 0} → Item × ℕ → List (Item × ℕ) → Type 0
Has x [] = ⊥
Has x (y ∷ ys) = (x ≡ y) ⊎ Has x ys

module _ {Item : Type 0} (precedes : Item → Item → Bool) where
  insert_sorted-Has :
      (z x : Item × ℕ) (ys : List (Item × ℕ))
      → Has z (insert_sorted precedes x ys) ↔ ((z ≡ x) ⊎ Has z ys)
  unfolding insert_sorted
  insert_sorted-Has z x [] = (λ h. h, λ h. h)
  insert_sorted-Has z x (y ∷ ys) = elim (Bool-cases (before precedes x y)) [
    | inl e ↦ rw e (λ h. h, λ h. h)
    | inr e ↦ rw e (ground (arith, insert_sorted-Has z x ys))
  ]

  sorted_by_size-Has :
      (z : Item × ℕ) (xs : List (Item × ℕ)) → Has z (sorted_by_size precedes xs) ↔ Has z xs
  unfolding sorted_by_size
  sorted_by_size-Has z [] = (λ h. h, λ h. h)
  sorted_by_size-Has z (x ∷ xs) =
      ground (arith, insert_sorted-Has z x (sorted_by_size precedes xs), sorted_by_size-Has z xs)

  length-insert_sorted :
      (x : Item × ℕ) (ys : List (Item × ℕ)) → length (insert_sorted precedes x ys) ≡ suc (length ys)
  unfolding insert_sorted
  length-insert_sorted x [] = refl
  length-insert_sorted x (y ∷ ys) = ground (arith, length-insert_sorted x ys)

  length-sorted_by_size : (xs : List (Item × ℕ)) → length (sorted_by_size precedes xs) ≡ length xs
  unfolding sorted_by_size
  length-sorted_by_size [] = refl
  length-sorted_by_size (x ∷ xs) =
      ground (arith, length-insert_sorted x (sorted_by_size precedes xs), length-sorted_by_size xs)

  insert_sorted-IsLargest :
      (largest : ℕ) (x : Item × ℕ) (ys : List (Item × ℕ))
      → x.1 ≤ largest
      → IsLargest largest ys
      → IsLargest largest (insert_sorted precedes x ys)
  unfolding insert_sorted
  insert_sorted-IsLargest largest x [] p h = (p, tt)
  insert_sorted-IsLargest largest x (y ∷ ys) p h = elim (Bool-cases (before precedes x y)) [
    | inl e ↦ rw e (p, h)
    | inr e ↦ rw e (h.0, insert_sorted-IsLargest largest x ys p h.1)
  ]

  sorted_by_size-IsLargest :
      (largest : ℕ) (xs : List (Item × ℕ))
      → IsLargest largest xs
      → IsLargest largest (sorted_by_size precedes xs)
  unfolding sorted_by_size
  sorted_by_size-IsLargest largest [] h = tt
  sorted_by_size-IsLargest largest (x ∷ xs) h =
      insert_sorted-IsLargest largest x (sorted_by_size precedes xs) h.0
        (sorted_by_size-IsLargest largest xs h.1)

  -- What an assignment of the items to `n` owners is: `sorted` lists the same items, each of them has
  -- one of the owners, and the bytes of any two owners differ by at most `largest`.
  pub record Shares (items : List (Item × ℕ)) (n largest : ℕ) (owners : List (Item × ℕ))
      : Type 0 where
    pub sorted : List (Item × ℕ)
    pub same_items : (x : Item × ℕ) → Has x sorted ↔ Has x items
    pub same_length : length sorted ≡ length items
    pub each_once : map (λ o. o.0) owners ≡ map (λ x. x.0) sorted
    pub exist : AreOwners n owners
    pub least : ℕ
    pub balanced : (i : ℕ) → i < n → IsWithin least largest (load_of i sorted owners)

  -- With at least one owner, the assertion of `_assign_items_to_owners_by_size` holds, and it gives each
  -- item one of the owners, such that the bytes that any two owners get differ by no more than the
  -- size of the largest item.
  pub assign_items_to_owners_by_size-Shares :
      (items : List (Item × ℕ)) (n largest : ℕ)
      → 1 ≤ n
      → IsLargest largest items
      → (owners : List (Item × ℕ)) × (assign_items_to_owners_by_size precedes items n ≡ some owners)
        × Shares items n largest owners
  unfolding assign_items_to_owners_by_size
  assign_items_to_owners_by_size-Shares items n largest some_owner fits =
      let sorted = sorted_by_size precedes items in
      let loads : List ℕ = replicate n 0 in
      let many : length loads ≡ n = length-replicate n 0 in
      let (low, within) =
        assign-IsWithin sorted 0 largest loads (omega arith)
          (sorted_by_size-IsLargest largest items fits)
          (All-replicate (IsWithin 0 largest) n 0 (omega arith, omega arith)) in
      (
        (assign sorted loads).0,
        ground arith,
        record {
          sorted = sorted;
          same_items = λ x. sorted_by_size-Has x items;
          same_length = length-sorted_by_size items;
          each_once = assign-items sorted loads;
          exist = rw many at (assign-AreOwners sorted loads (omega arith));
          least = low;
          balanced = λ i in_range.
              let (above, below) =
                All-get (IsWithin low largest) (assign sorted loads).1 i
                  (0 + load_of i sorted (assign sorted loads).0) within
                  (assign-load_of sorted loads i 0 (get-replicate n 0 i in_range)) in
              (omega arith, omega arith);
        },
      )
