-- ===== src/Walk/Tests.antt =====
-- A dict of which one key was not saved.
use mathlib.Core.Path.{subst}
use torch_checkpointing.Prelude.{
  ℕ, ◌≡◌, refl, true, false, inl, inr, Bool-cases, if◌then◌else◌, none, some, Option, List, [], ◌∷◌,
  eqb, arith,
}
use torch_checkpointing.Prelude.Result.{Result, ok}
use torch_checkpointing.Types.{name, place, PathKey, NestedPath, CheckpointPath}
use torch_checkpointing.Walk.{
  Value, null, leaf, mapping, sequence, no_entries, entry, Items, no_items, item, WalkError,
  dict_type, list_type, tuple_type, convert_to_original_type, default_leaf_fn, call_leaf, walk_into,
  walk_checkpoint_structure, checkpoint_paths, check_type_compatibility, entry_of,
}
use torch_checkpointing.Walk.Steps.{value_at, child}
use torch_checkpointing.Walk.Below.{HoldsItems, AllHold, is_container}
use torch_checkpointing.Walk.Merge.{walk_checkpoint_structure-merges, MissesAbove}
use torch_checkpointing.Walk.Whole.{IsPlain, walk_checkpoint_structure-whole}

abbrev number : ℕ → Value
number n = leaf (record { py_type = 9; is_fake = false; tensor = none; payload = n })

abbrev saved : Value
saved = mapping dict_type (
    entry (name "step") (number 7)
      (entry (name "rates") (sequence list_type true (item (number 1) no_items)) no_entries))

-- A deque of two numbers, to be merged into a tuple of three.
abbrev deque_type : ℕ
deque_type = 20

abbrev recent : Value
recent = mapping dict_type (
    entry (name "step") (number 7) (
      entry (name "recent") (sequence deque_type true (item (number 1) (item (number 2) no_items)))
        no_entries))

abbrev wanted : Value
wanted = mapping dict_type (
    entry (name "step") (number 0) (
      entry (name "recent")
        (sequence tuple_type false (item (number 0) (item (number 0) (item (number 3) no_items))))
        (entry (name "epoch") (number 3) no_entries)))

abbrev merged : Value
merged = mapping dict_type (
    entry (name "step") (number 7) (
      entry (name "recent")
        (sequence deque_type true (item (number 1) (item (number 2) (item (number 3) no_items))))
        (entry (name "epoch") (number 3) no_entries)))

abbrev missed : List CheckpointPath
missed =
    record { item_key = "state"; nested_path = name "recent" ∷ place 2 ∷ [] }
    ∷ record { item_key = "state"; nested_path = name "epoch" ∷ [] }
    ∷ []

copied : List ℕ → List ℕ → Result WalkError (List ℕ)
copied tgt src = ok src

-- Only deques can be built.
abbrev construct : ℕ → Items → Option Value
construct t items = if eqb t deque_type then some (sequence deque_type true items) else none

same_items :
    (k : PathKey) (items : Items)
    → child k (sequence deque_type true items) ≡ child k (sequence list_type true items)
unfolding child
same_items (name x) items = refl
same_items (place i) items = refl

holds : (t : ℕ) → HoldsItems construct t
unfolding child
holds t items v e k = elim (Bool-cases (eqb t deque_type)) [
  | inl is ↦
      let built : sequence deque_type true items ≡ v = ground (arith, is) in
      subst (λ w. child k w ≡ child k (sequence list_type true items)) built (same_items k items)
  | inr differs ↦ absurd (ground (arith, differs))
]

recent-AllHold : AllHold construct recent
recent-AllHold path t m items at_path = holds t

merges :
    walk_checkpoint_structure eqb copied construct none "state" recent wanted ≡ ok (merged, missed)
unfolding walk_checkpoint_structure walk_into check_type_compatibility call_leaf entry_of
    default_leaf_fn convert_to_original_type
merges = refl

walk_checkpoint_structure-merges_example :
    (missing : List NestedPath) × (missed ≡ checkpoint_paths "state" missing)
    × ((path : NestedPath) (t : Value)
        → value_at path wanted ≡ some t
        → ((s : Value)
            → value_at path recent ≡ some s
            → is_container s ≡ false
            → (x : Value) × (m : List NestedPath) × (value_at path merged ≡ some x)
              × (call_leaf eqb copied construct none path s t ≡ ok (x, m)))
          × (value_at path recent ≡ none
              → MissesAbove eqb copied construct none [] path recent missing))
walk_checkpoint_structure-merges_example =
    walk_checkpoint_structure-merges eqb copied construct none "state" recent wanted merged missed
      merges recent-AllHold

saved-IsPlain : IsPlain saved
unfolding IsPlain
saved-IsPlain = (refl, (tt, ((inl (refl, refl), (tt, tt)), tt)))

walk_checkpoint_structure-whole_example :
    walk_checkpoint_structure eqb copied construct none "state" saved null ≡ ok (saved, [])
walk_checkpoint_structure-whole_example =
    walk_checkpoint_structure-whole eqb copied construct "state" saved saved-IsPlain
