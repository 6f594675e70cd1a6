-- ===== src/Walk/Whole.antt =====
-- The walk without a target.
use torch_checkpointing.Prelude.{
  ℕ, suc, ◌≡◌, ◌⊎◌, inl, inr, refl, Bool, true, false, Option, none, String, List, [], ◌∷◌, ◌++◌,
}
use torch_checkpointing.Prelude.Result.{Result, ok}
use torch_checkpointing.Types.{place, NestedPath}
use torch_checkpointing.Walk.{
  Value, null, leaf, text, set_of, mapping, sequence, Entries, no_entries, entry, Items, no_items,
  item, WalkError, dict_type, list_type, tuple_type, default_leaf_fn, call_leaf,
  convert_to_original_type, walk_source, walk_source_entries, walk_source_items, walk_into,
  walk_checkpoint_structure,
}

-- The containers are dicts, lists and tuples.
abbrev pub IsListType : ℕ → Bool → Type 0
IsListType t m = ((t ≡ list_type) × (m ≡ true)) ⊎ ((t ≡ tuple_type) × (m ≡ false))

unfoldable mutual
  pub IsPlain : Value → Type 0
  IsPlain null = Unit
  IsPlain (leaf l) = Unit
  IsPlain (text t s) = Unit
  IsPlain (set_of t xs) = Unit
  IsPlain (mapping t es) = (t ≡ dict_type) × IsPlainEntries es
  IsPlain (sequence t m items) = IsListType t m × IsPlainItems items

  pub IsPlainEntries : Entries → Type 0
  IsPlainEntries no_entries = Unit
  IsPlainEntries (entry k v es) = IsPlain v × IsPlainEntries es

  pub IsPlainItems : Items → Type 0
  IsPlainItems no_items = Unit
  IsPlainItems (item v vs) = IsPlain v × IsPlainItems vs

module _ (subtype : ℕ → ℕ → Bool) (copy_ : List ℕ → List ℕ → Result WalkError (List ℕ))
    (construct : ℕ → Items → Option Value) where
  convert-plain :
      (items : Items) (t : ℕ) (m : Bool)
      → IsListType t m
      → convert_to_original_type construct items t ≡ sequence t m items
  unfolding convert_to_original_type
  convert-plain items t m (inl (e, f)) = rw (e, f) refl
  convert-plain items t m (inr (e, f)) = rw (e, f) refl

  mutual
    unfolding walk_source call_leaf default_leaf_fn IsPlain

    walk_source-whole :
        (path : NestedPath) (v : Value)
        → IsPlain v
        → walk_source subtype copy_ construct none path v ≡ ok (v, [])
    walk_source-whole path null h = refl
    walk_source-whole path (leaf l) h = refl
    walk_source-whole path (text t s) h = refl
    walk_source-whole path (set_of t xs) h = refl
    walk_source-whole path (mapping t es) h = rw (walk_source_entries-whole path es h.1, h.0) refl
    walk_source-whole path (sequence t m items) h =
        rw (walk_source_items-whole path 0 items h.1, convert-plain items t m h.0) refl

    walk_source_entries-whole :
        (path : NestedPath) (es : Entries)
        → IsPlainEntries es
        → walk_source_entries subtype copy_ construct none path es ≡ ok (es, [])
    walk_source_entries-whole path no_entries h = refl
    walk_source_entries-whole path (entry k v es) h =
        rw (walk_source-whole (path ++ k ∷ []) v h.0, walk_source_entries-whole path es h.1) refl

    walk_source_items-whole :
        (path : NestedPath) (i : ℕ) (items : Items)
        → IsPlainItems items
        → walk_source_items subtype copy_ construct none path i items ≡ ok (items, [])
    walk_source_items-whole path i no_items h = refl
    walk_source_items-whole path i (item v vs) h =
        rw
          (
            walk_source-whole (path ++ place i ∷ []) v h.0,
            walk_source_items-whole path (suc i) vs h.1,
          )
          refl

  -- Without a target and without a function of its own, the walk of a value made of dicts, lists and
  -- tuples succeeds, returns just that value, and reports nothing as missing.
  pub walk_checkpoint_structure-whole :
      (item_key : String) (source : Value)
      → IsPlain source
      → walk_checkpoint_structure subtype copy_ construct none item_key source null
        ≡ ok (source, [])
  unfolding walk_checkpoint_structure walk_into
  walk_checkpoint_structure-whole item_key source h = rw (walk_source-whole [] source h) refl
