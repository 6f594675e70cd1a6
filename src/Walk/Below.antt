-- ===== src/Walk/Below.antt =====
-- How the walk goes on below a key that both sides have.
use mathlib.Core.Path.{subst}
use torch_checkpointing.Prelude.{
  ℕ, ◌≡◌, inl, inr, refl, sym, ◌∙◌, Bool, true, false, Option, none, some, List, [], ◌∷◌, ◌++◌,
  arith, eqb, Bool-cases, Option-cases,
}
use torch_checkpointing.Prelude.Result.{Result, ok, err, ◌>>=◌, >>=-eq-ok}
use torch_checkpointing.Types.{PathKey, name, place, NestedPath}
use torch_checkpointing.Walk.{
  Value, null, leaf, text, set_of, mapping, sequence, Items, no_items, item, WalkError,
  attribute_error, entry_of, list_type, tuple_type, check_type_compatibility,
  convert_to_original_type, call_leaf, walk_source, walk_into, walk_entries, walk_items,
}
use torch_checkpointing.Walk.Steps.{
  item_at, child, value_at, In, Became, walk_entries-step, walk_items-start,
}

-- Mappings and sequences, which the walk descends into.
unfoldable pub is_container : Value → Bool
is_container (mapping t es) = true
is_container (sequence t m items) = true
is_container v = false

-- What a type builds of a list, where it builds anything, holds the items of the list.
abbrev pub HoldsItems : (ℕ → Items → Option Value) → ℕ → Type 0
HoldsItems construct t =
    (items : Items) (v : Value)
    → construct t items ≡ some v
    → (k : PathKey) → child k v ≡ child k (sequence list_type true items)

-- The types of all sequences in a value do that.
abbrev pub AllHold : (ℕ → Items → Option Value) → Value → Type 0
AllHold construct src =
    (path : NestedPath) (t : ℕ) (m : Bool) (items : Items)
    → value_at path src ≡ some (sequence t m items)
    → HoldsItems construct t

error_is_not_ok :
    (m : Result WalkError (Unit {0})) (e : WalkError) (w : Value × List NestedPath)
    → (m >>= λ _. err e) ≡ ok w
    → ⊥
error_is_not_ok (ok x) e w h = cc
error_is_not_ok (err x) e w h = cc

child-sequence :
    (t u : ℕ) (m n : Bool) (items : Items) (k : PathKey)
    → child k (sequence t m items) ≡ child k (sequence u n items)
unfolding child
child-sequence t u m n items (name x) = refl
child-sequence t u m n items (place i) = refl

child-constructed :
    (construct : ℕ → Items → Option Value) (items : Items) (t : ℕ)
    → HoldsItems construct t
    → (k : PathKey) (o : Option Value) → construct t items ≡ o
    → child k (elim o [ none ↦ sequence list_type true items | some v ↦ v ])
      ≡ child k (sequence list_type true items)
child-constructed construct items t holds k none e = refl
child-constructed construct items t holds k (some v) e = holds items v e k

child-convert :
    (construct : ℕ → Items → Option Value) (items : Items) (t : ℕ)
    → HoldsItems construct t
    → (k : PathKey)
    → child k (convert_to_original_type construct items t) ≡ child k (sequence list_type true items)
unfolding convert_to_original_type
child-convert construct items t holds k = elim (Bool-cases (eqb t list_type)) [
  | inl e ↦ rw e (child-sequence list_type list_type true true items k)
  | inr e ↦ elim (Bool-cases (eqb t tuple_type)) [
    | inl e' ↦ rw (e, e') (child-sequence tuple_type list_type false true items k)
    | inr e' ↦ rw (e, e') (child-constructed construct items t holds k (construct t items) refl)
  ]
]

module _ (subtype : ℕ → ℕ → Bool) (copy_ : List ℕ → List ℕ → Result WalkError (List ℕ))
    (construct : ℕ → Items → Option Value)
    (leaf_fn : Option (NestedPath → Value → Value → Result WalkError Value)) where
  pub walk_into-child :
      (path : NestedPath) (src tgt v : Value) (missing : List NestedPath)
      → walk_into subtype copy_ construct leaf_fn path src tgt ≡ ok (v, missing)
      → is_container src ≡ true
      → AllHold construct src
      → (k : PathKey) (t : Value) → child k tgt ≡ some t
      → Became subtype copy_ construct leaf_fn (path ++ k ∷ []) (child k src) t (child k v) missing
  unfolding walk_into is_container child value_at
  walk_into-child path (mapping s source) (mapping t es) v missing h c holds k u e =
      let (_, _, g) =
        >>=-eq-ok (check_type_compatibility subtype path (mapping s source) (mapping t es)) _ h in
      let ((walked, lost), f, r) =
        >>=-eq-ok (walk_entries subtype copy_ construct leaf_fn path source es) _ g in
      let same : mapping t walked ≡ v = ground arith in
      let lost_all : lost ≡ missing = ground arith in
      subst
        (λ x.
          Became subtype copy_ construct leaf_fn (path ++ k ∷ []) (entry_of k source) u (child k x)
            missing)
        same
        (rw (sym lost_all)
          (walk_entries-step subtype copy_ construct leaf_fn path source es walked lost f k u e))
  walk_into-child path (sequence s m source) (sequence t true (item i is)) v missing h c holds
        (place n) u e =
      let (_, _, g) =
        >>=-eq-ok
          (check_type_compatibility subtype path (sequence s m source)
            (sequence t true (item i is)))
          _ h in
      let ((walked, lost), f, r) =
        >>=-eq-ok (walk_items subtype copy_ construct leaf_fn path 0 source (item i is)) _ g in
      let same : sequence t true walked ≡ v = ground arith in
      let lost_all : lost ≡ missing = ground arith in
      subst
        (λ x.
          Became subtype copy_ construct leaf_fn (path ++ place n ∷ []) (item_at n source) u
            (child (place n) x) missing)
        same
        (rw (sym lost_all) (
          walk_items-start subtype copy_ construct leaf_fn path source (item i is) walked lost f n u
            e))
  walk_into-child path (sequence s m source) (sequence t false (item i is)) v missing h c holds
        (place n) u e =
      let (_, _, g) =
        >>=-eq-ok
          (check_type_compatibility subtype path (sequence s m source)
            (sequence t false (item i is)))
          _ h in
      let ((walked, lost), f, r) =
        >>=-eq-ok (walk_items subtype copy_ construct leaf_fn path 0 source (item i is)) _ g in
      let same : convert_to_original_type construct walked s ≡ v = ground arith in
      let lost_all : lost ≡ missing = ground arith in
      subst
        (λ x.
          Became subtype copy_ construct leaf_fn (path ++ place n ∷ []) (item_at n source) u
            (child (place n) x) missing)
        same
        (rw (child-convert construct walked s (holds [] s m source refl) (place n), sym lost_all)
          (walk_items-start subtype copy_ construct leaf_fn path source (item i is) walked lost f n
            u e))
  walk_into-child path null tgt v missing h c holds k u e = absurd (ground arith)
  walk_into-child path (leaf _) tgt v missing h c holds k u e = absurd (ground arith)
  walk_into-child path (text _ _) tgt v missing h c holds k u e = absurd (ground arith)
  walk_into-child path (set_of _ _) tgt v missing h c holds k u e = absurd (ground arith)
  walk_into-child path (mapping s source) (sequence t n is) v missing h c holds k u e = absurd (
      error_is_not_ok (check_type_compatibility subtype path (mapping s source) (sequence t n is))
        attribute_error (v, missing) h)
  walk_into-child path (sequence s m source) (mapping t es) v missing h c holds k u e = absurd (
      error_is_not_ok (check_type_compatibility subtype path (sequence s m source) (mapping t es))
        attribute_error (v, missing) h)
  walk_into-child path src (sequence t n no_items) v missing h c holds (place i) u e =
      absurd (ground arith)
  walk_into-child path src (sequence t n is) v missing h c holds (name x) u e =
      absurd (ground arith)
  walk_into-child path src null v missing h c holds k u e = absurd (ground arith)
  walk_into-child path src (leaf _) v missing h c holds k u e = absurd (ground arith)
  walk_into-child path src (text _ _) v missing h c holds k u e = absurd (ground arith)
  walk_into-child path src (set_of _ _) v missing h c holds k u e = absurd (ground arith)

  -- Below a key, where both sides have a value, the walk goes on at that key.
  abbrev pub Continues : NestedPath → PathKey → Value → Value → Value → List NestedPath → Type 0
  Continues path k c t v missing =
      (x : Value) × (m : List NestedPath) × (walk_into subtype copy_ construct leaf_fn
          (path ++ k ∷ []) c t
        ≡ ok (x, m))
      × (child k v ≡ some x)
      × ((p : NestedPath) → In p m → In p missing)

  pub continues :
      (path : NestedPath) (src tgt v : Value) (missing : List NestedPath)
      → walk_into subtype copy_ construct leaf_fn path src tgt ≡ ok (v, missing)
      → is_container src ≡ true
      → AllHold construct src
      → (k : PathKey) (c t : Value) → child k src ≡ some c
      → child k tgt ≡ some t
      → Continues path k c t v missing
  continues path src tgt v missing h is holds k c t e f =
      elim (walk_into-child path src tgt v missing h is holds k t f) [
        | inl (n, _, _) ↦ absurd (ground arith)
        | inr (c', e', w) ↦ subst (λ x. Continues path k x t v missing) (ground arith) w
      ]

  pub child-is_container : (k : PathKey) (v c : Value) → child k v ≡ some c → is_container v ≡ true
  unfolding child is_container
  child-is_container k null c e = ground arith
  child-is_container k (leaf _) c e = ground arith
  child-is_container k (text _ _) c e = ground arith
  child-is_container k (set_of _ _) c e = ground arith
  child-is_container k (mapping _ _) c e = refl
  child-is_container k (sequence _ _ _) c e = refl

  -- A path below a key, split.
  pub value_at-below :
      (k : PathKey) (rel : NestedPath) (v w : Value)
      → value_at (k ∷ rel) v ≡ some w
      → (c : Value) × (child k v ≡ some c) × (value_at rel c ≡ some w)
  unfolding value_at
  value_at-below k rel v w h = elim (Option-cases (child k v)) [
    | inl n ↦ absurd (ground arith)
    | inr (c, e) ↦ (c, e, ground arith)
  ]

  pub value_at-child :
      (k : PathKey) (rel : NestedPath) (v c : Value)
      → child k v ≡ some c
      → value_at (k ∷ rel) v ≡ value_at rel c
  unfolding value_at
  value_at-child k rel v c e = ground arith

  pub child-AllHold :
      (k : PathKey) (v c : Value) → child k v ≡ some c → AllHold construct v → AllHold construct c
  child-AllHold k v c e holds path t m items at_path =
      holds (k ∷ path) t m items (value_at-child k path v c e ∙ at_path)

  -- The walk on a value that is no container is a call of the leaf function.
  after :
      (path : NestedPath) (w : Value × List NestedPath) (s t : Value)
      → (check_type_compatibility subtype path s t >>= λ _.
          call_leaf subtype copy_ construct leaf_fn path s t)
        ≡ ok w
      → call_leaf subtype copy_ construct leaf_fn path s t ≡ ok w
  after path w s t h =
      (>>=-eq-ok (check_type_compatibility subtype path s t)
        (λ _. call_leaf subtype copy_ construct leaf_fn path s t) h).2

  pub walk_into-leaf :
      (path : NestedPath) (s t v : Value) (missing : List NestedPath)
      → is_container s ≡ false
      → walk_into subtype copy_ construct leaf_fn path s t ≡ ok (v, missing)
      → call_leaf subtype copy_ construct leaf_fn path s t ≡ ok (v, missing)
  unfolding walk_into is_container walk_source
  walk_into-leaf path null null v missing c h = h
  walk_into-leaf path null (leaf d) v missing c h = after path (v, missing) null (leaf d) h
  walk_into-leaf path null (text d e) v missing c h = after path (v, missing) null (text d e) h
  walk_into-leaf path null (set_of d e) v missing c h = after path (v, missing) null (set_of d e) h
  walk_into-leaf path null (mapping d e) v missing c h =
      after path (v, missing) null (mapping d e) h
  walk_into-leaf path null (sequence d e f) v missing c h =
      after path (v, missing) null (sequence d e f) h
  walk_into-leaf path (leaf a) null v missing c h = h
  walk_into-leaf path (leaf a) (leaf d) v missing c h = after path (v, missing) (leaf a) (leaf d) h
  walk_into-leaf path (leaf a) (text d e) v missing c h =
      after path (v, missing) (leaf a) (text d e) h
  walk_into-leaf path (leaf a) (set_of d e) v missing c h =
      after path (v, missing) (leaf a) (set_of d e) h
  walk_into-leaf path (leaf a) (mapping d e) v missing c h =
      after path (v, missing) (leaf a) (mapping d e) h
  walk_into-leaf path (leaf a) (sequence d e f) v missing c h =
      after path (v, missing) (leaf a) (sequence d e f) h
  walk_into-leaf path (text a b) null v missing c h = h
  walk_into-leaf path (text a b) (leaf d) v missing c h =
      after path (v, missing) (text a b) (leaf d) h
  walk_into-leaf path (text a b) (text d e) v missing c h =
      after path (v, missing) (text a b) (text d e) h
  walk_into-leaf path (text a b) (set_of d e) v missing c h =
      after path (v, missing) (text a b) (set_of d e) h
  walk_into-leaf path (text a b) (mapping d e) v missing c h =
      after path (v, missing) (text a b) (mapping d e) h
  walk_into-leaf path (text a b) (sequence d e f) v missing c h =
      after path (v, missing) (text a b) (sequence d e f) h
  walk_into-leaf path (set_of a b) null v missing c h = h
  walk_into-leaf path (set_of a b) (leaf d) v missing c h =
      after path (v, missing) (set_of a b) (leaf d) h
  walk_into-leaf path (set_of a b) (text d e) v missing c h =
      after path (v, missing) (set_of a b) (text d e) h
  walk_into-leaf path (set_of a b) (set_of d e) v missing c h =
      after path (v, missing) (set_of a b) (set_of d e) h
  walk_into-leaf path (set_of a b) (mapping d e) v missing c h =
      after path (v, missing) (set_of a b) (mapping d e) h
  walk_into-leaf path (set_of a b) (sequence d e f) v missing c h =
      after path (v, missing) (set_of a b) (sequence d e f) h
  walk_into-leaf path (mapping _ _) t v missing c h = absurd (ground arith)
  walk_into-leaf path (sequence _ _ _) t v missing c h = absurd (ground arith)
