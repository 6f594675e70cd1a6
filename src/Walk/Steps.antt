-- ===== src/Walk/Steps.antt =====
-- What a walk does at one key of a container, and the values that paths lead to.
use mathlib.Core.Path.{subst}
use torch_checkpointing.Prelude.{
  ℕ, zero, suc, ◌+◌, ◌≡◌, ◌⊎◌, inl, inr, refl, ap, ◌∙◌, Bool, Option, none, some, List, [], ◌∷◌,
  ◌++◌, arith, Bool-cases, ◌==◌,
}
use torch_checkpointing.Prelude.Result.{Result, ok, >>=-eq-ok}
use torch_checkpointing.Types.{PathKey, place, NestedPath, path_key_eq}
use torch_checkpointing.Walk.{
  Value, mapping, sequence, Entries, no_entries, entry, Items, no_items, item, WalkError, Walked,
  entry_of, walk_into, walk_entries, walk_items,
}

unfoldable pub item_at : ℕ → Items → Option Value
item_at i no_items = none
item_at zero (item v vs) = some v
item_at (suc i) (item v vs) = item_at i vs

-- The value under a key or at a place of a container.
unfoldable pub child : PathKey → Value → Option Value
unfolding item_at
child k (mapping t es) = entry_of k es
child (place i) (sequence t m items) = item_at i items
child k v = none

-- The value that a path leads to.
unfoldable pub value_at : NestedPath → Value → Option Value
unfolding child
value_at [] v = some v
value_at (k ∷ path) v = elim (child k v) [ none ↦ none | some c ↦ value_at path c ]

abbrev pub In : NestedPath → List NestedPath → Type 0
In p [] = ⊥
In p (q ∷ paths) = (q ≡ p) ⊎ In p paths

pub In-left : (p : NestedPath) (xs ys : List NestedPath) → In p xs → In p (xs ++ ys)
In-left p (x ∷ xs) ys (inl e) = inl e
In-left p (x ∷ xs) ys (inr h) = inr (In-left p xs ys h)
In-left p [] ys h = elim h [ ]

pub In-right : (p : NestedPath) (xs ys : List NestedPath) → In p ys → In p (xs ++ ys)
In-right p [] ys h = h
In-right p (x ∷ xs) ys h = inr (In-right p xs ys h)

pub In-either : (p : NestedPath) (xs ys : List NestedPath) → In p (xs ++ ys) → In p xs ⊎ In p ys
In-either p [] ys h = inr h
In-either p (x ∷ xs) ys (inl e) = inl (inl e)
In-either p (x ∷ xs) ys (inr h) = elim (In-either p xs ys h) [ inl i ↦ inl (inr i) | inr i ↦ inr i ]

module _ (subtype : ℕ → ℕ → Bool) (copy_ : List ℕ → List ℕ → Result WalkError (List ℕ))
    (construct : ℕ → Items → Option Value)
    (leaf_fn : Option (NestedPath → Value → Value → Result WalkError Value)) where
  -- The child at a path is walked into, and what that misses is missed.
  abbrev pub WalkedAt : NestedPath → Value → Value → Option Value → List NestedPath → Type 0
  WalkedAt path s t result missing =
      (v : Value) × (m : List NestedPath) × (walk_into subtype copy_ construct leaf_fn path s t
        ≡ ok (v, m))
      × (result ≡ some v)
      × ((p : NestedPath) → In p m → In p missing)

  -- What became of a child of the target: it was missed and stays, or it was walked into.
  abbrev pub Became : NestedPath → Option Value → Value → Option Value → List NestedPath → Type 0
  Became path s t result missing =
      ((s ≡ none) × In path missing × (result ≡ some t))
      ⊎ ((c : Value) × (s ≡ some c) × WalkedAt path c t result missing)

  abbrev walk_child : NestedPath → Option Value → Value → Walked Value
  walk_child path s t = elim s [
    | none ↦ ok (t, path ∷ [])
    | some c ↦ walk_into subtype copy_ construct leaf_fn path c t
  ]

  -- A child in the list of what the walk did first.
  walk_child-Became :
      (path : NestedPath) (s : Option Value) (t v : Value) (m rest : List NestedPath)
      → walk_child path s t ≡ ok (v, m)
      → Became path s t (some v) (m ++ rest)
  walk_child-Became path none t v m rest h = inl (refl, ground arith, ground arith)
  walk_child-Became path (some c) t v m rest h =
      inr (c, refl, (v, m, h, refl, λ p i. In-left p m rest i))

  later-Became :
      (path : NestedPath) (s : Option Value) (t : Value) (result : Option Value)
      (first missing : List NestedPath)
      → Became path s t result missing
      → Became path s t result (first ++ missing)
  later-Became path s t result first missing (inl (n, i, e)) =
      inl (n, In-right path first missing i, e)
  later-Became path s t result first missing (inr (c, e, (v, m, w, r, k))) =
      inr (c, e, (v, m, w, r, λ p i. In-right p first missing (k p i)))

  pub walk_entries-inv :
      (path : NestedPath) (source es result : Entries) (missing : List NestedPath) (j : PathKey)
      (u : Value)
      → walk_entries subtype copy_ construct leaf_fn path source (entry j u es)
        ≡ ok (result, missing)
      → (v : Value) × (m : List NestedPath) × (rest : Entries) × (later : List NestedPath)
        × (walk_child (path ++ j ∷ []) (entry_of j source) u ≡ ok (v, m))
        × (walk_entries subtype copy_ construct leaf_fn path source es ≡ ok (rest, later))
        × (result ≡ entry j v rest)
        × (missing ≡ m ++ later)
  unfolding walk_entries
  walk_entries-inv path source es result missing j u h =
      let ((v, m), e, g) = >>=-eq-ok (walk_child (path ++ j ∷ []) (entry_of j source) u) _ h in
      let ((rest, later), f, k) =
        >>=-eq-ok (walk_entries subtype copy_ construct leaf_fn path source es) _ g in
      (v, m, rest, later, e, f, ground arith, ground arith)

  pub walk_entries-step :
      (path : NestedPath) (source es result : Entries) (missing : List NestedPath)
      → walk_entries subtype copy_ construct leaf_fn path source es ≡ ok (result, missing)
      → (k : PathKey) (t : Value) → entry_of k es ≡ some t
      → Became (path ++ k ∷ []) (entry_of k source) t (entry_of k result) missing
  unfolding entry_of
  walk_entries-step path source no_entries result missing h k t e = absurd (ground arith)
  walk_entries-step path source (entry j u es) result missing h k t e =
      let (v, m, rest, later, one, more, r, mm) =
        walk_entries-inv path source es result missing j u h in
      elim (Bool-cases (j == k)) [
        | inl same ↦
            rw (r, mm, same)
              (subst (λ x. Became (path ++ x ∷ []) (entry_of x source) t (some v) (m ++ later))
                ((path_key_eq.equal_iff j k).0 same)
                (walk_child-Became (path ++ j ∷ []) (entry_of j source) t v m later
                  (ap (walk_child (path ++ j ∷ []) (entry_of j source)) (ground arith) ∙ one)))
        | inr differ ↦
            rw (r, mm, differ)
              (later-Became (path ++ k ∷ []) (entry_of k source) t (entry_of k rest) m later
                (walk_entries-step path source es rest later more k t (rw differ at e)))
      ]

  pub walk_items-inv :
      (path : NestedPath) (i : ℕ) (s : Value) (source ts result : Items) (missing : List NestedPath)
      (u : Value)
      → walk_items subtype copy_ construct leaf_fn path i (item s source) (item u ts)
        ≡ ok (result, missing)
      → (v : Value) × (m : List NestedPath) × (rest : Items) × (later : List NestedPath)
        × (walk_into subtype copy_ construct leaf_fn (path ++ place i ∷ []) s u ≡ ok (v, m))
        × (walk_items subtype copy_ construct leaf_fn path (suc i) source ts ≡ ok (rest, later))
        × (result ≡ item v rest)
        × (missing ≡ m ++ later)
  unfolding walk_items
  walk_items-inv path i s source ts result missing u h =
      let ((v, m), e, g) =
        >>=-eq-ok (walk_into subtype copy_ construct leaf_fn (path ++ place i ∷ []) s u) _ h in
      let ((rest, later), f, k) =
        >>=-eq-ok (walk_items subtype copy_ construct leaf_fn path (suc i) source ts) _ g in
      (v, m, rest, later, e, f, ground arith, ground arith)

  pub walk_items-past :
      (path : NestedPath) (i : ℕ) (ts result : Items) (missing : List NestedPath) (u : Value)
      → walk_items subtype copy_ construct leaf_fn path i no_items (item u ts)
        ≡ ok (result, missing)
      → (rest : Items) × (later : List NestedPath) × (walk_items subtype copy_ construct leaf_fn
            path
            (suc i)
            no_items
            ts
          ≡ ok (rest, later))
        × (result ≡ item u rest)
        × (missing ≡ (path ++ place i ∷ []) ∷ later)
  unfolding walk_items
  walk_items-past path i ts result missing u h =
      let ((rest, later), f, k) =
        >>=-eq-ok (walk_items subtype copy_ construct leaf_fn path (suc i) no_items ts) _ h in
      (rest, later, f, ground arith, ground arith)

  walk_items-step :
      (path : NestedPath) (source ts result : Items) (i : ℕ) (missing : List NestedPath)
      → walk_items subtype copy_ construct leaf_fn path i source ts ≡ ok (result, missing)
      → (j : ℕ) (t : Value) → item_at j ts ≡ some t
      → Became (path ++ place (i + j) ∷ []) (item_at j source) t (item_at j result) missing
  unfolding item_at
  walk_items-step path source no_items result i missing h j t e = absurd (ground arith)
  walk_items-step path no_items (item u ts) result i missing h zero t e =
      let (rest, later, more, r, mm) = walk_items-past path i ts result missing u h in
      let here : i ≡ i + 0 = omega arith in
      rw (r, mm) (inl (refl, inl (ap (λ n. path ++ place n ∷ []) here), e))
  walk_items-step path no_items (item u ts) result i missing h (suc j) t e =
      let (rest, later, more, r, mm) = walk_items-past path i ts result missing u h in
      let there : suc i + j ≡ i + suc j = omega arith in
      rw (r, mm)
        (subst
          (λ n.
            Became (path ++ place n ∷ []) none t (item_at j rest) ((path ++ place i ∷ []) ∷ later))
          there
          (later-Became (path ++ place (suc i + j) ∷ []) none t (item_at j rest)
            ((path ++ place i ∷ []) ∷ []) later
            (walk_items-step path no_items ts rest (suc i) later more j t e)))
  walk_items-step path (item s source) (item u ts) result i missing h zero t e =
      let (v, m, rest, later, one, more, r, mm) =
        walk_items-inv path i s source ts result missing u h in
      let here : i ≡ i + 0 = omega arith in
      rw (r, mm)
        (subst (λ n. Became (path ++ place n ∷ []) (some s) t (some v) (m ++ later)) here
          (walk_child-Became (path ++ place i ∷ []) (some s) t v m later
            (ap (walk_child (path ++ place i ∷ []) (some s)) (ground arith) ∙ one)))
  walk_items-step path (item s source) (item u ts) result i missing h (suc j) t e =
      let (v, m, rest, later, one, more, r, mm) =
        walk_items-inv path i s source ts result missing u h in
      let there : suc i + j ≡ i + suc j = omega arith in
      rw (r, mm)
        (subst
          (λ n. Became (path ++ place n ∷ []) (item_at j source) t (item_at j rest) (m ++ later))
          there
          (later-Became (path ++ place (suc i + j) ∷ []) (item_at j source) t (item_at j rest) m
            later (walk_items-step path source ts rest (suc i) later more j t e)))

  pub walk_items-start :
      (path : NestedPath) (source ts result : Items) (missing : List NestedPath)
      → walk_items subtype copy_ construct leaf_fn path 0 source ts ≡ ok (result, missing)
      → (j : ℕ) (t : Value) → item_at j ts ≡ some t
      → Became (path ++ place j ∷ []) (item_at j source) t (item_at j result) missing
  walk_items-start path source ts result missing h j t e =
      let plain : 0 + j ≡ j = omega arith in
      subst (λ n. Became (path ++ place n ∷ []) (item_at j source) t (item_at j result) missing)
        plain (walk_items-step path source ts result 0 missing h j t e)
