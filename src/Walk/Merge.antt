-- ===== src/Walk/Merge.antt =====
-- What the walk makes of the values that both sides have.
use torch_checkpointing.Prelude.{
  ℕ, ◌≡◌, ◌⊎◌, inl, inr, refl, sym, ap, ◌∙◌, Bool, false, Option, none, some, String, List, [], ◌∷◌,
  ◌++◌, arith, Bool-cases,
}
use mathlib.Core.List.{append_assoc, append-nil}
use torch_checkpointing.Prelude.Result.{Result, ok, >>=-eq-ok}
use torch_checkpointing.Types.{NestedPath, CheckpointPath}
use torch_checkpointing.Walk.{
  Value, Items, WalkError, call_leaf, walk_into, walk_checkpoint_structure, checkpoint_paths,
}
use torch_checkpointing.Walk.Below.{
  is_container, AllHold, child-AllHold, walk_into-child, continues, child-is_container,
  value_at-below, value_at-child, walk_into-leaf,
}
use torch_checkpointing.Walk.Steps.{value_at, In}

module _ (subtype : ℕ → ℕ → Bool) (copy_ : List ℕ → List ℕ → Result WalkError (List ℕ))
    (construct : ℕ → Items → Option Value)
    (leaf_fn : Option (NestedPath → Value → Value → Result WalkError Value)) where
  -- Where the source has a value that is no container and the target has a value as well, a walk
  -- that succeeds puts there what the leaf function makes of the two.
  pub walk_into-merges :
      (rel path : NestedPath) (src tgt v : Value) (missing : List NestedPath)
      → walk_into subtype copy_ construct leaf_fn path src tgt ≡ ok (v, missing)
      → AllHold construct src
      → (s t : Value) → value_at rel src ≡ some s
      → is_container s ≡ false
      → value_at rel tgt ≡ some t
      → (x : Value) × (m : List NestedPath) × (value_at rel v ≡ some x)
        × (call_leaf subtype copy_ construct leaf_fn (path ++ rel) s t ≡ ok (x, m))
  unfolding value_at
  walk_into-merges [] path src tgt v missing h holds s t e c f =
      let src_is : src ≡ s = ground arith in
      let tgt_is : tgt ≡ t = ground arith in
      (
        v,
        missing,
        refl,
        rw (append-nil path) (
            walk_into-leaf subtype copy_ construct leaf_fn path s t v missing c
              (rw (src_is, tgt_is) at h)),
      )
  walk_into-merges (k ∷ rel) path src tgt v missing h holds s t e c f =
      let (src', e', g) = value_at-below subtype copy_ construct leaf_fn k rel src s e in
      let (tgt', f', i) = value_at-below subtype copy_ construct leaf_fn k rel tgt t f in
      let (x, m, w, r, _) =
        continues subtype copy_ construct leaf_fn path src tgt v missing h
          (child-is_container subtype copy_ construct leaf_fn k src src' e') holds k src' tgt' e'
          f' in
      let (y, n, at_y, called) =
        walk_into-merges rel (path ++ k ∷ []) src' tgt' x m w
          (child-AllHold subtype copy_ construct leaf_fn k src src' e' holds) s t g c i in
      (
        y,
        n,
        value_at-child subtype copy_ construct leaf_fn k rel v x r ∙ at_y,
        rw (sym (append_assoc path (k ∷ []) rel)) called,
      )

  -- What `MissesAbove` says of a path: a part of it is listed as missing, or the source has a value
  -- there that is no container, which then takes the place of the whole.
  abbrev pub MissesAbove : NestedPath → NestedPath → Value → List NestedPath → Type 0
  MissesAbove path rel src missing =
      (q r : NestedPath) × (rel ≡ q ++ r)
      × (In (path ++ q) missing
          ⊎ ((s : Value) × (value_at q src ≡ some s) × (is_container s ≡ false)))

  -- A path of the target that the source does not have is reported, by itself or by a part of it, unless
  -- a value of the source that is no container takes its place.
  pub walk_into-misses :
      (rel path : NestedPath) (src tgt v : Value) (missing : List NestedPath)
      → walk_into subtype copy_ construct leaf_fn path src tgt ≡ ok (v, missing)
      → AllHold construct src
      → (t : Value) → value_at rel tgt ≡ some t
      → value_at rel src ≡ none
      → MissesAbove path rel src missing
  unfolding value_at
  walk_into-misses [] path src tgt v missing h holds t f n = absurd (ground arith)
  walk_into-misses (k ∷ rel) path src tgt v missing h holds t f n =
      elim (Bool-cases (is_container src)) [
        | inr whole ↦ ([], k ∷ rel, refl, inr (src, refl, whole))
        | inl is ↦
            let (tgt', f', i) = value_at-below subtype copy_ construct leaf_fn k rel tgt t f in
            elim (walk_into-child subtype copy_ construct leaf_fn path src tgt v missing h is holds
              k tgt' f') [
                | inl (_, here, _) ↦ (k ∷ [], rel, refl, inl here)
                | inr (c, e, (x, m, w, _, among)) ↦
                    let (q, r, e', either) =
                      walk_into-misses rel (path ++ k ∷ []) c tgt' x m w
                        (child-AllHold subtype copy_ construct leaf_fn k src c e holds) t i
                        (sym (value_at-child subtype copy_ construct leaf_fn k rel src c e) ∙ n) in
                    (
                      k ∷ q,
                      r,
                      ap (λ l. k ∷ l) e',
                      elim either [
                        | inl one ↦
                            inl (among (path ++ k ∷ q) (rw (append_assoc path (k ∷ []) q) at one))
                        | inr (s, at_s, whole) ↦ inr (
                          s,
                          value_at-child subtype copy_ construct leaf_fn k q src c e ∙ at_s,
                          whole,
                        )
                      ],
                    )
              ]
      ]

  -- `walk_checkpoint_structure` is the walk from the top.
  walk_checkpoint_structure-inv :
      (item_key : String) (source target v : Value) (paths : List CheckpointPath)
      → walk_checkpoint_structure subtype copy_ construct leaf_fn item_key source target
        ≡ ok (v, paths)
      → (missing : List NestedPath) × (walk_into subtype copy_ construct leaf_fn [] source target
          ≡ ok (v, missing))
        × (paths ≡ checkpoint_paths item_key missing)
  unfolding walk_checkpoint_structure
  walk_checkpoint_structure-inv item_key source target v paths h =
      let ((w, missing), e, g) =
        >>=-eq-ok (walk_into subtype copy_ construct leaf_fn [] source target) _ h in
      (missing, ground (arith, e), ground arith)

  -- A walk that succeeds merges, and reports what it could not: where the source has a
  -- value that is no container and the target has one as well, the result has what the leaf function
  -- makes of the two; and a path that only the target has is in the list of missing paths, by itself or
  -- by a part of it, unless the source has a value that is no container at a part of it. This is for
  -- sources whose sequences have types that, called with a list, hold the items of the list if they return
  -- anything, as list, tuple and deque do, and as a NamedTuple with one required field does not.
  pub walk_checkpoint_structure-merges :
      (item_key : String) (source target v : Value) (paths : List CheckpointPath)
      → walk_checkpoint_structure subtype copy_ construct leaf_fn item_key source target
        ≡ ok (v, paths)
      → AllHold construct source
      → (missing : List NestedPath) × (paths ≡ checkpoint_paths item_key missing)
        × ((path : NestedPath) (t : Value)
            → value_at path target ≡ some t
            → ((s : Value)
                → value_at path source ≡ some s
                → is_container s ≡ false
                → (x : Value) × (m : List NestedPath) × (value_at path v ≡ some x)
                  × (call_leaf subtype copy_ construct leaf_fn path s t ≡ ok (x, m)))
              × (value_at path source ≡ none → MissesAbove [] path source missing))
  walk_checkpoint_structure-merges item_key source target v paths h holds =
      let (missing, w, e) = walk_checkpoint_structure-inv item_key source target v paths h in
      (
        missing,
        e,
        λ path t at_t. (
          (λ s at_s whole.
              walk_into-merges path [] source target v missing w holds s t at_s whole at_t),
          walk_into-misses path [] source target v missing w holds t at_t,
        ),
      )
