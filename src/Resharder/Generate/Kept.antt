-- ===== src/Resharder/Generate/Kept.antt =====
-- What is left of the plans of each path at the end of `_generate_load_plans` of
-- torch_checkpointing/default_resharder.py.
use mathlib.Core.Path.{subst}
use torch_checkpointing.Prelude.{
  ℕ, ◌≡◌, ◌⊎◌, inl, inr, refl, ap, ◌∙◌, none, some, String, List, [], ◌∷◌, string_eq, list_eq,
  arith, In,
}
use torch_checkpointing.Prelude.Result.{ok, err, Result-cases}
use torch_checkpointing.Prelude.Dict.{Dict, get, IsDict, All-get}
use torch_checkpointing.Types.{NestedPath, path_key_eq}
use torch_checkpointing.Resharder.{LoadPlan}
use torch_checkpointing.Resharder.Fqn.{
  Collision, get_fqn_from_nested_path, convert_nested_path_dict_to_fqn,
}
use torch_checkpointing.Resharder.Fqn.Converted.{
  Collides, Converts, convert_nested_path_dict_to_fqn-Converts,
  convert_nested_path_dict_to_fqn-IsDict,
}
use torch_checkpointing.Resharder.Chunks.{chunks, get_or_empty}
use torch_checkpointing.Resharder.Chunks.Lowest.{
  deduplicate_source_chunks-Lowest, deduplicate_source_chunks-IsDict,
}
use torch_checkpointing.Resharder.Generate.{optimized, renamed, collides}
use torch_checkpointing.Resharder.Generate.Renamed.{renamed-get, entry_or}
use torch_checkpointing.Resharder.Generate.Listed.{
  Thins, Listed, chunks-In, In-chunks, get_or_empty-some, AreNamed-all,
}

module _ (str_of : ℕ → String) where
  abbrev fqn_of : NestedPath → String
  fqn_of = get_fqn_from_nested_path str_of

  -- What the deduplication of plans under names leaves under the paths.
  abbrev pub Leaves : Dict NestedPath (List LoadPlan) → Dict NestedPath (List LoadPlan) → Type 0
  Leaves d out =
      ((path : NestedPath) (lp : LoadPlan) (plans : List LoadPlan)
        → get path d ≡ some (lp ∷ plans)
        → (kept : List LoadPlan) × (get path out ≡ some kept) × Thins (lp ∷ plans) kept)
      × ((path : NestedPath) (kept : List LoadPlan)
          → get path out ≡ some kept
          → (plans : List LoadPlan) × (get path d ≡ some plans))

  module _ (d : Dict NestedPath (List LoadPlan))
      (r : Dict String (List LoadPlan) × Dict String NestedPath)
      (converted : convert_nested_path_dict_to_fqn str_of d ≡ ok r)
      (conv : Converts fqn_of d (ok r)) (u : IsDict r.0) where
    -- A plan that is kept under a name is one of the path with the name.
    kept-path :
        (f : String) (q : LoadPlan)
        → Listed f q (chunks r.0)
        → (path : NestedPath) × (get f r.1 ≡ some path)
          × (fqn_of path ≡ f)
          × ((plans : List LoadPlan) × (get path d ≡ some plans))
    kept-path f q h =
        let (plans, e, i) = chunks-In f q r.0 u h in
        let (path, at, named) = conv.1 f plans e in
        (
          path,
          subst (λ x. get x r.1 ≡ some path) named (conv.0 path plans at).1,
          named,
          (plans, at),
        )

    abbrev out_by_name : Dict String (List LoadPlan)
    out_by_name = (deduplicate_source_chunks-Lowest r.0).0

    IsMeant : NestedPath → Type 0
    IsMeant path = (plans : List LoadPlan) × (get path d ≡ some plans)

    named-out :
        (f : String) (plans : List LoadPlan)
        → get f out_by_name ≡ some plans
        → (path : NestedPath) × (get f r.1 ≡ some path) × (fqn_of path ≡ f) × IsMeant path
    unfolding IsMeant
    named-out f plans e =
        let (_, ends, sound, _) = deduplicate_source_chunks-Lowest r.0 in
        let (_, full) = deduplicate_source_chunks-IsDict r.0 out_by_name ends in
        let (p, i) = All-get (λ entry. (p : LoadPlan) × In p entry.1) f plans out_by_name e full in
        let own : get_or_empty f out_by_name ≡ plans = ground arith in
        kept-path f p (sound f p (rw own i)).0

    thinned-Thins :
        (path : NestedPath) (plans kept : List LoadPlan)
        → get path d ≡ some plans
        → get_or_empty (fqn_of path) out_by_name ≡ kept
        → Thins plans kept
    thinned-Thins path plans kept at own =
        let (_, _, sound, every) = deduplicate_source_chunks-Lowest r.0 in
        let f = fqn_of path in
        let here = (conv.0 path plans at).0 in
        let facts = λ (p : LoadPlan) (h : In p kept). sound f p (rw own h) in
        (
          (λ p h.
              let (found, e, i) = chunks-In f p r.0 u (facts p h).0 in
              let same : found ≡ plans = ground arith in
              (
                subst (In p) same i,
                λ q j offsets. (facts p h).1 q (In-chunks f q r.0 plans here j) offsets,
                λ q j offsets. (facts p h).2 q (rw own j) offsets,
              )),
          λ q h.
              let (p, i, offsets) = every f q (In-chunks f q r.0 plans here h) in
              (p, rw own at i, offsets),
        )

    pub thinned-Leaves :
        (out : Dict NestedPath (List LoadPlan)) × (renamed r.1 out_by_name [] ≡ some out)
        × Leaves d out
    unfolding IsMeant
    thinned-Leaves =
        let (_, ends, _, every) = deduplicate_source_chunks-Lowest r.0 in
        let (unique, _) = deduplicate_source_chunks-IsDict r.0 out_by_name ends in
        let (out, done, holds, only) =
          renamed-get fqn_of r.1 IsMeant out_by_name [] unique
            (AreNamed-all fqn_of r.1 IsMeant out_by_name unique named-out) in
        (
          out,
          done,
          (
            (λ path lp plans at.
                let f = fqn_of path in
                let (here, back) = conv.0 path (lp ∷ plans) at in
                let (p, i, _) = every f lp (In-chunks f lp r.0 (lp ∷ plans) here (inl refl)) in
                let (kept, e, own) = get_or_empty-some f p out_by_name i in
                (
                  kept,
                  holds path back ∙ ap (λ x. entry_or fqn_of r.1 x none) e,
                  thinned-Thins path (lp ∷ plans) kept at own,
                )),
            λ path kept e. elim (only path kept e) [
              | inl none' ↦ absurd (ground arith)
              | inr meant ↦ meant
            ],
          ),
        )

  -- The plans that are left, or two paths with one name.
  pub optimized-Leaves :
      (d : Dict NestedPath (List LoadPlan))
      → IsDict d
      → ((c : Collision) × (optimized str_of d ≡ err (collides c)) × Collides fqn_of d c)
        ⊎ ((out : Dict NestedPath (List LoadPlan)) × (optimized str_of d ≡ ok out) × Leaves d out)
  unfolding optimized
  optimized-Leaves [] u =
      inr (
        [],
        refl,
        ((λ path lp plans e. absurd (ground arith)), λ path kept e. absurd (ground arith)),
      )
  optimized-Leaves (entry ∷ d) u =
      let conv = convert_nested_path_dict_to_fqn-Converts str_of (entry ∷ d) u in
      elim (Result-cases (convert_nested_path_dict_to_fqn str_of (entry ∷ d))) [
        | inl (c, e) ↦ inl (c, rw e refl, rw e at conv)
        | inr (r, e) ↦
            let (out, done, leaves) =
              thinned-Leaves (entry ∷ d) r e (rw e at conv)
                (convert_nested_path_dict_to_fqn-IsDict str_of (entry ∷ d) r e) in
            let (_, ends, _, _) = deduplicate_source_chunks-Lowest r.0 in
            inr (out, rw (e, ends, done) refl, leaves)
      ]
