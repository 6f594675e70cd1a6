-- ===== src/Resharder/Generate/Whole.antt =====
-- All of `_generate_load_plans` of torch_checkpointing/default_resharder.py.
use torch_checkpointing.Prelude.{
  ℕ, ◌≡◌, ◌≢◌, ◌⊎◌, ◌↔◌, inl, inr, refl, true, some, String, List, [], ◌∷◌, list_eq, arith, In,
  Option-cases,
}
use torch_checkpointing.Prelude.Result.{ok, err}
use torch_checkpointing.Prelude.Dict.{Dict, get, has, IsDict}
use torch_checkpointing.Types.{NestedPath, path_key_eq}
use torch_checkpointing.Mesh.{ShardingMetadata}
use torch_checkpointing.Resharder.{DTensorPlacement, LoadPlan, GlobalObjectMetadata, Shape}
use torch_checkpointing.Resharder.Fqn.{Collision, collision, get_fqn_from_nested_path}
use torch_checkpointing.Resharder.Generate.{
  ReshardingInfo, collides, planned, not_reshardable, generate_load_plans,
}
use torch_checkpointing.Resharder.Generate.Paths.{Comes, AllCome, Sorts, plan_paths-Sorts}
use torch_checkpointing.Resharder.Generate.Kept.{Leaves, optimized-Leaves}
use torch_checkpointing.Resharder.Generate.Listed.{Thins}

module _ (torch : List ℕ → List ℕ → List ℕ → List DTensorPlacement → Shape) (str_of : ℕ → String)
    (rank : ℕ) (target : Dict NestedPath ShardingMetadata)
    (source : Dict NestedPath (List GlobalObjectMetadata)) where
  abbrev pub HasPlans : NestedPath → Type 0
  HasPlans path =
      (lp : LoadPlan) × (others : List LoadPlan) × Comes torch str_of rank source target path
        (planned lp others)

  -- Two different paths with plans have one name.
  abbrev pub Clashes : Collision → Type 0
  Clashes (collision a b) =
      (a ≢ b)
      × (get_fqn_from_nested_path str_of a ≡ get_fqn_from_nested_path str_of b)
      × HasPlans a
      × HasPlans b

  -- The paths with plans, thinned out, and the paths that are refused.
  abbrev pub Answers : ReshardingInfo → Type 0
  Answers info =
      ((path : NestedPath) (lp : LoadPlan) (others : List LoadPlan)
        → Comes torch str_of rank source target path (planned lp others)
        → (kept : List LoadPlan) × (get path info.nested_path_to_load_plans ≡ some kept)
          × Thins (lp ∷ others) kept)
      × ((path : NestedPath) (kept : List LoadPlan)
          → get path info.nested_path_to_load_plans ≡ some kept
          → HasPlans path)
      × ((path : NestedPath)
          → In path info.non_reshardable_paths
            ↔ Comes torch str_of rank source target path not_reshardable)

  abbrev nothing_yet : ReshardingInfo
  nothing_yet = record { nested_path_to_load_plans = []; non_reshardable_paths = [] }

  module _ (out : ReshardingInfo) (s : Sorts torch str_of rank source target nothing_yet out) where
    listed-HasPlans :
        (path : NestedPath) (ps : List LoadPlan)
        → get path out.nested_path_to_load_plans ≡ some ps
        → HasPlans path
    listed-HasPlans path ps e = elim (s.only_plans path ps e) [
      | inl none' ↦ absurd (ground arith)
      | inr (lp, others, c, _) ↦ (lp, others, c)
    ]

    has-HasPlans :
        (path : NestedPath) → has path out.nested_path_to_load_plans ≡ true → HasPlans path
    has-HasPlans path h = elim (Option-cases (get path out.nested_path_to_load_plans)) [
      | inl n ↦ absurd (ground arith)
      | inr (ps, e) ↦ listed-HasPlans path ps e
    ]

    left-Answers :
        (plans : Dict NestedPath (List LoadPlan))
        → Leaves str_of out.nested_path_to_load_plans plans
        → Answers (record out { nested_path_to_load_plans = plans })
    left-Answers plans (kept, only) = (
      (λ path lp others c. kept path lp others (s.plans path lp others c)),
      (λ path ks e. let (ps, here) = only path ks e in listed-HasPlans path ps here),
      λ path. (
        (λ i. elim (s.only_refused path i) [ inl none' ↦ absurd none' | inr c ↦ c ]),
        λ c. s.refused path (inr c),
      ),
    )

  -- Let the target metadata list no path twice, and let the round of each of its paths end without an
  -- error. Then either two different paths with plans have one name, and the error says which; or there is
  -- an answer: every path for which its round makes plans is listed, with one of these plans for each place
  -- of the target, from the lowest source rank for that place; no other path is listed; and the paths that
  -- cannot be resharded are exactly those whose round says so.
  pub generate_load_plans-Answers :
      IsDict target
      → AllCome torch str_of rank source target
      → ((c : Collision) × (generate_load_plans torch str_of rank target source ≡ err (collides c))
          × Clashes c)
        ⊎ ((info : ReshardingInfo) × (generate_load_plans torch str_of rank target source ≡ ok info)
            × Answers info)
  unfolding generate_load_plans
  generate_load_plans-Answers u h =
      let (out, ends, s) = plan_paths-Sorts torch str_of rank source target nothing_yet u h in
      elim (optimized-Leaves str_of out.nested_path_to_load_plans (s.unique tt)) [
        | inl (collision a b, e, (apart, known_a, known_b, one)) ↦ inl (
          collision a b,
          rw (ends, e) refl,
          (apart, one, has-HasPlans out s a known_a, has-HasPlans out s b known_b),
        )
        | inr (plans, e, leaves) ↦ inr (
          record out { nested_path_to_load_plans = plans },
          rw (ends, e) refl,
          left-Answers out s plans leaves,
        )
      ]
