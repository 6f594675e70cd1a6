-- ===== src/Resharder/Generate/Paths.antt =====
-- The loop over paths in `_generate_load_plans` of torch_checkpointing/default_resharder.py.
use mathlib.Core.Path.{subst}
use torch_checkpointing.Prelude.{
  ℕ, ◌≡◌, ◌⊎◌, inl, inr, refl, sym, ap, ◌∙◌, false, none, some, String, List, [], ◌∷◌, ◌==◌,
  list_eq, list_beq_iff, arith, All, In, In-append, In-append_left, In-append_right, Bool-cases,
}
use torch_checkpointing.Prelude.Result.{Result, ok}
use torch_checkpointing.Prelude.Dict.{
  Dict, get, get-put_own, get-put_other, IsDict, put-IsDict, get-own, get-later,
}
use torch_checkpointing.Types.{NestedPath, path_key_eq}
use torch_checkpointing.Mesh.{ShardingMetadata}
use torch_checkpointing.Resharder.{
  DTensorPlacement, ReshardError, LoadPlan, GlobalObjectMetadata, Shape,
}
use torch_checkpointing.Resharder.Generate.{
  ReshardingInfo, PathOutcome, planned, not_reshardable, nothing, plan_path, with_outcome,
  plan_paths,
}

some-is : {a b : List LoadPlan} → some a ≡ some b → a ≡ b
some-is e = cc

ok-injective : {a b : PathOutcome} → ◌≡◌ {A = Result ReshardError PathOutcome} (ok a) (ok b) → a ≡ b
ok-injective e = cc

module _ (torch : List ℕ → List ℕ → List ℕ → List DTensorPlacement → Shape) (str_of : ℕ → String)
    (rank : ℕ) (source : Dict NestedPath (List GlobalObjectMetadata)) where
  -- The round of a path of the target ends in a way.
  abbrev pub Comes : Dict NestedPath ShardingMetadata → NestedPath → PathOutcome → Type 0
  Comes target path o =
      (t : ShardingMetadata) × (get path target ≡ some t)
      × (plan_path torch str_of rank path t (get path source) ≡ ok o)

  -- Every round ends without an error.
  abbrev pub AllCome : Dict NestedPath ShardingMetadata → Type 0
  AllCome target =
      All
        (λ entry.
          (o : PathOutcome) × (plan_path torch str_of rank entry.0 entry.1 (get entry.0 source)
            ≡ ok o))
        target

  -- What the loop makes of what there was.
  pub record Sorts (target : Dict NestedPath ShardingMetadata) (info out : ReshardingInfo)
      : Type 0 where
    pub plans :
        (path : NestedPath) (lp : LoadPlan) (others : List LoadPlan)
        → Comes target path (planned lp others)
        → get path out.nested_path_to_load_plans ≡ some (lp ∷ others)
    pub only_plans :
        (path : NestedPath) (ps : List LoadPlan)
        → get path out.nested_path_to_load_plans ≡ some ps
        → (get path info.nested_path_to_load_plans ≡ some ps)
          ⊎ ((lp : LoadPlan) × (others : List LoadPlan) × Comes target path (planned lp others)
              × (ps ≡ lp ∷ others))
    pub elsewhere :
        (path : NestedPath)
        → get path target ≡ none
        → get path out.nested_path_to_load_plans ≡ get path info.nested_path_to_load_plans
    pub refused :
        (path : NestedPath)
        → In path info.non_reshardable_paths ⊎ Comes target path not_reshardable
        → In path out.non_reshardable_paths
    pub only_refused :
        (path : NestedPath)
        → In path out.non_reshardable_paths
        → In path info.non_reshardable_paths ⊎ Comes target path not_reshardable
    pub unique : IsDict info.nested_path_to_load_plans → IsDict out.nested_path_to_load_plans

  -- One round of the loop.
  module _ (p : NestedPath) where
    abbrev round : PathOutcome → ReshardingInfo → ReshardingInfo
    round = with_outcome torch str_of rank p

    round_plans :
        (o : PathOutcome) (info : ReshardingInfo) (lp : LoadPlan) (others : List LoadPlan)
        → o ≡ planned lp others
        → get p (round o info).nested_path_to_load_plans ≡ some (lp ∷ others)
    unfolding with_outcome
    round_plans o info lp others is =
        subst (λ x. get p (round x info).nested_path_to_load_plans ≡ some (lp ∷ others)) (sym is)
          (get-put_own p (lp ∷ others) info.nested_path_to_load_plans)

    round_only_plans :
        (o : PathOutcome) (info : ReshardingInfo) (path : NestedPath) (ps : List LoadPlan)
        → get path (round o info).nested_path_to_load_plans ≡ some ps
        → (get path info.nested_path_to_load_plans ≡ some ps)
          ⊎ ((lp : LoadPlan) × (others : List LoadPlan) × (p ≡ path)
              × (o ≡ planned lp others)
              × (ps ≡ lp ∷ others))
    unfolding with_outcome
    round_only_plans not_reshardable info path ps e = inl e
    round_only_plans nothing info path ps e = inl e
    round_only_plans (planned lp others) info path ps e = elim (Bool-cases (p == path)) [
      | inr differ ↦
          inl (sym (get-put_other p path (lp ∷ others) info.nested_path_to_load_plans differ) ∙ e)
      | inl same ↦
          let at = (list_beq_iff p path).0 same in
          inr (
            lp,
            others,
            at,
            refl,
            some-is (
                sym e
                ∙ subst
                    (λ x.
                      get x (round (planned lp others) info).nested_path_to_load_plans
                      ≡ some (lp ∷ others))
                    at (get-put_own p (lp ∷ others) info.nested_path_to_load_plans)),
          )
    ]

    round_elsewhere :
        (o : PathOutcome) (info : ReshardingInfo) (path : NestedPath)
        → (p == path) ≡ false
        → get path (round o info).nested_path_to_load_plans
          ≡ get path info.nested_path_to_load_plans
    unfolding with_outcome
    round_elsewhere (planned lp others) info path differ =
        get-put_other p path (lp ∷ others) info.nested_path_to_load_plans differ
    round_elsewhere not_reshardable info path differ = refl
    round_elsewhere nothing info path differ = refl

    round_refused :
        (o : PathOutcome) (info : ReshardingInfo) (path : NestedPath)
        → In path info.non_reshardable_paths ⊎ ((p ≡ path) × (o ≡ not_reshardable))
        → In path (round o info).non_reshardable_paths
    unfolding with_outcome
    round_refused (planned lp others) info path (inl old) = old
    round_refused nothing info path (inl old) = old
    round_refused (planned lp others) info path (inr (at, is)) = absurd (ground arith)
    round_refused nothing info path (inr (at, is)) = absurd (ground arith)
    round_refused not_reshardable info path (inl old) =
        In-append_left path info.non_reshardable_paths (p ∷ []) old
    round_refused not_reshardable info path (inr (at, is)) =
        In-append_right path info.non_reshardable_paths (p ∷ []) (inl at)

    round_only_refused :
        (o : PathOutcome) (info : ReshardingInfo) (path : NestedPath)
        → In path (round o info).non_reshardable_paths
        → In path info.non_reshardable_paths ⊎ ((p ≡ path) × (o ≡ not_reshardable))
    unfolding with_outcome
    round_only_refused (planned lp others) info path i = inl i
    round_only_refused nothing info path i = inl i
    round_only_refused not_reshardable info path i =
        elim (In-append path info.non_reshardable_paths (p ∷ []) i) [
          | inl old ↦ inl old
          | inr (inl at) ↦ inr (at, refl)
          | inr (inr none') ↦ absurd none'
        ]

    round-IsDict :
        (o : PathOutcome) (info : ReshardingInfo)
        → IsDict info.nested_path_to_load_plans
        → IsDict (round o info).nested_path_to_load_plans
    unfolding with_outcome
    round-IsDict (planned lp others) info d =
        put-IsDict p (lp ∷ others) info.nested_path_to_load_plans d
    round-IsDict not_reshardable info d = d
    round-IsDict nothing info d = d

  module _ (p : NestedPath) (t : ShardingMetadata) (rest : Dict NestedPath ShardingMetadata)
      (fresh : get p rest ≡ none) where
    Comes-later :
        (path : NestedPath) (o : PathOutcome) → Comes rest path o → Comes ((p, t) ∷ rest) path o
    Comes-later path o (s, e, c) = (s, get-later p path t s rest fresh e, c)

    Comes-cases :
        (path : NestedPath) (o o' : PathOutcome)
        → plan_path torch str_of rank p t (get p source) ≡ ok o'
        → Comes ((p, t) ∷ rest) path o
        → ((p ≡ path) × (o' ≡ o)) ⊎ Comes rest path o
    Comes-cases path o o' done (s, e, c) = elim (Bool-cases (p == path)) [
      | inr differ ↦ inr (s, rw differ at e, c)
      | inl same ↦
          let at = (list_beq_iff p path).0 same in
          let is : t ≡ s = ground arith in
          let both : plan_path torch str_of rank p t (get p source) ≡ ok o =
            subst (λ x. plan_path torch str_of rank p x (get p source) ≡ ok o) (sym is)
              (subst (λ x. plan_path torch str_of rank x s (get x source) ≡ ok o) (sym at) c) in
          inl (at, ok-injective (sym done ∙ both))
    ]

    own-Comes :
        (path : NestedPath) (o o' : PathOutcome)
        → plan_path torch str_of rank p t (get p source) ≡ ok o
        → p ≡ path
        → o ≡ o'
        → Comes ((p, t) ∷ rest) path o'
    own-Comes path o o' done at is =
        subst (λ x. Comes ((p, t) ∷ rest) x o') at (t, get-own p t rest, done ∙ ap ok is)

    round-Sorts :
        (o : PathOutcome) (info out : ReshardingInfo)
        → plan_path torch str_of rank p t (get p source) ≡ ok o
        → Sorts rest (with_outcome torch str_of rank p o info) out
        → Sorts ((p, t) ∷ rest) info out
    round-Sorts o info out done s = record {
      plans = λ path lp others c. elim (Comes-cases path (planned lp others) o done c) [
        | inr later ↦ s.plans path lp others later
        | inl (at, is) ↦
            subst (λ x. get x out.nested_path_to_load_plans ≡ some (lp ∷ others)) at
              (s.elsewhere p fresh ∙ round_plans p o info lp others is)
      ];
      only_plans = λ path ps e. elim (s.only_plans path ps e) [
        | inr (lp, others, c, same) ↦ inr (lp, others, Comes-later path (planned lp others) c, same)
        | inl here ↦ elim (round_only_plans p o info path ps here) [
          | inl old ↦ inl old
          | inr (lp, others, at, is, same) ↦
              inr (lp, others, own-Comes path o (planned lp others) done at is, same)
        ]
      ];
      elsewhere = λ path e. elim (Bool-cases (p == path)) [
        | inl same ↦ absurd (ground arith)
        | inr differ ↦ s.elsewhere path (rw differ at e) ∙ round_elsewhere p o info path differ
      ];
      refused = λ path i. elim i [
        | inl old ↦ s.refused path (inl (round_refused p o info path (inl old)))
        | inr c ↦ elim (Comes-cases path not_reshardable o done c) [
          | inl both ↦ s.refused path (inl (round_refused p o info path (inr both)))
          | inr later ↦ s.refused path (inr later)
        ]
      ];
      only_refused = λ path i. elim (s.only_refused path i) [
        | inr c ↦ inr (Comes-later path not_reshardable c)
        | inl here ↦ elim (round_only_refused p o info path here) [
          | inl old ↦ inl old
          | inr (at, is) ↦ inr (own-Comes path o not_reshardable done at is)
        ]
      ];
      unique = λ d. s.unique (round-IsDict p o info d);
    }

  pub plan_paths-Sorts :
      (target : Dict NestedPath ShardingMetadata) (info : ReshardingInfo)
      → IsDict target
      → AllCome target
      → (out : ReshardingInfo) × (plan_paths torch str_of rank source target info ≡ ok out)
        × Sorts target info out
  unfolding plan_paths
  plan_paths-Sorts [] info u h = (
    info,
    refl,
    record {
      plans = λ path lp others c. absurd (ground (arith, c.1));
      only_plans = λ path ps e. inl e;
      elsewhere = λ path e. refl;
      refused = λ path i. elim i [ inl old ↦ old | inr c ↦ absurd (ground (arith, c.1)) ];
      only_refused = λ path i. inl i;
      unique = λ d. d;
    },
  )
  plan_paths-Sorts ((p, t) ∷ rest) info u ((o, e), h) =
      let (out, ends, s) = plan_paths-Sorts rest (with_outcome torch str_of rank p o info) u.1 h in
      (out, rw (e, plan_paths) ends, round-Sorts p t rest u.0 o info out e s)
