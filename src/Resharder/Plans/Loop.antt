-- ===== src/Resharder/Plans/Loop.antt =====
-- The loops of `_generate_load_plans` over the groups and ranks of one path.
use torch_checkpointing.Prelude.{
  ℕ, ◌≡◌, refl, true, Option, none, some, String, List, [], ◌∷◌, ◌++◌, arith, length, All,
  All-append, All-map, inl, inr, ◌⊎◌, Bool-cases, list_eq, nat_eq, list_beq_iff,
}
use torch_checkpointing.Prelude.Result.{Result, ok, err, ◌>>=◌, >>=-eq-ok}
use torch_checkpointing.Mesh.{DTensorShardingMetadata, ShardingMetadata, dtensor, other}
use torch_checkpointing.Slices.{Slice, box, intersect_slices, Inside}
use torch_checkpointing.Slices.Intersect.{IsIntersection, intersect_slices-IsIntersection}
use torch_checkpointing.Resharder.{
  DTensorPlacement, ReshardError, LoadPlan, GlobalObjectMetadata, Shape, chunk_plan, PathPlans,
  is_seen, add_plan, add_source, compute_local_shard_info, shard_at, plan_ranks, plan_group,
  plan_groups, no_plans,
}
use torch_checkpointing.Resharder.Plans.{Copies, Fills, Filled, chunk_plan-Copies, chunk_plan-Fills}

module _ (tgt : Shape) (p : List ℕ) where
  Filled-append :
      (xs : List LoadPlan) (y : LoadPlan) → Filled tgt p xs → Filled tgt p (xs ++ y ∷ [])
  Filled-append [] y h = absurd h
  Filled-append (x ∷ xs) y (inl h) = inl h
  Filled-append (x ∷ xs) y (inr h) = inr (Filled-append xs y h)

  Filled-last : (xs : List LoadPlan) (y : LoadPlan) → Fills tgt y p → Filled tgt p (xs ++ y ∷ [])
  Filled-last [] y h = inl h
  Filled-last (x ∷ xs) y h = inr (Filled-last xs y h)

-- Every position that the target shares with a shard is filled.
abbrev pub AllFilled : Shape → List ℕ → List ℕ → List LoadPlan → Type 0
AllFilled tgt offset sizes plans =
    (p : List ℕ)
    → Inside p (box offset sizes)
    → Inside p (box tgt.offset tgt.sizes)
    → Filled tgt p plans

-- Each plan is one of a source, and each shard seen is dealt with.
pub record Good (tgt : Shape) (Source : ℕ → Shape → Type 0) (st : PathPlans) : Type 0 where
  pub sound : All (λ lp. (src : Shape) × Source lp.src_rank src × Copies src tgt lp) st.plans
  pub seen : All (λ k. AllFilled tgt k.0 k.1 st.plans) st.seen

is_seen-All :
    (Q : List ℕ × List ℕ → Type 0) (o s : List ℕ) (l : List (List ℕ × List ℕ))
    → is_seen (o, s) l ≡ true
    → All Q l
    → Q (o, s)
unfolding is_seen
is_seen-All Q o s [] h all = cc
is_seen-All Q o s ((o', s') ∷ l) h all = elim (Bool-cases (is_seen (o, s) l)) [
  | inl later ↦ is_seen-All Q o s l later all.1
  | inr first ↦
      let eo : o' ≡ o = ground (arith, list_beq_iff o' o) in
      let es : s' ≡ s = ground (arith, list_beq_iff s' s) in rw (← eo, ← es) all.0
]

module _ (tgt : Shape) (Source : ℕ → Shape → Type 0) (fqn : String)
    (tgt_lengths : length tgt.offset ≡ length tgt.sizes) where
  -- A plan list grows, and keeps what it fills.
  abbrev Grows : List LoadPlan → List LoadPlan → Type 0
  Grows xs ys = (p : List ℕ) → Filled tgt p xs → Filled tgt p ys

  abbrev IsSound : LoadPlan → Type 0
  IsSound lp = (src : Shape) × Source lp.src_rank src × Copies src tgt lp

  add_plan-lem :
      (rank : ℕ) (src : Shape) (plans : List LoadPlan) (o : Option (List Slice))
      → intersect_slices (box src.offset src.sizes) (box tgt.offset tgt.sizes) ≡ o
      → length src.offset ≡ length src.sizes
      → Source rank src
      → All IsSound plans
      → All IsSound (add_plan plans rank fqn src tgt o)
        × Grows plans (add_plan plans rank fqn src tgt o)
        × AllFilled tgt src.offset src.sizes (add_plan plans rank fqn src tgt o)
  unfolding chunk_plan
  add_plan-lem rank src plans none e ls is sound =
      let apart : IsIntersection (box src.offset src.sizes) (box tgt.offset tgt.sizes) none =
        rw e at
          (intersect_slices-IsIntersection (box src.offset src.sizes) (box tgt.offset tgt.sizes)) in
      (sound, (λ p h. h), (λ p i j. absurd (apart p (i, j))))
  add_plan-lem rank src plans (some r) e ls is sound = (
    All-append IsSound plans _ sound
        (src, is, chunk_plan-Copies rank fqn src tgt r ls tgt_lengths e),
    (λ p h. Filled-append tgt p plans _ h),
    (λ p i j.
        Filled-last tgt p plans _ (chunk_plan-Fills rank fqn src tgt r ls tgt_lengths e p i j)),
  )

  -- What a stretch of the loop leaves behind.
  abbrev Advances : PathPlans → PathPlans → Type 0
  Advances st st' = Good tgt Source st' × Grows st.plans st'.plans

  add_source-lem :
      (rank : ℕ) (src : Shape) (st : PathPlans)
      → length src.offset ≡ length src.sizes
      → Source rank src
      → Good tgt Source st
      → Advances st (add_source tgt fqn rank src st)
        × AllFilled tgt src.offset src.sizes (add_source tgt fqn rank src st).plans
  unfolding add_source
  add_source-lem rank src st lengths is good =
      elim (Bool-cases (is_seen (src.offset, src.sizes) st.seen)) [
        | inl old ↦
            rw old ((good, λ p h. h), is_seen-All _ src.offset src.sizes st.seen old good.seen)
        | inr new ↦
            let (sound, grows, filled) =
              add_plan-lem rank src st.plans _ refl lengths is good.sound in
            rw new (
              (
                record {
                  sound = sound;
                  seen =
                      (filled, All-map _ st.seen (λ k done p i j. grows p (done p i j)) good.seen);
                },
                grows,
              ),
              filled,
            )
      ]

module _ (torch : List ℕ → List ℕ → List ℕ → List DTensorPlacement → Shape) where
  -- The shards of the ranks of a group, and of the groups of a path.
  abbrev pub OfRanks : DTensorShardingMetadata → List ℕ → ℕ → Shape → Type 0
  OfRanks md [] rank src = ⊥
  OfRanks md (r ∷ ranks) rank src =
      ((r ≡ rank) × (compute_local_shard_info torch md r ≡ ok src)) ⊎ OfRanks md ranks rank src

  abbrev pub OfGroup : ShardingMetadata → List ℕ → ℕ → Shape → Type 0
  OfGroup (other k) ranks rank src = ⊥
  OfGroup (dtensor md) ranks rank src = OfRanks md ranks rank src

  abbrev pub OfGroups : List GlobalObjectMetadata → ℕ → Shape → Type 0
  OfGroups [] rank src = ⊥
  OfGroups (g ∷ gs) rank src = OfGroup g.sharding_metadata g.ranks rank src ⊎ OfGroups gs rank src

module _ (torch : List ℕ → List ℕ → List ℕ → List DTensorPlacement → Shape)
    (torch_lengths : (shape mesh coordinate : List ℕ) (placements : List DTensorPlacement)
      → length (torch shape mesh coordinate placements).offset
        ≡ length (torch shape mesh coordinate placements).sizes) where
  placed_lengths :
      (md : DTensorShardingMetadata) (c : List ℕ) (ps : Result ReshardError (List DTensorPlacement))
      (src : Shape)
      → (ps >>= λ q. ok (torch md.global_shape md.mesh_spec.mesh_shape c q)) ≡ ok src
      → length src.offset ≡ length src.sizes
  placed_lengths md c (err e) src h = cc
  placed_lengths md c (ok q) src h =
      ground (arith, torch_lengths md.global_shape md.mesh_spec.mesh_shape c q)

  shard_at_lengths :
      (md : DTensorShardingMetadata) (rank : ℕ) (c : Option (List ℕ)) (src : Shape)
      → shard_at torch md rank c ≡ ok src
      → length src.offset ≡ length src.sizes
  unfolding shard_at
  shard_at_lengths md rank none src h = cc
  shard_at_lengths md rank (some c) src h = placed_lengths md c _ src h

  pub compute_local_shard_info_lengths :
      (md : DTensorShardingMetadata) (rank : ℕ) (src : Shape)
      → compute_local_shard_info torch md rank ≡ ok src
      → length src.offset ≡ length src.sizes
  unfolding compute_local_shard_info
  compute_local_shard_info_lengths md rank src h = shard_at_lengths md rank _ src h

  module _ (tgt : Shape) (fqn : String) (tgt_lengths : length tgt.offset ≡ length tgt.sizes) where
    module _ (Source : ℕ → Shape → Type 0) where
      plan_ranks-lem :
          (md : DTensorShardingMetadata) (ranks : List ℕ) (st st' : PathPlans)
          → ((rank : ℕ) (src : Shape) → OfRanks torch md ranks rank src → Source rank src)
          → plan_ranks torch tgt fqn md ranks st ≡ ok st'
          → Good tgt Source st
          → Advances tgt Source fqn tgt_lengths st st'
            × ((rank : ℕ) (src : Shape)
                → OfRanks torch md ranks rank src
                → AllFilled tgt src.offset src.sizes st'.plans)
      unfolding plan_ranks
      plan_ranks-lem md [] st st' is h good =
          let e : st ≡ st' = ground arith in
          rw (← e) ((good, λ p f. f), λ rank src none'. absurd none')
      plan_ranks-lem md (r ∷ ranks) st st' is h good =
          let (src, known, rest) = >>=-eq-ok (compute_local_shard_info torch md r) _ h in
          let ((good1, grows1), filled1) =
            add_source-lem tgt Source fqn tgt_lengths r src st
              (compute_local_shard_info_lengths md r src known) (is r src (inl (refl, known)))
              good in
          let ((good2, grows2), filled2) =
            plan_ranks-lem md ranks (add_source tgt fqn r src st) st'
              (λ rank s o. is rank s (inr o)) rest good1 in
          (
            (good2, λ p f. grows2 p (grows1 p f)),
            λ rank s o. elim o [
              | inl (_, k) ↦ let e : src ≡ s = cc in rw (← e) (λ p i j. grows2 p (filled1 p i j))
              | inr later ↦ filled2 rank s later
            ],
          )

      -- What the loop over groups leaves behind, if it is not broken off.
      abbrev Completes : (ℕ → Shape → Type 0) → PathPlans → PathPlans → Type 0
      Completes Of st st' =
          Advances tgt Source fqn tgt_lengths st st'
          × ((rank : ℕ) (src : Shape) → Of rank src → AllFilled tgt src.offset src.sizes st'.plans)

      plan_group-lem :
          (m : ShardingMetadata) (ranks : List ℕ) (gs : List GlobalObjectMetadata)
          (st st' : PathPlans)
          → ((rank : ℕ) (src : Shape) → OfGroup torch m ranks rank src → Source rank src)
          → ((s t : PathPlans)
              → plan_groups torch tgt fqn gs s ≡ ok (some t)
              → Good tgt Source s
              → Completes (OfGroups torch gs) s t)
          → plan_group torch tgt fqn m ranks (plan_groups torch tgt fqn gs) st ≡ ok (some st')
          → Good tgt Source st
          → Completes
              (λ rank src. OfGroup torch m ranks rank src ⊎ OfGroups torch gs rank src)
              st
              st'
      unfolding plan_group
      plan_group-lem (other k) ranks gs st st' is later h good = ground arith
      plan_group-lem (dtensor md) ranks gs st st' is later h good =
          let (mid, first, rest) = >>=-eq-ok (plan_ranks torch tgt fqn md ranks st) _ h in
          let ((good1, grows1), filled1) = plan_ranks-lem md ranks st mid is first good in
          let ((good2, grows2), filled2) = later mid st' rest good1 in
          (
            (good2, λ p f. grows2 p (grows1 p f)),
            λ rank s o. elim o [
              | inl here ↦ λ p i j. grows2 p (filled1 rank s here p i j)
              | inr there ↦ filled2 rank s there
            ],
          )

      plan_groups-lem :
          (gs : List GlobalObjectMetadata) (st st' : PathPlans)
          → ((rank : ℕ) (src : Shape) → OfGroups torch gs rank src → Source rank src)
          → plan_groups torch tgt fqn gs st ≡ ok (some st')
          → Good tgt Source st
          → Completes (OfGroups torch gs) st st'
      unfolding plan_groups
      plan_groups-lem [] st st' is h good =
          let e : st ≡ st' = ground arith in
          rw (← e) ((good, λ p f. f), λ rank src none'. absurd none')
      plan_groups-lem (g ∷ gs) st st' is h good =
          plan_group-lem g.sharding_metadata g.ranks gs st st' (λ rank s o. is rank s (inl o))
            (λ s t. plan_groups-lem gs s t (λ rank s o. is rank s (inr o))) h good

    -- What holds of the plans when the loops end with plans.
    pub plan_groups-Copies :
        (gs : List GlobalObjectMetadata) (st : PathPlans)
        → plan_groups torch tgt fqn gs no_plans ≡ ok (some st)
        → All (λ lp. (src : Shape) × OfGroups torch gs lp.src_rank src × Copies src tgt lp) st.plans
          × ((rank : ℕ) (src : Shape)
              → OfGroups torch gs rank src
              → AllFilled tgt src.offset src.sizes st.plans)
    plan_groups-Copies gs st h =
        let ((good, _), filled) =
          plan_groups-lem (OfGroups torch gs) gs no_plans st (λ rank s o. o) h
            (record { sound = tt; seen = tt }) in
        (good.sound, filled)
