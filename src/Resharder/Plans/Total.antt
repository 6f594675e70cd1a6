-- ===== src/Resharder/Plans/Total.antt =====
-- That the loops of `_generate_load_plans` come to an end with plans
-- (torch_checkpointing/default_resharder.py).
use torch_checkpointing.Prelude.{ℕ, ◌≡◌, refl, some, String, List, [], ◌∷◌, All, length}
use torch_checkpointing.Prelude.Result.{ok}
use torch_checkpointing.Mesh.{DTensorShardingMetadata, ShardingMetadata, dtensor, other}
use torch_checkpointing.Resharder.{
  DTensorPlacement, GlobalObjectMetadata, Shape, PathPlans, add_source, compute_local_shard_info,
  plan_ranks, plan_group, plan_groups, no_plans,
}
use torch_checkpointing.Resharder.Plans.{Copies}
use torch_checkpointing.Resharder.Plans.Loop.{OfGroups, AllFilled, plan_groups-Copies}

module _ (torch : List ℕ → List ℕ → List ℕ → List DTensorPlacement → Shape) where
  -- Every rank has a shard.
  abbrev pub HasShards : DTensorShardingMetadata → List ℕ → Type 0
  HasShards md ranks =
      All (λ r. (src : Shape) × (compute_local_shard_info torch md r ≡ ok src)) ranks

  -- The group is a DTensor's, of which every rank has a shard.
  abbrev pub IsReshardable : ShardingMetadata → List ℕ → Type 0
  IsReshardable (other k) ranks = ⊥
  IsReshardable (dtensor md) ranks = HasShards md ranks

  abbrev pub AreReshardable : List GlobalObjectMetadata → Type 0
  AreReshardable gs = All (λ g. IsReshardable g.sharding_metadata g.ranks) gs

  module _ (tgt : Shape) (fqn : String) where
    plan_ranks_returns :
        (md : DTensorShardingMetadata) (ranks : List ℕ) (st : PathPlans)
        → HasShards md ranks
        → (st' : PathPlans) × (plan_ranks torch tgt fqn md ranks st ≡ ok st')
    unfolding plan_ranks
    plan_ranks_returns md [] st h = (st, refl)
    plan_ranks_returns md (r ∷ ranks) st ((src, known), h) =
        let (st', e) = plan_ranks_returns md ranks (add_source tgt fqn r src st) h in
        (st', rw known e)

    plan_group_returns :
        (m : ShardingMetadata) (ranks : List ℕ) (gs : List GlobalObjectMetadata) (st : PathPlans)
        → IsReshardable m ranks
        → ((s : PathPlans) → (t : PathPlans) × (plan_groups torch tgt fqn gs s ≡ ok (some t)))
        → (st' : PathPlans) × (plan_group torch tgt fqn m ranks (plan_groups torch tgt fqn gs) st
            ≡ ok (some st'))
    unfolding plan_group
    plan_group_returns (other k) ranks gs st h later = absurd h
    plan_group_returns (dtensor md) ranks gs st h later =
        let (mid, e) = plan_ranks_returns md ranks st h in
        let (st', e') = later mid in (st', rw e e')

    plan_groups_returns :
        (gs : List GlobalObjectMetadata) (st : PathPlans)
        → AreReshardable gs
        → (st' : PathPlans) × (plan_groups torch tgt fqn gs st ≡ ok (some st'))
    unfolding plan_groups
    plan_groups_returns [] st h = (st, refl)
    plan_groups_returns (g ∷ gs) st (h, hs) =
        plan_group_returns g.sharding_metadata g.ranks gs st h (λ s. plan_groups_returns gs s hs)

  -- If every group of a path is a DTensor's of which every rank has a shard, the loops end with plans.
  -- Each of them copies between its own source rank's shard and the target shard: the same global
  -- elements, inside both shards. And every element of the target shard that some rank of some
  -- group holds lies in the part of the target that one of the plans fills.
  pub plan_groups_total :
      ((shape mesh coordinate : List ℕ) (placements : List DTensorPlacement)
        → length (torch shape mesh coordinate placements).offset
          ≡ length (torch shape mesh coordinate placements).sizes)
      → (tgt : Shape) (fqn : String) → length tgt.offset ≡ length tgt.sizes
      → (gs : List GlobalObjectMetadata) → AreReshardable gs
      → (st : PathPlans) × (plan_groups torch tgt fqn gs no_plans ≡ ok (some st))
        × All (λ lp. (src : Shape) × OfGroups torch gs lp.src_rank src × Copies src tgt lp) st.plans
        × ((rank : ℕ) (src : Shape)
            → OfGroups torch gs rank src
            → AllFilled tgt src.offset src.sizes st.plans)
  plan_groups_total torch_lengths tgt fqn tgt_lengths gs h =
      let (st, e) = plan_groups_returns tgt fqn gs no_plans h in
      let (sound, filled) = plan_groups-Copies torch torch_lengths tgt fqn tgt_lengths gs st e in
      (st, e, sound, filled)
