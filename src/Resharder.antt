-- ===== src/Resharder.antt =====
-- The load plans of torch_checkpointing/default_resharder.py.
-- torch's `_compute_local_shape_and_global_offset` is the parameter `local_shape_and_global_offset`.
pub mod Aliases
pub mod Chunks
pub mod Fqn
pub mod Generate
pub mod Plans
pub mod Reads
mod Tests
use torch_checkpointing.Prelude.{
  ℕ, ◌+◌, Bool, true, false, ◌&&◌, ◌||◌, Option, none, some, String, List, [], ◌∷◌, ◌++◌, Eq, ◌==◌,
  if◌then◌else◌, list_eq, nat_eq,
}
use torch_checkpointing.Prelude.Result.{Result, ok, err, ◌>>=◌}
use torch_checkpointing.Mesh.{
  PlacementSpec, DeviceMeshSpec, DTensorShardingMetadata, ShardingMetadata, dtensor, other,
  get_coordinate,
}
use torch_checkpointing.Slices.{
  Slice, box, intersect_slices, global_to_local_slice, starts, extents,
}

-- torch's placement types, which `_to_dtensor_placements` builds.
pub data DTensorPlacement : Type 0 where
  shard : ℕ → DTensorPlacement
  strided_shard : ℕ → ℕ → DTensorPlacement
  replicate : DTensorPlacement

pub data ReshardError : Type 0 where
  rank_not_in_mesh : ℕ → ReshardError
  unsupported_placement : ReshardError
  fqn_collision : String → ReshardError

-- `LoadPlan` of torch_checkpointing/resharding.py
pub record LoadPlan : Type 0 where
  pub offsets : List ℕ
  pub sizes : List ℕ
  pub src_rank : ℕ
  pub src_fqn : String
  pub src_offsets : List ℕ
  pub src_sizes : List ℕ
  pub transpose_dims : List ℕ
  pub src_elem_size : ℕ
  pub src_dtype : String

-- `GlobalObjectMetadata` of torch_checkpointing/distributed_metadata.py
pub record GlobalObjectMetadata : Type 0 where
  pub sharding_metadata : ShardingMetadata
  pub ranks : List ℕ

to_dtensor_placement : PlacementSpec → Result ReshardError DTensorPlacement
to_dtensor_placement (PlacementSpec.strided_shard dim factor) =
    ok (DTensorPlacement.strided_shard dim factor)
to_dtensor_placement (PlacementSpec.shard dim) = ok (DTensorPlacement.shard dim)
to_dtensor_placement PlacementSpec.replicate = ok DTensorPlacement.replicate
to_dtensor_placement (PlacementSpec.custom k) = err unsupported_placement

unfoldable pub to_dtensor_placements :
    List PlacementSpec → Result ReshardError (List DTensorPlacement)
unfolding to_dtensor_placement
to_dtensor_placements [] = ok []
to_dtensor_placements (p ∷ ps) = do
  q ← to_dtensor_placement p
  qs ← to_dtensor_placements ps
  ok (q ∷ qs)

-- A shard's shape and where it starts.
pub record Shape : Type 0 where
  pub sizes : List ℕ
  pub offset : List ℕ

-- A plan for one intersection of a source and a target shard.
unfoldable pub chunk_plan : ℕ → String → List Slice → List ℕ → List ℕ → LoadPlan
chunk_plan src_rank fqn intersection src_offset tgt_offset = record {
  offsets = starts (global_to_local_slice intersection tgt_offset);
  sizes = extents intersection;
  src_rank = src_rank;
  src_fqn = fqn;
  src_offsets = starts (global_to_local_slice intersection src_offset);
  src_sizes = extents intersection;
  transpose_dims = [];
  src_elem_size = 0;
  src_dtype = "";
}

-- `seen_source_slices` and `param_load_plans`
pub record PathPlans : Type 0 where
  pub seen : List (List ℕ × List ℕ)
  pub plans : List LoadPlan

unfoldable pub is_seen : List ℕ × List ℕ → List (List ℕ × List ℕ) → Bool
is_seen k [] = false
is_seen (o, s) ((o', s') ∷ rest) = (o' == o && s' == s) || is_seen (o, s) rest

abbrev pub add_plan :
    List LoadPlan → ℕ → String → Shape → Shape → Option (List Slice) → List LoadPlan
add_plan plans rank fqn src tgt none = plans
add_plan plans rank fqn src tgt (some i) = plans ++ chunk_plan rank fqn i src.offset tgt.offset ∷ []

-- What the loop over the ranks of a group does with the shard of one rank.
unfoldable pub add_source : Shape → String → ℕ → Shape → PathPlans → PathPlans
unfolding is_seen
add_source tgt fqn rank src st = if is_seen (src.offset, src.sizes) st.seen then st else record {
  seen = (src.offset, src.sizes) ∷ st.seen;
  plans =
      add_plan st.plans rank fqn src tgt
        (intersect_slices (box src.offset src.sizes) (box tgt.offset tgt.sizes));
}

module _
    (local_shape_and_global_offset : List ℕ → List ℕ → List ℕ → List DTensorPlacement → Shape) where
  -- The rest of `compute_local_shard_info`, from the rank's coordinate on.
  unfoldable pub shard_at :
      DTensorShardingMetadata → ℕ → Option (List ℕ) → Result ReshardError Shape
  unfolding to_dtensor_placements
  shard_at md rank none = err (rank_not_in_mesh rank)
  shard_at md rank (some coordinate) = do
    placements ← to_dtensor_placements md.placements
    ok (local_shape_and_global_offset md.global_shape md.mesh_spec.mesh_shape coordinate placements)

  unfoldable pub compute_local_shard_info : DTensorShardingMetadata → ℕ → Result ReshardError Shape
  unfolding shard_at
  compute_local_shard_info md rank = shard_at md rank (get_coordinate md.mesh_spec rank)

  -- `for src_rank in group.ranks`
  unfoldable pub plan_ranks :
      Shape → String → DTensorShardingMetadata → List ℕ → PathPlans → Result ReshardError PathPlans
  plan_ranks tgt fqn md [] st = ok st
  plan_ranks tgt fqn md (rank ∷ ranks) st = do
    src ← compute_local_shard_info md rank
    plan_ranks tgt fqn md ranks (add_source tgt fqn rank src st)

  -- One group, and what follows it; none when the group is not a DTensor's.
  unfoldable pub plan_group :
      Shape
      → String
      → ShardingMetadata
      → List ℕ
      → (PathPlans → Result ReshardError (Option PathPlans))
      → PathPlans
      → Result ReshardError (Option PathPlans)
  plan_group tgt fqn (other k) ranks rest st = ok none
  plan_group tgt fqn (dtensor md) ranks rest st = plan_ranks tgt fqn md ranks st >>= rest

  -- `for group in source_groups`
  unfoldable pub plan_groups :
      Shape
      → String
      → List GlobalObjectMetadata
      → PathPlans
      → Result ReshardError (Option PathPlans)
  unfolding plan_group
  plan_groups tgt fqn [] st = ok (some st)
  plan_groups tgt fqn (g ∷ gs) st =
      plan_group tgt fqn g.sharding_metadata g.ranks (plan_groups tgt fqn gs) st

abbrev pub no_plans : PathPlans
no_plans = record { seen = []; plans = [] }
