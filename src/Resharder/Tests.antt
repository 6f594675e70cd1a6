-- ===== src/Resharder/Tests.antt =====
-- A tensor of four rows, sharded over two ranks and read by one rank as a whole.
use torch_checkpointing.Prelude.{ℕ, ◌≡◌, ◌*◌, refl, none, some, List, [], ◌∷◌, length, All}
use torch_checkpointing.Prelude.Result.{ok}
use torch_checkpointing.Mesh.{shard, DTensorShardingMetadata, dtensor, get_coordinate}
use torch_checkpointing.Slices.{
  intersect_slices, intersect_loop, global_to_local_slice, starts, extents, box,
}
use torch_checkpointing.Resharder.{
  DTensorPlacement, LoadPlan, GlobalObjectMetadata, Shape, PathPlans, plan_groups, no_plans,
  plan_ranks, compute_local_shard_info, add_source, chunk_plan,
}
use torch_checkpointing.Resharder.Plans.{Copies}
use torch_checkpointing.Resharder.Plans.Loop.{OfGroups, AllFilled}
use torch_checkpointing.Resharder.Plans.Total.{AreReshardable, plan_groups_total}

-- Each rank of a mesh of two has two rows.
abbrev halves : List ℕ → List ℕ → List ℕ → List DTensorPlacement → Shape
halves shape mesh [] placements = record { sizes = 2 ∷ []; offset = 0 ∷ [] }
halves shape mesh (c ∷ cs) placements = record { sizes = 2 ∷ []; offset = 2 * c ∷ [] }

halves_lengths :
    (shape mesh coordinate : List ℕ) (placements : List DTensorPlacement)
    → length (halves shape mesh coordinate placements).offset
      ≡ length (halves shape mesh coordinate placements).sizes
halves_lengths shape mesh [] placements = refl
halves_lengths shape mesh (c ∷ cs) placements = refl

abbrev two_ranks : DTensorShardingMetadata
two_ranks = record {
  global_shape = 4 ∷ [];
  dtype = "float32";
  stride = 1 ∷ [];
  mesh_spec = record {
    device_type = "cpu";
    mesh_shape = 2 ∷ [];
    mesh_data = 7 ∷ 3 ∷ [];
    mesh_dim_names = none;
  };
  placements = shard 0 ∷ [];
}

abbrev sources : List GlobalObjectMetadata
sources = record { sharding_metadata = dtensor two_ranks; ranks = 7 ∷ 3 ∷ [] } ∷ []

abbrev target : Shape
target = record { sizes = 3 ∷ []; offset = 1 ∷ [] }

abbrev plan : ℕ → ℕ → ℕ → ℕ → LoadPlan
plan at size rank src_at = record {
  offsets = at ∷ [];
  sizes = size ∷ [];
  src_rank = rank;
  src_fqn = "w";
  src_offsets = src_at ∷ [];
  src_sizes = size ∷ [];
  transpose_dims = [];
  src_elem_size = 0;
  src_dtype = "";
}

abbrev planned : PathPlans
planned = record {
  seen = (2 ∷ [], 2 ∷ []) ∷ (0 ∷ [], 2 ∷ []) ∷ [];
  plans = plan 0 1 7 1 ∷ plan 1 2 3 0 ∷ [];
}

plans_two : plan_groups halves target "w" sources no_plans ≡ ok (some planned)
unfolding plan_groups plan_ranks compute_local_shard_info add_source get_coordinate intersect_slices
    intersect_loop chunk_plan global_to_local_slice starts extents box
plans_two = refl

reshardable : AreReshardable halves sources
unfolding compute_local_shard_info get_coordinate
reshardable = (
  (
    (record { sizes = 2 ∷ []; offset = 0 ∷ [] }, refl),
    ((record { sizes = 2 ∷ []; offset = 2 ∷ [] }, refl), tt),
  ),
  tt,
)

plan_groups_total_example :
    (st : PathPlans) × (plan_groups halves target "w" sources no_plans ≡ ok (some st))
    × All
        (λ lp. (src : Shape) × OfGroups halves sources lp.src_rank src × Copies src target lp)
        st.plans
    × ((rank : ℕ) (src : Shape)
        → OfGroups halves sources rank src
        → AllFilled target src.offset src.sizes st.plans)
plan_groups_total_example =
    plan_groups_total halves halves_lengths target "w" refl sources reshardable
