-- ===== src/Resharder/Generate/Tests.antt =====
-- Two ranks with half a tensor each, read by one of them, and a path without a source.
use torch_checkpointing.Prelude.{ℕ, ◌≡◌, ◌⊎◌, ◌*◌, refl, none, String, List, [], ◌∷◌}
use torch_checkpointing.Prelude.Result.{ok, err}
use torch_checkpointing.Prelude.Dict.{Dict}
use torch_checkpointing.Types.{NestedPath, name, path_key_eq}
use torch_checkpointing.Mesh
use torch_checkpointing.Mesh.{shard, DTensorShardingMetadata, ShardingMetadata, dtensor, other}
use torch_checkpointing.Slices
use torch_checkpointing.Resharder
use torch_checkpointing.Resharder.{DTensorPlacement, GlobalObjectMetadata, Shape}
use torch_checkpointing.Resharder.Fqn
use torch_checkpointing.Resharder.Fqn.{Collision}
use torch_checkpointing.Resharder.Generate
use torch_checkpointing.Resharder.Generate.{
  ReshardingInfo, collides, generate_load_plans, plan_path, nothing,
}
use torch_checkpointing.Resharder.Generate.Paths.{AllCome}
use torch_checkpointing.Resharder.Generate.Whole.{Clashes, Answers, generate_load_plans-Answers}

abbrev halves : List ℕ → List ℕ → List ℕ → List DTensorPlacement → Shape
halves shape mesh [] placements = record { sizes = 2 ∷ []; offset = 0 ∷ [] }
halves shape mesh (c ∷ cs) placements = record { sizes = 2 ∷ []; offset = 2 * c ∷ [] }

abbrev two_ranks : DTensorShardingMetadata
two_ranks = record {
  global_shape = 4 ∷ [];
  dtype = "float32";
  stride = 1 ∷ [];
  mesh_spec = record {
    device_type = "cpu";
    mesh_shape = 2 ∷ [];
    mesh_data = 7 ∷ 3 ∷ [];
    mesh_dim_names = none;
  };
  placements = shard 0 ∷ [];
}

abbrev no_digits : ℕ → String
no_digits n = ""

abbrev target : Dict NestedPath ShardingMetadata
target =
    (name "w" ∷ [], dtensor two_ranks)
    ∷ (name "b" ∷ [], dtensor two_ranks)
    ∷ (name "c" ∷ [], other 0)
    ∷ []

abbrev source : Dict NestedPath (List GlobalObjectMetadata)
source =
    (name "w" ∷ [], record { sharding_metadata = dtensor two_ranks; ranks = 7 ∷ 3 ∷ [] } ∷ []) ∷ []

all_come : AllCome halves no_digits 3 source target
unfolding plan_path Resharder.plan_groups Resharder.plan_ranks Resharder.compute_local_shard_info
    Resharder.add_source Mesh.get_coordinate Slices.intersect_slices Generate.outcome_of
    Resharder.chunk_plan Slices.global_to_local_slice Slices.starts Slices.extents Slices.box
    Fqn.get_fqn_from_nested_path
all_come = ((_, refl), ((_, refl), ((_, refl), tt)))

generate_load_plans-Answers_example :
    ((c : Collision) × (generate_load_plans halves no_digits 3 target source ≡ err (collides c))
      × Clashes halves no_digits 3 target source c)
    ⊎ ((info : ReshardingInfo) × (generate_load_plans halves no_digits 3 target source ≡ ok info)
        × Answers halves no_digits 3 target source info)
generate_load_plans-Answers_example =
    generate_load_plans-Answers halves no_digits 3 target source (refl, (refl, (refl, tt))) all_come
