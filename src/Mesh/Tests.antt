-- ===== src/Mesh/Tests.antt =====
-- A mesh of two by two.
use torch_checkpointing.Prelude.{ℕ, ◌≡◌, ◌↔◌, refl, none, some, [], ◌∷◌, get_elem?}
use torch_checkpointing.Prelude.Result.{ok}
use torch_checkpointing.Data.{Data, null}
use torch_checkpointing.Mesh.Dicts.{
  dtensor_to_dict, dtensor_from_dict, dtensor_from_dict-dtensor_to_dict,
}
use torch_checkpointing.Mesh.{
  DTensorShardingMetadata, PlacementSpec, DeviceMeshSpec, post_init, get_coordinate,
}
use torch_checkpointing.Mesh.Positions.{IsCoordinate, ravel}
use torch_checkpointing.Mesh.Coordinates.{get_coordinate_iff}

abbrev square : DeviceMeshSpec
square = record {
  device_type = "cuda";
  mesh_shape = 2 ∷ 2 ∷ [];
  mesh_data = 0 ∷ 2 ∷ 1 ∷ 3 ∷ [];
  mesh_dim_names = none;
}

valid : post_init square ≡ none
unfolding post_init
valid = refl

finds : get_coordinate square 1 ≡ some (1 ∷ 0 ∷ [])
unfolding get_coordinate
finds = refl

get_coordinate_iff_example : (get_coordinate square 1 ≡ some (1 ∷ 0 ∷ [])) ↔ (
    IsCoordinate square.mesh_shape (1 ∷ 0 ∷ [])
    × (get_elem? square.mesh_data (ravel square.mesh_shape (1 ∷ 0 ∷ [])) ≡ some 1))
get_coordinate_iff_example = get_coordinate_iff square 1 (1 ∷ 0 ∷ []) valid

abbrev matrix : DTensorShardingMetadata
matrix = record {
  global_shape = 8 ∷ 6 ∷ [];
  dtype = "float32";
  stride = 6 ∷ 1 ∷ [];
  mesh_spec = square;
  placements = PlacementSpec.strided_shard 0 2 ∷ PlacementSpec.replicate ∷ [];
}

no_dict : ℕ → Data
no_dict k = null

dtensor_from_dict-dtensor_to_dict_example :
    dtensor_from_dict (dtensor_to_dict no_dict matrix) ≡ ok matrix
dtensor_from_dict-dtensor_to_dict_example =
    dtensor_from_dict-dtensor_to_dict no_dict matrix valid (tt, (tt, tt))
