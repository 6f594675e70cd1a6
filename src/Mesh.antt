-- ===== src/Mesh.antt =====
-- torch_checkpointing/dtensor_metadata.py: placements, device meshes and the coordinates of ranks.
-- The weak dictionary in which `_rank_coordinates` keeps its result is a cache of a pure function and
-- is not modelled; the same holds of `lru_cache` and of the cached hashes.
pub mod Coordinates
pub mod Dicts
mod Tests
pub mod Positions
use torch_checkpointing.Prelude.{
  ℕ, zero, suc, not, ◌||◌, Option, none, some, String, List, [], ◌∷◌, ◌++◌, map, eqb, if◌then◌else◌,
  length, prod, Bool, false, nat_eq,
}
use torch_checkpointing.Prelude.Dict.{Dict, get, put}

-- The subclasses of `_PlacementSpec`; `custom` is one that another package adds.
pub data PlacementSpec : Type 0 where
  shard : ℕ → PlacementSpec
  strided_shard : ℕ → ℕ → PlacementSpec
  replicate : PlacementSpec
  custom : ℕ → PlacementSpec

pub record DeviceMeshSpec : Type 0 where
  pub device_type : String
  pub mesh_shape : List ℕ
  pub mesh_data : List ℕ
  pub mesh_dim_names : Option (List String)

pub record DTensorShardingMetadata : Type 0 where
  pub global_shape : List ℕ
  pub dtype : String
  pub stride : List ℕ
  pub mesh_spec : DeviceMeshSpec
  pub placements : List PlacementSpec

-- `ShardingMetadata`: that of DTensors, or another registered subclass.
pub data ShardingMetadata : Type 0 where
  dtensor : DTensorShardingMetadata → ShardingMetadata
  other : ℕ → ShardingMetadata

unfoldable pub member : ℕ → List ℕ → Bool
member r [] = false
member r (x ∷ xs) = eqb x r || member r xs

-- `set(l)`
unfoldable pub to_set : List ℕ → List ℕ
unfolding member
to_set [] = []
to_set (x ∷ xs) = let rest = to_set xs in if member x xs then rest else x ∷ rest

pub data MeshError : Type 0 where
  wrong_count duplicate_ranks wrong_names : MeshError

-- The test of the names in `DeviceMeshSpec.__post_init__`.
names_error : Option (List String) → ℕ → Option MeshError
names_error none dims = none
names_error (some names) dims = if not (eqb (length names) dims) then some wrong_names else none

-- `DeviceMeshSpec.__post_init__`: the error that it raises, if any.
unfoldable pub post_init : DeviceMeshSpec → Option MeshError
unfolding to_set names_error
post_init m =
    if not (eqb (length m.mesh_data) (prod m.mesh_shape))
    then some wrong_count
    else if not (eqb (length (to_set m.mesh_data)) (length m.mesh_data))
    then some duplicate_ranks
    else names_error m.mesh_dim_names (length m.mesh_shape)

-- The rows `i`, `i + 1`, ... of a product, as many as given, above the positions below them.
unfoldable pub rows : ℕ → ℕ → List (List ℕ) → List (List ℕ)
rows zero i below = []
rows (suc n) i below = map (λ c. i ∷ c) below ++ rows n (suc i) below

-- `itertools.product(*(range(size) for size in mesh_shape))`
unfoldable pub positions : List ℕ → List (List ℕ)
unfolding rows
positions [] = [] ∷ []
positions (n ∷ ns) = rows n 0 (positions ns)

-- `dict(zip(mesh_data, positions))`, on top of the entries so far.
unfoldable pub zip_dict : List ℕ → List (List ℕ) → Dict ℕ (List ℕ) → Dict ℕ (List ℕ)
zip_dict (r ∷ rs) (c ∷ cs) d = zip_dict rs cs (put r c d)
zip_dict _ _ d = d

unfoldable pub rank_coordinates : DeviceMeshSpec → Dict ℕ (List ℕ)
unfolding zip_dict positions
rank_coordinates m = zip_dict m.mesh_data (positions m.mesh_shape) []

-- `DeviceMeshSpec.get_coordinate`
unfoldable pub get_coordinate : DeviceMeshSpec → ℕ → Option (List ℕ)
unfolding rank_coordinates
get_coordinate m rank = get rank (rank_coordinates m)

-- `DTensorShardingMetadata.equivalent_ranks`; a foreign subclass is taken to have none.
unfoldable pub equivalent_ranks : ShardingMetadata → Option (List ℕ)
equivalent_ranks (dtensor md) = some md.mesh_spec.mesh_data
equivalent_ranks (other k) = none
