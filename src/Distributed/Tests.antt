-- ===== src/Distributed/Tests.antt =====
-- One tensor on two ranks, of which one has a file of its own, in the model of
-- torch_checkpointing/distributed_metadata.py.
use torch_checkpointing.Prelude.{◌≡◌, refl, true, none, some, [], ◌∷◌, All}
use torch_checkpointing.Prelude.Result.{ok, err}
use torch_checkpointing.Types.{name}
use torch_checkpointing.Data.{null, invalid}
use torch_checkpointing.Layout.{torch}
use torch_checkpointing.Mesh.{ShardingMetadata, dtensor, PlacementSpec, post_init}
use torch_checkpointing.Distributed.{
  Foreign, DistributedItemMetadata, DistributedMetadata, current_version, to_dict,
}
use torch_checkpointing.Distributed.Check.{
  all_below, none_above, has_all_ranks, is_used, use_layouts, use_paths, is_valid,
}
use torch_checkpointing.Distributed.Whole.{from_dict}
use torch_checkpointing.Distributed.RoundTrip.{ReadableItem, from_dict-to_dict}
use torch_checkpointing.Distributed.Valid.{ListsRanks, NoneTwice, files, is_valid-NoneTwice}

abbrev foreign : Foreign
foreign = record {
  type_name = λ k. "Custom";
  metadata_to_dict = λ k. null;
  placement_to_dict = λ k. null;
  metadata_from_dict = λ t. none;
  dumps_path = λ p. "[weight]";
  loads_path = λ s. ok (name "weight" ∷ []);
  int_of = λ s. err invalid;
  rsplit = λ s. err invalid;
  import_class = λ m c. err invalid;
}

abbrev weight : ShardingMetadata
weight = dtensor (record {
  global_shape = 4 ∷ [];
  dtype = "float32";
  stride = 1 ∷ [];
  mesh_spec = record {
    device_type = "cuda";
    mesh_shape = 2 ∷ [];
    mesh_data = 0 ∷ 1 ∷ [];
    mesh_dim_names = some ("dp" ∷ []);
  };
  placements = PlacementSpec.shard 0 ∷ [];
})

abbrev model : DistributedItemMetadata
model = record {
  nested_path_to_metadata =
      (name "weight" ∷ [], record { sharding_metadata = weight; ranks = 0 ∷ 1 ∷ [] } ∷ []) ∷ [];
  rank_to_layout_info =
      (0, some (record { file_path = "model_0.pt"; serialization_format = torch }))
      ∷ (1, none)
      ∷ [];
}

abbrev saved : DistributedMetadata
saved = record { metadata = ("model", model) ∷ []; world_size = 2; version = current_version }

saved_valid : is_valid saved ≡ true
unfolding is_valid has_all_ranks all_below none_above use_paths use_layouts is_used
saved_valid = refl

model-Readable : All (λ e. ReadableItem foreign e.1) saved.metadata
unfolding post_init
model-Readable =
    (((refl, tt), ((refl, ((refl, (tt, tt)), tt)), tt), (refl, (refl, tt)), (tt, (tt, tt))), tt)

from_dict-to_dict_example : from_dict foreign (to_dict foreign saved) ≡ ok saved
from_dict-to_dict_example =
    from_dict-to_dict foreign saved refl saved_valid (refl, tt) model-Readable

is_valid-NoneTwice_example :
    All (λ e. ListsRanks 2 e.1) saved.metadata × NoneTwice (files saved.metadata)
is_valid-NoneTwice_example = is_valid-NoneTwice saved saved_valid
