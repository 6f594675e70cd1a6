-- ===== src/Distributed/Whole.antt =====
-- `DistributedMetadata.from_dict` of torch_checkpointing/distributed_metadata.py.
use torch_checkpointing.Prelude.{
  none, some, String, [], ◌==◌, string_eq, nat_eq, list_eq, if◌then◌else◌,
}
use torch_checkpointing.Prelude.Result.{Result, ok, err, ◌>>=◌}
use torch_checkpointing.Prelude.Dict.{Dict}
use torch_checkpointing.Types.{path_key_eq}
use torch_checkpointing.Data.{
  Data, dict, FormatError, wrong_type, field, get_field, as_text, as_number,
}
use torch_checkpointing.Distributed.{
  Foreign, DistributedItemMetadata, DistributedMetadata, current_version, read_items,
}
use torch_checkpointing.Distributed.Check.{checked}
use torch_checkpointing.Distributed.Version1.{convert_v1_to_v2}

unfoldable pub items_from_dict :
    Foreign → Data → Result FormatError (Dict String DistributedItemMetadata)
items_from_dict f (dict ms) = read_items f [] ms
items_from_dict f d = err wrong_type

-- The metadata of a version: 2.0, or one that is converted.
unfoldable pub metadata_of_version :
    Foreign → String → Data → Result FormatError (Dict String DistributedItemMetadata)
metadata_of_version f version d =
    if version == current_version then (do raw ← field "metadata" d; items_from_dict f raw) else (do
      raw ← field "metadata" d
      mappings ← field "rank_to_layout_info_mappings" d
      convert_v1_to_v2 f raw mappings)

-- `DistributedMetadata.from_dict`
unfoldable pub from_dict : Foreign → Data → Result FormatError DistributedMetadata
from_dict f d =
    let version_of : Result FormatError String = elim (get_field "version" d) [
      | none ↦ ok "1.0"
      | some v ↦ as_text v
    ] in
    do
      version ← version_of
      metadata ← metadata_of_version f version d
      raw_size ← field "world_size" d
      world_size ← as_number raw_size
      checked (record { metadata = metadata; world_size = world_size; version = current_version })
