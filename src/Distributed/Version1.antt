-- ===== src/Distributed/Version1.antt =====
-- `_convert_v1_to_v2` of torch_checkpointing/distributed_metadata.py.
use torch_checkpointing.Prelude.{
  ℕ, Option, none, some, String, List, [], ◌∷◌, string_eq, nat_eq, list_eq,
}
use torch_checkpointing.Prelude.Result.{Result, ok, err, ◌>>=◌}
use torch_checkpointing.Prelude.Dict.{Dict, get, put}
use torch_checkpointing.Types.{NestedPath, CheckpointPath, name, place, path_key_eq}
use torch_checkpointing.Data.{
  Data, dict, Members, no_members, member, RankMembers, no_ranks, at_rank, dict_by_rank,
  FormatError, wrong_type, items_of, map_from,
}
use torch_checkpointing.Layout.{LayoutInfo}
use torch_checkpointing.Resharder.{GlobalObjectMetadata}
use torch_checkpointing.Distributed.{
  Foreign, DistributedItemMetadata, group_from_dict, layout_or_none_from,
}

module _ (f : Foreign) where
  -- `{key: LayoutInfo.from_dict(...)}` of one rank.
  unfoldable pub read_mapping :
      Dict String (Option LayoutInfo)
      → Members
      → Result FormatError (Dict String (Option LayoutInfo))
  read_mapping acc no_members = ok acc
  read_mapping acc (member key raw rest) = do
    l ← layout_or_none_from f raw
    read_mapping (put key l acc) rest

  unfoldable pub mapping_from_dict : Data → Result FormatError (Dict String (Option LayoutInfo))
  mapping_from_dict (dict ms) = read_mapping [] ms
  mapping_from_dict d = err wrong_type

  unfoldable pub read_mappings :
      Dict ℕ (Dict String (Option LayoutInfo))
      → Members
      → Result FormatError (Dict ℕ (Dict String (Option LayoutInfo)))
  read_mappings acc no_members = ok acc
  read_mappings acc (member s raw rest) = do
    rank ← f.int_of s
    mapping ← mapping_from_dict raw
    read_mappings (put rank mapping acc) rest

  unfoldable pub read_rank_mappings :
      Dict ℕ (Dict String (Option LayoutInfo))
      → RankMembers
      → Result FormatError (Dict ℕ (Dict String (Option LayoutInfo)))
  read_rank_mappings acc no_ranks = ok acc
  read_rank_mappings acc (at_rank rank raw rest) = do
    mapping ← mapping_from_dict raw
    read_rank_mappings (put rank mapping acc) rest

  unfoldable pub mappings_from_dict :
      Data → Result FormatError (Dict ℕ (Dict String (Option LayoutInfo)))
  mappings_from_dict (dict ms) = read_mappings [] ms
  mappings_from_dict (dict_by_rank ranks) = read_rank_mappings [] ranks
  mappings_from_dict d = err wrong_type

  -- `CheckpointPath.deserialize`
  unfoldable pub deserialize : String → Result FormatError CheckpointPath
  deserialize data' = do
    components ← f.loads_path data'
    elim components [
      | [] ↦ err wrong_type
      | k ∷ nested ↦ elim k [
        | name item_key ↦ ok (record { item_key = item_key; nested_path = nested })
        | place i ↦ err wrong_type
      ]
    ]

  -- `item_to_nested_paths[item_key][nested_path] = groups`, where the item's dict is made if it is missing
  unfoldable pub add_path :
      CheckpointPath
      → List GlobalObjectMetadata
      → Dict String (Dict NestedPath (List GlobalObjectMetadata))
      → Dict String (Dict NestedPath (List GlobalObjectMetadata))
  add_path path groups acc =
      let known : Dict NestedPath (List GlobalObjectMetadata) = elim (get path.item_key acc) [
        | none ↦ []
        | some paths ↦ paths
      ] in
      put path.item_key (put path.nested_path groups known) acc

  unfoldable pub group_v1 :
      Dict String (Dict NestedPath (List GlobalObjectMetadata))
      → Members
      → Result FormatError (Dict String (Dict NestedPath (List GlobalObjectMetadata)))
  group_v1 acc no_members = ok acc
  group_v1 acc (member s raw rest) = do
    path ← deserialize s
    items ← items_of raw
    groups ← map_from (group_from_dict f) items
    group_v1 (add_path path groups acc) rest

  unfoldable pub paths_of_v1 :
      Data → Result FormatError (Dict String (Dict NestedPath (List GlobalObjectMetadata)))
  paths_of_v1 (dict ms) = group_v1 [] ms
  paths_of_v1 d = err wrong_type

-- `{rank: layout_mapping.get(item_key)}`
unfoldable pub layouts_of_item :
    String → Dict ℕ (Dict String (Option LayoutInfo)) → Dict ℕ (Option LayoutInfo)
layouts_of_item key [] = []
layouts_of_item key ((rank, mapping) ∷ rest) =
    (rank, elim (get key mapping) [ none ↦ none | some l ↦ l ]) ∷ layouts_of_item key rest

unfoldable pub items_with_layouts :
    Dict ℕ (Dict String (Option LayoutInfo))
    → Dict String (Dict NestedPath (List GlobalObjectMetadata))
    → Dict String DistributedItemMetadata
items_with_layouts mappings [] = []
items_with_layouts mappings ((key, paths) ∷ rest) =
    (
      key,
      record {
        nested_path_to_metadata = paths;
        rank_to_layout_info = layouts_of_item key mappings;
      },
    )
    ∷ items_with_layouts mappings rest

unfoldable pub convert_v1_to_v2 :
    Foreign → Data → Data → Result FormatError (Dict String DistributedItemMetadata)
convert_v1_to_v2 f v1_metadata raw_layout_info = do
  mappings ← mappings_from_dict f raw_layout_info
  paths ← paths_of_v1 f v1_metadata
  ok (items_with_layouts mappings paths)
