-- ===== src/Distributed.antt =====
-- torch_checkpointing/distributed_metadata.py: the metadata of all ranks and its dictionary. JSON texts of
-- paths, `int`, and the subclasses of `ShardingMetadata` of other packages are parameters. The keys of the
-- dictionary of layouts are ranks, as in the source.
pub mod Check
pub mod Lookup
mod Tests
pub mod RoundTrip
pub mod Valid
pub mod Version1
pub mod Whole
use torch_checkpointing.Prelude.{
  ℕ, suc, Bool, true, false, ◌&&◌, ◌||◌, ltb, ◌++◌, zero, Option, none, some, String, List, [], ◌∷◌,
  ◌==◌, eqb, string_eq, nat_eq, list_eq, if◌then◌else◌,
}
use torch_checkpointing.Prelude.Result.{Result, ok, err, ◌>>=◌}
use torch_checkpointing.Prelude.Dict.{Dict, get, put, has, keys}
use torch_checkpointing.Types.{NestedPath, CheckpointPath, name, place, path_key_eq}
use torch_checkpointing.Data.{
  Data, null, number, text, list, tuple, dict, Members, no_members, member, RankMembers, no_ranks,
  at_rank, dict_by_rank, FormatError, missing_key, unknown_type, wrong_type, invalid, field,
  get_field, as_text, as_number, items_of, numbers, read_numbers, map_to, map_from, Datas,
}
use torch_checkpointing.Layout.{
  LayoutInfo, PyClass, layout_to_dict, layout_from_dict, default_torch_layout_info,
}
use torch_checkpointing.Mesh.{ShardingMetadata, dtensor, other, member as is_member}
use torch_checkpointing.Mesh.Dicts.{dtensor_to_dict, dtensor_from_dict}
use torch_checkpointing.Resharder.{GlobalObjectMetadata}
use torch_checkpointing.Metadata.Merge.{LocalMetadata, aggregate_metadata_across_ranks}

-- What the model takes from other code: the name and the dictionaries of another package's metadata and
-- placements, the registry's `from_dict`, JSON texts of paths, and the names of classes.
pub record Foreign : Type 0 where
  pub type_name : ℕ → String
  pub metadata_to_dict : ℕ → Data
  pub placement_to_dict : ℕ → Data
  pub metadata_from_dict : String → Option (Data → Result FormatError ShardingMetadata)
  pub dumps_path : NestedPath → String
  pub loads_path : String → Result FormatError NestedPath
  pub int_of : String → Result FormatError ℕ
  pub rsplit : String → Result FormatError (String × String)
  pub import_class : String → String → Result FormatError PyClass

pub record DistributedItemMetadata : Type 0 where
  pub nested_path_to_metadata : Dict NestedPath (List GlobalObjectMetadata)
  pub rank_to_layout_info : Dict ℕ (Option LayoutInfo)

pub record DistributedMetadata : Type 0 where
  pub metadata : Dict String DistributedItemMetadata
  pub world_size : ℕ
  pub version : String

-- The name under which the registry has the metadata of DTensors: that of the class.
abbrev pub dtensor_type : String
dtensor_type = "DTensorShardingMetadata"

abbrev pub current_version : String
current_version = "2.0"

module _ (f : Foreign) where
  -- `ShardingMetadata._pack`
  unfoldable pub pack : ShardingMetadata → Data
  pack (dtensor md) = dict (
      member "type" (text dtensor_type)
        (member "data" (dtensor_to_dict f.placement_to_dict md) no_members))
  pack (other k) =
      dict (member "type" (text (f.type_name k)) (member "data" (f.metadata_to_dict k) no_members))

  unfoldable pub unpack_dtensor : Data → Result FormatError ShardingMetadata
  unpack_dtensor d = do md ← dtensor_from_dict d; ok (dtensor md)

  -- `ShardingMetadata._registry.get(t)`
  unfoldable pub registry : String → Option (Data → Result FormatError ShardingMetadata)
  registry t = if t == dtensor_type then some unpack_dtensor else f.metadata_from_dict t

  unfoldable pub unpack_type : String → Data → Result FormatError ShardingMetadata
  unpack_type t packed = elim (registry t) [
    | none ↦ err (unknown_type t)
    | some from ↦ (do d ← field "data" packed; from d)
  ]

  -- `ShardingMetadata._unpack`
  unfoldable pub unpack : Data → Result FormatError ShardingMetadata
  unpack packed = elim (get_field "type" packed) [
    | none ↦ err (missing_key "type")
    | some type_name ↦ (do t ← as_text type_name; unpack_type t packed)
  ]

  unfoldable pub group_to_dict : GlobalObjectMetadata → Data
  group_to_dict g = dict (
      member "sharding_metadata" (pack g.sharding_metadata)
        (member "ranks" (tuple (numbers g.ranks)) no_members))

  unfoldable pub group_from_dict : Data → Result FormatError GlobalObjectMetadata
  group_from_dict d = do
    raw ← field "sharding_metadata" d
    md ← unpack raw
    raw_ranks ← field "ranks" d
    items ← items_of raw_ranks
    ranks ← read_numbers items
    ok (record { sharding_metadata = md; ranks = ranks })

  unfoldable pub layout_or_none : Option LayoutInfo → Data
  layout_or_none none = null
  layout_or_none (some l) = layout_to_dict l

  unfoldable pub layout_or_none_from : Data → Result FormatError (Option LayoutInfo)
  layout_or_none_from null = ok none
  layout_or_none_from d = do l ← layout_from_dict f.rsplit f.import_class d; ok (some l)

  unfoldable pub paths_to_dict : Dict NestedPath (List GlobalObjectMetadata) → Members
  paths_to_dict [] = no_members
  paths_to_dict ((path, groups) ∷ rest) =
      member (f.dumps_path path) (list (map_to group_to_dict groups)) (paths_to_dict rest)

  unfoldable pub layouts_to_dict : Dict ℕ (Option LayoutInfo) → RankMembers
  layouts_to_dict [] = no_ranks
  layouts_to_dict ((rank, l) ∷ rest) = at_rank rank (layout_or_none l) (layouts_to_dict rest)

  -- `DistributedItemMetadata.to_dict`
  unfoldable pub item_to_dict : DistributedItemMetadata → Data
  item_to_dict i = dict (
      member "nested_path_to_metadata" (dict (paths_to_dict i.nested_path_to_metadata)) (
        member "rank_to_layout_info" (dict_by_rank (layouts_to_dict i.rank_to_layout_info))
          no_members))

  -- The dict comprehensions of `DistributedItemMetadata.from_dict`, after the entries read so far.
  unfoldable pub read_paths :
      Dict NestedPath (List GlobalObjectMetadata)
      → Members
      → Result FormatError (Dict NestedPath (List GlobalObjectMetadata))
  read_paths acc no_members = ok acc
  read_paths acc (member s raw rest) = do
    path ← f.loads_path s
    items ← items_of raw
    groups ← map_from group_from_dict items
    read_paths (put path groups acc) rest

  unfoldable pub read_layouts :
      Dict ℕ (Option LayoutInfo) → RankMembers → Result FormatError (Dict ℕ (Option LayoutInfo))
  read_layouts acc no_ranks = ok acc
  read_layouts acc (at_rank rank raw rest) = do
    l ← layout_or_none_from raw
    read_layouts (put rank l acc) rest

  -- The same with strings as keys, which `int` reads.
  unfoldable pub read_named_layouts :
      Dict ℕ (Option LayoutInfo) → Members → Result FormatError (Dict ℕ (Option LayoutInfo))
  read_named_layouts acc no_members = ok acc
  read_named_layouts acc (member s raw rest) = do
    rank ← f.int_of s
    l ← layout_or_none_from raw
    read_named_layouts (put rank l acc) rest

  unfoldable pub layouts_from_dict : Data → Result FormatError (Dict ℕ (Option LayoutInfo))
  layouts_from_dict (dict_by_rank ranks) = read_layouts [] ranks
  layouts_from_dict (dict ms) = read_named_layouts [] ms
  layouts_from_dict d = err wrong_type

  unfoldable pub paths_from_dict :
      Data → Result FormatError (Dict NestedPath (List GlobalObjectMetadata))
  paths_from_dict (dict ms) = read_paths [] ms
  paths_from_dict d = err wrong_type

  unfoldable pub item_from_dict : Data → Result FormatError DistributedItemMetadata
  item_from_dict d = do
    raw_paths ← field "nested_path_to_metadata" d
    paths ← paths_from_dict raw_paths
    raw_layouts ← field "rank_to_layout_info" d
    layouts ← layouts_from_dict raw_layouts
    ok (record { nested_path_to_metadata = paths; rank_to_layout_info = layouts })

  unfoldable pub items_to_dict : Dict String DistributedItemMetadata → Members
  items_to_dict [] = no_members
  items_to_dict ((key, i) ∷ rest) = member key (item_to_dict i) (items_to_dict rest)

  -- `DistributedMetadata.to_dict`
  unfoldable pub to_dict : DistributedMetadata → Data
  to_dict m = dict (
      member "metadata" (dict (items_to_dict m.metadata))
        (member "world_size" (number m.world_size) (member "version" (text m.version) no_members)))

  unfoldable pub read_items :
      Dict String DistributedItemMetadata
      → Members
      → Result FormatError (Dict String DistributedItemMetadata)
  read_items acc no_members = ok acc
  read_items acc (member key raw rest) = do i ← item_from_dict raw; read_items (put key i acc) rest
