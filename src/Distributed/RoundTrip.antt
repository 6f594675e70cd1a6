-- ===== src/Distributed/RoundTrip.antt =====
-- `to_dict` and `from_dict` of torch_checkpointing/distributed_metadata.py, one after the other.
use torch_checkpointing.Prelude.{
  ℕ, ◌≡◌, refl, sym, Bool, true, Option, none, some, String, List, [], ◌∷◌, ◌++◌, All, arith,
  nat_eq, string_eq, list_eq, ◌==◌, Eq,
}
use mathlib.Core.List.{append-nil}
use torch_checkpointing.Prelude.Result.{Result, ok}
use torch_checkpointing.Prelude.Dict.{Dict, put, IsDict, Disjoint, Disjoint-put, put-append}
use torch_checkpointing.Types.{NestedPath, path_key_eq}
use torch_checkpointing.Data.{
  Data, field, get_field, as_text, as_number, items_of, ReadsBack, map_from-map_to,
  read_numbers-numbers, FormatError,
}
use torch_checkpointing.Layout.{
  LayoutInfo, Importable, layout_to_dict, layout_from_dict-layout_to_dict,
}
use torch_checkpointing.Mesh.{ShardingMetadata, dtensor, other, post_init}
use torch_checkpointing.Mesh.Dicts.{IsKnown, dtensor_from_dict-dtensor_to_dict}
use torch_checkpointing.Resharder.{GlobalObjectMetadata}
use torch_checkpointing.Distributed.{
  Foreign, DistributedItemMetadata, DistributedMetadata, dtensor_type, current_version, pack,
  unpack_dtensor, registry, unpack_type, unpack, group_to_dict, group_from_dict, layout_or_none,
  layout_or_none_from, paths_to_dict, layouts_to_dict, item_to_dict, read_paths, read_layouts,
  layouts_from_dict, paths_from_dict, item_from_dict, items_to_dict, to_dict, read_items,
}
use torch_checkpointing.Distributed.Check.{is_valid, checked}
use torch_checkpointing.Distributed.Whole.{items_from_dict, metadata_of_version, from_dict}

module _ (f : Foreign) where
  -- What is asked of a metadata: that of a DTensor has a valid mesh and placements of this package, and
  -- another one is registered under its type and reads back what it wrote.
  abbrev pub Readable : ShardingMetadata → Type 0
  Readable (dtensor md) = (post_init md.mesh_spec ≡ none) × All IsKnown md.placements
  Readable (other k) =
      (f.type_name k == dtensor_type ≡ Bool.false)
      × (from : Data → Result FormatError ShardingMetadata) × (f.metadata_from_dict (f.type_name k)
          ≡ some from)
      × (from (f.metadata_to_dict k) ≡ ok (other k))

  abbrev pub ReadableGroup : GlobalObjectMetadata → Type 0
  ReadableGroup g = Readable g.sharding_metadata

  -- A path's text is read back, and so is each of its groups.
  abbrev pub ReadablePath : NestedPath × List GlobalObjectMetadata → Type 0
  ReadablePath e = (f.loads_path (f.dumps_path e.0) ≡ ok e.0) × All ReadableGroup e.1

  abbrev pub ReadableLayout : Option LayoutInfo → Type 0
  ReadableLayout none = Unit
  ReadableLayout (some l) = Importable f.rsplit f.import_class l.serialization_format

  abbrev pub ReadableItem : DistributedItemMetadata → Type 0
  ReadableItem i =
      IsDict i.nested_path_to_metadata
      × All ReadablePath i.nested_path_to_metadata
      × IsDict i.rank_to_layout_info
      × All (λ e. ReadableLayout e.1) i.rank_to_layout_info

  unpack-pack : (md : ShardingMetadata) → Readable md → unpack f (pack f md) ≡ ok md
  unfolding unpack pack unpack_type unpack_dtensor registry get_field field as_text
  unpack-pack (dtensor md) (valid, known) =
      rw (dtensor_from_dict-dtensor_to_dict f.placement_to_dict md valid known) refl
  unpack-pack (other k) (differs, from, registered, back) =
      ground (arith, differs, registered, back)

  group-round-trip :
      (g : GlobalObjectMetadata) → ReadableGroup g → group_from_dict f (group_to_dict f g) ≡ ok g
  unfolding group_from_dict group_to_dict field get_field items_of
  group-round-trip g h = rw (unpack-pack g.sharding_metadata h, read_numbers-numbers g.ranks) refl

  groups-ReadsBack :
      (gs : List GlobalObjectMetadata)
      → All ReadableGroup gs
      → ReadsBack (group_to_dict f) (group_from_dict f) gs
  groups-ReadsBack [] h = tt
  groups-ReadsBack (g ∷ gs) h = (group-round-trip g h.0, groups-ReadsBack gs h.1)

  layout-round-trip :
      (o : Option LayoutInfo) → ReadableLayout o → layout_or_none_from f (layout_or_none f o) ≡ ok o
  unfolding layout_or_none_from layout_or_none layout_to_dict
  layout-round-trip none h = refl
  layout-round-trip (some l) h =
      ground (arith, layout_from_dict-layout_to_dict f.rsplit f.import_class l h)

  read_paths-paths_to_dict :
      (acc d : Dict NestedPath (List GlobalObjectMetadata))
      → IsDict d
      → Disjoint acc d
      → All ReadablePath d
      → read_paths f acc (paths_to_dict f d) ≡ ok (acc ++ d)
  unfolding read_paths paths_to_dict items_of
  read_paths-paths_to_dict acc [] u fresh h = rw (append-nil acc) refl
  read_paths-paths_to_dict acc ((path, groups) ∷ d) u fresh h =
      rw
        (
          h.0.0,
          map_from-map_to (group_to_dict f) (group_from_dict f) groups
              (groups-ReadsBack groups h.0.1),
          sym (put-append path groups acc d fresh.0),
        )
        (read_paths-paths_to_dict (put path groups acc) d u.1
          (Disjoint-put path groups acc d u.0 fresh.1) h.1)

  read_layouts-layouts_to_dict :
      (acc d : Dict ℕ (Option LayoutInfo))
      → IsDict d
      → Disjoint acc d
      → All (λ e. ReadableLayout e.1) d
      → read_layouts f acc (layouts_to_dict f d) ≡ ok (acc ++ d)
  unfolding read_layouts layouts_to_dict
  read_layouts-layouts_to_dict acc [] u fresh h = rw (append-nil acc) refl
  read_layouts-layouts_to_dict acc ((rank, l) ∷ d) u fresh h =
      rw (layout-round-trip l h.0, sym (put-append rank l acc d fresh.0))
        (read_layouts-layouts_to_dict (put rank l acc) d u.1 (Disjoint-put rank l acc d u.0 fresh.1)
          h.1)

  all-fresh {κ} : {K : Type 0} {V : Type κ} ⦃e : Eq K⦄ (d : Dict K V) → Disjoint [] d
  all-fresh [] = tt
  all-fresh (x ∷ d) = (refl, all-fresh d)

  item-round-trip :
      (i : DistributedItemMetadata) → ReadableItem i → item_from_dict f (item_to_dict f i) ≡ ok i
  unfolding item_from_dict item_to_dict field get_field paths_from_dict layouts_from_dict
  item-round-trip i (up, hp, ul, hl) =
      rw
        (
          read_paths-paths_to_dict [] i.nested_path_to_metadata up
              (all-fresh i.nested_path_to_metadata) hp,
          read_layouts-layouts_to_dict [] i.rank_to_layout_info ul (all-fresh i.rank_to_layout_info)
              hl,
        )
        refl

  read_items-items_to_dict :
      (acc d : Dict String DistributedItemMetadata)
      → IsDict d
      → Disjoint acc d
      → All (λ e. ReadableItem e.1) d
      → read_items f acc (items_to_dict f d) ≡ ok (acc ++ d)
  unfolding read_items items_to_dict
  read_items-items_to_dict acc [] u fresh h = rw (append-nil acc) refl
  read_items-items_to_dict acc ((key, i) ∷ d) u fresh h =
      rw (item-round-trip i h.0, sym (put-append key i acc d fresh.0))
        (read_items-items_to_dict (put key i acc) d u.1 (Disjoint-put key i acc d u.0 fresh.1) h.1)

  -- Metadata of the current version that passes `__post_init__`, in which no key is listed twice, the texts of
  -- the paths can be read, the meshes are valid, and classes and foreign subclasses can be found
  -- again, is read back from its dictionary unchanged, with all items, paths, groups and layouts.
  pub from_dict-to_dict :
      (m : DistributedMetadata)
      → m.version ≡ current_version
      → is_valid m ≡ true
      → IsDict m.metadata
      → All (λ e. ReadableItem e.1) m.metadata
      → from_dict f (to_dict f m) ≡ ok m
  unfolding from_dict to_dict field get_field as_text as_number metadata_of_version items_from_dict
      checked
  from_dict-to_dict m v valid u h = ground (
    arith,
    v,
    (string_eq.equal_iff m.version current_version).1 v,
    valid,
    read_items-items_to_dict [] m.metadata u (all-fresh m.metadata) h,
  )
