-- ===== src/Mesh/Dicts.antt =====
-- The dictionaries of torch_checkpointing/dtensor_metadata.py. A placement that another package adds writes
-- a dictionary of its own, which is a parameter.
use torch_checkpointing.Prelude.{
  ℕ, ◌≡◌, refl, Bool, true, false, ◌&&◌, ◌||◌, Option, none, some, String, List, [], ◌∷◌, ◌==◌,
  string_eq, if◌then◌else◌, arith, All,
}
use torch_checkpointing.Prelude.Result.{Result, ok, err, ◌>>=◌}
use torch_checkpointing.Data.{
  Data, null, number, text, list, tuple, dict, Members, no_members, member, FormatError,
  unknown_type, wrong_type, invalid, field, get_field, as_text, as_number, items_of, hashable_items,
  numbers, read_numbers, texts, read_texts, map_to, map_from, ReadsBack, map_from-map_to,
  read_numbers-numbers, read_texts-texts,
}
use torch_checkpointing.Mesh.{PlacementSpec, DeviceMeshSpec, DTensorShardingMetadata, post_init}

-- `tuple[str, ...] | None`
unfoldable pub names_to_dict : Option (List String) → Data
names_to_dict none = null
names_to_dict (some names) = tuple (texts names)

unfoldable pub names_from_dict : Data → Result FormatError (Option (List String))
names_from_dict null = ok none
names_from_dict d = do items ← hashable_items d; names ← read_texts items; ok (some names)

-- `DeviceMeshSpec.to_dict`, which is `asdict`.
unfoldable pub mesh_to_dict : DeviceMeshSpec → Data
unfolding names_to_dict
mesh_to_dict m = dict (
    member "device_type" (text m.device_type) (
      member "mesh_shape" (tuple (numbers m.mesh_shape)) (
        member "mesh_data" (tuple (numbers m.mesh_data))
          (member "mesh_dim_names" (names_to_dict m.mesh_dim_names) no_members))))

-- The keywords of `get_device_mesh_spec(**d)`: another one is a TypeError.
unfoldable pub only_fields : Members → Bool
only_fields no_members = true
only_fields (member k v ms) =
    (k == "device_type" || k == "mesh_shape" || k == "mesh_data" || k == "mesh_dim_names")
    && only_fields ms

unfoldable pub has_only_fields : Data → Bool
unfolding only_fields
has_only_fields (dict ms) = only_fields ms
has_only_fields d = false

-- The names, which default to None.
unfoldable pub names_field : Data → Result FormatError (Option (List String))
unfolding names_from_dict
names_field d = elim (get_field "mesh_dim_names" d) [ none ↦ ok none | some v ↦ names_from_dict v ]

-- `DeviceMeshSpec(...)`, with the checks of `__post_init__`.
unfoldable pub validated : DeviceMeshSpec → Result FormatError DeviceMeshSpec
validated m = elim (post_init m) [ none ↦ ok m | some e ↦ err invalid ]

unfoldable pub known_keywords : Data → Result FormatError (Unit {0})
unfolding has_only_fields
known_keywords d = if has_only_fields d then ok tt else err wrong_type

-- `DeviceMeshSpec.from_dict`; the cache of `get_device_mesh_spec` needs tuples.
unfoldable pub mesh_from_dict : Data → Result FormatError DeviceMeshSpec
unfolding known_keywords names_field validated
mesh_from_dict d = do
  _ ← known_keywords d
  device ← field "device_type" d
  device_type ← as_text device
  shape ← field "mesh_shape" d
  shape_items ← hashable_items shape
  mesh_shape ← read_numbers shape_items
  ranks ← field "mesh_data" d
  rank_items ← hashable_items ranks
  mesh_data ← read_numbers rank_items
  mesh_dim_names ← names_field d
  validated (record {
    device_type = device_type;
    mesh_shape = mesh_shape;
    mesh_data = mesh_data;
    mesh_dim_names = mesh_dim_names;
  })

unfoldable pub placement_to_dict : (ℕ → Data) → PlacementSpec → Data
placement_to_dict custom_to_dict (PlacementSpec.shard dim) =
    dict (member "type" (text "Shard") (member "dim" (number dim) no_members))
placement_to_dict custom_to_dict (PlacementSpec.strided_shard dim factor) = dict (
    member "type" (text "StridedShard")
      (member "dim" (number dim) (member "split_factor" (number factor) no_members)))
placement_to_dict custom_to_dict PlacementSpec.replicate =
    dict (member "type" (text "Replicate") no_members)
placement_to_dict custom_to_dict (PlacementSpec.custom k) = custom_to_dict k

-- The tests on `placement["type"]`, and the `from_dict` of the three classes.
unfoldable pub placement_of_type : String → Data → Result FormatError PlacementSpec
placement_of_type name d =
    if name == "Shard"
    then (do dim ← field "dim" d; n ← as_number dim; ok (PlacementSpec.shard n))
    else if name == "StridedShard"
    then (do
      dim ← field "dim" d
      n ← as_number dim
      split_factor ← field "split_factor" d
      factor ← as_number split_factor
      ok (PlacementSpec.strided_shard n factor))
    else if name == "Replicate"
    then ok PlacementSpec.replicate
    else err (unknown_type name)

unfoldable pub placement_from_dict : Data → Result FormatError PlacementSpec
unfolding placement_of_type
placement_from_dict d = do
  type_name ← field "type" d
  name ← as_text type_name
  placement_of_type name d

-- `DTensorShardingMetadata.to_dict`
unfoldable pub dtensor_to_dict : (ℕ → Data) → DTensorShardingMetadata → Data
unfolding mesh_to_dict
dtensor_to_dict custom_to_dict md = dict (
    member "global_shape" (list (numbers md.global_shape)) (
      member "dtype" (text md.dtype) (
        member "stride" (list (numbers md.stride)) (
          member "mesh_spec" (mesh_to_dict md.mesh_spec) (
            member "placements" (list (map_to (placement_to_dict custom_to_dict) md.placements))
              no_members)))))

-- `DTensorShardingMetadata.from_dict`
unfoldable pub dtensor_from_dict : Data → Result FormatError DTensorShardingMetadata
unfolding mesh_from_dict placement_from_dict
dtensor_from_dict d = do
  raw_placements ← field "placements" d
  placement_items ← items_of raw_placements
  placements ← map_from placement_from_dict placement_items
  raw_shape ← field "global_shape" d
  shape_items ← items_of raw_shape
  global_shape ← read_numbers shape_items
  raw_dtype ← field "dtype" d
  dtype ← as_text raw_dtype
  raw_stride ← field "stride" d
  stride_items ← items_of raw_stride
  stride ← read_numbers stride_items
  raw_mesh ← field "mesh_spec" d
  mesh_spec ← mesh_from_dict raw_mesh
  ok (record {
    global_shape = global_shape;
    dtype = dtype;
    stride = stride;
    mesh_spec = mesh_spec;
    placements = placements;
  })

-- The placements of this file, not those of another package.
abbrev pub IsKnown : PlacementSpec → Type 0
IsKnown (PlacementSpec.custom k) = ⊥
IsKnown p = Unit

names-round-trip : (o : Option (List String)) → names_from_dict (names_to_dict o) ≡ ok o
unfolding names_from_dict names_to_dict hashable_items
names-round-trip none = refl
names-round-trip (some names) = rw (read_texts-texts names) refl

validated_lem : (m : DeviceMeshSpec) → post_init m ≡ none → validated m ≡ ok m
unfolding validated
validated_lem m valid = ground (arith, valid)

pub mesh-round-trip :
    (m : DeviceMeshSpec) → post_init m ≡ none → mesh_from_dict (mesh_to_dict m) ≡ ok m
unfolding mesh_from_dict mesh_to_dict names_field known_keywords has_only_fields only_fields field
    get_field as_text hashable_items
mesh-round-trip m valid =
    rw
      (
        read_numbers-numbers m.mesh_shape,
        read_numbers-numbers m.mesh_data,
        names-round-trip m.mesh_dim_names,
      )
      (validated_lem m valid)

module _ (custom_to_dict : ℕ → Data) where
  placement-round-trip :
      (p : PlacementSpec)
      → IsKnown p
      → placement_from_dict (placement_to_dict custom_to_dict p) ≡ ok p
  unfolding placement_from_dict placement_to_dict placement_of_type field get_field as_text
      as_number
  placement-round-trip (PlacementSpec.shard dim) h = refl
  placement-round-trip (PlacementSpec.strided_shard dim factor) h = refl
  placement-round-trip PlacementSpec.replicate h = refl
  placement-round-trip (PlacementSpec.custom k) h = elim h [ ]

  placements-ReadsBack :
      (ps : List PlacementSpec)
      → All IsKnown ps
      → ReadsBack (placement_to_dict custom_to_dict) placement_from_dict ps
  placements-ReadsBack [] h = tt
  placements-ReadsBack (p ∷ ps) h = (placement-round-trip p h.0, placements-ReadsBack ps h.1)

  -- The metadata of a DTensor whose mesh passes `__post_init__`, with placements of this file, is read back
  -- from its dictionary unchanged.
  pub dtensor_from_dict-dtensor_to_dict :
      (md : DTensorShardingMetadata)
      → post_init md.mesh_spec ≡ none
      → All IsKnown md.placements
      → dtensor_from_dict (dtensor_to_dict custom_to_dict md) ≡ ok md
  unfolding dtensor_from_dict dtensor_to_dict field get_field as_text items_of
  dtensor_from_dict-dtensor_to_dict md valid known =
      rw
        (
          map_from-map_to (placement_to_dict custom_to_dict) placement_from_dict md.placements
              (placements-ReadsBack md.placements known),
          read_numbers-numbers md.global_shape,
          read_numbers-numbers md.stride,
          mesh-round-trip md.mesh_spec valid,
        )
        refl
