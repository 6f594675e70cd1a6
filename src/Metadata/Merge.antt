-- ===== src/Metadata/Merge.antt =====
-- The aggregation of the ranks' metadata in torch_checkpointing/metadata_manager.py: what each rank leaves
-- out, and how the rest is merged. The set of the paths of an item is a list in the order in which
-- they are met. `meta_key` is `str(sharding_meta._pack())`.

pub mod Faithful
pub mod Items
pub mod Represents
pub mod Kept
pub mod Groups
pub mod Ranks
use torch_checkpointing.Prelude.{
  ℕ, ◌≡◌, ◌⊎◌, Bool, true, false, ◌||◌, Option, none, some, String, List, [], ◌∷◌, ◌++◌, map, Eq,
  ◌==◌, eqb, leb, if◌then◌else◌, arith, list_eq, string_eq,
}
use torch_checkpointing.Prelude.Dict.{Dict, keys, values, get, put}
use torch_checkpointing.Types.{NestedPath, path_key_eq}
use torch_checkpointing.Mesh.{ShardingMetadata, equivalent_ranks}
use torch_checkpointing.Resharder.{GlobalObjectMetadata}
use torch_checkpointing.Metadata.Gather.{enumerate}

abbrev pub ItemMetadata : Type 0
ItemMetadata = Dict NestedPath ShardingMetadata

-- `LocalMetadata`: item key ↦ nested path ↦ sharding metadata
abbrev pub LocalMetadata : Type 0
LocalMetadata = Dict String ItemMetadata

-- `min` of a non-empty list; `none` is the ValueError.
unfoldable pub minimum : List ℕ → Option ℕ
minimum [] = none
minimum (x ∷ xs) = elim (minimum xs) [ none ↦ some x | some m ↦ some (if leb x m then x else m) ]

-- Whether the rank sends the entry; `none` if `min` raises an error.
unfoldable pub is_representative : ℕ → ShardingMetadata → Option Bool
is_representative current_rank md = elim (equivalent_ranks md) [
  | none ↦ some true
  | some ranks ↦ elim (minimum ranks) [ none ↦ none | some r ↦ some (eqb current_rank r) ]
]

unfoldable pub compact_item : ℕ → ItemMetadata → Option ItemMetadata
compact_item rank [] = some []
compact_item rank ((path, md) ∷ rest) =
    let compacted = compact_item rank rest in
    elim (is_representative rank md) [
      | none ↦ none
      | some keeps ↦ elim compacted [
        | none ↦ none
        | some kept ↦ some (if keeps then (path, md) ∷ kept else kept)
      ]
    ]

-- `if item_compacted: compacted[item_key] = item_compacted`
unfoldable pub keep_item : String → ItemMetadata → LocalMetadata → LocalMetadata
keep_item item [] kept = kept
keep_item item (entry ∷ entries) kept = (item, entry ∷ entries) ∷ kept

unfoldable pub compact : ℕ → LocalMetadata → Option LocalMetadata
compact rank [] = some []
compact rank ((item, paths) ∷ rest) =
    let compacted = compact rank rest in
    elim (compact_item rank paths) [
      | none ↦ none
      | some one ↦ elim compacted [ none ↦ none | some kept ↦ some (keep_item item one kept) ]
    ]

-- Each rank's call of `_compact`, with the rank's number.
unfoldable pub compact_ranks : Dict ℕ LocalMetadata → Option (Dict ℕ LocalMetadata)
compact_ranks [] = some []
compact_ranks ((rank, d) ∷ ranks) =
    let rest = compact_ranks ranks in
    elim (compact rank d) [
      | none ↦ none
      | some kept ↦ elim rest [ none ↦ none | some all ↦ some ((rank, kept) ∷ all) ]
    ]

-- `rank_metadata[item_key][nested_path]`, if both are there
unfoldable pub lookup {ℓ} :
    {V : Type ℓ} → String → NestedPath → Dict String (Dict NestedPath V) → Option V
lookup item path d = elim (get item d) [ none ↦ none | some paths ↦ get path paths ]

-- `p in seen`, for a set of paths
unfoldable pub is_in : NestedPath → List NestedPath → Bool
is_in p [] = false
is_in p (q ∷ seen) = q == p || is_in p seen

-- `seen.update(paths)`
unfoldable pub update_paths : List NestedPath → List NestedPath → List NestedPath
update_paths seen [] = seen
update_paths seen (p ∷ ps) = update_paths (if is_in p seen then seen else seen ++ p ∷ []) ps

-- `all_items[item_key]`, which is made empty if it is not there
unfoldable pub paths_of : String → Dict String (List NestedPath) → List NestedPath
paths_of item all = elim (get item all) [ none ↦ [] | some seen ↦ seen ]

unfoldable pub add_items :
    LocalMetadata → Dict String (List NestedPath) → Dict String (List NestedPath)
add_items [] all = all
add_items ((item, paths) ∷ rest) all =
    add_items rest (put item (update_paths (paths_of item all) (keys paths)) all)

unfoldable pub all_items :
    Dict ℕ LocalMetadata → Dict String (List NestedPath) → Dict String (List NestedPath)
all_items [] all = all
all_items ((rank, d) ∷ ranks) all = all_items ranks (add_items d all)

-- `sorted`
unfoldable pub insert_in_order : ℕ → List ℕ → List ℕ
insert_in_order r [] = r ∷ []
insert_in_order r (x ∷ xs) =
    let rest = insert_in_order r xs in if leb r x then r ∷ x ∷ xs else x ∷ rest

unfoldable pub sorted_ranks : List ℕ → List ℕ
sorted_ranks [] = []
sorted_ranks (x ∷ xs) = insert_in_order x (sorted_ranks xs)

unfoldable pub final_ranks : ShardingMetadata → List ℕ → List ℕ
final_ranks md ranks_list = elim (equivalent_ranks md) [
  | none ↦ ranks_list
  | some ranks ↦ sorted_ranks ranks
]

module _ (meta_key : ShardingMetadata → String) where
  -- One rank's entry for a path, added to the groups.
  unfoldable pub add_rank :
      ℕ
      → Option ShardingMetadata
      → Dict String (ShardingMetadata × List ℕ)
      → Dict String (ShardingMetadata × List ℕ)
  add_rank rank none groups = groups
  add_rank rank (some md) groups = elim (get (meta_key md) groups) [
    | none ↦ put (meta_key md) (md, rank ∷ []) groups
    | some (first, ranks) ↦ put (meta_key md) (first, ranks ++ rank ∷ []) groups
  ]

  unfoldable pub group_ranks :
      String
      → NestedPath
      → Dict ℕ LocalMetadata
      → Dict String (ShardingMetadata × List ℕ)
      → Dict String (ShardingMetadata × List ℕ)
  group_ranks item path [] groups = groups
  group_ranks item path ((rank, d) ∷ ranks) groups =
      group_ranks item path ranks (add_rank rank (lookup item path d) groups)

  unfoldable pub global_objects :
      Dict String (ShardingMetadata × List ℕ) → List GlobalObjectMetadata
  global_objects [] = []
  global_objects ((key, (md, ranks_list)) ∷ groups) =
      record { sharding_metadata = md; ranks = final_ranks md ranks_list } ∷ global_objects groups

  unfoldable pub merge_paths :
      Dict ℕ LocalMetadata → String → List NestedPath → Dict NestedPath (List GlobalObjectMetadata)
  merge_paths ranks item [] = []
  merge_paths ranks item (path ∷ paths) =
      (path, global_objects (group_ranks item path ranks [])) ∷ merge_paths ranks item paths

  unfoldable pub merge_items :
      Dict ℕ LocalMetadata
      → Dict String (List NestedPath)
      → Dict String (Dict NestedPath (List GlobalObjectMetadata))
  merge_items ranks [] = []
  merge_items ranks ((item, paths) ∷ items) =
      (item, merge_paths ranks item paths) ∷ merge_items ranks items

  unfoldable pub merge_object_metadata_from_ranks :
      Dict ℕ LocalMetadata → Dict String (Dict NestedPath (List GlobalObjectMetadata))
  merge_object_metadata_from_ranks ranks = merge_items ranks (all_items ranks [])

-- `_aggregate_metadata_across_ranks`, on all ranks at once: each leaves out what it does not
-- represent, and what they gather is merged. `gather` is `_all_gather_pickled_data`.
unfoldable pub aggregate_metadata_across_ranks :
    (ShardingMetadata → String)
    → (List LocalMetadata → Option (Dict ℕ LocalMetadata))
    → List LocalMetadata
    → Option (Dict String (Dict NestedPath (List GlobalObjectMetadata)))
aggregate_metadata_across_ranks meta_key gather locals = elim (compact_ranks (enumerate 0 locals)) [
  | none ↦ none
  | some compacted ↦ elim (gather (values compacted)) [
    | none ↦ none
    | some all_ranks ↦ some (merge_object_metadata_from_ranks meta_key all_ranks)
  ]
]

-- Some entry of the dictionary is of this rank, and has the metadata at the path.
abbrev pub Holds : String → NestedPath → ℕ → ShardingMetadata → Dict ℕ LocalMetadata → Type 0
Holds item path r md [] = ⊥
Holds item path r md ((q, d) ∷ ranks) =
    ((q ≡ r) × (lookup item path d ≡ some md)) ⊎ Holds item path r md ranks

pub lookup-cons {ℓ} :
    {V : Type ℓ} (i item : String) (path : NestedPath) (paths : Dict NestedPath V)
    (d : Dict String (Dict NestedPath V))
    → lookup item path ((i, paths) ∷ d) ≡ (if i == item then get path paths else lookup item path d)
unfolding lookup
lookup-cons i item path paths d = ground (arith, string_eq.equal_iff i item)
