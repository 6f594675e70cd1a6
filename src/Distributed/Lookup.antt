-- ===== src/Distributed/Lookup.antt =====
-- `get_layout_info` and `get_metadata_for_path_and_rank` of torch_checkpointing/distributed_metadata.py, and
-- `_aggregate_metadata` of torch_checkpointing/metadata_manager.py, which builds what they look in.
use torch_checkpointing.Prelude.{
  if◌then◌else◌, ℕ, suc, ◌≤◌, ◌≡◌, ◌↔◌, inl, inr, refl, sym, ap, ◌∙◌, Option, none, some, String,
  List, [], ◌∷◌, All, arith, nat_eq, string_eq, list_eq, ◌==◌, Bool-cases, Option-cases,
}
use torch_checkpointing.Prelude.Result.{Result, err}
use torch_checkpointing.Prelude.Dict.{Dict, get, values}
use torch_checkpointing.Types.{NestedPath, path_key_eq}
use torch_checkpointing.Data.{FormatError, invalid}
use torch_checkpointing.Layout.{LayoutInfo, default_torch_layout_info}
use torch_checkpointing.Mesh.{ShardingMetadata, member}
use torch_checkpointing.Resharder.{GlobalObjectMetadata}
use torch_checkpointing.Metadata.Gather.{enumerate, all_gather_pickled_data}
use torch_checkpointing.Metadata.Gather.RoundTrip.{Pickles, IsLevel}
use torch_checkpointing.Metadata.Merge.{
  LocalMetadata, aggregate_metadata_across_ranks, lookup, Holds, compact_ranks,
}
use torch_checkpointing.Metadata.Merge.Ranks.{Recorded, IsInjective}
use torch_checkpointing.Metadata.Merge.Kept.{IsLocal}
use torch_checkpointing.Metadata.Merge.Represents.{IsCoherent}
use torch_checkpointing.Metadata.Merge.Faithful.{
  HoldsSomewhere, groups_at, aggregate_metadata_across_ranks_faithful,
}
use torch_checkpointing.Distributed.{DistributedItemMetadata, DistributedMetadata, current_version}
use torch_checkpointing.Distributed.Check.{checked}
use torch_checkpointing.Distributed.Version1.{items_with_layouts}

-- `DistributedItemMetadata.get_layout_info`
unfoldable pub get_layout_info : (ℕ → String) → DistributedItemMetadata → ℕ → String → LayoutInfo
get_layout_info str_of i rank key = elim (get rank i.rank_to_layout_info) [
  | none ↦ default_torch_layout_info str_of key rank
  | some none ↦ default_torch_layout_info str_of key rank
  | some (some l) ↦ l
]

-- The loop over the groups of a path.
unfoldable pub in_groups : ℕ → List GlobalObjectMetadata → Option ShardingMetadata
in_groups rank [] = none
in_groups rank (g ∷ groups) =
    if member rank g.ranks then some g.sharding_metadata else in_groups rank groups

-- `DistributedItemMetadata.get_metadata_for_path_and_rank`
unfoldable pub get_metadata_for_path_and_rank :
    DistributedItemMetadata → NestedPath → ℕ → Option ShardingMetadata
get_metadata_for_path_and_rank i path rank = elim (get path i.nested_path_to_metadata) [
  | none ↦ none
  | some groups ↦ in_groups rank groups
]

-- `_aggregate_metadata` of torch_checkpointing/metadata_manager.py on several ranks: what was merged, with
-- the layouts of all ranks. A failed collective raises an error.
unfoldable pub aggregate_metadata :
    (ShardingMetadata → String)
    → (List LocalMetadata → Option (Dict ℕ LocalMetadata))
    → List LocalMetadata
    → Dict ℕ (Dict String (Option LayoutInfo))
    → ℕ
    → Result FormatError DistributedMetadata
aggregate_metadata meta_key gather locals rank_to_layout_info world_size =
    elim (aggregate_metadata_across_ranks meta_key gather locals) [
      | none ↦ err invalid
      | some merged ↦ checked (record {
        metadata = items_with_layouts rank_to_layout_info merged;
        world_size = world_size;
        version = current_version;
      })
    ]

-- What `metadata[item_key].get_metadata_for_path_and_rank(path, rank)` gives, nothing for an unknown item.
abbrev pub metadata_at : DistributedMetadata → String → NestedPath → ℕ → Option ShardingMetadata
metadata_at m item path rank = elim (get item m.metadata) [
  | none ↦ none
  | some i ↦ get_metadata_for_path_and_rank i path rank
]

in_groups-Recorded :
    (r : ℕ) (md : ShardingMetadata) (groups : List GlobalObjectMetadata)
    → in_groups r groups ≡ some md
    → Recorded r md groups
unfolding in_groups
in_groups-Recorded r md [] h = ground arith
in_groups-Recorded r md (g ∷ groups) h = elim (Bool-cases (member r g.ranks)) [
  | inl e ↦ inl (ground arith, e)
  | inr e ↦ inr (in_groups-Recorded r md groups (rw e at h))
]

Recorded-in_groups :
    (r : ℕ) (md : ShardingMetadata) (groups : List GlobalObjectMetadata)
    → Recorded r md groups
    → (n : ShardingMetadata) × (in_groups r groups ≡ some n)
unfolding in_groups
Recorded-in_groups r md [] h = elim h [ ]
Recorded-in_groups r md (g ∷ groups) h = elim (Bool-cases (member r g.ranks)) [
  | inl e ↦ (g.sharding_metadata, rw e refl)
  | inr e ↦ elim h [
    | inl (_, e') ↦ absurd (ground arith)
    | inr later ↦ let (n, f) = Recorded-in_groups r md groups later in (n, rw e f)
  ]
]

-- A rank has one metadata at a path.
Holds-above :
    (item : String) (path : NestedPath) (r k : ℕ) (md : ShardingMetadata)
    (locals : List LocalMetadata)
    → Holds item path r md (enumerate k locals)
    → k ≤ r
unfolding enumerate
Holds-above item path r k md [] h = elim h [ ]
Holds-above item path r k md (d ∷ ds) (inl (e, _)) = omega (arith, e)
Holds-above item path r k md (d ∷ ds) (inr h) =
    omega (arith, Holds-above item path r (suc k) md ds h)

Holds-unique :
    (item : String) (path : NestedPath) (r k : ℕ) (m n : ShardingMetadata)
    (locals : List LocalMetadata)
    → Holds item path r m (enumerate k locals)
    → Holds item path r n (enumerate k locals)
    → m ≡ n
unfolding enumerate
Holds-unique item path r k m n [] h g = elim h [ ]
Holds-unique item path r k m n (d ∷ ds) (inl (_, e)) (inl (_, f)) = ground arith
Holds-unique item path r k m n (d ∷ ds) (inl (e, _)) (inr g) =
    absurd (omega (arith, e, Holds-above item path r (suc k) n ds g))
Holds-unique item path r k m n (d ∷ ds) (inr h) (inl (e, _)) =
    absurd (omega (arith, e, Holds-above item path r (suc k) m ds h))
Holds-unique item path r k m n (d ∷ ds) (inr h) (inr g) =
    Holds-unique item path r (suc k) m n ds h g

-- The items with their layouts are asked as the merged metadata is.
metadata_at-groups_at :
    (merged : Dict String (Dict NestedPath (List GlobalObjectMetadata)))
    (layouts : Dict ℕ (Dict String (Option LayoutInfo))) (n : ℕ) (version : String) (item : String)
    (path : NestedPath) (r : ℕ)
    → metadata_at
        (record { metadata = items_with_layouts layouts merged; world_size = n; version = version })
        item
        path
        r
      ≡ in_groups r (groups_at item path merged)
unfolding items_with_layouts get_metadata_for_path_and_rank lookup in_groups
metadata_at-groups_at [] layouts n version item path r = refl
metadata_at-groups_at ((key, paths) ∷ merged) layouts n version item path r =
    elim (Bool-cases (key == item)) [
      | inl same ↦ elim (Option-cases (get path paths)) [
        | inl none' ↦ ground (arith, string_eq.equal_iff key item)
        | inr (groups, e) ↦ ground (arith, string_eq.equal_iff key item)
      ]
      | inr differ ↦ ground (
        arith,
        string_eq.equal_iff key item,
        metadata_at-groups_at merged layouts n version item path r,
      )
    ]

answers :
    (layouts : Dict ℕ (Dict String (Option LayoutInfo))) (n : ℕ) (locals : List LocalMetadata)
    (merged : Dict String (Dict NestedPath (List GlobalObjectMetadata))) (item : String)
    (path : NestedPath) (r : ℕ) (md : ShardingMetadata)
    → ((m : ShardingMetadata)
        → Recorded r m (groups_at item path merged) ↔ Holds item path r m (enumerate 0 locals))
    → (metadata_at
          (record {
            metadata = items_with_layouts layouts merged;
            world_size = n;
            version = current_version;
          })
          item
          path
          r
        ≡ some md)
      ↔ Holds item path r md (enumerate 0 locals)
answers layouts n locals merged item path r md records =
    let same = metadata_at-groups_at merged layouts n current_version item path r in
    (
      (λ h. (records md).0 (in_groups-Recorded r md (groups_at item path merged) (sym same ∙ h))),
      (λ held.
          let (m, e) = Recorded-in_groups r md (groups_at item path merged) ((records md).1 held) in
          let holds_m = (records m).0 (in_groups-Recorded r m (groups_at item path merged) e) in
          same ∙ e ∙ ap some (Holds-unique item path r 0 m md locals holds_m held)),
    )

-- Under the conditions of `aggregate_metadata_across_ranks_faithful` the aggregation comes to the check of
-- some metadata, whatever the layouts are, and that metadata, asked for an item, a path and a rank, answers
-- with exactly the metadata that the rank holds there, and with None if it holds none.
pub aggregate_metadata-metadata_at :
    (meta_key : ShardingMetadata → String) (dumps : LocalMetadata → List ℕ)
    (loads : List ℕ → Option LocalMetadata) (all_reduce_max : List ℕ → ℕ)
    (all_gather : List (List ℕ) → List (List ℕ))
    → ((sizes : List ℕ) → All (λ n. n ≤ all_reduce_max sizes) sizes)
    → ((size : ℕ) (tensors : List (List ℕ)) → IsLevel size tensors → all_gather tensors ≡ tensors)
    → (locals : List LocalMetadata) → All (λ e. IsLocal e.1) (enumerate 0 locals)
    → IsInjective meta_key (HoldsSomewhere (enumerate 0 locals))
    → IsCoherent (enumerate 0 locals)
    → ((kept : Dict ℕ LocalMetadata)
        → compact_ranks (enumerate 0 locals) ≡ some kept
        → All (Pickles dumps loads) (values kept))
    → (layouts : Dict ℕ (Dict String (Option LayoutInfo))) (world_size : ℕ)
    → (m : DistributedMetadata) × (aggregate_metadata meta_key
          (all_gather_pickled_data dumps loads all_reduce_max all_gather)
          locals
          layouts
          world_size
        ≡ checked m)
      × ((item : String) (path : NestedPath) (r : ℕ) (md : ShardingMetadata)
          → (metadata_at m item path r ≡ some md) ↔ Holds item path r md (enumerate 0 locals))
unfolding aggregate_metadata
aggregate_metadata-metadata_at key dumps loads reduce gather bounds gathers locals local inj
      coherent pickles layouts world_size =
    let (merged, e, records) =
      aggregate_metadata_across_ranks_faithful key dumps loads reduce gather bounds gathers locals
        local inj coherent pickles in
    (
      record {
        metadata = items_with_layouts layouts merged;
        world_size = world_size;
        version = current_version;
      },
      ground (arith, e),
      λ item path r md.
          answers layouts world_size locals merged item path r md (records item path r),
    )
