-- ===== src/Metadata/Merge/Faithful.antt =====
-- The merged metadata records exactly what the ranks hold.
use torch_checkpointing.Prelude.{
  ℕ, ◌≤◌, ◌≡◌, inl, inr, ◌↔◌, true, Option, none, some, String, List, [], arith, Bool-cases,
  list_eq, string_eq, if◌then◌else◌, All,
}
use torch_checkpointing.Prelude.Dict.{Dict, values}
use torch_checkpointing.Types.{NestedPath, path_key_eq}
use torch_checkpointing.Mesh.{ShardingMetadata}
use torch_checkpointing.Resharder.{GlobalObjectMetadata}
use torch_checkpointing.Metadata.Gather.{enumerate, all_gather_pickled_data}
use torch_checkpointing.Metadata.Gather.RoundTrip.{
  Pickles, IsLevel, all_gather_pickled_data-enumerate,
}
use torch_checkpointing.Metadata.Merge.Kept.{IsLocal, Decided, compact_ranks_total}
use torch_checkpointing.Metadata.Merge.Groups.{
  group_ranks-Sound, group_ranks-Listed, Listed-Recorded, Recorded-Sound,
}
use torch_checkpointing.Metadata.Merge.Ranks.{Recorded, IsInjective}
use torch_checkpointing.Metadata.Merge.{
  LocalMetadata, lookup, Holds, is_representative, compact_ranks, aggregate_metadata_across_ranks,
  is_in, paths_of, all_items, group_ranks, merge_object_metadata_from_ranks,
}
use torch_checkpointing.Metadata.Merge.Items.{Known, all_items-Known, built, merge_items-lookup}
use torch_checkpointing.Metadata.Merge.Represents.{
  IsCoherent, compact_ranks-values, All-Holds, decided, represented, held_by_final,
}

-- What the merged metadata has for a path of an item, nothing if the path is not there.
abbrev pub groups_at :
    String
    → NestedPath
    → Dict String (Dict NestedPath (List GlobalObjectMetadata))
    → List GlobalObjectMetadata
groups_at item path merged = elim (lookup item path merged) [ none ↦ [] | some groups ↦ groups ]

-- A rank has the metadata at some path.
abbrev pub HoldsSomewhere : Dict ℕ LocalMetadata → ℕ → ShardingMetadata → Type 0
HoldsSomewhere ranks r md = (item : String) × (path : NestedPath) × Holds item path r md ranks

-- What the merge of the compacted metadata records is what the ranks hold.
module _ (meta_key : ShardingMetadata → String) (ranks kept : Dict ℕ LocalMetadata)
    (inj : IsInjective meta_key (HoldsSomewhere ranks)) (coherent : IsCoherent ranks)
    (compacts : (item : String) (path : NestedPath) (r : ℕ) (md : ShardingMetadata)
      → Holds item path r md kept
        ↔ Holds item path r md ranks × (is_representative r md ≡ some true))
    (item : String) (path : NestedPath) (r : ℕ) (md : ShardingMetadata) where
  abbrev Has : ℕ → ShardingMetadata → Type 0
  Has q n = Holds item path q n kept

  Has-HoldsSomewhere :
      (n : ShardingMetadata) → (q : ℕ) × Has q n → (q : ℕ) × HoldsSomewhere ranks q n
  Has-HoldsSomewhere n (q, h) = (q, (item, path, ((compacts item path q n).0 h).0))

  inj_kept : IsInjective meta_key Has
  inj_kept m n h k e = inj m n (Has-HoldsSomewhere m h) (Has-HoldsSomewhere n k) e

  merged : List GlobalObjectMetadata
  merged = groups_at item path (merge_object_metadata_from_ranks meta_key kept)

  groups-built : merged ≡ (
      if is_in path (paths_of item (all_items kept [])) then built meta_key kept item path else [])
  unfolding merged merge_object_metadata_from_ranks
  groups-built = ground (arith, merge_items-lookup meta_key kept item path (all_items kept []))

  merged_sound : Recorded r md (built meta_key kept item path) → Holds item path r md ranks
  unfolding built
  merged_sound rec =
      let (l, final, all, (q, one)) =
        Recorded-Sound meta_key Has inj_kept r md (group_ranks meta_key item path kept [])
          (group_ranks-Sound meta_key Has inj_kept item path kept [] (λ q n h. h) tt) rec in
      held_by_final ranks coherent item path r md l final
        (λ q h. ((compacts item path q md).0 (all q h)).0) (q, ((compacts item path q md).0 one).0)

  merged_complete : Holds item path r md ranks → Recorded r md merged
  unfolding built Known
  merged_complete held =
      let (q, at_q, is, final) = represented ranks coherent item path r md held in
      let at_kept : Holds item path q md kept = (compacts item path q md).1 (at_q, is) in
      let (l, e, i) =
        group_ranks-Listed meta_key Has inj_kept item path q md kept [] (λ q n h. h) tt
          (inr at_kept) in
      rw (groups-built, all_items-Known item path q md kept [] (inr at_kept))
        (Listed-Recorded meta_key Has inj_kept r md (group_ranks meta_key item path kept []) l e
          (final l i))

  merged_iff : Recorded r md merged ↔ Holds item path r md ranks
  merged_iff = (
    (λ rec. elim (Bool-cases (is_in path (paths_of item (all_items kept [])))) [
      | inl known ↦ merged_sound (rw (groups-built, known) at rec)
      | inr not_known ↦ absurd (rw (groups-built, not_known) at rec)
    ]),
    merged_complete,
  )

-- If no rank lists an item or a path twice, the ranks that a metadata names are the ranks that hold it,
-- different metadata of these have different keys, the compacted metadata survives pickle, and the collectives do
-- what `all_gather_pickled_data-enumerate` asks, then the aggregation succeeds, and what it
-- records is exactly the original: some group of a path of an item has a metadata and lists a rank
-- just if that rank holds that metadata there, although only one rank of each mesh sends it.
pub aggregate_metadata_across_ranks_faithful :
    (meta_key : ShardingMetadata → String) (dumps : LocalMetadata → List ℕ)
    (loads : List ℕ → Option LocalMetadata) (all_reduce_max : List ℕ → ℕ)
    (all_gather : List (List ℕ) → List (List ℕ))
    → ((sizes : List ℕ) → All (λ n. n ≤ all_reduce_max sizes) sizes)
    → ((size : ℕ) (tensors : List (List ℕ)) → IsLevel size tensors → all_gather tensors ≡ tensors)
    → (locals : List LocalMetadata) → All (λ e. IsLocal e.1) (enumerate 0 locals)
    → IsInjective meta_key (HoldsSomewhere (enumerate 0 locals))
    → IsCoherent (enumerate 0 locals)
    → ((kept : Dict ℕ LocalMetadata)
        → compact_ranks (enumerate 0 locals) ≡ some kept
        → All (Pickles dumps loads) (values kept))
    → (merged : Dict String (Dict NestedPath (List GlobalObjectMetadata)))
      × (aggregate_metadata_across_ranks meta_key
            (all_gather_pickled_data dumps loads all_reduce_max all_gather)
            locals
          ≡ some merged)
      × ((item : String) (path : NestedPath) (r : ℕ) (md : ShardingMetadata)
          → Recorded r md (groups_at item path merged) ↔ Holds item path r md (enumerate 0 locals))
unfolding aggregate_metadata_across_ranks merged
aggregate_metadata_across_ranks_faithful key dumps loads reduce gather bounds gathers locals local
      inj coherent pickles =
    let ranks = enumerate 0 locals in
    let (kept, e, f) =
      compact_ranks_total ranks local (All-Holds Decided ranks (decided ranks coherent)) in
    let all =
      all_gather_pickled_data-enumerate dumps loads reduce gather bounds gathers (values kept)
        (pickles kept e) in
    (
      merge_object_metadata_from_ranks key kept,
      ground (arith, all, compact_ranks-values 0 locals kept e),
      λ item path r md. merged_iff key ranks kept inj coherent f item path r md,
    )
