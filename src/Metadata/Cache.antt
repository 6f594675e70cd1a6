-- ===== src/Metadata/Cache.antt =====
-- `DefaultMetadataManager` of torch_checkpointing/metadata_manager.py: what it caches, and how saves
-- use it (`_get_serialized_metadata` of torch_checkpointing/checkpoint_saver.py).
-- A `bytes` object is its content with an identity, which Python's `is` compares; the manager's
-- `next_object` stands for the allocation of a new one by `pickle.dumps`.
pub mod Current
pub mod Identity
use torch_checkpointing.Prelude.{
  ℕ, suc, not, Bool, true, false, ◌&&◌, Option, none, some, Eq, if◌then◌else◌,
}
use torch_checkpointing.Prelude.Result.{Result, ok, err}

pub data SaveError : Type 0 where
  no_computed_metadata structure_changed aggregation_failed : SaveError
  lock_timeout prior_write_failed launch_failed worker_failed : SaveError

pub record Blob (C : Type 0) : Type 0 where
  pub object : ℕ
  pub content : C

-- `CheckpointMetadata`
pub record Computed (Local Global : Type 0) : Type 0 where
  pub distributed_metadata : Global
  pub local_metadata : Local

pub record Manager (Local Layouts Global Content : Type 0) : Type 0 where
  pub computed_metadata : Option (Computed Local Global)
  pub computed_layout_info : Option Layouts
  pub serialized_metadata : Option (Blob Content)
  pub next_object : ℕ

-- The collectives of one call, as this rank sees them: whether the job is distributed, whether every
-- other rank's flag is set, and what the aggregation returns.
pub record Collectives (Items Local Global : Type 0) : Type 0 where
  pub is_distributed : Bool
  pub others_agree : Bool
  pub aggregate_metadata : Local → Items → Result SaveError Global

-- `_all_ranks_agree`: the minimum of the flags of all ranks.
unfoldable pub all_ranks_agree : Bool → Bool → Bool → Bool
all_ranks_agree is_distributed others value = if is_distributed then value && others else value

module _ {Local Layouts Global Content : Type 0} where
  unfoldable pub invalidate_computed_metadata :
      Manager Local Layouts Global Content → Manager Local Layouts Global Content
  invalidate_computed_metadata m = record m {
    computed_metadata = none;
    computed_layout_info = none;
    serialized_metadata = none;
  }

  unfoldable pub has_computed_metadata : Manager Local Layouts Global Content → Bool
  has_computed_metadata m = elim m.computed_metadata [ none ↦ false | some _ ↦ true ]

  unfoldable pub get_computed_metadata :
      Manager Local Layouts Global Content → Result SaveError (Computed Local Global)
  get_computed_metadata m = elim m.computed_metadata [
    | none ↦ err no_computed_metadata
    | some c ↦ ok c
  ]

module _ {Local Layouts Global Content : Type 0} (serialize : Global → Content) where
  -- `pickle.dumps` of the global metadata makes a new object, which is kept.
  keep_serialized :
      Result SaveError (Computed Local Global)
      → Manager Local Layouts Global Content
      → Result SaveError (Blob Content) × Manager Local Layouts Global Content
  keep_serialized (err e) m = (err e, m)
  keep_serialized (ok c) m =
      let blob : Blob Content = record {
        object = m.next_object;
        content = serialize c.distributed_metadata;
      } in
      (ok blob, record m { serialized_metadata = some blob; next_object = suc m.next_object })

  unfoldable pub get_serialized_computed_metadata :
      Manager Local Layouts Global Content
      → Result SaveError (Blob Content) × Manager Local Layouts Global Content
  unfolding keep_serialized get_computed_metadata
  get_serialized_computed_metadata m = elim m.serialized_metadata [
    | some blob ↦ (ok blob, m)
    | none ↦ keep_serialized (get_computed_metadata m) m
  ]

module _ {Items Local Layouts Global Content : Type 0} ⦃eq_local : Eq Local⦄
    ⦃eq_layouts : Eq Layouts⦄ (extract_object_metadata : Items → Local)
    (resharded_item_layouts : Items → Layouts) where
  unfoldable pub cache_matches : Manager Local Layouts Global Content → Local → Layouts → Bool
  cache_matches m local layouts = elim m.computed_metadata [
    | none ↦ false
    | some c ↦
        eq_local.equal c.local_metadata local
        && elim m.computed_layout_info [ none ↦ false | some l ↦ eq_layouts.equal l layouts ]
  ]

  unfoldable pub computed_metadata_matches : Manager Local Layouts Global Content → Items → Bool
  unfolding cache_matches
  computed_metadata_matches m items =
      cache_matches m (extract_object_metadata items) (resharded_item_layouts items)

  -- What `compute_distributed_metadata` does with the result of the aggregation.
  keep_computed :
      Manager Local Layouts Global Content
      → Items
      → Result SaveError Global
      → Result SaveError (Unit {0}) × Manager Local Layouts Global Content
  keep_computed m items (err e) = (err e, m)
  keep_computed m items (ok g) = (
    ok tt,
    record m {
      computed_metadata =
          some
            (record { distributed_metadata = g; local_metadata = extract_object_metadata items });
      computed_layout_info = some (resharded_item_layouts items);
    },
  )

  unfoldable pub compute_distributed_metadata :
      Collectives Items Local Global
      → Manager Local Layouts Global Content
      → Items
      → Result SaveError (Unit {0}) × Manager Local Layouts Global Content
  unfolding all_ranks_agree computed_metadata_matches keep_computed invalidate_computed_metadata
  compute_distributed_metadata c m items =
      if all_ranks_agree c.is_distributed c.others_agree (computed_metadata_matches m items)
      then (ok tt, m)
      else keep_computed (invalidate_computed_metadata m) items
          (c.aggregate_metadata (extract_object_metadata items) items)

  module _ (serialize : Global → Content) where
    -- The metadata, once the computation, if one was due, is over.
    after_compute :
        Result SaveError (Unit {0}) × Manager Local Layouts Global Content
        → Result SaveError (Blob Content) × Manager Local Layouts Global Content
    after_compute (err e, m) = (err e, m)
    after_compute (ok _, m) = get_serialized_computed_metadata serialize m

    -- `_get_serialized_metadata`
    unfoldable pub get_serialized_metadata :
        Bool
        → Collectives Items Local Global
        → Manager Local Layouts Global Content
        → Items
        → Result SaveError (Blob Content) × Manager Local Layouts Global Content
    unfolding after_compute has_computed_metadata
    get_serialized_metadata validate c m items =
        if has_computed_metadata m
        then if validate && not (computed_metadata_matches m items)
          then (err structure_changed, m)
          else get_serialized_computed_metadata serialize m
        else after_compute (compute_distributed_metadata c m items)
