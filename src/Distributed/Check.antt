-- ===== src/Distributed/Check.antt =====
-- `DistributedMetadata.__post_init__` of torch_checkpointing/distributed_metadata.py.
use torch_checkpointing.Prelude.{
  ℕ, suc, Bool, true, false, ◌&&◌, ◌||◌, ltb, ◌++◌, zero, Option, none, some, String, List, [], ◌∷◌,
  ◌==◌, string_eq, nat_eq, list_eq, if◌then◌else◌,
}
use torch_checkpointing.Prelude.Result.{Result, ok, err}
use torch_checkpointing.Prelude.Dict.{Dict, has}
use torch_checkpointing.Types.{path_key_eq}
use torch_checkpointing.Data.{FormatError, invalid}
use torch_checkpointing.Layout.{LayoutInfo}
use torch_checkpointing.Distributed.{DistributedItemMetadata, DistributedMetadata}

-- The ranks are those from 0 up to the world size, and no other.
unfoldable pub all_below : ℕ → Dict ℕ (Option LayoutInfo) → Bool
all_below zero d = true
all_below (suc n) d = has n d && all_below n d

unfoldable pub none_above : ℕ → Dict ℕ (Option LayoutInfo) → Bool
none_above n [] = true
none_above n ((rank, l) ∷ d) = ltb rank n && none_above n d

unfoldable pub has_all_ranks : ℕ → Dict String DistributedItemMetadata → Bool
has_all_ranks n [] = true
has_all_ranks n ((key, i) ∷ rest) =
    (all_below n i.rank_to_layout_info && none_above n i.rank_to_layout_info)
    && has_all_ranks n rest

unfoldable pub is_used : String → List String → Bool
is_used path [] = false
is_used path (p ∷ used) = p == path || is_used path used

-- `used_paths`, which only matter by their keys; `none` is the error on a path that is used twice.
unfoldable pub use_layouts : List String → Dict ℕ (Option LayoutInfo) → Option (List String)
use_layouts used [] = some used
use_layouts used ((rank, none) ∷ rest) = use_layouts used rest
use_layouts used ((rank, some l) ∷ rest) =
    let later = use_layouts (used ++ l.file_path ∷ []) rest in
    if is_used l.file_path used then none else later

unfoldable pub use_paths : List String → Dict String DistributedItemMetadata → Option (List String)
use_paths used [] = some used
use_paths used ((key, i) ∷ rest) = elim (use_layouts used i.rank_to_layout_info) [
  | none ↦ none
  | some more ↦ use_paths more rest
]

-- `DistributedMetadata.__post_init__`
unfoldable pub is_valid : DistributedMetadata → Bool
is_valid m =
    has_all_ranks m.world_size m.metadata
    && (elim (use_paths [] m.metadata) [ none ↦ false | some used ↦ true ])

-- `DistributedMetadata(...)`
unfoldable pub checked : DistributedMetadata → Result FormatError DistributedMetadata
checked m = if is_valid m then ok m else err invalid
