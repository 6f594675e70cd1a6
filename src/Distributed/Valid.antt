-- ===== src/Distributed/Valid.antt =====
-- `DistributedMetadata.__post_init__` of torch_checkpointing/distributed_metadata.py and what it accepts.
use mathlib.Core.Path.{subst}
use torch_checkpointing.Prelude.{
  ℕ, suc, zero, ◌<◌, ◌≡◌, ◌↔◌, inl, inr, refl, sym, ◌∙◌, true, false, ◌||◌, Option, none, some,
  String, List, [], ◌∷◌, ◌++◌, All, arith, nat_eq, string_eq, ◌==◌, Bool-cases, Option-cases,
  eqb_iff, ap,
}
use mathlib.Core.List.{append-nil, append_assoc}
use torch_checkpointing.Prelude.Dict.{Dict, has}
use torch_checkpointing.Layout.{LayoutInfo}
use torch_checkpointing.Distributed.{DistributedItemMetadata, DistributedMetadata}
use torch_checkpointing.Distributed.Check.{
  all_below, none_above, has_all_ranks, is_used, use_layouts, use_paths, is_valid,
}

-- The files that the ranks write for an item, and for all items.
abbrev pub files_of : Dict ℕ (Option LayoutInfo) → List String
files_of [] = []
files_of ((rank, none) ∷ rest) = files_of rest
files_of ((rank, some l) ∷ rest) = l.file_path ∷ files_of rest

abbrev pub files : Dict String DistributedItemMetadata → List String
files [] = []
files ((key, i) ∷ rest) = files_of i.rank_to_layout_info ++ files rest

-- No file is written twice.
abbrev pub NoneTwice : List String → Type 0
NoneTwice [] = Unit
NoneTwice (p ∷ paths) = (is_used p paths ≡ false) × NoneTwice paths

is_used-append :
    (p q : String) (used : List String) → is_used p (used ++ q ∷ []) ≡ (is_used p used || (q == p))
unfolding is_used
is_used-append p q [] = ground arith
is_used-append p q (x ∷ used) = ground (arith, is_used-append p q used)

NoneTwice-append :
    (used : List String) (p : String)
    → NoneTwice used
    → is_used p used ≡ false
    → NoneTwice (used ++ p ∷ [])
unfolding is_used
NoneTwice-append [] p h n = (refl, tt)
NoneTwice-append (q ∷ used) p h n = (
  ground (arith, is_used-append q p used, h.0, string_eq.equal_iff q p, string_eq.equal_iff p q),
  NoneTwice-append used p h.1 (ground (arith, n)),
)

use_layouts-files :
    (d : Dict ℕ (Option LayoutInfo)) (used more : List String)
    → NoneTwice used
    → use_layouts used d ≡ some more
    → (more ≡ used ++ files_of d) × NoneTwice more
unfolding use_layouts
use_layouts-files [] used more h e =
    let same : used ≡ more = ground arith in
    (sym same ∙ sym (append-nil used), subst NoneTwice same h)
use_layouts-files ((rank, none) ∷ d) used more h e = use_layouts-files d used more h e
use_layouts-files ((rank, some l) ∷ d) used more h e =
    elim (Bool-cases (is_used l.file_path used)) [
      | inl again ↦ absurd (ground arith)
      | inr new ↦
          let (same, once) =
            use_layouts-files d (used ++ l.file_path ∷ []) more
              (NoneTwice-append used l.file_path h new) (rw new at e) in
          (same ∙ append_assoc used (l.file_path ∷ []) (files_of d), once)
    ]

use_paths-files :
    (d : Dict String DistributedItemMetadata) (used more : List String)
    → NoneTwice used
    → use_paths used d ≡ some more
    → (more ≡ used ++ files d) × NoneTwice more
unfolding use_paths
use_paths-files [] used more h e =
    let same : used ≡ more = ground arith in
    (sym same ∙ sym (append-nil used), subst NoneTwice same h)
use_paths-files ((key, i) ∷ d) used more h e =
    elim (Option-cases (use_layouts used i.rank_to_layout_info)) [
      | inl n ↦ absurd (ground arith)
      | inr (mid, f) ↦
          let (first, once) = use_layouts-files i.rank_to_layout_info used mid h f in
          let (then', twice) = use_paths-files d mid more once (ground arith) in
          (
            then'
                ∙ ap (λ t. t ++ files d) first
                ∙ append_assoc used (files_of i.rank_to_layout_info) (files d),
            twice,
          )
    ]

all_below-has :
    (n : ℕ) (d : Dict ℕ (Option LayoutInfo))
    → all_below n d ≡ true
    → (r : ℕ) → r < n
    → has r d ≡ true
unfolding all_below
all_below-has zero d h r below = absurd (omega (arith, below))
all_below-has (suc n) d h r below = elim (Bool-cases (r == n)) [
  | inl same ↦ subst (λ k. has k d ≡ true) (sym ((eqb_iff r n).0 same)) (ground arith)
  | inr differ ↦ all_below-has n d (ground arith) r (ground arith)
]

none_above-has :
    (n : ℕ) (d : Dict ℕ (Option LayoutInfo))
    → none_above n d ≡ true
    → (r : ℕ) → has r d ≡ true
    → r < n
unfolding none_above
none_above-has n [] h r e = absurd (ground arith)
none_above-has n ((q, l) ∷ d) h r e = elim (Bool-cases (q == r)) [
  | inl same ↦ ground (arith)
  | inr differ ↦ none_above-has n d (ground arith) r (ground (arith, e))
]

-- Each item lists the ranks of the world, and no other rank.
abbrev pub ListsRanks : ℕ → DistributedItemMetadata → Type 0
ListsRanks n i = (r : ℕ) → (has r i.rank_to_layout_info ≡ true) ↔ (r < n)

has_all_ranks-ListsRanks :
    (n : ℕ) (d : Dict String DistributedItemMetadata)
    → has_all_ranks n d ≡ true
    → All (λ e. ListsRanks n e.1) d
unfolding has_all_ranks
has_all_ranks-ListsRanks n [] h = tt
has_all_ranks-ListsRanks n ((key, i) ∷ d) h = (
  (λ r. (
    none_above-has n i.rank_to_layout_info (ground arith) r,
    all_below-has n i.rank_to_layout_info (ground arith) r,
  )),
  has_all_ranks-ListsRanks n d (ground arith),
)

-- Metadata that `__post_init__` accepts lists for each item exactly the ranks of the world, and no file is
-- the target of two of its entries, whether of two ranks or of two items.
pub is_valid-NoneTwice :
    (m : DistributedMetadata)
    → is_valid m ≡ true
    → All (λ e. ListsRanks m.world_size e.1) m.metadata × NoneTwice (files m.metadata)
unfolding is_valid
is_valid-NoneTwice m h = elim (Option-cases (use_paths [] m.metadata)) [
  | inl n ↦ absurd (ground arith)
  | inr (used, e) ↦
      let (same, once) = use_paths-files m.metadata [] used tt e in
      (has_all_ranks-ListsRanks m.world_size m.metadata (ground arith), rw same at once)
]
