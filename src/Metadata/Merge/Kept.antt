-- ===== src/Metadata/Merge/Kept.antt =====
-- What a rank keeps when it leaves out the entries that it does not represent.
use torch_checkpointing.Prelude.{
  ℕ, ◌≡◌, ◌∙◌, ◌↔◌, ◌⊎◌, inl, inr, refl, sym, ap, Bool, true, false, Option, none, some, String, [],
  ◌∷◌, ◌==◌, arith, Bool-cases, list_eq, string_eq, if◌then◌else◌, All, list_beq_iff,
}
use torch_checkpointing.Prelude.Dict.{Dict, get, IsDict, get-later, get-own}
use torch_checkpointing.Types.{NestedPath, path_key_eq}
use torch_checkpointing.Mesh.{ShardingMetadata}
use torch_checkpointing.Metadata.Merge.{
  ItemMetadata, LocalMetadata, lookup, is_representative, compact_item, keep_item, compact,
  compact_ranks, Holds, lookup-cons,
}

pub kept_if : Option Bool → ShardingMetadata → Option ShardingMetadata
kept_if (some true) md = some md
kept_if _ md = none

unfoldable pub filtered : ℕ → Option ShardingMetadata → Option ShardingMetadata
filtered rank none = none
filtered rank (some md) = kept_if (is_representative rank md) md

abbrev pub Decided : ℕ → ShardingMetadata → Type 0
Decided rank md = (b : Bool) × (is_representative rank md ≡ some b)

path-cases : (p q : NestedPath) → ((p ≡ q) × ((p == q) ≡ true)) ⊎ ((p == q) ≡ false)
path-cases p q = elim (Bool-cases (p == q)) [
  | inl same ↦ inl ((list_beq_iff p q).0 same, same)
  | inr differ ↦ inr differ
]

-- One more entry, kept or not.
get-kept :
    (rank : ℕ) (p path : NestedPath) (md : ShardingMetadata) (d rest : ItemMetadata) (b : Bool)
    → is_representative rank md ≡ some b
    → get p d ≡ none
    → get path rest ≡ filtered rank (get path d)
    → get path (if b then (p, md) ∷ rest else rest) ≡ filtered rank (get path ((p, md) ∷ d))
unfolding filtered kept_if
get-kept rank p path md d rest b g fresh f = elim (path-cases p path) [
  | inl (at, same) ↦ elim (Bool-cases b) [
    | inl keeps ↦ rw (keeps, same) (ground arith)
    | inr drops ↦ rw (drops, same) (ground arith)
  ]
  | inr differ ↦ elim (Bool-cases b) [
    | inl keeps ↦ rw (keeps, differ) f
    | inr drops ↦ rw (drops, differ) f
  ]
]

compact_item_total :
    (rank : ℕ) (d : ItemMetadata)
    → IsDict d
    → ((path : NestedPath) (md : ShardingMetadata) → get path d ≡ some md → Decided rank md)
    → (kept : ItemMetadata) × (compact_item rank d ≡ some kept)
      × ((path : NestedPath) → get path kept ≡ filtered rank (get path d))
unfolding compact_item filtered kept_if
compact_item_total rank [] u h = ([], refl, λ path. refl)
compact_item_total rank ((p, md) ∷ d) u h =
    let (rest, e, f) =
      compact_item_total rank d u.1 (λ path m g. h path m (get-later p path md m d u.0 g)) in
    let (b, g) = h p md (get-own p md d) in
    (
      if b then (p, md) ∷ rest else rest,
      ground arith,
      λ path. get-kept rank p path md d rest b g u.0 (f path),
    )

keep_item-lookup :
    (item' item : String) (path : NestedPath) (one : ItemMetadata) (kept : LocalMetadata)
    → get item' kept ≡ none
    → lookup item path (keep_item item' one kept)
      ≡ (if item' == item then get path one else lookup item path kept)
unfolding keep_item lookup
keep_item-lookup item' item path [] kept fresh = ground (arith, string_eq.equal_iff item' item)
keep_item-lookup item' item path (e ∷ es) kept fresh =
    ground (arith, string_eq.equal_iff item' item)

keep_item-none :
    (item' item : String) (one : ItemMetadata) (kept : LocalMetadata)
    → get item' ((item, one) ∷ kept) ≡ none
    → get item' (keep_item item one kept) ≡ none
unfolding keep_item
keep_item-none item' item [] kept h = ground (arith, string_eq.equal_iff item item')
keep_item-none item' item (e ∷ es) kept h = ground (arith, string_eq.equal_iff item item')

-- What `compact` gives: the same lookups, less what the rank does not represent.
abbrev pub IsCompacted : ℕ → LocalMetadata → LocalMetadata → Type 0
IsCompacted rank d kept =
    ((item : String) (path : NestedPath)
      → lookup item path kept ≡ filtered rank (lookup item path d))
    × ((item : String) → get item d ≡ none → get item kept ≡ none)

-- A rank's metadata, in which no item and no path is listed twice.
abbrev pub IsLocal : LocalMetadata → Type 0
IsLocal d = IsDict d × All (λ e. IsDict e.1) d

lookup-later :
    (i item : String) (path : NestedPath) (paths : ItemMetadata) (d : LocalMetadata)
    (md : ShardingMetadata)
    → get i d ≡ none
    → lookup item path d ≡ some md
    → lookup item path ((i, paths) ∷ d) ≡ some md
unfolding lookup
lookup-later i item path paths d md fresh h = ground (arith, string_eq.equal_iff i item)

lookup-own :
    (i : String) (path : NestedPath) (paths : ItemMetadata) (d : LocalMetadata)
    (md : ShardingMetadata)
    → get path paths ≡ some md
    → lookup i path ((i, paths) ∷ d) ≡ some md
unfolding lookup
lookup-own i path paths d md h = ground (arith, string_eq.equal_iff i i)

look-both :
    (rank : ℕ) (i item : String) (path : NestedPath) (paths one : ItemMetadata)
    (d rest : LocalMetadata)
    → lookup item path rest ≡ filtered rank (lookup item path d)
    → get path one ≡ filtered rank (get path paths)
    → (if i == item then get path one else lookup item path rest)
      ≡ filtered rank (lookup item path ((i, paths) ∷ d))
look-both rank i item path paths one d rest f g = elim (Bool-cases (i == item)) [
  | inl same ↦ rw (lookup-cons i item path paths d, same) g
  | inr differ ↦ rw (lookup-cons i item path paths d, differ) f
]

compact_total :
    (rank : ℕ) (d : LocalMetadata)
    → IsLocal d
    → ((item : String) (path : NestedPath) (md : ShardingMetadata)
        → lookup item path d ≡ some md
        → Decided rank md)
    → (kept : LocalMetadata) × (compact rank d ≡ some kept) × IsCompacted rank d kept
unfolding compact filtered lookup
compact_total rank [] u h = ([], refl, ((λ item path. refl), λ item e. refl))
compact_total rank ((i, paths) ∷ d) u h =
    let (rest, e, (f, n)) =
      compact_total rank d (u.0.1, u.1.1)
        (λ item path md g. h item path md (lookup-later i item path paths d md u.0.0 g)) in
    let (one, e', f') =
      compact_item_total rank paths u.1.0
        (λ path md g. h i path md (lookup-own i path paths d md g)) in
    (
      keep_item i one rest,
      ground arith,
      (
        (λ item path.
            keep_item-lookup i item path one rest (n i u.0.0)
            ∙ look-both rank i item path paths one d rest (f item path) (f' path)),
        λ item g. keep_item-none item i one rest (ground (arith, n item)),
      ),
    )

kept_if-some :
    (rank : ℕ) (m md : ShardingMetadata) (o : Option Bool)
    → is_representative rank m ≡ o
    → kept_if o m ≡ some md
    → (some m ≡ some md) × (is_representative rank md ≡ some true)
unfolding kept_if
kept_if-some rank m md none e h = ground arith
kept_if-some rank m md (some false) e h = ground arith
kept_if-some rank m md (some true) e h = (h, ground arith)

filtered_iff :
    (rank : ℕ) (o : Option ShardingMetadata) (md : ShardingMetadata)
    → (filtered rank o ≡ some md) ↔ ((o ≡ some md) × (is_representative rank md ≡ some true))
unfolding filtered kept_if
filtered_iff rank none md = ((λ h. ground arith), λ h. ground arith)
filtered_iff rank (some m) md = (
  (λ h. kept_if-some rank m md (is_representative rank m) refl h),
  (λ (same, e). ap (filtered rank) same ∙ ap (λ o. kept_if o md) e),
)

pub compact_ranks_total :
    (ranks : Dict ℕ LocalMetadata)
    → All (λ e. IsLocal e.1) ranks
    → All
        (λ e.
          (item : String) (path : NestedPath) (md : ShardingMetadata)
          → lookup item path e.1 ≡ some md
          → Decided e.0 md)
        ranks
    → (kept : Dict ℕ LocalMetadata) × (compact_ranks ranks ≡ some kept)
      × ((item : String) (path : NestedPath) (r : ℕ) (md : ShardingMetadata)
          → Holds item path r md kept
            ↔ Holds item path r md ranks × (is_representative r md ≡ some true))
unfolding compact_ranks
compact_ranks_total [] u h = ([], refl, λ item path r md. ((λ x. elim x [ ]), λ x. elim x.0 [ ]))
compact_ranks_total ((q, d) ∷ ranks) u h =
    let (rest, e, f) = compact_ranks_total ranks u.1 h.1 in
    let (one, e', (g, _)) = compact_total q d u.0 h.0 in
    (
      (q, one) ∷ rest,
      ground arith,
      λ item path r md. (
        (λ held. elim held [
          | inl (same, l) ↦
              let (there, is) =
                (filtered_iff q (lookup item path d) md).0 (sym (g item path) ∙ l) in
              (inl (same, there), rw same at is)
          | inr later ↦ let (there, is) = (f item path r md).0 later in (inr there, is)
        ]),
        (λ (held, is). elim held [
          | inl (same, l) ↦
              inl (same, g item path ∙ (filtered_iff q (lookup item path d) md).1 (l, rw same is))
          | inr later ↦ inr ((f item path r md).1 (later, is))
        ]),
      ),
    )
