-- ===== src/Metadata/Merge/Represents.antt =====
-- Of the ranks that hold a metadata one represents it.
use torch_checkpointing.Prelude.{
  ℕ, suc, ◌≡◌, inl, inr, refl, true, some, String, List, [], ◌∷◌, arith, eqb, eqb_iff, leb,
  Option-cases, list_eq, string_eq, if◌then◌else◌, All,
}
use torch_checkpointing.Prelude.Dict.{Dict, values}
use torch_checkpointing.Types.{NestedPath, path_key_eq}
use torch_checkpointing.Mesh.{ShardingMetadata, equivalent_ranks, member}
use torch_checkpointing.Metadata.Gather.{enumerate}
use torch_checkpointing.Metadata.Merge.Kept.{Decided}
use torch_checkpointing.Metadata.Merge.Ranks.{member-sorted_ranks}
use torch_checkpointing.Metadata.Merge.{
  LocalMetadata, lookup, Holds, minimum, is_representative, compact, compact_ranks, final_ranks,
}

minimum_total :
    (x : ℕ) (xs : List ℕ) → (m : ℕ) × (minimum (x ∷ xs) ≡ some m) × (member m (x ∷ xs) ≡ true)
unfolding minimum member
minimum_total x [] = (x, refl, ground (arith, eqb_iff x x))
minimum_total x (y ∷ xs) =
    let (m, e, i) = minimum_total y xs in
    (if leb x m then x else m, ground arith, ground (arith, eqb_iff x x))

minimum-member :
    (r : ℕ) (xs : List ℕ)
    → member r xs ≡ true
    → (m : ℕ) × (minimum xs ≡ some m) × (member m xs ≡ true)
unfolding member
minimum-member r [] h = absurd (ground arith)
minimum-member r (x ∷ xs) h = minimum_total x xs

pub compact_ranks-values :
    (rank : ℕ) (locals : List LocalMetadata) (kept : Dict ℕ LocalMetadata)
    → compact_ranks (enumerate rank locals) ≡ some kept
    → enumerate rank (values kept) ≡ kept
unfolding compact_ranks enumerate
compact_ranks-values rank [] [] h = refl
compact_ranks-values rank [] (e ∷ kept) h = ground arith
compact_ranks-values rank (d ∷ ds) kept h = elim (Option-cases (compact rank d)) [
  | inl e ↦ ground arith
  | inr (one, e) ↦ elim (Option-cases (compact_ranks (enumerate (suc rank) ds))) [
    | inl n ↦ ground arith
    | inr (rest, n) ↦ ground (arith, compact_ranks-values (suc rank) ds rest n)
  ]
]

-- The ranks that a metadata names are those that hold it.
abbrev pub IsCoherent : Dict ℕ LocalMetadata → Type 0
IsCoherent ranks =
    (item : String) (path : NestedPath) (r : ℕ) (md : ShardingMetadata) (named : List ℕ)
    → Holds item path r md ranks
    → equivalent_ranks md ≡ some named
    → (member r named ≡ true) × ((q : ℕ) → member q named ≡ true → Holds item path q md ranks)

pub All-Holds :
    (P : ℕ → ShardingMetadata → Type 0) (ranks : Dict ℕ LocalMetadata)
    → ((item : String) (path : NestedPath) (r : ℕ) (md : ShardingMetadata)
        → Holds item path r md ranks
        → P r md)
    → All
        (λ e.
          (item : String) (path : NestedPath) (md : ShardingMetadata)
          → lookup item path e.1 ≡ some md
          → P e.0 md)
        ranks
All-Holds P [] h = tt
All-Holds P ((q, d) ∷ ranks) h = (
  (λ item path md e. h item path q md (inl (refl, e))),
  All-Holds P ranks (λ item path r md held. h item path r md (inr held)),
)

-- Of the ranks that hold a metadata one represents it, and in `final_ranks` all of them stand.
module _ (ranks : Dict ℕ LocalMetadata) (coherent : IsCoherent ranks) where
  pub decided :
      (item : String) (path : NestedPath) (r : ℕ) (md : ShardingMetadata)
      → Holds item path r md ranks
      → Decided r md
  unfolding is_representative
  decided item path r md held = elim (Option-cases (equivalent_ranks md)) [
    | inl e ↦ (true, ground arith)
    | inr (named, e) ↦
        let (m, f, _) = minimum-member r named (coherent item path r md named held e).0 in
        (eqb r m, ground arith)
  ]

  -- The rank that represents the metadata, and what the list of its holders then comes to.
  pub represented :
      (item : String) (path : NestedPath) (r : ℕ) (md : ShardingMetadata)
      → Holds item path r md ranks
      → (q : ℕ) × Holds item path q md ranks
        × (is_representative q md ≡ some true)
        × ((holders : List ℕ) → member q holders ≡ true → member r (final_ranks md holders) ≡ true)
  unfolding is_representative final_ranks
  represented item path r md held = elim (Option-cases (equivalent_ranks md)) [
    | inl e ↦ (r, held, ground arith, λ holders h. ground arith)
    | inr (named, e) ↦
        let (own, others) = coherent item path r md named held e in
        let (m, f, i) = minimum-member r named own in
        (
          m,
          others m i,
          ground (arith, eqb_iff m m),
          λ holders h. ground (arith, member-sorted_ranks r named),
        )
  ]

  pub held_by_final :
      (item : String) (path : NestedPath) (r : ℕ) (md : ShardingMetadata) (holders : List ℕ)
      → member r (final_ranks md holders) ≡ true
      → ((q : ℕ) → member q holders ≡ true → Holds item path q md ranks)
      → ((q : ℕ) × Holds item path q md ranks)
      → Holds item path r md ranks
  unfolding final_ranks
  held_by_final item path r md holders h all (q, held) = elim (Option-cases (equivalent_ranks md)) [
    | inl e ↦ all r (ground arith)
    | inr (named, e) ↦
        (coherent item path q md named held e).1 r (ground (arith, member-sorted_ranks r named))
  ]
