-- ===== src/Metadata/Merge/Ranks.antt =====
-- The ranks of one group of `_merge_object_metadata_from_ranks` of torch_checkpointing/metadata_manager.py.
use torch_checkpointing.Prelude.{
  ℕ, ◌≡◌, ◌⊎◌, inl, inr, refl, true, ◌||◌, Option, none, some, String, List, [], ◌∷◌, ◌++◌, ◌==◌,
  arith, eqb, Bool-cases, Option-cases, list_eq, string_eq,
}
use torch_checkpointing.Prelude.Dict.{Dict, get, put, get-put}
use torch_checkpointing.Types.{path_key_eq}
use torch_checkpointing.Mesh.{ShardingMetadata, member}
use torch_checkpointing.Resharder.{GlobalObjectMetadata}
use torch_checkpointing.Metadata.Merge.{add_rank, sorted_ranks, insert_in_order}

-- Some group is of the metadata and lists the rank.
abbrev pub Recorded : ℕ → ShardingMetadata → List GlobalObjectMetadata → Type 0
Recorded r md [] = ⊥
Recorded r md (g ∷ groups) =
    ((g.sharding_metadata ≡ md) × (member r g.ranks ≡ true)) ⊎ Recorded r md groups

abbrev pub Groups : Type 0
Groups = Dict String (ShardingMetadata × List ℕ)

pub member-append : (r x : ℕ) (xs : List ℕ) → member r (xs ++ x ∷ []) ≡ (member r xs || eqb x r)
unfolding member
member-append r x [] = ground arith
member-append r x (y ∷ xs) = ground (arith, member-append r x xs)

member-insert_in_order :
    (r x : ℕ) (xs : List ℕ) → member r (insert_in_order x xs) ≡ (eqb x r || member r xs)
unfolding member insert_in_order
member-insert_in_order r x [] = ground arith
member-insert_in_order r x (y ∷ xs) = ground (arith, member-insert_in_order r x xs)

pub member-sorted_ranks : (r : ℕ) (xs : List ℕ) → member r (sorted_ranks xs) ≡ member r xs
unfolding member sorted_ranks
member-sorted_ranks r [] = refl
member-sorted_ranks r (x ∷ xs) =
    ground (arith, member-insert_in_order r x (sorted_ranks xs), member-sorted_ranks r xs)

module _ (meta_key : ShardingMetadata → String) where
  -- The group of the metadata lists the rank.
  abbrev pub Listed : ℕ → ShardingMetadata → Groups → Type 0
  Listed r md groups =
      (ranks : List ℕ) × (get (meta_key md) groups ≡ some (md, ranks)) × (member r ranks ≡ true)

  -- The group that takes one more rank.
  unfoldable pub grown :
      ℕ → ShardingMetadata → Option (ShardingMetadata × List ℕ) → ShardingMetadata × List ℕ
  grown q n none = (n, q ∷ [])
  grown q n (some (first, ranks)) = (first, ranks ++ q ∷ [])

  pub add_rank_lem :
      (q : ℕ) (n : ShardingMetadata) (groups : Groups)
      → add_rank meta_key q (some n) groups
        ≡ put (meta_key n) (grown q n (get (meta_key n) groups)) groups
  unfolding add_rank grown
  add_rank_lem q n groups = elim (Option-cases (get (meta_key n) groups)) [
    | inl e ↦ ground (arith)
    | inr (v, e) ↦ ground (arith)
  ]

  pub get-grown :
      (q : ℕ) (n : ShardingMetadata) (groups : Groups)
      → get (meta_key n) (add_rank meta_key q (some n) groups)
        ≡ some (grown q n (get (meta_key n) groups))
  get-grown q n groups = ground (
    arith,
    add_rank_lem q n groups,
    (string_eq.equal_iff (meta_key n) (meta_key n)).1 refl,
    get-put (meta_key n) (meta_key n) (grown q n (get (meta_key n) groups)) groups,
  )

  grows :
      (q : ℕ) (md n : ShardingMetadata) (groups : Groups) (ranks : List ℕ)
      → (meta_key n == meta_key md) ≡ true
      → get (meta_key md) groups ≡ some (md, ranks)
      → get (meta_key md) (add_rank meta_key q (some n) groups) ≡ some (md, ranks ++ q ∷ [])
  unfolding grown
  grows q md n groups ranks same e = ground (
    arith,
    add_rank_lem q n groups,
    (string_eq.equal_iff (meta_key n) (meta_key md)).0 same,
    get-put (meta_key n) (meta_key md) (grown q n (get (meta_key n) groups)) groups,
  )

  -- A group keeps its metadata and its ranks.
  pub add_rank-Listed :
      (r q : ℕ) (md : ShardingMetadata) (o : Option ShardingMetadata) (groups : Groups)
      → Listed r md groups
      → Listed r md (add_rank meta_key q o groups)
  unfolding add_rank
  add_rank-Listed r q md none groups h = h
  add_rank-Listed r q md (some n) groups (ranks, e, in') =
      elim (Bool-cases (meta_key n == meta_key md)) [
        | inl same ↦ (
          ranks ++ q ∷ [],
          grows q md n groups ranks same e,
          rw (member-append r q ranks) (ground arith),
        )
        | inr differ ↦ (
          ranks,
          ground (
            arith,
            add_rank_lem q n groups,
            get-put (meta_key n) (meta_key md) (grown q n (get (meta_key n) groups)) groups,
          ),
          in',
        )
      ]

-- Different metadata that some rank has do not share a key.
abbrev pub IsInjective : (ShardingMetadata → String) → (ℕ → ShardingMetadata → Type 0) → Type 0
IsInjective meta_key Has =
    (m n : ShardingMetadata)
    → (q : ℕ) × Has q m
    → (q : ℕ) × Has q n
    → meta_key m ≡ meta_key n
    → m ≡ n
