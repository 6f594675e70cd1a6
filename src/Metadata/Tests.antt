-- ===== src/Metadata/Tests.antt =====
-- Two ranks that hold the same tensor: one of them sends what it is, and both are recorded.
use mathlib.Core.Path.{subst}
use torch_checkpointing.Prelude.{
  ℕ, ◌≤◌, ◌≡◌, ◌↔◌, ◌⊎◌, inl, inr, refl, ap, sym, ◌∙◌, eqb, Option, none, some, String, List, [],
  ◌∷◌, arith, max, All, All-map, Bool-cases, ◌==◌, string_eq, list_eq,
}
use torch_checkpointing.Prelude.Dict.{Dict, values}
use torch_checkpointing.Types.{NestedPath, name, path_key_eq}
use torch_checkpointing.Mesh.{ShardingMetadata, dtensor, equivalent_ranks, member}
use torch_checkpointing.Resharder.{GlobalObjectMetadata}
use torch_checkpointing.Distributed.{DistributedMetadata}
use torch_checkpointing.Distributed.Check.{checked}
use torch_checkpointing.Distributed.Lookup.{
  aggregate_metadata, metadata_at, aggregate_metadata-metadata_at,
}
use torch_checkpointing.Metadata.Gather.{all_gather_pickled_data, enumerate}
use torch_checkpointing.Metadata.Gather.RoundTrip.{
  Pickles, IsLevel, all_gather_pickled_data-enumerate,
}
use torch_checkpointing.Metadata.Merge.{
  LocalMetadata, compact, compact_item, is_representative, minimum, keep_item, lookup, lookup-cons,
  Holds, compact_ranks, aggregate_metadata_across_ranks,
}
use torch_checkpointing.Metadata.Merge.Ranks.{Recorded}
use torch_checkpointing.Metadata.Merge.Kept.{IsLocal}
use torch_checkpointing.Metadata.Merge.Represents.{IsCoherent}
use torch_checkpointing.Metadata.Merge.Faithful.{
  HoldsSomewhere, groups_at, aggregate_metadata_across_ranks_faithful,
}

maximum : List ℕ → ℕ
maximum [] = 0
maximum (x ∷ xs) = max x (maximum xs)

maximum-bounds : (sizes : List ℕ) → All (λ n. n ≤ maximum sizes) sizes
unfolding maximum
maximum-bounds [] = tt
maximum-bounds (x ∷ xs) = (
  omega arith,
  All-map (λ n. n ≤ maximum xs) {Q = λ n. n ≤ max x (maximum xs)} xs (λ n h. omega (arith, h))
      (maximum-bounds xs),
)

whole : List (List ℕ) → List (List ℕ)
whole tensors = tensors

whole_lem : (size : ℕ) (tensors : List (List ℕ)) → IsLevel size tensors → whole tensors ≡ tensors
unfolding whole
whole_lem size tensors h = refl

one_byte : ℕ → List ℕ
one_byte n = n ∷ []

first_byte : List ℕ → Option ℕ
first_byte [] = none
first_byte (b ∷ rest) = some b

bytes-Pickle : All (Pickles one_byte first_byte) (7 ∷ 9 ∷ [])
unfolding one_byte first_byte
bytes-Pickle = ((refl, omega arith), ((refl, omega arith), tt))

all_gather_pickled_data-enumerate_example :
    all_gather_pickled_data one_byte first_byte maximum whole (7 ∷ 9 ∷ [])
    ≡ some (enumerate 0 (7 ∷ 9 ∷ []))
all_gather_pickled_data-enumerate_example =
    all_gather_pickled_data-enumerate one_byte first_byte maximum whole maximum-bounds whole_lem
      (7 ∷ 9 ∷ []) bytes-Pickle

abbrev weight : ShardingMetadata
weight = dtensor (record {
  global_shape = 4 ∷ [];
  dtype = "float32";
  stride = 1 ∷ [];
  mesh_spec = record {
    device_type = "cuda";
    mesh_shape = 2 ∷ [];
    mesh_data = 0 ∷ 1 ∷ [];
    mesh_dim_names = none;
  };
  placements = [];
})

abbrev local : LocalMetadata
local = ("model", (name "weight" ∷ [], weight) ∷ []) ∷ []

abbrev both : List LocalMetadata
both = local ∷ local ∷ []

-- The dumps of what the two ranks send: that of the second is empty.
dumped : LocalMetadata → List ℕ
dumped [] = []
dumped (item ∷ items) = 1 ∷ []

undumped : List ℕ → Option LocalMetadata
undumped [] = some []
undumped (b ∷ rest) = some local

key_of : ShardingMetadata → String
key_of md = "the only one"

-- Both ranks hold the weight, and nothing else.
found :
    (item : String) (path : NestedPath) (md : ShardingMetadata)
    → lookup item path local ≡ some md
    → md ≡ weight
unfolding lookup
found item path md h = elim (Bool-cases ("model" == item)) [
  | inl same ↦ elim (Bool-cases ((name "weight" ∷ []) == path)) [
    | inl here ↦
        ground (arith, lookup-cons "model" item path ((name "weight" ∷ [], weight) ∷ []) [])
    | inr there ↦
        absurd
          (ground (arith, lookup-cons "model" item path ((name "weight" ∷ [], weight) ∷ []) []))
  ]
  | inr differ ↦
      absurd (ground (arith, lookup-cons "model" item path ((name "weight" ∷ [], weight) ∷ []) []))
]

lookup-held :
    (item : String) (path : NestedPath) (r : ℕ) (md : ShardingMetadata)
    → Holds item path r md (enumerate 0 both)
    → (lookup item path local ≡ some md) × ((r ≡ 0) ⊎ (r ≡ 1))
unfolding enumerate
lookup-held item path r md (inl (e, h)) = (h, inl (sym e))
lookup-held item path r md (inr (inl (e, h))) = (h, inr (sym e))
lookup-held item path r md (inr (inr h)) = elim h [ ]

both-IsInjective :
    (m n : ShardingMetadata)
    → (q : ℕ) × HoldsSomewhere (enumerate 0 both) q m
    → (q : ℕ) × HoldsSomewhere (enumerate 0 both) q n
    → key_of m ≡ key_of n
    → m ≡ n
both-IsInjective m n (q, (i, p, h)) (k, (j, o, g)) e =
    found i p m (lookup-held i p q m h).0 ∙ sym (found j o n (lookup-held j o k n g).0)

both-IsCoherent : IsCoherent (enumerate 0 both)
unfolding equivalent_ranks member enumerate
both-IsCoherent item path r md named h e =
    let (l, one) = lookup-held item path r md h in
    let same : md ≡ weight = found item path md l in
    let ranks : some (0 ∷ 1 ∷ []) ≡ some named = ap equivalent_ranks (sym same) ∙ e in
    let names : 0 ∷ 1 ∷ [] ≡ named = ground arith in
    (
      rw (sym names) (ground arith),
      λ q i. elim (Bool-cases (eqb q 0)) [
        | inl zero' ↦ inl (ground arith, l)
        | inr more ↦ inr (inl (ground arith, l))
      ],
    )

both-IsLocal : All (λ e. IsLocal e.1) (enumerate 0 both)
unfolding enumerate
both-IsLocal = (((refl, tt), ((refl, tt), tt)), ((((refl, tt), ((refl, tt), tt))), tt))

both-compacted : compact_ranks (enumerate 0 both) ≡ some ((0, local) ∷ (1, []) ∷ [])
unfolding compact_ranks compact compact_item is_representative minimum equivalent_ranks keep_item
    enumerate
both-compacted = refl

both-Pickles :
    (kept : Dict ℕ LocalMetadata)
    → compact_ranks (enumerate 0 both) ≡ some kept
    → All (Pickles dumped undumped) (values kept)
unfolding dumped undumped
both-Pickles kept h =
    let sent : (0, local) ∷ (1, []) ∷ [] ≡ kept = ground (arith, both-compacted, h) in
    subst (λ k. All (Pickles dumped undumped) (values k)) sent
      ((refl, omega arith), ((refl, omega arith), tt))

aggregate_metadata_across_ranks_faithful_example :
    (merged : Dict String (Dict NestedPath (List GlobalObjectMetadata)))
    × (aggregate_metadata_across_ranks key_of
          (all_gather_pickled_data dumped undumped maximum whole)
          both
        ≡ some merged)
    × ((item : String) (path : NestedPath) (r : ℕ) (md : ShardingMetadata)
        → Recorded r md (groups_at item path merged) ↔ Holds item path r md (enumerate 0 both))
aggregate_metadata_across_ranks_faithful_example =
    aggregate_metadata_across_ranks_faithful key_of dumped undumped maximum whole maximum-bounds
      whole_lem both both-IsLocal both-IsInjective both-IsCoherent both-Pickles

aggregate_metadata-metadata_at_example :
    (m : DistributedMetadata) × (aggregate_metadata key_of
        (all_gather_pickled_data dumped undumped maximum whole)
        both
        []
        2
      ≡ checked m)
    × ((item : String) (path : NestedPath) (r : ℕ) (md : ShardingMetadata)
        → (metadata_at m item path r ≡ some md) ↔ Holds item path r md (enumerate 0 both))
aggregate_metadata-metadata_at_example =
    aggregate_metadata-metadata_at key_of dumped undumped maximum whole maximum-bounds whole_lem
      both both-IsLocal both-IsInjective both-IsCoherent both-Pickles [] 2
