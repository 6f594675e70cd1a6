-- ===== src/Resharder/Chunks.antt =====
-- `deduplicate_source_chunks` of torch_checkpointing/resharding_utils.py. A set of ranks is a list; `none`
-- stands for a `KeyError`.
pub mod Built
pub mod Lowest
pub mod Noted
mod Tests
use torch_checkpointing.Prelude.{
  ℕ, Bool, true, false, ◌||◌, Option, none, some, String, List, [], ◌∷◌, ◌++◌, ◌==◌, Eq, min,
  nat_eq, string_eq, list_eq, pair_eq, map, if◌then◌else◌,
}
use torch_checkpointing.Prelude.Dict.{Dict, get, put}
use torch_checkpointing.Resharder.{LoadPlan}

-- A target's name and the place of a chunk in it.
abbrev pub Chunk : Type 0
Chunk = String × List ℕ

-- What the two loops over the plans meet, in their order.
unfoldable pub chunks : Dict String (List LoadPlan) → List (String × LoadPlan)
chunks [] = []
chunks ((fqn, plans) ∷ input_plan) = map (λ lp. (fqn, lp)) plans ++ chunks input_plan

abbrev pub chunk_of : String × LoadPlan → Chunk
chunk_of (fqn, lp) = (fqn, lp.offsets)

-- `possible_ranks_map` and `load_plans_map`
pub record Maps : Type 0 where
  pub possible_ranks : Dict Chunk (List ℕ)
  pub load_plans : Dict (Chunk × ℕ) LoadPlan

abbrev pub get_or_empty {ℓ κ} : {K : Type ℓ} {V : Type κ} ⦃e : Eq K⦄ → K → Dict K (List V) → List V
get_or_empty k d = elim (get k d) [ none ↦ [] | some vs ↦ vs ]

unfoldable pub is_known : ℕ → List ℕ → Bool
is_known rank [] = false
is_known rank (r ∷ rs) = r == rank || is_known rank rs

-- `set.add`
unfoldable pub add_to_set : ℕ → List ℕ → List ℕ
unfolding is_known
add_to_set rank rs = if is_known rank rs then rs else rank ∷ rs

unfoldable pub note_chunk : String × LoadPlan → Maps → Maps
note_chunk c maps = record {
  possible_ranks =
      put (chunk_of c) (add_to_set c.1.src_rank (get_or_empty (chunk_of c) maps.possible_ranks))
        maps.possible_ranks;
  load_plans = put (chunk_of c, c.1.src_rank) c.1 maps.load_plans;
}

unfoldable pub note_chunks : List (String × LoadPlan) → Maps → Maps
note_chunks [] maps = maps
note_chunks (c ∷ cs) maps = note_chunks cs (note_chunk c maps)

-- `min(ranks)`
unfoldable pub lowest : List ℕ → Option ℕ
lowest [] = none
lowest (r ∷ rs) = elim (lowest rs) [ none ↦ some r | some m ↦ some (min r m) ]

-- The plan for a chunk from the lowest rank that has it.
unfoldable pub chosen : Maps → Chunk → List ℕ → Option LoadPlan
unfolding lowest
chosen maps chunk ranks = elim (lowest ranks) [
  | none ↦ none
  | some rank ↦ get (chunk, rank) maps.load_plans
]

-- The result of the chunks, with the names so far.
unfoldable pub build_result :
    Maps → Dict Chunk (List ℕ) → Dict String (List LoadPlan) → Option (Dict String (List LoadPlan))
build_result maps [] result = some result
build_result maps ((chunk, ranks) ∷ rest) result = elim (chosen maps chunk ranks) [
  | none ↦ none
  | some lp ↦ build_result maps rest (put chunk.0 (get_or_empty chunk.0 result ++ lp ∷ []) result)
]

unfoldable pub noted : Dict String (List LoadPlan) → Maps
unfolding note_chunks chunks
noted input_plan = note_chunks (chunks input_plan) (record { possible_ranks = []; load_plans = [] })

-- The plans, without the set of the ranks that were selected, which only the log needs.
unfoldable pub deduplicate_source_chunks :
    Dict String (List LoadPlan) → Option (Dict String (List LoadPlan))
unfolding noted
deduplicate_source_chunks input_plan =
    build_result (noted input_plan) (noted input_plan).possible_ranks []
