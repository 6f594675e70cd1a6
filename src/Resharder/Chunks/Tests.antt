-- ===== src/Resharder/Chunks/Tests.antt =====
-- Two ranks with the same half of a tensor, and a third with the other half.
use torch_checkpointing.Prelude.{ℕ, ◌≤◌, ◌≡◌, refl, some, String, List, [], ◌∷◌, In, string_eq}
use torch_checkpointing.Prelude.Dict.{Dict}
use torch_checkpointing.Resharder.{LoadPlan}
use torch_checkpointing.Resharder.Chunks
use torch_checkpointing.Resharder.Chunks.{chunks, get_or_empty, deduplicate_source_chunks}
use torch_checkpointing.Resharder.Chunks.Lowest.{deduplicate_source_chunks-Lowest}

abbrev plan : ℕ → ℕ → LoadPlan
plan rank offset = record {
  offsets = offset ∷ [];
  sizes = 2 ∷ [];
  src_rank = rank;
  src_fqn = "w";
  src_offsets = 0 ∷ [];
  src_sizes = 2 ∷ [];
  transpose_dims = [];
  src_elem_size = 0;
  src_dtype = "";
}

abbrev input_plan : Dict String (List LoadPlan)
input_plan = ("w", plan 3 0 ∷ plan 2 2 ∷ plan 1 0 ∷ []) ∷ []

keeps_lowest : deduplicate_source_chunks input_plan ≡ some (("w", plan 1 0 ∷ plan 2 2 ∷ []) ∷ [])
unfolding deduplicate_source_chunks Chunks.build_result Chunks.note_chunk Chunks.chosen
    Chunks.add_to_set
keeps_lowest = refl

deduplicate_source_chunks-Lowest_example :
    (out : Dict String (List LoadPlan)) × (deduplicate_source_chunks input_plan ≡ some out)
    × ((f : String) (p : LoadPlan)
        → In p (get_or_empty f out)
        → In (f, p) (chunks input_plan)
          × ((q : LoadPlan)
              → In (f, q) (chunks input_plan)
              → q.offsets ≡ p.offsets
              → p.src_rank ≤ q.src_rank)
          × ((q : LoadPlan) → In q (get_or_empty f out) → q.offsets ≡ p.offsets → q ≡ p))
    × ((f : String) (q : LoadPlan)
        → In (f, q) (chunks input_plan)
        → (p : LoadPlan) × In p (get_or_empty f out) × (p.offsets ≡ q.offsets))
deduplicate_source_chunks-Lowest_example = deduplicate_source_chunks-Lowest input_plan
