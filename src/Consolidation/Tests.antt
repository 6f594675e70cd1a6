-- ===== src/Consolidation/Tests.antt =====
-- Concrete runs of the consolidation: three tensors, of which the second is larger than the whole
-- budget, three files for two ranks, and four ranks.
use torch_checkpointing.Consolidation.Owners.{
  assign_items_to_owners_by_size, sorted_by_size, insert_sorted, before, assign, least_loaded,
  add_load,
}
use torch_checkpointing.Consolidation.Owners.Sorted.{Shares, assign_items_to_owners_by_size-Shares}
use torch_checkpointing.Consolidation.Group.{
  new_group, use_distributed, create_consolidation_process_group, participating_ranks, insert_rank,
  is_among,
}
use torch_checkpointing.Consolidation.Group.Members.{
  TakesPart, create_consolidation_process_group-TakesPart,
}
use torch_checkpointing.Prelude.{true, ltb, some, ℕ, ◌≡◌, refl, List, [], ◌∷◌, arith, inr}
use torch_checkpointing.Prelude.Result.{Result, ok}
use torch_checkpointing.Consolidation.Reads.{
  ReaderMemoryBudget, Work, prefetch, read_full_tensors_in_order, exhausted, try_reserve, release,
  release_all, then_yield,
}
use torch_checkpointing.Consolidation.Reads.Pipeline.{
  sequential, Agrees, read_full_tensors_in_order-Agrees,
}
use torch_checkpointing.Consolidation.Reads.Bounded.{Submits, prefetch-Submits}

abbrev ten : ReaderMemoryBudget
ten = record { total_bytes = 10; reserved = 0; released = 0; exhausted_count = 0 }

abbrev three : List (Work ℕ)
three =
    record { tensor = 1; size = 4 }
    ∷ record { tensor = 2; size = 40 }
    ∷ record { tensor = 3; size = 5 }
    ∷ []

abbrev reads_it : ℕ → Result ℕ ℕ
reads_it n = ok n

reads_all : read_full_tensors_in_order 2 reads_it 9 three [] ten ≡ record {
  yielded = 1 ∷ 2 ∷ 3 ∷ [];
  ended = exhausted;
  budget = record ten { reserved = 49; released = 49; exhausted_count = 2 };
}
unfolding read_full_tensors_in_order prefetch try_reserve release release_all then_yield
reads_all = refl

prefetch-Submits_example : Submits three [] ten (prefetch 2 three [] ten)
prefetch-Submits_example =
    prefetch-Submits 2 (omega arith) three [] ten
      (record { counted = refl; bounded = inr (omega arith) })

read_full_tensors_in_order-Agrees_example :
    Agrees (sequential reads_it 2 three) ten (read_full_tensors_in_order 2 reads_it 2 three [] ten)
read_full_tensors_in_order-Agrees_example =
    read_full_tensors_in_order-Agrees 2 reads_it (omega arith) 2 three ten refl

abbrev files : List (ℕ × ℕ)
files = (1, 30) ∷ (2, 50) ∷ (3, 30) ∷ []

assigns : assign_items_to_owners_by_size ltb files 2 ≡ some ((2, 0) ∷ (1, 1) ∷ (3, 1) ∷ [])
unfolding assign_items_to_owners_by_size sorted_by_size insert_sorted before assign least_loaded
    add_load
assigns = refl

assign_items_to_owners_by_size-Shares_example :
    (owners : List (ℕ × ℕ)) × (assign_items_to_owners_by_size ltb files 2 ≡ some owners)
    × Shares ltb files 2 50 owners
assign_items_to_owners_by_size-Shares_example =
    assign_items_to_owners_by_size-Shares ltb files 2 50 (omega arith)
      (omega arith, (omega arith, (omega arith, tt)))

-- Four ranks, of which 0, 1 and 3 take part.
makes_group :
    create_consolidation_process_group 3 4 (3 ∷ 1 ∷ 3 ∷ []) (use_distributed (3 ∷ 1 ∷ 3 ∷ []))
    ≡ record { participates = true; group = some (new_group (0 ∷ 1 ∷ 3 ∷ [])); created = true }
unfolding create_consolidation_process_group use_distributed participating_ranks insert_rank
    is_among
makes_group = refl

create_consolidation_process_group-TakesPart_example :
    TakesPart 3 4
      (3 ∷ 1 ∷ 3 ∷ [])
      (create_consolidation_process_group 3 4 (3 ∷ 1 ∷ 3 ∷ []) (use_distributed (3 ∷ 1 ∷ 3 ∷ [])))
create_consolidation_process_group-TakesPart_example =
    create_consolidation_process_group-TakesPart 3 4 (3 ∷ 1 ∷ 3 ∷ [])
