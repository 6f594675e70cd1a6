-- ===== src/Saver/Tests.antt =====
-- Concrete runs of the saver.
use torch_checkpointing.Prelude.{
  ℕ, ◌≤◌, ◌≡◌, ◌≢◌, ◌⊎◌, refl, true, false, none, some, List, [], ◌∷◌, ◌++◌, nat_eq, All, arith,
}
use torch_checkpointing.Prelude.Result.{ok}
use torch_checkpointing.Metadata.Cache.{lock_timeout, Blob, Manager, Collectives}
use torch_checkpointing.Metadata.Cache.Current.{ReturnsOf, IsOf, get_serialized_metadata-ReturnsOf}
use torch_checkpointing.Metadata.Cache.{
  get_serialized_metadata, compute_distributed_metadata, get_serialized_computed_metadata,
}
use torch_checkpointing.Lock.{available, downgrade, grant, release}
use torch_checkpointing.Saver.State.{
  System, both_run, SaveCall, Action, do_save, called_back, staging_ends, write_ends, enter, leave,
  new_system, blocks, raised, compute, write_raises,
}
use torch_checkpointing.Saver.System.{save, run}
use torch_checkpointing.Saver.System.Covered.{run-IsCovered}
use torch_checkpointing.Saver.System.Locked.{IsLocked}
use torch_checkpointing.Saver.System.Delivery.{IsRight}
use torch_checkpointing.Saver.System.Delivery.Runs.{run-IsRight}
use torch_checkpointing.Saver.System.Failure.{run-save-returns, run-HasFailed}
use torch_checkpointing.Saver.System.Failing.{IsIdle, HasFailed}

-- Items are a number, which is their local metadata, their layout, and the global metadata.
abbrev itself : ℕ → ℕ
itself n = n

abbrev alone : Collectives ℕ ℕ ℕ
alone = record { is_distributed = false; others_agree = true; aggregate_metadata = λ l i. ok l }

abbrev new_manager : Manager ℕ ℕ ℕ ℕ
new_manager = record {
  computed_metadata = none;
  computed_layout_info = none;
  serialized_metadata = none;
  next_object = 0;
}

abbrev call : ℕ → SaveCall ℕ ℕ ℕ
call p = record { path = p; items = 5; validate = true; collectives = alone; launch = both_run }

abbrev one_save : List (Action ℕ ℕ ℕ)
one_save =
    do_save (call 1) ∷ staging_ends true ∷ called_back ∷ enter ∷ write_ends true true ∷ leave ∷ []

abbrev two_saves : List (Action ℕ ℕ ℕ)
two_saves =
    one_save ++ do_save (call 2) ∷ staging_ends true ∷ write_ends true true ∷ called_back ∷ []

abbrev a_failure : List (Action ℕ ℕ ℕ)
a_failure = do_save (call 1) ∷ staging_ends false ∷ write_ends true true ∷ []

abbrev runs : List (Action ℕ ℕ ℕ) → System ℕ ℕ ℕ ℕ
runs as' = run itself itself itself as' (new_system (some new_manager))

abbrev the_metadata : Blob ℕ
the_metadata = record { object = 0; content = 5 }

-- The second save carries no metadata, and the subprocess uses that of the first.
writes_twice :
    (runs two_saves).worker.log
    ≡ record { path = 1; used = some the_metadata; expected = some the_metadata }
      ∷ record { path = 2; used = some the_metadata; expected = some the_metadata }
      ∷ []
unfolding run available get_serialized_metadata compute_distributed_metadata
    get_serialized_computed_metadata downgrade grant release
writes_twice = refl

-- A save whose write is refused once its staging has begun, and another one.
abbrev a_refusal : List (Action ℕ ℕ ℕ)
a_refusal = do_save (record (call 1) { launch = write_raises }) ∷ do_save (call 2) ∷ []

run-IsCovered_example : IsLocked (runs a_refusal) × ((runs a_refusal).strays ≤ 1)
run-IsCovered_example = run-IsCovered itself itself itself (some new_manager) a_refusal

-- Between two saves the user computes the metadata of other items; the third save carries none.
abbrev of_others : ℕ → List (Action ℕ ℕ ℕ)
of_others path =
    do_save (record (call path) { items = 6 })
    ∷ staging_ends true
    ∷ write_ends true true
    ∷ called_back
    ∷ []

abbrev changed_saves : List (Action ℕ ℕ ℕ)
changed_saves = one_save ++ compute alone 6 ∷ of_others 2 ++ of_others 3

abbrev new_metadata : Blob ℕ
new_metadata = record { object = 1; content = 6 }

writes_changed :
    (runs changed_saves).worker.log
    ≡ record { path = 1; used = some the_metadata; expected = some the_metadata }
      ∷ record { path = 2; used = some new_metadata; expected = some new_metadata }
      ∷ record { path = 3; used = some new_metadata; expected = some new_metadata }
      ∷ []
unfolding run available get_serialized_metadata compute_distributed_metadata
    get_serialized_computed_metadata downgrade grant release
writes_changed = refl

run-IsRight_example : All IsRight (runs changed_saves).worker.log
run-IsRight_example =
    run-IsRight itself itself itself (some new_manager) changed_saves
      ((λ c q. ground arith), λ b q. ground arith)

run-save-returns_example :
    ((IsIdle (runs one_save)) × ((save itself itself itself (call 3) (runs one_save)).0 ≢ blocks))
    ⊎ ((IsIdle (runs one_save) → ⊥)
        × (save itself itself itself (call 3) (runs one_save)
            ≡ (raised lock_timeout, runs one_save)))
run-save-returns_example =
    run-save-returns itself itself itself (some new_manager) one_save (call 3)

run-HasFailed_example :
    HasFailed (runs a_failure).worker.log (run itself itself itself two_saves (runs a_failure))
unfolding run available get_serialized_metadata compute_distributed_metadata
    get_serialized_computed_metadata downgrade grant
run-HasFailed_example =
    run-HasFailed itself itself itself (some new_manager) a_failure two_saves refl

get_serialized_metadata-ReturnsOf_example :
    ReturnsOf itself
      (λ x l. true ≡ true → IsOf itself itself 5 x l)
      (get_serialized_metadata itself itself itself true alone new_manager 5)
get_serialized_metadata-ReturnsOf_example =
    get_serialized_metadata-ReturnsOf itself itself itself true alone new_manager 5 tt
