-- ===== src/Saver/System/Failure.antt =====
-- How calls end, and what a failed write leads to (torch_checkpointing/checkpoint_saver.py).
use torch_checkpointing.Prelude.{
  ◌≡◌, ◌≢◌, refl, ◌⊎◌, inl, inr, Option, none, some, List, [], ◌∷◌, Eq, arith, Bool-cases,
}
use torch_checkpointing.Lock.{write, available}
use torch_checkpointing.Metadata.Cache.{lock_timeout, prior_write_failed, Manager}
use torch_checkpointing.Saver.State.{
  Future, pending, succeeded, failed, System, Written, raised, blocks, SaveCall, Action, do_save,
  do_stage, staging_ends, write_ends, cancel, called_back, enter, leave, invalidate, compute,
  new_system,
}
use torch_checkpointing.Saver.System.{prepare_and_launch, after_prior, save, act, run}
use torch_checkpointing.Saver.System.Locking.{run-IsLocked, act-IsLocked}
use torch_checkpointing.Saver.System.Locked.{IsLocked, available-Saving}
use torch_checkpointing.Saver.System.Failing.{
  changed_manager-HasFailed, IsIdle, idle_available, fail_save-returns, launch_save-returns,
  with_metadata-returns, write_done-failed, HasFailed, fail_save-HasFailed, staging_done-HasFailed,
  callback_runs-HasFailed, cancel_write-HasFailed, guest_enters-HasFailed, guest_leaves-HasFailed,
  stage-HasFailed,
}

module _ {Items Local Layouts Global Content : Type 0} ⦃eq_local : Eq Local⦄
    ⦃eq_layouts : Eq Layouts⦄ (extract_object_metadata : Items → Local)
    (resharded_item_layouts : Items → Layouts) (serialize : Global → Content) where
  prepare_and_launch-returns :
      (m : Option (Manager Local Layouts Global Content)) (c : SaveCall Items Local Global)
      (s : System Local Layouts Global Content)
      → (prepare_and_launch extract_object_metadata resharded_item_layouts serialize m c s).0
        ≢ blocks
  unfolding prepare_and_launch
  prepare_and_launch-returns none c s = launch_save-returns c.launch _ s
  prepare_and_launch-returns (some m) c s = with_metadata-returns c.path c.launch _ s

  after_prior-returns :
      (w : Option Future) (c : SaveCall Items Local Global)
      (s : System Local Layouts Global Content)
      → w ≢ some pending
      → (after_prior extract_object_metadata resharded_item_layouts serialize w c s).0 ≢ blocks
  unfolding after_prior
  after_prior-returns none c s h = prepare_and_launch-returns s.manager c s
  after_prior-returns (some pending) c s h = λ q. h refl
  after_prior-returns (some failed) c s h = fail_save-returns prior_write_failed s
  after_prior-returns (some succeeded) c s h = prepare_and_launch-returns s.manager c _

  save_from-returns :
      (c : SaveCall Items Local Global) (s : System Local Layouts Global Content)
      → IsLocked s
      → ((IsIdle s)
          × ((save extract_object_metadata resharded_item_layouts serialize c s).0 ≢ blocks))
        ⊎ ((IsIdle s → ⊥)
            × (save extract_object_metadata resharded_item_layouts serialize c s
                ≡ (raised lock_timeout, s)))
  unfolding save
  save_from-returns c s h =
      let idle = idle_available s.flight s.staging_lock s.guests s.write_future h in
      elim (Bool-cases (available write s.staging_lock)) [
        | inl e ↦
            let free = available-Saving s.flight s.staging_lock s.guests s.write_future h e in
            inl (idle.0 e, rw e (after_prior-returns s.write_future c _ free.over))
        | inr e ↦ inr (λ q. ground (arith, idle.1 q), rw e refl)
      ]

  -- After any sequence of actions from a new saver, a further save is in one of two cases. Either
  -- nothing is in flight and no reader is in, and the save does not wait for a prior write. Or something
  -- is in flight or a reader is in, and a save that decides now times out and changes nothing.
  pub run-save-returns :
      (m : Option (Manager Local Layouts Global Content)) (as' : List (Action Items Local Global))
      (c : SaveCall Items Local Global)
      → let s = run extract_object_metadata resharded_item_layouts serialize as' (new_system m) in
        ((IsIdle s)
          × ((save extract_object_metadata resharded_item_layouts serialize c s).0 ≢ blocks))
        ⊎ ((IsIdle s → ⊥)
            × (save extract_object_metadata resharded_item_layouts serialize c s
                ≡ (raised lock_timeout, s)))
  run-save-returns m as' c =
      save_from-returns c _
        (run-IsLocked extract_object_metadata resharded_item_layouts serialize m as')

  after_prior-HasFailed :
      (w : Option Future) (log : List (Written Content)) (c : SaveCall Items Local Global)
      (s : System Local Layouts Global Content)
      → w ≡ some failed
      → HasFailed log s
      → HasFailed log (after_prior extract_object_metadata resharded_item_layouts serialize w c s).1
  unfolding after_prior
  after_prior-HasFailed none log c s e h = ground arith
  after_prior-HasFailed (some pending) log c s e h = ground arith
  after_prior-HasFailed (some succeeded) log c s e h = ground arith
  after_prior-HasFailed (some failed) log c s e h = fail_save-HasFailed prior_write_failed log s h

  save-HasFailed :
      (log : List (Written Content)) (c : SaveCall Items Local Global)
      (s : System Local Layouts Global Content)
      → HasFailed log s
      → HasFailed log (save extract_object_metadata resharded_item_layouts serialize c s).1
  unfolding save
  save-HasFailed log c s h = elim (Bool-cases (available write s.staging_lock)) [
    | inl e ↦ rw e (after_prior-HasFailed s.write_future log c _ h.0 h)
    | inr e ↦ rw e h
  ]

  act-HasFailed :
      (a : Action Items Local Global) (log : List (Written Content))
      (s : System Local Layouts Global Content)
      → IsLocked s
      → HasFailed log s
      → HasFailed log (act extract_object_metadata resharded_item_layouts serialize a s)
  unfolding act
  act-HasFailed (do_save c) log s l h = save-HasFailed log c s h
  act-HasFailed (do_stage launches) log s l h = stage-HasFailed launches log s h
  act-HasFailed (staging_ends staged) log s l h = staging_done-HasFailed s.flight staged log s h
  act-HasFailed called_back log s l h = callback_runs-HasFailed s.flight log s h
  act-HasFailed (write_ends d w) log s l h = rw (write_done-failed s.flight d w s l h.0) h
  act-HasFailed cancel log s l h = cancel_write-HasFailed s.flight log s h
  act-HasFailed enter log s l h = guest_enters-HasFailed log s h
  act-HasFailed leave log s l h = guest_leaves-HasFailed log s h
  act-HasFailed invalidate log s l h = changed_manager-HasFailed s.manager _ log s h
  act-HasFailed (compute c items) log s l h = changed_manager-HasFailed s.manager _ log s h

  run_from-HasFailed :
      (as' : List (Action Items Local Global)) (log : List (Written Content))
      (s : System Local Layouts Global Content)
      → IsLocked s
      → HasFailed log s
      → HasFailed log (run extract_object_metadata resharded_item_layouts serialize as' s)
  unfolding run
  run_from-HasFailed [] log s l h = h
  run_from-HasFailed (a ∷ as') log s l h =
      run_from-HasFailed as' log _
        (act-IsLocked extract_object_metadata resharded_item_layouts serialize a s l)
        (act-HasFailed a log s l h)

  -- Once a write has failed, after any sequence of actions from a new saver, it stays so for ever: over
  -- any further actions the write future is the failed one, and no further write is made.
  pub run-HasFailed :
      (m : Option (Manager Local Layouts Global Content))
      (as' more : List (Action Items Local Global))
      → let s = run extract_object_metadata resharded_item_layouts serialize as' (new_system m) in
        s.write_future ≡ some failed
        → HasFailed s.worker.log
            (run extract_object_metadata resharded_item_layouts serialize more s)
  run-HasFailed m as' more h =
      run_from-HasFailed more _ _
        (run-IsLocked extract_object_metadata resharded_item_layouts serialize m as') (h, refl)
