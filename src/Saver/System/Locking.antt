-- ===== src/Saver/System/Locking.antt =====
-- The staging lock through the life of a save (torch_checkpointing/checkpoint_saver.py).
use torch_checkpointing.Prelude.{
  ◌≡◌, refl, Option, none, some, List, [], ◌∷◌, Eq, arith, Bool-cases, inl, inr,
}
use torch_checkpointing.Lock.{write, available, grant}
use torch_checkpointing.Metadata.Cache.{prior_write_failed, Manager}
use torch_checkpointing.Saver.State.{
  Future, pending, succeeded, failed, System, SaveCall, Action, do_save, do_stage, staging_ends,
  write_ends, cancel, called_back, enter, leave, invalidate, compute, new_system,
}
use torch_checkpointing.Saver.System.{prepare_and_launch, after_prior, save, act, run}
use torch_checkpointing.Saver.System.Locked.{
  available-Saving, IsLocked, InSave, changed_manager-IsLocked, fail_save-IsLocked,
  launch_save-IsLocked, with_metadata-IsLocked, staging_done-IsLocked, callback_runs-IsLocked,
  write_done-IsLocked, cancel_write-IsLocked, guest_enters-IsLocked, guest_leaves-IsLocked,
  stage-IsLocked,
}

module _ {Items Local Layouts Global Content : Type 0} ⦃eq_local : Eq Local⦄
    ⦃eq_layouts : Eq Layouts⦄ (extract_object_metadata : Items → Local)
    (resharded_item_layouts : Items → Layouts) (serialize : Global → Content) where
  prepare_and_launch-IsLocked :
      (m : Option (Manager Local Layouts Global Content)) (c : SaveCall Items Local Global)
      (s : System Local Layouts Global Content)
      → InSave s
      → IsLocked
          (prepare_and_launch extract_object_metadata resharded_item_layouts serialize m c s).1
  unfolding prepare_and_launch
  prepare_and_launch-IsLocked none c s h = launch_save-IsLocked c.launch _ s h
  prepare_and_launch-IsLocked (some m) c s h = with_metadata-IsLocked c.path c.launch _ s h

  after_prior-IsLocked :
      (w : Option Future) (c : SaveCall Items Local Global)
      (s : System Local Layouts Global Content)
      → s.write_future ≡ w
      → InSave s
      → IsLocked (after_prior extract_object_metadata resharded_item_layouts serialize w c s).1
  unfolding after_prior
  after_prior-IsLocked none c s e h = prepare_and_launch-IsLocked s.manager c s h
  after_prior-IsLocked (some pending) c s e h = elim (h.over e) [ ]
  after_prior-IsLocked (some failed) c s e h = fail_save-IsLocked prior_write_failed s h
  after_prior-IsLocked (some succeeded) c s e h =
      prepare_and_launch-IsLocked s.manager c (record s { write_future = none })
        (record {
          active = h.active;
          alone = h.alone;
          unwatched = h.unwatched;
          idle = h.idle;
          over = λ q. ground arith;
        })

  save-IsLocked :
      (c : SaveCall Items Local Global) (s : System Local Layouts Global Content)
      → IsLocked s
      → IsLocked (save extract_object_metadata resharded_item_layouts serialize c s).1
  unfolding save
  save-IsLocked c s h = elim (Bool-cases (available write s.staging_lock)) [
    | inl e ↦ rw e (
        after_prior-IsLocked s.write_future c
          (record s { staging_lock = grant write s.staging_lock }) refl
          (available-Saving s.flight s.staging_lock s.guests s.write_future h e))
    | inr e ↦ rw e h
  ]

  pub act-IsLocked :
      (a : Action Items Local Global) (s : System Local Layouts Global Content)
      → IsLocked s
      → IsLocked (act extract_object_metadata resharded_item_layouts serialize a s)
  unfolding act
  act-IsLocked (do_save c) s h = save-IsLocked c s h
  act-IsLocked (do_stage launches) s h = stage-IsLocked s.flight launches s refl h
  act-IsLocked (staging_ends staged) s h = staging_done-IsLocked s.flight staged s refl h
  act-IsLocked called_back s h = callback_runs-IsLocked s.flight s refl h
  act-IsLocked (write_ends d w) s h = write_done-IsLocked s.flight d w s refl h
  act-IsLocked cancel s h = cancel_write-IsLocked s.flight s refl h
  act-IsLocked enter s h = guest_enters-IsLocked s.flight s refl h
  act-IsLocked leave s h = guest_leaves-IsLocked s.flight s refl h
  act-IsLocked invalidate s h = changed_manager-IsLocked s.manager _ s h
  act-IsLocked (compute c items) s h = changed_manager-IsLocked s.manager _ s h

  run_from-IsLocked :
      (as' : List (Action Items Local Global)) (s : System Local Layouts Global Content)
      → IsLocked s
      → IsLocked (run extract_object_metadata resharded_item_layouts serialize as' s)
  unfolding run
  run_from-IsLocked [] s h = h
  run_from-IsLocked (a ∷ as') s h = run_from-IsLocked as' _ (act-IsLocked a s h)

  -- The lock, the readers and the write future after any sequence of actions from a new saver.
  pub run-IsLocked :
      (m : Option (Manager Local Layouts Global Content)) (as' : List (Action Items Local Global))
      → IsLocked (run extract_object_metadata resharded_item_layouts serialize as' (new_system m))
  run-IsLocked m as' = run_from-IsLocked as' (new_system m) (refl, refl, λ q. ground arith)
