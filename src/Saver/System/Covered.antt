-- ===== src/Saver/System/Covered.antt =====
-- The stagings that the staging lock covers, and the others (torch_checkpointing/checkpoint_saver.py).
use torch_checkpointing.Prelude.{
  ℕ, suc, ◌+◌, ◌≤◌, ◌≡◌, refl, inl, inr, Bool, Option, none, some, List, [], ◌∷◌, Eq, arith,
  Bool-cases,
}
use torch_checkpointing.Prelude.Result.{Result, ok, err}
use torch_checkpointing.Lock.{write, available}
use torch_checkpointing.Metadata.Cache.{SaveError, launch_failed, prior_write_failed, Blob, Manager}
use torch_checkpointing.Saver.State.{
  Future, pending, succeeded, failed, Request, Flight, nothing, staging, captured, writing,
  staging_only, System, Launch, stage_raises, write_raises, both_run, SaveCall, Action, do_save,
  do_stage, staging_ends, write_ends, cancel, called_back, enter, leave, invalidate, compute,
  new_system, is_same,
}
use torch_checkpointing.Saver.System.{
  fail_save, launch_save, with_metadata, staging_done, callback_runs, downgraded, release_armed,
  write_done, cancel_write, guest_enters, guest_leaves, changed_manager, prepare_and_launch,
  after_prior, save, stage, act, run, handle_write,
}
use torch_checkpointing.Saver.System.Locked.{IsLocked}
use torch_checkpointing.Saver.System.Locking.{run-IsLocked}

-- The saves in a sequence of actions whose write may be refused after their staging has begun.
abbrev pub refused : Launch → ℕ
refused write_raises = 1
refused _ = 0

abbrev pub refusals : {Items Local Global : Type 0} → List (Action Items Local Global) → ℕ
refusals [] = 0
refusals (do_save c ∷ as') = refused c.launch + refusals as'
refusals (a ∷ as') = refusals as'

module _ {Local Layouts Global Content : Type 0} where
  fail_save-strays :
      (e : SaveError) (s : System Local Layouts Global Content)
      → (fail_save e s).1.strays ≡ s.strays
  unfolding fail_save
  fail_save-strays e s = ground arith

  launch_save-strays :
      (l : Launch) (r : Request Content) (s : System Local Layouts Global Content)
      → (launch_save l r s).1.strays ≤ refused l + s.strays
  unfolding launch_save
  launch_save-strays stage_raises r s = omega (arith, fail_save-strays launch_failed s)
  launch_save-strays write_raises r s =
      omega (arith, fail_save-strays launch_failed (record s { strays = suc s.strays }))
  launch_save-strays both_run r s = omega arith

  with_metadata-strays :
      (path : ℕ) (l : Launch)
      (got : Result SaveError (Blob Content) × Manager Local Layouts Global Content)
      (s : System Local Layouts Global Content)
      → (with_metadata path l got s).1.strays ≤ refused l + s.strays
  unfolding with_metadata
  with_metadata-strays path l (err e, m) s =
      omega (arith, fail_save-strays e (record s { manager = some m }))
  with_metadata-strays path l (ok blob, m) s =
      elim (Bool-cases (is_same blob s.sent_serialized_metadata)) [
        | inl e ↦ rw e (launch_save-strays l _ _)
        | inr e ↦ rw e (launch_save-strays l _ _)
      ]

  staging_done-strays :
      (f : Flight Content) (staged : Bool) (s : System Local Layouts Global Content)
      → (staging_done f staged s).strays ≡ s.strays
  unfolding staging_done
  staging_done-strays nothing staged s = refl
  staging_done-strays (staging r w) staged s = refl
  staging_done-strays (captured r b w) staged s = refl
  staging_done-strays (writing r b) staged s = refl
  staging_done-strays staging_only staged s = refl

  callback_runs-strays :
      (f : Flight Content) (s : System Local Layouts Global Content)
      → (callback_runs f s).strays ≡ s.strays
  unfolding callback_runs downgraded release_armed
  callback_runs-strays nothing s = refl
  callback_runs-strays (staging r w) s = refl
  callback_runs-strays (captured r b pending) s = ground arith
  callback_runs-strays (captured r b succeeded) s = ground arith
  callback_runs-strays (captured r b failed) s = ground arith
  callback_runs-strays (writing r b) s = refl
  callback_runs-strays staging_only s = refl

  write_done-strays :
      (f : Flight Content) (d w : Bool) (s : System Local Layouts Global Content)
      → (write_done f d w s).strays ≡ s.strays
  unfolding write_done handle_write
  write_done-strays nothing d w s = refl
  write_done-strays (staging r f) d w s = refl
  write_done-strays (writing r b) d w s = ground arith
  write_done-strays (captured r b pending) d w s = ground arith
  write_done-strays (captured r b succeeded) d w s = refl
  write_done-strays (captured r b failed) d w s = refl
  write_done-strays staging_only d w s = refl

  cancel_write-strays :
      (f : Flight Content) (s : System Local Layouts Global Content)
      → (cancel_write f s).strays ≡ s.strays
  unfolding cancel_write
  cancel_write-strays nothing s = refl
  cancel_write-strays (staging r pending) s = refl
  cancel_write-strays (staging r succeeded) s = refl
  cancel_write-strays (staging r failed) s = refl
  cancel_write-strays (captured r b w) s = refl
  cancel_write-strays (writing r b) s = refl
  cancel_write-strays staging_only s = refl

  changed_manager-strays :
      (m : Option (Manager Local Layouts Global Content))
      (call : Manager Local Layouts Global Content → Manager Local Layouts Global Content)
      (s : System Local Layouts Global Content)
      → (changed_manager m call s).strays ≡ s.strays
  unfolding changed_manager
  changed_manager-strays none call s = refl
  changed_manager-strays (some m) call s = refl

  stage-strays :
      (launches : Bool) (s : System Local Layouts Global Content)
      → (stage launches s).1.strays ≡ s.strays
  unfolding stage
  stage-strays launches s = ground arith

  guest_enters-strays :
      (s : System Local Layouts Global Content) → (guest_enters s).strays ≡ s.strays
  unfolding guest_enters
  guest_enters-strays s = ground arith

  guest_leaves-strays :
      (s : System Local Layouts Global Content) → (guest_leaves s).strays ≡ s.strays
  unfolding guest_leaves
  guest_leaves-strays s = ground arith

module _ {Items Local Layouts Global Content : Type 0} ⦃eq_local : Eq Local⦄
    ⦃eq_layouts : Eq Layouts⦄ (extract_object_metadata : Items → Local)
    (resharded_item_layouts : Items → Layouts) (serialize : Global → Content) where
  prepare_and_launch-strays :
      (m : Option (Manager Local Layouts Global Content)) (c : SaveCall Items Local Global)
      (s : System Local Layouts Global Content)
      → (prepare_and_launch extract_object_metadata resharded_item_layouts serialize m c s).1.strays
        ≤ refused c.launch + s.strays
  unfolding prepare_and_launch
  prepare_and_launch-strays none c s = launch_save-strays c.launch _ s
  prepare_and_launch-strays (some m) c s = with_metadata-strays c.path c.launch _ s

  after_prior-strays :
      (w : Option Future) (c : SaveCall Items Local Global)
      (s : System Local Layouts Global Content)
      → (after_prior extract_object_metadata resharded_item_layouts serialize w c s).1.strays
        ≤ refused c.launch + s.strays
  unfolding after_prior
  after_prior-strays none c s = prepare_and_launch-strays s.manager c s
  after_prior-strays (some pending) c s = omega arith
  after_prior-strays (some failed) c s = omega (arith, fail_save-strays prior_write_failed s)
  after_prior-strays (some succeeded) c s =
      prepare_and_launch-strays s.manager c (record s { write_future = none })

  save-strays :
      (c : SaveCall Items Local Global) (s : System Local Layouts Global Content)
      → (save extract_object_metadata resharded_item_layouts serialize c s).1.strays
        ≤ refused c.launch + s.strays
  unfolding save
  save-strays c s = elim (Bool-cases (available write s.staging_lock)) [
    | inl e ↦ rw e (after_prior-strays s.write_future c _)
    | inr e ↦ rw e (omega arith)
  ]

  run_from-strays :
      (as' : List (Action Items Local Global)) (s : System Local Layouts Global Content)
      → (run extract_object_metadata resharded_item_layouts serialize as' s).strays
        ≤ refusals as' + s.strays
  unfolding run act
  run_from-strays [] s = omega arith
  run_from-strays (do_save c ∷ as') s = omega (arith, save-strays c s, run_from-strays as' _)
  run_from-strays (do_stage l ∷ as') s = omega (arith, stage-strays l s, run_from-strays as' _)
  run_from-strays (staging_ends b ∷ as') s =
      omega (arith, staging_done-strays s.flight b s, run_from-strays as' _)
  run_from-strays (called_back ∷ as') s =
      omega (arith, callback_runs-strays s.flight s, run_from-strays as' _)
  run_from-strays (write_ends d w ∷ as') s =
      omega (arith, write_done-strays s.flight d w s, run_from-strays as' _)
  run_from-strays (cancel ∷ as') s =
      omega (arith, cancel_write-strays s.flight s, run_from-strays as' _)
  run_from-strays (enter ∷ as') s = omega (arith, guest_enters-strays s, run_from-strays as' _)
  run_from-strays (leave ∷ as') s = omega (arith, guest_leaves-strays s, run_from-strays as' _)
  run_from-strays (invalidate ∷ as') s =
      omega (arith, changed_manager-strays s.manager _ s, run_from-strays as' _)
  run_from-strays (compute c items ∷ as') s =
      omega (arith, changed_manager-strays s.manager _ s, run_from-strays as' _)

  -- After any sequence of actions from a new saver: the lock is held for writing exactly while a staging
  -- whose `save` or `stage` did not raise is under way or its callback has still to run, and then no reader is in; otherwise its readers are
  -- those of `manager.lock()` and, while a save's write is under way, the save itself; and the write future
  -- is pending only while a save is staging or writing. Other stagings, which no lock covers, are at most
  -- as many as the saves whose write was refused when their staging had begun.
  pub run-IsCovered :
      (m : Option (Manager Local Layouts Global Content)) (as' : List (Action Items Local Global))
      → let s = run extract_object_metadata resharded_item_layouts serialize as' (new_system m) in
        IsLocked s × (s.strays ≤ refusals as')
  run-IsCovered m as' = (
    run-IsLocked extract_object_metadata resharded_item_layouts serialize m as',
    omega (arith, run_from-strays as' (new_system m)),
  )
