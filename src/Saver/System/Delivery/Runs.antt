-- ===== src/Saver/System/Delivery/Runs.antt =====
-- The metadata of every write, over any sequence of actions (torch_checkpointing/checkpoint_saver.py).
use torch_checkpointing.Prelude.{
  ◌≡◌, refl, inl, inr, true, Option, none, some, List, [], ◌∷◌, Eq, arith, Bool-cases, All,
}
use torch_checkpointing.Lock.{write, available, grant}
use torch_checkpointing.Metadata.Cache.{prior_write_failed, Manager}
use torch_checkpointing.Metadata.Cache.Identity.{
  get_serialized_metadata-Returned, invalidate_computed_metadata-Forgets,
  compute_distributed_metadata-Forgets,
}
use torch_checkpointing.Saver.State.{
  Future, pending, succeeded, failed, nothing, System, SaveCall, Action, do_save, do_stage,
  staging_ends, write_ends, cancel, called_back, enter, leave, invalidate, compute, new_system,
}
use torch_checkpointing.Saver.System.{prepare_and_launch, after_prior, save, act, run}
use torch_checkpointing.Saver.System.Locking.{run-IsLocked, act-IsLocked}
use torch_checkpointing.Saver.System.Locked.{IsLocked, available-Saving}
use torch_checkpointing.Saver.System.Delivery.{
  Sent, IsRight, Owned, Delivers, Ready, fail_save-Delivers, launch_save-Delivers,
  with_metadata-Delivers, unsent-Owned,
}
use torch_checkpointing.Saver.System.Delivery.Parts.{
  idle_Sent, unfailed_Sent, staging_done-Delivers, callback_runs-Delivers, write_done-Delivers,
  cancel_write-Delivers, guest_enters-Delivers, guest_leaves-Delivers, changed_manager-Delivers,
  stage-Delivers,
}

module _ {Items Local Layouts Global Content : Type 0} ⦃eq_local : Eq Local⦄
    ⦃eq_layouts : Eq Layouts⦄ (extract_object_metadata : Items → Local)
    (resharded_item_layouts : Items → Layouts) (serialize : Global → Content) where
  prepare_and_launch-Delivers :
      (m : Option (Manager Local Layouts Global Content)) (c : SaveCall Items Local Global)
      (s : System Local Layouts Global Content)
      → s.manager ≡ m
      → Ready s
      → s.staging_lock.writer_active ≡ true
      → Owned m s.sent_serialized_metadata s.worker.metadata_cache
      → All IsRight s.worker.log
      → Delivers
          (prepare_and_launch extract_object_metadata resharded_item_layouts serialize m c s).1
  unfolding prepare_and_launch
  prepare_and_launch-Delivers none c s e (idle, sent) active (q, u) log =
      launch_save-Delivers c.launch (record { path = c.path; carried = none; expected = none }) s
        idle active u q (rw e (q, u)) log
  prepare_and_launch-Delivers (some m) c s e ready active o log =
      with_metadata-Delivers c.path c.launch m _ s ready active o log (
        get_serialized_metadata-Returned extract_object_metadata resharded_item_layouts serialize
          c.validate c.collectives m c.items o.0)

  after_prior-Delivers :
      (w : Option Future) (c : SaveCall Items Local Global)
      (s : System Local Layouts Global Content)
      → s.write_future ≡ w
      → s.flight ≡ nothing
      → s.staging_lock.writer_active ≡ true
      → Sent nothing s.write_future s.sent_serialized_metadata s.worker.metadata_cache
      → Owned s.manager s.sent_serialized_metadata s.worker.metadata_cache
      → All IsRight s.worker.log
      → Delivers (after_prior extract_object_metadata resharded_item_layouts serialize w c s).1
  unfolding after_prior
  after_prior-Delivers none c s e idle active h o log =
      prepare_and_launch-Delivers s.manager c s refl (idle, unfailed_Sent (λ q. ground arith) h)
        active o log
  after_prior-Delivers (some pending) c s e idle active h o log = rw idle (h, o, log)
  after_prior-Delivers (some failed) c s e idle active h o log =
      fail_save-Delivers prior_write_failed s idle active (unsent-Owned s.manager _ _ o) log
  after_prior-Delivers (some succeeded) c s e idle active h o log =
      prepare_and_launch-Delivers s.manager c (record s { write_future = none }) refl
        (idle, unfailed_Sent (λ q. ground arith) h) active o log

  save-Delivers :
      (c : SaveCall Items Local Global) (s : System Local Layouts Global Content)
      → IsLocked s
      → Delivers s
      → Delivers (save extract_object_metadata resharded_item_layouts serialize c s).1
  unfolding save
  save-Delivers c s l (h, o, log) = elim (Bool-cases (available write s.staging_lock)) [
    | inl e ↦
        let free = available-Saving s.flight s.staging_lock s.guests s.write_future l e in
        rw e (
          after_prior-Delivers s.write_future c
            (record s { staging_lock = grant write s.staging_lock }) refl free.idle free.active
            (idle_Sent s.flight free.idle h) o log)
    | inr e ↦ rw e (h, o, log)
  ]

  act-Delivers :
      (a : Action Items Local Global) (s : System Local Layouts Global Content)
      → IsLocked s
      → Delivers s
      → Delivers (act extract_object_metadata resharded_item_layouts serialize a s)
  unfolding act
  act-Delivers (do_save c) s l h = save-Delivers c s l h
  act-Delivers (do_stage launches) s l (h, o, log) =
      stage-Delivers s.flight launches s refl l h o log
  act-Delivers (staging_ends staged) s l (h, o, log) =
      staging_done-Delivers s.flight staged s refl l h o log
  act-Delivers called_back s l (h, o, log) = callback_runs-Delivers s.flight s refl l h o log
  act-Delivers (write_ends d w) s l (h, o, log) = write_done-Delivers s.flight d w s refl h o log
  act-Delivers cancel s l (h, o, log) = cancel_write-Delivers s.flight s refl h o log
  act-Delivers enter s l h = guest_enters-Delivers s h
  act-Delivers leave s l h = guest_leaves-Delivers s h
  act-Delivers invalidate s l (h, o, log) =
      changed_manager-Delivers s.manager _ invalidate_computed_metadata-Forgets s refl h o log
  act-Delivers (compute c items) s l (h, o, log) =
      changed_manager-Delivers s.manager _
        (λ m.
          compute_distributed_metadata-Forgets extract_object_metadata resharded_item_layouts
            serialize c m items)
        s refl h o log

  run_from-Delivers :
      (as' : List (Action Items Local Global)) (s : System Local Layouts Global Content)
      → IsLocked s
      → Delivers s
      → Delivers (run extract_object_metadata resharded_item_layouts serialize as' s)
  unfolding run
  run_from-Delivers [] s l h = h
  run_from-Delivers (a ∷ as') s l h =
      run_from-Delivers as' _
        (act-IsLocked extract_object_metadata resharded_item_layouts serialize a s l)
        (act-Delivers a s l h)

  -- After any sequence of saves, stagings, completions, failures, cancellations, readers, and calls by which
  -- the user invalidates the metadata or computes it from new items, from a new saver, with a manager whose kept object, if any, is allocated, or with none: every write that the
  -- subprocess made used the very metadata object that the manager had returned for that save, be it
  -- carried by the request or cached from an earlier one; and none where there is no manager.
  pub run-IsRight :
      (m : Option (Manager Local Layouts Global Content)) (as' : List (Action Items Local Global))
      → Owned m none none
      → All IsRight
          (run extract_object_metadata resharded_item_layouts serialize as'
            (new_system m)).worker.log
  unfolding run
  run-IsRight m as' h =
      let (sent, owned, log) =
        run_from-Delivers as' (new_system m)
          (run-IsLocked extract_object_metadata resharded_item_layouts serialize m [])
          (inr (inl refl), h, tt) in
      log
