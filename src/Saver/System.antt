-- ===== src/Saver/System.antt =====
-- The asynchronous saver with the parts that it drives: the staging lock, the metadata manager, the
-- futures of the save in flight, and the write subprocess with its metadata cache.
-- Each method of `AsyncCheckpointSaver` and each completion is one function on the whole state. What
-- staging, the pipe, the writer and the collectives do is chosen by the environment, as arguments.
pub mod Delivery
pub mod Failure
pub mod Failing
pub mod Locking
pub mod Locked
pub mod Covered
use torch_checkpointing.Prelude.{
  ℕ, suc, ◌-◌, eqb, not, Bool, true, false, ◌&&◌, Option, none, some, Eq, if◌then◌else◌, List, [],
  ◌∷◌, ◌++◌,
}
use torch_checkpointing.Prelude.Result.{Result, ok, err, ◌>>=◌}
use torch_checkpointing.Lock.{
  RwLock, RwLockMode, read, write, Outcome, available, grant, release, downgrade, fresh,
}
use torch_checkpointing.Metadata.Cache.{
  SaveError, lock_timeout, prior_write_failed, launch_failed, worker_failed, Blob, Manager,
  Collectives, get_serialized_metadata, invalidate_computed_metadata, compute_distributed_metadata,
}
use torch_checkpointing.Saver.State.{
  Action, Called, Flight, Future, Launch, Request, SaveCall, System, Worker, Written, blocks,
  both_run, called_back, cancel, captured, compute, do_save, do_stage, enter, failed, invalidate,
  is_same, launched, leave, new_system, nothing, pending, raised, stage_raises, staging,
  staging_ends, staging_only, succeeded, write_ends, write_raises, writing,
}

module _ {Content : Type 0} where
  -- `if serialized_distributed_metadata is not None: metadata_cache[0] = ...`
  abbrev pub refreshed : Option (Blob Content) → Option (Blob Content) → Option (Blob Content)
  refreshed none cache = cache
  refreshed (some blob) cache = some blob

  -- `_subprocess_handle_request` on a write request, and the loop around it: the write's result is
  -- chosen by the writer, and an exception ends the subprocess after it is reported.
  unfoldable pub handle_write : Request Content → Bool → Worker Content → Bool × Worker Content
  handle_write r writes w =
      let used = refreshed r.carried w.metadata_cache in
      let entry : Written Content = record { path = r.path; used = used; expected = r.expected } in
      if writes
      then (true, record w { metadata_cache = used; log = w.log ++ entry ∷ [] })
      else (false, record w { metadata_cache = used; serving = false })

-- What a release leaves; an error leaves the lock as it was.
abbrev pub lock_after : Outcome → RwLock → RwLock
lock_after (Outcome.ok l) old = l
lock_after (Outcome.err e) old = old

module _ {Local Layouts Global Content : Type 0} where
  -- `except BaseException`: release the lock, forget what was sent.
  unfoldable pub fail_save :
      SaveError → System Local Layouts Global Content → Called × System Local Layouts Global Content
  fail_save e s = elim (release write s.staging_lock) [
    | Outcome.ok l ↦ (raised e, record s { staging_lock = l; sent_serialized_metadata = none })
    | Outcome.err le ↦ (raised e, s)
  ]

  -- The launches, once the write info is made.
  unfoldable pub launch_save :
      Launch
      → Request Content
      → System Local Layouts Global Content
      → Called × System Local Layouts Global Content
  unfolding fail_save
  launch_save stage_raises r s = fail_save launch_failed s
  launch_save write_raises r s = fail_save launch_failed (record s { strays = suc s.strays })
  launch_save both_run r s =
      (launched, record s { write_future = some pending; flight = staging r pending })

  -- The end of `_prepare_checkpoint_write_info`: send the metadata unless the subprocess holds it.
  unfoldable pub with_metadata :
      ℕ
      → Launch
      → Result SaveError (Blob Content) × Manager Local Layouts Global Content
      → System Local Layouts Global Content
      → Called × System Local Layouts Global Content
  unfolding launch_save
  with_metadata path launch (err e, m) s = fail_save e (record s { manager = some m })
  with_metadata path launch (ok blob, m) s =
      if is_same blob s.sent_serialized_metadata
      then launch_save launch (record { path = path; carried = none; expected = some blob })
          (record s { manager = some m })
      else launch_save launch (record { path = path; carried = some blob; expected = some blob })
          (record s { manager = some m; sent_serialized_metadata = some blob })

  -- Staging ends. The callback of a save runs later, that of `stage` at once.
  unfoldable pub staging_done :
      Flight Content
      → Bool
      → System Local Layouts Global Content
      → System Local Layouts Global Content
  staging_done (staging r w) staged s = record s { flight = captured r staged w }
  staging_done staging_only staged s = record s {
    staging_lock = lock_after (release write s.staging_lock) s.staging_lock;
    flight = nothing;
  }
  staging_done _ staged s = s

  -- The done-callback on staging of a save, in two parts: downgrade, then release once the write is
  -- done, which may be at once. An error in a callback is logged, and the rest is not done.
  release_armed :
      Request Content
      → Future
      → Bool
      → System Local Layouts Global Content
      → System Local Layouts Global Content
  release_armed r pending staged s = record s { flight = writing r staged }
  release_armed r done staged s = record s {
    staging_lock = lock_after (release read s.staging_lock) s.staging_lock;
    flight = nothing;
  }

  downgraded :
      Outcome
      → Request Content
      → Future
      → Bool
      → System Local Layouts Global Content
      → System Local Layouts Global Content
  downgraded (Outcome.err e) r w staged s = record s { flight = nothing }
  downgraded (Outcome.ok l) r w staged s = release_armed r w staged (record s { staging_lock = l })

  unfoldable pub callback_runs :
      Flight Content → System Local Layouts Global Content → System Local Layouts Global Content
  unfolding downgraded release_armed
  callback_runs (captured r staged w) s = downgraded (downgrade s.staging_lock) r w staged s
  callback_runs _ s = s

  -- The write future is set, and its done-callback releases the lock.
  abbrev pub finish :
      Bool × Worker Content
      → System Local Layouts Global Content
      → System Local Layouts Global Content
  finish (done, w) s = record s {
    worker = w;
    write_future = some (if done then succeeded else failed);
    staging_lock = lock_after (release read s.staging_lock) s.staging_lock;
    flight = nothing;
  }

  -- The write future is set while the callback on staging has still to run, which alone arms the release.
  abbrev pub finish_early :
      Request Content
      → Bool
      → Bool × Worker Content
      → System Local Layouts Global Content
      → System Local Layouts Global Content
  finish_early r staged (done, w) s = record s {
    worker = w;
    write_future = some (if done then succeeded else failed);
    flight = captured r staged (if done then succeeded else failed);
  }

  -- `CheckpointProcess._write` on the communication thread: without a staged result nothing is sent;
  -- a send fails where the subprocess is gone or the pipe is broken; and the subprocess handles what it
  -- receives.
  unfoldable pub write_done :
      Flight Content
      → Bool
      → Bool
      → System Local Layouts Global Content
      → System Local Layouts Global Content
  unfolding handle_write
  write_done (writing r staged) delivers writes s =
      if staged && (delivers && s.worker.serving)
      then finish (handle_write r writes s.worker) s
      else finish (false, s.worker) s
  write_done (captured r staged pending) delivers writes s =
      if staged && (delivers && s.worker.serving)
      then finish_early r staged (handle_write r writes s.worker) s
      else finish_early r staged (false, s.worker) s
  write_done _ delivers writes s = s

  -- A write future can fail while its staging is under way: the submission failed once the executor
  -- had taken it, or the shutdown of the executor cancelled it.
  unfoldable pub cancel_write :
      Flight Content → System Local Layouts Global Content → System Local Layouts Global Content
  cancel_write (staging r pending) s = record s {
    write_future = some failed;
    flight = staging r failed;
  }
  cancel_write _ s = s

  -- `with manager.lock()`
  unfoldable pub guest_enters :
      System Local Layouts Global Content → System Local Layouts Global Content
  guest_enters s =
      if available read s.staging_lock
      then record s { staging_lock = grant read s.staging_lock; guests = suc s.guests }
      else s

  unfoldable pub guest_leaves :
      System Local Layouts Global Content → System Local Layouts Global Content
  guest_leaves s = if eqb s.guests 0 then s else record s {
    staging_lock = lock_after (release read s.staging_lock) s.staging_lock;
    guests = s.guests - 1;
  }

  -- `AsyncCheckpointSaver.stage`
  unfoldable pub stage :
      Bool → System Local Layouts Global Content → Called × System Local Layouts Global Content
  stage launches s =
      if not (available write s.staging_lock)
      then (raised lock_timeout, s)
      else if launches
      then (launched, record s { staging_lock = grant write s.staging_lock; flight = staging_only })
      else (
        raised launch_failed,
        record s {
          staging_lock = lock_after (release write (grant write s.staging_lock)) s.staging_lock;
        },
      )

  -- The manager after a call of the user, which shares it with the saver.
  unfoldable pub changed_manager :
      Option (Manager Local Layouts Global Content)
      → (Manager Local Layouts Global Content → Manager Local Layouts Global Content)
      → System Local Layouts Global Content
      → System Local Layouts Global Content
  changed_manager none call s = s
  changed_manager (some m) call s = record s { manager = some (call m) }

module _ {Items Local Layouts Global Content : Type 0} ⦃eq_local : Eq Local⦄
    ⦃eq_layouts : Eq Layouts⦄ (extract_object_metadata : Items → Local)
    (resharded_item_layouts : Items → Layouts) (serialize : Global → Content) where
  -- `_prepare_checkpoint_write_info`, and the rest of `save`
  unfoldable pub prepare_and_launch :
      Option (Manager Local Layouts Global Content)
      → SaveCall Items Local Global
      → System Local Layouts Global Content
      → Called × System Local Layouts Global Content
  unfolding with_metadata
  prepare_and_launch none c s =
      launch_save c.launch (record { path = c.path; carried = none; expected = none }) s
  prepare_and_launch (some m) c s =
      with_metadata c.path c.launch
        (get_serialized_metadata extract_object_metadata resharded_item_layouts serialize c.validate
          c.collectives m c.items)
        s

  -- `self._write_future.result()` surfaces a failed prior write.
  unfoldable pub after_prior :
      Option Future
      → SaveCall Items Local Global
      → System Local Layouts Global Content
      → Called × System Local Layouts Global Content
  unfolding prepare_and_launch
  after_prior none c s = prepare_and_launch s.manager c s
  after_prior (some pending) c s = (blocks, s)
  after_prior (some failed) c s = fail_save prior_write_failed s
  after_prior (some succeeded) c s =
      prepare_and_launch s.manager c (record s { write_future = none })

  -- `AsyncCheckpointSaver.save`, from the round in which its acquisition of the lock is decided.
  unfoldable pub save :
      SaveCall Items Local Global
      → System Local Layouts Global Content
      → Called × System Local Layouts Global Content
  unfolding after_prior
  save c s =
      if available write s.staging_lock
      then after_prior s.write_future c (record s { staging_lock = grant write s.staging_lock })
      else (raised lock_timeout, s)

  -- Its effect.
  unfoldable pub act :
      Action Items Local Global
      → System Local Layouts Global Content
      → System Local Layouts Global Content
  unfolding save stage staging_done callback_runs write_done cancel_write guest_enters guest_leaves
      changed_manager
  act (do_save c) s = (save c s).1
  act (do_stage launches) s = (stage launches s).1
  act (staging_ends staged) s = staging_done s.flight staged s
  act called_back s = callback_runs s.flight s
  act (write_ends delivers writes) s = write_done s.flight delivers writes s
  act cancel s = cancel_write s.flight s
  act enter s = guest_enters s
  act leave s = guest_leaves s
  act invalidate s = changed_manager s.manager invalidate_computed_metadata s
  act (compute c items) s =
      changed_manager s.manager
        (λ m.
          (compute_distributed_metadata extract_object_metadata resharded_item_layouts c m items).1)
        s

  unfoldable pub run :
      List (Action Items Local Global)
      → System Local Layouts Global Content
      → System Local Layouts Global Content
  unfolding act
  run [] s = s
  run (a ∷ as') s = run as' (act a s)
