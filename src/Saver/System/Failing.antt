-- ===== src/Saver/System/Failing.antt =====
-- Failures in the parts of a save and in the completions (torch_checkpointing/checkpoint_saver.py).
use torch_checkpointing.Prelude.{
  ℕ, ◌≡◌, ◌≢◌, ◌↔◌, refl, inl, inr, Bool, true, Option, none, some, List, arith, Bool-cases,
}
use torch_checkpointing.Prelude.Result.{Result, ok, err}
use torch_checkpointing.Lock.{
  RwLock, write, available, release, downgrade, release_write, write_available,
}
use torch_checkpointing.Metadata.Cache.{SaveError, launch_failed, Blob, Manager}
use torch_checkpointing.Saver.State.{
  Future, pending, succeeded, failed, Request, Flight, nothing, staging, captured, writing,
  staging_only, System, Written, raised, blocks, Launch, stage_raises, write_raises, both_run,
  is_same,
}
use torch_checkpointing.Saver.System.{
  changed_manager, fail_save, launch_save, with_metadata, staging_done, callback_runs, downgraded,
  write_done, cancel_write, guest_enters, guest_leaves, stage,
}
use torch_checkpointing.Saver.System.Locked.{LockStands}

-- Nothing is in flight, and no reader is in.
abbrev pub IsIdle :
    {Local Layouts Global Content : Type 0} → System Local Layouts Global Content → Type 0
IsIdle s = (s.flight ≡ nothing) × (s.guests ≡ 0)

pub idle_available :
    {Content : Type 0} (f : Flight Content) (l : RwLock) (guests : ℕ) (w : Option Future)
    → LockStands f l guests w
    → (available write l ≡ true) ↔ ((f ≡ nothing) × (guests ≡ 0))
unfolding available write_available
idle_available nothing l g w (a, b, c) = ground arith
idle_available (staging r f) l g w (a, b, c, d) = ground arith
idle_available (captured r b f) l g w (a, b', c, d) = ground arith
idle_available (writing r f) l g w (a, b, c) = ground arith
idle_available staging_only l g w (a, b, c, d) = ground arith

module _ {Local Layouts Global Content : Type 0} where
  fail_save-ends :
      (e : SaveError) (s : System Local Layouts Global Content) → (fail_save e s).0 ≡ raised e
  unfolding fail_save release release_write
  fail_save-ends e s = ground arith

  pub fail_save-returns :
      (e : SaveError) (s : System Local Layouts Global Content) → (fail_save e s).0 ≢ blocks
  fail_save-returns e s q = ground (arith, fail_save-ends e s)

  pub launch_save-returns :
      (l : Launch) (r : Request Content) (s : System Local Layouts Global Content)
      → (launch_save l r s).0 ≢ blocks
  unfolding launch_save
  launch_save-returns stage_raises r s = fail_save-returns launch_failed s
  launch_save-returns write_raises r s = fail_save-returns launch_failed _
  launch_save-returns both_run r s = λ q. ground arith

  pub with_metadata-returns :
      (p : ℕ) (l : Launch)
      (got : Result SaveError (Blob Content) × Manager Local Layouts Global Content)
      (s : System Local Layouts Global Content)
      → (with_metadata p l got s).0 ≢ blocks
  unfolding with_metadata
  with_metadata-returns p l (err e, m) s = fail_save-returns e _
  with_metadata-returns p l (ok blob, m) s =
      elim (Bool-cases (is_same blob s.sent_serialized_metadata)) [
        | inl e ↦ rw e (launch_save-returns l _ _)
        | inr e ↦ rw e (launch_save-returns l _ _)
      ]

  -- Without a write that is done, what holds the lock does not write.
  pub write_done-failed :
      (f : Flight Content) (d w : Bool) (s : System Local Layouts Global Content)
      → LockStands f s.staging_lock s.guests s.write_future
      → s.write_future ≡ some failed
      → write_done f d w s ≡ s
  unfolding write_done
  write_done-failed nothing d w s l h = refl
  write_done-failed (staging r f) d w s l h = refl
  write_done-failed (captured r b pending) d w s (_, _, _, p) h = ground arith
  write_done-failed (captured r b succeeded) d w s l h = refl
  write_done-failed (captured r b failed) d w s l h = refl
  write_done-failed staging_only d w s l h = refl
  write_done-failed (writing r b) d w s (_, _, p) h = ground arith

  -- The last write failed, and `log` is all that was written.
  abbrev pub HasFailed : List (Written Content) → System Local Layouts Global Content → Type 0
  HasFailed log s = (s.write_future ≡ some failed) × (s.worker.log ≡ log)

  pub fail_save-HasFailed :
      (e : SaveError) (log : List (Written Content)) (s : System Local Layouts Global Content)
      → HasFailed log s
      → HasFailed log (fail_save e s).1
  unfolding fail_save release release_write
  fail_save-HasFailed e log s h = ground arith

  pub staging_done-HasFailed :
      (f : Flight Content) (staged : Bool) (log : List (Written Content))
      (s : System Local Layouts Global Content)
      → HasFailed log s
      → HasFailed log (staging_done f staged s)
  unfolding staging_done
  staging_done-HasFailed nothing staged log s h = h
  staging_done-HasFailed (staging r w) staged log s h = h
  staging_done-HasFailed (captured r b w) staged log s h = h
  staging_done-HasFailed (writing r b) staged log s h = h
  staging_done-HasFailed staging_only staged log s h = h

  pub callback_runs-HasFailed :
      (f : Flight Content) (log : List (Written Content)) (s : System Local Layouts Global Content)
      → HasFailed log s
      → HasFailed log (callback_runs f s)
  unfolding callback_runs downgrade downgraded
  callback_runs-HasFailed nothing log s h = h
  callback_runs-HasFailed (staging r w) log s h = h
  callback_runs-HasFailed (captured r b pending) log s h = ground arith
  callback_runs-HasFailed (captured r b succeeded) log s h = ground arith
  callback_runs-HasFailed (captured r b failed) log s h = ground arith
  callback_runs-HasFailed (writing r b) log s h = h
  callback_runs-HasFailed staging_only log s h = h

  pub cancel_write-HasFailed :
      (f : Flight Content) (log : List (Written Content)) (s : System Local Layouts Global Content)
      → HasFailed log s
      → HasFailed log (cancel_write f s)
  unfolding cancel_write
  cancel_write-HasFailed nothing log s h = h
  cancel_write-HasFailed (staging r pending) log s h = (refl, h.1)
  cancel_write-HasFailed (staging r succeeded) log s h = h
  cancel_write-HasFailed (staging r failed) log s h = h
  cancel_write-HasFailed (captured r b w) log s h = h
  cancel_write-HasFailed (writing r b) log s h = h
  cancel_write-HasFailed staging_only log s h = h

  pub guest_enters-HasFailed :
      (log : List (Written Content)) (s : System Local Layouts Global Content)
      → HasFailed log s
      → HasFailed log (guest_enters s)
  unfolding guest_enters
  guest_enters-HasFailed log s h = ground arith

  pub guest_leaves-HasFailed :
      (log : List (Written Content)) (s : System Local Layouts Global Content)
      → HasFailed log s
      → HasFailed log (guest_leaves s)
  unfolding guest_leaves
  guest_leaves-HasFailed log s h = ground arith

  pub stage-HasFailed :
      (launches : Bool) (log : List (Written Content)) (s : System Local Layouts Global Content)
      → HasFailed log s
      → HasFailed log (stage launches s).1
  unfolding stage
  stage-HasFailed launches log s h = ground arith

  pub changed_manager-HasFailed :
      (m : Option (Manager Local Layouts Global Content))
      (call : Manager Local Layouts Global Content → Manager Local Layouts Global Content)
      (log : List (Written Content)) (s : System Local Layouts Global Content)
      → HasFailed log s
      → HasFailed log (changed_manager m call s)
  unfolding changed_manager
  changed_manager-HasFailed none call log s h = h
  changed_manager-HasFailed (some m) call log s h = h
