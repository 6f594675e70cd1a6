-- ===== src/Saver/System/Locked.antt =====
-- The staging lock in the parts of a save and in the completions (torch_checkpointing/checkpoint_saver.py).
use torch_checkpointing.Prelude.{
  ℕ, suc, ◌≡◌, ◌≢◌, refl, Bool, true, false, ◌&&◌, Option, none, some, arith, Bool-cases, inl, inr,
}
use torch_checkpointing.Prelude.Result.{Result, ok, err}
use torch_checkpointing.Lock.{
  RwLock, write, available, grant, release, downgrade, read_available, grant_read, write_available,
  grant_write, release_read, release_write,
}
use torch_checkpointing.Metadata.Cache.{SaveError, launch_failed, Blob, Manager}
use torch_checkpointing.Saver.State.{
  Future, pending, succeeded, failed, Request, Flight, nothing, staging, captured, writing,
  staging_only, System, Launch, stage_raises, write_raises, both_run, is_same,
}
use torch_checkpointing.Saver.System.{
  fail_save, launch_save, with_metadata, staging_done, callback_runs, write_done, cancel_write,
  guest_enters, guest_leaves, stage, handle_write, changed_manager,
}

-- How the lock, the guests and the write future stand to what is in flight.
abbrev pub LockStands : {Content : Type 0} → Flight Content → RwLock → ℕ → Option Future → Type 0
LockStands nothing l guests f =
    (l.writer_active ≡ false) × (l.readers ≡ guests) × (f ≢ some pending)
LockStands (staging r w) l guests f =
    (l.writer_active ≡ true) × (l.readers ≡ 0) × (guests ≡ 0) × (f ≡ some w)
LockStands (captured r b w) l guests f =
    (l.writer_active ≡ true) × (l.readers ≡ 0) × (guests ≡ 0) × (f ≡ some w)
LockStands (writing r b) l guests f =
    (l.writer_active ≡ false) × (l.readers ≡ suc guests) × (f ≡ some pending)
LockStands staging_only l guests f =
    (l.writer_active ≡ true) × (l.readers ≡ 0) × (guests ≡ 0) × (f ≢ some pending)

-- In the middle of `save`, with the lock granted.
pub record Saving {Content : Type 0} (f : Flight Content) (l : RwLock) (guests : ℕ)
    (w : Option Future) : Type 0 where
  pub active : l.writer_active ≡ true
  pub alone : l.readers ≡ 0
  pub unwatched : guests ≡ 0
  pub idle : f ≡ nothing
  pub over : w ≢ some pending

-- A lock that can be taken for writing is held by nobody.
pub available-Saving :
    {Content : Type 0} (f : Flight Content) (l : RwLock) (guests : ℕ) (w : Option Future)
    → LockStands f l guests w
    → available write l ≡ true
    → Saving f (grant write l) guests w
unfolding available write_available grant grant_write
available-Saving nothing l g w (a1, a2, a3) e = record {
  active = refl;
  alone = ground arith;
  unwatched = ground arith;
  idle = refl;
  over = a3;
}
available-Saving (staging r f) l g w (a1, a2, a3, a4) e = (grind arith)
available-Saving (captured r b f) l g w (a1, a2, a3, a4) e = (grind arith)
available-Saving (writing r f) l g w (a1, a2, a3) e = (grind arith)
available-Saving staging_only l g w (a1, a2, a3, a4) e = (grind arith)

module _ {Local Layouts Global Content : Type 0} where
  abbrev pub IsLocked : System Local Layouts Global Content → Type 0
  IsLocked s = LockStands s.flight s.staging_lock s.guests s.write_future

  abbrev pub InSave : System Local Layouts Global Content → Type 0
  InSave s = Saving s.flight s.staging_lock s.guests s.write_future

  pub fail_save-IsLocked :
      (e : SaveError) (s : System Local Layouts Global Content)
      → InSave s
      → IsLocked (fail_save e s).1
  unfolding fail_save release
  fail_save-IsLocked e s h = rw h.idle (ground arith)

  pub launch_save-IsLocked :
      (l : Launch) (r : Request Content) (s : System Local Layouts Global Content)
      → InSave s
      → IsLocked (launch_save l r s).1
  unfolding launch_save
  launch_save-IsLocked stage_raises r s h = fail_save-IsLocked launch_failed s h
  launch_save-IsLocked write_raises r s h =
      fail_save-IsLocked launch_failed (record s { strays = suc s.strays }) h
  launch_save-IsLocked both_run r s h = (h.active, h.alone, h.unwatched, refl)

  pub with_metadata-IsLocked :
      (p : ℕ) (l : Launch)
      (got : Result SaveError (Blob Content) × Manager Local Layouts Global Content)
      (s : System Local Layouts Global Content)
      → InSave s
      → IsLocked (with_metadata p l got s).1
  unfolding with_metadata
  with_metadata-IsLocked p l (err e, m) s h = fail_save-IsLocked e (record s { manager = some m }) h
  with_metadata-IsLocked p l (ok blob, m) s h =
      elim (Bool-cases (is_same blob s.sent_serialized_metadata)) [
        | inl e ↦ rw e (launch_save-IsLocked l _ (record s { manager = some m }) h)
        | inr e ↦ rw e (
            launch_save-IsLocked l _
              (record s { manager = some m; sent_serialized_metadata = some blob }) h)
      ]

  pub staging_done-IsLocked :
      (f : Flight Content) (staged : Bool) (s : System Local Layouts Global Content)
      → s.flight ≡ f
      → LockStands f s.staging_lock s.guests s.write_future
      → IsLocked (staging_done f staged s)
  unfolding staging_done release
  staging_done-IsLocked nothing staged s e h = rw e h
  staging_done-IsLocked (staging r w) staged s e h = h
  staging_done-IsLocked (captured r b w) staged s e h = rw e h
  staging_done-IsLocked (writing r b) staged s e h = rw e h
  staging_done-IsLocked staging_only staged s e (a1, a2, a3, a4) = ground arith

  pub callback_runs-IsLocked :
      (f : Flight Content) (s : System Local Layouts Global Content)
      → s.flight ≡ f
      → LockStands f s.staging_lock s.guests s.write_future
      → IsLocked (callback_runs f s)
  unfolding callback_runs downgrade release
  callback_runs-IsLocked nothing s e h = rw e h
  callback_runs-IsLocked (staging r w) s e h = rw e h
  callback_runs-IsLocked (captured r b pending) s e (a1, a2, a3, a4) = ground arith
  callback_runs-IsLocked (captured r b succeeded) s e (a1, a2, a3, a4) = ground arith
  callback_runs-IsLocked (captured r b failed) s e (a1, a2, a3, a4) = ground arith
  callback_runs-IsLocked (writing r b) s e h = rw e h
  callback_runs-IsLocked staging_only s e h = rw e h

  pub write_done-IsLocked :
      (f : Flight Content) (delivers writes : Bool) (s : System Local Layouts Global Content)
      → s.flight ≡ f
      → LockStands f s.staging_lock s.guests s.write_future
      → IsLocked (write_done f delivers writes s)
  unfolding write_done handle_write release
  write_done-IsLocked nothing d w s e h = rw e h
  write_done-IsLocked (staging r f) d w s e h = rw e h
  write_done-IsLocked (captured r b pending) d w s e (a1, a2, a3, a4) =
      elim (Bool-cases (b && (d && s.worker.serving))) [
        | inl x ↦ rw x (a1, a2, a3, refl)
        | inr x ↦ rw x (a1, a2, a3, refl)
      ]
  write_done-IsLocked (captured r b succeeded) d w s e h = rw e h
  write_done-IsLocked (captured r b failed) d w s e h = rw e h
  write_done-IsLocked (writing r b) d w s e (a1, a2, a3) = ground arith
  write_done-IsLocked staging_only d w s e h = rw e h

  pub cancel_write-IsLocked :
      (f : Flight Content) (s : System Local Layouts Global Content)
      → s.flight ≡ f
      → LockStands f s.staging_lock s.guests s.write_future
      → IsLocked (cancel_write f s)
  unfolding cancel_write
  cancel_write-IsLocked nothing s e h = rw e h
  cancel_write-IsLocked (staging r pending) s e (a1, a2, a3, a4) = (a1, a2, a3, refl)
  cancel_write-IsLocked (staging r succeeded) s e h = rw e h
  cancel_write-IsLocked (staging r failed) s e h = rw e h
  cancel_write-IsLocked (captured r b w) s e h = rw e h
  cancel_write-IsLocked (writing r b) s e h = rw e h
  cancel_write-IsLocked staging_only s e h = rw e h

  pub guest_enters-IsLocked :
      (f : Flight Content) (s : System Local Layouts Global Content)
      → s.flight ≡ f
      → LockStands f s.staging_lock s.guests s.write_future
      → IsLocked (guest_enters s)
  unfolding guest_enters available read_available grant grant_read
  guest_enters-IsLocked nothing s e (a1, a2, a3) = rw e (ground arith)
  guest_enters-IsLocked (staging r f) s e (a1, a2, a3, a4) = rw e (ground arith)
  guest_enters-IsLocked (captured r b f) s e (a1, a2, a3, a4) = rw e (ground arith)
  guest_enters-IsLocked (writing r b) s e (a1, a2, a3) = rw e (ground arith)
  guest_enters-IsLocked staging_only s e (a1, a2, a3, a4) = rw e (ground arith)

  pub guest_leaves-IsLocked :
      (f : Flight Content) (s : System Local Layouts Global Content)
      → s.flight ≡ f
      → LockStands f s.staging_lock s.guests s.write_future
      → IsLocked (guest_leaves s)
  unfolding guest_leaves release release_read
  guest_leaves-IsLocked nothing s e (a1, a2, a3) = rw e (ground arith)
  guest_leaves-IsLocked (staging r f) s e (a1, a2, a3, a4) = rw e (ground arith)
  guest_leaves-IsLocked (captured r b f) s e (a1, a2, a3, a4) = rw e (ground arith)
  guest_leaves-IsLocked (writing r b) s e (a1, a2, a3) = rw e (ground arith)
  guest_leaves-IsLocked staging_only s e (a1, a2, a3, a4) = rw e (ground arith)

  pub stage-IsLocked :
      (f : Flight Content) (launches : Bool) (s : System Local Layouts Global Content)
      → s.flight ≡ f
      → LockStands f s.staging_lock s.guests s.write_future
      → IsLocked (stage launches s).1
  unfolding stage available write_available grant grant_write release release_write
  stage-IsLocked nothing b s e (a1, a2, a3) = rw e (ground arith)
  stage-IsLocked (staging r f) b s e (a1, a2, a3, a4) = rw e (ground arith)
  stage-IsLocked (captured r f w) b s e (a1, a2, a3, a4) = rw e (ground arith)
  stage-IsLocked (writing r f) b s e (a1, a2, a3) = rw e (ground arith)
  stage-IsLocked staging_only b s e (a1, a2, a3, a4) = rw e (ground arith)

  pub changed_manager-IsLocked :
      (m : Option (Manager Local Layouts Global Content))
      (call : Manager Local Layouts Global Content → Manager Local Layouts Global Content)
      (s : System Local Layouts Global Content)
      → IsLocked s
      → IsLocked (changed_manager m call s)
  unfolding changed_manager
  changed_manager-IsLocked none call s h = h
  changed_manager-IsLocked (some m) call s h = h
