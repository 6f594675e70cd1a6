-- ===== src/Saver/System/Delivery/Parts.antt =====
-- The metadata of every write, in the parts of a save and in the completions
-- (torch_checkpointing/checkpoint_saver.py).
use torch_checkpointing.Prelude.{
  ℕ, suc, ◌∙◌, ◌≡◌, ◌≢◌, refl, sym, ◌⊎◌, inl, inr, Bool, true, false, ◌&&◌, Option, none, some,
  arith, Bool-cases, eqb, All, All-append,
}
use torch_checkpointing.Lock.{
  RwLock, read, write, available, release, downgrade, release_read, release_write, write_available,
}
use torch_checkpointing.Metadata.Cache.{Blob, Manager}
use torch_checkpointing.Saver.State.{
  Future, pending, succeeded, failed, Request, Flight, nothing, staging, captured, writing,
  staging_only, System,
}
use torch_checkpointing.Metadata.Cache.Identity.{Forgets}
use torch_checkpointing.Saver.System.{
  changed_manager, staging_done, callback_runs, finish_early, refreshed, write_done, cancel_write,
  guest_enters, guest_leaves, stage, handle_write, finish,
}
use torch_checkpointing.Saver.System.Locked.{LockStands}
use torch_checkpointing.Saver.System.Delivery.{Sent, IsRight, Owned, Delivers}

written_is_busy : (l : RwLock) → l.writer_active ≡ true → available write l ≡ false
unfolding available write_available
written_is_busy l h = ground arith

read_is_busy : (l : RwLock) (n : ℕ) → l.readers ≡ suc n → available write l ≡ false
unfolding available write_available
read_is_busy l n h = ground arith

pub idle_Sent :
    {Content : Type 0} {w : Option Future} {sent cache : Option (Blob Content)} (f : Flight Content)
    → f ≡ nothing
    → Sent f w sent cache
    → Sent nothing w sent cache
idle_Sent nothing e h = h
idle_Sent (staging r f) e h = ground arith
idle_Sent (captured r b f) e h = ground arith
idle_Sent (writing r b) e h = ground arith
idle_Sent staging_only e h = h

-- A future that has not failed.
pub unfailed_Sent :
    {Content : Type 0} {w : Option Future} {sent cache : Option (Blob Content)}
    → w ≢ some failed
    → Sent nothing w sent cache
    → (sent ≡ none) ⊎ (sent ≡ cache)
unfailed_Sent n (inl h) = elim (n h) [ ]
unfailed_Sent n (inr h) = h

module _ {Local Layouts Global Content : Type 0} where
  pub staging_done-Delivers :
      (f : Flight Content) (staged : Bool) (s : System Local Layouts Global Content)
      → s.flight ≡ f
      → LockStands f s.staging_lock s.guests s.write_future
      → Sent f s.write_future s.sent_serialized_metadata s.worker.metadata_cache
      → Owned s.manager s.sent_serialized_metadata s.worker.metadata_cache
      → All IsRight s.worker.log
      → Delivers (staging_done f staged s)
  unfolding staging_done release release_write
  staging_done-Delivers nothing staged s e l h o log = rw e (h, o, log)
  staging_done-Delivers (staging r pending) staged s e l h o log = (h, o, log)
  staging_done-Delivers (staging r succeeded) staged s e l h o log = elim h [ ]
  staging_done-Delivers (staging r failed) staged s e l (h, u, q) o log = (inl h, o, log)
  staging_done-Delivers (captured r b w) staged s e l h o log = rw e (h, o, log)
  staging_done-Delivers (writing r b) staged s e l h o log = rw e (h, o, log)
  staging_done-Delivers staging_only staged s e l h o log = (h, o, log)

  pub callback_runs-Delivers :
      (f : Flight Content) (s : System Local Layouts Global Content)
      → s.flight ≡ f
      → LockStands f s.staging_lock s.guests s.write_future
      → Sent f s.write_future s.sent_serialized_metadata s.worker.metadata_cache
      → Owned s.manager s.sent_serialized_metadata s.worker.metadata_cache
      → All IsRight s.worker.log
      → Delivers (callback_runs f s)
  unfolding callback_runs downgrade release release_write release_read
  callback_runs-Delivers nothing s e l h o log = rw e (h, o, log)
  callback_runs-Delivers (staging r w) s e l h o log = rw e (h, o, log)
  callback_runs-Delivers (captured r b pending) s e (a, _, _, _) (h, u, q) o log =
      rw a ((u, q), o, log)
  callback_runs-Delivers (captured r b succeeded) s e (a, _, _, _) h o log = rw a (h, o, log)
  callback_runs-Delivers (captured r b failed) s e (a, _, _, _) h o log = rw a (h, o, log)
  callback_runs-Delivers (writing r b) s e l h o log = rw e (h, o, log)
  callback_runs-Delivers staging_only s e l h o log = rw e (h, o, log)

  used-Owned :
      (m : Option (Manager Local Layouts Global Content)) (sent cache used : Option (Blob Content))
      → Owned m sent cache
      → sent ≡ used
      → Owned m sent used
  used-Owned none sent cache used h e = (h.0, sym e ∙ h.0)
  used-Owned (some m) sent cache used h e = h

  finish-Delivers :
      (r : Request Content) (w : Bool) (s : System Local Layouts Global Content)
      → Sent (writing r true) s.write_future s.sent_serialized_metadata s.worker.metadata_cache
      → Owned s.manager s.sent_serialized_metadata s.worker.metadata_cache
      → All IsRight s.worker.log
      → Delivers (finish (handle_write r w s.worker) s)
  unfolding handle_write
  finish-Delivers r true s (u, q) o log = (
    inr (inr (q ∙ sym u)),
    used-Owned s.manager _ s.worker.metadata_cache _ o (q ∙ sym u),
    All-append IsRight s.worker.log _ log u,
  )
  finish-Delivers r false s (u, q) o log =
      (inl refl, used-Owned s.manager _ s.worker.metadata_cache _ o (q ∙ sym u), log)

  finish_early-Delivers :
      (r : Request Content) (b w : Bool) (s : System Local Layouts Global Content)
      → refreshed r.carried s.worker.metadata_cache ≡ r.expected
      → s.sent_serialized_metadata ≡ r.expected
      → Owned s.manager s.sent_serialized_metadata s.worker.metadata_cache
      → All IsRight s.worker.log
      → Delivers (finish_early r b (handle_write r w s.worker) s)
  unfolding handle_write
  finish_early-Delivers r b true s u q o log = (
    inr (inr (q ∙ sym u)),
    used-Owned s.manager _ s.worker.metadata_cache _ o (q ∙ sym u),
    All-append IsRight s.worker.log _ log u,
  )
  finish_early-Delivers r b false s u q o log =
      (inl refl, used-Owned s.manager _ s.worker.metadata_cache _ o (q ∙ sym u), log)

  pub write_done-Delivers :
      (f : Flight Content) (d w : Bool) (s : System Local Layouts Global Content)
      → s.flight ≡ f
      → Sent f s.write_future s.sent_serialized_metadata s.worker.metadata_cache
      → Owned s.manager s.sent_serialized_metadata s.worker.metadata_cache
      → All IsRight s.worker.log
      → Delivers (write_done f d w s)
  unfolding write_done handle_write
  write_done-Delivers nothing d w s e h o log = rw e (h, o, log)
  write_done-Delivers (staging r f) d w s e h o log = rw e (h, o, log)
  write_done-Delivers (captured r b pending) d w s e (h, u, q) o log =
      elim (Bool-cases (b && (d && s.worker.serving))) [
        | inl x ↦ rw x (finish_early-Delivers r b w s u q o log)
        | inr x ↦ rw x (inl refl, o, log)
      ]
  write_done-Delivers (captured r b succeeded) d w s e h o log = rw e (h, o, log)
  write_done-Delivers (captured r b failed) d w s e h o log = rw e (h, o, log)
  write_done-Delivers staging_only d w s e h o log = rw e (h, o, log)
  write_done-Delivers (writing r b) d w s e h o log =
      elim (Bool-cases (b && (d && s.worker.serving))) [
        | inl x ↦ rw x (finish-Delivers r w s h o log)
        | inr x ↦ rw x (inl refl, o, log)
      ]

  pub cancel_write-Delivers :
      (f : Flight Content) (s : System Local Layouts Global Content)
      → s.flight ≡ f
      → Sent f s.write_future s.sent_serialized_metadata s.worker.metadata_cache
      → Owned s.manager s.sent_serialized_metadata s.worker.metadata_cache
      → All IsRight s.worker.log
      → Delivers (cancel_write f s)
  unfolding cancel_write
  cancel_write-Delivers nothing s e h o log = rw e (h, o, log)
  cancel_write-Delivers (staging r pending) s e (h, u, q) o log = ((refl, u, q), o, log)
  cancel_write-Delivers (staging r succeeded) s e h o log = elim h [ ]
  cancel_write-Delivers (staging r failed) s e h o log = rw e (h, o, log)
  cancel_write-Delivers (captured r b w) s e h o log = rw e (h, o, log)
  cancel_write-Delivers (writing r b) s e h o log = rw e (h, o, log)
  cancel_write-Delivers staging_only s e h o log = rw e (h, o, log)

  pub guest_enters-Delivers :
      (s : System Local Layouts Global Content) → Delivers s → Delivers (guest_enters s)
  unfolding guest_enters
  guest_enters-Delivers s (h, o, log) = elim (Bool-cases (available read s.staging_lock)) [
    | inl e ↦ rw e (h, o, log)
    | inr e ↦ rw e (h, o, log)
  ]

  pub guest_leaves-Delivers :
      (s : System Local Layouts Global Content) → Delivers s → Delivers (guest_leaves s)
  unfolding guest_leaves
  guest_leaves-Delivers s (h, o, log) = elim (Bool-cases (eqb s.guests 0)) [
    | inl e ↦ rw e (h, o, log)
    | inr e ↦ rw e (h, o, log)
  ]

  pub stage-Delivers :
      (f : Flight Content) (launches : Bool) (s : System Local Layouts Global Content)
      → s.flight ≡ f
      → LockStands f s.staging_lock s.guests s.write_future
      → Sent f s.write_future s.sent_serialized_metadata s.worker.metadata_cache
      → Owned s.manager s.sent_serialized_metadata s.worker.metadata_cache
      → All IsRight s.worker.log
      → Delivers (stage launches s).1
  unfolding stage
  stage-Delivers nothing true s e l h o log = elim (Bool-cases (available write s.staging_lock)) [
    | inl x ↦ rw x (h, o, log)
    | inr x ↦ rw x (rw e (h, o, log))
  ]
  stage-Delivers nothing false s e l h o log = elim (Bool-cases (available write s.staging_lock)) [
    | inl x ↦ rw x (rw e (h, o, log))
    | inr x ↦ rw x (rw e (h, o, log))
  ]
  stage-Delivers (staging r f) launches s e (a, _, _, _) h o log =
      rw (written_is_busy s.staging_lock a) (rw e (h, o, log))
  stage-Delivers (captured r b f) launches s e (a, _, _, _) h o log =
      rw (written_is_busy s.staging_lock a) (rw e (h, o, log))
  stage-Delivers (writing r b) launches s e (_, a, _) h o log =
      rw (read_is_busy s.staging_lock _ a) (rw e (h, o, log))
  stage-Delivers staging_only launches s e (a, _, _, _) h o log =
      rw (written_is_busy s.staging_lock a) (rw e (h, o, log))

  Forgets-Owned :
      (m m' : Manager Local Layouts Global Content) (sent cache : Option (Blob Content))
      → Forgets m m'
      → Owned (some m) sent cache
      → Owned (some m') sent cache
  Forgets-Owned m m' sent cache (n, inl q) (a, o) = (
    (λ c e. absurd (ground (arith, q))),
    λ b e. (omega (arith, n, (o b e).0), λ c g. absurd (ground (arith, q))),
  )
  Forgets-Owned m m' sent cache (n, inr q) (a, o) = (
    (λ c e. omega (arith, n, a c (sym q ∙ e))),
    λ b e. (omega (arith, n, (o b e).0), λ c g. (o b e).1 c (sym q ∙ g)),
  )

  pub changed_manager-Delivers :
      (m : Option (Manager Local Layouts Global Content))
      (call : Manager Local Layouts Global Content → Manager Local Layouts Global Content)
      (forgets : (k : Manager Local Layouts Global Content) → Forgets k (call k))
      (s : System Local Layouts Global Content)
      → s.manager ≡ m
      → Sent s.flight s.write_future s.sent_serialized_metadata s.worker.metadata_cache
      → Owned m s.sent_serialized_metadata s.worker.metadata_cache
      → All IsRight s.worker.log
      → Delivers (changed_manager m call s)
  unfolding changed_manager
  changed_manager-Delivers none call forgets s e h o log = rw e (h, o, log)
  changed_manager-Delivers (some m) call forgets s e h o log =
      (h, Forgets-Owned m (call m) _ s.worker.metadata_cache (forgets m) o, log)
