-- ===== src/Saver/System/Delivery.antt =====
-- Which metadata the subprocess writes (torch_checkpointing/checkpoint_saver.py and
-- torch_checkpointing/checkpoint_process.py).
pub mod Runs
pub mod Parts
use torch_checkpointing.Prelude.{
  ℕ, suc, ◌<◌, ◌≤◌, ◌≡◌, ◌≢◌, refl, sym, ap, ◌⊎◌, inl, inr, Bool, true, false, not, ◌&&◌, Option,
  none, some, List, [], ◌∷◌, ◌++◌, Eq, arith, Bool-cases, eqb, eqb_iff, All, All-append,
}
use torch_checkpointing.Prelude.Result.{Result, ok, err}
use torch_checkpointing.Lock.{
  RwLock, RwLockMode, read, write, Outcome, available, grant, release, downgrade, release_read,
  release_write, read_available, grant_read, write_available, grant_write,
}
use torch_checkpointing.Metadata.Cache.{
  SaveError, launch_failed, prior_write_failed, Blob, Manager, get_serialized_metadata,
}
use torch_checkpointing.Metadata.Cache.Identity.{
  IsAllocated, Returned, get_serialized_metadata-Returned,
}
use torch_checkpointing.Saver.State.{
  Future, pending, succeeded, failed, Request, Flight, nothing, staging, captured, writing,
  staging_only, Worker, System, Written, Called, launched, raised, blocks, Launch, stage_raises,
  write_raises, both_run, SaveCall, Action, do_save, do_stage, staging_ends, write_ends, cancel,
  enter, leave, new_system, is_same,
}
use torch_checkpointing.Saver.System.{
  fail_save, launch_save, with_metadata, staging_done, downgraded, release_armed, write_done,
  cancel_write, guest_enters, guest_leaves, prepare_and_launch, after_prior, save, stage, act, run,
  handle_write, lock_after, finish, refreshed,
}
use torch_checkpointing.Saver.System.Locking.{act-IsLocked}
use torch_checkpointing.Saver.System.Locked.{IsLocked, LockStands, Saving, available-Saving}

module _ {Content : Type 0} where
  -- What was sent is what the subprocess holds, or will hold once the request in flight is handled;
  -- unless the write future has failed.
  abbrev pub Sent :
      Flight Content → Option Future → Option (Blob Content) → Option (Blob Content) → Type 0
  Sent (staging r succeeded) f sent cache = ⊥
  Sent (staging r w) f sent cache =
      (f ≡ some w) × (refreshed r.carried cache ≡ r.expected) × (sent ≡ r.expected)
  Sent (captured r b pending) f sent cache =
      (f ≡ some pending) × (refreshed r.carried cache ≡ r.expected) × (sent ≡ r.expected)
  Sent (writing r b) f sent cache = (refreshed r.carried cache ≡ r.expected) × (sent ≡ r.expected)
  Sent _ f sent cache = (f ≡ some failed) ⊎ ((sent ≡ none) ⊎ (sent ≡ cache))

  abbrev pub IsRight : Written Content → Type 0
  IsRight e = e.used ≡ e.expected

  held :
      {blob : Blob Content} (sent cache : Option (Blob Content))
      → sent ≡ some blob
      → ((sent ≡ none) ⊎ (sent ≡ cache))
      → cache ≡ some blob
  held sent cache e (inl h) = ground arith
  held sent cache e (inr h) = cc

module _ {Local Layouts Global Content : Type 0} where
  -- What was sent is an allocated object, and no other kept object has its identity. Without a
  -- manager nothing is ever sent or held.
  abbrev pub Owned :
      Option (Manager Local Layouts Global Content)
      → Option (Blob Content)
      → Option (Blob Content)
      → Type 0
  Owned none sent cache = (sent ≡ none) × (cache ≡ none)
  Owned (some m) sent cache =
      IsAllocated m
      × ((b : Blob Content)
          → sent ≡ some b
          → (b.object < m.next_object)
            × ((c : Blob Content) → m.serialized_metadata ≡ some c → c.object ≡ b.object → c ≡ b))

  abbrev pub Delivers : System Local Layouts Global Content → Type 0
  Delivers s =
      Sent s.flight s.write_future s.sent_serialized_metadata s.worker.metadata_cache
      × Owned s.manager s.sent_serialized_metadata s.worker.metadata_cache
      × All IsRight s.worker.log

  -- In the middle of a save that found no failed write.
  abbrev pub Ready : System Local Layouts Global Content → Type 0
  Ready s =
      (s.flight ≡ nothing)
      × ((s.sent_serialized_metadata ≡ none)
          ⊎ (s.sent_serialized_metadata ≡ s.worker.metadata_cache))

  pub unsent-Owned :
      (m : Option (Manager Local Layouts Global Content)) (sent cache : Option (Blob Content))
      → Owned m sent cache
      → Owned m none cache
  unsent-Owned none sent cache h = (refl, h.1)
  unsent-Owned (some m) sent cache h = (h.0, λ b q. ground arith)

  pub fail_save-Delivers :
      (e : SaveError) (s : System Local Layouts Global Content)
      → s.flight ≡ nothing
      → s.staging_lock.writer_active ≡ true
      → Owned s.manager none s.worker.metadata_cache
      → All IsRight s.worker.log
      → Delivers (fail_save e s).1
  unfolding fail_save release release_write
  fail_save-Delivers e s idle active owned log = rw active (rw idle (inr (inl refl), owned, log))

  pub launch_save-Delivers :
      (l : Launch) (r : Request Content) (s : System Local Layouts Global Content)
      → s.flight ≡ nothing
      → s.staging_lock.writer_active ≡ true
      → refreshed r.carried s.worker.metadata_cache ≡ r.expected
      → s.sent_serialized_metadata ≡ r.expected
      → Owned s.manager s.sent_serialized_metadata s.worker.metadata_cache
      → All IsRight s.worker.log
      → Delivers (launch_save l r s).1
  unfolding launch_save
  launch_save-Delivers stage_raises r s idle active used sent owned log =
      fail_save-Delivers launch_failed s idle active (unsent-Owned s.manager _ _ owned) log
  launch_save-Delivers write_raises r s idle active used sent owned log =
      fail_save-Delivers launch_failed (record s { strays = suc s.strays }) idle active
        (unsent-Owned s.manager _ _ owned) log
  launch_save-Delivers both_run r s idle active used sent owned log =
      ((refl, used, sent), owned, log)

  -- The manager that a call leaves owns what was sent before, or what the call returned.
  kept-Owned :
      (m : Manager Local Layouts Global Content) (blob : Blob Content)
      (cache : Option (Blob Content))
      → m.serialized_metadata ≡ some blob
      → blob.object < m.next_object
      → Owned (some m) (some blob) cache
  kept-Owned m blob cache h g = (λ c q. grind arith, λ b q. (grind arith, λ c p o. grind arith))

  -- What is the same object as what was sent is what was sent.
  is_same-Owned :
      (m m' : Manager Local Layouts Global Content) (blob : Blob Content)
      (sent cache : Option (Blob Content))
      → Owned (some m) sent cache
      → Returned m (ok blob, m')
      → is_same blob sent ≡ true
      → sent ≡ some blob
  is_same-Owned m m' blob none cache h r e = ground arith
  is_same-Owned m m' blob (some b) cache h (k, g, inl p) e =
      ap some (sym ((h.1 b refl).1 blob p ((eqb_iff blob.object b.object).0 e)))
  is_same-Owned m m' blob (some b) cache h (k, g, inr p) e =
      ground (arith, (h.1 b refl).0, (eqb_iff blob.object b.object).0 e)

  pub with_metadata-Delivers :
      (p : ℕ) (l : Launch) (m : Manager Local Layouts Global Content)
      (got : Result SaveError (Blob Content) × Manager Local Layouts Global Content)
      (s : System Local Layouts Global Content)
      → Ready s
      → s.staging_lock.writer_active ≡ true
      → Owned (some m) s.sent_serialized_metadata s.worker.metadata_cache
      → All IsRight s.worker.log
      → Returned m got
      → Delivers (with_metadata p l got s).1
  unfolding with_metadata
  with_metadata-Delivers p l m (err e, m') s (idle, sent) active owned log r =
      fail_save-Delivers e (record s { manager = some m' }) idle active (r, λ b q. ground arith) log
  with_metadata-Delivers p l m (ok blob, m') s (idle, sent) active owned log (k, g, o) =
      elim (Bool-cases (is_same blob s.sent_serialized_metadata)) [
        | inl e ↦
            let same =
              is_same-Owned m m' blob s.sent_serialized_metadata s.worker.metadata_cache owned
                (k, g, o) e in
            rw e (
              launch_save-Delivers l _ (record s { manager = some m' }) idle active
                (held s.sent_serialized_metadata s.worker.metadata_cache same sent) same
                (rw same (kept-Owned m' blob s.worker.metadata_cache k g)) log)
        | inr e ↦ rw e (
            launch_save-Delivers l _
              (record s { manager = some m'; sent_serialized_metadata = some blob }) idle active
              refl refl (kept-Owned m' blob s.worker.metadata_cache k g) log)
      ]
