-- ===== src/Manager/Close.antt =====
-- `close` of `CheckpointManager` of torch_checkpointing/checkpoint_manager.py.
use torch_checkpointing.Prelude.{◌≡◌, ◌≢◌, ◌⊎◌, Bool, true, Option, none, some}
use torch_checkpointing.Manager.{
  Progress, done, CheckpointManager, Part, the_saver, the_loader, Reply, close_raised, returned,
  future_failed, manager_closed, SaverResult, save, prewarm_staging, close,
}

-- The future, if there is one, succeeds within the timeout.
abbrev pub Succeeds : (Progress → Progress) → Option Progress → Type 0
Succeeds waited none = Unit {0}
Succeeds waited (some p) = waited p ≡ done

-- What `close` leaves of an open manager, and how it ends; `raising` is the part whose `close()` raises.
pub record Closed (waited : Progress → Progress) (raising : Option Part) (m : CheckpointManager)
    (reply : Reply) (m' : CheckpointManager) : Type 0 where
  pub is_marked : m'.is_closed ≡ true
  pub saver : m'.closes.saver ≡ true
  pub loader : raising ≢ some the_saver → m'.closes.loader ≡ true
  pub metadata_manager :
      raising ≢ some the_saver
      → raising ≢ some the_loader
      → m.closes.metadata_manager ≢ none
      → m'.closes.metadata_manager ≡ some true
  pub raised : (part : Part) → reply ≡ close_raised part → raising ≡ some part
  pub ended : raising ≡ none → (reply ≡ returned) ⊎ (reply ≡ future_failed)
  pub succeeded :
      reply ≡ returned → Succeeds waited m.prewarm_staging_future × Succeeds waited m.write_future
  pub failed :
      reply ≡ future_failed
      → (Succeeds waited m.prewarm_staging_future × Succeeds waited m.write_future)
      → ⊥

-- How the waits end, where `Succeeded` says that all futures succeed.
unfoldable Waits : Type 0 → Reply → Type 0
Waits Succeeded reply =
    ((reply ≡ returned) × Succeeded) ⊎ ((reply ≡ future_failed) × (Succeeded → ⊥))

-- The calls on a closed manager raise and change nothing, and another `close` does nothing.
pub record IsEnded (m : CheckpointManager) : Type 0 where
  pub save_refused :
      (waited : Progress → Progress) (items : Bool) (r : SaverResult)
      → save waited items r m ≡ (manager_closed, m)
  pub prewarm_refused :
      (has_stager items any : Bool) → prewarm_staging has_stager items any m ≡ (manager_closed, m)
  pub closes_once :
      (waited : Progress → Progress) (raising : Option Part)
      → close waited raising m ≡ (returned, m)
