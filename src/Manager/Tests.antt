-- ===== src/Manager/Tests.antt =====
-- A manager that has just saved and prewarms for the next save.
use torch_checkpointing.Prelude.{◌≡◌, refl, true, false, none, some}
use torch_checkpointing.Manager.{
  done, Progress, broken, future_failed, close, wait_for, close_all, CheckpointManager, started,
  prewarm_staging,
}
use torch_checkpointing.Manager.Futures.{Prewarms, prewarm_staging-Prewarms}

abbrev after_save : CheckpointManager
after_save = record {
  prewarm_staging_future = none;
  staging_future = some done;
  write_future = some done;
  is_closed = false;
  closes = record { saver = false; loader = false; metadata_manager = some false };
}

starts_again : (prewarm_staging true true true after_save).0 ≡ started
unfolding prewarm_staging
starts_again = refl

prewarm_staging-Prewarms_example : Prewarms after_save (prewarm_staging true true true after_save).1
prewarm_staging-Prewarms_example = prewarm_staging-Prewarms true true true after_save starts_again

-- The prewarm fails, and closing the loader raises.
abbrev failing : CheckpointManager
failing = record after_save { prewarm_staging_future = some broken }

abbrev as_it_is : Progress → Progress
as_it_is p = p

closes_all : close as_it_is none failing ≡ (
  future_failed,
  record failing {
    is_closed = true;
    closes = record { saver = true; loader = true; metadata_manager = some true };
  },
)
unfolding close wait_for close_all
closes_all = refl
