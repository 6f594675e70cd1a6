-- ===== src/Manager.antt =====
-- `CheckpointManager` of torch_checkpointing/checkpoint_manager.py: its futures, and what its calls do
-- with them. The items, the saver and the stager are chosen by the environment, as arguments.
pub mod Futures
pub mod Close
mod Tests
use torch_checkpointing.Prelude.{not, Bool, true, false, Option, none, some, if◌then◌else◌}

-- How a future stands.
pub data Progress : Type 0 where
  running done broken : Progress

-- Whether `close()` of the saver, the loader and the metadata manager, if there is one, was called.
pub record Closes : Type 0 where
  pub saver : Bool
  pub loader : Bool
  pub metadata_manager : Option Bool

pub record CheckpointManager : Type 0 where
  pub prewarm_staging_future : Option Progress
  pub staging_future : Option Progress
  pub write_future : Option Progress
  pub is_closed : Bool
  pub closes : Closes

-- What `close` closes.
pub data Part : Type 0 where
  the_saver the_loader the_metadata_manager : Part

-- How a call ends.
pub data Reply : Type 0 where
  manager_closed still_active future_failed items_refused saver_raised : Reply
  close_raised : Part → Reply
  started returned : Reply

-- What `self._saver.save` does: it raises, it has saved, or it returns the two futures.
pub data SaverResult : Type 0 where
  raises saved launches : SaverResult

-- The end of `save`, from the items on.
save_items : Bool → SaverResult → CheckpointManager → Reply × CheckpointManager
save_items false r m = (items_refused, m)
save_items true raises m = (saver_raised, m)
save_items true saved m = (returned, record m { staging_future = none; write_future = none })
save_items true launches m =
    (started, record m { staging_future = some running; write_future = some running })

-- `result(timeout=...)` of the prewarm: `running` stands for a timeout.
after_prewarm : Option Progress → Bool → SaverResult → CheckpointManager → Reply × CheckpointManager
after_prewarm none items r m = save_items items r m
after_prewarm (some done) items r m =
    save_items items r (record m { prewarm_staging_future = none })
after_prewarm (some _) items r m = (future_failed, m)

-- `save`; `waited` is how the prewarm ends within the timeout.
unfoldable pub save :
    (Progress → Progress) → Bool → SaverResult → CheckpointManager → Reply × CheckpointManager
unfolding after_prewarm save_items
save waited items r m = if m.is_closed then (manager_closed, m) else elim m.prewarm_staging_future [
  | none ↦ after_prewarm none items r m
  | some p ↦ after_prewarm (some (waited p)) items r m
]

-- What is left of `prewarm_staging` once no future is in the way: whether the items are refused, and
-- whether any is to be copied.
stage_items : Bool → Bool → CheckpointManager → Reply × CheckpointManager
stage_items false any m = (items_refused, m)
stage_items true false m = (returned, m)
stage_items true true m = (started, record m { prewarm_staging_future = some running })

clear_prewarm : Option Progress → Bool → Bool → CheckpointManager → Reply × CheckpointManager
clear_prewarm none items any m = stage_items items any m
clear_prewarm (some running) items any m = (still_active, m)
clear_prewarm (some broken) items any m = (future_failed, m)
clear_prewarm (some done) items any m =
    stage_items items any (record m { prewarm_staging_future = none })

clear_staging : Option Progress → Bool → Bool → CheckpointManager → Reply × CheckpointManager
clear_staging none items any m = clear_prewarm m.prewarm_staging_future items any m
clear_staging (some running) items any m = (still_active, m)
clear_staging (some broken) items any m = (future_failed, m)
clear_staging (some done) items any m =
    clear_prewarm m.prewarm_staging_future items any (record m { staging_future = none })

clear_write : Option Progress → Bool → Bool → CheckpointManager → Reply × CheckpointManager
clear_write none items any m = clear_staging m.staging_future items any m
clear_write (some running) items any m = (still_active, m)
clear_write (some broken) items any m = (future_failed, m)
clear_write (some done) items any m =
    clear_prewarm m.prewarm_staging_future items any
      (record m { write_future = none; staging_future = none })

-- `prewarm_staging`; `has_stager` is whether the saver has a stager.
unfoldable pub prewarm_staging : Bool → Bool → Bool → CheckpointManager → Reply × CheckpointManager
unfolding clear_write clear_staging clear_prewarm stage_items
prewarm_staging has_stager items any m =
    if m.is_closed
    then (manager_closed, m)
    else if not has_stager
    then (returned, m)
    else clear_write m.write_future items any m

-- The waits of `close`: `waited` is how a future ends within the timeout.
unfoldable pub wait_for : (Progress → Progress) → Option Progress → Reply → Reply
wait_for waited none next = next
wait_for waited (some p) next = elim (waited p) [
  | done ↦ next
  | running ↦ future_failed
  | broken ↦ future_failed
]

-- The calls of `close()` in the `finally`, of which `raising` is the part whose call raises. An exception
-- there ends the block, and takes the place of what the waits raised.
unfoldable pub close_all : Option Part → Reply → Closes → Reply × Closes
close_all none reply c = (
  reply,
  record c {
    saver = true;
    loader = true;
    metadata_manager = elim c.metadata_manager [ none ↦ none | some _ ↦ some true ];
  },
)
close_all (some the_saver) reply c = (close_raised the_saver, record c { saver = true })
close_all (some the_loader) reply c =
    (close_raised the_loader, record c { saver = true; loader = true })
close_all (some the_metadata_manager) reply c = elim c.metadata_manager [
  | none ↦ (reply, record c { saver = true; loader = true })
  | some _ ↦ (
    close_raised the_metadata_manager,
    record c { saver = true; loader = true; metadata_manager = some true },
  )
]

closed_with : CheckpointManager → Reply × Closes → Reply × CheckpointManager
closed_with m (reply, c) = (reply, record m { is_closed = true; closes = c })

unfoldable pub close :
    (Progress → Progress) → Option Part → CheckpointManager → Reply × CheckpointManager
unfolding wait_for close_all closed_with
close waited raising m =
    if m.is_closed
    then (returned, m)
    else closed_with m (
        close_all raising
          (wait_for waited m.prewarm_staging_future (wait_for waited m.write_future returned))
          m.closes)
