-- ===== src/Saver/State.antt =====
-- The state of the asynchronous saver, and what can happen to it: the fields of `AsyncCheckpointSaver`,
-- the futures of the save in flight, the requests of torch_checkpointing/checkpoint_process.py, and the
-- subprocess that serves them.
use torch_checkpointing.Prelude.{ℕ, eqb, Bool, true, false, Option, none, some, List, []}
use torch_checkpointing.Lock.{RwLock, fresh}
use torch_checkpointing.Metadata.Cache.{SaveError, Blob, Manager, Collectives}

-- How a future ended, or that it has not.
pub data Future : Type 0 where
  pending succeeded failed : Future

-- `CheckpointWriteInfo`, as far as delivery is concerned: the metadata that it carries, if any.
-- `expected` is no field of the source: it records what the manager returned for the save.
pub record Request (Content : Type 0) : Type 0 where
  pub path : ℕ
  pub carried : Option (Blob Content)
  pub expected : Option (Blob Content)

-- What has been launched and not finished. `staging r w`: a save is staging, and its write future is
-- `w`; `captured r b w`: staging is over, with success or not, but its callback has not run yet; `writing r b`: the callback has run, and the
-- communication thread is to write; `staging_only`: `stage` is under way.
pub data Flight (Content : Type 0) : Type 0 where
  nothing : Flight Content
  staging : Request Content → Future → Flight Content
  captured : Request Content → Bool → Future → Flight Content
  writing : Request Content → Bool → Flight Content
  staging_only : Flight Content

-- A write that the subprocess made, with the metadata that it used.
pub record Written (Content : Type 0) : Type 0 where
  pub path : ℕ
  pub used : Option (Blob Content)
  pub expected : Option (Blob Content)

-- The subprocess: `metadata_cache[0]`, whether it still serves requests, and what it wrote.
pub record Worker (Content : Type 0) : Type 0 where
  pub metadata_cache : Option (Blob Content)
  pub serving : Bool
  pub log : List (Written Content)

-- `guests` counts the readers that hold `CheckpointManager.lock()`, `strays` the stagings that run
-- although their save raised.
pub record System (Local Layouts Global Content : Type 0) : Type 0 where
  pub staging_lock : RwLock
  pub write_future : Option Future
  pub sent_serialized_metadata : Option (Blob Content)
  pub manager : Option (Manager Local Layouts Global Content)
  pub flight : Flight Content
  pub guests : ℕ
  pub strays : ℕ
  pub worker : Worker Content

-- `a is b` for bytes objects or None
abbrev pub is_same : {Content : Type 0} → Blob Content → Option (Blob Content) → Bool
is_same a none = false
is_same a (some b) = eqb a.object b.object

-- How a call of `save` or `stage` ends; `blocks` if it would wait for ever on `result()`.
pub data Called : Type 0 where
  launched blocks : Called
  raised : SaveError → Called

-- What happens to the launches at the end of `save`: staging is refused; staging runs but the
-- process refuses the write; or both futures run.
pub data Launch : Type 0 where
  stage_raises write_raises both_run : Launch

-- The arguments of a save, and what the environment does in it.
pub record SaveCall (Items Local Global : Type 0) : Type 0 where
  pub path : ℕ
  pub items : Items
  pub validate : Bool
  pub collectives : Collectives Items Local Global
  pub launch : Launch

-- All that can happen: the calls, the ends of what was launched, the readers, and the calls by which the
-- user has the manager forget its metadata or compute it from new items.
pub data Action (Items Local Global : Type 0) : Type 0 where
  do_save : SaveCall Items Local Global → Action Items Local Global
  do_stage staging_ends : Bool → Action Items Local Global
  write_ends : Bool → Bool → Action Items Local Global
  called_back cancel enter leave invalidate : Action Items Local Global
  compute : Collectives Items Local Global → Items → Action Items Local Global

-- `AsyncCheckpointSaver.__init__`, with a new subprocess.
abbrev pub new_system :
    {Local Layouts Global Content : Type 0}
    → Option (Manager Local Layouts Global Content)
    → System Local Layouts Global Content
new_system m = record {
  staging_lock = fresh;
  write_future = none;
  sent_serialized_metadata = none;
  manager = m;
  flight = nothing;
  guests = 0;
  strays = 0;
  worker = record { metadata_cache = none; serving = true; log = [] };
}
