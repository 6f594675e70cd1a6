-- ===== src/Writer/Protocol.antt =====
-- All ranks of a role in `write` of torch_checkpointing/checkpoint_writer.py, in any interleaving. A rank that
-- raises takes no further step. The callbacks and the barrier do not touch the disk.
pub mod Atomic
use mathlib.Core.List.{append-nil}
use torch_checkpointing.Prelude.{
  ℕ, zero, suc, ◌<◌, ◌≡◌, ◌⊎◌, Bool, true, false, Option, none, some, String, List, [], ◌∷◌, ◌++◌,
  get_elem?, Among, eqb, if◌then◌else◌,
}
use torch_checkpointing.Prelude.Result.{Result, ok, err}
use torch_checkpointing.Storage.{Bytes, FilePath, Disk, write_file}
use torch_checkpointing.Writer.{
  CheckpointWriterConfig, has_barrier, target_dir, SaveItem, Serializers, WriteInfo, items_of,
  metadata_items, prepare_save_dirs, commit,
}

-- Where a rank stands in `write`.
pub data Phase : Type 0 where
  starting : Phase
  writing : (left : List SaveItem) → Phase  -- in `_write_keys`
  keys_written : Phase
  saved : Phase  -- before the barrier
  waiting : Phase  -- in the barrier
  passed : Phase
  done : Phase

abbrev pub remove_at {ℓ} : {A : Type ℓ} → List A → ℕ → List A
remove_at [] i = []
remove_at (x ∷ xs) zero = xs
remove_at (x ∷ xs) (suc i) = x ∷ remove_at xs i

-- One call of `write` on each of `ranks` ranks, by their rank in the role.
pub record Job : Type 0 where
  pub config : CheckpointWriterConfig
  pub path : FilePath
  pub ranks : ℕ
  pub info : ℕ → WriteInfo
  pub str_of : ℕ → String
  pub serializers : Serializers

pub record World : Type 0 where
  pub disk : Disk
  pub phase : ℕ → Phase

abbrev pub update : (ℕ → Phase) → ℕ → Phase → ℕ → Phase
update phase i p j = if eqb i j then p else phase j

abbrev pub Arrived : Phase → Type 0
Arrived starting = ⊥
Arrived (writing left) = ⊥
Arrived keys_written = ⊥
Arrived saved = ⊥
Arrived p = Unit

module _ (job : Job) where
  abbrev pub dir : FilePath
  dir = target_dir job.config job.path

  abbrev pub keys_of : ℕ → List SaveItem
  keys_of i = items_of job.str_of job.serializers (job.info i)

  abbrev pub metadata_of : ℕ → List SaveItem
  metadata_of i = metadata_items i (job.info i).serialized_distributed_metadata

  -- All files of a rank, and those that it has still to write.
  abbrev pub planned : ℕ → List SaveItem
  planned i = keys_of i ++ metadata_of i

  abbrev pub pending : ℕ → Phase → List SaveItem
  pending i starting = planned i
  pending i (writing left) = left ++ metadata_of i
  pending i keys_written = metadata_of i
  pending i _ = []

  -- `_write_metadata` on what there is to write.
  abbrev pub write_all : List SaveItem → Disk → Option Disk
  write_all [] disk = some disk
  write_all (item ∷ items) disk = elim item.content [
    | err e ↦ none
    | ok content ↦ elim (write_file dir item.file content disk) [
      | err e ↦ none
      | ok disk' ↦ write_all items disk'
    ]
  ]

  abbrev pub write_item : SaveItem → Disk → Option Disk
  write_item item disk = write_all (item ∷ []) disk

  pub data WriteStep (w : World) : World → Type 0 where
    start_keys :
        (i : ℕ)
        → i < job.ranks
        → w.phase i ≡ starting
        → WriteStep w (record {
          disk = prepare_save_dirs (keys_of i) dir w.disk;
          phase = update w.phase i (writing (keys_of i));
        })
    -- The threads of the pool write the files in any order.
    write_key :
        (i k : ℕ) (left : List SaveItem) (item : SaveItem) (disk' : Disk)
        → i < job.ranks
        → w.phase i ≡ writing left
        → get_elem? left k ≡ some item
        → write_item item w.disk ≡ some disk'
        → WriteStep w
            (record { disk = disk'; phase = update w.phase i (writing (remove_at left k)) })
    -- A file that is being written, or whose writing has failed, holds anything.
    write_part :
        (i : ℕ) (item : SaveItem) (part : Bytes) (disk' : Disk)
        → i < job.ranks
        → Among item (pending i (w.phase i))
        → write_file dir item.file part w.disk ≡ ok disk'
        → WriteStep w (record { disk = disk'; phase = w.phase })
    end_keys :
        (i : ℕ)
        → i < job.ranks
        → w.phase i ≡ writing []
        → WriteStep w (record { disk = w.disk; phase = update w.phase i keys_written })
    write_metadata :
        (i : ℕ) (disk' : Disk)
        → i < job.ranks
        → w.phase i ≡ keys_written
        → write_all (metadata_of i) w.disk ≡ some disk'
        → WriteStep w (record { disk = disk'; phase = update w.phase i saved })
    arrive :
        (i : ℕ)
        → i < job.ranks
        → w.phase i ≡ saved
        → WriteStep w (record { disk = w.disk; phase = update w.phase i waiting })
    -- A barrier lets a rank pass when all have arrived; without one, nothing holds it up.
    pass :
        (i : ℕ)
        → i < job.ranks
        → w.phase i ≡ waiting
        → (has_barrier job.config ≡ true → (j : ℕ) → j < job.ranks → Arrived (w.phase j))
        → WriteStep w (record { disk = w.disk; phase = update w.phase i passed })
    finish :
        (i : ℕ) (disk' : Disk)
        → i < job.ranks
        → w.phase i ≡ passed
        → commit job.config i job.path w.disk ≡ ok disk'
        → WriteStep w (record { disk = disk'; phase = update w.phase i done })

  pub data WriteRun (disk : Disk) : World → Type 0 where
    here : WriteRun disk (record { disk = disk; phase = λ i. starting })
    next : {w u : World} → WriteRun disk w → WriteStep w u → WriteRun disk u
