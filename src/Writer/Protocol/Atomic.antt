-- ===== src/Writer/Protocol/Atomic.antt =====
-- The final directory of a checkpoint holds what it held before, or the whole checkpoint.
pub mod Before
pub mod Files
pub mod Invariant
pub mod Saved
use mathlib.Core.Path.{subst}
use torch_checkpointing.Prelude.{
  ℕ, zero, suc, ◌<◌, ◌≡◌, ◌≢◌, ◌⊎◌, inl, inr, refl, sym, ap, ◌∙◌, Bool, true, false, ◌&&◌, Option,
  none, some, String, List, [], ◌∷◌, ◌++◌, get_elem?, Among, eqb, if◌then◌else◌, arith, Bool-cases,
  ◌==◌, string_eq, list_eq, eqb_iff,
}
use torch_checkpointing.Prelude.Result.{Result, ok, err, Result-cases}
use torch_checkpointing.Prelude.Dict.{get}
use torch_checkpointing.Storage.{Disk, write_file, exists, rename}
use torch_checkpointing.Writer.{
  CheckpointWriterConfig, validated_config, has_barrier, SaveItem, prepare_save_dirs, commit,
  target_dir, metadata_items, metadata_file_name,
}
use torch_checkpointing.Writer.Protocol.{
  Phase, starting, writing, keys_written, saved, waiting, passed, done, remove_at, Job, World,
  update, Arrived, dir, keys_of, metadata_of, planned, pending, write_all, write_item, WriteStep,
  start_keys, write_key, write_part, end_keys, write_metadata, arrive, pass, finish, WriteRun, here,
  next,
}
use torch_checkpointing.Writer.Protocol.Atomic.Files.{
  Stored, write_file-others, write_file-Stored_own, write_file-Stored, prepare_save_dirs-others,
  prepare_save_dirs-Stored, rename-Stored, Stored-exists,
}
use torch_checkpointing.Writer.Valid.{validated_config-has_barrier, target_dir-ne}
use torch_checkpointing.Writer.Protocol.Atomic.Saved.{
  IsDistinct, HasSaved, remove_at-Among, Among-remove_at, Among-append, wrote-each, part-each,
  moved-each, Arrived-pending, write_all-written, metadata_items-cases,
}
use torch_checkpointing.Writer.Protocol.Atomic.Invariant.{
  Whole, none-Among, HasPassed, Nothing, Uncommitted, Committed, Arrived-update, AllArrived,
  together-update, nothing-update,
}
use torch_checkpointing.Writer.Protocol.Atomic.Before.{commit-cases, step_atomic}

passed-ne-done : passed ≢ done
passed-ne-done e = cc

module _ (job : Job) (distinct : IsDistinct job) (other : dir job ≢ job.path)
    (staged : job.config.write_to_temp_dir ≡ true) (barrier : has_barrier job.config ≡ true)
    (before : Disk) where
  -- After the rename the disk stays as it is.
  stays-Committed :
      (w : World) (i : ℕ) (p q : Phase) (disk' : Disk)
      → Committed job w
      → disk' ≡ w.disk
      → w.phase i ≡ p
      → p ≢ done
      → Arrived q
      → Committed job (record { disk = disk'; phase = update w.phase i q })
  stays-Committed w i p q disk' c same at early on = record {
    whole =
        λ j a below theirs. subst (λ d. Stored job.path d a) (sym same) (c.whole j a below theirs);
    arrived = λ j below. Arrived-update w.phase i j q (λ h. on) (c.arrived j below);
    first_done = elim (Bool-cases (eqb i 0)) [
      | inl first ↦ absurd (early (sym at ∙ ap w.phase ((eqb_iff i 0).0 first) ∙ c.first_done))
      | inr later ↦ rw later c.first_done
    ];
  }

  WriteStep-Committed : {w v : World} → Committed job w → WriteStep job w v → Committed job v
  WriteStep-Committed {w} c (start_keys i lt at) = absurd (rw at at (c.arrived i lt))
  WriteStep-Committed {w} c (write_key i k left item disk' lt at here' wrote) =
      absurd (rw at at (c.arrived i lt))
  WriteStep-Committed {w} c (write_part i item part disk' lt open' wrote) =
      absurd (
        none-Among item (rw (Arrived-pending job distinct i (w.phase i) (c.arrived i lt)) at open'))
  WriteStep-Committed {w} c (end_keys i lt at) = absurd (rw at at (c.arrived i lt))
  WriteStep-Committed {w} c (write_metadata i disk' lt at wrote) =
      absurd (rw at at (c.arrived i lt))
  WriteStep-Committed {w} c (arrive i lt at) = absurd (rw at at (c.arrived i lt))
  WriteStep-Committed {w} c (pass i lt at all) =
      stays-Committed w i waiting passed w.disk c refl at (λ e. cc) tt
  WriteStep-Committed {w} c (finish i disk' lt at ended) =
      stays-Committed w i passed done disk' c
        (kept (commit-cases job distinct other staged barrier before i w.disk disk' ended)) at
        (λ e. cc) tt
    where
      kept :
          ((i ≡ 0) × (rename (dir job) job.path w.disk ≡ ok disk'))
            ⊎ ((disk' ≡ w.disk) × (i ≡ 0 → exists (dir job) w.disk ≡ false))
          → disk' ≡ w.disk
      kept (inl (first, renamed)) =
          absurd (passed-ne-done (sym at ∙ ap w.phase first ∙ c.first_done))
      kept (inr (same, _)) = same

  run_atomic : {w : World} → WriteRun job before w → Uncommitted job before w ⊎ Committed job w
  run_atomic here = inl (record {
    untouched = refl;
    each = λ i. record { left = λ a h. h; kept = λ a theirs. inl theirs };
    together = λ i lt h. absurd h;
    idle = λ e. cc;
  })
  run_atomic (next r st) = elim (run_atomic r) [
    | inl u ↦ step_atomic job distinct other staged barrier before u st
    | inr c ↦ inr (WriteStep-Committed c st)
  ]

-- Let a configuration be accepted by `__post_init__` and ask for a temporary directory, and let no two
-- ranks write a file of one path and no rank two different ones. Then in every state that any
-- interleaving of the ranks reaches from any disk, with ranks that stop anywhere and files that are
-- written in part, the final directory is as it was at the start, or it holds every file of every
-- rank, the metadata among them, with the whole of the content that it shall have; and it does when the
-- first rank has come to the end of `write`.
pub WriteRun-atomic :
    (job : Job) (c : CheckpointWriterConfig) (before : Disk) {w : World}
    → validated_config c ≡ ok job.config
    → job.config.write_to_temp_dir ≡ true
    → IsDistinct job
    → WriteRun job before w
    → ((get job.path w.disk ≡ get job.path before) ⊎ Whole job w.disk)
      × (w.phase 0 ≡ done → Whole job w.disk)
WriteRun-atomic job c before {w} valid staged distinct r =
    elim (run_atomic job distinct (target_dir-ne c job.config job.path valid staged) staged
      (validated_config-has_barrier c job.config valid staged).0 before r) [
        | inl u ↦ (inl u.untouched, λ e i a below theirs. absurd (u.idle e i a below theirs))
        | inr c' ↦ (inr c'.whole, λ e. c'.whole)
      ]
