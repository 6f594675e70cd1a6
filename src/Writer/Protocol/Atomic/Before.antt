-- ===== src/Writer/Protocol/Atomic/Before.antt =====
-- Every step of a rank before the rename, and the rename itself.
use mathlib.Core.Path.{subst}
use torch_checkpointing.Prelude.{
  ℕ, zero, suc, ◌<◌, ◌≡◌, ◌≢◌, ◌⊎◌, inl, inr, refl, sym, ap, ◌∙◌, true, false, ◌&&◌, some, List, [],
  ◌∷◌, ◌++◌, get_elem?, Among, eqb, arith, Bool-cases, string_eq, list_eq, eqb_iff,
}
use torch_checkpointing.Prelude.Result.{ok}
use torch_checkpointing.Prelude.Dict.{get}
use torch_checkpointing.Storage.{Disk, write_file, exists, rename}
use torch_checkpointing.Writer.{has_barrier, SaveItem, prepare_save_dirs, commit}
use torch_checkpointing.Writer.Protocol.{
  Phase, starting, writing, keys_written, saved, waiting, passed, done, remove_at, Job, World,
  update, Arrived, dir, keys_of, metadata_of, planned, pending, write_all, write_item, WriteStep,
  start_keys, write_key, write_part, end_keys, write_metadata, arrive, pass, finish,
}
use torch_checkpointing.Writer.Protocol.Atomic.Files.{
  Stored, write_file-others, prepare_save_dirs-others, prepare_save_dirs-Stored, rename-Stored,
  Stored-exists,
}
use torch_checkpointing.Writer.Protocol.Atomic.Saved.{
  IsDistinct, remove_at-Among, Among-remove_at, Among-append, wrote-each, part-each, moved-each,
  Arrived-pending, write_all-written, metadata_items-cases,
}
use torch_checkpointing.Writer.Protocol.Atomic.Invariant.{
  none-Among, HasPassed, Nothing, Uncommitted, Committed, Arrived-update, AllArrived,
  together-update, nothing-update,
}

module _ (job : Job) (distinct : IsDistinct job) (other : dir job ≢ job.path)
    (staged : job.config.write_to_temp_dir ≡ true) (barrier : has_barrier job.config ≡ true)
    (before : Disk) where
  -- A rank goes on without a change of what is stored or pending.
  moves :
      (disk' : Disk) (w : World) (i : ℕ) (p q : Phase)
      → Uncommitted job before w
      → get job.path disk' ≡ get job.path w.disk
      → ((a : SaveItem) → Stored (dir job) w.disk a → Stored (dir job) disk' a)
      → w.phase i ≡ p
      → pending job i q ≡ pending job i p
      → (Arrived p → Arrived q)
      → (HasPassed q → AllArrived job w.phase)
      → (i ≡ 0 → q ≡ done → Nothing job)
      → Uncommitted job before (record { disk = disk'; phase = update w.phase i q })
  moves disk' w i p q u same keeps at files on new ends = record {
    idle = nothing-update job w.phase i q u.idle ends;
    untouched = same ∙ u.untouched;
    each = moved-each job distinct w.disk disk' w.phase i p q u.each keeps at files;
    together = together-update job w.phase i q u.together (rw at on) new;
  }

  -- A rank that has not arrived writes a file in full.
  writes :
      (disk' : Disk) (w : World) (i : ℕ) (q : Phase) (item : SaveItem) (content : List ℕ)
      → Uncommitted job before w
      → Among item (planned job i)
      → item.content ≡ ok content
      → write_file (dir job) item.file content w.disk ≡ ok disk'
      → ((a : SaveItem)
          → Among a (pending job i (w.phase i))
          → Among a (pending job i q) ⊎ (a ≡ item))
      → ((a : SaveItem) → Among a (pending job i q) → Among a (planned job i))
      → (Arrived (w.phase i) → ⊥)
      → (HasPassed q → ⊥)
      → Uncommitted job before (record { disk = disk'; phase = update w.phase i q })
  writes disk' w i q item content u mine full wrote fewer within early late = record {
    untouched =
        write_file-others (dir job) w.disk disk' item.file content wrote job.path other
        ∙ u.untouched;
    each =
        wrote-each job distinct w.disk disk' w.phase i q item content u.each mine full wrote fewer
          within;
    together =
        together-update job w.phase i q u.together (λ h. absurd (early h)) (λ h. absurd (late h));
    idle =
        nothing-update job w.phase i q u.idle
          (λ first e. absurd (late (subst HasPassed (sym e) tt)));
  }

  metadata-Uncommitted :
      (w : World) (i : ℕ) (disk' : Disk)
      → Uncommitted job before w
      → w.phase i ≡ keys_written
      → (metadata_of job i ≡ []) ⊎ ((item : SaveItem) × (metadata_of job i ≡ item ∷ []))
      → write_all job (metadata_of job i) w.disk ≡ some disk'
      → Uncommitted job before (record { disk = disk'; phase = update w.phase i saved })
  metadata-Uncommitted w i disk' u at (inl none') wrote =
      let written : write_all job [] w.disk ≡ some disk' = rw none' at wrote in
      let same : w.disk ≡ disk' = cc in
      moves disk' w i keys_written saved u (ap (get job.path) (sym same))
        (λ a there. subst (λ d. Stored (dir job) d a) same there) at (sym none') (λ h. absurd h)
        (λ h. absurd h) (λ first e. cc)
  metadata-Uncommitted w i disk' u at (inr (item, one)) wrote =
      let (content, after, full, done', rest) =
        write_all-written job distinct item [] w.disk (rw one at wrote) in
      let same : after ≡ disk' = cc in
      let mine : Among item (metadata_of job i) = rw one (0, refl) in
      writes disk' w i saved item content u ((u.each i).left item (rw at mine)) full
        (rw same at done') (λ a h. only a (rw (at, one) at h)) (λ a h. absurd (none-Among a h))
        (λ h. rw at at h) (λ h. h)
    where
      only : (a : SaveItem) → Among a (item ∷ []) → Among a [] ⊎ (a ≡ item)
      only a (zero, f) = inr (ground arith)
      only a (suc m, f) = inl (m, f)

  key-Uncommitted :
      (w : World) (i k : ℕ) (left : List SaveItem) (item : SaveItem) (disk' : Disk)
      → Uncommitted job before w
      → w.phase i ≡ writing left
      → get_elem? left k ≡ some item
      → write_item job item w.disk ≡ some disk'
      → Uncommitted job before
          (record { disk = disk'; phase = update w.phase i (writing (remove_at left k)) })
  key-Uncommitted w i k left item disk' u at there wrote =
      let (content, after, full, done', rest) =
        write_all-written job distinct item [] w.disk wrote in
      let same : after ≡ disk' = cc in
      let within =
        λ (a : SaveItem) (h : Among a (left ++ metadata_of job i)). (u.each i).left a (rw at h) in
      writes disk' w i (writing (remove_at left k)) item content u
        (within item (Among-append left (metadata_of job i) k item there)) full (rw same at done')
        (λ a h. remove_at-Among left (metadata_of job i) k item a there (rw at at h))
        (λ a h. within a (Among-remove_at left (metadata_of job i) k a h)) (λ h. rw at at h)
        (λ h. h)

  -- Nobody is left with a file to write when a rank has passed the barrier.
  passed-Stored :
      (w : World) (i : ℕ)
      → Uncommitted job before w
      → i < job.ranks
      → HasPassed (w.phase i)
      → (j : ℕ) (a : SaveItem) → j < job.ranks
      → Among a (planned job j)
      → Stored (dir job) w.disk a
  passed-Stored w i u lt over j a below theirs = elim ((u.each j).kept a theirs) [
    | inr there ↦ there
    | inl later ↦ absurd (
        none-Among a
          (rw (Arrived-pending job distinct j (w.phase j) (u.together i lt over j below)) at later))
  ]

  -- A rank that does not rename leaves the disk alone.
  pub commit-cases :
      (i : ℕ) (disk disk' : Disk)
      → commit job.config i job.path disk ≡ ok disk'
      → ((i ≡ 0) × (rename (dir job) job.path disk ≡ ok disk'))
        ⊎ ((disk' ≡ disk) × (i ≡ 0 → exists (dir job) disk ≡ false))
  unfolding commit
  commit-cases i disk disk' h = elim (Bool-cases (exists (dir job) disk && eqb i 0)) [
    | inl moved ↦ inl (ground (arith, eqb_iff i 0), ground arith)
    | inr stays ↦ inr (ground arith, λ first. ground (arith, eqb_iff i 0))
  ]

  finish-WriteStep :
      (w : World) (i : ℕ) (disk' : Disk)
      → Uncommitted job before w
      → i < job.ranks
      → w.phase i ≡ passed
      → commit job.config i job.path w.disk ≡ ok disk'
      → Uncommitted job before (record { disk = disk'; phase = update w.phase i done })
        ⊎ Committed job (record { disk = disk'; phase = update w.phase i done })
  finish-WriteStep w i disk' u lt at ended =
      let all = u.together i lt (rw at tt) in
      elim (commit-cases i w.disk disk' ended) [
        | inl (first, renamed) ↦ inr (record {
          whole = λ j a below theirs.
              rename-Stored (dir job) job.path w.disk disk' renamed a
                (passed-Stored w i u lt (rw at tt) j a below theirs);
          arrived = λ j below. Arrived-update w.phase i j done (λ h. tt) (all j below);
          first_done = rw first (ground (arith, eqb_iff i 0));
        })
        | inr (same, absent) ↦ inl (
            moves disk' w i passed done u (ap (get job.path) same)
              (λ a there. subst (λ d. Stored (dir job) d a) (sym same) there) at refl (λ h. tt)
              (λ h. all)
              (λ first e j a below theirs.
                Stored-exists (dir job) w.disk a
                  (passed-Stored w i u lt (rw at tt) j a below theirs) (absent first)))
      ]

  pub step_atomic :
      {w v : World}
      → Uncommitted job before w
      → WriteStep job w v
      → Uncommitted job before v ⊎ Committed job v
  step_atomic {w} u (start_keys i lt at) = inl (
      moves (prepare_save_dirs (keys_of job i) (dir job) w.disk) w i starting
        (writing (keys_of job i)) u
        (prepare_save_dirs-others (keys_of job i) (dir job) job.path w.disk other)
        (prepare_save_dirs-Stored (keys_of job i) (dir job) w.disk) at refl (λ h. h) (λ h. absurd h)
        (λ first e. cc))
  step_atomic {w} u (write_key i k left item disk' lt at here' wrote) =
      inl (key-Uncommitted w i k left item disk' u at here' wrote)
  step_atomic {w} u (write_part i item part disk' lt open' wrote) = inl (record {
    untouched =
        write_file-others (dir job) w.disk disk' item.file part wrote job.path other ∙ u.untouched;
    each = part-each job distinct w.disk disk' w.phase i item part u.each open' wrote;
    together = u.together;
    idle = u.idle;
  })
  step_atomic {w} u (end_keys i lt at) = inl (
      moves w.disk w i (writing []) keys_written u refl (λ a h. h) at refl (λ h. h) (λ h. absurd h)
        (λ first e. cc))
  step_atomic {w} u (write_metadata i disk' lt at wrote) = inl (
      metadata-Uncommitted w i disk' u at
        (metadata_items-cases job distinct i (job.info i).serialized_distributed_metadata) wrote)
  step_atomic {w} u (arrive i lt at) = inl (
      moves w.disk w i saved waiting u refl (λ a h. h) at refl (λ h. tt) (λ h. absurd h)
        (λ first e. cc))
  step_atomic {w} u (pass i lt at all) = inl (
      moves w.disk w i waiting passed u refl (λ a h. h) at refl (λ h. tt) (λ h. all barrier)
        (λ first e. cc))
  step_atomic {w} u (finish i disk' lt at ended) = finish-WriteStep w i disk' u lt at ended
