-- ===== src/Writer/Protocol/Atomic/Invariant.antt =====
-- What holds while the ranks write a checkpoint, before and after its rename.
use mathlib.Core.Path.{subst}
use torch_checkpointing.Prelude.{
  ℕ, ◌<◌, ◌≡◌, inl, inr, sym, [], Among, eqb, arith, Bool-cases, string_eq, list_eq, eqb_iff,
}
use torch_checkpointing.Prelude.Dict.{get}
use torch_checkpointing.Storage.{Disk}
use torch_checkpointing.Writer.{SaveItem}
use torch_checkpointing.Writer.Protocol.{Phase, passed, done, Job, World, update, Arrived, planned}
use torch_checkpointing.Writer.Protocol.Atomic.Files.{Stored}
use torch_checkpointing.Writer.Protocol.Atomic.Saved.{HasSaved}

-- Every file of every rank is in the directory, with the content that it shall have.
abbrev pub Whole : Job → Disk → Type 0
Whole job disk =
    (i : ℕ) (a : SaveItem) → i < job.ranks → Among a (planned job i) → Stored job.path disk a

pub none-Among : (a : SaveItem) → Among a [] → ⊥
none-Among a (k, h) = ground arith

pub Arrived-update :
    (phase : ℕ → Phase) (i j : ℕ) (q : Phase)
    → (Arrived (phase i) → Arrived q)
    → Arrived (phase j)
    → Arrived (update phase i q j)
Arrived-update phase i j q on there = elim (Bool-cases (eqb i j)) [
  | inl same ↦ rw same (on (subst (λ k. Arrived (phase k)) (sym ((eqb_iff i j).0 same)) there))
  | inr differ ↦ rw differ there
]

abbrev pub HasPassed : Phase → Type 0
HasPassed passed = Unit
HasPassed done = Unit
HasPassed p = ⊥

module _ (job : Job) where
  -- No rank has anything to write.
  abbrev pub Nothing : Type 0
  Nothing = (i : ℕ) (a : SaveItem) → i < job.ranks → Among a (planned job i) → ⊥

  -- Before the rename.
  pub record Uncommitted (before : Disk) (w : World) : Type 0 where
    pub untouched : get job.path w.disk ≡ get job.path before
    pub each : (i : ℕ) → HasSaved job w.disk i (w.phase i)
    pub together :
        (i : ℕ)
        → i < job.ranks
        → HasPassed (w.phase i)
        → (j : ℕ) → j < job.ranks
        → Arrived (w.phase j)
    pub idle : w.phase 0 ≡ done → Nothing

  -- After it.
  pub record Committed (w : World) : Type 0 where
    pub whole : Whole job w.disk
    pub arrived : (i : ℕ) → i < job.ranks → Arrived (w.phase i)
    pub first_done : w.phase 0 ≡ done

  abbrev pub AllArrived : (ℕ → Phase) → Type 0
  AllArrived phase = (j : ℕ) → j < job.ranks → Arrived (phase j)

  pub together-update :
      (phase : ℕ → Phase) (i : ℕ) (q : Phase)
      → ((k : ℕ) → k < job.ranks → HasPassed (phase k) → AllArrived phase)
      → (Arrived (phase i) → Arrived q)
      → (HasPassed q → AllArrived phase)
      → (k : ℕ) → k < job.ranks
      → HasPassed (update phase i q k)
      → AllArrived (update phase i q)
  together-update phase i q old on new k lt passed' j below =
      Arrived-update phase i j q on (elim (Bool-cases (eqb i k)) [
        | inl same ↦ new (rw same at passed') j below
        | inr differ ↦ old k lt (rw differ at passed') j below
      ])

  pub nothing-update :
      (phase : ℕ → Phase) (i : ℕ) (q : Phase)
      → (phase 0 ≡ done → Nothing)
      → (i ≡ 0 → q ≡ done → Nothing)
      → update phase i q 0 ≡ done
      → Nothing
  nothing-update phase i q old new e = elim (Bool-cases (eqb i 0)) [
    | inl same ↦ new ((eqb_iff i 0).0 same) (rw same at e)
    | inr differ ↦ old (rw differ at e)
  ]
