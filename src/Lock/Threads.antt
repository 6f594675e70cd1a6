-- ===== src/Lock/Threads.antt =====
-- Any number of threads that take and give back one lock of torch_checkpointing/lock.py, as its
-- handles do: a thread gives back only what it holds, and takes nothing while it holds.
pub mod Exclusion
use torch_checkpointing.Prelude.{ℕ, ◌+◌, ◌≡◌, true, List, [], ◌∷◌, some, get_elem?, set, replicate}
use torch_checkpointing.Lock.{
  RwLockMode, read, write, RwLock, ok, fresh, available, grant, release, downgrade,
}

pub data Hold : Type 0 where
  idle : Hold
  holds : RwLockMode → Hold

pub record World : Type 0 where
  pub lock : RwLock
  pub held : List Hold

abbrev pub start : ℕ → World
start threads = record { lock = fresh; held = replicate threads idle }

-- A thread takes the lock in the round of `_acquire` in which it sees it available; rounds in which
-- it waits or gives up change nothing.
pub data Step : World → World → Type 0 where
  take_lock :
      {w : World} (i : ℕ) (mode : RwLockMode)
      → get_elem? w.held i ≡ some idle
      → available mode w.lock ≡ true
      → Step w (record { lock = grant mode w.lock; held = set w.held i (holds mode) })
  give_back :
      {w : World} (i : ℕ) (mode : RwLockMode) (l : RwLock)
      → get_elem? w.held i ≡ some (holds mode)
      → release mode w.lock ≡ ok l
      → Step w (record { lock = l; held = set w.held i idle })
  turn_reader :
      {w : World} (i : ℕ) (l : RwLock)
      → get_elem? w.held i ≡ some (holds write)
      → downgrade w.lock ≡ ok l
      → Step w (record { lock = l; held = set w.held i (holds read) })

pub data Reach (s : World) : World → Type 0 where
  here : Reach s s
  next : {t u : World} → Reach s t → Step t u → Reach s u

abbrev pub reads : Hold → ℕ
reads (holds read) = 1
reads _ = 0

abbrev pub writes : Hold → ℕ
writes (holds write) = 1
writes _ = 0

abbrev pub tally : (Hold → ℕ) → List Hold → ℕ
tally f [] = 0
tally f (h ∷ hs) = f h + tally f hs
