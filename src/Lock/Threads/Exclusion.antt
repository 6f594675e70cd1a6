-- ===== src/Lock/Threads/Exclusion.antt =====
-- Mutual exclusion, and that a holder's calls do not raise (torch_checkpointing/lock.py).
use torch_checkpointing.Prelude.{
  ℕ, zero, suc, ◌+◌, ◌-◌, ◌≤◌, ◌≡◌, refl, sym, ◌∙◌, true, false, List, [], ◌∷◌, some, arith,
  get_elem?, set, replicate, if◌then◌else◌,
}
use torch_checkpointing.Lock.{
  RwLockMode, read, write, RwLock, ok, fresh, available, grant, release, downgrade, locked_mode,
}
use torch_checkpointing.Lock.Threads.{
  Hold, idle, holds, World, start, Step, take_lock, give_back, turn_reader, Reach, here, next,
  reads, writes, tally,
}

-- The lock's two fields count the threads that hold it.
pub record Agrees (w : World) : Type 0 where
  pub readers : w.lock.readers ≡ tally reads w.held
  pub writers : tally writes w.held ≡ (if w.lock.writer_active then 1 else 0)
  pub apart : w.lock.writer_active ≡ true → w.lock.readers ≡ 0

tally-set :
    (f : Hold → ℕ) (hs : List Hold) (i : ℕ) (old new : Hold)
    → get_elem? hs i ≡ some old
    → tally f (set hs i new) + f old ≡ tally f hs + f new
tally-set f [] i old new e = cc
tally-set f (h ∷ hs) zero old new e = grind arith
tally-set f (h ∷ hs) (suc i) old new e = omega (arith, tally-set f hs i old new e)

Step-Agrees : {w u : World} → Step w u → Agrees w → Agrees u
unfolding available grant release downgrade
Step-Agrees (take_lock {w = w} i read at free) a = ground (
  arith,
  tally-set reads w.held i idle (holds read) at,
  tally-set writes w.held i idle (holds read) at,
)
Step-Agrees (take_lock {w = w} i write at free) a = ground (
  arith,
  tally-set reads w.held i idle (holds write) at,
  tally-set writes w.held i idle (holds write) at,
)
Step-Agrees (give_back {w = w} i read l at done) a = ground (
  arith,
  tally-set reads w.held i (holds read) idle at,
  tally-set writes w.held i (holds read) idle at,
)
Step-Agrees (give_back {w = w} i write l at done) a = ground (
  arith,
  tally-set reads w.held i (holds write) idle at,
  tally-set writes w.held i (holds write) idle at,
)
Step-Agrees (turn_reader {w = w} i l at done) a = ground (
  arith,
  tally-set reads w.held i (holds write) (holds read) at,
  tally-set writes w.held i (holds write) (holds read) at,
)

tally-idle : (f : Hold → ℕ) (n : ℕ) → f idle ≡ 0 → tally f (replicate n idle) ≡ 0
tally-idle f zero h = refl
tally-idle f (suc n) h = omega (arith, tally-idle f n h)

start-Agrees : (threads : ℕ) → Agrees (start threads)
start-Agrees n = ground (arith, tally-idle reads n refl, tally-idle writes n refl)

Reach-Agrees : (threads : ℕ) {w : World} → Reach (start threads) w → Agrees w
Reach-Agrees n here = start-Agrees n
Reach-Agrees n (next r st) = Step-Agrees st (Reach-Agrees n r)

-- In every world that any number of threads reach, the lock counts its holders: `readers` is the
-- number of threads that hold it for reading, exactly one thread holds it for writing if a writer is
-- active and none does otherwise, and nobody reads while a writer is active.
pub Reach-exclusion :
    (threads : ℕ) {w : World}
    → Reach (start threads) w
    → (w.lock.readers ≡ tally reads w.held)
      × (tally writes w.held ≡ (if w.lock.writer_active then 1 else 0))
      × (w.lock.writer_active ≡ true → tally reads w.held ≡ 0)
Reach-exclusion n r =
    let a = Reach-Agrees n r in (a.readers, a.writers, λ on. sym a.readers ∙ a.apart on)

tally-pos :
    (f : Hold → ℕ) (hs : List Hold) (i : ℕ) (h : Hold) → get_elem? hs i ≡ some h → f h ≤ tally f hs
tally-pos f [] i h e = cc
tally-pos f (x ∷ hs) zero h e = grind arith
tally-pos f (x ∷ hs) (suc i) h e = omega (arith, tally-pos f hs i h e)

-- What a thread that holds the lock can count on.
abbrev pub HolderMay : RwLockMode → RwLock → Type 0
HolderMay read l =
    ((l' : RwLock) × (release read l ≡ ok l'))
    × (available read l ≡ true)
    × (available write l ≡ false)
    × (locked_mode l ≡ some read)
HolderMay write l =
    (release write l ≡ ok fresh)
    × (downgrade l ≡ ok (grant read fresh))
    × (available read l ≡ false)
    × (available write l ≡ false)
    × (locked_mode l ≡ some write)

-- In every reachable world, a thread that holds the lock gives it back without an error. While it
-- reads, other readers get in at once, waiting writers or not, and no writer does. While it writes,
-- nobody gets in, `release` leaves the lock free, and `downgrade` leaves it held by one reader.
pub Reach-HolderMay :
    (threads : ℕ) {w : World} (i : ℕ) (mode : RwLockMode)
    → Reach (start threads) w
    → get_elem? w.held i ≡ some (holds mode)
    → HolderMay mode w.lock
unfolding available grant release downgrade locked_mode
Reach-HolderMay n {w} i read r at =
    let a = Reach-Agrees n r in
    (
      (
        record w.lock { readers = w.lock.readers - 1 },
        ground (arith, tally-pos reads w.held i (holds read) at),
      ),
      ground (arith, tally-pos reads w.held i (holds read) at),
      ground (arith, tally-pos reads w.held i (holds read) at),
      ground (arith, tally-pos reads w.held i (holds read) at),
    )
Reach-HolderMay n {w} i write r at =
    let a = Reach-Agrees n r in ground (arith, tally-pos writes w.held i (holds write) at)
