-- ===== src/Lock.antt =====
-- torch_checkpointing/lock.py: the readers-writer lock and its handles.
-- Every method body runs under `self._cond`, so a method is one function from the lock to the lock.
-- Time is counted in ticks of the monotonic clock. What other threads do while a call waits is a
-- list of the states in which the condition's mutex is taken again, with the clock's reading.
pub mod Acquire
pub mod Threads
mod Tests
use torch_checkpointing.Prelude.{
  ℕ, ◌+◌, ◌-◌, Bool, true, false, not, ◌&&◌, Option, none, some, List, [], ◌∷◌, ltb, leb, eqb,
  if◌then◌else◌,
}

pub data RwLockMode : Type 0 where
  read write : RwLockMode

pub record RwLock : Type 0 where
  pub readers : ℕ
  pub writer_active : Bool

-- `RWLock.__init__`
abbrev pub fresh : RwLock
fresh = record { readers = 0; writer_active = false }

pub data LockError : Type 0 where
  -- the two ValueErrors of `_acquire`
  timeout_of_non_blocking negative_timeout : LockError
  -- the RuntimeErrors of the releases and of `downgrade`
  read_not_held write_not_held downgrade_without_write : LockError

-- A raised error leaves the lock as it is.
pub data Outcome : Type 0 where
  ok : RwLock → Outcome
  err : LockError → Outcome

-- A `timeout` argument: -1, another negative number, or a number of ticks.
pub data Timeout : Type 0 where
  unlimited negative : Timeout
  ticks : ℕ → Timeout

-- How a call of `_acquire` ends; `waiting` when it still waits after the listed wake-ups.
pub data Acquired : Type 0 where
  granted : RwLock → Acquired
  refused : Acquired
  waiting : Acquired
  raised : LockError → Acquired

unfoldable pub read_available : RwLock → Bool
read_available l = not l.writer_active

unfoldable pub grant_read : RwLock → RwLock
grant_read l = record l { readers = l.readers + 1 }

unfoldable pub write_available : RwLock → Bool
write_available l = not l.writer_active && eqb l.readers 0

unfoldable pub grant_write : RwLock → RwLock
grant_write l = record l { writer_active = true }

-- The availability and the grant that a handle passes to `_acquire`.
unfoldable pub available : RwLockMode → RwLock → Bool
unfolding read_available write_available
available read l = read_available l
available write l = write_available l

unfoldable pub grant : RwLockMode → RwLock → RwLock
unfolding grant_read grant_write
grant read l = grant_read l
grant write l = grant_write l

-- What one round of the loop sees: the lock, and the clock.
pub record Seen : Type 0 where
  pub lock : RwLock
  pub now : ℕ

-- `remaining <= 0`
abbrev pub expired : Option ℕ → ℕ → Bool
expired none now = false
expired (some endtime) now = leb endtime now

-- `while not available()`; the wake-ups are what the rounds after each `wait` see.
unfoldable pub wait_loop : RwLockMode → Option ℕ → Seen → List Seen → Acquired
wait_loop mode endtime seen [] =
    if available mode seen.lock
    then granted (grant mode seen.lock)
    else if expired endtime seen.now
    then refused
    else waiting
wait_loop mode endtime seen (w ∷ wakes) =
    let rest = wait_loop mode endtime w wakes in
    if available mode seen.lock
    then granted (grant mode seen.lock)
    else if expired endtime seen.now
    then refused
    else rest

-- `None if timeout < 0 else time.monotonic() + timeout`
abbrev pub endtime_of : Timeout → ℕ → Option ℕ
endtime_of unlimited now = none
endtime_of negative now = none
endtime_of (ticks t) now = some (now + t)

blocking_acquire : RwLockMode → Timeout → Seen → List Seen → Acquired
blocking_acquire mode timeout seen wakes =
    if available mode seen.lock
    then granted (grant mode seen.lock)
    else wait_loop mode (endtime_of timeout seen.now) seen wakes

try_acquire : RwLockMode → RwLock → Acquired
try_acquire mode l = if available mode l then granted (grant mode l) else refused

-- `_acquire`, with its two checks of the arguments.
unfoldable pub acquire : RwLockMode → Bool → Timeout → Seen → List Seen → Acquired
unfolding blocking_acquire try_acquire
acquire mode false unlimited seen wakes = try_acquire mode seen.lock
acquire mode false timeout seen wakes = raised timeout_of_non_blocking
acquire mode true negative seen wakes = raised negative_timeout
acquire mode true timeout seen wakes = blocking_acquire mode timeout seen wakes

unfoldable pub release_read : RwLock → Outcome
release_read l =
    if leb l.readers 0 then err read_not_held else ok (record l { readers = l.readers - 1 })

unfoldable pub release_write : RwLock → Outcome
release_write l =
    if not l.writer_active then err write_not_held else ok (record l { writer_active = false })

unfoldable pub release : RwLockMode → RwLock → Outcome
unfolding release_read release_write
release read l = release_read l
release write l = release_write l

unfoldable pub downgrade : RwLock → Outcome
downgrade l =
    if not l.writer_active
    then err downgrade_without_write
    else ok (record l { writer_active = false; readers = l.readers + 1 })

unfoldable pub locked_mode : RwLock → Option RwLockMode
locked_mode l = if l.writer_active then some write else if ltb 0 l.readers then some read else none
