-- ===== src/Lock/Tests.antt =====
-- Runs of the lock, and the theorems at them.
use torch_checkpointing.Prelude.{◌≡◌, refl, true, false, [], ◌∷◌, if◌then◌else◌}
use torch_checkpointing.Lock.{
  RwLock, fresh, Seen, read, write, ticks, refused, granted, acquire, grant, wait_loop, available,
  downgrade,
}
use torch_checkpointing.Lock.Acquire.{AcquireEnds, acquire-AcquireEnds}
use torch_checkpointing.Lock.Threads.{
  Hold, World, start, take_lock, turn_reader, Reach, here, next, reads, writes, tally, holds,
}
use torch_checkpointing.Lock.Threads.Exclusion.{Reach-exclusion, HolderMay, Reach-HolderMay}

abbrev written : RwLock
written = record { readers = 0; writer_active = true }

abbrev first : Seen
first = record { lock = written; now = 100 }

abbrev late : Seen
late = record { lock = written; now = 105 }

abbrev freed : Seen
freed = record { lock = fresh; now = 104 }

times_out : acquire read true (ticks 5) first (late ∷ freed ∷ []) ≡ refused
unfolding acquire wait_loop available grant
times_out = refl

gets_in :
    acquire read true (ticks 5) first (freed ∷ [])
    ≡ granted (record { readers = 1; writer_active = false })
unfolding acquire wait_loop available grant
gets_in = refl

acquire-AcquireEnds_example :
    AcquireEnds write true
      (ticks 5)
      first
      (freed ∷ [])
      (acquire write true (ticks 5) first (freed ∷ []))
acquire-AcquireEnds_example = acquire-AcquireEnds write true (ticks 5) first (freed ∷ [])

-- The second of three threads takes the lock for writing and turns reader.
abbrev w1 : World
w1 = record { lock = written; held = Hold.idle ∷ holds write ∷ Hold.idle ∷ [] }

writer_gets_in : Reach (start 3) w1
unfolding grant available
writer_gets_in = next here (take_lock 1 write refl refl)

abbrev w2 : World
w2 = record {
  lock = record { readers = 1; writer_active = false };
  held = Hold.idle ∷ holds read ∷ Hold.idle ∷ [];
}

reader_gets_in : Reach (start 3) w2
unfolding downgrade
reader_gets_in = next writer_gets_in (turn_reader 1 w2.lock refl refl)

Reach-exclusion_example :
    (1 ≡ tally reads w2.held)
    × (tally writes w2.held ≡ (if false then 1 else 0))
    × (false ≡ true → tally reads w2.held ≡ 0)
Reach-exclusion_example = Reach-exclusion 3 reader_gets_in

Reach-HolderMay_example : HolderMay read w2.lock
Reach-HolderMay_example = Reach-HolderMay 3 1 read reader_gets_in refl
