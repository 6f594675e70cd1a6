-- ===== src/Lock/Acquire.antt =====
-- `_acquire` of torch_checkpointing/lock.py, whatever the other threads do while it waits.
use torch_checkpointing.Prelude.{
  ℕ, ◌+◌, ◌≤◌, ◌≡◌, ◌≢◌, refl, Bool, true, false, Option, List, [], ◌∷◌, arith, inl, inr, ◌⊎◌, All,
  Among, Bool-cases, leb→le, suc,
}
use torch_checkpointing.Lock.{
  RwLockMode, blocking_acquire, try_acquire, Timeout, unlimited, negative, ticks, Acquired, granted,
  refused, waiting, raised, Seen, available, grant, expired, endtime_of, wait_loop, acquire,
  negative_timeout, timeout_of_non_blocking,
}

module _ (mode : RwLockMode) (endtime : Option ℕ) where
  -- Why the loop ended as it did.
  abbrev LoopEnds : List Seen → Acquired → Type 0
  LoopEnds seen (granted l) =
      (s : Seen) × Among s seen × (available mode s.lock ≡ true) × (l ≡ grant mode s.lock)
  LoopEnds seen refused =
      (s : Seen) × Among s seen × (available mode s.lock ≡ false) × (expired endtime s.now ≡ true)
  LoopEnds seen waiting =
      All (λ s. (available mode s.lock ≡ false) × (expired endtime s.now ≡ false)) seen
  LoopEnds seen (raised e) = ⊥

  LoopEnds-later :
      (s : Seen) (seen : List Seen) (r : Acquired)
      → available mode s.lock ≡ false
      → expired endtime s.now ≡ false
      → LoopEnds seen r
      → LoopEnds (s ∷ seen) r
  LoopEnds-later s seen (granted l) u x (t, (i, at), rest, e) = (t, (suc i, at), rest, e)
  LoopEnds-later s seen refused u x (t, (i, at), rest, e) = (t, (suc i, at), rest, e)
  LoopEnds-later s seen waiting u x h = ((u, x), h)
  LoopEnds-later s seen (raised e) u x h = h

  wait_loop-LoopEnds :
      (s : Seen) (wakes : List Seen) → LoopEnds (s ∷ wakes) (wait_loop mode endtime s wakes)
  unfolding wait_loop
  wait_loop-LoopEnds s [] = elim (Bool-cases (available mode s.lock)) [
    | inl a ↦ rw a (s, (0, refl), a, refl)
    | inr u ↦ rw u (elim (Bool-cases (expired endtime s.now)) [
      | inl x ↦ rw x (s, (0, refl), u, x)
      | inr n ↦ rw n ((u, n), tt)
    ])
  ]
  wait_loop-LoopEnds s (w ∷ wakes) = elim (Bool-cases (available mode s.lock)) [
    | inl a ↦ rw a (s, (0, refl), a, refl)
    | inr u ↦ rw u (elim (Bool-cases (expired endtime s.now)) [
      | inl x ↦ rw x (s, (0, refl), u, x)
      | inr n ↦ rw n (LoopEnds-later s (w ∷ wakes) _ u n (wait_loop-LoopEnds w wakes))
    ])
  ]

-- Why a call of `acquire` gives up at `s`.
abbrev pub GivesUp : Bool → Timeout → Seen → Seen → Type 0
GivesUp blocking timeout first s =
    (blocking ≡ false) ⊎ ((t : ℕ) × (timeout ≡ ticks t) × (first.now + t ≤ s.now))

-- How a call ends: with the lock as one of the states that it saw, in which it was available, makes
-- it; without it, at a state in which it was not available and at which the call gives up; or, if it
-- blocks, still waiting, after states in none of which it was available.
abbrev pub AcquireEnds : RwLockMode → Bool → Timeout → Seen → List Seen → Acquired → Type 0
AcquireEnds mode blocking timeout first wakes (granted l) =
    (s : Seen) × Among s (first ∷ wakes) × (available mode s.lock ≡ true) × (l ≡ grant mode s.lock)
AcquireEnds mode blocking timeout first wakes refused =
    (s : Seen) × Among s (first ∷ wakes)
    × (available mode s.lock ≡ false)
    × GivesUp blocking timeout first s
AcquireEnds mode blocking timeout first wakes waiting =
    (blocking ≡ true) × All (λ s. available mode s.lock ≡ false) (first ∷ wakes)
AcquireEnds mode blocking timeout first wakes (raised e) =
    ((blocking ≡ false) × (timeout ≢ unlimited) × (e ≡ timeout_of_non_blocking))
    ⊎ ((blocking ≡ true) × (timeout ≡ negative) × (e ≡ negative_timeout))

All-fst {ℓ} : {A : Type ℓ} (P Q : A → Type 0) (l : List A) → All (λ a. P a × Q a) l → All P l
All-fst P Q [] h = tt
All-fst P Q (x ∷ l) h = (h.0.0, All-fst P Q l h.1)

AcquireEnds-of_LoopEnds :
    (mode : RwLockMode) (timeout : Timeout) (first : Seen) (wakes : List Seen) (r : Acquired)
    → LoopEnds mode (endtime_of timeout first.now) (first ∷ wakes) r
    → AcquireEnds mode true timeout first wakes r
AcquireEnds-of_LoopEnds mode timeout first wakes (granted l) h = h
AcquireEnds-of_LoopEnds mode unlimited first wakes refused (s, at, u, x) = cc
AcquireEnds-of_LoopEnds mode negative first wakes refused (s, at, u, x) = cc
AcquireEnds-of_LoopEnds mode (ticks t) first wakes refused (s, at, u, x) =
    (s, at, u, inr (t, refl, leb→le _ _ x))
AcquireEnds-of_LoopEnds mode timeout first wakes waiting h = (refl, All-fst _ _ (first ∷ wakes) h)
AcquireEnds-of_LoopEnds mode timeout first wakes (raised e) h = absurd h

blocking_acquire-AcquireEnds :
    (mode : RwLockMode) (timeout : Timeout) (first : Seen) (wakes : List Seen)
    → AcquireEnds mode true timeout first wakes (blocking_acquire mode timeout first wakes)
unfolding blocking_acquire
blocking_acquire-AcquireEnds mode timeout first wakes =
    elim (Bool-cases (available mode first.lock)) [
      | inl a ↦ rw a (first, (0, refl), a, refl)
      | inr u ↦ rw u (
          AcquireEnds-of_LoopEnds mode timeout first wakes _
            (wait_loop-LoopEnds mode _ first wakes))
    ]

try_acquire-AcquireEnds :
    (mode : RwLockMode) (first : Seen) (wakes : List Seen)
    → AcquireEnds mode false unlimited first wakes (try_acquire mode first.lock)
unfolding try_acquire
try_acquire-AcquireEnds mode first wakes = elim (Bool-cases (available mode first.lock)) [
  | inl a ↦ rw a (first, (0, refl), a, refl)
  | inr u ↦ rw u (first, (0, refl), u, inl refl)
]

-- Every call of `acquire`, in either mode, ends in one of four ways. It gets the lock, which is then
-- as its grant makes one of the states that the call saw, in which the lock was available. It is
-- refused, having seen the lock not available, and then it does not block or its timeout has passed.
-- It still waits, and then it blocks and none of the states was available. Or it raises the error of
-- a timeout given to a call that does not block, or of a negative timeout.
pub acquire-AcquireEnds :
    (mode : RwLockMode) (blocking : Bool) (timeout : Timeout) (first : Seen) (wakes : List Seen)
    → AcquireEnds mode blocking timeout first wakes (acquire mode blocking timeout first wakes)
unfolding acquire
acquire-AcquireEnds mode false unlimited first wakes = try_acquire-AcquireEnds mode first wakes
acquire-AcquireEnds mode false negative first wakes = inl (refl, ground arith, refl)
acquire-AcquireEnds mode false (ticks t) first wakes = inl (refl, ground arith, refl)
acquire-AcquireEnds mode true unlimited first wakes =
    blocking_acquire-AcquireEnds mode unlimited first wakes
acquire-AcquireEnds mode true negative first wakes = inr (refl, refl, refl)
acquire-AcquireEnds mode true (ticks t) first wakes =
    blocking_acquire-AcquireEnds mode (ticks t) first wakes
