-- ===== src/Barriers/Together.antt =====
-- Nobody leaves a barrier of torch_checkpointing/barriers.py before all have come to it.
use Prim.Native.String.{◌++◌ as ◌<>◌}
use text.Mathlib.TextLemmas.{append_cancel_left}
use torch_checkpointing.Prelude.{
  ℕ, zero, suc, ◌+◌, ◌≤◌, ◌<◌, ◌≡◌, ◌≢◌, refl, String, string_eq, eqb, eqb_iff, ltb, leb,
  if◌then◌else◌, arith, Bool-cases, inl, inr, sym,
}
use torch_checkpointing.Barriers.{
  BarrierConfig, tcp_store, default_store, barrier_key, Rank, outside, inside, timed_out, World,
  add_one, update, BarrierStep, enter, leave, time_out, BarrierRun, here, next,
}

-- The rank has called the barrier with the number, or has left it.
abbrev pub HasEntered : ℕ → Rank → Type 0
HasEntered k (outside seq) = k < seq
HasEntered k (inside seq) = k ≤ seq
HasEntered k (timed_out seq) = k ≤ seq

-- The rank has left the barrier with the number.
abbrev pub HasLeft : ℕ → Rank → Type 0
HasLeft k (outside seq) = k < seq
HasLeft k (inside seq) = k < seq
HasLeft k (timed_out seq) = k < seq

entered : ℕ → Rank → ℕ
entered k (outside seq) = if ltb k seq then 1 else 0
entered k (inside seq) = if leb k seq then 1 else 0
entered k (timed_out seq) = if leb k seq then 1 else 0

entered-le : (k : ℕ) (r : Rank) → entered k r ≤ 1
unfolding entered
entered-le k (outside seq) = ground arith
entered-le k (inside seq) = ground arith
entered-le k (timed_out seq) = ground arith

entered-HasEntered : (k : ℕ) (r : Rank) → 1 ≤ entered k r → HasEntered k r
unfolding entered
entered-HasEntered k (outside seq) h = ground arith
entered-HasEntered k (inside seq) h = ground arith
entered-HasEntered k (timed_out seq) h = ground arith

-- How many of the first ranks have called the barrier with the number.
tally : ℕ → ℕ → (ℕ → Rank) → ℕ
tally k zero rank = 0
tally k (suc n) rank = entered k (rank n) + tally k n rank

update_other : (rank : ℕ → Rank) (i j : ℕ) (r : Rank) → i ≢ j → update rank i r j ≡ rank j
update_other rank i j r differ = elim (Bool-cases (eqb i j)) [
  | inl same ↦ absurd (differ ((eqb_iff i j).0 same))
  | inr e ↦ rw e refl
]

tally-above :
    (k n : ℕ) (rank : ℕ → Rank) (i : ℕ) (r : Rank)
    → n ≤ i
    → tally k n (update rank i r) ≡ tally k n rank
unfolding tally
tally-above k zero rank i r h = refl
tally-above k (suc n) rank i r h =
    rw (update_other rank i n r (λ e. omega arith))
      (omega (arith, tally-above k n rank i r (omega arith)))

tally-update :
    (k n : ℕ) (rank : ℕ → Rank) (i : ℕ) (r : Rank)
    → i < n
    → tally k n (update rank i r) + entered k (rank i) ≡ tally k n rank + entered k r
unfolding tally
tally-update k zero rank i r h = absurd (omega arith)
tally-update k (suc n) rank i r h = elim (Bool-cases (eqb i n)) [
  | inl same ↦
      rw (same, (eqb_iff i n).0 same) (omega (arith, tally-above k n rank n r (omega arith)))
  | inr e ↦ rw e (omega (arith, tally-update k n rank i r (ground (arith, eqb_iff i n))))
]

tally_start : (k n : ℕ) → tally k n (λ i. outside 0) ≡ 0
unfolding tally entered
tally_start k zero = refl
tally_start k (suc n) = ground (arith, tally_start k n)

tally-le : (k n : ℕ) (rank : ℕ → Rank) → tally k n rank ≤ n
unfolding tally
tally-le k zero rank = omega arith
tally-le k (suc n) rank = omega (arith, entered-le k (rank n), tally-le k n rank)

tally_full :
    (k n : ℕ) (rank : ℕ → Rank) → n ≤ tally k n rank → (i : ℕ) → i < n → HasEntered k (rank i)
unfolding tally
tally_full k zero rank h i lt = absurd (omega arith)
tally_full k (suc n) rank h i lt = elim (Bool-cases (eqb i n)) [
  | inl same ↦
      rw ((eqb_iff i n).0 same) (entered-HasEntered k (rank n) (omega (arith, tally-le k n rank)))
  | inr e ↦
      tally_full k n rank (omega (arith, entered-le k (rank n))) i (ground (arith, eqb_iff i n))
]

entered_once :
    (k seq : ℕ) → entered k (inside seq) ≡ entered k (outside seq) + (if eqb seq k then 1 else 0)
unfolding entered
entered_once k seq = ground arith

entered_still : (k seq : ℕ) → entered k (outside (seq + 1)) ≡ entered k (inside seq)
unfolding entered
entered_still k seq = ground arith

entered_late : (k seq : ℕ) → entered k (timed_out seq) ≡ entered k (inside seq)
unfolding entered
entered_late k seq = refl

module _ (n : ℕ) (key : ℕ → String) (injective : (a b : ℕ) → key a ≡ key b → a ≡ b) where
  record Counts (w : World) : Type 0 where
    pub counted : (k : ℕ) → w.store (key k) ≡ tally k n w.rank
    pub together :
        (i k : ℕ) → i < n → HasLeft k (w.rank i) → (j : ℕ) → j < n → HasEntered k (w.rank j)

  add_one-key :
      (seq k : ℕ) (store : String → ℕ)
      → add_one (key seq) store (key k) ≡ store (key k) + (if eqb seq k then 1 else 0)
  add_one-key seq k store =
      ground (arith, string_eq.equal_iff (key seq) (key k), eqb_iff seq k, injective seq k)

  -- A rank that has left a barrier has entered it, and one that goes on has entered no fewer.
  together-update :
      (rank : ℕ → Rank) (i : ℕ) (r : Rank)
      → ((i k : ℕ) → i < n → HasLeft k (rank i) → (j : ℕ) → j < n → HasEntered k (rank j))
      → ((k : ℕ) → HasEntered k (rank i) → HasEntered k r)
      → ((k : ℕ) → HasLeft k r → (j : ℕ) → j < n → HasEntered k (rank j))
      → (m k : ℕ) → m < n
      → HasLeft k (update rank i r m)
      → (j : ℕ) → j < n
      → HasEntered k (update rank i r j)
  together-update rank i r old more new m k lt left j below = elim (Bool-cases (eqb i j)) [
    | inl same ↦ rw same (more k (rw (← (eqb_iff i j).0 same) at entered_before))
    | inr e ↦ rw e entered_before
  ]
    where
      entered_before : HasEntered k (rank j)
      entered_before = elim (Bool-cases (eqb i m)) [
        | inl same ↦ new k (rw same at left) j below
        | inr e ↦ old m k lt (rw e at left) j below
      ]

  BarrierStep-Counts : {w v : World} → BarrierStep n key w v → Counts w → Counts v
  BarrierStep-Counts {w} (enter i seq lt at) c = record {
    counted = λ k. omega (
      arith,
      add_one-key seq k w.store,
      c.counted k,
      entered_once k seq,
      rw at at (tally-update k n w.rank i (inside seq) lt),
    );
    together =
        together-update w.rank i (inside seq) c.together
          (λ k h. let b : k < seq = rw at at h in omega arith) (λ k h. c.together i k lt (rw at h));
  }
  BarrierStep-Counts {w} (leave i seq lt at full) c = record {
    counted = λ k. omega (
      arith,
      c.counted k,
      entered_still k seq,
      rw at at (tally-update k n w.rank i (outside (seq + 1)) lt),
    );
    together =
        together-update w.rank i (outside (seq + 1)) c.together
          (λ k h. let b : k ≤ seq = rw at at h in omega arith)
          (λ k h. elim (Bool-cases (eqb k seq)) [
            | inl same ↦
                tally_full k n w.rank
                  (omega (arith, c.counted k, rw (← (eqb_iff k seq).0 same) at full))
            | inr e ↦ c.together i k lt (rw at (ground (arith, eqb_iff k seq)))
          ]);
  }
  BarrierStep-Counts {w} (time_out i seq lt at) c = record {
    counted = λ k. omega (
      arith,
      c.counted k,
      entered_late k seq,
      rw at at (tally-update k n w.rank i (timed_out seq) lt),
    );
    together =
        together-update w.rank i (timed_out seq) c.together (λ k h. rw at at h)
          (λ k h. c.together i k lt (rw at h));
  }

  BarrierRun-Counts : {w : World} → BarrierRun n key w → Counts w
  BarrierRun-Counts here = record {
    counted = λ k. sym (tally_start k n);
    together = λ i k lt h. absurd (omega arith);
  }
  BarrierRun-Counts (next r st) = BarrierStep-Counts st (BarrierRun-Counts r)

module _ (str_of : ℕ → String) (prefix_store : String → String → String)
    (str_injective : (a b : ℕ) → str_of a ≡ str_of b → a ≡ b)
    (prefix_injective : (p s t : String) → prefix_store p s ≡ prefix_store p t → s ≡ t) where
  barrier_key-injective :
      (c : BarrierConfig) (a b : ℕ)
      → barrier_key str_of prefix_store c a ≡ barrier_key str_of prefix_store c b
      → a ≡ b
  unfolding barrier_key
  barrier_key-injective (tcp_store p) a b e =
      str_injective a b (append_cancel_left p (str_of a) (str_of b) e)
  barrier_key-injective (default_store p g) a b e =
      str_injective a b (prefix_injective (p <> "/" <> g) (str_of a) (str_of b) e)

  -- If `str` tells numbers apart and a prefixed store tells keys apart, then for both barriers, for any
  -- number of ranks and in any state that they reach by executing barriers one after the other, with ranks
  -- that time out and stop: when a rank has left its k-th barrier, every rank has come to its k-th barrier.
  pub BarrierRun-together :
      (c : BarrierConfig) (n : ℕ) {w : World}
      → BarrierRun n (barrier_key str_of prefix_store c) w
      → (i k : ℕ) → i < n
      → HasLeft k (w.rank i)
      → (j : ℕ) → j < n
      → HasEntered k (w.rank j)
  BarrierRun-together c n r =
      (BarrierRun-Counts n (barrier_key str_of prefix_store c) (barrier_key-injective c) r).together
