-- ===== src/Consolidation/Reads/Pipeline.antt =====
-- The generator that reads ahead, in torch_checkpointing/hf/consolidation.py, beside a plain loop.
use torch_checkpointing.Prelude.{
  ℕ, zero, suc, ◌≤◌, ◌≡◌, refl, ap, ◌∙◌, inr, false, ◌&&◌, List, [], ◌∷◌, ◌++◌, arith,
}
use torch_checkpointing.Prelude.Result.{Result, ok, err}
use torch_checkpointing.Consolidation.Reads.{
  ReaderMemoryBudget, release, Work, is_empty, Ended, exhausted, closed, failed, Reads, prefetch,
  end_with, then_yield, resulted, next_tensor, read_full_tensors_in_order,
}
use torch_checkpointing.Consolidation.Reads.Bounded.{
  IsBounded, prefetch-Submits, release-IsBounded, release_all-reserved,
}

module _ {Tensor Error Memory : Type 0} (read : Tensor → Result Error Memory) where
  -- One read, and what follows it.
  abbrev pub one_read : Result Error Memory → List Memory × Ended Error → List Memory × Ended Error
  one_read (err e) rest = ([], failed e)
  one_read (ok m) (ms, e) = (m ∷ ms, e)

  -- The reads one after the other, without a budget: at most as many as are wanted, up to the first
  -- that raises.
  abbrev pub sequential : ℕ → List (Work Tensor) → List Memory × Ended Error
  sequential zero ws = ([], closed)
  sequential (suc wanted) [] = ([], exhausted)
  sequential (suc wanted) (w ∷ ws) = one_read (read w.tensor) (sequential wanted ws)

-- The same tensors and the same end; and exactly what was reserved is given back.
abbrev pub Agrees :
    {Error Memory : Type 0}
    → List Memory × Ended Error
    → ReaderMemoryBudget
    → Reads Error Memory
    → Type 0
Agrees (ms, e) b r =
    (r.yielded ≡ ms)
    × (r.ended ≡ e)
    × (r.budget.released ≡ r.budget.reserved)
    × (r.budget.total_bytes ≡ b.total_bytes)

module _ {Tensor Error Memory : Type 0} (reader_threads : ℕ)
    (read : Tensor → Result Error Memory) where
  -- What one step of the generator needs of the ones after it.
  abbrev Later : ℕ → Type 0
  Later wanted =
      (work pending : List (Work Tensor)) (b : ReaderMemoryBudget)
      → IsBounded pending b
      → Agrees (sequential read wanted (pending ++ work)) b
          (read_full_tensors_in_order reader_threads read wanted work pending b)

  resulted-Agrees :
      (x : Result Error Memory) (wanted : ℕ) (p : Work Tensor) (work ps : List (Work Tensor))
      (b : ReaderMemoryBudget)
      → IsBounded (p ∷ ps) b
      → Later wanted
      → Agrees (one_read read x (sequential read wanted (ps ++ work))) b (
          resulted reader_threads read x p.size ps b
            (read_full_tensors_in_order reader_threads read wanted work ps))
  unfolding resulted end_with then_yield release
  resulted-Agrees (err e) wanted p work ps b h later =
      let (back, total) =
        release_all-reserved ps (release p.size b) (release-IsBounded p ps b h).counted in
      (refl, refl, back, total ∙ refl)
  resulted-Agrees (ok m) wanted p work ps b h later =
      let (ms, e, back, total) = later work ps (release p.size b) (release-IsBounded p ps b h) in
      (ap (λ l. m ∷ l) ms, e, back, total)

  next_tensor-Agrees :
      (wanted : ℕ) (work pending : List (Work Tensor)) (b : ReaderMemoryBudget)
      → is_empty pending ≡ false
      → IsBounded pending b
      → Later wanted
      → Agrees (sequential read (suc wanted) (pending ++ work)) b (
          next_tensor reader_threads read work pending b
            (read_full_tensors_in_order reader_threads read wanted))
  unfolding next_tensor
  next_tensor-Agrees wanted work [] b e h later = ground arith
  next_tensor-Agrees wanted work (p ∷ ps) b e h later =
      resulted-Agrees (read p.tensor) wanted p work ps b h later

  -- One turn of the outer loop.
  turn-Agrees :
      1 ≤ reader_threads
      → (wanted : ℕ) (work pending : List (Work Tensor)) (b : ReaderMemoryBudget)
      → IsBounded pending b
      → (is_empty pending && is_empty work) ≡ false
      → Later wanted
      → (let r = prefetch reader_threads work pending b in
          Agrees (sequential read (suc wanted) (pending ++ work)) b (
            next_tensor reader_threads read r.work r.pending r.budget
              (read_full_tensors_in_order reader_threads read wanted)))
  turn-Agrees t wanted work pending b h some_left later =
      let r = prefetch reader_threads work pending b in
      let s = prefetch-Submits reader_threads t work pending b h in
      let (ms, e, back, total) =
        next_tensor-Agrees wanted r.work r.pending r.budget (s.proceeds ∙ some_left) s.is_bounded
          later in
      (
        ms ∙ ap (λ l. (sequential read (suc wanted) l).0) s.order,
        e ∙ ap (λ l. (sequential read (suc wanted) l).1) s.order,
        back,
        total ∙ s.total,
      )

  read_full_tensors_in_order-lem : 1 ≤ reader_threads → (wanted : ℕ) → Later wanted
  unfolding read_full_tensors_in_order end_with
  read_full_tensors_in_order-lem t zero work pending b h =
      let (back, total) = release_all-reserved pending b h.counted in (refl, refl, back, total)
  read_full_tensors_in_order-lem t (suc wanted) [] [] b h =
      let (back, total) = release_all-reserved [] b h.counted in (refl, refl, back, total)
  read_full_tensors_in_order-lem t (suc wanted) (w ∷ work) pending b h =
      turn-Agrees t wanted (w ∷ work) pending b h (ground arith)
        (read_full_tensors_in_order-lem t wanted)
  read_full_tensors_in_order-lem t (suc wanted) [] (p ∷ ps) b h =
      turn-Agrees t wanted [] (p ∷ ps) b h refl (read_full_tensors_in_order-lem t wanted)

  -- With at least one reader thread and nothing reserved, a consumer that asks for any number of
  -- tensors gets those, in the same order, that reading them one after the other would give, up to the
  -- first read that raises, and the generator ends in the same way; however it ends, exactly
  -- as much of the memory budget is released as was reserved, so that all of it is available again.
  pub read_full_tensors_in_order-Agrees :
      1 ≤ reader_threads
      → (wanted : ℕ) (work : List (Work Tensor)) (b : ReaderMemoryBudget) → b.released ≡ b.reserved
      → Agrees
          (sequential read wanted work)
          b
          (read_full_tensors_in_order reader_threads read wanted work [] b)
  read_full_tensors_in_order-Agrees t wanted work b h =
      read_full_tensors_in_order-lem t wanted work [] b
        (record { counted = omega arith; bounded = inr (omega arith) })
