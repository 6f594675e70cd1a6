-- ===== src/Consolidation/Reads.antt =====
-- The read-ahead of torch_checkpointing/hf/consolidation.py: `_ReaderMemoryBudget` and
-- `_read_full_tensors_in_order`. What a read returns or raises is the parameter `read`.
pub mod Pipeline
pub mod Bounded
use torch_checkpointing.Prelude.{
  ℕ, zero, suc, ◌+◌, ◌-◌, not, Bool, true, false, ◌&&◌, List, [], ◌∷◌, ◌++◌, ltb, if◌then◌else◌,
  length, sum, map,
}
use torch_checkpointing.Prelude.Result.{Result, ok, err}

-- `_ReaderMemoryBudget`: `_available` is `total_bytes + released - reserved`, an integer that is negative
-- after a forced reservation; `reserved` and `released` add up all that was ever reserved and released.
pub record ReaderMemoryBudget : Type 0 where
  pub total_bytes : ℕ
  pub reserved : ℕ
  pub released : ℕ
  pub exhausted_count : ℕ

unfoldable pub try_reserve : ℕ → Bool → ReaderMemoryBudget → Bool × ReaderMemoryBudget
try_reserve num_bytes force b =
    if not force && ltb (b.total_bytes + b.released) (b.reserved + num_bytes)
    then (false, record b { exhausted_count = suc b.exhausted_count })
    else (true, record b { reserved = b.reserved + num_bytes })

unfoldable pub release : ℕ → ReaderMemoryBudget → ReaderMemoryBudget
release num_bytes b = record b { released = b.released + num_bytes }

-- A tensor to read, with its `_tensor_memory_bytes`.
pub record Work (Tensor : Type 0) : Type 0 where
  pub tensor : Tensor
  pub size : ℕ

abbrev pub is_empty : {Tensor : Type 0} → List (Work Tensor) → Bool
is_empty [] = true
is_empty (p ∷ ps) = false

abbrev pub sizes_of : {Tensor : Type 0} → List (Work Tensor) → ℕ
sizes_of [] = 0
sizes_of (p ∷ ps) = p.size + sizes_of ps

-- What is still to submit, the outstanding reads, and the budget.
pub record Reader (Tensor : Type 0) : Type 0 where
  pub work : List (Work Tensor)
  pub pending : List (Work Tensor)
  pub budget : ReaderMemoryBudget

-- How the generator ends: with its last tensor, by an exception of a read, by `popleft` on an empty
-- deque, or by `close()` of its consumer.
pub data Ended (Error : Type 0) : Type 0 where
  exhausted empty_deque closed : Ended Error
  failed : Error → Ended Error

-- The tensors that were yielded, and what is left.
pub record Reads (Error Memory : Type 0) : Type 0 where
  pub yielded : List Memory
  pub ended : Ended Error
  pub budget : ReaderMemoryBudget

module _ {Tensor : Type 0} where
  -- A reservation was tried for the first of `work`.
  submitted :
      Bool × ReaderMemoryBudget
      → Work Tensor
      → List (Work Tensor)
      → List (Work Tensor)
      → (ReaderMemoryBudget → Reader Tensor)
      → Reader Tensor
  submitted (true, b) w work pending rest = rest b
  submitted (false, b) w work pending rest = record {
    work = w ∷ work;
    pending = pending;
    budget = b;
  }

  -- The inner loop: submit reads while there is room.
  unfoldable pub prefetch :
      ℕ → List (Work Tensor) → List (Work Tensor) → ReaderMemoryBudget → Reader Tensor
  unfolding submitted
  prefetch reader_threads [] pending b = record { work = []; pending = pending; budget = b }
  prefetch reader_threads (w ∷ work) pending b =
      let rest = prefetch reader_threads work (pending ++ w ∷ []) in
      if ltb (length pending) reader_threads
      then submitted (try_reserve w.size (is_empty pending) b) w work pending rest
      else record { work = w ∷ work; pending = pending; budget = b }

  -- The outer `finally`.
  unfoldable pub release_all : List (Work Tensor) → ReaderMemoryBudget → ReaderMemoryBudget
  release_all [] b = b
  release_all (p ∷ pending) b = release_all pending (release p.size b)

module _ {Tensor Error Memory : Type 0} (reader_threads : ℕ)
    (read : Tensor → Result Error Memory) where
  end_with : Ended Error → List (Work Tensor) → ReaderMemoryBudget → Reads Error Memory
  end_with e pending b = record { yielded = []; ended = e; budget = release_all pending b }

  unfoldable pub then_yield : Memory → Reads Error Memory → Reads Error Memory
  then_yield m r = record r { yielded = m ∷ r.yielded }

  -- `future.result()` of the first outstanding read, and what follows.
  resulted :
      Result Error Memory
      → ℕ
      → List (Work Tensor)
      → ReaderMemoryBudget
      → (ReaderMemoryBudget → Reads Error Memory)
      → Reads Error Memory
  resulted (err e) size pending b rest = end_with (failed e) pending (release size b)
  resulted (ok m) size pending b rest = then_yield m (rest (release size b))

  next_tensor :
      List (Work Tensor)
      → List (Work Tensor)
      → ReaderMemoryBudget
      → (List (Work Tensor) → List (Work Tensor) → ReaderMemoryBudget → Reads Error Memory)
      → Reads Error Memory
  next_tensor work [] b rest = end_with empty_deque [] b
  next_tensor work (p ∷ pending) b rest =
      resulted (read p.tensor) p.size pending b (rest work pending)

  -- The generator, of which the consumer asks for `wanted` tensors and then closes it. The tensor
  -- that is out is released when the consumer asks for the next one, or closes.
  unfoldable pub read_full_tensors_in_order :
      ℕ → List (Work Tensor) → List (Work Tensor) → ReaderMemoryBudget → Reads Error Memory
  unfolding end_with next_tensor resulted
  read_full_tensors_in_order zero work pending b = end_with closed pending b
  read_full_tensors_in_order (suc wanted) work pending b =
      if is_empty work && is_empty pending
      then end_with exhausted pending b
      else let r = prefetch reader_threads work pending b in
        next_tensor r.work r.pending r.budget (read_full_tensors_in_order wanted)
