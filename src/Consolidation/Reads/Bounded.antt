-- ===== src/Consolidation/Reads/Bounded.antt =====
-- The memory budget while `_read_full_tensors_in_order` submits reads, in torch_checkpointing/hf/consolidation.py.
use torch_checkpointing.Prelude.{
  ℕ, ◌+◌, ◌≤◌, ◌≡◌, refl, ap, ◌∙◌, ◌⊎◌, inl, inr, not, true, false, ◌&&◌, List, [], ◌∷◌, ◌++◌, ltb,
  length, arith, Bool-cases,
}
use torch_checkpointing.Consolidation.Reads.{
  ReaderMemoryBudget, try_reserve, release, Work, is_empty, sizes_of, Reader, submitted, prefetch,
  release_all,
}

-- The budget counts the outstanding reads; it is exceeded only where there is at most one of them.
pub record IsBounded {Tensor : Type 0} (pending : List (Work Tensor)) (b : ReaderMemoryBudget)
    : Type 0 where
  pub counted : b.reserved ≡ b.released + sizes_of pending
  pub bounded : (b.reserved ≤ b.total_bytes + b.released) ⊎ (length pending ≤ 1)

-- What submitting does to the state of the reader.
pub record Submits {Tensor : Type 0} (work pending : List (Work Tensor)) (b : ReaderMemoryBudget)
    (r : Reader Tensor) : Type 0 where
  pub order : r.pending ++ r.work ≡ pending ++ work
  pub total : r.budget.total_bytes ≡ b.total_bytes
  pub is_bounded : IsBounded r.pending r.budget
  pub proceeds : is_empty r.pending ≡ (is_empty pending && is_empty work)

module _ {Tensor : Type 0} where
  sizes_of-append :
      (ps : List (Work Tensor)) (w : Work Tensor) → sizes_of (ps ++ w ∷ []) ≡ sizes_of ps + w.size
  sizes_of-append [] w = omega arith
  sizes_of-append (p ∷ ps) w = omega (arith, sizes_of-append ps w)

  append_one :
      (ps : List (Work Tensor)) (w : Work Tensor) (ws : List (Work Tensor))
      → (ps ++ w ∷ []) ++ ws ≡ ps ++ w ∷ ws
  append_one [] w ws = refl
  append_one (p ∷ ps) w ws = ap (λ l. p ∷ l) (append_one ps w ws)

  append_nothing : (ps : List (Work Tensor)) → ps ++ [] ≡ ps
  append_nothing [] = refl
  append_nothing (p ∷ ps) = ap (λ l. p ∷ l) (append_nothing ps)

  is_empty-append : (ps : List (Work Tensor)) (w : Work Tensor) → is_empty (ps ++ w ∷ []) ≡ false
  is_empty-append [] w = refl
  is_empty-append (p ∷ ps) w = refl

  is_empty-length : (ps : List (Work Tensor)) → is_empty ps ≡ true → length ps ≡ 0
  is_empty-length [] h = refl
  is_empty-length (p ∷ ps) h = ground arith

  room :
      (w : Work Tensor) (pending : List (Work Tensor)) (b : ReaderMemoryBudget)
      → (not (is_empty pending) && ltb (b.total_bytes + b.released) (b.reserved + w.size)) ≡ false
      → ((b.reserved + w.size) ≤ b.total_bytes + b.released) ⊎ (length (pending ++ w ∷ []) ≤ 1)
  room w [] b e = inr (omega arith)
  room w (p ∷ pending) b e = inl (ground arith)

  -- A reservation that is granted.
  reserved-IsBounded :
      (w : Work Tensor) (pending : List (Work Tensor)) (b : ReaderMemoryBudget)
      → IsBounded pending b
      → (not (is_empty pending) && ltb (b.total_bytes + b.released) (b.reserved + w.size)) ≡ false
      → IsBounded (pending ++ w ∷ []) (record b { reserved = b.reserved + w.size })
  reserved-IsBounded w pending b h e = record {
    counted = omega (arith, sizes_of-append pending w, h.counted);
    bounded = room w pending b e;
  }

  after_one :
      (w : Work Tensor) (work pending : List (Work Tensor)) (b : ReaderMemoryBudget)
      (r : Reader Tensor)
      → Submits work (pending ++ w ∷ []) (record b { reserved = b.reserved + w.size }) r
      → Submits (w ∷ work) pending b r
  after_one w work pending b r h = record {
    order = h.order ∙ append_one pending w work;
    total = h.total;
    is_bounded = h.is_bounded;
    proceeds = ground (arith, h.proceeds, is_empty-append pending w);
  }

  module _ (reader_threads : ℕ) where
    -- With at least one reader thread, submitting reads keeps the tensors in order; the budget counts
    -- exactly the outstanding reads, and is exceeded only by a single one; and some read is
    -- outstanding afterwards unless nothing was left to read, so that the reader never stalls.
    pub prefetch-Submits :
        (some_thread : 1 ≤ reader_threads) (work pending : List (Work Tensor))
        (b : ReaderMemoryBudget)
        → IsBounded pending b
        → Submits work pending b (prefetch reader_threads work pending b)
    unfolding prefetch try_reserve submitted
    prefetch-Submits t [] pending b h = record {
      order = refl;
      total = refl;
      is_bounded = h;
      proceeds = ground arith;
    }
    prefetch-Submits t (w ∷ work) pending b h =
        elim (Bool-cases (ltb (length pending) reader_threads)) [
          | inl more ↦
              rw more
                (elim (Bool-cases (
                  not (is_empty pending)
                  && ltb (b.total_bytes + b.released) (b.reserved + w.size))) [
                    | inl refused ↦ rw refused (record {
                      order = refl;
                      total = refl;
                      is_bounded = record { counted = h.counted; bounded = h.bounded };
                      proceeds = ground arith;
                    })
                    | inr granted ↦ rw granted (
                        after_one w work pending b _ (
                          prefetch-Submits t work (pending ++ w ∷ [])
                            (record b { reserved = b.reserved + w.size })
                            (reserved-IsBounded w pending b h granted)))
                  ])
          | inr full ↦ rw full (record {
            order = refl;
            total = refl;
            is_bounded = h;
            proceeds = ground (arith, is_empty-length pending);
          })
        ]

module _ {Tensor : Type 0} where
  pub release-IsBounded :
      (p : Work Tensor) (ps : List (Work Tensor)) (b : ReaderMemoryBudget)
      → IsBounded (p ∷ ps) b
      → IsBounded ps (release p.size b)
  unfolding release
  release-IsBounded p ps b h = record {
    counted = omega (arith, h.counted);
    bounded = elim h.bounded [ inl x ↦ inl (omega arith) | inr x ↦ inr (omega arith) ];
  }

  pub release_all-reserved :
      (ps : List (Work Tensor)) (b : ReaderMemoryBudget)
      → b.reserved ≡ b.released + sizes_of ps
      → ((release_all ps b).released ≡ (release_all ps b).reserved)
        × ((release_all ps b).total_bytes ≡ b.total_bytes)
  unfolding release_all release
  release_all-reserved [] b h = (omega arith, refl)
  release_all-reserved (p ∷ ps) b h = release_all-reserved ps (release p.size b) (omega arith)
