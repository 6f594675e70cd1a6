-- ===== src/Resharder/Plans.antt =====
-- The plans of one path: each copies between the same global elements, and none is forgotten.
pub mod Loop
pub mod Total
use torch_checkpointing.Prelude.{
  ℕ, zero, suc, ◌+◌, ◌≤◌, ◌<◌, ◌≡◌, refl, ap, sym, Bool, true, false, Option, none, some, String,
  List, [], ◌∷◌, ◌++◌, Eq, arith, length, All, inl, inr, ◌⊎◌, Bool-cases, Option-cases, list_eq,
  nat_eq, list_beq_iff, leb, min, max, leb→le, eqb, eqb_iff, ◌∙◌,
}
use torch_checkpointing.Prelude.Result.{Result, ok, err, ◌>>=◌, >>=-eq-ok}
use torch_checkpointing.Mesh.{DTensorShardingMetadata, ShardingMetadata, dtensor, other}
use torch_checkpointing.Slices.{
  Slice, box, intersect_slices, intersect_loop, global_to_local_slice, starts, extents, Inside, add,
  Fits, Solid,
}
use torch_checkpointing.Slices.Intersect.{intersect_slices-IsIntersection, IsIntersection}
use torch_checkpointing.Resharder.{
  DTensorPlacement, ReshardError, LoadPlan, GlobalObjectMetadata, Shape, chunk_plan, PathPlans,
  is_seen, add_plan, add_source, compute_local_shard_info, plan_ranks, plan_groups,
}

-- A plan copies the elements of a source shard to the places of a target shard that stand for the
-- same elements of the global tensor: its two offsets name one global position, its chunk lies in both
-- shards, has the same extent in both, and no side of it is empty.
pub record Copies (src tgt : Shape) (lp : LoadPlan) : Type 0 where
  pub same_place : add src.offset lp.src_offsets ≡ add tgt.offset lp.offsets
  pub in_source : Fits lp.src_offsets lp.src_sizes src.sizes
  pub in_target : Fits lp.offsets lp.sizes tgt.sizes
  pub same_extent : lp.src_sizes ≡ lp.sizes
  pub solid : Solid lp.sizes

data Aligned : List ℕ → List ℕ → List ℕ → List ℕ → Type 0 where
  nil : Aligned [] [] [] []
  cons :
      {a b c d : List ℕ} (w x y z : ℕ) → Aligned a b c d → Aligned (w ∷ a) (x ∷ b) (y ∷ c) (z ∷ d)

align :
    (a b c d : List ℕ)
    → length a ≡ length b
    → length c ≡ length d
    → length a ≡ length c
    → Aligned a b c d
align [] [] [] [] p q r = nil
align (w ∷ a) (x ∷ b) (y ∷ c) (z ∷ d) p q r =
    cons w x y z (align a b c d (omega arith) (omega arith) (omega arith))
align _ _ _ _ p q r = absurd (omega arith)

length-box : (o s : List ℕ) → length o ≡ length s → length (box o s) ≡ length o
unfolding box
length-box [] [] h = refl
length-box (x ∷ o) (y ∷ s) h = omega (arith, length-box o s)
length-box [] (y ∷ s) h = absurd (omega arith)
length-box (x ∷ o) [] h = absurd (omega arith)

-- The facts about one intersection, coordinate by coordinate.
abbrev Placed : List ℕ → List ℕ → List ℕ → List ℕ → List Slice → Type 0
Placed so ss to ts r =
    (add so (starts (global_to_local_slice r so)) ≡ starts r)
    × (add to (starts (global_to_local_slice r to)) ≡ starts r)
    × Fits (starts (global_to_local_slice r so)) (extents r) ss
    × Fits (starts (global_to_local_slice r to)) (extents r) ts
    × (box (starts r) (extents r) ≡ r)

abbrev meet : Slice → Slice → Slice
meet a b = record { start = max a.start b.start; stop = min a.stop b.stop }

loop-cons :
    (a b : Slice) (s t r : List Slice)
    → intersect_loop (a ∷ s) (b ∷ t) ≡ some r
    → (rest : List Slice) × (intersect_loop s t ≡ some rest)
      × (leb (min a.stop b.stop) (max a.start b.start) ≡ false)
      × (r ≡ meet a b ∷ rest)
unfolding intersect_loop
loop-cons a b s t r h = elim (Bool-cases (leb (min a.stop b.stop) (max a.start b.start))) [
  | inl e ↦ ground arith
  | inr e ↦ elim (Option-cases (intersect_loop s t)) [
    | inl n ↦ ground arith
    | inr (rest, m) ↦ (rest, m, e, ground arith)
  ]
]

cons-Placed :
    (so ss to ts : List ℕ) (w x y z : ℕ) (r : List Slice)
    → leb (min (w + x) (y + z)) (max w y) ≡ false
    → Placed so ss to ts r
    → Placed
        (w ∷ so)
        (x ∷ ss)
        (y ∷ to)
        (z ∷ ts)
        (meet (record { start = w; stop = w + x }) (record { start = y; stop = y + z }) ∷ r)
unfolding global_to_local_slice starts extents box
cons-Placed so ss to ts w x y z r room (p, q, f, g, b) =
    (ground arith, ground arith, (ground arith, f), (ground arith, g), ground arith)

loop-Placed :
    {so ss to ts : List ℕ}
    → Aligned so ss to ts
    → (r : List Slice) → intersect_loop (box so ss) (box to ts) ≡ some r
    → Placed so ss to ts r
unfolding intersect_loop box global_to_local_slice starts extents
loop-Placed nil [] h = (refl, refl, tt, tt, refl)
loop-Placed nil (a ∷ r) h = ground arith
loop-Placed (cons {a = so} {b = ss} {c = to} {d = ts} w x y z al) r h =
    let (rest, below, room, e) = loop-cons _ _ (box so ss) (box to ts) r h in
    rw e (cons-Placed so ss to ts w x y z rest room (loop-Placed al rest below))

intersect-Aligned :
    (src tgt : Shape) (r : List Slice)
    → length src.offset ≡ length src.sizes
    → length tgt.offset ≡ length tgt.sizes
    → intersect_slices (box src.offset src.sizes) (box tgt.offset tgt.sizes) ≡ some r
    → Placed src.offset src.sizes tgt.offset tgt.sizes r
unfolding intersect_slices
intersect-Aligned src tgt r ls lt h =
    elim (Bool-cases
      (eqb (length (box src.offset src.sizes)) (length (box tgt.offset tgt.sizes)))) [
        | inl same ↦
            loop-Placed
              (align src.offset src.sizes tgt.offset tgt.sizes ls lt (
                omega (
                  arith,
                  (eqb_iff _ _).0 same,
                  length-box src.offset src.sizes ls,
                  length-box tgt.offset tgt.sizes lt,
                )))
              r (rw same at h)
        | inr other' ↦ ground arith
      ]

chunk_plan-Copies :
    (rank : ℕ) (fqn : String) (src tgt : Shape) (r : List Slice)
    → length src.offset ≡ length src.sizes
    → length tgt.offset ≡ length tgt.sizes
    → intersect_slices (box src.offset src.sizes) (box tgt.offset tgt.sizes) ≡ some r
    → Copies src tgt (chunk_plan rank fqn r src.offset tgt.offset)
unfolding chunk_plan
chunk_plan-Copies rank fqn src tgt r ls lt h =
    let (p, q, f, g, _) = intersect-Aligned src tgt r ls lt h in
    record {
      same_place = p ∙ sym q;
      in_source = f;
      in_target = g;
      same_extent = refl;
      solid =
          (rw h at (
            intersect_slices-IsIntersection (box src.offset src.sizes)
              (box tgt.offset tgt.sizes))).0;
    }

-- A global position lies in the part of the target that a plan fills.
abbrev pub Fills : Shape → LoadPlan → List ℕ → Type 0
Fills tgt lp p = Inside p (box (add tgt.offset lp.offsets) lp.sizes)

-- Some plan of the list fills the position.
abbrev pub Filled : Shape → List ℕ → List LoadPlan → Type 0
Filled tgt p [] = ⊥
Filled tgt p (lp ∷ plans) = Fills tgt lp p ⊎ Filled tgt p plans

chunk_plan-Fills :
    (rank : ℕ) (fqn : String) (src tgt : Shape) (r : List Slice)
    → length src.offset ≡ length src.sizes
    → length tgt.offset ≡ length tgt.sizes
    → intersect_slices (box src.offset src.sizes) (box tgt.offset tgt.sizes) ≡ some r
    → (p : List ℕ) → Inside p (box src.offset src.sizes)
    → Inside p (box tgt.offset tgt.sizes)
    → Fills tgt (chunk_plan rank fqn r src.offset tgt.offset) p
unfolding chunk_plan
chunk_plan-Fills rank fqn src tgt r ls lt h p i j =
    let (_, q, _, _, b) = intersect-Aligned src tgt r ls lt h in
    let common =
      (rw h at (
        intersect_slices-IsIntersection (box src.offset src.sizes) (box tgt.offset tgt.sizes))).1 in
    rw (q, b) ((common p).1 (i, j))
