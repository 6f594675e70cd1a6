-- ===== src/Slices.antt =====
-- The slice geometry of torch_checkpointing/default_resharder.py. Offsets and sizes of shards are
-- never negative, so they are native numbers.
pub mod Intersect
mod Tests
use torch_checkpointing.Prelude.{
  ℕ, ◌+◌, ◌-◌, ◌≤◌, ◌<◌, not, Option, none, some, List, [], ◌∷◌, leb, eqb, if◌then◌else◌, length,
  min, max,
}
use mathlib.Core.Option

-- `slice(start, stop)`
pub record Slice : Type 0 where
  pub start : ℕ
  pub stop : ℕ

-- `tuple(slice(offset, offset + size) for offset, size in zip(offsets, sizes))`
unfoldable pub box : List ℕ → List ℕ → List Slice
box (o ∷ os) (n ∷ ns) = record { start = o; stop = o + n } ∷ box os ns
box _ _ = []

-- The loop of `_intersect_slices` over the zipped slices.
unfoldable pub intersect_loop : List Slice → List Slice → Option (List Slice)
intersect_loop (a ∷ as') (b ∷ bs) =
    let start = max a.start b.start in
    let stop = min a.stop b.stop in
    if leb stop start
    then none
    else Option.map (λ rest. record { start = start; stop = stop } ∷ rest) (intersect_loop as' bs)
intersect_loop _ _ = some []

unfoldable pub intersect_slices : List Slice → List Slice → Option (List Slice)
unfolding intersect_loop
intersect_slices s1 s2 = if not (eqb (length s1) (length s2)) then none else intersect_loop s1 s2

-- `_global_to_local_slice`. Its callers pass a slice inside the box at `global_offset`, so that no
-- difference is negative.
unfoldable pub global_to_local_slice : List Slice → List ℕ → List Slice
global_to_local_slice (s ∷ ss) (o ∷ os) =
    record { start = s.start - o; stop = s.stop - o } ∷ global_to_local_slice ss os
global_to_local_slice _ _ = []

-- `tuple(s.start for s in slices)`
unfoldable pub starts : List Slice → List ℕ
starts [] = []
starts (s ∷ ss) = s.start ∷ starts ss

-- `tuple(s.stop - s.start for s in intersection)`
unfoldable pub extents : List Slice → List ℕ
extents [] = []
extents (s ∷ ss) = (s.stop - s.start) ∷ extents ss

-- A point lies in a box, coordinate by coordinate.
abbrev pub Inside : List ℕ → List Slice → Type 0
Inside [] [] = Unit
Inside (x ∷ p) (s ∷ ss) = (s.start ≤ x) × (x < s.stop) × Inside p ss
Inside _ _ = ⊥

-- Coordinate-wise sum.
abbrev pub add : List ℕ → List ℕ → List ℕ
add (a ∷ as') (b ∷ bs) = (a + b) ∷ add as' bs
add _ _ = []

-- A chunk at `offsets` of extent `sizes` lies in an array of shape `shape`.
abbrev pub Fits : List ℕ → List ℕ → List ℕ → Type 0
Fits [] [] [] = Unit
Fits (o ∷ os) (n ∷ ns) (m ∷ ms) = (o + n ≤ m) × Fits os ns ms
Fits _ _ _ = ⊥

-- No side of a chunk is empty.
abbrev pub Solid : List ℕ → Type 0
Solid [] = Unit
Solid (n ∷ ns) = (0 < n) × Solid ns
