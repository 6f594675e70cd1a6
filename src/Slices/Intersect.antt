-- ===== src/Slices/Intersect.antt =====
-- The intersection of slices as a set of points, and in the coordinates of two shards.
use torch_checkpointing.Prelude.{
  ℕ, ◌≤◌, ◌≡◌, ◌↔◌, refl, Option, none, some, List, [], ◌∷◌, leb, eqb, length, arith, inl, inr,
  Bool-cases, Option-cases, max, min, leb→le, eqb_iff,
}
use torch_checkpointing.Slices.{Slice, intersect_loop, intersect_slices, extents, Inside, Solid}

-- `r` holds exactly the points of both; where there is no `r`, no point lies in both.
abbrev pub IsIntersection : List Slice → List Slice → Option (List Slice) → Type 0
IsIntersection s1 s2 (some r) =
    Solid (extents r) × ((p : List ℕ) → Inside p r ↔ (Inside p s1 × Inside p s2))
IsIntersection s1 s2 none = (p : List ℕ) → ¬ (Inside p s1 × Inside p s2)

no_point :
    (a b : Slice) (s t : List Slice)
    → min a.stop b.stop ≤ max a.start b.start
    → IsIntersection (a ∷ s) (b ∷ t) none
no_point a b s t h [] (i, j) = i
no_point a b s t h (x ∷ p) ((l, u, i), (l', u', j)) = omega arith

no_point_later :
    (a b : Slice) (s t : List Slice) → IsIntersection s t none → IsIntersection (a ∷ s) (b ∷ t) none
no_point_later a b s t h [] (i, j) = i
no_point_later a b s t h (x ∷ p) ((l, u, i), (l', u', j)) = h p (i, j)

abbrev meet : Slice → Slice → Slice
meet a b = record { start = max a.start b.start; stop = min a.stop b.stop }

more_points :
    (a b : Slice) (s t r : List Slice)
    → ((p : List ℕ) → Inside p r ↔ (Inside p s × Inside p t))
    → (p : List ℕ) → Inside p (meet a b ∷ r) ↔ (Inside p (a ∷ s) × Inside p (b ∷ t))
more_points a b s t r h [] = (λ i. (i, i), λ ij. ij.0)
more_points a b s t r h (x ∷ p) = (
  (λ (l, u, i).
      ((omega arith, omega arith, ((h p).0 i).0), (omega arith, omega arith, ((h p).0 i).1))),
  (λ (i, j). (omega arith, omega arith, (h p).1 (i.2, j.2))),
)

loop-IsIntersection :
    (s t : List Slice) → length s ≡ length t → IsIntersection s t (intersect_loop s t)
unfolding intersect_loop extents
loop-IsIntersection [] [] e = (tt, λ p. (λ i. (i, i), λ ij. ij.0))
loop-IsIntersection [] (b ∷ t) e = absurd (omega arith)
loop-IsIntersection (a ∷ s) [] e = absurd (omega arith)
loop-IsIntersection (a ∷ s) (b ∷ t) e =
    elim (Bool-cases (leb (min a.stop b.stop) (max a.start b.start))) [
      | inl empty ↦ rw empty (no_point a b s t (leb→le _ _ empty))
      | inr room ↦ rw room (elim (Option-cases (intersect_loop s t)) [
        | inl none' ↦
            rw none' (no_point_later a b s t (rw none' at (loop-IsIntersection s t (omega arith))))
        | inr (r, some') ↦
            let ih : IsIntersection s t (some r) =
              rw some' at (loop-IsIntersection s t (omega arith)) in
            rw some' ((ground arith, ih.0), more_points a b s t r ih.1)
      ])
    ]

length-Inside : (p : List ℕ) (s : List Slice) → Inside p s → length p ≡ length s
length-Inside [] [] i = refl
length-Inside [] (a ∷ s) i = absurd i
length-Inside (x ∷ p) [] i = absurd i
length-Inside (x ∷ p) (a ∷ s) i = omega (arith, length-Inside p s i.2)

-- The intersection of two tuples of slices, of any two lengths, holds exactly the points that lie in
-- both and is empty in no dimension; where `_intersect_slices` returns None, no point lies in both.
pub intersect_slices-IsIntersection :
    (s1 s2 : List Slice) → IsIntersection s1 s2 (intersect_slices s1 s2)
unfolding intersect_slices
intersect_slices-IsIntersection s1 s2 = elim (Bool-cases (eqb (length s1) (length s2))) [
  | inl same ↦ rw same (loop-IsIntersection s1 s2 ((eqb_iff _ _).0 same))
  | inr other ↦ rw other (λ p (i, j). ground (arith, length-Inside p s1 i, length-Inside p s2 j))
]
