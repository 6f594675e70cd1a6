-- ===== src/Slices/Tests.antt =====
-- Concrete slices.
use torch_checkpointing.Prelude.{◌≡◌, refl, some, List, [], ◌∷◌}
use torch_checkpointing.Slices.{Slice, intersect_slices, intersect_loop}
use torch_checkpointing.Slices.Intersect.{IsIntersection, intersect_slices-IsIntersection}

abbrev left : List Slice
left = record { start = 0; stop = 4 } ∷ record { start = 2; stop = 6 } ∷ []

abbrev right : List Slice
right = record { start = 1; stop = 9 } ∷ record { start = 0; stop = 3 } ∷ []

meets :
    intersect_slices left right
    ≡ some (record { start = 1; stop = 4 } ∷ record { start = 2; stop = 3 } ∷ [])
unfolding intersect_slices intersect_loop
meets = refl

intersect_slices-IsIntersection_example : IsIntersection left right (intersect_slices left right)
intersect_slices-IsIntersection_example = intersect_slices-IsIntersection left right
