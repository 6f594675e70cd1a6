-- ===== src/Mesh/Positions.antt =====
-- The positions of a mesh, in row-major order (torch_checkpointing/dtensor_metadata.py).
use torch_checkpointing.Prelude.{
  ℕ, zero, suc, ◌+◌, ◌*◌, ◌<◌, ◌≡◌, refl, ap, ◌∙◌, ◌⊎◌, inl, inr, some, List, [], ◌∷◌, ◌++◌, map,
  length, length-append, get_elem?, prod, arith,
}
use native.Mathlib.Nat.{suc-mul}
use torch_checkpointing.Mesh.{rows, positions}

-- A coordinate has an index for each dimension, in range.
abbrev pub IsCoordinate : List ℕ → List ℕ → Type 0
IsCoordinate [] [] = Unit
IsCoordinate (n ∷ ns) (c ∷ cs) = (c < n) × IsCoordinate ns cs
IsCoordinate _ _ = ⊥

-- The row-major place of a coordinate.
abbrev pub ravel : List ℕ → List ℕ → ℕ
ravel (n ∷ ns) (c ∷ cs) = c * prod ns + ravel ns cs
ravel _ _ = 0

length-map_cons : (i : ℕ) (l : List (List ℕ)) → length (map (λ c. i ∷ c) l) ≡ length l
length-map_cons i [] = refl
length-map_cons i (x ∷ l) = ap suc (length-map_cons i l)

suc_times : (n m : ℕ) → suc n * m ≡ m + n * m
suc_times n m = omega (arith, suc-mul n m)

length-rows : (n i : ℕ) (below : List (List ℕ)) → length (rows n i below) ≡ n * length below
unfolding rows
length-rows zero i below = omega arith
length-rows (suc n) i below =
    length-append (map (λ c. i ∷ c) below) (rows n (suc i) below)
    ∙ (ground
        (arith, length-map_cons i below, length-rows n (suc i) below, suc_times n (length below)))

pub length-positions : (shape : List ℕ) → length (positions shape) ≡ prod shape
unfolding positions
length-positions [] = refl
length-positions (n ∷ ns) = length-rows n 0 (positions ns) ∙ ap (λ l. n * l) (length-positions ns)

-- What stands at a place of a list that is appended.
get-append :
    {A : Type 0} (xs ys : List A) (k : ℕ) (a : A)
    → get_elem? (xs ++ ys) k ≡ some a
    → (get_elem? xs k ≡ some a) ⊎ ((j : ℕ) × (k ≡ length xs + j) × (get_elem? ys j ≡ some a))
get-append [] ys k a h = inr (k, omega arith, h)
get-append (x ∷ xs) ys zero a h = inl h
get-append (x ∷ xs) ys (suc k) a h = elim (get-append xs ys k a h) [
  | inl e ↦ inl e
  | inr (j, e, g) ↦ inr (j, omega arith, g)
]

get-append_left :
    {A : Type 0} (xs ys : List A) (k : ℕ) (a : A)
    → get_elem? xs k ≡ some a
    → get_elem? (xs ++ ys) k ≡ some a
get-append_left [] ys k a h = ground arith
get-append_left (x ∷ xs) ys zero a h = h
get-append_left (x ∷ xs) ys (suc k) a h = get-append_left xs ys k a h

get-append_right :
    {A : Type 0} (xs ys : List A) (k j : ℕ) (a : A)
    → k ≡ length xs + j
    → get_elem? ys j ≡ some a
    → get_elem? (xs ++ ys) k ≡ some a
get-append_right [] ys k j a e h = let same : k ≡ j = omega arith in rw same h
get-append_right (x ∷ xs) ys zero j a e h = absurd (omega arith)
get-append_right (x ∷ xs) ys (suc k) j a e h = get-append_right xs ys k j a (omega arith) h

get-map_cons :
    (i : ℕ) (l : List (List ℕ)) (k : ℕ) (x : List ℕ)
    → get_elem? (map (λ c. i ∷ c) l) k ≡ some x
    → (y : List ℕ) × (x ≡ i ∷ y) × (get_elem? l k ≡ some y)
get-map_cons i [] k x h = ground arith
get-map_cons i (y ∷ l) zero x h = (y, ground arith, refl)
get-map_cons i (y ∷ l) (suc k) x h = get-map_cons i l k x h

map_cons-get :
    (i : ℕ) (l : List (List ℕ)) (k : ℕ) (y : List ℕ)
    → get_elem? l k ≡ some y
    → get_elem? (map (λ c. i ∷ c) l) k ≡ some (i ∷ y)
map_cons-get i [] k y h = ground arith
map_cons-get i (x ∷ l) zero y h = ground arith
map_cons-get i (x ∷ l) (suc k) y h = map_cons-get i l k y h

-- Row `c` of the rows from `i` on.
get-rows :
    (n i : ℕ) (below : List (List ℕ)) (k : ℕ) (x : List ℕ)
    → get_elem? (rows n i below) k ≡ some x
    → (c r : ℕ) × (y : List ℕ) × (c < n)
      × (k ≡ c * length below + r)
      × (x ≡ (i + c) ∷ y)
      × (get_elem? below r ≡ some y)
unfolding rows
get-rows zero i below k x h = ground arith
get-rows (suc n) i below k x h =
    elim (get-append (map (λ c. i ∷ c) below) (rows n (suc i) below) k x h) [
      | inl here ↦
          let (y, e, g) = get-map_cons i below k x here in
          (0, k, y, omega arith, omega arith, e ∙ ap (λ t. t ∷ y) (omega arith), g)
      | inr (j, e, later) ↦
          let (c, r, y, in_range, place, e2, g) = get-rows n (suc i) below j x later in
          (
            suc c,
            r,
            y,
            omega arith,
            omega (arith, suc_times c (length below), length-map_cons i below),
            e2 ∙ ap (λ t. t ∷ y) (omega arith),
            g,
          )
    ]

rows-get :
    (n i : ℕ) (below : List (List ℕ)) (c r : ℕ) (y : List ℕ)
    → c < n
    → get_elem? below r ≡ some y
    → get_elem? (rows n i below) (c * length below + r) ≡ some ((i + c) ∷ y)
unfolding rows
rows-get zero i below c r y h g = absurd (omega arith)
rows-get (suc n) i below zero r y h g =
    let first : 0 * length below + r ≡ r = omega arith in
    rw first (
      get-append_left (map (λ c. i ∷ c) below) (rows n (suc i) below) r (i ∷ y)
        (map_cons-get i below r y g)
      ∙ ap (λ t. some (t ∷ y)) (omega arith))
rows-get (suc n) i below (suc c) r y h g =
    get-append_right (map (λ d. i ∷ d) below) (rows n (suc i) below) _ (c * length below + r) _
      (omega (arith, suc_times c (length below), length-map_cons i below))
      (rows-get n (suc i) below c r y (omega arith) g)
    ∙ ap (λ t. some (t ∷ y)) (omega arith)

-- What stands at a place is the coordinate of that place.
pub get-positions :
    (shape : List ℕ) (k : ℕ) (c : List ℕ)
    → get_elem? (positions shape) k ≡ some c
    → IsCoordinate shape c × (k ≡ ravel shape c)
unfolding positions
get-positions [] zero c h = let none' : [] ≡ c = ground arith in rw (← none') (tt, refl)
get-positions [] (suc k) c h = ground arith
get-positions (n ∷ ns) k c h =
    let (i, r, y, in_range, place, e, g) = get-rows n 0 (positions ns) k c h in
    let (is, below) = get-positions ns r y g in
    let zeroth : 0 + i ≡ i = omega arith in
    rw (e ∙ ap (λ t. t ∷ y) zeroth) (
      (in_range, is),
      place ∙ ap (λ l. i * l + r) (length-positions ns) ∙ ap (λ t. i * prod ns + t) below,
    )

pub positions-get :
    (shape c : List ℕ) → IsCoordinate shape c → get_elem? (positions shape) (ravel shape c) ≡ some c
unfolding positions
positions-get [] [] h = refl
positions-get [] (c ∷ cs) h = absurd h
positions-get (n ∷ ns) [] h = absurd h
positions-get (n ∷ ns) (c ∷ cs) (in_range, is) =
    let below = length-positions ns in
    (rw below at (rows-get n 0 (positions ns) c (ravel ns cs) cs in_range (positions-get ns cs is)))
    ∙ ap (λ t. some (t ∷ cs)) (omega arith)
