-- ===== src/Consolidation/Owners/Balance.antt =====
-- That the loads of the owners differ by no more than one item.
use torch_checkpointing.Prelude.{
  ℕ, zero, suc, ◌+◌, ◌≤◌, ◌<◌, ◌≡◌, refl, ap, ◌∙◌, Bool, true, false, some, List, [], ◌∷◌, leb, eqb,
  if◌then◌else◌, length, get_elem?, replicate, All, All-map, arith, map,
}
use torch_checkpointing.Consolidation.Owners.{least_loaded, add_load, assign}

-- The bytes of the items that an owner got.
abbrev pub load_of : {Item : Type 0} → ℕ → List (Item × ℕ) → List (Item × ℕ) → ℕ
load_of i ((_, size) ∷ items) ((_, owner) ∷ owners) =
    let rest = load_of i items owners in if eqb owner i then size + rest else rest
load_of i _ _ = 0

-- The least load is that of its index, and no load is less.
abbrev IsLeast : List ℕ → ℕ × ℕ → Type 0
IsLeast loads (load, i) = (get_elem? loads i ≡ some load) × All (λ y. load ≤ y) loads

-- The first is taken if it is not above the least of the others.
cons-IsLeast :
    (take_first : Bool) (x load i : ℕ) (zs : List ℕ)
    → leb x load ≡ take_first
    → IsLeast zs (load, i)
    → IsLeast (x ∷ zs) (if take_first then (x, 0) else (load, suc i))
cons-IsLeast true x load i zs e (at_index, above) =
    (refl, (omega arith, All-map (λ z. load ≤ z) zs (λ z p. ground arith) above))
cons-IsLeast false x load i zs e (at_index, above) = (at_index, (ground arith, above))

least_loaded-IsLeast : (x : ℕ) (xs : List ℕ) → IsLeast (x ∷ xs) (least_loaded (x ∷ xs))
unfolding least_loaded
least_loaded-IsLeast x [] = (refl, (omega arith, tt))
least_loaded-IsLeast x (y ∷ ys) = cons-IsLeast _ x _ _ (y ∷ ys) refl (least_loaded-IsLeast y ys)

All-add_load :
    (P : ℕ → Type 0) (i size load : ℕ) (loads : List ℕ)
    → get_elem? loads i ≡ some load
    → P (load + size)
    → All P loads
    → All P (add_load i size loads)
unfolding add_load
All-add_load P i size load [] e p h = tt
All-add_load P zero size load (x ∷ xs) e p h =
    let same : x ≡ load = ground arith in (rw same p, h.1)
All-add_load P (suc i) size load (x ∷ xs) e p h = (h.0, All-add_load P i size load xs e p h.1)

get-add_load :
    (o size i x : ℕ) (loads : List ℕ)
    → get_elem? loads i ≡ some x
    → get_elem? (add_load o size loads) i ≡ some (if eqb o i then x + size else x)
unfolding add_load
get-add_load o size i x [] h = ground arith
get-add_load zero size zero x (y ∷ ys) h = ground arith
get-add_load zero size (suc i) x (y ∷ ys) h = ground arith
get-add_load (suc o) size zero x (y ∷ ys) h = ground arith
get-add_load (suc o) size (suc i) x (y ∷ ys) h = ground (arith, get-add_load o size i x ys h)

-- All loads are at least `low`, and exceed it by at most `largest`.
abbrev pub IsWithin : ℕ → ℕ → ℕ → Type 0
IsWithin low largest x = (low ≤ x) × (x ≤ low + largest)

pub All-get : (P : ℕ → Type 0) (xs : List ℕ) (i x : ℕ) → All P xs → get_elem? xs i ≡ some x → P x
All-get P [] i x h e = ground arith
All-get P (y ∷ ys) zero x h e = let same : y ≡ x = ground arith in rw (← same) h.0
All-get P (y ∷ ys) (suc i) x h e = All-get P ys i x h.1 e

pub All-replicate : (P : ℕ → Type 0) (n x : ℕ) → P x → All P (replicate n x)
All-replicate P zero x h = tt
All-replicate P (suc n) x h = (h, All-replicate P n x h)

pub get-replicate : (n x i : ℕ) → i < n → get_elem? (replicate n x) i ≡ some x
get-replicate zero x i h = ground arith
get-replicate (suc n) x zero h = refl
get-replicate (suc n) x (suc i) h = get-replicate n x i (omega arith)

All-and : (P Q : ℕ → Type 0) (xs : List ℕ) → All P xs → All Q xs → All (λ x. P x × Q x) xs
All-and P Q [] h k = tt
All-and P Q (x ∷ xs) h k = ((h.0, k.0), All-and P Q xs h.1 k.1)

-- One assignment keeps the loads together.
add_load-IsWithin :
    (low largest size x : ℕ) (xs : List ℕ)
    → size ≤ largest
    → All (IsWithin low largest) (x ∷ xs)
    → (low' : ℕ) × All (IsWithin low' largest) (add_load (least_loaded (x ∷ xs)).1 size (x ∷ xs))
add_load-IsWithin low largest size x xs fits h =
    let least = least_loaded (x ∷ xs) in
    let is_least = least_loaded-IsLeast x xs in
    let bounds = All-get (IsWithin low largest) (x ∷ xs) least.1 least.0 h is_least.0 in
    (
      least.0,
      All-add_load (IsWithin least.0 largest) least.1 size least.0 (x ∷ xs) is_least.0
          (omega arith, omega arith)
          (All-map (λ y. IsWithin low largest y × (least.0 ≤ y)) (x ∷ xs)
            (λ z (inside, above). (above, omega arith))
            (All-and (IsWithin low largest) (λ y. least.0 ≤ y) (x ∷ xs) h is_least.1)),
    )

length-add_load : (i size : ℕ) (loads : List ℕ) → length (add_load i size loads) ≡ length loads
unfolding add_load
length-add_load i size [] = refl
length-add_load zero size (x ∷ xs) = refl
length-add_load (suc i) size (x ∷ xs) = ap suc (length-add_load i size xs)

nonempty : (loads : List ℕ) → 1 ≤ length loads → (x : ℕ) × (xs : List ℕ) × (loads ≡ x ∷ xs)
nonempty [] h = absurd (omega arith)
nonempty (x ∷ xs) h = (x, xs, refl)

get_bound : {A : Type 0} (xs : List A) (i : ℕ) (x : A) → get_elem? xs i ≡ some x → i < length xs
get_bound [] i x h = ground arith
get_bound (y ∷ ys) zero x h = omega arith
get_bound (y ∷ ys) (suc i) x h = omega (arith, get_bound ys i x h)

module _ {Item : Type 0} where
  -- No item is larger.
  abbrev pub IsLargest : ℕ → List (Item × ℕ) → Type 0
  IsLargest largest items = All (λ item. item.1 ≤ largest) items

  pub assign-IsWithin :
      (items : List (Item × ℕ)) (low largest : ℕ) (loads : List ℕ)
      → 1 ≤ length loads
      → IsLargest largest items
      → All (IsWithin low largest) loads
      → (low' : ℕ) × All (IsWithin low' largest) (assign items loads).1
  unfolding assign
  assign-IsWithin [] low largest loads n fits h = (low, h)
  assign-IsWithin ((item, size) ∷ items) low largest [] n fits h = absurd (omega arith)
  assign-IsWithin ((item, size) ∷ items) low largest (x ∷ xs) n fits h =
      let (low', h') = add_load-IsWithin low largest size x xs fits.0 h in
      assign-IsWithin items low' largest _
        (omega (arith, length-add_load (least_loaded (x ∷ xs)).1 size (x ∷ xs))) fits.1 h'

  -- The loads at the end are the bytes of the items that each owner got.
  pub assign-load_of :
      (items : List (Item × ℕ)) (loads : List ℕ) (i x : ℕ)
      → get_elem? loads i ≡ some x
      → get_elem? (assign items loads).1 i ≡ some (x + load_of i items (assign items loads).0)
  unfolding assign
  assign-load_of [] loads i x h = ground arith
  assign-load_of ((item, size) ∷ items) loads i x h =
      let o = (least_loaded loads).1 in
      let ih = assign-load_of items (add_load o size loads) i _ (get-add_load o size i x loads h) in
      ih ∙ ap some (ground arith)

  -- Every owner exists.
  abbrev pub AreOwners : ℕ → List (Item × ℕ) → Type 0
  AreOwners n owners = All (λ o. o.1 < n) owners

  pub assign-AreOwners :
      (items : List (Item × ℕ)) (loads : List ℕ)
      → 1 ≤ length loads
      → AreOwners (length loads) (assign items loads).0
  unfolding assign
  assign-AreOwners [] loads n = tt
  assign-AreOwners ((item, size) ∷ items) [] n = absurd (omega arith)
  assign-AreOwners ((item, size) ∷ items) (x ∷ xs) n =
      let least = least_loaded (x ∷ xs) in
      let same = length-add_load least.1 size (x ∷ xs) in
      (
        get_bound (x ∷ xs) least.1 least.0 (least_loaded-IsLeast x xs).0,
        rw same at (assign-AreOwners items (add_load least.1 size (x ∷ xs)) (omega (arith, same))),
      )

  pub assign-items :
      (items : List (Item × ℕ)) (loads : List ℕ)
      → map (λ o. o.0) (assign items loads).0 ≡ map (λ o. o.0) items
  unfolding assign
  assign-items [] loads = refl
  assign-items ((item, size) ∷ items) loads = ap (λ l. item ∷ l) (assign-items items _)
