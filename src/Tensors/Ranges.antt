-- ===== src/Tensors/Ranges.antt =====
-- The contiguous range of a tensor slice, against the row-major order of its points.
use torch_checkpointing.Prelude.{
  ℕ, zero, suc, ◌+◌, ◌-◌, ◌*◌, ◌≤◌, ◌<◌, ◌≡◌, refl, sym, ap, ◌∙◌, inl, inr, Option, none, some,
  List, [], ◌∷◌, eqb, eqb_iff, length, prod, arith, Bool-cases,
}
use native.Mathlib.Nat.{mul-le-mul_right, suc-mul, mul_comm}
use torch_checkpointing.Slices.{box, Inside}
use torch_checkpointing.Tensors.{
  element_strides, start_element, last_element, element_range, strides_loop, contiguous_strides,
}

loop_product : (shape : List ℕ) → (strides_loop shape).1 ≡ prod shape
unfolding strides_loop
loop_product [] = refl
loop_product (n ∷ ns) = mul_comm (strides_loop ns).1 n ∙ ap (λ k. n * k) (loop_product ns)

-- The loop of `contiguous_strides` gives the row-major strides that the slices' element ranges use, for
-- any shape.
pub contiguous_strides-element_strides :
    (shape : List ℕ) → contiguous_strides shape ≡ element_strides shape
unfolding contiguous_strides strides_loop element_strides
contiguous_strides-element_strides [] = refl
contiguous_strides-element_strides (n ∷ ns) =
    ap (λ k. k ∷ (strides_loop ns).0) (loop_product ns)
    ∙ ap (λ l. prod ns ∷ l) (contiguous_strides-element_strides ns)

-- A point of the box lies between its first and its last element.
between :
    (p offsets sizes strides : List ℕ)
    → Inside p (box offsets sizes)
    → length offsets ≡ length sizes
    → length sizes ≡ length strides
    → (start_element offsets strides ≤ start_element p strides)
      × (start_element p strides ≤ last_element offsets sizes strides)
unfolding box start_element last_element
between [] [] [] [] i e f = (omega arith, omega arith)
between (x ∷ p) (o ∷ os) (n ∷ ns) (s ∷ ss) (low, high, i) e f =
    let (below, above) = between p os ns ss i (omega arith) (omega arith) in
    let first : o * s ≤ x * s = mul-le-mul_right s low in
    let final : x * s ≤ (o + n - 1) * s = mul-le-mul_right s (omega arith) in
    (omega arith, omega arith)
between [] [] [] (s ∷ ss) i e f = absurd (omega arith)
between [] [] (n ∷ ns) strides i e f = absurd (omega arith)
between [] (o ∷ os) [] strides i e f = absurd (omega arith)
between [] (o ∷ os) (n ∷ ns) strides i e f = absurd i
between (x ∷ p) [] sizes strides i e f = absurd i
between (x ∷ p) (o ∷ os) [] strides i e f = absurd i
between (x ∷ p) (o ∷ os) (n ∷ ns) [] i e f = absurd (omega arith)

length-element_strides : (shape : List ℕ) → length (element_strides shape) ≡ length shape
unfolding element_strides
length-element_strides [] = refl
length-element_strides (n ∷ ns) = ap suc (length-element_strides ns)

zero_factor : (n m : ℕ) → 0 < n → n * m ≡ 0 → m ≡ 0
zero_factor zero m h e = absurd (omega arith)
zero_factor (suc n) m h e = omega (arith, suc-mul n m)

-- A box with no element has no point.
no_element :
    (p offsets sizes : List ℕ)
    → Inside p (box offsets sizes)
    → length offsets ≡ length sizes
    → ¬ (prod sizes ≡ 0)
unfolding box
no_element [] [] [] i e h = omega arith
no_element [] [] (n ∷ ns) i e h = omega arith
no_element [] (o ∷ os) [] i e h = omega arith
no_element [] (o ∷ os) (n ∷ ns) i e h = i
no_element (x ∷ p) [] sizes i e h = i
no_element (x ∷ p) (o ∷ os) [] i e h = i
no_element (x ∷ p) (o ∷ os) (n ∷ ns) (low, high, i) e h =
    no_element p os ns i (omega arith) (zero_factor n (prod ns) (omega arith) h)

-- What a range says of a slice: it has as many elements as the slice, and every point of the slice lies
-- in it, in row-major order of the global tensor.
abbrev pub IsRange : List ℕ → List ℕ → List ℕ → Option (ℕ × ℕ) → Type 0
IsRange shape offsets sizes none = Unit
IsRange shape offsets sizes (some (start, stop)) =
    (stop ≡ start + prod sizes)
    × ((p : List ℕ)
        → Inside p (box offsets sizes)
        → (start ≤ start_element p (element_strides shape))
          × (start_element p (element_strides shape) < stop))

-- For a slice whose offsets, sizes and global shape have the same number of dimensions, the contiguous
-- range, if there is one, has exactly as many elements as the slice, and every point of the slice has
-- its row-major place in the global tensor within the range.
pub element_range-IsRange :
    (shape offsets sizes : List ℕ)
    → length offsets ≡ length sizes
    → length sizes ≡ length shape
    → IsRange shape offsets sizes (element_range shape offsets sizes)
unfolding element_range
element_range-IsRange shape offsets sizes e f =
    let strides = element_strides shape in
    let same : length sizes ≡ length strides = f ∙ sym (length-element_strides shape) in
    elim (Bool-cases (eqb (prod sizes) 0)) [
      | inl empty ↦
          let zero_size = (eqb_iff (prod sizes) 0).0 empty in
          rw empty
            (omega (arith, zero_size), λ p i. absurd (no_element p offsets sizes i e zero_size))
      | inr full ↦
          rw full
            (elim (Bool-cases (
              eqb (last_element offsets sizes strides - start_element offsets strides + 1)
                (prod sizes))) [
                  | inl fills ↦
                      let count =
                        (eqb_iff
                            (last_element offsets sizes strides - start_element offsets strides + 1)
                            (prod sizes)).0
                          fills in
                      rw fills (
                        refl,
                        λ p i.
                            let (low, high) = between p offsets sizes strides i e same in
                            (low, omega arith),
                      )
                  | inr gaps ↦ rw gaps tt
                ])
    ]
