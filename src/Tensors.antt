-- ===== src/Tensors.antt =====
-- torch_checkpointing/tensor_slice.py, and the strides of torch_checkpointing/serialized_tensor_slice.py.
-- Sizes and offsets are native numbers, so the assertions that they are not negative hold.
pub mod Ranges
mod Tests
use torch_checkpointing.Prelude.{
  ℕ, ◌+◌, ◌-◌, ◌*◌, not, Bool, true, false, ◌&&◌, Option, none, some, List, [], ◌∷◌, leb, eqb,
  if◌then◌else◌, length, prod, ◌⊎◌, inl, inr,
}

pub record TensorSlice : Type 0 where
  pub global_shape : Option (List ℕ)
  pub global_offsets : Option (List ℕ)
  pub local_offsets : List ℕ
  pub slice_shape : List ℕ

-- The assertions that can fail.
pub data SliceError : Type 0 where
  partly_resolved dimensions_differ does_not_fit already_resolved unresolved : SliceError

-- `offset + size <= global_size` in every dimension
unfoldable pub fits : List ℕ → List ℕ → List ℕ → Bool
fits (offset ∷ offsets) (size ∷ sizes) (global_size ∷ shape) =
    leb (offset + size) global_size && fits offsets sizes shape
fits _ _ _ = true

-- The checks of a resolved slice.
resolved_error : List ℕ → List ℕ → List ℕ → ℕ → Option SliceError
resolved_error shape offsets sizes ndim =
    if not (eqb (length shape) (length offsets) && eqb (length offsets) ndim)
    then some dimensions_differ
    else if fits offsets sizes shape
    then none
    else some does_not_fit

-- `__post_init__`: the assertion that fails, if any.
unfoldable pub slice_error : Option (List ℕ) → Option (List ℕ) → List ℕ → List ℕ → Option SliceError
unfolding resolved_error fits
slice_error none (some o) local sizes = some partly_resolved
slice_error (some g) none local sizes = some partly_resolved
slice_error none none local sizes =
    if eqb (length sizes) (length local) then none else some dimensions_differ
slice_error (some shape) (some offsets) local sizes =
    if eqb (length sizes) (length local)
    then resolved_error shape offsets sizes (length local)
    else some dimensions_differ

-- `with_global_layout` on a slice that is constructed: the new slice, or the assertion that fails.
unfoldable pub with_global_layout : List ℕ → List ℕ → TensorSlice → SliceError ⊎ TensorSlice
unfolding slice_error
with_global_layout shape offsets t = elim t.global_shape [
  | some _ ↦ inl already_resolved
  | none ↦ elim (slice_error (some shape) (some offsets) t.local_offsets t.slice_shape) [
    | some e ↦ inl e
    | none ↦ inr (record t { global_shape = some shape; global_offsets = some offsets })
  ]
]

-- `math.prod(self.global_shape[index + 1:])` for each dimension
unfoldable pub element_strides : List ℕ → List ℕ
element_strides [] = []
element_strides (n ∷ ns) = prod ns ∷ element_strides ns

-- `sum(offset * stride for ...)`
unfoldable pub start_element : List ℕ → List ℕ → ℕ
start_element (offset ∷ offsets) (stride ∷ strides) =
    offset * stride + start_element offsets strides
start_element _ _ = 0

-- `sum((offset + size - 1) * stride for ...)`
unfoldable pub last_element : List ℕ → List ℕ → List ℕ → ℕ
last_element (offset ∷ offsets) (size ∷ sizes) (stride ∷ strides) =
    (offset + size - 1) * stride + last_element offsets sizes strides
last_element _ _ _ = 0

-- The rest of `contiguous_global_element_range` of a resolved slice.
unfoldable pub element_range : List ℕ → List ℕ → List ℕ → Option (ℕ × ℕ)
element_range shape offsets sizes =
    let strides = element_strides shape in
    let start = start_element offsets strides in
    let last = last_element offsets sizes strides in
    if eqb (prod sizes) 0
    then some (0, 0)
    else if not (eqb (last - start + 1) (prod sizes))
    then none
    else some (start, start + prod sizes)

-- `contiguous_global_element_range`; an assertion fails on the left.
unfoldable pub contiguous_global_element_range : TensorSlice → SliceError ⊎ Option (ℕ × ℕ)
unfolding element_range
contiguous_global_element_range t = elim t.global_shape [
  | none ↦ inl unresolved
  | some shape ↦ elim t.global_offsets [
    | none ↦ inl unresolved
    | some offsets ↦ inr (element_range shape offsets t.slice_shape)
  ]
]

-- The loop of `contiguous_strides` from the last dimension on: the strides so far, and `stride`.
unfoldable pub strides_loop : List ℕ → List ℕ × ℕ
strides_loop [] = ([], 1)
strides_loop (n ∷ ns) = let (strides, stride) = strides_loop ns in (stride ∷ strides, stride * n)

unfoldable pub contiguous_strides : List ℕ → List ℕ
contiguous_strides shape = (strides_loop shape).0
