-- ===== src/Tensors/Tests.antt =====
-- Rows one and two of a tensor of four by three.
use torch_checkpointing.Prelude.{◌≡◌, refl, some, [], ◌∷◌, inr}
use torch_checkpointing.Tensors.{
  TensorSlice, element_range, contiguous_global_element_range, contiguous_strides, element_strides,
  start_element, last_element,
}
use torch_checkpointing.Tensors.Ranges.{
  IsRange, element_range-IsRange, contiguous_strides-element_strides,
}

abbrev two_rows : TensorSlice
two_rows = record {
  global_shape = some (4 ∷ 3 ∷ []);
  global_offsets = some (1 ∷ 0 ∷ []);
  local_offsets = 0 ∷ 0 ∷ [];
  slice_shape = 2 ∷ 3 ∷ [];
}

is_contiguous : contiguous_global_element_range two_rows ≡ inr (some (3, 9))
unfolding contiguous_global_element_range element_strides start_element last_element
is_contiguous = refl

element_range-IsRange_example :
    IsRange
      (4 ∷ 3 ∷ [])
      (1 ∷ 0 ∷ [])
      (2 ∷ 3 ∷ [])
      (element_range (4 ∷ 3 ∷ []) (1 ∷ 0 ∷ []) (2 ∷ 3 ∷ []))
element_range-IsRange_example =
    element_range-IsRange (4 ∷ 3 ∷ []) (1 ∷ 0 ∷ []) (2 ∷ 3 ∷ []) refl refl

contiguous_strides-element_strides_example :
    contiguous_strides (4 ∷ 3 ∷ []) ≡ element_strides (4 ∷ 3 ∷ [])
contiguous_strides-element_strides_example = contiguous_strides-element_strides (4 ∷ 3 ∷ [])
