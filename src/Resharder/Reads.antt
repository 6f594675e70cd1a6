-- ===== src/Resharder/Reads.antt =====
-- The offset reads of torch_checkpointing/default_resharder.py: `_read_exact`, the bounds of a slice, and the
-- bytes of a slice of a stored tensor. A stream is what `readinto` gives at a position for a number of
-- bytes, nothing at its end, and where it stands after a `seek`.
pub mod Exact
pub mod Elements
mod Tests
use torch_checkpointing.Prelude.{
  ℕ, zero, suc, ◌+◌, ◌-◌, ◌*◌, Bool, true, false, not, ◌&&◌, ◌||◌, Option, none, some, List, [],
  ◌∷◌, ◌++◌, eqb, ltb, leb, length, if◌then◌else◌,
}
use torch_checkpointing.Prelude.Result.{Result, ok, err, ◌>>=◌}
use torch_checkpointing.Resharder.{LoadPlan}

pub data ReadError : Type 0 where
  cannot_seek : (offset : ℕ) → ReadError
  end_of_file : (offset bytes_read : ℕ) → ReadError
  out_of_fuel : ReadError
  rank_mismatch : ReadError
  out_of_bounds : (dimension : ℕ) → ReadError
  not_implemented : ReadError

pub record Stream : Type 0 where
  pub readinto : ℕ → ℕ → List ℕ
  pub position_after_seek : ℕ → ℕ

-- What a tensor on the meta device tells of its storage in the file.
pub record Source : Type 0 where
  pub is_plain : Bool
  pub is_strided : Bool
  pub is_quantized : Bool
  pub shape : List ℕ
  pub stride : List ℕ
  pub storage_offset : ℕ
  pub element_size : ℕ
  pub checkpoint_offset : Option ℕ

module _ (stream : Stream) where
  -- The loop, with the bytes that are still wanted.
  unfoldable pub read_rest : ℕ → ℕ → ℕ → ℕ → Result ReadError (List ℕ)
  read_rest zero offset bytes_read wanted = err out_of_fuel
  read_rest (suc fuel) offset bytes_read wanted = elim (eqb wanted 0) [
    | true ↦ ok []
    | false ↦ elim (stream.readinto (offset + bytes_read) wanted) [
      | [] ↦ err (end_of_file offset bytes_read)
      | b ∷ bs ↦
          read_rest fuel offset (bytes_read + length (b ∷ bs)) (wanted - length (b ∷ bs))
          >>= λ rest. ok ((b ∷ bs) ++ rest)
    ]
  ]

  -- `_read_exact`, with the size of the buffer.
  unfoldable pub read_exact : ℕ → ℕ → Result ReadError (List ℕ)
  read_exact offset size =
      if eqb (stream.position_after_seek offset) offset
      then read_rest (suc size) offset 0 size
      else err (cannot_seek offset)

-- The loop of `_validate_source_slice_bounds`; no number is negative.
unfoldable pub validate_dimensions : ℕ → List ℕ → List ℕ → List ℕ → Result ReadError (Unit {0})
validate_dimensions dimension (n ∷ shape) (offset ∷ offsets) (size ∷ sizes) =
    let rest = validate_dimensions (dimension + 1) shape offsets sizes in
    if ltb n (offset + size) then err (out_of_bounds dimension) else rest
validate_dimensions dimension _ _ _ = ok tt

unfoldable pub validate_source_slice_bounds : List ℕ → LoadPlan → Result ReadError (Unit {0})
unfolding validate_dimensions
validate_source_slice_bounds shape plan =
    if not (
      eqb (length plan.src_offsets) (length plan.src_sizes)
      && eqb (length plan.src_sizes) (length shape))
    then err rank_mismatch
    else validate_dimensions 0 shape plan.src_offsets plan.src_sizes

-- `sum(offset * stride for offset, stride in zip(...))`
unfoldable pub dot : List ℕ → List ℕ → ℕ
dot (a ∷ as') (s ∷ ss) = a * s + dot as' ss
dot _ _ = 0

unfoldable pub less_one : List ℕ → List ℕ
less_one [] = []
less_one (n ∷ ns) = (n - 1) ∷ less_one ns

unfoldable pub any_empty : List ℕ → Bool
any_empty [] = false
any_empty (n ∷ ns) = eqb n 0 || any_empty ns

-- The tensor that is made of the bytes: `as_strided`, or an empty one.
pub data SliceData : Type 0 where
  empty : SliceData
  as_strided : (packed : List ℕ) (sizes strides : List ℕ) → SliceData

-- `_read_source_tensor_slice` up to the views that conjugate and negate.
unfoldable pub read_source_tensor_slice : Stream → Source → LoadPlan → Result ReadError SliceData
unfolding validate_source_slice_bounds any_empty less_one dot
read_source_tensor_slice stream source plan =
    if not source.is_plain || not source.is_strided || source.is_quantized
    then err not_implemented
    else (validate_source_slice_bounds source.shape plan >>= λ checked.
        if any_empty plan.src_sizes then ok empty else elim source.checkpoint_offset [
          | none ↦ err not_implemented
          | some checkpoint_offset ↦
              read_exact stream
                (checkpoint_offset
                  + (source.storage_offset + dot plan.src_offsets source.stride)
                    * source.element_size)
                ((1 + dot (less_one plan.src_sizes) source.stride) * source.element_size)
              >>= λ packed. ok (as_strided packed plan.src_sizes source.stride)
        ])
