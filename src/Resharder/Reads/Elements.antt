-- ===== src/Resharder/Reads/Elements.antt =====
-- The elements behind the bytes of `_read_source_tensor_slice` of torch_checkpointing/default_resharder.py.
use torch_checkpointing.Prelude.{
  ℕ, ◌+◌, ◌*◌, ◌≤◌, ◌<◌, ◌≡◌, refl, ap, ◌∙◌, true, false, some, List, [], ◌∷◌, length, take, drop,
  arith, eqb, ltb,
}
use torch_checkpointing.Prelude.Result.{ok}
use torch_checkpointing.Resharder.{LoadPlan}
use torch_checkpointing.Resharder.Reads.{
  as_strided, Source, Stream, any_empty, dot, less_one, validate_dimensions,
  validate_source_slice_bounds, read_source_tensor_slice,
}
use torch_checkpointing.Resharder.Reads.Exact.{
  IsStreamOf, read_exact-Reads, drop-drop, take-drop-take,
}

-- A slice that is not empty and stands inside the shape.
pub data Fits : List ℕ → List ℕ → List ℕ → Type 0 where
  fits_scalar : Fits [] [] []
  fits_next :
      {n offset size : ℕ} {shape offsets sizes : List ℕ} (some_left : 0 < size)
      (inside : offset + size ≤ n) (rest : Fits shape offsets sizes)
      → Fits (n ∷ shape) (offset ∷ offsets) (size ∷ sizes)

pub data IsIndexOf : List ℕ → List ℕ → Type 0 where
  index_of_scalar : IsIndexOf [] []
  index_next :
      {size i : ℕ} {sizes is : List ℕ} (below : i < size) (rest : IsIndexOf sizes is)
      → IsIndexOf (size ∷ sizes) (i ∷ is)

-- The index in the whole tensor of an index in the slice.
abbrev pub shifted : List ℕ → List ℕ → List ℕ
shifted (offset ∷ offsets) (i ∷ is) = (offset + i) ∷ shifted offsets is
shifted _ _ = []

dimensions-Fits :
    (k : ℕ) {shape offsets sizes : List ℕ}
    → Fits shape offsets sizes
    → validate_dimensions k shape offsets sizes ≡ ok tt
unfolding validate_dimensions
dimensions-Fits k fits_scalar = refl
dimensions-Fits k (fits_next {n} {offset} {size} some_left inside rest) =
    let no_overrun : ltb n (offset + size) ≡ false = ground arith in
    rw no_overrun (dimensions-Fits (k + 1) rest)

length-Fits :
    {shape offsets sizes : List ℕ}
    → Fits shape offsets sizes
    → (length offsets ≡ length sizes) × (length sizes ≡ length shape)
length-Fits fits_scalar = (refl, refl)
length-Fits (fits_next some_left inside rest) = omega (arith, length-Fits rest)

any_empty-Fits : {shape offsets sizes : List ℕ} → Fits shape offsets sizes → any_empty sizes ≡ false
unfolding any_empty
any_empty-Fits fits_scalar = refl
any_empty-Fits (fits_next {size} some_left inside rest) =
    let not_zero : eqb size 0 ≡ false = ground arith in rw not_zero (any_empty-Fits rest)

validate-Fits :
    (shape : List ℕ) (plan : LoadPlan)
    → Fits shape plan.src_offsets plan.src_sizes
    → validate_source_slice_bounds shape plan ≡ ok tt
unfolding validate_source_slice_bounds
validate-Fits shape plan f =
    let same = length-Fits f in
    let first : eqb (length plan.src_offsets) (length plan.src_sizes) ≡ true =
      ground (arith, same.0) in
    let second : eqb (length plan.src_sizes) (length shape) ≡ true = ground (arith, same.1) in
    rw (first, second) (dimensions-Fits 0 f)

dot-shifted :
    {shape offsets sizes is : List ℕ} (strides : List ℕ)
    → Fits shape offsets sizes
    → IsIndexOf sizes is
    → dot (shifted offsets is) strides ≡ dot offsets strides + dot is strides
unfolding dot
dot-shifted strides fits_scalar index_of_scalar = refl
dot-shifted [] (fits_next some_left inside rest) (index_next below is) = refl
dot-shifted (s ∷ strides) (fits_next some_left inside rest) (index_next below is) =
    grind (arith, dot-shifted strides rest is)

dot-below :
    {sizes is : List ℕ} (strides : List ℕ)
    → IsIndexOf sizes is
    → dot is strides ≤ dot (less_one sizes) strides
unfolding dot less_one
dot-below strides index_of_scalar = omega arith
dot-below [] (index_next below rest) = omega arith
dot-below (s ∷ strides) (index_next below rest) = grind (arith, dot-below strides rest)

-- Where an element stands in the file.
abbrev pub address : ℕ → Source → List ℕ → ℕ
address checkpoint_offset source i =
    checkpoint_offset + (source.storage_offset + dot i source.stride) * source.element_size

unfoldable span : Source → List ℕ → ℕ
span source sizes = (1 + dot (less_one sizes) source.stride) * source.element_size

address_add : (c o a b e : ℕ) → c + (o + a) * e + b * e ≡ c + (o + (a + b)) * e
address_add c o a b e = grind arith

inside_span :
    (source : Source) {sizes is : List ℕ}
    → IsIndexOf sizes is
    → dot is source.stride * source.element_size + source.element_size ≤ span source sizes
unfolding span
inside_span source is = grind (arith, dot-below source.stride is)

module _ (content : List ℕ) (s : Stream) (r : IsStreamOf content s) (source : Source)
    (plan : LoadPlan) (c : ℕ) where
  read_source_tensor_slice-IsOk :
      source.is_plain ≡ true
      → source.is_strided ≡ true
      → source.is_quantized ≡ false
      → source.checkpoint_offset ≡ some c
      → Fits source.shape plan.src_offsets plan.src_sizes
      → address c source plan.src_offsets + span source plan.src_sizes ≤ length content
      → read_source_tensor_slice s source plan
        ≡ ok (
            as_strided
              (take (span source plan.src_sizes) (drop (address c source plan.src_offsets) content))
              plan.src_sizes
              source.stride)
  unfolding read_source_tensor_slice span
  read_source_tensor_slice-IsOk plain strided full offset f long =
      let read =
        (read_exact-Reads content s r (address c source plan.src_offsets)
            (span source plan.src_sizes)).0
          (omega arith) in
      rw (plain, strided, full, validate-Fits source.shape plan f, any_empty-Fits f, offset, read)
        refl

  -- For a plain tensor whose storage is in the file, and a slice of it that is not empty and inside its
  -- shape, `_read_source_tensor_slice` ends with a tensor of the sizes of the slice, each element of which
  -- has the bytes that the file holds for it.
  pub read_source_tensor_slice-Elements :
      source.is_plain ≡ true
      → source.is_strided ≡ true
      → source.is_quantized ≡ false
      → source.checkpoint_offset ≡ some c
      → Fits source.shape plan.src_offsets plan.src_sizes
      → address c source plan.src_offsets
          + (1 + dot (less_one plan.src_sizes) source.stride) * source.element_size
        ≤ length content
      → (packed : List ℕ) × (read_source_tensor_slice s source plan
          ≡ ok (as_strided packed plan.src_sizes source.stride))
        × ((is : List ℕ)
            → IsIndexOf plan.src_sizes is
            → take source.element_size (drop (dot is source.stride * source.element_size) packed)
              ≡ take source.element_size
                  (drop (address c source (shifted plan.src_offsets is)) content))
  unfolding span
  read_source_tensor_slice-Elements plain strided full offset f long =
      let first = address c source plan.src_offsets in
      (
        take (span source plan.src_sizes) (drop first content),
        read_source_tensor_slice-IsOk plain strided full offset f long,
        λ is j.
            let to_element = dot is source.stride * source.element_size in
            let same : first + to_element ≡ address c source (shifted plan.src_offsets is) =
              rw (dot-shifted source.stride f j) (
                address_add c source.storage_offset (dot plan.src_offsets source.stride)
                  (dot is source.stride) source.element_size) in
            take-drop-take source.element_size to_element (span source plan.src_sizes)
              (drop first content) (inside_span source j)
            ∙ ap (take source.element_size) (drop-drop to_element first content)
            ∙ ap (λ p. take source.element_size (drop p content)) same,
      )
