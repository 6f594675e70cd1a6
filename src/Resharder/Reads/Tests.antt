-- ===== src/Resharder/Reads/Tests.antt =====
-- Runs of the offset reads of torch_checkpointing/default_resharder.py.
use torch_checkpointing.Prelude.{
  ℕ, zero, suc, ◌+◌, ◌*◌, ◌≤◌, ◌<◌, ◌≡◌, refl, ap, true, false, some, List, [], ◌∷◌, length, take,
  drop, min, arith,
}
use torch_checkpointing.Prelude.Result.{ok, err}
use torch_checkpointing.Resharder.{LoadPlan}
use torch_checkpointing.Resharder.Reads.{
  end_of_file, as_strided, Source, Stream, dot, less_one, read_rest, read_exact,
  read_source_tensor_slice,
}
use torch_checkpointing.Resharder.Reads.Exact.{IsStreamOf, length-drop, read_exact-Reads}
use torch_checkpointing.Resharder.Reads.Elements.{
  fits_scalar, fits_next, IsIndexOf, address, shifted, read_source_tensor_slice-Elements,
}

-- A file that gives at most three bytes at a time.
abbrev slow_stream : List ℕ → Stream
slow_stream content = record {
  readinto = λ p n. take (min n 3) (drop p content);
  position_after_seek = λ p. p;
}

take-length-take : (k : ℕ) (xs : List ℕ) → take k xs ≡ take (length (take k xs)) xs
take-length-take zero xs = refl
take-length-take (suc k) [] = refl
take-length-take (suc k) (x ∷ xs) = ap (λ t. x ∷ t) (take-length-take k xs)

length-take_below : (k : ℕ) (xs : List ℕ) → length (take k xs) ≤ k
length-take_below zero xs = omega arith
length-take_below (suc k) [] = omega arith
length-take_below (suc k) (x ∷ xs) = omega (arith, length-take_below k xs)

take_some : (k : ℕ) (xs : List ℕ) → 0 < k → 0 < length xs → 0 < length (take k xs)
take_some zero xs h g = absurd (omega arith)
take_some (suc k) [] h g = absurd (omega arith)
take_some (suc k) (x ∷ xs) h g = omega arith

slow_stream-IsStreamOf : (content : List ℕ) → IsStreamOf content (slow_stream content)
slow_stream-IsStreamOf content = record {
  exact = λ p n. take-length-take (min n 3) (drop p content);
  bounded = λ p n. omega (arith, length-take_below (min n 3) (drop p content));
  progress = λ p n some_wanted before_end.
      take_some (min n 3) (drop p content) (omega arith) (omega (arith, length-drop p content));
  seeks = λ p. refl;
}

abbrev file : List ℕ
file = 0 ∷ 1 ∷ 2 ∷ 3 ∷ 4 ∷ 5 ∷ 6 ∷ 7 ∷ 8 ∷ 9 ∷ 10 ∷ 11 ∷ 12 ∷ 13 ∷ []

-- Two rounds of the loop, and a read beyond the end.
reads_twice : read_exact (slow_stream file) 2 4 ≡ ok (2 ∷ 3 ∷ 4 ∷ 5 ∷ [])
unfolding read_exact read_rest
reads_twice = refl

reads_beyond : read_exact (slow_stream file) 10 7 ≡ err (end_of_file 10 4)
unfolding read_exact read_rest
reads_beyond = refl

read_exact-Reads_example :
    (4 ≤ 12 → read_exact (slow_stream file) 2 4 ≡ ok (2 ∷ 3 ∷ 4 ∷ 5 ∷ []))
    × (12 < 4 → read_exact (slow_stream file) 2 4 ≡ err (end_of_file 2 12))
read_exact-Reads_example =
    read_exact-Reads file (slow_stream file) (slow_stream-IsStreamOf file) 2 4

-- Two bytes for each element of a matrix of two rows, of which the last two columns are wanted.
abbrev matrix : Source
matrix = record {
  is_plain = true;
  is_strided = true;
  is_quantized = false;
  shape = 2 ∷ 3 ∷ [];
  stride = 3 ∷ 1 ∷ [];
  storage_offset = 0;
  element_size = 2;
  checkpoint_offset = some 2;
}

abbrev last_columns : LoadPlan
last_columns = record {
  offsets = 0 ∷ 0 ∷ [];
  sizes = 2 ∷ 2 ∷ [];
  src_rank = 0;
  src_fqn = "w";
  src_offsets = 0 ∷ 1 ∷ [];
  src_sizes = 2 ∷ 2 ∷ [];
  transpose_dims = [];
  src_elem_size = 0;
  src_dtype = "";
}

long :
    address 2 matrix (0 ∷ 1 ∷ []) + (1 + dot (less_one (2 ∷ 2 ∷ [])) (3 ∷ 1 ∷ [])) * 2 ≤ length file
unfolding dot less_one
long = omega arith

read_source_tensor_slice-Elements_example :
    (packed : List ℕ) × (read_source_tensor_slice (slow_stream file) matrix last_columns
      ≡ ok (as_strided packed (2 ∷ 2 ∷ []) (3 ∷ 1 ∷ [])))
    × ((is : List ℕ)
        → IsIndexOf (2 ∷ 2 ∷ []) is
        → take 2 (drop (dot is (3 ∷ 1 ∷ []) * 2) packed)
          ≡ take 2 (drop (address 2 matrix (shifted (0 ∷ 1 ∷ []) is)) file))
read_source_tensor_slice-Elements_example =
    read_source_tensor_slice-Elements file (slow_stream file) (slow_stream-IsStreamOf file) matrix
      last_columns 2 refl refl refl refl
      (fits_next (omega arith) (omega arith) (fits_next (omega arith) (omega arith) fits_scalar))
      long
