-- ===== src/Metadata/Gather.antt =====
-- `DefaultMetadataManager._all_gather_pickled_data` of torch_checkpointing/metadata_manager.py, as one
-- run of all ranks. pickle and the two collectives are parameters; a byte is a number.
pub mod RoundTrip
use torch_checkpointing.Prelude.{
  ℕ, zero, suc, ◌+◌, ◌-◌, ◌/◌, ◌%◌, ◌*◌, ◌^◌, Option, none, some, List, [], ◌∷◌, ◌++◌, map, length,
  ltb, take, drop, replicate, if◌then◌else◌,
}
use torch_checkpointing.Prelude.Dict.{Dict}

-- `n.to_bytes(width, byteorder="little")`, for a number that fits
unfoldable pub to_bytes : ℕ → ℕ → List ℕ
to_bytes zero n = []
to_bytes (suc width) n = n % 256 ∷ to_bytes width (n / 256)

-- `int.from_bytes(bytes, byteorder="little")`
unfoldable pub from_bytes : List ℕ → ℕ
from_bytes [] = 0
from_bytes (b ∷ bytes) = b + 256 * from_bytes bytes

-- Padding with zeros up to the size; `b"\0" * n` is empty where n is negative.
unfoldable pub padded : ℕ → List ℕ → List ℕ
padded size bytes = bytes ++ replicate (size - length bytes) 0

-- A value for each rank, from the rank given on.
unfoldable pub enumerate {ℓ} : {A : Type ℓ} → ℕ → List A → Dict ℕ A
enumerate rank [] = []
enumerate rank (a ∷ rest) = (rank, a) ∷ enumerate (suc rank) rest

module _ {Data : Type 0} (dumps : Data → List ℕ) where
  -- The size in 8 bytes, then the pickled data; `to_bytes` raises an error if the size does not fit.
  unfoldable pub prefixed_data : Data → Option (List ℕ)
  unfolding to_bytes
  prefixed_data d =
      if ltb (length (dumps d)) (2 ^ 64)
      then some (to_bytes 8 (length (dumps d)) ++ dumps d)
      else none

  -- The ranks' data, if no rank raises an error.
  unfoldable pub prefixed_of_ranks : List Data → Option (List (List ℕ))
  prefixed_of_ranks [] = some []
  prefixed_of_ranks (d ∷ ds) =
      let rest = prefixed_of_ranks ds in
      elim (prefixed_data d) [
        | none ↦ none
        | some bytes ↦ elim rest [ none ↦ none | some all ↦ some (bytes ∷ all) ]
      ]

module _ {Data : Type 0} (loads : List ℕ → Option Data) where
  -- What a rank reads out of one gathered tensor.
  unfoldable pub extracted : List ℕ → Option Data
  unfolding from_bytes
  extracted tensor =
      let actual_size = from_bytes (take 8 tensor) in loads (take actual_size (drop 8 tensor))

  unfoldable pub loaded : ℕ → List (List ℕ) → Option (Dict ℕ Data)
  loaded rank [] = some []
  loaded rank (tensor ∷ tensors) =
      let rest = loaded (suc rank) tensors in
      elim (extracted tensor) [
        | none ↦ none
        | some d ↦ elim rest [ none ↦ none | some all ↦ some ((rank, d) ∷ all) ]
      ]

-- `all_reduce_max` gives each rank the maximum of the sizes, `all_gather` the tensors of all ranks.
module _ {Data : Type 0} (dumps : Data → List ℕ) (loads : List ℕ → Option Data)
    (all_reduce_max : List ℕ → ℕ) (all_gather : List (List ℕ) → List (List ℕ)) where
  unfoldable pub all_gather_pickled_data : List Data → Option (Dict ℕ Data)
  all_gather_pickled_data datas = elim (prefixed_of_ranks dumps datas) [
    | none ↦ none
    | some sent ↦
        let max_size = all_reduce_max (map length sent) in
        loaded loads 0 (all_gather (map (padded max_size) sent))
  ]
