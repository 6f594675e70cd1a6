-- ===== src/Metadata/Gather/RoundTrip.antt =====
-- Every rank reads what every rank sent.
use mathlib.Core.List.{append_assoc}
use native.Mathlib.Nat.{pow-succ'}
use torch_checkpointing.Prelude.{
  ℕ, zero, suc, ◌-◌, ◌/◌, ◌*◌, ◌^◌, ◌<◌, ◌≤◌, ◌≡◌, refl, sym, ap, ◌∙◌, Option, some, List, [], ◌∷◌,
  ◌++◌, map, length, take, drop, replicate, arith, All, All-map, length-append, length-replicate,
  take_append, drop_append, lt→ltb,
}
use torch_checkpointing.Metadata.Gather.{
  to_bytes, from_bytes, padded, enumerate, prefixed_data, prefixed_of_ranks, extracted, loaded,
  all_gather_pickled_data,
}

length-to_bytes : (width n : ℕ) → length (to_bytes width n) ≡ width
unfolding to_bytes
length-to_bytes zero n = refl
length-to_bytes (suc width) n = ap suc (length-to_bytes width (n / 256))

below_power : (width n : ℕ) → n < 256 ^ suc width → n / 256 < 256 ^ width
below_power width n h =
    let step : 256 ^ suc width ≡ 256 * 256 ^ width = pow-succ' 256 width in
    omega (arith, rw step at h)

from_bytes-to_bytes : (width n : ℕ) → n < 256 ^ width → from_bytes (to_bytes width n) ≡ n
unfolding to_bytes from_bytes
from_bytes-to_bytes zero n h = omega arith
from_bytes-to_bytes (suc width) n h =
    let room : n / 256 < 256 ^ width = below_power width n h in
    omega (arith, from_bytes-to_bytes width (n / 256) room)

take-prefix : (width : ℕ) (xs ys : List ℕ) → length xs ≡ width → take width (xs ++ ys) ≡ xs
take-prefix width xs ys h = rw (sym h) (take_append xs ys)

drop-prefix : (width : ℕ) (xs ys : List ℕ) → length xs ≡ width → drop width (xs ++ ys) ≡ ys
drop-prefix width xs ys h = rw (sym h) (drop_append xs ys)

-- pickle loads what it dumped, and the size of the dump fits into 8 bytes.
abbrev pub Pickles {ℓ} : {Data : Type ℓ} → (Data → List ℕ) → (List ℕ → Option Data) → Data → Type ℓ
Pickles dumps loads d = (loads (dumps d) ≡ some d) × (length (dumps d) < 2 ^ 64)

module _ {Data : Type 0} (dumps : Data → List ℕ) where
  abbrev prefixed : Data → List ℕ
  prefixed d = to_bytes 8 (length (dumps d)) ++ dumps d

  abbrev Small : Data → Type 0
  Small d = length (dumps d) < 2 ^ 64

  prefixed_data_total : (d : Data) → Small d → prefixed_data dumps d ≡ some (prefixed d)
  unfolding prefixed_data
  prefixed_data_total d h = rw (lt→ltb (length (dumps d)) (2 ^ 64) h) refl

  prefixed_of_ranks_total :
      (datas : List Data)
      → All Small datas
      → prefixed_of_ranks dumps datas ≡ some (map prefixed datas)
  unfolding prefixed_of_ranks
  prefixed_of_ranks_total [] h = refl
  prefixed_of_ranks_total (d ∷ ds) h =
      ground (arith, prefixed_data_total d h.0, prefixed_of_ranks_total ds h.1)

-- The tensor of a rank, read back.
module _ {Data : Type 0} (dumps : Data → List ℕ) (loads : List ℕ → Option Data) where
  extracted-prefix :
      (prefix data' rest : List ℕ)
      → length prefix ≡ 8
      → from_bytes prefix ≡ length data'
      → extracted loads ((prefix ++ data') ++ rest) ≡ loads data'
  unfolding extracted
  extracted-prefix prefix data' rest l f =
      rw
        (
          append_assoc prefix data' rest,
          take-prefix 8 prefix (data' ++ rest) l,
          drop-prefix 8 prefix (data' ++ rest) l,
          f,
          take-prefix (length data') data' rest refl,
        )
        refl

  extracted-padded :
      (size : ℕ) (d : Data)
      → Pickles dumps loads d
      → extracted loads (padded size (to_bytes 8 (length (dumps d)) ++ dumps d)) ≡ some d
  unfolding padded
  extracted-padded size d (back, small) =
      extracted-prefix (to_bytes 8 (length (dumps d))) (dumps d) _
        (length-to_bytes 8 (length (dumps d))) (from_bytes-to_bytes 8 (length (dumps d)) small)
      ∙ back

  loaded-padded :
      (size rank : ℕ) (datas : List Data)
      → All (Pickles dumps loads) datas
      → loaded loads rank (map (padded size) (map (prefixed dumps) datas))
        ≡ some (enumerate rank datas)
  unfolding loaded enumerate
  loaded-padded size rank [] h = refl
  loaded-padded size rank (d ∷ ds) h =
      ground (arith, extracted-padded size d h.0, loaded-padded size (suc rank) ds h.1)

-- All lists are of one length.
abbrev pub IsLevel : ℕ → List (List ℕ) → Type 0
IsLevel size tensors = All (λ t. length t ≡ size) tensors

padded-IsLevel :
    (size : ℕ) (sent : List (List ℕ))
    → All (λ n. n ≤ size) (map length sent)
    → IsLevel size (map (padded size) sent)
unfolding padded
padded-IsLevel size [] h = tt
padded-IsLevel size (t ∷ ts) h = (
  omega (
    arith,
    h.0,
    length-append t (replicate (size - length t) 0),
    length-replicate {A = ℕ} (size - length t) 0,
  ),
  padded-IsLevel size ts h.1,
)

-- If pickle loads what each rank dumped, each dump is shorter than 2 ^ 64 bytes, the maximum of the sizes bounds
-- them and tensors of one size are gathered unchanged in the order of the ranks, then every rank
-- gets exactly the data of all ranks, each under the number of its rank.
pub all_gather_pickled_data-enumerate :
    {Data : Type 0} (dumps : Data → List ℕ) (loads : List ℕ → Option Data)
    (all_reduce_max : List ℕ → ℕ) (all_gather : List (List ℕ) → List (List ℕ))
    → ((sizes : List ℕ) → All (λ n. n ≤ all_reduce_max sizes) sizes)
    → ((size : ℕ) (tensors : List (List ℕ)) → IsLevel size tensors → all_gather tensors ≡ tensors)
    → (datas : List Data) → All (Pickles dumps loads) datas
    → all_gather_pickled_data dumps loads all_reduce_max all_gather datas ≡ some (enumerate 0 datas)
unfolding all_gather_pickled_data
all_gather_pickled_data-enumerate dumps loads reduce gather bounds gathers datas pickles =
    let sent = map (prefixed dumps) datas in
    let size = reduce (map length sent) in
    let level = padded-IsLevel size sent (bounds (map length sent)) in
    ground (
      arith,
      prefixed_of_ranks_total dumps datas
          (All-map (Pickles dumps loads) datas (λ d p. p.1) pickles),
      gathers size (map (padded size) sent) level,
      loaded-padded dumps loads size 0 datas pickles,
    )
