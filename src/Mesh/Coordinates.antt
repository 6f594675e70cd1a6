-- ===== src/Mesh/Coordinates.antt =====
-- The coordinates of ranks (torch_checkpointing/dtensor_metadata.py).
use torch_checkpointing.Prelude.{
  ℕ, zero, suc, ◌≤◌, ◌≡◌, ◌↔◌, refl, sym, ap, ◌∙◌, ◌⊎◌, inl, inr, true, false, none, some, List, [],
  ◌∷◌, length, get_elem?, arith, Bool-cases, eqb, eqb_iff, nat_eq,
}
use torch_checkpointing.Prelude.Dict.{Dict, get, put, get-put}
use torch_checkpointing.Mesh.{
  DeviceMeshSpec, member, to_set, post_init, positions, zip_dict, rank_coordinates, get_coordinate,
}
use torch_checkpointing.Mesh.Positions.{IsCoordinate, ravel, get-positions, positions-get}

-- No rank stands at two places.
abbrev pub IsDistinct : List ℕ → Type 0
IsDistinct [] = Unit
IsDistinct (x ∷ xs) = (member x xs ≡ false) × IsDistinct xs

to_set-length : (xs : List ℕ) → length (to_set xs) ≤ length xs
unfolding to_set
to_set-length [] = omega arith
to_set-length (x ∷ xs) = elim (Bool-cases (member x xs)) [
  | inl e ↦ rw e (omega (arith, to_set-length xs))
  | inr e ↦ rw e (omega (arith, to_set-length xs))
]

distinct : (xs : List ℕ) → length (to_set xs) ≡ length xs → IsDistinct xs
unfolding to_set
distinct [] h = tt
distinct (x ∷ xs) h = elim (Bool-cases (member x xs)) [
  | inl e ↦ absurd (ground (arith, to_set-length xs))
  | inr e ↦ (e, distinct xs (ground arith))
]

-- A rank that stands at a place is a member.
member-get : (xs : List ℕ) (i r : ℕ) → get_elem? xs i ≡ some r → member r xs ≡ true
unfolding member
member-get [] i r h = ground arith
member-get (x ∷ xs) zero r h = ground arith
member-get (x ∷ xs) (suc i) r h = ground (arith, member-get xs i r h)

zip_dict_other :
    (ks : List ℕ) (vs : List (List ℕ)) (d : Dict ℕ (List ℕ)) (k : ℕ)
    → member k ks ≡ false
    → get k (zip_dict ks vs d) ≡ get k d
unfolding zip_dict member
zip_dict_other [] vs d k h = refl
zip_dict_other (x ∷ ks) [] d k h = refl
zip_dict_other (x ∷ ks) (c ∷ vs) d k h =
    ground (arith, zip_dict_other ks vs (put x c d) k, get-put x k c d)

-- The value at the key's place.
zip_dict-get :
    (ks : List ℕ) (vs : List (List ℕ)) (d : Dict ℕ (List ℕ)) (i k : ℕ) (v : List ℕ)
    → IsDistinct ks
    → get_elem? ks i ≡ some k
    → get_elem? vs i ≡ some v
    → get k (zip_dict ks vs d) ≡ some v
unfolding zip_dict
zip_dict-get [] vs d i k v n h g = ground arith
zip_dict-get (x ∷ ks) [] d i k v n h g = ground arith
zip_dict-get (x ∷ ks) (c ∷ vs) d zero k v n h g =
    let same : x ≡ k = ground arith in
    ground (arith, zip_dict_other ks vs (put x c d) x n.0, get-put x x c d, (eqb_iff x x).1 refl)
zip_dict-get (x ∷ ks) (c ∷ vs) d (suc i) k v n h g = zip_dict-get ks vs (put x c d) i k v n.1 h g

-- Nothing else is found.
zip_dict-only :
    (ks : List ℕ) (vs : List (List ℕ)) (d : Dict ℕ (List ℕ)) (k : ℕ) (v : List ℕ)
    → get k (zip_dict ks vs d) ≡ some v
    → ((i : ℕ) × (get_elem? ks i ≡ some k) × (get_elem? vs i ≡ some v)) ⊎ (get k d ≡ some v)
unfolding zip_dict
zip_dict-only [] vs d k v h = inr h
zip_dict-only (x ∷ ks) [] d k v h = inr h
zip_dict-only (x ∷ ks) (c ∷ vs) d k v h = elim (zip_dict-only ks vs (put x c d) k v h) [
  | inl (i, e, g) ↦ inl (suc i, e, g)
  | inr e ↦ elim (Bool-cases (eqb x k)) [
    | inl same ↦ inl (0, ground (arith, (eqb_iff x k).0 same), ground (arith, get-put x k c d))
    | inr other ↦ inr (ground (arith, get-put x k c d))
  ]
]

post_init-IsDistinct : (m : DeviceMeshSpec) → post_init m ≡ none → IsDistinct m.mesh_data
unfolding post_init
post_init-IsDistinct m h =
    distinct m.mesh_data
      (ground (arith, (eqb_iff (length (to_set m.mesh_data)) (length m.mesh_data)).0))

-- For a mesh that passes `__post_init__`, `get_coordinate` finds a coordinate of a rank exactly if it has
-- an index in range for each dimension and the rank stands at its row-major place in the mesh.
pub get_coordinate_iff :
    (m : DeviceMeshSpec) (rank : ℕ) (c : List ℕ)
    → post_init m ≡ none
    → (get_coordinate m rank ≡ some c)
      ↔ (IsCoordinate m.mesh_shape c × (get_elem? m.mesh_data (ravel m.mesh_shape c) ≡ some rank))
unfolding get_coordinate rank_coordinates
get_coordinate_iff m rank c valid = (
  (λ h. elim (zip_dict-only m.mesh_data (positions m.mesh_shape) [] rank c h) [
    | inl (i, e, g) ↦
        let (is, place) = get-positions m.mesh_shape i c g in
        (is, ap (λ k. get_elem? m.mesh_data k) (sym place) ∙ e)
    | inr e ↦ ground arith
  ]),
  λ (is, e).
      zip_dict-get m.mesh_data (positions m.mesh_shape) [] (ravel m.mesh_shape c) rank c
        (post_init-IsDistinct m valid) e (positions-get m.mesh_shape c is),
)
