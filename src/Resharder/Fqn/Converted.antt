-- ===== src/Resharder/Fqn/Converted.antt =====
-- A dict with names for keys has the same values, or two paths have one name.
use mathlib.Core.Path.{subst}
use torch_checkpointing.Prelude.{
  ℕ, ◌≡◌, ◌≢◌, ◌⊎◌, inl, inr, refl, true, Option, none, some, String, [], ◌∷◌, ◌==◌, arith,
  Bool-cases, Option-cases, string_eq, list_eq, list_beq_iff,
}
use torch_checkpointing.Prelude.Result.{Result, ok, err}
use torch_checkpointing.Prelude.Dict.{
  Dict, get, put, has, IsDict, put-IsDict, get-put, get-later, get-own,
}
use torch_checkpointing.Types.{NestedPath, path_key_eq}
use torch_checkpointing.Resharder.Fqn.{
  Collision, collision, get_fqn_from_nested_path, convert_loop, convert_nested_path_dict_to_fqn,
}

none-some : {V : Type 0} {o : Option V} {v : V} → o ≡ none → o ≡ some v → ⊥
none-some e f = cc

module _ {V : Type 0} (fqn_of : NestedPath → String) where
  -- The value and the path are found under the name.
  abbrev pub Named : NestedPath → V → Dict String V × Dict String NestedPath → Type 0
  Named path v r = (get (fqn_of path) r.0 ≡ some v) × (get (fqn_of path) r.1 ≡ some path)

  convert_loop-keeps :
      (result : Dict String V) (paths : Dict String NestedPath) (d : Dict NestedPath V)
      (r : Dict String V × Dict String NestedPath) (path : NestedPath) (v : V)
      → convert_loop fqn_of result paths d ≡ ok r
      → Named path v (result, paths)
      → Named path v r
  unfolding convert_loop
  convert_loop-keeps result paths [] r path v h (a, b) = ground arith
  convert_loop-keeps result paths ((p, w) ∷ d) r path v h (a, b) =
      elim (Option-cases (get (fqn_of p) paths)) [
        | inr (first, e) ↦ absurd (ground arith)
        | inl n ↦
            convert_loop-keeps (put (fqn_of p) w result) (put (fqn_of p) p paths) d r path v
              (ground arith)
              (
                ground (
                  arith,
                  get-put (fqn_of p) (fqn_of path) w result,
                  string_eq.equal_iff (fqn_of p) (fqn_of path),
                ),
                ground (
                  arith,
                  get-put (fqn_of p) (fqn_of path) p paths,
                  string_eq.equal_iff (fqn_of p) (fqn_of path),
                ),
              )
      ]

  convert_loop-Named :
      (result : Dict String V) (paths : Dict String NestedPath) (d : Dict NestedPath V)
      (r : Dict String V × Dict String NestedPath)
      → convert_loop fqn_of result paths d ≡ ok r
      → (path : NestedPath) (v : V) → get path d ≡ some v
      → Named path v r
  unfolding convert_loop
  convert_loop-Named result paths [] r h path v e = absurd (ground arith)
  convert_loop-Named result paths ((p, w) ∷ d) r h path v e =
      elim (Option-cases (get (fqn_of p) paths)) [
        | inr (first, f) ↦ absurd (ground arith)
        | inl n ↦ elim (Bool-cases (p == path)) [
          | inl same ↦
              let at_path : p ≡ path = (list_beq_iff p path).0 same in
              let value : w ≡ v = ground arith in
              subst (λ x. Named x v r) at_path
                (convert_loop-keeps (put (fqn_of p) w result) (put (fqn_of p) p paths) d r p v
                  (ground arith)
                  (
                    ground (
                      arith,
                      get-put (fqn_of p) (fqn_of p) w result,
                      string_eq.equal_iff (fqn_of p) (fqn_of p),
                    ),
                    ground (
                      arith,
                      get-put (fqn_of p) (fqn_of p) p paths,
                      string_eq.equal_iff (fqn_of p) (fqn_of p),
                    ),
                  ))
          | inr differ ↦
              convert_loop-Named (put (fqn_of p) w result) (put (fqn_of p) p paths) d r
                (ground arith) path v (rw differ at e)
        ]
      ]

  convert_loop-IsDict :
      (result : Dict String V) (paths : Dict String NestedPath) (d : Dict NestedPath V)
      (r : Dict String V × Dict String NestedPath)
      → convert_loop fqn_of result paths d ≡ ok r
      → IsDict result
      → IsDict r.0
  unfolding convert_loop
  convert_loop-IsDict result paths [] r h u =
      let same : result ≡ r.0 = ground arith in subst IsDict same u
  convert_loop-IsDict result paths ((p, w) ∷ d) r h u = elim (Option-cases (get (fqn_of p) paths)) [
    | inr (first, e) ↦ absurd (ground arith)
    | inl n ↦
        convert_loop-IsDict (put (fqn_of p) w result) (put (fqn_of p) p paths) d r (ground arith)
          (put-IsDict (fqn_of p) w result u)
  ]

  convert_loop-only :
      (result : Dict String V) (paths : Dict String NestedPath) (d : Dict NestedPath V)
      (r : Dict String V × Dict String NestedPath) (n : String) (v : V)
      → IsDict d
      → convert_loop fqn_of result paths d ≡ ok r
      → get n r.0 ≡ some v
      → (get n result ≡ some v) ⊎ ((path : NestedPath) × (get path d ≡ some v) × (fqn_of path ≡ n))
  unfolding convert_loop
  convert_loop-only result paths [] r n v u h e = inl (ground arith)
  convert_loop-only result paths ((p, w) ∷ d) r n v u h e =
      elim (Option-cases (get (fqn_of p) paths)) [
        | inr (first, f) ↦ absurd (ground arith)
        | inl none' ↦
            elim (convert_loop-only (put (fqn_of p) w result) (put (fqn_of p) p paths) d r n v u.1
              (ground arith) e) [
                | inr (path, at_path, same) ↦ inr (path, get-later p path w v d u.0 at_path, same)
                | inl before ↦ elim (Bool-cases (fqn_of p == n)) [
                  | inl same ↦ inr (
                    p,
                    ground (arith, get-own p w d, get-put (fqn_of p) n w result),
                    (string_eq.equal_iff (fqn_of p) n).0 same,
                  )
                  | inr differ ↦ inl (ground (arith, get-put (fqn_of p) n w result))
                ]
              ]
      ]

  -- The paths that are named so far are of the dict, and none of them is to come.
  abbrev pub Past : Dict NestedPath V → Dict NestedPath V → Dict String NestedPath → Type 0
  Past all d paths =
      ((n : String) (a : NestedPath)
        → get n paths ≡ some a
        → (fqn_of a ≡ n) × (has a all ≡ true) × (get a d ≡ none))
      × ((a : NestedPath) (v : V) → get a d ≡ some v → has a all ≡ true)

  abbrev pub Collides : Dict NestedPath V → Collision → Type 0
  Collides all (collision a b) =
      (a ≢ b) × (has a all ≡ true) × (has b all ≡ true) × (fqn_of a ≡ fqn_of b)

  put-Past :
      (all d : Dict NestedPath V) (paths : Dict String NestedPath) (p : NestedPath) (w : V)
      → get p d ≡ none
      → Past all ((p, w) ∷ d) paths
      → Past all d (put (fqn_of p) p paths)
  put-Past all d paths p w fresh (past, coming) = (
    (λ n a e. elim (Bool-cases (fqn_of p == n)) [
      | inl same ↦
          let is : p ≡ a = ground (arith, get-put (fqn_of p) n p paths) in
          subst (λ x. (fqn_of x ≡ n) × (has x all ≡ true) × (get x d ≡ none)) is
            ((string_eq.equal_iff (fqn_of p) n).0 same, coming p w (get-own p w d), fresh)
      | inr differ ↦
          let (named, known, later) = past n a (ground (arith, get-put (fqn_of p) n p paths)) in
          (named, known, ground (arith, later))
    ]),
    λ a v e. coming a v (get-later p a w v d fresh e),
  )

  convert_loop-Collides :
      (all : Dict NestedPath V) (result : Dict String V) (paths : Dict String NestedPath)
      (d : Dict NestedPath V) (c : Collision)
      → IsDict d
      → Past all d paths
      → convert_loop fqn_of result paths d ≡ err c
      → Collides all c
  unfolding convert_loop
  convert_loop-Collides all result paths [] c u past h = absurd (ground arith)
  convert_loop-Collides all result paths ((p, w) ∷ d) c u past h =
      elim (Option-cases (get (fqn_of p) paths)) [
        | inl n ↦
            convert_loop-Collides all (put (fqn_of p) w result) (put (fqn_of p) p paths) d c u.1
              (put-Past all d paths p w u.0 past) (ground arith)
        | inr (first, f) ↦
            let is : collision first p ≡ c = ground arith in
            let (named, known, passed) = past.0 (fqn_of p) first f in
            subst (λ x. Collides all x) is
              (
                (λ same. absurd (
                    none-some (subst (λ x. get x ((p, w) ∷ d) ≡ none) same passed)
                      (get-own p w d))),
                known,
                past.1 p w (get-own p w d),
                named,
              )
      ]

-- The outcome of the conversion of a dict.
abbrev pub Converts :
    {V : Type 0}
    → (NestedPath → String)
    → Dict NestedPath V
    → Result Collision (Dict String V × Dict String NestedPath)
    → Type 0
Converts {V} fqn_of d (ok r) =
    ((path : NestedPath) (v : V) → get path d ≡ some v → Named fqn_of path v r)
    × ((n : String) (v : V)
        → get n r.0 ≡ some v
        → (path : NestedPath) × (get path d ≡ some v) × (fqn_of path ≡ n))
Converts fqn_of d (err c) = Collides fqn_of d c

outcome :
    {V : Type 0} (fqn_of : NestedPath → String) (d : Dict NestedPath V)
    → IsDict d
    → (r : Result Collision (Dict String V × Dict String NestedPath))
    → convert_loop fqn_of [] [] d ≡ r
    → Converts fqn_of d r
outcome fqn_of d u (ok r) h = (
  convert_loop-Named fqn_of [] [] d r h,
  λ n v e. elim (convert_loop-only fqn_of [] [] d r n v u h e) [
    | inl before ↦ absurd (ground arith)
    | inr found ↦ found
  ],
)
outcome fqn_of d u (err c) h =
    convert_loop-Collides fqn_of d [] [] d c u
      ((λ n a e. absurd (ground arith)), λ a v e. ground arith) h

-- For a dict that lists no path twice, the conversion either gives a dict that has just its values, each
-- under the name of its path, with the way back from each name to the path; or it raises an error that
-- names two different paths of the dict with the same name.
pub convert_nested_path_dict_to_fqn-Converts :
    {V : Type 0} (str_of : ℕ → String) (d : Dict NestedPath V)
    → IsDict d
    → Converts (get_fqn_from_nested_path str_of) d (convert_nested_path_dict_to_fqn str_of d)
unfolding convert_nested_path_dict_to_fqn
convert_nested_path_dict_to_fqn-Converts str_of d u =
    outcome (get_fqn_from_nested_path str_of) d u
      (convert_loop (get_fqn_from_nested_path str_of) [] [] d) refl

pub convert_nested_path_dict_to_fqn-IsDict :
    {V : Type 0} (str_of : ℕ → String) (d : Dict NestedPath V)
    (r : Dict String V × Dict String NestedPath)
    → convert_nested_path_dict_to_fqn str_of d ≡ ok r
    → IsDict r.0
unfolding convert_nested_path_dict_to_fqn
convert_nested_path_dict_to_fqn-IsDict str_of d r h =
    convert_loop-IsDict (get_fqn_from_nested_path str_of) [] [] d r h tt
