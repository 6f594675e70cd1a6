-- ===== src/Resharder/Chunks/Built.antt =====
-- The last loop of `deduplicate_source_chunks` of torch_checkpointing/resharding_utils.py.
use mathlib.Core.Path.{subst}
use torch_checkpointing.Prelude.{
  ℕ, ◌≡◌, ◌⊎◌, inl, inr, refl, sym, ap, ◌∙◌, some, String, List, [], ◌∷◌, ◌++◌, ◌==◌, nat_eq,
  string_eq, list_eq, pair_eq, All, In, In-append, In-append_left, In-append_right, arith,
  Bool-cases, Option-cases, pair_beq_iff,
}
use torch_checkpointing.Prelude.Dict.{
  Dict, get, put, get-own, get-later, IsDict, put-IsDict, All-put,
}
use torch_checkpointing.Resharder.{LoadPlan}
use torch_checkpointing.Resharder.Chunks.{Chunk, Maps, get_or_empty, chosen, build_result}
use torch_checkpointing.Resharder.Chunks.Noted.{get_or_empty-own, get_or_empty-other}

-- The pairs of a dict are what its keys give.
pub In-get :
    (k : Chunk) (v : List ℕ) (d : Dict Chunk (List ℕ)) → IsDict d → In (k, v) d → get k d ≡ some v
In-get k v [] u h = absurd h
In-get k v ((j, w) ∷ d) u (inl e) = subst (λ x. get x.0 ((j, w) ∷ d) ≡ some x.1) e (get-own j w d)
In-get k v ((j, w) ∷ d) u (inr h) = get-later j k w v d u.0 (In-get k v d u.1 h)

pub get-In : (k : Chunk) (v : List ℕ) (d : Dict Chunk (List ℕ)) → get k d ≡ some v → In (k, v) d
get-In k v [] h = absurd (ground arith)
get-In k v ((j, w) ∷ d) h = elim (Bool-cases (pair_eq.equal j k)) [
  | inl same ↦ let at = (pair_beq_iff j k).0 same in let is : w ≡ v = ground arith in inl (cc)
  | inr differ ↦ inr (get-In k v d (rw differ at h))
]

pub some-injective : {p q : LoadPlan} → some p ≡ some q → p ≡ q
some-injective e = cc

pub ranks-injective : {p q : List ℕ} → some p ≡ some q → p ≡ q
ranks-injective e = cc

-- A chunk with a rank is among the chunks.
pub get_or_empty-In :
    (k : Chunk) (r : ℕ) (d : Dict Chunk (List ℕ))
    → In r (get_or_empty k d)
    → (ranks : List ℕ) × In (k, ranks) d
get_or_empty-In k r d h = elim (Option-cases (get k d)) [
  | inl n ↦ let none' : get_or_empty k d ≡ [] = ground arith in absurd (rw none' at h)
  | inr (ranks, e) ↦ (ranks, get-In k ranks d e)
]

some-is {ℓ} : {A : Type ℓ} {a b : A} → some a ≡ some b → a ≡ b
some-is e = cc

module _ (maps : Maps) where
  -- A plan that is chosen for a chunk of the name.
  abbrev pub Chosen : String → Dict Chunk (List ℕ) → LoadPlan → Type 0
  Chosen f entries p =
      (k : Chunk) × (ranks : List ℕ) × In (k, ranks) entries
      × (k.0 ≡ f)
      × (chosen maps k ranks ≡ some p)

  abbrev pub AllChosen : Dict Chunk (List ℕ) → Type 0
  AllChosen entries =
      (k : Chunk) (ranks : List ℕ)
      → In (k, ranks) entries
      → (p : LoadPlan) × (chosen maps k ranks ≡ some p)

  abbrev add_chosen : String → LoadPlan → Dict String (List LoadPlan) → Dict String (List LoadPlan)
  add_chosen f p result = put f (get_or_empty f result ++ p ∷ []) result

  add_chosen-In :
      (g f : String) (p q : LoadPlan) (result : Dict String (List LoadPlan))
      → In q (get_or_empty g (add_chosen f p result))
      → In q (get_or_empty g result) ⊎ ((f ≡ g) × (p ≡ q))
  add_chosen-In g f p q result h = elim (Bool-cases (f == g)) [
    | inr differ ↦
        inl (rw (get_or_empty-other f g (get_or_empty f result ++ p ∷ []) result differ) at h)
    | inl same ↦
        let at = (string_eq.equal_iff f g).0 same in
        elim (In-append q (get_or_empty f result) (p ∷ []) (
          rw (get_or_empty-own f (get_or_empty f result ++ p ∷ []) result) at
            (subst (λ x. In q (get_or_empty x (add_chosen f p result))) (sym at) h))) [
              | inl old ↦ inl (subst (λ x. In q (get_or_empty x result)) at old)
              | inr (inl is) ↦ inr (at, is)
              | inr (inr none') ↦ absurd none'
            ]
  ]

  add_chosen-keeps :
      (g f : String) (p q : LoadPlan) (result : Dict String (List LoadPlan))
      → In q (get_or_empty g result)
      → In q (get_or_empty g (add_chosen f p result))
  add_chosen-keeps g f p q result h = elim (Bool-cases (f == g)) [
    | inr differ ↦ rw (get_or_empty-other f g (get_or_empty f result ++ p ∷ []) result differ) h
    | inl same ↦
        let at = (string_eq.equal_iff f g).0 same in
        subst (λ x. In q (get_or_empty x (add_chosen f p result))) at
          (rw (get_or_empty-own f (get_or_empty f result ++ p ∷ []) result) (
            In-append_left q (get_or_empty f result) (p ∷ [])
              (subst (λ x. In q (get_or_empty x result)) (sym at) h)))
  ]

  add_chosen-new :
      (f : String) (p : LoadPlan) (result : Dict String (List LoadPlan))
      → In p (get_or_empty f (add_chosen f p result))
  add_chosen-new f p result =
      rw (get_or_empty-own f (get_or_empty f result ++ p ∷ []) result)
        (In-append_right p (get_or_empty f result) (p ∷ []) (inl refl))

  -- The loop ends, with the plans so far and those that are chosen.
  pub build_result-Chosen :
      (entries : Dict Chunk (List ℕ)) (result : Dict String (List LoadPlan))
      → AllChosen entries
      → (out : Dict String (List LoadPlan)) × (build_result maps entries result ≡ some out)
        × ((g : String) (q : LoadPlan)
            → In q (get_or_empty g out)
            → In q (get_or_empty g result) ⊎ Chosen g entries q)
        × ((g : String) (q : LoadPlan)
            → In q (get_or_empty g result) ⊎ Chosen g entries q
            → In q (get_or_empty g out))
  unfolding build_result
  build_result-Chosen [] result h = (
    result,
    refl,
    λ g q i. inl i,
    λ g q i. elim i [ inl old ↦ old | inr (k, ranks, none', e, c) ↦ absurd none' ],
  )
  build_result-Chosen ((k, ranks) ∷ entries) result h =
      let (p, e) = h k ranks (inl refl) in
      let (out, ends, only, every) =
        build_result-Chosen entries (add_chosen k.0 p result) (λ j rs i. h j rs (inr i)) in
      (
        out,
        rw (e, build_result) ends,
        λ g q i. elim (only g q i) [
          | inr (j, rs, later, f, c) ↦ inr (j, rs, inr later, f, c)
          | inl here ↦ elim (add_chosen-In g k.0 p q result here) [
            | inl old ↦ inl old
            | inr (f, same) ↦ inr (k, ranks, inl refl, f, e ∙ ap some same)
          ]
        ],
        λ g q i. every g q (elim i [
          | inl old ↦ inl (add_chosen-keeps g k.0 p q result old)
          | inr (j, rs, inr later, f, c) ↦ inr (j, rs, later, f, c)
          | inr (j, rs, inl same, f, c) ↦ inl (
              let is : p ≡ q = some-injective (sym e ∙ ap (λ x. chosen maps x.0 x.1) same ∙ c) in
              let named : k.0 ≡ g = ap (λ x. x.0.0) same ∙ f in
              subst (λ x. In x (get_or_empty g (add_chosen k.0 p result))) is
                (subst (λ x. In p (get_or_empty x (add_chosen k.0 p result))) named
                  (add_chosen-new k.0 p result)))
        ]),
      )

  -- The result lists no name twice, and no name without a plan.
  pub build_result-IsDict :
      (entries : Dict Chunk (List ℕ)) (result out : Dict String (List LoadPlan))
      → build_result maps entries result ≡ some out
      → IsDict result × All (λ entry. (p : LoadPlan) × In p entry.1) result
      → IsDict out × All (λ entry. (p : LoadPlan) × In p entry.1) out
  unfolding build_result
  build_result-IsDict [] result out h d =
      subst (λ r. IsDict r × All (λ entry. (p : LoadPlan) × In p entry.1) r) (some-is h) d
  build_result-IsDict ((k, ranks) ∷ entries) result out h (u, a) =
      elim (Option-cases (chosen maps k ranks)) [
        | inl n ↦ absurd (ground arith)
        | inr (p, e) ↦ build_result-IsDict entries (add_chosen k.0 p result) out (ground arith) (
          put-IsDict k.0 (get_or_empty k.0 result ++ p ∷ []) result u,
          All-put (λ entry. (p : LoadPlan) × In p entry.1) k.0 (get_or_empty k.0 result ++ p ∷ [])
              result (p, In-append_right p (get_or_empty k.0 result) (p ∷ []) (inl refl)) a,
        )
      ]
