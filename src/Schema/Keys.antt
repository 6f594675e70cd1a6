-- ===== src/Schema/Keys.antt =====
-- The keys that are missing or unknown, for `build_items` of torch_checkpointing/schema.py.
use torch_checkpointing.Prelude.{
  ◌≡◌, inl, inr, sym, ap, ◌∙◌, true, false, not, ◌&&◌, some, String, [], ◌∷◌, All, arith,
  Bool-cases, Option-cases, string_eq, ◌==◌,
}
use torch_checkpointing.Prelude.Dict.{Dict, get, has, IsDict, get-later, get-own}
use torch_checkpointing.Schema.{ItemSpec, CheckpointSchema, missing_keys, extra_keys, spec_of}

module _ {V R : Type 0} where
  abbrev pub IsMissing : Dict String (ItemSpec R) → Dict String V → String → Type 0
  IsMissing specs payload key =
      (spec : ItemSpec R) × (get key specs ≡ some spec)
      × (spec.required ≡ true)
      × (has key payload ≡ false)

  pub missing_keys-IsMissing :
      (specs all : Dict String (ItemSpec R)) (payload : Dict String V)
      → IsDict specs
      → ((key : String) (spec : ItemSpec R) → get key specs ≡ some spec → get key all ≡ some spec)
      → All (IsMissing all payload) (missing_keys specs payload)
  unfolding missing_keys
  missing_keys-IsMissing [] all payload u sub = tt
  missing_keys-IsMissing ((key, spec) ∷ specs) all payload u sub =
      let later =
        missing_keys-IsMissing specs all payload u.1
          (λ k s e. sub k s (get-later key k spec s specs u.0 e)) in
      elim (Bool-cases (spec.required && not (has key payload))) [
        | inl e ↦
            rw e ((spec, sub key spec (get-own key spec specs), ground arith, ground arith), later)
        | inr e ↦ rw e later
      ]

  -- No required key is missing.
  pub missing_keys-none :
      (specs : Dict String (ItemSpec R)) (payload : Dict String V)
      → missing_keys specs payload ≡ []
      → (key : String) (spec : ItemSpec R) → get key specs ≡ some spec
      → spec.required ≡ true
      → has key payload ≡ true
  unfolding missing_keys
  missing_keys-none [] payload h key spec e r = absurd (ground arith)
  missing_keys-none ((k, s) ∷ specs) payload h key spec e r =
      elim (Bool-cases (s.required && not (has k payload))) [
        | inl f ↦ absurd (ground arith)
        | inr f ↦ elim (Bool-cases (k == key)) [
          | inl same ↦
              let is : s ≡ spec = ground arith in
              ap (λ x. has x payload) (sym ((string_eq.equal_iff k key).0 same)) ∙ ground (arith, r)
          | inr differ ↦ missing_keys-none specs payload (rw f at h) key spec (rw differ at e) r
        ]
      ]

  abbrev pub IsExtra : Dict String (ItemSpec R) → Dict String V → String → Type 0
  IsExtra specs payload key = (has key specs ≡ false) × (has key payload ≡ true)

  pub extra_keys-none :
      (specs : Dict String (ItemSpec R)) (payload : Dict String V)
      → extra_keys specs payload ≡ []
      → (key : String) → has key payload ≡ true
      → has key specs ≡ true
  unfolding extra_keys
  extra_keys-none specs [] h key e = absurd (ground arith)
  extra_keys-none specs ((k, v) ∷ payload) h key e = elim (Bool-cases (has k specs)) [
    | inr f ↦ absurd (ground arith)
    | inl f ↦ elim (Bool-cases (k == key)) [
      | inl same ↦ ap (λ x. has x specs) (sym ((string_eq.equal_iff k key).0 same)) ∙ f
      | inr differ ↦ extra_keys-none specs payload (rw f at h) key (ground (arith, e))
    ]
  ]

  pub extra_keys-IsExtra :
      (specs : Dict String (ItemSpec R)) (payload all : Dict String V)
      → ((key : String) → has key payload ≡ true → has key all ≡ true)
      → All (IsExtra specs all) (extra_keys specs payload)
  unfolding extra_keys
  extra_keys-IsExtra specs [] all sub = tt
  extra_keys-IsExtra specs ((key, v) ∷ payload) all sub =
      let later = extra_keys-IsExtra specs payload all (λ k e. sub k (ground (arith, e))) in
      elim (Bool-cases (has key specs)) [
        | inl e ↦ rw e later
        | inr e ↦ rw e ((e, sub key (ground (arith, get-own key v payload))), later)
      ]

  -- Each key of the payload has a spec.
  abbrev pub AllSpecified : CheckpointSchema R → Dict String V → Type 0
  AllSpecified schema payload =
      (key : String)
      → has key payload ≡ true
      → (spec : ItemSpec R) × (spec_of schema key ≡ some spec)

  pub specified :
      (schema : CheckpointSchema R) (payload : Dict String V)
      → ((key : String) → has key payload ≡ true → has key schema.items ≡ true)
      → AllSpecified schema payload
  unfolding spec_of
  specified schema payload h key e = elim (Option-cases (get key schema.items)) [
    | inl n ↦ absurd (ground (arith, h key e))
    | inr (spec, f) ↦ (spec, ground arith)
  ]

  pub specified_default :
      (schema : CheckpointSchema R) (payload : Dict String V) (default : ItemSpec R)
      → schema.default ≡ some default
      → AllSpecified schema payload
  unfolding spec_of
  specified_default schema payload default d key e = elim (Option-cases (get key schema.items)) [
    | inl n ↦ (default, ground arith)
    | inr (spec, f) ↦ (spec, ground arith)
  ]
