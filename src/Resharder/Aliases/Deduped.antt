-- ===== src/Resharder/Aliases/Deduped.antt =====
-- After the aliases are dropped each address has one target left.
use torch_checkpointing.Prelude.{
  ℕ, ◌≡◌, ◌⊎◌, inl, inr, refl, sym, ◌∙◌, Bool, false, not, Option, none, some, List, [], ◌∷◌, Eq,
  ◌==◌, arith, Bool-cases, Option-cases, nat_eq, if◌then◌else◌,
}
use torch_checkpointing.Prelude.Dict.{Dict, get, put, IsDict, get-put, get-later, put-IsDict}
use torch_checkpointing.Resharder.Aliases.{
  key_for_data_ptr, key_to_data_ptr, aliased_pairs, is_aliased, without, dedupe_aliased_targets,
}

-- The address of a target, or the one before.
address : Option (Option ℕ) → Option ℕ → Option ℕ
address (some (some ptr)) before = some ptr
address _ before = before

module _ {K : Type 0} ⦃e : Eq K⦄ where
  -- The key kept for an address is one of that address.
  key_for_sound :
      (acc : Dict ℕ K) (targets : Dict K (Option ℕ)) (ptr : ℕ) (k : K)
      → IsDict targets
      → get ptr (key_for_data_ptr acc targets) ≡ some k
      → (get ptr acc ≡ some k) ⊎ (get k targets ≡ some (some ptr))
  unfolding key_for_data_ptr
  key_for_sound acc [] ptr k u h = inl h
  key_for_sound acc ((j, none) ∷ targets) ptr k u h = elim (key_for_sound acc targets ptr k u.1 h) [
    | inl before ↦ inl before
    | inr there ↦ inr (get-later j k none (some ptr) targets u.0 there)
  ]
  key_for_sound acc ((j, some p) ∷ targets) ptr k u h =
      elim (key_for_sound (put p j acc) targets ptr k u.1 h) [
        | inr there ↦ inr (get-later j k (some p) (some ptr) targets u.0 there)
        | inl before ↦ elim (Bool-cases (p == ptr)) [
          | inl same ↦ inr (ground (arith, get-put p ptr j acc, e.equal_iff j k))
          | inr differ ↦ inl (ground (arith, get-put p ptr j acc))
        ]
      ]

  key_for_complete :
      (acc : Dict ℕ K) (targets : Dict K (Option ℕ)) (ptr : ℕ)
      → ((k : K) × (get k targets ≡ some (some ptr))) ⊎ ((k : K) × (get ptr acc ≡ some k))
      → (k : K) × (get ptr (key_for_data_ptr acc targets) ≡ some k)
  unfolding key_for_data_ptr
  key_for_complete acc [] ptr (inl (k, h)) = absurd (ground arith)
  key_for_complete acc [] ptr (inr found) = found
  key_for_complete acc ((j, none) ∷ targets) ptr (inr found) =
      key_for_complete acc targets ptr (inr found)
  key_for_complete acc ((j, none) ∷ targets) ptr (inl (k, h)) =
      key_for_complete acc targets ptr (inl (k, ground (arith, h)))
  key_for_complete acc ((j, some p) ∷ targets) ptr h = elim (Bool-cases (p == ptr)) [
    | inl same ↦
        key_for_complete (put p j acc) targets ptr (inr (j, ground (arith, get-put p ptr j acc)))
    | inr differ ↦ elim h [
      | inl (k, f) ↦
          key_for_complete (put p j acc) targets ptr
            (inl (k, ground (arith, f, nat_eq.equal_iff p ptr)))
      | inr (k, f) ↦
          key_for_complete (put p j acc) targets ptr (inr (k, ground (arith, get-put p ptr j acc)))
    ]
  ]

  key_to-get :
      (acc : Dict K ℕ) (targets : Dict K (Option ℕ)) (k : K)
      → IsDict targets
      → get k (key_to_data_ptr acc targets) ≡ address (get k targets) (get k acc)
  unfolding key_to_data_ptr address
  key_to-get acc [] k u = refl
  key_to-get acc ((j, none) ∷ targets) k u =
      ground (arith, key_to-get acc targets k u.1, e.equal_iff j k, u.0)
  key_to-get acc ((j, some p) ∷ targets) k u =
      ground
        (arith, key_to-get (put j p acc) targets k u.1, e.equal_iff j k, u.0, get-put j k p acc)

  key_to-IsDict :
      (acc : Dict K ℕ) (targets : Dict K (Option ℕ))
      → IsDict acc
      → IsDict (key_to_data_ptr acc targets)
  unfolding key_to_data_ptr
  key_to-IsDict acc [] u = u
  key_to-IsDict acc ((j, none) ∷ targets) u = key_to-IsDict acc targets u
  key_to-IsDict acc ((j, some p) ∷ targets) u =
      key_to-IsDict (put j p acc) targets (put-IsDict j p acc u)

  -- A key is dropped if another one is kept for its address.
  displaced : Dict ℕ K → K → Option ℕ → Bool
  displaced last key none = false
  displaced last key (some ptr) = elim (get ptr last) [
    | none ↦ false
    | some kept ↦ not (kept == key)
  ]

  is_aliased-displaced :
      (last : Dict ℕ K) (d : Dict K ℕ) (k : K)
      → IsDict d
      → is_aliased k (aliased_pairs last d) ≡ displaced last k (get k d)
  unfolding is_aliased aliased_pairs displaced
  is_aliased-displaced last [] k u = refl
  is_aliased-displaced last ((j, ptr) ∷ d) k u = elim (Option-cases (get ptr last)) [
    | inl n ↦ ground (arith, is_aliased-displaced last d k u.1, e.equal_iff j k, u.0)
    | inr (kept, f) ↦ elim (Bool-cases (kept == j)) [
      | inl same ↦ ground (arith, is_aliased-displaced last d k u.1, e.equal_iff j k, u.0)
      | inr differ ↦ ground (arith, is_aliased-displaced last d k u.1, e.equal_iff j k, u.0)
    ]
  ]

  get-without :
      {V : Type 0} (pairs : List (K × K)) (d : Dict K V) (k : K)
      → get k (without pairs d) ≡ (if is_aliased k pairs then none else get k d)
  unfolding without
  get-without pairs [] k = ground arith
  get-without pairs ((j, v) ∷ d) k = ground (arith, get-without pairs d k, e.equal_iff j k)

  module _ (targets : Dict K (Option ℕ)) (u : IsDict targets) where
    pairs : List (K × K)
    pairs = aliased_pairs (key_for_data_ptr [] targets) (key_to_data_ptr [] targets)

    is_aliased_lem :
        (k : K) (ptr : ℕ)
        → get k targets ≡ some (some ptr)
        → (kept : K) × (get ptr (key_for_data_ptr [] targets) ≡ some kept)
          × (get kept targets ≡ some (some ptr))
          × (is_aliased k pairs ≡ not (kept == k))
    unfolding pairs displaced address
    is_aliased_lem k ptr h =
        let (kept, f) = key_for_complete [] targets ptr (inl (k, h)) in
        (
          kept,
          f,
          elim (key_for_sound [] targets ptr kept u f) [
            | inl before ↦ absurd (ground arith)
            | inr there ↦ there
          ],
          ground (
            arith,
            is_aliased-displaced (key_for_data_ptr [] targets) (key_to_data_ptr [] targets) k
                (key_to-IsDict [] targets tt),
            key_to-get [] targets k u,
            h,
            f,
          ),
        )

    left : Dict K (Option ℕ)
    left = without pairs targets

    left_unique :
        (k j : K) (ptr : ℕ) → get k left ≡ some (some ptr) → get j left ≡ some (some ptr) → k ≡ j
    unfolding left
    left_unique k j ptr h g =
        let at_k : get k targets ≡ some (some ptr) = ground (arith, get-without pairs targets k) in
        let at_j : get j targets ≡ some (some ptr) = ground (arith, get-without pairs targets j) in
        let (a, f, _, m) = is_aliased_lem k ptr at_k in
        let (b, i, _, n) = is_aliased_lem j ptr at_j in
        let is_k : a ≡ k = ground (arith, get-without pairs targets k, e.equal_iff a k) in
        let is_j : b ≡ j = ground (arith, get-without pairs targets j, e.equal_iff b j) in
        sym is_k ∙ ground (arith, f, i) ∙ is_j

    left-kept :
        (k : K) (t : Option ℕ)
        → get k targets ≡ some t
        → (get k left ≡ some t)
          ⊎ ((ptr : ℕ) × (j : K) × (t ≡ some ptr) × (get j left ≡ some (some ptr)))
    unfolding left pairs displaced address
    left-kept k none h = inl (
        ground (
          arith,
          get-without pairs targets k,
          is_aliased-displaced (key_for_data_ptr [] targets) (key_to_data_ptr [] targets) k
              (key_to-IsDict [] targets tt),
          key_to-get [] targets k u,
        ))
    left-kept k (some ptr) h =
        let (kept, f, there, m) = is_aliased_lem k ptr h in
        let (last, g, _, n) = is_aliased_lem kept ptr there in
        inr (ptr, kept, refl, ground (arith, get-without pairs targets kept, e.equal_iff kept kept))

-- For targets that list no key twice: of the targets that are left no two share an address; a target that
-- is dropped leaves one behind that has its address; what is left has the value it had; and of the load
-- plans just those of the keys that are in a dropped pair are gone.
pub dedupe_aliased_targets_unique :
    {K V : Type 0} ⦃e : Eq K⦄ (targets : Dict K (Option ℕ)) (plans : Dict K V)
    → IsDict targets
    → ((k j : K) (ptr : ℕ)
        → get k (dedupe_aliased_targets targets plans).0 ≡ some (some ptr)
        → get j (dedupe_aliased_targets targets plans).0 ≡ some (some ptr)
        → k ≡ j)
      × ((k : K) (t : Option ℕ)
          → get k targets ≡ some t
          → (get k (dedupe_aliased_targets targets plans).0 ≡ some t)
            ⊎ ((ptr : ℕ) × (j : K) × (t ≡ some ptr)
                × (get j (dedupe_aliased_targets targets plans).0 ≡ some (some ptr))))
      × ((k : K)
          → (get k (dedupe_aliased_targets targets plans).0 ≡ (
              if is_aliased k (dedupe_aliased_targets targets plans).2
              then none
              else get k targets))
            × (get k (dedupe_aliased_targets targets plans).1 ≡ (
                if is_aliased k (dedupe_aliased_targets targets plans).2
                then none
                else get k plans)))
unfolding dedupe_aliased_targets left pairs
dedupe_aliased_targets_unique targets plans u = (
  left_unique targets u,
  left-kept targets u,
  λ k. (get-without (pairs targets u) targets k, get-without (pairs targets u) plans k),
)
