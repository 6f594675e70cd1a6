-- ===== src/Prelude/Dict.antt =====
-- A Python dict in insertion order, as an association list.
use mathlib.Core.Path.{◌≡◌, refl, subst}
use mathlib.Core.Bool.{Bool, true, false}
use mathlib.Core.Option.{Option, none, some}
use mathlib.Core.List.{List, [], ◌∷◌, ◌++◌, append_assoc}
use native.Mathlib.Omega.{arith}
use mathlib.Core.Logic.{inl, inr}
use torch_checkpointing.Prelude.Tests.{if◌then◌else◌, Bool-cases}
use torch_checkpointing.Prelude.Lists.{All}
use torch_checkpointing.Prelude.Classes.{Eq}

abbrev pub Dict {ℓ κ} : Type ℓ → Type κ → Type (ℓ ⊔ κ)
Dict K V = List (K × V)

module _ {ℓ κ} {K : Type ℓ} {V : Type κ} where
  abbrev pub keys : Dict K V → List K
  keys [] = []
  keys ((k, v) ∷ d) = k ∷ keys d

  abbrev pub values : Dict K V → List V
  values [] = []
  values ((k, v) ∷ d) = v ∷ values d

module _ {ℓ κ} {K : Type ℓ} {V : Type κ} ⦃e : Eq K⦄ where
  -- `d.get(k)`
  abbrev pub get : K → Dict K V → Option V
  get k [] = none
  get k ((j, v) ∷ d) = if e.equal j k then some v else get k d

  -- `d[k] = v`
  abbrev pub put : K → V → Dict K V → Dict K V
  put k v [] = (k, v) ∷ []
  put k v ((j, w) ∷ d) = if e.equal j k then (j, v) ∷ d else (j, w) ∷ put k v d

  -- `k in d`
  abbrev pub has : K → Dict K V → Bool
  has k d = elim (get k d) [ none ↦ false | some _ ↦ true ]

  pub get-put :
      (k j : K) (v : V) (d : Dict K V)
      → get j (put k v d) ≡ (if e.equal k j then some v else get j d)
  get-put k j v [] = refl
  get-put k j v ((i, w) ∷ d) =
      ground (arith, e.equal_iff k j, e.equal_iff i k, e.equal_iff i j, get-put k j v d)

  pub get-put_own : (k : K) (v : V) (d : Dict K V) → get k (put k v d) ≡ some v
  get-put_own k v d = ground (arith, get-put k k v d, e.equal_iff k k)

  pub get-put_other :
      (k j : K) (v : V) (d : Dict K V) → e.equal k j ≡ false → get j (put k v d) ≡ get j d
  get-put_other k j v d h = ground (arith, get-put k j v d)

  pub All-put {μ} :
      (P : K × V → Type μ) (k : K) (v : V) (d : Dict K V) → P (k, v) → All P d → All P (put k v d)
  All-put P k v [] p h = (p, tt)
  All-put P k v ((j, w) ∷ d) p h = elim (Bool-cases (e.equal j k)) [
    | inl same ↦ rw (same, (e.equal_iff j k).0 same) (p, h.1)
    | inr differ ↦ rw differ (h.0, All-put P k v d p h.1)
  ]

  pub All-get {μ} :
      (P : K × V → Type μ) (k : K) (v : V) (d : Dict K V) → get k d ≡ some v → All P d → P (k, v)
  All-get P k v [] g h = ground arith
  All-get P k v ((j, w) ∷ d) g h = elim (Bool-cases (e.equal j k)) [
    | inl same ↦ subst P (ground (arith, e.equal_iff j k)) h.0
    | inr differ ↦ All-get P k v d (rw differ at g) h.1
  ]

  -- No key is listed twice, as in any dict.
  abbrev pub IsDict : Dict K V → Type κ
  IsDict [] = Unit
  IsDict ((k, v) ∷ d) = (get k d ≡ none) × IsDict d

  pub get-later :
      (k j : K) (v w : V) (d : Dict K V)
      → get k d ≡ none
      → get j d ≡ some w
      → get j ((k, v) ∷ d) ≡ some w
  get-later k j v w d fresh h = ground (arith, e.equal_iff k j)

  pub get-own : (k : K) (v : V) (d : Dict K V) → get k ((k, v) ∷ d) ≡ some v
  get-own k v d = ground (arith, e.equal_iff k k)

  -- The keys of the second dict are not in the first.
  abbrev pub Disjoint : Dict K V → Dict K V → Type κ
  Disjoint acc d = All (λ entry. get entry.0 acc ≡ none) d

  put-fresh : (k : K) (v : V) (d : Dict K V) → get k d ≡ none → put k v d ≡ d ++ (k, v) ∷ []
  put-fresh k v [] h = refl
  put-fresh k v ((j, w) ∷ d) h = ground (arith, put-fresh k v d)

  pub put-append :
      (k : K) (v : V) (acc d : Dict K V) → get k acc ≡ none → put k v acc ++ d ≡ acc ++ (k, v) ∷ d
  put-append k v acc d h = rw (put-fresh k v acc h) (append_assoc acc ((k, v) ∷ []) d)

  pub Disjoint-put :
      (k : K) (v : V) (acc d : Dict K V)
      → get k d ≡ none
      → Disjoint acc d
      → Disjoint (put k v acc) d
  Disjoint-put k v acc [] n h = tt
  Disjoint-put k v acc ((j, w) ∷ d) n h = (
    ground (arith, get-put k j v acc, h.0, e.equal_iff k j, e.equal_iff j k),
    Disjoint-put k v acc d (ground (arith, n)) h.1,
  )

  pub put-IsDict : (k : K) (v : V) (d : Dict K V) → IsDict d → IsDict (put k v d)
  put-IsDict k v [] u = (refl, tt)
  put-IsDict k v ((j, w) ∷ d) u = elim (Bool-cases (e.equal j k)) [
    | inl same ↦ rw same u
    | inr differ ↦ rw differ (
      ground (arith, get-put k j v d, e.equal_iff k j, e.equal_iff j k, u.0),
      put-IsDict k v d u.1,
    )
  ]
