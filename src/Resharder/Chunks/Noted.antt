-- ===== src/Resharder/Chunks/Noted.antt =====
-- What `possible_ranks_map` and `load_plans_map` of torch_checkpointing/resharding_utils.py hold.
use mathlib.Core.Path.{subst}
use torch_checkpointing.Prelude.{
  ℕ, ◌≤◌, ◌≡◌, ◌⊎◌, inl, inr, refl, sym, ◌∙◌, true, false, Option, none, some, String, List, [],
  ◌∷◌, ◌==◌, Eq, min, leb, nat_eq, string_eq, list_eq, pair_eq, All, In, arith, Bool-cases,
  Option-cases, pair_beq_iff, eqb_iff,
}
use torch_checkpointing.Prelude.Dict.{
  Dict, get, put, get-put, get-put_own, get-put_other, All-put, IsDict, put-IsDict,
}
use torch_checkpointing.Resharder.{LoadPlan}
use torch_checkpointing.Resharder.Chunks.{
  Chunk, chunk_of, Maps, get_or_empty, is_known, add_to_set, note_chunk, lowest,
}

is_known-In : (q : ℕ) (rs : List ℕ) → is_known q rs ≡ true → In q rs
unfolding is_known
is_known-In q [] h = cc
is_known-In q (r ∷ rs) h = elim (Bool-cases (r == q)) [
  | inl same ↦ inl ((eqb_iff r q).0 same)
  | inr differ ↦ inr (is_known-In q rs (rw differ at h))
]

add_to_set-own : (q : ℕ) (rs : List ℕ) → In q (add_to_set q rs)
unfolding add_to_set
add_to_set-own q rs = elim (Bool-cases (is_known q rs)) [
  | inl e ↦ rw e (is_known-In q rs e)
  | inr e ↦ rw e (inl refl)
]

add_to_set-keeps : (q r : ℕ) (rs : List ℕ) → In r rs → In r (add_to_set q rs)
unfolding add_to_set
add_to_set-keeps q r rs h = elim (Bool-cases (is_known q rs)) [
  | inl e ↦ rw e h
  | inr e ↦ rw e (inr h)
]

add_to_set-only : (q r : ℕ) (rs : List ℕ) → In r (add_to_set q rs) → (q ≡ r) ⊎ In r rs
unfolding add_to_set
add_to_set-only q r rs h = elim (Bool-cases (is_known q rs)) [
  | inl e ↦ inr (rw e at h)
  | inr e ↦ rw e at h
]

pub lowest-some : (rs : List ℕ) (r : ℕ) → In r rs → (m : ℕ) × (lowest rs ≡ some m)
unfolding lowest
lowest-some [] r h = absurd h
lowest-some (q ∷ rs) r h = elim (Option-cases (lowest rs)) [
  | inl n ↦ (q, rw n refl)
  | inr (l, e) ↦ (min q l, rw e refl)
]

none-some : {o : Option ℕ} → o ≡ none → (m : ℕ) × (o ≡ some m) → ⊥
none-some n (m, e) = ground arith

pub lowest-IsLeast :
    (rs : List ℕ) (m : ℕ) → lowest rs ≡ some m → In m rs × ((r : ℕ) → In r rs → m ≤ r)
unfolding lowest
lowest-IsLeast [] m h = absurd (ground arith)
lowest-IsLeast (r ∷ rs) m h = elim (Option-cases (lowest rs)) [
  | inl n ↦
      let same : r ≡ m = ground arith in
      (
        inl same,
        λ q h. elim h [
          | inl e ↦ omega (arith, e, same)
          | inr later ↦ absurd (none-some n (lowest-some rs q later))
        ],
      )
  | inr (l, e) ↦
      let (among, below) = lowest-IsLeast rs l e in
      let same : min r l ≡ m = ground arith in
      (
        elim (Bool-cases (leb r l)) [
          | inl low ↦ inl (ground arith)
          | inr high ↦ let is : l ≡ m = ground arith in inr (subst (λ x. In x rs) is among)
        ],
        λ q h'. elim h' [
          | inl e' ↦ omega (arith, e', same)
          | inr later ↦ omega (arith, same, below q later)
        ],
      )
]

module _ {K : Type 0} {V : Type 0} ⦃e : Eq K⦄ where
  pub get_or_empty-own :
      (k : K) (vs : List V) (d : Dict K (List V)) → get_or_empty k (put k vs d) ≡ vs
  get_or_empty-own k vs d = ground (arith, get-put k k vs d, e.equal_iff k k)

  pub get_or_empty-other :
      (k j : K) (vs : List V) (d : Dict K (List V))
      → e.equal k j ≡ false
      → get_or_empty j (put k vs d) ≡ get_or_empty j d
  get_or_empty-other k j vs d h = ground (arith, get-put k j vs d)

-- The maps tell of every chunk that was seen which ranks have it, with a plan of each.
pub record Noted (seen : List (String × LoadPlan)) (maps : Maps) : Type 0 where
  pub own :
      (k : Chunk) (r : ℕ) (lp : LoadPlan)
      → get (k, r) maps.load_plans ≡ some lp
      → In (k.0, lp) seen × (lp.offsets ≡ k.1) × (lp.src_rank ≡ r)
  pub known :
      (fqn : String) (lp : LoadPlan)
      → In (fqn, lp) seen
      → In lp.src_rank (get_or_empty (fqn, lp.offsets) maps.possible_ranks)
  pub there :
      (k : Chunk) (r : ℕ)
      → In r (get_or_empty k maps.possible_ranks)
      → (lp : LoadPlan) × (get (k, r) maps.load_plans ≡ some lp)
  pub some_rank : All (λ entry. (r : ℕ) × In r entry.1) maps.possible_ranks
  pub unique : IsDict maps.possible_ranks

module _ (seen : List (String × LoadPlan)) (maps : Maps) (fqn : String) (lp : LoadPlan)
    (n : Noted seen maps) where
  abbrev here : Chunk
  here = (fqn, lp.offsets)

  abbrev after : Maps
  after = note_chunk (fqn, lp) maps

  note-own :
      (k : Chunk) (r : ℕ) (p : LoadPlan)
      → get (k, r) after.load_plans ≡ some p
      → In (k.0, p) ((fqn, lp) ∷ seen) × (p.offsets ≡ k.1) × (p.src_rank ≡ r)
  unfolding note_chunk
  note-own k r p h = elim (Bool-cases (pair_eq.equal (here, lp.src_rank) (k, r))) [
    | inl same ↦
        let at = (pair_beq_iff (here, lp.src_rank) (k, r)).0 same in
        let found = rw (← at) at h in
        let is : lp ≡ p = ground (arith, get-put_own (here, lp.src_rank) lp maps.load_plans) in
        (inl (cc), cc, cc)
    | inr differ ↦
        let (among, at, rank) =
          n.own k r p
            (sym (get-put_other (here, lp.src_rank) (k, r) lp maps.load_plans differ) ∙ h) in
        (inr among, at, rank)
  ]

  abbrev old_ranks : List ℕ
  old_ranks = get_or_empty here maps.possible_ranks

  abbrev new_ranks : List ℕ
  new_ranks = add_to_set lp.src_rank old_ranks

  note-known :
      (f : String) (p : LoadPlan)
      → In (f, p) ((fqn, lp) ∷ seen)
      → In p.src_rank (get_or_empty (f, p.offsets) after.possible_ranks)
  unfolding note_chunk
  note-known f p (inl e) =
      subst (λ c. In c.1.src_rank (get_or_empty (chunk_of c) after.possible_ranks)) e
        (rw (get_or_empty-own here new_ranks maps.possible_ranks)
          (add_to_set-own lp.src_rank old_ranks))
  note-known f p (inr h) = elim (Bool-cases (pair_eq.equal here (f, p.offsets))) [
    | inl same ↦
        let at = (pair_beq_iff here (f, p.offsets)).0 same in
        subst (λ k. In p.src_rank (get_or_empty k after.possible_ranks)) at
          (rw (get_or_empty-own here new_ranks maps.possible_ranks)
            (add_to_set-keeps lp.src_rank p.src_rank old_ranks (rw at (n.known f p h))))
    | inr differ ↦
        rw (get_or_empty-other here (f, p.offsets) new_ranks maps.possible_ranks differ)
          (n.known f p h)
  ]

  note-there :
      (k : Chunk) (r : ℕ)
      → In r (get_or_empty k after.possible_ranks)
      → (p : LoadPlan) × (get (k, r) after.load_plans ≡ some p)
  unfolding note_chunk
  note-there k r h = elim (Bool-cases (pair_eq.equal (here, lp.src_rank) (k, r))) [
    | inl same ↦
        let at = (pair_beq_iff (here, lp.src_rank) (k, r)).0 same in
        (
          lp,
          subst (λ x. get x after.load_plans ≡ some lp) at
              (get-put_own (here, lp.src_rank) lp maps.load_plans),
        )
    | inr differ ↦
        let (p, e) = n.there k r (was differ) in
        (p, get-put_other (here, lp.src_rank) (k, r) lp maps.load_plans differ ∙ e)
  ]
    where
      was :
          pair_eq.equal (here, lp.src_rank) (k, r) ≡ false
          → In r (get_or_empty k maps.possible_ranks)
      was differ = elim (Bool-cases (pair_eq.equal here k)) [
        | inr other ↦ rw (get_or_empty-other here k new_ranks maps.possible_ranks other) at h
        | inl same ↦
            let at = (pair_beq_iff here k).0 same in
            subst (λ x. In r (get_or_empty x maps.possible_ranks)) at
              (elim (add_to_set-only lp.src_rank r old_ranks
                (rw (← at, get_or_empty-own here new_ranks maps.possible_ranks) at h)) [
                  | inr old ↦ old
                  | inl rank ↦ absurd (ground (arith, eqb_iff lp.src_rank r))
                ])
      ]

  pub note_chunk-Noted : Noted ((fqn, lp) ∷ seen) (note_chunk (fqn, lp) maps)
  unfolding note_chunk
  note_chunk-Noted = record {
    own = note-own;
    known = note-known;
    there = note-there;
    some_rank =
        All-put (λ entry. (r : ℕ) × In r entry.1) here new_ranks maps.possible_ranks
          (lp.src_rank, add_to_set-own lp.src_rank old_ranks) n.some_rank;
    unique = put-IsDict here new_ranks maps.possible_ranks n.unique;
  }
