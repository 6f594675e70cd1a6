-- ===== src/Metadata/Merge/Groups.antt =====
-- The groups of one path in `_merge_object_metadata_from_ranks`.
use mathlib.Core.Path.{subst}
use torch_checkpointing.Prelude.{
  ℕ, ◌≡◌, ◌⊎◌, inl, inr, refl, sym, true, Option, none, some, String, List, [], ◌∷◌, ◌++◌, ◌==◌,
  arith, eqb, eqb_iff, Bool-cases, Option-cases, list_eq, string_eq, All,
}
use torch_checkpointing.Prelude.Dict.{Dict, get, All-put, All-get}
use torch_checkpointing.Types.{NestedPath, path_key_eq}
use torch_checkpointing.Mesh.{ShardingMetadata, member}
use torch_checkpointing.Metadata.Merge.{
  LocalMetadata, Holds, lookup, add_rank, group_ranks, global_objects, final_ranks,
}
use torch_checkpointing.Metadata.Merge.Ranks.{
  Recorded, Groups, member-append, Listed, grown, add_rank_lem, get-grown, add_rank-Listed,
  IsInjective,
}

-- What is known of a group: its key, and that its ranks, of which there is one, have the metadata.
module _ (meta_key : ShardingMetadata → String) (Has : ℕ → ShardingMetadata → Type 0)
    (inj : IsInjective meta_key Has) where
  abbrev pub Sound : String × (ShardingMetadata × List ℕ) → Type 0
  Sound g =
      (meta_key g.1.0 ≡ g.0)
      × ((r : ℕ) → member r g.1.1 ≡ true → Has r g.1.0)
      × ((r : ℕ) × Has r g.1.0)

  grown-Sound :
      (q : ℕ) (n : ShardingMetadata) (v : Option (ShardingMetadata × List ℕ))
      → Has q n
      → ((w : ShardingMetadata × List ℕ) → v ≡ some w → Sound (meta_key n, w))
      → Sound (meta_key n, grown meta_key q n v)
  unfolding grown member
  grown-Sound q n none h known =
      (refl, (λ r e. subst (λ t. Has t n) (ground (arith, eqb_iff q r)) h), (q, h))
  grown-Sound q n (some (m, ranks)) h known =
      let (key, all, some') = known (m, ranks) refl in
      (
        key,
        (λ r e. elim (Bool-cases (eqb q r)) [
          | inl same ↦
              subst (λ t. Has t m) ((eqb_iff q r).0 same)
                (subst (λ t. Has q t) (sym (inj m n some' (q, h) key)) h)
          | inr differ ↦ all r (ground (arith, member-append r q ranks))
        ]),
        some',
      )

  add_rank-Sound :
      (q : ℕ) (o : Option ShardingMetadata) (groups : Groups)
      → ((n : ShardingMetadata) → o ≡ some n → Has q n)
      → All Sound groups
      → All Sound (add_rank meta_key q o groups)
  unfolding add_rank
  add_rank-Sound q none groups h all = all
  add_rank-Sound q (some n) groups h all = rw (add_rank_lem meta_key q n groups) (
      All-put Sound (meta_key n) _ groups
        (grown-Sound q n (get (meta_key n) groups) (h n refl)
          (λ w e. All-get Sound (meta_key n) w groups e all))
        all)

  -- A rank is in the group of its metadata once it has been added.
  add_rank-own :
      (q : ℕ) (n : ShardingMetadata) (groups : Groups)
      → Has q n
      → All Sound groups
      → Listed meta_key q n (add_rank meta_key q (some n) groups)
  unfolding grown member
  add_rank-own q n groups has all = elim (Option-cases (get (meta_key n) groups)) [
    | inl e ↦ (q ∷ [], ground (arith, get-grown meta_key q n groups), ground arith)
    | inr ((m, ranks), e) ↦
        let (key, _, some') = All-get Sound (meta_key n) (m, ranks) groups e all in
        let same = inj m n some' (q, has) key in
        (
          ranks ++ q ∷ [],
          ground (arith, get-grown meta_key q n groups),
          ground (arith, member-append q q ranks),
        )
  ]

  module _ (item : String) (path : NestedPath) where
    pub group_ranks-Sound :
        (ranks : Dict ℕ LocalMetadata) (groups : Groups)
        → ((r : ℕ) (md : ShardingMetadata) → Holds item path r md ranks → Has r md)
        → All Sound groups
        → All Sound (group_ranks meta_key item path ranks groups)
    unfolding group_ranks
    group_ranks-Sound [] groups h all = all
    group_ranks-Sound ((q, d) ∷ ranks) groups h all =
        group_ranks-Sound ranks (add_rank meta_key q (lookup item path d) groups)
          (λ r md held. h r md (inr held))
          (add_rank-Sound q (lookup item path d) groups (λ n e. h q n (inl (refl, e))) all)

    pub group_ranks-Listed :
        (r : ℕ) (md : ShardingMetadata) (ranks : Dict ℕ LocalMetadata) (groups : Groups)
        → ((q : ℕ) (n : ShardingMetadata) → Holds item path q n ranks → Has q n)
        → All Sound groups
        → Listed meta_key r md groups ⊎ Holds item path r md ranks
        → Listed meta_key r md (group_ranks meta_key item path ranks groups)
    unfolding group_ranks
    group_ranks-Listed r md [] groups h all (inl listed) = listed
    group_ranks-Listed r md [] groups h all (inr held) = elim held [ ]
    group_ranks-Listed r md ((q, d) ∷ ranks) groups h all one =
        group_ranks-Listed r md ranks (add_rank meta_key q (lookup item path d) groups)
          (λ r' md' held. h r' md' (inr held))
          (add_rank-Sound q (lookup item path d) groups (λ n e. h q n (inl (refl, e))) all)
          (elim one [
            | inl listed ↦ inl (add_rank-Listed meta_key r q md (lookup item path d) groups listed)
            | inr (inl (same, e)) ↦ inl (
                subst (λ t. Listed meta_key t md (add_rank meta_key q (lookup item path d) groups))
                  same (rw e (add_rank-own q md groups (h q md (inl (refl, e))) all)))
            | inr (inr held) ↦ inr held
          ])

  -- What is in the list of groups is what is in the groups.
  pub Listed-Recorded :
      (r : ℕ) (md : ShardingMetadata) (groups : Groups) (ranks : List ℕ)
      → get (meta_key md) groups ≡ some (md, ranks)
      → member r (final_ranks md ranks) ≡ true
      → Recorded r md (global_objects meta_key groups)
  unfolding global_objects
  Listed-Recorded r md [] ranks e h = ground arith
  Listed-Recorded r md ((k, (m, l)) ∷ groups) ranks e h = elim (Bool-cases (k == meta_key md)) [
    | inl same ↦ inl (ground arith)
    | inr differ ↦ inr (Listed-Recorded r md groups ranks (rw differ at e) h)
  ]

  pub Recorded-Sound :
      (r : ℕ) (md : ShardingMetadata) (groups : Groups)
      → All Sound groups
      → Recorded r md (global_objects meta_key groups)
      → (ranks : List ℕ) × (member r (final_ranks md ranks) ≡ true)
        × ((q : ℕ) → member q ranks ≡ true → Has q md)
        × ((q : ℕ) × Has q md)
  unfolding global_objects
  Recorded-Sound r md [] all h = elim h [ ]
  Recorded-Sound r md ((k, (m, l)) ∷ groups) all (inl (same, e)) =
      let (key, has, some') = all.0 in
      (l, rw (sym same) e, (λ q q-in. rw (sym same) (has q q-in)), (some'.0, rw (sym same) some'.1))
  Recorded-Sound r md ((k, (m, l)) ∷ groups) all (inr later) =
      Recorded-Sound r md groups all.1 later
