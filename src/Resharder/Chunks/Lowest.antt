-- ===== src/Resharder/Chunks/Lowest.antt =====
-- The chunks that `deduplicate_source_chunks` of torch_checkpointing/resharding_utils.py keeps.
use mathlib.Core.Path.{subst}
use torch_checkpointing.Prelude.{
  ℕ, ◌≤◌, ◌≡◌, ◌⊎◌, inl, inr, refl, sym, ap, ◌∙◌, some, String, List, [], ◌∷◌, nat_eq, string_eq,
  list_eq, pair_eq, All, In, arith,
}
use torch_checkpointing.Prelude.Dict.{Dict, get, IsDict, All-get}
use torch_checkpointing.Resharder.{LoadPlan}
use torch_checkpointing.Resharder.Chunks.{
  Chunk, chunks, Maps, get_or_empty, note_chunk, note_chunks, noted, chosen,
  deduplicate_source_chunks,
}
use torch_checkpointing.Resharder.Chunks.Noted.{
  lowest-IsLeast, lowest-some, Noted, note_chunk-Noted,
}
use torch_checkpointing.Resharder.Chunks.Built.{
  In-get, some-injective, ranks-injective, get_or_empty-In, Chosen, build_result-Chosen,
  build_result-IsDict,
}

note_chunks-Noted :
    (cs seen : List (String × LoadPlan)) (maps : Maps)
    → Noted seen maps
    → (all : List (String × LoadPlan)) × Noted all (note_chunks cs maps)
      × ((c : String × LoadPlan) → In c all → In c cs ⊎ In c seen)
      × ((c : String × LoadPlan) → In c cs ⊎ In c seen → In c all)
unfolding note_chunks
note_chunks-Noted [] seen maps n =
    (seen, n, λ c h. inr h, λ c h. elim h [ inl none' ↦ absurd none' | inr old ↦ old ])
note_chunks-Noted ((fqn, lp) ∷ cs) seen maps n =
    let (all, m, only, every) =
      note_chunks-Noted cs ((fqn, lp) ∷ seen) (note_chunk (fqn, lp) maps)
        (note_chunk-Noted seen maps fqn lp n) in
    (
      all,
      m,
      λ c h. elim (only c h) [
        | inl later ↦ inl (inr later)
        | inr (inl e) ↦ inl (inl e)
        | inr (inr old) ↦ inr old
      ],
      λ c h. every c (elim h [
        | inl (inl e) ↦ inr (inl e)
        | inl (inr later) ↦ inl later
        | inr old ↦ inr (inr old)
      ]),
    )

-- Every chunk of the maps has a chosen plan: one of its own, from the lowest rank that has it.
module _ (input_plan : Dict String (List LoadPlan)) where
  abbrev maps_of : Maps
  maps_of = noted input_plan

  chunks-Noted :
      (all : List (String × LoadPlan)) × Noted all maps_of
      × ((c : String × LoadPlan) → In c all → In c (chunks input_plan))
      × ((c : String × LoadPlan) → In c (chunks input_plan) → In c all)
  unfolding noted
  chunks-Noted =
      let (all, n, only, every) =
        note_chunks-Noted (chunks input_plan) [] (record { possible_ranks = []; load_plans = [] })
          (record {
            own = λ k r lp h. absurd (ground arith);
            known = λ f lp h. absurd h;
            there = λ k r h. absurd h;
            some_rank = tt;
            unique = tt;
          }) in
      (
        all,
        n,
        λ c h. elim (only c h) [ inl i ↦ i | inr none' ↦ absurd none' ],
        λ c h. every c (inl h),
      )

  chosen-lowest :
      (k : Chunk) (ranks : List ℕ)
      → In (k, ranks) maps_of.possible_ranks
      → (p : LoadPlan) × (chosen maps_of k ranks ≡ some p)
        × In (k.0, p) (chunks input_plan)
        × (p.offsets ≡ k.1)
        × ((q : LoadPlan)
            → In (k.0, q) (chunks input_plan)
            → q.offsets ≡ k.1
            → p.src_rank ≤ q.src_rank)
  unfolding chosen
  chosen-lowest k ranks i =
      let (all, n, only, every) = chunks-Noted in
      let listed : get k maps_of.possible_ranks ≡ some ranks =
        In-get k ranks maps_of.possible_ranks n.unique i in
      let own : get_or_empty k maps_of.possible_ranks ≡ ranks = ground arith in
      let (r, one) =
        All-get (λ entry. (r : ℕ) × In r entry.1) k ranks maps_of.possible_ranks listed
          n.some_rank in
      let (m, least) = lowest-some ranks r one in
      let (among, below) = lowest-IsLeast ranks m least in
      let (p, found) = n.there k m (rw own among) in
      let (in_all, at, rank) = n.own k m p found in
      (
        p,
        rw (least, chosen) found,
        only (k.0, p) in_all,
        at,
        λ q h same.
            let has_rank = n.known k.0 q (every (k.0, q) h) in
            let in_ranks : In q.src_rank ranks = rw own at (
              subst (λ x. In q.src_rank (get_or_empty (k.0, x) maps_of.possible_ranks)) same
                has_rank) in
            omega (arith, rank, below q.src_rank in_ranks),
      )

  -- The plan that stands for a chunk of a name, with what is known of it.
  abbrev Stands : String → LoadPlan → Type 0
  Stands f p =
      (k : Chunk) × (ranks : List ℕ) × (get k maps_of.possible_ranks ≡ some ranks)
      × (k.0 ≡ f)
      × (chosen maps_of k ranks ≡ some p)
      × (p.offsets ≡ k.1)
      × In (f, p) (chunks input_plan)
      × ((q : LoadPlan) → In (f, q) (chunks input_plan) → q.offsets ≡ k.1 → p.src_rank ≤ q.src_rank)

  Chosen-Stands :
      (f : String) (p : LoadPlan) → Chosen maps_of f maps_of.possible_ranks p → Stands f p
  Chosen-Stands f p (k, ranks, i, named, c) =
      let (q, d, among, at, below) = chosen-lowest k ranks i in
      let is : q ≡ p = some-injective (sym d ∙ c) in
      (
        k,
        ranks,
        In-get k ranks maps_of.possible_ranks chunks-Noted.1.unique i,
        named,
        c,
        ap (λ x. x.offsets) (sym is) ∙ at,
        subst (λ x. In (f, x) (chunks input_plan)) is
            (subst (λ x. In (x, q) (chunks input_plan)) named among),
        λ r h same.
            subst (λ x. x.src_rank ≤ r.src_rank) is
              (below r (subst (λ x. In (x, r) (chunks input_plan)) (sym named) h) same),
      )

  Stands-unique :
      (f : String) (p q : LoadPlan) → Stands f p → Stands f q → q.offsets ≡ p.offsets → q ≡ p
  Stands-unique f p q (k, ranks, g, named, c, at, _, _) (k', ranks', g', named', c', at', _, _)
        same =
      let keys : k' ≡ k = ground arith in
      let lists : ranks' ≡ ranks =
        ranks-injective (sym g' ∙ ap (λ x. get x maps_of.possible_ranks) keys ∙ g) in
      some-injective
        (sym c' ∙ ap (λ x. chosen maps_of x ranks') keys ∙ ap (chosen maps_of k) lists ∙ c)

  place-Chosen :
      (f : String) (q : LoadPlan)
      → In (f, q) (chunks input_plan)
      → (p : LoadPlan) × Chosen maps_of f maps_of.possible_ranks p × (p.offsets ≡ q.offsets)
  place-Chosen f q h =
      let (all, n, only, every) = chunks-Noted in
      let (ranks, i) =
        get_or_empty-In (f, q.offsets) q.src_rank maps_of.possible_ranks
          (n.known f q (every (f, q) h)) in
      let (p, c, among, at, below) = chosen-lowest (f, q.offsets) ranks i in
      (p, ((f, q.offsets), ranks, i, refl, c), at)

-- The deduplication of load plans raises no error. Under each name it keeps plans of that name only; a
-- plan that is kept comes from the lowest of the source ranks with a plan for the same place of the same
-- target, and no other plan is kept for that place; and each place for which there was a plan has one.
pub deduplicate_source_chunks-Lowest :
    (input_plan : Dict String (List LoadPlan))
    → (out : Dict String (List LoadPlan)) × (deduplicate_source_chunks input_plan ≡ some out)
      × ((f : String) (p : LoadPlan)
          → In p (get_or_empty f out)
          → In (f, p) (chunks input_plan)
            × ((q : LoadPlan)
                → In (f, q) (chunks input_plan)
                → q.offsets ≡ p.offsets
                → p.src_rank ≤ q.src_rank)
            × ((q : LoadPlan) → In q (get_or_empty f out) → q.offsets ≡ p.offsets → q ≡ p))
      × ((f : String) (q : LoadPlan)
          → In (f, q) (chunks input_plan)
          → (p : LoadPlan) × In p (get_or_empty f out) × (p.offsets ≡ q.offsets))
unfolding deduplicate_source_chunks
deduplicate_source_chunks-Lowest input_plan =
    let maps = noted input_plan in
    let (out, ends, only, every) =
      build_result-Chosen maps maps.possible_ranks []
        (λ k ranks i. let (p, c, _, _, _) = chosen-lowest input_plan k ranks i in (p, c)) in
    let stands = λ (f : String) (p : LoadPlan) (h : In p (get_or_empty f out)).
      Chosen-Stands input_plan f p (from_chosen f p (only f p h)) in
    (
      out,
      ends,
      λ f p h.
          let s = stands f p h in
          (
            s.6,
            λ q i same. s.7 q i (same ∙ s.5),
            λ q i same. Stands-unique input_plan f p q s (stands f q i) same,
          ),
      λ f q h. let (p, c, at) = place-Chosen input_plan f q h in (p, every f p (inr c), at),
    )
  where
    from_chosen :
        (f : String) (p : LoadPlan)
        → In p [] ⊎ Chosen (noted input_plan) f (noted input_plan).possible_ranks p
        → Chosen (noted input_plan) f (noted input_plan).possible_ranks p
    from_chosen f p (inl none') = absurd none'
    from_chosen f p (inr c) = c

pub deduplicate_source_chunks-IsDict :
    (input_plan out : Dict String (List LoadPlan))
    → deduplicate_source_chunks input_plan ≡ some out
    → IsDict out × All (λ entry. (p : LoadPlan) × In p entry.1) out
unfolding deduplicate_source_chunks
deduplicate_source_chunks-IsDict input_plan out h =
    build_result-IsDict (noted input_plan) (noted input_plan).possible_ranks [] out h (tt, tt)
