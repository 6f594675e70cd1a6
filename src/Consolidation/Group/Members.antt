-- ===== src/Consolidation/Group/Members.antt =====
-- The ranks that take part are rank 0 and the owners of files.
use torch_checkpointing.Prelude.{
  ℕ, ◌≡◌, refl, sym, ◌∙◌, inl, inr, true, false, ◌||◌, some, List, [], ◌∷◌, eqb, eqb_iff,
  if◌then◌else◌, arith, Bool-cases, length,
}
use torch_checkpointing.Consolidation.Group.{
  world, new_group, Participation, use_distributed, insert_rank, participating_ranks, is_among,
  create_consolidation_process_group,
}

insert_rank-is_among :
    (r o : ℕ) (xs : List ℕ) → is_among r (insert_rank o xs) ≡ (eqb r o || is_among r xs)
unfolding insert_rank is_among
insert_rank-is_among r o [] = refl
insert_rank-is_among r o (x ∷ xs) =
    grind (arith, insert_rank-is_among r o xs, eqb_iff o x, eqb_iff r o, eqb_iff r x)

participating_ranks-is_among :
    (r : ℕ) (owners : List ℕ)
    → is_among r (participating_ranks owners) ≡ (eqb r 0 || is_among r owners)
unfolding participating_ranks is_among
participating_ranks-is_among r [] = refl
participating_ranks-is_among r (o ∷ owners) = ground (
  arith,
  insert_rank-is_among r o (participating_ranks owners),
  participating_ranks-is_among r owners,
)

-- Without an owner but rank 0, no other rank owns anything.
only_rank_zero :
    (r : ℕ) (owners : List ℕ)
    → use_distributed owners ≡ false
    → is_among r owners ≡ true
    → eqb r 0 ≡ true
unfolding use_distributed is_among
only_rank_zero r [] h e = ground arith
only_rank_zero r (o ∷ owners) h e =
    grind (arith, only_rank_zero r owners, eqb_iff o 0, eqb_iff r o, eqb_iff r 0)

-- What a rank gets: rank 0 and the owners take part, the others do not.
abbrev pub TakesPart : ℕ → ℕ → List ℕ → Participation → Type 0
TakesPart rank world_size owners p =
    (p.participates ≡ (eqb rank 0 || is_among rank owners))
    × (p.created ≡ true → p.group ≡ some (new_group (participating_ranks owners)))
    × (p.participates ≡ true
        → use_distributed owners ≡ true
        → p.group
          ≡ some (
              if eqb (length (participating_ranks owners)) world_size
              then world
              else new_group (participating_ranks owners)))

-- With the mode that the owners call for, exactly rank 0 and the ranks that own a file take part; all
-- that take part in the distributed mode get the same group, and a group that was created is
-- that of exactly these ranks.
pub create_consolidation_process_group-TakesPart :
    (rank world_size : ℕ) (owners : List ℕ)
    → TakesPart rank world_size owners
        (create_consolidation_process_group rank world_size owners (use_distributed owners))
unfolding create_consolidation_process_group
create_consolidation_process_group-TakesPart rank world_size owners =
    let members = sym (participating_ranks-is_among rank owners) in
    elim (Bool-cases (use_distributed owners)) [
      | inl e ↦ rw e (elim (Bool-cases (is_among rank (participating_ranks owners))) [
        | inl i ↦ rw i (elim (Bool-cases (eqb (length (participating_ranks owners)) world_size)) [
          | inl all ↦ rw all (sym (members ∙ i), (λ q. ground arith), λ q u. refl)
          | inr some' ↦ rw some' (sym (members ∙ i), (λ q. refl), λ q u. refl)
        ])
        | inr i ↦ rw i (sym (members ∙ i), (λ q. ground arith), λ q u. ground arith)
      ])
      | inr e ↦
          rw e
            (ground (arith, only_rank_zero rank owners e), (λ q. ground arith), λ q u. ground arith)
    ]
