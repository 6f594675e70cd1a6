-- ===== src/Resharder/Generate/Listed.antt =====
-- The load plans of a dictionary as a list, for the end of `_generate_load_plans`.
use mathlib.Core.Path.{subst}
use torch_checkpointing.Prelude.{
  ◌≤◌, ◌≡◌, inl, inr, sym, ap, some, String, List, [], ◌∷◌, string_eq, list_eq, arith, Option-cases,
  Bool-cases, ◌==◌, In, In-append, In-append_left, In-append_right, map,
}
use torch_checkpointing.Prelude.Dict.{Dict, get, IsDict, get-own, get-later}
use torch_checkpointing.Types.{NestedPath, path_key_eq}
use torch_checkpointing.Resharder.{LoadPlan}
use torch_checkpointing.Resharder.Chunks.{chunks, get_or_empty}
use torch_checkpointing.Resharder.Generate.Renamed.{AreNamed}

-- Of the plans, one for each place of the target is kept, from the lowest of its source ranks.
abbrev pub Thins : List LoadPlan → List LoadPlan → Type 0
Thins plans kept =
    ((p : LoadPlan)
      → In p kept
      → In p plans
        × ((q : LoadPlan) → In q plans → q.offsets ≡ p.offsets → p.src_rank ≤ q.src_rank)
        × ((q : LoadPlan) → In q kept → q.offsets ≡ p.offsets → q ≡ p))
    × ((q : LoadPlan) → In q plans → (p : LoadPlan) × In p kept × (p.offsets ≡ q.offsets))

abbrev pub Listed : String → LoadPlan → List (String × LoadPlan) → Type 0
Listed f q cs = In {A = String × LoadPlan} (f, q) cs

map-In :
    (f : String) (q : LoadPlan) (plans : List LoadPlan)
    → In q plans
    → Listed f q (map (λ lp. (f, lp)) plans)
map-In f q [] h = absurd h
map-In f q (p ∷ plans) (inl e) = inl (cc)
map-In f q (p ∷ plans) (inr h) = inr (map-In f q plans h)

In-map :
    (g f : String) (q : LoadPlan) (plans : List LoadPlan)
    → Listed f q (map (λ lp. (g, lp)) plans)
    → (g ≡ f) × In q plans
In-map g f q [] h = absurd h
In-map g f q (p ∷ plans) (inl e) = (ap (λ x. x.0) e, inl (ap (λ x. x.1) e))
In-map g f q (p ∷ plans) (inr h) = let (e, i) = In-map g f q plans h in (e, inr i)

pub chunks-In :
    (f : String) (q : LoadPlan) (d : Dict String (List LoadPlan))
    → IsDict d
    → Listed f q (chunks d)
    → (plans : List LoadPlan) × (get f d ≡ some plans) × In q plans
unfolding chunks
chunks-In f q [] u h = absurd h
chunks-In f q ((g, ps) ∷ d) u h = elim (In-append (f, q) (map (λ lp. (g, lp)) ps) (chunks d) h) [
  | inl first ↦
      let (e, i) = In-map g f q ps first in
      (ps, subst (λ x. get x ((g, ps) ∷ d) ≡ some ps) e (get-own g ps d), i)
  | inr later ↦
      let (plans, e, i) = chunks-In f q d u.1 later in (plans, get-later g f ps plans d u.0 e, i)
]

pub In-chunks :
    (f : String) (q : LoadPlan) (d : Dict String (List LoadPlan)) (plans : List LoadPlan)
    → get f d ≡ some plans
    → In q plans
    → Listed f q (chunks d)
unfolding chunks
In-chunks f q [] plans e h = absurd (ground arith)
In-chunks f q ((g, ps) ∷ d) plans e h = elim (Bool-cases (g == f)) [
  | inl same ↦
      let is : ps ≡ plans = ground arith in
      In-append_left (f, q) (map (λ lp. (g, lp)) ps) (chunks d)
        (subst (λ x. Listed f q (map (λ lp. (x, lp)) ps)) (sym ((string_eq.equal_iff g f).0 same))
          (map-In f q ps (subst (In q) (sym is) h)))
  | inr differ ↦
      In-append_right (f, q) (map (λ lp. (g, lp)) ps) (chunks d)
        (In-chunks f q d plans (rw differ at e) h)
]

pub get_or_empty-some :
    (f : String) (p : LoadPlan) (d : Dict String (List LoadPlan))
    → In p (get_or_empty f d)
    → (kept : List LoadPlan) × (get f d ≡ some kept) × (get_or_empty f d ≡ kept)
get_or_empty-some f p d h = elim (Option-cases (get f d)) [
  | inl n ↦ let own : get_or_empty f d ≡ [] = ground arith in absurd (rw own at h)
  | inr (kept, e) ↦ (kept, e, ground arith)
]

pub AreNamed-all :
    (fqn_of : NestedPath → String) (paths : Dict String NestedPath) (IsMeant : NestedPath → Type 0)
    (entries : Dict String (List LoadPlan))
    → IsDict entries
    → ((f : String) (plans : List LoadPlan)
        → get f entries ≡ some plans
        → (path : NestedPath) × (get f paths ≡ some path) × (fqn_of path ≡ f) × IsMeant path)
    → AreNamed fqn_of paths IsMeant entries
AreNamed-all fqn_of paths IsMeant [] u h = tt
AreNamed-all fqn_of paths IsMeant ((f, ps) ∷ entries) u h = (
  h f ps (get-own f ps entries),
  AreNamed-all fqn_of paths IsMeant entries u.1
      (λ g plans e. h g plans (get-later f g ps plans entries u.0 e)),
)
