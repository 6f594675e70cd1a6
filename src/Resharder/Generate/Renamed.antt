-- ===== src/Resharder/Generate/Renamed.antt =====
-- The names of paths turned back into the paths, at the end of `_generate_load_plans` of
-- torch_checkpointing/default_resharder.py.
use mathlib.Core.Path.{subst}
use torch_checkpointing.Prelude.{
  ◌≡◌, ◌≢◌, ◌⊎◌, inl, inr, refl, sym, ap, ◌∙◌, false, Option, none, some, String, List, [], ◌∷◌,
  string_eq, list_eq, arith, Bool-cases, ◌==◌, list_beq_iff,
}
use torch_checkpointing.Prelude.Dict.{Dict, get, put, get-put_own, get-put_other, IsDict}
use torch_checkpointing.Types.{NestedPath, path_key_eq}
use torch_checkpointing.Resharder.{LoadPlan}
use torch_checkpointing.Resharder.Generate.{renamed}

differs : (a b : NestedPath) → a ≢ b → (a == b) ≡ false
differs a b apart = elim (Bool-cases (a == b)) [
  | inl same ↦ absurd (apart ((list_beq_iff a b).0 same))
  | inr e ↦ e
]

module _ (fqn_of : NestedPath → String) (fqn_to_path : Dict String NestedPath) where
  -- Every name is that of the path which stands for it, and the path is one of those that are meant.
  abbrev pub AreNamed : (NestedPath → Type 0) → Dict String (List LoadPlan) → Type 0
  AreNamed IsMeant [] = Unit
  AreNamed IsMeant ((fqn, plans) ∷ rest) =
      ((path : NestedPath) × (get fqn fqn_to_path ≡ some path) × (fqn_of path ≡ fqn) × IsMeant path)
      × AreNamed IsMeant rest

  -- What is found under a path: the plans of its name, or else what was there before.
  abbrev pub entry_or : Option (List LoadPlan) → Option (List LoadPlan) → Option (List LoadPlan)
  entry_or none old = old
  entry_or (some plans) old = some plans

  module _ (IsMeant : NestedPath → Type 0) where
    pub renamed-get :
        (entries : Dict String (List LoadPlan)) (result : Dict NestedPath (List LoadPlan))
        → IsDict entries
        → AreNamed IsMeant entries
        → (out : Dict NestedPath (List LoadPlan)) × (renamed fqn_to_path entries result ≡ some out)
          × ((path : NestedPath)
              → get (fqn_of path) fqn_to_path ≡ some path
              → get path out ≡ entry_or (get (fqn_of path) entries) (get path result))
          × ((path : NestedPath) (plans : List LoadPlan)
              → get path out ≡ some plans
              → (get path result ≡ some plans) ⊎ IsMeant path)
    unfolding renamed
    renamed-get [] result u n = (result, refl, λ path e. refl, λ path plans h. inl h)
    renamed-get ((f, ps) ∷ entries) result u ((at, found, named, meant), n) =
        let (out, ends, holds, only) = renamed-get entries (put at ps result) u.1 n in
        (
          out,
          rw (found, renamed) ends,
          λ path e. elim (Bool-cases (f == fqn_of path)) [
            | inl same ↦
                let f_is = (string_eq.equal_iff f (fqn_of path)).0 same in
                let is : at ≡ path = ground arith in
                rw same (
                  holds path e
                  ∙ ap (λ o. entry_or o (get path (put at ps result)))
                      (subst (λ x. get x entries ≡ none) f_is u.0)
                  ∙ subst (λ x. get x (put at ps result) ≡ some ps) is (get-put_own at ps result))
            | inr differ ↦
                let apart : at ≢ path = λ is.
                  absurd (ground (arith, string_eq.equal_iff f (fqn_of path), ap fqn_of is)) in
                rw differ (
                  holds path e
                  ∙ ap (entry_or (get (fqn_of path) entries))
                      (get-put_other at path ps result (differs at path apart)))
          ],
          λ path plans h. elim (only path plans h) [
            | inr m ↦ inr m
            | inl here ↦ elim (Bool-cases (at == path)) [
              | inl same ↦ inr (subst IsMeant ((list_beq_iff at path).0 same) meant)
              | inr differ ↦ inl (sym (get-put_other at path ps result differ) ∙ here)
            ]
          ],
        )
