-- ===== src/Resharder/Aliases/Tests.antt =====
-- Two names of one tensor, and a third tensor.
use torch_checkpointing.Prelude.{
  ℕ, ◌≡◌, ◌⊎◌, refl, Option, none, some, String, [], ◌∷◌, string_eq, if◌then◌else◌,
}
use torch_checkpointing.Prelude.Dict.{Dict, get, IsDict}
use torch_checkpointing.Resharder.Aliases.{is_aliased, dedupe_aliased_targets}
use torch_checkpointing.Resharder.Aliases.Deduped.{dedupe_aliased_targets_unique}

abbrev targets : Dict String (Option ℕ)
targets = ("embed", some 7) ∷ ("step", none) ∷ ("head", some 7) ∷ ("bias", some 9) ∷ []

abbrev plans : Dict String ℕ
plans = ("embed", 1) ∷ ("head", 2) ∷ []

targets-IsDict : IsDict targets
targets-IsDict = (refl, (refl, (refl, (refl, tt))))

dedupe_aliased_targets_unique_example :
    ((k j : String) (ptr : ℕ)
      → get k (dedupe_aliased_targets targets plans).0 ≡ some (some ptr)
      → get j (dedupe_aliased_targets targets plans).0 ≡ some (some ptr)
      → k ≡ j)
    × ((k : String) (t : Option ℕ)
        → get k targets ≡ some t
        → (get k (dedupe_aliased_targets targets plans).0 ≡ some t)
          ⊎ ((ptr : ℕ) × (j : String) × (t ≡ some ptr)
              × (get j (dedupe_aliased_targets targets plans).0 ≡ some (some ptr))))
    × ((k : String)
        → (get k (dedupe_aliased_targets targets plans).0 ≡ (
            if is_aliased k (dedupe_aliased_targets targets plans).2 then none else get k targets))
          × (get k (dedupe_aliased_targets targets plans).1 ≡ (
              if is_aliased k (dedupe_aliased_targets targets plans).2 then none else get k plans)))
dedupe_aliased_targets_unique_example = dedupe_aliased_targets_unique targets plans targets-IsDict
