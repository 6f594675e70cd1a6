-- ===== src/Schema/Tests.antt =====
-- A strict schema of one key, and a payload that has it.
use torch_checkpointing.Prelude.{ℕ, ◌≡◌, refl, Bool, true, none, some, String, [], ◌∷◌, string_eq}
use torch_checkpointing.Prelude.Result.{err}
use torch_checkpointing.Prelude.Dict.{Dict, IsDict}
use torch_checkpointing.Layout.{torch}
use torch_checkpointing.Schema.{
  CheckpointSchema, no_item_spec, build_items, build_after, build_checked, missing_keys, extra_keys,
}
use torch_checkpointing.Schema.Built.{Builds, build_items-Builds}

contains_rank : String → Bool
contains_rank path = true

replace_rank : String → ℕ → String
replace_rank path rank = "model_0.pt"

abbrev strict : CheckpointSchema ℕ
strict = record {
  items =
      (
        "model",
        record {
          requires_copy = true;
          layout = some (record { file_path = "model_{rank}.pt"; serialization_format = torch });
          resharder = some 1;
          required = true;
        },
      )
      ∷ [];
  default = none;
}

abbrev payload : Dict String ℕ
payload = ("model", 5) ∷ []

abbrev larger : Dict String ℕ
larger = ("model", 5) ∷ ("step", 6) ∷ []

names_extra :
    build_items contains_rank replace_rank strict larger 0 ≡ err (no_item_spec ("step" ∷ []))
unfolding build_items build_after build_checked missing_keys extra_keys
names_extra = refl

strict-IsDict : IsDict strict.items
strict-IsDict = (refl, tt)

build_items-Builds_example :
    Builds contains_rank replace_rank strict payload 0
      (build_items contains_rank replace_rank strict payload 0)
build_items-Builds_example =
    build_items-Builds contains_rank replace_rank strict payload 0 strict-IsDict
