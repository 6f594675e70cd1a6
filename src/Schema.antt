-- ===== src/Schema.antt =====
-- torch_checkpointing/schema.py: the items of a checkpoint from a payload and the specs of its keys. Values
-- and resharders are parameters, and so are the strings' search and replacement of `{rank}`.
pub mod Built
pub mod Keys
mod Tests
use torch_checkpointing.Prelude.{
  ℕ, Bool, true, false, not, ◌&&◌, ◌||◌, Option, none, some, String, List, [], ◌∷◌, string_eq,
  if◌then◌else◌,
}
use torch_checkpointing.Prelude.Result.{Result, ok, err, ◌>>=◌}
use torch_checkpointing.Prelude.Dict.{Dict, get, has}
use torch_checkpointing.Layout.{LayoutInfo}

pub record ItemSpec (R : Type 0) : Type 0 where
  pub requires_copy : Bool
  pub layout : Option LayoutInfo
  pub resharder : Option R
  pub required : Bool

pub record CheckpointSchema (R : Type 0) : Type 0 where
  pub items : Dict String (ItemSpec R)
  pub default : Option (ItemSpec R)

pub record CheckpointItem (V R : Type 0) : Type 0 where
  pub value : V
  pub requires_copy : Bool
  pub layout : Option LayoutInfo
  pub resharder : Option R

-- The two KeyErrors with the keys that they name, and the assertion.
pub data SchemaError : Type 0 where
  missing_required : List String → SchemaError
  no_item_spec : List String → SchemaError
  assertion : SchemaError

module _ {R : Type 0} where
  unfoldable pub has_resharder_item : Dict String (ItemSpec R) → Bool
  has_resharder_item [] = false
  has_resharder_item ((key, spec) ∷ specs) = elim spec.resharder [
    | none ↦ has_resharder_item specs
    | some r ↦ true
  ]

  -- `self.items.get(key, self.default)`
  unfoldable pub spec_of : CheckpointSchema R → String → Option (ItemSpec R)
  spec_of schema key = elim (get key schema.items) [ none ↦ schema.default | some spec ↦ some spec ]

  unfoldable pub has_resharder : CheckpointSchema R → Bool
  has_resharder schema = has_resharder_item schema.items || (elim schema.default [
    | none ↦ false
    | some spec ↦ elim spec.resharder [ none ↦ false | some r ↦ true ]
  ])

module _ {V R : Type 0} where
  unfoldable pub missing_keys : Dict String (ItemSpec R) → Dict String V → List String
  missing_keys [] payload = []
  missing_keys ((key, spec) ∷ specs) payload =
      let rest = missing_keys specs payload in
      if spec.required && not (has key payload) then key ∷ rest else rest

  unfoldable pub extra_keys : Dict String (ItemSpec R) → Dict String V → List String
  extra_keys specs [] = []
  extra_keys specs ((key, v) ∷ payload) =
      let rest = extra_keys specs payload in if has key specs then rest else key ∷ rest

-- `contains_rank` is `RANK_PLACEHOLDER in file_path`, `replace_rank` replaces it by the rank.
module _ (contains_rank : String → Bool) (replace_rank : String → ℕ → String) where
  unfoldable pub materialize_layout : Option LayoutInfo → ℕ → Option LayoutInfo
  materialize_layout none rank = none
  materialize_layout (some l) rank =
      if not (contains_rank l.file_path)
      then some l
      else some (record l { file_path = replace_rank l.file_path rank })

  module _ {V R : Type 0} where
    unfoldable pub item_of : ItemSpec R → V → ℕ → CheckpointItem V R
    item_of spec v rank = record {
      value = v;
      requires_copy = spec.requires_copy;
      layout = materialize_layout spec.layout rank;
      resharder = spec.resharder;
    }

    unfoldable pub build_each :
        CheckpointSchema R
        → Dict String V
        → ℕ
        → Result SchemaError (Dict String (CheckpointItem V R))
    build_each schema [] rank = ok []
    build_each schema ((key, v) ∷ payload) rank =
        let later = build_each schema payload rank in
        elim (spec_of schema key) [
          | none ↦ err assertion
          | some spec ↦ (do rest ← later; ok ((key, item_of spec v rank) ∷ rest))
        ]

    -- The check of a strict schema, then the loop over the payload.
    unfoldable pub build_checked :
        CheckpointSchema R
        → List String
        → Dict String V
        → ℕ
        → Result SchemaError (Dict String (CheckpointItem V R))
    build_checked schema [] payload rank = build_each schema payload rank
    build_checked schema (key ∷ extra) payload rank = elim schema.default [
      | none ↦ err (no_item_spec (key ∷ extra))
      | some spec ↦ build_each schema payload rank
    ]

    unfoldable pub build_after :
        List String
        → CheckpointSchema R
        → Dict String V
        → ℕ
        → Result SchemaError (Dict String (CheckpointItem V R))
    build_after [] schema payload rank =
        build_checked schema (extra_keys schema.items payload) payload rank
    build_after (key ∷ missing) schema payload rank = err (missing_required (key ∷ missing))

    -- `_CheckpointSchema.build_items`
    unfoldable pub build_items :
        CheckpointSchema R
        → Dict String V
        → ℕ
        → Result SchemaError (Dict String (CheckpointItem V R))
    build_items schema payload rank =
        build_after (missing_keys schema.items payload) schema payload rank
