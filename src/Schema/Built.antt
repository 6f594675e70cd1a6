-- ===== src/Schema/Built.antt =====
-- `build_items` of torch_checkpointing/schema.py as a whole.
use mathlib.Core.Path.{subst}
use torch_checkpointing.Prelude.{
  ℕ, ◌≡◌, ◌≢◌, ◌⊎◌, inl, inr, refl, sym, ◌∙◌, Bool, true, false, Bool-cases, Option, none, some,
  String, List, [], ◌∷◌, All, arith, Option-cases, string_eq,
}
use torch_checkpointing.Prelude.Result.{Result, ok, err}
use torch_checkpointing.Prelude.Dict.{Dict, get, has, IsDict, get-own}
use torch_checkpointing.Layout.{LayoutInfo}
use torch_checkpointing.Schema.{
  ItemSpec, CheckpointSchema, CheckpointItem, SchemaError, missing_required, no_item_spec,
  assertion, missing_keys, extra_keys, spec_of, item_of, materialize_layout, build_each,
  build_checked, build_after, build_items,
}
use torch_checkpointing.Schema.Keys.{
  IsMissing, missing_keys-IsMissing, missing_keys-none, IsExtra, extra_keys-none,
  extra_keys-IsExtra, AllSpecified, specified, specified_default,
}

module _ {R : Type 0} where
  -- The spec of a key in the schema, or the default where it has none.
  abbrev pub IsSpec : CheckpointSchema R → String → ItemSpec R → Type 0
  IsSpec schema key spec =
      (get key schema.items ≡ some spec)
      ⊎ ((get key schema.items ≡ none) × (schema.default ≡ some spec))

  spec_of-IsSpec :
      (schema : CheckpointSchema R) (key : String) (spec : ItemSpec R) (o : Option (ItemSpec R))
      → get key schema.items ≡ o
      → spec_of schema key ≡ some spec
      → IsSpec schema key spec
  unfolding spec_of
  spec_of-IsSpec schema key spec none e h = inr (e, rw (e, spec_of) at h)
  spec_of-IsSpec schema key spec (some s) e h = inl (e ∙ rw (e, spec_of) at h)

module _ {V R : Type 0} (contains_rank : String → Bool) (replace_rank : String → ℕ → String) where
  -- An item with the value, the settings of the spec, and its layout for the rank.
  pub record IsItemOf (spec : ItemSpec R) (v : V) (rank : ℕ) (i : CheckpointItem V R) : Type 0 where
    pub value : i.value ≡ v
    pub requires_copy : i.requires_copy ≡ spec.requires_copy
    pub resharder : i.resharder ≡ spec.resharder
    pub no_layout : spec.layout ≡ none → i.layout ≡ none
    pub fixed_layout :
        (l : LayoutInfo)
        → spec.layout ≡ some l
        → contains_rank l.file_path ≡ false
        → i.layout ≡ some l
    pub ranked_layout :
        (l : LayoutInfo)
        → spec.layout ≡ some l
        → contains_rank l.file_path ≡ true
        → i.layout ≡ some (record l { file_path = replace_rank l.file_path rank })

  -- What is built for a key: nothing if the payload has none, else an item of its value.
  abbrev pub IsExpected :
      CheckpointSchema R → ℕ → String → Option V → Option (CheckpointItem V R) → Type 0
  IsExpected schema rank key none built = built ≡ none
  IsExpected schema rank key (some v) built =
      (i : CheckpointItem V R) × (spec : ItemSpec R) × (built ≡ some i)
      × IsSpec schema key spec
      × IsItemOf spec v rank i

  item_of-IsItemOf :
      (spec : ItemSpec R) (v : V) (rank : ℕ)
      → IsItemOf spec v rank (item_of contains_rank replace_rank spec v rank)
  unfolding item_of materialize_layout
  item_of-IsItemOf spec v rank = record {
    value = refl;
    requires_copy = refl;
    resharder = refl;
    no_layout = λ e. rw e refl;
    fixed_layout = λ l e c. rw (e, c) refl;
    ranked_layout = λ l e c. rw (e, c) refl;
  }

  build_each_total :
      (schema : CheckpointSchema R) (payload : Dict String V) (rank : ℕ)
      → AllSpecified schema payload
      → (items : Dict String (CheckpointItem V R)) × (build_each contains_rank replace_rank schema
            payload rank
          ≡ ok items)
        × ((key : String) → IsExpected schema rank key (get key payload) (get key items))
  unfolding build_each
  build_each_total schema [] rank h = ([], refl, λ key. refl)
  build_each_total schema ((k, v) ∷ payload) rank h =
      let (items, e, f) =
        build_each_total schema payload rank (λ key i. h key (ground (arith, i))) in
      let (spec, g) = h k (ground (arith, get-own k v payload)) in
      let built = item_of contains_rank replace_rank spec v rank in
      (
        (k, built) ∷ items,
        ground (arith, e, g),
        λ key. elim (Bool-cases (string_eq.equal k key)) [
          | inl same ↦
              rw (same, sym ((string_eq.equal_iff k key).0 same))
                (
                  built,
                  spec,
                  refl,
                  spec_of-IsSpec schema k spec (get k schema.items) refl g,
                  item_of-IsItemOf spec v rank,
                )
          | inr differ ↦ rw differ (f key)
        ],
      )

  -- The items, or the keys that an error names.
  abbrev pub Builds :
      CheckpointSchema R
      → Dict String V
      → ℕ
      → Result SchemaError (Dict String (CheckpointItem V R))
      → Type 0
  Builds schema payload rank (ok items) =
      ((key : String) → IsExpected schema rank key (get key payload) (get key items))
      × ((key : String) (spec : ItemSpec R)
          → get key schema.items ≡ some spec
          → spec.required ≡ true
          → has key payload ≡ true)
      × AllSpecified schema payload
  Builds schema payload rank (err (missing_required missing)) =
      (missing ≢ []) × All (IsMissing schema.items payload) missing
  Builds schema payload rank (err (no_item_spec extra)) =
      (extra ≢ []) × (schema.default ≡ none) × All (IsExtra schema.items payload) extra
  Builds schema payload rank (err assertion) = ⊥

  no_extra_lem :
      (schema : CheckpointSchema R) (payload : Dict String V) (rank : ℕ)
      → build_checked contains_rank replace_rank schema [] payload rank
        ≡ build_each contains_rank replace_rank schema payload rank
  unfolding build_checked
  no_extra_lem schema payload rank = refl

  strict_lem :
      (schema : CheckpointSchema R) (payload : Dict String V) (rank : ℕ) (key : String)
      (extra : List String)
      → schema.default ≡ none
      → build_checked contains_rank replace_rank schema (key ∷ extra) payload rank
        ≡ err (no_item_spec (key ∷ extra))
  unfolding build_checked
  strict_lem schema payload rank key extra n = ground (arith, n)

  default_lem :
      (schema : CheckpointSchema R) (payload : Dict String V) (rank : ℕ) (extra : List String)
      (default : ItemSpec R)
      → schema.default ≡ some default
      → build_checked contains_rank replace_rank schema extra payload rank
        ≡ build_each contains_rank replace_rank schema payload rank
  unfolding build_checked
  default_lem schema payload rank [] default d = refl
  default_lem schema payload rank (key ∷ extra) default d = ground (arith, d)

  build_checked-Builds :
      (schema : CheckpointSchema R) (payload : Dict String V) (rank : ℕ) (extra : List String)
      → extra_keys schema.items payload ≡ extra
      → missing_keys schema.items payload ≡ []
      → Builds schema payload rank
          (build_checked contains_rank replace_rank schema extra payload rank)
  build_checked-Builds schema payload rank [] e m =
      let all = specified schema payload (extra_keys-none schema.items payload e) in
      let (items, f, g) = build_each_total schema payload rank all in
      rw (no_extra_lem schema payload rank ∙ f) (g, missing_keys-none schema.items payload m, all)
  build_checked-Builds schema payload rank (key ∷ extra) e m = elim (Option-cases schema.default) [
    | inl n ↦ rw (strict_lem schema payload rank key extra n) (
      (λ p. cc),
      n,
      subst (All (IsExtra schema.items payload)) e
          (extra_keys-IsExtra schema.items payload payload (λ k i. i)),
    )
    | inr (default, d) ↦
        let all = specified_default schema payload default d in
        let (items, f, g) = build_each_total schema payload rank all in
        rw (default_lem schema payload rank (key ∷ extra) default d ∙ f)
          (g, missing_keys-none schema.items payload m, all)
  ]

  build_after-Builds :
      (schema : CheckpointSchema R) (payload : Dict String V) (rank : ℕ) (missing : List String)
      → IsDict schema.items
      → missing_keys schema.items payload ≡ missing
      → Builds schema payload rank
          (build_after contains_rank replace_rank missing schema payload rank)
  unfolding build_after
  build_after-Builds schema payload rank [] u m =
      build_checked-Builds schema payload rank (extra_keys schema.items payload) refl m
  build_after-Builds schema payload rank (key ∷ missing) u m = (
    (λ p. cc),
    subst (All (IsMissing schema.items payload)) m
        (missing_keys-IsMissing schema.items schema.items payload u (λ k s e. e)),
  )

  -- For a schema that lists no key twice, `build_items` ends in one of three ways. It returns for each key of
  -- the payload its value with the copying and the resharder of the spec of the key, or of the default, and
  -- with its layout, in whose path the rank takes the place of `{rank}`, and no other item, and then every
  -- required key is in the payload; or it names keys that are required and not in the payload; or, where
  -- there is no default, it names keys of the payload without a spec. The assertion never fails.
  pub build_items-Builds :
      (schema : CheckpointSchema R) (payload : Dict String V) (rank : ℕ)
      → IsDict schema.items
      → Builds schema payload rank (build_items contains_rank replace_rank schema payload rank)
  unfolding build_items
  build_items-Builds schema payload rank u =
      build_after-Builds schema payload rank (missing_keys schema.items payload) u refl
