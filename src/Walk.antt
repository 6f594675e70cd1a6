-- ===== src/Walk.antt =====
-- torch_checkpointing/walk_utils.py: the walk that merges a loaded value into a target.
-- An object has a type, which `subtype` compares as `isinstance` does, and a category: `Mapping`,
-- `Sequence` (mutable or not), `Set`, a string, None or anything else. The walk is a function of the two
-- values: what it does in place to containers of the target is part of its result.
pub mod Below
pub mod Merge
pub mod Whole
mod Tests
pub mod Steps
use torch_checkpointing.Prelude.{
  ℕ, suc, Bool, true, false, ◌&&◌, not, Option, none, some, String, List, [], ◌∷◌, ◌++◌, map, eqb,
  ◌==◌, if◌then◌else◌,
}
use torch_checkpointing.Prelude.Result.{Result, ok, err, ◌>>=◌}
use torch_checkpointing.Types.{PathKey, name, place, NestedPath, CheckpointPath, path_key_eq}

-- The data of a tensor: its identity, whether it is a DTensor, and its (local) contents.
pub record TensorData : Type 0 where
  pub identity : ℕ
  pub is_dtensor : Bool
  pub contents : List ℕ

-- An object that is no container. `is_fake` tells whether it has an attribute `_tensor` or is a FakeTensor.
pub record Leaf : Type 0 where
  pub py_type : ℕ
  pub is_fake : Bool
  pub tensor : Option TensorData
  pub payload : ℕ

mutual
  pub data Value : Type 0 where
    null : Value
    leaf : Leaf → Value
    text : ℕ → String → Value
    set_of : ℕ → Items → Value
    mapping : ℕ → Entries → Value
    sequence : ℕ → Bool → Items → Value

  pub data Entries : Type 0 where
    no_entries : Entries
    entry : PathKey → Value → Entries → Entries

  pub data Items : Type 0 where
    no_items : Items
    item : Value → Items → Items

pub data WalkError : Type 0 where
  incompatible : NestedPath → WalkError
  mixed_tensors : WalkError
  attribute_error : WalkError
  from_callback : ℕ → WalkError

-- The types that the source names.
abbrev pub none_type : ℕ
none_type = 0

abbrev pub tensor_type : ℕ
tensor_type = 1

abbrev pub list_type : ℕ
list_type = 2

abbrev pub tuple_type : ℕ
tuple_type = 3

abbrev pub dict_type : ℕ
dict_type = 4

unfoldable pub type_of : Value → ℕ
type_of null = none_type
type_of (leaf l) = l.py_type
type_of (text t s) = t
type_of (set_of t xs) = t
type_of (mapping t es) = t
type_of (sequence t m xs) = t

-- `src_type`, with FakeTensors taken for tensors.
unfoldable pub source_type : Value → ℕ
unfolding type_of
source_type (leaf l) = if l.is_fake then tensor_type else l.py_type
source_type v = type_of v

-- `src[key]`, if the key is there.
unfoldable pub entry_of : PathKey → Entries → Option Value
entry_of k no_entries = none
entry_of k (entry j v es) = if j == k then some v else entry_of k es

unfoldable pub is_empty : Items → Bool
is_empty no_items = true
is_empty (item v vs) = false

-- What a walk returns: the value, and the paths that were missing.
abbrev pub Walked : Type 0 → Type 0
Walked V = Result WalkError (V × List NestedPath)

-- Both are mappings, both are sequences that are no strings, or both are sets.
unfoldable pub same_category : Value → Value → Bool
same_category (mapping _ _) (mapping _ _) = true
same_category (sequence _ _ _) (sequence _ _ _) = true
same_category (set_of _ _) (set_of _ _) = true
same_category _ _ = false

abbrev pub checkpoint_paths : String → List NestedPath → List CheckpointPath
checkpoint_paths item_key [] = []
checkpoint_paths item_key (path ∷ paths) =
    record { item_key = item_key; nested_path = path } ∷ checkpoint_paths item_key paths

unfoldable pub same_flag : Bool → Bool → Bool
same_flag true b = b
same_flag false b = not b

-- `subtype t s` is `issubclass(t, s)`.
module _ (subtype : ℕ → ℕ → Bool) where
  -- Whether `_check_type_compatibility` raises no error.
  unfoldable pub is_compatible : Value → Value → Bool
  unfolding same_category source_type
  is_compatible src null = true
  is_compatible src tgt =
      if same_category src tgt then true else subtype (type_of tgt) (source_type src)

  unfoldable pub check_type_compatibility : NestedPath → Value → Value → Result WalkError (Unit {0})
  unfolding is_compatible
  check_type_compatibility path src tgt =
      if is_compatible src tgt then ok tt else err (incompatible path)

-- `copy_` is that of torch, on the target's contents first.
module _ (copy_ : List ℕ → List ℕ → Result WalkError (List ℕ)) where
  unfoldable pub copy_tensor : Leaf → TensorData → TensorData → Result WalkError Value
  copy_tensor tgt src_data tgt_data =
      if same_flag src_data.is_dtensor tgt_data.is_dtensor
      then (do
        copied ← copy_ tgt_data.contents src_data.contents
        ok (leaf (record tgt { tensor = some (record tgt_data { contents = copied }) })))
      else err mixed_tensors

  -- `_default_leaf_fn`
  unfoldable pub default_leaf_fn : Value → Value → Result WalkError Value
  unfolding copy_tensor same_flag
  default_leaf_fn (leaf src) (leaf tgt) = elim src.tensor [
    | none ↦ ok (leaf src)
    | some src_data ↦ elim tgt.tensor [
      | none ↦ ok (leaf src)
      | some tgt_data ↦ copy_tensor tgt src_data tgt_data
    ]
  ]
  default_leaf_fn src tgt = ok src

-- `construct` calls a type on a list, where an error is `none`.
module _ (construct : ℕ → Items → Option Value) where
  -- `_convert_to_original_type`
  unfoldable pub convert_to_original_type : Items → ℕ → Value
  convert_to_original_type items original_type =
      if eqb original_type list_type
      then sequence list_type true items
      else if eqb original_type tuple_type
      then sequence tuple_type false items
      else elim (construct original_type items) [
        | none ↦ sequence list_type true items
        | some v ↦ v
      ]

module _ (subtype : ℕ → ℕ → Bool) (copy_ : List ℕ → List ℕ → Result WalkError (List ℕ))
    (construct : ℕ → Items → Option Value)
    (leaf_fn : Option (NestedPath → Value → Value → Result WalkError Value)) where
  -- `_call_leaf`, as the walk returns it.
  unfoldable pub call_leaf : NestedPath → Value → Value → Walked Value
  call_leaf path src tgt = do
    v ← elim leaf_fn [ none ↦ default_leaf_fn copy_ src tgt | some fn ↦ fn path src tgt ]
    ok (v, [])

  -- `_walk` where the target is None: it recurs on the source.
  unfoldable mutual
    pub walk_source : NestedPath → Value → Walked Value
    walk_source path null = call_leaf path null null
    walk_source path (leaf l) = call_leaf path (leaf l) null
    walk_source path (text t s) = call_leaf path (text t s) null
    walk_source path (set_of t xs) = call_leaf path (set_of t xs) null
    walk_source path (mapping t es) = do
      walked ← walk_source_entries path es
      ok (mapping dict_type walked.0, walked.1)
    walk_source path (sequence t m items) = do
      walked ← walk_source_items path 0 items
      ok (convert_to_original_type construct walked.0 t, walked.1)

    pub walk_source_entries : NestedPath → Entries → Walked Entries
    walk_source_entries path no_entries = ok (no_entries, [])
    walk_source_entries path (entry k v es) = do
      one ← walk_source (path ++ k ∷ []) v
      rest ← walk_source_entries path es
      ok (entry k one.0 rest.0, one.1 ++ rest.1)

    pub walk_source_items : NestedPath → ℕ → Items → Walked Items
    walk_source_items path i no_items = ok (no_items, [])
    walk_source_items path i (item v vs) = do
      one ← walk_source (path ++ place i ∷ []) v
      rest ← walk_source_items path (suc i) vs
      ok (item one.0 rest.0, one.1 ++ rest.1)

  -- `_walk`: it recurs on the target. An attribute error is that of a target
  -- that is an instance of the source's type without being of its category.
  unfoldable mutual
    pub walk_into : NestedPath → Value → Value → Walked Value
    walk_into path src null = walk_source path src
    walk_into path (mapping s source) (mapping t es) = do
      _ ← check_type_compatibility subtype path (mapping s source) (mapping t es)
      walked ← walk_entries path source es
      ok (mapping t walked.0, walked.1)
    walk_into path (sequence s m source) (sequence t n no_items) = do
      _ ← check_type_compatibility subtype path (sequence s m source) (sequence t n no_items)
      ok (convert_to_original_type construct source s, [])
    walk_into path (sequence s m source) (sequence t true (item v vs)) = do
      _ ← check_type_compatibility subtype path (sequence s m source) (sequence t true (item v vs))
      walked ← walk_items path 0 source (item v vs)
      ok (sequence t true walked.0, walked.1)
    walk_into path (sequence s m source) (sequence t false (item v vs)) = do
      _ ← check_type_compatibility subtype path (sequence s m source) (sequence t false (item v vs))
      walked ← walk_items path 0 source (item v vs)
      ok (convert_to_original_type construct walked.0 s, walked.1)
    walk_into path (mapping s source) tgt = do
      _ ← check_type_compatibility subtype path (mapping s source) tgt
      err attribute_error
    walk_into path (sequence s m source) tgt = do
      _ ← check_type_compatibility subtype path (sequence s m source) tgt
      err attribute_error
    walk_into path src tgt = do
      _ ← check_type_compatibility subtype path src tgt
      call_leaf path src tgt

    walk_entries : NestedPath → Entries → Entries → Walked Entries
    walk_entries path source no_entries = ok (no_entries, [])
    walk_entries path source (entry k t es) =
        let walked : Walked Value = elim (entry_of k source) [
          | none ↦ ok (t, (path ++ k ∷ []) ∷ [])
          | some s ↦ walk_into (path ++ k ∷ []) s t
        ] in
        do
          one ← walked
          rest ← walk_entries path source es
          ok (entry k one.0 rest.0, one.1 ++ rest.1)

    walk_items : NestedPath → ℕ → Items → Items → Walked Items
    walk_items path i source no_items = ok (no_items, [])
    walk_items path i no_items (item t ts) = do
      rest ← walk_items path (suc i) no_items ts
      ok (item t rest.0, (path ++ place i ∷ []) ∷ rest.1)
    walk_items path i (item s source) (item t ts) = do
      one ← walk_into (path ++ place i ∷ []) s t
      rest ← walk_items path (suc i) source ts
      ok (item one.0 rest.0, one.1 ++ rest.1)

  unfoldable pub walk_checkpoint_structure :
      String → Value → Value → Result WalkError (Value × List CheckpointPath)
  unfolding walk_into
  walk_checkpoint_structure item_key source target = do
    walked ← walk_into [] source target
    ok (walked.0, checkpoint_paths item_key walked.1)
