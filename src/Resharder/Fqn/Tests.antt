-- ===== src/Resharder/Fqn/Tests.antt =====
-- Two paths that have one name.
use torch_checkpointing.Prelude.{ℕ, ◌≡◌, refl, String, [], ◌∷◌, list_eq}
use torch_checkpointing.Prelude.Result.{err}
use torch_checkpointing.Prelude.Dict.{Dict, IsDict}
use torch_checkpointing.Types.{name, place, NestedPath, path_key_eq}
use torch_checkpointing.Resharder.Fqn.{
  collision, get_fqn_from_nested_path, convert_nested_path_dict_to_fqn,
}
use torch_checkpointing.Resharder.Fqn.Converted.{Converts, convert_nested_path_dict_to_fqn-Converts}

one : ℕ → String
one n = "1"

abbrev ambiguous : Dict NestedPath ℕ
ambiguous = (name "a" ∷ name "1" ∷ [], 5) ∷ (name "a" ∷ place 1 ∷ [], 6) ∷ []

clashes :
    convert_nested_path_dict_to_fqn one ambiguous
    ≡ err (collision (name "a" ∷ name "1" ∷ []) (name "a" ∷ place 1 ∷ []))
unfolding convert_nested_path_dict_to_fqn get_fqn_from_nested_path one
clashes = refl

ambiguous-IsDict : IsDict ambiguous
ambiguous-IsDict = (refl, (refl, tt))

convert_nested_path_dict_to_fqn-Converts_example :
    Converts
      (get_fqn_from_nested_path one)
      ambiguous
      (convert_nested_path_dict_to_fqn one ambiguous)
convert_nested_path_dict_to_fqn-Converts_example =
    convert_nested_path_dict_to_fqn-Converts one ambiguous ambiguous-IsDict
