-- ===== src/Resharder/Fqn.antt =====
-- The names of nested paths in torch_checkpointing/resharding_utils.py. `str_of` is `str` on a number.
pub mod Converted
mod Tests
use Prim.Native.String.{◌++◌ as ◌<>◌}
use torch_checkpointing.Prelude.{
  ℕ, Bool, true, false, Option, none, some, String, List, [], ◌∷◌, ◌++◌, ◌==◌, eqb, string_eq,
  list_eq, nat_eq, if◌then◌else◌,
}
use torch_checkpointing.Prelude.Result.{Result, ok, err}
use torch_checkpointing.Prelude.Dict.{Dict, get, put, has}
use torch_checkpointing.Types.{PathKey, name, place, NestedPath, path_key_eq}

-- Two paths with one name.
pub data Collision : Type 0 where
  collision : NestedPath → NestedPath → Collision

module _ (str_of : ℕ → String) where
  unfoldable pub component : PathKey → String
  component (name s) = s
  component (place i) = str_of i

  -- `".".join(...)`
  unfoldable pub get_fqn_from_nested_path : NestedPath → String
  unfolding component
  get_fqn_from_nested_path [] = ""
  get_fqn_from_nested_path (k ∷ []) = component k
  get_fqn_from_nested_path (k ∷ j ∷ path) =
      component k <> "." <> get_fqn_from_nested_path (j ∷ path)

-- The loop, with the two dicts so far; the name of a path is a parameter.
module _ {ℓ} {V : Type ℓ} (fqn_of : NestedPath → String) where
  unfoldable pub convert_loop :
      Dict String V
      → Dict String NestedPath
      → Dict NestedPath V
      → Result Collision (Dict String V × Dict String NestedPath)
  convert_loop result fqn_to_path [] = ok (result, fqn_to_path)
  convert_loop result fqn_to_path ((path, value) ∷ rest) =
      let later =
        convert_loop (put (fqn_of path) value result) (put (fqn_of path) path fqn_to_path) rest in
      elim (get (fqn_of path) fqn_to_path) [
        | none ↦ later
        | some first ↦ err (collision first path)
      ]

unfoldable pub convert_nested_path_dict_to_fqn {ℓ} :
    {V : Type ℓ}
    → (ℕ → String)
    → Dict NestedPath V
    → Result Collision (Dict String V × Dict String NestedPath)
unfolding convert_loop
convert_nested_path_dict_to_fqn str_of path_dict =
    convert_loop (get_fqn_from_nested_path str_of) [] [] path_dict
