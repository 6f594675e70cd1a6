-- ===== src/Layout.antt =====
-- torch_checkpointing/checkpoint_layout.py: serialization formats and layouts, and their dictionaries.
-- `str.rsplit` and the import of a class by its name are parameters.
mod Tests
use Prim.Native.String.{◌++◌ as ◌<>◌}
use torch_checkpointing.Prelude.{
  ℕ, ◌≡◌, refl, Bool, Option, none, some, String, List, [], ◌∷◌, ◌==◌, string_eq, if◌then◌else◌,
  arith,
}
use torch_checkpointing.Prelude.Result.{Result, ok, err, ◌>>=◌}
use torch_checkpointing.Data.{
  Data, null, text, dict, Members, no_members, member, FormatError, unknown_type, wrong_type, field,
  get_field, as_text,
}

-- A Python class, by its module and its name.
pub record PyClass : Type 0 where
  pub module_name : String
  pub class_name : String

-- The subclasses of `SerializationFormat`; the metadata of safetensors is a dict.
pub data SerializationFormat : Type 0 where
  torch : SerializationFormat
  json : Option PyClass → SerializationFormat
  raw : SerializationFormat
  safetensors : Option Members → SerializationFormat

pub record LayoutInfo : Type 0 where
  pub file_path : String
  pub serialization_format : SerializationFormat

unfoldable pub class_path : Option PyClass → Data
class_path none = null
class_path (some c) = text (c.module_name <> "." <> c.class_name)

unfoldable pub format_to_dict : SerializationFormat → Data
unfolding class_path
format_to_dict torch = dict (member "type" (text "TorchSerialization") no_members)
format_to_dict (json cls) =
    dict (member "type" (text "JsonSerialization") (member "cls" (class_path cls) no_members))
format_to_dict raw = dict (member "type" (text "RawSerialization") no_members)
format_to_dict (safetensors none) =
    dict (member "type" (text "SafetensorsSerialization") no_members)
format_to_dict (safetensors (some metadata)) =
    dict (
      member "type" (text "SafetensorsSerialization")
        (member "metadata" (dict metadata) no_members))

unfoldable pub layout_to_dict : LayoutInfo → Data
unfolding format_to_dict
layout_to_dict l = dict (
    member "file_path" (text l.file_path)
      (member "serialization_format" (format_to_dict l.serialization_format) no_members))

-- `default_torch_layout_info`; `str_of` writes a rank.
unfoldable pub default_torch_layout_info : (ℕ → String) → String → ℕ → LayoutInfo
default_torch_layout_info str_of key rank = record {
  file_path = key <> "_" <> str_of rank <> ".pt";
  serialization_format = torch;
}

-- `dict(raw)`
unfoldable pub as_dict : Data → Result FormatError Members
as_dict (dict ms) = ok ms
as_dict d = err wrong_type

unfoldable pub safetensors_from_dict : Data → Result FormatError SerializationFormat
unfolding as_dict
safetensors_from_dict d = elim (get_field "metadata" d) [
  | none ↦ ok (safetensors none)
  | some null ↦ ok (safetensors none)
  | some raw' ↦ (do ms ← as_dict raw'; ok (safetensors (some ms)))
]

module _ (rsplit : String → Result FormatError (String × String))
    (import_class : String → String → Result FormatError PyClass) where
  unfoldable pub json_class : Data → Result FormatError SerializationFormat
  json_class null = ok (json none)
  json_class (text cls_path) = do
    parts ← rsplit cls_path
    cls ← import_class parts.0 parts.1
    ok (json (some cls))
  json_class d = err wrong_type

  unfoldable pub json_from_dict : Data → Result FormatError SerializationFormat
  unfolding json_class
  json_from_dict d = elim (get_field "cls" d) [ none ↦ ok (json none) | some cls ↦ json_class cls ]

  unfoldable pub format_of_type : String → Data → Result FormatError SerializationFormat
  unfolding json_from_dict safetensors_from_dict
  format_of_type name d =
      if name == "TorchSerialization"
      then ok torch
      else if name == "JsonSerialization"
      then json_from_dict d
      else if name == "RawSerialization"
      then ok raw
      else if name == "SafetensorsSerialization"
      then safetensors_from_dict d
      else err (unknown_type name)

  unfoldable pub serialization_format_from_dict : Data → Result FormatError SerializationFormat
  unfolding format_of_type
  serialization_format_from_dict d = elim (get_field "type" d) [
    | none ↦ err (unknown_type "None")
    | some type_name ↦ (do name ← as_text type_name; format_of_type name d)
  ]

  unfoldable pub layout_from_dict : Data → Result FormatError LayoutInfo
  unfolding serialization_format_from_dict
  layout_from_dict d = do
    path ← field "file_path" d
    file_path ← as_text path
    raw_format ← field "serialization_format" d
    format ← serialization_format_from_dict raw_format
    ok (record { file_path = file_path; serialization_format = format })

-- The class of a JSON format can be named and imported.
abbrev pub Importable :
    (String → Result FormatError (String × String))
    → (String → String → Result FormatError PyClass)
    → SerializationFormat
    → Type 0
Importable rsplit import_class (json (some c)) =
    (rsplit (c.module_name <> "." <> c.class_name) ≡ ok (c.module_name, c.class_name))
    × (import_class c.module_name c.class_name ≡ ok c)
Importable rsplit import_class f = Unit

module _ (rsplit : String → Result FormatError (String × String))
    (import_class : String → String → Result FormatError PyClass) where
  format-round-trip :
      (f : SerializationFormat)
      → Importable rsplit import_class f
      → serialization_format_from_dict rsplit import_class (format_to_dict f) ≡ ok f
  unfolding serialization_format_from_dict format_to_dict get_field as_text
  format-round-trip torch h = refl
  format-round-trip (json none) h = refl
  format-round-trip (json (some c)) h = rw (h.0, h.1) refl
  format-round-trip raw h = refl
  format-round-trip (safetensors none) h = refl
  format-round-trip (safetensors (some ms)) h = refl

  -- If the class of a JSON format can be found again by its dotted name, then a layout is read back from
  -- its dictionary unchanged, for each of the four formats and with their options.
  pub layout_from_dict-layout_to_dict :
      (l : LayoutInfo)
      → Importable rsplit import_class l.serialization_format
      → layout_from_dict rsplit import_class (layout_to_dict l) ≡ ok l
  unfolding layout_from_dict layout_to_dict field get_field as_text
  layout_from_dict-layout_to_dict l h = rw (format-round-trip l.serialization_format h) refl
