-- ===== src/Layout/Tests.antt =====
-- A JSON file whose class is named.
use torch_checkpointing.Prelude.{◌≡◌, refl, some, String}
use torch_checkpointing.Prelude.Result.{Result, ok}
use torch_checkpointing.Data.{FormatError}
use torch_checkpointing.Layout.{
  PyClass, LayoutInfo, json, Importable, layout_to_dict, layout_from_dict,
  layout_from_dict-layout_to_dict,
}

abbrev config : LayoutInfo
config = record {
  file_path = "config_0.json";
  serialization_format = json (some (record { module_name = "builtins"; class_name = "dict" }));
}

rsplit : String → Result FormatError (String × String)
rsplit path = ok ("builtins", "dict")

import_class : String → String → Result FormatError PyClass
import_class module_name class_name =
    ok (record { module_name = module_name; class_name = class_name })

config-Importable : Importable rsplit import_class config.serialization_format
unfolding rsplit import_class
config-Importable = (refl, refl)

layout_from_dict-layout_to_dict_example :
    layout_from_dict rsplit import_class (layout_to_dict config) ≡ ok config
layout_from_dict-layout_to_dict_example =
    layout_from_dict-layout_to_dict rsplit import_class config config-Importable
