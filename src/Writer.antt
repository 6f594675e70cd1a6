-- ===== src/Writer.antt =====
-- torch_checkpointing/checkpoint_writer.py: what one rank writes, and where.
pub mod Protocol
pub mod Valid
mod Tests
use Prim.Native.String.{◌++◌ as ◌<>◌}
use torch_checkpointing.Prelude.{
  ℕ, Bool, true, false, not, ◌&&◌, Option, none, some, String, List, [], ◌∷◌, ◌==◌, ltb, string_eq,
  nat_eq, if◌then◌else◌,
}
use torch_checkpointing.Prelude.Result.{Result, ok, err}
use torch_checkpointing.Prelude.Dict.{Dict, get}
use torch_checkpointing.Data.{Members}
use torch_checkpointing.Layout.{
  LayoutInfo, SerializationFormat, torch, json, raw, safetensors, PyClass,
  default_torch_layout_info,
}
use torch_checkpointing.Barriers.{BarrierConfig}
use torch_checkpointing.Storage.{Bytes, FilePath, Disk, StorageError, mkdir, exists, rename}

pub record CheckpointWriterConfig : Type 0 where
  pub checkpoint_write_barrier_timeout_sec : ℕ
  pub barrier_config : Option BarrierConfig
  pub file_write_max_threads : ℕ
  pub temp_dir_prefix : String
  pub write_to_temp_dir : Bool

pub data ConfigError : Type 0 where
  no_threads : ConfigError
  no_prefix : ConfigError

abbrev pub has_barrier : CheckpointWriterConfig → Bool
has_barrier c = elim c.barrier_config [ none ↦ false | some b ↦ true ]

-- `CheckpointWriterConfig.__post_init__`: without a barrier nothing is written to a temporary directory.
unfoldable pub validated_config : CheckpointWriterConfig → Result ConfigError CheckpointWriterConfig
validated_config c =
    if ltb c.file_write_max_threads 1
    then err no_threads
    else if c.write_to_temp_dir && has_barrier c && c.temp_dir_prefix == ""
    then err no_prefix
    else ok (record c { write_to_temp_dir = c.write_to_temp_dir && has_barrier c })

-- `_temp_dir_path`; the name of a path stands first.
unfoldable pub temp_dir_path : FilePath → String → FilePath
temp_dir_path [] temp_dir_prefix = temp_dir_prefix ∷ []
temp_dir_path (name ∷ parent) temp_dir_prefix = (temp_dir_prefix <> name) ∷ parent

-- The directory in which `write` puts the files.
unfoldable pub target_dir : CheckpointWriterConfig → FilePath → FilePath
unfolding temp_dir_path
target_dir c path = if c.write_to_temp_dir then temp_dir_path path c.temp_dir_prefix else path

-- A value of the state dict: bytes, or any other object.
pub data Item : Type 0 where
  bytes : Bytes → Item
  object : ℕ → Item

pub data WriteError : Type 0 where
  not_bytes : WriteError
  not_serializable : WriteError

-- What torch, json and safetensors make of a value; the last with its flattening.
pub record Serializers : Type 0 where
  pub torch_save : Item → Result WriteError Bytes
  pub json_dumps : Item → Result WriteError Bytes
  pub safetensors_save : Option Members → Item → Result WriteError Bytes

unfoldable pub raw_bytes : Item → Result WriteError Bytes
raw_bytes (bytes b) = ok b
raw_bytes (object k) = err not_bytes

-- The bytes that `_write_key` writes.
unfoldable pub serialized : Serializers → SerializationFormat → Item → Result WriteError Bytes
unfolding raw_bytes
serialized s torch v = s.torch_save v
serialized s (json cls) v = s.json_dumps v
serialized s raw v = raw_bytes v
serialized s (safetensors metadata) v = s.safetensors_save metadata v

-- A file to write, with the bytes that it shall hold or the error that making them raises.
pub record SaveItem : Type 0 where
  pub file : String
  pub content : Result WriteError Bytes

-- `CheckpointWriteInfo`, with the rank that names files.
pub record WriteInfo : Type 0 where
  pub global_rank : ℕ
  pub state_dict : Dict String Item
  pub layout_info_mappings : Dict String (Option LayoutInfo)
  pub serialized_distributed_metadata : Option Bytes

module _ (str_of : ℕ → String) (s : Serializers) where
  abbrev pub layout_or_default : ℕ → String → Option LayoutInfo → LayoutInfo
  layout_or_default rank key none = default_torch_layout_info str_of key rank
  layout_or_default rank key (some l) = l

  unfoldable pub save_item : LayoutInfo → Item → SaveItem
  unfolding serialized
  save_item l v = record { file = l.file_path; content = serialized s l.serialization_format v }

  -- `save_items`: the keys of the layouts that the state dict has.
  unfoldable pub items_to_save :
      ℕ → Dict String Item → Dict String (Option LayoutInfo) → List SaveItem
  unfolding save_item
  items_to_save rank state_dict [] = []
  items_to_save rank state_dict ((key, l) ∷ layouts) =
      let rest = items_to_save rank state_dict layouts in
      elim (get key state_dict) [
        | none ↦ rest
        | some v ↦ save_item (layout_or_default rank key l) v ∷ rest
      ]

  abbrev pub items_of : WriteInfo → List SaveItem
  items_of info = items_to_save info.global_rank info.state_dict info.layout_info_mappings

-- `METADATA_FILE_NAME` of torch_checkpointing/metadata_serialization.py
abbrev pub metadata_file_name : String
metadata_file_name = "metadata.pkl"

-- What `_write_metadata` writes, which the rank 0 of the role calls.
unfoldable pub metadata_items : ℕ → Option Bytes → List SaveItem
metadata_items role_rank none = []
metadata_items role_rank (some []) = []
metadata_items role_rank (some (b ∷ bs)) =
    if role_rank == 0 then record { file = metadata_file_name; content = ok (b ∷ bs) } ∷ [] else []

-- `_prepare_save_dirs`, which is called when there is something to save.
unfoldable pub prepare_save_dirs : List SaveItem → FilePath → Disk → Disk
unfolding mkdir
prepare_save_dirs [] dir disk = disk
prepare_save_dirs (item ∷ items) dir disk = mkdir dir disk

-- The rename at the end of `write`.
unfoldable pub commit : CheckpointWriterConfig → ℕ → FilePath → Disk → Result StorageError Disk
commit c role_rank path disk =
    if c.write_to_temp_dir && exists (target_dir c path) disk && role_rank == 0
    then rename (target_dir c path) path disk
    else ok disk
