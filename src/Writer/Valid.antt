-- ===== src/Writer/Valid.antt =====
-- What `CheckpointWriterConfig.__post_init__` of torch_checkpointing/checkpoint_writer.py gives: with a temporary
-- directory there is a barrier, and the directory is not the final one.
use Prim.Native.String.append
use text.Mathlib.TextLemmas.{append_cancel_right}
use torch_checkpointing.Prelude.{◌≡◌, ◌≢◌, true, false, String, [], ◌∷◌, ◌==◌, string_eq, arith}
use torch_checkpointing.Prelude.Result.{ok}
use torch_checkpointing.Storage.{FilePath}
use torch_checkpointing.Writer.{
  CheckpointWriterConfig, validated_config, has_barrier, temp_dir_path, target_dir,
}

pub validated_config-has_barrier :
    (c r : CheckpointWriterConfig)
    → validated_config c ≡ ok r
    → r.write_to_temp_dir ≡ true
    → (has_barrier r ≡ true) × ((r.temp_dir_prefix == "") ≡ false)
unfolding validated_config
validated_config-has_barrier c r valid temp = ground arith

temp_dir_path-ne :
    (path : FilePath) (prefix : String) → prefix ≢ "" → temp_dir_path path prefix ≢ path
unfolding temp_dir_path
temp_dir_path-ne [] prefix some' e = cc
temp_dir_path-ne (name ∷ parent) prefix some' e =
    some' (append_cancel_right prefix "" name (cc (append.nil name)))

pub target_dir-ne :
    (c r : CheckpointWriterConfig) (path : FilePath)
    → validated_config c ≡ ok r
    → r.write_to_temp_dir ≡ true
    → target_dir r path ≢ path
unfolding target_dir
target_dir-ne c r path valid temp =
    let (_, named) = validated_config-has_barrier c r valid temp in
    rw temp (
      temp_dir_path-ne path r.temp_dir_prefix
        (λ e. ground (arith, string_eq.equal_iff r.temp_dir_prefix "")))
