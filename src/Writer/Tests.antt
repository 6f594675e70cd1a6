-- ===== src/Writer/Tests.antt =====
-- Two ranks that write a file each; the first writes the metadata too.
use mathlib.Core.Path.{subst}
use torch_checkpointing.Prelude.{
  ℕ, zero, suc, ◌<◌, ◌≡◌, sym, ap, ◌∙◌, ◌⊎◌, if◌then◌else◌, ◌==◌, refl, true, none, some, String,
  [], ◌∷◌, arith, string_eq, list_eq, Among,
}
use torch_checkpointing.Prelude.Result.{ok, err}
use torch_checkpointing.Prelude.Dict.{get}
use torch_checkpointing.Layout.{raw}
use torch_checkpointing.Barriers.{default_store}
use torch_checkpointing.Storage
use torch_checkpointing.Storage.{FilePath, Disk}
use torch_checkpointing.Writer
use torch_checkpointing.Writer.{
  CheckpointWriterConfig, WriteInfo, bytes, not_serializable, validated_config, SaveItem,
  metadata_file_name,
}
use torch_checkpointing.Writer.Protocol.{
  Job, Phase, Arrived, World, planned, done, WriteRun, here, next, start_keys, write_part,
  write_key, end_keys, write_metadata, arrive, pass, finish,
}
use torch_checkpointing.Writer.Protocol.Atomic.{WriteRun-atomic}
use torch_checkpointing.Writer.Protocol.Atomic.Invariant.{Whole}
use torch_checkpointing.Writer.Protocol.Atomic.Saved.{IsDistinct}

abbrev config : CheckpointWriterConfig
config = record {
  checkpoint_write_barrier_timeout_sec = 600;
  barrier_config = some (default_store "torch_checkpointing_barrier" "0.0");
  file_write_max_threads = 1;
  temp_dir_prefix = "tmp_";
  write_to_temp_dir = true;
}

abbrev info_of : String → String → ℕ → WriteInfo
info_of key file content = record {
  global_rank = 0;
  state_dict = (key, bytes (content ∷ [])) ∷ [];
  layout_info_mappings =
      (key, some (record { file_path = file; serialization_format = raw })) ∷ ("absent", none) ∷ [];
  serialized_distributed_metadata = some (9 ∷ []);
}

abbrev info : ℕ → WriteInfo
info zero = info_of "model" "model.bin" 1
info (suc zero) = info_of "data" "data.bin" 2
info _ = record {
  global_rank = 2;
  state_dict = [];
  layout_info_mappings = [];
  serialized_distributed_metadata = none;
}

abbrev job : Job
job = record {
  config = config;
  path = "step_5" ∷ "runs" ∷ [];
  ranks = 2;
  info = info;
  str_of = λ n. "";
  serializers = record {
    torch_save = λ v. err not_serializable;
    json_dumps = λ v. err not_serializable;
    safetensors_save = λ m v. err not_serializable;
  };
}

abbrev model : SaveItem
model = record { file = "model.bin"; content = ok (1 ∷ []) }

abbrev dataset : SaveItem
dataset = record { file = "data.bin"; content = ok (2 ∷ []) }

abbrev metadata : SaveItem
metadata = record { file = metadata_file_name; content = ok (9 ∷ []) }

names : (planned job 0 ≡ model ∷ metadata ∷ []) × (planned job 1 ≡ dataset ∷ [])
unfolding Writer.items_to_save Writer.metadata_items
names = (refl, refl)

everyone :
    (phase : ℕ → Phase)
    → Arrived (phase 0)
    → Arrived (phase 1)
    → (j : ℕ) → j < 2
    → Arrived (phase j)
everyone phase a b zero h = a
everyone phase a b (suc zero) h = b
everyone phase a b (suc (suc j)) h = absurd (omega arith)

-- A run in which the first rank's file is there in part for a while.
run : (w : World) × WriteRun job [] w
unfolding Writer.items_to_save Writer.metadata_items Writer.target_dir Writer.prepare_save_dirs
    Writer.commit Storage.write_file Storage.rename Storage.mkdir Storage.exists
run = (
  _,
  (next
      (next
        (next
          (next
            (next
              (next
                (next
                  (next
                    (next
                      (next
                        (next
                          (next
                            (next
                              (next (next here (start_keys 0 (omega arith) refl))
                                (start_keys 1 (omega arith) refl))
                              (write_part 0 model (7 ∷ []) _ (omega arith) (0, refl) refl))
                            (write_key 1 0 _ dataset _ (omega arith) refl refl refl))
                          (write_key 0 0 _ model _ (omega arith) refl refl refl))
                        (end_keys 1 (omega arith) refl))
                      (end_keys 0 (omega arith) refl))
                    (write_metadata 0 _ (omega arith) refl refl))
                  (write_metadata 1 _ (omega arith) refl refl))
                (arrive 0 (omega arith) refl))
              (arrive 1 (omega arith) refl))
            (pass 0 (omega arith) refl (λ h. everyone _ tt tt)))
          (finish 0 _ (omega arith) refl refl))
        (pass 1 (omega arith) refl (λ h. everyone _ tt tt)))
      (finish 1 _ (omega arith) refl refl)),
)

-- The ranks share no file: its name tells who writes it, and what.
rank_of : String → ℕ
rank_of file = if file == "data.bin" then 1 else 0

item_named : String → SaveItem
item_named file =
    if file == "data.bin" then dataset else if file == "model.bin" then model else metadata

abbrev Named : ℕ → SaveItem → Type 0
Named i a = (rank_of a.file ≡ i) × (item_named a.file ≡ a)

planned-Named : (i : ℕ) (a : SaveItem) → Among a (planned job i) → Named i a
unfolding rank_of item_named Writer.items_to_save Writer.metadata_items
planned-Named zero a (zero, h) =
    let same : model ≡ a = ground arith in subst (Named 0) same (refl, refl)
planned-Named zero a (suc zero, h) =
    let same : metadata ≡ a = ground arith in subst (Named 0) same (refl, refl)
planned-Named zero a (suc (suc k), h) = ground arith
planned-Named (suc zero) a (zero, h) =
    let same : dataset ≡ a = ground arith in subst (Named 1) same (refl, refl)
planned-Named (suc zero) a (suc k, h) = ground arith
planned-Named (suc (suc i)) a (k, h) = ground arith

distinct : IsDistinct job
distinct i j a b p q e =
    let (r, s) = planned-Named i a p in
    let (u, v) = planned-Named j b q in (sym r ∙ ap rank_of e ∙ u, sym s ∙ ap item_named e ∙ v)

valid : validated_config config ≡ ok job.config
unfolding validated_config
valid = refl

WriteRun-atomic_example :
    ((get ("step_5" ∷ "runs" ∷ []) run.0.disk ≡ none) ⊎ Whole job run.0.disk)
    × (run.0.phase 0 ≡ done → Whole job run.0.disk)
WriteRun-atomic_example = WriteRun-atomic job config [] valid refl distinct run.1
