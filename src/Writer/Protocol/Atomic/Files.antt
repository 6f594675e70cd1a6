-- ===== src/Writer/Protocol/Atomic/Files.antt =====
-- What the operations of the storage do to files that are there.
use torch_checkpointing.Prelude.{
  ◌≡◌, ◌≢◌, refl, inl, inr, Option, none, some, String, List, [], ◌∷◌, arith, string_eq, list_eq,
  Option-cases, list_beq_iff, false,
}
use torch_checkpointing.Prelude.Result.{ok}
use torch_checkpointing.Prelude.Dict.{get, put, get-put}
use torch_checkpointing.Storage.{
  Bytes, FilePath, Files, Disk, mkdir, write_file, exists, rename, move_files, remove_dir,
}
use torch_checkpointing.Writer.{SaveItem, prepare_save_dirs}

-- The file is in the directory with its content.
abbrev pub Stored : FilePath → Disk → SaveItem → Type 0
Stored d disk a =
    (content : Bytes) × (fs : Files) × (a.content ≡ ok content)
    × (get d disk ≡ some fs)
    × (get a.file fs ≡ some content)

module _ (d : FilePath) (disk disk' : Disk) (file : String) (content : Bytes)
    (done : write_file d file content disk ≡ ok disk') where
  write_file-files :
      (fs : Files) × (get d disk ≡ some fs) × (disk' ≡ put d (put file content fs) disk)
  unfolding write_file
  write_file-files = elim (Option-cases (get d disk)) [
    | inl n ↦ absurd (ground arith)
    | inr (fs, there) ↦ (fs, there, ground arith)
  ]

  pub write_file-others : (e : FilePath) → d ≢ e → get e disk' ≡ get e disk
  write_file-others e differ =
      let (fs, h, p) = write_file-files in
      rw p (ground (arith, get-put d e (put file content fs) disk, list_beq_iff d e))

  pub write_file-Stored_own :
      (a : SaveItem) → a.file ≡ file → a.content ≡ ok content → Stored d disk' a
  write_file-Stored_own a same c =
      let (fs, h, p) = write_file-files in
      (
        content,
        put file content fs,
        c,
        ground (arith, get-put d d (put file content fs) disk, list_beq_iff d d),
        rw same (ground (arith, get-put file file content fs, string_eq.equal_iff file file)),
      )

  pub write_file-Stored : (a : SaveItem) → file ≢ a.file → Stored d disk a → Stored d disk' a
  write_file-Stored a differ (own, gs, c, g, f) =
      let (fs, h, p) = write_file-files in
      (
        own,
        put file content fs,
        c,
        ground (arith, get-put d d (put file content fs) disk, list_beq_iff d d),
        ground (arith, get-put file a.file content fs, string_eq.equal_iff file a.file),
      )

mkdir-others : (d e : FilePath) (disk : Disk) → d ≢ e → get e (mkdir d disk) ≡ get e disk
unfolding mkdir
mkdir-others d e disk differ = ground (arith, get-put d e [] disk, list_beq_iff d e)

mkdir-Stored :
    (d : FilePath) (disk : Disk) (a : SaveItem) → Stored d disk a → Stored d (mkdir d disk) a
unfolding mkdir
mkdir-Stored d disk a (content, fs, c, g, f) = (content, fs, c, ground arith, f)

pub prepare_save_dirs-others :
    (items : List SaveItem) (d e : FilePath) (disk : Disk)
    → d ≢ e
    → get e (prepare_save_dirs items d disk) ≡ get e disk
unfolding prepare_save_dirs
prepare_save_dirs-others [] d e disk differ = refl
prepare_save_dirs-others (item ∷ items) d e disk differ = mkdir-others d e disk differ

pub prepare_save_dirs-Stored :
    (items : List SaveItem) (d : FilePath) (disk : Disk) (a : SaveItem)
    → Stored d disk a
    → Stored d (prepare_save_dirs items d disk) a
unfolding prepare_save_dirs
prepare_save_dirs-Stored [] d disk a s = s
prepare_save_dirs-Stored (item ∷ items) d disk a s = mkdir-Stored d disk a s

move_files-get :
    (src dst : FilePath) (fs : Files) (there : Option Files) (disk disk' : Disk)
    → move_files src dst fs there disk ≡ ok disk'
    → get dst disk' ≡ some fs
unfolding move_files
move_files-get src dst fs none disk disk' done =
    ground (arith, get-put dst dst fs (remove_dir src disk), list_beq_iff dst dst)
move_files-get src dst fs (some []) disk disk' done =
    ground (arith, get-put dst dst fs (remove_dir src disk), list_beq_iff dst dst)
move_files-get src dst fs (some (x ∷ xs)) disk disk' done = absurd (ground arith)

-- A rename that does not raise puts every file of its source at its destination.
pub rename-Stored :
    (src dst : FilePath) (disk disk' : Disk)
    → rename src dst disk ≡ ok disk'
    → (a : SaveItem) → Stored src disk a
    → Stored dst disk' a
unfolding rename
rename-Stored src dst disk disk' done a (content, fs, c, g, f) = (
  content,
  fs,
  c,
  move_files-get src dst fs (get dst disk) disk disk' (rw (g, rename) at done),
  f,
)

pub Stored-exists :
    (d : FilePath) (disk : Disk) (a : SaveItem) → Stored d disk a → exists d disk ≡ false → ⊥
unfolding exists
Stored-exists d disk a (content, fs, c, g, f) h = ground arith
