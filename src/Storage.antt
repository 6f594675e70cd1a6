-- ===== src/Storage.antt =====
-- Directories and their files, as torch_checkpointing/storage/base_storage.py promises them. A directory is a
-- dict of files under their paths in it.
use torch_checkpointing.Prelude.{
  ℕ, Bool, Option, none, some, String, List, [], ◌∷◌, ◌==◌, string_eq, list_eq, if◌then◌else◌,
}
use torch_checkpointing.Prelude.Result.{Result, ok, err}
use torch_checkpointing.Prelude.Dict.{Dict, get, put, has}

abbrev pub Bytes : Type 0
Bytes = List ℕ

-- A path, its last component first.
abbrev pub FilePath : Type 0
FilePath = List String

abbrev pub Files : Type 0
Files = Dict String Bytes

abbrev pub Disk : Type 0
Disk = Dict FilePath Files

pub data StorageError : Type 0 where
  no_such_directory : StorageError
  occupied_destination : StorageError

unfoldable pub mkdir : FilePath → Disk → Disk
mkdir dir disk = elim (get dir disk) [ none ↦ put dir [] disk | some files ↦ disk ]

unfoldable pub write_file : FilePath → String → Bytes → Disk → Result StorageError Disk
write_file dir file content disk = elim (get dir disk) [
  | none ↦ err no_such_directory
  | some files ↦ ok (put dir (put file content files) disk)
]

unfoldable pub exists : FilePath → Disk → Bool
exists dir disk = has dir disk

-- What a rename leaves at its source.
unfoldable pub remove_dir : FilePath → Disk → Disk
remove_dir dir [] = []
remove_dir dir ((d, files) ∷ disk) =
    let rest = remove_dir dir disk in if d == dir then rest else (d, files) ∷ rest

unfoldable pub move_files :
    FilePath → FilePath → Files → Option Files → Disk → Result StorageError Disk
unfolding remove_dir
move_files src dst files none disk = ok (put dst files (remove_dir src disk))
move_files src dst files (some []) disk = ok (put dst files (remove_dir src disk))
move_files src dst files (some (f ∷ fs)) disk = err occupied_destination

-- `rename` of a directory: an occupied destination raises, an absent or an empty one is replaced.
unfoldable pub rename : FilePath → FilePath → Disk → Result StorageError Disk
unfolding move_files
rename src dst disk = elim (get src disk) [
  | none ↦ err no_such_directory
  | some files ↦ move_files src dst files (get dst disk) disk
]
