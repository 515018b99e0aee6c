-- ===== src/Scenarios/Disk.antt =====
-- A disk to run the tests of crates/serving/src/lib.rs with: an instance of the parameter
-- `FileSystem`. It holds files by their paths, which are compared by their components.
use ajar_gateway.Common.{ℕ, Option, none, some, List, [], ◌∷◌, if◌then◌else◌, Result, ok, err}
use ajar_gateway.Text.{text_eq}
use ajar_gateway.Store.Error.{IoErrorKind, not_found}
use ajar_gateway.Store.Model.{Bytes}
use ajar_gateway.Store.FilePath.{FilePath, components, from_later, parent, file_name}
use ajar_gateway.Store.Backend.{FileSystem}

abbrev pub Disk : Type 0
Disk = List (FilePath × Bytes)

unfoldable pub plain : FilePath → FilePath
unfolding components from_later
plain path = from_later (components path)

unfoldable pub file_at : FilePath → Disk → Option Bytes
unfolding text_eq
file_at path [] = none
file_at path ((p, bytes) ∷ disk) =
    let rest = file_at path disk in if text_eq path p then some bytes else rest

unfoldable pub put_file : FilePath → Bytes → Disk → Disk
unfolding text_eq
put_file path bytes [] = (path, bytes) ∷ []
put_file path bytes ((p, old) ∷ disk) =
    let rest = put_file path bytes disk in
    if text_eq path p then (path, bytes) ∷ disk else (p, old) ∷ rest

abbrev listed : Option FilePath → Option (List ℕ) → FilePath → Option (List ℕ)
listed (some directory) name path = if text_eq directory path then name else none
listed none name path = none

unfoldable pub names_in : FilePath → Disk → List (Result IoErrorKind (List ℕ))
unfolding text_eq parent file_name
names_in path [] = []
names_in path ((p, _) ∷ disk) = elim (listed (parent p) (file_name p) path) [
  | none ↦ names_in path disk
  | some name ↦ ok name ∷ names_in path disk
]

abbrev read_file_at : Option Bytes → Result IoErrorKind Bytes
read_file_at none = err not_found
read_file_at (some bytes) = ok bytes

abbrev pub disk_fs : FileSystem Disk
disk_fs = record {
  read = λ disk path. read_file_at (file_at (plain path) disk);
  read_dir = λ disk path. ok (names_in (plain path) disk);
  create_dir_all = λ disk path. (ok tt, disk);
  write = λ disk path bytes. (ok tt, put_file (plain path) bytes disk);
}
