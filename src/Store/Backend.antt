-- ===== src/Store/Backend.antt =====
-- The storage backends of crates/store/src/lib.rs. The file system is the standard library's view
-- of the operating system's: a state `S` that four operations read and change.
pub mod Laws
pub mod Memory
use ajar_gateway.Common.{ℕ, List, ok, err, Result, Option, none, some}
use ajar_gateway.Text.{Text, utf8}
use ajar_gateway.Store.Error.{StoreError, IoErrorKind, other, backend_unavailable, record_invalid}
use ajar_gateway.Store.Model.{Bytes}
use ajar_gateway.Store.FilePath.{FilePath, join_path, parent}

pub record StoreKey : Type 0 where
  pub namespace : Text
  pub key : Text

-- `fs::read`; `fs::read_dir`, with the name of each entry or the error in its place;
-- `fs::create_dir_all`; `fs::write`.
pub record FileSystem (S : Type 0) : Type 0 where
  pub read : S → FilePath → Result IoErrorKind Bytes
  pub read_dir : S → FilePath → Result IoErrorKind (List (Result IoErrorKind (List ℕ)))
  pub create_dir_all : S → FilePath → Result IoErrorKind (Unit {0}) × S
  pub write : S → FilePath → Bytes → Result IoErrorKind (Unit {0}) × S

-- The trait `StorageBackend`.
pub record StorageBackend (S : Type 0) : Type 0 where
  pub read : S → StoreKey → Result StoreError Bytes
  pub write : S → StoreKey → Bytes → Result StoreError (Unit {0}) × S

-- `map_err` of `read`.
abbrev pub read_error : Result IoErrorKind Bytes → Result StoreError Bytes
read_error (ok bytes) = ok bytes
read_error (err IoErrorKind.not_found) = err StoreError.not_found
read_error (err other) = err backend_unavailable

abbrev pub unavailable :
    {S : Type 0} → Result IoErrorKind (Unit {0}) × S → Result StoreError (Unit {0}) × S
unavailable (ok u, s) = (ok u, s)
unavailable (err e, s) = (err backend_unavailable, s)

module _ {S : Type 0} (fs : FileSystem S) (root : FilePath) where
  unfoldable pub path_for : StoreKey → FilePath
  unfolding join_path utf8
  path_for k = join_path (join_path root (utf8 k.namespace)) (utf8 k.key)

  unfoldable pub read_file : S → StoreKey → Result StoreError Bytes
  unfolding path_for
  read_file s k = read_error (fs.read s (path_for k))

  abbrev pub write_to :
      S → FilePath → Bytes → Result IoErrorKind (Unit {0}) × S → Result StoreError (Unit {0}) × S
  write_to s path value (ok u, s') = unavailable (fs.write s' path value)
  write_to s path value (err e, s') = (err backend_unavailable, s')

  abbrev pub write_under : S → FilePath → Bytes → Option FilePath → Result StoreError (Unit {0}) × S
  write_under s path value none = (err record_invalid, s)
  write_under s path value (some directory) = write_to s path value (fs.create_dir_all s directory)

  unfoldable pub write_file : S → StoreKey → Bytes → Result StoreError (Unit {0}) × S
  unfolding path_for parent
  write_file s k value = write_under s (path_for k) value (parent (path_for k))

  -- `FilesystemStorageBackend::new(root)`
  abbrev pub filesystem_backend : StorageBackend S
  filesystem_backend = record { read = read_file; write = write_file }
