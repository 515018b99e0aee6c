-- ===== src/Store/Backend/Memory.antt =====
-- The contract of the trait `StorageBackend` of crates/store/src/lib.rs, with the backend of its
-- tests, which keeps the records in a map behind a lock.
use ajar_gateway.Common.{
  ◌≡◌, refl, ap, Bool, true, false, ◌&&◌, Option, none, some, List, [], ◌∷◌, Result, ok, err,
  if◌then◌else◌, Bool-cases, inl, inr, subst, ok_or,
}
use ajar_gateway.Text.{text_eq}
use ajar_gateway.Text.Laws.{text_eq_refl}
use ajar_gateway.Store.Error.{StoreError, backend_unavailable, not_found}
use ajar_gateway.Store.Model.{Bytes}
use ajar_gateway.Store.FilePath.{FilePath}
use ajar_gateway.Store.Backend.{StoreKey, StorageBackend, FileSystem, filesystem_backend}
use ajar_gateway.Store.Backend.Laws.{KeepsFiles, write_file_read_back}

-- Backends return the exact bytes stored for a key.
pub record IsConforming {S : Type 0} (backend : StorageBackend S) : Type 0 where
  pub reads_back :
      (s s' : S) (key : StoreKey) (value : Bytes)
      → backend.write s key value ≡ (ok tt, s')
      → backend.read s' key ≡ ok value

-- `TestStorageBackend`
pub record Records : Type 0 where
  pub poisoned : Bool
  pub entries : List (StoreKey × Bytes)

abbrev same_key : StoreKey → StoreKey → Bool
same_key a b = text_eq a.namespace b.namespace && text_eq a.key b.key

unfoldable pub record_of : StoreKey → List (StoreKey × Bytes) → Option Bytes
record_of key [] = none
record_of key ((k, value) ∷ entries) =
    let rest = record_of key entries in if same_key k key then some value else rest

unfoldable pub put_record : StoreKey → Bytes → List (StoreKey × Bytes) → List (StoreKey × Bytes)
put_record key value [] = (key, value) ∷ []
put_record key value ((k, v) ∷ entries) =
    let rest = put_record key value entries in
    if same_key k key then (key, value) ∷ entries else (k, v) ∷ rest

abbrev pub test_storage_backend : StorageBackend Records
test_storage_backend = record {
  read = λ s key.
      if s.poisoned then err backend_unavailable else ok_or (record_of key s.entries) not_found;
  write = λ s key value.
      if s.poisoned
      then (err backend_unavailable, s)
      else (ok tt, record s { entries = put_record key value s.entries });
}

same_key_refl : (key : StoreKey) → same_key key key ≡ true
same_key_refl key = rw (text_eq_refl key.namespace, text_eq_refl key.key) refl

record_of-put_record :
    (key : StoreKey) (value : Bytes) (entries : List (StoreKey × Bytes))
    → record_of key (put_record key value entries) ≡ some value
unfolding record_of put_record
record_of-put_record key value [] = rw (same_key_refl key) refl
record_of-put_record key value ((k, v) ∷ entries) = elim (Bool-cases (same_key k key)) [
  | inl same ↦ rw same (rw (same_key_refl key, record_of) refl)
  | inr other ↦ rw (other, record_of, other) (record_of-put_record key value entries)
]

read_after_write :
    (lock : Bool) (entries : List (StoreKey × Bytes)) (s' : Records) (key : StoreKey)
    (value : Bytes)
    → test_storage_backend.write (record { poisoned = lock; entries = entries }) key value
      ≡ (ok tt, s')
    → test_storage_backend.read s' key ≡ ok value
read_after_write true entries s' key value h = absurd (cc)
read_after_write false entries s' key value h =
    subst (λ (s : Records). test_storage_backend.read s key ≡ ok value)
      (ap (λ (r : Result StoreError (Unit {0}) × Records). r.1) h)
      (rw (record_of-put_record key value entries) refl)

pub test_storage_backend-IsConforming : IsConforming test_storage_backend
test_storage_backend-IsConforming = record {
  reads_back = λ s s' key value h. read_after_write s.poisoned s.entries s' key value h;
}

module _ {S : Type 0} (fs : FileSystem S) (root : FilePath) where
  pub filesystem_backend-IsConforming : KeepsFiles fs → IsConforming (filesystem_backend fs root)
  filesystem_backend-IsConforming keeps = record { reads_back = write_file_read_back fs root keeps }
