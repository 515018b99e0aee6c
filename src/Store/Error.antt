-- ===== src/Store/Error.antt =====
-- The error types of crates/store/src/lib.rs.

-- Errors of a storage backend.
pub data StoreError : Type 0 where
  not_found backend_unavailable record_invalid : StoreError

-- The kinds of `std::io::Error` that the crate tells apart.
pub data IoErrorKind : Type 0 where
  not_found other : IoErrorKind

-- Errors of loading a prepared content store.
pub data StoreLoadError : Type 0 where
  read_failed : IoErrorKind → StoreLoadError
  backend_read_failed : StoreError → StoreLoadError
  json_malformed manifest_field_missing view_field_missing : StoreLoadError
  manifest_time_invalid manifest_lifetime_too_long manifest_expired : StoreLoadError
  manifest_sequence_invalid duplicate_view_url invalid_view_url : StoreLoadError
