-- ===== src/Store.antt =====
-- crates/store/src/lib.rs: the prepared content store.
pub mod Error
pub mod Time
pub mod Model
pub mod Target
pub mod Etag
pub mod Clock
pub mod FilePath
pub mod Backend
pub mod Validate
pub mod Load
