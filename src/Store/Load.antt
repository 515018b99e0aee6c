-- ===== src/Store/Load.antt =====
-- `PreparedContentStore` of crates/store/src/lib.rs and `load_from_dir`. The clock's answer, `now`,
-- is read once in the source, between two pure steps, and is an argument here. The `BTreeSet` of
-- the URLs seen is the list of them.
pub mod Laws
pub mod Prepared
pub mod Files
pub mod Listed
pub mod Listing
use ajar_gateway.Common.{
  ℕ, Bool, not, ◌&&◌, Option, none, some, List, [], ◌∷◌, ◌++◌, map, if◌then◌else◌, length, Result,
  ok, err, ◌>>=◌, ◌>>◌, fail_if, ok_or,
}
use ajar_gateway.Common.Int.{ℤ}
use ajar_gateway.Common.Map.{lookup, insert}
use ajar_gateway.Text.{Text, codes, member, text_eq, utf8}
use ajar_gateway.Text.Decode.{to_str}
use ajar_gateway.Store.Error.{
  StoreError, StoreLoadError, IoErrorKind, read_failed, backend_read_failed, json_malformed,
  duplicate_view_url, invalid_view_url,
}
use ajar_gateway.Store.Model.{Bytes, Manifest, View, StoredArtifact, StoredManifest, StoredView}
use ajar_gateway.Store.Time.{parse_rfc3339_utc}
use ajar_gateway.Store.Target.{request_target_from_view_url}
use ajar_gateway.Store.Etag.{strong_etag}
use ajar_gateway.Store.FilePath.{FilePath, join_path, file_name, extension, sort_paths}
use ajar_gateway.Store.Backend.{
  StoreKey, FileSystem, StorageBackend, filesystem_backend, read_file, path_for,
}
use ajar_gateway.Store.Validate.{
  Serde, validate_manifest_required_fields, validate_view_required_fields,
  validate_manifest_lifecycle,
}

pub record PreparedContentStore (Value : Type 0) : Type 0 where
  pub manifest : StoredManifest Value
  pub view_index : StoredArtifact
  pub views_by_request_target : List (Text × StoredView)

module _ {Value : Type 0} where
  unfoldable pub view_for_request_target : PreparedContentStore Value → Text → Option StoredView
  view_for_request_target store request_target = lookup request_target store.views_by_request_target

  abbrev pub manifest_sequence : PreparedContentStore Value → ℤ
  manifest_sequence store = store.manifest.manifest.sequence

  abbrev pub view_count : PreparedContentStore Value → ℕ
  view_count store = length store.views_by_request_target

-- `map_err(StoreLoadError::BackendReadFailed)`
abbrev pub backend_error : Result StoreError Bytes → Result StoreLoadError Bytes
backend_error (ok bytes) = ok bytes
backend_error (err e) = err (backend_read_failed e)

abbrev pub store_key : Text → Text → StoreKey
store_key namespace key = record { namespace = namespace; key = key }

module _ {S : Type 0} where
  unfoldable pub read_artifact : StorageBackend S → S → StoreKey → Result StoreLoadError Bytes
  read_artifact backend s key = backend_error (backend.read s key)

-- `extension().and_then(to_str) == Some("json")`
abbrev pub is_json_name : Option (List ℕ) → Bool
is_json_name none = Bool.false
is_json_name (some bytes) = elim (to_str bytes) [
  | none ↦ Bool.false
  | some text ↦ text_eq text (codes "json")
]

-- The loop of `json_files` over the entries of the directory.
unfoldable pub json_entries :
    FilePath → List (Result IoErrorKind (List ℕ)) → Result StoreLoadError (List FilePath)
json_entries path [] = ok []
json_entries path (err e ∷ entries) = err (read_failed e)
json_entries path (ok name ∷ entries) = do
  paths ← json_entries path entries
  let entry_path = join_path path name
  ok (if is_json_name (extension entry_path) then entry_path ∷ paths else paths)

module _ {S : Type 0} (fs : FileSystem S) (s : S) where
  unfoldable pub json_files : FilePath → Result StoreLoadError (List FilePath)
  json_files directory = elim (fs.read_dir s directory) [
    | err e ↦ err (read_failed e)
    | ok entries ↦ json_entries directory entries
  ]

-- The text of a file's name.
abbrev pub file_key : FilePath → Result StoreLoadError Text
file_key view_path = elim (file_name view_path) [
  | none ↦ err invalid_view_url
  | some name ↦ ok_or (to_str name) invalid_view_url
]

-- A list of the views loaded so far, and of their request targets.
abbrev pub Loaded : Type 0
Loaded = List (Text × StoredView) × List Text

-- `if !seen_urls.insert(target) { return Err(…) }` and the insertion into the map.
unfoldable pub add_view : Loaded → Text × StoredView → Result StoreLoadError Loaded
add_view (views, seen_urls) (request_target, view) =
    if member request_target seen_urls
    then err duplicate_view_url
    else ok (insert request_target view views, request_target ∷ seen_urls)

module _ {Value S : Type 0} (serde : Serde Value) (fs : FileSystem S) (s : S)
    (path : FilePath) where
  -- One view: its request target, its bytes and its typed form.
  unfoldable pub load_view : FilePath → Result StoreLoadError (Text × StoredView)
  load_view view_path = do
    key ← file_key view_path
    bytes ← read_artifact (filesystem_backend fs path) s (store_key (codes "views") key)
    view_json ← ok_or (serde.from_slice bytes) json_malformed
    validate_view_required_fields serde view_json
    view ← ok_or (serde.view_from_value view_json) json_malformed
    request_target ← request_target_from_view_url view.url
    ok (request_target, record { bytes = bytes; view = view })

  -- The loop over the sorted view files.
  unfoldable pub load_views : List FilePath → Loaded → Result StoreLoadError Loaded
  load_views [] loaded = ok loaded
  load_views (view_path ∷ view_paths) loaded = do
    entry ← load_view view_path
    next ← add_view loaded entry
    load_views view_paths next

  unfoldable pub load_from_dir : ℤ → Result StoreLoadError (PreparedContentStore Value)
  load_from_dir now = do
    let backend = filesystem_backend fs path
    manifest_bytes ← read_artifact backend s (store_key (codes ".") (codes "manifest.json"))
    manifest_json ← ok_or (serde.from_slice manifest_bytes) json_malformed
    validate_manifest_required_fields serde manifest_json
    manifest ← ok_or (serde.manifest_from_value manifest_json) json_malformed
    validate_manifest_lifecycle manifest now
    index_bytes ← read_artifact backend s (store_key (codes ".") (codes "view-index.json"))
    _index_json ← ok_or (serde.from_slice index_bytes) json_malformed
    view_paths ← json_files fs s (join_path path (codes "views"))
    (views, _) ← load_views (sort_paths view_paths) ([], [])
    expires_at_unix ← parse_rfc3339_utc manifest.expires_at
    ok (record {
      view_index = record {
        bytes = index_bytes;
        etag = strong_etag (codes "view-index") index_bytes none;
      };
      views_by_request_target = views;
      manifest = record {
        bytes = manifest_bytes;
        etag = strong_etag (codes "manifest") manifest_bytes none;
        expires_at_unix = expires_at_unix;
        views_index = manifest.views.index;
        manifest = manifest;
      };
    })
