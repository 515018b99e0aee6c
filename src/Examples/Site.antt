-- ===== src/Examples/Site.antt =====
-- A site for the crates store and serving: a directory `site` with a manifest, an index and one
-- view. The state of its file system is the sequence of the manifest.
use ajar_gateway.Common.{
  ℕ, ◌≡◌, refl, Option, none, some, [], ◌∷◌, ◌++◌, if◌then◌else◌, Result, ok, err,
}
use ajar_gateway.Common.Int.{ℤ, pos}
use ajar_gateway.Common.Map.{insert}
use ajar_gateway.Text.{codes, text_eq, starts_with, split, strip_prefix, from_first, utf8}
use ajar_gateway.Text.Decode.{to_str}
use ajar_gateway.Store.Error.{IoErrorKind, not_found}
use ajar_gateway.Store.Model.{Manifest, View, StoredView, Bytes}
use ajar_gateway.Store.Time.{parse_rfc3339_utc}
use ajar_gateway.Store.Target.{request_target_from_view_url}
use ajar_gateway.Store.Etag.{strong_etag}
use ajar_gateway.Store.FilePath.{FilePath, join_path, components, file_name, extension, sort_paths}
use ajar_gateway.Store.Backend.{FileSystem, path_for, read_file}
use ajar_gateway.Store.Validate.{
  Serde, manifest_fields, view_fields, require_fields, validate_manifest_required_fields,
  validate_view_required_fields, validate_manifest_lifecycle,
}
use ajar_gateway.Store.Load.{
  PreparedContentStore, read_artifact, json_entries, json_files, load_view, add_view, load_views,
  load_from_dir,
}

abbrev pub dir : FilePath
dir = codes "site"

abbrev pub site_read : ℕ → FilePath → Result IoErrorKind Bytes
site_read s path =
    if text_eq path (codes "site/./manifest.json")
    then ok (s ∷ [])
    else if text_eq path (codes "site/./view-index.json")
    then ok (7 ∷ [])
    else if text_eq path (codes "site/views/a.json")
    then ok (1 ∷ [])
    else err not_found

abbrev pub site_fs : FileSystem ℕ
site_fs = record {
  read = site_read;
  read_dir = λ s path. ok (ok (codes "a.json") ∷ ok (codes "notes.txt") ∷ []);
  create_dir_all = λ s path. (ok tt, s);
  write = λ s path bytes. (ok tt, s);
}

abbrev pub manifest : ℕ → Manifest ℕ
manifest sequence = record {
  ajar_version = 0;
  profiles = 0;
  site = 0;
  keys = 0;
  views = record { index = codes "/views.json" };
  issued_at = codes "2026-01-01T00:00:00Z";
  expires_at = codes "2026-02-01T00:00:00Z";
  sequence = pos sequence;
  signature = record { sig = codes "s" };
}

abbrev pub view : View
view = record {
  url = codes "/a";
  etag = codes "\"a\"";
  chunks = record { chunk_type = codes "heading"; content = codes "A" } ∷ [];
  signature = record { sig = codes "s" };
}

abbrev pub parse_first : Bytes → Option ℕ
parse_first [] = none
parse_first (b ∷ _) = some b

-- A value is a number: the sequence of a manifest.
abbrev pub site_serde : Serde ℕ
site_serde = record {
  from_slice = parse_first;
  as_object = λ v. some (manifest_fields ++ view_fields);
  manifest_from_value = λ v. some (manifest v);
  view_from_value = λ v. some view;
}

abbrev pub stored_view : StoredView
stored_view = record { bytes = 1 ∷ []; view = view }

abbrev pub site_store : ℕ → PreparedContentStore ℕ
site_store sequence = record {
  manifest = record {
    bytes = sequence ∷ [];
    etag = strong_etag (codes "manifest") (sequence ∷ []) none;
    expires_at_unix = pos 1_769_904_000;
    views_index = codes "/views.json";
    manifest = manifest sequence;
  };
  view_index = record { bytes = 7 ∷ []; etag = strong_etag (codes "view-index") (7 ∷ []) none };
  views_by_request_target = (codes "/a", stored_view) ∷ [];
}

-- A time at which the manifest has not expired.
abbrev pub today : ℤ
today = pos 1_768_000_000

abbrev pub view_file : FilePath
view_file = codes "site/views/a.json"

pub view_loads : load_view site_serde site_fs 3 dir view_file ≡ ok (codes "/a", stored_view)
unfolding load_view read_artifact read_file path_for join_path file_name components to_str
    validate_view_required_fields require_fields text_eq utf8 request_target_from_view_url
    starts_with strip_prefix from_first split
view_loads = refl

pub site_loads : load_from_dir site_serde site_fs 3 dir today ≡ ok (site_store 3)
unfolding load_from_dir read_artifact read_file path_for join_path validate_manifest_required_fields
    require_fields validate_manifest_lifecycle parse_rfc3339_utc json_files json_entries extension
    file_name components to_str sort_paths load_views add_view insert load_view
    validate_view_required_fields request_target_from_view_url text_eq utf8 starts_with strip_prefix
    from_first split
site_loads = refl
