-- ===== src/Store/Load/Prepared.antt =====
-- What a store that `load_from_dir` of crates/store/src/lib.rs returns holds.
use ajar_gateway.Common.{
  ◌≡◌, refl, sym, ◌∙◌, none, some, List, [], ok, ok_or, >>=-eq-ok, ok-injective, ok_or-eq-ok, subst,
}
use ajar_gateway.Common.Int.{ℤ}
use ajar_gateway.Common.Map.{HasDistinctKeys}
use ajar_gateway.Text.{codes}
use ajar_gateway.Store.Error.{json_malformed}
use ajar_gateway.Store.Time.{parse_rfc3339_utc}
use ajar_gateway.Store.Etag.{strong_etag}
use ajar_gateway.Store.FilePath.{FilePath, join_path, sort_paths}
use ajar_gateway.Store.Backend.{FileSystem, filesystem_backend}
use ajar_gateway.Store.Validate.{
  Serde, validate_manifest_required_fields, validate_manifest_lifecycle,
}
use ajar_gateway.Store.Validate.Laws.{IsLive, validate_manifest_lifecycle_iff}
use ajar_gateway.Store.Load.{
  PreparedContentStore, read_artifact, store_key, json_files, load_views, load_from_dir,
}
use ajar_gateway.Store.Load.Laws.{Entries, load_views_iff}

module _ {Value S : Type 0} (serde : Serde Value) (fs : FileSystem S) (s : S)
    (path : FilePath) where
  -- A store that was loaded from the directory at the time `now`.
  pub record IsPrepared (now : ℤ) (store : PreparedContentStore Value) : Type 0 where
    pub manifest_read :
        read_artifact (filesystem_backend fs path) s (store_key (codes ".") (codes "manifest.json"))
        ≡ ok store.manifest.bytes
    pub manifest_json : Value
    pub manifest_parsed : serde.from_slice store.manifest.bytes ≡ some manifest_json
    pub manifest_typed : serde.manifest_from_value manifest_json ≡ some store.manifest.manifest
    pub fields_present : validate_manifest_required_fields serde manifest_json ≡ ok tt
    pub live : IsLive store.manifest.manifest now
    pub expires_is : store.manifest.expires_at_unix ≡ live.expires
    pub manifest_tag :
        store.manifest.etag ≡ strong_etag (codes "manifest") store.manifest.bytes none
    pub views_index_is : store.manifest.views_index ≡ store.manifest.manifest.views.index
    pub index_read :
        read_artifact
          (filesystem_backend fs path)
          s
          (store_key (codes ".") (codes "view-index.json"))
        ≡ ok store.view_index.bytes
    pub index_tag :
        store.view_index.etag ≡ strong_etag (codes "view-index") store.view_index.bytes none
    pub files : List FilePath
    pub listed : json_files fs s (join_path path (codes "views")) ≡ ok files
    pub entries : Entries serde fs s path (sort_paths files) store.views_by_request_target
    pub distinct : HasDistinctKeys store.views_by_request_target

  -- Every store that `load_from_dir` returns is prepared: it holds the exact bytes of the files with
  -- their tags, a manifest that is live at the time of loading, and one entry for each view file,
  -- under distinct request targets.
  pub load_from_dir-IsPrepared :
      (now : ℤ) (store : PreparedContentStore Value)
      → load_from_dir serde fs s path now ≡ ok store
      → IsPrepared now store
  unfolding load_from_dir
  load_from_dir-IsPrepared now store h =
      let backend = filesystem_backend fs path in
      let (bytes, bytes_read, h1) =
        >>=-eq-ok (read_artifact backend s (store_key (codes ".") (codes "manifest.json"))) _ h in
      let (json, parsed, h2) = >>=-eq-ok (ok_or (serde.from_slice bytes) json_malformed) _ h1 in
      let (u, present, h3) = >>=-eq-ok (validate_manifest_required_fields serde json) _ h2 in
      let (manifest, typed, h4) =
        >>=-eq-ok (ok_or (serde.manifest_from_value json) json_malformed) _ h3 in
      let (u', alive, h5) = >>=-eq-ok (validate_manifest_lifecycle manifest now) _ h4 in
      let (index, index_read, h6) =
        >>=-eq-ok (read_artifact backend s (store_key (codes ".") (codes "view-index.json"))) _
          h5 in
      let (_, _, h7) = >>=-eq-ok (ok_or (serde.from_slice index) json_malformed) _ h6 in
      let (files, listed, h8) = >>=-eq-ok (json_files fs s (join_path path (codes "views"))) _ h7 in
      let ((views, seen), loaded, h9) =
        >>=-eq-ok (load_views serde fs s path (sort_paths files) ([], [])) _ h8 in
      let (expires, expires_is, h10) = >>=-eq-ok (parse_rfc3339_utc manifest.expires_at) _ h9 in
      subst (IsPrepared now) (ok-injective h10) (record {
        manifest_read = bytes_read;
        manifest_json = json;
        manifest_parsed = ok_or-eq-ok (serde.from_slice bytes) json_malformed parsed;
        manifest_typed = ok_or-eq-ok (serde.manifest_from_value json) json_malformed typed;
        fields_present = present;
        live = (validate_manifest_lifecycle_iff manifest now).0 alive;
        expires_is =
            ok-injective (
              sym expires_is ∙ ((validate_manifest_lifecycle_iff manifest now).0 alive).expires_is);
        manifest_tag = refl;
        views_index_is = refl;
        index_read = index_read;
        index_tag = refl;
        files = files;
        listed = listed;
        entries = ((load_views_iff serde fs s path (sort_paths files) views).0 (seen, loaded)).0;
        distinct = ((load_views_iff serde fs s path (sort_paths files) views).0 (seen, loaded)).1;
      })
