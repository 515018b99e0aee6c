-- ===== src/Store/Load/Listed.antt =====
-- The file that a View is read from is the one that the directory listed: `load_from_dir` of
-- crates/store/src/lib.rs takes the name off a listed path, decodes it, and joins it again.
use ajar_gateway.Common.{
  ◌≡◌, refl, sym, ap, ◌∙◌, inl, inr, false, some, List, [], ◌∷◌, Result, ok, err, ok_or, >>=-eq-ok,
  ok-injective, ok_or-eq-ok, ℕ, if_lem, All, Some, subst,
}
use ajar_gateway.Text.{Text, codes, utf8, starts_with}
use ajar_gateway.Text.Decode.{to_str}
use ajar_gateway.Text.Decode.Laws.{to_str-utf8}
use ajar_gateway.Store.Error.{IoErrorKind, invalid_view_url, json_malformed, read_failed}
use ajar_gateway.Store.Model.{Bytes, StoredView}
use ajar_gateway.Store.FilePath.{FilePath, ends_in_slash, join_path, file_name, extension}
use ajar_gateway.Store.FilePath.Names.{
  ends_in_slash-append, IsName, file_name-append, join_path-name,
}
use ajar_gateway.Store.Backend.{FileSystem, filesystem_backend, path_for, read_file, read_error}
use ajar_gateway.Store.Validate.{Serde, validate_view_required_fields}
use ajar_gateway.Store.Target.{request_target_from_view_url}
use ajar_gateway.Store.Load.{
  read_artifact, backend_error, store_key, is_json_name, json_entries, json_files, file_key,
  load_view,
}

-- An entry of a directory listing that is no error is a name.
abbrev pub IsEntry : Result IoErrorKind (List ℕ) → Type 0
IsEntry (ok name) = IsName name
IsEntry (err e) = Unit

-- `fs::read_dir` gives the names of the entries, without `.` and `..`.
pub record ListsNames {S : Type 0} (fs : FileSystem S) : Type 0 where
  pub names :
      (s : S) (path : FilePath) (entries : List (Result IoErrorKind (List ℕ)))
      → fs.read_dir s path ≡ ok entries
      → All IsEntry entries

-- The path of an entry of a directory.
record IsListed (directory path : FilePath) : Type 0 where
  name : List ℕ
  name_is : IsName name
  path_is : path ≡ join_path directory name

json_entries-IsListed :
    (directory : FilePath) (entries : List (Result IoErrorKind (List ℕ))) (paths : List FilePath)
    → All IsEntry entries
    → json_entries directory entries ≡ ok paths
    → All (IsListed directory) paths
unfolding json_entries
json_entries-IsListed directory [] paths names h =
    subst (All (IsListed directory)) (ok-injective h) tt
json_entries-IsListed directory (err e ∷ entries) paths names h = absurd (cc)
json_entries-IsListed directory (ok name ∷ entries) paths (is_name, names) h =
    let (rest, rest_is, h1) = >>=-eq-ok (json_entries directory entries) _ h in
    let listed = json_entries-IsListed directory entries rest names rest_is in
    subst (All (IsListed directory)) (ok-injective h1) (
      if_lem (All (IsListed directory)) (is_json_name (extension (join_path directory name))) _ _
        (λ _. (record { name = name; name_is = is_name; path_is = refl }, listed)) (λ _. listed))

All-Some :
    (P : FilePath → Type 0) (path : FilePath) (paths : List FilePath)
    → All P paths
    → Some (λ p. p ≡ path) paths
    → P path
All-Some P path [] _ h = absurd h
All-Some P path (p ∷ paths) (here, _) (inl same) = subst P same here
All-Some P path (p ∷ paths) (_, later) (inr h) = All-Some P path paths later h

-- The directory of the Views does not end in a slash.
pub views_dir-open : (dir : FilePath) → ends_in_slash (join_path dir (codes "views")) ≡ false
unfolding join_path starts_with
views_dir-open dir =
    if_lem (λ (p : FilePath). ends_in_slash p ≡ false) (ends_in_slash dir) _ _
      (λ _. ends_in_slash-append dir b'v' (codes "iews"))
      (λ _. ends_in_slash-append dir b'/' (codes "views"))

read_artifact-eq-ok :
    (r : Result IoErrorKind Bytes) (bytes : Bytes)
    → backend_error (read_error r) ≡ ok bytes
    → r ≡ ok bytes
read_artifact-eq-ok (ok b) bytes h = cc
read_artifact-eq-ok (err IoErrorKind.not_found) bytes h = absurd (cc)
read_artifact-eq-ok (err IoErrorKind.other) bytes h = absurd (cc)

file_key-eq-ok :
    (path : FilePath) (name : List ℕ) (key : Text)
    → file_name path ≡ some name
    → file_key path ≡ ok key
    → to_str name ≡ some key
unfolding file_name
file_key-eq-ok path name key e h = ok_or-eq-ok (to_str name) invalid_view_url (rw e at h)

module _ {S : Type 0} (fs : FileSystem S) (s : S) where
  json_files-IsListed :
      (directory : FilePath) (files : List FilePath)
      → ListsNames fs
      → json_files fs s directory ≡ ok files
      → All (IsListed directory) files
  unfolding json_files
  json_files-IsListed directory files lists h = by_listing (fs.read_dir s directory) refl h
    where
      by_listing :
          (r : Result IoErrorKind (List (Result IoErrorKind (List ℕ))))
          → fs.read_dir s directory ≡ r
          → (elim r [ err e ↦ err (read_failed e) | ok entries ↦ json_entries directory entries ])
            ≡ ok files
          → All (IsListed directory) files
      by_listing (err e) is_r k = absurd (cc)
      by_listing (ok entries) is_r k =
          json_entries-IsListed directory entries files (lists.names s directory entries is_r) k

module _ {Value S : Type 0} (serde : Serde Value) (fs : FileSystem S) (s : S) (dir : FilePath) where
  -- What a View that is loaded was read by.
  record IsReadBy (path : FilePath) (view : StoredView) : Type 0 where
    key : Text
    key_is : file_key path ≡ ok key
    read :
        read_artifact (filesystem_backend fs dir) s (store_key (codes "views") key) ≡ ok view.bytes

  load_view-IsReadBy :
      (path : FilePath) (target : Text) (view : StoredView)
      → load_view serde fs s dir path ≡ ok (target, view)
      → IsReadBy path view
  unfolding load_view
  load_view-IsReadBy path target view h =
      let (key, key_is, h1) = >>=-eq-ok (file_key path) _ h in
      let (bytes, read, h2) =
        >>=-eq-ok (read_artifact (filesystem_backend fs dir) s (store_key (codes "views") key)) _
          h1 in
      let (json, _, h3) = >>=-eq-ok (ok_or (serde.from_slice bytes) json_malformed) _ h2 in
      let (_, _, h4) = >>=-eq-ok (validate_view_required_fields serde json) _ h3 in
      let (v, _, h5) = >>=-eq-ok (ok_or (serde.view_from_value json) json_malformed) _ h4 in
      let (t, _, h6) = >>=-eq-ok (request_target_from_view_url v.url) _ h5 in
      subst (IsReadBy path) (ap (λ (e : Text × StoredView). e.1) (ok-injective h6))
        (record { key = key; key_is = key_is; read = read })

  key-path :
      (path : FilePath) (key : Text)
      → IsListed (join_path dir (codes "views")) path
      → file_key path ≡ ok key
      → path_for fs dir (store_key (codes "views") key) ≡ path
  unfolding path_for utf8
  key-path path key listed h =
      let base = join_path dir (codes "views") in
      let joined = join_path-name base listed.name listed.name_is (views_dir-open dir) in
      let name_of : file_name path ≡ some listed.name =
        ap file_name (listed.path_is ∙ joined) ∙ file_name-append base listed.name listed.name_is in
      let bytes_are = to_str-utf8 listed.name key (file_key-eq-ok path listed.name key name_of h) in
      ap (join_path base) bytes_are ∙ sym listed.path_is

  -- A View that is loaded from a listed path has the bytes of the file at that path.
  pub load_view-read :
      (names : ListsNames fs) (files : List FilePath) (path : FilePath) (target : Text)
      (view : StoredView)
      → json_files fs s (join_path dir (codes "views")) ≡ ok files
      → Some (λ p. p ≡ path) files
      → load_view serde fs s dir path ≡ ok (target, view)
      → fs.read s path ≡ ok view.bytes
  unfolding read_artifact read_file
  load_view-read names files path target view listed member h =
      let views = join_path dir (codes "views") in
      let read_by = load_view-IsReadBy path target view h in
      let place =
        All-Some (IsListed views) path files (json_files-IsListed fs s views files names listed)
          member in
      ap (fs.read s) (sym (key-path path read_by.key place read_by.key_is))
      ∙ read_artifact-eq-ok (fs.read s (path_for fs dir (store_key (codes "views") read_by.key)))
          view.bytes read_by.read
