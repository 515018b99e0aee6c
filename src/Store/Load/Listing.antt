-- ===== src/Store/Load/Listing.antt =====
-- What `load_from_dir` of crates/store/src/lib.rs loads does not depend on the order in which the
-- operating system lists the directory of the Views.
use mathlib.Core.Path.{ap₂}
use mathlib.Core.Logic.{∥∥₁_elim}
use mathlib.Core.List.{Perm, Permᴰ}
use ajar_gateway.Common.{
  ℕ, ◌≡◌, refl, sym, ◌∙◌, false, Bool-cases, inl, inr, List, [], ◌∷◌, map, if◌then◌else◌, Result,
  ok, All, if_lem, >>=_ext,
}
use ajar_gateway.Common.Int.{ℤ}
use ajar_gateway.Text.{codes}
use ajar_gateway.Store.Error.{IoErrorKind}
use ajar_gateway.Store.FilePath.{FilePath, ends_in_slash, join_path, extension, sort_paths}
use ajar_gateway.Store.FilePath.Names.{IsName}
use ajar_gateway.Store.FilePath.Order.{
  insert_name, sort_names, insert_name_comm, sort_paths-join_path,
}
use ajar_gateway.Store.Backend.{StoreKey, FileSystem, filesystem_backend, path_for, read_file}
use ajar_gateway.Store.Validate.{Serde}
use ajar_gateway.Store.Load.{
  Loaded, file_key, store_key, read_artifact, is_json_name, json_entries, json_files, load_view,
  load_views, add_view, load_from_dir,
}
use ajar_gateway.Store.Load.Listed.{views_dir-open}

abbrev views_dir : FilePath → FilePath
views_dir dir = join_path dir (codes "views")

-- A listing of names without errors.
abbrev pub listing : List (List ℕ) → List (Result IoErrorKind (List ℕ))
listing [] = []
listing (name ∷ names) = ok name ∷ listing names

module _ (directory : FilePath) where
  -- The names of the files that are loaded.
  json_names : List (List ℕ) → List (List ℕ)
  json_names [] = []
  json_names (name ∷ names) =
      if is_json_name (extension (join_path directory name))
      then name ∷ json_names names
      else json_names names

  json_entries-listing :
      (names : List (List ℕ))
      → json_entries directory (listing names) ≡ ok (map (join_path directory) (json_names names))
  unfolding json_entries json_names
  json_entries-listing [] = refl
  json_entries-listing (name ∷ names) =
      elim (Bool-cases (is_json_name (extension (join_path directory name)))) [
        | inl taken ↦ rw (json_entries-listing names, taken) refl
        | inr passed ↦ rw (json_entries-listing names, passed) refl
      ]

  json_names-IsName : (names : List (List ℕ)) → All IsName names → All IsName (json_names names)
  unfolding json_names
  json_names-IsName [] h = tt
  json_names-IsName (name ∷ names) (n, h) =
      if_lem (All IsName) (is_json_name (extension (join_path directory name))) _ _
        (λ _. (n, json_names-IsName names h)) (λ _. json_names-IsName names h)

  sorted_json_names : List (List ℕ) → List (List ℕ)
  sorted_json_names names = sort_names (json_names names)

  put_name : List ℕ → List (List ℕ) → List (List ℕ)
  put_name name names =
      if is_json_name (extension (join_path directory name)) then insert_name name names else names

  sorted_json_names-cons :
      (name : List ℕ) (names : List (List ℕ))
      → sorted_json_names (name ∷ names) ≡ put_name name (sorted_json_names names)
  unfolding sorted_json_names sort_names json_names put_name
  sorted_json_names-cons name names =
      elim (Bool-cases (is_json_name (extension (join_path directory name)))) [
        | inl taken ↦ rw taken refl
        | inr passed ↦ rw passed refl
      ]

  put_name_comm :
      (s t : List ℕ) (names : List (List ℕ))
      → put_name s (put_name t names) ≡ put_name t (put_name s names)
  unfolding put_name
  put_name_comm s t names = elim (Bool-cases (is_json_name (extension (join_path directory s)))) [
    | inl taken ↦ elim (Bool-cases (is_json_name (extension (join_path directory t)))) [
      | inl both ↦ rw (taken, both) (insert_name_comm s t names)
      | inr one ↦ rw (taken, one) refl
    ]
    | inr passed ↦ rw passed refl
  ]

  sorted_json_names-permᴰ :
      {names others : List (List ℕ)}
      → Permᴰ names others
      → sorted_json_names names ≡ sorted_json_names others
  sorted_json_names-permᴰ Permᴰ.nil = refl
  sorted_json_names-permᴰ (Permᴰ.cons e q) =
      sorted_json_names-cons _ _
      ∙ ap₂ put_name e (sorted_json_names-permᴰ q)
      ∙ sym (sorted_json_names-cons _ _)
  sorted_json_names-permᴰ (Permᴰ.swap {a} {b} {l} e f) =
      rw
        (
          ← e,
          ← f,
          sorted_json_names-cons a (b ∷ l),
          sorted_json_names-cons b l,
          sorted_json_names-cons b (a ∷ l),
          sorted_json_names-cons a l,
        )
        (put_name_comm a b (sorted_json_names l))
  sorted_json_names-permᴰ (Permᴰ.trans q r) = sorted_json_names-permᴰ q ∙ sorted_json_names-permᴰ r

  names_set : IsSet (List (List ℕ))
  names_set = hlevel

  sorted_json_names-perm :
      {names others : List (List ℕ)}
      → Perm names others
      → sorted_json_names names ≡ sorted_json_names others
  sorted_json_names-perm q = ∥∥₁_elim q (names_set _ _) sorted_json_names-permᴰ

  sort_paths-json_names :
      (names : List (List ℕ))
      → ends_in_slash directory ≡ false
      → All IsName names
      → sort_paths (map (join_path directory) (json_names names))
        ≡ map (join_path directory) (sorted_json_names names)
  unfolding sorted_json_names
  sort_paths-json_names names open_end h =
      sort_paths-join_path directory open_end (json_names names) (json_names-IsName names h)

module _ {Value S T : Type 0} (serde : Serde Value) (fs : FileSystem S) (s : S) (gs : FileSystem T)
    (t : T) (dir : FilePath) (reads : (path : FilePath) → fs.read s path ≡ gs.read t path) where
  read_artifact-same :
      (key : StoreKey)
      → read_artifact (filesystem_backend fs dir) s key
        ≡ read_artifact (filesystem_backend gs dir) t key
  unfolding read_artifact read_file path_for
  read_artifact-same key = rw (reads (path_for gs dir key)) refl

  load_view-same : (path : FilePath) → load_view serde fs s dir path ≡ load_view serde gs t dir path
  unfolding load_view
  load_view-same path =
      >>=_ext (file_key path) _ _
        (λ key. rw (read_artifact-same (store_key (codes "views") key)) refl)

  load_views-same :
      (paths : List FilePath) (loaded : Loaded)
      → load_views serde fs s dir paths loaded ≡ load_views serde gs t dir paths loaded
  unfolding load_views
  load_views-same [] loaded = refl
  load_views-same (path ∷ paths) loaded = rw (load_view-same path) (
      >>=_ext (load_view serde gs t dir path) _ _
        (λ entry. >>=_ext (add_view loaded entry) _ _ (λ next. load_views-same paths next)))

module _ {S : Type 0} (fs : FileSystem S) (s : S) where
  json_files-listing :
      (directory : FilePath) (names : List (List ℕ))
      → fs.read_dir s directory ≡ ok (listing names)
      → json_files fs s directory ≡ ok (map (join_path directory) (json_names directory names))
  unfolding json_files
  json_files-listing directory names lists =
      rw (json_files, lists) (json_entries-listing directory names)

module _ {Value S T : Type 0} (serde : Serde Value) (fs : FileSystem S) (s : S) (gs : FileSystem T)
    (t : T) (dir : FilePath) (reads : (path : FilePath) → fs.read s path ≡ gs.read t path)
    (names others : List (List ℕ)) (are_names : All IsName names) (are_others : All IsName others)
    (order : Perm names others) where
  listed_views-same :
      load_views serde fs s dir
        (sort_paths (map (join_path (views_dir dir)) (json_names (views_dir dir) names)))
        ([], [])
      ≡ load_views serde gs t dir
          (sort_paths (map (join_path (views_dir dir)) (json_names (views_dir dir) others)))
          ([], [])
  listed_views-same =
      rw
        (
          sort_paths-json_names (views_dir dir) names (views_dir-open dir) are_names,
          sort_paths-json_names (views_dir dir) others (views_dir-open dir) are_others,
          sorted_json_names-perm (views_dir dir) order,
        )
        (load_views-same serde fs s gs t dir reads _ _)

  -- Where two file systems hold the same files, and list the same names in the directory of the
  -- Views, in whatever order, `load_from_dir` returns the same, be it a store or an error.
  pub load_from_dir-perm :
      (now : ℤ)
      → fs.read_dir s (join_path dir (codes "views")) ≡ ok (listing names)
      → gs.read_dir t (join_path dir (codes "views")) ≡ ok (listing others)
      → load_from_dir serde fs s dir now ≡ load_from_dir serde gs t dir now
  unfolding load_from_dir
  load_from_dir-perm now lists relists =
      let same = read_artifact-same serde fs s gs t dir reads in
      rw
        (
          same (store_key (codes ".") (codes "manifest.json")),
          same (store_key (codes ".") (codes "view-index.json")),
          json_files-listing fs s (views_dir dir) names lists,
          json_files-listing gs t (views_dir dir) others relists,
          listed_views-same,
        )
        refl
