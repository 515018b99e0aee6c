-- ===== src/Store/Backend/Laws.antt =====
-- Reads after writes on the file system backend of crates/store/src/lib.rs.
use ajar_gateway.Common.{
  ℕ, ◌≡◌, ◌≢◌, refl, ap, false, Option, none, some, List, [], ◌∷◌, ◌++◌, map, Result, ok, err,
  ok-injective,
}
use ajar_gateway.Text.{utf8}
use ajar_gateway.Store.Error.{IoErrorKind}
use ajar_gateway.Store.Model.{Bytes}
use ajar_gateway.Store.FilePath.{FilePath, Component, normal, ends_in_slash, components, parent}
use ajar_gateway.Store.FilePath.Names.{IsName, dir_components}
use ajar_gateway.Store.FilePath.Below.{join_path-join_path}
use ajar_gateway.Store.Backend.{
  FileSystem, StoreKey, path_for, read_file, write_file, read_error, unavailable, write_to,
  write_under,
}

-- The names below the root that a key stands for.
abbrev pub names : StoreKey → List (List ℕ)
names k = utf8 k.namespace ∷ utf8 k.key ∷ []

-- Both are names of directory entries.
abbrev pub IsKey : StoreKey → Type 0
IsKey k = IsName (utf8 k.namespace) × IsName (utf8 k.key)

module _ {S : Type 0} (fs : FileSystem S) where
  -- What the file system promises, where nothing below a directory is a link: a file that was
  -- written holds what was written; the files at other rows of names below the same directory keep
  -- what they hold; and so does every file when directories are created.
  pub record KeepsFiles : Type 0 where
    pub reads_back :
        (s s' : S) (path : FilePath) (bytes : Bytes)
        → fs.write s path bytes ≡ (ok tt, s')
        → fs.read s' path ≡ ok bytes
    pub keeps_others :
        (s s' : S) (path other : FilePath) (bytes held : Bytes) (above : List Component)
        (row other_row : List (List ℕ))
        → fs.write s path bytes ≡ (ok tt, s')
        → components path ≡ above ++ map normal row
        → components other ≡ above ++ map normal other_row
        → row ≢ other_row
        → fs.read s other ≡ ok held
        → fs.read s' other ≡ ok held
    pub creates :
        (s s' : S) (dir path : FilePath) (held : Bytes)
        → fs.create_dir_all s dir ≡ (ok tt, s')
        → fs.read s path ≡ ok held
        → fs.read s' path ≡ ok held

unavailable-written :
    {S : Type 0} (w : Result IoErrorKind (Unit {0}) × S) (s' : S)
    → unavailable w ≡ (ok tt, s')
    → w ≡ (ok tt, s')
unavailable-written (ok tt, t) s' h = cc
unavailable-written (err e, t) s' h = cc

read_error-eq-ok :
    (r : Result IoErrorKind Bytes) (bytes : Bytes) → read_error r ≡ ok bytes → r ≡ ok bytes
read_error-eq-ok (ok b) bytes h = ap ok (ok-injective h)
read_error-eq-ok (err IoErrorKind.not_found) bytes h = absurd (cc (h))
read_error-eq-ok (err IoErrorKind.other) bytes h = absurd (cc (h))

module _ {S : Type 0} (fs : FileSystem S) (root : FilePath) where
  -- A write that succeeds creates the directory and then writes.
  record IsDone (s : S) (path : FilePath) (value : Bytes) (s' : S) : Type 0 where
    dir : FilePath
    between : S
    created : fs.create_dir_all s dir ≡ (ok tt, between)
    wrote : fs.write between path value ≡ (ok tt, s')

  written :
      (s : S) (path dir : FilePath) (value : Bytes) (made : Result IoErrorKind (Unit {0}) × S)
      (s' : S)
      → fs.create_dir_all s dir ≡ made
      → write_to fs root s path value made ≡ (ok tt, s')
      → IsDone s path value s'
  written s path dir value (ok u, t) s' is_made h = record {
    dir = dir;
    between = t;
    created = is_made;
    wrote = unavailable-written (fs.write t path value) s' h;
  }
  written s path dir value (err e, t) s' is_made h = absurd (cc)

  written_under :
      (s : S) (path : FilePath) (value : Bytes) (directory : Option FilePath) (s' : S)
      → write_under fs root s path value directory ≡ (ok tt, s')
      → IsDone s path value s'
  written_under s path value none s' h = absurd (cc)
  written_under s path value (some directory) s' h =
      written s path directory value (fs.create_dir_all s directory) s' refl h

  -- Each key has a place of its own: the file named by the key in the directory named by its
  -- namespace, below the root.
  path_for-components :
      (k : StoreKey)
      → IsKey k
      → ends_in_slash root ≡ false
      → components (path_for fs root k) ≡ dir_components root ++ map normal (names k)
  unfolding path_for
  path_for-components k (is_namespace, is_key) open_end =
      join_path-join_path root (utf8 k.namespace) (utf8 k.key) is_namespace is_key open_end

  -- The key that was written reads back, wherever it is.
  pub write_file_read_back :
      KeepsFiles fs
      → (s s' : S) (k : StoreKey) (value : Bytes) → write_file fs root s k value ≡ (ok tt, s')
      → read_file fs root s' k ≡ ok value
  unfolding write_file read_file
  write_file_read_back keeps s s' k value h =
      let path = path_for fs root k in
      let done = written_under s path value (parent path) s' h in
      ap read_error (keeps.reads_back done.between s' path value done.wrote)

  -- After a write that succeeds, the same key reads back the bytes that were written, and another
  -- key, with another namespace or another name in it, the bytes that it read before; where the
  -- root does not end in a slash, namespaces and keys are names of directory entries, and the file
  -- system keeps its files.
  pub write_file-read_file :
      KeepsFiles fs
      → ends_in_slash root ≡ false
      → (s s' : S) (k other : StoreKey) (value held : Bytes) → IsKey k
      → IsKey other
      → names k ≢ names other
      → write_file fs root s k value ≡ (ok tt, s')
      → read_file fs root s other ≡ ok held
      → (read_file fs root s' k ≡ ok value) × (read_file fs root s' other ≡ ok held)
  unfolding write_file read_file
  write_file-read_file keeps open_end s s' k other value held is_k is_other differ h holds =
      let path = path_for fs root k in
      let done = written_under s path value (parent path) s' h in
      let held_before = read_error-eq-ok (fs.read s (path_for fs root other)) held holds in
      let held_between =
        keeps.creates s done.between done.dir (path_for fs root other) held done.created
          held_before in
      let held_after =
        keeps.keeps_others done.between s' path (path_for fs root other) value held
          (dir_components root) (names k) (names other) done.wrote
          (path_for-components k is_k open_end) (path_for-components other is_other open_end) differ
          held_between in
      (write_file_read_back keeps s s' k value h, ap read_error held_after)
