-- ===== src/Store/Load/Files.antt =====
-- From the files of the directory to the entries of the map, in crates/store/src/lib.rs.
use ajar_gateway.Common.{◌≡◌, sym, ◌∙◌, ap, inl, inr, List, [], ◌∷◌, some, ok, Some, ok-injective}
use ajar_gateway.Common.Int.{ℤ}
use ajar_gateway.Common.Map.{lookup-eq-some_iff}
use ajar_gateway.Text.{Text}
use ajar_gateway.Store.Model.{StoredView}
use ajar_gateway.Store.FilePath.{FilePath, sort_paths}
use ajar_gateway.Store.FilePath.Sort.{Some-sort_paths}
use ajar_gateway.Store.Backend.{FileSystem}
use ajar_gateway.Store.Validate.{Serde}
use ajar_gateway.Store.Load.{PreparedContentStore, load_view, view_for_request_target}
use ajar_gateway.Store.Load.Laws.{Entries}
use ajar_gateway.Store.Load.Prepared.{IsPrepared}

module _ {Value S : Type 0} (serde : Serde Value) (fs : FileSystem S) (s : S)
    (path : FilePath) where
  -- The entry of a file is among the entries.
  Some-Entries :
      (file : FilePath) (e : Text × StoredView) (ps : List FilePath) (es : List (Text × StoredView))
      → load_view serde fs s path file ≡ ok e
      → Some (λ p. p ≡ file) ps
      → Entries serde fs s path ps es
      → Some (λ x. x ≡ e) es
  Some-Entries file e [] es loads h entries = absurd h
  Some-Entries file e (p ∷ ps) [] loads h entries = absurd entries
  Some-Entries file e (p ∷ ps) (x ∷ es) loads (inl same) (here, later) =
      inl (ok-injective (sym here ∙ ap (load_view serde fs s path) same ∙ loads))
  Some-Entries file e (p ∷ ps) (x ∷ es) loads (inr h) (here, later) =
      inr (Some-Entries file e ps es loads h later)

  -- A file that the directory listed is found under its request target.
  pub IsPrepared-view_for_request_target :
      (now : ℤ) (store : PreparedContentStore Value) (file : FilePath) (target : Text)
      (view : StoredView)
      → (prepared : IsPrepared serde fs s path now store) → Some (λ p. p ≡ file) prepared.files
      → load_view serde fs s path file ≡ ok (target, view)
      → view_for_request_target store target ≡ some view
  unfolding view_for_request_target
  IsPrepared-view_for_request_target now store file target view prepared listed loads =
      (lookup-eq-some_iff target view store.views_by_request_target prepared.distinct).1 (
        Some-Entries file (target, view) (sort_paths prepared.files) store.views_by_request_target
          loads (Some-sort_paths (λ p. p ≡ file) prepared.files listed) prepared.entries)
