-- ===== src/Store/Load/Laws.antt =====
-- What `load_from_dir` of crates/store/src/lib.rs loads.
use ajar_gateway.Common.{
  ◌≡◌, refl, sym, ap, ◌∙◌, ◌↔◌, false, List, [], ◌∷◌, ◌++◌, ok, >>=-eq-ok, ok-injective, arith,
}
use mathlib.Core.List.{append-nil, append_assoc}
use ajar_gateway.Common.Map.{
  keys, insert_fresh, member-keys-append, HasDistinctKeys, HasDistinctKeys-append,
  HasDistinctKeys-fresh,
}
use ajar_gateway.Text.{Text, member}
use ajar_gateway.Store.Model.{StoredView}
use ajar_gateway.Store.FilePath.{FilePath}
use ajar_gateway.Store.Backend.{FileSystem}
use ajar_gateway.Store.Validate.{Serde}
use ajar_gateway.Store.Load.{Loaded, load_view, add_view, load_views}

module _ {Value S : Type 0} (serde : Serde Value) (fs : FileSystem S) (s : S)
    (path : FilePath) where
  -- The entries that the files give, one for each file and in their order.
  abbrev pub Entries : List FilePath → List (Text × StoredView) → Type 0
  Entries [] [] = Unit
  Entries [] (_ ∷ _) = ⊥
  Entries (_ ∷ _) [] = ⊥
  Entries (p ∷ ps) (e ∷ es) = (load_view serde fs s path p ≡ ok e) × Entries ps es

-- The set of the targets seen is the set of the keys.
abbrev SameKeys : Loaded → Type 0
SameKeys (views, seen) = (t : Text) → member t seen ≡ member t (keys views)

-- One step adds a pair with a new key.
add_view_lem :
    (views : List (Text × StoredView)) (seen : List Text) (e : Text × StoredView) (l : Loaded)
    → SameKeys (views, seen)
    → add_view (views, seen) e ≡ ok l
    → (member e.0 (keys views) ≡ false) × (l ≡ (views ++ e ∷ [], e.0 ∷ seen))
unfolding add_view
add_view_lem views seen (t, v) l same h = ground (arith, same t, insert_fresh t v views)

add_view_fresh :
    (views : List (Text × StoredView)) (seen : List Text) (e : Text × StoredView)
    → SameKeys (views, seen)
    → member e.0 (keys views) ≡ false
    → add_view (views, seen) e ≡ ok (views ++ e ∷ [], e.0 ∷ seen)
unfolding add_view
add_view_fresh views seen (t, v) same h = ground (arith, same t, insert_fresh t v views)

SameKeys-add :
    (views : List (Text × StoredView)) (seen : List Text) (e : Text × StoredView)
    → SameKeys (views, seen)
    → SameKeys (views ++ e ∷ [], e.0 ∷ seen)
SameKeys-add views seen (k, v) same t =
    ground (arith, same t, member-keys-append t views ((k, v) ∷ []))

module _ {Value S : Type 0} (serde : Serde Value) (fs : FileSystem S) (s : S)
    (path : FilePath) where
  -- What a run of `load_views` from `views` ends with.
  record Grown (ps : List FilePath) (views : List (Text × StoredView)) (l : Loaded) : Type 0 where
    entries : List (Text × StoredView)
    loaded : Entries serde fs s path ps entries
    whole : l.0 ≡ views ++ entries
    distinct : HasDistinctKeys (views ++ entries)

  load_views-Grown :
      (ps : List FilePath) (views : List (Text × StoredView)) (seen : List Text) (l : Loaded)
      → SameKeys (views, seen)
      → HasDistinctKeys views
      → load_views serde fs s path ps (views, seen) ≡ ok l
      → Grown ps views l
  unfolding load_views
  load_views-Grown [] views seen l same d h = record {
    entries = [];
    loaded = tt;
    whole = ap (λ (l : Loaded). l.0) (sym (ok-injective h)) ∙ sym (append-nil views);
    distinct = rw append-nil d;
  }
  load_views-Grown (p ∷ ps) views seen l same d h =
      let (e, loaded, h') = >>=-eq-ok (load_view serde fs s path p) _ h in
      let (next, added, rest) = >>=-eq-ok (add_view (views, seen) e) _ h' in
      let (fresh, next_is) = add_view_lem views seen e next same added in
      let g =
        load_views-Grown ps (views ++ e ∷ []) (e.0 ∷ seen) l (SameKeys-add views seen e same)
          (HasDistinctKeys-append e.0 e.1 views d fresh) (rw next_is at rest) in
      record {
        entries = e ∷ g.entries;
        loaded = (loaded, g.loaded);
        whole = g.whole ∙ append_assoc views (e ∷ []) g.entries;
        distinct = rw append_assoc at g.distinct;
      }

  Entries-load_views :
      (ps : List FilePath) (views entries : List (Text × StoredView)) (seen : List Text)
      → SameKeys (views, seen)
      → Entries serde fs s path ps entries
      → HasDistinctKeys (views ++ entries)
      → (seen' : List Text) × (load_views serde fs s path ps (views, seen)
          ≡ ok (views ++ entries, seen'))
  unfolding load_views
  Entries-load_views [] views [] seen same h d = (seen, rw append-nil)
  Entries-load_views [] views (e ∷ es) seen same h d = absurd h
  Entries-load_views (p ∷ ps) views [] seen same h d = absurd h
  Entries-load_views (p ∷ ps) views (e ∷ es) seen same (h, hs) d =
      let fresh = HasDistinctKeys-fresh e.0 e.1 views es d in
      let (seen', run) =
        Entries-load_views ps (views ++ e ∷ []) es (e.0 ∷ seen) (SameKeys-add views seen e same) hs
          (rw append_assoc d) in
      (
        seen',
        rw (h, add_view_fresh views seen e same fresh)
            (run ∙ ap (λ m. ok (m, seen')) (append_assoc views (e ∷ []) es)),
      )

  -- `load_views` succeeds on the files `ps` with the map `views` exactly if each file gives an entry,
  -- no two have the same request target, and `views` is these entries in the order of the files.
  pub load_views_iff :
      (ps : List FilePath) (views : List (Text × StoredView))
      → ((seen : List Text) × (load_views serde fs s path ps ([], []) ≡ ok (views, seen)))
        ↔ (Entries serde fs s path ps views × HasDistinctKeys views)
  load_views_iff ps views = (sound, λ h. Entries-load_views ps [] views [] (λ t. refl) h.0 h.1)
    where
      sound :
          (seen : List Text) × (load_views serde fs s path ps ([], []) ≡ ok (views, seen))
          → Entries serde fs s path ps views × HasDistinctKeys views
      sound (seen, h) =
          let g = load_views-Grown ps [] [] (views, seen) (λ t. refl) tt h in
          (rw g.whole g.loaded, rw g.whole g.distinct)
