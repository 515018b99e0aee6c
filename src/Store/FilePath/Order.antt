-- ===== src/Store/FilePath/Order.antt =====
-- The order of `sort` on the paths of one directory, in crates/store/src/lib.rs: that of the names.
use mathlib.Core.Path.{ap₂}
use ajar_gateway.Common.{
  ℕ, ◌≡◌, refl, sym, ap, ◌∙◌, true, false, List, [], ◌∷◌, ◌++◌, map, arith, if◌then◌else◌, subst,
  Bool-cases, inl, inr, All, if_lem,
}
use ajar_gateway.Text.{text_eq}
use ajar_gateway.Text.Laws.{text_eq_iff, text_eq_refl}
use ajar_gateway.Store.FilePath.{
  FilePath, Component, normal, root_dir, join_path, ends_in_slash, bytes_leb, components_leb,
  same_component, cur_dir, parent_dir, path_leb, insert_path, sort_paths,
}
use ajar_gateway.Store.FilePath.Names.{IsName, join_path-name, dir_components, components-append}

bytes_leb_total : (s t : List ℕ) → bytes_leb s t ≡ false → bytes_leb t s ≡ true
unfolding bytes_leb
bytes_leb_total [] t h = absurd (cc)
bytes_leb_total (x ∷ s) [] h = refl
bytes_leb_total (x ∷ s) (y ∷ t) h = ground (arith, h, bytes_leb_total s t)

bytes_leb_antisymm : (s t : List ℕ) → bytes_leb s t ≡ true → bytes_leb t s ≡ true → s ≡ t
unfolding bytes_leb
bytes_leb_antisymm [] [] h k = refl
bytes_leb_antisymm [] (y ∷ t) h k = absurd (cc)
bytes_leb_antisymm (x ∷ s) [] h k = absurd (cc)
bytes_leb_antisymm (x ∷ s) (y ∷ t) h k =
    let heads : x ≡ y = ground arith in
    let later : bytes_leb s t ≡ true = ground arith in
    let sooner : bytes_leb t s ≡ true = ground arith in
    ap₂ ◌∷◌ heads (bytes_leb_antisymm s t later sooner)

bytes_leb_trans :
    (s t u : List ℕ) → bytes_leb s t ≡ true → bytes_leb t u ≡ true → bytes_leb s u ≡ true
unfolding bytes_leb
bytes_leb_trans [] t u h k = refl
bytes_leb_trans (x ∷ s) [] u h k = absurd (cc)
bytes_leb_trans (x ∷ s) (y ∷ t) [] h k = absurd (cc)
bytes_leb_trans (x ∷ s) (y ∷ t) (z ∷ u) h k = ground (arith, h, k, bytes_leb_trans s t u)

-- Insertion sort on names.
unfoldable pub insert_name : List ℕ → List (List ℕ) → List (List ℕ)
insert_name s [] = s ∷ []
insert_name s (t ∷ names) = if bytes_leb s t then s ∷ t ∷ names else t ∷ insert_name s names

unfoldable pub sort_names : List (List ℕ) → List (List ℕ)
unfolding insert_name
sort_names [] = []
sort_names (s ∷ names) = insert_name s (sort_names names)

-- A smaller name and a greater one.
insert_name_lt :
    (s t : List ℕ) (names : List (List ℕ))
    → bytes_leb s t ≡ true
    → bytes_leb t s ≡ false
    → insert_name s (insert_name t names) ≡ insert_name t (insert_name s names)
unfolding insert_name
insert_name_lt s t [] st ts = rw (st, ts) refl
insert_name_lt s t (u ∷ names) st ts = elim (Bool-cases (bytes_leb t u)) [
  | inl tu ↦ rw (tu, bytes_leb_trans s t u st tu, insert_name, st, ts, tu) refl
  | inr ut ↦ elim (Bool-cases (bytes_leb s u)) [
    | inl su ↦ rw (ut, su, insert_name, ts, ut) refl
    | inr us ↦ rw (ut, us, insert_name, ut, insert_name_lt s t names st ts) refl
  ]
]

-- The order in which names are inserted does not matter.
pub insert_name_comm :
    (s t : List ℕ) (names : List (List ℕ))
    → insert_name s (insert_name t names) ≡ insert_name t (insert_name s names)
insert_name_comm s t names = elim (Bool-cases (bytes_leb s t)) [
  | inl st ↦ elim (Bool-cases (bytes_leb t s)) [
    | inl ts ↦
        subst
          (λ (u : List ℕ).
            insert_name s (insert_name u names) ≡ insert_name u (insert_name s names))
          (bytes_leb_antisymm s t st ts) refl
    | inr ts ↦ insert_name_lt s t names st ts
  ]
  | inr st ↦ sym (insert_name_lt t s names (bytes_leb_total s t st) st)
]

bytes_leb_refl : (s : List ℕ) → bytes_leb s s ≡ true
bytes_leb_refl s = elim (Bool-cases (bytes_leb s s)) [ inl h ↦ h | inr h ↦ bytes_leb_total s s h ]

same_component_refl : (c : Component) → same_component c c ≡ true
same_component_refl root_dir = refl
same_component_refl cur_dir = refl
same_component_refl parent_dir = refl
same_component_refl (normal s) = text_eq_refl s

-- Where only the last names differ, the names are compared.
components_leb-append :
    (cs : List Component) (s t : List ℕ)
    → components_leb (cs ++ normal s ∷ []) (cs ++ normal t ∷ []) ≡ bytes_leb s t
unfolding components_leb
components_leb-append [] s t = elim (Bool-cases (text_eq s t)) [
  | inl same ↦ rw same (
      subst (λ (u : List ℕ). true ≡ bytes_leb s u) ((text_eq_iff s t).0 same)
        (sym (bytes_leb_refl s)))
  | inr other ↦ rw other refl
]
components_leb-append (c ∷ cs) s t = rw (same_component_refl c, components_leb-append cs s t) refl

module _ (base : FilePath) (open_end : ends_in_slash base ≡ false) where
  path_leb-join_path :
      (s t : List ℕ)
      → IsName s
      → IsName t
      → path_leb (join_path base s) (join_path base t) ≡ bytes_leb s t
  unfolding path_leb
  path_leb-join_path s t m n =
      rw
        (
          join_path-name base s m open_end,
          join_path-name base t n open_end,
          components-append base s m,
          components-append base t n,
        )
        (components_leb-append (dir_components base) s t)

  insert_path-join_path :
      (s : List ℕ) (names : List (List ℕ))
      → IsName s
      → All IsName names
      → insert_path (join_path base s) (map (join_path base) names)
        ≡ map (join_path base) (insert_name s names)
  unfolding insert_path insert_name
  insert_path-join_path s [] n h = refl
  insert_path-join_path s (t ∷ names) n (m, h) = elim (Bool-cases (bytes_leb s t)) [
    | inl here ↦ rw (path_leb-join_path s t n m, here) refl
    | inr later ↦ rw (path_leb-join_path s t n m, later, insert_path-join_path s names n h) refl
  ]

  insert_name-IsName :
      (s : List ℕ) (names : List (List ℕ))
      → IsName s
      → All IsName names
      → All IsName (insert_name s names)
  unfolding insert_name
  insert_name-IsName s [] n h = (n, tt)
  insert_name-IsName s (t ∷ names) n (m, h) =
      if_lem (All IsName) (bytes_leb s t) _ _ (λ _. (n, (m, h)))
        (λ _. (m, insert_name-IsName s names n h))

  sort_names-IsName : (names : List (List ℕ)) → All IsName names → All IsName (sort_names names)
  unfolding sort_names
  sort_names-IsName [] h = tt
  sort_names-IsName (s ∷ names) (n, h) =
      insert_name-IsName s (sort_names names) n (sort_names-IsName names h)

  -- The entries of one directory are sorted by their names.
  pub sort_paths-join_path :
      (names : List (List ℕ))
      → All IsName names
      → sort_paths (map (join_path base) names) ≡ map (join_path base) (sort_names names)
  unfolding sort_paths sort_names
  sort_paths-join_path [] h = refl
  sort_paths-join_path (s ∷ names) (n, h) =
      ap (insert_path (join_path base s)) (sort_paths-join_path names h)
      ∙ insert_path-join_path s (sort_names names) n (sort_names-IsName names h)
