-- ===== src/Store/FilePath/Names.antt =====
-- Names of directory entries in paths, as crates/store/src/lib.rs joins them and takes them off.
use ajar_gateway.Common.{
  ℕ, ◌≡◌, refl, ap, ◌∙◌, false, ◌||◌, some, List, [], ◌∷◌, ◌++◌, ◌==◌, if◌then◌else◌, Bool-cases,
  inl, inr, ==_refl, arith,
}
use ajar_gateway.Text.{Text, codes, text_eq, is_empty, starts_with, split}
use ajar_gateway.Text.Laws.{Lacks}
use ajar_gateway.Store.FilePath.{
  FilePath, Component, root_dir, cur_dir, normal, ends_in_slash, join_path, later_components,
  first_components, components, last_name, file_name,
}

-- The name of an entry of a directory.
pub record IsName (name : List ℕ) : Type 0 where
  pub some_byte : is_empty name ≡ false
  pub no_slash : Lacks b'/' name
  pub not_here : text_eq name (codes ".") ≡ false
  pub not_up : text_eq name (codes "..") ≡ false

split-Lacks : (c : ℕ) (s : Text) → Lacks c s → split c s ≡ s ∷ []
unfolding split
split-Lacks c [] h = refl
split-Lacks c (x ∷ s) (p, h) = ground (arith, split-Lacks c s h)

-- A text has a first part.
record HasPart (parts : List Text) : Type 0 where
  first : Text
  others : List Text
  parts_are : parts ≡ first ∷ others

split-HasPart : (c : ℕ) (s : Text) → HasPart (split c s)
unfolding split
split-HasPart c [] = record { first = []; others = []; parts_are = refl }
split-HasPart c (x ∷ s) = elim (Bool-cases (x == c)) [
  | inl same ↦ record { first = []; others = split c s; parts_are = rw (same, split) refl }
  | inr other ↦
      let h = split-HasPart c s in
      record {
        first = x ∷ h.first;
        others = h.others;
        parts_are = rw (other, split, h.parts_are) refl;
      }
]

split-append : (c : ℕ) (s t : Text) → Lacks c t → split c (s ++ c ∷ t) ≡ split c s ++ t ∷ []
unfolding split
split-append c [] t h = rw (==_refl c) (ap (λ (p : List Text). [] ∷ p) (split-Lacks c t h))
split-append c (x ∷ s) t h = elim (Bool-cases (x == c)) [
  | inl same ↦ rw (same, split-append c s t h) refl
  | inr other ↦
      let part = split-HasPart c s in rw (other, split-append c s t h, part.parts_are) refl
]

later_components-name :
    (name : List ℕ) → IsName name → later_components (name ∷ []) ≡ normal name ∷ []
unfolding later_components
later_components-name name n = rw (n.some_byte, n.not_here, n.not_up) refl

later_components-append :
    (parts : List Text) (name : List ℕ)
    → IsName name
    → later_components (parts ++ name ∷ []) ≡ later_components parts ++ normal name ∷ []
unfolding later_components
later_components-append [] name n = later_components-name name n
later_components-append (part ∷ parts) name n =
    elim (Bool-cases (is_empty part || text_eq part (codes "."))) [
      | inl skipped ↦ rw (skipped, later_components-append parts name n) refl
      | inr kept ↦ elim (Bool-cases (text_eq part (codes ".."))) [
        | inl up ↦ rw (kept, up, later_components-append parts name n) refl
        | inr down ↦ rw (kept, down, later_components-append parts name n) refl
      ]
    ]

last_name-append :
    (cs : List Component) (name : List ℕ) → last_name (cs ++ normal name ∷ []) ≡ some name
last_name-append [] name = refl
last_name-append (c ∷ []) name = refl
last_name-append (c ∷ d ∷ cs) name = last_name-append (d ∷ cs) name

first_components-append :
    (parts : List Text) (name : List ℕ)
    → IsName name
    → HasPart parts
    → first_components (parts ++ name ∷ []) ≡ first_components parts ++ normal name ∷ []
first_components-append parts name n part =
    rw part.parts_are (elim (Bool-cases (text_eq part.first (codes "."))) [
      | inl here ↦
          rw here (
            ap (λ (cs : List Component). cur_dir ∷ cs) (later_components-append part.others name n))
      | inr other ↦ rw other (later_components-append (part.first ∷ part.others) name n)
    ])

-- The components of a directory, its entries behind a slash.
pub dir_components : FilePath → List Component
unfolding starts_with
dir_components base =
    if starts_with (codes "/") (base ++ b'/' ∷ [])
    then root_dir ∷ later_components (split b'/' base)
    else first_components (split b'/' base)

root-append :
    (base : FilePath) (name : List ℕ)
    → starts_with (codes "/") (base ++ b'/' ∷ name) ≡ starts_with (codes "/") (base ++ b'/' ∷ [])
unfolding starts_with
root-append [] name = refl
root-append (x ∷ base) name = refl

-- The name behind the last slash is one component more than the directory has.
pub components-append :
    (base : FilePath) (name : List ℕ)
    → IsName name
    → components (base ++ b'/' ∷ name) ≡ dir_components base ++ normal name ∷ []
unfolding components dir_components
components-append base name n =
    rw (split-append b'/' base name n.no_slash, root-append base name)
      (elim (Bool-cases (starts_with (codes "/") (base ++ b'/' ∷ []))) [
        | inl absolute ↦ rw absolute (
            ap (λ (cs : List Component). root_dir ∷ cs)
              (later_components-append (split b'/' base) name n))
        | inr relative ↦
            rw relative (first_components-append (split b'/' base) name n (split-HasPart b'/' base))
      ])

-- A path that ends in a name is a directory of the same components.
pub dir_components-name :
    (base : FilePath) (name : List ℕ)
    → dir_components (base ++ b'/' ∷ name) ≡ components (base ++ b'/' ∷ name)
unfolding components dir_components starts_with
dir_components-name [] name = refl
dir_components-name (x ∷ base) name = refl

-- The name behind the last slash is the name of the file.
pub file_name-append :
    (base : FilePath) (name : List ℕ) → IsName name → file_name (base ++ b'/' ∷ name) ≡ some name
unfolding file_name
file_name-append base name n =
    ap last_name (components-append base name n) ∙ last_name-append (dir_components base) name

no_slash_first : (name : List ℕ) → IsName name → starts_with (codes "/") name ≡ false
unfolding starts_with
no_slash_first [] n = refl
no_slash_first (x ∷ name) n = ground (arith, n.no_slash)

-- A name is put behind a slash, where the base does not end in one.
pub join_path-name :
    (base : FilePath) (name : List ℕ)
    → IsName name
    → ends_in_slash base ≡ false
    → join_path base name ≡ base ++ b'/' ∷ name
unfolding join_path
join_path-name base name n open_end = rw (no_slash_first name n, open_end) refl

pub ends_in_slash-append :
    (s : FilePath) (x : ℕ) (t : FilePath) → ends_in_slash (s ++ x ∷ t) ≡ ends_in_slash (x ∷ t)
ends_in_slash-append [] x t = refl
ends_in_slash-append (y ∷ []) x t = refl
ends_in_slash-append (y ∷ z ∷ s) x t = ends_in_slash-append (z ∷ s) x t
