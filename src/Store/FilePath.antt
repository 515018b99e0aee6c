-- ===== src/Store/FilePath.antt =====
-- Rust's `std::path` on Unix, as far as crates/store/src/lib.rs uses it. A path is its bytes.
pub mod Sort
pub mod Names
pub mod Below
pub mod Order
use ajar_gateway.Common.{
  ℕ, Bool, true, false, ◌&&◌, ◌||◌, Option, none, some, List, [], ◌∷◌, ◌++◌, ltb, leb, ◌==◌,
  if◌then◌else◌,
}
use ajar_gateway.Text.{codes, text_eq, is_empty, starts_with, split}

abbrev pub FilePath : Type 0
FilePath = List ℕ

abbrev pub ends_in_slash : FilePath → Bool
ends_in_slash [] = true
ends_in_slash (x ∷ []) = x == b'/'
ends_in_slash (x ∷ y ∷ s) = ends_in_slash (y ∷ s)

-- `join`: an absolute path replaces the base.
unfoldable pub join_path : FilePath → FilePath → FilePath
unfolding starts_with
join_path base name =
    if starts_with (codes "/") name
    then name
    else if ends_in_slash base
    then base ++ name
    else base ++ b'/' ∷ name

pub data Component : Type 0 where
  root_dir cur_dir parent_dir : Component
  normal : List ℕ → Component

-- The components behind the first: empty parts and `.` are passed over.
later_components : List (List ℕ) → List Component
unfolding text_eq
later_components [] = []
later_components (part ∷ parts) =
    let rest = later_components parts in
    if is_empty part || text_eq part (codes ".")
    then rest
    else if text_eq part (codes "..")
    then parent_dir ∷ rest
    else normal part ∷ rest

abbrev first_components : List (List ℕ) → List Component
first_components [] = []
first_components (part ∷ parts) =
    if text_eq part (codes ".")
    then cur_dir ∷ later_components parts
    else later_components (part ∷ parts)

-- `components`
unfoldable pub components : FilePath → List Component
unfolding later_components split starts_with
components path =
    if starts_with (codes "/") path
    then root_dir ∷ later_components (split b'/' path)
    else first_components (split b'/' path)

-- The last component, where it is a name.
abbrev last_name : List Component → Option (List ℕ)
last_name [] = none
last_name (normal name ∷ []) = some name
last_name (_ ∷ []) = none
last_name (_ ∷ next ∷ rest) = last_name (next ∷ rest)

-- `file_name`
unfoldable pub file_name : FilePath → Option (List ℕ)
unfolding components
file_name path = last_name (components path)

-- A path with the given components.
unfoldable pub from_later : List Component → FilePath
from_later [] = []
from_later (normal name ∷ []) = name
from_later (normal name ∷ next ∷ rest) = name ++ b'/' ∷ from_later (next ∷ rest)
from_later (parent_dir ∷ []) = codes ".."
from_later (parent_dir ∷ next ∷ rest) = codes "../" ++ from_later (next ∷ rest)
from_later (cur_dir ∷ []) = codes "."
from_later (cur_dir ∷ next ∷ rest) = codes "./" ++ from_later (next ∷ rest)
from_later (root_dir ∷ rest) = b'/' ∷ from_later rest

abbrev without_last : List Component → Option (List Component)
without_last [] = none
without_last (root_dir ∷ []) = none
without_last (_ ∷ []) = some []
without_last (c ∷ next ∷ rest) = elim (without_last (next ∷ rest)) [
  | none ↦ none
  | some before ↦ some (c ∷ before)
]

-- `parent`; the path that it returns equals the source's up to repeated slashes and `.` parts.
unfoldable pub parent : FilePath → Option FilePath
unfolding components from_later
parent path = elim (without_last (components path)) [
  | none ↦ none
  | some before ↦ some (from_later before)
]

-- What stands behind the last dot, if there is a dot.
after_last_dot : List ℕ → Option (List ℕ)
after_last_dot [] = none
after_last_dot (c ∷ s) = elim (after_last_dot s) [
  | some found ↦ some found
  | none ↦ if c == b'.' then some s else none
]

-- A dot at the start of a name begins no extension.
abbrev name_extension : Option (List ℕ) → Option (List ℕ)
name_extension none = none
name_extension (some []) = none
name_extension (some (c ∷ s)) = after_last_dot s

-- `extension`
unfoldable pub extension : FilePath → Option (List ℕ)
unfolding file_name after_last_dot
extension path = name_extension (file_name path)

abbrev rank : Component → ℕ
rank root_dir = 1
rank cur_dir = 2
rank parent_dir = 3
rank (normal _) = 4

-- `<=` on names: by bytes, a prefix first.
unfoldable pub bytes_leb : List ℕ → List ℕ → Bool
bytes_leb [] t = true
bytes_leb (x ∷ s) [] = false
bytes_leb (x ∷ s) (y ∷ t) = ltb x y || ((x == y) && bytes_leb s t)

abbrev pub same_component : Component → Component → Bool
same_component (normal s) (normal t) = text_eq s t
same_component c d = rank c == rank d

abbrev component_leb : Component → Component → Bool
component_leb (normal s) (normal t) = bytes_leb s t
component_leb c d = leb (rank c) (rank d)

unfoldable pub components_leb : List Component → List Component → Bool
components_leb [] ds = true
components_leb (c ∷ cs) [] = false
components_leb (c ∷ cs) (d ∷ ds) =
    let rest = components_leb cs ds in if same_component c d then rest else component_leb c d

-- `<=` on paths.
unfoldable pub path_leb : FilePath → FilePath → Bool
unfolding components components_leb bytes_leb text_eq
path_leb p q = components_leb (components p) (components q)

-- `sort`, which is stable.
unfoldable pub insert_path : FilePath → List FilePath → List FilePath
insert_path p [] = p ∷ []
insert_path p (q ∷ qs) = if path_leb p q then p ∷ q ∷ qs else q ∷ insert_path p qs

unfoldable pub sort_paths : List FilePath → List FilePath
unfolding insert_path path_leb
sort_paths [] = []
sort_paths (p ∷ ps) = insert_path p (sort_paths ps)
