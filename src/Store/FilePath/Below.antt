-- ===== src/Store/FilePath/Below.antt =====
-- Paths of the form `base/m/n`, as crates/store/src/lib.rs builds them for the keys of a store.
use ajar_gateway.Common.{ℕ, ◌≡◌, refl, ap, ◌∙◌, false, List, [], ◌∷◌, ◌++◌, arith}
use ajar_gateway.Text.{is_empty}
use ajar_gateway.Text.Laws.{Lacks}
use ajar_gateway.Store.FilePath.{FilePath, Component, normal, ends_in_slash, join_path, components}
use ajar_gateway.Store.FilePath.Names.{
  IsName, dir_components, dir_components-name, components-append, join_path-name,
  ends_in_slash-append,
}

open_name : (m : List ℕ) → is_empty m ≡ false → Lacks b'/' m → ends_in_slash m ≡ false
open_name [] some_byte lacks = cc
open_name (x ∷ []) some_byte (other, _) = ground (arith, other)
open_name (x ∷ y ∷ m) some_byte (_, lacks) = open_name (y ∷ m) refl lacks

name-open : (base : FilePath) (m : List ℕ) → IsName m → ends_in_slash (base ++ b'/' ∷ m) ≡ false
name-open base [] n = absurd (ground (arith, n.some_byte))
name-open base (x ∷ m) n =
    ends_in_slash-append base b'/' (x ∷ m) ∙ open_name (x ∷ m) n.some_byte n.no_slash

append_assoc : (xs ys zs : List Component) → (xs ++ ys) ++ zs ≡ xs ++ (ys ++ zs)
append_assoc [] ys zs = refl
append_assoc (x ∷ xs) ys zs = ap (λ cs. x ∷ cs) (append_assoc xs ys zs)

-- Two names below a directory.
pub join_path-join_path :
    (base : FilePath) (m n : List ℕ)
    → IsName m
    → IsName n
    → ends_in_slash base ≡ false
    → components (join_path (join_path base m) n) ≡ dir_components base ++ normal m ∷ normal n ∷ []
join_path-join_path base m n is_m is_n open_end =
    ap (λ p. components (join_path p n)) (join_path-name base m is_m open_end)
    ∙ ap components (join_path-name (base ++ b'/' ∷ m) n is_n (name-open base m is_m))
    ∙ components-append (base ++ b'/' ∷ m) n is_n
    ∙ ap (λ cs. cs ++ normal n ∷ []) (dir_components-name base m)
    ∙ ap (λ cs. cs ++ normal n ∷ []) (components-append base m is_m)
    ∙ append_assoc (dir_components base) (normal m ∷ []) (normal n ∷ [])
