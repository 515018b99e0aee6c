-- ===== src/Text.antt =====
-- The functions of Rust's `str` and `String` that the crates call. A text is the list of its code
-- points; its bytes are `utf8` of it.
pub mod Number
pub mod Decode
pub mod Laws
mod Tests
use Prim.Native.Char.{code}
use Prim.Native.String
use Prim.Native.String.{String}
use ajar_gateway.Common.{
  ℕ, ◌+◌, ◌-◌, ◌/◌, ◌%◌, Bool, true, false, ◌&&◌, ◌||◌, Option, none, some, List, [], ◌∷◌, ◌++◌,
  ltb, leb, ◌==◌, if◌then◌else◌, any,
}

abbrev pub Text : Type 0
Text = List ℕ

-- A string literal.
abbrev pub codes : String → Text
codes String.[] = []
codes (String.◌∷◌ c s) = code c ∷ codes s

-- `==` on strings.
unfoldable pub text_eq : Text → Text → Bool
text_eq [] [] = true
text_eq [] (y ∷ t) = false
text_eq (x ∷ s) [] = false
text_eq (x ∷ s) (y ∷ t) = (x == y) && text_eq s t

abbrev pub is_empty : Text → Bool
is_empty [] = true
is_empty (_ ∷ _) = false

-- The UTF-8 bytes of a code point.
abbrev pub encode : ℕ → List ℕ
encode c =
    if ltb c 0x80
    then c ∷ []
    else if ltb c 0x800
    then (0xc0 + c / 64) ∷ (0x80 + c % 64) ∷ []
    else if ltb c 0x1_0000
    then (0xe0 + c / 4096) ∷ (0x80 + c / 64 % 64) ∷ (0x80 + c % 64) ∷ []
    else (0xf0 + c / 262_144) ∷ (0x80 + c / 4096 % 64) ∷ (0x80 + c / 64 % 64) ∷ (0x80 + c % 64) ∷ []

-- `as_bytes`
unfoldable pub utf8 : Text → List ℕ
utf8 [] = []
utf8 (c ∷ s) = encode c ++ utf8 s

abbrev longer : ℕ → List Text → List Text
longer x [] = (x ∷ []) ∷ []
longer x (part ∷ parts) = (x ∷ part) ∷ parts

-- `split(c)` for one character; the result has at least one part.
unfoldable pub split : ℕ → Text → List Text
split c [] = [] ∷ []
split c (x ∷ s) = let parts = split c s in if x == c then [] ∷ parts else longer x parts

-- `splitn(2, c)`: what stands before the first `c`, and what stands behind it, if there is one.
unfoldable pub split_once : ℕ → Text → Text × Option Text
split_once c [] = ([], none)
split_once c (x ∷ s) =
    let (before, behind) = split_once c s in if x == c then ([], some s) else (x ∷ before, behind)

-- `char::is_whitespace`, the Unicode property White_Space.
pub is_whitespace : ℕ → Bool
is_whitespace c =
    (leb 9 c && leb c 13)
    || (c == 0x20)
    || (c == 0x85)
    || (c == 0xa0)
    || (c == 0x1680)
    || (leb 0x2000 c && leb c 0x200a)
    || (c == 0x2028)
    || (c == 0x2029)
    || (c == 0x202f)
    || (c == 0x205f)
    || (c == 0x3000)

-- `trim_start_matches` and `trim_end_matches` for a class of characters.
unfoldable pub trim_start : (ℕ → Bool) → Text → Text
trim_start drops [] = []
trim_start drops (x ∷ s) = let rest = trim_start drops s in if drops x then rest else x ∷ s

unfoldable pub trim_end : (ℕ → Bool) → Text → Text
trim_end drops [] = []
trim_end drops (x ∷ s) =
    let rest = trim_end drops s in if is_empty rest && drops x then [] else x ∷ rest

-- `trim`
unfoldable pub trim : Text → Text
unfolding trim_start trim_end is_whitespace
trim s = trim_end is_whitespace (trim_start is_whitespace s)

-- `trim_matches(c)` for one character.
unfoldable pub trim_matches : ℕ → Text → Text
unfolding trim_start trim_end
trim_matches c s = trim_end (λ x. x == c) (trim_start (λ x. x == c) s)

abbrev pub lower : ℕ → ℕ
lower c = if leb 0x41 c && leb c 0x5a then c + 0x20 else c

-- `to_ascii_lowercase`
unfoldable pub to_ascii_lowercase : Text → Text
to_ascii_lowercase [] = []
to_ascii_lowercase (x ∷ s) = lower x ∷ to_ascii_lowercase s

-- `eq_ignore_ascii_case`
unfoldable pub eq_ignore_ascii_case : Text → Text → Bool
unfolding text_eq to_ascii_lowercase
eq_ignore_ascii_case s t = text_eq (to_ascii_lowercase s) (to_ascii_lowercase t)

-- `strip_prefix`
unfoldable pub strip_prefix : Text → Text → Option Text
strip_prefix [] s = some s
strip_prefix (p ∷ ps) [] = none
strip_prefix (p ∷ ps) (x ∷ s) = if p == x then strip_prefix ps s else none

-- `starts_with`
unfoldable pub starts_with : Text → Text → Bool
starts_with [] s = true
starts_with (p ∷ ps) [] = false
starts_with (p ∷ ps) (x ∷ s) = (p == x) && starts_with ps s

-- The text from the first `c` on: `find(c)` and the slice from there.
unfoldable pub from_first : ℕ → Text → Option Text
from_first c [] = none
from_first c (x ∷ s) = let rest = from_first c s in if x == c then some (x ∷ s) else rest

-- `join(separator)`
unfoldable pub join : Text → List Text → Text
join separator [] = []
join separator (part ∷ []) = part
join separator (part ∷ next ∷ parts) = part ++ separator ++ join separator (next ∷ parts)

-- Membership by `==`.
abbrev pub member : Text → List Text → Bool
member s texts = any (text_eq s) texts
