-- ===== src/Text/Tests.antt =====
-- Runs of the text functions.
use ajar_gateway.Common.{◌≡◌, refl, none, some, [], ◌∷◌}
use ajar_gateway.Text.{
  codes, split, split_once, trim, trim_matches, to_ascii_lowercase, strip_prefix, from_first, utf8,
}
use ajar_gateway.Text.Number.{parse_u64, parse_f32, decimal, hex, nan, positive, not_positive}

text_runs :
    (split b',' (codes "a,,b") ≡ codes "a" ∷ [] ∷ codes "b" ∷ [])
    × (split_once b'=' (codes "q=1=2") ≡ (codes "q", some (codes "1=2")))
    × (split_once b'=' (codes "q") ≡ (codes "q", none))
    × (trim (codes " \ta b ") ≡ codes "a b")
    × (trim_matches b'"' (codes "\"0.5\"") ≡ codes "0.5")
    × (to_ascii_lowercase (codes "Text/HTML") ≡ codes "text/html")
    × (strip_prefix (codes "http://") (codes "http://x/y") ≡ some (codes "x/y"))
    × (from_first b'/' (codes "x/y") ≡ some (codes "/y"))
    × (utf8 (codes "é") ≡ 0xc3 ∷ 0xa9 ∷ [])
unfolding split split_once trim trim_matches to_ascii_lowercase strip_prefix from_first utf8
text_runs = (refl, refl, refl, refl, refl, refl, refl, refl, refl)

numbers :
    (parse_u64 (codes "+5") ≡ some 5)
    × (parse_u64 (codes "-5") ≡ none)
    × (parse_u64 (codes "18446744073709551616") ≡ none)
    × (parse_f32 (codes "0.7") ≡ some positive)
    × (parse_f32 (codes "1.") ≡ some positive)
    × (parse_f32 (codes "0") ≡ some not_positive)
    × (parse_f32 (codes "-1") ≡ some not_positive)
    × (parse_f32 (codes "1e-46") ≡ some not_positive)
    × (parse_f32 (codes "1e-45") ≡ some positive)
    × (parse_f32 (codes "1e") ≡ none)
    × (parse_f32 (codes ".") ≡ none)
    × (parse_f32 (codes "NaN") ≡ some nan)
    × (decimal 1203 ≡ codes "1203")
    × (hex 4 0xab3 ≡ codes "0ab3")
unfolding parse_u64 parse_f32 decimal hex
numbers = (refl, refl, refl, refl, refl, refl, refl, refl, refl, refl, refl, refl, refl, refl)
