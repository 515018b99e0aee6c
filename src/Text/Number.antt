-- ===== src/Text/Number.antt =====
-- Numbers read from text and written to text: `parse::<u64>`, `parse::<f32>`, `{}` and `{:016x}`.
-- Of an `f32` the crates only ask whether it is `<= 0.0`, so a parsed one is its class. The
-- parser's digits, fraction and exponent are exact; a positive decimal rounds to 0 as an `f32`
-- just when it is at most 2 ^ -150, half of the least positive `f32`.
pub mod Laws
pub mod Plain
use ajar_gateway.Common.{
  ℕ, zero, suc, ◌+◌, ◌-◌, ◌*◌, ◌/◌, ◌%◌, ◌^◌, Bool, true, false, ◌&&◌, ◌||◌, Option, none, some, [],
  ◌∷◌, ◌++◌, ltb, leb, ◌==◌, if◌then◌else◌,
}
use ajar_gateway.Text.{Text, codes, is_empty, eq_ignore_ascii_case}

abbrev pub is_digit : ℕ → Bool
is_digit c = leb b'0' c && leb c b'9'

-- The value of the leading digits on top of `value`, their number on top of `count`, and the rest.
unfoldable pub take_digits : Text → ℕ → ℕ → ℕ × ℕ × Text
take_digits [] value count = (value, count, [])
take_digits (c ∷ s) value count =
    let more = take_digits s (value * 10 + (c - b'0')) (count + 1) in
    if is_digit c then more else (value, count, c ∷ s)

abbrev whole_number : ℕ × ℕ × Text → Option ℕ
whole_number (value, count, rest) =
    if ltb 0 count && is_empty rest && ltb value (2 ^ 64) then some value else none

-- `parse::<u64>`: decimal digits, one `+` allowed before them, and no overflow.
unfoldable pub parse_u64 : Text → Option ℕ
unfolding take_digits
parse_u64 [] = none
parse_u64 (c ∷ s) = whole_number (take_digits (if c == b'+' then s else c ∷ s) 0 0)

-- The classes of an `f32`: not a number, greater than 0.0, and less than or equal to 0.0.
pub data Float : Type 0 where
  nan positive not_positive : Float

-- mantissa * 10 ^ (sign exponent - places) > 2 ^ -150
abbrev exceeds_half_least : ℕ → ℕ → Bool → ℕ → Bool
exceeds_half_least mantissa places negative exponent =
    if negative
    then ltb (10 ^ (places + exponent)) (mantissa * 2 ^ 150)
    else ltb (10 ^ (places - exponent)) (mantissa * 2 ^ 150)

-- What stands behind `e`: a sign if any, and digits to the end of the text.
abbrev exponent_digits : Bool → ℕ × ℕ × Text → Option (Bool × ℕ)
exponent_digits negative (value, count, rest) =
    if ltb 0 count && is_empty rest then some (negative, value) else none

signed_exponent : Text → Option (Bool × ℕ)
unfolding take_digits
signed_exponent [] = none
signed_exponent (c ∷ s) =
    if c == b'-'
    then exponent_digits true (take_digits s 0 0)
    else if c == b'+'
    then exponent_digits false (take_digits s 0 0)
    else exponent_digits false (take_digits (c ∷ s) 0 0)

-- The exponent part, which may be left out.
exponent_part : Text → Option (Bool × ℕ)
unfolding signed_exponent
exponent_part [] = some (false, 0)
exponent_part (c ∷ s) = if (c == b'e') || (c == b'E') then signed_exponent s else none

abbrev with_exponent : ℕ → ℕ → Option (Bool × ℕ) → Option Bool
with_exponent mantissa places none = none
with_exponent mantissa places (some (negative, exponent)) =
    some (exceeds_half_least mantissa places negative exponent)

-- The digits behind the point, read on top of those before it.
abbrev after_fraction : ℕ → ℕ × ℕ × Text → Option Bool
after_fraction whole (mantissa, count, rest) =
    if ltb 0 count then with_exponent mantissa (count - whole) (exponent_part rest) else none

abbrev after_whole : ℕ × ℕ × Text → Option Bool
after_whole (mantissa, count, []) = after_fraction count (mantissa, count, [])
after_whole (mantissa, count, c ∷ s) =
    if c == b'.'
    then after_fraction count (take_digits s mantissa count)
    else after_fraction count (mantissa, count, c ∷ s)

-- Whether an unsigned decimal is above 0 as an `f32`, if it is one.
unsigned_decimal : Text → Option Bool
unfolding take_digits exponent_part
unsigned_decimal s = after_whole (take_digits s 0 0)

abbrev named_float : Text → Bool → Option Float
named_float s negative =
    if eq_ignore_ascii_case s (codes "nan")
    then some nan
    else if eq_ignore_ascii_case s (codes "inf") || eq_ignore_ascii_case s (codes "infinity")
    then some (if negative then not_positive else positive)
    else none

abbrev unsigned_float : Text → Bool → Option Float
unsigned_float s negative = elim (unsigned_decimal s) [
  | none ↦ named_float s negative
  | some above ↦ some (if negative then not_positive else if above then positive else not_positive)
]

-- `parse::<f32>`
unfoldable pub parse_f32 : Text → Option Float
unfolding unsigned_decimal eq_ignore_ascii_case
parse_f32 [] = none
parse_f32 (c ∷ s) =
    if c == b'-'
    then unsigned_float s true
    else if c == b'+'
    then unsigned_float s false
    else unsigned_float (c ∷ s) false

-- `{}` of an unsigned number; each round drops a digit, so `n + 1` rounds are enough.
pub decimal_from : ℕ → ℕ → Text
decimal_from zero n = []
decimal_from (suc fuel) n = elim (ltb n 10) [
  | true ↦ (b'0' + n) ∷ []
  | false ↦ decimal_from fuel (n / 10) ++ (b'0' + n % 10) ∷ []
]

unfoldable pub decimal : ℕ → Text
unfolding decimal_from
decimal n = decimal_from (suc n) n

abbrev pub hex_digit : ℕ → ℕ
hex_digit d = if ltb d 10 then b'0' + d else b'a' + (d - 10)

-- The last `width` hexadecimal digits: `{:016x}` at width 16 of a `u64`.
unfoldable pub hex : ℕ → ℕ → Text
hex zero n = []
hex (suc width) n = hex width (n / 16) ++ hex_digit (n % 16) ∷ []
