-- ===== src/Store/Time/Fields.antt =====
-- The fields of a timestamp and their text, in crates/store/src/lib.rs.
use ajar_gateway.Common.{ℕ, ◌+◌, ◌/◌, ◌%◌, ◌≤◌, ◌<◌, ◌≡◌, ◌↔◌, true, arith, [], ◌∷◌, some, ok}
use ajar_gateway.Common.Int.{ℤ}
use ajar_gateway.Text.{Text}
use ajar_gateway.Store.Time.{
  parse_digits, digits_onto, require, fields_in_range, seconds_from_civil, parse_bytes,
}

-- A number by two, and by four, decimal digits.
abbrev pub two_digits : ℕ → Text → Text
two_digits n rest = (b'0' + n / 10) ∷ (b'0' + n % 10) ∷ rest

abbrev pub four_digits : ℕ → Text → Text
four_digits n rest = two_digits (n / 100) (two_digits (n % 100) rest)

pub record Fields : Type 0 where
  pub year : ℕ
  pub month : ℕ
  pub day : ℕ
  pub hour : ℕ
  pub minute : ℕ
  pub second : ℕ

-- The text of a timestamp.
unfoldable pub timestamp : Fields → Text
timestamp f = four_digits f.year (
    b'-'
    ∷ two_digits f.month (
        b'-'
        ∷ two_digits f.day (
            b'T'
            ∷ two_digits f.hour
                (b':' ∷ two_digits f.minute (b':' ∷ two_digits f.second (b'Z' ∷ []))))))

pub record InRange (f : Fields) : Type 0 where
  pub year_in : f.year < 10_000
  pub month_in : (1 ≤ f.month) × (f.month ≤ 12)
  pub day_in : (1 ≤ f.day) × (f.day ≤ 31)
  pub hour_in : f.hour ≤ 23
  pub minute_in : f.minute ≤ 59
  pub second_in : f.second ≤ 59

abbrev pub seconds : Fields → ℤ
seconds f = seconds_from_civil f.year f.month f.day f.hour f.minute f.second

pub parse_digits-two :
    (a b n : ℕ)
    → (parse_digits (a ∷ b ∷ []) ≡ ok n)
    → (a ≡ b'0' + n / 10) × (b ≡ b'0' + n % 10) × (n < 100)
unfolding parse_digits digits_onto
parse_digits-two a b n h = ground arith

pub two_digits-parse : (n : ℕ) → n < 100 → parse_digits (two_digits n []) ≡ ok n
unfolding parse_digits digits_onto
two_digits-parse n h = ground arith

pub parse_digits-four :
    (a b c d n : ℕ)
    → (parse_digits (a ∷ b ∷ c ∷ d ∷ []) ≡ ok n)
    → (a ≡ b'0' + n / 100 / 10)
      × (b ≡ b'0' + n / 100 % 10)
      × (c ≡ b'0' + n % 100 / 10)
      × (d ≡ b'0' + n % 100 % 10)
      × (n < 10_000)
unfolding parse_digits digits_onto
parse_digits-four a b c d n h = ground arith

pub four_digits-parse : (n : ℕ) → n < 10_000 → parse_digits (four_digits n []) ≡ ok n
unfolding parse_digits digits_onto
four_digits-parse n h = ground arith

pub require_lem : (a b : ℕ) (u : Unit {0}) → require (some a) b ≡ ok u → a ≡ b
unfolding require
require_lem a b u h = ground arith

-- A timestamp's text with another last character than Z.
unfoldable pub stamp : Fields → ℕ → Text
stamp f z = four_digits f.year (
    b'-'
    ∷ two_digits f.month (
        b'-'
        ∷ two_digits f.day (
            b'T'
            ∷ two_digits f.hour
                (b':' ∷ two_digits f.minute (b':' ∷ two_digits f.second (z ∷ []))))))

pub fields_in_range_iff :
    (mo d h mi se : ℕ)
    → (fields_in_range mo d h mi se ≡ true)
      ↔ (((1 ≤ mo) × (mo ≤ 12)) × ((1 ≤ d) × (d ≤ 31)) × (h ≤ 23) × (mi ≤ 59) × (se ≤ 59))
fields_in_range_iff mo d h mi se = ground arith

pub parse_bytes-stamp : (f : Fields) (z : ℕ) → InRange f → parse_bytes (stamp f z) ≡ ok (seconds f)
unfolding parse_bytes stamp require
parse_bytes-stamp f z v =
    let ranges =
      (fields_in_range_iff f.month f.day f.hour f.minute f.second).1
        (v.month_in, v.day_in, v.hour_in, v.minute_in, v.second_in) in
    rw (
      four_digits-parse f.year v.year_in,
      two_digits-parse f.month (omega arith),
      two_digits-parse f.day (omega arith),
      two_digits-parse f.hour (omega arith),
      two_digits-parse f.minute (omega arith),
      two_digits-parse f.second (omega arith),
      ranges,
    )
