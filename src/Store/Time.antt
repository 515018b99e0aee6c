-- ===== src/Store/Time.antt =====
-- Timestamps of crates/store/src/lib.rs: `parse_rfc3339_utc` and its helpers. The numbers are
-- `i32` and `i64` in the source. A year has four digits, so that they stay far inside both.
pub mod Civil
pub mod Fields
pub mod Format
use ajar_gateway.Common.{
  ℕ, ◌+◌, ◌-◌, ◌*◌, Bool, not, ◌&&◌, ◌||◌, true, false, Option, none, some, List, [], ◌∷◌, leb,
  ◌==◌, if◌then◌else◌, length, get_elem?, take, drop, Result, ok, err, ◌>>=◌, ◌>>◌, fail_if,
}
use ajar_gateway.Common.Int.{ℤ, pos, negsuc, ◌+ℤ◌, ◌-ℤ◌, ◌*ℤ◌, ◌/ℤ◌, leb_ℤ, ltb_ℤ}
use ajar_gateway.Text.{Text, utf8}
use ajar_gateway.Text.Number.{is_digit}
use ajar_gateway.Store.Error.{StoreLoadError, manifest_time_invalid}

-- `bytes[from..to]`, for a list that is long enough.
abbrev pub slice : ℕ → ℕ → List ℕ → List ℕ
slice from to bytes = take (to - from) (drop from bytes)

-- `ends_with(c)` for one character.
abbrev pub ends_with : ℕ → Text → Bool
ends_with c [] = false
ends_with c (x ∷ []) = x == c
ends_with c (x ∷ y ∷ s) = ends_with c (y ∷ s)

digits_onto : ℕ → List ℕ → Result StoreLoadError ℕ
digits_onto value [] = ok value
digits_onto value (byte ∷ bytes) =
    let rest = digits_onto (value * 10 + (byte - b'0')) bytes in
    if is_digit byte then rest else err manifest_time_invalid

pub parse_digits : List ℕ → Result StoreLoadError ℕ
unfolding digits_onto
parse_digits bytes = digits_onto 0 bytes

pub require : Option ℕ → ℕ → Result StoreLoadError (Unit {0})
require none expected = err manifest_time_invalid
require (some byte) expected = if byte == expected then ok tt else err manifest_time_invalid

-- `(lo..=hi).contains(&n)`
abbrev contains : ℕ → ℕ → ℕ → Bool
contains lo hi n = leb lo n && leb n hi

-- The part of `days_from_civil` behind `adjusted_year` and `month_prime`.
pub days_from_march : ℤ → ℤ → ℤ → ℤ
days_from_march adjusted_year month_prime day =
    let era =
      (if leb_ℤ (pos 0) adjusted_year then adjusted_year else adjusted_year -ℤ pos 399) /ℤ 400 in
    let year_of_era = adjusted_year -ℤ era *ℤ pos 400 in
    let day_of_year = (pos 153 *ℤ month_prime +ℤ pos 2) /ℤ 5 +ℤ day -ℤ pos 1 in
    let day_of_era =
      year_of_era *ℤ pos 365 +ℤ year_of_era /ℤ 4 -ℤ year_of_era /ℤ 100 +ℤ day_of_year in
    era *ℤ pos 146_097 +ℤ day_of_era -ℤ pos 719_468

pub days_from_civil : ℤ → ℤ → ℤ → ℤ
days_from_civil year month day =
    let adjusted_year = year -ℤ (if leb_ℤ month (pos 2) then pos 1 else pos 0) in
    let month_prime = month +ℤ (if ltb_ℤ (pos 2) month then negsuc 2 else pos 9) in
    days_from_march adjusted_year month_prime day

-- The fields are in range.
abbrev fields_in_range : ℕ → ℕ → ℕ → ℕ → ℕ → Bool
fields_in_range month day hour minute second =
    contains 1 12 month
    && contains 1 31 day
    && contains 0 23 hour
    && contains 0 59 minute
    && contains 0 59 second

pub seconds_from_civil : ℕ → ℕ → ℕ → ℕ → ℕ → ℕ → ℤ
seconds_from_civil year month day hour minute second =
    days_from_civil (pos year) (pos month) (pos day) *ℤ pos 86_400
    +ℤ pos hour *ℤ pos 3_600
    +ℤ pos minute *ℤ pos 60
    +ℤ pos second

-- `parse_rfc3339_utc` behind its first test, on the bytes of the text.
pub parse_bytes : List ℕ → Result StoreLoadError ℤ
parse_bytes bytes = do
  year ← parse_digits (slice 0 4 bytes)
  require (get_elem? bytes 4) b'-'
  month ← parse_digits (slice 5 7 bytes)
  require (get_elem? bytes 7) b'-'
  day ← parse_digits (slice 8 10 bytes)
  require (get_elem? bytes 10) b'T'
  hour ← parse_digits (slice 11 13 bytes)
  require (get_elem? bytes 13) b':'
  minute ← parse_digits (slice 14 16 bytes)
  require (get_elem? bytes 16) b':'
  second ← parse_digits (slice 17 19 bytes)
  fail_if (not (fields_in_range month day hour minute second)) manifest_time_invalid
  ok (seconds_from_civil year month day hour minute second)

unfoldable pub parse_rfc3339_utc : Text → Result StoreLoadError ℤ
unfolding parse_digits require days_from_march days_from_civil seconds_from_civil parse_bytes
parse_rfc3339_utc value = do
  fail_if (not (length (utf8 value) == 20) || not (ends_with b'Z' value)) manifest_time_invalid
  parse_bytes (utf8 value)
