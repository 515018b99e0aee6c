-- ===== src/Store/Time/Civil/Checked.antt =====
-- `days_from_civil` of crates/store/src/lib.rs with its numbers as `i32`: every operation is checked,
-- as in a build with overflow checks.
use ajar_gateway.Common.{
  ℕ, zero, suc, ◌+◌, ◌-◌, ◌*◌, ◌/◌, ◌≤◌, ◌<◌, ◌≡◌, refl, ◌∙◌, true, false, ap, sym, ◌&&◌, Result,
  ok, err, ◌>>=◌, if◌then◌else◌, arith,
}
use ajar_gateway.Common.Int.{ℤ, pos, negsuc, sub_ℕ, ◌+ℤ◌, ◌-ℤ◌, ◌*ℤ◌, ◌/ℤ◌, leb_ℤ, ltb_ℤ}
use native.Mathlib.Decide.{dec_lt}
use ajar_gateway.Store.Time.{days_from_march, days_from_civil}
use ajar_gateway.Store.Time.Civil.{
  march_days, days_from_march_pos, days_from_civil_late, days_from_civil_early,
}

pub data Overflow : Type 0 where
  overflow : Overflow

-- A result that an `i32` holds.
abbrev pub i32 : ℤ → Result Overflow ℤ
i32 n = if leb_ℤ (negsuc 2_147_483_647) n && leb_ℤ n (pos 2_147_483_647) then ok n else err overflow

pub checked_days_from_march : ℤ → ℤ → ℤ → Result Overflow ℤ
checked_days_from_march adjusted_year month_prime day = do
  shifted ←
      (if leb_ℤ (pos 0) adjusted_year then ok adjusted_year else i32 (adjusted_year -ℤ pos 399))
  let era = shifted /ℤ 400
  era_years ← i32 (era *ℤ pos 400)
  year_of_era ← i32 (adjusted_year -ℤ era_years)
  months ← i32 (pos 153 *ℤ month_prime)
  rounded ← i32 (months +ℤ pos 2)
  ordinal ← i32 (rounded /ℤ 5 +ℤ day)
  day_of_year ← i32 (ordinal -ℤ pos 1)
  common_days ← i32 (year_of_era *ℤ pos 365)
  julian_days ← i32 (common_days +ℤ year_of_era /ℤ 4)
  gregorian_days ← i32 (julian_days -ℤ year_of_era /ℤ 100)
  day_of_era ← i32 (gregorian_days +ℤ day_of_year)
  era_days ← i32 (era *ℤ pos 146_097)
  all_days ← i32 (era_days +ℤ day_of_era)
  i32 (all_days -ℤ pos 719_468)

pub checked_days_from_civil : ℤ → ℤ → ℤ → Result Overflow ℤ
unfolding checked_days_from_march
checked_days_from_civil year month day = do
  adjusted_year ← i32 (year -ℤ (if leb_ℤ month (pos 2) then pos 1 else pos 0))
  month_prime ← i32 (month +ℤ (if ltb_ℤ (pos 2) month then negsuc 2 else pos 9))
  checked_days_from_march adjusted_year month_prime day

i32_pos : (n : ℕ) → n ≤ 2_147_483_647 → i32 (pos n) ≡ ok (pos n)
i32_pos n h = ground arith

i32_diff : (a b : ℕ) → b ≤ a → a ≤ 2_147_483_647 → i32 (sub_ℕ a b) ≡ ok (pos (a - b))
i32_diff a b p q = ground arith

i32_sub : (a b : ℕ) → a ≤ 2_147_483_647 → b ≤ 2_147_483_647 → i32 (sub_ℕ a b) ≡ ok (sub_ℕ a b)
i32_sub a b p q = ground arith

-- One step of a computation that goes on.
bind_ok :
    (m : Result Overflow ℤ) (x : ℤ) (f : ℤ → Result Overflow ℤ) (r : Result Overflow ℤ)
    → m ≡ ok x
    → f x ≡ r
    → (m >>= f) ≡ r
bind_ok m x f r e h = rw e h

nonneg : (a : ℕ) → leb_ℤ (pos 0) (pos a) ≡ true
nonneg a = ground arith

march_fits :
    (a mp d : ℕ)
    → a < 10_000
    → mp ≤ 11
    → 1 ≤ d
    → d ≤ 31
    → checked_days_from_march (pos a) (pos mp) (pos d) ≡ ok (sub_ℕ (march_days a mp d) 719_468)
unfolding checked_days_from_march march_days
march_fits a mp d p q r s = rw (nonneg a) (
    bind_ok _ _ _ _ (i32_pos (a / 400 * 400) (omega arith)) (
      bind_ok _ _ _ _ (i32_diff a (a / 400 * 400) (omega arith) (omega arith)) (
        bind_ok _ _ _ _ (i32_pos (153 * mp) (omega arith)) (
          bind_ok _ _ _ _ (i32_pos (153 * mp + 2) (omega arith)) (
            bind_ok _ _ _ _ (i32_pos ((153 * mp + 2) / 5 + d) (omega arith)) (
              bind_ok _ _ _ _ (i32_diff ((153 * mp + 2) / 5 + d) 1 (omega arith) (omega arith)) (
                bind_ok _ _ _ _ (i32_pos (yoe * 365) (omega arith)) (
                  bind_ok _ _ _ _ (i32_pos (yoe * 365 + yoe / 4) (omega arith)) (
                    bind_ok _ _ _ _
                      (i32_diff (yoe * 365 + yoe / 4) (yoe / 100) (omega arith) (omega arith))
                      (bind_ok _ _ _ _
                        (i32_pos (yoe * 365 + yoe / 4 - yoe / 100 + doy) (omega arith))
                        (bind_ok _ _ _ _ (i32_pos (a / 400 * 146_097) (omega arith)) (
                          bind_ok _ _ _ _
                            (i32_pos (a / 400 * 146_097 + (yoe * 365 + yoe / 4 - yoe / 100 + doy))
                              (omega arith))
                            (i32_sub _ 719_468 (omega arith) (omega arith))))))))))))))
  where
    yoe : ℕ
    yoe = a - a / 400 * 400

    doy : ℕ
    doy = (153 * mp + 2) / 5 + d - 1

i32_minus_zero : (n : ℕ) → n ≤ 2_147_483_647 → i32 (pos n -ℤ pos 0) ≡ ok (pos n)
i32_minus_zero n h = ground arith

i32_minus_one : (n : ℕ) → n ≤ 2_147_483_646 → i32 (pos (suc n) -ℤ pos 1) ≡ ok (pos n)
i32_minus_one n h = ground arith

late_fits :
    (y m d : ℕ)
    → y < 10_000
    → 3 ≤ m
    → m ≤ 12
    → checked_days_from_civil (pos y) (pos m) (pos d)
      ≡ checked_days_from_march (pos y) (pos (m - 3)) (pos d)
unfolding checked_days_from_civil
late_fits y m d p q r =
    let late : leb_ℤ (pos m) (pos 2) ≡ false = ground arith in
    let later : ltb_ℤ (pos 2) (pos m) ≡ true = ground arith in
    rw (late, later)
      (bind_ok _ _ _ _ (i32_minus_zero y (omega arith))
        (bind_ok _ _ _ _ (i32_diff m 3 (omega arith) (omega arith)) refl))

early_fits :
    (y m d : ℕ)
    → y < 10_000
    → m ≤ 2
    → checked_days_from_civil (pos (suc y)) (pos m) (pos d)
      ≡ checked_days_from_march (pos y) (pos (m + 9)) (pos d)
unfolding checked_days_from_civil
early_fits y m d p q =
    let early : leb_ℤ (pos m) (pos 2) ≡ true = ground arith in
    let earlier : ltb_ℤ (pos 2) (pos m) ≡ false = ground arith in
    rw (early, earlier)
      (bind_ok _ _ _ _ (i32_minus_one y (omega arith))
        (bind_ok _ _ _ _ (i32_pos (m + 9) (omega arith)) refl))

year_zero_fits :
    (m d : ℕ)
    → 1 ≤ m
    → m ≤ 2
    → 1 ≤ d
    → d ≤ 31
    → checked_days_from_civil (pos 0) (pos m) (pos d) ≡ ok (days_from_civil (pos 0) (pos m) (pos d))
unfolding checked_days_from_civil checked_days_from_march days_from_civil days_from_march
year_zero_fits zero d p q r s = absurd (omega arith)
year_zero_fits (suc zero) d p q r s = ground arith
year_zero_fits (suc (suc zero)) d p q r s = ground arith
year_zero_fits (suc (suc (suc m))) d p q r s = absurd (omega arith)

march_days_fit :
    (a mp d : ℕ)
    → a < 10_000
    → mp ≤ 11
    → 1 ≤ d
    → d ≤ 31
    → checked_days_from_march (pos a) (pos mp) (pos d)
      ≡ ok (days_from_march (pos a) (pos mp) (pos d))
march_days_fit a mp d p q r s =
    march_fits a mp d p q r s ∙ ap ok (sym (days_from_march_pos a mp d r))

-- No operation of `days_from_civil` leaves the range of an `i32`, for a year of four digits, every
-- month, and every day up to 31: with overflow checks it returns the days that it returns without.
pub checked_days_from_civil_lem :
    (y m d : ℕ)
    → y < 10_000
    → 1 ≤ m
    → m ≤ 12
    → 1 ≤ d
    → d ≤ 31
    → checked_days_from_civil (pos y) (pos m) (pos d) ≡ ok (days_from_civil (pos y) (pos m) (pos d))
checked_days_from_civil_lem zero m d p q r s t = elim (dec_lt m 3) [
  | yes early ↦ year_zero_fits m d q (omega arith) s t
  | no late ↦
      late_fits 0 m d p (omega arith) r
      ∙ march_days_fit 0 (m - 3) d p (omega arith) s t
      ∙ ap ok (sym (days_from_civil_late 0 m d (omega arith)))
]
checked_days_from_civil_lem (suc y) m d p q r s t = elim (dec_lt m 3) [
  | yes early ↦
      early_fits y m d (omega arith) (omega arith)
      ∙ march_days_fit y (m + 9) d (omega arith) (omega arith) s t
      ∙ ap ok (sym (days_from_civil_early y m d (omega arith)))
  | no late ↦
      late_fits (suc y) m d p (omega arith) r
      ∙ march_days_fit (suc y) (m - 3) d p (omega arith) s t
      ∙ ap ok (sym (days_from_civil_late (suc y) m d (omega arith)))
]
