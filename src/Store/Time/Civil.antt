-- ===== src/Store/Time/Civil.antt =====
-- `days_from_civil` of crates/store/src/lib.rs against a count of the days of each year and month.
pub mod Order
pub mod Checked
use ajar_gateway.Common.{
  ℕ, zero, suc, ◌+◌, ◌-◌, ◌*◌, ◌/◌, ◌%◌, ◌≤◌, ◌≡◌, refl, ◌∙◌, Bool, true, not, ◌&&◌, ◌||◌, arith,
  ◌==◌, if◌then◌else◌,
}
use ajar_gateway.Common.Int.{pos, sub_ℕ, leb_ℤ, ◌-ℤ◌}
use ajar_gateway.Store.Time.{days_from_march, days_from_civil}

-- The Gregorian rule of leap years.
unfoldable pub is_leap : ℕ → Bool
is_leap year = (year % 4 == 0) && (not (year % 100 == 0) || (year % 400 == 0))

unfoldable pub days_in_month : ℕ → ℕ → ℕ
days_in_month year month =
    if (month == 4) || (month == 6) || (month == 9) || (month == 11)
    then 30
    else if not (month == 2)
    then 31
    else if is_leap year
    then 29
    else 28

-- The days of the years 0 to y - 1.
pub days_before_year : ℕ → ℕ
days_before_year zero = 0
days_before_year (suc y) = days_before_year y + (if is_leap y then 366 else 365)

-- The days of the months 1 to m - 1.
pub days_before_month : ℕ → ℕ → ℕ
days_before_month y zero = 0
days_before_month y (suc zero) = 0
days_before_month y (suc (suc m)) = days_in_month y (suc m) + days_before_month y (suc m)

-- The number of a day, from 0 at year 0, month 1, day 1.
pub day_number : ℕ → ℕ → ℕ → ℕ
day_number y m d = days_before_year y + days_before_month y m + (d - 1)

-- A day that the calendar has.
pub record IsDate (y m d : ℕ) : Type 0 where
  pub month_in : (1 ≤ m) × (m ≤ 12)
  pub day_in : (1 ≤ d) × (d ≤ days_in_month y m)

leap_days-suc :
    (y : ℕ)
    → suc y / 4 + suc y / 400 + y / 100 + (if is_leap (suc y) then 0 else 1)
      ≡ y / 4 + y / 400 + suc y / 100 + 1
unfolding is_leap
leap_days-suc y = ground arith

-- The closed formula of the days before year y + 1.
days_before_year-suc :
    (y : ℕ) → days_before_year (suc y) + y / 100 ≡ 366 + 365 * y + y / 4 + y / 400
unfolding days_before_year is_leap
days_before_year-suc zero = refl
days_before_year-suc (suc y) = ground (arith, days_before_year-suc y)

-- The days before March of year y.
days_before_march :
    (y : ℕ)
    → days_before_year y + (31 + days_in_month y 2) + y / 100 ≡ 60 + 365 * y + y / 4 + y / 400
unfolding days_before_year days_in_month is_leap
days_before_march zero = refl
days_before_march (suc y) = ground (arith, days_before_year-suc y)

sub_ℕ_pos : (a b : ℕ) → b ≤ a → sub_ℕ a b ≡ pos (a - b)
sub_ℕ_pos a b h = ground arith

-- The days of a years that begin in March, and of the months and days behind them.
march_days : ℕ → ℕ → ℕ → ℕ
march_days a mp d =
    let yoe = a - a / 400 * 400 in
    a / 400 * 146_097 + (yoe * 365 + yoe / 4 - yoe / 100 + ((153 * mp + 2) / 5 + d - 1))

march_days_lem :
    (a mp d : ℕ)
    → 1 ≤ d
    → march_days a mp d + a / 100 ≡ 365 * a + a / 4 + a / 400 + ((153 * mp + 2) / 5 + d - 1)
unfolding march_days
march_days_lem a mp d h = omega arith

days_from_march_pos :
    (a mp d : ℕ)
    → 1 ≤ d
    → days_from_march (pos a) (pos mp) (pos d) ≡ sub_ℕ (march_days a mp d) 719_468
unfolding days_from_march march_days
days_from_march_pos a mp d h =
    rw (nonneg a, sub_ℕ_pos a (a / 400 * 400) (omega arith))
      (rw (
        sub_ℕ_pos (yoe * 365 + yoe / 4) (yoe / 100) (omega arith),
        sub_ℕ_pos ((153 * mp + 2) / 5 + d) 1 (omega arith),
      ))
  where
    yoe : ℕ
    yoe = a - a / 400 * 400

    nonneg : (a : ℕ) → leb_ℤ (pos 0) (pos a) ≡ true
    nonneg a = ground arith

sub_ℕ_shift : (a b : ℕ) → a + 60 ≡ b → sub_ℕ a 719_468 ≡ sub_ℕ b 719_528
sub_ℕ_shift a b h = ground arith

-- From March on the months follow the formula of the source.
days_before_month_late :
    (y k : ℕ)
    → k ≤ 9
    → days_before_month y (suc (suc (suc k))) ≡ 31 + days_in_month y 2 + (153 * k + 2) / 5
unfolding days_before_month days_in_month
days_before_month_late y zero h = omega arith
days_before_month_late y (suc zero) h = omega arith
days_before_month_late y (suc (suc zero)) h = omega arith
days_before_month_late y (suc (suc (suc zero))) h = omega arith
days_before_month_late y (suc (suc (suc (suc zero)))) h = omega arith
days_before_month_late y (suc (suc (suc (suc (suc zero))))) h = omega arith
days_before_month_late y (suc (suc (suc (suc (suc (suc zero)))))) h = omega arith
days_before_month_late y (suc (suc (suc (suc (suc (suc (suc zero))))))) h = omega arith
days_before_month_late y (suc (suc (suc (suc (suc (suc (suc (suc zero)))))))) h = omega arith
days_before_month_late y (suc (suc (suc (suc (suc (suc (suc (suc (suc zero))))))))) h = omega arith
days_before_month_late y (suc (suc (suc (suc (suc (suc (suc (suc (suc (suc k)))))))))) h =
    absurd (omega arith)

days_from_civil_late :
    (y m d : ℕ)
    → 3 ≤ m
    → days_from_civil (pos y) (pos m) (pos d) ≡ days_from_march (pos y) (pos (m - 3)) (pos d)
unfolding days_from_civil
days_from_civil_late y m d h = ground arith

days_from_civil_early :
    (y m d : ℕ)
    → m ≤ 2
    → days_from_civil (pos (suc y)) (pos m) (pos d) ≡ days_from_march (pos y) (pos (m + 9)) (pos d)
unfolding days_from_civil
days_from_civil_early y m d h = ground arith

days_from_civil_year_zero :
    (m d : ℕ)
    → 1 ≤ m
    → m ≤ 2
    → 1 ≤ d
    → days_from_civil (pos 0) (pos m) (pos d) ≡ sub_ℕ (day_number 0 m d) 719_528
unfolding days_from_civil days_from_march day_number days_before_month days_before_year
    days_in_month
days_from_civil_year_zero zero d p q h = absurd (omega arith)
days_from_civil_year_zero (suc zero) d p q h = ground arith
days_from_civil_year_zero (suc (suc zero)) d p q h = ground arith
days_from_civil_year_zero (suc (suc (suc m))) d p q h = absurd (omega arith)

pub epoch : day_number 1970 1 1 ≡ 719_528
unfolding day_number days_before_year days_before_month is_leap
epoch = refl

days_from_march-eq :
    (a mp d n : ℕ)
    → 1 ≤ d
    → march_days a mp d + 60 ≡ n
    → days_from_march (pos a) (pos mp) (pos d) ≡ pos n -ℤ pos (day_number 1970 1 1)
days_from_march-eq a mp d n h e = rw (epoch, days_from_march_pos a mp d h) (sub_ℕ_shift _ _ e)

late_count :
    (y k d : ℕ)
    → k ≤ 9
    → 1 ≤ d
    → march_days y (suc (suc (suc k)) - 3) d + 60 ≡ day_number y (suc (suc (suc k))) d
unfolding day_number
late_count y k d p h =
    let same : suc (suc (suc k)) - 3 ≡ k = omega arith in
    rw same
      (omega (arith, march_days_lem y k d h, days_before_march y, days_before_month_late y k p))

-- Counted from the epoch, `days_from_civil` is the number of days that the calendar counts, for
-- every year from 0 on, every month, and every day from 1 on (a day past the end of its month
-- counts into the months behind).
pub days_from_civil-day_number :
    (y m d : ℕ)
    → 1 ≤ m
    → m ≤ 12
    → 1 ≤ d
    → days_from_civil (pos y) (pos m) (pos d) ≡ pos (day_number y m d) -ℤ pos (day_number 1970 1 1)
unfolding day_number days_before_month days_in_month
days_from_civil-day_number y zero d p q h = absurd (omega arith)
days_from_civil-day_number zero (suc zero) d p q h =
    rw epoch (days_from_civil_year_zero 1 d p (omega arith) h)
days_from_civil-day_number zero (suc (suc zero)) d p q h =
    rw epoch (days_from_civil_year_zero 2 d p (omega arith) h)
days_from_civil-day_number (suc y) (suc zero) d p q h =
    days_from_civil_early y 1 d (omega arith)
    ∙ days_from_march-eq y (1 + 9) d (day_number (suc y) 1 d) h
        (omega (arith, march_days_lem y 10 d h, days_before_year-suc y))
days_from_civil-day_number (suc y) (suc (suc zero)) d p q h =
    days_from_civil_early y 2 d (omega arith)
    ∙ days_from_march-eq y (2 + 9) d (day_number (suc y) 2 d) h
        (omega (arith, march_days_lem y 11 d h, days_before_year-suc y))
days_from_civil-day_number y (suc (suc (suc k))) d p q h =
    days_from_civil_late y (suc (suc (suc k))) d (omega arith)
    ∙ days_from_march-eq y (suc (suc (suc k)) - 3) d _ h (late_count y k d (omega arith) h)
