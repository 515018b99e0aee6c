-- ===== src/Store/Time/Civil/Order.antt =====
-- The order of timestamps in crates/store/src/lib.rs.
use ajar_gateway.Common.{
  ℕ, zero, suc, ◌+◌, ◌-◌, ◌*◌, ◌≤◌, ◌<◌, ◌≡◌, refl, ◌↔◌, ◌⊎◌, inl, inr, arith, subst, sym,
  if◌then◌else◌,
}
use native.Mathlib.Decide.{dec_lt}
use ajar_gateway.Common.Int.{pos, sub_ℕ, ◌+ℤ◌, ◌*ℤ◌, ◌<ℤ◌}
use ajar_gateway.Store.Time.{seconds_from_civil}
use ajar_gateway.Store.Time.Civil.{
  is_leap, days_in_month, days_before_year, days_before_month, day_number, IsDate,
  days_from_civil-day_number, epoch,
}
use ajar_gateway.Store.Time.Fields.{Fields, InRange, seconds}

days_before_month-suc :
    (y m : ℕ) → 1 ≤ m → days_before_month y (suc m) ≡ days_in_month y m + days_before_month y m
unfolding days_before_month
days_before_month-suc y zero h = absurd (omega arith)
days_before_month-suc y (suc m) h = refl

days_before_month-≤ : (y m k : ℕ) → 1 ≤ m → days_before_month y m ≤ days_before_month y (k + m)
days_before_month-≤ y m zero h = let same : 0 + m ≡ m = omega arith in rw same (omega arith)
days_before_month-≤ y m (suc k) h =
    let same : suc k + m ≡ suc (k + m) = omega arith in
    rw same
      (omega (arith, days_before_month-≤ y m k h, days_before_month-suc y (k + m) (omega arith)))

year_length : (y : ℕ) → days_before_month y 13 ≡ (if is_leap y then 366 else 365)
unfolding days_before_month days_in_month
year_length y = ground arith

days_before_year-≤ : (y k : ℕ) → days_before_year y ≤ days_before_year (k + y)
unfolding days_before_year
days_before_year-≤ y zero = let same : 0 + y ≡ y = omega arith in rw same (omega arith)
days_before_year-≤ y (suc k) =
    let same : suc k + y ≡ suc (k + y) = omega arith in
    rw same (omega (arith, days_before_year-≤ y k))

-- A day of a month ends before the next month, and a day of a year before the next year.
day-in_month :
    (y m d : ℕ)
    → IsDate y m d
    → 1 + day_number y m d ≤ days_before_year y + days_before_month y (suc m)
unfolding day_number
day-in_month y m d date =
    omega (arith, days_before_month-suc y m date.month_in.0, date.day_in.0, date.day_in.1)

years-≤ : (y z : ℕ) → y ≤ z → days_before_year y ≤ days_before_year z
years-≤ y z h =
    let sum : z - y + y ≡ z = omega arith in
    subst (λ k. days_before_year y ≤ days_before_year k) sum (days_before_year-≤ y (z - y))

months-≤ : (y m n : ℕ) → 1 ≤ m → m ≤ n → days_before_month y m ≤ days_before_month y n
months-≤ y m n low h =
    let sum : n - m + m ≡ n = omega arith in
    subst (λ k. days_before_month y m ≤ days_before_month y k) sum
      (days_before_month-≤ y m (n - m) low)

day-in_year : (y m d : ℕ) → IsDate y m d → 1 + day_number y m d ≤ days_before_year (suc y)
unfolding days_before_year
day-in_year y m d date = omega (
  arith,
  day-in_month y m d date,
  months-≤ y (suc m) 13 (omega arith) (omega (arith, date.month_in.1)),
  year_length y,
)

-- A day of an earlier year, or of an earlier month of the year, is earlier.
day_number-year : (y m d z n e : ℕ) → y < z → IsDate y m d → day_number y m d < day_number z n e
unfolding day_number
day_number-year y m d z n e less date =
    omega (arith, day-in_year y m d date, years-≤ (suc y) z less)

day_number-month : (y m d n e : ℕ) → m < n → IsDate y m d → day_number y m d < day_number y n e
unfolding day_number
day_number-month y m d n e less date =
    omega (arith, day-in_month y m d date, months-≤ y (suc m) n (omega arith) less)

-- The seconds from year 0 on, for a day of the calendar.
moment : Fields → ℕ
moment f = day_number f.year f.month f.day * 86_400 + f.hour * 3_600 + f.minute * 60 + f.second

-- Earlier by year, then by month, by day, by hour, by minute and by second.
pub data Earlier (f g : Fields) : Type 0 where
  by_year : f.year < g.year → Earlier f g
  by_month : f.year ≡ g.year → f.month < g.month → Earlier f g
  by_day : f.year ≡ g.year → f.month ≡ g.month → f.day < g.day → Earlier f g
  by_hour : f.year ≡ g.year → f.month ≡ g.month → f.day ≡ g.day → f.hour < g.hour → Earlier f g
  by_minute :
      f.year ≡ g.year
      → f.month ≡ g.month
      → f.day ≡ g.day
      → f.hour ≡ g.hour
      → f.minute < g.minute
      → Earlier f g
  by_second :
      f.year ≡ g.year
      → f.month ≡ g.month
      → f.day ≡ g.day
      → f.hour ≡ g.hour
      → f.minute ≡ g.minute
      → f.second < g.second
      → Earlier f g

-- A time of a day of the calendar.
pub record IsMoment (f : Fields) : Type 0 where
  pub ranges : InRange f
  pub date : IsDate f.year f.month f.day

seconds-moment : (f : Fields) → InRange f → seconds f ≡ sub_ℕ (moment f) (719_528 * 86_400)
unfolding moment seconds_from_civil
seconds-moment f r =
    rw (days_from_civil-day_number f.year f.month f.day r.month_in.0 r.month_in.1 r.day_in.0, epoch)
      (shifted (day_number f.year f.month f.day) f.hour f.minute f.second)
  where
    shifted :
        (n h m s : ℕ)
        → sub_ℕ n 719_528 *ℤ pos 86_400 +ℤ pos h *ℤ pos 3_600 +ℤ pos m *ℤ pos 60 +ℤ pos s
          ≡ sub_ℕ (n * 86_400 + h * 3_600 + m * 60 + s) (719_528 * 86_400)
    shifted n h m s = ground arith

day_number-day : (y m d e : ℕ) → 1 ≤ d → d < e → day_number y m d < day_number y m e
unfolding day_number
day_number-day y m d e low less = omega arith

-- An earlier day makes an earlier moment.
moment-day :
    (f g : Fields)
    → InRange f
    → day_number f.year f.month f.day < day_number g.year g.month g.day
    → moment f < moment g
unfolding moment
moment-day f g r less = omega (arith, r.hour_in, r.minute_in, r.second_in)

Earlier-moment : (f g : Fields) → IsMoment f → IsMoment g → Earlier f g → moment f < moment g
unfolding moment
Earlier-moment f g p q (by_year less) =
    moment-day f g p.ranges (day_number-year f.year f.month f.day g.year g.month g.day less p.date)
Earlier-moment f g p q (by_month y less) = moment-day f g p.ranges (
    subst (λ z. day_number f.year f.month f.day < day_number z g.month g.day) y
      (day_number-month f.year f.month f.day g.month g.day less p.date))
Earlier-moment f g p q (by_day y m less) = moment-day f g p.ranges (
    subst (λ z. day_number f.year f.month f.day < day_number z g.month g.day) y
      (subst (λ n. day_number f.year f.month f.day < day_number f.year n g.day) m
        (day_number-day f.year f.month f.day g.day p.ranges.day_in.0 less)))
Earlier-moment f g p q (by_hour y m d less) =
    let same : day_number f.year f.month f.day ≡ day_number g.year g.month g.day = cc in
    omega (arith, p.ranges.minute_in, p.ranges.second_in)
Earlier-moment f g p q (by_minute y m d h less) =
    let same : day_number f.year f.month f.day ≡ day_number g.year g.month g.day = cc in
    omega (arith, p.ranges.second_in)
Earlier-moment f g p q (by_second y m d h mi less) =
    let same : day_number f.year f.month f.day ≡ day_number g.year g.month g.day = cc in omega arith

three_ways : {C : Type 0} (a b : ℕ) → (a < b → C) → (a ≡ b → C) → (b < a → C) → C
three_ways a b less same more = elim (dec_lt a b) [
  | yes l ↦ less l
  | no n ↦ elim (dec_lt b a) [ yes l ↦ more l | no k ↦ same (omega arith) ]
]

-- Of two times one is the earlier, or they have the same fields.
Earlier-total : (f g : Fields) → Earlier f g ⊎ (moment f ≡ moment g) ⊎ Earlier g f
unfolding moment
Earlier-total f g =
    three_ways f.year g.year (λ l. inl (by_year l))
      (λ y.
        three_ways f.month g.month (λ l. inl (by_month y l))
          (λ m.
            three_ways f.day g.day (λ l. inl (by_day y m l))
              (λ d.
                three_ways f.hour g.hour (λ l. inl (by_hour y m d l))
                  (λ h.
                    three_ways f.minute g.minute (λ l. inl (by_minute y m d h l))
                      (λ mi.
                        three_ways f.second g.second (λ l. inl (by_second y m d h mi l))
                          (λ s. inr (inl (cc)))
                          (λ l. inr (inr (by_second (sym y) (sym m) (sym d) (sym h) (sym mi) l))))
                      (λ l. inr (inr (by_minute (sym y) (sym m) (sym d) (sym h) l))))
                  (λ l. inr (inr (by_hour (sym y) (sym m) (sym d) l))))
              (λ l. inr (inr (by_day (sym y) (sym m) l))))
          (λ l. inr (inr (by_month (sym y) l))))
      (λ l. inr (inr (by_year l)))

-- For times of days that the calendar has, in years of four digits, one timestamp has fewer seconds
-- than another exactly if it is earlier by its year, then by its month, day, hour, minute and
-- second.
pub seconds-Earlier :
    (f g : Fields) → IsMoment f → IsMoment g → (seconds f <ℤ seconds g) ↔ Earlier f g
seconds-Earlier f g p q =
    rw (seconds-moment f p.ranges, seconds-moment g q.ranges)
      (
        λ h. elim (Earlier-total f g) [
          | inl e ↦ e
          | inr (inl same) ↦ absurd (ground arith)
          | inr (inr e) ↦ absurd (ground (arith, Earlier-moment g f q p e))
        ],
        λ e. ground (arith, Earlier-moment f g p q e),
      )
