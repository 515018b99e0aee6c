-- ===== src/Examples/Time.antt =====
-- Instances of the theorems on the days and the order of timestamps.
use ajar_gateway.Common.{◌≡◌, ◌↔◌, ok, arith}
use ajar_gateway.Common.Int.{pos, ◌<ℤ◌}
use ajar_gateway.Store.Time.{days_from_civil}
use ajar_gateway.Store.Time.Civil.Checked.{checked_days_from_civil, checked_days_from_civil_lem}
use ajar_gateway.Store.Time.Civil.{days_in_month, is_leap}
use ajar_gateway.Store.Time.Civil.Order.{Earlier, IsMoment, seconds-Earlier}
use ajar_gateway.Store.Time.Fields.{Fields, seconds}

abbrev leap_day : Fields
leap_day = record { year = 2024; month = 2; day = 29; hour = 23; minute = 59; second = 59 }

abbrev march_first : Fields
march_first = record { year = 2024; month = 3; day = 1; hour = 0; minute = 0; second = 0 }

leap_day-IsMoment : IsMoment leap_day
unfolding days_in_month is_leap
leap_day-IsMoment = record {
  ranges = record {
    year_in = omega arith;
    month_in = (omega arith, omega arith);
    day_in = (omega arith, omega arith);
    hour_in = omega arith;
    minute_in = omega arith;
    second_in = omega arith;
  };
  date = record { month_in = (omega arith, omega arith); day_in = (omega arith, omega arith) };
}

march_first-IsMoment : IsMoment march_first
unfolding days_in_month is_leap
march_first-IsMoment = record {
  ranges = record {
    year_in = omega arith;
    month_in = (omega arith, omega arith);
    day_in = (omega arith, omega arith);
    hour_in = omega arith;
    minute_in = omega arith;
    second_in = omega arith;
  };
  date = record { month_in = (omega arith, omega arith); day_in = (omega arith, omega arith) };
}

seconds-Earlier_example : (seconds leap_day <ℤ seconds march_first) ↔ Earlier leap_day march_first
seconds-Earlier_example =
    seconds-Earlier leap_day march_first leap_day-IsMoment march_first-IsMoment

checked_days_from_civil_lem_example :
    checked_days_from_civil (pos 2024) (pos 2) (pos 29)
    ≡ ok (days_from_civil (pos 2024) (pos 2) (pos 29))
checked_days_from_civil_lem_example =
    checked_days_from_civil_lem 2024 2 29 (omega arith) (omega arith) (omega arith) (omega arith)
      (omega arith)
