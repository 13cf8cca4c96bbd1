-- ===== src/Time/Tests.antt =====
-- Dates that are known, and the theorems at concrete inputs.
use yat.Common.{◌+◌, ◌≡◌, refl, arith, inl}
use yat.Time.{
  calc_julian_date, julian_day, nb_days_in_month, nb_days_in_year, jj_to_date, day_of_week,
  day_of_year, date_in_year, day_in_year, is_leap, find_month,
}
use yat.Time.NextDay.{IsDate, days_before, tomorrow, julian_day-tomorrow}
use yat.Time.Roundtrip.{jj_to_date-julian_day}
use yat.Time.Fields.{days_of_months, julian_day-century}

methods : Unit {0}
unfolding calc_julian_date jj_to_date date_in_year day_in_year is_leap find_month day_of_week
    day_of_year nb_days_in_month nb_days_in_year days_before tomorrow
methods = tt

-- The days of a Saturday, and of the UNIX reference.
millennium : julian_day 2000 1 1 ≡ 2451545
unfolding methods
millennium = refl

saturday : day_of_week (julian_day 2000 1 1) ≡ 6
unfolding methods
saturday = refl

unix_reference : julian_day 1970 1 1 ≡ 2440588
unfolding methods
unix_reference = refl

-- The reform: the 20th of December 1582 follows the 9th.
reform : julian_day 1582 12 20 ≡ julian_day 1582 12 9 + 1
unfolding methods
reform = refl

new_year-IsDate : IsDate 2000 12 31
unfolding methods
new_year-IsDate = record {
  month_from = omega arith;
  month_to = omega arith;
  day_from = omega arith;
  day_to = omega arith;
}

leap_day-IsDate : IsDate 2024 2 29
unfolding methods
leap_day-IsDate = record {
  month_from = omega arith;
  month_to = omega arith;
  day_from = omega arith;
  day_to = omega arith;
}

julian_day-tomorrow_example : julian_day 2001 1 1 ≡ julian_day 2000 12 31 + 1
unfolding methods
julian_day-tomorrow_example = julian_day-tomorrow 2000 12 31 new_year-IsDate (inl (omega arith))

jj_to_date-julian_day_example :
    jj_to_date (julian_day 2024 2 29) ≡ record { year = 2024; month = 2; day = 29 }
jj_to_date-julian_day_example =
    jj_to_date-julian_day 2024 2 29 (omega arith) (omega arith) leap_day-IsDate

julian_day-century_example :
    (nb_days_in_month 2 1500 ≡ 29)
    × (julian_day 1500 3 1 ≡ julian_day 1500 2 29)
    × (julian_day 1501 1 1 ≡ julian_day 1500 12 31 + 2)
    × (nb_days_in_year 1500 + 1 ≡ days_of_months 1500)
julian_day-century_example = julian_day-century 1500 (omega arith) refl (λ e. omega arith)
