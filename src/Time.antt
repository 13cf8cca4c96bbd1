-- ===== src/Time.antt =====
-- Dates and Julian day numbers: calc_julian_date, JJToDate, Time::nb_days_in_month,
-- Time::nb_days_in_year and the day fields of Time::get (src/time/Time.cpp).
-- The model has the years from 0 on, for which every quantity of the source but those noted below
-- is a natural number: there the divisions of C++ and of ℕ agree.
use yat.Common.{
  ℕ, ◌+◌, ◌-◌, ◌*◌, ◌/◌, ◌%◌, Bool, true, false, not, ◌&&◌, ◌||◌, ltb, leb, ◌==◌, if◌then◌else◌,
}
pub mod NextDay
pub mod Roundtrip
pub mod Fields
mod Tests

-- `REF_YEAR` is its negation.
abbrev pub ref_year : ℕ
ref_year = 4712

-- `piDeltaDays` points to the second.
pub record JulianDate : Type 0 where
  pub days : ℕ
  pub delta_days : ℕ

pub record Date : Type 0 where
  pub year : ℕ
  pub month : ℕ
  pub day : ℕ

abbrev pub julian_leap : ℕ → ℕ
julian_leap y = if y % 4 == 0 then 1 else 0

abbrev pub greg_leap : ℕ → Bool
greg_leap y = if not (y % 400 == 0) && (y % 100 == 0) then false else y % 4 == 0

abbrev pub reform_days : ℕ → ℕ → ℕ → ℕ
reform_days y m d =
    if ltb 1582 y || ((y == 1582) && ltb 12 m) || ((y == 1582) && (m == 12) && ltb 19 d)
    then 10
    else 0

-- The negation of iDM, which is at most 0: `((iY - 1) / 100) - ((iY - 1) / 400) - 12`.
abbrev pub century_days : ℕ → ℕ
century_days y = if leb 1700 y then (y - 1) / 100 - (y - 1) / 400 - 12 else 0

-- The days of the months before, as if February had 30.
abbrev pub month_days : ℕ → ℕ
month_days m = if leb m 8 then (m - 1) * 30 + m / 2 else (m - 1) * 30 + (m - 1) / 2 + 1

unfoldable pub calc_julian_date : ℕ → ℕ → ℕ → JulianDate
calc_julian_date y m d =
    let from_ref = y + ref_year in
    let delta = reform_days y m d + century_days y in
    let nb_days = from_ref * 365 + (from_ref + 3) / 4 + month_days m in
    let after_february = leb 3 m in
    let nb =
      if after_february && greg_leap y
      then nb_days - 1
      else (if after_february then nb_days + julian_leap y - 2 else nb_days) in
    let delta_days = if after_february && not (greg_leap y) then delta + julian_leap y else delta in
    record { days = nb + d - 1 - delta_days; delta_days = delta_days }

abbrev pub julian_day : ℕ → ℕ → ℕ → ℕ
julian_day y m d = (calc_julian_date y m d).days

-- `lJJ < 2299226.5`, negated.
abbrev pub after_reform : ℕ → Bool
after_reform jj = leb 2299227 jj

-- `(int)(lJJ / 365.25)`, whose quotient a `double` tells apart from the integers.
abbrev pub estimated_year : ℕ → ℕ
estimated_year jj = jj * 4 / 1461 - ref_year

-- iDJ, the position in the year.
unfoldable pub day_in_year : ℕ → ℕ → ℕ
unfolding calc_julian_date
day_in_year jj y =
    let dj = jj - julian_day y 1 1 in
    if after_reform jj
    then (if y == 1582 then dj + 10 else dj)
    else dj - (calc_julian_date y 1 1).delta_days

unfoldable pub is_leap : ℕ → ℕ → Bool
is_leap jj y =
    let before = not (after_reform jj) && (y % 4 == 0) in
    let leap = if before then true else y % 4 == 0 in
    if after_reform jj && (y % 100 == 0) && not (y % 400 == 0) then false else leap

-- The month and iDM + 1, by iDJ + 1, since either may be -1. On a 29th of February both are
-- given at the start.
unfoldable pub find_month : Bool → ℕ → ℕ × ℕ
find_month leap_day dj =
    if leb 334 dj
    then (12, 334)
    else if leb 304 dj
    then (11, 304)
    else if leb 273 dj
    then (10, 273)
    else if leb 243 dj
    then (9, 243)
    else if leb 212 dj
    then (8, 212)
    else if leb 181 dj
    then (7, 181)
    else if leb 151 dj
    then (6, 151)
    else if leb 120 dj
    then (5, 120)
    else if leb 90 dj
    then (4, 90)
    else if leb 59 dj && not leap_day
    then (3, 59)
    else if leb 31 dj && not leap_day
    then (2, 31)
    else if not leap_day
    then (1, 0)
    else (2, 31)

-- The end of JJToDate: the month, the day, and the overflow into the next year.
unfoldable pub date_in_year : ℕ → Bool → ℕ → Date
unfolding find_month
date_in_year y leap dj0 =
    let leap_day = leap && (dj0 == 59) in
    let dj = if leap && ltb 59 dj0 then dj0 - 1 else dj0 in
    let (m, dm) = find_month leap_day dj in
    let day = dj + 1 - dm in
    if ltb 334 dj && ltb 31 day
    then record { year = y + 1; month = 1; day = day - 31 }
    else record { year = y; month = m; day = day }

unfoldable pub jj_to_date : ℕ → Date
unfolding date_in_year day_in_year is_leap
jj_to_date jj = let y = estimated_year jj in date_in_year y (is_leap jj y) (day_in_year jj y)

unfoldable pub nb_days_in_month : ℕ → ℕ → ℕ
nb_days_in_month m y =
    if (m == 1) || (m == 3) || (m == 5) || (m == 7) || (m == 8) || (m == 10) || (m == 12)
    then 31
    else if m == 2
    then (if ((y % 4 == 0) && ltb y 1582)
          || ((y % 4 == 0) && (not (y % 100 == 0) || (y % 400 == 0)))
        then 29
        else 28)
    else 30

unfoldable pub nb_days_in_year : ℕ → ℕ
nb_days_in_year y = if (y % 4 == 0) && (not (y % 100 == 0) || (y % 400 == 0)) then 366 else 365

-- Monday is 1.
unfoldable pub day_of_week : ℕ → ℕ
day_of_week jj =
    let day = jj % 7 + 2 in
    let week_day = (if ltb 7 day then day - 7 else day) - 1 in if week_day == 0 then 7 else week_day

-- Of the date that `get` finds.
unfoldable pub day_of_year : ℕ → ℕ
unfolding jj_to_date calc_julian_date
day_of_year jj = jj - julian_day (jj_to_date jj).year 1 1 + 1
