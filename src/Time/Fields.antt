-- ===== src/Time/Fields.antt =====
-- The day fields of Time::get, the length of a year, and the years where the dates go wrong.
use yat.Common.{ℕ, refl, ap, ◌∙◌, ◌+◌, ◌%◌, ◌≤◌, ◌<◌, ◌≡◌, ◌≢◌, Bool, arith, inl, inr}
use yat.Time.{
  calc_julian_date, julian_day, greg_leap, nb_days_in_month, nb_days_in_year, jj_to_date,
  day_of_week, day_of_year, estimated_year,
}
use yat.Time.NextDay.{
  IsDate, Regular, days_before, month_start, year_length, tomorrow, julian_day-tomorrow,
}
use yat.Time.Roundtrip.{jj_to_date-julian_day, early_january}

-- From 1583 to 4500, the day of the year that `get` finds counts the days of the months before,
-- with a 29th of February in the leap years.
pub day_of_year-julian_day :
    (y m d : ℕ)
    → 1583 ≤ y
    → y ≤ 4500
    → IsDate y m d
    → day_of_year (julian_day y m d) ≡ days_before m (greg_leap y) + d
unfolding day_of_year
day_of_year-julian_day y m d h l v =
    rw (jj_to_date-julian_day y m d h l v)
      (omega (arith, month_start y m d v.month_from v.month_to v.day_from (inl h)))

next_week_day : (jj : ℕ) → day_of_week (jj + 1) ≡ day_of_week jj % 7 + 1
unfolding day_of_week
next_week_day jj = ground arith

-- In the same years as for the Julian day, the day of the week of the next date is the next one,
-- and Monday comes after Sunday.
pub day_of_week-tomorrow :
    (y m d : ℕ)
    → IsDate y m d
    → Regular y
    → day_of_week (julian_day (tomorrow y m d).year (tomorrow y m d).month (tomorrow y m d).day)
      ≡ day_of_week (julian_day y m d) % 7 + 1
day_of_week-tomorrow y m d v r =
    ap day_of_week (julian_day-tomorrow y m d v r) ∙ next_week_day (julian_day y m d)

abbrev pub days_of_months : ℕ → ℕ
days_of_months y =
    nb_days_in_month 1 y
    + nb_days_in_month 2 y
    + nb_days_in_month 3 y
    + nb_days_in_month 4 y
    + nb_days_in_month 5 y
    + nb_days_in_month 6 y
    + nb_days_in_month 7 y
    + nb_days_in_month 8 y
    + nb_days_in_month 9 y
    + nb_days_in_month 10 y
    + nb_days_in_month 11 y
    + nb_days_in_month 12 y

-- A year of the same kind has as many days as its months, and its first day comes as many days
-- before that of the next year.
pub nb_days_in_year-eq :
    (y : ℕ)
    → Regular y
    → (nb_days_in_year y ≡ days_of_months y)
      × (julian_day (y + 1) 1 1 ≡ julian_day y 1 1 + nb_days_in_year y)
unfolding nb_days_in_year nb_days_in_month
nb_days_in_year-eq y (inl h) = (ground arith, ground (arith, year_length y (inl h)))
nb_days_in_year-eq y (inr h) = (ground arith, ground (arith, year_length y (inr h)))

-- In a year before 1582 that 100 but not 400 divides, nb_days_in_month gives February 29 days, yet
-- the 29th of February and the 1st of March have one Julian day, two days lie between the 31st of
-- December and the next 1st of January, and nb_days_in_year is one less than its months.
pub julian_day-century :
    (y : ℕ)
    → y < 1582
    → y % 100 ≡ 0
    → y % 400 ≢ 0
    → (nb_days_in_month 2 y ≡ 29)
      × (julian_day y 3 1 ≡ julian_day y 2 29)
      × (julian_day (y + 1) 1 1 ≡ julian_day y 12 31 + 2)
      × (nb_days_in_year y + 1 ≡ days_of_months y)
unfolding nb_days_in_month calc_julian_date nb_days_in_year
julian_day-century y h c n = (ground arith, ground arith, ground arith, ground arith)

february_first : (leap : Bool) → days_before 2 leap ≡ 31
unfolding days_before
february_first leap = refl

late_estimate : (y : ℕ) → 4501 ≤ y → y ≤ 5000 → estimated_year (julian_day y 1 1 + 31) + 1 ≡ y
unfolding calc_julian_date
late_estimate y h l = ground arith

-- From 4501 to 5000, JJToDate takes the 1st of February for a 32nd of January.
pub jj_to_date-late :
    (y : ℕ)
    → 4501 ≤ y
    → y ≤ 5000
    → jj_to_date (julian_day y 2 1) ≡ record { year = y; month = 1; day = 32 }
jj_to_date-late y h l =
    let first : julian_day y 2 1 ≡ julian_day y 1 1 + 31 = omega (
      arith,
      month_start y 2 1 (omega arith) (omega arith) (omega arith) (inl (omega arith)),
      february_first (greg_leap y),
    ) in
    ap jj_to_date first ∙ early_january y 31 (omega arith) (late_estimate y h l)
