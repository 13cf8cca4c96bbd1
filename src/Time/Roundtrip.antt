-- ===== src/Time/Roundtrip.antt =====
-- JJToDate undoes calc_julian_date.
use yat.Common.{
  ℕ, zero, suc, ◌==◌, refl, ap, ap₂, sym, ◌∙◌, ◌+◌, ◌-◌, ◌*◌, ◌/◌, ◌≤◌, ◌<◌, ◌≡◌, ◌⊎◌,
  if◌then◌else◌, Bool, true, false, arith, inl, inr,
}
use yat.Time.{
  calc_julian_date, julian_day, greg_leap, nb_days_in_month, Date, find_month, date_in_year,
  day_in_year, is_leap, jj_to_date, estimated_year,
}
use yat.Time.NextDay.{
  IsDate, Regular, days_before, month_start, length_but_february, nb_days_in_month-eq,
  february_length,
}

abbrev year_size : Bool → ℕ
year_size leap = if leap then 366 else 365

abbrev month_size : ℕ → Bool → ℕ
month_size m leap = if m == 2 then (if leap then 29 else 28) else length_but_february m

first_day_bounds :
    (y : ℕ)
    → 1583 ≤ y
    → y ≤ 4500
    → (julian_day y 1 1 + 10 ≤ 365 * (y + 4712) + (y + 4715) / 4)
      × (365 * (y + 4712) + (y + 4715) / 4 ≤ julian_day y 1 1 + 31)
      × (2299239 ≤ julian_day y 1 1)
unfolding calc_julian_date
first_day_bounds y h k = ground arith

first_day_late : (y : ℕ) → 1583 ≤ y → 2299239 ≤ julian_day y 1 1
unfolding calc_julian_date
first_day_late y h = ground arith

-- The year that a Julian day is first thought to be in.
year_estimate :
    (y k : ℕ)
    → 1583 ≤ y
    → y ≤ 4500
    → k < 366
    → (estimated_year (julian_day y 1 1 + k) ≡ y)
      ⊎ ((estimated_year (julian_day y 1 1 + k) + 1 ≡ y) × (k ≤ 30))
year_estimate y k h l small = ground (arith, first_day_bounds y h l)

find_in_year :
    (y m d : ℕ) (leap : Bool)
    → 1 ≤ m
    → m ≤ 12
    → 1 ≤ d
    → d ≤ month_size m leap
    → date_in_year y leap (days_before m leap + d - 1) ≡ record { year = y; month = m; day = d }
unfolding date_in_year find_month days_before
find_in_year y m d true hm hm12 hd hl = ground arith
find_in_year y m d false hm hm12 hd hl = ground arith

find_in_next :
    (y k : ℕ) (leap : Bool)
    → date_in_year y leap (year_size leap + k) ≡ record { year = y + 1; month = 1; day = k + 1 }
unfolding date_in_year find_month
find_in_next y k true = ground arith
find_in_next y k false = ground arith

is_leap-eq : (jj y : ℕ) → 2299227 ≤ jj → is_leap jj y ≡ greg_leap y
unfolding is_leap
is_leap-eq jj y h = ground arith

day_in_year-eq : (y k : ℕ) → 1583 ≤ y → y ≤ 4500 → day_in_year (julian_day y 1 1 + k) y ≡ k
unfolding day_in_year
day_in_year-eq y k h l = ground (arith, first_day_bounds y h l)

day_in_year-before :
    (y k : ℕ) → 1582 ≤ y → day_in_year (julian_day (y + 1) 1 1 + k) y ≡ year_size (greg_leap y) + k
unfolding day_in_year calc_julian_date
day_in_year-before y k h = ground arith

month_size-eq : (m y : ℕ) → Regular y → nb_days_in_month m y ≡ month_size m (greg_leap y)
month_size-eq m y r = elim (nb_days_in_month-eq m y) [
  | inl e ↦ rw e (february_length y r)
  | inr (other, e) ↦ rw (other, e) refl
]

days_before-lt :
    (m d : ℕ) (leap : Bool) → 1 ≤ m → m ≤ 12 → d ≤ month_size m leap → days_before m leap + d < 367
unfolding days_before
days_before-lt m d true h k l = ground arith
days_before-lt m d false h k l = ground arith

-- A day within the first 31 of a year is in January.
january : (m d : ℕ) (leap : Bool) → 1 ≤ m → m ≤ 12 → 1 ≤ d → days_before m leap + d - 1 ≤ 30 → m ≡ 1
unfolding days_before
january m d true h k l e = ground arith
january m d false h k l e = ground arith

days_before_january : (leap : Bool) → days_before 1 leap ≡ 0
unfolding days_before
days_before_january leap = refl

-- The date from the year that was estimated.
found :
    (jj y : ℕ) (leap : Bool) (k : ℕ) (date : Date)
    → estimated_year jj ≡ y
    → is_leap jj y ≡ leap
    → day_in_year jj y ≡ k
    → date_in_year y leap k ≡ date
    → jj_to_date jj ≡ date
unfolding jj_to_date
found jj y leap k date e1 e2 e3 e4 = rw (e1, e2, e3) e4

found_early :
    (x k : ℕ)
    → 1582 ≤ x
    → estimated_year (julian_day (x + 1) 1 1 + k) ≡ x
    → jj_to_date (julian_day (x + 1) 1 1 + k) ≡ record { year = x + 1; month = 1; day = k + 1 }
found_early x k h e =
    let late = first_day_late (x + 1) (omega arith) in
    found (julian_day (x + 1) 1 1 + k) x (greg_leap x) (year_size (greg_leap x) + k) _ e
      (is_leap-eq (julian_day (x + 1) 1 1 + k) x (omega arith)) (day_in_year-before x k h)
      (find_in_next x k (greg_leap x))

pub early_january :
    (y k : ℕ)
    → 1583 ≤ y
    → estimated_year (julian_day y 1 1 + k) + 1 ≡ y
    → jj_to_date (julian_day y 1 1 + k) ≡ record { year = y; month = 1; day = k + 1 }
early_january zero k h e = absurd (omega arith)
early_january (suc x) k h e =
    let succ : x + 1 ≡ suc x = omega arith in
    rw (sym succ) (found_early x k (omega arith) (rw succ (omega arith)))

-- JJToDate finds every date from 1583 to 4500, of a month that exists and a day that the month has,
-- from the Julian day that calc_julian_date computes of it.
pub jj_to_date-julian_day :
    (y m d : ℕ)
    → 1583 ≤ y
    → y ≤ 4500
    → IsDate y m d
    → jj_to_date (julian_day y m d) ≡ record { year = y; month = m; day = d }
jj_to_date-julian_day y m d h l v =
    let leap = greg_leap y in
    let size : d ≤ month_size m leap = omega (arith, v.day_to, month_size-eq m y (inl h)) in
    let k = days_before m leap + d - 1 in
    let (_, _, late) = first_day_bounds y h l in
    let here : julian_day y m d ≡ julian_day y 1 1 + k =
      omega (arith, month_start y m d v.month_from v.month_to v.day_from (inl h), v.day_from) in
    let few : k < 366 =
      omega (arith, days_before-lt m d leap v.month_from v.month_to size, v.day_from) in
    rw here (elim (year_estimate y k h l few) [
      | inl same ↦
          found (julian_day y 1 1 + k) y leap k _ same
            (is_leap-eq (julian_day y 1 1 + k) y (omega arith)) (day_in_year-eq y k h l)
            (find_in_year y m d leap v.month_from v.month_to v.day_from size)
      | inr (before, early) ↦
          let first : m ≡ 1 = january m d leap v.month_from v.month_to v.day_from early in
          let none_before : days_before m leap ≡ 0 =
            ap (λ (n : ℕ). days_before n leap) first ∙ days_before_january leap in
          early_january y k h before
          ∙ ap₂ (λ (a b : ℕ). record { year = y; month = a; day = b }) (sym first)
              (omega (arith, none_before, v.day_from))
    ])
