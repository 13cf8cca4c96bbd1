-- ===== src/Time/NextDay.antt =====
-- The Julian day of the next date.
use yat.Common.{
  ℕ, leb, Bool-cases, ==_iff, ◌||◌, refl, ap, sym, ◌∙◌, ◌==◌, ◌+◌, ◌%◌, ◌≤◌, ◌<◌, ◌≡◌, ◌≢◌, ◌⊎◌,
  ltb, if◌then◌else◌, Bool, true, false, arith, inl, inr,
}
use yat.Time.{calc_julian_date, julian_day, greg_leap, month_days, nb_days_in_month, Date}

-- A date that a calendar shows.
pub record IsDate (y m d : ℕ) : Type 0 where
  pub month_from : 1 ≤ m
  pub month_to : m ≤ 12
  pub day_from : 1 ≤ d
  pub day_to : d ≤ nb_days_in_month m y

-- The date after a date.
unfoldable pub tomorrow : ℕ → ℕ → ℕ → Date
tomorrow y m d =
    if ltb d (nb_days_in_month m y)
    then record { year = y; month = m; day = d + 1 }
    else if ltb m 12
    then record { year = y; month = m + 1; day = 1 }
    else record { year = y + 1; month = 1; day = 1 }

-- The years in which both calendars agree on the 29th of February or the new one holds.
abbrev pub Regular : ℕ → Type 0
Regular y = (1583 ≤ y) ⊎ ((y ≤ 1581) × ((y % 100 ≢ 0) ⊎ (y % 400 ≡ 0)))

within_month :
    (y m d : ℕ) → 1 ≤ m → m ≤ 12 → 1 ≤ d → Regular y → julian_day y m (d + 1) ≡ julian_day y m d + 1
unfolding calc_julian_date
within_month y m d hm hm12 hd (inl h) = ground arith
within_month y m d hm hm12 hd (inr h) = ground arith

-- The days before a month, by whether February has 29.
unfoldable pub days_before : ℕ → Bool → ℕ
days_before m leap =
    if m == 1
    then 0
    else if m == 2
    then 31
    else if m == 3
    then (if leap then 60 else 59)
    else if m == 4
    then (if leap then 91 else 90)
    else if m == 5
    then (if leap then 121 else 120)
    else if m == 6
    then (if leap then 152 else 151)
    else if m == 7
    then (if leap then 182 else 181)
    else if m == 8
    then (if leap then 213 else 212)
    else if m == 9
    then (if leap then 244 else 243)
    else if m == 10
    then (if leap then 274 else 273)
    else if m == 11
    then (if leap then 305 else 304)
    else (if leap then 335 else 334)

-- What the 30 days of February are too many.
abbrev february_gap : ℕ → Bool → ℕ
february_gap m leap = if leb 3 m then (if leap then 1 else 2) else 0

month_days-table :
    (m : ℕ) (leap : Bool) → 1 ≤ m → m ≤ 12 → month_days m ≡ days_before m leap + february_gap m leap
unfolding days_before
month_days-table m true h k = ground arith
month_days-table m false h k = ground arith

month_shape :
    (y m d : ℕ)
    → 1 ≤ m
    → m ≤ 12
    → 1 ≤ d
    → Regular y
    → julian_day y m d + february_gap m (greg_leap y) + 1 ≡ julian_day y 1 1 + month_days m + d
unfolding calc_julian_date
month_shape y m d hm hm12 hd (inl h) = ground arith
month_shape y m d hm hm12 hd (inr h) = ground arith

-- The first day of a month, counted from the first of the year.
pub month_start :
    (y m d : ℕ)
    → 1 ≤ m
    → m ≤ 12
    → 1 ≤ d
    → Regular y
    → julian_day y m d + 1 ≡ julian_day y 1 1 + days_before m (greg_leap y) + d
month_start y m d hm hm12 hd r =
    omega (arith, month_shape y m d hm hm12 hd r, month_days-table m (greg_leap y) hm hm12)

pub february_length : (y : ℕ) → Regular y → nb_days_in_month 2 y ≡ (if greg_leap y then 29 else 28)
unfolding nb_days_in_month
february_length y (inl h) = ground arith
february_length y (inr h) = ground arith

-- February apart, the year does not matter.
abbrev pub length_but_february : ℕ → ℕ
length_but_february m =
    if (m == 1) || (m == 3) || (m == 5) || (m == 7) || (m == 8) || (m == 10) || (m == 12)
    then 31
    else 30

pub nb_days_in_month-eq :
    (m y : ℕ) → (m ≡ 2) ⊎ (((m == 2) ≡ false) × (nb_days_in_month m y ≡ length_but_february m))
unfolding nb_days_in_month
nb_days_in_month-eq m y = elim (Bool-cases (m == 2)) [
  | inl e ↦ inl ((==_iff m 2).0 e)
  | inr e ↦ inr (e, rw e refl)
]

days_before-step :
    (m : ℕ) (leap : Bool)
    → 1 ≤ m
    → m < 12
    → days_before (m + 1) leap
      ≡ days_before m leap + (if m == 2 then (if leap then 29 else 28) else length_but_february m)
unfolding days_before
days_before-step m true hm hm12 = ground arith
days_before-step m false hm hm12 = ground arith

month_length :
    (y m : ℕ)
    → 1 ≤ m
    → m < 12
    → Regular y
    → days_before (m + 1) (greg_leap y) ≡ days_before m (greg_leap y) + nb_days_in_month m y
month_length y m hm hm12 r = elim (nb_days_in_month-eq m y) [
  | inl e ↦ rw e (
      days_before-step 2 (greg_leap y) (omega arith) (omega arith)
      ∙ ap (λ (n : ℕ). days_before 2 (greg_leap y) + n) (sym (february_length y r)))
  | inr (other, e) ↦ days_before-step m (greg_leap y) hm hm12 ∙ rw (other, e) refl
]

pub year_length :
    (y : ℕ)
    → Regular y
    → julian_day (y + 1) 1 1 ≡ julian_day y 1 1 + (if greg_leap y then 366 else 365)
unfolding calc_julian_date
year_length y (inl h) = ground arith
year_length y (inr h) = ground arith

december : (leap : Bool) → days_before 12 leap + 31 ≡ (if leap then 366 else 365)
unfolding days_before
december true = refl
december false = refl

december_length : (y : ℕ) → nb_days_in_month 12 y ≡ 31
unfolding nb_days_in_month
december_length y = refl

-- In the years up to 1581 whose 29th of February both calendars agree on, and from 1583 on, the
-- date after a date has the next Julian day.
pub julian_day-tomorrow :
    (y m d : ℕ)
    → IsDate y m d
    → Regular y
    → julian_day (tomorrow y m d).year (tomorrow y m d).month (tomorrow y m d).day
      ≡ julian_day y m d + 1
unfolding tomorrow
julian_day-tomorrow y m d v r =
    let start = month_start y m d v.month_from v.month_to v.day_from r in
    elim (Bool-cases (ltb d (nb_days_in_month m y))) [
      | inl e ↦
          rw e
            (omega (arith, start, month_start y m (d + 1) v.month_from v.month_to (omega arith) r))
      | inr e ↦ rw e (elim (Bool-cases (ltb m 12)) [
        | inl k ↦
            let below : m < 12 = ground (arith, k) in
            rw k (
              ground (
                arith,
                e,
                start,
                v.day_to,
                month_start y (m + 1) 1 (omega arith) (omega arith) (omega arith) r,
                month_length y m v.month_from below r,
              ))
        | inr k ↦
            let last : m ≡ 12 = ground (arith, k, v.month_to) in
            rw k (
              ground (
                arith,
                e,
                start,
                v.day_to,
                last,
                december_length y,
                ap (λ (n : ℕ). nb_days_in_month n y) last,
                ap (λ (n : ℕ). days_before n (greg_leap y)) last,
                december (greg_leap y),
                year_length y r,
              ))
      ])
    ]
