-- ===== src/Calendar/Laws.antt =====
-- Days and dates of Calendar.antt, which internal/quota/period.go and the reset times use.
use native.Mathlib.Nat.{add-zero, le_refl}
use native.Mathlib.Decide.{dec_lt}
use llms_proxy.Base.{ℕ, zero, suc, ◌+◌, ◌-◌, ◌/◌, ◌%◌, ◌≤◌, ◌<◌, ◌≡◌, refl, ap, arith}
use llms_proxy.Calendar.{
  Date, is_leap, days_in_month, days_in_year, days_before_year, days_before_month, day_number,
  year_from, year_of, month_from, date_of,
}

pub days_before_year-suc :
    (y : ℕ) → 1 ≤ y → days_before_year (y + 1) ≡ days_before_year y + days_in_year y
unfolding days_before_year days_in_year is_leap
days_before_year-suc y h = ground arith

pub twelve_months : (y : ℕ) → days_before_month y 13 ≡ days_in_year y
unfolding days_before_month days_in_month days_in_year
twelve_months y = ground arith

pub days_before_month-suc :
    (y m : ℕ) → 1 ≤ m → days_before_month y (m + 1) ≡ days_before_month y m + days_in_month y m
unfolding days_before_month
days_before_month-suc y zero h = absurd (omega arith)
days_before_month-suc y (suc m) h = ground arith

days_before_year_start : (n : ℕ) → days_before_year (n / 366 + 1) ≤ n
unfolding days_before_year
days_before_year_start n = omega arith

days_before_year_end : (n : ℕ) → n < days_before_year (n / 365 + 2)
unfolding days_before_year
days_before_year_end n = omega arith

-- The year found by the loop contains the day.
year_from_lem :
    (fuel y n : ℕ)
    → days_before_year y ≤ n
    → n < days_before_year (y + fuel)
    → (days_before_year (year_from fuel y n) ≤ n)
      × (n < days_before_year (year_from fuel y n + 1))
      × (y ≤ year_from fuel y n)
unfolding year_from
year_from_lem zero y n lo hi = absurd (ground arith)
year_from_lem (suc fuel) y n lo hi = ground (arith, year_from_lem fuel (y + 1) n)

pub year_of_lem :
    (n : ℕ)
    → (days_before_year (year_of n) ≤ n) × (n < days_before_year (year_of n + 1)) × (1 ≤ year_of n)
unfolding year_of
year_of_lem n =
    let fits : n / 366 + 1 + (n / 365 + 1 - n / 366) ≡ n / 365 + 2 = omega arith in
    let found =
      year_from_lem (n / 365 + 1 - n / 366) (n / 366 + 1) n (days_before_year_start n)
        (rw fits (days_before_year_end n)) in
    (found.0, found.1, omega (arith, found.2))

days_before_year_mono : (y k : ℕ) → 1 ≤ y → days_before_year y ≤ days_before_year (y + k)
days_before_year_mono y zero h = rw add-zero (le_refl _)
days_before_year_mono y (suc k) h =
    ground (arith, days_before_year_mono y k h, days_before_year-suc (y + k))

days_before_year-lt-inv : (y z : ℕ) → 1 ≤ z → days_before_year y < days_before_year z → y < z
days_before_year-lt-inv y z h lt = elim (dec_lt y z) [
  | yes p ↦ p
  | no p ↦ absurd (
      let e : z + (y - z) ≡ y = omega arith in
      let m = days_before_year_mono z (y - z) h in omega (arith, rw e at m))
]

-- The year of a day is the only one that contains it.
pub year_of_unique :
    (y n : ℕ) → 1 ≤ y → days_before_year y ≤ n → n < days_before_year (y + 1) → year_of n ≡ y
year_of_unique y n h lo hi =
    let found = year_of_lem n in
    omega (
      arith,
      days_before_year-lt-inv y (year_of n + 1) (omega arith) (omega arith),
      days_before_year-lt-inv (year_of n) (y + 1) (omega arith) (omega arith),
    )

-- A date that the calendar has.
pub record IsValid (t : Date) : Type 0 where
  pub year_in : 1 ≤ t.year
  pub month_in : (1 ≤ t.month) × (t.month ≤ 12)
  pub day_in : (1 ≤ t.mday) × (t.mday ≤ days_in_month t.year t.month)

-- The loop over the months stops at the month that contains the day.
pub record IsDayOf (y r : ℕ) (t : Date) : Type 0 where
  pub year_is : t.year ≡ y
  pub month_in : (1 ≤ t.month) × (t.month ≤ 12)
  pub day_in : (1 ≤ t.mday) × (t.mday ≤ days_in_month y t.month)
  pub falls : days_before_month y t.month + t.mday ≡ r + 1

month_from_lem :
    (fuel y m r : ℕ)
    → m + fuel ≡ 12
    → 1 ≤ m
    → days_before_month y m + r < days_in_year y
    → IsDayOf y (days_before_month y m + r) (month_from fuel y m r)
unfolding month_from
month_from_lem zero y m r e h lt = ground (arith, twelve_months y, days_before_month-suc y 12)
month_from_lem (suc fuel) y m r e h lt =
    ground
      (arith, days_before_month-suc y m h, month_from_lem fuel y (m + 1) (r - days_in_month y m))

days_before_month_one : (y : ℕ) → days_before_month y 1 ≡ 0
unfolding days_before_month
days_before_month_one y = refl

date_of-IsDayOf : (n : ℕ) → IsDayOf (year_of n) (n - days_before_year (year_of n)) (date_of n)
unfolding date_of
date_of-IsDayOf n =
    let found = year_of_lem n in
    let r : ℕ = n - days_before_year (year_of n) in
    let same : days_before_month (year_of n) 1 + r ≡ r =
      omega (arith, days_before_month_one (year_of n)) in
    let fits : r < days_in_year (year_of n) =
      omega (arith, found, days_before_year-suc (year_of n) found.2) in
    rw same at (month_from_lem 11 (year_of n) 1 r refl (le_refl 1) (rw same fits))

-- In a valid month nothing runs over.
pub day_number-eq :
    (y m d : ℕ)
    → 1 ≤ m
    → m ≤ 12
    → day_number y m d ≡ days_before_year y + days_before_month y m + d - 1
unfolding day_number
day_number-eq y m d lo hi =
    let a : y + (m - 1) / 12 ≡ y = omega arith in
    let b : (m - 1) % 12 + 1 ≡ m = omega arith in rw (a, b)

-- Every day has a valid date, and the date names that day.
pub date_of-IsValid : (n : ℕ) → IsValid (date_of n)
date_of-IsValid n = ground (arith, date_of-IsDayOf n, year_of_lem n)

pub day_number-date_of :
    (n : ℕ) → day_number (date_of n).year (date_of n).month (date_of n).mday ≡ n
day_number-date_of n =
    let t = date_of-IsDayOf n in
    rw (day_number-eq (date_of n).year (date_of n).month (date_of n).mday t.month_in.0 t.month_in.1)
      (rw t.year_is (omega (arith, year_of_lem n, t.falls)))

days_before_month_mono : (y m k : ℕ) → 1 ≤ m → days_before_month y m ≤ days_before_month y (m + k)
days_before_month_mono y m zero h = rw add-zero (le_refl _)
days_before_month_mono y m (suc k) h =
    ground (arith, days_before_month_mono y m k h, days_before_month-suc y (m + k))

-- A later month starts after every day of an earlier one.
days_before_month-lt :
    (y m k : ℕ) → 1 ≤ m → m < k → days_before_month y m + days_in_month y m ≤ days_before_month y k
days_before_month-lt y m k h lt =
    let e : m + 1 + (k - (m + 1)) ≡ k = omega arith in
    let later : days_before_month y (m + 1) ≤ days_before_month y k =
      rw e at (days_before_month_mono y (m + 1) (k - (m + 1)) (omega arith)) in
    omega (arith, days_before_month-suc y m h)

IsDayOf-unique : (y r : ℕ) (t u : Date) → IsDayOf y r t → IsDayOf y r u → t ≡ u
IsDayOf-unique y r t u a b = elim (dec_lt t.month u.month) [
  | yes p ↦ absurd (omega (arith, days_before_month-lt y t.month u.month a.month_in.0 p, a, b))
  | no p ↦ elim (dec_lt u.month t.month) [
    | yes q ↦ absurd (omega (arith, days_before_month-lt y u.month t.month b.month_in.0 q, a, b))
    | no q ↦
        let same : t.month ≡ u.month = omega arith in
        let starts : days_before_month y t.month ≡ days_before_month y u.month =
          ap (days_before_month y) same in
        let days : t.mday ≡ u.mday = omega (arith, a.falls, b.falls) in ground (arith, a, b)
  ]
]

-- The day of a valid date lies in the date's year.
pub day_number-year :
    (t : Date)
    → IsValid t
    → (days_before_year t.year ≤ day_number t.year t.month t.mday)
      × (day_number t.year t.month t.mday < days_before_year (t.year + 1))
day_number-year t v = rw (day_number-eq t.year t.month t.mday v.month_in.0 v.month_in.1) (
  omega (
    arith,
    v,
    days_before_month-lt t.year t.month 13 v.month_in.0 (omega arith),
    twelve_months t.year,
    days_before_year-suc t.year v.year_in,
  ),
  omega (
    arith,
    v,
    days_before_month-lt t.year t.month 13 v.month_in.0 (omega arith),
    twelve_months t.year,
    days_before_year-suc t.year v.year_in,
  ),
)

-- The date of the day that a valid date names is that date.
pub date_of-day_number : (t : Date) → IsValid t → date_of (day_number t.year t.month t.mday) ≡ t
date_of-day_number t v =
    let n = day_number t.year t.month t.mday in
    let inside = day_number-year t v in
    let year_is = year_of_unique t.year n v.year_in inside.0 inside.1 in
    IsDayOf-unique t.year (n - days_before_year t.year) (date_of n) t
      (rw year_is at (date_of-IsDayOf n))
      (record {
        year_is = refl;
        month_in = v.month_in;
        day_in = v.day_in;
        falls = omega (arith, v, day_number-eq t.year t.month t.mday v.month_in.0 v.month_in.1);
      })

january :
    (y : ℕ) → day_number y 13 1 ≡ days_before_year (y + 1) + days_before_month (y + 1) 1 + 1 - 1
unfolding day_number
january y = refl

new_year : (y : ℕ) → 1 ≤ y → day_number y 13 1 ≡ day_number y 12 1 + days_in_month y 12
new_year y hy = omega (
  arith,
  january y,
  day_number-eq y 12 1 (omega arith) (omega arith),
  days_before_year-suc y hy,
  twelve_months y,
  days_before_month-suc y 12 (omega arith),
  days_before_month_one (y + 1),
)

-- The first day of the next month, of the next year after December, comes one month later.
pub day_number-next_month :
    (y m : ℕ)
    → 1 ≤ y
    → 1 ≤ m
    → m ≤ 12
    → day_number y (m + 1) 1 ≡ day_number y m 1 + days_in_month y m
day_number-next_month y m hy lo hi = elim (dec_lt m 12) [
  | yes p ↦ omega (
    arith,
    day_number-eq y m 1 lo hi,
    day_number-eq y (m + 1) 1 (omega arith) (omega arith),
    days_before_month-suc y m lo,
  )
  | no p ↦ let december : m ≡ 12 = omega arith in rw december (new_year y hy)
]
