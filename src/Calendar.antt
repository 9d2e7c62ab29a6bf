-- ===== src/Calendar.antt =====
-- The proleptic Gregorian calendar of Go's `time` package, on days counted from 0001-01-01, with
-- what the code uses of it: Date (which normalises), Year, Month, Day, Weekday and AddDate.
pub mod Laws
pub mod Months
use llms_proxy.Base.{
  ℕ, zero, suc, ◌+◌, ◌-◌, ◌*◌, ◌/◌, ◌%◌, Bool, true, false, not, ◌&&◌, ◌||◌, ltb, leb, ◌==◌,
  if◌then◌else◌,
}
use llms_proxy.Base.Time.{Time, day}

pub record Date : Type 0 where
  pub year : ℕ
  pub month : ℕ
  pub mday : ℕ

unfoldable pub is_leap : ℕ → Bool
is_leap y = y % 4 == 0 && (not (y % 100 == 0) || y % 400 == 0)

unfoldable pub days_in_month : ℕ → ℕ → ℕ
days_in_month y m =
    if m == 2
    then (if is_leap y then 29 else 28)
    else if m == 4 || m == 6 || m == 9 || m == 11
    then 30
    else 31

unfoldable pub days_in_year : ℕ → ℕ
days_in_year y = if is_leap y then 366 else 365

unfoldable pub days_before_year : ℕ → ℕ
days_before_year y = let p = y - 1 in p * 365 + p / 4 - p / 100 + p / 400

unfoldable pub days_before_month : ℕ → ℕ → ℕ
days_before_month within zero = 0
days_before_month within (suc zero) = 0
days_before_month within (suc (suc k)) =
    days_before_month within (suc k) + days_in_month within (suc k)

-- The day that time.Date(y, m, d, …) names. A month past December runs over into the next years,
-- and day 0 is the last of the month before.
unfoldable pub day_number : ℕ → ℕ → ℕ → ℕ
day_number y m d =
    let y' = y + (m - 1) / 12 in
    let m' = (m - 1) % 12 + 1 in days_before_year y' + days_before_month y' m' + d - 1

-- The year of a day: from a year that is not later, upwards.
unfoldable pub year_from : ℕ → ℕ → ℕ → ℕ
year_from zero y n = y
year_from (suc fuel) y n =
    let later = year_from fuel (y + 1) n in if ltb n (days_before_year (y + 1)) then y else later

unfoldable pub year_of : ℕ → ℕ
year_of n = year_from (n / 365 + 1 - n / 366) (n / 366 + 1) n

-- The month and day of the `r`-th day of the year, counted from 0.
unfoldable pub month_from : ℕ → ℕ → ℕ → ℕ → Date
month_from zero y m r = record { year = y; month = m; mday = r + 1 }
month_from (suc fuel) y m r =
    let later = month_from fuel y (m + 1) (r - days_in_month y m) in
    if ltb r (days_in_month y m) then record { year = y; month = m; mday = r + 1 } else later

unfoldable pub date_of : ℕ → Date
date_of n = let y = year_of n in month_from 11 y 1 (n - days_before_year y)

-- Sunday is 0; 0001-01-01 was a Monday.
unfoldable pub weekday : ℕ → ℕ
weekday n = (n + 1) % 7

-- The day of a time, in UTC.
unfoldable pub day_of : Time → ℕ
day_of t = t / day

-- Midnight, in UTC, at the start of a day.
unfoldable pub midnight : ℕ → Time
midnight n = n * day
