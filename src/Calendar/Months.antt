-- ===== src/Calendar/Months.antt =====
-- The months of Calendar.antt as runs of days.
use native.Mathlib.Decide.{dec_lt}
use llms_proxy.Base.{ℕ, ◌+◌, ◌-◌, ◌≤◌, ◌<◌, ◌≡◌, refl, ap, sym, ◌∙◌, arith}
use llms_proxy.Calendar.{
  Date, date_of, day_number, days_in_month, days_before_year, days_before_month,
}
use llms_proxy.Calendar.Laws.{
  IsValid, date_of-IsValid, day_number-date_of, date_of-day_number, day_number-eq,
  day_number-next_month,
}

-- The first day of the month of a day, and of the month after it.
abbrev pub month_first : ℕ → ℕ
month_first n = day_number (date_of n).year (date_of n).month 1

abbrev pub month_next : ℕ → ℕ
month_next n = day_number (date_of n).year ((date_of n).month + 1) 1

pub month_contains : (n : ℕ) → (month_first n ≤ n) × (n < month_next n)
month_contains n =
    let v = date_of-IsValid n in
    let t = date_of n in
    let whole = day_number-date_of n in
    let a = day_number-eq t.year t.month t.mday v.month_in.0 v.month_in.1 in
    let b = day_number-eq t.year t.month 1 v.month_in.0 v.month_in.1 in
    let c = day_number-next_month t.year t.month v.year_in v.month_in.0 v.month_in.1 in
    (omega (arith, v), omega (arith, v))

-- The days of one month have the same year and month.
same_month :
    (n k : ℕ)
    → month_first n ≤ k
    → k < month_next n
    → ((date_of k).year ≡ (date_of n).year) × ((date_of k).month ≡ (date_of n).month)
same_month n k lo hi =
    let v = date_of-IsValid n in
    let t = date_of n in
    let b = day_number-eq t.year t.month 1 v.month_in.0 v.month_in.1 in
    let c = day_number-next_month t.year t.month v.year_in v.month_in.0 v.month_in.1 in
    let d = k - month_first n + 1 in
    let u : Date = record { year = t.year; month = t.month; mday = d } in
    let names : day_number t.year t.month d ≡ k =
      omega (arith, day_number-eq t.year t.month d v.month_in.0 v.month_in.1) in
    let valid : IsValid u = record {
      year_in = v.year_in;
      month_in = v.month_in;
      day_in = omega arith;
    } in
    let found : date_of k ≡ u = rw names at (date_of-day_number u valid) in
    (ap (λ (x : Date). x.year) found, ap (λ (x : Date). x.month) found)

pub same_month_bounds :
    (n k : ℕ)
    → month_first n ≤ k
    → k < month_next n
    → (month_first k ≡ month_first n) × (month_next k ≡ month_next n)
same_month_bounds n k lo hi = let same = same_month n k lo hi in rw (same.0, same.1) (refl, refl)

first_of :
    (u : Date)
    → IsValid u
    → u.mday ≡ 1
    → month_first (day_number u.year u.month u.mday) ≡ day_number u.year u.month u.mday
first_of u v one =
    let names = date_of-day_number u v in
    ap (λ (x : Date). day_number x.year x.month 1) names
    ∙ ap (λ d. day_number u.year u.month d) (sym one)

a_day : (y m : ℕ) → 1 ≤ days_in_month y m
unfolding days_in_month
a_day y m = ground arith

new_year_day : (y : ℕ) → day_number y 13 1 ≡ day_number (y + 1) 1 1
unfolding day_number days_before_year days_before_month
new_year_day y = omega arith

-- What follows a month starts one.
pub month_first-month_next : (n : ℕ) → month_first (month_next n) ≡ month_next n
month_first-month_next n =
    let v = date_of-IsValid n in
    let t = date_of n in
    elim (dec_lt t.month 12) [
      | yes before ↦
          first_of (record { year = t.year; month = t.month + 1; mday = 1 })
            (record {
              year_in = v.year_in;
              month_in = omega (arith, v.month_in.0);
              day_in = (omega arith, a_day t.year (t.month + 1));
            })
            refl
      | no not_before ↦
          let december : t.month ≡ 12 = omega (arith, v.month_in.1) in
          let next : month_next n ≡ day_number (t.year + 1) 1 1 =
            ap (λ m. day_number t.year (m + 1) 1) december ∙ new_year_day t.year in
          rw next (
            first_of (record { year = t.year + 1; month = 1; mday = 1 })
              (record {
                year_in = omega arith;
                month_in = omega arith;
                day_in = (omega arith, a_day (t.year + 1) 1);
              })
              refl)
    ]
