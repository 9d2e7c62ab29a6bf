-- ===== src/KeyPool/ResetTime/Next.antt =====
-- nextMonthlyReset of internal/proxy/keypool.go, and the time of the call.
use llms_proxy.Base.{
  ℕ, ◌+◌, ◌-◌, ◌≤◌, ◌<◌, ap, inl, inr, ltb, ltb→lt, Bool-cases, arith, if◌then◌else◌,
}
use llms_proxy.Base.Time.{Time, after}
use llms_proxy.Calendar.{date_of, day_number, day_of, midnight}
use llms_proxy.Calendar.Laws.{date_of-IsValid, day_number-eq}
use llms_proxy.Calendar.Months.{month_next, month_contains, month_first-month_next}
use llms_proxy.KeyPool.ResetTime.{
  cst_offset, from_cst, cst_date, monthly_reset_in_month, next_monthly_reset,
}

clamp_in : (a d : ℕ) → 1 ≤ a → 1 ≤ d → 1 ≤ (if ltb a d then a else d)
clamp_in a d h k = ground arith

-- The reset in a month is not before the month's first midnight in CST.
reset_in_month :
    (y m d : ℕ)
    → 1 ≤ m
    → m ≤ 12
    → 1 ≤ d
    → midnight (day_number y m 1) - cst_offset ≤ monthly_reset_in_month y m d
unfolding monthly_reset_in_month from_cst midnight
reset_in_month y m d lo hi h =
    let last_day = (date_of (day_number y (m + 1) 0)).mday in
    let c = if ltb last_day d then last_day else d in
    let inside : 1 ≤ c =
      clamp_in last_day d (date_of-IsValid (day_number y (m + 1) 0)).day_in.0 h in
    omega (arith, day_number-eq y m 1 lo hi, day_number-eq y m c lo hi)

-- The clock in CST is before the first midnight of the next month.
now_in_month : (now : Time) → now + cst_offset < midnight (month_next (day_of (now + cst_offset)))
unfolding midnight day_of
now_in_month now = omega (arith, (month_contains (day_of (now + cst_offset))).1)

next_in_month :
    (now : Time) (d : ℕ)
    → 1 ≤ d
    → let following = date_of (month_next (day_of (now + cst_offset))) in
      now < monthly_reset_in_month following.year following.month d
next_in_month now d h =
    let n = day_of (now + cst_offset) in
    let following = date_of (month_next n) in
    let v = date_of-IsValid (month_next n) in
    omega (
      arith,
      now_in_month now,
      reset_in_month following.year following.month d v.month_in.0 v.month_in.1 h,
      ap midnight (month_first-month_next n),
    )

-- For every day from 1 on, `nextMonthlyReset` gives a time later than now.
pub next_monthly_reset-after : (now : Time) (d : ℕ) → 1 ≤ d → now < next_monthly_reset now d
unfolding next_monthly_reset cst_date
next_monthly_reset-after now d h =
    let today = cst_date now in
    let next = monthly_reset_in_month today.year today.month d in
    elim (Bool-cases (after next now)) [
      | inl later ↦ rw (later, next_monthly_reset) (ltb→lt now next later)
      | inr past ↦ rw (past, next_monthly_reset) (next_in_month now d h)
    ]
