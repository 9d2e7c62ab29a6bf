-- ===== src/Quota/Period/Laws.antt =====
-- The periods of internal/quota/period.go on the time line.
use llms_proxy.Base.{
  ℕ, ◌+◌, ◌-◌, ◌%◌, ◌≤◌, ◌<◌, ◌≡◌, refl, sym, subst, ◌↔◌, ◌⊎◌, inl, inr, String, some, arith,
}
use llms_proxy.Base.Time.{Time, hour}
use llms_proxy.Calendar.{weekday, day_of, midnight}
use llms_proxy.Calendar.Months.{month_first, month_next, month_contains, same_month_bounds}
use llms_proxy.Quota.Period.{
  daily, weekly, monthly, monday_offset, day_start, week_start, month_start, period_range, next_day,
  next_week, next_month, next_reset_at,
}

-- A way to cut the days into adjacent pieces: the first day of the piece of a day, and of the next.
record Cut (first next : ℕ → ℕ) : Type 0 where
  contains : (n : ℕ) → (first n ≤ n) × (n < next n)
  same : (n k : ℕ) → first n ≤ k → k < next n → (first k ≡ first n) × (next k ≡ next n)

days : Cut (λ n. n) (λ n. n + 1)
days = record { contains = λ n. omega arith; same = λ n k lo hi. omega arith }

weeks : Cut (λ n. n - ((n + 1) % 7 + 6) % 7) (λ n. n + (7 - ((n + 1) % 7 + 6) % 7))
weeks = record { contains = λ n. omega arith; same = λ n k lo hi. omega arith }

months : Cut month_first month_next
months = record { contains = month_contains; same = same_month_bounds }

-- The period that a dimension gives to a time: its start and its end.
pub record Spans (dimension : String) (t from to : Time) : Type 0 where
  pub range : period_range dimension t ≡ some (from, t)
  pub reset : next_reset_at dimension t ≡ some to

abbrev pub IsDimension : String → Type 0
IsDimension dimension = (dimension ≡ daily) ⊎ ((dimension ≡ weekly) ⊎ (dimension ≡ monthly))

-- Each dimension reads its period off a cut.
record Reads (dimension : String) : Type 0 where
  first : ℕ → ℕ
  next : ℕ → ℕ
  cut : Cut first next
  spans : (t : Time) → Spans dimension t (midnight (first (day_of t))) (midnight (next (day_of t)))

reads : (dimension : String) → IsDimension dimension → Reads dimension
unfolding period_range next_reset_at day_start week_start month_start next_day next_week next_month
    monday_offset weekday
reads dimension (inl h) = subst Reads (sym h) (record {
  first = λ n. n;
  next = λ n. n + 1;
  cut = days;
  spans = λ t. record { range = refl; reset = refl };
})
reads dimension (inr (inl h)) = subst Reads (sym h) (record {
  first = λ n. n - ((n + 1) % 7 + 6) % 7;
  next = λ n. n + (7 - ((n + 1) % 7 + 6) % 7);
  cut = weeks;
  spans = λ t. record { range = refl; reset = refl };
})
reads dimension (inr (inr h)) = subst Reads (sym h) (record {
  first = month_first;
  next = month_next;
  cut = months;
  spans = λ t. record { range = refl; reset = refl };
})

midnight_bounds :
    (a b t : ℕ) → ((midnight a ≤ t) ↔ (a ≤ day_of t)) × ((t < midnight b) ↔ (day_of t < b))
unfolding midnight day_of
midnight_bounds a b t = ((λ h. omega arith, λ h. omega arith), (λ h. omega arith, λ h. omega arith))

reset_on_hour :
    (dimension : String) (now from to : Time) → Spans dimension now from to → to % hour ≡ 0
unfolding next_reset_at next_day next_week next_month midnight
reset_on_hour dimension now from to s = ground (arith, s)

-- In each dimension a time has a period, from its start up to and without the next reset; and the
-- reset falls on a full hour, at which the calibration runs.
pub period_contains :
    (dimension : String) (now : Time)
    → IsDimension dimension
    → (from : Time) × (to : Time) × Spans dimension now from to
      × (from ≤ now)
      × (now < to)
      × (to % hour ≡ 0)
period_contains dimension now h =
    let r = reads dimension h in
    let inside = r.cut.contains (day_of now) in
    let bounds = midnight_bounds (r.first (day_of now)) (r.next (day_of now)) now in
    (
      midnight (r.first (day_of now)),
      midnight (r.next (day_of now)),
      r.spans now,
      bounds.0.1 inside.0,
      bounds.1.1 inside.1,
      reset_on_hour dimension now _ _ (r.spans now),
    )

Spans-unique :
    (dimension : String) (t a b c d : Time)
    → Spans dimension t a b
    → Spans dimension t c d
    → (a ≡ c) × (b ≡ d)
Spans-unique dimension t a b c d p q = ground (arith, p, q)

-- All times of one period have that period: no clock inside it sees another start or reset.
pub period_constant :
    (dimension : String) (now t from to : Time)
    → IsDimension dimension
    → Spans dimension now from to
    → from ≤ t
    → t < to
    → Spans dimension t from to
period_constant dimension now t from to h s lo hi =
    let r = reads dimension h in
    let is = Spans-unique dimension now _ _ _ _ s (r.spans now) in
    let bounds = midnight_bounds (r.first (day_of now)) (r.next (day_of now)) t in
    let same =
      r.cut.same (day_of now) (day_of t) (bounds.0.0 (rw is.0 at lo))
        (bounds.1.0 (rw is.1 at hi)) in
    rw (is.0, is.1, ← same.0, ← same.1) (r.spans t)
