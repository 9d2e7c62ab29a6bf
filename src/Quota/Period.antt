-- ===== src/Quota/Period.antt =====
-- internal/quota/period.go: the natural periods (UTC days, ISO weeks, months) of the quotas.
-- An unknown dimension is an error, `none`.
pub mod Laws
use llms_proxy.Base.{ℕ, ◌+◌, ◌-◌, ◌%◌, ◌≡◌, refl, String, str_eq, Option, none, some, if◌then◌else◌}
use llms_proxy.Base.Time.{Time}
use llms_proxy.Calendar.{date_of, day_number, weekday, day_of, midnight}

abbrev pub daily : String
daily = "daily"

abbrev pub weekly : String
weekly = "weekly"

abbrev pub monthly : String
monthly = "monthly"

-- `int(now.Weekday()+6) % 7`: Monday is 0.
unfoldable pub monday_offset : Time → ℕ
monday_offset now = (weekday (day_of now) + 6) % 7

unfoldable pub day_start : Time → Time
day_start now = midnight (day_of now)

unfoldable pub week_start : Time → Time
week_start now = midnight (day_of now - monday_offset now)

unfoldable pub month_start : Time → Time
month_start now = let d = date_of (day_of now) in midnight (day_number d.year d.month 1)

-- PeriodRange: the start of the period, and `now`.
unfoldable pub period_range : String → Time → Option (Time × Time)
period_range dimension now =
    if str_eq dimension daily
    then some (day_start now, now)
    else if str_eq dimension weekly
    then some (week_start now, now)
    else if str_eq dimension monthly
    then some (month_start now, now)
    else none

unfoldable pub next_day : Time → Time
next_day now = midnight (day_of now + 1)

unfoldable pub next_week : Time → Time
next_week now = midnight (day_of now + (7 - monday_offset now))

unfoldable pub next_month : Time → Time
next_month now = let d = date_of (day_of now) in midnight (day_number d.year (d.month + 1) 1)

-- NextResetAt
unfoldable pub next_reset_at : String → Time → Option Time
next_reset_at dimension now =
    if str_eq dimension daily
    then some (next_day now)
    else if str_eq dimension weekly
    then some (next_week now)
    else if str_eq dimension monthly
    then some (next_month now)
    else none
