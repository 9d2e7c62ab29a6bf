-- ===== src/KeyPool/ResetTime.antt =====
-- internal/proxy/keypool.go, the reset time of a key's quota: a day of the month, a date, or a date
-- with a time of day, in China Standard Time (UTC+8). The zero time stands for no reset time, also
-- for one that lies before year 1 in UTC; the year 0000 of a text is read as the year 1.
pub mod Next
use llms_proxy.Base.{
  ℕ, ◌+◌, ◌-◌, ◌*◌, Bool, true, false, ◌&&◌, Option, none, some, [], ◌∷◌, map, drop, ltb, leb, ◌==◌,
  if◌then◌else◌,
}
use llms_proxy.Base.Int.{pos}
use llms_proxy.Base.Text.{Bytes, bytes, is_empty, cut_prefix, trim_space, to_lower, digit?, atoi}
use llms_proxy.Base.Time.{Time, minute, hour, after}
use llms_proxy.Calendar.{Date, days_in_month, day_number, date_of, day_of, midnight}

-- The time whose clock in CST shows midnight of day `n` plus `clock`.
abbrev pub cst_offset : ℕ
cst_offset = 8 * hour

unfoldable pub from_cst : ℕ → ℕ → Time
from_cst n clock = midnight n + clock - cst_offset

-- The date that the clock in CST shows.
unfoldable pub cst_date : Time → Date
cst_date now = date_of (day_of (now + cst_offset))

unfoldable pub parse_monthly_reset_day : Bytes → Option ℕ
parse_monthly_reset_day s = elim (atoi (trim_space s)) [
  | some (pos n) ↦ if leb 1 n && leb n 31 then some n else none
  | _ ↦ none
]

-- monthlyResetInMonth: midnight of the day, or of the month's last. `month` may be 13.
unfoldable pub monthly_reset_in_month : ℕ → ℕ → ℕ → Time
monthly_reset_in_month y m d =
    let last_day = (date_of (day_number y (m + 1) 0)).mday in
    from_cst (day_number y m (if ltb last_day d then last_day else d)) 0

-- nextMonthlyReset
unfoldable pub next_monthly_reset : Time → ℕ → Time
next_monthly_reset now d =
    let today = cst_date now in
    let next = monthly_reset_in_month today.year today.month d in
    let following = date_of (day_number today.year (today.month + 1) 1) in
    if after next now then next else monthly_reset_in_month following.year following.month d

-- Two digits, as `time.Parse` reads a zero-padded field.
two_digits : Bytes → Option (ℕ × Bytes)
two_digits [] = none
two_digits (a ∷ []) = none
two_digits (a ∷ b ∷ s) = elim (digit? a) [
  | none ↦ none
  | some x ↦ elim (digit? b) [ none ↦ none | some y ↦ some (x * 10 + y, s) ]
]

-- One or two digits, as `time.Parse` reads the hour `15`.
one_or_two_digits : Bytes → Option (ℕ × Bytes)
unfolding two_digits
one_or_two_digits [] = none
one_or_two_digits (a ∷ s) = elim (digit? a) [
  | none ↦ none
  | some x ↦ elim (two_digits (a ∷ s)) [ some r ↦ some r | none ↦ some (x, s) ]
]

infixl 5 ◌>>=◌
abbrev ◌>>=◌ {ℓ κ} : {A : Type ℓ} {B : Type κ} → Option A → (A → Option B) → Option B
none >>= f = none
some a >>= f = f a

guard : Bool → Option (Unit {0})
guard true = some tt
guard false = none

literal : ℕ → Bytes → Option (Unit {0} × Bytes)
literal c s = cut_prefix (c ∷ []) s >>= λ rest. some (tt, rest)

-- The layout 2006-01-02: the day number, and what is left of the text.
parse_date : Bytes → Option (ℕ × Bytes)
unfolding two_digits literal guard
parse_date s = do
  (century, s1) ← two_digits s
  (years, s2) ← two_digits s1
  (_, s3) ← literal b'-' s2
  (m, s4) ← two_digits s3
  _ ← guard (leb 1 m && leb m 12)
  (_, s5) ← literal b'-' s4
  (d, s6) ← two_digits s5
  _ ← guard (leb 1 d && leb d (days_in_month (century * 100 + years) m))
  some (day_number (century * 100 + years) m d, s6)

-- A space of the layout stands for any number of spaces.
skip_spaces : Bytes → Bytes
skip_spaces [] = []
skip_spaces (c ∷ s) = let rest = skip_spaces s in if c == b' ' then rest else c ∷ s

parse_clock : Bytes → Option (ℕ × Bytes)
unfolding one_or_two_digits two_digits literal guard
parse_clock s = do
  (h, s1) ← one_or_two_digits s
  _ ← guard (ltb h 24)
  (_, s2) ← literal b':' s1
  (m, s3) ← two_digits s2
  _ ← guard (ltb m 60)
  some (h * hour + m * minute, s3)

-- Text left over is an error.
parse_day : Bytes → Option Time
unfolding parse_date guard
parse_day s = do (n, rest) ← parse_date s; _ ← guard (is_empty rest); some (from_cst n 0)

parse_day_and_clock : Bytes → Option Time
unfolding parse_date literal skip_spaces parse_clock guard
parse_day_and_clock s = do
  (n, rest) ← parse_date s
  (_, spaced) ← literal b' ' rest
  (clock, end) ← parse_clock (skip_spaces spaced)
  _ ← guard (is_empty end)
  some (from_cst n clock)

parse_fixed : Bytes → Time
unfolding parse_day parse_day_and_clock
parse_fixed s = elim (parse_day s) [
  | some t ↦ t
  | none ↦ elim (parse_day_and_clock s) [ some t ↦ t | none ↦ 0 ]
]

-- `strings.HasPrefix(strings.ToLower(s), "monthly:")`
has_monthly : Bytes → Bool
has_monthly s = elim (cut_prefix (bytes "monthly:") (map to_lower s)) [
  | some _ ↦ true
  | none ↦ false
]

reset_of_spec : Bytes → Time → Time
unfolding has_monthly parse_fixed
reset_of_spec s now =
    let day_text = if has_monthly s then trim_space (drop 8 s) else s in
    elim (parse_monthly_reset_day day_text) [
      | some d ↦ next_monthly_reset now d
      | none ↦ if has_monthly s then 0 else parse_fixed s
    ]

-- parseResetTimeSpec
unfoldable pub parse_reset_time_spec : Bytes → Time → Time
unfolding reset_of_spec
parse_reset_time_spec text now =
    let s = trim_space text in if is_empty s then 0 else reset_of_spec s now
