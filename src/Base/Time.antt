-- ===== src/Base/Time.antt =====
-- Go's time.Time as the nanoseconds since its zero value, 0001-01-01 00:00 UTC, and time.Duration.
-- Wall clock and monotonic clock are one here.
use Prim.Native.Nat.{ℕ, ◌+◌, ◌-◌, ◌*◌, ◌^◌, ◌≤◌, ◌<◌, min}
use mathlib.Core.Path.{◌≡◌}
use mathlib.Core.Logic.{◌↔◌}
use mathlib.Core.Bool.{Bool, true}
use native.Mathlib.Omega.{arith}
use llms_proxy.Base.Tests.{ltb, leb, ◌==◌, if◌then◌else◌}
use llms_proxy.Base.Int.{ℤ, pos, negsuc, leb_ℤ, of_bits, to_bits}

abbrev pub Time : Type 0
Time = ℕ

abbrev pub second : ℕ
second = 1000000000

abbrev pub minute : ℕ
minute = 60 * 1000000000

abbrev pub hour : ℕ
hour = 3600 * 1000000000

abbrev pub day : ℕ
day = 86400 * 1000000000

abbrev pub is_zero : Time → Bool
is_zero t = t == 0

abbrev pub before : Time → Time → Bool
before t u = ltb t u

abbrev pub after : Time → Time → Bool
after t u = ltb u t

-- `t.Add(d)`; no time lies before the zero one.
abbrev pub add_duration : Time → ℤ → Time
add_duration t (pos d) = t + d
add_duration t (negsuc d) = t - (d + 1)

-- `time.Duration(n) * time.Second`, which wraps like every int64.
unfoldable pub seconds : ℤ → ℤ
seconds n = of_bits (to_bits n * second)

pub seconds-pos : (n : ℕ) → n * second < 2 ^ 63 → seconds (pos n) ≡ pos (n * second)
unfolding seconds
seconds-pos n h = ground arith

-- `t.Sub(u)`, which stops at the ends of int64.
unfoldable pub sub : Time → Time → ℤ
sub t u = if leb u t then pos (min (t - u) (2 ^ 63 - 1)) else negsuc (min (u - t - 1) (2 ^ 63 - 1))

-- Below the largest duration, `t.Sub(u) >= d` is what it says.
pub le-sub : (d t u : ℕ) → d < 2 ^ 63 → 1 ≤ d → (leb_ℤ (pos d) (sub t u) ≡ true) ↔ (u + d ≤ t)
unfolding sub
le-sub d t u h k = ground arith
