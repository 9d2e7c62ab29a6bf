-- ===== src/KeyPool/Mark.antt =====
-- internal/proxy/keypool.go: exhausting, blocking and recovering keys, and the wake-up lock.
pub mod Exhaustion
use llms_proxy.Base.{
  ℕ, ◌+◌, ◌*◌, Bool, true, false, not, ◌&&◌, ◌||◌, String, str_eq, none, some, [], length, get_or,
  modify, if◌then◌else◌,
}
use llms_proxy.Base.Int.{ℤ}
use llms_proxy.Base.Text.{Bytes, is_empty}
use llms_proxy.Base.Time.{Time, second, minute, day, is_zero, after, before}
use llms_proxy.KeyPool.ResetTime.{parse_reset_time_spec}
use llms_proxy.KeyPool.State.{KeyEntry, KeyPool, recovered, in_bounds, blank, truncate_err_body}

-- 9999-01-01 00:00 UTC, which is day 3651694.
abbrev pub permanent_end : Time
permanent_end = 3651694 * day

-- Why a key rests, and until when.
pub record Cooldown : Type 0 where
  pub reason : String
  pub until : Time

-- The two kinds of an exceeded quota: one that resets at a known time, and one that does not.
unfoldable pub quota_cooldown : Time → Time → Cooldown
quota_cooldown reset now =
    if not (is_zero reset) && after reset now
    then record { reason = "quota_exceeded_subscription"; until = reset }
    else record { reason = "quota_exceeded_api"; until = permanent_end }

-- The `switch errorCode` of `markExhaustedWithError`, with the reset time at hand.
unfoldable pub cooldown_of : String → Time → Time → Cooldown
unfolding quota_cooldown
cooldown_of error_code reset now =
    if str_eq error_code "quota_exceeded"
    then quota_cooldown reset now
    else if str_eq error_code "rate_limited"
    then record { reason = error_code; until = now + 5 * second }
    else if str_eq error_code "invalid_token"
        || str_eq error_code "billing_error"
        || str_eq error_code "account_disabled"
    then record { reason = error_code; until = now + 5 * minute }
    else record { reason = error_code; until = permanent_end }

-- A configured reset time is computed anew when a quota is exceeded.
unfoldable pub current_reset : KeyPool → Time → Time
current_reset p now =
    if is_empty p.reset_time_spec then p.reset_time else parse_reset_time_spec p.reset_time_spec now

abbrev pub exhausted_by : Cooldown → Bytes → Time → KeyEntry → KeyEntry
exhausted_by c err_body now e = record e {
  exhausted = true;
  exhausted_at = now;
  exhaust_reason = c.reason;
  cooldown_end = c.until;
  last_error = if is_empty err_body then e.last_error else truncate_err_body err_body;
  last_error_at = if is_empty err_body then e.last_error_at else now;
}

unfoldable pub exhaust_at : KeyPool → ℕ → String → Bytes → Time → KeyPool
exhaust_at p i error_code err_body now =
    let reset = current_reset p now in
    record p {
      entries = modify (exhausted_by (cooldown_of error_code reset now) err_body now) i p.entries;
      reset_time = if str_eq error_code "quota_exceeded" then reset else p.reset_time;
    }

-- markExhaustedWithError
unfoldable pub mark_exhausted_with_error : KeyPool → ℤ → String → Bytes → Time → KeyPool
mark_exhausted_with_error p index error_code err_body now =
    elim (in_bounds index (length p.entries)) [
      | none ↦ p
      | some i ↦
          if (get_or p.entries i blank).exhausted then p else exhaust_at p i error_code err_body now
    ]

-- markExhausted
unfoldable pub mark_exhausted : KeyPool → ℤ → String → Time → KeyPool
mark_exhausted p index error_code now = mark_exhausted_with_error p index error_code [] now

-- markRateLimited
unfoldable pub mark_rate_limited : KeyPool → ℤ → Time → KeyPool
mark_rate_limited p index now = mark_exhausted p index "rate_limited" now

-- blockKey
unfoldable pub block_key : KeyPool → ℤ → KeyPool
block_key p index = elim (in_bounds index (length p.entries)) [
  | none ↦ p
  | some i ↦ record p { entries = modify (λ e. record e { blocked = true }) i p.entries }
]

-- unblockKey
unfoldable pub unblock_key : KeyPool → ℤ → KeyPool
unblock_key p index = elim (in_bounds index (length p.entries)) [
  | none ↦ p
  | some i ↦ record p {
    entries = modify (λ e. record (recovered e) { blocked = false }) i p.entries;
  }
]

-- markRecovered
unfoldable pub mark_recovered : KeyPool → ℤ → KeyPool × Bool
mark_recovered p index = elim (in_bounds index (length p.entries)) [
  | none ↦ (p, false)
  | some i ↦
      if (get_or p.entries i blank).exhausted
      then (record p { entries = modify recovered i p.entries }, true)
      else (p, false)
]

-- tryWakeUp, with nothing between the test of the cooldown and the swap of the flag.
unfoldable pub try_wake_up : KeyPool → Time → KeyPool × Bool
try_wake_up p now =
    if before now p.wake_up_cooldown
    then (p, false)
    else if p.wake_up_in_progress
    then (p, false)
    else (record p { wake_up_in_progress = true }, true)

-- wakeUpComplete
unfoldable pub wake_up_complete : KeyPool → Time → KeyPool
wake_up_complete p now = record p {
  wake_up_cooldown = now + 1 * minute;
  wake_up_in_progress = false;
}
