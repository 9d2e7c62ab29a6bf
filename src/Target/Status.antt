-- ===== src/Target/Status.antt =====
-- internal/proxy/service.go: TargetStatuses, which counts the keys of each target by what rests them. The
-- endpoint is kept as it was parsed, where the source prints it. The loop's local counters are the record
-- `KeyCounts`.
use llms_proxy.Base.{
  ℕ, suc, ◌+◌, ◌≡◌, Bool, true, false, not, ◌&&◌, Option, none, some, List, [], ◌∷◌, String, str_eq,
  length, if◌then◌else◌,
}
use llms_proxy.Base.Int.{ℤ}
use llms_proxy.Base.Text.{is_empty}
use llms_proxy.Base.Time.{Time}
use llms_proxy.KeyPool.State.{KeyEntry, KeyPool}
use llms_proxy.KeyPool.Load.{active_key_count}
use llms_proxy.KeyPool.Report.{KeyStatus, statuses}
use llms_proxy.Target.{Url, Target, TargetState, is_muted, stats}

pub record KeyCounts : Type 0 where
  pub total_keys : ℕ
  pub active_keys : ℕ
  pub exhausted_subscription_keys : ℕ
  pub exhausted_api_keys : ℕ
  pub rate_limited_keys : ℕ
  pub blocked_keys : ℕ
  pub other_exhausted_keys : ℕ

-- TargetStatus
pub record TargetStatus : Type 0 where
  pub name : String
  pub endpoint_type : String
  pub endpoint : Url
  pub paused : Bool
  pub muted : Bool
  pub muted_until : Time
  pub last_success : Time
  pub last_failure : Time
  pub consecutive_failures : ℤ
  pub total_success_requests : ℤ
  pub total_failed_requests : ℤ
  pub keys : KeyCounts

-- The `switch` on the status of a key.
abbrev pub count_key : KeyStatus → KeyCounts → KeyCounts
count_key k c =
    if k.blocked
    then record c { blocked_keys = suc c.blocked_keys }
    else if not k.exhausted
    then record c { active_keys = suc c.active_keys }
    else if str_eq k.exhaust_reason "quota_exceeded_subscription"
    then record c { exhausted_subscription_keys = suc c.exhausted_subscription_keys }
    else if str_eq k.exhaust_reason "quota_exceeded_api"
    then record c { exhausted_api_keys = suc c.exhausted_api_keys }
    else if str_eq k.exhaust_reason "rate_limited"
    then record c { rate_limited_keys = suc c.rate_limited_keys }
    else record c { other_exhausted_keys = suc c.other_exhausted_keys }

-- The loop over the statuses of the keys.
unfoldable pub count_keys : KeyCounts → List KeyStatus → KeyCounts
count_keys c [] = c
count_keys c (k ∷ ks) = count_keys (count_key k c) ks

abbrev pub no_keys : KeyCounts
no_keys = record {
  total_keys = 0;
  active_keys = 0;
  exhausted_subscription_keys = 0;
  exhausted_api_keys = 0;
  rate_limited_keys = 0;
  blocked_keys = 0;
  other_exhausted_keys = 0;
}

abbrev pub one_key : KeyCounts
one_key = record no_keys { total_keys = 1; active_keys = 1 }

abbrev pub pool_counts : List KeyStatus → KeyCounts
pool_counts ks = count_keys (record no_keys { total_keys = length ks }) ks

abbrev pub key_counts : Target → Option KeyPool → Time → KeyCounts
key_counts t (some p) now = pool_counts (statuses p now)
key_counts t none now = if is_empty t.api_key then no_keys else one_key

unfoldable pub target_status : Time → TargetState → TargetStatus
target_status now s =
    let snapshot = stats s in
    record {
      name = s.target.name;
      endpoint_type = s.target.endpoint_type;
      endpoint = s.target.endpoint;
      paused = s.target.paused;
      muted = is_muted s now;
      muted_until = snapshot.muted_until;
      last_success = snapshot.last_success;
      last_failure = snapshot.last_failure;
      consecutive_failures = snapshot.consecutive_failure;
      total_success_requests = snapshot.total_success;
      total_failed_requests = snapshot.total_failure;
      keys = key_counts s.target s.key_pool now;
    }

-- TargetStatuses
unfoldable pub target_statuses : List TargetState → Time → List TargetStatus
target_statuses [] now = []
target_statuses (s ∷ ss) now = target_status now s ∷ target_statuses ss now

-- All classes of keys together.
abbrev pub classes : KeyCounts → ℕ
classes c =
    c.active_keys + c.exhausted_subscription_keys + c.exhausted_api_keys + c.rate_limited_keys
    + c.blocked_keys + c.other_exhausted_keys

unfoldable pub count_if : (KeyEntry → Bool) → List KeyEntry → ℕ
count_if f [] = 0
count_if f (e ∷ es) = let rest = count_if f es in if f e then suc rest else rest

-- A key that nobody has blocked, at rest for the reason `reason`.
abbrev pub rests_for : String → KeyEntry → Bool
rests_for reason e = not e.blocked && (e.exhausted && str_eq e.exhaust_reason reason)

-- The counts of the keys of a pool, class by class. The other exhausted keys are those that are missing
-- from the sum.
pub record Counted (p : KeyPool) (c : KeyCounts) : Type 0 where
  pub total : c.total_keys ≡ length p.entries
  pub active : c.active_keys ≡ active_key_count p
  pub blocked : c.blocked_keys ≡ count_if (λ e. e.blocked) p.entries
  pub subscription :
      c.exhausted_subscription_keys ≡ count_if (rests_for "quota_exceeded_subscription") p.entries
  pub api : c.exhausted_api_keys ≡ count_if (rests_for "quota_exceeded_api") p.entries
  pub limited : c.rate_limited_keys ≡ count_if (rests_for "rate_limited") p.entries

-- What the counts of a target's keys are. Without a pool the target's one key counts as active, and there
-- may be none.
abbrev pub PoolCounts : Target → Option KeyPool → KeyCounts → Type 0
PoolCounts t none c =
    (is_empty t.api_key ≡ true → c.total_keys ≡ 0)
    × (is_empty t.api_key ≡ false → c.total_keys ≡ 1)
    × (c.active_keys ≡ c.total_keys)
PoolCounts t (some p) c = Counted p c
