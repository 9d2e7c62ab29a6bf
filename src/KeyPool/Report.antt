-- ===== src/KeyPool/Report.antt =====
-- internal/proxy/keypool.go: what the pool reports: the status of each key, the keys to probe, and
-- the classes of reasons.
use llms_proxy.Base.{
  ℕ, ◌+◌, Bool, false, not, ◌&&◌, ◌||◌, String, str_eq, Option, none, some, List, [], ◌∷◌, map,
  length, get_or, ltb, ◌==◌, if◌then◌else◌,
}
use llms_proxy.Base.Int.{ℤ, pos, ltb_ℤ}
use llms_proxy.Base.Text.{Bytes, is_empty}
use llms_proxy.Base.Time.{Time, before, sub}
use llms_proxy.KeyPool.State.{KeyEntry, KeyPool, is_active, in_bounds, blank, mask_api_key}

pub record KeyStatus : Type 0 where
  pub index : ℕ
  pub key_mask : Bytes
  pub exhausted : Bool
  pub exhaust_reason : String
  pub exhausted_at : Time
  pub cooldown_end : Time
  pub blocked : Bool
  pub last_error : Bytes
  pub last_error_at : Time
  pub status : String

-- The key in use: the first active one.
unfoldable pub current_index : List KeyEntry → ℕ → Option ℕ
current_index [] i = none
current_index (e ∷ es) i =
    let rest = current_index es (i + 1) in if is_active e then some i else rest

abbrev pub is_current : ℕ → Option ℕ → Bool
is_current i none = false
is_current i (some j) = i == j

unfoldable pub display_status : KeyEntry → ℕ → Option ℕ → Time → String
display_status e i current now =
    if e.blocked
    then "已屏蔽"
    else if e.exhausted && str_eq e.exhaust_reason "quota_exceeded_subscription"
    then "额度超限(自动恢复)"
    else if e.exhausted && str_eq e.exhaust_reason "quota_exceeded_api"
    then "额度超限(人工恢复)"
    else if e.exhausted && str_eq e.exhaust_reason "quota_exceeded"
    then "额度超限"
    else if e.exhausted && (str_eq e.exhaust_reason "rate_limited" && before now e.cooldown_end)
    then "限流中"
    else if e.exhausted
    then "使用过"
    else if is_current i current
    then "使用中"
    else "等待中"

unfoldable pub key_status : KeyEntry → ℕ → Option ℕ → Time → KeyStatus
key_status e i current now = record {
  index = i;
  key_mask = mask_api_key e.key;
  exhausted = e.exhausted;
  exhaust_reason = if e.exhausted then e.exhaust_reason else "";
  exhausted_at = if e.exhausted then e.exhausted_at else 0;
  cooldown_end = if e.exhausted then e.cooldown_end else 0;
  blocked = e.blocked;
  last_error = if is_empty e.last_error then [] else e.last_error;
  last_error_at = if is_empty e.last_error then 0 else e.last_error_at;
  status = display_status e i current now;
}

unfoldable pub statuses_from : List KeyEntry → ℕ → Option ℕ → Time → List KeyStatus
statuses_from [] i current now = []
statuses_from (e ∷ es) i current now =
    key_status e i current now ∷ statuses_from es (i + 1) current now

-- status
unfoldable pub statuses : KeyPool → Time → List KeyStatus
statuses p now = statuses_from p.entries 0 (current_index p.entries 0) now

-- The loop of `getExhaustedKeys`: the keys that are exhausted or blocked, and what is left of their
-- cooldown, which is at least 0.
unfoldable pub resting_from : Time → List KeyEntry → ℕ → List (ℕ × ℤ)
resting_from now [] i = []
resting_from now (e ∷ es) i =
    let rest = resting_from now es (i + 1) in
    let remaining = sub e.cooldown_end now in
    if e.exhausted || e.blocked
    then (i, if ltb_ℤ remaining (pos 0) then pos 0 else remaining) ∷ rest
    else rest

-- getExhaustedKeys. `sort.Slice` by the remaining time is the argument.
unfoldable pub get_exhausted_keys : (List (ℕ × ℤ) → List (ℕ × ℤ)) → KeyPool → Time → List ℕ
get_exhausted_keys sort p now = map (λ (r : ℕ × ℤ). r.0) (sort (resting_from now p.entries 0))

abbrev pub one_of : String → List String → Bool
one_of s [] = false
one_of s (t ∷ ts) = str_eq s t || one_of s ts

-- isAccountLevelExhaustion
unfoldable pub is_account_level_exhaustion : String → Bool
is_account_level_exhaustion reason = one_of reason (
    "invalid_token" ∷ "account_disabled" ∷ "billing_error" ∷ "quota_exceeded_api" ∷ "Arrearage"
    ∷ "free_tier_exhausted" ∷ "AccessDenied.Unpurchased" ∷ [])

-- isHardFailureReason
unfoldable pub is_hard_failure_reason : String → Bool
is_hard_failure_reason reason = one_of reason (
    "invalid_token" ∷ "account_disabled" ∷ "billing_error" ∷ "rate_limited" ∷ "quota_exceeded_api"
    ∷ "quota_exceeded_subscription" ∷ "Arrearage" ∷ "free_tier_exhausted"
    ∷ "AccessDenied.Unpurchased" ∷ [])

-- exhaustReasonAt
unfoldable pub exhaust_reason_at : KeyPool → ℤ → String
exhaust_reason_at p index = elim (in_bounds index (length p.entries)) [
  | none ↦ ""
  | some i ↦ let e = get_or p.entries i blank in if e.exhausted then e.exhaust_reason else ""
]

keep_probeable : KeyPool → List ℕ → List ℕ
keep_probeable p [] = []
keep_probeable p (i ∷ is) =
    let rest = keep_probeable p is in
    if ltb i (length p.entries)
      && not (is_hard_failure_reason (get_or p.entries i blank).exhaust_reason)
    then i ∷ rest
    else rest

-- getProbeableExhaustedKeys
unfoldable pub get_probeable_exhausted_keys :
    (List (ℕ × ℤ) → List (ℕ × ℤ)) → KeyPool → Time → List ℕ
unfolding keep_probeable
get_probeable_exhausted_keys sort p now = keep_probeable p (get_exhausted_keys sort p now)
