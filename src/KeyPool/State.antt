-- ===== src/KeyPool/State.antt =====
-- internal/proxy/keypool.go: `tokenSample`, `keyEntry`, `keyPool`, `newKeyPool`, and what is done to
-- one entry. A nil pool (a target without keys) is `none`; the methods return at once on it. Loggers
-- are left out. A selected key and its index are `some`, and ("", -1) is `none`.
use llms_proxy.Base.{
  ℕ, zero, suc, ◌-◌, ◌*◌, Bool, false, not, ◌&&◌, String, Option, none, some, List, [], ◌∷◌, ◌++◌,
  map, length, get_or, take, drop, leb, ltb, if◌then◌else◌,
}
use llms_proxy.Base.Int.{ℤ, pos, negsuc}
use llms_proxy.Base.Maps.{Map}
use llms_proxy.Base.Text.{Bytes, bytes, trim_space}
use llms_proxy.Base.Time.{Time, second, minute}
use llms_proxy.KeyPool.ResetTime.{parse_reset_time_spec}

pub record TokenSample : Type 0 where
  pub at : Time
  pub tokens : ℤ

pub record KeyEntry : Type 0 where
  pub key : Bytes
  pub exhausted : Bool
  pub exhausted_at : Time
  pub exhaust_reason : String
  pub cooldown_end : Time
  pub blocked : Bool
  pub token_samples : List TokenSample
  pub last_error : Bytes
  pub last_error_at : Time

pub record KeyPool : Type 0 where
  pub entries : List KeyEntry
  pub reset_time : Time
  pub reset_time_spec : Bytes
  pub target_name : String
  pub rr_counter : ℕ  -- uint32
  pub client_affinity : Map ℕ
  pub token_window : ℕ
  pub in_flight : List ℤ  -- int64
  pub client_affinity_at : Map Time
  pub rebalance_interval : ℕ
  pub affinity_ttl : ℕ
  pub max_affinity_entries : ℕ
  pub wake_up_cooldown : Time
  pub wake_up_in_progress : Bool

abbrev pub new_entry : Bytes → KeyEntry
new_entry k = record {
  key = k;
  exhausted = false;
  exhausted_at = 0;
  exhaust_reason = "";
  cooldown_end = 0;
  blocked = false;
  token_samples = [];
  last_error = [];
  last_error_at = 0;
}

unfoldable pub new_pool : String → List Bytes → Bytes → Time → KeyPool
new_pool target_name keys spec now = record {
  entries = map new_entry keys;
  reset_time = parse_reset_time_spec spec now;
  reset_time_spec = spec;
  target_name = target_name;
  rr_counter = 0;
  client_affinity = [];
  token_window = 3 * minute;
  in_flight = map (λ _. pos 0) keys;
  client_affinity_at = [];
  rebalance_interval = 30 * second;
  affinity_ttl = 10 * minute;
  max_affinity_entries = 10000;
  wake_up_cooldown = 0;
  wake_up_in_progress = false;
}

-- newKeyPool
unfoldable pub new_key_pool : String → List Bytes → Bytes → Time → Option KeyPool
unfolding new_pool
new_key_pool target_name [] spec now = none
new_key_pool target_name (k ∷ keys) spec now =
    some (new_pool target_name (k ∷ keys) (trim_space spec) now)

-- Neither cooling down nor blocked by hand.
abbrev pub is_active : KeyEntry → Bool
is_active e = not e.exhausted && not e.blocked

abbrev pub usable_at : List KeyEntry → ℕ → Bool
usable_at [] i = false
usable_at (e ∷ es) zero = is_active e
usable_at (e ∷ es) (suc i) = usable_at es i

-- What ends an exhaustion. The manual block and the last error stay.
abbrev pub recovered : KeyEntry → KeyEntry
recovered e = record e {
  exhausted = false;
  exhausted_at = 0;
  exhaust_reason = "";
  cooldown_end = 0;
}

-- A Go index: `none` where it is negative or not below the length.
abbrev pub in_bounds : ℤ → ℕ → Option ℕ
in_bounds (pos i) n = if ltb i n then some i else none
in_bounds (negsuc i) n = none

-- maskAPIKey
unfoldable pub mask_api_key : Bytes → Bytes
mask_api_key key =
    if leb (length key) 10
    then bytes "***"
    else take 6 key ++ (bytes "***" ++ drop (length key - 4) key)

-- truncateErrBody
unfoldable pub truncate_err_body : Bytes → Bytes
truncate_err_body text =
    let s = trim_space text in
    if ltb 512 (length s) then take 512 s ++ bytes "...(truncated)" else s

-- A chosen key, read back from its index.
abbrev pub Selection : Type 0
Selection = Option (Bytes × ℕ)

abbrev pub blank : KeyEntry
blank = new_entry []

abbrev pub found : KeyPool → ℕ → KeyPool × Selection
found p i = (p, some ((get_or p.entries i blank).key, i))
