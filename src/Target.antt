-- ===== src/Target.antt =====
-- internal/proxy/target.go: `targetState` and its health, with `Target` and SupportsPath of
-- internal/proxy/service.go and the resolution of models of internal/proxy/sanitize.go. Of an endpoint
-- the scheme and the host are kept; `custom_body` is left out. A counter is an int64.
pub mod Build
pub mod Status
pub mod Find
pub mod Select
mod Examples
use llms_proxy.Base.{
  ℕ, suc, ◌+◌, ◌*◌, Bool, true, false, not, ◌&&◌, ◌||◌, String, str_eq, Option, none, some, List,
  [], ◌∷◌, length, ltb, ◌==◌, if◌then◌else◌,
}
use llms_proxy.Base.Int.{ℤ, pos, pos_part, leb_ℤ, add_int64}
use llms_proxy.Base.Maps.{Map, lookup, is_some}
use llms_proxy.Base.Strings.{lower_string, trim_string, is_blank}
use llms_proxy.Base.Text.{Bytes}
use llms_proxy.Base.Time.{Time, second, after}
use llms_proxy.Config.{ModelMapping}
use llms_proxy.Protocol.{
  path_supported_by_endpoint_type, openai_image_operation_supports_path,
  is_openai_responses_style_path,
}
use llms_proxy.KeyPool.State.{KeyPool, new_key_pool}

pub record Url : Type 0 where
  pub scheme : String
  pub host : String

pub record Target : Type 0 where
  pub name : String
  pub endpoint_type : String
  pub endpoint : Url
  pub api_key : Bytes
  pub api_keys : List Bytes
  pub key_reset_time : Bytes
  pub paused : Bool
  pub allow_bearer : Bool
  pub auth_mode : String
  pub image_operation : String
  pub model_mappings : List ModelMapping
  pub sse_auto_aggregate : Bool
  pub openai_prefix : String
  pub anthropic_prefix : String
  pub supports_responses : Bool
  pub custom_headers : Map String
  pub allowed_model_idx : Map String

-- SupportsPath
unfoldable pub supports_path : Target → Bytes → Bool
supports_path t path =
    if not (path_supported_by_endpoint_type t.endpoint_type path)
    then false
    else if str_eq t.endpoint_type "openai_image"
    then openai_image_operation_supports_path t.image_operation path
    else not (
        str_eq t.endpoint_type "dual_protocol"
        && (is_openai_responses_style_path path && not t.supports_responses))

-- resolveUpstreamModel, of a target that is not nil
unfoldable pub resolve_upstream_model : Target → String → Option String
resolve_upstream_model t model =
    if length t.allowed_model_idx == 0
    then some model
    else if is_blank (lower_string (trim_string model))
    then none
    else lookup (lower_string (trim_string model)) t.allowed_model_idx

-- modelAllowed
unfoldable pub model_allowed : Target → String → Bool
model_allowed t model = is_some (resolve_upstream_model t model)

pub record TargetState : Type 0 where
  pub target : Target
  pub muted_until : Time
  pub last_success : Time
  pub last_failure : Time
  pub consecutive_failure : ℤ
  pub total_success : ℤ
  pub total_failure : ℤ
  pub key_pool : Option KeyPool

-- newTargetState; `now` is the time that newKeyPool reads.
unfoldable pub new_target_state : Target → Time → TargetState
new_target_state t now = record {
  target = t;
  muted_until = 0;
  last_success = 0;
  last_failure = 0;
  consecutive_failure = pos 0;
  total_success = pos 0;
  total_failure = pos 0;
  key_pool =
      if ltb 1 (length t.api_keys)
      then new_key_pool t.name t.api_keys t.key_reset_time now
      else none;
}

-- IsMuted
unfoldable pub is_muted : TargetState → Time → Bool
is_muted s now = after s.muted_until now

-- NextRetry
abbrev pub next_retry : TargetState → Time
next_retry s = s.muted_until

-- A quiet period that is not positive is replaced by a minute.
abbrev pub quiet_or_default : ℤ → ℕ
quiet_or_default d = if leb_ℤ d (pos 0) then 60 * second else pos_part d

-- MarkFailure
unfoldable pub mark_failure : TargetState → Time → ℤ → TargetState
mark_failure s now quiet_period = record s {
  last_failure = now;
  consecutive_failure = add_int64 s.consecutive_failure (pos 1);
  total_failure = add_int64 s.total_failure (pos 1);
  muted_until = now + quiet_or_default quiet_period;
}

-- MarkSuccess
unfoldable pub mark_success : TargetState → Time → TargetState
mark_success s now = record s {
  last_success = now;
  consecutive_failure = pos 0;
  total_success = add_int64 s.total_success (pos 1);
  muted_until = 0;
}

-- TargetStats
pub record TargetStats : Type 0 where
  pub muted_until : Time
  pub last_success : Time
  pub last_failure : Time
  pub consecutive_failure : ℤ
  pub total_success : ℤ
  pub total_failure : ℤ

-- Stats
abbrev pub stats : TargetState → TargetStats
stats s = record {
  muted_until = s.muted_until;
  last_success = s.last_success;
  last_failure = s.last_failure;
  consecutive_failure = s.consecutive_failure;
  total_success = s.total_success;
  total_failure = s.total_failure;
}
