-- ===== src/Target/Examples.antt =====
-- internal/proxy/target.go: runs, and theorems at a service of two targets.
use llms_proxy.Base.{
  inl, ℕ, ◌+◌, ◌≡◌, refl, arith, true, false, Option, none, some, List, [], ◌∷◌, String,
}
use llms_proxy.Base.Int.{pos}
use llms_proxy.Base.Strings.{member, lower_string, trim_string, trim_left, trim_right}
use llms_proxy.Base.Text.{bytes, trim_space, to_lower}
use llms_proxy.Protocol.{
  path_supported_by_endpoint_type, request_schema_for_path, is_anthropic_style_path,
  is_openai_responses_style_path, path_has_any_suffix,
}
use llms_proxy.Auth.{Principal}
use llms_proxy.Config.{
  TargetConfig, normalize_target_for_compatibility, normalize_endpoint_type,
  normalize_image_operation,
}
use llms_proxy.Config.Validate.{
  Settings, validate, problems_of, targets_problems, target_problems, problem_if, mapping_problems,
  some_key, is_valid_endpoint_type,
}
use llms_proxy.Config.Validate.Targets.{Served, update_targets-validate}
use llms_proxy.KeyPool.State.{KeyPool, new_entry, new_pool}
use llms_proxy.KeyPool.Report.{statuses, statuses_from, key_status}
use llms_proxy.Target.{
  Url, Target, TargetState, is_muted, supports_path, model_allowed, resolve_upstream_model,
}
use llms_proxy.Target.Find.{
  with_keys, candidates_of, total, weight, find_available_target_with_model,
}
use llms_proxy.Target.Find.Laws.{
  Outcome, find_available_target_with_model-Outcome, find_available_target_with_model_weighs,
}
use llms_proxy.Target.Select.{Service, select_target}
use llms_proxy.Target.Select.Laws.{Answer, select_target-Answer}
use llms_proxy.Target.Select.Explicit.{ExplicitAnswer, select_target-explicit}
use llms_proxy.Target.Status.{key_counts, count_keys}
use llms_proxy.Target.Build.{update_targets}
use llms_proxy.Target.Build.Laws.{Updated, update_targets-Updated}

-- A stand-in for net/url that takes every text.
abbrev any_url : String → Option Url
any_url s = some (record { scheme = "https"; host = s })

abbrev bare : String → List (List ℕ) → TargetConfig
bare name keys = record {
  name = name;
  endpoint_type = "openai";
  endpoint = "https://a";
  api_key = bytes "k0";
  api_keys = keys;
  key_reset_time = [];
  paused = false;
  allow_bearer = false;
  auth_mode = "";
  image_operation = "";
  model_mappings = [];
  sse_auto_aggregate = none;
  openai_prefix = "";
  anthropic_prefix = "";
  supports_responses = false;
  custom_headers = [];
}

abbrev target_a : Target
target_a = record {
  name = "A";
  endpoint_type = "openai";
  endpoint = record { scheme = "https"; host = "a" };
  api_key = bytes "k0";
  api_keys = bytes "k0" ∷ [];
  key_reset_time = [];
  paused = false;
  allow_bearer = false;
  auth_mode = "";
  image_operation = "";
  model_mappings = [];
  sse_auto_aggregate = true;
  openai_prefix = "";
  anthropic_prefix = "";
  supports_responses = false;
  custom_headers = [];
  allowed_model_idx = [];
}

abbrev state_of : String → ℕ → TargetState
state_of name muted_until = record {
  target = record target_a { name = name };
  muted_until = muted_until;
  last_success = 0;
  last_failure = 0;
  consecutive_failure = pos 0;
  total_success = pos 0;
  total_failure = pos 0;
  key_pool = none;
}

abbrev service : Service
service = record {
  targets_by_name = ("a", 0) ∷ ("b", 1) ∷ [];
  target_order = state_of "A" 50 ∷ state_of "B" 0 ∷ [];
  rr_counter = 3;
  affinity = [];
}

abbrev client : Principal
client = record {
  name = "alice";
  access_key = "k";
  allow_all = false;
  allowed_targets = "b" ∷ [];
  allowed_list = "b" ∷ [];
}

find_available_target_with_model-Outcome_example :
    Outcome none [] "gpt"
      (bytes "/v1/chat/completions")
      service.target_order
      10
      (find_available_target_with_model service.target_order 3 none [] "gpt"
        (bytes "/v1/chat/completions")
        10).1
find_available_target_with_model-Outcome_example =
    find_available_target_with_model-Outcome none [] "gpt" (bytes "/v1/chat/completions")
      service.target_order 3 10

find_available_target_with_model_weighs_example :
    find_available_target_with_model service.target_order 3 none [] "gpt"
      (bytes "/v1/chat/completions")
      10
    ≡ (3 + 1, record { available = some (state_of "B" 0); muted = none })
unfolding candidates_of total weight is_muted supports_path model_allowed resolve_upstream_model
    member path_supported_by_endpoint_type request_schema_for_path is_anthropic_style_path
    trim_space to_lower is_openai_responses_style_path path_has_any_suffix
find_available_target_with_model_weighs_example =
    find_available_target_with_model_weighs none [] "gpt" (bytes "/v1/chat/completions")
      service.target_order 3 10 (λ d. d.active_count) (with_keys (state_of "A" 50) ∷ [])
      (with_keys (state_of "B" 0)) [] (inl (omega arith, λ d. refl)) refl (omega arith)
      (omega arith) (omega arith) refl

select_target-Answer_example :
    Answer none "gpt"
      (bytes "/v1/chat/completions")
      10
      ("b" ∷ [])
      service
      (select_target service
        (some client)
        "10.0.0.1"
        ""
        none
        ("b" ∷ [])
        "gpt"
        (bytes "/v1/chat/completions")
        10).1
select_target-Answer_example =
    select_target-Answer none "gpt" (bytes "/v1/chat/completions") 10 service (some client)
      "10.0.0.1" ("b" ∷ [])

select_target-explicit_example :
    ExplicitAnswer service (some client) "b" [] "gpt" (bytes "/v1/chat/completions") 10 (
      select_target service
        (some client)
        "10.0.0.1"
        "b"
        none
        []
        "gpt"
        (bytes "/v1/chat/completions")
        10)
select_target-explicit_example =
    select_target-explicit service (some client) "10.0.0.1" "b" none [] "gpt"
      (bytes "/v1/chat/completions") 10 refl

update_targets-Updated_example :
    Updated any_url 5 service
      (bare " A" (bytes "k1" ∷ []) ∷ bare "B " [] ∷ [])
      (update_targets any_url 5 service (bare " A" (bytes "k1" ∷ []) ∷ bare "B " [] ∷ []))
update_targets-Updated_example =
    update_targets-Updated any_url 5 service (bare " A" (bytes "k1" ∷ []) ∷ bare "B " [] ∷ [])

abbrev settings : Settings
settings = record {
  bind = ":8080";
  request_timeout_seconds = pos 60;
  targets = bare "A" [] ∷ record (bare "B" []) { endpoint_type = " Bailian" } ∷ [];
  db_path = "gateway.db";
  cookie_name = "session";
  secret = "s";
  ttl_seconds = pos 3600;
  level = "info";
  access_log = "access.log";
  error_log = "error.log";
}

settings_valid : (validate settings).1 ≡ []
unfolding validate problems_of targets_problems target_problems problem_if mapping_problems some_key
    is_valid_endpoint_type normalize_target_for_compatibility normalize_endpoint_type
    normalize_image_operation lower_string trim_string trim_left trim_right member trim_space
settings_valid = refl

update_targets-validate_example :
    Served any_url 5 (update_targets any_url 5 service (validate settings).0.targets)
update_targets-validate_example = update_targets-validate any_url 5 service settings settings_valid

-- A key blocked by hand, one that is rate limited, and one in use.
abbrev pool : KeyPool
pool = record (new_pool "A" [] [] 0) {
  entries =
      record (new_entry (bytes "k0")) { blocked = true }
      ∷ record (new_entry (bytes "k1")) { exhausted = true; exhaust_reason = "rate_limited" }
      ∷ new_entry (bytes "k2")
      ∷ [];
}

abbrev pooled : TargetState
pooled = record (state_of "A" 50) { key_pool = some pool }

pooled_counts :
    let c = key_counts target_a (some pool) 10 in
    (c.total_keys ≡ 3) × (c.active_keys ≡ 1) × (c.blocked_keys ≡ 1) × (c.rate_limited_keys ≡ 1)
unfolding count_keys statuses statuses_from key_status
pooled_counts = (refl, refl, refl, refl)
