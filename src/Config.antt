-- ===== src/Config.antt =====
-- internal/config/config.go: the configuration of a target and of a client, and what brings the older
-- names of endpoint types to the present ones. JSON input is left out, as are the fields that only
-- the admin pages read and `custom_body`, which is arbitrary JSON. `sse_auto_aggregate` is a pointer
-- there: `none` is nil.
pub mod Validate
use llms_proxy.Base.{Bool, true, ◌||◌, ◌&&◌, String, str_eq, Option, List, if◌then◌else◌}
use llms_proxy.Base.Maps.{Map}
use llms_proxy.Base.Text.{Bytes, bytes}
use llms_proxy.Base.Strings.{lower_string, trim_string, is_blank}
use llms_proxy.Protocol.{contains}

pub record ModelMapping : Type 0 where
  pub upstream : String
  pub fallback : String

pub record TargetConfig : Type 0 where
  pub name : String
  pub endpoint_type : String
  pub endpoint : String
  pub api_key : Bytes
  pub api_keys : List Bytes
  pub key_reset_time : Bytes
  pub paused : Bool
  pub allow_bearer : Bool
  pub auth_mode : String
  pub image_operation : String
  pub model_mappings : List ModelMapping
  pub sse_auto_aggregate : Option Bool
  pub openai_prefix : String
  pub anthropic_prefix : String
  pub supports_responses : Bool
  pub custom_headers : Map String

-- The fields of a client that authentication reads.
pub record ClientConfig : Type 0 where
  pub name : String
  pub access_key : String
  pub allowed_targets : List String

-- The `switch` of NormalizeEndpointType, on the trimmed name in lower case.
abbrev pub current_endpoint_type : String → String
current_endpoint_type t =
    if is_blank t
    then "azure_openai"
    else if str_eq t "deepseek" || (str_eq t "bailian" || str_eq t "bailian_api")
    then "dual_protocol"
    else if str_eq t "wangsu_openai"
    then "openai"
    else if str_eq t "wangsu_claude"
    then "claude"
    else if str_eq t "wangsu_gemini"
    then "gemini"
    else if str_eq t "wangsu_openai_image" || str_eq t "wangsu_openai_image_edit"
    then "openai_image"
    else t

-- NormalizeEndpointType
unfoldable pub normalize_endpoint_type : String → String
normalize_endpoint_type t = current_endpoint_type (lower_string (trim_string t))

-- NormalizeImageOperation
unfoldable pub normalize_image_operation : String → String
normalize_image_operation op = lower_string (trim_string op)

-- InferImageOperationFromEndpoint
unfoldable pub infer_image_operation_from_endpoint : String → String
infer_image_operation_from_endpoint endpoint =
    let e = bytes (lower_string endpoint) in
    if contains (bytes "variation") e
    then "variations"
    else if contains (bytes "edit") e
    then "edits"
    else "generations"

-- `if TrimSpace(p) == "" { p = d }`
abbrev pub prefix_or : String → String → String
prefix_or d p = if is_blank (trim_string p) then d else p

-- The `switch` of NormalizeTargetForCompatibility.
abbrev pub fill_legacy : String → TargetConfig → TargetConfig
fill_legacy raw t =
    if str_eq raw "deepseek"
    then record t { anthropic_prefix = prefix_or "/anthropic" t.anthropic_prefix }
    else if str_eq raw "bailian" || str_eq raw "bailian_api"
    then record t {
      openai_prefix = prefix_or "/compatible-mode" t.openai_prefix;
      anthropic_prefix = prefix_or "/apps/anthropic" t.anthropic_prefix;
      supports_responses = true;
    }
    else if str_eq raw "wangsu_openai_image"
    then record t { image_operation = "generations" }
    else if str_eq raw "wangsu_openai_image_edit"
    then record t { image_operation = "edits" }
    else t

abbrev pub infer_operation : TargetConfig → TargetConfig
infer_operation t =
    if str_eq t.endpoint_type "openai_image" && is_blank t.image_operation
    then record t { image_operation = infer_image_operation_from_endpoint t.endpoint }
    else t

-- NormalizeTargetForCompatibility
unfoldable pub normalize_target_for_compatibility : TargetConfig → TargetConfig
normalize_target_for_compatibility t = infer_operation (
    fill_legacy (lower_string (trim_string t.endpoint_type)) (record t {
      endpoint_type = normalize_endpoint_type t.endpoint_type;
      image_operation = normalize_image_operation t.image_operation;
    }))
