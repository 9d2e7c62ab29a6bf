-- ===== src/Config/Validate.antt =====
-- internal/config/config.go: Validate, and IsValidEndpointType of endpoint_type.go's table. A problem
-- keeps what is formatted into its text. Of `Config` the fields that Validate reads are kept.
pub mod Laws
pub mod Targets
use llms_proxy.Base.{
  ℕ, suc, Bool, true, false, not, ◌&&◌, List, [], ◌∷◌, ◌++◌, String, if◌then◌else◌,
}
use llms_proxy.Base.Int.{ℤ, pos, ltb_ℤ}
use llms_proxy.Base.Strings.{lower_string, trim_string, is_blank, member}
use llms_proxy.Base.Text.{Bytes, is_empty, trim_space}
use llms_proxy.Config.{
  ModelMapping, TargetConfig, normalize_endpoint_type, normalize_target_for_compatibility,
}

-- The codes of `endpointTypes`.
abbrev pub endpoint_types : List String
endpoint_types =
    "azure_openai" ∷ "openai" ∷ "claude" ∷ "gemini" ∷ "openai_image" ∷ "dual_protocol" ∷ []

-- IsValidEndpointType
unfoldable pub is_valid_endpoint_type : String → Bool
is_valid_endpoint_type t = member (lower_string (trim_string t)) endpoint_types

-- Config
pub record Settings : Type 0 where
  pub bind : String
  pub request_timeout_seconds : ℤ
  pub targets : List TargetConfig
  pub db_path : String
  pub cookie_name : String
  pub secret : String
  pub ttl_seconds : ℤ
  pub level : String
  pub access_log : String
  pub error_log : String

-- What Validate reports, with the index of the target and of the mapping.
pub data Problem : Type 0 where
  must_not_be_empty : String → Problem
  must_be_positive : String → Problem
  invalid_endpoint_type : ℕ → String → Problem
  empty_target_name : ℕ → Problem
  empty_endpoint : ℕ → Problem
  empty_api_key : ℕ → Problem
  empty_upstream : ℕ → ℕ → Problem
  duplicate_upstream : ℕ → ℕ → String → Problem
  conflicting_fallback : ℕ → ℕ → String → Problem
  duplicate_fallback : ℕ → ℕ → String → Problem

unfoldable pub problem_if : Bool → Problem → List Problem
problem_if b p = if b then p ∷ [] else []

-- `upstreamSet` after the mapping
abbrev pub upstreams_with : ModelMapping → List String → List String
upstreams_with m ups =
    let up = trim_string m.upstream in if is_blank up then ups else lower_string up ∷ ups

-- `fallbackSet` after the mapping
abbrev pub fallbacks_with : ModelMapping → List String → List String
fallbacks_with m fbs =
    let fb = trim_string m.fallback in
    if is_blank (trim_string m.upstream)
    then fbs
    else if is_blank fb
    then fbs
    else lower_string fb ∷ fbs

-- `ups` are the upstream names with the mapping's own.
abbrev pub fallback_problems : ℕ → ℕ → List String → List String → ModelMapping → List Problem
fallback_problems i j ups fbs m =
    let fb = trim_string m.fallback in
    if is_blank fb
    then []
    else problem_if (member (lower_string fb) ups) (conflicting_fallback i j fb)
      ++ problem_if (member (lower_string fb) fbs) (duplicate_fallback i j fb)

abbrev pub one_mapping : ℕ → ℕ → List String → List String → ModelMapping → List Problem
one_mapping i j ups fbs m =
    let up = trim_string m.upstream in
    if is_blank up
    then empty_upstream i j ∷ []
    else problem_if (member (lower_string up) ups) (duplicate_upstream i j up)
      ++ fallback_problems i j (lower_string up ∷ ups) fbs m

-- The loop over the mappings of a target.
unfoldable pub mapping_problems :
    ℕ → ℕ → List String → List String → List ModelMapping → List Problem
mapping_problems i j ups fbs [] = []
mapping_problems i j ups fbs (m ∷ ms) =
    one_mapping i j ups fbs m
    ++ mapping_problems i (suc j) (upstreams_with m ups) (fallbacks_with m fbs) ms

unfoldable pub some_key : List Bytes → Bool
some_key [] = false
some_key (k ∷ ks) = if not (is_empty (trim_space k)) then true else some_key ks

abbrev pub has_any_key : TargetConfig → Bool
has_any_key t = if not (is_empty (trim_space t.api_key)) then true else some_key t.api_keys

-- The checks on a normalised target.
unfoldable pub target_problems : ℕ → TargetConfig → List Problem
target_problems i t =
    problem_if (not (is_valid_endpoint_type (normalize_endpoint_type t.endpoint_type)))
      (invalid_endpoint_type i t.endpoint_type)
    ++ problem_if (is_blank (trim_string t.name)) (empty_target_name i)
    ++ problem_if (is_blank (trim_string t.endpoint)) (empty_endpoint i)
    ++ problem_if (not (has_any_key t) && not t.allow_bearer) (empty_api_key i)
    ++ mapping_problems i 0 [] [] t.model_mappings

unfoldable pub normalized : List TargetConfig → List TargetConfig
normalized [] = []
normalized (t ∷ ts) = normalize_target_for_compatibility t ∷ normalized ts

-- The loop over the targets.
unfoldable pub targets_problems : ℕ → List TargetConfig → List Problem
targets_problems i [] = []
targets_problems i (t ∷ ts) =
    target_problems i (normalize_target_for_compatibility t) ++ targets_problems (suc i) ts

abbrev pub not_empty : String → String → List Problem
not_empty field value = problem_if (is_blank (trim_string value)) (must_not_be_empty field)

abbrev pub positive : String → ℤ → List Problem
positive field value = problem_if (not (ltb_ℤ (pos 0) value)) (must_be_positive field)

unfoldable pub problems_of : Settings → List Problem
problems_of c =
    not_empty "server.bind" c.bind
    ++ positive "server.request_timeout_seconds" c.request_timeout_seconds
    ++ targets_problems 0 c.targets
    ++ not_empty "data_store.db_path" c.db_path
    ++ not_empty "admin_session.cookie_name" c.cookie_name
    ++ not_empty "admin_session.secret" c.secret
    ++ positive "admin_session.ttl_seconds" c.ttl_seconds
    ++ not_empty "logging.level" c.level
    ++ not_empty "logging.access_log" c.access_log
    ++ not_empty "logging.error_log" c.error_log

-- Validate: the configuration with its targets normalised, and the problems, none if it is valid.
unfoldable pub validate : Settings → Settings × List Problem
validate c = (record c { targets = normalized c.targets }, problems_of c)
