-- ===== src/Target/Build.antt =====
-- internal/proxy/target.go: buildTargetStates, buildModelIndex and normalizePrefix, and
-- UpdateTargets of internal/proxy/service.go. `net/url`'s Parse
-- is the parameter `parse_url`, `none` for its error. The map holds the positions of the states in the
-- order. The keys seen so far are those merged so far.
pub mod Built
pub mod Laws
use mathlib.Core.List.{reverse}
use llms_proxy.Base.{
  ℕ, suc, ◌+◌, Bool, true, false, not, ◌&&◌, ◌||◌, Option, none, some, List, [], ◌∷◌, ◌++◌, String,
  length, ◌==◌, if◌then◌else◌,
}
use llms_proxy.Base.Maps.{Map, insert, has}
use llms_proxy.Base.Strings.{lower_string, trim_string, is_blank}
use llms_proxy.Base.Text.{Bytes, bytes, bytes_eq, is_empty, trim_space}
use llms_proxy.Base.Time.{Time}
use llms_proxy.Config.{
  ModelMapping, TargetConfig, normalize_target_for_compatibility, normalize_endpoint_type,
  normalize_image_operation,
}
use llms_proxy.Protocol.{has_prefix}
use llms_proxy.Target.Select.{Service}
use llms_proxy.Target.{Url, Target, TargetState, new_target_state}

-- strings.TrimRight(s, "/"), on the reversed text
abbrev pub drop_slashes : Bytes → Bytes
drop_slashes [] = []
drop_slashes (c ∷ s) = let rest = drop_slashes s in if c == b'/' then rest else c ∷ s

-- normalizePrefix
unfoldable pub normalize_prefix : Bytes → Bytes
normalize_prefix prefix =
    let p = trim_space prefix in
    if is_empty p
    then []
    else reverse (drop_slashes (reverse (if has_prefix (bytes "/") p then p else b'/' ∷ p)))

abbrev pub add_fallback : String → String → Map String → Map String
add_fallback fallback upstream idx =
    if is_blank fallback || has fallback idx then idx else insert fallback upstream idx

abbrev pub add_mapping : ModelMapping → Map String → Map String
add_mapping m idx =
    let up_key = lower_string (trim_string m.upstream) in
    if is_blank up_key
    then idx
    else add_fallback (lower_string (trim_string m.fallback)) m.upstream
        (insert up_key m.upstream idx)

unfoldable pub index_models : Map String → List ModelMapping → Map String
index_models idx [] = idx
index_models idx (m ∷ ms) = index_models (add_mapping m idx) ms

-- buildModelIndex
abbrev pub build_model_index : List ModelMapping → Map String
build_model_index mappings = index_models [] mappings

unfoldable pub is_merged : Bytes → List Bytes → Bool
is_merged k [] = false
is_merged k (j ∷ js) = if bytes_eq j k then true else is_merged k js

abbrev pub add_key : Bytes → List Bytes → List Bytes
add_key k keys = if is_empty k || is_merged k keys then keys else keys ++ (k ∷ [])

unfoldable pub add_keys : List Bytes → List Bytes → List Bytes
add_keys keys [] = keys
add_keys keys (k ∷ ks) = add_keys (add_key (trim_space k) keys) ks

-- The pool of keys: `api_key` first, then those of `api_keys`, each once.
unfoldable pub merge_keys : Bytes → List Bytes → List Bytes
merge_keys api_key api_keys =
    let primary = trim_space api_key in
    add_keys (if is_empty primary then [] else primary ∷ []) api_keys

abbrev pub true_or_nil : Option Bool → Bool
true_or_nil none = true
true_or_nil (some b) = b

-- The `Target` of a normalised configuration and its parsed endpoint.
unfoldable pub target_of : TargetConfig → Url → Target
target_of t endpoint = record {
  name = trim_string t.name;
  endpoint_type = normalize_endpoint_type t.endpoint_type;
  endpoint = endpoint;
  api_key = trim_space t.api_key;
  api_keys = merge_keys t.api_key t.api_keys;
  key_reset_time = t.key_reset_time;
  paused = t.paused;
  allow_bearer = t.allow_bearer;
  auth_mode = t.auth_mode;
  image_operation = normalize_image_operation t.image_operation;
  model_mappings = t.model_mappings;
  sse_auto_aggregate = true_or_nil t.sse_auto_aggregate;
  openai_prefix = t.openai_prefix;
  anthropic_prefix = t.anthropic_prefix;
  supports_responses = t.supports_responses;
  custom_headers = t.custom_headers;
  allowed_model_idx = build_model_index t.model_mappings;
}

pub data BuildError : Type 0 where
  invalid_endpoint : String → BuildError
  missing_scheme_or_host : String → BuildError
  empty_target_name : ℕ → BuildError
  missing_api_key : String → BuildError
  duplicate_target_name : String → BuildError

pub data Build : Type 0 where
  built : Map ℕ → List TargetState → Build
  rejected : BuildError → Build

-- The last three tests on a target, with the names so far.
unfoldable pub target_error : ℕ → Map ℕ → Target → Option BuildError
target_error idx parsed t =
    if is_blank t.name
    then some (empty_target_name idx)
    else if (length t.api_keys == 0) && not t.allow_bearer
    then some (missing_api_key t.name)
    else if has (lower_string t.name) parsed
    then some (duplicate_target_name t.name)
    else none

abbrev pub or_reject : Option BuildError → Build → Build
or_reject none rest = rest
or_reject (some e) rest = rejected e

-- The target of a configuration, or why its endpoint is refused.
pub data Read : Type 0 where
  read_as : Target → Read
  unreadable : BuildError → Read

abbrev pub with_endpoint : TargetConfig → Option Url → Read
with_endpoint t none = unreadable (invalid_endpoint t.name)
with_endpoint t (some u) =
    if is_blank u.scheme || is_blank u.host
    then unreadable (missing_scheme_or_host t.name)
    else read_as (target_of t u)

abbrev pub then_build : Read → (Target → Build) → Build
then_build (read_as t) rest = rest t
then_build (unreadable e) rest = rejected e

module _ (parse_url : String → Option Url) (now : Time) where
  unfoldable pub read_target : TargetConfig → Read
  read_target c =
      let t = normalize_target_for_compatibility c in
      with_endpoint t (parse_url (trim_string t.endpoint))

  abbrev pub with_name : Map ℕ → List TargetState → Target → Map ℕ
  with_name parsed order t = insert (lower_string t.name) (length order) parsed

  abbrev pub with_state : List TargetState → Target → List TargetState
  with_state order t = order ++ (new_target_state t now ∷ [])

  -- The loop over the configured targets.
  unfoldable pub build_from : ℕ → Map ℕ → List TargetState → List TargetConfig → Build
  build_from idx parsed order [] = built parsed order
  build_from idx parsed order (c ∷ cs) = then_build (read_target c) (λ t.
      or_reject (target_error idx parsed t)
        (build_from (suc idx) (with_name parsed order t) (with_state order t) cs))

  -- buildTargetStates
  unfoldable pub build_target_states : List TargetConfig → Build
  build_target_states targets = build_from 0 [] [] targets

  abbrev pub with_build : Service → Build → Service × Option BuildError
  with_build svc (rejected e) = (svc, some e)
  with_build svc (built parsed order) =
      (record svc { targets_by_name = parsed; target_order = order }, none)

  -- UpdateTargets
  unfoldable pub update_targets : Service → List TargetConfig → Service × Option BuildError
  update_targets svc targets = with_build svc (build_target_states targets)
