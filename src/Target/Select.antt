-- ===== src/Target/Select.antt =====
-- internal/proxy/target.go: selectTarget and what it calls. `targetsByName` and `targetOrder` point to
-- the same states: the map holds positions in the order. A message keeps what is formatted into it.
-- The service's lock is held by each read of the targets, and no reload comes between two of them.
pub mod Laws
pub mod Explicit
use llms_proxy.Base.{
  ℕ, Bool, true, false, not, ◌&&◌, Option, none, some, List, [], ◌∷◌, String, str_eq, get_elem?,
  if◌then◌else◌,
}
use llms_proxy.Base.Maps.{Map, lookup}
use llms_proxy.Base.Strings.{lower_string, member, is_blank}
use llms_proxy.Base.Text.{Bytes}
use llms_proxy.Base.Time.{Time}
use llms_proxy.Affinity.{AffinityMap, affinity_key, get}
use llms_proxy.Auth.{Principal, can_access}
use llms_proxy.Target.{
  TargetState, model_allowed, resolve_upstream_model, supports_path, is_muted, next_retry,
}
use llms_proxy.Target.Find.{is_allowed, is_open, Found, find_available_target_with_model}

-- What selection reads of `Service`.
pub record Service : Type 0 where
  pub targets_by_name : Map ℕ
  pub target_order : List TargetState
  pub rr_counter : ℕ  -- uint64
  pub affinity : AffinityMap

pub data SelectionKind : Type 0 where
  selection_explicit selection_affinity_hit selection_round_robin selection_failover : SelectionKind

pub data Message : Type 0 where
  target_not_allowed : Message
  unknown_target : Message
  model_not_allowed : String → String → Message
  requested_target_paused : Message
  target_does_not_support : String → Bytes → Message
  requested_target_attempted : Message
  requested_target_unavailable : Message
  all_targets_muted_until : Time → Message
  no_alternative_target : Message
  no_target_supports : Bytes → String → Message
  model_not_supported : Message
  no_target_available : Message

pub record SelectionError : Type 0 where
  pub status : ℕ
  pub message : Message

-- newSelectionError
abbrev pub new_selection_error : ℕ → Message → SelectionError
new_selection_error status message = record { status = status; message = message }

pub data Selection : Type 0 where
  chosen : TargetState → SelectionKind → Selection
  failed : SelectionKind → SelectionError → Selection

abbrev pub at_position : List TargetState → Option ℕ → Option TargetState
at_position order none = none
at_position order (some i) = get_elem? order i

-- targetByName
unfoldable pub target_by_name : Service → String → Option TargetState
target_by_name svc name =
    at_position svc.target_order (lookup (lower_string name) svc.targets_by_name)

-- `if up, ok := resolveUpstreamModel(t, model); ok && up != ""`
abbrev pub upstream_or : String → Option String → String
upstream_or later none = later
upstream_or later (some up) = if is_blank up then later else up

unfoldable pub upstream_in : String → Option (List String) → List String → List TargetState → String
upstream_in model allowed attempted [] = model
upstream_in model allowed attempted (s ∷ ss) =
    let later = upstream_in model allowed attempted ss in
    if is_open allowed attempted s.target
    then upstream_or later (resolve_upstream_model s.target model)
    else later

-- resolveAliasToUpstream
unfoldable pub resolve_alias_to_upstream :
    String → Option (List String) → List String → List TargetState → String
resolve_alias_to_upstream model allowed attempted snapshot =
    if is_blank model then model else upstream_in model allowed attempted snapshot

unfoldable pub some_model_candidate :
    Option (List String) → List String → String → List TargetState → Bool
some_model_candidate allowed attempted model [] = false
some_model_candidate allowed attempted model (s ∷ ss) =
    if is_open allowed attempted s.target && model_allowed s.target model
    then true
    else some_model_candidate allowed attempted model ss

-- hasModelCandidateIgnoringPath
abbrev pub has_model_candidate_ignoring_path :
    Service → Option (List String) → List String → String → Bool
has_model_candidate_ignoring_path svc allowed attempted model =
    some_model_candidate allowed attempted model svc.target_order

-- The checks on a target that the client asks for.
unfoldable pub explicit_checks :
    List String → String → Bytes → Time → Option TargetState → Selection
explicit_checks attempted model path now none =
    failed selection_explicit (new_selection_error 400 unknown_target)
explicit_checks attempted model path now (some s) =
    if not (model_allowed s.target model)
    then failed selection_explicit (new_selection_error 400 (model_not_allowed model s.target.name))
    else if s.target.paused
    then failed selection_explicit (new_selection_error 503 requested_target_paused)
    else if not (supports_path s.target path)
    then failed selection_explicit
        (new_selection_error 400 (target_does_not_support s.target.name path))
    else if member (lower_string s.target.name) attempted
    then failed selection_explicit (new_selection_error 503 requested_target_attempted)
    else if is_muted s now
    then failed selection_explicit (new_selection_error 503 requested_target_unavailable)
    else chosen s selection_explicit

-- The second lookup, under the upstream's name, if the first found nothing.
abbrev pub get_or_upstream :
    String
    → String
    → String
    → String
    → Time
    → AffinityMap × Option String
    → AffinityMap × Option String
get_or_upstream client_ip client_name model upstream now (m, some t) = (m, some t)
get_or_upstream client_ip client_name model upstream now (m, none) =
    if str_eq upstream model
    then (m, none)
    else get m (affinity_key client_ip client_name upstream) now

unfoldable pub affinity_target :
    Service
    → String
    → String
    → Option (List String)
    → List String
    → String
    → Time
    → AffinityMap × Option String
affinity_target svc client_ip client_name allowed attempted model now =
    get_or_upstream client_ip client_name model
      (resolve_alias_to_upstream model allowed attempted svc.target_order) now
      (get svc.affinity (affinity_key client_ip client_name model) now)

-- May the target that the client used before be used again?
abbrev pub is_reusable : Option (List String) → String → Bytes → Time → TargetState → Bool
is_reusable allowed model path now s =
    is_allowed allowed (lower_string s.target.name)
    && (not s.target.paused
        && (not (is_muted s now) && (model_allowed s.target model && supports_path s.target path)))

abbrev pub round_robin_kind : Bool → SelectionKind
round_robin_kind had_affinity = if had_affinity then selection_failover else selection_round_robin

abbrev pub is_nil : List String → Bool
is_nil [] = true
is_nil (x ∷ xs) = false

-- The errors at the end of selectTarget.
unfoldable pub no_candidate :
    Service → Option (List String) → List String → String → Bytes → SelectionError
no_candidate svc allowed attempted model path =
    if not (is_nil attempted)
    then new_selection_error 502 no_alternative_target
    else if not (is_blank model)
    then if has_model_candidate_ignoring_path svc allowed attempted model
      then new_selection_error 400 (no_target_supports path model)
      else new_selection_error 400 model_not_supported
    else new_selection_error 502 no_target_available

abbrev pub answer :
    SelectionKind → SelectionError → Option TargetState → Option TargetState → Selection
answer kind error (some s) muted = chosen s kind
answer kind error none (some m) =
    failed selection_round_robin (new_selection_error 503 (all_targets_muted_until (next_retry m)))
answer kind error none none = failed selection_round_robin error

-- From the call of findAvailableTargetWithModel on.
unfoldable pub select_round_robin :
    Service
    → Bool
    → Option (List String)
    → List String
    → String
    → Bytes
    → Time
    → Service × Selection
select_round_robin svc had_affinity allowed attempted model path now =
    let (rr_counter, found) =
      find_available_target_with_model svc.target_order svc.rr_counter allowed attempted model path
        now in
    (
      record svc { rr_counter = rr_counter },
      answer (round_robin_kind had_affinity) (no_candidate svc allowed attempted model path)
          found.available found.muted,
    )

-- With the state that the affinity names, if there is one.
abbrev pub reuse_or_search :
    Service
    → Option (List String)
    → List String
    → String
    → Bytes
    → Time
    → Option TargetState
    → Service × Selection
reuse_or_search svc allowed attempted model path now none =
    select_round_robin svc true allowed attempted model path now
reuse_or_search svc allowed attempted model path now (some s) =
    if is_reusable allowed model path now s
    then (svc, chosen s selection_affinity_hit)
    else select_round_robin svc true allowed attempted model path now

abbrev pub after_affinity :
    Service
    → Option (List String)
    → List String
    → String
    → Bytes
    → Time
    → AffinityMap × Option String
    → Service × Selection
after_affinity svc allowed attempted model path now (m, none) =
    select_round_robin (record svc { affinity = m }) false allowed attempted model path now
after_affinity svc allowed attempted model path now (m, some t) =
    let next = record svc { affinity = m } in
    reuse_or_search next allowed attempted model path now (target_by_name next t)

-- A client that did not ask for a target. A failed attempt keeps the affinity from being read.
unfoldable pub select_any :
    Service
    → Option Principal
    → String
    → Option (List String)
    → List String
    → String
    → Bytes
    → Time
    → Service × Selection
select_any svc none client_ip allowed attempted model path now =
    select_round_robin svc false allowed attempted model path now
select_any svc (some p) client_ip allowed [] model path now =
    after_affinity svc allowed [] model path now
      (affinity_target svc client_ip p.name allowed [] model now)
select_any svc (some p) client_ip allowed (a ∷ attempted) model path now =
    select_round_robin svc false allowed (a ∷ attempted) model path now

-- selectTarget
unfoldable pub select_target :
    Service
    → Option Principal
    → String
    → String
    → Option (List String)
    → List String
    → String
    → Bytes
    → Time
    → Service × Selection
select_target svc principal client_ip requested_lower allowed attempted model path now =
    if is_blank requested_lower
    then select_any svc principal client_ip allowed attempted model path now
    else if not (can_access principal requested_lower)
    then (svc, failed selection_explicit (new_selection_error 403 target_not_allowed))
    else (svc, explicit_checks attempted model path now (target_by_name svc requested_lower))
