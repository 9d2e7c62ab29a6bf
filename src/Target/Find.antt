-- ===== src/Target/Find.antt =====
-- internal/proxy/target.go: findAvailableTargetWithModel, the weighted round robin among the targets
-- that may take a request. `allowed` is `none` where the map is nil; an `attempted` that is nil has no
-- members. The list of states is the snapshot. The sums of key counts do not wrap: no list is that
-- long. `int` of the counter wraps into the negative numbers.
pub mod Turn
pub mod Laws
use llms_proxy.Base.{
  ℕ, zero, suc, ◌+◌, ◌%◌, ◌^◌, Bool, true, false, not, ◌&&◌, Option, none, some, List, [], ◌∷◌,
  String, length, ltb, if◌then◌else◌,
}
use llms_proxy.Base.Int.{ℤ, pos, negsuc, of_bits, ltb_ℤ}
use llms_proxy.Base.Strings.{lower_string, member}
use llms_proxy.Base.Text.{Bytes}
use llms_proxy.Base.Time.{Time, before}
use llms_proxy.KeyPool.State.{KeyPool}
use llms_proxy.KeyPool.Load.{active_key_count}
use llms_proxy.Target.{Target, TargetState, model_allowed, supports_path, is_muted, next_retry}

abbrev pub is_allowed : Option (List String) → String → Bool
is_allowed none name = true
is_allowed (some names) name = member name names

-- The tests that every loop over the snapshot begins with.
abbrev pub is_open : Option (List String) → List String → Target → Bool
is_open allowed attempted t =
    not t.paused
    && (not (member (lower_string t.name) attempted) && is_allowed allowed (lower_string t.name))

abbrev pub is_candidate : Option (List String) → List String → String → Bytes → Target → Bool
is_candidate allowed attempted model path t =
    is_open allowed attempted t && (model_allowed t model && supports_path t path)

-- targetWithKeys
pub record TargetWithKeys : Type 0 where
  pub state : TargetState
  pub key_count : ℕ
  pub active_count : ℕ

abbrev pub key_count_of : Target → ℕ
key_count_of t = if ltb 0 (length t.api_keys) then length t.api_keys else 1

abbrev pub active_count_of : ℕ → Option KeyPool → ℕ
active_count_of key_count none = key_count
active_count_of key_count (some p) = active_key_count p

abbrev pub with_keys : TargetState → TargetWithKeys
with_keys s = record {
  state = s;
  key_count = key_count_of s.target;
  active_count = active_count_of (key_count_of s.target) s.key_pool;
}

-- The loop over the snapshot.
unfoldable pub candidates_of :
    Option (List String) → List String → String → Bytes → List TargetState → List TargetWithKeys
candidates_of allowed attempted model path [] = []
candidates_of allowed attempted model path (s ∷ ss) =
    let rest = candidates_of allowed attempted model path ss in
    if is_candidate allowed attempted model path s.target then with_keys s ∷ rest else rest

-- The sum of the weights of all candidates.
unfoldable pub total : (TargetWithKeys → ℕ) → List TargetWithKeys → ℕ
total weight_of [] = 0
total weight_of (c ∷ cs) = weight_of c + total weight_of cs

-- By the active keys, while there is one; else by the configured ones.
unfoldable pub weight : List TargetWithKeys → TargetWithKeys → ℕ
weight cs =
    if ltb 0 (total (λ c. c.active_count) cs) then (λ c. c.active_count) else (λ c. c.key_count)

abbrev minus : ℕ → ℤ
minus zero = pos 0
minus (suc b) = negsuc b

-- Go's `a % n`, which takes the sign of `a`, where n > 0.
abbrev pub rem : ℤ → ℕ → ℤ
rem (pos a) n = pos (a % n)
rem (negsuc a) n = minus (suc a % n)

-- The first candidate with which the sum of the weights exceeds `key_index`.
unfoldable pub weighted_at :
    (TargetWithKeys → ℕ) → ℤ → ℕ → List TargetWithKeys → Option TargetWithKeys
weighted_at weight_of key_index cumulative [] = none
weighted_at weight_of key_index cumulative (c ∷ cs) =
    let later = weighted_at weight_of key_index (cumulative + weight_of c) cs in
    if ltb_ℤ key_index (pos (cumulative + weight_of c)) then some c else later

-- `if mutedCandidate == nil || ...` and the assignment under it.
abbrev pub earlier : TargetState → Option TargetState → TargetState
earlier s none = s
earlier s (some m) = if before (next_retry s) (next_retry m) then s else m

-- What is returned: a target to use, and a muted one.
pub record Found : Type 0 where
  pub available : Option TargetState
  pub muted : Option TargetState

-- The second loop: the first candidate that is not muted, and the muted one to be tried first.
unfoldable pub first_available : Time → Option TargetState → List TargetWithKeys → Found
first_available now muted [] = record { available = none; muted = muted }
first_available now muted (c ∷ cs) =
    let later = first_available now (some (earlier c.state muted)) cs in
    if is_muted c.state now then later else record { available = some c.state; muted = muted }

-- The end of the first loop, at the chosen candidate.
abbrev pub take_or_search : Time → List TargetWithKeys → Option TargetWithKeys → Found
take_or_search now cs none = first_available now none cs
take_or_search now cs (some c) =
    if is_muted c.state now
    then first_available now (some c.state) cs
    else record { available = some c.state; muted = none }

-- What follows the collection of the candidates, at the counter before its increment.
unfoldable pub turn : Time → ℕ → List TargetWithKeys → Found
turn now rr_counter cs =
    take_or_search now cs
      (weighted_at (weight cs) (rem (of_bits rr_counter) (total (weight cs) cs)) 0 cs)

abbrev pub robin : Time → ℕ → List TargetWithKeys → ℕ × Found
robin now rr_counter [] = (rr_counter, record { available = none; muted = none })
robin now rr_counter (c ∷ cs) = (suc rr_counter % 2 ^ 64, turn now rr_counter (c ∷ cs))

-- findAvailableTargetWithModel: the counter after the call, the target, and the muted candidate.
unfoldable pub find_available_target_with_model :
    List TargetState → ℕ → Option (List String) → List String → String → Bytes → Time → ℕ × Found
find_available_target_with_model snapshot rr_counter allowed attempted model path now =
    robin now rr_counter (candidates_of allowed attempted model path snapshot)
