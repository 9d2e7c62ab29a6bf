-- ===== src/Target/Select/Laws.antt =====
-- internal/proxy/target.go: what selectTarget answers to a client that asks for no target.
use llms_proxy.Base.{
  ℕ, ◌≤◌, ◌≡◌, refl, ◌⊎◌, inl, inr, Bool, true, false, String, Option, none, some, List, [], ◌∷◌,
  arith, IsOneOf, get_elem?-IsOneOf, if◌then◌else◌,
}
use llms_proxy.Base.Maps.{lookup}
use llms_proxy.Base.Strings.{lower_string, member}
use llms_proxy.Base.Text.{Bytes}
use llms_proxy.Base.Time.{Time}
use llms_proxy.Auth.{Principal}
use llms_proxy.Affinity.{AffinityMap}
use llms_proxy.Target.{TargetState, is_muted, next_retry}
use llms_proxy.Target.Find.{Found, find_available_target_with_model}
use llms_proxy.Target.Find.Laws.{Eligible, OutcomeAs, find_available_target_with_model-Outcome}
use llms_proxy.Target.Select.{
  Service, SelectionKind, SelectionError, Selection, chosen, failed, selection_affinity_hit,
  new_selection_error, all_targets_muted_until, at_position, target_by_name, no_candidate, answer,
  round_robin_kind, select_round_robin, is_reusable, reuse_or_search, after_affinity,
  affinity_target, select_any, select_target,
}

at_position-IsOneOf :
    (order : List TargetState) (o : Option ℕ) {s : TargetState}
    → at_position order o ≡ some s
    → IsOneOf s order
at_position-IsOneOf order none h = cc
at_position-IsOneOf order (some i) h = get_elem?-IsOneOf order i h

target_by_name-IsOneOf :
    (svc : Service) (name : String) {s : TargetState}
    → target_by_name svc name ≡ some s
    → IsOneOf s svc.target_order
unfolding target_by_name
target_by_name-IsOneOf svc name h =
    at_position-IsOneOf svc.target_order (lookup (lower_string name) svc.targets_by_name) h

module _ (allowed : Option (List String)) (model : String) (path : Bytes) (now : Time) where
  -- A target that may be used and is not muted; or an error, only while every target that may be used
  -- is muted: the one that tells when the first of their mutes ends, or `error` if there is none.
  abbrev AnswerAs : List String → List TargetState → SelectionError → Selection → Type 0
  AnswerAs attempted order error (chosen s kind) =
      Eligible allowed attempted model path order s × (is_muted s now ≡ false)
  AnswerAs attempted order error (failed kind e) =
      ((m : TargetState) × Eligible allowed attempted model path order m
        × (e ≡ new_selection_error 503 (all_targets_muted_until (next_retry m)))
        × ((s : TargetState)
            → Eligible allowed attempted model path order s
            → (is_muted s now ≡ true) × (next_retry m ≤ next_retry s)))
      ⊎ ((e ≡ error) × ((s : TargetState) → ¬ (Eligible allowed attempted model path order s)))

  abbrev pub Answer : List String → Service → Selection → Type 0
  Answer attempted svc selection =
      AnswerAs attempted svc.target_order (no_candidate svc allowed attempted model path) selection

  answer-AnswerAs :
      (attempted : List String) (order : List TargetState) (kind : SelectionKind)
      (error : SelectionError) (o m : Option TargetState)
      → OutcomeAs allowed attempted model path order now o m
      → AnswerAs attempted order error (answer kind error o m)
  answer-AnswerAs attempted order kind error (some s) m r = r
  answer-AnswerAs attempted order kind error none none r = inr (refl, r)
  answer-AnswerAs attempted order kind error none (some m) (e, all) = inl (m, e, refl, all)

  select_round_robin-Answer :
      (svc : Service) (had_affinity : Bool) (attempted : List String)
      → Answer attempted svc
          (select_round_robin svc had_affinity allowed attempted model path now).1
  unfolding select_round_robin
  select_round_robin-Answer svc had_affinity attempted =
      answer-AnswerAs attempted svc.target_order (round_robin_kind had_affinity)
        (no_candidate svc allowed attempted model path) found.available found.muted
        (find_available_target_with_model-Outcome allowed attempted model path svc.target_order
          svc.rr_counter now)
    where
      found : Found
      found =
          (find_available_target_with_model svc.target_order svc.rr_counter allowed attempted model
            path now).1

  is_reusable-Eligible :
      (order : List TargetState) (s : TargetState)
      → IsOneOf s order
      → is_reusable allowed model path now s ≡ true
      → Eligible allowed [] model path order s × (is_muted s now ≡ false)
  unfolding member
  is_reusable-Eligible order s o h = ((o, ground arith), ground arith)

  reuse_or_search-Answer :
      (svc : Service) (o : Option TargetState)
      → ((s : TargetState) → o ≡ some s → IsOneOf s svc.target_order)
      → Answer [] svc (reuse_or_search svc allowed [] model path now o).1
  reuse_or_search-Answer svc none from = select_round_robin-Answer svc true []
  reuse_or_search-Answer svc (some s) from = step (is_reusable allowed model path now s) refl
    where
      step :
          (b : Bool)
          → is_reusable allowed model path now s ≡ b
          → Answer [] svc
              (if b
                then (svc, chosen s selection_affinity_hit)
                else select_round_robin svc true allowed [] model path now).1
      step true e = is_reusable-Eligible svc.target_order s (from s refl) e
      step false e = select_round_robin-Answer svc true []

  after_affinity-Answer :
      (svc : Service) (r : AffinityMap × Option String)
      → Answer [] svc (after_affinity svc allowed [] model path now r).1
  unfolding no_candidate
  after_affinity-Answer svc (m, none) =
      select_round_robin-Answer (record svc { affinity = m }) false []
  after_affinity-Answer svc (m, some t) =
      let next = record svc { affinity = m } in
      reuse_or_search-Answer next (target_by_name next t) (λ s e. target_by_name-IsOneOf next t e)

  -- To a client that asks for no target, selectTarget gives one that it may use, that was not tried,
  -- takes its model and its path, and is neither paused nor muted; and it fails only if there is none,
  -- with the end of the first mute if there are muted ones.
  pub select_target-Answer :
      (svc : Service) (principal : Option Principal) (client_ip : String) (attempted : List String)
      → Answer attempted svc
          (select_target svc principal client_ip "" allowed attempted model path now).1
  unfolding select_target select_any
  select_target-Answer svc none client_ip attempted = select_round_robin-Answer svc false attempted
  select_target-Answer svc (some p) client_ip [] =
      after_affinity-Answer svc (affinity_target svc client_ip p.name allowed [] model now)
  select_target-Answer svc (some p) client_ip (a ∷ attempted) =
      select_round_robin-Answer svc false (a ∷ attempted)
