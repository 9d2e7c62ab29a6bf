-- ===== src/Target/Select/Explicit.antt =====
-- internal/proxy/target.go: what selectTarget answers to a client that asks for a target.
use llms_proxy.Base.{
  ℕ, ◌≡◌, refl, ◌⊎◌, inl, inr, Bool, true, false, not, String, Option, none, some, List,
  if◌then◌else◌,
}
use llms_proxy.Base.Strings.{lower_string, member, is_blank}
use llms_proxy.Base.Text.{Bytes}
use llms_proxy.Base.Time.{Time}
use llms_proxy.Auth.{Principal, can_access}
use llms_proxy.Target.{TargetState, model_allowed, supports_path, is_muted}
use llms_proxy.Target.Select.{
  Service, Selection, SelectionError, Message, chosen, failed, model_not_allowed,
  requested_target_paused, target_does_not_support, requested_target_attempted,
  requested_target_unavailable, unknown_target, selection_explicit, new_selection_error,
  target_not_allowed, target_by_name, explicit_checks, select_target,
}

-- What a target that is asked for must be.
abbrev pub IsReady : List String → String → Bytes → Time → TargetState → Type 0
IsReady attempted model path now s =
    (model_allowed s.target model ≡ true)
    × (s.target.paused ≡ false)
    × (supports_path s.target path ≡ true)
    × (member (lower_string s.target.name) attempted ≡ false)
    × (is_muted s now ≡ false)

-- The first of the five checks that the target fails, and the error that stands for it: 400 for what the
-- client must change, 503 for what may pass.
abbrev pub Refused : List String → String → Bytes → Time → TargetState → SelectionError → Type 0
Refused attempted model path now s e =
    ((model_allowed s.target model ≡ false)
      × (e ≡ new_selection_error 400 (model_not_allowed model s.target.name)))
    ⊎ ((model_allowed s.target model ≡ true)
        × (s.target.paused ≡ true)
        × (e ≡ new_selection_error 503 requested_target_paused))
    ⊎ ((model_allowed s.target model ≡ true)
        × (s.target.paused ≡ false)
        × (supports_path s.target path ≡ false)
        × (e ≡ new_selection_error 400 (target_does_not_support s.target.name path)))
    ⊎ ((model_allowed s.target model ≡ true)
        × (s.target.paused ≡ false)
        × (supports_path s.target path ≡ true)
        × (member (lower_string s.target.name) attempted ≡ true)
        × (e ≡ new_selection_error 503 requested_target_attempted))
    ⊎ ((model_allowed s.target model ≡ true)
        × (s.target.paused ≡ false)
        × (supports_path s.target path ≡ true)
        × (member (lower_string s.target.name) attempted ≡ false)
        × (is_muted s now ≡ true)
        × (e ≡ new_selection_error 503 requested_target_unavailable))

-- The answer for the state that has the name asked for, if there is one.
abbrev Checked : List String → String → Bytes → Time → Option TargetState → Selection → Type 0
Checked attempted model path now none r =
    r ≡ failed selection_explicit (new_selection_error 400 unknown_target)
Checked attempted model path now (some s) (chosen t kind) =
    IsReady attempted model path now s × (t ≡ s) × (kind ≡ selection_explicit)
Checked attempted model path now (some s) (failed kind e) =
    Refused attempted model path now s e × (kind ≡ selection_explicit)

explicit_checks-Checked :
    (attempted : List String) (model : String) (path : Bytes) (now : Time) (o : Option TargetState)
    → Checked attempted model path now o (explicit_checks attempted model path now o)
unfolding explicit_checks
explicit_checks-Checked attempted model path now none = refl
explicit_checks-Checked attempted model path now (some s) =
    by_checks (model_allowed s.target model) s.target.paused (supports_path s.target path)
      (member (lower_string s.target.name) attempted) (is_muted s now) refl refl refl refl refl
  where
    refuse : ℕ → Message → Selection
    refuse status message = failed selection_explicit (new_selection_error status message)

    by_checks :
        (a b c d e : Bool)
        → model_allowed s.target model ≡ a
        → s.target.paused ≡ b
        → supports_path s.target path ≡ c
        → member (lower_string s.target.name) attempted ≡ d
        → is_muted s now ≡ e
        → Checked attempted model path now (some s) (
            if not a
            then refuse 400 (model_not_allowed model s.target.name)
            else if b
            then refuse 503 requested_target_paused
            else if not c
            then refuse 400 (target_does_not_support s.target.name path)
            else if d
            then refuse 503 requested_target_attempted
            else if e
            then refuse 503 requested_target_unavailable
            else chosen s selection_explicit)
    by_checks false b c d e k l m n o = (inl (k, refl), refl)
    by_checks true true c d e k l m n o = (inr (inl (k, l, refl)), refl)
    by_checks true false false d e k l m n o = (inr (inr (inl (k, l, m, refl))), refl)
    by_checks true false true true e k l m n o = (inr (inr (inr (inl (k, l, m, n, refl)))), refl)
    by_checks true false true false true k l m n o =
        (inr (inr (inr (inr (k, l, m, n, o, refl)))), refl)
    by_checks true false true false false k l m n o = ((k, l, m, n, o), refl, refl)

abbrev pub ExplicitAnswer :
    Service
    → Option Principal
    → String
    → List String
    → String
    → Bytes
    → Time
    → Service × Selection
    → Type 0
ExplicitAnswer svc principal requested attempted model path now (svc', r) =
    (svc' ≡ svc)
    × (((can_access principal requested ≡ false)
          × (r ≡ failed selection_explicit (new_selection_error 403 target_not_allowed)))
        ⊎ ((can_access principal requested ≡ true)
            × Checked attempted model path now (target_by_name svc requested) r))

-- To a client that asks for a target, selectTarget changes nothing. It answers 403 exactly if the client
-- may not use that target, and 400 with "unknown target" if there is no such target. Else it answers
-- with the target only if that takes the model and the path, was not tried and is neither paused nor
-- muted; and if not, with the error of the first check that fails, in the order of model, pause,
-- path, attempts and mute: 400 for the model and for the path, 503 for the three others.
pub select_target-explicit :
    (svc : Service) (principal : Option Principal) (client_ip requested : String)
    (allowed : Option (List String)) (attempted : List String) (model : String) (path : Bytes)
    (now : Time)
    → is_blank requested ≡ false
    → ExplicitAnswer svc principal requested attempted model path now
        (select_target svc principal client_ip requested allowed attempted model path now)
unfolding select_target
select_target-explicit svc principal client_ip requested allowed attempted model path now asked =
    rw asked (by_access (can_access principal requested) refl)
  where
    refused : Selection
    refused = failed selection_explicit (new_selection_error 403 target_not_allowed)

    by_access :
        (b : Bool)
        → can_access principal requested ≡ b
        → ExplicitAnswer svc principal requested attempted model path now (
            if not b
            then (svc, refused)
            else (svc, explicit_checks attempted model path now (target_by_name svc requested)))
    by_access true e = (
      refl,
      inr (e, explicit_checks-Checked attempted model path now (target_by_name svc requested)),
    )
    by_access false e = (refl, inl (e, refl))
