-- ===== src/Config/Validate/Targets.antt =====
-- internal/config/config.go, internal/proxy/target.go and internal/proxy/service.go: UpdateTargets with
-- the targets of a configuration that passed Validate.
use llms_proxy.Base.{
  ℕ, suc, ◌≡◌, refl, inl, inr, Bool, true, false, ◌||◌, Option, none, some, List, [], ◌∷◌, ◌++◌,
  String, get_elem?, get_elem?-append_inv, arith, subst, if◌then◌else◌,
}
use llms_proxy.Base.Maps.{Map}
use llms_proxy.Base.Strings.{is_blank, trim_string}
use llms_proxy.Base.Time.{Time}
use llms_proxy.Config.{TargetConfig, normalize_target_for_compatibility}
use llms_proxy.Config.Validate.{
  Settings, target_problems, normalized, targets_problems, problems_of, validate,
}
use llms_proxy.Config.Validate.Laws.{append-nil, Ready, target_of-Ready}
use llms_proxy.Target.{Url, Target, TargetState, new_target_state}
use llms_proxy.Target.Select.{Service}
use llms_proxy.Target.Build.{
  BuildError, invalid_endpoint, missing_scheme_or_host, empty_target_name, missing_api_key,
  duplicate_target_name, Build, built, rejected, Read, read_as, unreadable, target_of, target_error,
  or_reject, with_endpoint, then_build, read_target, with_name, with_state, build_from,
  build_target_states, with_build, update_targets,
}

-- Every configuration passes the checks on a target.
abbrev Passed : List TargetConfig → Type 0
Passed [] = Unit
Passed (c ∷ cs) = ((i : ℕ) × (target_problems i c ≡ [])) × Passed cs

targets_problems-Passed :
    (i : ℕ) (ts : List TargetConfig) → targets_problems i ts ≡ [] → Passed (normalized ts)
unfolding targets_problems normalized
targets_problems-Passed i [] h = tt
targets_problems-Passed i (t ∷ ts) h =
    let (here, later) = append-nil _ _ h in ((i, here), targets_problems-Passed (suc i) ts later)

problems_of-targets : (c : Settings) → problems_of c ≡ [] → targets_problems 0 c.targets ≡ []
unfolding problems_of
problems_of-targets c h =
    let (checks, error_log) = append-nil _ _ h in
    let (checks, access_log) = append-nil _ _ checks in
    let (checks, level) = append-nil _ _ checks in
    let (checks, ttl) = append-nil _ _ checks in
    let (checks, secret) = append-nil _ _ checks in
    let (checks, cookie) = append-nil _ _ checks in
    let (checks, db_path) = append-nil _ _ checks in
    let (checks, targets) = append-nil _ _ checks in targets

-- The errors that Validate does not look for.
abbrev pub Unchecked : BuildError → Type 0
Unchecked (invalid_endpoint name) = Unit
Unchecked (missing_scheme_or_host name) = Unit
Unchecked (empty_target_name i) = ⊥
Unchecked (missing_api_key name) = ⊥
Unchecked (duplicate_target_name name) = Unit

target_error-Unchecked :
    (idx : ℕ) (parsed : Map ℕ) (t : Target) (e : BuildError)
    → Ready t
    → target_error idx parsed t ≡ some e
    → Unchecked e
unfolding target_error
target_error-Unchecked idx parsed t (invalid_endpoint name) ready h = tt
target_error-Unchecked idx parsed t (missing_scheme_or_host name) ready h = tt
target_error-Unchecked idx parsed t (empty_target_name i) (type, named, keyed) h = ground arith
target_error-Unchecked idx parsed t (missing_api_key name) (type, named, keyed) h = ground arith
target_error-Unchecked idx parsed t (duplicate_target_name name) ready h = tt

abbrev pub AllReady : List TargetState → Type 0
AllReady order = (i : ℕ) (s : TargetState) → get_elem? order i ≡ some s → Ready s.target

abbrev ReadReady : Read → Type 0
ReadReady (read_as t) = Ready t
ReadReady (unreadable e) = Unchecked e

abbrev BuildReady : Build → Type 0
BuildReady (built parsed order) = AllReady order
BuildReady (rejected e) = Unchecked e

with_endpoint-Ready :
    (i : ℕ) (c : TargetConfig) (o : Option Url)
    → target_problems i c ≡ []
    → ReadReady (with_endpoint (normalize_target_for_compatibility c) o)
with_endpoint-Ready i c none h = tt
with_endpoint-Ready i c (some u) h = by_parts (is_blank u.scheme || is_blank u.host)
  where
    n : TargetConfig
    n = normalize_target_for_compatibility c

    by_parts :
        (b : Bool)
        → ReadReady
            (if b then unreadable (missing_scheme_or_host n.name) else read_as (target_of n u))
    by_parts true = tt
    by_parts false = target_of-Ready i c u h

AllReady-append :
    (order : List TargetState) (s : TargetState)
    → AllReady order
    → Ready s.target
    → AllReady (order ++ (s ∷ []))
AllReady-append order s all new i t h = elim (get_elem?-append_inv order s i h) [
  | inl old ↦ all i t old
  | inr (at, e) ↦ subst (λ u. Ready u.target) e new
]

module _ (parse_url : String → Option Url) (now : Time) where
  build_from-Ready :
      (cs : List TargetConfig) (idx : ℕ) (parsed : Map ℕ) (order : List TargetState)
      → Passed cs
      → AllReady order
      → BuildReady (build_from parse_url now idx parsed order cs)
  unfolding build_from new_target_state read_target
  build_from-Ready [] idx parsed order passed all = all
  build_from-Ready (c ∷ cs) idx parsed order ((i, h), passed) all =
      of_read (read_target parse_url now c)
        (with_endpoint-Ready i c
          (parse_url (trim_string (normalize_target_for_compatibility c).endpoint)) h)
        (λ t ready.
          build_from-Ready cs (suc idx) (with_name parse_url now parsed order t)
            (with_state parse_url now order t) passed
            (AllReady-append order (new_target_state t now) all ready))
    where
      rest : Target → Build
      rest t =
          build_from parse_url now (suc idx) (with_name parse_url now parsed order t)
            (with_state parse_url now order t) cs

      of_error :
          (t : Target) (o : Option BuildError)
          → Ready t
          → target_error idx parsed t ≡ o
          → BuildReady (rest t)
          → BuildReady (or_reject o (rest t))
      of_error t none ready e ih = ih
      of_error t (some err) ready e ih = target_error-Unchecked idx parsed t err ready e

      of_read :
          (r : Read)
          → ReadReady r
          → ((t : Target) → Ready t → BuildReady (rest t))
          → BuildReady (then_build r (λ t. or_reject (target_error idx parsed t) (rest t)))
      of_read (unreadable e) ready ih = ready
      of_read (read_as t) ready ih = of_error t (target_error idx parsed t) ready refl (ih t ready)

  -- What an update with valid targets comes to.
  abbrev pub Served : Service × Option BuildError → Type 0
  Served (svc, none) = AllReady svc.target_order
  Served (svc, some e) = Unchecked e

  with_build-Served :
      (svc : Service) (b : Build) → BuildReady b → Served (with_build parse_url now svc b)
  with_build-Served svc (built parsed order) all = all
  with_build-Served svc (rejected e) left = left

  -- If Validate finds no problem, UpdateTargets with the targets that it normalised fails only for an
  -- endpoint that is no URL with a scheme and a host, or for two targets of one name; and if it does
  -- not fail, every target has a known endpoint type, a name, and a key or the passing on of tokens.
  pub update_targets-validate :
      (svc : Service) (c : Settings)
      → (validate c).1 ≡ []
      → Served (update_targets parse_url now svc (validate c).0.targets)
  unfolding update_targets build_target_states validate
  update_targets-validate svc c h =
      with_build-Served svc (build_from parse_url now 0 [] [] (normalized c.targets)) (
        build_from-Ready (normalized c.targets) 0 [] []
          (targets_problems-Passed 0 c.targets (problems_of-targets c h)) (λ i s e. cc))
