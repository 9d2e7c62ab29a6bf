-- ===== src/Target/Build/Built.antt =====
-- internal/proxy/target.go: which targets buildTargetStates makes from the configured ones.
use mathlib.Core.List.{append_assoc, append-nil}
use llms_proxy.Base.{
  ℕ, suc, ◌≡◌, refl, sym, ap, ◌∙◌, Bool, true, false, ◌||◌, if◌then◌else◌, Option, none, some, List,
  [], ◌∷◌, ◌++◌, String, arith,
}
use llms_proxy.Base.Maps.{Map}
use llms_proxy.Base.Strings.{trim_string, is_blank}
use llms_proxy.Base.Time.{Time}
use llms_proxy.Config.{TargetConfig, normalize_target_for_compatibility}
use llms_proxy.Target.{Url, Target, TargetState, new_target_state}
use llms_proxy.Target.Build.{
  BuildError, Build, built, Read, read_as, unreadable, target_error, or_reject, then_build,
  missing_scheme_or_host, target_of, with_endpoint, read_target, with_name, with_state, build_from,
}

module _ (parse_url : String → Option Url) (now : Time) where
  -- The state made from a configured target.
  abbrev pub Builds : TargetConfig → TargetState → Type 0
  Builds c s =
      (u : Url) × (parse_url (trim_string c.endpoint) ≡ some u)
      × (s ≡ new_target_state (target_of (normalize_target_for_compatibility c) u) now)
      × (s.target.name ≡ trim_string c.name)

  -- One state for each configured target, in their order.
  abbrev pub AllBuilt : List TargetConfig → List TargetState → Type 0
  AllBuilt [] [] = Unit
  AllBuilt [] (s ∷ ss) = ⊥
  AllBuilt (c ∷ cs) [] = ⊥
  AllBuilt (c ∷ cs) (s ∷ ss) = Builds c s × AllBuilt cs ss

  -- `o` is `order` with the targets built from `cs` behind it.
  abbrev pub Grown : List TargetConfig → List TargetState → List TargetState → Type 0
  Grown cs order o = (later : List TargetState) × (o ≡ order ++ later) × AllBuilt cs later

  normalize-same :
      (c : TargetConfig)
      → let n = normalize_target_for_compatibility c in
        (n.name ≡ c.name) × (n.endpoint ≡ c.endpoint)
  unfolding normalize_target_for_compatibility
  normalize-same c = ground arith

  with_endpoint-read :
      (c : TargetConfig) (o : Option Url) (t : Target)
      → with_endpoint (normalize_target_for_compatibility c) o ≡ read_as t
      → (u : Url) × (o ≡ some u) × (t ≡ target_of (normalize_target_for_compatibility c) u)
  with_endpoint-read c none t h = cc
  with_endpoint-read c (some u) t h = (u, refl, by_parts (is_blank u.scheme || is_blank u.host) h)
    where
      n : TargetConfig
      n = normalize_target_for_compatibility c

      by_parts :
          (b : Bool)
          → (if b then unreadable (missing_scheme_or_host n.name) else read_as (target_of n u))
            ≡ read_as t
          → t ≡ target_of n u
      by_parts true h = cc
      by_parts false h = cc

  read_target-Builds :
      (c : TargetConfig) (t : Target)
      → read_target parse_url now c ≡ read_as t
      → Builds c (new_target_state t now)
  unfolding read_target new_target_state target_of
  read_target-Builds c t h =
      let (name, endpoint) = normalize-same c in
      let (u, parsed, is) =
        with_endpoint-read c
          (parse_url (trim_string (normalize_target_for_compatibility c).endpoint)) t h in
      (
        u,
        ap (λ e. parse_url (trim_string e)) (sym endpoint) ∙ parsed,
        ap (λ x. new_target_state x now) is,
        ap (λ (x : Target). x.name) is ∙ ap trim_string name,
      )

  pub build_from-AllBuilt :
      (cs : List TargetConfig) (idx : ℕ) (parsed : Map ℕ) (order : List TargetState) {p : Map ℕ}
      {o : List TargetState}
      → build_from parse_url now idx parsed order cs ≡ built p o
      → Grown cs order o
  unfolding build_from
  build_from-AllBuilt [] idx parsed order h = ([], cc (append-nil order), tt)
  build_from-AllBuilt (c ∷ cs) idx parsed order {p} {o} h =
      of_read (read_target parse_url now c) refl
        (λ t e.
          build_from-AllBuilt cs (suc idx) (with_name parse_url now parsed order t)
            (with_state parse_url now order t) e)
        h
    where
      rest : Target → Build
      rest t =
          build_from parse_url now (suc idx) (with_name parse_url now parsed order t)
            (with_state parse_url now order t) cs

      of_rest :
          (t : Target)
          → (rest t ≡ built p o → Grown cs (order ++ (new_target_state t now ∷ [])) o)
          → Builds c (new_target_state t now)
          → rest t ≡ built p o
          → Grown (c ∷ cs) order o
      of_rest t ih new e =
          let (later, is, all) = ih e in
          (
            new_target_state t now ∷ later,
            is ∙ append_assoc order (new_target_state t now ∷ []) later,
            (new, all),
          )

      of_error :
          (t : Target) (e : Option BuildError)
          → (rest t ≡ built p o → Grown cs (order ++ (new_target_state t now ∷ [])) o)
          → Builds c (new_target_state t now)
          → or_reject e (rest t) ≡ built p o
          → Grown (c ∷ cs) order o
      of_error t none ih new h = of_rest t ih new h
      of_error t (some err) ih new h = cc

      of_read :
          (r : Read)
          → read_target parse_url now c ≡ r
          → ((t : Target)
              → rest t ≡ built p o
              → Grown cs (order ++ (new_target_state t now ∷ [])) o)
          → then_build r (λ t. or_reject (target_error idx parsed t) (rest t)) ≡ built p o
          → Grown (c ∷ cs) order o
      of_read (unreadable e) eq ih h = cc
      of_read (read_as t) eq ih h =
          of_error t (target_error idx parsed t) (ih t) (read_target-Builds c t eq) h
