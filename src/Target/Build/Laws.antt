-- ===== src/Target/Build/Laws.antt =====
-- internal/proxy/target.go: the targets that UpdateTargets leaves, and their names.
use mathlib.Core.Option.{some-injective}
use llms_proxy.Base.{
  ℕ, suc, ◌≡◌, refl, sym, ap, subst, ◌∙◌, ◌⊎◌, inl, inr, true, false, Option, none, some, List, [],
  ◌∷◌, ◌++◌, String, str_eq, length, get_elem?, get_elem?-append_left, get_elem?-append_last,
  get_elem?-append_inv, arith, eq_iff, Bool-cases,
}
use llms_proxy.Base.Maps.{
  Map, lookup, insert, has, lookup-insert_self, lookup-insert_ne, lookup-insert_new,
}
use llms_proxy.Base.Strings.{lower_string}
use llms_proxy.Base.Time.{Time}
use llms_proxy.Config.{TargetConfig}
use llms_proxy.Target.{Url, Target, TargetState, new_target_state}
use llms_proxy.Target.Select.{Service, target_by_name, at_position}
use llms_proxy.Target.Build.Built.{AllBuilt, build_from-AllBuilt}
use llms_proxy.Target.Build.{
  BuildError, Build, built, rejected, Read, read_as, unreadable, target_error, or_reject,
  then_build, read_target, with_name, with_state, build_from, build_target_states, with_build,
  update_targets,
}

abbrev key_of : TargetState → String
key_of s = lower_string s.target.name

-- Each state is found under its name, and under no other.
abbrev pub Indexed : Map ℕ → List TargetState → Type 0
Indexed parsed order =
    ((i : ℕ) (s : TargetState) → get_elem? order i ≡ some s → lookup (key_of s) parsed ≡ some i)
    × ((k : String) (i : ℕ)
        → lookup k parsed ≡ some i
        → (s : TargetState) × (get_elem? order i ≡ some s) × (key_of s ≡ k))

Indexed-insert :
    (parsed : Map ℕ) (order : List TargetState) (s : TargetState)
    → has (key_of s) parsed ≡ false
    → Indexed parsed order
    → Indexed (insert (key_of s) (length order) parsed) (order ++ (s ∷ []))
Indexed-insert parsed order s new (found, only) = (each, named)
  where
    later : Map ℕ
    later = insert (key_of s) (length order) parsed

    old_or_last :
        (i : ℕ) (t : TargetState)
        → (get_elem? order i ≡ some t) ⊎ ((i ≡ length order) × (s ≡ t))
        → lookup (key_of t) later ≡ some i
    old_or_last i t (inl old) =
        lookup-insert_new (key_of s) (key_of t) (length order) parsed new (found i t old)
    old_or_last i t (inr (at, e)) =
        subst (λ u. lookup (key_of u) later ≡ some i) e
          (lookup-insert_self (key_of s) (length order) parsed ∙ ap some (sym at))

    each :
        (i : ℕ) (t : TargetState)
        → get_elem? (order ++ (s ∷ [])) i ≡ some t
        → lookup (key_of t) later ≡ some i
    each i t h = old_or_last i t (get_elem?-append_inv order s i h)

    named :
        (k : String) (i : ℕ)
        → lookup k later ≡ some i
        → (t : TargetState) × (get_elem? (order ++ (s ∷ [])) i ≡ some t) × (key_of t ≡ k)
    named k i h = by_key (Bool-cases (str_eq (key_of s) k))
      where
        by_key :
            (str_eq (key_of s) k ≡ true) ⊎ (str_eq (key_of s) k ≡ false)
            → (t : TargetState) × (get_elem? (order ++ (s ∷ [])) i ≡ some t) × (key_of t ≡ k)
        by_key (inl same) =
            let key = (eq_iff (key_of s) k).0 same in
            let here = lookup-insert_self k (length order) parsed in
            let there = subst (λ j. lookup k (insert j (length order) parsed) ≡ some i) key h in
            (
              s,
              subst (λ j. get_elem? (order ++ (s ∷ [])) j ≡ some s)
                  (some-injective _ _ (sym here ∙ there)) (get_elem?-append_last order s),
              key,
            )
        by_key (inr other) =
            let (t, at, key) =
              only k i (sym (lookup-insert_ne (key_of s) k (length order) parsed other) ∙ h) in
            (t, get_elem?-append_left order (s ∷ []) i at, key)

target_error-none :
    (idx : ℕ) (parsed : Map ℕ) (t : Target)
    → target_error idx parsed t ≡ none
    → has (lower_string t.name) parsed ≡ false
unfolding target_error
target_error-none idx parsed t h = ground arith

module _ (parse_url : String → Option Url) (now : Time) where
  abbrev BuildIndexed : Build → Type 0
  BuildIndexed (built parsed order) = Indexed parsed order
  BuildIndexed (rejected e) = Unit

  build_from-Indexed :
      (cs : List TargetConfig) (idx : ℕ) (parsed : Map ℕ) (order : List TargetState)
      → Indexed parsed order
      → BuildIndexed (build_from parse_url now idx parsed order cs)
  unfolding build_from new_target_state
  build_from-Indexed [] idx parsed order inv = inv
  build_from-Indexed (c ∷ cs) idx parsed order inv = of_read (read_target parse_url now c) (λ t new.
      build_from-Indexed cs (suc idx) (with_name parse_url now parsed order t)
        (with_state parse_url now order t)
        (Indexed-insert parsed order (new_target_state t now) new inv))
    where
      rest : Target → Build
      rest t =
          build_from parse_url now (suc idx) (with_name parse_url now parsed order t)
            (with_state parse_url now order t) cs

      of_error :
          (t : Target) (o : Option BuildError)
          → (o ≡ none → BuildIndexed (rest t))
          → BuildIndexed (or_reject o (rest t))
      of_error t none ih = ih refl
      of_error t (some e) ih = tt

      of_read :
          (r : Read)
          → ((t : Target) → has (lower_string t.name) parsed ≡ false → BuildIndexed (rest t))
          → BuildIndexed (then_build r (λ t. or_reject (target_error idx parsed t) (rest t)))
      of_read (unreadable e) ih = tt
      of_read (read_as t) ih =
          of_error t (target_error idx parsed t) (λ ok. ih t (target_error-none idx parsed t ok))

  -- What an update leaves behind.
  abbrev pub Updated : Service → List TargetConfig → Service × Option BuildError → Type 0
  Updated svc targets (svc', some e) = svc' ≡ svc
  Updated svc targets (svc', none) =
      AllBuilt parse_url now targets svc'.target_order
      × ((i : ℕ) (s : TargetState)
          → get_elem? svc'.target_order i ≡ some s
          → target_by_name svc' s.target.name ≡ some s)
      × ((name : String) (s : TargetState)
          → target_by_name svc' name ≡ some s
          → key_of s ≡ lower_string name)
      × (svc'.rr_counter ≡ svc.rr_counter)
      × (svc'.affinity ≡ svc.affinity)

  with_build-Updated :
      (svc : Service) (targets : List TargetConfig) (b : Build)
      → build_from parse_url now 0 [] [] targets ≡ b
      → BuildIndexed b
      → Updated svc targets (with_build parse_url now svc b)
  unfolding target_by_name
  with_build-Updated svc targets (rejected e) eq inv = refl
  with_build-Updated svc targets (built parsed order) eq (found, only) =
      let (later, is, all) = build_from-AllBuilt parse_url now targets 0 [] [] eq in
      (
        subst (AllBuilt parse_url now targets) (sym is) all,
        λ i s at. ap (at_position order) (found i s at) ∙ at,
        λ name s e. named (lower_string name) s (lookup (lower_string name) parsed) refl e,
        refl,
        refl,
      )
    where
      named :
          (k : String) (s : TargetState) (o : Option ℕ)
          → lookup k parsed ≡ o
          → at_position order o ≡ some s
          → key_of s ≡ k
      named k s none e h = cc
      named k s (some i) e h =
          let (t, at, key) = only k i e in
          subst (λ u. key_of u ≡ k) (some-injective _ _ (sym at ∙ h)) key

  -- Without an error UpdateTargets leaves one target for each configured one, in their order, built from
  -- its normalised configuration and its parsed endpoint, with no failure behind it. Each is found
  -- under its name, in any case of letters, and no other target under that name; the turn counter
  -- and the affinities stay. With an error UpdateTargets changes nothing.
  pub update_targets-Updated :
      (svc : Service) (targets : List TargetConfig)
      → Updated svc targets (update_targets parse_url now svc targets)
  unfolding update_targets build_target_states has lookup
  update_targets-Updated svc targets =
      with_build-Updated svc targets (build_from parse_url now 0 [] [] targets) refl
        (build_from-Indexed targets 0 [] [] (λ i s h. cc, λ k i h. cc))
