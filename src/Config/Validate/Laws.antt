-- ===== src/Config/Validate/Laws.antt =====
-- internal/config/config.go and internal/proxy/target.go: what the targets of a valid configuration are
-- when they are built.
use llms_proxy.Base.{
  ℕ, ◌≡◌, refl, inl, inr, Bool, true, false, not, ◌&&◌, ◌||◌, List, [], ◌∷◌, ◌++◌, String, length,
  ◌==◌, arith, eq_iff, str_eq, Bool-cases, subst,
}
use llms_proxy.Base.Strings.{trim_string, is_blank, member}
use llms_proxy.Base.Text.{Bytes, is_empty, trim_space}
use llms_proxy.Config.{
  TargetConfig, normalize_endpoint_type, normalize_target_for_compatibility, current_endpoint_type,
}
use llms_proxy.Config.Validate.{
  endpoint_types, is_valid_endpoint_type, Problem, problem_if, some_key, has_any_key,
  target_problems,
}
use llms_proxy.Target.{Url, Target}
use llms_proxy.Target.Build.{add_keys, merge_keys, is_merged, target_of}

pub append-nil {ℓ} : {A : Type ℓ} (xs ys : List A) → xs ++ ys ≡ [] → (xs ≡ []) × (ys ≡ [])
append-nil [] ys h = (refl, h)
append-nil (x ∷ xs) ys h = cc

problem_if-nil : (b : Bool) (p : Problem) → problem_if b p ≡ [] → b ≡ false
unfolding problem_if
problem_if-nil true p h = cc
problem_if-nil false p h = refl

abbrev Each : (String → Type 0) → List String → Type 0
Each P [] = Unit
Each P (y ∷ ys) = P y × Each P ys

member-Each :
    (P : String → Type 0) (x : String) (ys : List String) → Each P ys → member x ys ≡ true → P x
unfolding member
member-Each P x [] all h = cc
member-Each P x (y ∷ ys) (here, later) h = elim (Bool-cases (str_eq y x)) [
  | inl e ↦ subst P ((eq_iff y x).0 e) here
  | inr e ↦ member-Each P x ys later (ground arith)
]

-- What an endpoint type is normalised to if it is a known one.
member-current :
    (t : String)
    → member t endpoint_types ≡ true
    → member (current_endpoint_type t) endpoint_types ≡ true
unfolding member
member-current t h =
    member-Each (λ x. member (current_endpoint_type x) endpoint_types ≡ true) t endpoint_types
      (refl, (refl, (refl, (refl, (refl, (refl, tt)))))) h

normalize-same :
    (c : TargetConfig)
    → let n = normalize_target_for_compatibility c in
      (n.name ≡ c.name)
      × (n.api_key ≡ c.api_key)
      × (n.api_keys ≡ c.api_keys)
      × (n.allow_bearer ≡ c.allow_bearer)
      × (n.endpoint_type ≡ normalize_endpoint_type c.endpoint_type)
unfolding normalize_target_for_compatibility
normalize-same c = ground arith

add_keys-some : (k : Bytes) (keys ks : List Bytes) → (length (add_keys (k ∷ keys) ks) == 0) ≡ false
unfolding add_keys
add_keys-some k keys [] = ground arith
add_keys-some k keys (j ∷ ks) =
    elim (Bool-cases (is_empty (trim_space j) || is_merged (trim_space j) (k ∷ keys))) [
      | inl e ↦ rw (e) (add_keys-some k keys ks)
      | inr e ↦ rw (e) (add_keys-some k (keys ++ (trim_space j ∷ [])) ks)
    ]

add_keys-some_key : (ks : List Bytes) → some_key ks ≡ true → (length (add_keys [] ks) == 0) ≡ false
unfolding add_keys some_key is_merged
add_keys-some_key [] h = cc
add_keys-some_key (k ∷ ks) h = elim (Bool-cases (is_empty (trim_space k))) [
  | inl e ↦ rw (e) (add_keys-some_key ks (ground arith))
  | inr e ↦ rw (e) (add_keys-some (trim_space k) [] ks)
]

merge_keys-has_any_key :
    (c : TargetConfig)
    → has_any_key c ≡ true
    → (length (merge_keys c.api_key c.api_keys) == 0) ≡ false
unfolding merge_keys
merge_keys-has_any_key c h = elim (Bool-cases (is_empty (trim_space c.api_key))) [
  | inl e ↦ rw (e) (add_keys-some_key c.api_keys (ground arith))
  | inr e ↦ rw (e) (add_keys-some (trim_space c.api_key) [] c.api_keys)
]

-- A target that can serve: a known endpoint type, a name, and a key or the passing on of tokens.
abbrev pub Ready : Target → Type 0
Ready t =
    (member t.endpoint_type endpoint_types ≡ true)
    × (is_blank t.name ≡ false)
    × (((length t.api_keys == 0) && not t.allow_bearer) ≡ false)

-- The four checks that concern the building of a target.
target_problems-nil :
    (i : ℕ) (t : TargetConfig)
    → target_problems i t ≡ []
    → (is_valid_endpoint_type (normalize_endpoint_type t.endpoint_type) ≡ true)
      × (is_blank (trim_string t.name) ≡ false)
      × ((not (has_any_key t) && not t.allow_bearer) ≡ false)
unfolding target_problems
target_problems-nil i t h =
    let (checks, mappings) = append-nil _ _ h in
    let (checks, key) = append-nil _ _ checks in
    let (checks, endpoint) = append-nil _ _ checks in
    let (type, name) = append-nil _ _ checks in
    let valid = problem_if-nil _ _ type in
    (ground arith, problem_if-nil _ _ name, problem_if-nil _ _ key)

has_keys-or_bearer :
    (t : TargetConfig)
    → (not (has_any_key t) && not t.allow_bearer) ≡ false
    → ((length (merge_keys t.api_key t.api_keys) == 0) && not t.allow_bearer) ≡ false
has_keys-or_bearer t h = elim (Bool-cases (has_any_key t)) [
  | inl e ↦ rw (merge_keys-has_any_key t e) refl
  | inr e ↦ ground arith
]

pub target_of-Ready :
    (i : ℕ) (c : TargetConfig) (u : Url)
    → target_problems i c ≡ []
    → Ready (target_of (normalize_target_for_compatibility c) u)
unfolding target_of normalize_endpoint_type is_valid_endpoint_type
target_of-Ready i c u h =
    let (type, name, key) = target_problems-nil i c h in
    let (same_name, same_key, same_keys, same_bearer, same_type) = normalize-same c in
    (
      rw (same_type) (member-current _ type),
      rw (same_name) name,
      rw (same_key, same_keys, same_bearer) (has_keys-or_bearer c key),
    )
