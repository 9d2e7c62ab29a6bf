-- ===== src/Auth/Laws.antt =====
-- internal/auth/store.go: what a load leaves in the store, and what its clients may use.
use llms_proxy.Base.{
  ap, Option, ◌≡◌, refl, sym, ◌∙◌, ◌↔◌, ◌⊎◌, inl, inr, true, false, String, str_eq, none, some,
  List, [], ◌∷◌, ◌++◌, arith, eq_iff, if◌then◌else◌,
}
use llms_proxy.Base.Maps.{lookup, has}
use llms_proxy.Base.Strings.{lower_string, trim_string, is_blank, member}
use llms_proxy.Config.{ClientConfig}
use llms_proxy.Auth.{
  Principal, can_access, Store, AuthError, Load, loaded, refused, no_targets, allow, allow_one,
  allow_one, principal_of, load_clients, keep_or_swap, load_from_config, authenticate,
}
use llms_proxy.Auth.Loading.{
  Same, From, load_clients-all, load_clients-only, swapped, load_clients-Loadable, Unowned-nil,
  Loadable, cloned-eq,
}

-- After a load without an error, a key authenticates exactly the clients of the configuration whose
-- key it is, each with the targets configured for it.
pub authenticate-load_from_config :
    (s final : Store) (cs : List ClientConfig) (k : String) (p : Principal)
    → load_from_config s cs ≡ (final, none)
    → (authenticate final k ≡ some p) ↔ From final cs k p
unfolding load_from_config authenticate has lookup
authenticate-load_from_config s final cs k p h = (forth, back)
  where
    empty : Same [] []
    empty j = refl

    ends : load_clients [] [] cs ≡ loaded final
    ends = swapped s (load_clients [] [] cs) final h

    from_list : (lookup k [] ≡ some p) ⊎ From final cs k p → From final cs k p
    from_list (inl there) = cc
    from_list (inr f) = f

    forth : authenticate final k ≡ some p → From final cs k p
    forth e =
        from_list (load_clients-only final cs [] [] k ends (sym (cloned-eq (lookup k final)) ∙ e))

    back : From final cs k p → authenticate final k ≡ some p
    back (i, c, at, key, is) =
        cloned-eq (lookup k final)
        ∙ ap (λ j. lookup j final) (sym key)
        ∙ load_clients-all final cs [] [] i empty ends at
        ∙ ap some is

-- What a load reports, and what it then has done.
abbrev pub Reported : Store → List ClientConfig → Store × Option AuthError → Type 0
Reported s cs (final, none) = Loadable cs
Reported s cs (final, some e) = ¬ (Loadable cs) × (final ≡ s)

-- LoadFromConfig ends without an error if every client has a name and a key and no two have the same
-- key, and only then; with an error it leaves the clients as they were.
pub load_from_config-Reported :
    (s : Store) (cs : List ClientConfig) → Reported s cs (load_from_config s cs)
unfolding load_from_config
load_from_config-Reported s cs = reports (load_clients [] [] cs) refl
  where
    reports : (l : Load) → load_clients [] [] cs ≡ l → Reported s cs (keep_or_swap s l)
    reports (loaded final) h = ((load_clients-Loadable cs [] []).0 (final, h)).0
    reports (refused err) h =
        (λ good. absurd (clash ((load_clients-Loadable cs [] []).1 (good, Unowned-nil cs))), refl)
      where
        clash : ¬ ((final : Store) × (load_clients [] [] cs ≡ loaded final))
        clash (final, e) = cc

-- Some entry of the list is the target's name, but for case and the white space around it.
abbrev pub Listed : String → List String → Type 0
Listed name [] = ⊥
Listed name (t ∷ ts) =
    ((lower_string (trim_string t) ≡ name) × (is_blank name ≡ false)) ⊎ Listed name ts

member-append :
    (x y : String) (ys : List String)
    → member x (ys ++ (y ∷ [])) ≡ (if member x ys then true else str_eq y x)
unfolding member
member-append x y [] = ground arith
member-append x y (z ∷ zs) = ground (arith, member-append x y zs)

member-allow_one :
    (name target : String) (acc : List String)
    → (member name (allow_one acc target) ≡ true)
      ↔ (member name acc ≡ true) ⊎ ((target ≡ name) × (is_blank name ≡ false))
unfolding allow_one
member-allow_one name target acc =
    ground
      (arith, eq_iff target name, eq_iff name "", eq_iff target "", member-append name target acc)

member-allow :
    (name : String) (ts acc : List String)
    → (member name (allow acc ts) ≡ true) ↔ (member name acc ≡ true) ⊎ Listed name ts
unfolding allow
member-allow name [] acc = ground arith
member-allow name (t ∷ ts) acc =
    let target = lower_string (trim_string t) in
    ground (arith, member-allow_one name target acc, member-allow name ts (allow_one acc target))

-- A configured client may use a target exactly if its configuration lists no target at all or lists
-- that one.
pub can_access-principal_of :
    (c : ClientConfig) (target : String)
    → (can_access (some (principal_of c)) target ≡ true)
      ↔ (c.allowed_targets ≡ []) ⊎ Listed (lower_string target) c.allowed_targets
unfolding can_access member
can_access-principal_of c target = shown c.allowed_targets
  where
    shown :
        (ts : List String)
        → ((if no_targets ts then true else member (lower_string target) (allow [] ts)) ≡ true)
          ↔ (ts ≡ []) ⊎ Listed (lower_string target) ts
    shown [] = (λ h. inl refl, λ h. refl)
    shown (t ∷ ts) = ground (arith, member-allow (lower_string target) (t ∷ ts) [])
