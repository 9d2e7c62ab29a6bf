-- ===== src/Auth/Loading.antt =====
-- internal/auth/store.go: the loop of LoadFromConfig, from any clients loaded before.
use mathlib.Core.Option.{some-injective}
use llms_proxy.Base.{
  ℕ, zero, suc, ◌≡◌, refl, sym, ap, ◌∙◌, ◌↔◌, ◌⊎◌, inl, inr, true, false, String, str_eq, Option,
  none, some, List, [], ◌∷◌, map, subst, get_elem?, arith, eq_iff, Bool-cases,
}
use llms_proxy.Base.Maps.{
  Map, lookup, insert, has, lookup-insert_self, lookup-insert_ne, lookup-insert_new, has-insert,
}
use llms_proxy.Base.Strings.{trim_string, is_blank, member}
use llms_proxy.Config.{ClientConfig}
use llms_proxy.Auth.{
  Principal, Store, AuthError, Load, loaded, refused, principal_of, client_error, or_refuse,
  load_clients, keep_or_swap, cloned,
}

abbrev pub key_of : ClientConfig → String
key_of c = trim_string c.access_key

-- The two maps of the loop have the same keys.
abbrev pub Same : Store → Map String → Type 0
Same next owners = (k : String) → has k next ≡ has k owners

Same-insert :
    (k : String) (p : Principal) (name : String) (next : Store) (owners : Map String)
    → Same next owners
    → Same (insert k p next) (insert k name owners)
Same-insert k p name next owners h j =
    rw (has-insert k j p next, has-insert k j name owners, h j) refl

client_error-none :
    (owners : Map String) (c : ClientConfig)
    → client_error owners c ≡ none
    → (is_blank (key_of c) ≡ false)
      × (is_blank (trim_string c.name) ≡ false)
      × (has (key_of c) owners ≡ false)
unfolding client_error has
client_error-none owners c h = ground arith

-- The same keys decide `client_error`.
loaded-then :
    (o : Option AuthError) (rest : Load) {final : Store}
    → or_refuse o rest ≡ loaded final
    → (o ≡ none) × (rest ≡ loaded final)
loaded-then none rest h = (refl, h)
loaded-then (some e) rest h = cc

abbrev add_client : ClientConfig → Store → Store
add_client c next = insert (key_of c) (principal_of c) next

abbrev add_owner : ClientConfig → Map String → Map String
add_owner c owners = insert (key_of c) (trim_string c.name) owners

-- The loop ended well with the clients `final`.
module _ (final : Store) where
  load_clients-cons :
      (next : Store) (owners : Map String) (c : ClientConfig) (cs : List ClientConfig)
      → load_clients next owners (c ∷ cs) ≡ loaded final
      → (client_error owners c ≡ none)
        × (load_clients (add_client c next) (add_owner c owners) cs ≡ loaded final)
  unfolding load_clients
  load_clients-cons next owners c cs h = loaded-then (client_error owners c) _ h

  load_clients-keeps :
      (cs : List ClientConfig) (next : Store) (owners : Map String) (k : String) {p : Principal}
      → Same next owners
      → load_clients next owners cs ≡ loaded final
      → lookup k next ≡ some p
      → lookup k final ≡ some p
  unfolding load_clients
  load_clients-keeps [] next owners k same h e = cc
  load_clients-keeps (c ∷ cs) next owners k same h e =
      let (free, rest) = load_clients-cons next owners c cs h in
      load_clients-keeps cs (add_client c next) (add_owner c owners) k
        (Same-insert (key_of c) _ _ next owners same) rest
        (lookup-insert_new (key_of c) k _ next
          (same (key_of c) ∙ (client_error-none owners c free).2) e)

  pub load_clients-all :
      (cs : List ClientConfig) (next : Store) (owners : Map String) (i : ℕ) {c : ClientConfig}
      → Same next owners
      → load_clients next owners cs ≡ loaded final
      → get_elem? cs i ≡ some c
      → lookup (key_of c) final ≡ some (principal_of c)
  unfolding load_clients
  load_clients-all [] next owners i same h e = absurd (ground arith)
  load_clients-all (c ∷ cs) next owners zero same h e =
      let (free, rest) = load_clients-cons next owners c cs h in
      rw (← some-injective _ _ e) (
        load_clients-keeps cs (add_client c next) (add_owner c owners) (key_of c)
          (Same-insert (key_of c) _ _ next owners same) rest
          (lookup-insert_self (key_of c) (principal_of c) next))
  load_clients-all (c ∷ cs) next owners (suc i) same h e =
      let (free, rest) = load_clients-cons next owners c cs h in
      load_clients-all cs (add_client c next) (add_owner c owners) i
        (Same-insert (key_of c) _ _ next owners same) rest e

  -- a client of the list that the key `k` and the principal `p` come from
  abbrev pub From : List ClientConfig → String → Principal → Type 0
  From cs k p =
      (i : ℕ) × (c : ClientConfig) × (get_elem? cs i ≡ some c)
      × (key_of c ≡ k)
      × (principal_of c ≡ p)

  pub load_clients-only :
      (cs : List ClientConfig) (next : Store) (owners : Map String) (k : String) {p : Principal}
      → load_clients next owners cs ≡ loaded final
      → lookup k final ≡ some p
      → (lookup k next ≡ some p) ⊎ From cs k p
  unfolding load_clients
  load_clients-only [] next owners k h e = inl cc
  load_clients-only (c ∷ cs) next owners k {p} h e =
      elim (load_clients-only cs (add_client c next) (add_owner c owners) k
        (load_clients-cons next owners c cs h).1 e) [
          | inl old ↦ came (Bool-cases (str_eq (key_of c) k)) old
          | inr (i, d, at, own, is) ↦ inr (suc i, d, at, own, is)
        ]
    where
      came :
          (str_eq (key_of c) k ≡ true) ⊎ (str_eq (key_of c) k ≡ false)
          → lookup k (add_client c next) ≡ some p
          → (lookup k next ≡ some p) ⊎ From (c ∷ cs) k p
      came (inl same) old =
          let key = (eq_iff (key_of c) k).0 same in
          inr (
            0,
            c,
            refl,
            key,
            some-injective _ _ (
                sym (lookup-insert_self k (principal_of c) next)
                ∙ subst (λ j. lookup k (insert j (principal_of c) next) ≡ some p) key old),
          )
      came (inr other) old =
          inl (sym (lookup-insert_ne (key_of c) k (principal_of c) next other) ∙ old)

-- Every client has a name and a key, and no two have the same key.
abbrev pub Named : ClientConfig → Type 0
Named c = (is_blank (key_of c) ≡ false) × (is_blank (trim_string c.name) ≡ false)

abbrev pub Loadable : List ClientConfig → Type 0
Loadable [] = Unit
Loadable (c ∷ cs) = Named c × (member (key_of c) (map key_of cs) ≡ false) × Loadable cs

-- No client's key is owned already.
abbrev pub Unowned : Map String → List ClientConfig → Type 0
Unowned owners [] = Unit
Unowned owners (c ∷ cs) = (has (key_of c) owners ≡ false) × Unowned owners cs

Unowned-insert :
    (k name : String) (owners : Map String) (cs : List ClientConfig)
    → Unowned (insert k name owners) cs ↔ (member k (map key_of cs) ≡ false) × Unowned owners cs
unfolding member
Unowned-insert k name owners [] = (λ u. (refl, tt), λ u. tt)
Unowned-insert k name owners (c ∷ cs) = ground (
  arith,
  has-insert k (key_of c) name owners,
  eq_iff (key_of c) k,
  eq_iff k (key_of c),
  Unowned-insert k name owners cs,
)

client_error_iff :
    (owners : Map String) (c : ClientConfig)
    → (client_error owners c ≡ none) ↔ Named c × (has (key_of c) owners ≡ false)
unfolding client_error has
client_error_iff owners c = ground arith

pub load_clients-Loadable :
    (cs : List ClientConfig) (next : Store) (owners : Map String)
    → ((final : Store) × (load_clients next owners cs ≡ loaded final))
      ↔ Loadable cs × Unowned owners cs
unfolding load_clients
load_clients-Loadable [] next owners = (λ u. (tt, tt), λ u. (next, refl))
load_clients-Loadable (c ∷ cs) next owners =
    let rest = load_clients-Loadable cs (add_client c next) (add_owner c owners) in
    (forth rest, back rest)
  where
    later : Load
    later = load_clients (add_client c next) (add_owner c owners) cs

    shift :
        Unowned (add_owner c owners) cs
        ↔ (member (key_of c) (map key_of cs) ≡ false) × Unowned owners cs
    shift = Unowned-insert (key_of c) (trim_string c.name) owners cs

    forth :
        ((final : Store) × (later ≡ loaded final)) ↔ Loadable cs × Unowned (add_owner c owners) cs
        → ((final : Store) × (or_refuse (client_error owners c) later ≡ loaded final))
        → Loadable (c ∷ cs) × Unowned owners (c ∷ cs)
    forth rest (final, h) =
        let (free, more) = loaded-then (client_error owners c) later h in
        let (named, new) = (client_error_iff owners c).0 free in
        let (loadable, unowned) = rest.0 (final, more) in
        let (once, others) = shift.0 unowned in ((named, once, loadable), (new, others))

    back :
        ((final : Store) × (later ≡ loaded final)) ↔ Loadable cs × Unowned (add_owner c owners) cs
        → Loadable (c ∷ cs) × Unowned owners (c ∷ cs)
        → (final : Store) × (or_refuse (client_error owners c) later ≡ loaded final)
    back rest ((named, once, loadable), (new, others)) =
        let (final, more) = rest.1 (loadable, shift.1 (once, others)) in
        (final, ap (λ o. or_refuse o later) ((client_error_iff owners c).1 (named, new)) ∙ more)

pub Unowned-nil : (cs : List ClientConfig) → Unowned [] cs
unfolding has lookup
Unowned-nil [] = tt
Unowned-nil (c ∷ cs) = (refl, Unowned-nil cs)

pub cloned-eq : (o : Option Principal) → cloned o ≡ o
cloned-eq none = refl
cloned-eq (some p) = refl

pub swapped :
    (s : Store) (l : Load) (final : Store) → keep_or_swap s l ≡ (final, none) → l ≡ loaded final
swapped s (loaded next) final h = cc
swapped s (refused e) final h = cc
