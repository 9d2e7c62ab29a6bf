-- ===== src/Affinity/Laws.antt =====
-- What `Get` reads back of a `Set` in internal/proxy/affinity.go.
use text.Mathlib.TextPositions.{eq_refl}
use llms_proxy.Base.{
  ◌+◌, ◌≤◌, ◌<◌, ◌≡◌, refl, ap, ◌∙◌, true, false, String, str_eq, none, some, arith, leb, inl, inr,
  Bool-cases, if◌then◌else◌,
}
use llms_proxy.Base.Maps.{lookup, insert, delete, lookup-insert, lookup-delete}
use llms_proxy.Base.Time.{Time, sub}
use llms_proxy.Affinity.{affinity_ttl, AffinityEntry, AffinityMap, is_expired, get_entry, get, set}

-- The entry that a `Set` leaves.
abbrev pub entry_of : String → Time → AffinityEntry
entry_of target_name now = record { target_name = target_name; last_used = now }

lookup-set :
    (m : AffinityMap) (key target_name : String) (now : Time)
    → lookup key (set m key target_name now) ≡ some (entry_of target_name now)
unfolding set
lookup-set m key target_name now =
    lookup-insert key key (entry_of target_name now) m ∙ simp (eq_refl key) refl

get-lookup :
    (m : AffinityMap) (key : String) (now : Time)
    → get m key now ≡ get_entry key now m (lookup key m)
unfolding get
get-lookup m key now = refl

not_expired :
    (target_name : String) (now later : Time)
    → later ≤ now + affinity_ttl
    → is_expired (entry_of target_name now) later ≡ false
unfolding sub
not_expired target_name now later hi = ground arith

expired :
    (target_name : String) (now later : Time)
    → now + affinity_ttl < later
    → is_expired (entry_of target_name now) later ≡ true
unfolding sub
expired target_name now later h = ground arith

-- `Get` not later than five minutes after a `Set` of its key gives the target that was set, and changes nothing.
pub get-set :
    (m : AffinityMap) (key target_name : String) (now later : Time)
    → later ≤ now + affinity_ttl
    → get (set m key target_name now) key later ≡ (set m key target_name now, some target_name)
get-set m key target_name now later hi =
    get-lookup (set m key target_name now) key later
    ∙ ap (get_entry key later (set m key target_name now)) (lookup-set m key target_name now)
    ∙ ap
        (λ b.
          if b
          then (delete key (set m key target_name now), none)
          else (set m key target_name now, some target_name))
        (not_expired target_name now later hi)

-- `Get` more than five minutes after the last `Set` of its key gives no target and forgets the key,
-- and leaves every other key as it was before the `Set`.
pub get-set_expired :
    (m : AffinityMap) (key target_name other : String) (now later : Time)
    → now + affinity_ttl < later
    → ((get (set m key target_name now) key later).1 ≡ none)
      × (lookup other (get (set m key target_name now) key later).0
          ≡ (if str_eq key other then none else lookup other m))
unfolding set
get-set_expired m key target_name other now later h =
    let read =
      get-lookup (set m key target_name now) key later
      ∙ ap (get_entry key later (set m key target_name now)) (lookup-set m key target_name now)
      ∙ ap
          (λ b.
            if b
            then (delete key (set m key target_name now), none)
            else (set m key target_name now, some target_name))
          (expired target_name now later h) in
    (ap (λ r. r.1) read, ap (λ r. lookup other r.0) read ∙ dropped)
  where
    dropped :
        lookup other (delete key (set m key target_name now))
        ≡ (if str_eq key other then none else lookup other m)
    dropped = ground (
      arith,
      lookup-delete key other (insert key (entry_of target_name now) m),
      lookup-insert key other (entry_of target_name now) m,
    )

-- After a `Set` of its key, `Get` gives the target that was set and changes nothing for five minutes;
-- from then on it gives none and forgets the key, and leaves every other key as it was before.
pub get-set_lifetime :
    (m : AffinityMap) (key target_name other : String) (now later : Time)
    → let fresh = leb later (now + affinity_ttl) in
      let kept = set m key target_name now in
      let (n, found) = get kept key later in
      (found ≡ (if fresh then some target_name else none))
      × (lookup other n ≡ (
          if fresh then lookup other kept else if str_eq key other then none else lookup other m))
get-set_lifetime m key target_name other now later =
    elim (Bool-cases (leb later (now + affinity_ttl))) [
      | inl e ↦
          let read = get-set m key target_name now later (ground (arith, e)) in
          rw e (ap (λ r. r.1) read, ap (λ r. lookup other r.0) read)
      | inr e ↦ rw e (get-set_expired m key target_name other now later (ground (arith, e)))
    ]
