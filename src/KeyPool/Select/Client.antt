-- ===== src/KeyPool/Select/Client.antt =====
-- `selectKeyForClient` of internal/proxy/keypool.go as a whole.
use llms_proxy.Base.{
  ℕ, ◌<◌, ◌≡◌, refl, sym, ap, subst, ◌∙◌, get_or-eq, inl, inr, Bool, true, false, String, str_eq,
  Option, none, some, length, lt-length, lt→ltb, ◌==◌, ==_iff, arith, Bool-cases, Option-cases,
}
use llms_proxy.Base.Int.{pos, leb_ℤ}
use llms_proxy.Base.Maps.{lookup}
use llms_proxy.Base.Text.{Bytes}
use llms_proxy.Base.Time.{Time, sub}
use llms_proxy.KeyPool.State.{KeyEntry, KeyPool, usable_at, found, blank}
use llms_proxy.KeyPool.Balance.{settle, settles-length, usable_at-settle}
use llms_proxy.KeyPool.Balance.Best.{IsBest, unused}
use llms_proxy.KeyPool.Invariant.{IsValid, settles-IsValid}
use llms_proxy.KeyPool.Select.{
  overflow, bound_at, reuse, bound_client, survey, rotate, assign, new_client,
  select_key_for_client,
}
use llms_proxy.KeyPool.Select.Serve.{
  Outcome, usable_at-ReadyAt, serve_kept, overflow-Outcome, rotate-Outcome, transport-Outcome,
}
use llms_proxy.KeyPool.Select.Scan.{usable_at-is_active}
use llms_proxy.KeyPool.Select.Survey.{survey-Surveys, has_load, IsSignal}
use llms_proxy.KeyPool.Select.Weighed.{
  settles-essence, Weighed, best-Balanced, bind-Weighed, rebalance-Weighed,
}

-- Of a key that is not usable, or out of range, nothing is reused.
bound_client-Outcome :
    (p : KeyPool) (name : String) (preferred : ℕ) (now : Time)
    → IsValid p
    → 0 < length p.entries
    → lookup name p.client_affinity ≡ some preferred
    → str_eq name "" ≡ false
    → Outcome p name now (bound_client p name preferred now)
unfolding bound_client reuse
bound_client-Outcome p name preferred now v some_keys bound named =
    let lt = v.bound.in_range name preferred bound in
    elim (Bool-cases (usable_at p.entries preferred)) [
      | inr idle ↦
          rw (lt→ltb _ _ lt, idle, bound_client) (overflow-Outcome p name now v some_keys named)
      | inl u ↦ elim (Bool-cases (leb_ℤ (pos p.rebalance_interval) (sub now (bound_at p name)))) [
        | inl due ↦
            rw (lt→ltb _ _ lt, u, due, bound_client, reuse)
              (rebalance-Weighed p name preferred now v lt u named).outcome
        | inr fresh ↦
            rw (lt→ltb _ _ lt, u, fresh, bound_client, reuse)
              (serve_kept p p name now preferred v refl u bound
                (usable_at-ReadyAt p.entries now preferred u))
      ]
    ]

assign-Outcome :
    (p q : KeyPool) (best : Option ℕ) (signal : Bool) (name : String) (now : Time)
    → settle q now ≡ settle p now
    → IsValid p
    → 0 < length p.entries
    → IsBest (settle p now) (length p.entries) best
    → str_eq name "" ≡ false
    → Outcome p name now (assign q best signal name now)
unfolding assign
assign-Outcome p q none signal name now same v some_keys h named =
    transport-Outcome p q name now (overflow q name now) (settles-essence p q now same) (
      overflow-Outcome q name now (settles-IsValid p q now same v)
        (rw (settles-length p q now same) some_keys) named)
assign-Outcome p q (some best) true name now same v some_keys h named =
    (bind-Weighed p q name now best same v (sym (usable_at-settle p best now) ∙ h.1) named
      (best-Balanced p q now best h)).outcome
assign-Outcome p q (some best) false name now same v some_keys h named =
    transport-Outcome p q name now (rotate q (length q.entries) name now)
      (settles-essence p q now same)
      (rotate-Outcome q (length q.entries) name now (settles-IsValid p q now same v)
        (rw (settles-length p q now same) some_keys) named)

-- On a well-formed pool a named client gets a key that was active or past its cooldown, is active
-- afterwards, and to which the client is bound, or no key at all if every key is blocked by hand or
-- exhausted with some cooldown left. The pool stays well formed, and its keys and manual blocks stay
-- the same.
pub select_key_for_client-Outcome :
    (p : KeyPool) (name : String) (now : Time)
    → IsValid p
    → str_eq name "" ≡ false
    → Outcome p name now (select_key_for_client p name now)
unfolding select_key_for_client new_client
select_key_for_client-Outcome p name now v named = elim (Bool-cases (length p.entries == 0)) [
  | inl empty ↦
      rw (empty, select_key_for_client)
        (record {
          valid = v;
          same_labels = refl;
          served = λ j e at. absurd (omega (arith, (==_iff _ _).0 empty, lt-length p.entries j at));
          chosen = tt;
        })
  | inr full ↦ elim (Option-cases (lookup name p.client_affinity)) [
    | inl unbound ↦
        let s = survey-Surveys p now in
        let (q, best, signal) = survey p (length p.entries) 0 none false now in
        rw (full, named, unbound, select_key_for_client)
          (assign-Outcome p q best signal name now s.settles v (ground (arith, full)) s.best named)
    | inr (preferred, bound) ↦
        rw (full, named, bound, select_key_for_client)
          (bound_client-Outcome p name preferred now v (ground (arith, full)) bound named)
  ]
]

select_key_for_client_sticky :
    (p : KeyPool) (name : String) (now : Time) (preferred : ℕ)
    → IsValid p
    → str_eq name "" ≡ false
    → lookup name p.client_affinity ≡ some preferred
    → usable_at p.entries preferred ≡ true
    → leb_ℤ (pos p.rebalance_interval) (sub now (bound_at p name)) ≡ false
    → select_key_for_client p name now ≡ found p preferred
unfolding select_key_for_client bound_client reuse
select_key_for_client_sticky p name now preferred v named bound u fresh =
    let lt = v.bound.in_range name preferred bound in
    let full : (length p.entries == 0) ≡ false = ground arith in
    rw (full, named, bound, lt→ltb _ _ lt, u, fresh)

-- Once a named client has been given a key of a well-formed pool, on whichever path, it is given that key
-- again as long as its binding is not due for review, and that changes nothing.
pub select_key_for_client_repeats :
    (p q : KeyPool) (name : String) (now later : Time) (k : Bytes) (i : ℕ)
    → IsValid p
    → str_eq name "" ≡ false
    → select_key_for_client p name now ≡ (q, some (k, i))
    → leb_ℤ (pos q.rebalance_interval) (sub later (bound_at q name)) ≡ false
    → select_key_for_client q name later ≡ (q, some (k, i))
select_key_for_client_repeats p q name now later k i v named given fresh =
    let first =
      subst (Outcome p name now) given (select_key_for_client-Outcome p name now v named) in
    let (e, at, key, active, bound) = first.served in
    select_key_for_client_sticky q name later i first.valid named bound
      (usable_at-is_active q.entries i at ∙ active) fresh
    ∙ ap (λ x. (q, some (x, i)))
        (ap (λ (x : KeyEntry). x.key) (get_or-eq q.entries i blank at) ∙ key)

-- On a well-formed pool, a named client bound to an active key for the interval or longer gets an
-- active key that no active key undercuts: fewer requests in flight, or as many and fewer tokens
-- in the window.
pub select_key_for_client_rebalances :
    (p : KeyPool) (name : String) (now : Time) (preferred : ℕ)
    → IsValid p
    → str_eq name "" ≡ false
    → lookup name p.client_affinity ≡ some preferred
    → usable_at p.entries preferred ≡ true
    → leb_ℤ (pos p.rebalance_interval) (sub now (bound_at p name)) ≡ true
    → Weighed p name now (select_key_for_client p name now)
unfolding select_key_for_client bound_client reuse
select_key_for_client_rebalances p name now preferred v named bound u due =
    let lt = v.bound.in_range name preferred bound in
    let full : (length p.entries == 0) ≡ false = ground arith in
    rw (full, named, bound, lt→ltb _ _ lt, u, due, select_key_for_client, bound_client, reuse)
      (rebalance-Weighed p name preferred now v lt u named)

-- On a well-formed pool, a named client without a binding gets an active key that no active key
-- undercuts, if some active key has load.
pub select_key_for_client_weighs :
    (p : KeyPool) (name : String) (now : Time) (i : ℕ)
    → IsValid p
    → str_eq name "" ≡ false
    → lookup name p.client_affinity ≡ none
    → i < length p.entries
    → usable_at p.entries i ≡ true
    → has_load (settle p now) i ≡ true
    → Weighed p name now (select_key_for_client p name now)
unfolding select_key_for_client new_client
select_key_for_client_weighs p name now i v named unbound lt u load =
    let full : (length p.entries == 0) ≡ false = ground arith in
    let s = survey-Surveys p now in
    let (q, best, signal) = survey p (length p.entries) 0 none false now in
    rw (full, named, unbound, select_key_for_client)
      (chosen q best signal s.settles s.best s.signal)
  where
    chosen :
        (q : KeyPool) (best : Option ℕ) (signal : Bool)
        → settle q now ≡ settle p now
        → IsBest (settle p now) (length p.entries) best
        → IsSignal (settle p now) (length p.entries) signal
        → Weighed p name now (assign q best signal name now)
    chosen q none signal same h g =
        absurd (unused (usable_at p.entries i) u (sym (usable_at-settle p i now) ∙ h i lt))
    chosen q (some best) false same h g =
        absurd (unused (has_load (settle p now) i) load (g i lt (usable_at-settle p i now ∙ u)))
    chosen q (some best) true same h g =
        unfold assign in
        (bind-Weighed p q name now best same v (sym (usable_at-settle p best now) ∙ h.1) named
          (best-Balanced p q now best h))
