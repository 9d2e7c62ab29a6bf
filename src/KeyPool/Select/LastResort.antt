-- ===== src/KeyPool/Select/LastResort.antt =====
-- `selectKey` of internal/proxy/keypool.go when no key is active: recovery, the probe, or none.
use llms_proxy.Base.{
  ℕ, zero, suc, ◌%◌, ◌≤◌, ◌<◌, ◌≡◌, refl, sym, ap, ◌∙◌, ◌⊎◌, inl, inr, true, false, str_eq, Option,
  none, some, List, [], ◌∷◌, length, get_or, get_or-eq, get_elem?, lt-length, modify, ◌==◌, ==_iff,
  arith, Bool-cases, Option-cases,
}
use llms_proxy.Base.Int.{ℤ, ltb_ℤ}
use llms_proxy.Base.Text.{Bytes}
use llms_proxy.Base.Time.{Time}
use llms_proxy.KeyPool.State.{KeyEntry, KeyPool, Selection, recovered, usable_at, blank}
use llms_proxy.KeyPool.Balance.Best.{unused}
use llms_proxy.KeyPool.Select.{
  first_recoverable, recover_at, best_probe, probe, select_exhausted, scan, select_key,
}
use llms_proxy.KeyPool.Select.Scan.{first_active-some, Recovers, first_recoverable-Recovers}
use llms_proxy.KeyPool.Select.Serve.{usable_at-recover_at}
use llms_proxy.KeyPool.Select.Probe.{is_skipped, remaining, Shortest, best_probe-Shortest}

none-not-some : {A : Type 0} {o : Option A} {a : A} → o ≡ none → o ≡ some a → ⊥
none-not-some p q = cc

-- What `selectKey` does when no key is active. A key whose cooldown is over recovers; else the key
-- with the least cooldown left is probed as it is, but no rate limited one; else there is none.
abbrev pub LastResort : KeyPool → Time → KeyPool → Selection → Type 0
LastResort p now q none =
    (q ≡ p)
    × ((j : ℕ) (e : KeyEntry)
        → get_elem? p.entries j ≡ some e
        → (e.blocked ≡ true)
          ⊎ ((now < e.cooldown_end) × (str_eq e.exhaust_reason "rate_limited" ≡ true)))
LastResort p now q (some (k, i)) =
    (e : KeyEntry) × (get_elem? p.entries i ≡ some e)
    × (e.key ≡ k)
    × (e.blocked ≡ false)
    × (((e.cooldown_end ≤ now) × (q ≡ recover_at p i) × (usable_at q.entries i ≡ true))
        ⊎ ((q ≡ p)
            × (str_eq e.exhaust_reason "rate_limited" ≡ false)
            × ((j : ℕ) (x : KeyEntry)
                → get_elem? p.entries j ≡ some x
                → (x.blocked ≡ true) ⊎ (now < x.cooldown_end))
            × ((j : ℕ) (x : KeyEntry)
                → get_elem? p.entries j ≡ some x
                → is_skipped x ≡ false
                → ltb_ℤ (remaining now x) (remaining now e) ≡ false)))

key_of-recover_at :
    (p : KeyPool) (i : ℕ)
    → (get_or (recover_at p i).entries i blank).key ≡ (get_or p.entries i blank).key
unfolding recover_at
key_of-recover_at p i = go i p.entries
  where
    go :
        (i : ℕ) (es : List KeyEntry)
        → (get_or (modify recovered i es) i blank).key ≡ (get_or es i blank).key
    go i [] = refl
    go zero (e ∷ es) = refl
    go (suc i) (e ∷ es) = go i es

passed :
    (now : Time) (e : KeyEntry)
    → is_skipped e ≡ true
    → (e.blocked ≡ true) ⊎ (now < e.cooldown_end)
    → (e.blocked ≡ true)
      ⊎ ((now < e.cooldown_end) × (str_eq e.exhaust_reason "rate_limited" ≡ true))
passed now e skip h = ground arith

key_at :
    (p : KeyPool) (j : ℕ) {e : KeyEntry}
    → get_elem? p.entries j ≡ some e
    → e.key ≡ (get_or p.entries j blank).key
key_at p j at = sym (ap (λ (x : KeyEntry). x.key) (get_or-eq p.entries j blank at))

probe-LastResort :
    (p : KeyPool) (now : Time)
    → ((j : ℕ) (e : KeyEntry)
        → get_elem? p.entries j ≡ some e
        → (e.blocked ≡ true) ⊎ (now < e.cooldown_end))
    → LastResort p now (probe p now).0 (probe p now).1
unfolding probe
probe-LastResort p now cooling =
    probed (best_probe now p.entries 0 none) refl (best_probe-Shortest now p.entries 0 none)
  where
    probed :
        (o : Option (ℕ × ℤ))
        → best_probe now p.entries 0 none ≡ o
        → Shortest now p.entries 0 none o
        → LastResort p now (probe p now).0 (probe p now).1
    probed none eq (_, skipped) =
        rw (eq, probe) (refl, λ j e at. passed now e (skipped j e at) (cooling j e at))
    probed (some (k, m)) eq (inl p', least, before) = absurd (cc p')
    probed (some (k, m)) eq (inr (j, e, same, at, free, is), least, before) =
        let here : k ≡ j = omega arith in
        let best : ((i : ℕ) (x : KeyEntry)
            → get_elem? p.entries i ≡ some x
            → is_skipped x ≡ false
            → ltb_ℤ (remaining now x) (remaining now e) ≡ false) =
          rw is at least in
        rw (eq, probe)
          (rw here (e, at, key_at p j at, ground arith, inr (refl, ground arith, cooling, best)))

-- When no key is active, `selectKey` makes a key active again whose cooldown is over, or returns the
-- key with the least cooldown left to probe it, but none that is blocked or rate limited; it returns none
-- and changes nothing only if every key is blocked, or rate limited with some cooldown left.
pub select_key_exhausted :
    (p : KeyPool) (now : Time)
    → ((j : ℕ) → j < length p.entries → usable_at p.entries j ≡ false)
    → LastResort p now (select_key p now).0 (select_key p now).1
unfolding select_key select_exhausted
select_key_exhausted p now idle = elim (Bool-cases (length p.entries == 0)) [
  | inl empty ↦
      rw (empty, select_key)
        (refl, λ j e at. absurd (omega (arith, (==_iff _ _).0 empty, lt-length p.entries j at)))
  | inr full ↦ elim (Option-cases (scan p)) [
    | inr (i, eq) ↦
        let hit =
          first_active-some p.entries (length p.entries) (p.rr_counter % length p.entries)
            (length p.entries) 0 i eq (ground (arith, full)) in
        absurd (unused (usable_at p.entries i) hit.1 (idle i hit.0))
    | inl eq ↦
        rw (full, eq, select_key)
          (rested (first_recoverable now p.entries 0) refl
            (first_recoverable-Recovers now p.entries 0))
  ]
]
  where
    rested :
        (o : Option ℕ)
        → first_recoverable now p.entries 0 ≡ o
        → Recovers now p.entries 0 o
        → LastResort p now (select_exhausted p now).0 (select_exhausted p now).1
    rested none eq h = rw (eq, select_exhausted) (probe-LastResort p now h)
    rested (some k) eq (j, e, same, at, free, past) =
        let here : k ≡ j = omega arith in
        rw (eq, select_exhausted)
          (rw here (
            e,
            at,
            key_at p j at ∙ sym (key_of-recover_at p j),
            free,
            inl (past, refl, usable_at-recover_at p j at free),
          ))

-- When no key is active and one that is not blocked has served its cooldown, `selectKey` returns a
-- key, and that key is active again.
pub select_key_recovers :
    (p : KeyPool) (now : Time) (j : ℕ) (e : KeyEntry)
    → ((i : ℕ) → i < length p.entries → usable_at p.entries i ≡ false)
    → get_elem? p.entries j ≡ some e
    → e.blocked ≡ false
    → e.cooldown_end ≤ now
    → (s : Bytes × ℕ) × ((select_key p now).1 ≡ some s)
      × (usable_at (select_key p now).0.entries s.1 ≡ true)
select_key_recovers p now j e idle at free past =
    recovered_key (select_key p now).0 (select_key p now).1 (select_key_exhausted p now idle)
  where
    not_cooling : (e.blocked ≡ true) ⊎ (now < e.cooldown_end) → ⊥
    not_cooling h = ground arith

    recovered_key :
        (q : KeyPool) (r : Selection)
        → LastResort p now q r
        → (s : Bytes × ℕ) × (r ≡ some s) × (usable_at q.entries s.1 ≡ true)
    recovered_key q none (_, h) = absurd (ground (arith, h j e at))
    recovered_key q (some (k, i)) (x, there, is, open_, inl (over, same, usable)) =
        ((k, i), refl, usable)
    recovered_key q (some (k, i)) (x, there, is, open_, inr (same, unlimited, cooling, least)) =
        absurd (not_cooling (cooling j e at))
