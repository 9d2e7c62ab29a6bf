-- ===== src/KeyPool/Select/Serve.antt =====
-- What `selectKeyForClient` of internal/proxy/keypool.go is to give a client, and its paths that leave
-- the binding of the client: the overflow, the recovery and the round robin.
use mathlib.Core.Option.{some-injective}
use llms_proxy.Base.{
  ℕ, zero, suc, ◌%◌, ◌<◌, ◌≤◌, ◌≡◌, refl, sym, ap, subst, ◌∙◌, ◌⊎◌, inl, inr, Bool, true, false,
  String, str_eq, Option, none, some, List, [], ◌∷◌, map, length, get_or-eq, get_elem?, modify,
  map-modify, length-map, lt-length, get_elem?-eq-some, get_elem?-map, get_elem?-modify_self, arith,
  Bool-cases, Option-cases,
}
use llms_proxy.Base.Maps.{lookup}
use llms_proxy.Base.Text.{Bytes}
use llms_proxy.Base.Time.{Time}
use llms_proxy.KeyPool.State.{
  KeyEntry, KeyPool, Selection, is_active, usable_at, recovered, found, blank,
}
use llms_proxy.KeyPool.Binding.{bind}
use llms_proxy.KeyPool.Binding.Bind.{bind-Binds}
use llms_proxy.KeyPool.Invariant.{IsValid, Binds-IsValid, recover_at-IsValid, advance-IsValid}
use llms_proxy.KeyPool.Select.{
  first_recoverable, recover_at, advance, scan, revive, overflow, rotate,
}
use llms_proxy.KeyPool.Select.Scan.{
  usable_at-eq_true, usable_at-is_active, Recovers, first_recoverable-Recovers, first_active-none,
  first_active-some,
}

-- An entry but for its window.
abbrev pub essence : KeyEntry → KeyEntry
essence e = record e { token_samples = [] }

abbrev pub label : KeyEntry → Bytes × Bool
label e = (e.key, e.blocked)

-- The keys and manual blocks of a pool.
abbrev pub labels : KeyPool → List (Bytes × Bool)
labels p = map label p.entries

-- Resting: blocked by hand, or exhausted with some cooldown left.
abbrev pub Rests : Time → KeyEntry → Type 0
Rests now e = (e.blocked ≡ true) ⊎ ((e.exhausted ≡ true) × (now < e.cooldown_end))

-- With a key: it is active now, it is the one at the index, and the client is bound to it. Without
-- one: every key rested.
abbrev pub Served : KeyPool → String → Time → KeyPool → Selection → Type 0
Served p name now q none = (j : ℕ) (e : KeyEntry) → get_elem? p.entries j ≡ some e → Rests now e
Served p name now q (some (k, i)) =
    (e : KeyEntry) × (get_elem? q.entries i ≡ some e)
    × (e.key ≡ k)
    × (is_active e ≡ true)
    × (lookup name q.client_affinity ≡ some i)

-- Ready: not blocked by hand, and not exhausted or past its cooldown.
abbrev pub IsReady : Time → KeyEntry → Type 0
IsReady now e = (e.blocked ≡ false) × ((e.exhausted ≡ false) ⊎ (e.cooldown_end ≤ now))

-- The entry at an index is ready.
abbrev pub ReadyAt : List KeyEntry → Time → ℕ → Type 0
ReadyAt es now i = (e : KeyEntry) × (get_elem? es i ≡ some e) × IsReady now e

pub usable_at-ReadyAt :
    (es : List KeyEntry) (now : Time) (i : ℕ) → usable_at es i ≡ true → ReadyAt es now i
usable_at-ReadyAt es now i u =
    let (e, at, active) = usable_at-eq_true es i u in (e, at, is_active-IsReady now e active)
  where
    is_active-IsReady : (now : Time) (e : KeyEntry) → is_active e ≡ true → IsReady now e
    is_active-IsReady now e h = ground arith

-- The key that is given was ready before.
abbrev pub Chosen : KeyPool → Time → Selection → Type 0
Chosen p now none = Unit
Chosen p now (some (k, i)) = ReadyAt p.entries now i

pub record Outcome (p : KeyPool) (name : String) (now : Time) (r : KeyPool × Selection)
    : Type 0 where
  pub valid : IsValid r.0
  pub same_labels : labels r.0 ≡ labels p
  pub served : Served p name now r.0 r.1
  pub chosen : Chosen p now r.1

-- A usable key is served as it is to a client that is bound to it.
pub serve_kept :
    (p q : KeyPool) (name : String) (now : Time) (i : ℕ)
    → IsValid q
    → labels q ≡ labels p
    → usable_at q.entries i ≡ true
    → lookup name q.client_affinity ≡ some i
    → ReadyAt p.entries now i
    → Outcome p name now (found q i)
serve_kept p q name now i v same u b ready =
    let (e, at, active) = usable_at-eq_true q.entries i u in
    record {
      valid = v;
      same_labels = same;
      served =
          (e, at, sym (ap (λ (x : KeyEntry). x.key) (get_or-eq q.entries i blank at)), active, b);
      chosen = ready;
    }

-- A usable key is served once the client is bound to it.
pub serve_bound :
    (p q : KeyPool) (name : String) (now : Time) (i : ℕ)
    → IsValid q
    → labels q ≡ labels p
    → usable_at q.entries i ≡ true
    → str_eq name "" ≡ false
    → ReadyAt p.entries now i
    → Outcome p name now (found (bind q name i now) i)
serve_bound p q name now i v same u named ready =
    let (e, at, active) = usable_at-eq_true q.entries i u in
    let b =
      bind-Binds (length q.entries) q name i now v.bound v.room v.within (lt-length q.entries i at)
        named in
    let entries = ap (λ (s : KeyPool). s.entries) b.trims.same_core in
    serve_kept p (bind q name i now) name now i (Binds-IsValid q _ name i now v b)
      (ap (map label) entries ∙ same) (rw entries u) b.bound_to ready

pub labels-recover_at : (p : KeyPool) (i : ℕ) → labels (recover_at p i) ≡ labels p
unfolding recover_at
labels-recover_at p i = map-modify label recovered (λ e. refl) i p.entries

pub usable_at-recover_at :
    (p : KeyPool) (i : ℕ) {e : KeyEntry}
    → get_elem? p.entries i ≡ some e
    → e.blocked ≡ false
    → usable_at (recover_at p i).entries i ≡ true
unfolding recover_at
usable_at-recover_at p i at free =
    usable_at-is_active (modify recovered i p.entries) i
      (get_elem?-modify_self recovered p.entries i at)
    ∙ ground arith

idle-Rests :
    (now : Time) (e : KeyEntry)
    → is_active e ≡ false
    → (e.blocked ≡ true) ⊎ (now < e.cooldown_end)
    → Rests now e
idle-Rests now e a h = ground arith

-- Step 4: no key is usable.
revive-Outcome :
    (p : KeyPool) (name : String) (now : Time)
    → IsValid p
    → ((j : ℕ) → j < length p.entries → usable_at p.entries j ≡ false)
    → str_eq name "" ≡ false
    → Outcome p name now (revive p name now)
unfolding revive
revive-Outcome p name now v none_usable named =
    revived (first_recoverable now p.entries 0) refl (first_recoverable-Recovers now p.entries 0)
  where
    revived :
        (k : Option ℕ)
        → first_recoverable now p.entries 0 ≡ k
        → Recovers now p.entries 0 k
        → Outcome p name now (revive p name now)
    revived none eq h =
        simp (eq, revive)
          (record {
            valid = v;
            same_labels = refl;
            served = λ j e at.
                idle-Rests now e
                  (sym (usable_at-is_active p.entries j at)
                    ∙ none_usable j (lt-length p.entries j at))
                  (h j e at);
            chosen = tt;
          })
    revived (some k) eq (j, e, same, at, free, past) =
        let is : k ≡ j = same ∙ omega arith in
        rw (eq, revive)
          (rw is (
            serve_bound p (recover_at p j) name now j (recover_at-IsValid p j v)
              (labels-recover_at p j) (usable_at-recover_at p j at free) named
              (e, at, (free, inr past))))

-- Step 3, and on.
pub overflow-Outcome :
    (p : KeyPool) (name : String) (now : Time)
    → IsValid p
    → 0 < length p.entries
    → str_eq name "" ≡ false
    → Outcome p name now (overflow p name now)
unfolding overflow
overflow-Outcome p name now v some_keys named = elim (Option-cases (scan p)) [
  | inl eq ↦
      rw (eq, overflow)
        (revive-Outcome p name now v
          (first_active-none p.entries (length p.entries) (p.rr_counter % length p.entries) 0 eq)
          named)
  | inr (i, eq) ↦
      rw (eq, overflow)
        (serve_bound p p name now i v refl
          (first_active-some p.entries (length p.entries) (p.rr_counter % length p.entries)
            (length p.entries) 0 i eq some_keys).1
          named
          (usable_at-ReadyAt p.entries now i
            (first_active-some p.entries (length p.entries) (p.rr_counter % length p.entries)
              (length p.entries) 0 i eq some_keys).1))
]

-- An outcome for a pool with the same keys, windows apart, is an outcome for this one.
same_item :
    (es fs : List KeyEntry) (j : ℕ) {e : KeyEntry}
    → map essence es ≡ map essence fs
    → get_elem? fs j ≡ some e
    → (x : KeyEntry) × (get_elem? es j ≡ some x) × (essence x ≡ essence e)
same_item es fs j {e} same at =
    let there = lt-length fs j at in
    let long : length es ≡ length fs =
      sym (length-map essence es) ∙ ap length same ∙ length-map essence fs in
    let (x, here) = get_elem?-eq-some es j (rw long there) in
    let seen : some (essence x) ≡ some (essence e) =
      sym (get_elem?-map essence es j here)
      ∙ ap (λ (l : List KeyEntry). get_elem? l j) same
      ∙ get_elem?-map essence fs j at in
    (x, here, some-injective (essence x) (essence e) seen)

labels-essence : (es : List KeyEntry) → map label (map essence es) ≡ map label es
labels-essence [] = refl
labels-essence (e ∷ es) = ap (λ l. label e ∷ l) (labels-essence es)

transport-ReadyAt :
    (es fs : List KeyEntry) (now : Time) (i : ℕ)
    → map essence es ≡ map essence fs
    → ReadyAt es now i
    → ReadyAt fs now i
transport-ReadyAt es fs now i same (e, at, ready) =
    let (x, here, eq) = same_item fs es i (sym same) at in
    (x, here, subst (λ (y : KeyEntry). IsReady now y) (sym eq) ready)

pub transport-Outcome :
    (p q : KeyPool) (name : String) (now : Time) (r : KeyPool × Selection)
    → map essence q.entries ≡ map essence p.entries
    → Outcome q name now r
    → Outcome p name now r
transport-Outcome p q name now (s, none) same o = record {
  valid = o.valid;
  same_labels =
      o.same_labels
      ∙ sym (labels-essence q.entries)
      ∙ ap (map label) same
      ∙ labels-essence p.entries;
  served = λ j e at.
      let (x, here, eq) = same_item q.entries p.entries j same at in
      let rests : Rests now x = o.served j x here in subst (λ (y : KeyEntry). Rests now y) eq rests;
  chosen = tt;
}
transport-Outcome p q name now (s, some k) same o = record {
  valid = o.valid;
  same_labels =
      o.same_labels
      ∙ sym (labels-essence q.entries)
      ∙ ap (map label) same
      ∙ labels-essence p.entries;
  served = o.served;
  chosen = transport-ReadyAt q.entries p.entries now k.1 same o.chosen;
}

essence-advance : (p : KeyPool) → map essence (advance p).entries ≡ map essence p.entries
unfolding advance
essence-advance p = refl

length-advance : (p : KeyPool) → length (advance p).entries ≡ length p.entries
unfolding advance
length-advance p = refl

usable_at-advance : (p : KeyPool) (i : ℕ) → usable_at (advance p).entries i ≡ usable_at p.entries i
unfolding advance
usable_at-advance p i = refl

pub labels-advance : (p : KeyPool) → labels (advance p) ≡ labels p
unfolding advance
labels-advance p = refl

pub rotate-Outcome :
    (p : KeyPool) (left : ℕ) (name : String) (now : Time)
    → IsValid p
    → 0 < length p.entries
    → str_eq name "" ≡ false
    → Outcome p name now (rotate p left name now)
unfolding rotate
rotate-Outcome p zero name now v some_keys named = overflow-Outcome p name now v some_keys named
rotate-Outcome p (suc left) name now v some_keys named =
    elim (Bool-cases (usable_at p.entries (p.rr_counter % length p.entries))) [
      | inl u ↦
          rw (u, rotate)
            (serve_bound p (advance p) name now _ (advance-IsValid p v) (labels-advance p)
              (usable_at-advance p _ ∙ u) named (usable_at-ReadyAt p.entries now _ u))
      | inr u ↦
          rw (u, rotate)
            (transport-Outcome p (advance p) name now _ (essence-advance p) (
              rotate-Outcome (advance p) left name now (advance-IsValid p v)
                (rw (length-advance p) some_keys) named))
    ]
