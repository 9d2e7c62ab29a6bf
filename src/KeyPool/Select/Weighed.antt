-- ===== src/KeyPool/Select/Weighed.antt =====
-- The choices of `selectKeyForClient` (internal/proxy/keypool.go) that weigh the keys.
use llms_proxy.Base.{
  ℕ, ◌<◌, ◌≡◌, refl, sym, ap, ◌∙◌, inl, inr, true, false, String, str_eq, Option, none, some, List,
  [], ◌∷◌, map, length, ◌==◌, ==_iff, Bool-cases,
}
use llms_proxy.Base.Time.{Time}
use llms_proxy.KeyPool.State.{KeyEntry, KeyPool, Selection, usable_at, found}
use llms_proxy.KeyPool.Load.{cutoff, prune_entry, best_active_key, score_less}
use llms_proxy.KeyPool.Balance.{
  settle, settles-length, settles-usable, usable_at-settle, lighter, lighter-weak, score_less-Reads,
}
use llms_proxy.KeyPool.Balance.Best.{IsBest, best_active_key-Finds, unused}
use llms_proxy.KeyPool.Binding.{bind}
use llms_proxy.KeyPool.Invariant.{IsValid, settles-IsValid}
use llms_proxy.KeyPool.Select.{migrate, rebalance}
use llms_proxy.KeyPool.Select.Serve.{
  essence, Outcome, usable_at-ReadyAt, serve_bound, transport-Outcome,
}

pub essence-prune :
    (limit : Time) (es : List KeyEntry) → map essence (map (prune_entry limit) es) ≡ map essence es
essence-prune limit [] = refl
essence-prune limit (e ∷ es) = ap (λ l. essence e ∷ l) (essence-prune limit es)

pub essence-settle :
    (p : KeyPool) (now : Time) → map essence (settle p now).entries ≡ map essence p.entries
unfolding settle
essence-settle p now = essence-prune (cutoff p now) p.entries

pub settles-essence :
    (p q : KeyPool) (now : Time)
    → settle q now ≡ settle p now
    → map essence q.entries ≡ map essence p.entries
settles-essence p q now h =
    sym (essence-settle q now)
    ∙ ap (λ (s : KeyPool). map essence s.entries) h
    ∙ essence-settle p now

-- No active key is lighter than the one chosen.
abbrev pub Balanced : KeyPool → Time → Selection → Type 0
Balanced p now none = ⊥
Balanced p now (some (k, i)) =
    (j : ℕ)
    → j < length p.entries
    → usable_at p.entries j ≡ true
    → lighter (settle p now) j i ≡ false

-- A client is served, by a key that no active key undercuts.
pub record Weighed (p : KeyPool) (name : String) (now : Time) (r : KeyPool × Selection)
    : Type 0 where
  pub outcome : Outcome p name now r
  pub balanced : Balanced p now r.1

pub best-Balanced :
    (p q : KeyPool) (now : Time) (b : ℕ)
    → IsBest (settle p now) (length p.entries) (some b)
    → Balanced p now (found q b).1
best-Balanced p q now b h = λ j lt u. h.2 j lt (usable_at-settle p j now ∙ u)

pub bind-Weighed :
    (p q : KeyPool) (name : String) (now : Time) (i : ℕ)
    → settle q now ≡ settle p now
    → IsValid p
    → usable_at p.entries i ≡ true
    → str_eq name "" ≡ false
    → ((j : ℕ)
        → j < length p.entries
        → usable_at p.entries j ≡ true
        → lighter (settle p now) j i ≡ false)
    → Weighed p name now (found (bind q name i now) i)
bind-Weighed p q name now i same v u named b = record {
  outcome =
      transport-Outcome p q name now (found (bind q name i now) i) (settles-essence p q now same) (
        serve_bound q q name now i (settles-IsValid p q now same v) refl
          (settles-usable p q i now same ∙ u) named
          (usable_at-ReadyAt q.entries now i (settles-usable p q i now same ∙ u)));
  balanced = b;
}

pub migrate-Weighed :
    (p q : KeyPool) (name : String) (preferred : ℕ) (best : Option ℕ) (now : Time)
    → settle q now ≡ settle p now
    → IsValid p
    → preferred < length p.entries
    → usable_at p.entries preferred ≡ true
    → IsBest (settle p now) (length p.entries) best
    → str_eq name "" ≡ false
    → Weighed p name now (migrate q name preferred best now)
unfolding migrate
migrate-Weighed p q name preferred none now same v lt u h named = absurd (
    unused (usable_at p.entries preferred) u
      (sym (usable_at-settle p preferred now) ∙ h preferred lt))
migrate-Weighed p q name preferred (some best) now same v lt u h named =
    let s =
      score_less-Reads q best preferred now (rw (settles-length p q now same) h.0)
        (rw (settles-length p q now same) lt) in
    let r = (score_less q best preferred now).0 in
    let usable_best = sym (usable_at-settle p best now) ∙ h.1 in
    elim (Bool-cases (best == preferred)) [
      | inl eq ↦
          let is : best ≡ preferred = (==_iff best preferred).0 eq in
          rw (eq, migrate)
            (bind-Weighed p q name now preferred same v u named
              (rw is at (best-Balanced p q now best h)))
      | inr ne ↦ elim (Bool-cases (lighter (settle p now) best preferred)) [
        | inl less ↦
            rw (ne, s.value, same, less, migrate)
              (bind-Weighed p r name now best (s.settles ∙ same) v usable_best named
                (best-Balanced p r now best h))
        | inr not_less ↦
            rw (ne, s.value, same, not_less, migrate)
              (bind-Weighed p r name now preferred (s.settles ∙ same) v u named (λ j below w.
                lighter-weak (settle p now) j best preferred
                  (best-Balanced p r now best h j below w) not_less))
      ]
    ]

-- A client whose binding is due for review gets an active key that no active key undercuts.
pub rebalance-Weighed :
    (p : KeyPool) (name : String) (preferred : ℕ) (now : Time)
    → IsValid p
    → preferred < length p.entries
    → usable_at p.entries preferred ≡ true
    → str_eq name "" ≡ false
    → Weighed p name now (rebalance p name preferred now)
unfolding rebalance
rebalance-Weighed p name preferred now v lt u named =
    let b = best_active_key-Finds p now in
    migrate-Weighed p (best_active_key p now).0 name preferred (best_active_key p now).1 now
      b.settles v lt u b.best named
