-- ===== src/KeyPool/Balance/Best.antt =====
-- bestActiveKeyLocked of internal/proxy/keypool.go, the search for the active key with the least load.
use native.Mathlib.Nat.{add-zero, zero-add}
use native.Mathlib.Numerals.{add-one}
use native.Mathlib.Decide.{dec_lt}
use llms_proxy.Base.{
  ℕ, zero, suc, ◌+◌, ◌<◌, ◌≡◌, refl, ◌∙◌, ◌⊎◌, inl, inr, Bool, true, false, Option, none, some,
  length, arith, Bool-cases, if◌then◌else◌,
}
use llms_proxy.Base.Time.{Time}
use llms_proxy.KeyPool.State.{KeyPool, usable_at}
use llms_proxy.KeyPool.Load.{better, consider, best_from, best_active_key}
use llms_proxy.KeyPool.Balance.{
  settle, settles-length, usable_at-settle, lighter, lighter_trans, lighter_irrefl, Reads,
  score_less-Reads,
}

-- The best of the usable keys below `k`: none is lighter. Without a best one none is usable.
abbrev pub IsBest : KeyPool → ℕ → Option ℕ → Type 0
IsBest s k none = (j : ℕ) → j < k → usable_at s.entries j ≡ false
IsBest s k (some b) =
    (b < k)
    × (usable_at s.entries b ≡ true)
    × ((j : ℕ) → j < k → usable_at s.entries j ≡ true → lighter s j b ≡ false)

abbrev pub replace : KeyPool → ℕ → Option ℕ → Option ℕ
replace s i none = some i
replace s i (some b) = if lighter s i b then some i else some b

pub better-Reads :
    (p : KeyPool) (i : ℕ) (best : Option ℕ) (now : Time)
    → i < length p.entries
    → IsBest (settle p now) i best
    → Reads p now (better p i best now) (replace (settle p now) i best)
unfolding better
better-Reads p i none now hi h = record { settles = refl; value = refl }
better-Reads p i (some b) now hi h =
    let r = score_less-Reads p i b now hi (omega arith) in
    record { settles = r.settles; value = rw r.value refl }

pub lt_suc-cases : (j i : ℕ) → j < suc i → (j ≡ i) ⊎ (j < i)
lt_suc-cases j i h = elim (dec_lt j i) [ yes p ↦ inr p | no p ↦ inl (omega arith) ]

pub unused : (x : Bool) → x ≡ true → x ≡ false → ⊥
unused x p q = cc

-- Key `i` beats the best so far, so it beats every key below it.
newcomer-IsBest :
    (s : KeyPool) (i b : ℕ)
    → IsBest s i (some b)
    → usable_at s.entries i ≡ true
    → lighter s i b ≡ true
    → IsBest s (suc i) (some i)
newcomer-IsBest s i b h u l = (
  omega arith,
  u,
  λ j lt v. elim (lt_suc-cases j i lt) [
    | inl same ↦ rw same (lighter_irrefl s i)
    | inr below ↦ lighter_trans s j i b l (h.2 j below v)
  ],
)

incumbent-IsBest :
    (s : KeyPool) (i b : ℕ)
    → IsBest s i (some b)
    → lighter s i b ≡ false
    → IsBest s (suc i) (some b)
incumbent-IsBest s i b h l = (
  omega arith,
  h.1,
  λ j lt v. elim (lt_suc-cases j i lt) [ inl same ↦ rw same l | inr below ↦ h.2 j below v ],
)

pub replace-IsBest :
    (s : KeyPool) (i : ℕ) (best : Option ℕ)
    → IsBest s i best
    → usable_at s.entries i ≡ true
    → IsBest s (suc i) (replace s i best)
replace-IsBest s i none h u = (
  omega arith,
  u,
  λ j lt v. elim (lt_suc-cases j i lt) [
    | inl same ↦ rw same (lighter_irrefl s i)
    | inr below ↦ absurd (unused (usable_at s.entries j) v (h j below))
  ],
)
replace-IsBest s i (some b) h u = elim (Bool-cases (lighter s i b)) [
  | inl l ↦ rw l (newcomer-IsBest s i b h u l)
  | inr l ↦ rw l (incumbent-IsBest s i b h l)
]

pub skip-IsBest :
    (s : KeyPool) (i : ℕ) (best : Option ℕ)
    → IsBest s i best
    → usable_at s.entries i ≡ false
    → IsBest s (suc i) best
skip-IsBest s i none h u =
    λ j lt. elim (lt_suc-cases j i lt) [ inl same ↦ rw same u | inr below ↦ h j below ]
skip-IsBest s i (some b) h u = (
  omega arith,
  h.1,
  λ j lt v. elim (lt_suc-cases j i lt) [
    | inl same ↦ absurd (unused (usable_at s.entries i) (rw same at v) u)
    | inr below ↦ h.2 j below v
  ],
)

-- What a search for the best key returns: the pool as good as it was, and a best key.
pub record Finds (p : KeyPool) (now : Time) (k : ℕ) (r : KeyPool × Option ℕ) : Type 0 where
  pub settles : settle r.0 now ≡ settle p now
  pub best : IsBest (settle p now) k r.1

consider-Finds :
    (p : KeyPool) (i : ℕ) (best : Option ℕ) (now : Time)
    → i < length p.entries
    → IsBest (settle p now) i best
    → Finds p now (suc i) (consider p i best now)
unfolding consider
consider-Finds p i best now hi h =
    let r = better-Reads p i best now hi h in
    elim (Bool-cases (usable_at p.entries i)) [
      | inl u ↦
          rw (u, consider)
            (record {
              settles = r.settles;
              best =
                  rw r.value
                    (replace-IsBest (settle p now) i best h (usable_at-settle p i now ∙ u));
            })
      | inr u ↦
          rw (u, consider)
            (record {
              settles = refl;
              best = skip-IsBest (settle p now) i best h (usable_at-settle p i now ∙ u);
            })
    ]

best_from-Finds :
    (p : KeyPool) (left i : ℕ) (best : Option ℕ) (now : Time)
    → i + left ≡ length p.entries
    → IsBest (settle p now) i best
    → Finds p now (i + left) (best_from p left i best now)
unfolding best_from
best_from-Finds p zero i best now e h = rw add-zero (record { settles = refl; best = h })
best_from-Finds p (suc left) i best now e h =
    let c = consider-Finds p i best now (omega arith) h in
    let q = (consider p i best now).0 in
    let rest =
      best_from-Finds q left (i + 1) (consider p i best now).1 now
        (omega (arith, settles-length p q now c.settles)) (rw (c.settles, add-one i) c.best) in
    let count : i + 1 + left ≡ i + suc left = omega arith in
    record { settles = rest.settles ∙ c.settles; best = rw (← count, ← c.settles) rest.best }

-- The key that `bestActiveKeyLocked` finds is active, and none is lighter; it finds one unless no
-- key is active. Its reads of the token windows prune them and change nothing else.
pub best_active_key-Finds :
    (p : KeyPool) (now : Time) → Finds p now (length p.entries) (best_active_key p now)
unfolding best_active_key
best_active_key-Finds p now =
    rw zero-add at
      (best_from-Finds p (length p.entries) 0 none now (omega arith) (λ j lt. absurd (omega arith)))
