-- ===== src/KeyPool/Select/Survey.antt =====
-- The survey of step 2 of `selectKeyForClient` in internal/proxy/keypool.go.
use native.Mathlib.Nat.{add-zero, zero-add}
use native.Mathlib.Numerals.{add-one}
use llms_proxy.Base.{
  ℕ, zero, suc, ◌+◌, ◌<◌, ◌≡◌, refl, ◌∙◌, inl, inr, Bool, true, false, ◌||◌, Option, none, length,
  arith, Bool-cases, if◌then◌else◌,
}
use llms_proxy.Base.Int.{pos, ltb_ℤ}
use llms_proxy.Base.Time.{Time}
use llms_proxy.KeyPool.State.{KeyPool, usable_at}
use llms_proxy.KeyPool.Load.{tokens_at, flight}
use llms_proxy.KeyPool.Balance.{settle, settles-length, usable_at-settle, Reads, token_sum-Reads}
use llms_proxy.KeyPool.Balance.Best.{
  IsBest, better-Reads, replace-IsBest, skip-IsBest, unused, lt_suc-cases,
}
use llms_proxy.KeyPool.Select.{is_loaded, inspect, survey}

-- A key with a request in flight, or with tokens in its window.
unfoldable pub has_load : KeyPool → ℕ → Bool
has_load s i = if ltb_ℤ (pos 0) (flight s i) then true else ltb_ℤ (pos 0) (tokens_at s.entries i)

is_loaded-Reads :
    (p : KeyPool) (i : ℕ) (now : Time) → Reads p now (is_loaded p i now) (has_load (settle p now) i)
unfolding is_loaded has_load settle
is_loaded-Reads p i now = ground (arith, token_sum-Reads p i now)

-- The signal over the keys below `k`.
abbrev pub IsSignal : KeyPool → ℕ → Bool → Type 0
IsSignal s k true = (j : ℕ) × (j < k) × (usable_at s.entries j ≡ true) × (has_load s j ≡ true)
IsSignal s k false = (j : ℕ) → j < k → usable_at s.entries j ≡ true → has_load s j ≡ false

pub record Surveys (p : KeyPool) (now : Time) (k : ℕ) (r : KeyPool × Option ℕ × Bool) : Type 0 where
  pub settles : settle r.0 now ≡ settle p now
  pub best : IsBest (settle p now) k r.1
  pub signal : IsSignal (settle p now) k r.2

grow-IsSignal :
    (s : KeyPool) (i : ℕ) (signal loaded : Bool)
    → IsSignal s i signal
    → usable_at s.entries i ≡ true
    → has_load s i ≡ loaded
    → IsSignal s (suc i) (signal || loaded)
grow-IsSignal s i true loaded (j, lt, u, l) v e = (j, omega arith, u, l)
grow-IsSignal s i false true h v e = (i, omega arith, v, e)
grow-IsSignal s i false false h v e =
    λ j lt u. elim (lt_suc-cases j i lt) [ inl same ↦ rw same e | inr below ↦ h j below u ]

skip-IsSignal :
    (s : KeyPool) (i : ℕ) (signal : Bool)
    → IsSignal s i signal
    → usable_at s.entries i ≡ false
    → IsSignal s (suc i) signal
skip-IsSignal s i true (j, lt, u, l) v = (j, omega arith, u, l)
skip-IsSignal s i false h v = λ j lt u. elim (lt_suc-cases j i lt) [
  | inl same ↦ absurd (unused (usable_at s.entries i) (rw same at u) v)
  | inr below ↦ h j below u
]

inspect-Surveys :
    (p : KeyPool) (i : ℕ) (best : Option ℕ) (signal : Bool) (now : Time)
    → i < length p.entries
    → IsBest (settle p now) i best
    → IsSignal (settle p now) i signal
    → Surveys p now (suc i) (inspect p i best signal now)
unfolding inspect
inspect-Surveys p i best signal now hi h g =
    let l = is_loaded-Reads p i now in
    let q = (is_loaded p i now).0 in
    let b = better-Reads q i best now (rw (settles-length p q now l.settles) hi) (rw l.settles h) in
    elim (Bool-cases (usable_at p.entries i)) [
      | inl u ↦
          rw (u, inspect)
            (record {
              settles = b.settles ∙ l.settles;
              best =
                  rw (b.value, l.settles)
                    (replace-IsBest (settle p now) i best h (usable_at-settle p i now ∙ u));
              signal = rw l.value (
                  grow-IsSignal (settle p now) i signal (has_load (settle p now) i) g
                    (usable_at-settle p i now ∙ u) refl);
            })
      | inr u ↦
          rw (u, inspect)
            (record {
              settles = refl;
              best = skip-IsBest (settle p now) i best h (usable_at-settle p i now ∙ u);
              signal = skip-IsSignal (settle p now) i signal g (usable_at-settle p i now ∙ u);
            })
    ]

survey_from-Surveys :
    (p : KeyPool) (left i : ℕ) (best : Option ℕ) (signal : Bool) (now : Time)
    → i + left ≡ length p.entries
    → IsBest (settle p now) i best
    → IsSignal (settle p now) i signal
    → Surveys p now (i + left) (survey p left i best signal now)
unfolding survey
survey_from-Surveys p zero i best signal now e h g =
    rw add-zero (record { settles = refl; best = h; signal = g })
survey_from-Surveys p (suc left) i best signal now e h g =
    let c = inspect-Surveys p i best signal now (omega arith) h g in
    let (q, next, loaded) = inspect p i best signal now in
    let rest =
      survey_from-Surveys q left (i + 1) next loaded now
        (omega (arith, settles-length p q now c.settles)) (rw (c.settles, add-one i) c.best)
        (rw (c.settles, add-one i) c.signal) in
    let count : i + 1 + left ≡ i + suc left = omega arith in
    record {
      settles = rest.settles ∙ c.settles;
      best = rw (← count, ← c.settles) rest.best;
      signal = rw (← count, ← c.settles) rest.signal;
    }

-- The survey finds the best active key, and signals exactly if an active key has load.
pub survey-Surveys :
    (p : KeyPool) (now : Time)
    → Surveys p now (length p.entries) (survey p (length p.entries) 0 none false now)
survey-Surveys p now = rw zero-add at (
    survey_from-Surveys p (length p.entries) 0 none false now (omega arith)
      (λ j lt. absurd (omega arith)) (λ j lt. absurd (omega arith)))
