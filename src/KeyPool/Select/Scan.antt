-- ===== src/KeyPool/Select/Scan.antt =====
-- The loops of the selections in internal/proxy/keypool.go, and what they look for.
use native.Mathlib.Nat.{add-zero, add_assoc, mod-add-mod, mod-lt, mod-eq_of_lt, mod-eq-sub-mod}
use native.Mathlib.Decide.{dec_le}
use llms_proxy.Base.{
  ℕ, zero, suc, ◌+◌, ◌-◌, ◌%◌, ◌≤◌, ◌<◌, ◌≡◌, refl, sym, ap, ◌∙◌, ◌⊎◌, inl, inr, true, false, ◌||◌,
  Option, none, some, List, [], ◌∷◌, get_elem?, get_elem?-cons, ◌==◌, arith, Bool-cases,
}
use llms_proxy.Base.Time.{Time, after}
use llms_proxy.KeyPool.State.{KeyEntry, is_active, usable_at}
use llms_proxy.KeyPool.Select.{first_active, first_recoverable}

pub usable_at-eq_true :
    (es : List KeyEntry) (i : ℕ)
    → usable_at es i ≡ true
    → (e : KeyEntry) × (get_elem? es i ≡ some e) × (is_active e ≡ true)
usable_at-eq_true [] i h = cc
usable_at-eq_true (e ∷ es) zero h = (e, refl, h)
usable_at-eq_true (e ∷ es) (suc i) h = usable_at-eq_true es i h

pub usable_at-is_active :
    (es : List KeyEntry) (i : ℕ) {e : KeyEntry}
    → get_elem? es i ≡ some e
    → usable_at es i ≡ is_active e
usable_at-is_active [] i h = cc
usable_at-is_active (e ∷ es) zero h = ground arith
usable_at-is_active (e ∷ es) (suc i) h = usable_at-is_active es i h

-- The outcome of a scan that starts at `start + i`: the first usable key, or no usable key.
abbrev pub Scans : List KeyEntry → ℕ → ℕ → ℕ → ℕ → Option ℕ → Type 0
Scans es n start left i none = (r : ℕ) → r < left → usable_at es ((start + (i + r)) % n) ≡ false
Scans es n start left i (some k) =
    (r : ℕ) × (r < left)
    × (k ≡ (start + (i + r)) % n)
    × (usable_at es k ≡ true)
    × ((r' : ℕ) → r' < r → usable_at es ((start + (i + r')) % n) ≡ false)

pub first_active-Scans :
    (es : List KeyEntry) (n start left i : ℕ)
    → Scans es n start left i (first_active es n start left i)
unfolding first_active
first_active-Scans es n start zero i = λ r lt. absurd (omega arith)
first_active-Scans es n start (suc left) i = elim (Bool-cases (usable_at es ((start + i) % n))) [
  | inl u ↦ rw u (0, omega arith, rw add-zero, u, λ r lt. absurd (omega arith))
  | inr u ↦
      rw u (
        later u (first_active es n start left (i + 1)) (first_active-Scans es n start left (i + 1)))
]
  where
    shift : (r : ℕ) → start + (i + 1 + r) ≡ start + (i + suc r)
    shift r = omega arith

    skipped :
        (u : usable_at es ((start + i) % n) ≡ false) (bound : ℕ)
        → ((r : ℕ) → r < bound → usable_at es ((start + (i + 1 + r)) % n) ≡ false)
        → (r : ℕ) → r < suc bound
        → usable_at es ((start + (i + r)) % n) ≡ false
    skipped u bound h zero lt = rw add-zero u
    skipped u bound h (suc r) lt = rw (← shift r) (h r (omega arith))

    later :
        (u : usable_at es ((start + i) % n) ≡ false) (found : Option ℕ)
        → Scans es n start left (i + 1) found
        → Scans es n start (suc left) i found
    later u none h = skipped u left h
    later u (some k) (r, lt, e, v, before) =
        (suc r, omega arith, e ∙ ap (λ m. m % n) (shift r), v, skipped u r before)

-- Some turn of the scan reaches each key.
from_rest : (n a r j : ℕ) → (a % n + r) % n ≡ j → (a + r) % n ≡ j
from_rest n a r j h = sym (mod-add-mod a n r) ∙ h

reaches : (n start i j : ℕ) → j < n → (r : ℕ) × (r < n) × ((start + (i + r)) % n ≡ j)
reaches n start i j lt =
    let s = (start + i) % n in
    let below : s < n = mod-lt (start + i) (omega arith) in
    let regroup = λ (r : ℕ). add_assoc start i r in
    elim (dec_le s j) [
      | yes p ↦
          let same : s + (j - s) ≡ j = omega arith in
          (
            j - s,
            omega arith,
            rw (← regroup (j - s)) (from_rest n (start + i) (j - s) j (rw same (mod-eq_of_lt lt))),
          )
      | no p ↦
          let same : s + (j + n - s) ≡ j + n = omega arith in
          let wrap : (j + n) % n ≡ j =
            mod-eq-sub-mod (omega arith) ∙ ap (λ m. m % n) (omega arith) ∙ mod-eq_of_lt lt in
          (
            j + n - s,
            omega arith,
            rw (← regroup (j + n - s)) (from_rest n (start + i) (j + n - s) j (rw same wrap)),
          )
    ]

-- A scan of as many turns as there are keys finds a usable key if there is one.
pub first_active-none :
    (es : List KeyEntry) (n start i : ℕ)
    → first_active es n start n i ≡ none
    → (j : ℕ) → j < n
    → usable_at es j ≡ false
first_active-none es n start i h j lt =
    let (r, below, e) = reaches n start i j lt in
    let outcome : Scans es n start n i none = rw h at (first_active-Scans es n start n i) in
    rw e at (outcome r below)

pub first_active-some :
    (es : List KeyEntry) (n start left i k : ℕ)
    → first_active es n start left i ≡ some k
    → 0 < n
    → (k < n) × (usable_at es k ≡ true)
first_active-some es n start left i k h lt =
    let outcome : Scans es n start left i (some k) =
      rw h at (first_active-Scans es n start left i) in
    (rw outcome.2 (mod-lt (start + (i + outcome.0)) lt), outcome.3)

-- The outcome of the search for a key whose cooldown is over, from index `i` on.
abbrev pub Recovers : Time → List KeyEntry → ℕ → Option ℕ → Type 0
Recovers now es i none =
    (j : ℕ) (e : KeyEntry) → get_elem? es j ≡ some e → (e.blocked ≡ true) ⊎ (now < e.cooldown_end)
Recovers now es i (some k) =
    (j : ℕ) × (e : KeyEntry) × (k ≡ i + j)
    × (get_elem? es j ≡ some e)
    × (e.blocked ≡ false)
    × (e.cooldown_end ≤ now)

Recovers-cons :
    (now : Time) (e : KeyEntry) (es : List KeyEntry) (i : ℕ) (found : Option ℕ)
    → (e.blocked ≡ true) ⊎ (now < e.cooldown_end)
    → Recovers now es (i + 1) found
    → Recovers now (e ∷ es) i found
Recovers-cons now e es i none rests h =
    get_elem?-cons (λ x. (x.blocked ≡ true) ⊎ (now < x.cooldown_end)) e es rests h
Recovers-cons now e es i (some k) rests (j, e', same, at, free, past) =
    (suc j, e', omega arith, at, free, past)

pub first_recoverable-Recovers :
    (now : Time) (es : List KeyEntry) (i : ℕ) → Recovers now es i (first_recoverable now es i)
unfolding first_recoverable
first_recoverable-Recovers now [] i = λ j e h. cc
first_recoverable-Recovers now (e ∷ es) i =
    let later = λ (r : (e.blocked ≡ true) ⊎ (now < e.cooldown_end)).
      Recovers-cons now e es i (first_recoverable now es (i + 1)) r
        (first_recoverable-Recovers now es (i + 1)) in
    elim (Bool-cases e.blocked) [
      | inl b ↦ simp b (later (inl b))
      | inr b ↦ elim (dec_le e.cooldown_end now) [
        | yes past ↦
            let test : (after now e.cooldown_end || now == e.cooldown_end) ≡ true = ground arith in
            simp (b, test) (0, e, omega arith, refl, b, past)
        | no cool ↦
            let test : (after now e.cooldown_end || now == e.cooldown_end) ≡ false = ground arith in
            simp (b, test) (later (inr (omega arith)))
      ]
    ]
