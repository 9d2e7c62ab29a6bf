-- ===== src/KeyPool/Select/Probe.antt =====
-- The desperation probe of `selectKey` in internal/proxy/keypool.go.
use mathlib.Core.Option.{some-injective}
use llms_proxy.Base.{
  ℕ, suc, ◌+◌, ◌≡◌, refl, sym, ap, ◌⊎◌, inl, inr, Bool, true, false, ◌||◌, str_eq, Option, none,
  some, List, [], ◌∷◌, get_elem?, get_elem?-cons, arith, Bool-cases,
}
use llms_proxy.Base.Int.{ℤ, ltb_ℤ}
use llms_proxy.Base.Time.{Time, sub}
use llms_proxy.KeyPool.State.{KeyEntry}
use llms_proxy.KeyPool.Select.{best_probe}

-- A key that the probe passes over.
abbrev pub is_skipped : KeyEntry → Bool
is_skipped e = e.blocked || str_eq e.exhaust_reason "rate_limited"

abbrev pub remaining : Time → KeyEntry → ℤ
remaining now e = sub e.cooldown_end now

-- The best key of the list or the best so far, and no key that counts has less cooldown left.
abbrev pub Shortest : Time → List KeyEntry → ℕ → Option (ℕ × ℤ) → Option (ℕ × ℤ) → Type 0
Shortest now es i best none =
    (best ≡ none) × ((j : ℕ) (e : KeyEntry) → get_elem? es j ≡ some e → is_skipped e ≡ true)
Shortest now es i best (some (k, m)) =
    ((best ≡ some (k, m))
      ⊎ ((j : ℕ) × (e : KeyEntry) × (k ≡ i + j)
          × (get_elem? es j ≡ some e)
          × (is_skipped e ≡ false)
          × (m ≡ remaining now e)))
    × ((j : ℕ) (e : KeyEntry)
        → get_elem? es j ≡ some e
        → is_skipped e ≡ false
        → ltb_ℤ (remaining now e) m ≡ false)
    × ((b : ℕ × ℤ) → best ≡ some b → ltb_ℤ b.1 m ≡ false)

abbrev Deeper : Time → KeyEntry → List KeyEntry → ℕ → ℕ → ℤ → Type 0
Deeper now e es i k m =
    (j : ℕ) × (x : KeyEntry) × (k ≡ i + j)
    × (get_elem? (e ∷ es) j ≡ some x)
    × (is_skipped x ≡ false)
    × (m ≡ remaining now x)

shift :
    (now : Time) (e : KeyEntry) (es : List KeyEntry) (i k : ℕ) (m : ℤ)
    → ((j : ℕ) × (x : KeyEntry) × (k ≡ i + 1 + j)
        × (get_elem? es j ≡ some x)
        × (is_skipped x ≡ false)
        × (m ≡ remaining now x))
    → Deeper now e es i k m
shift now e es i k m (j, x, same, at, free, is) = (suc j, x, omega arith, at, free, is)

ltb_chain : (a b c : ℤ) → ltb_ℤ a b ≡ true → ltb_ℤ a c ≡ false → ltb_ℤ b c ≡ false
ltb_chain a b c h k = ground arith

geb_chain : (a b c : ℤ) → ltb_ℤ a b ≡ false → ltb_ℤ b c ≡ false → ltb_ℤ a c ≡ false
geb_chain a b c h k = ground arith

ltb_irrefl : (a : ℤ) → ltb_ℤ a a ≡ false
ltb_irrefl a = ground arith

not-skipped : (b : Bool) → b ≡ true → b ≡ false → ⊥
not-skipped b p q = cc

pass_over :
    (now : Time) (e : KeyEntry) (es : List KeyEntry) (i : ℕ) (best r : Option (ℕ × ℤ))
    → is_skipped e ≡ true
    → Shortest now es (i + 1) best r
    → Shortest now (e ∷ es) i best r
pass_over now e es i best none skip (b, h) =
    (b, get_elem?-cons (λ x. is_skipped x ≡ true) e es skip h)
pass_over now e es i best (some (k, m)) skip (from, least, before) = (
  elim from [ inl p ↦ inl p | inr d ↦ inr (shift now e es i k m d) ],
  get_elem?-cons (λ x. is_skipped x ≡ false → ltb_ℤ (remaining now x) m ≡ false) e es
      (λ free. absurd (not-skipped (is_skipped e) skip free)) least,
  before,
)

-- The entry becomes the best so far.
take_over :
    (now : Time) (e : KeyEntry) (es : List KeyEntry) (i : ℕ) (best r : Option (ℕ × ℤ))
    → is_skipped e ≡ false
    → ((b : ℕ × ℤ) → best ≡ some b → ltb_ℤ (remaining now e) b.1 ≡ true)
    → Shortest now es (i + 1) (some (i, remaining now e)) r
    → Shortest now (e ∷ es) i best r
take_over now e es i best none free less (b, h) = absurd (cc b)
take_over now e es i best (some (k, m)) free less (from, least, before) = (
  elim from [
    | inl p ↦
        let q = some-injective (i, remaining now e) (k, m) p in
        let index = ap (λ (x : ℕ × ℤ). x.0) q in
        inr (0, e, omega arith, refl, free, sym (ap (λ (x : ℕ × ℤ). x.1) q))
    | inr d ↦ inr (shift now e es i k m d)
  ],
  get_elem?-cons (λ x. is_skipped x ≡ false → ltb_ℤ (remaining now x) m ≡ false) e es
      (λ _. before (i, remaining now e) refl) least,
  λ b eq. ltb_chain (remaining now e) b.1 m (less b eq) (before (i, remaining now e) refl),
)

-- The entry is passed by, since the best so far has no more cooldown left.
stay_behind :
    (now : Time) (e : KeyEntry) (es : List KeyEntry) (i : ℕ) (b : ℕ × ℤ) (r : Option (ℕ × ℤ))
    → ltb_ℤ (remaining now e) b.1 ≡ false
    → Shortest now es (i + 1) (some b) r
    → Shortest now (e ∷ es) i (some b) r
stay_behind now e es i b none more (p, h) = absurd (cc p)
stay_behind now e es i b (some (k, m)) more (from, least, before) = (
  elim from [ inl p ↦ inl p | inr d ↦ inr (shift now e es i k m d) ],
  get_elem?-cons (λ x. is_skipped x ≡ false → ltb_ℤ (remaining now x) m ≡ false) e es
      (λ _. geb_chain (remaining now e) b.1 m more (before b refl)) least,
  before,
)

best_probe_nil : (now : Time) (i : ℕ) (best : Option (ℕ × ℤ)) → Shortest now [] i best best
best_probe_nil now i none = (refl, λ j e h. cc)
best_probe_nil now i (some (k, m)) = (
  inl refl,
  λ j e h. cc,
  λ b eq.
      let same = ap (λ (x : ℕ × ℤ). x.1) (some-injective (k, m) b eq) in rw (← same) (ltb_irrefl m),
)

pub best_probe-Shortest :
    (now : Time) (es : List KeyEntry) (i : ℕ) (best : Option (ℕ × ℤ))
    → Shortest now es i best (best_probe now es i best)
unfolding best_probe
best_probe-Shortest now [] i best = best_probe_nil now i best
best_probe-Shortest now (e ∷ es) i none = elim (Bool-cases (is_skipped e)) [
  | inl skip ↦ simp skip (
      pass_over now e es i none (best_probe now es (i + 1) none) skip
        (best_probe-Shortest now es (i + 1) none))
  | inr free ↦ simp free (
      take_over now e es i none (best_probe now es (i + 1) (some (i, remaining now e))) free
        (λ b eq. absurd (cc eq)) (best_probe-Shortest now es (i + 1) (some (i, remaining now e))))
]
best_probe-Shortest now (e ∷ es) i (some (k, m)) = elim (Bool-cases (is_skipped e)) [
  | inl skip ↦ simp skip (
      pass_over now e es i (some (k, m)) (best_probe now es (i + 1) (some (k, m))) skip
        (best_probe-Shortest now es (i + 1) (some (k, m))))
  | inr free ↦ elim (Bool-cases (ltb_ℤ (remaining now e) m)) [
    | inl less ↦
        simp (free, less)
          (take_over now e es i (some (k, m))
            (best_probe now es (i + 1) (some (i, remaining now e))) free
            (λ b eq.
              let same = ap (λ (x : ℕ × ℤ). x.1) (some-injective (k, m) b eq) in rw (← same) less)
            (best_probe-Shortest now es (i + 1) (some (i, remaining now e))))
    | inr more ↦
        simp (free, more)
          (stay_behind now e es i (k, m) (best_probe now es (i + 1) (some (k, m))) more
            (best_probe-Shortest now es (i + 1) (some (k, m))))
  ]
]
