-- ===== src/Target/Find/Turn.antt =====
-- internal/proxy/target.go: what the two loops over the candidates find.
use mathlib.Core.Option.{some-injective}
use llms_proxy.Base.{
  ℕ, ◌+◌, ◌≤◌, ◌≡◌, refl, ap, subst, ◌⊎◌, inl, inr, Bool, true, false, Option, none, some, List, [],
  ◌∷◌, arith, if◌then◌else◌,
}
use llms_proxy.Base.Int.{ℤ, pos, of_bits, ltb_ℤ}
use llms_proxy.Base.Time.{Time, before}
use llms_proxy.Target.{TargetState, is_muted, next_retry}
use llms_proxy.Target.Find.{
  TargetWithKeys, total, weight, rem, weighted_at, Found, earlier, first_available, take_or_search,
  turn,
}

-- The states of the candidates.
abbrev pub Among : TargetState → List TargetWithKeys → Type 0
Among s [] = ⊥
Among s (c ∷ cs) = (c.state ≡ s) ⊎ Among s cs

-- The second loop finds a candidate that is not muted.
first_available-some :
    (now : Time) (start : Option TargetState) (cs : List TargetWithKeys) {s : TargetState}
    → (first_available now start cs).available ≡ some s
    → Among s cs × (is_muted s now ≡ false)
unfolding first_available
first_available-some now start [] h = cc
first_available-some now start (c ∷ cs) {s} h =
    step (is_muted c.state now) refl (first_available-some now (some (earlier c.state start)) cs) h
  where
    later : Found
    later = first_available now (some (earlier c.state start)) cs

    step :
        (b : Bool)
        → is_muted c.state now ≡ b
        → (later.available ≡ some s → Among s cs × (is_muted s now ≡ false))
        → (if b then later else record { available = some c.state; muted = start }).available
          ≡ some s
        → Among s (c ∷ cs) × (is_muted s now ≡ false)
    step true m ih h = let (a, u) = ih h in (inr a, u)
    step false m ih h = (inl cc, cc)

-- `m` is muted no longer than `s`.
abbrev pub Beats : Option TargetState → TargetState → Type 0
Beats none s = ⊥
Beats (some m) s = next_retry m ≤ next_retry s

Beats-le :
    (o : Option TargetState) (s t : TargetState)
    → Beats o s
    → next_retry s ≤ next_retry t
    → Beats o t
Beats-le none s t h k = elim h [ ]
Beats-le (some m) s t h k = omega (arith, h, k)

abbrev BeatsStart : Option TargetState → Option TargetState → Type 0
BeatsStart result none = Unit
BeatsStart result (some m) = Beats result m

earlier-le_new :
    (s : TargetState) (o : Option TargetState) → next_retry (earlier s o) ≤ next_retry s
earlier-le_new s none = omega arith
earlier-le_new s (some m) = ground arith

BeatsStart-earlier :
    (result : Option TargetState) (s : TargetState) (o : Option TargetState)
    → Beats result (earlier s o)
    → BeatsStart result o
BeatsStart-earlier result s none h = tt
BeatsStart-earlier none s (some m) h = elim h [ ]
BeatsStart-earlier (some r) s (some m) h = ground arith

-- Without one, every candidate is muted, and the muted one that is returned is the first to return.
first_available-none :
    (now : Time) (start : Option TargetState) (cs : List TargetWithKeys)
    → (first_available now start cs).available ≡ none
    → let r = (first_available now start cs).muted in
      BeatsStart r start × ((s : TargetState) → Among s cs → (is_muted s now ≡ true) × Beats r s)
unfolding first_available
first_available-none now none [] h = (tt, λ s a. absurd a)
first_available-none now (some m) [] h = (omega arith, λ s a. absurd a)
first_available-none now start (c ∷ cs) h =
    step (is_muted c.state now) refl (first_available-none now (some (earlier c.state start)) cs) h
  where
    later : Found
    later = first_available now (some (earlier c.state start)) cs

    others :
        is_muted c.state now ≡ true
        → Beats later.muted (earlier c.state start)
          × ((s : TargetState) → Among s cs → (is_muted s now ≡ true) × Beats later.muted s)
        → (s : TargetState) → Among s (c ∷ cs)
        → (is_muted s now ≡ true) × Beats later.muted s
    others m (first, rest) s (inl e) =
        subst (λ t. (is_muted t now ≡ true) × Beats later.muted t) e
          (
            m,
            Beats-le later.muted (earlier c.state start) c.state first
                (earlier-le_new c.state start),
          )
    others m (first, rest) s (inr a) = rest s a

    step :
        (b : Bool)
        → is_muted c.state now ≡ b
        → (later.available ≡ none
            → Beats later.muted (earlier c.state start)
              × ((s : TargetState) → Among s cs → (is_muted s now ≡ true) × Beats later.muted s))
        → let r = if b then later else record { available = some c.state; muted = start } in
          r.available ≡ none
          → BeatsStart r.muted start
            × ((s : TargetState) → Among s (c ∷ cs) → (is_muted s now ≡ true) × Beats r.muted s)
    step true m ih h = (BeatsStart-earlier later.muted c.state start (ih h).0, others m (ih h))
    step false m ih h = cc

-- The muted candidate is one of the candidates.
abbrev pub MaybeAmong : Option TargetState → List TargetWithKeys → Type 0
MaybeAmong none cs = Unit
MaybeAmong (some m) cs = Among m cs

earlier-Among :
    (s : TargetState) (o : Option TargetState) (cs : List TargetWithKeys)
    → Among s cs
    → MaybeAmong o cs
    → Among (earlier s o) cs
earlier-Among s none cs a b = a
earlier-Among s (some m) cs a b = either (before (next_retry s) (next_retry m))
  where
    either : (t : Bool) → Among (if t then s else m) cs
    either true = a
    either false = b

first_available-muted :
    (now : Time) (all : List TargetWithKeys) (start : Option TargetState) (cs : List TargetWithKeys)
    → ((s : TargetState) → Among s cs → Among s all)
    → MaybeAmong start all
    → MaybeAmong (first_available now start cs).muted all
unfolding first_available
first_available-muted now all start [] sub from = from
first_available-muted now all start (c ∷ cs) sub from = step (is_muted c.state now) (
    first_available-muted now all (some (earlier c.state start)) cs (λ s a. sub s (inr a))
      (earlier-Among c.state start all (sub c.state (inl refl)) from))
  where
    later : Found
    later = first_available now (some (earlier c.state start)) cs

    step :
        (b : Bool)
        → MaybeAmong later.muted all
        → MaybeAmong
            (if b then later else record { available = some c.state; muted = start }).muted
            all
    step true ih = ih
    step false ih = from

weighted_at-Among :
    (weight_of : TargetWithKeys → ℕ) (key_index : ℤ) (n : ℕ) (cs : List TargetWithKeys)
    {c : TargetWithKeys}
    → weighted_at weight_of key_index n cs ≡ some c
    → Among c.state cs
unfolding weighted_at
weighted_at-Among weight_of key_index n [] h = cc
weighted_at-Among weight_of key_index n (d ∷ cs) {c} h =
    step (ltb_ℤ key_index (pos (n + weight_of d)))
      (weighted_at-Among weight_of key_index (n + weight_of d) cs) h
  where
    later : Option TargetWithKeys
    later = weighted_at weight_of key_index (n + weight_of d) cs

    step :
        (b : Bool)
        → (later ≡ some c → Among c.state cs)
        → (if b then some d else later) ≡ some c
        → Among c.state (d ∷ cs)
    step true ih h = inl (ap state_of (some-injective _ _ h))
      where
        state_of : TargetWithKeys → TargetState
        state_of t = t.state
    step false ih h = inr (ih h)

-- What the turn finds among the candidates.
abbrev pub FindsAs : Time → List TargetWithKeys → Option TargetState → Option TargetState → Type 0
FindsAs now cs (some s) muted = Among s cs × (is_muted s now ≡ false)
FindsAs now cs none muted =
    MaybeAmong muted cs × ((s : TargetState) → Among s cs → (is_muted s now ≡ true) × Beats muted s)

abbrev pub Finds : Time → List TargetWithKeys → Found → Type 0
Finds now cs r = FindsAs now cs r.available r.muted

first_available-Finds :
    (now : Time) (start : Option TargetState) (cs : List TargetWithKeys)
    → MaybeAmong start cs
    → Finds now cs (first_available now start cs)
first_available-Finds now start cs from = by_result (first_available now start cs).available refl
  where
    r : Found
    r = first_available now start cs

    by_result :
        (o : Option TargetState)
        → r.available ≡ o
        → Finds now cs (record { available = o; muted = r.muted })
    by_result none e = (
      first_available-muted now cs start cs (λ s a. a) from,
      (first_available-none now start cs e).1,
    )
    by_result (some s) e = first_available-some now start cs e

pub turn-Finds :
    (now : Time) (rr_counter : ℕ) (cs : List TargetWithKeys) → Finds now cs (turn now rr_counter cs)
unfolding turn
turn-Finds now rr_counter cs =
    by_choice (weighted_at (weight cs) (rem (of_bits rr_counter) (total (weight cs) cs)) 0 cs)
      (λ c e. weighted_at-Among (weight cs) _ 0 cs e)
  where
    by_choice :
        (o : Option TargetWithKeys)
        → ((c : TargetWithKeys) → o ≡ some c → Among c.state cs)
        → Finds now cs (take_or_search now cs o)
    by_choice none a = first_available-Finds now none cs tt
    by_choice (some c) a = step (is_muted c.state now) refl
      where
        step :
            (b : Bool)
            → is_muted c.state now ≡ b
            → Finds now cs (
                if b
                then first_available now (some c.state) cs
                else record { available = some c.state; muted = none })
        step true m = first_available-Finds now (some c.state) cs (a c refl)
        step false m = (a c refl, m)
