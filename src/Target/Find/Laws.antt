-- ===== src/Target/Find/Laws.antt =====
-- internal/proxy/target.go: which target findAvailableTargetWithModel finds.
use llms_proxy.Base.{
  ℕ, suc, ◌+◌, ◌%◌, ◌^◌, ◌≤◌, ◌<◌, ◌≡◌, refl, ap, subst, ◌∙◌, ◌↔◌, ◌⊎◌, inl, inr, Bool, true, false,
  String, Option, none, some, List, [], ◌∷◌, ◌++◌, arith, IsOneOf, if◌then◌else◌,
}
use llms_proxy.Base.Int.{pos, of_bits}
use llms_proxy.Base.Text.{Bytes}
use llms_proxy.Base.Time.{Time}
use llms_proxy.Target.{TargetState, is_muted, next_retry}
use llms_proxy.Target.Find.{
  is_candidate, TargetWithKeys, with_keys, candidates_of, total, weight, rem, weighted_at, Found,
  take_or_search, turn, robin, find_available_target_with_model,
}
use llms_proxy.Target.Find.Turn.{Among, FindsAs, turn-Finds}

-- The candidate whose range of the weights holds `k` is the one at `k`.
weighted_at-append :
    (weight_of : TargetWithKeys → ℕ) (k n : ℕ) (earlier_ones : List TargetWithKeys)
    (c : TargetWithKeys) (later_ones : List TargetWithKeys)
    → n + total weight_of earlier_ones ≤ k
    → k < n + total weight_of earlier_ones + weight_of c
    → weighted_at weight_of (pos k) n (earlier_ones ++ (c ∷ later_ones)) ≡ some c
unfolding weighted_at total
weighted_at-append weight_of k n [] c later_ones lo hi = ground (arith, lo, hi)
weighted_at-append weight_of k n (d ∷ ds) c later_ones lo hi = ground (
  arith,
  weighted_at-append weight_of k (n + weight_of d) ds c later_ones (omega (arith, lo))
      (omega (arith, hi)),
  lo,
)

rem-of_bits : (k n : ℕ) → k < 2 ^ 63 → rem (of_bits k) n ≡ pos (k % n)
rem-of_bits k n h = ap (λ z. rem z n) small
  where
    small : of_bits k ≡ pos k
    small = ground (arith, h)

-- The weights are the numbers of active keys, or of keys where no target has an active one.
abbrev pub IsWeight : List TargetWithKeys → (TargetWithKeys → ℕ) → Type 0
IsWeight cs w =
    ((0 < total (λ d. d.active_count) cs) × ((d : TargetWithKeys) → w d ≡ d.active_count))
    ⊎ ((total (λ d. d.active_count) cs ≡ 0) × ((d : TargetWithKeys) → w d ≡ d.key_count))

weight-IsWeight :
    (cs : List TargetWithKeys) (w : TargetWithKeys → ℕ)
    → IsWeight cs w
    → (d : TargetWithKeys) → weight cs d ≡ w d
unfolding weight
weight-IsWeight cs w (inl (some_active, is)) d = ground (arith, is d)
weight-IsWeight cs w (inr (none_active, is)) d = ground (arith, is d)

total_same :
    (v w : TargetWithKeys → ℕ)
    → ((d : TargetWithKeys) → v d ≡ w d)
    → (cs : List TargetWithKeys) → total v cs ≡ total w cs
unfolding total
total_same v w same [] = refl
total_same v w same (c ∷ cs) = rw (same c, total_same v w same cs) refl

robin-turn :
    (now : Time) (k : ℕ) (cs ds : List TargetWithKeys) (c : TargetWithKeys)
    (es : List TargetWithKeys)
    → cs ≡ ds ++ (c ∷ es)
    → robin now k cs ≡ (suc k % 2 ^ 64, turn now k cs)
robin-turn now k [] [] c es h = cc
robin-turn now k [] (d ∷ ds) c es h = cc
robin-turn now k (x ∷ xs) ds c es h = refl

robin-weighs :
    (now : Time) (k : ℕ) (cs ds : List TargetWithKeys) (c : TargetWithKeys)
    (es : List TargetWithKeys)
    → cs ≡ ds ++ (c ∷ es)
    → k < 2 ^ 63
    → total (weight cs) ds ≤ k % total (weight cs) cs
    → k % total (weight cs) cs < total (weight cs) ds + weight cs c
    → is_muted c.state now ≡ false
    → robin now k cs ≡ (k + 1, record { available = some c.state; muted = none })
unfolding turn
robin-weighs now k cs ds c es split small lo hi unmuted =
    cc (robin-turn now k cs ds c es split, counted, ap (take_or_search now cs) chosen ∙ taken)
  where
    w : TargetWithKeys → ℕ
    w = weight cs

    chosen : weighted_at w (rem (of_bits k) (total w cs)) 0 cs ≡ some c
    chosen =
        ap (λ i. weighted_at w i 0 cs) (rem-of_bits k (total w cs) small)
        ∙ ap (weighted_at w (pos (k % total w cs)) 0) split
        ∙ weighted_at-append w (k % total w cs) 0 ds c es (omega (arith, lo)) (omega (arith, hi))

    taken : take_or_search now cs (some c) ≡ record { available = some c.state; muted = none }
    taken = rw unmuted refl

    counted : suc k % 2 ^ 64 ≡ k + 1
    counted = omega (arith, small)

module _ (allowed : Option (List String)) (attempted : List String) (model : String)
    (path : Bytes) where
  -- a target that may take the request, muted or not
  abbrev pub Eligible : List TargetState → TargetState → Type 0
  Eligible snapshot s =
      IsOneOf s snapshot × (is_candidate allowed attempted model path s.target ≡ true)

  abbrev Ok : TargetState → Bool
  Ok s = is_candidate allowed attempted model path s.target

  Among-cons :
      (t s : TargetState) (ts : List TargetState) (rest : List TargetWithKeys) (b : Bool)
      → Ok t ≡ b
      → (Among s rest ↔ Eligible ts s)
      → Among s (if b then with_keys t ∷ rest else rest) ↔ Eligible (t ∷ ts) s
  Among-cons t s ts rest true e ih = (forth, back)
    where
      forth : (t ≡ s) ⊎ Among s rest → Eligible (t ∷ ts) s
      forth (inl p) = (inl p, subst (λ u. Ok u ≡ true) p e)
      forth (inr a) = let (o, k) = ih.0 a in (inr o, k)

      back : Eligible (t ∷ ts) s → (t ≡ s) ⊎ Among s rest
      back (inl p, k) = inl p
      back (inr o, k) = inr (ih.1 (o, k))
  Among-cons t s ts rest false e ih = (λ a. let (o, k) = ih.0 a in (inr o, k), back)
    where
      back : Eligible (t ∷ ts) s → Among s rest
      back (inl p, k) = absurd (clash (subst (λ u. Ok u ≡ false) p e) k)
        where
          clash : {c : Bool} → c ≡ false → c ≡ true → ⊥
          clash f g = cc
      back (inr o, k) = ih.1 (o, k)

  Among-candidates_of :
      (ss : List TargetState) (s : TargetState)
      → Among s (candidates_of allowed attempted model path ss) ↔ Eligible ss s
  unfolding candidates_of
  Among-candidates_of [] s = (λ a. absurd a, λ e. absurd e.0)
  Among-candidates_of (t ∷ ts) s =
      Among-cons t s ts (candidates_of allowed attempted model path ts)
        (is_candidate allowed attempted model path t.target) refl (Among-candidates_of ts s)

  -- What a caller gets: an eligible target that is not muted; or else, all that are eligible are
  -- muted, and the one that is muted for the shortest time is reported, if there is any.
  abbrev pub OutcomeAs : List TargetState → Time → Option TargetState → Option TargetState → Type 0
  OutcomeAs snapshot now (some s) muted = Eligible snapshot s × (is_muted s now ≡ false)
  OutcomeAs snapshot now none none = (s : TargetState) → ¬ (Eligible snapshot s)
  OutcomeAs snapshot now none (some m) =
      Eligible snapshot m
      × ((s : TargetState)
          → Eligible snapshot s
          → (is_muted s now ≡ true) × (next_retry m ≤ next_retry s))

  abbrev pub Outcome : List TargetState → Time → Found → Type 0
  Outcome snapshot now r = OutcomeAs snapshot now r.available r.muted

  -- findAvailableTargetWithModel always gives one of these: a target that may take the request and is
  -- not muted; or, where all those are muted, none but the one whose mute ends first; or nothing, where
  -- no target may take the request.
  pub find_available_target_with_model-Outcome :
      (snapshot : List TargetState) (rr_counter : ℕ) (now : Time)
      → Outcome snapshot now
          (find_available_target_with_model snapshot rr_counter allowed attempted model path now).1
  unfolding find_available_target_with_model
  find_available_target_with_model-Outcome snapshot rr_counter now =
      of_candidates (candidates_of allowed attempted model path snapshot)
        (Among-candidates_of snapshot)
    where
      shown :
          (cs : List TargetWithKeys)
          → ((s : TargetState) → Among s cs ↔ Eligible snapshot s)
          → (o m : Option TargetState) → FindsAs now cs o m
          → OutcomeAs snapshot now o m
      shown cs same (some s) m (a, unmuted) = ((same s).0 a, unmuted)
      shown cs same none none (a, all) = λ s e. (all s ((same s).1 e)).1
      shown cs same none (some m) (a, all) = ((same m).0 a, λ s e. all s ((same s).1 e))

      of_candidates :
          (cs : List TargetWithKeys)
          → ((s : TargetState) → Among s cs ↔ Eligible snapshot s)
          → Outcome snapshot now (robin now rr_counter cs).1
      of_candidates [] same = λ s e. (same s).1 e
      of_candidates (c ∷ cs) same =
          let r = turn now rr_counter (c ∷ cs) in
          shown (c ∷ cs) same r.available r.muted (turn-Finds now rr_counter (c ∷ cs))

  -- As long as the counter is below 2^63, a call takes the place of the counter modulo the sum of the
  -- candidates' weights. Each candidate has as many places as its weight, behind the places of those
  -- before it: its active keys, or its keys where no candidate has an active one. If the candidate
  -- that has the place is not muted, it is given, no muted one is reported, and the counter goes on by one.
  pub find_available_target_with_model_weighs :
      (snapshot : List TargetState) (rr_counter : ℕ) (now : Time) (w : TargetWithKeys → ℕ)
      (earlier_ones : List TargetWithKeys) (c : TargetWithKeys) (later_ones : List TargetWithKeys)
      → let cs = candidates_of allowed attempted model path snapshot in
        let start = total w earlier_ones in
        let place = rr_counter % total w cs in
        IsWeight cs w
        → cs ≡ earlier_ones ++ (c ∷ later_ones)
        → rr_counter < 2 ^ 63
        → start ≤ place
        → place < start + w c
        → is_muted c.state now ≡ false
        → find_available_target_with_model snapshot rr_counter allowed attempted model path now
          ≡ (rr_counter + 1, record { available = some c.state; muted = none })
  unfolding find_available_target_with_model turn
  find_available_target_with_model_weighs snapshot rr_counter now w earlier_ones c later_ones weighs
        split small lo hi unmuted =
      let cs = candidates_of allowed attempted model path snapshot in
      let same = weight-IsWeight cs w weighs in
      let before = total_same (weight cs) w same earlier_ones in
      let all = total_same (weight cs) w same cs in
      robin-weighs now rr_counter cs earlier_ones c later_ones split small (rw (before, all) lo)
        (rw (before, all, same c) hi) unmuted
