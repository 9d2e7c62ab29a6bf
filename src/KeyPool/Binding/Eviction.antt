-- ===== src/KeyPool/Binding/Eviction.antt =====
-- evictStaleAffinityLocked of internal/proxy/keypool.go, and the two binding maps.
use native.Mathlib.Nat.{le_refl}
use llms_proxy.Base.{
  ℕ, zero, suc, ◌≤◌, ◌<◌, ◌≡◌, refl, sym, ap, ◌∙◌, ◌⊎◌, inl, inr, Bool, true, false, ◌||◌, String,
  str_eq, eq_iff, some, [], ◌∷◌, length, ltb, arith, Bool-cases, lt→ltb, ltb→lt, if◌then◌else◌,
}
use llms_proxy.Base.Int.{pos, leb_ℤ}
use llms_proxy.Base.Maps.{
  Map, lookup, delete, has, Distinct, lookup-delete, has-delete, has-cons, has-cons_self,
  length-eq_zero, has-nil, length-delete-lt, delete-Distinct,
}
use llms_proxy.Base.Time.{Time, before, sub}
use llms_proxy.KeyPool.State.{KeyPool}
use llms_proxy.KeyPool.Binding.{unbind, evict_idle, oldest_from, evict_oldest, evict_stale_affinity}

-- What the two binding maps of a pool of `n` keys satisfy.
pub record Bindings (n : ℕ) (affinity : Map ℕ) (affinity_at : Map Time) : Type 0 where
  pub in_range : (k : String) (i : ℕ) → lookup k affinity ≡ some i → i < n
  pub synced : (k : String) → has k affinity ≡ has k affinity_at
  pub named : has "" affinity ≡ false
  pub distinct : Distinct affinity
  pub distinct_at : Distinct affinity_at

abbrev pub Bound : ℕ → KeyPool → Type 0
Bound n p = Bindings n p.client_affinity p.client_affinity_at

-- The pool without its bindings.
abbrev pub core : KeyPool → KeyPool
core p = record p { client_affinity = []; client_affinity_at = [] }

pub core-unbind : (name : String) (p : KeyPool) → core (unbind name p) ≡ core p
unfolding unbind
core-unbind name p = refl

unbind-at :
    (name : String) (p : KeyPool)
    → (unbind name p).client_affinity_at ≡ delete name p.client_affinity_at
unfolding unbind
unbind-at name p = refl

unbind-max :
    (name : String) (p : KeyPool) → (unbind name p).max_affinity_entries ≡ p.max_affinity_entries
unfolding unbind
unbind-max name p = refl

pub unbind-Bound : (n : ℕ) (name : String) (p : KeyPool) → Bound n p → Bound n (unbind name p)
unfolding unbind
unbind-Bound n name p b = record {
  in_range = λ k i h. ground (arith, b.in_range k i, lookup-delete name k p.client_affinity);
  synced = λ k. ground (
    arith,
    b.synced k,
    has-delete name k p.client_affinity,
    has-delete name k p.client_affinity_at,
  );
  named = ground (arith, b.named, has-delete name "" p.client_affinity);
  distinct = delete-Distinct name p.client_affinity b.distinct;
  distinct_at = delete-Distinct name p.client_affinity_at b.distinct_at;
}

-- `q` is `p` with fewer bindings, and still well bound.
pub record Trims (n : ℕ) (p q : KeyPool) : Type 0 where
  pub bound : Bound n q
  pub same_core : core q ≡ core p

pub Trims-trans : {n : ℕ} {p q r : KeyPool} → Trims n p q → Trims n q r → Trims n p r
Trims-trans a b = record { bound = b.bound; same_core = b.same_core ∙ a.same_core }

unbind_if-Trims :
    (n : ℕ) (test : Bool) (name : String) (p : KeyPool)
    → Bound n p
    → Trims n p (if test then unbind name p else p)
unbind_if-Trims n true name p b = record {
  bound = unbind-Bound n name p b;
  same_core = core-unbind name p;
}
unbind_if-Trims n false name p b = record { bound = b; same_core = refl }

pub evict_idle-Trims :
    (n : ℕ) (m : Map Time) (now : Time) (p : KeyPool) → Bound n p → Trims n p (evict_idle m now p)
unfolding evict_idle
evict_idle-Trims n [] now p b = record { bound = b; same_core = refl }
evict_idle-Trims n ((name, ts) ∷ rest) now p b =
    let first = unbind_if-Trims n (leb_ℤ (pos p.affinity_ttl) (sub now ts)) name p b in
    Trims-trans first (evict_idle-Trims n rest now _ first.bound)

-- The name found is the one at hand or a key of the map.
oldest_from-has :
    (oldest : String) (ts : Time) (m : Map Time)
    → (oldest_from oldest ts m ≡ oldest) ⊎ (has (oldest_from oldest ts m) m ≡ true)
unfolding oldest_from
oldest_from-has oldest ts [] = inl refl
oldest_from-has oldest ts ((name, t) ∷ rest) = picked (str_eq oldest "" || before t ts) (
    oldest_from-has (if str_eq oldest "" || before t ts then name else oldest)
      (if str_eq oldest "" || before t ts then t else ts) rest)
  where
    picked :
        (b : Bool) {k : String}
        → (k ≡ (if b then name else oldest)) ⊎ (has k rest ≡ true)
        → (k ≡ oldest) ⊎ (has k ((name, t) ∷ rest) ≡ true)
    picked b {k} (inr h) = inr (has-cons k name t rest h)
    picked true {k} (inl h) = inr (rw h (has-cons_self name t rest))
    picked false (inl h) = inl h

-- A map with entries has an oldest one.
oldest-has :
    (name : String) (t : Time) (m : Map Time)
    → has (oldest_from "" 0 ((name, t) ∷ m)) ((name, t) ∷ m) ≡ true
unfolding oldest_from
oldest-has name t m = elim (oldest_from-has name t m) [
  | inl same ↦ rw same (has-cons_self name t m)
  | inr there ↦ has-cons (oldest_from name t m) name t m there
]

evict_oldest-Trims : (n fuel : ℕ) (p : KeyPool) → Bound n p → Trims n p (evict_oldest fuel p)
unfolding evict_oldest
evict_oldest-Trims n zero p b = record { bound = b; same_core = refl }
evict_oldest-Trims n (suc fuel) p b =
    let name = oldest_from "" 0 p.client_affinity_at in
    let stay : Trims n p p = record { bound = b; same_core = refl } in
    let go =
      Trims-trans {q = unbind name p} (unbind_if-Trims n true name p b)
        (evict_oldest-Trims n fuel (unbind name p) (unbind-Bound n name p b)) in
    elim (Bool-cases (ltb (length p.client_affinity) p.max_affinity_entries)) [
      | inl fits ↦ rw (fits, evict_oldest) stay
      | inr full ↦ elim (Bool-cases (str_eq name "")) [
        | inl unnamed ↦ rw (full, unnamed, evict_oldest) stay
        | inr named ↦ rw (full, named, evict_oldest) go
      ]
    ]

-- No stamp has the empty name.
stamped-named :
    (n : ℕ) (p : KeyPool) (k : String)
    → Bound n p
    → has k p.client_affinity_at ≡ true
    → str_eq k "" ≡ false
stamped-named n p k b h = elim (Bool-cases (str_eq k "")) [
  | inl e ↦
      let empty : k ≡ "" = (eq_iff k "").0 e in
      let there : has "" p.client_affinity_at ≡ true = rw empty at h in
      absurd (cc (there, sym (b.synced ""), b.named))
  | inr e ↦ e
]

-- Without stamps there are no bindings.
pub unstamped :
    (n : ℕ) (p : KeyPool) → Bound n p → p.client_affinity_at ≡ [] → length p.client_affinity ≡ 0
unstamped n p b e = length-eq_zero p.client_affinity (λ k. b.synced k ∙ rw e (has-nil Time k))

-- With a turn for each stamp the second round ends below the limit.
evict_oldest-room :
    (n fuel : ℕ) (p : KeyPool) (m : Map Time)
    → Bound n p
    → p.client_affinity_at ≡ m
    → length m ≤ fuel
    → 0 < p.max_affinity_entries
    → length (evict_oldest fuel p).client_affinity < p.max_affinity_entries
unfolding evict_oldest unbind
evict_oldest-room n zero p m b e le room =
    let none_left : m ≡ [] = ground (arith, le) in rw (unstamped n p b (e ∙ none_left)) room
evict_oldest-room n (suc fuel) p [] b e le room =
    let fits =
      lt→ltb (length p.client_affinity) p.max_affinity_entries (rw (unstamped n p b e) room) in
    rw (fits, evict_oldest) (rw (unstamped n p b e) room)
evict_oldest-room n (suc fuel) p ((k, t) ∷ m) b e le room =
    let name = oldest_from "" 0 p.client_affinity_at in
    let there : has name p.client_affinity_at ≡ true = rw e (oldest-has k t m) in
    let fewer = length-delete-lt name p.client_affinity_at there in
    let shorter : length (delete name p.client_affinity_at) ≤ fuel = omega (arith, ap length e) in
    let rest =
      evict_oldest-room n fuel (unbind name p) (delete name p.client_affinity_at)
        (unbind-Bound n name p b) (unbind-at name p) shorter (rw unbind-max room) in
    elim (Bool-cases (ltb (length p.client_affinity) p.max_affinity_entries)) [
      | inl fits ↦ rw (fits, evict_oldest) (ltb→lt _ _ fits)
      | inr full ↦ rw (full, stamped-named n p name b there, evict_oldest) rest
    ]

-- On well-formed bindings with a positive limit, the eviction leaves fewer bindings than the limit,
-- well formed, and changes nothing else.
pub evict_stale_affinity-room :
    (n : ℕ) (p : KeyPool) (now : Time)
    → Bound n p
    → 0 < p.max_affinity_entries
    → Trims n p (evict_stale_affinity p now)
      × (length (evict_stale_affinity p now).client_affinity < p.max_affinity_entries)
unfolding evict_stale_affinity
evict_stale_affinity-room n p now b room =
    let q = evict_idle p.client_affinity_at now p in
    let idle = evict_idle-Trims n p.client_affinity_at now p b in
    let limit : q.max_affinity_entries ≡ p.max_affinity_entries =
      ap (λ (s : KeyPool). s.max_affinity_entries) idle.same_core in
    let oldest =
      evict_oldest-room n (length q.client_affinity_at) q q.client_affinity_at idle.bound refl
        (le_refl _) (rw limit room) in
    elim (Bool-cases (ltb (length p.client_affinity) p.max_affinity_entries)) [
      | inl fits ↦
          rw (fits, evict_stale_affinity) (record { bound = b; same_core = refl }, ltb→lt _ _ fits)
      | inr full ↦
          rw (full, evict_stale_affinity)
            (
              Trims-trans idle (evict_oldest-Trims n (length q.client_affinity_at) q idle.bound),
              omega (arith, limit, oldest),
            )
    ]
