-- ===== src/KeyPool/Select.antt =====
-- internal/proxy/keypool.go: `selectKey`, `selectKeyForClient` and `selectNextActiveKey`. The time
-- of the call is an argument. Every method holds the pool's lock from its first read to its last
-- write, so a call is one step.
pub mod Scan
pub mod Serve
pub mod Survey
pub mod Weighed
pub mod Client
pub mod Probe
pub mod Plain
pub mod LastResort
use llms_proxy.Base.{
  ℕ, zero, suc, ◌+◌, ◌%◌, ◌^◌, Bool, true, false, not, ◌&&◌, ◌||◌, String, str_eq, Option, none,
  some, List, [], ◌∷◌, length, get_or, modify, ltb, leb, ◌==◌, if◌then◌else◌,
}
use llms_proxy.Base.Int.{ℤ, pos, ltb_ℤ, leb_ℤ}
use llms_proxy.Base.Maps.{lookup}
use llms_proxy.Base.Time.{Time, after, sub}
use llms_proxy.KeyPool.State.{KeyEntry, KeyPool, Selection, usable_at, recovered, found, blank}
use llms_proxy.KeyPool.Load.{flight, token_sum_in_window, score_less, better, best_active_key}
use llms_proxy.KeyPool.Binding.{bind}

-- The first usable key among `start + i`, `start + i + 1`, …, modulo `n`, with `left` rounds to go.
unfoldable pub first_active : List KeyEntry → ℕ → ℕ → ℕ → ℕ → Option ℕ
first_active es n start zero i = none
first_active es n start (suc left) i =
    let rest = first_active es n start left (i + 1) in
    if usable_at es ((start + i) % n) then some ((start + i) % n) else rest

-- The first key that is not blocked and whose cooldown is over.
unfoldable pub first_recoverable : Time → List KeyEntry → ℕ → Option ℕ
first_recoverable now [] i = none
first_recoverable now (e ∷ es) i =
    let rest = first_recoverable now es (i + 1) in
    if e.blocked
    then rest
    else if after now e.cooldown_end || now == e.cooldown_end
    then some i
    else rest

unfoldable pub recover_at : KeyPool → ℕ → KeyPool
recover_at p i = record p { entries = modify recovered i p.entries }

-- The desperation probe: the key with the least cooldown left, but for blocked and rate limited
-- ones. `best` is the index and the remaining time of the best key so far.
unfoldable pub best_probe : Time → List KeyEntry → ℕ → Option (ℕ × ℤ) → Option (ℕ × ℤ)
best_probe now [] i best = best
best_probe now (e ∷ es) i best =
    let remaining = sub e.cooldown_end now in
    let shorter : Bool = elim best [ none ↦ true | some (_, least) ↦ ltb_ℤ remaining least ] in
    let skip = e.blocked || str_eq e.exhaust_reason "rate_limited" in
    best_probe now es (i + 1) (if skip then best else if shorter then some (i, remaining) else best)

unfoldable pub probe : KeyPool → Time → KeyPool × Selection
probe p now = elim (best_probe now p.entries 0 none) [ some (i, _) ↦ found p i | none ↦ (p, none) ]

unfoldable pub advance : KeyPool → KeyPool
advance p = record p { rr_counter = (p.rr_counter + 1) % 2 ^ 32 }

-- Rounds two and three of `selectKey`.
unfoldable pub select_exhausted : KeyPool → Time → KeyPool × Selection
unfolding probe
select_exhausted p now = elim (first_recoverable now p.entries 0) [
  | some i ↦ found (recover_at p i) i
  | none ↦ probe p now
]

abbrev pub scan : KeyPool → Option ℕ
scan p = let n = length p.entries in first_active p.entries n (p.rr_counter % n) n 0

-- selectKey
unfoldable pub select_key : KeyPool → Time → KeyPool × Selection
unfolding select_exhausted
select_key p now =
    if length p.entries == 0
    then (p, none)
    else elim (scan p) [ some i ↦ found (advance p) i | none ↦ select_exhausted p now ]

-- Step 4 of `selectKeyForClient`.
unfoldable pub revive : KeyPool → String → Time → KeyPool × Selection
revive p name now = elim (first_recoverable now p.entries 0) [
  | some i ↦ found (bind (recover_at p i) name i now) i
  | none ↦ (p, none)
]

-- Step 3, and on.
unfoldable pub overflow : KeyPool → String → Time → KeyPool × Selection
overflow p name now = elim (scan p) [
  | some i ↦ found (bind p name i now) i
  | none ↦ revive p name now
]

-- Step 1: a bound client whose binding is due may move to a better key.
unfoldable pub migrate : KeyPool → String → ℕ → Option ℕ → Time → KeyPool × Selection
migrate p name preferred none now = found (bind p name preferred now) preferred
migrate p name preferred (some best) now =
    let (q, less) = score_less p best preferred now in
    let chosen = if less then best else preferred in
    if best == preferred
    then found (bind p name preferred now) preferred
    else found (bind q name chosen now) chosen

unfoldable pub rebalance : KeyPool → String → ℕ → Time → KeyPool × Selection
rebalance p name preferred now =
    let (q, best) = best_active_key p now in migrate q name preferred best now

abbrev pub bound_at : KeyPool → String → Time
bound_at p name = elim (lookup name p.client_affinity_at) [ some t ↦ t | none ↦ 0 ]

unfoldable pub reuse : KeyPool → String → ℕ → Time → KeyPool × Selection
reuse p name preferred now =
    if leb_ℤ (pos p.rebalance_interval) (sub now (bound_at p name))
    then rebalance p name preferred now
    else found p preferred

unfoldable pub bound_client : KeyPool → String → ℕ → Time → KeyPool × Selection
bound_client p name preferred now =
    if ltb preferred (length p.entries) && usable_at p.entries preferred
    then reuse p name preferred now
    else overflow p name now

-- Step 2: `p.inFlight[i] > 0 || p.tokenSumInWindow(i, now) > 0`
unfoldable pub is_loaded : KeyPool → ℕ → Time → KeyPool × Bool
is_loaded p i now =
    let (q, sum) = token_sum_in_window p i now in
    if ltb_ℤ (pos 0) (flight p i) then (p, true) else (q, ltb_ℤ (pos 0) sum)

-- The body of the loop of step 2.
unfoldable pub inspect : KeyPool → ℕ → Option ℕ → Bool → Time → KeyPool × Option ℕ × Bool
unfolding is_loaded
inspect p i best signal now =
    let (q, loaded) = is_loaded p i now in
    let (r, next) = better q i best now in
    if usable_at p.entries i then (r, next, signal || loaded) else (p, best, signal)

unfoldable pub survey : KeyPool → ℕ → ℕ → Option ℕ → Bool → Time → KeyPool × Option ℕ × Bool
survey p zero i best signal now = (p, best, signal)
survey p (suc left) i best signal now =
    let (q, next, loaded) = inspect p i best signal now in survey q left (i + 1) next loaded now

-- The round robin of a pool without load.
unfoldable pub rotate : KeyPool → ℕ → String → Time → KeyPool × Selection
rotate p zero name now = overflow p name now
rotate p (suc left) name now =
    let i = p.rr_counter % length p.entries in
    let rest = rotate (advance p) left name now in
    if usable_at p.entries i then found (bind (advance p) name i now) i else rest

unfoldable pub assign : KeyPool → Option ℕ → Bool → String → Time → KeyPool × Selection
assign p none signal name now = overflow p name now
assign p (some best) true name now = found (bind p name best now) best
assign p (some best) false name now = rotate p (length p.entries) name now

unfoldable pub new_client : KeyPool → String → Time → KeyPool × Selection
new_client p name now =
    let (q, best, signal) = survey p (length p.entries) 0 none false now in
    assign q best signal name now

-- selectKeyForClient
unfoldable pub select_key_for_client : KeyPool → String → Time → KeyPool × Selection
select_key_for_client p name now =
    if length p.entries == 0
    then (p, none)
    else if str_eq name ""
    then select_key p now
    else elim (lookup name p.client_affinity) [
      | some preferred ↦ bound_client p name preferred now
      | none ↦ new_client p name now
    ]

-- selectNextActiveKey. Its one caller passes the index of the key in use, which is not negative.
unfoldable pub select_next_active_key : KeyPool → ℕ → Time → KeyPool × Selection
select_next_active_key p after_index now =
    let n = length p.entries in
    if n == 0 then (p, none) else elim (first_active p.entries n after_index n 1) [
      | some i ↦ found p i
      | none ↦ elim (first_recoverable now p.entries 0) [
        | some i ↦ found (recover_at p i) i
        | none ↦ (p, none)
      ]
    ]
