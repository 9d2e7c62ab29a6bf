-- ===== src/KeyPool/Load.antt =====
-- internal/proxy/keypool.go: the token window, the requests in flight, and the score by which keys
-- are compared. Reading a window drops its expired samples, so these functions return the pool.
use llms_proxy.Base.{
  ℕ, zero, suc, ◌+◌, ◌-◌, Bool, true, false, not, Option, none, some, List, [], ◌∷◌, ◌++◌, length,
  get_or, modify, leb, ◌==◌, if◌then◌else◌,
}
use llms_proxy.Base.Int.{ℤ, pos, negsuc, pos_part, neg_part, ltb_ℤ, leb_ℤ, add_int64}
use llms_proxy.Base.Time.{Time, before}
use llms_proxy.KeyPool.State.{
  TokenSample, KeyEntry, KeyPool, is_active, usable_at, in_bounds, blank,
}

abbrev pub cutoff : KeyPool → Time → Time
cutoff p now = now - p.token_window

-- The loop of `pruneExpiredSamplesLocked`: drops the leading samples from before the cutoff.
unfoldable pub drop_expired : Time → List TokenSample → List TokenSample
drop_expired limit [] = []
drop_expired limit (s ∷ r) =
    let rest = drop_expired limit r in if before s.at limit then rest else s ∷ r

abbrev pub prune_entry : Time → KeyEntry → KeyEntry
prune_entry limit e = record e { token_samples = drop_expired limit e.token_samples }

-- pruneExpiredSamplesLocked
unfoldable pub prune_expired_samples : KeyPool → ℕ → Time → KeyPool
prune_expired_samples p i now = record p {
  entries = modify (prune_entry (cutoff p now)) i p.entries;
}

unfoldable pub sum_samples : ℤ → List TokenSample → ℤ
sum_samples sum [] = sum
sum_samples sum (s ∷ r) = sum_samples (add_int64 sum s.tokens) r

unfoldable pub tokens_at : List KeyEntry → ℕ → ℤ
tokens_at es i = sum_samples (pos 0) (get_or es i blank).token_samples

-- tokenSumInWindow
unfoldable pub token_sum_in_window : KeyPool → ℕ → Time → KeyPool × ℤ
token_sum_in_window p i now = let q = prune_expired_samples p i now in (q, tokens_at q.entries i)

abbrev pub flight : KeyPool → ℕ → ℤ
flight p i = get_or p.in_flight i (pos 0)

abbrev pub eq_ℤ : ℤ → ℤ → Bool
eq_ℤ a b = pos_part a + neg_part b == pos_part b + neg_part a

unfoldable pub fewer_tokens : KeyPool → ℕ → ℕ → Time → KeyPool × Bool
fewer_tokens p a b now =
    let (q, sum_a) = token_sum_in_window p a now in
    let (r, sum_b) = token_sum_in_window q b now in (r, ltb_ℤ sum_a sum_b)

-- scoreLessLocked, at indices that are not negative.
unfoldable pub score_less : KeyPool → ℕ → ℕ → Time → KeyPool × Bool
unfolding fewer_tokens
score_less p a b now =
    if leb (length p.entries) a
    then (p, false)
    else if leb (length p.entries) b
    then (p, true)
    else if not (eq_ℤ (flight p a) (flight p b))
    then (p, ltb_ℤ (flight p a) (flight p b))
    else fewer_tokens p a b now

-- `best == -1 || p.scoreLessLocked(i, best, now)`, and the assignment under it.
unfoldable pub better : KeyPool → ℕ → Option ℕ → Time → KeyPool × Option ℕ
better p i none now = (p, some i)
better p i (some b) now =
    let (q, less) = score_less p i b now in (q, if less then some i else some b)

unfoldable pub consider : KeyPool → ℕ → Option ℕ → Time → KeyPool × Option ℕ
unfolding better
consider p i best now = if usable_at p.entries i then better p i best now else (p, best)

-- The loop of `bestActiveKeyLocked` from `i`, with `left` rounds to go.
unfoldable pub best_from : KeyPool → ℕ → ℕ → Option ℕ → Time → KeyPool × Option ℕ
best_from p zero i best now = (p, best)
best_from p (suc left) i best now =
    let (q, b) = consider p i best now in best_from q left (i + 1) b now

-- bestActiveKeyLocked
unfoldable pub best_active_key : KeyPool → Time → KeyPool × Option ℕ
best_active_key p now = best_from p (length p.entries) 0 none now

-- recordTokens
unfoldable pub record_tokens : KeyPool → ℤ → ℤ → Time → KeyPool
record_tokens p index tokens now =
    if leb_ℤ tokens (pos 0) then p else elim (in_bounds index (length p.entries)) [
      | none ↦ p
      | some i ↦
          let sampled = record p {
            entries =
                modify
                  (λ e. record e {
                    token_samples = e.token_samples ++ (record { at = now; tokens = tokens } ∷ []);
                  })
                  i p.entries;
          } in
          prune_expired_samples sampled i now
    ]

-- acquireInFlight
unfoldable pub acquire_in_flight : KeyPool → ℤ → KeyPool
acquire_in_flight p index = elim (in_bounds index (length p.in_flight)) [
  | none ↦ p
  | some i ↦ record p { in_flight = modify (λ n. add_int64 n (pos 1)) i p.in_flight }
]

-- releaseInFlight
unfoldable pub release_in_flight : KeyPool → ℤ → KeyPool
release_in_flight p index = elim (in_bounds index (length p.in_flight)) [
  | none ↦ p
  | some i ↦
      if ltb_ℤ (pos 0) (flight p i)
      then record p { in_flight = modify (λ n. add_int64 n (negsuc 0)) i p.in_flight }
      else p
]

unfoldable pub count_active : List KeyEntry → ℕ
count_active [] = 0
count_active (e ∷ es) = let rest = count_active es in if is_active e then suc rest else rest

-- activeKeyCount
unfoldable pub active_key_count : KeyPool → ℕ
unfolding count_active
active_key_count p = count_active p.entries
