-- ===== src/KeyPool/Keeping/Calls.antt =====
-- The calls of internal/proxy/keypool.go that mark, count or wake, and what they keep of a pool.
use llms_proxy.Base.{
  ℕ, ◌≡◌, refl, sym, ap, ◌∙◌, inl, inr, String, length, length-modify, arith, Bool-cases,
  Option-cases, get_or,
}
use llms_proxy.Base.Int.{ℤ, pos, ltb_ℤ, leb_ℤ}
use llms_proxy.Base.Text.{Bytes}
use llms_proxy.Base.Time.{Time}
use llms_proxy.KeyPool.State.{KeyPool, recovered, in_bounds, blank}
use llms_proxy.KeyPool.Load.{
  cutoff, prune_entry, prune_expired_samples, record_tokens, acquire_in_flight, release_in_flight,
  flight,
}
use llms_proxy.KeyPool.Invariant.{recovered-Rested, IsValid, prune-Rested}
use llms_proxy.KeyPool.Keeping.{Keeps, stay-Keeps, Keeps-trans, modify-Keeps}
use llms_proxy.KeyPool.Mark.{
  exhausted_by, exhaust_at, mark_exhausted_with_error, block_key, unblock_key, mark_recovered,
  try_wake_up, wake_up_complete, cooldown_of, current_reset,
}

-- What a call changes outside the entries and the bindings.
pub same_fields-Keeps :
    (p q : KeyPool)
    → q.entries ≡ p.entries
    → length q.in_flight ≡ length p.in_flight
    → q.rr_counter ≡ p.rr_counter
    → q.client_affinity ≡ p.client_affinity
    → q.client_affinity_at ≡ p.client_affinity_at
    → q.max_affinity_entries ≡ p.max_affinity_entries
    → IsValid p
    → Keeps p q
same_fields-Keeps p q e f r a t m v = record {
  valid = record {
    flights = f ∙ v.flights ∙ ap length (sym e);
    counter = rw r v.counter;
    rested = rw e v.rested;
    bound = rw (e, a, t) v.bound;
    within = rw (a, m) v.within;
    room = rw m v.room;
  };
  same_keys = rw e refl;
}

pub exhaust_at-Keeps :
    (p : KeyPool) (i : ℕ) (code : String) (body : Bytes) (now : Time)
    → IsValid p
    → Keeps p (exhaust_at p i code body now)
unfolding exhaust_at
exhaust_at-Keeps p i code body now v =
    let c = cooldown_of code (current_reset p now) now in
    let changed = modify-Keeps p (exhausted_by c body now) i (λ e _. ground arith) (λ e. refl) v in
    Keeps-trans changed (same_fields-Keeps _ _ refl refl refl refl refl refl changed.valid)

pub mark-Keeps :
    (p : KeyPool) (index : ℤ) (code : String) (body : Bytes) (now : Time)
    → IsValid p
    → Keeps p (mark_exhausted_with_error p index code body now)
unfolding mark_exhausted_with_error
mark-Keeps p index code body now v = elim (Option-cases (in_bounds index (length p.entries))) [
  | inl out ↦ rw (out, mark_exhausted_with_error) (stay-Keeps p v)
  | inr (i, here) ↦ elim (Bool-cases (get_or p.entries i blank).exhausted) [
    | inl spent ↦ rw (here, spent, mark_exhausted_with_error) (stay-Keeps p v)
    | inr fresh ↦ rw (here, fresh, mark_exhausted_with_error) (exhaust_at-Keeps p i code body now v)
  ]
]

pub block-Keeps : (p : KeyPool) (index : ℤ) → IsValid p → Keeps p (block_key p index)
unfolding block_key
block-Keeps p index v = elim (Option-cases (in_bounds index (length p.entries))) [
  | inl out ↦ rw (out, block_key) (stay-Keeps p v)
  | inr (i, here) ↦
      rw (here, block_key) (modify-Keeps p _ i (λ e r. ground (arith, r)) (λ e. refl) v)
]

pub unblock-Keeps : (p : KeyPool) (index : ℤ) → IsValid p → Keeps p (unblock_key p index)
unfolding unblock_key
unblock-Keeps p index v = elim (Option-cases (in_bounds index (length p.entries))) [
  | inl out ↦ rw (out, unblock_key) (stay-Keeps p v)
  | inr (i, here) ↦ rw (here, unblock_key) (modify-Keeps p _ i (λ e r. ground arith) (λ e. refl) v)
]

pub recover-Keeps : (p : KeyPool) (index : ℤ) → IsValid p → Keeps p (mark_recovered p index).0
unfolding mark_recovered
recover-Keeps p index v = elim (Option-cases (in_bounds index (length p.entries))) [
  | inl out ↦ rw (out, mark_recovered) (stay-Keeps p v)
  | inr (i, here) ↦ elim (Bool-cases (get_or p.entries i blank).exhausted) [
    | inr fresh ↦ rw (here, fresh, mark_recovered) (stay-Keeps p v)
    | inl spent ↦
        rw (here, spent, mark_recovered)
          (modify-Keeps p recovered i (λ e _. recovered-Rested e) (λ e. refl) v)
  ]
]

pub acquire-Keeps : (p : KeyPool) (index : ℤ) → IsValid p → Keeps p (acquire_in_flight p index)
unfolding acquire_in_flight
acquire-Keeps p index v = elim (Option-cases (in_bounds index (length p.in_flight))) [
  | inl out ↦ rw (out, acquire_in_flight) (stay-Keeps p v)
  | inr (i, here) ↦
      rw (here, acquire_in_flight)
        (same_fields-Keeps p _ refl (length-modify _ i p.in_flight) refl refl refl refl v)
]

pub release-Keeps : (p : KeyPool) (index : ℤ) → IsValid p → Keeps p (release_in_flight p index)
unfolding release_in_flight
release-Keeps p index v = elim (Option-cases (in_bounds index (length p.in_flight))) [
  | inl out ↦ rw (out, release_in_flight) (stay-Keeps p v)
  | inr (i, here) ↦ elim (Bool-cases (ltb_ℤ (pos 0) (flight p i))) [
    | inr idle ↦ rw (here, idle, release_in_flight) (stay-Keeps p v)
    | inl busy ↦
        rw (here, busy, release_in_flight)
          (same_fields-Keeps p _ refl (length-modify _ i p.in_flight) refl refl refl refl v)
  ]
]

pub prune-Keeps :
    (p : KeyPool) (i : ℕ) (now : Time) → IsValid p → Keeps p (prune_expired_samples p i now)
unfolding prune_expired_samples
prune-Keeps p i now v =
    modify-Keeps p (prune_entry (cutoff p now)) i (prune-Rested (cutoff p now)) (λ e. refl) v

pub record-Keeps :
    (p : KeyPool) (index tokens : ℤ) (now : Time)
    → IsValid p
    → Keeps p (record_tokens p index tokens now)
unfolding record_tokens
record-Keeps p index tokens now v = elim (Bool-cases (leb_ℤ tokens (pos 0))) [
  | inl empty ↦ rw (empty, record_tokens) (stay-Keeps p v)
  | inr some_tokens ↦ elim (Option-cases (in_bounds index (length p.entries))) [
    | inl out ↦ rw (some_tokens, out, record_tokens) (stay-Keeps p v)
    | inr (i, here) ↦
        let sampled = modify-Keeps p _ i (λ e r. ground (arith, r)) (λ e. refl) v in
        rw (some_tokens, here, record_tokens)
          (Keeps-trans sampled (prune-Keeps _ i now sampled.valid))
  ]
]

pub wake-Keeps : (p : KeyPool) (now : Time) → IsValid p → Keeps p (try_wake_up p now).0
unfolding try_wake_up
wake-Keeps p now v =
    same_fields-Keeps p (try_wake_up p now).0 (ground arith) (ground arith) (ground arith)
      (ground arith) (ground arith) (ground arith) v

pub complete-Keeps : (p : KeyPool) (now : Time) → IsValid p → Keeps p (wake_up_complete p now)
unfolding wake_up_complete
complete-Keeps p now v = same_fields-Keeps p _ refl refl refl refl refl refl v
