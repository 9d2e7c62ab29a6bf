-- ===== src/KeyPool/History.antt =====
-- The calls of the key pool's methods, any history of them, and what holds after it.
use llms_proxy.Base.{
  ℕ, ◌≡◌, refl, sym, ap, ◌∙◌, String, some, List, [], ◌∷◌, map, length-map, arith,
}
use llms_proxy.Base.Int.{ℤ, pos}
use llms_proxy.Base.Text.{Bytes, trim_space}
use llms_proxy.Base.Time.{Time}
use llms_proxy.Base.Maps.{lookup, has-nil}
use llms_proxy.KeyPool.State.{KeyEntry, KeyPool, new_entry, new_pool, new_key_pool}
use llms_proxy.KeyPool.Load.{record_tokens, acquire_in_flight, release_in_flight}
use llms_proxy.KeyPool.Invariant.{All, Rested, IsValid}
use llms_proxy.KeyPool.Keeping.{
  Keeps, stay-Keeps, Keeps-trans, select_key-Keeps, next-Keeps, for_client-Keeps,
}
use llms_proxy.KeyPool.Select.{select_key, select_key_for_client, select_next_active_key}
use llms_proxy.KeyPool.Mark.{
  mark_exhausted_with_error, block_key, unblock_key, mark_recovered, try_wake_up, wake_up_complete,
}
use llms_proxy.KeyPool.Keeping.Calls.{
  mark-Keeps, block-Keeps, unblock-Keeps, recover-Keeps, acquire-Keeps, release-Keeps, record-Keeps,
  wake-Keeps, complete-Keeps,
}

-- A call of a method, but for those that only read.
pub data Call : Type 0 where
  selects : Call
  selects_for : String → Call
  selects_after : ℕ → Call
  exhausts : ℤ → String → Bytes → Call
  blocks unblocks recovers acquires releases : ℤ → Call
  records : ℤ → ℤ → Call
  wakes completes : Call

-- The pool after a call at a time.
unfoldable pub step : KeyPool → Time × Call → KeyPool
step p (now, selects) = (select_key p now).0
step p (now, selects_for name) = (select_key_for_client p name now).0
step p (now, selects_after a) = (select_next_active_key p a now).0
step p (now, exhausts i code body) = mark_exhausted_with_error p i code body now
step p (now, blocks i) = block_key p i
step p (now, unblocks i) = unblock_key p i
step p (now, recovers i) = (mark_recovered p i).0
step p (now, acquires i) = acquire_in_flight p i
step p (now, releases i) = release_in_flight p i
step p (now, records i tokens) = record_tokens p i tokens now
step p (now, wakes) = (try_wake_up p now).0
step p (now, completes) = wake_up_complete p now

unfoldable pub run : KeyPool → List (Time × Call) → KeyPool
run p [] = p
run p (c ∷ cs) = run (step p c) cs

-- Every call keeps a well-formed pool well formed, and keeps its keys.
pub step-Keeps : (p : KeyPool) (c : Time × Call) → IsValid p → Keeps p (step p c)
unfolding step
step-Keeps p (now, selects) v = select_key-Keeps p now v
step-Keeps p (now, selects_for name) v = for_client-Keeps p name now v
step-Keeps p (now, selects_after a) v = next-Keeps p a now v
step-Keeps p (now, exhausts i code body) v = mark-Keeps p i code body now v
step-Keeps p (now, blocks i) v = block-Keeps p i v
step-Keeps p (now, unblocks i) v = unblock-Keeps p i v
step-Keeps p (now, recovers i) v = recover-Keeps p i v
step-Keeps p (now, acquires i) v = acquire-Keeps p i v
step-Keeps p (now, releases i) v = release-Keeps p i v
step-Keeps p (now, records i tokens) v = record-Keeps p i tokens now v
step-Keeps p (now, wakes) v = wake-Keeps p now v
step-Keeps p (now, completes) v = complete-Keeps p now v

pub run-Keeps : (p : KeyPool) (cs : List (Time × Call)) → IsValid p → Keeps p (run p cs)
unfolding run
run-Keeps p [] v = stay-Keeps p v
run-Keeps p (c ∷ cs) v =
    let first = step-Keeps p c v in Keeps-trans first (run-Keeps (step p c) cs first.valid)

new_entries-Rested : (keys : List Bytes) → All Rested (map new_entry keys)
new_entries-Rested [] = tt
new_entries-Rested (k ∷ keys) = (ground arith, new_entries-Rested keys)

new_entries-keys : (keys : List Bytes) → map (λ (e : KeyEntry). e.key) (map new_entry keys) ≡ keys
new_entries-keys [] = refl
new_entries-keys (k ∷ keys) = ap (λ l. k ∷ l) (new_entries-keys keys)

pub new_pool-IsValid :
    (target_name : String) (keys : List Bytes) (spec : Bytes) (now : Time)
    → IsValid (new_pool target_name keys spec now)
unfolding new_pool
new_pool-IsValid target_name keys spec now = record {
  flights = length-map (λ _. pos 0) keys ∙ sym (length-map new_entry keys);
  counter = omega arith;
  rested = new_entries-Rested keys;
  bound = record {
    in_range = λ k i h. absurd (unbound k i h);
    synced = λ k. has-nil ℕ k ∙ sym (has-nil Time k);
    named = has-nil ℕ "";
    distinct = tt;
    distinct_at = tt;
  };
  within = omega arith;
  room = omega arith;
}
  where
    unbound : (k : String) (i : ℕ) → lookup k [] ≡ some i → ⊥
    unbound k i h = unfold lookup in cc h

new_pool-keys :
    (target_name : String) (keys : List Bytes) (spec : Bytes) (now : Time)
    → map (λ e. e.key) (new_pool target_name keys spec now).entries ≡ keys
unfolding new_pool
new_pool-keys target_name keys spec now = new_entries-keys keys

-- A pool is made of any keys but none, and after any calls at any times it is well formed and has
-- the keys that it was made of.
pub run-new_key_pool :
    (target_name : String) (k : Bytes) (keys : List Bytes) (spec : Bytes) (now : Time)
    (cs : List (Time × Call))
    → (p : KeyPool) × (new_key_pool target_name (k ∷ keys) spec now ≡ some p)
      × IsValid (run p cs)
      × (map (λ e. e.key) (run p cs).entries ≡ k ∷ keys)
unfolding new_key_pool
run-new_key_pool target_name k keys spec now cs =
    let p = new_pool target_name (k ∷ keys) (trim_space spec) now in
    let kept = run-Keeps p cs (new_pool-IsValid target_name (k ∷ keys) (trim_space spec) now) in
    (
      p,
      refl,
      kept.valid,
      kept.same_keys ∙ new_pool-keys target_name (k ∷ keys) (trim_space spec) now,
    )
