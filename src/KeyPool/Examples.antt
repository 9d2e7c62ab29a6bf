-- ===== src/KeyPool/Examples.antt =====
-- Pools of two keys on which the theorems on internal/proxy/keypool.go are run.
use llms_proxy.Base.{
  ℕ, zero, suc, ◌*◌, ◌<◌, ◌≡◌, refl, true, false, some, [], ◌∷◌, map, length, arith,
}
use llms_proxy.Base.Int.{add_int64, pos}
use llms_proxy.Base.Maps.{lookup, insert, has}
use llms_proxy.Base.Text.{Bytes, bytes}
use llms_proxy.KeyPool.ResetTime.{next_monthly_reset}
use llms_proxy.KeyPool.ResetTime.Next.{next_monthly_reset-after}
use llms_proxy.Base.Time.{day, second, sub}
use llms_proxy.KeyPool.State.{KeyEntry, KeyPool, new_entry, new_pool, new_key_pool, usable_at}
use llms_proxy.KeyPool.Load.{
  acquire_in_flight, best_active_key, better, token_sum_in_window, prune_expired_samples,
  drop_expired, sum_samples, tokens_at, score_less,
}
use llms_proxy.KeyPool.Balance.{settle}
use llms_proxy.KeyPool.Balance.Best.{Finds, best_active_key-Finds}
use llms_proxy.KeyPool.Binding.{bind, write_binding, evict_stale_affinity}
use llms_proxy.KeyPool.Binding.Eviction.{Trims, evict_stale_affinity-room}
use llms_proxy.KeyPool.Binding.Bind.{Binds, bind-Binds}
use llms_proxy.KeyPool.Invariant.{IsValid, Binds-IsValid}
use llms_proxy.KeyPool.Keeping.{Keeps}
use llms_proxy.KeyPool.History.{
  selects_for, exhausts, acquires, step, run, new_pool-IsValid, step-Keeps, run-new_key_pool,
}
use llms_proxy.KeyPool.Mark.{mark_exhausted_with_error}
use llms_proxy.KeyPool.Mark.Exhaustion.{Exhausts, mark_exhausted-lasts}
use llms_proxy.KeyPool.Select.{
  select_key, select_key_for_client, new_client, survey, inspect, is_loaded, assign, rotate,
  advance,
}
use llms_proxy.KeyPool.Select.Survey.{has_load}
use llms_proxy.KeyPool.Select.Serve.{Outcome}
use llms_proxy.KeyPool.Select.Plain.{
  NextActive, NextAfter, select_key_active, select_next_active_key_active,
}
use llms_proxy.KeyPool.Select.LastResort.{LastResort, select_key_exhausted, select_key_recovers}
use llms_proxy.KeyPool.Select.Weighed.{Weighed}
use llms_proxy.KeyPool.Select.Client.{
  select_key_for_client-Outcome, select_key_for_client_repeats, select_key_for_client_rebalances,
  select_key_for_client_weighs,
}

abbrev one : Bytes
one = bytes "sk-one"

abbrev two : Bytes
two = bytes "sk-two"

abbrev two_keys : KeyPool
two_keys = new_pool "azure" (one ∷ two ∷ []) [] 0

-- The pool after it has given its first key to a new client.
abbrev given_ada : KeyPool
given_ada = bind (record two_keys { rr_counter = 1 }) "ada" 0 7

two_keys-IsValid : IsValid two_keys
two_keys-IsValid = new_pool-IsValid "azure" (one ∷ two ∷ []) [] 0

two_keys_exist : 0 < 2
two_keys_exist = omega arith

abbrev ada_bound : KeyPool
ada_bound = bind two_keys "ada" 0 7

ada_Binds : Binds 2 two_keys "ada" 0 7 ada_bound
unfolding new_pool
ada_Binds =
    bind-Binds 2 two_keys "ada" 0 7 two_keys-IsValid.bound two_keys-IsValid.room
      two_keys-IsValid.within (omega arith) refl

ada_bound-IsValid : IsValid ada_bound
unfolding new_pool
ada_bound-IsValid = Binds-IsValid two_keys ada_bound "ada" 0 7 two_keys-IsValid ada_Binds

-- A key that is exhausted until 5.
abbrev resting_entry : Bytes → KeyEntry
resting_entry k = record (new_entry k) {
  exhausted = true;
  exhausted_at = 1;
  exhaust_reason = "quota_exceeded";
  cooldown_end = 5;
}

abbrev resting : KeyPool
unfolding new_pool
resting = record two_keys { entries = resting_entry one ∷ resting_entry two ∷ [] }

resting_idle : (j : ℕ) → usable_at (resting_entry one ∷ resting_entry two ∷ []) j ≡ false
resting_idle zero = refl
resting_idle (suc zero) = refl
resting_idle (suc (suc j)) = refl

run-new_key_pool_example :
    (p : KeyPool) × (new_key_pool "azure" (one ∷ two ∷ []) [] 0 ≡ some p)
    × IsValid (run p ((3, exhausts (pos 0) "rate_limited" []) ∷ (4, selects_for "ada") ∷ []))
    × (map
          (λ e. e.key)
          (run p ((3, exhausts (pos 0) "rate_limited" []) ∷ (4, selects_for "ada") ∷ [])).entries
        ≡ one ∷ two ∷ [])
run-new_key_pool_example =
    run-new_key_pool "azure" one (two ∷ []) [] 0
      ((3, exhausts (pos 0) "rate_limited" []) ∷ (4, selects_for "ada") ∷ [])

step-Keeps_example : Keeps two_keys (step two_keys (9, selects_for "ada"))
step-Keeps_example = step-Keeps two_keys (9, selects_for "ada") two_keys-IsValid

select_key_for_client-Outcome_example :
    Outcome two_keys "ada" 9 (select_key_for_client two_keys "ada" 9)
select_key_for_client-Outcome_example =
    select_key_for_client-Outcome two_keys "ada" 9 two_keys-IsValid refl

-- The first of two calls for a new client, which finds no load.
ada_given : select_key_for_client two_keys "ada" 7 ≡ (given_ada, some (one, 0))
unfolding new_pool bind write_binding lookup insert has sub evict_stale_affinity
    select_key_for_client new_client survey inspect is_loaded better token_sum_in_window
    prune_expired_samples drop_expired sum_samples tokens_at score_less assign rotate advance
ada_given = refl

select_key_for_client_repeats_example :
    select_key_for_client given_ada "ada" 9 ≡ (given_ada, some (one, 0))
unfolding new_pool bind write_binding lookup insert has sub evict_stale_affinity
select_key_for_client_repeats_example =
    select_key_for_client_repeats two_keys given_ada "ada" 7 9 one 0 two_keys-IsValid refl ada_given
      refl

select_key_for_client_rebalances_example :
    Weighed ada_bound "ada" (60 * second) (select_key_for_client ada_bound "ada" (60 * second))
unfolding new_pool bind write_binding lookup insert has sub evict_stale_affinity
select_key_for_client_rebalances_example =
    select_key_for_client_rebalances ada_bound "ada" (60 * second) 0 ada_bound-IsValid refl
      ada_Binds.bound_to refl refl

select_key_active_example : NextActive two_keys 9
unfolding new_pool
select_key_active_example = select_key_active two_keys 9 0 (omega arith) refl

select_key_exhausted_example :
    LastResort resting 3 (select_key resting 3).0 (select_key resting 3).1
unfolding new_pool
select_key_exhausted_example = select_key_exhausted resting 3 (λ j _. resting_idle j)

select_key_recovers_example :
    (s : Bytes × ℕ) × ((select_key resting 8).1 ≡ some s)
    × (usable_at (select_key resting 8).0.entries s.1 ≡ true)
unfolding new_pool
select_key_recovers_example =
    select_key_recovers resting 8 1 (resting_entry two) (λ i _. resting_idle i) refl refl
      (omega arith)

select_next_active_key_active_example : NextAfter two_keys 1 9
unfolding new_pool
select_next_active_key_active_example =
    select_next_active_key_active two_keys 1 9 1 (omega arith) refl

bind-Binds_example : Binds 2 two_keys "ada" 1 9 (bind two_keys "ada" 1 9)
unfolding new_pool
bind-Binds_example =
    bind-Binds 2 two_keys "ada" 1 9 two_keys-IsValid.bound two_keys-IsValid.room
      two_keys-IsValid.within (omega arith) refl

best_active_key-Finds_example : Finds two_keys 9 2 (best_active_key two_keys 9)
unfolding new_pool
best_active_key-Finds_example = best_active_key-Finds two_keys 9

mark_exhausted-lasts_example :
    let q = mark_exhausted_with_error two_keys (pos 0) "rate_limited" [] 9 in
    Exhausts two_keys 0 9 q × (mark_exhausted_with_error q (pos 0) "quota_exceeded" one 12 ≡ q)
unfolding new_pool
mark_exhausted-lasts_example =
    mark_exhausted-lasts two_keys 0 "rate_limited" "quota_exceeded" [] one 9 12 (omega arith) refl
      (omega arith)

abbrev crowded : KeyPool
crowded = record ada_bound { max_affinity_entries = 1 }

evict_stale_affinity-room_example :
    Trims 2 crowded (evict_stale_affinity crowded 9)
    × (length (evict_stale_affinity crowded 9).client_affinity < 1)
evict_stale_affinity-room_example =
    evict_stale_affinity-room 2 crowded 9 ada_Binds.trims.bound (omega arith)

abbrev loaded : KeyPool
loaded = step two_keys (8, acquires (pos 0))

loaded-IsValid : IsValid loaded
loaded-IsValid = (step-Keeps two_keys (8, acquires (pos 0)) two_keys-IsValid).valid

select_key_for_client_weighs_example : Weighed loaded "ada" 9 (select_key_for_client loaded "ada" 9)
unfolding new_pool step acquire_in_flight settle has_load lookup add_int64
select_key_for_client_weighs_example =
    select_key_for_client_weighs loaded "ada" 9 0 loaded-IsValid refl refl (omega arith) refl refl

next_monthly_reset-after_example : 738944 * day < next_monthly_reset (738944 * day) 31
next_monthly_reset-after_example = next_monthly_reset-after (738944 * day) 31 (omega arith)
