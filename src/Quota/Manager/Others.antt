-- ===== src/Quota/Manager/Others.antt =====
-- internal/quota/manager.go: what a call for one client does to another.
use llms_proxy.Base.{
  ◌≡◌, refl, ◌∙◌, Bool, true, false, String, str_eq, Option, none, some, List, [], if◌then◌else◌,
}
use llms_proxy.Base.Maps.{Map, lookup, insert, delete, lookup-insert, lookup-delete}
use llms_proxy.Base.Text.{Bytes}
use llms_proxy.Base.Time.{Time, after}
use llms_proxy.Quota.Money.{
  Money, Client, Totals, Fetch, absent, failed, fetched, Stores, compute_cost,
}
use llms_proxy.Quota.Manager.{
  dimensions, ExceededInfo, DimCounter, Manager, find_client, has_no_quota, first_exceeded, clear,
  set_exceeded, stored_counters, install, evaluate_client, evaluate_with, evaluate, or_config,
  ensure, bump_all, all_under, keep_exceeded, after_charge, charge, increment_usd, increment,
  flip_all, reset_counters, reopen, check_entry, check,
}

module _ (M : Money) (name other : String) (distinct : str_eq name other ≡ false) where
  open M use {Usd, zero_usd, le}

  -- The other client is as it was.
  pub record Untouched (m q : Manager M) : Type 0 where
    pub same_exceeded : lookup other q.exceeded ≡ lookup other m.exceeded
    pub same_counters : lookup other q.counters ≡ lookup other m.counters

  same : (m : Manager M) → Untouched m m
  same m = record { same_exceeded = refl; same_counters = refl }

  then_ : {m q r : Manager M} → Untouched m q → Untouched q r → Untouched m r
  then_ a b = record {
    same_exceeded = b.same_exceeded ∙ a.same_exceeded;
    same_counters = b.same_counters ∙ a.same_counters;
  }

  inserts : {V : Type 0} (v : V) (e : Map V) → lookup other (insert name v e) ≡ lookup other e
  inserts v e = lookup-insert name other v e ∙ simp distinct refl

  deletes : {V : Type 0} (e : Map V) → lookup other (delete name e) ≡ lookup other e
  deletes e = lookup-delete name other e ∙ simp distinct refl

  sets :
      (o : Option (ExceededInfo M)) (e : Map (ExceededInfo M))
      → lookup other (set_exceeded M name o e) ≡ lookup other e
  sets none e = deletes e
  sets (some i) e = inserts i e

  after_charge-Untouched :
      (dims : Map (DimCounter M)) (m : Manager M) → Untouched m (after_charge M name dims m)
  unfolding after_charge
  after_charge-Untouched dims m = record {
    same_exceeded = by_verdict (all_under M dimensions dims) (first_exceeded M dims);
    same_counters = inserts dims m.counters;
  }
    where
      by_verdict :
          (b : Bool) (o : Option (ExceededInfo M))
          → lookup other (if b then delete name m.exceeded else keep_exceeded M name o m.exceeded)
            ≡ lookup other m.exceeded
      by_verdict true o = deletes m.exceeded
      by_verdict false none = refl
      by_verdict false (some i) = inserts i m.exceeded

  clear-Untouched : (m : Manager M) → Untouched m (clear M name m)
  unfolding clear
  clear-Untouched m = record {
    same_exceeded = deletes m.exceeded;
    same_counters = deletes m.counters;
  }

  install-Untouched :
      (dims : Map (DimCounter M)) (m : Manager M) → Untouched m (install M name dims m)
  unfolding install
  install-Untouched dims m = record {
    same_exceeded = sets (first_exceeded M dims) m.exceeded;
    same_counters = inserts dims m.counters;
  }

  evaluate_client-Untouched :
      (s : Stores M) (sum : String → Time → Time → Option (List (Bytes × Totals)))
      (clients : List (Client M)) (now : Time) (m : Manager M)
      → Untouched m (evaluate_client M s sum clients name now m)
  unfolding evaluate_client
  evaluate_client-Untouched s sum clients now m = by_client (find_client M name clients)
    where
      by_quota :
          (b : Bool) (dims : Map (DimCounter M))
          → Untouched m (if b then clear M name m else install M name dims m)
      by_quota true dims = clear-Untouched m
      by_quota false dims = install-Untouched dims m

      by_client :
          (o : Option (Client M))
          → Untouched m (elim o [
            | none ↦ clear M name m
            | some c ↦
                if has_no_quota M c
                then clear M name m
                else install M name (stored_counters M s sum c now dimensions []) m
          ])
      by_client none = clear-Untouched m
      by_client (some c) = by_quota (has_no_quota M c) (stored_counters M s sum c now dimensions [])

  -- `Evaluate` for one client leaves the counters and the entry of another as they were.
  pub evaluate-Untouched :
      (s : Stores M) (now : Time) (m : Manager M) → Untouched m (evaluate M s name now m)
  unfolding evaluate
  evaluate-Untouched s now m = by_fetch s.clients s.sums
    where
      by_fetch :
          (a : Fetch (List (Client M)))
          (b : Fetch (String → Time → Time → Option (List (Bytes × Totals))))
          → Untouched m (evaluate_with M s a b name now m)
      by_fetch (fetched clients) (fetched sum) = evaluate_client-Untouched s sum clients now m
      by_fetch (fetched clients) absent = same m
      by_fetch (fetched clients) failed = same m
      by_fetch absent b = same m
      by_fetch failed b = same m

  charge-Untouched :
      (s : Stores M) (usd : Usd) (now : Time) (m : Manager M) (o : Option (Map (DimCounter M)))
      → Untouched m (charge M s name usd now (m, o))
  unfolding charge
  charge-Untouched s usd now m none = same m
  charge-Untouched s usd now m (some dims) =
      after_charge-Untouched (bump_all M s name usd now dimensions dims) m

  ensure-Untouched :
      (s : Stores M) (now : Time) (m : Manager M) → Untouched m (ensure M s name now m).0
  unfolding ensure
  ensure-Untouched s now m = by_counters (lookup name (evaluate M s name now m).counters)
    where
      by_counters :
          (o : Option (Map (DimCounter M)))
          → Untouched m (or_config M s name now (evaluate M s name now m) o).0
      by_counters (some dims) = evaluate-Untouched s now m
      by_counters none = evaluate-Untouched s now m

  increment_usd-Untouched :
      (s : Stores M) (usd : Usd) (now : Time) (m : Manager M)
      → Untouched m (increment_usd M s name usd now m)
  unfolding increment_usd
  increment_usd-Untouched s usd now m =
      elim (lookup name m.counters)
        as (λ o. Untouched m (elim o [
          | some dims ↦ charge M s name usd now (m, some dims)
          | none ↦ charge M s name usd now (ensure M s name now m)
        ])) [
          | some dims ↦ charge-Untouched s usd now m (some dims)
          | none ↦
              then_ (ensure-Untouched s now m)
                (charge-Untouched s usd now (ensure M s name now m).0 (ensure M s name now m).1)
        ]

  -- `Increment` for one client leaves the counters and the entry of another as they were.
  pub increment-Untouched :
      (s : Stores M) (model : Bytes) (tokens : Totals) (now : Time) (m : Manager M)
      → Untouched m (increment M s name model tokens now m)
  unfolding increment
  increment-Untouched s model tokens now m = by_cost (le (compute_cost M s model tokens) zero_usd)
    where
      by_cost :
          (b : Bool)
          → Untouched m
              (if b then m else increment_usd M s name (compute_cost M s model tokens) now m)
      by_cost true = same m
      by_cost false = increment_usd-Untouched s (compute_cost M s model tokens) now m

  reopen-Untouched :
      (s : Stores M) (info : ExceededInfo M) (now : Time) (m : Manager M)
      → Untouched m (reopen M s name info now m)
  unfolding reopen
  reopen-Untouched s info now m = record {
    same_exceeded = deletes m.exceeded;
    same_counters = resets (lookup name m.counters);
  }
    where
      resets :
          (o : Option (Map (DimCounter M)))
          → lookup other (reset_counters M s name info now o m.counters) ≡ lookup other m.counters
      resets none = refl
      resets (some dims) = inserts (flip_all M s name info now dimensions dims) m.counters

  -- `Check` for one client leaves the counters and the entry of another as they were.
  pub check-Untouched :
      (s : Stores M) (now : Time) (m : Manager M) → Untouched m (check M s name now m).0
  unfolding check
  check-Untouched s now m = by_entry (lookup name m.exceeded)
    where
      by_time :
          (info : ExceededInfo M) (b : Bool)
          → Untouched m
              (if◌then◌else◌ {A = Manager M × Option (ExceededInfo M)} b
                (m, some info)
                (reopen M s name info now m, none)).0
      by_time info true = same m
      by_time info false = reopen-Untouched s info now m

      by_entry : (e : Option (ExceededInfo M)) → Untouched m (check_entry M s name now m e).0
      by_entry none = same m
      by_entry (some info) = by_time info (after info.resets_at now)

  -- `Increment`, `Check` and `Evaluate` for one client leave the counters and the entry of another as
  -- they were.
  pub calls-Untouched :
      (s : Stores M) (model : Bytes) (tokens : Totals) (now : Time) (m : Manager M)
      → Untouched m (increment M s name model tokens now m)
        × Untouched m (check M s name now m).0
        × Untouched m (evaluate M s name now m)
  calls-Untouched s model tokens now m = (
    increment-Untouched s model tokens now m,
    check-Untouched s now m,
    evaluate-Untouched s now m,
  )
