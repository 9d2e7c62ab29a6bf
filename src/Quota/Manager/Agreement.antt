-- ===== src/Quota/Manager/Agreement.antt =====
-- internal/quota/manager.go: when the exceeded map and the counters agree.
use llms_proxy.Base.{
  ◌≡◌, refl, sym, ap, ◌∙◌, Bool, true, false, ◌&&◌, String, Option, none, some, List, [], ◌∷◌,
  arith, if◌then◌else◌,
}
use text.Mathlib.TextPositions.{eq_refl}
use llms_proxy.Base.Maps.{Map, lookup, insert, delete, lookup-insert, lookup-delete}
use llms_proxy.Base.Text.{Bytes}
use llms_proxy.Base.Time.{Time}
use llms_proxy.Quota.Money.{
  Money, Client, Totals, Fetch, absent, failed, fetched, Stores, compute_cost,
}
use llms_proxy.Quota.Manager.{
  dimensions, ExceededInfo, DimCounter, Manager, find_client, has_no_quota, is_over, first_over,
  first_exceeded, clear, set_exceeded, stored_counters, install, evaluate_with, or_config,
  evaluate_client, evaluate, all_under, info_of, keep_exceeded, after_charge, charge, ensure,
  bump_all, increment_usd, increment,
}

module _ (M : Money) where
  open M use {Usd, zero_usd, add, le, lt}

  -- What the counters of a client say: none over its limit, or the first that is.
  abbrev pub verdict : Option (Map (DimCounter M)) → Option (ExceededInfo M)
  verdict none = none
  verdict (some dims) = first_exceeded M dims

  -- The exceeded map has the verdict of the client's counters.
  abbrev pub Agrees : String → Manager M → Type 0
  Agrees name m = lookup name m.exceeded ≡ verdict (lookup name m.counters)

  -- `allUnderLimit` and the first dimension over its limit say the same.
  abbrev Tells : Bool → Option (ExceededInfo M) → Type 0
  Tells under first =
      (under ≡ true → first ≡ none) × (under ≡ false → (i : ExceededInfo M) × (first ≡ some i))

  dimension-Tells :
      (a b under : Bool) (i : ExceededInfo M) (first : Option (ExceededInfo M))
      → Tells under first
      → Tells (if b && a then false else under) (if a && b then some i else first)
  dimension-Tells true true under i first t = (λ h. cc, λ h. (i, refl))
  dimension-Tells true false under i first t = t
  dimension-Tells false true under i first t = t
  dimension-Tells false false under i first t = t

  lookup-Tells :
      (o : Option (DimCounter M)) (d : String) (under : Bool) (first : Option (ExceededInfo M))
      → Tells under first
      → Tells
          (elim o [
            | none ↦ under
            | some c ↦ if le c.limit c.used && lt zero_usd c.limit then false else under
          ])
          (elim o [ none ↦ first | some c ↦ if is_over M c then some (info_of M d c) else first ])
  lookup-Tells none d under first t = t
  lookup-Tells (some c) d under first t =
      dimension-Tells (lt zero_usd c.limit) (le c.limit c.used) under (info_of M d c) first t

  all_under-first_over :
      (ds : List String) (dims : Map (DimCounter M))
      → Tells (all_under M ds dims) (first_over M ds dims)
  unfolding all_under first_over
  all_under-first_over [] dims = (λ _. refl, λ h. cc)
  all_under-first_over (d ∷ ds) dims =
      lookup-Tells (lookup d dims) d (all_under M ds dims) (first_over M ds dims)
        (all_under-first_over ds dims)

  lookup-set_exceeded :
      (name : String) (o : Option (ExceededInfo M)) (e : Map (ExceededInfo M))
      → lookup name (set_exceeded M name o e) ≡ o
  lookup-set_exceeded name none e = ground (arith, lookup-delete name name e, eq_refl name)
  lookup-set_exceeded name (some i) e = ground (arith, lookup-insert name name i e, eq_refl name)

  pub lookup-insert_self :
      {V : Type 0} (name : String) (v : V) (e : Map V) → lookup name (insert name v e) ≡ some v
  lookup-insert_self name v e = ground (arith, lookup-insert name name v e, eq_refl name)

  pub lookup-delete_self :
      {V : Type 0} (name : String) (e : Map V) → lookup name (delete name e) ≡ none
  lookup-delete_self name e = ground (arith, lookup-delete name name e, eq_refl name)

  clear-Agrees : (name : String) (m : Manager M) → Agrees name (clear M name m)
  unfolding clear
  clear-Agrees name m =
      lookup-delete_self name m.exceeded ∙ sym (ap verdict (lookup-delete_self name m.counters))

  install-Agrees :
      (name : String) (dims : Map (DimCounter M)) (m : Manager M)
      → Agrees name (install M name dims m)
  unfolding install
  install-Agrees name dims m =
      lookup-set_exceeded name (first_exceeded M dims) m.exceeded
      ∙ sym (ap verdict (lookup-insert_self name dims m.counters))

  pub after_charge-exceeded :
      (name : String) (dims : Map (DimCounter M)) (e : Map (ExceededInfo M))
      → lookup name (
          if all_under M dimensions dims
          then delete name e
          else keep_exceeded M name (first_exceeded M dims) e)
        ≡ first_exceeded M dims
  after_charge-exceeded name dims e =
      go (all_under M dimensions dims) (first_exceeded M dims)
        (all_under-first_over dimensions dims)
    where
      no_info : {i : ExceededInfo M} → none ≡ some i → ⊥
      no_info p = cc

      go :
          (u : Bool) (o : Option (ExceededInfo M))
          → (u ≡ true → o ≡ none) × (u ≡ false → (i : ExceededInfo M) × (o ≡ some i))
          → lookup name (if u then delete name e else keep_exceeded M name o e) ≡ o
      go true o (h, _) = lookup-delete_self name e ∙ sym (h refl)
      go false none (_, h) = absurd (no_info (h refl).1)
      go false (some i) _ = lookup-insert_self name i e

  pub after_charge-Agrees :
      (name : String) (dims : Map (DimCounter M)) (m : Manager M)
      → Agrees name (after_charge M name dims m)
  unfolding after_charge
  after_charge-Agrees name dims m =
      after_charge-exceeded name dims m.exceeded
      ∙ sym (ap verdict (lookup-insert_self name dims m.counters))

  evaluate_client-Agrees :
      (s : Stores M) (sum : String → Time → Time → Option (List (Bytes × Totals)))
      (clients : List (Client M)) (name : String) (now : Time) (m : Manager M)
      → Agrees name (evaluate_client M s sum clients name now m)
  unfolding evaluate_client
  evaluate_client-Agrees s sum clients name now m = by_client (find_client M name clients)
    where
      by_quota :
          (b : Bool) (dims : Map (DimCounter M))
          → Agrees name (if b then clear M name m else install M name dims m)
      by_quota true dims = clear-Agrees name m
      by_quota false dims = install-Agrees name dims m

      by_client :
          (o : Option (Client M))
          → Agrees name (elim o [
            | none ↦ clear M name m
            | some c ↦
                if has_no_quota M c
                then clear M name m
                else install M name (stored_counters M s sum c now dimensions []) m
          ])
      by_client none = clear-Agrees name m
      by_client (some c) = by_quota (has_no_quota M c) (stored_counters M s sum c now dimensions [])

  -- `Evaluate` keeps the agreement of the exceeded map with the counters.
  pub evaluate-Agrees :
      (s : Stores M) (name : String) (now : Time) (m : Manager M)
      → Agrees name m
      → Agrees name (evaluate M s name now m)
  unfolding evaluate
  evaluate-Agrees s name now m h = by_fetch s.clients s.sums
    where
      by_fetch :
          (a : Fetch (List (Client M)))
          (b : Fetch (String → Time → Time → Option (List (Bytes × Totals))))
          → Agrees name (evaluate_with M s a b name now m)
      by_fetch (fetched clients) (fetched sum) = evaluate_client-Agrees s sum clients name now m
      by_fetch (fetched clients) absent = h
      by_fetch (fetched clients) failed = h
      by_fetch absent b = h
      by_fetch failed b = h

  charge-Agrees :
      (s : Stores M) (name : String) (usd : Usd) (now : Time) (m : Manager M)
      (o : Option (Map (DimCounter M)))
      → Agrees name m
      → Agrees name (charge M s name usd now (m, o))
  unfolding charge
  charge-Agrees s name usd now m none h = h
  charge-Agrees s name usd now m (some dims) h =
      after_charge-Agrees name (bump_all M s name usd now dimensions dims) m

  ensure-Agrees :
      (s : Stores M) (name : String) (now : Time) (m : Manager M)
      → Agrees name m
      → Agrees name (ensure M s name now m).0
  unfolding ensure
  ensure-Agrees s name now m h = by_counters (lookup name (evaluate M s name now m).counters)
    where
      by_counters :
          (o : Option (Map (DimCounter M)))
          → Agrees name (or_config M s name now (evaluate M s name now m) o).0
      by_counters (some dims) = evaluate-Agrees s name now m h
      by_counters none = evaluate-Agrees s name now m h

  increment_usd-Agrees :
      (s : Stores M) (name : String) (usd : Usd) (now : Time) (m : Manager M)
      → Agrees name m
      → Agrees name (increment_usd M s name usd now m)
  unfolding increment_usd
  increment_usd-Agrees s name usd now m h =
      elim (lookup name m.counters)
        as (λ o. Agrees name (elim o [
          | some dims ↦ charge M s name usd now (m, some dims)
          | none ↦ charge M s name usd now (ensure M s name now m)
        ])) [
          | some dims ↦ charge-Agrees s name usd now m (some dims) h
          | none ↦
              charge-Agrees s name usd now (ensure M s name now m).0 (ensure M s name now m).1
                (ensure-Agrees s name now m h)
        ]

  -- `Increment` keeps the agreement of the exceeded map with the counters.
  pub increment-Agrees :
      (s : Stores M) (name : String) (model : Bytes) (tokens : Totals) (now : Time) (m : Manager M)
      → Agrees name m
      → Agrees name (increment M s name model tokens now m)
  unfolding increment
  increment-Agrees s name model tokens now m h =
      by_cost (le (compute_cost M s model tokens) zero_usd)
    where
      by_cost :
          (b : Bool)
          → Agrees name
              (if b then m else increment_usd M s name (compute_cost M s model tokens) now m)
      by_cost true = h
      by_cost false = increment_usd-Agrees s name (compute_cost M s model tokens) now m h
