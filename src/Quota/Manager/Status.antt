-- ===== src/Quota/Manager/Status.antt =====
-- internal/quota/manager.go, Status: the report of one client's budget. It ends with a call of `Check`,
-- which may change the manager.
use llms_proxy.Base.{
  ◌≡◌, refl, ap, ◌∙◌, Bool, true, false, String, str_eq, Option, none, some, List, [], ◌∷◌,
  if◌then◌else◌,
}
use llms_proxy.Base.Maps.{Map, lookup, insert}
use llms_proxy.Base.Text.{Bytes}
use llms_proxy.Base.Time.{Time, after}
use llms_proxy.Quota.Money.{Money, Client, Totals, Fetch, fetched, Stores, used_of, compute_cost}
use llms_proxy.Quota.Period.{period_range, next_reset_at}
use llms_proxy.Quota.Manager.{
  dimensions, ExceededInfo, DimCounter, Manager, find_client, limit_of, check, after_charge,
  bump_all, increment,
}
use llms_proxy.Quota.Period.Laws.{IsDimension}
use llms_proxy.Quota.Manager.Agreement.{lookup-insert_self}
use llms_proxy.Quota.Manager.Charge.{bump_all-charges}
use llms_proxy.Quota.Manager.Enforcement.{increment-counters}

module _ (M : Money) where
  open M use {Usd, zero_usd, add, le}

  pub record QuotaUsage : Type 0 where
    pub limit : Usd
    pub used : Usd
    pub resets_at : Time

  pub record QuotaStatus : Type 0 where
    pub client : String
    pub quotas : Map QuotaUsage
    pub exceeded : Option (ExceededInfo M)

  abbrev pub usage_of_counter : DimCounter M → QuotaUsage
  usage_of_counter d = record { limit = d.limit; used = d.used; resets_at = d.resets_at }

  -- The fast path: a copy of the counters.
  unfoldable pub counter_usages : Map (DimCounter M) → Map QuotaUsage
  counter_usages [] = []
  counter_usages ((d, c) ∷ dims) = (d, usage_of_counter c) ∷ counter_usages dims

  abbrev pub used_in_range :
      Stores M
      → Fetch (String → Time → Time → Option (List (Bytes × Totals)))
      → String
      → Option (Time × Time)
      → Usd
  used_in_range s (fetched sum) name (some (from, to)) = elim (sum name from to) [
    | some groups ↦ used_of M s zero_usd groups
    | none ↦ zero_usd
  ]
  used_in_range s _ name _ = zero_usd

  -- One dimension of the slow path, from the store.
  unfoldable pub stored_usage : Stores M → Client M → Time → String → QuotaUsage
  stored_usage s c now dimension = record {
    limit = limit_of M c dimension zero_usd;
    used = used_in_range s s.sums c.name (period_range dimension now);
    resets_at = elim (next_reset_at dimension now) [ some t ↦ t | none ↦ 0 ];
  }

  unfoldable pub stored_usages :
      Stores M → Client M → Time → List String → Map QuotaUsage → Map QuotaUsage
  stored_usages s c now [] quotas = quotas
  stored_usages s c now (d ∷ ds) quotas = stored_usages s c now ds (
      if le (limit_of M c d zero_usd) zero_usd
      then quotas
      else insert d (stored_usage s c now d) quotas)

  -- The slow path returns before the call of `Check` if the client is not to be had.
  abbrev pub slow_status :
      Stores M → String → Time → Manager M → Fetch (List (Client M)) → Manager M × QuotaStatus
  slow_status s name now m (fetched clients) = elim (find_client M name clients) [
    | none ↦ (m, record { client = name; quotas = []; exceeded = none })
    | some c ↦ (
      (check M s name now m).0,
      record {
        client = name;
        quotas = stored_usages s c now dimensions [];
        exceeded = (check M s name now m).1;
      },
    )
  ]
  slow_status s name now m _ = (m, record { client = name; quotas = []; exceeded = none })

  abbrev pub status_of :
      Stores M → String → Time → Manager M → Option (Map (DimCounter M)) → Manager M × QuotaStatus
  status_of s name now m none = slow_status s name now m s.clients
  status_of s name now m (some dims) = (
    (check M s name now m).0,
    record { client = name; quotas = counter_usages dims; exceeded = (check M s name now m).1 },
  )

  -- Status
  unfoldable pub status : Stores M → String → Time → Manager M → Manager M × QuotaStatus
  status s name now m = status_of s name now m (lookup name m.counters)

  abbrev pub maybe_usage : Option (DimCounter M) → Option QuotaUsage
  maybe_usage none = none
  maybe_usage (some c) = some (usage_of_counter c)

  lookup-counter_usages :
      (d : String) (dims : Map (DimCounter M))
      → lookup d (counter_usages dims) ≡ maybe_usage (lookup d dims)
  unfolding lookup counter_usages
  lookup-counter_usages d [] = refl
  lookup-counter_usages d ((j, c) ∷ dims) = by_key (str_eq j d) (lookup-counter_usages d dims)
    where
      by_key :
          (b : Bool)
          → lookup d (counter_usages dims) ≡ maybe_usage (lookup d dims)
          → (if b then some (usage_of_counter c) else lookup d (counter_usages dims))
            ≡ maybe_usage (if b then some c else lookup d dims)
      by_key true h = refl
      by_key false h = h

  -- What a report shows of a client whose counters are known.
  pub record Reports (s : Stores M) (name : String) (now : Time) (m : Manager M)
      (dims : Map (DimCounter M)) : Type 0 where
    pub usage : (d : String) → lookup d (status s name now m).1.quotas ≡ maybe_usage (lookup d dims)
    pub same_answer : (status s name now m).1.exceeded ≡ (check M s name now m).1
    pub same_manager : (status s name now m).0 ≡ (check M s name now m).0

  status-known :
      (s : Stores M) (name : String) (now : Time) (m : Manager M) (dims : Map (DimCounter M))
      → lookup name m.counters ≡ some dims
      → status s name now m ≡ status_of s name now m (some dims)
  unfolding status
  status-known s name now m dims known = ap (status_of s name now m) known

  status-Reports :
      (s : Stores M) (name : String) (now : Time) (m : Manager M) (dims : Map (DimCounter M))
      → lookup name m.counters ≡ some dims
      → Reports s name now m dims
  status-Reports s name now m dims known = record {
    usage = λ d.
        ap (λ r. lookup d r.1.quotas) (status-known s name now m dims known)
        ∙ lookup-counter_usages d dims;
    same_answer = ap (λ r. r.1.exceeded) (status-known s name now m dims known);
    same_manager = ap (λ r. r.0) (status-known s name now m dims known);
  }

  after_charge-counters :
      (name : String) (dims : Map (DimCounter M)) (m : Manager M)
      → lookup name (after_charge M name dims m).counters ≡ some dims
  unfolding after_charge
  after_charge-counters name dims m = lookup-insert_self M name dims m.counters

  -- What `Status` shows of a dimension, and how it answers.
  abbrev pub Shows : Stores M → String → String → Time → Manager M → Usd → Usd → Time → Type 0
  Shows s name d now m limit used resets_at =
      (u : QuotaUsage) × (lookup d (status s name now m).1.quotas ≡ some u)
      × (u.limit ≡ limit)
      × (u.used ≡ used)
      × (u.resets_at ≡ resets_at)
      × ((status s name now m).1.exceeded ≡ (check M s name now m).1)
      × ((status s name now m).0 ≡ (check M s name now m).0)

  -- After the charge of a request that costs money `Status` shows, in each dimension of a client with
  -- counters whose reset was ahead at the charge, the limit and the reset as they were and the use
  -- with the cost added once; and it answers and changes the manager as `Check` does.
  pub status-increment :
      (s : Stores M) (name d : String) (model : Bytes) (tokens : Totals) (now later : Time)
      (m : Manager M) (dims : Map (DimCounter M)) (c : DimCounter M)
      → IsDimension d
      → lookup name m.counters ≡ some dims
      → le (compute_cost M s model tokens) zero_usd ≡ false
      → lookup d dims ≡ some c
      → after c.resets_at now ≡ true
      → Shows s name d later
          (increment M s name model tokens now m)
          c.limit
          (add c.used (compute_cost M s model tokens))
          c.resets_at
  status-increment s name d model tokens now later m dims c is known paid there ahead = (
    usage_of_counter (record c { used = add c.used usd }),
    reported.usage d
        ∙ ap maybe_usage ((bump_all-charges M s name usd now d dims c is there).0 ahead),
    refl,
    refl,
    refl,
    reported.same_answer,
    reported.same_manager,
  )
    where
      usd : Usd
      usd = compute_cost M s model tokens

      charged : Map (DimCounter M)
      charged = bump_all M s name usd now dimensions dims

      paid_for : increment M s name model tokens now m ≡ after_charge M name charged m
      paid_for = increment-counters M s name model tokens now m dims known paid

      reported : Reports s name later (increment M s name model tokens now m) charged
      reported = status-Reports s name later (increment M s name model tokens now m) charged (
          ap (λ (q : Manager M). lookup name q.counters) paid_for
          ∙ after_charge-counters name charged m)
