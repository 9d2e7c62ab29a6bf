-- ===== src/Quota/Manager.antt =====
-- internal/quota/manager.go: the counters and the exceeded map. The lock is held over each change,
-- and a call reads the clock once here. The calibration timer is not modelled: it calls `evaluate`.
pub mod Agreement
pub mod Reopening
pub mod Enforcement
pub mod Charge
pub mod Others
pub mod Status
use llms_proxy.Base.{
  ℕ, Bool, true, false, not, ◌&&◌, ◌||◌, String, str_eq, Option, none, some, List, [], ◌∷◌, ◌==◌,
  if◌then◌else◌,
}
use llms_proxy.Base.Maps.{Map, lookup, insert, delete}
use llms_proxy.Base.Text.{Bytes}
use llms_proxy.Base.Time.{Time, after}
use llms_proxy.Quota.Money.{
  Money, Rates, Client, Totals, Fetch, absent, failed, fetched, Stores, compute_cost, used_of,
}
use llms_proxy.Quota.Period.{daily, weekly, monthly, period_range, next_reset_at}

abbrev pub dimensions : List String
dimensions = daily ∷ weekly ∷ monthly ∷ []

module _ (M : Money) where
  open M use {Usd, zero_usd, add, le, lt}

  pub record ExceededInfo : Type 0 where
    pub dimension : String
    pub limit : Usd
    pub used : Usd
    pub resets_at : Time

  pub record DimCounter : Type 0 where
    pub limit : Usd
    pub used : Usd
    pub resets_at : Time

  pub record Manager : Type 0 where
    pub exceeded : Map ExceededInfo
    pub counters : Map (Map DimCounter)

  -- New
  unfoldable pub new : Manager
  new = record { exceeded = []; counters = [] }

  unfoldable pub find_client : String → List (Client M) → Option (Client M)
  find_client name [] = none
  find_client name (c ∷ cs) = if str_eq c.name name then some c else find_client name cs

  abbrev pub limit_of : Client M → String → Usd → Usd
  limit_of c dimension other =
      if str_eq dimension daily
      then c.quota_daily
      else if str_eq dimension weekly
      then c.quota_weekly
      else if str_eq dimension monthly
      then c.quota_monthly
      else other

  abbrev pub has_no_quota : Client M → Bool
  has_no_quota c =
      le c.quota_daily zero_usd && (le c.quota_weekly zero_usd && le c.quota_monthly zero_usd)

  -- `dc.limit > 0 && dc.used >= dc.limit`
  abbrev pub is_over : DimCounter → Bool
  is_over d = lt zero_usd d.limit && le d.limit d.used

  abbrev pub info_of : String → DimCounter → ExceededInfo
  info_of dimension d = record {
    dimension = dimension;
    limit = d.limit;
    used = d.used;
    resets_at = d.resets_at;
  }

  -- The first dimension of the list that is over its limit.
  unfoldable pub first_over : List String → Map DimCounter → Option ExceededInfo
  first_over [] dims = none
  first_over (dimension ∷ rest) dims =
      let later = first_over rest dims in
      elim (lookup dimension dims) [
        | none ↦ later
        | some d ↦ if is_over d then some (info_of dimension d) else later
      ]

  abbrev pub first_exceeded : Map DimCounter → Option ExceededInfo
  first_exceeded dims = first_over dimensions dims

  unfoldable pub clear : String → Manager → Manager
  clear name m = record { exceeded = delete name m.exceeded; counters = delete name m.counters }

  abbrev pub set_exceeded : String → Option ExceededInfo → Map ExceededInfo → Map ExceededInfo
  set_exceeded name none exceeded = delete name exceeded
  set_exceeded name (some info) exceeded = insert name info exceeded

  -- The counters of one dimension from the store: none without a limit, or if the store fails.
  unfoldable pub stored_counter :
      Stores M
      → (String → Time → Time → Option (List (Bytes × Totals)))
      → String
      → String
      → Usd
      → Time
      → Option DimCounter
  stored_counter s sum name dimension limit now =
      if le limit zero_usd then none else elim (period_range dimension now) [
        | none ↦ none
        | some (from, to) ↦ elim (next_reset_at dimension now) [
          | none ↦ none
          | some resets_at ↦ elim (sum name from to) [
            | none ↦ none
            | some groups ↦ some (record {
              limit = limit;
              used = used_of M s zero_usd groups;
              resets_at = resets_at;
            })
          ]
        ]
      ]

  abbrev pub put : String → Option DimCounter → Map DimCounter → Map DimCounter
  put dimension none dims = dims
  put dimension (some d) dims = insert dimension d dims

  unfoldable pub stored_counters :
      Stores M
      → (String → Time → Time → Option (List (Bytes × Totals)))
      → Client M
      → Time
      → List String
      → Map DimCounter
      → Map DimCounter
  stored_counters s sum c now [] dims = dims
  stored_counters s sum c now (dimension ∷ rest) dims = stored_counters s sum c now rest (
      put dimension (stored_counter s sum c.name dimension (limit_of c dimension zero_usd) now)
        dims)

  unfoldable pub install : String → Map DimCounter → Manager → Manager
  install name dims m = record {
    exceeded = set_exceeded name (first_exceeded dims) m.exceeded;
    counters = insert name dims m.counters;
  }

  unfoldable pub evaluate_client :
      Stores M
      → (String → Time → Time → Option (List (Bytes × Totals)))
      → List (Client M)
      → String
      → Time
      → Manager
      → Manager
  evaluate_client s sum clients name now m = elim (find_client name clients) [
    | none ↦ clear name m
    | some c ↦
        if has_no_quota c
        then clear name m
        else install name (stored_counters s sum c now dimensions []) m
  ]

  abbrev pub evaluate_with :
      Stores M
      → Fetch (List (Client M))
      → Fetch (String → Time → Time → Option (List (Bytes × Totals)))
      → String
      → Time
      → Manager
      → Manager
  evaluate_with s (fetched clients) (fetched sum) name now m =
      evaluate_client s sum clients name now m
  evaluate_with s _ _ name now m = m

  -- Evaluate
  unfoldable pub evaluate : Stores M → String → Time → Manager → Manager
  evaluate s name now m = evaluate_with s s.clients s.sums name now m

  abbrev config_counter : String → Usd → Time → Option DimCounter
  config_counter dimension limit now =
      if le limit zero_usd then none else elim (next_reset_at dimension now) [
        | none ↦ none
        | some resets_at ↦ some (record { limit = limit; used = zero_usd; resets_at = resets_at })
      ]

  unfoldable pub config_counters : Client M → Time → List String → Map DimCounter → Map DimCounter
  config_counters c now [] dims = dims
  config_counters c now (dimension ∷ rest) dims =
      config_counters c now rest
        (put dimension (config_counter dimension (limit_of c dimension zero_usd) now) dims)

  abbrev stored_dims : Map DimCounter → Option (Map DimCounter)
  stored_dims [] = none
  stored_dims (d ∷ dims) = some (d ∷ dims)

  -- loadCountersFromConfigLocked
  unfoldable pub load_counters_from_config : Stores M → String → Time → Option (Map DimCounter)
  load_counters_from_config s name now = elim s.clients [
    | absent ↦ none
    | failed ↦ none
    | fetched clients ↦ elim (find_client name clients) [
      | none ↦ none
      | some c ↦ if has_no_quota c then none else stored_dims (config_counters c now dimensions [])
    ]
  ]

  -- refreshLimitLocked
  unfoldable pub refreshed_limit : Stores M → String → String → Usd → Usd
  refreshed_limit s name dimension limit = elim s.clients [
    | absent ↦ limit
    | failed ↦ limit
    | fetched clients ↦ elim (find_client name clients) [
      | none ↦ limit
      | some c ↦ limit_of c dimension limit
    ]
  ]

  -- One dimension of `Increment`: the lazy flip, then the cost. `none` is the `continue`.
  unfoldable pub bump : Stores M → String → String → Usd → Time → DimCounter → Option DimCounter
  bump s name dimension usd now d =
      if after d.resets_at now
      then some (record d { used = add d.used usd })
      else elim (next_reset_at dimension now) [
        | none ↦ none
        | some resets_at ↦ some (record {
          limit = refreshed_limit s name dimension d.limit;
          used = add zero_usd usd;
          resets_at = resets_at;
        })
      ]

  -- One turn of the loop over the dimensions, on the counter that the dimension has.
  abbrev pub turn_of :
      Stores M → String → Usd → Time → String → Option DimCounter → Map DimCounter → Map DimCounter
  turn_of s name usd now dimension none dims = dims
  turn_of s name usd now dimension (some d) dims =
      put dimension (bump s name dimension usd now d) dims

  unfoldable pub bump_all :
      Stores M → String → Usd → Time → List String → Map DimCounter → Map DimCounter
  bump_all s name usd now [] dims = dims
  bump_all s name usd now (dimension ∷ rest) dims =
      bump_all s name usd now rest (turn_of s name usd now dimension (lookup dimension dims) dims)

  -- What `Increment` goes on with after `Evaluate`: the counters, or those the client's limits give.
  abbrev pub or_config :
      Stores M
      → String
      → Time
      → Manager
      → Option (Map DimCounter)
      → Manager × Option (Map DimCounter)
  or_config s name now m (some dims) = (m, some dims)
  or_config s name now m none = (m, load_counters_from_config s name now)

  -- The counters of a client that has none yet.
  unfoldable pub ensure : Stores M → String → Time → Manager → Manager × Option (Map DimCounter)
  ensure s name now m =
      let m' = evaluate s name now m in or_config s name now m' (lookup name m'.counters)

  -- `allUnderLimit`
  unfoldable pub all_under : List String → Map DimCounter → Bool
  all_under [] dims = true
  all_under (dimension ∷ rest) dims =
      let later = all_under rest dims in
      elim (lookup dimension dims) [
        | none ↦ later
        | some d ↦ if le d.limit d.used && lt zero_usd d.limit then false else later
      ]

  abbrev keep_exceeded : String → Option ExceededInfo → Map ExceededInfo → Map ExceededInfo
  keep_exceeded name none exceeded = exceeded
  keep_exceeded name (some info) exceeded = insert name info exceeded

  unfoldable pub after_charge : String → Map DimCounter → Manager → Manager
  after_charge name dims m = record {
    exceeded =
        if all_under dimensions dims
        then delete name m.exceeded
        else keep_exceeded name (first_exceeded dims) m.exceeded;
    counters = insert name dims m.counters;
  }

  unfoldable pub charge :
      Stores M → String → Usd → Time → Manager × Option (Map DimCounter) → Manager
  charge s name usd now (m, none) = m
  charge s name usd now (m, some dims) =
      after_charge name (bump_all s name usd now dimensions dims) m

  -- Increment, with the cost computed.
  unfoldable pub increment_usd : Stores M → String → Usd → Time → Manager → Manager
  increment_usd s name usd now m = elim (lookup name m.counters) [
    | some dims ↦ charge s name usd now (m, some dims)
    | none ↦ charge s name usd now (ensure s name now m)
  ]

  -- Increment
  unfoldable pub increment : Stores M → String → Bytes → Totals → Time → Manager → Manager
  increment s name model tokens now m =
      let usd = compute_cost M s model tokens in
      if le usd zero_usd then m else increment_usd s name usd now m

  -- The reset of one dimension in `Check`.
  unfoldable pub flip : Stores M → String → ExceededInfo → Time → String → DimCounter → DimCounter
  flip s name info now dimension d =
      if d.resets_at == info.resets_at || not (after d.resets_at now)
      then record {
        limit = refreshed_limit s name dimension d.limit;
        used = zero_usd;
        resets_at = elim (next_reset_at dimension now) [ some t ↦ t | none ↦ d.resets_at ];
      }
      else d

  unfoldable pub flip_all :
      Stores M → String → ExceededInfo → Time → List String → Map DimCounter → Map DimCounter
  flip_all s name info now [] dims = dims
  flip_all s name info now (dimension ∷ rest) dims =
      flip_all s name info now rest (elim (lookup dimension dims) [
        | none ↦ dims
        | some d ↦ insert dimension (flip s name info now dimension d) dims
      ])

  abbrev pub reset_counters :
      Stores M
      → String
      → ExceededInfo
      → Time
      → Option (Map DimCounter)
      → Map (Map DimCounter)
      → Map (Map DimCounter)
  reset_counters s name info now none counters = counters
  reset_counters s name info now (some dims) counters =
      insert name (flip_all s name info now dimensions dims) counters

  -- The lazy flip of `Check`.
  unfoldable pub reopen : Stores M → String → ExceededInfo → Time → Manager → Manager
  reopen s name info now m = record {
    exceeded = delete name m.exceeded;
    counters = reset_counters s name info now (lookup name m.counters) m.counters;
  }

  abbrev pub check_entry :
      Stores M → String → Time → Manager → Option ExceededInfo → Manager × Option ExceededInfo
  check_entry s name now m none = (m, none)
  check_entry s name now m (some info) =
      if after info.resets_at now then (m, some info) else (reopen s name info now m, none)

  -- Check
  unfoldable pub check : Stores M → String → Time → Manager → Manager × Option ExceededInfo
  check s name now m = check_entry s name now m (lookup name m.exceeded)
