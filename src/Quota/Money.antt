-- ===== src/Quota/Money.antt =====
-- The amounts of internal/quota, and what the manager reads from the other parts. Go's float64 is
-- the interface `Money`: the operations that the code uses, with no law but those a theorem names.
use llms_proxy.Base.{Bool, String, Option, none, some, List, [], ◌∷◌, map, ◌==◌, if◌then◌else◌}
use llms_proxy.Base.Int.{ℤ}
use llms_proxy.Base.Text.{Bytes, is_empty, trim_space, to_lower}
use llms_proxy.Base.Time.{Time}

-- `le a b` is `a <= b`, `lt a b` is `a < b`, and `priced n rate` is `float64(n)/1e6*rate`.
pub record Money : Type 1 where
  pub Usd : Type 0
  pub zero_usd : Usd
  pub add : Usd → Usd → Usd
  pub le : Usd → Usd → Bool
  pub lt : Usd → Usd → Bool
  pub priced : ℤ → Usd → Usd

module _ (M : Money) where
  open M use {Usd, zero_usd, add, le, lt, priced}

  -- usage.CostRates
  pub record Rates : Type 0 where
    pub input : Usd
    pub output : Usd
    pub cached_input : Usd
    pub cache_read : Usd

  -- config.Client, as far as the manager reads it.
  pub record Client : Type 0 where
    pub name : String
    pub quota_daily : Usd
    pub quota_weekly : Usd
    pub quota_monthly : Usd

-- nosql.UsageTotals
pub record Totals : Type 0 where
  pub input : ℤ
  pub output : ℤ
  pub cached : ℤ
  pub cache_creation : ℤ

-- A call of a store: there is no store, the call fails, or it returns.
pub data Fetch {ℓ} (A : Type ℓ) : Type ℓ where
  absent failed : Fetch A
  fetched : A → Fetch A

-- What the stores answer at the time of a call: ClientStore.List, UsageStore.SumByClientRange with
-- its groups "<endpoint_type>:<model>", and CostTable.LookupCost of the table that
-- costutil.ToCostTable builds.
pub record Stores (M : Money) : Type 0 where
  pub clients : Fetch (List (Client M))
  pub sums : Fetch (String → Time → Time → Option (List (Bytes × Totals)))
  pub rates : Bytes → Option (Rates M)

-- `strings.ToLower(strings.TrimSpace(model))`, for names whose letters are ASCII.
unfoldable pub normal_model : Bytes → Bytes
normal_model s = map to_lower (trim_space s)

-- What follows the first colon, if there is one.
unfoldable pub after_colon : Bytes → Option Bytes
after_colon [] = none
after_colon (c ∷ s) = let rest = after_colon s in if c == b':' then some s else rest

module _ (M : Money) where
  open M use {Usd, zero_usd, add, le, lt, priced}

  unfoldable pub cost : Rates M → Totals → Usd
  cost r t =
      add
        (add (add (priced t.input r.input) (priced t.output r.output))
          (priced t.cache_creation r.cached_input))
        (priced t.cached r.cache_read)

  -- computeCost
  unfoldable pub compute_cost : Stores M → Bytes → Totals → Usd
  unfolding cost
  compute_cost s model t =
      let name = normal_model model in
      if is_empty name
      then zero_usd
      else elim (s.rates name) [ none ↦ zero_usd | some r ↦ cost r t ]

  abbrev model_of : Bytes → Bytes
  model_of group = elim (after_colon group) [ some m ↦ m | none ↦ group ]

  unfoldable pub add_group : Usd → Option (Rates M) → Totals → Usd
  unfolding cost
  add_group used none t = used
  add_group used (some r) t = add used (cost r t)

  -- The loop of `Evaluate` over the groups of one client and period.
  unfoldable pub used_of : Stores M → Usd → List (Bytes × Totals) → Usd
  used_of s used [] = used
  used_of s used ((group, t) ∷ rest) = used_of s (add_group used (s.rates (model_of group)) t) rest
