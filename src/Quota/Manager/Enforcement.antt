-- ===== src/Quota/Manager/Enforcement.antt =====
-- What `Check` answers for a client (internal/quota/manager.go), alone and after `Increment`.
use llms_proxy.Base.{
  ◌≡◌, refl, sym, ap, subst, ◌∙◌, Bool, true, false, String, Option, none, some, if◌then◌else◌,
}
use llms_proxy.Base.Maps.{Map, lookup}
use llms_proxy.Base.Text.{Bytes}
use llms_proxy.Base.Time.{Time, after}
use llms_proxy.Quota.Period.Laws.{IsDimension}
use llms_proxy.Quota.Money.{Money, Totals, Stores, compute_cost}
use llms_proxy.Quota.Manager.{
  dimensions, ExceededInfo, DimCounter, Manager, first_exceeded, after_charge, charge, bump_all,
  increment_usd, increment, flip_all, reset_counters, reopen, check_entry, check,
}
use llms_proxy.Quota.Manager.Reopening.{Turned, flip_all-Turned}
use llms_proxy.Quota.Manager.Agreement.{
  verdict, Agrees, after_charge-exceeded, lookup-insert_self, lookup-delete_self,
}

module _ (M : Money) where
  open M use {zero_usd, le}

  -- `Check` lets the client in and takes the entry away: its reset is over. Of the counters each whose
  -- reset is over starts anew, and the others stay.
  pub record Reopened (s : Stores M) (name : String) (now : Time) (m : Manager M)
      (info : ExceededInfo M) : Type 0 where
    pub lets_in : (check M s name now m).1 ≡ none
    pub forgets : lookup name (check M s name now m).0.exceeded ≡ none
    pub resets :
        (dims : Map (DimCounter M))
        → lookup name m.counters ≡ some dims
        → (dims' : Map (DimCounter M)) × (lookup name (check M s name now m).0.counters
            ≡ some dims')
          × ((d : String) (c : DimCounter M)
              → IsDimension d
              → lookup d dims ≡ some c
              → Turned M s name info now d c dims')

  -- The answer of `Check`, by what the counters of the client say.
  abbrev pub Answers : Stores M → String → Time → Manager M → Option (ExceededInfo M) → Type 0
  Answers s name now m none = check M s name now m ≡ (m, none)
  Answers s name now m (some info) =
      (after info.resets_at now ≡ true → check M s name now m ≡ (m, some info))
      × (after info.resets_at now ≡ false → Reopened s name now m info)

  reopen-counters :
      (s : Stores M) (name : String) (info : ExceededInfo M) (now : Time) (m : Manager M)
      (dims : Map (DimCounter M))
      → lookup name m.counters ≡ some dims
      → lookup name (reopen M s name info now m).counters
        ≡ some (flip_all M s name info now dimensions dims)
  unfolding reopen
  reopen-counters s name info now m dims known =
      ap (λ o. lookup name (reset_counters M s name info now o m.counters)) known
      ∙ lookup-insert_self M name (flip_all M s name info now dimensions dims) m.counters

  reopen-exceeded :
      (s : Stores M) (name : String) (info : ExceededInfo M) (now : Time) (m : Manager M)
      → lookup name (reopen M s name info now m).exceeded ≡ none
  unfolding reopen
  reopen-exceeded s name info now m = lookup-delete_self M name m.exceeded

  check-Reopened :
      (s : Stores M) (name : String) (now : Time) (m : Manager M) (info : ExceededInfo M)
      → after info.resets_at now ≡ false
      → check M s name now m ≡ (reopen M s name info now m, none)
      → Reopened s name now m info
  check-Reopened s name now m info over e = record {
    lets_in = ap (λ r. r.1) e;
    forgets = ap (λ r. lookup name r.0.exceeded) e ∙ reopen-exceeded s name info now m;
    resets = λ dims known. (
      flip_all M s name info now dimensions dims,
      ap (λ r. lookup name r.0.counters) e ∙ reopen-counters s name info now m dims known,
      λ d c is there. flip_all-Turned M s name info now d dims c is over there,
    );
  }

  check-by_entry :
      (s : Stores M) (name : String) (now : Time) (m : Manager M) (o : Option (ExceededInfo M))
      → check M s name now m ≡ check_entry M s name now m o
      → Answers s name now m o
  check-by_entry s name now m none e = e
  check-by_entry s name now m (some info) e =
      (λ ahead. e ∙ answer ahead, λ over. check-Reopened s name now m info over (e ∙ answer over))
    where
      answer :
          {b : Bool}
          → after info.resets_at now ≡ b
          → check_entry M s name now m (some info)
            ≡ (if b then (m, some info) else (reopen M s name info now m, none))
      answer h = ap (λ b. if b then (m, some info) else (reopen M s name info now m, none)) h

  check-recorded :
      (s : Stores M) (name : String) (now : Time) (m : Manager M)
      → Answers s name now m (lookup name m.exceeded)
  unfolding check
  check-recorded s name now m = check-by_entry s name now m (lookup name m.exceeded) refl

  -- While the exceeded map agrees with the counters, `Check` lets a client in that has no dimension over
  -- its limit and changes nothing. It refuses one that has until the reset of the first such
  -- dimension, with that dimension. From then on it lets the client in and forgets the entry, even
  -- if a later dimension is over its limit; and of the counters it starts each anew whose reset is
  -- over, at zero, with the limit that the client has now and the next reset, and keeps the others.
  pub check-Answers :
      (s : Stores M) (name : String) (now : Time) (m : Manager M)
      → Agrees M name m
      → Answers s name now m (verdict M (lookup name m.counters))
  check-Answers s name now m h = subst (Answers s name now m) h (check-recorded s name now m)

  increment_usd-counters :
      (s : Stores M) (name : String) (usd : M.Usd) (now : Time) (m : Manager M)
      (o : Option (Map (DimCounter M)))
      → lookup name m.counters ≡ o
      → (dims : Map (DimCounter M)) → o ≡ some dims
      → increment_usd M s name usd now m
        ≡ after_charge M name (bump_all M s name usd now dimensions dims) m
  unfolding increment_usd charge
  increment_usd-counters s name usd now m o e dims known = rw (e ∙ known, increment_usd) refl

  pub increment-counters :
      (s : Stores M) (name : String) (model : Bytes) (tokens : Totals) (now : Time) (m : Manager M)
      (dims : Map (DimCounter M))
      → lookup name m.counters ≡ some dims
      → le (compute_cost M s model tokens) zero_usd ≡ false
      → increment M s name model tokens now m
        ≡ after_charge M name
            (bump_all M s name (compute_cost M s model tokens) now dimensions dims)
            m
  unfolding increment
  increment-counters s name model tokens now m dims known paid = rw paid (
      increment_usd-counters s name (compute_cost M s model tokens) now m (some dims) known dims
        refl)

  -- If the charge of a request that costs money puts a dimension of a client with counters over
  -- its limit, `Check` after `Increment` refuses the client with the first such dimension, as
  -- long as the reset of that one is ahead, and changes nothing.
  pub increment-check :
      (s : Stores M) (name : String) (model : Bytes) (tokens : Totals) (now later : Time)
      (m : Manager M) (dims : Map (DimCounter M)) (info : ExceededInfo M)
      → lookup name m.counters ≡ some dims
      → le (compute_cost M s model tokens) zero_usd ≡ false
      → first_exceeded M (bump_all M s name (compute_cost M s model tokens) now dimensions dims)
        ≡ some info
      → after info.resets_at later ≡ true
      → check M s name later (increment M s name model tokens now m)
        ≡ (increment M s name model tokens now m, some info)
  unfolding after_charge
  increment-check s name model tokens now later m dims info known paid over ahead =
      ap (check M s name later) paid_for ∙ refused.0 ahead ∙ ap (λ q. (q, some info)) (sym paid_for)
    where
      charged : Map (DimCounter M)
      charged = bump_all M s name (compute_cost M s model tokens) now dimensions dims

      paid_for : increment M s name model tokens now m ≡ after_charge M name charged m
      paid_for = increment-counters s name model tokens now m dims known paid

      recorded : lookup name (after_charge M name charged m).exceeded ≡ some info
      recorded = after_charge-exceeded M name charged m.exceeded ∙ over

      refused : Answers s name later (after_charge M name charged m) (some info)
      refused =
          subst (Answers s name later (after_charge M name charged m)) recorded
            (check-recorded s name later (after_charge M name charged m))
