-- ===== src/Quota/Examples.antt =====
-- One client with limits and whole units as amounts, on which the theorems on internal/quota are run.
use llms_proxy.Base.{
  ℕ, ◌+◌, ◌*◌, ◌≤◌, ◌<◌, ◌%◌, ◌≡◌, refl, inl, inr, none, some, [], ◌∷◌, leb, ltb, arith, true,
  false,
}
use llms_proxy.Base.Int.{ℤ, pos, negsuc}
use llms_proxy.Base.Maps.{lookup, insert, delete}
use llms_proxy.Base.Text.{Bytes, bytes, trim_space}
use llms_proxy.Base.Time.{Time, hour, after}
use llms_proxy.Calendar.{midnight, day_of}
use llms_proxy.Quota.Period.{
  daily, weekly, monthly, period_range, next_reset_at, day_start, next_day,
}
use llms_proxy.Quota.Period.Laws.{Spans, period_contains, period_constant}
use llms_proxy.Quota.Money.{
  Money, Rates, Client, Totals, fetched, Stores, normal_model, cost, compute_cost,
}
use llms_proxy.Quota.Manager.{
  ExceededInfo, DimCounter, Manager, new, first_over, bump, bump_all, evaluate, increment, check,
  reopen, info_of, refreshed_limit, dimensions,
}
use llms_proxy.Quota.Manager.Agreement.{Agrees, verdict, evaluate-Agrees, increment-Agrees}
use llms_proxy.Quota.Manager.Enforcement.{Answers, check-Answers, increment-check}
use llms_proxy.Quota.Manager.Status.{Shows, status-increment}
use llms_proxy.Quota.Manager.Charge.{bump_all-charges}
use llms_proxy.Quota.Manager.Others.{Untouched, calls-Untouched}

abbrev priced_tokens : ℤ → ℕ → ℕ
priced_tokens (pos n) rate = n * rate
priced_tokens (negsuc n) rate = 0

abbrev units : Money
units = record {
  Usd = ℕ;
  zero_usd = 0;
  add = λ a b. a + b;
  le = leb;
  lt = ltb;
  priced = priced_tokens;
}

abbrev ada : Client units
ada = record { name = "ada"; quota_daily = 10; quota_weekly = 0; quota_monthly = 0 }

abbrev flat : Rates units
flat = record { input = 1; output = 1; cached_input = 1; cache_read = 1 }

abbrev stores : Stores units
stores = record {
  clients = fetched (ada ∷ []);
  sums = fetched (λ name from to. some []);
  rates = λ model. some flat;
}

abbrev twelve : Totals
twelve = record { input = pos 5; output = pos 7; cached = pos 0; cache_creation = pos 0 }

-- Nine of ten spent, with the reset at 1000.
abbrev nine : DimCounter units
nine = record { limit = 10; used = 9; resets_at = 1000 }

abbrev spent : Manager units
spent = record { exceeded = []; counters = ("ada", (daily, nine) ∷ []) ∷ [] }

abbrev over_info : ExceededInfo units
over_info = record { dimension = daily; limit = 10; used = 21; resets_at = 1000 }

abbrev model : Bytes
model = bytes "gpt"

spent-Agrees : Agrees units "ada" spent
unfolding lookup first_over
spent-Agrees = refl

evaluate-Agrees_example : Agrees units "ada" (evaluate units stores "ada" 7 (new units))
unfolding new lookup
evaluate-Agrees_example = evaluate-Agrees units stores "ada" 7 (new units) refl

increment-Agrees_example : Agrees units "ada" (increment units stores "ada" model twelve 7 spent)
increment-Agrees_example = increment-Agrees units stores "ada" model twelve 7 spent spent-Agrees

increment-check_example :
    check units stores "ada" 8 (increment units stores "ada" model twelve 7 spent)
    ≡ (increment units stores "ada" model twelve 7 spent, some over_info)
unfolding lookup insert compute_cost cost normal_model trim_space bump_all bump first_over
increment-check_example =
    increment-check units stores "ada" model twelve 7 8 spent ((daily, nine) ∷ []) over_info refl
      refl refl refl

calls-Untouched_example :
    Untouched units "ada" "bob" refl spent (increment units stores "ada" model twelve 7 spent)
    × Untouched units "ada" "bob" refl spent (check units stores "ada" 7 spent).0
    × Untouched units "ada" "bob" refl spent (evaluate units stores "ada" 7 spent)
calls-Untouched_example = calls-Untouched units "ada" "bob" refl stores model twelve 7 spent

day_one : Spans daily 7 0 (24 * hour)
unfolding period_range next_reset_at day_start next_day midnight day_of
day_one = record { range = refl; reset = refl }

period_contains_example :
    (from : Time) × (to : Time) × Spans weekly 7 from to × (from ≤ 7) × (7 < to) × (to % hour ≡ 0)
period_contains_example = period_contains weekly 7 (inr (inl refl))

period_constant_example : Spans daily 9 0 (24 * hour)
period_constant_example =
    period_constant daily 7 9 0 (24 * hour) (inl refl) day_one (omega arith) (omega arith)

-- Ten of ten spent in the day until 1000, and in the month until 5000.
abbrev full_day : DimCounter units
full_day = record { limit = 10; used = 10; resets_at = 1000 }

abbrev full_month : DimCounter units
full_month = record { limit = 10; used = 10; resets_at = 5000 }

abbrev both_full : Manager units
both_full = record {
  exceeded = ("ada", info_of units daily full_day) ∷ [];
  counters = ("ada", (daily, full_day) ∷ (monthly, full_month) ∷ []) ∷ [];
}

-- After the reset of the day, `check` lets in a client whose month is over its limit until later.
month_forgotten :
    ((check units stores "ada" 2000 both_full).1 ≡ none)
    × (first_over units (monthly ∷ []) ((daily, full_day) ∷ (monthly, full_month) ∷ [])
        ≡ some (info_of units monthly full_month))
    × (lookup "ada" (check units stores "ada" 2000 both_full).0.exceeded ≡ none)
unfolding check reopen lookup first_over delete
month_forgotten = (refl, refl, refl)

both_full-Agrees : Agrees units "ada" both_full
unfolding lookup first_over
both_full-Agrees = refl

check-Answers_example :
    Answers units stores "ada" 2000 both_full (verdict units (lookup "ada" both_full.counters))
check-Answers_example = check-Answers units stores "ada" 2000 both_full both_full-Agrees

status-increment_example :
    Shows units stores "ada" daily 8
      (increment units stores "ada" model twelve 7 spent)
      10
      (9 + 12)
      1000
unfolding lookup compute_cost cost normal_model trim_space
status-increment_example =
    status-increment units stores "ada" daily model twelve 7 8 spent ((daily, nine) ∷ []) nine
      (inl refl) refl refl refl refl

bump_all-charges_example :
    (after nine.resets_at 7 ≡ true
      → lookup daily (bump_all units stores "ada" 12 7 dimensions ((daily, nine) ∷ []))
        ≡ some (record nine { used = 21 }))
    × ((t : Time)
        → after nine.resets_at 7 ≡ false
        → next_reset_at daily 7 ≡ some t
        → lookup daily (bump_all units stores "ada" 12 7 dimensions ((daily, nine) ∷ []))
          ≡ some (record {
            limit = refreshed_limit units stores "ada" daily nine.limit;
            used = 12;
            resets_at = t;
          }))
unfolding lookup
bump_all-charges_example =
    bump_all-charges units stores "ada" 12 7 daily ((daily, nine) ∷ []) nine (inl refl) refl
