-- ===== src/Quota/Manager/Reopening.antt =====
-- internal/quota/manager.go: what the lazy flip of `Check` does to each counter.
use text.Mathlib.TextPositions.{eq_refl}
use llms_proxy.Base.{
  ◌≡◌, refl, sym, ap, subst, ◌∙◌, inl, inr, true, false, not, ◌||◌, ◌==◌, String, str_eq, Option,
  none, some, arith, if-true,
}
use llms_proxy.Base.Maps.{Map, lookup, insert, lookup-insert}
use llms_proxy.Base.Time.{Time, after}
use llms_proxy.Quota.Period.{daily, weekly, monthly, next_reset_at}
use llms_proxy.Quota.Period.Laws.{IsDimension}
use llms_proxy.Quota.Money.{Money, Stores}
use llms_proxy.Quota.Manager.{dimensions, ExceededInfo, DimCounter, refreshed_limit, flip, flip_all}

module _ (M : Money) (s : Stores M) (name : String) (info : ExceededInfo M) (now : Time) where
  open M use {zero_usd}

  abbrev flip_turn_of : String → Option (DimCounter M) → Map (DimCounter M) → Map (DimCounter M)
  flip_turn_of d none dims = dims
  flip_turn_of d (some c) dims = insert d (flip M s name info now d c) dims

  abbrev flip_turn : String → Map (DimCounter M) → Map (DimCounter M)
  flip_turn d dims = flip_turn_of d (lookup d dims) dims

  flip_all-turns :
      (dims : Map (DimCounter M))
      → flip_all M s name info now dimensions dims
        ≡ flip_turn monthly (flip_turn weekly (flip_turn daily dims))
  unfolding flip_all
  flip_all-turns dims =
      each monthly (weekly_turn (daily_turn dims))
      ∙ ap (flip_turn monthly)
          (each weekly (daily_turn dims) ∙ ap (flip_turn weekly) (each daily dims))
    where
      turn : String → Map (DimCounter M) → Map (DimCounter M)
      turn d ds = elim (lookup d ds) [
        | none ↦ ds
        | some c ↦ insert d (flip M s name info now d c) ds
      ]

      daily_turn : Map (DimCounter M) → Map (DimCounter M)
      daily_turn ds = turn daily ds

      weekly_turn : Map (DimCounter M) → Map (DimCounter M)
      weekly_turn ds = turn weekly ds

      of_counter :
          (d : String) (ds : Map (DimCounter M)) (o : Option (DimCounter M))
          → elim o [ none ↦ ds | some c ↦ insert d (flip M s name info now d c) ds ]
            ≡ flip_turn_of d o ds
      of_counter d ds none = refl
      of_counter d ds (some c) = refl

      each : (d : String) (ds : Map (DimCounter M)) → turn d ds ≡ flip_turn d ds
      each d ds = of_counter d ds (lookup d ds)

  lookup-flip_turn_of :
      (d e : String) (o : Option (DimCounter M)) (dims : Map (DimCounter M))
      → str_eq d e ≡ false
      → lookup e (flip_turn_of d o dims) ≡ lookup e dims
  lookup-flip_turn_of d e none dims ne = refl
  lookup-flip_turn_of d e (some c) dims ne =
      lookup-insert d e (flip M s name info now d c) dims ∙ simp ne refl

  lookup-flip_turn :
      (d e : String) (dims : Map (DimCounter M))
      → str_eq d e ≡ false
      → lookup e (flip_turn d dims) ≡ lookup e dims
  lookup-flip_turn d e dims ne = lookup-flip_turn_of d e (lookup d dims) dims ne

  lookup-flip_turn_self :
      (d : String) (dims : Map (DimCounter M)) (c : DimCounter M)
      → lookup d dims ≡ some c
      → lookup d (flip_turn d dims) ≡ some (flip M s name info now d c)
  lookup-flip_turn_self d dims c known =
      ap (λ o. lookup d (flip_turn_of d o dims)) known
      ∙ lookup-insert d d (flip M s name info now d c) dims
      ∙ simp (eq_refl d) refl

  abbrev Flips : String → Map (DimCounter M) → DimCounter M → Type 0
  Flips d dims c =
      lookup d dims ≡ some c
      → lookup d (flip_turn monthly (flip_turn weekly (flip_turn daily dims)))
        ≡ some (flip M s name info now d c)

  turns-Flips :
      (d : String) (dims : Map (DimCounter M)) (c : DimCounter M) → IsDimension d → Flips d dims c
  turns-Flips d dims c (inl e) =
      subst (λ x. Flips x dims c) (sym e)
        (λ known.
          lookup-flip_turn monthly daily (flip_turn weekly (flip_turn daily dims)) refl
          ∙ lookup-flip_turn weekly daily (flip_turn daily dims) refl
          ∙ lookup-flip_turn_self daily dims c known)
  turns-Flips d dims c (inr (inl e)) =
      subst (λ x. Flips x dims c) (sym e)
        (λ known.
          lookup-flip_turn monthly weekly (flip_turn weekly (flip_turn daily dims)) refl
          ∙ lookup-flip_turn_self weekly (flip_turn daily dims) c
              (lookup-flip_turn daily weekly dims refl ∙ known))
  turns-Flips d dims c (inr (inr e)) =
      subst (λ x. Flips x dims c) (sym e)
        (λ known. lookup-flip_turn_self monthly (flip_turn weekly (flip_turn daily dims)) c (
          lookup-flip_turn weekly monthly (flip_turn daily dims) refl
          ∙ lookup-flip_turn daily monthly dims refl
          ∙ known))

  -- The counter `c` of a dimension after the flip: as it was, if its reset is ahead; else at zero, with the
  -- limit that the client has now and the next reset of the dimension.
  pub record Turned (d : String) (c : DimCounter M) (dims' : Map (DimCounter M)) : Type 0 where
    pub keeps : after c.resets_at now ≡ true → lookup d dims' ≡ some c
    pub restarts :
        (t : Time)
        → after c.resets_at now ≡ false
        → next_reset_at d now ≡ some t
        → lookup d dims'
          ≡ some (record {
            limit = refreshed_limit M s name d c.limit;
            used = zero_usd;
            resets_at = t;
          })

  flip-ahead :
      (d : String) (c : DimCounter M)
      → after info.resets_at now ≡ false
      → after c.resets_at now ≡ true
      → flip M s name info now d c ≡ c
  unfolding flip
  flip-ahead d c over ahead = ground arith

  flip-over :
      (d : String) (c : DimCounter M) (t : Time)
      → after c.resets_at now ≡ false
      → next_reset_at d now ≡ some t
      → flip M s name info now d c
        ≡ record { limit = refreshed_limit M s name d c.limit; used = zero_usd; resets_at = t }
  unfolding flip
  flip-over d c t over next =
      rw (over, next) (if-true (c.resets_at == info.resets_at || not false) _ c (ground arith))

  pub flip_all-Turned :
      (d : String) (dims : Map (DimCounter M)) (c : DimCounter M)
      → IsDimension d
      → after info.resets_at now ≡ false
      → lookup d dims ≡ some c
      → Turned d c (flip_all M s name info now dimensions dims)
  flip_all-Turned d dims c is over known = record {
    keeps = λ ahead. flipped ∙ ap some (flip-ahead d c over ahead);
    restarts = λ t past next. flipped ∙ ap some (flip-over d c t past next);
  }
    where
      flipped :
          lookup d (flip_all M s name info now dimensions dims) ≡ some (flip M s name info now d c)
      flipped = ap (lookup d) (flip_all-turns dims) ∙ turns-Flips d dims c is known
