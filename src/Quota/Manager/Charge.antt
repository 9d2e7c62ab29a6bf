-- ===== src/Quota/Manager/Charge.antt =====
-- internal/quota/manager.go: what the loop of `Increment` does to each counter.
use text.Mathlib.TextPositions.{eq_refl}
use llms_proxy.Base.{
  ◌≡◌, refl, sym, ap, subst, ◌∙◌, inl, inr, true, false, String, str_eq, Option, none, some,
}
use llms_proxy.Base.Maps.{Map, lookup, lookup-insert}
use llms_proxy.Base.Time.{Time, after}
use llms_proxy.Quota.Period.{daily, weekly, monthly, next_reset_at}
use llms_proxy.Quota.Period.Laws.{IsDimension}
use llms_proxy.Quota.Money.{Money, Stores}
use llms_proxy.Quota.Manager.{dimensions, DimCounter, put, refreshed_limit, turn_of, bump, bump_all}

module _ (M : Money) (s : Stores M) (name : String) (usd : M.Usd) (now : Time) where
  open M use {add, zero_usd}

  abbrev turn : String → Map (DimCounter M) → Map (DimCounter M)
  turn dimension dims = turn_of M s name usd now dimension (lookup dimension dims) dims

  lookup-put :
      (d e : String) (o : Option (DimCounter M)) (dims : Map (DimCounter M))
      → str_eq d e ≡ false
      → lookup e (put M d o dims) ≡ lookup e dims
  lookup-put d e none dims ne = refl
  lookup-put d e (some c) dims ne = lookup-insert d e c dims ∙ simp ne refl

  lookup-turn_of :
      (d e : String) (o : Option (DimCounter M)) (dims : Map (DimCounter M))
      → str_eq d e ≡ false
      → lookup e (turn_of M s name usd now d o dims) ≡ lookup e dims
  lookup-turn_of d e none dims ne = refl
  lookup-turn_of d e (some c) dims ne = lookup-put d e (bump M s name d usd now c) dims ne

  lookup-turn :
      (d e : String) (dims : Map (DimCounter M))
      → str_eq d e ≡ false
      → lookup e (turn d dims) ≡ lookup e dims
  lookup-turn d e dims ne = lookup-turn_of d e (lookup d dims) dims ne

  lookup-turn_self :
      (d : String) (dims : Map (DimCounter M)) (c c' : DimCounter M)
      → lookup d dims ≡ some c
      → bump M s name d usd now c ≡ some c'
      → lookup d (turn d dims) ≡ some c'
  lookup-turn_self d dims c c' known bumped =
      ap (λ o. lookup d (turn_of M s name usd now d o dims)) known
      ∙ ap (λ o. lookup d (put M d o dims)) bumped
      ∙ lookup-insert d d c' dims
      ∙ simp (eq_refl d) refl

  bump_all-turns :
      (dims : Map (DimCounter M))
      → bump_all M s name usd now dimensions dims ≡ turn monthly (turn weekly (turn daily dims))
  unfolding bump_all
  bump_all-turns dims = refl

  -- What a dimension's own turn makes of its counter is still there after the loop.
  abbrev Survives : String → Map (DimCounter M) → DimCounter M → DimCounter M → Type 0
  Survives d dims c c' =
      lookup d dims ≡ some c
      → bump M s name d usd now c ≡ some c'
      → lookup d (turn monthly (turn weekly (turn daily dims))) ≡ some c'

  turns-Survives :
      (d : String) (dims : Map (DimCounter M)) (c c' : DimCounter M)
      → IsDimension d
      → Survives d dims c c'
  turns-Survives d dims c c' (inl e) =
      subst (λ x. Survives x dims c c') (sym e)
        (λ known bumped.
          lookup-turn monthly daily (turn weekly (turn daily dims)) refl
          ∙ lookup-turn weekly daily (turn daily dims) refl
          ∙ lookup-turn_self daily dims c c' known bumped)
  turns-Survives d dims c c' (inr (inl e)) =
      subst (λ x. Survives x dims c c') (sym e)
        (λ known bumped.
          lookup-turn monthly weekly (turn weekly (turn daily dims)) refl
          ∙ lookup-turn_self weekly (turn daily dims) c c'
              (lookup-turn daily weekly dims refl ∙ known) bumped)
  turns-Survives d dims c c' (inr (inr e)) =
      subst (λ x. Survives x dims c c') (sym e)
        (λ known bumped.
          lookup-turn_self monthly (turn weekly (turn daily dims)) c c'
            (lookup-turn weekly monthly (turn daily dims) refl
              ∙ lookup-turn daily monthly dims refl
              ∙ known)
            bumped)

  bump-live :
      (d : String) (c : DimCounter M)
      → after c.resets_at now ≡ true
      → bump M s name d usd now c ≡ some (record c { used = add c.used usd })
  unfolding bump
  bump-live d c h = rw h refl

  bump-over :
      (d : String) (c : DimCounter M) (t : Time)
      → after c.resets_at now ≡ false
      → next_reset_at d now ≡ some t
      → bump M s name d usd now c
        ≡ some (record {
          limit = refreshed_limit M s name d c.limit;
          used = add zero_usd usd;
          resets_at = t;
        })
  unfolding bump
  bump-over d c t h next = rw (h, next) refl

  -- The loop of `Increment` adds the cost once to the counter of each dimension whose reset is ahead, and
  -- keeps its limit and its reset. A counter whose reset is over starts anew at zero with the cost added, with the
  -- limit that the client has now and the next reset of its dimension.
  pub bump_all-charges :
      (d : String) (dims : Map (DimCounter M)) (c : DimCounter M)
      → IsDimension d
      → lookup d dims ≡ some c
      → (after c.resets_at now ≡ true
          → lookup d (bump_all M s name usd now dimensions dims)
            ≡ some (record c { used = add c.used usd }))
        × ((t : Time)
            → after c.resets_at now ≡ false
            → next_reset_at d now ≡ some t
            → lookup d (bump_all M s name usd now dimensions dims)
              ≡ some (record {
                limit = refreshed_limit M s name d c.limit;
                used = add zero_usd usd;
                resets_at = t;
              }))
  bump_all-charges d dims c is known = (
    λ h.
        ap (lookup d) (bump_all-turns dims)
        ∙ turns-Survives d dims c (record c { used = add c.used usd }) is known (bump-live d c h),
    λ t h next.
        ap (lookup d) (bump_all-turns dims)
        ∙ turns-Survives d dims c
            (record {
              limit = refreshed_limit M s name d c.limit;
              used = add zero_usd usd;
              resets_at = t;
            })
            is known (bump-over d c t h next),
  )
