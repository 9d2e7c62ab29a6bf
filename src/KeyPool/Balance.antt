-- ===== src/KeyPool/Balance.antt =====
-- The scores of internal/proxy/keypool.go, on what is left of the keys once every window is pruned.
pub mod Best
use native.Mathlib.Nat.{add-zero, zero-add}
use native.Mathlib.Numerals.{add-one}
use native.Mathlib.Decide.{dec_lt}
use llms_proxy.Base.{
  ℕ, zero, suc, ◌+◌, ◌≤◌, ◌<◌, ◌≡◌, refl, sym, ap, ◌∙◌, ◌⊎◌, inl, inr, Bool, true, false, not,
  Option, none, some, List, [], ◌∷◌, map, length, get_or, modify, map-modify, length-map, arith,
  Bool-cases, leb, if◌then◌else◌,
}
use llms_proxy.Base.Int.{ℤ, pos, ltb_ℤ}
use llms_proxy.Base.Time.{Time}
use llms_proxy.KeyPool.State.{TokenSample, KeyEntry, KeyPool, usable_at, blank}
use llms_proxy.KeyPool.Load.{
  cutoff, drop_expired, prune_entry, prune_expired_samples, tokens_at, token_sum_in_window, flight,
  eq_ℤ, fewer_tokens, score_less, better, consider, best_from, best_active_key,
}

-- The pool with every window pruned.
unfoldable pub settle : KeyPool → Time → KeyPool
settle p now = record p { entries = map (prune_entry (cutoff p now)) p.entries }

drop_expired_idem :
    (limit : Time) (l : List TokenSample)
    → drop_expired limit (drop_expired limit l) ≡ drop_expired limit l
unfolding drop_expired
drop_expired_idem limit [] = refl
drop_expired_idem limit (s ∷ r) = ground (arith, drop_expired_idem limit r)

prune_entry_idem :
    (limit : Time) (e : KeyEntry) → prune_entry limit (prune_entry limit e) ≡ prune_entry limit e
prune_entry_idem limit e = rw (drop_expired_idem limit e.token_samples)

pub settle-prune :
    (p : KeyPool) (i : ℕ) (now : Time) → settle (prune_expired_samples p i now) now ≡ settle p now
unfolding prune_expired_samples settle
settle-prune p i now = rw (
    map-modify (prune_entry (cutoff p now)) (prune_entry (cutoff p now))
      (prune_entry_idem (cutoff p now)) i p.entries)

get_or-modify :
    (f : KeyEntry → KeyEntry) (i : ℕ) (es : List KeyEntry)
    → get_or (modify f i es) i blank ≡ get_or (map f es) i blank
get_or-modify f i [] = refl
get_or-modify f zero (e ∷ es) = refl
get_or-modify f (suc i) (e ∷ es) = get_or-modify f i es

-- The sum read from a pruned window is the settled pool's.
pub tokens-prune :
    (p : KeyPool) (i : ℕ) (now : Time)
    → tokens_at (prune_expired_samples p i now).entries i ≡ tokens_at (settle p now).entries i
unfolding tokens_at prune_expired_samples settle
tokens-prune p i now = rw (get_or-modify (prune_entry (cutoff p now)) i p.entries)

pub usable_at-map_prune :
    (limit : Time) (i : ℕ) (es : List KeyEntry)
    → usable_at (map (prune_entry limit) es) i ≡ usable_at es i
usable_at-map_prune limit i [] = refl
usable_at-map_prune limit zero (e ∷ es) = refl
usable_at-map_prune limit (suc i) (e ∷ es) = usable_at-map_prune limit i es

-- Key `a` is the lighter one: fewer requests in flight, or as many and fewer tokens.
unfoldable pub lighter : KeyPool → ℕ → ℕ → Bool
lighter s a b =
    if not (eq_ℤ (flight s a) (flight s b))
    then ltb_ℤ (flight s a) (flight s b)
    else ltb_ℤ (tokens_at s.entries a) (tokens_at s.entries b)

pub lighter_trans :
    (s : KeyPool) (j i b : ℕ) → lighter s i b ≡ true → lighter s j b ≡ false → lighter s j i ≡ false
unfolding lighter
lighter_trans s j i b h k = ground arith

pub lighter_irrefl : (s : KeyPool) (i : ℕ) → lighter s i i ≡ false
unfolding lighter
lighter_irrefl s i = ground arith

-- A result that prunes windows and does nothing else.
pub record Reads {ℓ} {A : Type ℓ} (p : KeyPool) (now : Time) (r : KeyPool × A) (a : A)
    : Type ℓ where
  pub settles : settle r.0 now ≡ settle p now
  pub value : r.1 ≡ a

length-settle : (p : KeyPool) (now : Time) → length (settle p now).entries ≡ length p.entries
unfolding settle
length-settle p now = length-map (prune_entry (cutoff p now)) p.entries

pub usable_at-settle :
    (p : KeyPool) (i : ℕ) (now : Time) → usable_at (settle p now).entries i ≡ usable_at p.entries i
unfolding settle
usable_at-settle p i now = usable_at-map_prune (cutoff p now) i p.entries

-- Two pools that settle alike have as many keys, and the same ones are usable.
pub settles-length :
    (p q : KeyPool) (now : Time) → settle q now ≡ settle p now → length q.entries ≡ length p.entries
settles-length p q now h =
    sym (length-settle q now) ∙ ap (λ (s : KeyPool). length s.entries) h ∙ length-settle p now

pub settles-usable :
    (p q : KeyPool) (i : ℕ) (now : Time)
    → settle q now ≡ settle p now
    → usable_at q.entries i ≡ usable_at p.entries i
settles-usable p q i now h =
    sym (usable_at-settle q i now)
    ∙ ap (λ (s : KeyPool). usable_at s.entries i) h
    ∙ usable_at-settle p i now

pub token_sum-Reads :
    (p : KeyPool) (i : ℕ) (now : Time)
    → Reads p now (token_sum_in_window p i now) (tokens_at (settle p now).entries i)
unfolding token_sum_in_window
token_sum-Reads p i now = record { settles = settle-prune p i now; value = tokens-prune p i now }

fewer_tokens-Reads :
    (p : KeyPool) (a b : ℕ) (now : Time)
    → Reads p now
        (fewer_tokens p a b now)
        (ltb_ℤ (tokens_at (settle p now).entries a) (tokens_at (settle p now).entries b))
unfolding fewer_tokens
fewer_tokens-Reads p a b now =
    let q = (token_sum_in_window p a now).0 in
    let x = token_sum-Reads p a now in
    let y = token_sum-Reads q b now in
    record { settles = y.settles ∙ x.settles; value = rw (x.value, y.value, x.settles) }

pub score_less-Reads :
    (p : KeyPool) (a b : ℕ) (now : Time)
    → a < length p.entries
    → b < length p.entries
    → Reads p now (score_less p a b now) (lighter (settle p now) a b)
unfolding score_less lighter settle
score_less-Reads p a b now ha hb = ground (arith, fewer_tokens-Reads p a b now)

pub lighter-weak :
    (s : KeyPool) (j b c : ℕ)
    → lighter s j b ≡ false
    → lighter s b c ≡ false
    → lighter s j c ≡ false
unfolding lighter
lighter-weak s j b c h k = ground arith
