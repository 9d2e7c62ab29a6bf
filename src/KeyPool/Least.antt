-- ===== src/KeyPool/Least.antt =====
-- internal/proxy/keypool.go, leastTokenActiveKeyIndex: the active key with the fewest tokens in its
-- window. The results -1 and -2 are `no_active` and `no_data`.
use llms_proxy.Base.{
  ℕ, zero, suc, ◌+◌, Bool, true, false, ◌||◌, Option, none, some, length, ◌==◌, if◌then◌else◌,
}
use llms_proxy.Base.Int.{ℤ, pos, ltb_ℤ}
use llms_proxy.Base.Time.{Time}
use llms_proxy.KeyPool.State.{KeyPool, usable_at}
use llms_proxy.KeyPool.Load.{token_sum_in_window}

pub data Least : Type 0 where
  no_active no_data : Least
  least_at : ℕ → Least

-- `bestIdx == -1 || sum < bestTokens`
abbrev pub fewer : ℕ → ℤ → Option (ℕ × ℤ) → Option (ℕ × ℤ)
fewer i sum none = some (i, sum)
fewer i sum (some (b, tokens)) = if ltb_ℤ sum tokens then some (i, sum) else some (b, tokens)

-- The loop over `left` keys from `i` on.
unfoldable pub least_from :
    KeyPool → ℕ → ℕ → Option (ℕ × ℤ) → Bool → Time → KeyPool × Option (ℕ × ℤ) × Bool
least_from p zero i best has_any_data now = (p, best, has_any_data)
least_from p (suc left) i best has_any_data now =
    let (q, sum) = token_sum_in_window p i now in
    let counted =
      least_from q left (i + 1) (fewer i sum best) (has_any_data || ltb_ℤ (pos 0) sum) now in
    let skipped = least_from p left (i + 1) best has_any_data now in
    if usable_at p.entries i then counted else skipped

abbrev pub least_of : Option (ℕ × ℤ) → Bool → Least
least_of none has_any_data = no_active
least_of (some (b, tokens)) false = no_data
least_of (some (b, tokens)) true = least_at b

-- leastTokenActiveKeyIndex
unfoldable pub least_token_active_key_index : KeyPool → Time → KeyPool × Least
least_token_active_key_index p now =
    let (q, best, has_any_data) = least_from p (length p.entries) 0 none false now in
    if length p.entries == 0 then (p, no_active) else (q, least_of best has_any_data)
