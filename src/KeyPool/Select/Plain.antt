-- ===== src/KeyPool/Select/Plain.antt =====
-- `selectKey` and `selectNextActiveKey` of internal/proxy/keypool.go while some key is active.
use native.Mathlib.Nat.{zero-add}
use llms_proxy.Base.{
  ℕ, ◌+◌, ◌%◌, ◌<◌, ◌≡◌, refl, true, false, Option, none, some, length, ◌==◌, arith,
}
use llms_proxy.Base.Time.{Time}
use llms_proxy.KeyPool.State.{KeyPool, usable_at, found}
use llms_proxy.KeyPool.Balance.Best.{unused}
use llms_proxy.KeyPool.Select.{first_active, advance, scan, select_key, select_next_active_key}
use llms_proxy.KeyPool.Select.Scan.{Scans, first_active-Scans, first_active-none}

none-not-some : {A : Type 0} {o : Option A} {a : A} → o ≡ none → o ≡ some a → ⊥
none-not-some p q = cc

-- The key that comes first from the turn counter on, in cyclic order, among the active ones.
abbrev pub NextActive : KeyPool → Time → Type 0
NextActive p now =
    let n = length p.entries in
    let start = p.rr_counter % n in
    (i r : ℕ) × (r < n)
    × (i ≡ (start + r) % n)
    × (usable_at p.entries i ≡ true)
    × ((r' : ℕ) → r' < r → usable_at p.entries ((start + r') % n) ≡ false)
    × (select_key p now ≡ found (advance p) i)

-- While some key is active, `selectKey` returns the first active one from the turn counter on, in
-- cyclic order, and only moves the counter.
pub select_key_active :
    (p : KeyPool) (now : Time) (j : ℕ)
    → j < length p.entries
    → usable_at p.entries j ≡ true
    → NextActive p now
unfolding select_key
select_key_active p now j lt u =
    let n = length p.entries in
    let full : (n == 0) ≡ false = ground arith in
    scanned (scan p) refl (first_active-Scans p.entries n (p.rr_counter % n) n 0) full
  where
    scanned :
        (o : Option ℕ)
        → scan p ≡ o
        → Scans p.entries
            (length p.entries)
            (p.rr_counter % length p.entries)
            (length p.entries)
            0
            o
        → (length p.entries == 0) ≡ false
        → NextActive p now
    scanned none eq h full = absurd (
        unused (usable_at p.entries j) u (
          first_active-none p.entries (length p.entries) (p.rr_counter % length p.entries) 0 eq j
            lt))
    scanned (some k) eq (r, below, same, v, before) full = (
      k,
      r,
      below,
      rw (zero-add r) at same,
      v,
      λ r' lt'. rw (zero-add r') at (before r' lt'),
      rw (full, eq, select_key),
    )

-- `selectNextActiveKey` returns the first active key behind the given one, in cyclic order, and
-- leaves the pool alone, as long as some key is active.
abbrev pub NextAfter : KeyPool → ℕ → Time → Type 0
NextAfter p a now =
    let n = length p.entries in
    (i r : ℕ) × (r < n)
    × (i ≡ (a + (1 + r)) % n)
    × (usable_at p.entries i ≡ true)
    × ((r' : ℕ) → r' < r → usable_at p.entries ((a + (1 + r')) % n) ≡ false)
    × (select_next_active_key p a now ≡ found p i)

-- While some key is active, `selectNextActiveKey` returns the first active one after the given
-- index, in cyclic order, and changes nothing.
pub select_next_active_key_active :
    (p : KeyPool) (a : ℕ) (now : Time) (j : ℕ)
    → j < length p.entries
    → usable_at p.entries j ≡ true
    → NextAfter p a now
unfolding select_next_active_key
select_next_active_key_active p a now j lt u =
    let n = length p.entries in
    let full : (n == 0) ≡ false = ground arith in
    scanned (first_active p.entries n a n 1) refl (first_active-Scans p.entries n a n 1) full
  where
    scanned :
        (o : Option ℕ)
        → first_active p.entries (length p.entries) a (length p.entries) 1 ≡ o
        → Scans p.entries (length p.entries) a (length p.entries) 1 o
        → (length p.entries == 0) ≡ false
        → NextAfter p a now
    scanned none eq h full = absurd (
        unused (usable_at p.entries j) u
          (first_active-none p.entries (length p.entries) a 1 eq j lt))
    scanned (some k) eq (r, below, same, v, before) full =
        (k, r, below, same, v, before, rw (full, eq, select_next_active_key))
