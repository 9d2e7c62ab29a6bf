-- ===== src/KeyPool/Mark/Exhaustion.antt =====
-- markExhaustedWithError of internal/proxy/keypool.go, on one key and on the others.
use llms_proxy.Base.{
  ℕ, ◌<◌, ◌≡◌, refl, ap, ◌≢◌, inl, inr, true, false, String, none, some, length, get_or, get_or-eq,
  get_elem?, modify, get_elem?-eq-some, get_elem?-modify_self, get_elem?-modify_ne, length-modify,
  lt→ltb, arith, Bool-cases, Option-cases,
}
use llms_proxy.Base.Int.{ℤ, pos}
use llms_proxy.Base.Text.{Bytes}
use llms_proxy.Base.Time.{Time}
use llms_proxy.KeyPool.State.{KeyEntry, KeyPool, in_bounds, blank}
use llms_proxy.KeyPool.Mark.{
  permanent_end, quota_cooldown, cooldown_of, current_reset, exhausted_by, exhaust_at,
  mark_exhausted_with_error,
}

-- Every cooldown ends in the future.
cooldown_ahead :
    (code : String) (reset now : Time)
    → now < permanent_end
    → now < (cooldown_of code reset now).until
unfolding cooldown_of quota_cooldown
cooldown_ahead code reset now h = ground arith

-- One key is exhausted since `now`, with an end of its cooldown ahead and its key and manual block
-- kept; the other entries are as they were.
pub record Exhausts (p : KeyPool) (i : ℕ) (now : Time) (q : KeyPool) : Type 0 where
  pub entry : KeyEntry
  pub there : get_elem? q.entries i ≡ some entry
  pub resting : entry.exhausted ≡ true
  pub since : entry.exhausted_at ≡ now
  pub ahead : now < entry.cooldown_end
  pub block_kept :
      (e : KeyEntry)
      → get_elem? p.entries i ≡ some e
      → (e.key ≡ entry.key) × (e.blocked ≡ entry.blocked)
  pub others : (j : ℕ) → i ≢ j → get_elem? q.entries j ≡ get_elem? p.entries j

-- Before the year 9999, a mark of a key that is in range and not exhausted exhausts it from now on:
-- its cooldown ends later than now whatever the error code, its key and its manual block stay, and
-- so do the other entries.
pub mark_exhausted-Exhausts :
    (p : KeyPool) (i : ℕ) (code : String) (body : Bytes) (now : Time)
    → i < length p.entries
    → (get_or p.entries i blank).exhausted ≡ false
    → now < permanent_end
    → Exhausts p i now (mark_exhausted_with_error p (pos i) code body now)
unfolding mark_exhausted_with_error exhaust_at
mark_exhausted-Exhausts p i code body now lt fresh soon =
    let (e, at) = get_elem?-eq-some p.entries i lt in
    let c = cooldown_of code (current_reset p now) now in
    rw (lt→ltb _ _ lt, fresh, mark_exhausted_with_error)
      (record {
        entry = exhausted_by c body now e;
        there = get_elem?-modify_self (exhausted_by c body now) p.entries i at;
        resting = refl;
        since = refl;
        ahead = cooldown_ahead code (current_reset p now) now soon;
        block_kept = λ x here. ground (arith, here, at);
        others = λ j ne. get_elem?-modify_ne (exhausted_by c body now) p.entries i j ne;
      })

out_of_bounds :
    (p : KeyPool) (index : ℤ) (code : String) (body : Bytes) (now : Time)
    → in_bounds index (length p.entries) ≡ none
    → mark_exhausted_with_error p index code body now ≡ p
unfolding mark_exhausted_with_error
out_of_bounds p index code body now out = rw (out, mark_exhausted_with_error)

already_exhausted :
    (p : KeyPool) (index : ℤ) (i : ℕ) (code : String) (body : Bytes) (now : Time)
    → in_bounds index (length p.entries) ≡ some i
    → (get_or p.entries i blank).exhausted ≡ true
    → mark_exhausted_with_error p index code body now ≡ p
unfolding mark_exhausted_with_error
already_exhausted p index i code body now here spent = rw (here, spent, mark_exhausted_with_error)

in_bounds-lt : (index : ℤ) (n i : ℕ) → in_bounds index n ≡ some i → i < n
in_bounds-lt index n i h = ground arith

exhaust_at-spent :
    (p : KeyPool) (i : ℕ) (code : String) (body : Bytes) (now : Time)
    → i < length p.entries
    → (get_or (exhaust_at p i code body now).entries i blank).exhausted ≡ true
unfolding exhaust_at
exhaust_at-spent p i code body now lt =
    let (e, at) = get_elem?-eq-some p.entries i lt in
    let c = cooldown_of code (current_reset p now) now in
    ap (λ (x : KeyEntry). x.exhausted)
      (get_or-eq (modify (exhausted_by c body now) i p.entries) i blank
        (get_elem?-modify_self (exhausted_by c body now) p.entries i at))

length-exhaust_at :
    (p : KeyPool) (i : ℕ) (code : String) (body : Bytes) (now : Time)
    → length (exhaust_at p i code body now).entries ≡ length p.entries
unfolding exhaust_at
length-exhaust_at p i code body now = length-modify _ i p.entries

first_mark :
    (p : KeyPool) (index : ℤ) (i : ℕ) (code : String) (body : Bytes) (now : Time)
    → in_bounds index (length p.entries) ≡ some i
    → (get_or p.entries i blank).exhausted ≡ false
    → mark_exhausted_with_error p index code body now ≡ exhaust_at p i code body now
unfolding mark_exhausted_with_error
first_mark p index i code body now here fresh = rw (here, fresh, mark_exhausted_with_error)

-- A mark of a key that was just marked changes nothing, whatever the two codes, bodies and times
-- are: the first reason and the first cooldown stand.
pub mark_exhausted_again :
    (p : KeyPool) (index : ℤ) (code code' : String) (body body' : Bytes) (now now' : Time)
    → let q = mark_exhausted_with_error p index code body now in
      mark_exhausted_with_error q index code' body' now' ≡ q
mark_exhausted_again p index code code' body body' now now' =
    elim (Option-cases (in_bounds index (length p.entries))) [
      | inl out ↦
          rw (out_of_bounds p index code body now out) (out_of_bounds p index code' body' now' out)
      | inr (i, here) ↦ elim (Bool-cases (get_or p.entries i blank).exhausted) [
        | inl spent ↦
            rw (already_exhausted p index i code body now here spent)
              (already_exhausted p index i code' body' now' here spent)
        | inr fresh ↦ rw (first_mark p index i code body now here fresh) (
            already_exhausted (exhaust_at p i code body now) index i code' body' now'
              (rw (length-exhaust_at p i code body now) here)
              (exhaust_at-spent p i code body now (in_bounds-lt index (length p.entries) i here)))
      ]
    ]

-- A mark of a key that is active exhausts it: it rests, since the time of the call, until a time ahead;
-- its manual block stays, so do the other entries; and a second mark of it changes nothing, whatever
-- its code, body and time are.
pub mark_exhausted-lasts :
    (p : KeyPool) (i : ℕ) (code code' : String) (body body' : Bytes) (now now' : Time)
    → i < length p.entries
    → (get_or p.entries i blank).exhausted ≡ false
    → now < permanent_end
    → let q = mark_exhausted_with_error p (pos i) code body now in
      Exhausts p i now q × (mark_exhausted_with_error q (pos i) code' body' now' ≡ q)
mark_exhausted-lasts p i code code' body body' now now' lt fresh soon = (
  mark_exhausted-Exhausts p i code body now lt fresh soon,
  mark_exhausted_again p (pos i) code code' body body' now now',
)
