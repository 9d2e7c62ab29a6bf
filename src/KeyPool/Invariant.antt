-- ===== src/KeyPool/Invariant.antt =====
-- When a key pool of internal/proxy/keypool.go is well formed.
use llms_proxy.Base.{
  ℕ, zero, suc, ◌^◌, ◌≤◌, ◌<◌, ◌≡◌, sym, ap, ◌∙◌, false, String, List, [], ◌∷◌, map, length, modify,
  length-modify, length-map, arith,
}
use llms_proxy.Base.Time.{Time}
use llms_proxy.KeyPool.State.{KeyEntry, KeyPool, recovered}
use llms_proxy.KeyPool.Load.{cutoff, prune_entry}
use llms_proxy.KeyPool.Balance.{settle}
use llms_proxy.KeyPool.Binding.Eviction.{Bound}
use llms_proxy.KeyPool.Binding.Bind.{Binds}
use llms_proxy.KeyPool.Select.{recover_at, advance}

abbrev pub All {ℓ κ} : {A : Type ℓ} → (A → Type κ) → List A → Type κ
All P [] = Unit
All P (x ∷ xs) = P x × All P xs

pub All-modify {ℓ κ} :
    {A : Type ℓ} (P : A → Type κ) (f : A → A)
    → ((x : A) → P x → P (f x))
    → (i : ℕ) (xs : List A) → All P xs
    → All P (modify f i xs)
All-modify P f keep i [] h = h
All-modify P f keep zero (x ∷ xs) h = (keep x h.0, h.1)
All-modify P f keep (suc i) (x ∷ xs) h = (h.0, All-modify P f keep i xs h.1)

-- A key that is not exhausted carries nothing of a past exhaustion but its last error.
pub record Rested (e : KeyEntry) : Type 0 where
  pub no_reason : e.exhausted ≡ false → e.exhaust_reason ≡ ""
  pub no_start : e.exhausted ≡ false → e.exhausted_at ≡ 0
  pub no_end : e.exhausted ≡ false → e.cooldown_end ≡ 0

-- A pool is well formed: a counter for each key, a 32-bit turn, keys that carry no stale cooldown,
-- and bindings to keys that exist, kept in step and within the limit.
pub record IsValid (p : KeyPool) : Type 0 where
  pub flights : length p.in_flight ≡ length p.entries
  pub counter : p.rr_counter < 2 ^ 32
  pub rested : All Rested p.entries
  pub bound : Bound (length p.entries) p
  pub within : length p.client_affinity ≤ p.max_affinity_entries
  pub room : 0 < p.max_affinity_entries

-- A change of the entries alone, entry by entry.
pub modify_entries-IsValid :
    (p : KeyPool) (f : KeyEntry → KeyEntry) (i : ℕ)
    → ((e : KeyEntry) → Rested e → Rested (f e))
    → IsValid p
    → IsValid (record p { entries = modify f i p.entries })
modify_entries-IsValid p f i keep v = record {
  flights = v.flights ∙ sym (length-modify f i p.entries);
  counter = v.counter;
  rested = All-modify Rested f keep i p.entries v.rested;
  bound = rw (length-modify f i p.entries) v.bound;
  within = v.within;
  room = v.room;
}

pub prune-Rested : (limit : Time) (e : KeyEntry) → Rested e → Rested (prune_entry limit e)
prune-Rested limit e r = ground (arith, r)

pub recovered-Rested : (e : KeyEntry) → Rested (recovered e)
recovered-Rested e = ground arith

pub recover_at-IsValid : (p : KeyPool) (i : ℕ) → IsValid p → IsValid (recover_at p i)
unfolding recover_at
recover_at-IsValid p i v = modify_entries-IsValid p recovered i (λ e _. recovered-Rested e) v

pub advance-IsValid : (p : KeyPool) → IsValid p → IsValid (advance p)
unfolding advance
advance-IsValid p v = record {
  flights = v.flights;
  counter = omega arith;
  rested = v.rested;
  bound = v.bound;
  within = v.within;
  room = v.room;
}

-- A pool that settles alike is as well formed.
unprune-Rested :
    (limit : Time) (es : List KeyEntry) → All Rested (map (prune_entry limit) es) → All Rested es
unprune-Rested limit [] h = tt
unprune-Rested limit (e ∷ es) h = (
  record { no_reason = h.0.no_reason; no_start = h.0.no_start; no_end = h.0.no_end },
  unprune-Rested limit es h.1,
)

settle-IsValid : (p : KeyPool) (now : Time) → IsValid p → IsValid (settle p now)
unfolding settle
settle-IsValid p now v = record {
  flights = v.flights ∙ sym (length-map (prune_entry (cutoff p now)) p.entries);
  counter = v.counter;
  rested = pruned p.entries v.rested;
  bound = rw (length-map (prune_entry (cutoff p now)) p.entries) v.bound;
  within = v.within;
  room = v.room;
}
  where
    pruned : (es : List KeyEntry) → All Rested es → All Rested (map (prune_entry (cutoff p now)) es)
    pruned [] h = tt
    pruned (e ∷ es) h = (prune-Rested (cutoff p now) e h.0, pruned es h.1)

unsettle-IsValid : (p : KeyPool) (now : Time) → IsValid (settle p now) → IsValid p
unfolding settle
unsettle-IsValid p now v = record {
  flights = v.flights ∙ length-map (prune_entry (cutoff p now)) p.entries;
  counter = v.counter;
  rested = unprune-Rested (cutoff p now) p.entries v.rested;
  bound = rw (length-map (prune_entry (cutoff p now)) p.entries) at v.bound;
  within = v.within;
  room = v.room;
}

pub settles-IsValid :
    (p q : KeyPool) (now : Time) → settle q now ≡ settle p now → IsValid p → IsValid q
settles-IsValid p q now h v = unsettle-IsValid q now (rw h (settle-IsValid p now v))

-- A binding of a valid index keeps a pool well formed.
pub Binds-IsValid :
    (p q : KeyPool) (name : String) (i : ℕ) (now : Time)
    → IsValid p
    → Binds (length p.entries) p name i now q
    → IsValid q
Binds-IsValid p q name i now v b =
    let same = b.trims.same_core in
    let entries = ap (λ (s : KeyPool). s.entries) same in
    record {
      flights = ap (λ (s : KeyPool). length s.in_flight) same ∙ v.flights ∙ ap length (sym entries);
      counter = rw (ap (λ (s : KeyPool). s.rr_counter) same) v.counter;
      rested = rw entries v.rested;
      bound = rw entries b.trims.bound;
      within = b.within;
      room = rw (ap (λ (s : KeyPool). s.max_affinity_entries) same) v.room;
    }
