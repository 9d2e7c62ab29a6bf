-- ===== src/KeyPool/Keeping.antt =====
-- The selections of internal/proxy/keypool.go, and what they keep of a pool.
pub mod Calls
use llms_proxy.Base.{
  ℕ, ◌≡◌, refl, sym, ap, ◌∙◌, inl, inr, Bool, String, str_eq, none, List, [], ◌∷◌, map, length,
  modify, map-modify, ◌==◌, Bool-cases, Option-cases,
}
use llms_proxy.Base.Text.{Bytes}
use llms_proxy.Base.Time.{Time}
use llms_proxy.KeyPool.State.{KeyEntry, KeyPool, recovered}
use llms_proxy.KeyPool.Invariant.{
  Rested, recovered-Rested, IsValid, modify_entries-IsValid, advance-IsValid,
}
use llms_proxy.KeyPool.Select.{
  first_active, first_recoverable, recover_at, advance, probe, best_probe, scan, select_exhausted,
  select_key, select_key_for_client, select_next_active_key,
}
use llms_proxy.KeyPool.Select.Serve.{label}
use llms_proxy.KeyPool.Select.Client.{select_key_for_client-Outcome}

-- A pool that is well formed and has the keys that `p` had.
pub record Keeps (p q : KeyPool) : Type 0 where
  pub valid : IsValid q
  pub same_keys : map (λ e. e.key) q.entries ≡ map (λ e. e.key) p.entries

pub stay-Keeps : (p : KeyPool) → IsValid p → Keeps p p
stay-Keeps p v = record { valid = v; same_keys = refl }

pub Keeps-trans : {p q r : KeyPool} → Keeps p q → Keeps q r → Keeps p r
Keeps-trans a b = record { valid = b.valid; same_keys = b.same_keys ∙ a.same_keys }

-- A change of one entry that keeps its key and leaves no stale cooldown.
pub modify-Keeps :
    (p : KeyPool) (f : KeyEntry → KeyEntry) (i : ℕ)
    → ((e : KeyEntry) → Rested e → Rested (f e))
    → ((e : KeyEntry) → (f e).key ≡ e.key)
    → IsValid p
    → Keeps p (record p { entries = modify f i p.entries })
modify-Keeps p f i rests key v = record {
  valid = modify_entries-IsValid p f i rests v;
  same_keys = map-modify (λ (e : KeyEntry). e.key) f key i p.entries;
}

recover_at-Keeps : (p : KeyPool) (i : ℕ) → IsValid p → Keeps p (recover_at p i)
unfolding recover_at
recover_at-Keeps p i v = modify-Keeps p recovered i (λ e _. recovered-Rested e) (λ e. refl) v

advance-Keeps : (p : KeyPool) → IsValid p → Keeps p (advance p)
advance-Keeps p v = record { valid = advance-IsValid p v; same_keys = unfold advance in refl }

exhausted-Keeps : (p : KeyPool) (now : Time) → IsValid p → Keeps p (select_exhausted p now).0
unfolding select_exhausted probe
exhausted-Keeps p now v = elim (Option-cases (first_recoverable now p.entries 0)) [
  | inr (i, eq) ↦ rw (eq, select_exhausted) (recover_at-Keeps p i v)
  | inl eq ↦ elim (Option-cases (best_probe now p.entries 0 none)) [
    | inl none_left ↦ rw (eq, none_left, select_exhausted, probe) (stay-Keeps p v)
    | inr (b, found_one) ↦ rw (eq, found_one, select_exhausted, probe) (stay-Keeps p v)
  ]
]

pub select_key-Keeps : (p : KeyPool) (now : Time) → IsValid p → Keeps p (select_key p now).0
unfolding select_key
select_key-Keeps p now v = elim (Bool-cases (length p.entries == 0)) [
  | inl empty ↦ rw (empty, select_key) (stay-Keeps p v)
  | inr full ↦ elim (Option-cases (scan p)) [
    | inl eq ↦ rw (full, eq, select_key) (exhausted-Keeps p now v)
    | inr (i, eq) ↦ rw (full, eq, select_key) (advance-Keeps p v)
  ]
]

pub next-Keeps :
    (p : KeyPool) (a : ℕ) (now : Time) → IsValid p → Keeps p (select_next_active_key p a now).0
unfolding select_next_active_key
next-Keeps p a now v = elim (Bool-cases (length p.entries == 0)) [
  | inl empty ↦ rw (empty, select_next_active_key) (stay-Keeps p v)
  | inr full ↦
      elim (Option-cases (first_active p.entries (length p.entries) a (length p.entries) 1)) [
        | inr (i, eq) ↦ rw (full, eq, select_next_active_key) (stay-Keeps p v)
        | inl eq ↦ elim (Option-cases (first_recoverable now p.entries 0)) [
          | inl none_left ↦ rw (full, eq, none_left, select_next_active_key) (stay-Keeps p v)
          | inr (i, some_left) ↦
              rw (full, eq, some_left, select_next_active_key) (recover_at-Keeps p i v)
        ]
      ]
]

keys-labels :
    (es : List KeyEntry) → map (λ (l : Bytes × Bool). l.0) (map label es) ≡ map (λ e. e.key) es
keys-labels [] = refl
keys-labels (e ∷ es) = ap (λ l. e.key ∷ l) (keys-labels es)

pub for_client-Keeps :
    (p : KeyPool) (name : String) (now : Time)
    → IsValid p
    → Keeps p (select_key_for_client p name now).0
unfolding select_key_for_client
for_client-Keeps p name now v = elim (Bool-cases (str_eq name "")) [
  | inr named ↦
      let o = select_key_for_client-Outcome p name now v named in
      record {
        valid = o.valid;
        same_keys =
            sym (keys-labels _)
            ∙ ap (map (λ (l : Bytes × Bool). l.0)) o.same_labels
            ∙ keys-labels p.entries;
      }
  | inl unnamed ↦ elim (Bool-cases (length p.entries == 0)) [
    | inl empty ↦ rw (empty, select_key_for_client) (stay-Keeps p v)
    | inr full ↦ rw (full, unnamed, select_key_for_client) (select_key-Keeps p now v)
  ]
]
