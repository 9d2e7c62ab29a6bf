-- ===== src/KeyPool/Binding/Bind.antt =====
-- `bindLocked` of internal/proxy/keypool.go.
use text.Mathlib.TextPositions.{eq_refl}
use llms_proxy.Base.{
  ℕ, suc, ◌≤◌, ◌<◌, ◌≡◌, refl, ap, ◌∙◌, inl, inr, false, String, str_eq, some, length, arith,
  Bool-cases, if◌then◌else◌,
}
use llms_proxy.Base.Maps.{lookup, has, lookup-insert, has-insert, length-insert, insert-Distinct}
use llms_proxy.Base.Time.{Time}
use llms_proxy.KeyPool.State.{KeyPool}
use llms_proxy.KeyPool.Binding.{evict_stale_affinity, write_binding, bind}
use llms_proxy.KeyPool.Binding.Eviction.{Bound, core, Trims, evict_stale_affinity-room}

-- A write of a valid index under a proper name.
write_binding-Bound :
    (n : ℕ) (name : String) (i : ℕ) (now : Time) (p : KeyPool)
    → Bound n p
    → i < n
    → str_eq name "" ≡ false
    → Bound n (write_binding name i now p)
unfolding write_binding
write_binding-Bound n name i now p b lt named = record {
  in_range = λ k j h. ground (arith, b.in_range k j, lookup-insert name k i p.client_affinity);
  synced = λ k. ground (
    arith,
    b.synced k,
    has-insert name k i p.client_affinity,
    has-insert name k now p.client_affinity_at,
  );
  named = ground (arith, b.named, has-insert name "" i p.client_affinity);
  distinct = insert-Distinct name i p.client_affinity b.distinct;
  distinct_at = insert-Distinct name now p.client_affinity_at b.distinct_at;
}

write_binding-core :
    (name : String) (i : ℕ) (now : Time) (p : KeyPool) → core (write_binding name i now p) ≡ core p
unfolding write_binding
write_binding-core name i now p = refl

-- After `bind` the client has the key, and its stamp is the time of the call.
write_binding-lookup :
    (name : String) (i : ℕ) (now : Time) (p : KeyPool)
    → (lookup name (write_binding name i now p).client_affinity ≡ some i)
      × (lookup name (write_binding name i now p).client_affinity_at ≡ some now)
unfolding write_binding
write_binding-lookup name i now p = ground (
  arith,
  eq_refl name,
  lookup-insert name name i p.client_affinity,
  lookup-insert name name now p.client_affinity_at,
)

write_binding-length :
    (name : String) (i : ℕ) (now : Time) (p : KeyPool)
    → length (write_binding name i now p).client_affinity ≡ (
        if has name p.client_affinity
        then length p.client_affinity
        else suc (length p.client_affinity))
unfolding write_binding
write_binding-length name i now p = length-insert name i p.client_affinity

write_binding-within :
    (name : String) (i : ℕ) (now : Time) (p : KeyPool)
    → length (write_binding name i now p).client_affinity ≤ p.max_affinity_entries
    → length (write_binding name i now p).client_affinity
      ≤ (write_binding name i now p).max_affinity_entries
unfolding write_binding
write_binding-within name i now p h = h

length-insert-le :
    (name : String) (i : ℕ) (now : Time) (p : KeyPool)
    → length (write_binding name i now p).client_affinity ≤ suc (length p.client_affinity)
length-insert-le name i now p = ground (arith, write_binding-length name i now p)

-- What `bind` does: the client is bound to the key from now on, the bindings stay well formed and
-- within the limit, and nothing but the bindings changes.
pub record Binds (n : ℕ) (p : KeyPool) (name : String) (i : ℕ) (now : Time) (q : KeyPool)
    : Type 0 where
  pub trims : Trims n p q
  pub within : length q.client_affinity ≤ q.max_affinity_entries
  pub bound_to : lookup name q.client_affinity ≡ some i
  pub stamped : lookup name q.client_affinity_at ≡ some now

-- On well-formed bindings within a positive limit, a named client is bound to a key in range: it is
-- bound to that key from now on, the bindings are well formed and within the limit, and nothing but the
-- bindings changes.
pub bind-Binds :
    (n : ℕ) (p : KeyPool) (name : String) (i : ℕ) (now : Time)
    → Bound n p
    → 0 < p.max_affinity_entries
    → length p.client_affinity ≤ p.max_affinity_entries
    → i < n
    → str_eq name "" ≡ false
    → Binds n p name i now (bind p name i now)
unfolding bind
bind-Binds n p name i now b room le lt named =
    let evicted = evict_stale_affinity-room n p now b room in
    let stay : Trims n p p = record { bound = b; same_core = refl } in
    elim (Bool-cases (has name p.client_affinity)) [
      | inl old ↦ rw (old, bind) (written p stay (rw (write_binding-length name i now p, old) le))
      | inr new ↦
          rw (new, bind)
            (written (evict_stale_affinity p now) evicted.0 (
              ground (
                arith,
                length-insert-le name i now (evict_stale_affinity p now),
                ap (λ (s : KeyPool). s.max_affinity_entries) evicted.0.same_core,
                evicted.1,
              )))
    ]
  where
    written :
        (q : KeyPool)
        → Trims n p q
        → length (write_binding name i now q).client_affinity ≤ q.max_affinity_entries
        → Binds n p name i now (write_binding name i now q)
    written q t fits = record {
      trims = record {
        bound = write_binding-Bound n name i now q t.bound lt named;
        same_core = write_binding-core name i now q ∙ t.same_core;
      };
      within = write_binding-within name i now q fits;
      bound_to = (write_binding-lookup name i now q).0;
      stamped = (write_binding-lookup name i now q).1;
    }
