-- ===== src/TraceStore/Run.antt =====
-- internal/tracestore/store.go: a store that records one trace after the other holds the last of them.
use llms_proxy.Base.Int.{pos, add_int64}
use llms_proxy.Base.{
  ◌++◌, get_elem?, get_elem?-eq-some, get_or-eq, ℕ, zero, suc, ◌<◌, ◌≡◌, refl, sym, ap, subst, ◌∙◌,
  Bool, true, false, Option, none, some, List, [], ◌∷◌, map, length, get_or, ltb, arith, eq_iff,
  map-take, if◌then◌else◌,
}
use llms_proxy.Base.Maps.{lookup}
use llms_proxy.Base.Strings.{is_blank, member}
use llms_proxy.TraceStore.{
  TraceRecord, TraceConfig, Store, new_store, blank_keys, truncated, remember, enqueue, record_at,
  record_trace,
}
use llms_proxy.TraceStore.Recent.{Recent, add, find, add_all}
use llms_proxy.TraceStore.Slots.{slot}
use llms_proxy.TraceStore.Refine.{ids, DistinctIds, Holds, remember-Holds, member-take}

blank_keys-blank : (n i : ℕ) → get_or (blank_keys n) i "" ≡ ""
blank_keys-blank zero i = refl
blank_keys-blank (suc n) zero = refl
blank_keys-blank (suc n) (suc i) = blank_keys-blank n i

length-blank_keys : (n : ℕ) → length (blank_keys n) ≡ n
length-blank_keys zero = refl
length-blank_keys (suc n) = ap suc (length-blank_keys n)

pub new_store-Holds :
    (cfg : TraceConfig) (has_writer : Bool) (m : ℕ)
    → cfg.enabled ≡ true
    → cfg.ring_buffer_size ≡ suc m
    → Holds (suc m) (new_store cfg has_writer) []
unfolding new_store lookup find
new_store-Holds cfg has_writer m on size = record {
  size = ap length keys ∙ length-blank_keys (suc m);
  head_in = omega arith;
  fits = omega arith;
  distinct = tt;
  in_order = λ i k.
      ap (λ ks. get_or ks (slot (suc m) 0 i) "") keys ∙ blank_keys-blank (suc m) (slot (suc m) 0 i);
  found = λ id b. refl;
}
  where
    keys : (if cfg.enabled then blank_keys cfg.ring_buffer_size else []) ≡ blank_keys (suc m)
    keys = rw (on, size) refl

and_then : Option Store → (Store → Option Store) → Option Store
and_then none f = none
and_then (some s) f = f s

-- The calls of Record one after the other.
unfoldable pub record_all : Store → List TraceRecord → Option Store
unfolding and_then
record_all s [] = some s
record_all s (r ∷ rs) = and_then (record_trace s r) (λ t. record_all t rs)

same_memory :
    (n : ℕ) (s t : Store) (recent : Recent)
    → t.keys ≡ s.keys
    → t.head ≡ s.head
    → t.ring ≡ s.ring
    → Holds n s recent
    → Holds n t recent
same_memory n s t recent k e r h = record {
  size = ap length k ∙ h.size;
  head_in = subst (λ j. j < n) (sym e) h.head_in;
  fits = h.fits;
  distinct = h.distinct;
  in_order = λ i b. cc (k, e, h.in_order i b);
  found = λ id b. ap (lookup id) r ∙ h.found id b;
}

enqueue-Holds :
    (n : ℕ) (s : Store) (r : TraceRecord) (recent : Recent)
    → s.closed ≡ false
    → Holds n s recent
    → (t : Store) × (enqueue s r ≡ some t) × (t.cfg ≡ s.cfg) × (t.closed ≡ false) × Holds n t recent
unfolding enqueue
enqueue-Holds n s r recent still_open h = step (ltb (length s.queue) s.cfg.channel_buffer)
  where
    queued : Store
    queued = record s { queue = s.queue ++ (r ∷ []) }

    dropped : Store
    dropped = record s { dropped_records = add_int64 s.dropped_records (pos 1) }

    step :
        (b : Bool)
        → (t : Store) × ((if s.closed then none else if b then some queued else some dropped)
            ≡ some t)
          × (t.cfg ≡ s.cfg)
          × (t.closed ≡ false)
          × Holds n t recent
    step true = (
      queued,
      simp (still_open),
      refl,
      still_open,
      same_memory n s queued recent refl refl refl h,
    )
    step false = (
      dropped,
      simp (still_open),
      refl,
      still_open,
      same_memory n s dropped recent refl refl refl h,
    )

record_trace-Holds :
    (m : ℕ) (s : Store) (r : TraceRecord) (recent : Recent)
    → s.cfg.enabled ≡ true
    → s.closed ≡ false
    → Holds (suc m) s recent
    → is_blank r.trace_id ≡ false
    → member r.trace_id (ids recent) ≡ false
    → (t : Store) × (record_trace s r ≡ some t)
      × (t.cfg ≡ s.cfg)
      × (t.closed ≡ false)
      × Holds (suc m) t (add (suc m) (truncated s.cfg.max_body_size r) recent)
unfolding record_trace remember
record_trace-Holds m s r recent on still_open h named fresh =
    let (t, e, same, open_yet, held) =
      enqueue-Holds (suc m) (remember s q (get_or s.keys s.head "")) q (add (suc m) q recent)
        still_open (remember-Holds m s q recent h named fresh) in
    (t, switched ∙ ap (record_at s q) at_head ∙ e, same, open_yet, held)
  where
    q : TraceRecord
    q = truncated s.cfg.max_body_size r

    switched :
        (if s.cfg.enabled then record_at s q (get_elem? s.keys s.head) else some s)
        ≡ record_at s q (get_elem? s.keys s.head)
    switched = ap (λ b. if b then record_at s q (get_elem? s.keys s.head) else some s) on

    at_head : get_elem? s.keys s.head ≡ some (get_or s.keys s.head "")
    at_head =
        let (k, e) = get_elem?-eq-some s.keys s.head (omega (arith, h.size, h.head_in)) in
        e ∙ ap some (sym (get_or-eq s.keys s.head "" e))

-- None of the records to come has the id of one that is held.
abbrev pub Apart : Recent → List TraceRecord → Type 0
Apart recent [] = Unit
Apart recent (r ∷ rs) = (member r.trace_id (ids recent) ≡ false) × Apart recent rs

Apart-add :
    (n : ℕ) (r : TraceRecord) (recent : Recent) (rs : List TraceRecord)
    → member r.trace_id (ids rs) ≡ false
    → Apart recent rs
    → Apart (add n r recent) rs
unfolding add member
Apart-add n r recent [] h a = tt
Apart-add n r recent (t ∷ ts) h (b, a) = (
  rw (map-take (λ x. x.trace_id) n (r ∷ recent)) (
      member-take t.trace_id (r.trace_id ∷ ids recent) n
        (ground (arith, h, b, eq_iff t.trace_id r.trace_id, eq_iff r.trace_id t.trace_id))),
  Apart-add n r recent ts (ground (arith, h)) a,
)

pub record_all-Holds :
    (m : ℕ) (rs : List TraceRecord) (s : Store) (recent : Recent)
    → s.cfg.enabled ≡ true
    → s.closed ≡ false
    → Holds (suc m) s recent
    → DistinctIds rs
    → Apart recent rs
    → (t : Store) × (record_all s rs ≡ some t)
      × (t.cfg ≡ s.cfg)
      × Holds (suc m) t (add_all (suc m) recent (map (truncated s.cfg.max_body_size) rs))
unfolding record_all add_all
record_all-Holds m [] s recent on still_open h d a = (s, refl, refl, h)
record_all-Holds m (r ∷ rs) s recent on still_open h (named, once, d) (fresh, a) =
    let (t, e, same, open_yet, held) =
      record_trace-Holds m s r recent on still_open h named fresh in
    let (u, f, same', held') =
      record_all-Holds m rs t (add (suc m) (truncated s.cfg.max_body_size r) recent)
        (ap (λ c. c.enabled) same ∙ on) open_yet held d
        (Apart-add (suc m) (truncated s.cfg.max_body_size r) recent rs once a) in
    (
      u,
      ap (λ o. and_then o (λ x. record_all x rs)) e ∙ f,
      same' ∙ same,
      subst
          (λ c. Holds (suc m) u (
            add_all (suc m) (add (suc m) (truncated s.cfg.max_body_size r) recent)
              (map (truncated c.max_body_size) rs)))
          same held',
    )
