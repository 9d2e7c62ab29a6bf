-- ===== src/TraceStore/Refine.antt =====
-- internal/tracestore/store.go: the store holds the last records.
use llms_proxy.Base.{
  ℕ, zero, suc, ◌+◌, ◌%◌, ◌≤◌, ◌<◌, ◌≡◌, refl, sym, ap, subst, ◌∙◌, false, none, List, [], ◌∷◌, map,
  String, str_eq, length, get_or, take, length-modify, length-take-le, map-take, arith, eq_iff,
  if◌then◌else◌,
}
use llms_proxy.Base.Maps.{Map, lookup, insert, lookup-insert, lookup-delete}
use llms_proxy.Base.Strings.{is_blank, member}
use llms_proxy.TraceStore.{TraceRecord, Store, forget, set_key, remember}
use llms_proxy.TraceStore.Recent.{Recent, add, find}
use llms_proxy.TraceStore.Slots.{slot, InOrder, InOrder-write, slot-oldest, next_lt}

abbrev pub ids : Recent → List String
ids rs = map (λ r. r.trace_id) rs

-- No id is blank, and none stands twice.
abbrev pub DistinctIds : Recent → Type 0
DistinctIds [] = Unit
DistinctIds (r ∷ rs) =
    (is_blank r.trace_id ≡ false) × (member r.trace_id (ids rs) ≡ false) × DistinctIds rs

get_or-ne :
    (x : String) (xs : List String) (i : ℕ)
    → is_blank x ≡ false
    → member x xs ≡ false
    → str_eq (get_or xs i "") x ≡ false
unfolding member
get_or-ne x [] i b m = ground (arith, eq_iff "" x, eq_iff x "", b)
get_or-ne x (y ∷ ys) zero b m = ground arith
get_or-ne x (y ∷ ys) (suc i) b m = get_or-ne x ys i b (ground arith)

-- What is found once the oldest of `suc n` records is gone.
find-take :
    (n : ℕ) (id : String) (rs : Recent)
    → length rs ≤ suc n
    → DistinctIds rs
    → find id (take n rs) ≡ (if str_eq (get_or (ids rs) n "") id then none else find id rs)
unfolding find
find-take zero id [] h d = ground arith
find-take (suc n) id [] h d = ground arith
find-take zero id (r ∷ []) h d = ground arith
find-take zero id (r ∷ s ∷ rs) h d = absurd (omega arith)
find-take (suc n) id (r ∷ rs) h (b, fresh, d) = ground (
  arith,
  find-take n id rs (omega (arith, h)) d,
  get_or-ne r.trace_id (ids rs) n b fresh,
  eq_iff r.trace_id id,
)

-- Absence of an id: `find` and `member` agree.
find-fresh : (id : String) (rs : Recent) → member id (ids rs) ≡ false → find id rs ≡ none
unfolding find member
find-fresh id [] h = refl
find-fresh id (r ∷ rs) h = ground (arith, find-fresh id rs)

-- The store's memory holds the records `recent`, of `n` at most.
pub record Holds (n : ℕ) (s : Store) (recent : Recent) : Type 0 where
  pub size : length s.keys ≡ n
  pub head_in : s.head < n
  pub fits : length recent ≤ n
  pub distinct : DistinctIds recent
  pub in_order : InOrder "" n s.keys s.head (ids recent)
  pub found : (id : String) → is_blank id ≡ false → lookup id s.ring ≡ find id recent

pub member-take :
    (x : String) (xs : List String) (n : ℕ) → member x xs ≡ false → member x (take n xs) ≡ false
unfolding member
member-take x xs zero h = refl
member-take x [] (suc n) h = refl
member-take x (y ∷ ys) (suc n) h = ground (arith, member-take x ys n)

DistinctIds-take : (n : ℕ) (rs : Recent) → DistinctIds rs → DistinctIds (take n rs)
DistinctIds-take zero rs d = tt
DistinctIds-take (suc n) [] d = tt
DistinctIds-take (suc n) (r ∷ rs) (b, fresh, d) = (
  b,
  rw (map-take (λ t. t.trace_id) n rs) (member-take r.trace_id (ids rs) n fresh),
  DistinctIds-take n rs d,
)

lookup-forget :
    (old id : String) (ring : Map TraceRecord)
    → is_blank id ≡ false
    → lookup id (forget old ring) ≡ (if str_eq old id then none else lookup id ring)
lookup-forget old id ring b =
    ground (arith, lookup-delete old id ring, eq_iff old "", eq_iff old id, eq_iff id "")

module _ (m : ℕ) (s : Store) (r : TraceRecord) (recent : Recent) (h : Holds (suc m) s recent)
    (named : is_blank r.trace_id ≡ false) (fresh : member r.trace_id (ids recent) ≡ false) where
  abbrev after : Store
  after = remember s r (get_or s.keys s.head "")

  oldest-eq : get_or s.keys s.head "" ≡ get_or (ids recent) m ""
  oldest-eq =
      ap (λ i. get_or s.keys i "") (sym (slot-oldest m s.head h.head_in))
      ∙ h.in_order m (omega arith)

  remember-found :
      (id : String) → is_blank id ≡ false → lookup id after.ring ≡ find id (add (suc m) r recent)
  unfolding remember add find
  remember-found id b = ground (
    arith,
    lookup-forget (get_or s.keys s.head "") id (insert r.trace_id r s.ring) b,
    lookup-insert r.trace_id id r s.ring,
    oldest-eq,
    get_or-ne r.trace_id (ids recent) m named fresh,
    find-take m id recent h.fits h.distinct,
    h.found id b,
    eq_iff r.trace_id id,
  )

  head-eq : (s.head + 1) % length s.keys ≡ (s.head + 1) % suc m
  head-eq = ap (λ k. (s.head + 1) % k) h.size

  remember-InOrder : InOrder "" (suc m) after.keys after.head (ids (add (suc m) r recent))
  unfolding remember add
  remember-InOrder i k =
      ap (λ j. get_or (set_key r.trace_id s.head s.keys) (slot (suc m) j i) "") head-eq
      ∙ InOrder-write "" r.trace_id m s.keys s.head (ids recent) h.size h.head_in h.in_order i k
      ∙ ap (λ xs. get_or xs i "") (sym (map-take (λ t. t.trace_id) (suc m) (r ∷ recent)))

  pub remember-Holds : Holds (suc m) after (add (suc m) r recent)
  unfolding remember add
  remember-Holds = record {
    size = length-modify (λ _. r.trace_id) s.head s.keys ∙ h.size;
    head_in = subst (λ j. j < suc m) (sym head-eq) (next_lt (suc m) s.head h.head_in);
    fits = length-take-le (r ∷ recent) (suc m);
    distinct = DistinctIds-take (suc m) (r ∷ recent) (named, fresh, h.distinct);
    in_order = remember-InOrder;
    found = remember-found;
  }
