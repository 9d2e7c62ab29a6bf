-- ===== src/TraceStore/Answers.antt =====
-- internal/tracestore/store.go: what the queries answer from memory, and the run of a store.
use llms_proxy.Base.{
  ℕ, zero, suc, ◌+◌, ◌-◌, ◌%◌, ◌≤◌, ◌<◌, ◌≡◌, refl, sym, ap, ◌∙◌, ◌⊎◌, inl, inr, Bool, true, false,
  Option, some, List, [], ◌∷◌, String, length, get_or, take, drop, ltb, arith, eq_iff, map-take,
  take-all, ltb→lt, if◌then◌else◌,
}
use llms_proxy.Base.Maps.{Map, lookup}
use llms_proxy.Base.Strings.{is_blank, member}
use llms_proxy.TraceStore.{TraceRecord, Store, newest_keys, cons_found, load_all, memory_results}
use llms_proxy.TraceStore.Recent.{Recent, find}
use llms_proxy.TraceStore.Slots.{slot}
use llms_proxy.TraceStore.Refine.{ids, DistinctIds, Holds}

-- Each of the records is what its id is mapped to.
abbrev AllMapped : (String → Option TraceRecord) → Recent → Type 0
AllMapped f [] = Unit
AllMapped f (r ∷ rs) = (f r.trace_id ≡ some r) × AllMapped f rs

load_all-ids :
    (ring : Map TraceRecord) (rs : Recent)
    → AllMapped (λ id. lookup id ring) rs
    → load_all ring (ids rs) ≡ rs
unfolding load_all
load_all-ids ring [] h = refl
load_all-ids ring (r ∷ rs) (h, hs) =
    ap (λ o. cons_found o (load_all ring (ids rs))) h ∙ ap (λ xs. r ∷ xs) (load_all-ids ring rs hs)

AllMapped-find_cons :
    (r : TraceRecord) (all rs : Recent)
    → member r.trace_id (ids rs) ≡ false
    → AllMapped (λ id. find id all) rs
    → AllMapped (λ id. find id (r ∷ all)) rs
unfolding find member
AllMapped-find_cons r all [] h a = tt
AllMapped-find_cons r all (t ∷ ts) h (e, es) = (
  ground (arith, h, e, eq_iff t.trace_id r.trace_id, eq_iff r.trace_id t.trace_id),
  AllMapped-find_cons r all ts (ground (arith, h)) es,
)

AllMapped-find : (rs : Recent) → DistinctIds rs → AllMapped (λ id. find id rs) rs
unfolding find
AllMapped-find [] d = tt
AllMapped-find (r ∷ rs) (b, fresh, d) = (
  ground (arith, eq_iff r.trace_id r.trace_id),
  AllMapped-find_cons r rs rs fresh (AllMapped-find rs d),
)

AllMapped-change :
    (f g : String → Option TraceRecord) (rs : Recent)
    → ((id : String) → is_blank id ≡ false → g id ≡ f id)
    → DistinctIds rs
    → AllMapped f rs
    → AllMapped g rs
AllMapped-change f g [] h d a = tt
AllMapped-change f g (r ∷ rs) h (b, fresh, d) (e, es) =
    (h r.trace_id b ∙ e, AllMapped-change f g rs h d es)

AllMapped-take :
    (f : String → Option TraceRecord) (n : ℕ) (rs : Recent)
    → AllMapped f rs
    → AllMapped f (take n rs)
AllMapped-take f zero rs a = tt
AllMapped-take f (suc n) [] a = tt
AllMapped-take f (suc n) (r ∷ rs) (e, es) = (e, AllMapped-take f n rs es)

-- Where the text at `i` is blank, no more follow.
drop_cases :
    (rs : Recent) (i : ℕ)
    → DistinctIds rs
    → ((is_blank (get_or (ids rs) i "") ≡ true) × (drop i (ids rs) ≡ []))
      ⊎ ((is_blank (get_or (ids rs) i "") ≡ false)
          × (drop i (ids rs) ≡ get_or (ids rs) i "" ∷ drop (suc i) (ids rs)))
drop_cases [] zero d = inl (refl, refl)
drop_cases [] (suc i) d = inl (refl, refl)
drop_cases (r ∷ rs) zero (b, fresh, d) = inr (b, refl)
drop_cases (r ∷ rs) (suc i) (b, fresh, d) = drop_cases rs i d

module _ (n : ℕ) (s : Store) (recent : Recent) (h : Holds n s recent) where
  -- The key at the i-th place from the newest.
  key_at :
      (i : ℕ)
      → i < n
      → get_or s.keys
          (((s.head + length s.keys - 1) % length s.keys + length s.keys - i) % length s.keys)
          ""
        ≡ get_or (ids recent) i ""
  key_at i k = ap (λ j. get_or s.keys (slot j s.head i) "") h.size ∙ h.in_order i k

  newest_keys-take :
      (count i : ℕ)
      → i + count ≤ n
      → newest_keys s.keys ((s.head + length s.keys - 1) % length s.keys) i count
        ≡ take count (drop i (ids recent))
  unfolding newest_keys
  newest_keys-take zero i k = refl
  newest_keys-take (suc count) i k = step (drop_cases recent i h.distinct) (
      ap (λ j. newest_keys s.keys ((s.head + length s.keys - 1) % length s.keys) j count)
        (omega arith)
      ∙ newest_keys-take count (suc i) (omega (arith, k)))
    where
      later : List String
      later = newest_keys s.keys ((s.head + length s.keys - 1) % length s.keys) (i + 1) count

      choose : String → List String
      choose key = if is_blank key then [] else key ∷ later

      step :
          ((is_blank (get_or (ids recent) i "") ≡ true) × (drop i (ids recent) ≡ []))
            ⊎ ((is_blank (get_or (ids recent) i "") ≡ false)
                × (drop i (ids recent) ≡ get_or (ids recent) i "" ∷ drop (suc i) (ids recent)))
          → later ≡ take count (drop (suc i) (ids recent))
          → choose (
              get_or s.keys
                (((s.head + length s.keys - 1) % length s.keys + length s.keys - i) % length s.keys)
                "")
            ≡ take (suc count) (drop i (ids recent))
      step (inl (b, e)) l = ap choose (key_at i (omega (arith, k))) ∙ rw (b, e) refl
      step (inr (b, e)) l =
          ap choose (key_at i (omega (arith, k)))
          ∙ rw (b, e) (ap (λ ks. get_or (ids recent) i "" ∷ ks) l)

  -- What List reads from memory are the newest records.
  pub memory_results-take : (needed : ℕ) → memory_results s needed ≡ take needed recent
  unfolding memory_results
  memory_results-take needed =
      ap (load_all s.ring) (
        newest_keys-take count 0 (omega (arith, at_most (ltb needed (length s.keys)) refl))
        ∙ sym (map-take (λ r. r.trace_id) count recent))
      ∙ load_all-ids s.ring (take count recent) (
          AllMapped-take (λ id. lookup id s.ring) count recent
            (AllMapped-change (λ id. find id recent) (λ id. lookup id s.ring) recent h.found
              h.distinct (AllMapped-find recent h.distinct)))
      ∙ enough (ltb needed (length s.keys)) refl
    where
      count : ℕ
      count = if ltb needed (length s.keys) then needed else length s.keys

      at_most :
          (b : Bool) → ltb needed (length s.keys) ≡ b → (if b then needed else length s.keys) ≤ n
      at_most true e = omega (arith, ltb→lt needed (length s.keys) e, h.size)
      at_most false e = omega (arith, h.size)

      enough :
          (b : Bool)
          → ltb needed (length s.keys) ≡ b
          → take (if b then needed else length s.keys) recent ≡ take needed recent
      enough true e = refl
      enough false e =
          take-all recent (length s.keys) needed (omega (arith, h.size, h.fits))
            (ground (arith, h.size, h.fits, e))
