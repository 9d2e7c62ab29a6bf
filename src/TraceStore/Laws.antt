-- ===== src/TraceStore/Laws.antt =====
-- internal/tracestore/store.go: what Get and List answer from memory after any calls of Record.
use llms_proxy.Base.{
  ℕ, suc, ◌+◌, ◌≤◌, ◌<◌, ◌≡◌, refl, ap, ◌∙◌, Bool, true, false, ◌&&◌, Option, none, some, List, [],
  ◌∷◌, map, String, length, take, drop, ltb, leb, arith, take-drop-take, length-take, length-drop,
  lt→ltb, if◌then◌else◌,
}
use llms_proxy.Base.Maps.{lookup}
use llms_proxy.Base.Strings.{is_blank, member}
use llms_proxy.TraceStore.{TraceRecord, TraceConfig, Store, new_store, truncated, memory_results}
use llms_proxy.TraceStore.Recent.{Recent, find, page, add_all}
use llms_proxy.TraceStore.Query.{get, get_or_disk, list, page_or_disk}
use llms_proxy.TraceStore.Refine.{DistinctIds, Holds}
use llms_proxy.TraceStore.Answers.{memory_results-take}
use llms_proxy.TraceStore.Run.{Apart, record_all, new_store-Holds, record_all-Holds}

unapart : (rs : List TraceRecord) → Apart [] rs
unfolding member
unapart [] = tt
unapart (r ∷ rs) = (refl, unapart rs)

length-page :
    (offset limit : ℕ) (recent : Recent)
    → offset + limit ≤ length recent
    → length (page offset limit recent) ≡ limit
length-page offset limit recent h =
    length-take limit (drop offset recent)
      (omega (arith, length-drop offset recent (omega (arith, h))))

module _ {Line : Type 0} (line_size : Line → ℕ) (contains_id : String → Line → Bool)
    (unmarshal : Line → Option TraceRecord) (by_time : List TraceRecord → List TraceRecord)
    (files : List (Option (List Line))) where
  -- The answers of the last records: found by id, and listed by pages.
  abbrev Answers : Store → Recent → Type 0
  Answers s recent =
      ((id : String) (r : TraceRecord)
        → is_blank id ≡ false
        → find id recent ≡ some r
        → get line_size contains_id unmarshal by_time s files id ≡ (s, some r))
      × ((offset limit : ℕ)
          → 0 < limit
          → offset + limit ≤ length recent
          → list line_size contains_id unmarshal by_time s files offset limit
            ≡ (s, page offset limit recent))

  in_memory :
      (s : Store) (offset limit : ℕ) (mem : List TraceRecord)
      → leb (length mem) offset ≡ false
      → ltb (length (page offset limit mem)) limit ≡ false
      → page_or_disk line_size contains_id unmarshal by_time s files offset limit mem
        ≡ (s, page offset limit mem)
  unfolding page_or_disk
  in_memory s offset limit mem e f = rw (e, f) refl

  -- A page that is in memory is not looked for on disk.
  page_or_disk-page :
      (s : Store) (recent : Recent) (offset limit : ℕ)
      → 0 < limit
      → offset + limit ≤ length recent
      → page_or_disk line_size contains_id unmarshal by_time s files offset limit
          (take (offset + limit) recent)
        ≡ (s, page offset limit recent)
  page_or_disk-page s recent offset limit p k =
      let n = length-take (offset + limit) recent k in
      in_memory s offset limit (take (offset + limit) recent) (ground (arith, n, p))
        (ground (arith, length-page offset limit (take (offset + limit) recent) (omega (arith, n))))
      ∙ ap (λ rs. (s, rs)) (take-drop-take offset limit recent)

  Holds-Answers :
      (n : ℕ) (s : Store) (recent : Recent)
      → s.cfg.enabled ≡ true
      → Holds n s recent
      → Answers s recent
  unfolding get list
  Holds-Answers n s recent on h = (
    λ id r b e.
        ap
          (λ t.
            if t
            then get_or_disk line_size contains_id unmarshal by_time s files id (lookup id s.ring)
            else (s, none))
          on
        ∙ ap (get_or_disk line_size contains_id unmarshal by_time s files id) (h.found id b ∙ e),
    λ offset limit p k.
        ap
          (λ t.
            if t && ltb 0 limit
            then at offset limit (memory_results s (offset + limit))
            else (s, []))
          on
        ∙ ap (λ t. if t then at offset limit (memory_results s (offset + limit)) else (s, []))
            (lt→ltb 0 limit p)
        ∙ ap (at offset limit) (memory_results-take n s recent h (offset + limit))
        ∙ page_or_disk-page s recent offset limit p k,
  )
    where
      at : ℕ → ℕ → List TraceRecord → Store × List TraceRecord
      at = page_or_disk line_size contains_id unmarshal by_time s files

  -- Whatever traces are recorded, each under an id of its own, an enabled store with room for n of them
  -- takes them all, and then answers as the list of the last n does, each cut to the limit on bodies:
  -- Get finds the records of that list by their ids, List gives its pages, newest first, and neither
  -- reads the disk for them.
  pub record_all-refines :
      (cfg : TraceConfig) (has_writer : Bool) (m : ℕ) (rs : List TraceRecord) (id : String)
      (r : TraceRecord) (offset limit : ℕ)
      → let recent = add_all (suc m) [] (map (truncated cfg.max_body_size) rs) in
        cfg.enabled ≡ true
        → cfg.ring_buffer_size ≡ suc m
        → DistinctIds rs
        → is_blank id ≡ false
        → find id recent ≡ some r
        → 0 < limit
        → offset + limit ≤ length recent
        → (s : Store) × (record_all (new_store cfg has_writer) rs ≡ some s)
          × (get line_size contains_id unmarshal by_time s files id ≡ (s, some r))
          × (list line_size contains_id unmarshal by_time s files offset limit
              ≡ (s, page offset limit recent))
  unfolding new_store
  record_all-refines cfg has_writer m rs id r offset limit on size d named there some_asked
        in_range =
      let (s, e, same, held) =
        record_all-Holds m rs (new_store cfg has_writer) [] on refl
          (new_store-Holds cfg has_writer m on size) d (unapart rs) in
      let (gets, lists) = Holds-Answers (suc m) s _ (ap (λ c. c.enabled) same ∙ on) held in
      (s, e, gets id r named there, lists offset limit some_asked in_range)
