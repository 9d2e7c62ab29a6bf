-- ===== src/TraceStore/Query.antt =====
-- internal/tracestore/store.go: the queries Get and List, which fall back to disk. A file is the list of
-- its lines, or `none` if it cannot be opened; how long a line is in bytes, how it is searched and read,
-- and the order that sort.Slice leaves, are parameters, and so is the list of files of
-- getTraceFiles. The scanner of bufio stops with an error, which is only logged, at a line that does
-- not fit its buffer.
use llms_proxy.Base.{
  ℕ, zero, suc, ◌+◌, ◌-◌, ◌*◌, ◌%◌, Bool, ◌&&◌, Option, none, some, List, [], ◌∷◌, ◌++◌, String,
  str_eq, length, get_or, take, drop, modify, leb, ltb, if◌then◌else◌,
}
use llms_proxy.Base.Int.{pos, add_int64}
use llms_proxy.Base.Maps.{lookup}
use llms_proxy.Base.Strings.{is_blank, member}
use llms_proxy.TraceStore.{TraceRecord, Store, cons_found, memory_results}

-- The merge: the records from disk that are not shown yet, up to the limit.
unfoldable pub merge_disk : List String → ℕ → List TraceRecord → List TraceRecord → List TraceRecord
merge_disk existing limit results [] = results
merge_disk existing limit results (r ∷ rs) =
    if member r.trace_id existing
    then merge_disk existing limit results rs
    else if leb limit (length results + 1)
    then results ++ (r ∷ [])
    else merge_disk existing limit (results ++ (r ∷ [])) rs

abbrev pub max_line_size : ℕ
max_line_size = 2 * 1024 * 1024

module _ {Line : Type 0} (line_size : Line → ℕ) (contains_id : String → Line → Bool)
    (unmarshal : Line → Option TraceRecord) (by_time : List TraceRecord → List TraceRecord) where
  abbrev pub if_named : String → Option TraceRecord → Option TraceRecord → Option TraceRecord
  if_named id none later = later
  if_named id (some r) later = if str_eq r.trace_id id then some r else later

  -- Does the scanner stop at the line?
  abbrev pub is_too_long : Line → Bool
  is_too_long l = leb max_line_size (line_size l)

  -- The scanner of searchInFile.
  unfoldable pub search_lines : String → List Line → Option TraceRecord
  search_lines id [] = none
  search_lines id (l ∷ ls) =
      let later = search_lines id ls in
      if is_too_long l
      then none
      else if contains_id id l
      then if_named id (unmarshal l) later
      else later

  abbrev pub lines_of : Option (List Line) → List Line
  lines_of none = []
  lines_of (some ls) = ls

  -- searchInFile
  abbrev pub search_in_file : String → Option (List Line) → Option TraceRecord
  search_in_file id file = search_lines id (lines_of file)

  abbrev pub or_later : Option TraceRecord → Option TraceRecord → Option TraceRecord
  or_later none later = later
  or_later (some r) later = some r

  unfoldable pub search_files : String → List (Option (List Line)) → Option TraceRecord
  search_files id [] = none
  search_files id (f ∷ fs) = or_later (search_in_file id f) (search_files id fs)

  abbrev pub count_read : Store → Store
  count_read s = record s { disk_reads = add_int64 s.disk_reads (pos 1) }

  -- getFromDisk
  unfoldable pub get_from_disk :
      Store → List (Option (List Line)) → String → Store × Option TraceRecord
  get_from_disk s files id =
      if is_blank s.cfg.disk_path then (s, none) else (count_read s, search_files id files)

  abbrev pub get_or_disk :
      Store → List (Option (List Line)) → String → Option TraceRecord → Store × Option TraceRecord
  get_or_disk s files id (some r) = (s, some r)
  get_or_disk s files id none = get_from_disk s files id

  -- Get
  unfoldable pub get : Store → List (Option (List Line)) → String → Store × Option TraceRecord
  get s files id = if s.cfg.enabled then get_or_disk s files id (lookup id s.ring) else (s, none)

  -- The circular buffer of readLastNFromFile: slots, the next slot, and how many are filled.
  pub record Buffer : Type 0 where
    pub slots : List (Option Line)
    pub next : ℕ
    pub filled : ℕ

  abbrev pub no_lines : ℕ → List (Option Line)
  no_lines zero = []
  no_lines (suc n) = none ∷ no_lines n

  unfoldable pub scan_line : ℕ → Buffer → Line → Buffer
  scan_line n b l = record {
    slots = modify (λ _. some l) b.next b.slots;
    next = (b.next + 1) % n;
    filled = if ltb b.filled n then b.filled + 1 else b.filled;
  }

  unfoldable pub scan_lines : ℕ → Buffer → List Line → Buffer
  scan_lines n b [] = b
  scan_lines n b (l ∷ ls) =
      let rest = scan_lines n (scan_line n b l) ls in if is_too_long l then b else rest

  abbrev pub parse_slot : Option Line → Option TraceRecord
  parse_slot none = none
  parse_slot (some l) = unmarshal l

  -- The loop that reads the buffer in the order of writing.
  unfoldable pub extract : ℕ → List (Option Line) → ℕ → ℕ → ℕ → List TraceRecord
  extract n slots start i zero = []
  extract n slots start i (suc count) =
      cons_found (parse_slot (get_or slots ((start + i) % n) none))
        (extract n slots start (i + 1) count)

  -- readLastNFromFile, where n > 0; an empty line does not unmarshal.
  unfoldable pub read_last_n_from_file : ℕ → Option (List Line) → List TraceRecord
  read_last_n_from_file n file =
      let b = scan_lines n (record { slots = no_lines n; next = 0; filled = 0 }) (lines_of file) in
      extract n b.slots ((b.next + n - b.filled) % n) 0 b.filled

  unfoldable pub read_files : ℕ → List (Option (List Line)) → List TraceRecord
  read_files n [] = []
  read_files n (f ∷ fs) = read_last_n_from_file n f ++ read_files n fs

  -- listFromDisk
  unfoldable pub list_from_disk :
      Store → List (Option (List Line)) → ℕ → ℕ → Store × List TraceRecord
  list_from_disk s files offset limit =
      if is_blank s.cfg.disk_path
      then (s, [])
      else (count_read s, take limit (drop offset (by_time (read_files (offset + limit) files))))

  abbrev pub ids : List TraceRecord → List String
  ids [] = []
  ids (r ∷ rs) = r.trace_id ∷ ids rs

  abbrev pub fill_up : ℕ → List TraceRecord → Store × List TraceRecord → Store × List TraceRecord
  fill_up limit results (s, disk) = (s, merge_disk (ids results) limit results disk)

  -- What List does with the results from memory.
  unfoldable pub page_or_disk :
      Store → List (Option (List Line)) → ℕ → ℕ → List TraceRecord → Store × List TraceRecord
  page_or_disk s files offset limit mem =
      let page = take limit (drop offset mem) in
      if leb (length mem) offset
      then list_from_disk s files offset limit
      else if ltb (length page) limit
      then fill_up limit page (list_from_disk s files (offset + length mem) (limit - length page))
      else (s, page)

  -- List, of an offset that is not negative.
  unfoldable pub list : Store → List (Option (List Line)) → ℕ → ℕ → Store × List TraceRecord
  list s files offset limit =
      if s.cfg.enabled && ltb 0 limit
      then page_or_disk s files offset limit (memory_results s (offset + limit))
      else (s, [])
