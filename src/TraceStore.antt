-- ===== src/TraceStore.antt =====
-- internal/tracestore/store.go: the traces kept in memory, and the queries that fall back to disk. Of a
-- record the fields that the store reads are kept. `ring` is the sync.Map, `queue` the channel to the
-- goroutine that writes to disk. A run-time panic (an index out of range, a division by zero, a send on
-- the closed channel) is `none`. The calls follow one another: a record is stored under its key
-- before the next call begins.
pub mod Recent
pub mod Slots
pub mod Refine
pub mod Answers
pub mod Run
pub mod Laws
pub mod Query
pub mod Tail
mod Examples
use llms_proxy.Base.{
  ℕ, zero, suc, ◌+◌, ◌-◌, ◌%◌, ◌≡◌, Bool, true, false, not, ◌&&◌, ◌||◌, Option, none, some, List,
  [], ◌∷◌, ◌++◌, String, str_eq, length, get_elem?, get_or, take, drop, modify, leb, ltb, ◌==◌,
  if◌then◌else◌,
}
use llms_proxy.Base.Int.{ℤ, pos, add_int64}
use llms_proxy.Base.Maps.{Map, lookup, insert, delete}
use llms_proxy.Base.Strings.{is_blank, member}
use llms_proxy.Base.Text.{Bytes}
use llms_proxy.Base.Time.{Time}

pub record TraceRecord : Type 0 where
  pub trace_id : String
  pub timestamp : Time
  pub request_body : Bytes
  pub response_body : Bytes

-- Config, of which the sizes are not negative.
pub record TraceConfig : Type 0 where
  pub enabled : Bool
  pub ring_buffer_size : ℕ
  pub max_body_size : ℕ
  pub disk_path : String
  pub channel_buffer : ℕ

pub record Store : Type 0 where
  pub cfg : TraceConfig
  pub ring : Map TraceRecord
  pub keys : List String
  pub head : ℕ
  pub queue : List TraceRecord
  pub closed : Bool
  pub has_writer : Bool
  pub total_records : ℤ
  pub dropped_records : ℤ
  pub disk_writes : ℤ
  pub disk_reads : ℤ

abbrev pub blank_keys : ℕ → List String
blank_keys zero = []
blank_keys (suc n) = "" ∷ blank_keys n

-- New; `has_writer` tells whether initDiskWriter made the directory.
unfoldable pub new_store : TraceConfig → Bool → Store
new_store cfg has_writer = record {
  cfg = cfg;
  ring = [];
  keys = if cfg.enabled then blank_keys cfg.ring_buffer_size else [];
  head = 0;
  queue = [];
  closed = false;
  has_writer = cfg.enabled && (not (is_blank cfg.disk_path) && has_writer);
  total_records = pos 0;
  dropped_records = pos 0;
  disk_writes = pos 0;
  disk_reads = pos 0;
}

abbrev pub cut : ℕ → Bytes → Bytes
cut max body = if ltb 0 max && ltb max (length body) then take max body else body

abbrev pub truncated : ℕ → TraceRecord → TraceRecord
truncated max r = record r {
  request_body = cut max r.request_body;
  response_body = cut max r.response_body;
}

-- `ring.Delete` of a key that is not blank
abbrev pub forget : String → Map TraceRecord → Map TraceRecord
forget key ring = if is_blank key then ring else delete key ring

abbrev pub set_key : String → ℕ → List String → List String
set_key key i keys = modify (λ _. key) i keys

-- The record into the map, and its key into the place of the oldest.
unfoldable pub remember : Store → TraceRecord → String → Store
remember s r oldest = record s {
  ring = forget oldest (insert r.trace_id r s.ring);
  keys = set_key r.trace_id s.head s.keys;
  head = (s.head + 1) % length s.keys;
  total_records = add_int64 s.total_records (pos 1);
}

-- The `select`: a full channel drops the record.
unfoldable pub enqueue : Store → TraceRecord → Option Store
enqueue s r =
    if s.closed
    then none
    else if ltb (length s.queue) s.cfg.channel_buffer
    then some (record s { queue = s.queue ++ (r ∷ []) })
    else some (record s { dropped_records = add_int64 s.dropped_records (pos 1) })

abbrev pub record_at : Store → TraceRecord → Option String → Option Store
record_at s r none = none
record_at s r (some oldest) = enqueue (remember s r oldest) r

-- Record
unfoldable pub record_trace : Store → TraceRecord → Option Store
record_trace s r =
    if s.cfg.enabled
    then record_at s (truncated s.cfg.max_body_size r) (get_elem? s.keys s.head)
    else some s

-- One round of diskWriterLoop; `written` tells whether the record was marshalled and written.
unfoldable pub write_next : Bool → Store → Store
write_next written s = write_queued s.queue
  where
    write_queued : List TraceRecord → Store
    write_queued [] = s
    write_queued (r ∷ rest) =
        if s.has_writer && written
        then record s { queue = rest; disk_writes = add_int64 s.disk_writes (pos 1) }
        else record s { queue = rest }

-- Close; the goroutine ends with the channel empty.
unfoldable pub close : Store → Store
close s = if s.cfg.enabled then record s { closed = true } else s

-- The loop of List over the keys, from the newest: at most `count` of them, up to a blank one.
unfoldable pub newest_keys : List String → ℕ → ℕ → ℕ → List String
newest_keys keys start i zero = []
newest_keys keys start i (suc count) =
    let n = length keys in
    let key = get_or keys ((start + n - i) % n) "" in
    let later = newest_keys keys start (i + 1) count in if is_blank key then [] else key ∷ later

abbrev pub cons_found : Option TraceRecord → List TraceRecord → List TraceRecord
cons_found none rs = rs
cons_found (some r) rs = r ∷ rs

unfoldable pub load_all : Map TraceRecord → List String → List TraceRecord
load_all ring [] = []
load_all ring (k ∷ ks) = cons_found (lookup k ring) (load_all ring ks)

-- The first part of List: what is in memory of the `needed` newest records.
unfoldable pub memory_results : Store → ℕ → List TraceRecord
memory_results s needed =
    let n = length s.keys in
    load_all s.ring
      (newest_keys s.keys ((s.head + n - 1) % n) 0 (if ltb needed n then needed else n))
