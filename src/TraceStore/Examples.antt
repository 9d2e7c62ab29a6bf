-- ===== src/TraceStore/Examples.antt =====
-- internal/tracestore/store.go: runs, and theorems at a store of two places.
use mathlib.Core.List.{reverse}
use llms_proxy.Base.{
  arith, ℕ, ◌≡◌, refl, Bool, true, String, str_eq, if◌then◌else◌, some, List, [], ◌∷◌, map, take,
  length, ◌+◌,
}
use llms_proxy.Base.Strings.{member}
use llms_proxy.Base.Text.{bytes}
use llms_proxy.TraceStore.{TraceRecord, TraceConfig, Store, new_store, truncated}
use llms_proxy.TraceStore.Recent.{add_all, add, find, page}
use llms_proxy.TraceStore.Query.{
  get, list, read_last_n_from_file, lines_of, scan_lines, scan_line, extract,
}
use llms_proxy.TraceStore.Run.{record_all}
use llms_proxy.TraceStore.Laws.{record_all-refines}
use llms_proxy.TraceStore.Tail.{parse_all, readable, read_last_n_from_file-last}

abbrev config : TraceConfig
config = record {
  enabled = true;
  ring_buffer_size = 2;
  max_body_size = 3;
  disk_path = "trace.log";
  channel_buffer = 1;
}

abbrev trace : String → ℕ → TraceRecord
trace id at = record {
  trace_id = id;
  timestamp = at;
  request_body = bytes "hello";
  response_body = [];
}

abbrev three : List TraceRecord
three = trace "a" 1 ∷ trace "b" 2 ∷ trace "c" 3 ∷ []

-- A file whose lines are records.
abbrev has_id : String → TraceRecord → Bool
has_id id l = str_eq l.trace_id id

-- One that is of the size of its request and of what is written with it.
abbrev bytes_of : TraceRecord → ℕ
bytes_of l = length l.request_body + 200

abbrev same : List TraceRecord → List TraceRecord
same rs = rs

abbrev cut_trace : String → ℕ → TraceRecord
cut_trace id at = record (trace id at) { request_body = bytes "hel" }

record_all-refines_example :
    (s : Store) × (record_all (new_store config true) three ≡ some s)
    × (get bytes_of has_id some same s (some three ∷ []) "b" ≡ (s, some (cut_trace "b" 2)))
    × (list bytes_of has_id some same s (some three ∷ []) 0 2
        ≡ (s, page 0 2 (add_all 2 [] (map (truncated 3) three))))
unfolding member find add_all add
record_all-refines_example =
    record_all-refines bytes_of has_id some same (some three ∷ []) config true 1 three "b"
      (cut_trace "b" 2) 0 2 refl refl (refl, refl, (refl, refl, (refl, refl, tt))) refl refl
      (omega arith) (omega arith)

read_last_n_from_file-last_example :
    read_last_n_from_file bytes_of has_id some same 2 (some three)
    ≡ parse_all bytes_of has_id some same (
        reverse (
          take 2 (
            reverse (
              readable bytes_of has_id some same
                (lines_of bytes_of has_id some same (some three))))))
read_last_n_from_file-last_example =
    read_last_n_from_file-last bytes_of has_id some same 1 (some three)

-- A line over the limit hides the lines behind it.
abbrev long_second : TraceRecord → ℕ
long_second l = if str_eq l.trace_id "b" then 3000000 else 300

hidden_behind_long :
    read_last_n_from_file long_second has_id some same 2 (some three) ≡ trace "a" 1 ∷ []
unfolding read_last_n_from_file scan_lines scan_line extract
hidden_behind_long = refl
