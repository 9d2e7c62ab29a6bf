-- ===== src/TraceStore/Recent.antt =====
-- The records that the trace store promises to hold: the last ones, newest first.
use llms_proxy.Base.{
  ℕ, Option, none, some, List, [], ◌∷◌, String, str_eq, take, drop, if◌then◌else◌,
}
use llms_proxy.TraceStore.{TraceRecord}

abbrev pub Recent : Type 0
Recent = List TraceRecord

-- Of `n` records at most, the oldest gives way.
unfoldable pub add : ℕ → TraceRecord → Recent → Recent
add n r rs = take n (r ∷ rs)

unfoldable pub find : String → Recent → Option TraceRecord
find id [] = none
find id (r ∷ rs) = if str_eq r.trace_id id then some r else find id rs

abbrev pub page : ℕ → ℕ → Recent → Recent
page offset limit rs = take limit (drop offset rs)

-- All of them in their order, the first one being the oldest.
unfoldable pub add_all : ℕ → Recent → List TraceRecord → Recent
add_all n recent [] = recent
add_all n recent (r ∷ rs) = add_all n (add n r recent) rs
