-- ===== src/Affinity.antt =====
-- internal/proxy/affinity.go: the map from a client and its model to the target it last used. `Get`
-- drops its lock between the test and the deletion and tests again there, at the same time of the call.
pub mod Laws
mod Examples
use Prim.Native.String.{◌++◌ as append}
use llms_proxy.Base.{◌*◌, Bool, String, Option, none, some, [], if◌then◌else◌}
use llms_proxy.Base.Int.{pos, ltb_ℤ}
use llms_proxy.Base.Maps.{Map, lookup, insert, delete}
use llms_proxy.Base.Time.{Time, minute, sub}

abbrev pub affinity_ttl : Time
affinity_ttl = 5 * minute

pub record AffinityEntry : Type 0 where
  pub target_name : String
  pub last_used : Time

abbrev pub AffinityMap : Type 0
AffinityMap = Map AffinityEntry

-- newAffinityMap
abbrev pub new_affinity_map : AffinityMap
new_affinity_map = []

-- affinityKey
unfoldable pub affinity_key : String → String → String → String
affinity_key client_ip client_name model =
    append client_ip (append "|" (append client_name (append ":" model)))

abbrev pub is_expired : AffinityEntry → Time → Bool
is_expired e now = ltb_ℤ (pos affinity_ttl) (sub now e.last_used)

abbrev pub get_entry :
    String → Time → AffinityMap → Option AffinityEntry → AffinityMap × Option String
get_entry key now m none = (m, none)
get_entry key now m (some e) =
    if is_expired e now then (delete key m, none) else (m, some e.target_name)

-- Get
unfoldable pub get : AffinityMap → String → Time → AffinityMap × Option String
get m key now = get_entry key now m (lookup key m)

-- Set
unfoldable pub set : AffinityMap → String → String → Time → AffinityMap
set m key target_name now = insert key (record { target_name = target_name; last_used = now }) m
