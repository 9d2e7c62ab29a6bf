-- ===== src/KeyPool/Binding.antt =====
-- internal/proxy/keypool.go: the bindings of clients to keys, and their eviction.
pub mod Eviction
pub mod Bind
use llms_proxy.Base.{
  ℕ, zero, suc, ◌+◌, Bool, true, false, not, ◌||◌, String, str_eq, Option, none, some, List, [],
  ◌∷◌, length, ltb, leb, if◌then◌else◌,
}
use llms_proxy.Base.Int.{pos, leb_ℤ}
use llms_proxy.Base.Maps.{Map, lookup, insert, delete, has}
use llms_proxy.Base.Time.{Time, before, sub}
use llms_proxy.KeyPool.State.{KeyPool}

-- `delete(p.clientAffinity, name)` and `delete(p.clientAffinityAt, name)`
unfoldable pub unbind : String → KeyPool → KeyPool
unbind name p = record p {
  client_affinity = delete name p.client_affinity;
  client_affinity_at = delete name p.client_affinity_at;
}

-- The first round of the eviction, over the entries that the map had when it began.
unfoldable pub evict_idle : Map Time → Time → KeyPool → KeyPool
evict_idle [] now p = p
evict_idle ((name, ts) ∷ rest) now p =
    evict_idle rest now (if leb_ℤ (pos p.affinity_ttl) (sub now ts) then unbind name p else p)

-- The name with the oldest stamp. The empty name stands for none yet, as in the code.
unfoldable pub oldest_from : String → Time → Map Time → String
oldest_from oldest oldest_ts [] = oldest
oldest_from oldest oldest_ts ((name, ts) ∷ rest) =
    let better = str_eq oldest "" || before ts oldest_ts in
    oldest_from (if better then name else oldest) (if better then ts else oldest_ts) rest

-- The second round: each turn unbinds one client that has a stamp, so their number is enough fuel.
unfoldable pub evict_oldest : ℕ → KeyPool → KeyPool
evict_oldest zero p = p
evict_oldest (suc fuel) p =
    let name = oldest_from "" 0 p.client_affinity_at in
    let rest = evict_oldest fuel (unbind name p) in
    if ltb (length p.client_affinity) p.max_affinity_entries
    then p
    else if str_eq name ""
    then p
    else rest

-- evictStaleAffinityLocked
unfoldable pub evict_stale_affinity : KeyPool → Time → KeyPool
evict_stale_affinity p now =
    if ltb (length p.client_affinity) p.max_affinity_entries
    then p
    else (let q = evict_idle p.client_affinity_at now p in
        evict_oldest (length q.client_affinity_at) q)

unfoldable pub write_binding : String → ℕ → Time → KeyPool → KeyPool
write_binding name i now p = record p {
  client_affinity = insert name i p.client_affinity;
  client_affinity_at = insert name now p.client_affinity_at;
}

-- bindLocked
unfoldable pub bind : KeyPool → String → ℕ → Time → KeyPool
bind p name i now =
    write_binding name i now (if has name p.client_affinity then p else evict_stale_affinity p now)
