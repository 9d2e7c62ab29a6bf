-- ===== src/Affinity/Examples.antt =====
-- A map on which the theorems on internal/proxy/affinity.go are run.
use llms_proxy.Base.{◌≡◌, str_eq, leb, ◌+◌, none, some, if◌then◌else◌}
use llms_proxy.Base.Maps.{lookup}
use llms_proxy.Base.Time.{minute}
use llms_proxy.Affinity.{affinity_ttl, AffinityMap, new_affinity_map, get, set}
use llms_proxy.Affinity.Laws.{get-set_lifetime}

abbrev bob_set : AffinityMap
bob_set = set new_affinity_map "1.2.3.4|bob:gpt" "azure" 3

get-set_lifetime_example :
    let fresh = leb minute (9 + affinity_ttl) in
    let kept = set bob_set "1.2.3.4|ada:gpt" "claude" 9 in
    let (n, found) = get kept "1.2.3.4|ada:gpt" minute in
    (found ≡ (if fresh then some "claude" else none))
    × (lookup "1.2.3.4|bob:gpt" n ≡ (
        if fresh
        then lookup "1.2.3.4|bob:gpt" kept
        else if str_eq "1.2.3.4|ada:gpt" "1.2.3.4|bob:gpt"
        then none
        else lookup "1.2.3.4|bob:gpt" bob_set))
get-set_lifetime_example =
    get-set_lifetime bob_set "1.2.3.4|ada:gpt" "claude" "1.2.3.4|bob:gpt" 9 minute
