-- ===== src/Auth.antt =====
-- internal/auth/store.go: the clients that hold an access key, and the targets that each may use. The
-- set `allowedTargets` is the list of its members. The names and the keys are the configured ones
-- with the white space around them cut.
pub mod Loading
pub mod Laws
mod Examples
use llms_proxy.Base.{
  Bool, true, false, String, Option, none, some, List, [], ◌∷◌, ◌++◌, if◌then◌else◌,
}
use llms_proxy.Base.Maps.{Map, lookup, insert}
use llms_proxy.Base.Strings.{lower_string, trim_string, is_blank, member}
use llms_proxy.Config.{ClientConfig}

pub record Principal : Type 0 where
  pub name : String
  pub access_key : String
  pub allow_all : Bool
  pub allowed_targets : List String
  pub allowed_list : List String

-- AllowedTargets
abbrev pub allowed_targets_of : Principal → List String
allowed_targets_of p = p.allowed_list

-- AllowedTargetsSet
abbrev pub allowed_targets_set : Principal → List String
allowed_targets_set p = p.allowed_targets

-- CanAccess; `none` is a nil principal.
unfoldable pub can_access : Option Principal → String → Bool
can_access none target = false
can_access (some p) target =
    if p.allow_all then true else member (lower_string target) p.allowed_targets

-- Clone
abbrev pub clone : Principal → Principal
clone p = record {
  name = p.name;
  access_key = p.access_key;
  allow_all = p.allow_all;
  allowed_targets = p.allowed_targets;
  allowed_list = p.allowed_list;
}

abbrev pub Store : Type 0
Store = Map Principal

-- NewStore
abbrev pub new_store : Store
new_store = []

pub data AuthError : Type 0 where
  missing_access_key : String → AuthError
  empty_name : AuthError
  duplicate_access_key : String → String → AuthError

pub data Load : Type 0 where
  loaded : Store → Load
  refused : AuthError → Load

abbrev pub no_targets : List String → Bool
no_targets [] = true
no_targets (t ∷ ts) = false

-- The body of the loop over a client's targets, on the list so far.
unfoldable pub allow_one : List String → String → List String
allow_one acc target =
    if is_blank target then acc else if member target acc then acc else acc ++ (target ∷ [])

unfoldable pub allow : List String → List String → List String
allow acc [] = acc
allow acc (t ∷ ts) = allow (allow_one acc (lower_string (trim_string t))) ts

abbrev pub principal_of : ClientConfig → Principal
principal_of c = record {
  name = trim_string c.name;
  access_key = trim_string c.access_key;
  allow_all = no_targets c.allowed_targets;
  allowed_targets = allow [] c.allowed_targets;
  allowed_list = allow [] c.allowed_targets;
}

-- The tests on one client in their order, with the owners of the keys so far.
abbrev pub owner_error : String → Option String → Option AuthError
owner_error name none = none
owner_error name (some owner) = some (duplicate_access_key owner name)

unfoldable pub client_error : Map String → ClientConfig → Option AuthError
client_error owners c =
    let key = trim_string c.access_key in
    let name = trim_string c.name in
    if is_blank key
    then some (missing_access_key c.name)
    else if is_blank name
    then some empty_name
    else owner_error name (lookup key owners)

abbrev pub or_refuse : Option AuthError → Load → Load
or_refuse none rest = rest
or_refuse (some e) rest = refused e

-- The loop over the clients.
unfoldable pub load_clients : Store → Map String → List ClientConfig → Load
load_clients next owners [] = loaded next
load_clients next owners (c ∷ cs) =
    let key = trim_string c.access_key in
    or_refuse (client_error owners c)
      (load_clients (insert key (principal_of c) next) (insert key (trim_string c.name) owners) cs)

abbrev pub keep_or_swap : Store → Load → Store × Option AuthError
keep_or_swap s (loaded next) = (next, none)
keep_or_swap s (refused e) = (s, some e)

-- LoadFromConfig: the clients after the call and its error.
unfoldable pub load_from_config : Store → List ClientConfig → Store × Option AuthError
load_from_config s clients = keep_or_swap s (load_clients [] [] clients)

abbrev pub cloned : Option Principal → Option Principal
cloned none = none
cloned (some p) = some (clone p)

-- Authenticate; `none` is (nil, false).
unfoldable pub authenticate : Store → String → Option Principal
authenticate s key = cloned (lookup key s)
