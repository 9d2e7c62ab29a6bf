-- ===== src/Auth/Examples.antt =====
-- internal/auth/store.go: runs, and theorems at concrete clients.
use llms_proxy.Base.{◌≡◌, refl, ◌↔◌, ◌⊎◌, true, false, none, some, [], ◌∷◌}
use llms_proxy.Base.Maps.{lookup, insert}
use llms_proxy.Base.Strings.{lower_string, trim_string, member, trim_left, trim_right}
use llms_proxy.Config.{ClientConfig}
use llms_proxy.Auth.{
  Principal, duplicate_access_key, Store, new_store, principal_of, load_clients, client_error,
  allow, allow_one, can_access, load_from_config, authenticate,
}
use llms_proxy.Auth.Loading.{From}
use llms_proxy.Auth.Laws.{
  Listed, authenticate-load_from_config, Reported, load_from_config-Reported,
  can_access-principal_of,
}

abbrev alice : ClientConfig
alice = record {
  name = " alice ";
  access_key = "k1 ";
  allowed_targets = "Azure" ∷ " " ∷ "azure " ∷ "claude" ∷ [];
}

abbrev bob : ClientConfig
bob = record { name = "bob"; access_key = "k2"; allowed_targets = [] }

abbrev eve : ClientConfig
eve = record { name = "eve"; access_key = " k2"; allowed_targets = [] }

abbrev alice_in : Principal
alice_in = record {
  name = "alice";
  access_key = "k1";
  allow_all = false;
  allowed_targets = "azure" ∷ "claude" ∷ [];
  allowed_list = "azure" ∷ "claude" ∷ [];
}

abbrev bob_in : Principal
bob_in = record {
  name = "bob";
  access_key = "k2";
  allow_all = true;
  allowed_targets = [];
  allowed_list = [];
}

abbrev both : Store
both = ("k1", alice_in) ∷ ("k2", bob_in) ∷ []

loads : load_from_config new_store (alice ∷ bob ∷ []) ≡ (both, none)
unfolding load_from_config load_clients client_error lookup insert allow allow_one member
    trim_string trim_left trim_right lower_string
loads = refl

refuses_twice :
    load_from_config both (bob ∷ eve ∷ []) ≡ (both, some (duplicate_access_key "bob" "eve"))
unfolding load_from_config load_clients client_error lookup insert allow allow_one member
    trim_string trim_left trim_right lower_string
refuses_twice = refl

knows_alice : authenticate both "k1" ≡ some alice_in
unfolding authenticate lookup
knows_alice = refl

authenticate-load_from_config_example :
    (authenticate both "k1" ≡ some alice_in) ↔ From both (alice ∷ bob ∷ []) "k1" alice_in
authenticate-load_from_config_example =
    authenticate-load_from_config new_store both (alice ∷ bob ∷ []) "k1" alice_in loads

load_from_config-Reported_example :
    Reported both (bob ∷ eve ∷ []) (load_from_config both (bob ∷ eve ∷ []))
load_from_config-Reported_example = load_from_config-Reported both (bob ∷ eve ∷ [])

can_access-principal_of_example :
    (can_access (some (principal_of alice)) "AZURE" ≡ true)
    ↔ (alice.allowed_targets ≡ []) ⊎ Listed (lower_string "AZURE") alice.allowed_targets
can_access-principal_of_example = can_access-principal_of alice "AZURE"
