-- ===== src/Server/Config.antt =====
-- types/types.go: the configuration that providers send, and load-balancer methods; the defaults
-- that server/server.go fills in. Pointers in the maps are not nil.
use traefik_release.Base.{
  ℕ, Bool, false, Option, none, some, List, [], ◌∷◌, if◌then◌else◌, Text, txt, is_empty, equal_fold,
  Dict,
}

-- types.LoadBalancer
pub record LoadBalancer : Type 0 where
  pub method : Text
  pub sticky : Bool

-- types.Server; weights are at least 0.
pub record BackendServer : Type 0 where
  pub url : Text
  pub weight : ℕ

-- types.MaxConn; the amount is at least 0.
pub record MaxConn : Type 0 where
  pub amount : ℕ
  pub extractor_func : Text

-- types.HealthCheck
pub record HealthCheck : Type 0 where
  pub path : Text
  pub interval : Text

-- types.Backend
pub record Backend : Type 0 where
  pub servers : Dict BackendServer
  pub circuit_breaker : Option Text
  pub load_balancer : Option LoadBalancer
  pub max_conn : Option MaxConn
  pub health_check : Option HealthCheck

-- types.Frontend; the routes are their rules. A priority that is not positive is 0.
pub record Frontend : Type 0 where
  pub entry_points : List Text
  pub backend : Text
  pub routes : Dict Text
  pub pass_host_header : Bool
  pub priority : ℕ
  pub basic_auth : List Text

-- types.Configuration; `none` is a nil map.
pub record Configuration : Type 0 where
  pub backends : Option (Dict Backend)
  pub frontends : Option (Dict Frontend)

-- types.ConfigMessage
pub record ConfigMessage : Type 0 where
  pub provider_name : Text
  pub configuration : Option Configuration

pub data LoadBalancerMethod : Type 0 where
  wrr drr : LoadBalancerMethod

unfoldable pub load_balancer_method_names : List (Text × LoadBalancerMethod)
load_balancer_method_names = (txt "Wrr", wrr) ∷ (txt "Drr", drr) ∷ []

unfoldable pub find_method : Text → List (Text × LoadBalancerMethod) → Option LoadBalancerMethod
find_method method [] = none
find_method method ((name, m) ∷ names) =
    if equal_fold name method then some m else find_method method names

-- NewLoadBalancerMethod; `none` is its error, which comes with Wrr.
unfoldable pub new_load_balancer_method : Option LoadBalancer → Option LoadBalancerMethod
new_load_balancer_method none = none
new_load_balancer_method (some lb) = find_method lb.method load_balancer_method_names

abbrev pub sticky_of : Option LoadBalancer → Bool
sticky_of none = false
sticky_of (some lb) = lb.sticky

-- One round of configureBackends.
unfoldable pub configure_backend : Backend → Backend
configure_backend b = elim (new_load_balancer_method b.load_balancer) [
  | some _ ↦ b
  | none ↦ record b {
    load_balancer = some (record { method = txt "wrr"; sticky = sticky_of b.load_balancer });
  }
]

unfoldable pub configure_backends : Dict Backend → Dict Backend
configure_backends [] = []
configure_backends ((name, b) ∷ bs) = (name, configure_backend b) ∷ configure_backends bs

-- One round of configureFrontends.
unfoldable pub configure_frontend : List Text → Frontend → Frontend
configure_frontend default f =
    if is_empty f.entry_points then record f { entry_points = default } else f

unfoldable pub configure_frontends : List Text → Dict Frontend → Dict Frontend
configure_frontends default [] = []
configure_frontends default ((name, f) ∷ fs) =
    (name, configure_frontend default f) ∷ configure_frontends default fs

abbrev pub dict_of {ℓ} : {V : Type ℓ} → Option (Dict V) → Dict V
dict_of none = []
dict_of (some m) = m

-- defaultConfigurationValues; `default` is DefaultEntryPoints of the global configuration.
unfoldable pub default_configuration_values :
    List Text → Option Configuration → Option Configuration
default_configuration_values default none = none
default_configuration_values default (some c) = elim c.frontends [
  | none ↦ some c
  | some fs ↦ some (record c {
    frontends = some (configure_frontends default fs);
    backends = elim c.backends [ none ↦ none | some bs ↦ some (configure_backends bs) ];
  })
]
