-- ===== src/Server/Loading.antt =====
-- server/server.go, loadConfig: its variables, the handlers that it makes, and its helpers.
-- Libraries are parameters by what they answer.
use traefik_release.Base.{
  ℕ, Bool, true, false, Option, none, some, List, [], ◌∷◌, ltb, ◌==◌, if◌then◌else◌, Text, is_empty,
  Dict, keys,
}
use traefik_release.Rules.Route.{ServerRoute}
use traefik_release.Server.Config.{LoadBalancerMethod, MaxConn, HealthCheck, Configuration, dict_of}
use traefik_release.Server.Entries.{EntryPoint}
use traefik_release.Server.Redirects.{Rewrite}

-- What the libraries answer to the calls that can fail.
pub record Libraries : Type 0 where
  -- forward.New with this PassHostHeader
  pub forwarder_ok : Bool → Bool
  -- url.Parse and URL.String
  pub parse_url : Text → Option Text
  -- UpsertServer of the load balancer that has been given these servers
  pub upsert_ok : List (Text × ℕ) → Text → ℕ → Bool
  -- utils.NewExtractor and connlimit.New
  pub limiter_ok : MaxConn → Bool
  -- middlewares.NewAuthenticator of these users
  pub authenticator_ok : List Text → Bool
  -- middlewares.NewCircuitBreaker with this expression
  pub breaker_ok : Text → Bool
  -- middlewares.NewRewrite
  pub rewrite_ok : Text → Text → Bool
  -- time.ParseDuration: no duration, one that is not positive, or a positive one
  pub parse_duration : Text → Option (Option ℕ)

-- A handler of a backend, by what it is built from; `balancer` identifies its load balancer.
pub record BackendHandler : Type 0 where
  pub balancer : ℕ
  pub pass_host_header : Bool
  pub redirect : Option Rewrite
  pub method : LoadBalancerMethod
  pub sticky : Bool
  pub servers : List (Text × ℕ)
  pub max_conn : Option MaxConn
  pub retries : Option ℕ
  pub prometheus : Bool
  pub basic_auth : Option (List Text)
  pub circuit_breaker : Option Text

-- healthcheck.Options
pub record HealthOptions : Type 0 where
  pub path : Text
  pub interval : ℕ
  pub balancer : ℕ

-- A route that a frontend has made in the router of an entry point: its handler is nil if the
-- frontend was given up.
pub record Wired (Route : Type 0) : Type 0 where
  pub frontend : Text
  pub route : ServerRoute Route
  pub handler : Option BackendHandler

-- The variables of loadConfig. `created` counts the load balancers that have been made.
pub record Loading (Route : Type 0) : Type 0 where
  pub routers : Dict (List (Wired Route))
  pub redirects : Dict Rewrite
  pub backends : Dict BackendHandler
  pub health : Dict HealthOptions
  pub backend_to_frontend : Dict Text
  pub created : ℕ

-- parseHealthCheckOptions
unfoldable pub interval_of : Option (Option ℕ) → ℕ → ℕ
interval_of (some (some d)) default = d
interval_of _ default = default

unfoldable pub parse_health_check_options :
    (Text → Option (Option ℕ)) → ℕ → Option HealthCheck → Option ℕ → Option HealthOptions
parse_health_check_options parse_duration lb none config = none
parse_health_check_options parse_duration lb (some hc) none = none
parse_health_check_options parse_duration lb (some hc) (some default) =
    if is_empty hc.path
    then none
    else some (record {
      path = hc.path;
      interval =
          if is_empty hc.interval
          then default
          else interval_of (parse_duration hc.interval) default;
      balancer = lb;
    })

-- sortedFrontendNamesForConfig
unfoldable pub less_text : Text → Text → Bool
less_text [] [] = false
less_text [] (b ∷ t) = true
less_text (a ∷ s) [] = false
less_text (a ∷ s) (b ∷ t) = let rest = less_text s t in if a == b then rest else ltb a b

unfoldable pub insert_name : Text → List Text → List Text
insert_name s [] = s ∷ []
insert_name s (t ∷ ts) =
    let later = insert_name s ts in if less_text t s then t ∷ later else s ∷ t ∷ ts

unfoldable pub sort_names : List Text → List Text
sort_names [] = []
sort_names (s ∷ ts) = insert_name s (sort_names ts)

unfoldable pub sorted_frontend_names : Configuration → List Text
sorted_frontend_names c = sort_names (keys (dict_of c.frontends))

-- buildEntryPoints: an empty router for each entry point
unfoldable pub build_entry_points : {Route : Type 0} → Dict EntryPoint → Dict (List (Wired Route))
build_entry_points [] = []
build_entry_points ((name, _) ∷ eps) = (name, []) ∷ build_entry_points eps

unfoldable pub start_loading : (Route : Type 0) → Dict EntryPoint → Loading Route
start_loading Route eps = record {
  routers = build_entry_points eps;
  redirects = [];
  backends = [];
  health = [];
  backend_to_frontend = [];
  created = 0;
}
