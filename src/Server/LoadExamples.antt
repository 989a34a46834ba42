-- ===== src/Server/LoadExamples.antt =====
-- Loading a configuration, and what follows, on concrete inputs (server/server.go).
use traefik_release.Base.{
  Bool, ◌≡◌, refl, true, false, Option, none, some, List, [], ◌∷◌, ◌++◌, arith, length, keep, any,
  Text, txt, eqt, eqt_iff, is_empty, trim_space, to_lower, equal_fold, join, lookup, insert,
  IsDistinct, fields_func,
}
use traefik_release.Rules.Route.{
  Template, canonical_domain, sort_by_size, insert_by_size, parse, apply, parse_callback,
  finish_route, get_route,
}
use traefik_release.Rules.Syntax.{
  functions, parse_args, wrap, call_rule, parse_pieces, parse_rule, parse_next, parse_each,
  parse_rules,
}
use traefik_release.Server.Config.{
  Configuration, ConfigMessage, drr, new_load_balancer_method, find_method,
  load_balancer_method_names,
}
use traefik_release.Server.Loading.{
  BackendHandler, Loading, parse_health_check_options, interval_of, less_text, insert_name,
  sort_names, sorted_frontend_names, build_entry_points, start_loading,
}
use traefik_release.Server.Backends.{
  retries_of, set_health, limit_of, auth_of, breaker_of, finish_redirect, store_handler,
  find_redirect, add_servers, balance, finish_backend, build_backend, find_handler,
}
use traefik_release.Server.LoadSteps.{
  get_routes, push_route, with_priority, wire, wire_route, load_entry, load_entries, load_frontend,
  load_frontends, load_configurations, sort_routers, load_config,
}
use traefik_release.Server.LoadRuns.{AreUsable}
use traefik_release.Server.Sharing.{IsShared, load_config-Shares}
use traefik_release.Server.Origins.{Origin, load_config-Origin}
use traefik_release.Server.Listening.{
  AcmeSettings, start_running, listen_configurations, post_load_config, configuration_requests,
  frontend_requests, acme_enabled, route_requests, request_of,
}
use traefik_release.Server.Reloading.{Reloads, runs, listen_configurations-Reloads}
use traefik_release.Server.Requests.{requests, all_frontends, stands_at, post_load_config-requests}
use traefik_release.Server.Samples.{
  tiny, easy, plain_tls, secure_port, ports, global, site_configuration, sites, as_is, https_here,
}

rules : Unit {0}
unfolding functions parse_args wrap call_rule parse_pieces parse_rule parse_next parse_each
    parse_rules canonical_domain sort_by_size insert_by_size parse apply parse_callback finish_route
    get_route lookup insert any is_empty fields_func join trim_space to_lower equal_fold eqt
    new_load_balancer_method find_method load_balancer_method_names parse_health_check_options
    interval_of less_text insert_name sort_names sorted_frontend_names build_entry_points
    start_loading retries_of set_health limit_of auth_of breaker_of finish_redirect store_handler
    find_redirect add_servers balance finish_backend build_backend find_handler get_routes
    push_route with_priority wire wire_route load_entry load_entries load_frontend load_frontends
    load_configurations sort_routers load_config
rules = tt

loaded : Loading (List Template)
loaded = elim (load_config tiny (λ name. []) easy global as_is sites) [
  | some s ↦ s
  | none ↦ start_loading (List Template) global.entry_points
]

sites-AreUsable : AreUsable sites
sites-AreUsable = ((((λ b. cc (b.1.0)), tt), tt), tt)

-- A rule that is made of semicolons only panics.
abbrev bare_configuration : Configuration
bare_configuration = record {
  backends = site_configuration.backends;
  frontends = some (
      (
        txt "f",
        record {
          entry_points = txt "https" ∷ [];
          backend = txt "b";
          routes = (txt "r", txt ";;") ∷ [];
          pass_host_header = true;
          priority = 0;
          basic_auth = [];
        },
      )
      ∷ []);
}

bare_panics :
    load_config tiny (λ name. []) easy global as_is ((txt "file", bare_configuration) ∷ []) ≡ none
unfolding rules
bare_panics = refl

abbrev found {ℓ} : {A : Type ℓ} → Option (List A) → List A
found none = []
found (some xs) = xs

routes_here :
    lookup (txt "https") loaded.routers ≡ some (found (lookup (txt "https") loaded.routers))
unfolding loaded rules
routes_here = refl

one_route : length (found (lookup (txt "https") loaded.routers)) ≡ 1
unfolding loaded rules
one_route = refl

handler_here :
    lookup (txt "https" ++ txt "b") loaded.backends
    ≡ some (record {
      balancer = 1;
      pass_host_header = true;
      redirect = none;
      method = drr;
      sticky = false;
      servers = (txt "http://s", 1) ∷ [];
      max_conn = none;
      retries = some 1;
      prometheus = false;
      basic_auth = some (txt "u:p" ∷ []);
      circuit_breaker = none;
    })
unfolding loaded rules
handler_here = refl

-- The health check is of the load balancer at the second entry point only.
checked_balancer :
    lookup (txt "b") loaded.health ≡ some (record { path = txt "/ok"; interval = 30; balancer = 1 })
unfolding loaded rules
checked_balancer = refl

load_config-Shares_example :
    (s : Loading (List Template)) × (load_config tiny (λ name. []) easy global as_is sites ≡ some s)
    × IsShared sites s
load_config-Shares_example =
    load_config-Shares tiny (λ name. []) easy global sites as_is (λ P ws a. a) sites-AreUsable

load_config-Origin_example :
    (s : Loading (List Template)) × (load_config tiny (λ name. []) easy global as_is sites ≡ some s)
    × ((key : Text) (h : BackendHandler)
        → lookup key s.backends ≡ some h
        → Origin easy global sites key h)
load_config-Origin_example =
    load_config-Origin tiny (λ name. []) easy global sites as_is sites-AreUsable

abbrev of_provider : Text → ConfigMessage
of_provider p = record { provider_name = p; configuration = some site_configuration }

ports-IsDistinct : IsDistinct (txt "http" ∷ txt "https" ∷ [])
ports-IsDistinct u = ground (arith, eqt_iff u (txt "http"), eqt_iff u (txt "https"))

abbrev acme : AcmeSettings
acme = record { entry_point = txt "https"; on_host_rule = true }

abbrev messages : List (Option Bool × ConfigMessage)
messages = (none, of_provider (txt "file")) ∷ (none, of_provider (txt "docker")) ∷ []

listen_configurations-Reloads_example :
    Reloads tiny
      (λ name. [])
      easy
      global
      as_is
      (some acme)
      messages
      (start_running tiny (λ name. []) easy global as_is (some acme))
      (listen_configurations tiny
        (λ name. [])
        easy
        global
        as_is
        (some acme)
        messages
        (start_running tiny (λ name. []) easy global as_is (some acme)))
listen_configurations-Reloads_example =
    listen_configurations-Reloads tiny (λ name. []) easy global as_is (some acme) ports-IsDistinct
      none (of_provider (txt "file")) ((none, of_provider (txt "docker")) ∷ [])

run_through : runs tiny (λ name. []) easy global as_is (some acme) messages [] ≡ true
unfolding rules runs post_load_config configuration_requests frontend_requests acme_enabled
    route_requests request_of
run_through = refl

post_load_config-requests_example :
    post_load_config
      (some (record { entry_point = txt "https"; on_host_rule = true }))
      none
      ports
      sites
    ≡ some (requests (keep (stands_at (txt "https")) (all_frontends sites)))
post_load_config-requests_example =
    post_load_config-requests (record { entry_point = txt "https"; on_host_rule = true }) none ports
      sites secure_port plain_tls https_here refl refl (λ e. cc)
