-- ===== src/Server/Listening.antt =====
-- server/server.go, listenConfigurations and postLoadConfig. LoadCertificateForDomains is what
-- postLoadConfig asks for: the lists of domains are its result.
use traefik_release.Base.{
  Bool, true, false, Option, none, some, List, [], ◌∷◌, ◌++◌, if◌then◌else◌, Text, eqt, Dict,
  lookup, insert,
}
use traefik_release.Rules.Route.{Mux, parse_domains}
use traefik_release.Rules.Syntax.{Outcome}
use traefik_release.Health.Checks.{Checker, new_health_check, set_backends_configuration}
use traefik_release.Server.Config.{Frontend, Configuration, ConfigMessage, dict_of}
use traefik_release.Server.Entries.{EntryPoint, Global}
use traefik_release.Server.Loading.{Libraries, HealthOptions, Wired, build_entry_points}
use traefik_release.Server.LoadSteps.{load_config}

-- The settings of ACME that postLoadConfig reads.
pub record AcmeSettings : Type 0 where
  pub entry_point : Text
  pub on_host_rule : Bool

-- Whether an entry point of a frontend is that of ACME and has TLS. `none` is a panic: ACME's entry
-- point is named and is not configured.
unfoldable pub acme_enabled : Text → Dict EntryPoint → List Text → Option Bool
acme_enabled acme eps [] = some false
acme_enabled acme eps (ep ∷ more) =
    let rest = acme_enabled acme eps more in
    if eqt acme ep
    then elim (lookup ep eps) [
      | none ↦ none
      | some e ↦ elim e.tls [ some _ ↦ some true | none ↦ rest ]
    ]
    else rest

-- The domains of a rule, if it can be parsed.
unfoldable pub request_of : Outcome (List Text) ⊥ → List (List Text)
request_of (domains, none) = domains ∷ []
request_of (domains, some e) = []

-- The domain lists that certificates are loaded for, over routes, frontends and configurations.
unfoldable pub route_requests : Dict Text → List (List Text)
route_requests [] = []
route_requests ((_, rule) ∷ routes) = request_of (parse_domains rule) ++ route_requests routes

unfoldable pub frontend_requests :
    Text → Dict EntryPoint → Dict Frontend → Option (List (List Text))
frontend_requests acme eps [] = some []
frontend_requests acme eps ((_, f) ∷ fs) = elim (acme_enabled acme eps f.entry_points) [
  | none ↦ none
  | some enabled ↦ elim (frontend_requests acme eps fs) [
    | none ↦ none
    | some more ↦ some (if enabled then route_requests f.routes ++ more else more)
  ]
]

unfoldable pub configuration_requests :
    Text → Dict EntryPoint → Dict Configuration → Option (List (List Text))
configuration_requests acme eps [] = some []
configuration_requests acme eps ((_, c) ∷ cs) =
    elim (frontend_requests acme eps (dict_of c.frontends)) [
      | none ↦ none
      | some these ↦ elim (configuration_requests acme eps cs) [
        | none ↦ none
        | some more ↦ some (these ++ more)
      ]
    ]

-- postLoadConfig; `leader` says whether this node leads its cluster, if there is one.
unfoldable pub post_load_config :
    Option AcmeSettings
    → Option Bool
    → Dict EntryPoint
    → Dict Configuration
    → Option (List (List Text))
post_load_config none leader eps cs = some []
post_load_config (some a) (some false) eps cs = some []
post_load_config (some a) leader eps cs =
    if a.on_host_rule then configuration_requests a.entry_point eps cs else some []

-- The router of each entry point's switcher, the configurations in force, the health checks, and the
-- lists of domains that certificates have been asked for.
pub record Running (Route : Type 0) : Type 0 where
  pub handlers : Dict (List (Wired Route))
  pub current : Dict Configuration
  pub checker : Checker HealthOptions
  pub requested : List (List Text)

-- The loop over the new entry points: UpdateHandler of the switchers that are there. `none` is a
-- panic: there is no switcher.
unfoldable pub update_handlers {ℓ} : {R : Type ℓ} → Dict R → Dict R → Option (Dict R)
update_handlers [] handlers = some handlers
update_handlers ((ep, router) ∷ more) handlers = elim (lookup ep handlers) [
  | none ↦ none
  | some _ ↦ update_handlers more (insert ep router handlers)
]

module _ (m : Mux) (new_route : Text → m.Route) (lib : Libraries) (g : Global)
    (sort : List (Wired m.Route) → List (Wired m.Route)) (acme : Option AcmeSettings) where
  open m use {Route}

  -- Before any configuration: startHTTPServers has built the entry points.
  unfoldable pub start_running : Running Route
  start_running = record {
    handlers = build_entry_points g.entry_points;
    current = [];
    checker = new_health_check HealthOptions;
    requested = [];
  }

  -- One round of listenConfigurations for a provider and its configuration; `leader` is as for
  -- postLoadConfig. No result is a panic, of loading, of the update or of postLoadConfig.
  unfoldable pub apply_configuration :
      Option Bool → Text → Configuration → Running Route → Option (Running Route)
  apply_configuration leader provider c r =
      let configurations = insert provider c r.current in
      elim (load_config m new_route lib g sort configurations) [
        | none ↦ none
        | some loaded ↦ elim (update_handlers loaded.routers r.handlers) [
          | none ↦ none
          | some handlers ↦ elim (post_load_config acme leader g.entry_points configurations) [
            | none ↦ none
            | some asked ↦ some (record {
              handlers = handlers;
              current = configurations;
              checker = set_backends_configuration loaded.health r.checker;
              requested = r.requested ++ asked;
            })
          ]
        ]
      ]

  -- A nil configuration, which listenProviders does not send on, is a panic when it is loaded.
  unfoldable pub listen_configuration :
      Option Bool × ConfigMessage → Running Route → Option (Running Route)
  listen_configuration (leader, msg) r = elim msg.configuration [
    | none ↦ none
    | some c ↦ apply_configuration leader msg.provider_name c r
  ]

  unfoldable pub listen_configurations :
      List (Option Bool × ConfigMessage) → Running Route → Option (Running Route)
  listen_configurations [] r = some r
  listen_configurations (msg ∷ msgs) r = elim (listen_configuration msg r) [
    | none ↦ none
    | some r' ↦ listen_configurations msgs r'
  ]
