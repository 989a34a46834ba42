-- ===== src/Provider/IngressExamples.antt =====
-- Ingresses on concrete inputs (provider/kubernetes/kubernetes.go).
use traefik_release.Base.{
  ◌≡◌, refl, true, false, none, some, [], ◌∷◌, ◌++◌, if◌then◌else◌, Text, txt, eqt, is_empty,
  to_lower, trim_suffix, cut, lookup, insert, delete, split,
}
use traefik_release.Provider.Cluster.{
  absent, found, IngressPath, Ingress, Service, Subset, Client, annotation, should_process_ingress,
  equal_ports, last_named, endpoint_port_number, itoa_from, itoa, full_lines, credentials_of,
  secret_credentials, single_element, load_auth_credentials, handle_basic_auth_config,
}
use traefik_release.Provider.Services.{
  Templates, no_templates, new_backend, backend_at, balancer_of, annotated, add_addresses,
  add_subsets, add_endpoints, port_servers, service_servers, use_service,
}
use traefik_release.Provider.Ingresses.{
  pass_host_header, custom_realm, host_rule, path_rule, with_host, with_path, new_frontend,
  with_frontend, find_frontend, load_path, load_paths, load_rule, load_rules, load_ingress,
  load_from, load_ingresses,
}
use traefik_release.Provider.IngressUsers.{AreServed}
use traefik_release.Provider.IngressLaws.{load_ingresses-AreServed}

rules : Unit {0}
unfolding annotation should_process_ingress equal_ports last_named endpoint_port_number itoa_from
    itoa full_lines credentials_of secret_credentials single_element load_auth_credentials
    handle_basic_auth_config no_templates new_backend backend_at balancer_of annotated add_addresses
    add_subsets add_endpoints port_servers service_servers use_service pass_host_header custom_realm
    host_rule path_rule with_host with_path new_frontend with_frontend find_frontend load_path
    load_paths load_rule load_rules load_ingress load_from load_ingresses lookup insert delete eqt
    is_empty to_lower cut split trim_suffix
rules = tt

abbrev web : Service
web = record {
  namespace = txt "n";
  name = txt "web";
  annotations = (txt "traefik.backend.loadbalancer.method", txt "drr") ∷ [];
  kind = txt "ClusterIP";
  external_name = [];
  ports = record { name = txt "http"; port = 80 } ∷ [];
}

abbrev web_subset : Subset
web_subset = record {
  addresses = record { ip = txt "10.0.0.1"; target = none } ∷ [];
  ports = record { name = txt "http"; port = 8080 } ∷ [];
}

-- A cluster with one service, and a secret of two users.
abbrev cluster : Client
cluster = record {
  get_service = λ namespace name. if eqt name (txt "web") then found web else absent;
  get_endpoints = λ namespace name. found (web_subset ∷ []);
  get_secret = λ namespace name. found (some ((txt "auth", txt "a:1" ++ (10 ∷ txt "b:2")) ∷ []));
}

abbrev path_to : Text → IngressPath
path_to service = record {
  path = txt "/p";
  service_name = service;
  service_port = record { int_value = 80; string = txt "80" };
}

abbrev guarded : Ingress
guarded = record {
  namespace = txt "n";
  annotations =
      (txt "ingress.kubernetes.io/auth-type", txt "Basic")
      ∷ (txt "ingress.kubernetes.io/auth-secret", txt "users")
      ∷ [];
  rules =
      record { host = txt "*.a"; http = some (path_to (txt "web") ∷ []) }
      ∷ record { host = txt "b"; http = some (path_to (txt "none") ∷ []) }
      ∷ [];
}

abbrev made : Templates
made = record {
  backends =
      (
        txt "*.a/p",
        record {
          servers =
              (txt "http://10.0.0.1:8080", record { url = txt "http://10.0.0.1:8080"; weight = 1 })
              ∷ [];
          circuit_breaker = none;
          load_balancer = some (record { method = txt "drr"; sticky = false });
          max_conn = none;
          health_check = none;
        },
      )
      ∷ (
        txt "b/p",
        record {
          servers = [];
          circuit_breaker = none;
          load_balancer = some (record { method = txt "wrr"; sticky = false });
          max_conn = none;
          health_check = none;
        },
      )
      ∷ [];
  frontends =
      (
        txt "*.a/p",
        record {
          entry_points = [];
          backend = txt "*.a/p";
          routes =
              (txt "*.a", txt "HostRegexp:{subdomain:[A-Za-z0-9-_]+}.a")
              ∷ (txt "/p", txt "PathPrefix:/p")
              ∷ [];
          pass_host_header = true;
          priority = 2;
          basic_auth = txt "a:1" ∷ txt "b:2" ∷ [];
        },
      )
      ∷ [];
}

-- The path without a service leaves a backend and no frontend.
guarded_made : load_ingresses cluster false (guarded ∷ []) ≡ some made
unfolding rules
guarded_made = refl

load_ingresses-AreServed_example : AreServed cluster (guarded ∷ []) made
load_ingresses-AreServed_example =
    load_ingresses-AreServed cluster false (guarded ∷ []) made guarded_made
