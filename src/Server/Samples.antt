-- ===== src/Server/Samples.antt =====
-- Static and dynamic configurations that the tests share.
use traefik_release.Base.{
  ◌≡◌, refl, true, false, none, some, List, [], ◌∷◌, ◌++◌, length, txt, eqt, Dict, lookup,
}
use traefik_release.Rules.Route.{Mux, Template}
use traefik_release.Server.Config.{Backend, Frontend, Configuration}
use traefik_release.Server.Entries.{Tls, EntryPoint, Global}
use traefik_release.Server.Loading.{Libraries}

-- A router library in which a route is the list of its matchers' templates.
abbrev pub tiny : Mux
tiny = record {
  Route = List Template;
  matcher_func = λ p r. r;
  subrouter = λ ts r. r ++ ts;
  methods = λ ms r. r;
  headers = λ hs r. r;
  headers_regexp = λ hs r. r;
  get_error = λ r. none;
  get_priority = λ r. length r;
  priority = λ n r. r;
}

-- Libraries that take everything.
abbrev pub easy : Libraries
easy = record {
  forwarder_ok = λ b. true;
  parse_url = λ t. some t;
  upsert_ok = λ ss u w. true;
  limiter_ok = λ c. true;
  authenticator_ok = λ us. true;
  breaker_ok = λ e. true;
  rewrite_ok = λ e r. true;
  parse_duration = λ t. none;
}

abbrev pub open_port : EntryPoint
open_port = record {
  address = txt ":80";
  tls = none;
  redirect = none;
  auth = none;
  compress = false;
}

abbrev pub plain_tls : Tls
plain_tls = record {
  min_version = txt "VersionTLS12";
  cipher_suites = some (txt "TLS_RSA_WITH_AES_128_GCM_SHA256" ∷ []);
  certificates = record { cert_file = txt "c"; key_file = txt "k" } ∷ [];
  client_ca_files = txt "ca" ∷ [];
}

abbrev pub secure_port : EntryPoint
secure_port = record open_port { address = txt "0.0.0.0:443"; tls = some plain_tls }

abbrev pub ports : Dict EntryPoint
ports = (txt "http", open_port) ∷ (txt "https", secure_port) ∷ []

abbrev pub global : Global
global = record {
  entry_points = ports;
  default_entry_points = txt "http" ∷ [];
  retry = some 0;
  health_check = some 30;
  prometheus = false;
}

abbrev pub site_backend : Backend
site_backend = record {
  servers = (txt "s", record { url = txt "http://s"; weight = 1 }) ∷ [];
  circuit_breaker = none;
  load_balancer = some (record { method = txt "drr"; sticky = false });
  max_conn = none;
  health_check = some (record { path = txt "/ok"; interval = [] });
}

abbrev pub site : Frontend
site = record {
  entry_points = txt "http" ∷ txt "https" ∷ [];
  backend = txt "b";
  routes = (txt "r", txt "PathPrefix:/x") ∷ [];
  pass_host_header = true;
  priority = 0;
  basic_auth = txt "u:p" ∷ [];
}

abbrev pub site_configuration : Configuration
site_configuration = record {
  backends = some ((txt "b", site_backend) ∷ []);
  frontends = some ((txt "f", site) ∷ []);
}

abbrev pub sites : Dict Configuration
sites = (txt "file", site_configuration) ∷ []

abbrev pub as_is {ℓ} : {A : Type ℓ} → A → A
as_is x = x

pub https_here : lookup (txt "https") ports ≡ some secure_port
unfolding lookup eqt
https_here = refl
