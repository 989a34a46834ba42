-- ===== src/Provider/KvExamples.antt =====
-- Keys of a store on concrete inputs (provider/kv/kv.go).
use traefik_release.Base.{
  ◌≡◌, refl, Bool, true, false, none, some, List, [], ◌∷◌, if◌then◌else◌, keep, any, all, Text, txt,
  eqt, is_empty, lower, to_lower, strip, trim_prefix, trim_suffix, join, cut, contains, lookup,
  insert, delete, keys, fields_from, fields_func, close, split_from, split, Dict,
}
use mathlib.Core.Bool.{xor}
use traefik_release.Provider.Constraints.{
  match_constraints, constraints_loop, match_with_at_least_one_tag,
}
use traefik_release.Provider.Numbers.{
  parse_int, parse_digits, digits_value, as_positive, as_negative, itoa_int,
}
use traefik_release.Provider.Labels.{
  replace_byte, normalize, or_else, parts_of, value_at, is_enabled, replace, is_some,
}
use traefik_release.Provider.Slices.{get_elem?, set}
use traefik_release.Provider.Picking.{picked, panicked, element}
use traefik_release.Provider.Rendering.{Engine, decoded, rendered_with, get_configuration}
use traefik_release.Provider.Cluster.{itoa, itoa_from}
use traefik_release.Server.Config.{Configuration, Backend, Frontend}
use traefik_release.Provider.Kv.{Kv, Store, key_not_found, pair}
use traefik_release.Provider.Kv.Values.{
  joined, value_or, get, parts_or_none, split_get, last, first_part, directory_of, directories,
  list, tags_text, check_constraints, can_get, is_listed, list_servers,
}
use traefik_release.Provider.Kv.Loading.{
  remove_frontends, cleaned, clean, alias, load_config, sent_or_failed, watch_events, provide_once,
}
use traefik_release.Provider.Kv.Laws.{HasMap, IsCleaned, load_config-IsCleaned}

rules : Unit {0}
unfolding match_constraints constraints_loop match_with_at_least_one_tag parse_int parse_digits
    digits_value as_positive as_negative replace_byte normalize or_else parts_of value_at is_enabled
    replace get_elem? set element decoded rendered_with get_configuration lookup insert delete eqt
    is_empty lower to_lower strip trim_prefix trim_suffix join cut contains fields_from fields_func
    close split_from split keep any all xor itoa itoa_from itoa_int joined value_or get
    parts_or_none split_get last first_part directory_of directories list tags_text
    check_constraints can_get is_listed list_servers remove_frontends cleaned clean alias
    load_config sent_or_failed watch_events provide_once
rules = tt

abbrev kv : Kv
kv = record {
  constraints = record { key = txt "tag"; must_match = true; regex = txt "us" } ∷ [];
  prefix = txt "/traefik";
}

abbrev stored : Dict Text
stored =
    (txt "traefik/alias", txt "/production/")
    ∷ (txt "/production/backends/web/servers/a/url", txt "http://10.0.0.1")
    ∷ (txt "/production/backends/web/servers/a/tags", txt "us,web")
    ∷ (txt "/production/backends/web/servers/b/url", txt "http://10.0.0.2")
    ∷ []

abbrev starting : Text → List Text → List Text
starting prefix keys = keep (λ key. is_some (strip prefix key)) keys

abbrev store : Store
store = record {
  get = λ key. elim (lookup key stored) [ none ↦ key_not_found | some value ↦ pair (some value) ];
  list = λ prefix. some (starting prefix (keys stored));
}

has_an_alias : alias kv store ≡ txt "/production"
unfolding rules
has_an_alias = refl

-- The keys of a server are one entry.
lists_both :
    list store (txt "/production/backends/web" ∷ txt "/servers/" ∷ [])
    ≡ txt "/production/backends/web/servers/a" ∷ txt "/production/backends/web/servers/b" ∷ []
unfolding rules
lists_both = refl

-- Without tags the other server does not match the constraint.
lists_one :
    list_servers eqt kv store (txt "/production/backends/web")
    ≡ txt "/production/backends/web/servers/a" ∷ []
unfolding rules
lists_one = refl

last_part : last (txt "/production/backends/web") ≡ picked (txt "web")
unfolding rules
last_part = refl

splits :
    split_get store (txt "/production/backends/web/servers/a" ∷ txt "/tags" ∷ [])
    ≡ txt "us" ∷ txt "web" ∷ []
unfolding rules
splits = refl

abbrev frontend : Text → Frontend
frontend backend = record {
  entry_points = [];
  backend = backend;
  routes = [];
  pass_host_header = true;
  priority = 0;
  basic_auth = [];
}

abbrev backend : Backend
backend = record {
  servers = [];
  circuit_breaker = none;
  load_balancer = none;
  max_conn = none;
  health_check = none;
}

abbrev with_frontends : Dict Frontend → Configuration
with_frontends frontends = record {
  backends = some ((txt "web", backend) ∷ []);
  frontends = some frontends;
}

abbrev engine : Bool → Engine (Text × Store)
engine works = record {
  read_file = λ name. none;
  asset = λ name. some name;
  execute = λ template objects. if works then some objects.0 else none;
  decode = λ rendered.
      some (
        with_frontends ((txt "f1", frontend (txt "gone")) ∷ (txt "f2", frontend (txt "web")) ∷ []));
}

made_HasMap :
    HasMap (get_configuration (engine true) [] (txt "templates/kv.tmpl") (alias kv store, store))
unfolding rules
made_HasMap = (refl, (refl, tt))

load_config-IsCleaned_example :
    IsCleaned
      (get_configuration (engine true) [] (txt "templates/kv.tmpl") (alias kv store, store))
      (load_config kv (engine true) [] store)
load_config-IsCleaned_example = load_config-IsCleaned kv (engine true) [] store made_HasMap

-- The frontend without its backend is removed.
loads_one :
    load_config kv (engine true) [] store
    ≡ picked (with_frontends ((txt "f2", frontend (txt "web")) ∷ []))
unfolding rules
loads_one = refl

panics_without_template : load_config kv (engine false) [] store ≡ panicked
unfolding rules
panics_without_template = refl

run_without_template :
    provide_once kv (engine false) [] true store ≡ record { sent = []; failed = true }
unfolding rules
run_without_template = refl
