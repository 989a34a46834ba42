-- ===== src/Provider/TableExamples.antt =====
-- Instances of Eureka and items of a table on concrete inputs (provider/eureka/eureka.go,
-- provider/dynamodb/dynamodb.go).
use traefik_release.Base.{
  ◌≡◌, refl, Bool, true, false, Option, none, some, [], ◌∷◌, if◌then◌else◌, keep, any, all, Text,
  txt, eqt, is_empty, lower, to_lower, strip, trim_prefix, trim_suffix, join, cut, contains, lookup,
  insert, delete, fields_from, fields_func, close, split_from, split,
}
use mathlib.Core.Bool.{xor}
use traefik_release.Provider.Constraints.{
  match_constraints, constraints_loop, match_with_at_least_one_tag,
}
use traefik_release.Provider.Numbers.{
  pos, parse_int, parse_digits, digits_value, as_positive, as_negative, itoa_int,
}
use traefik_release.Provider.Labels.{
  replace_byte, normalize, or_else, parts_of, value_at, is_enabled, replace,
}
use traefik_release.Provider.Slices.{get_elem?, set}
use traefik_release.Provider.Picking.{picked, refused, panicked, element}
use traefik_release.Provider.Rendering.{decoded, rendered_with, get_configuration}
use traefik_release.Provider.Cluster.{itoa, itoa_from}
use traefik_release.Server.Config.{Backend, Frontend}
use traefik_release.Provider.Eureka.{
  InstanceInfo, get_port, get_protocol, get_weight, get_instance_id, build_configuration, refresh,
  provide_once,
}
use traefik_release.Provider.Dynamo.{
  Item, scan_pages, scan_table, put_named, with_backends, with_frontends, add_backend, add_frontend,
  Unmarshal, frontend_item, add_item, add_items, as_configuration, load_dynamo_config,
}

rules : Unit {0}
unfolding match_constraints constraints_loop match_with_at_least_one_tag parse_int parse_digits
    digits_value as_positive as_negative replace_byte normalize or_else parts_of value_at is_enabled
    replace get_elem? set element decoded rendered_with get_configuration lookup insert delete eqt
    is_empty lower to_lower strip trim_prefix trim_suffix join cut contains fields_from fields_func
    close split_from split keep any all xor itoa itoa_from itoa_int get_port get_protocol get_weight
    get_instance_id build_configuration refresh provide_once scan_pages scan_table put_named
    with_backends with_frontends add_backend add_frontend frontend_item add_item add_items
    as_configuration load_dynamo_config
rules = tt

abbrev instance : Bool → InstanceInfo
instance secure = record {
  ip_addr = txt "10.0.0.1";
  port = pos 8080;
  secure_port = pos 8443;
  secure_port_enabled = secure;
  metadata = (txt "traefik.weight", txt "3") ∷ [];
}

secured : (get_port (instance true) ≡ txt "8443") × (get_protocol (instance true) ≡ txt "https")
unfolding rules
secured = (refl, refl)

named : get_instance_id (instance false) ≡ txt "10-0-0-1-8080"
unfolding rules
named = refl

weighed : get_weight (instance false) ≡ txt "3"
unfolding rules
weighed = refl

abbrev backend : Backend
backend = record {
  servers = [];
  circuit_breaker = none;
  load_balancer = none;
  max_conn = none;
  health_check = none;
}

abbrev frontend : Frontend
frontend = record {
  entry_points = [];
  backend = txt "web";
  routes = [];
  pass_host_header = true;
  priority = 0;
  basic_auth = [];
}

-- An attribute is true if it can be read.
abbrev unmarshal : Unmarshal Bool
unmarshal = record {
  backend_of = λ a. if a then some backend else none;
  frontend_of = λ a. if a then some frontend else none;
}

abbrev item : Option Bool → Option Bool → Option Text → Item Bool
item b f name = record { backend = b; frontend = f; name = name }

-- The page behind the last one is not asked for, and an item that cannot be read needs no name.
loads_two :
    load_dynamo_config unmarshal (
      some (
        record {
          items = item (some true) none (some (txt "web")) ∷ item (some false) none none ∷ [];
          is_last = false;
        }
        ∷ record {
          items = item none (some true) (some (txt "f")) ∷ item none none none ∷ [];
          is_last = true;
        }
        ∷ record { items = item none (some true) (some (txt "g")) ∷ []; is_last = true }
        ∷ []))
    ≡ picked (record {
      backends = some ((txt "web", backend) ∷ []);
      frontends = some ((txt "f", frontend) ∷ []);
    })
unfolding rules
loads_two = refl

panics_without_name :
    load_dynamo_config unmarshal
      (some (record { items = item (some true) none none ∷ []; is_last = true } ∷ []))
    ≡ panicked
unfolding rules
panics_without_name = refl

refused_without_table : load_dynamo_config unmarshal none ≡ refused
unfolding rules
refused_without_table = refl
