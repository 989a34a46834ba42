-- ===== src/Provider/ConsulExamples.antt =====
-- Nodes and tags on concrete inputs (provider/consul/consul_catalog.go).
use traefik_release.Base.{
  ℕ, ◌≡◌, refl, true, Option, none, some, List, [], ◌∷◌, if◌then◌else◌, keep, any, all, Text, txt,
  eqt, is_empty, lower, to_lower, strip, trim_prefix, trim_suffix, join, cut, contains, lookup,
  insert, delete, fields_from, fields_func, close, split_from, split,
}
use mathlib.Core.Bool.{xor}
use traefik_release.Provider.Constraints.{
  match_constraints, constraints_loop, match_with_at_least_one_tag,
}
use traefik_release.Provider.Numbers.{
  pos, parse_int, parse_digits, digits_value, as_positive, as_negative, itoa_int,
}
use traefik_release.Provider.Labels.{
  replace_byte, normalize, or_else, parts_of, value_at, is_enabled, replace,
}
use traefik_release.Provider.Slices.{get_elem?, set}
use traefik_release.Provider.Picking.{element}
use traefik_release.Provider.Rendering.{decoded, rendered_with, get_configuration}
use traefik_release.Provider.Cluster.{itoa, itoa_from}
use traefik_release.Server.Loading.{less_text}
use traefik_release.Provider.Consul.{Catalog, ServiceEntry, CatalogUpdate}
use traefik_release.Provider.Consul.Attributes.{
  starts_with, behind, value_of, attribute_in, get_attribute, get_constraint_tags, get_backend,
  get_frontend_rule, get_backend_address, with_tags, get_backend_name, has_maxconn_attributes,
}
use traefik_release.Provider.Consul.Nodes.{
  less, insert_node, sort_nodes, add_tag, add_tags, merged_tags, healthy_nodes, get_nodes_from,
  get_nodes, add_info, visit_nodes, visit_catalog, consul_objects, build_config,
}
use traefik_release.Provider.Consul.Watching.{
  Answers, send_names, is_same, watch_services, sent_first, watch,
}
use traefik_release.Provider.Consul.Laws.{tally, expected, consul_objects-tally}
use traefik_release.Provider.Consul.Tags.{tag_of, get_attribute-tag_of}

rules : Unit {0}
unfolding match_constraints constraints_loop match_with_at_least_one_tag parse_int parse_digits
    digits_value as_positive as_negative replace_byte normalize or_else parts_of value_at is_enabled
    replace get_elem? set element decoded rendered_with get_configuration lookup insert delete eqt
    is_empty lower to_lower strip trim_prefix trim_suffix join cut contains fields_from fields_func
    close split_from split keep any all xor itoa itoa_from itoa_int less_text starts_with behind
    value_of attribute_in get_attribute get_constraint_tags get_backend get_frontend_rule
    get_backend_address with_tags get_backend_name has_maxconn_attributes less insert_node
    sort_nodes add_tag add_tags merged_tags healthy_nodes get_nodes_from get_nodes add_info
    visit_nodes visit_catalog consul_objects build_config send_names is_same watch_services
    sent_first watch
rules = tt

abbrev catalog : Text → Catalog
catalog prefix = record {
  constraints = record { key = txt "tag"; must_match = true; regex = txt "us" } ∷ [];
  domain = txt "localhost";
  prefix = prefix;
}

abbrev node : Text → ℕ → List Text → ServiceEntry
node address port tags = record {
  node_address = txt "10.0.0.1";
  service = txt "Web";
  service_address = address;
  tags = tags;
  port = pos port;
}

abbrev consul : Catalog
consul = catalog (txt "traefik")

reads_a_tag :
    get_attribute consul (txt "Weight") (txt "other" ∷ txt "TRAEFIK.weight=7=8" ∷ []) (txt "0")
    ≡ txt "7=8"
unfolding rules
reads_a_tag = refl

low : to_lower consul.prefix ≡ consul.prefix
unfolding rules
low = refl

get_attribute-tag_of_example :
    get_attribute consul
      (txt "weight")
      (tag_of consul.prefix (txt "weight") (txt "7=8") ∷ txt "traefik.weight=9" ∷ [])
      (txt "0")
    ≡ txt "7=8"
get_attribute-tag_of_example =
    get_attribute-tag_of consul (txt "weight") (txt "7=8") (txt "traefik.weight=9" ∷ []) (txt "0")
      low (refl, (refl, (refl, (refl, (refl, (refl, tt))))))

-- With a prefix in capitals the same tag says nothing, though it is written with that very prefix.
ignores_a_tag :
    get_attribute (catalog (txt "Traefik")) (txt "weight") (txt "Traefik.weight=7" ∷ []) (txt "0")
    ≡ txt "0"
unfolding rules
ignores_a_tag = refl

abbrev tags : List Text
tags = txt "traefik.tags=us,web" ∷ []

abbrev first : ServiceEntry
first = node (txt "10.1.0.2") 80 tags

-- The label says that this one is not to be used.
abbrev second : ServiceEntry
second = node [] 81 (txt "traefik.enable=false" ∷ tags)

abbrev foreign : ServiceEntry
foreign = node (txt "10.1.0.4") 82 (txt "traefik.tags=eu" ∷ [])

abbrev fetch : Text → Option (List ServiceEntry)
fetch service = if eqt service (txt "web") then some (first ∷ second ∷ foreign ∷ []) else none

abbrev web : CatalogUpdate
web = record {
  service = record {
    service_name = txt "web";
    attributes = txt "traefik.tags=us,web" ∷ txt "traefik.enable=false" ∷ [];
  };
  nodes = first ∷ second ∷ [];
}

-- One service by two names, and one that cannot be a name of a host.
finds_web : get_nodes eqt consul fetch (txt "Web" ∷ txt "my web" ∷ txt "WEB" ∷ []) ≡ some (web ∷ [])
unfolding rules
finds_web = refl

fails_for_others : get_nodes eqt consul fetch (txt "web" ∷ txt "api" ∷ []) ≡ none
unfolding rules
fails_for_others = refl

-- The disabled node comes along, and stands first, as its service has no address of its own.
configures_both : (consul_objects consul (web ∷ [])).nodes ≡ second ∷ first ∷ []
unfolding rules
configures_both = refl

consul_objects-tally_example :
    tally (λ n. eqt n.service_address []) (consul_objects consul (web ∷ [])).nodes
    ≡ expected (λ n. eqt n.service_address []) consul (web ∷ [])
consul_objects-tally_example =
    consul_objects-tally (λ n. eqt n.service_address []) consul (web ∷ [])

names_the_server : get_backend_name first (pos 0) ≡ txt "web--10-1-0-2--80--traefik-tags-us-web--0"
unfolding rules
names_the_server = refl

names_the_host : get_frontend_rule consul web.service ≡ txt "Host:web.localhost"
unfolding rules
names_the_host = refl

address_of_second : get_backend_address second ≡ txt "10.0.0.1"
unfolding rules
address_of_second = refl

abbrev answer : ℕ → ℕ → Answers
answer index health = record { catalog = some (some (txt "web" ∷ []), index); health = some health }

-- A round without a change sends nothing; one with a change of health does.
watches :
    watch_services
      (record { wait_index = 0; last_health_index = 0 })
      (answer 5 1
        ∷ answer 5 1
        ∷ answer 5 2
        ∷ record { catalog = none; health = some 3 }
        ∷ answer 6 2
        ∷ [])
    ≡ (txt "web" ∷ []) ∷ (txt "web" ∷ []) ∷ []
unfolding rules
watches = refl
