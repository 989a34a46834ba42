-- ===== src/Provider/DockerExamples.antt =====
-- Containers and services on concrete inputs (provider/docker/docker.go).
use traefik_release.Base.{
  ◌≡◌, ◌↔◌, refl, true, false, none, some, [], ◌∷◌, ◌++◌, if◌then◌else◌, keep, any, all, Text, txt,
  eqt, is_empty, lower, to_lower, strip, trim_prefix, trim_suffix, join, cut, contains, lookup,
  insert, delete, fields_from, fields_func, close, split_from, split, Dict,
}
use traefik_release.Provider.Constraints.{
  match_constraints, constraints_loop, match_with_at_least_one_tag,
}
use traefik_release.Provider.Numbers.{
  pos, parse_int, parse_digits, digits_value, as_positive, as_negative, parse_bool, max_int64,
}
use traefik_release.Provider.Labels.{
  replace_byte, normalize, or_else, parts_of, value_at, is_enabled, replace,
}
use mathlib.Core.Bool.{xor}
use traefik_release.Provider.Grouping.{
  IsMap, or_nil, append_to_group, group_from, store_from, last_or, is_named,
}
use traefik_release.Provider.Rendering.{Engine, decoded, rendered_with, get_configuration}
use traefik_release.Provider.Docker.{Docker, DockerData, NetworkSettings}
use traefik_release.Provider.Docker.Labels.{
  get_label, get_labels_from, get_labels, compose_labels, get_sub_domain, default_rule,
  get_frontend_rule, get_frontend_name, default_backend, get_backend, is_container_enabled,
  get_max_conn_amount, get_is_backend_lb_swarm,
}
use traefik_release.Provider.Docker.Services.{
  is_one_line, is_property, match_service, service_property, properties_of, put_property,
  extract_from, extract_services_labels, get_container_service_label,
}
use traefik_release.Provider.Docker.Addresses.{
  Ports, first_port, get_port, bound_ip, first_address, bound_address, default_address,
  named_network, get_ip_address,
}
use traefik_release.Provider.Docker.Filters.{container_filter, IsServed, container_filter_iff}
use traefik_release.Provider.Docker.Swarm.{
  add_virtual_ips, service_networks, parse_service, parse_tasks, running_tasks, list_tasks,
  uses_swarm_lb, add_service, services_from, list_services, network_map,
}
use traefik_release.Provider.Docker.Loading.{DockerObjects, docker_objects, load_docker_config}
use traefik_release.Provider.Docker.Providing.{send_if_any, watch_rounds, provide_once}
use traefik_release.Provider.Docker.ServiceLaws.{
  service_key, is_answer, get_container_service_label-lookup,
}
use traefik_release.Provider.Docker.Laws.{docker_objects-groups, provide_once-stalls}
use traefik_release.Server.Config.{Configuration}

rules : Unit {0}
unfolding match_constraints constraints_loop match_with_at_least_one_tag parse_int parse_digits
    digits_value as_positive as_negative parse_bool replace_byte normalize or_else parts_of value_at
    is_enabled replace or_nil append_to_group group_from store_from last_or decoded rendered_with
    get_configuration get_label get_labels_from get_labels compose_labels get_sub_domain
    default_rule get_frontend_rule get_frontend_name default_backend get_backend
    is_container_enabled get_max_conn_amount get_is_backend_lb_swarm is_one_line is_property
    match_service service_property properties_of put_property extract_from extract_services_labels
    get_container_service_label container_filter add_virtual_ips service_networks parse_service
    parse_tasks running_tasks list_tasks uses_swarm_lb add_service services_from list_services
    network_map docker_objects load_docker_config send_if_any watch_rounds provide_once lookup
    insert delete eqt is_empty lower to_lower strip trim_prefix trim_suffix join cut contains
    fields_from fields_func close split_from split keep any all xor
rules = tt

abbrev docker : Docker
docker = record {
  constraints = record { key = txt "tag"; must_match = true; regex = txt "us" } ∷ [];
  domain = txt "docker.localhost";
  exposed_by_default = true;
  use_bind_port_ip = false;
  swarm_mode = true;
  watch = true;
}

abbrev settings : NetworkSettings
settings = record {
  network_mode = txt "bridge";
  ports = (txt "80/tcp", record { host_ip = txt "10.0.0.1"; host_port = txt "8080" } ∷ []) ∷ [];
  networks = [];
}

abbrev container : Text → Dict Text → Text → DockerData
container name labels health = record {
  service_name = name;
  name = name;
  labels = labels;
  network_settings = settings;
  health = health;
}

abbrev tagged : Dict Text → Dict Text
tagged labels = (txt "traefik.tags", txt "us,web") ∷ labels

abbrev web : DockerData
web = container (txt "/my_web") (tagged []) []

abbrev api : DockerData
api = container (txt "/api") (tagged ((txt "traefik.backend", txt "my_web") ∷ [])) (txt "healthy")

abbrev sick : DockerData
sick = container (txt "/api") (tagged []) (txt "unhealthy")

names_the_host : get_frontend_rule docker web ≡ txt "Host:my-web.docker.localhost"
unfolding rules
names_the_host = refl

names_the_frontend : get_frontend_name docker web ≡ txt "Host-my-web-docker-localhost"
unfolding rules
names_the_frontend = refl

takes_web : container_filter eqt docker web ≡ true
unfolding rules
takes_web = refl

refuses_sick : container_filter eqt docker sick ≡ false
unfolding rules
refuses_sick = refl

container_filter_iff_example : (container_filter eqt docker web ≡ true) ↔ IsServed eqt docker web
container_filter_iff_example = container_filter_iff eqt docker web

docker_objects-groups_example :
    let o = docker_objects eqt docker (web ∷ sick ∷ api ∷ []) in
    let served = keep (container_filter eqt docker) (web ∷ sick ∷ api ∷ []) in
    (or_nil (lookup (txt "my-web") o.servers) ≡ keep (is_named get_backend (txt "my-web")) served)
    × (lookup (txt "my-web") o.backends
        ≡ last_or get_backend none (keep (is_named get_backend (txt "my-web")) served))
    × (or_nil (lookup (txt "my-web") o.frontends)
        ≡ keep (is_named (get_frontend_name docker) (txt "my-web")) served)
docker_objects-groups_example =
    docker_objects-groups eqt docker (web ∷ sick ∷ api ∷ []) (txt "my-web")

-- Both containers serve the backend that one has by its name and the other by its label.
two_servers :
    or_nil (lookup (txt "my-web") (docker_objects eqt docker (web ∷ sick ∷ api ∷ [])).servers)
    ≡ web ∷ api ∷ []
unfolding rules
two_servers = refl

abbrev shop : DockerData
shop =
    container (txt "shop")
      ((txt "traefik.cart.port", txt "81")
        ∷ (txt "traefik.cart.frontend.rule", txt "Path:/cart")
        ∷ (txt "traefik.frontend.rule", txt "Path:/")
        ∷ [])
      []

shop_labels : IsMap shop.labels
unfolding rules
shop_labels = (refl, (refl, (refl, tt)))

get_container_service_label-lookup_example :
    get_container_service_label shop (txt "cart") (txt "frontend.rule") ≡ (
      if is_answer
        (service_property (service_key (txt "cart") (txt "frontend.rule")))
        (txt "cart")
        (txt "frontend.rule")
      then lookup (service_key (txt "cart") (txt "frontend.rule")) shop.labels
      else none)
get_container_service_label-lookup_example =
    get_container_service_label-lookup shop (txt "cart") (txt "frontend.rule") shop_labels

finds_the_rule :
    get_container_service_label shop (txt "cart") (txt "frontend.rule") ≡ some (txt "Path:/cart")
unfolding rules
finds_the_rule = refl

-- The label of the container's own frontend is none of a service.
no_service : service_property (txt "traefik.frontend.rule") ≡ none
unfolding rules
no_service = refl

abbrev engine : Engine DockerObjects
engine = record {
  read_file = λ name. none;
  asset = λ name. some name;
  execute = λ template o. if is_empty o.containers then none else some template;
  decode = λ rendered. some (record { backends = some []; frontends = none });
}

abbrev empty : Configuration
empty = record { backends = some []; frontends = none }

-- The second list fails: what comes after it is not sent, and the operation has not failed.
provide_once-stalls_example :
    let run =
      provide_once eqt docker engine [] true
        (some (web ∷ []))
        ((some (api ∷ []) ∷ []) ++ none ∷ (some (web ∷ []) ∷ []))
        false in
    (run.sent
      ≡ (provide_once eqt docker engine [] true
          (some (web ∷ []))
          (some (api ∷ []) ∷ [])
          false).sent)
    × (run.failed ≡ false)
provide_once-stalls_example =
    provide_once-stalls eqt docker engine [] (web ∷ []) (some (api ∷ []) ∷ [])
      (some (web ∷ []) ∷ []) false refl

sends_two :
    (provide_once eqt docker engine [] true
      (some (web ∷ []))
      ((some (api ∷ []) ∷ []) ++ none ∷ (some (web ∷ []) ∷ []))
      false).sent
    ≡ some empty ∷ some empty ∷ []
unfolding rules
sends_two = refl

limit_without_label : get_max_conn_amount web ≡ pos max_int64
unfolding rules
limit_without_label = refl

abbrev nat : Ports
nat = record {
  int_of = λ port. 0;
  port_of = λ port. elim (cut (txt "/") port) [ none ↦ [] | some (number, _) ↦ number ];
  sort = λ less ports. ports;
}

port_of_web : get_port nat web ≡ txt "80"
unfolding rules get_port first_port
port_of_web = refl

-- With the setting UseBindPortIP the address is the same: "80/tcp" is not "80/TCP".
unbound :
    get_ip_address nat (record docker { use_bind_port_ip = true }) web
    ≡ get_ip_address nat docker web
unfolding rules get_ip_address named_network default_address bound_address bound_ip get_port
    first_port first_address
unbound = refl
