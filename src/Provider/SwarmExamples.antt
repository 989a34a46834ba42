-- ===== src/Provider/SwarmExamples.antt =====
-- Services of a swarm on concrete inputs (provider/docker/docker.go).
use traefik_release.Base.{
  ◌≡◌, refl, map, false, not, Option, none, some, List, [], ◌∷◌, ◌++◌, if◌then◌else◌, keep, any,
  all, Text, txt, eqt, is_empty, lower, to_lower, strip, trim_prefix, trim_suffix, join, cut,
  contains, lookup, insert, delete, fields_from, fields_func, close, split_from, split,
}
use traefik_release.Provider.Constraints.{
  match_constraints, constraints_loop, match_with_at_least_one_tag,
}
use traefik_release.Provider.Numbers.{
  parse_int, parse_digits, digits_value, as_positive, as_negative, parse_bool,
}
use traefik_release.Provider.Labels.{
  replace_byte, normalize, or_else, parts_of, value_at, is_enabled, replace, is_some,
}
use mathlib.Core.Bool.{xor}
use traefik_release.Provider.Grouping.{or_nil, append_to_group, group_from, store_from, last_or}
use traefik_release.Provider.Rendering.{decoded, rendered_with, get_configuration}
use traefik_release.Provider.Docker.{DockerData}
use traefik_release.Provider.Docker.Labels.{
  get_label, get_labels_from, get_labels, compose_labels, get_sub_domain, default_rule,
  get_frontend_rule, get_frontend_name, default_backend, get_backend, is_container_enabled,
  get_max_conn_amount, get_is_backend_lb_swarm,
}
use traefik_release.Provider.Docker.Services.{
  is_one_line, is_property, match_service, service_property, properties_of, put_property,
  extract_from, extract_services_labels, get_container_service_label,
}
use traefik_release.Provider.Docker.Filters.{container_filter}
use traefik_release.Provider.Docker.Swarm.{
  SwarmService, Task, NetworkResource, add_virtual_ips, service_networks, parse_service,
  parse_tasks, running_tasks, list_tasks, uses_swarm_lb, add_service, services_from, list_services,
  network_map,
}
use traefik_release.Provider.Docker.Loading.{docker_objects, load_docker_config}
use traefik_release.Provider.Docker.Providing.{send_if_any, watch_rounds, provide_once}
use traefik_release.Provider.Docker.Laws.{list_services-last}
use traefik_release.Provider.Cluster.{itoa, itoa_from}

rules : Unit {0}
unfolding match_constraints constraints_loop match_with_at_least_one_tag parse_int parse_digits
    digits_value as_positive as_negative parse_bool replace_byte normalize or_else parts_of value_at
    is_enabled replace or_nil append_to_group group_from store_from last_or decoded rendered_with
    get_configuration get_label get_labels_from get_labels compose_labels get_sub_domain
    default_rule get_frontend_rule get_frontend_name default_backend get_backend
    is_container_enabled get_max_conn_amount get_is_backend_lb_swarm is_one_line is_property
    match_service service_property properties_of put_property extract_from extract_services_labels
    get_container_service_label container_filter add_virtual_ips service_networks parse_service
    parse_tasks running_tasks list_tasks uses_swarm_lb add_service services_from list_services
    network_map docker_objects load_docker_config send_if_any watch_rounds provide_once lookup
    insert delete eqt is_empty lower to_lower strip trim_prefix trim_suffix join cut contains
    fields_from fields_func close split_from split keep any all xor
rules = tt

abbrev service : Text → SwarmService
service name = record {
  id = name;
  name = name;
  labels = [];
  is_global = false;
  endpoint_mode = some (txt "vip");
  virtual_ips = record { network_id = txt "n1"; addr = txt "10.1.0.2/24" } ∷ [];
}

abbrev overlay : NetworkResource
overlay = record { id = txt "n1"; name = txt "front" }

-- The tasks of "db" cannot be listed.
abbrev tasks : Text → Option (List Task)
tasks name =
    if eqt name (txt "db")
    then none
    else some (record { id = txt "t1"; slot = 1; state = txt "running"; attachments = [] } ∷ [])

abbrev without_mask : Text → Text
without_mask cidr = elim (cut (txt "/") cidr) [ none ↦ [] | some (ip, _) ↦ ip ]

by_tasks :
    uses_swarm_lb without_mask (service (txt "cache")) (network_map [] (overlay ∷ [])) ≡ false
unfolding rules
by_tasks = refl

list_services-last_example :
    (list_services without_mask
      (some ((service (txt "db") ∷ []) ++ service (txt "cache") ∷ []))
      (some (overlay ∷ []))
      tasks).1
    ≡ not (is_some (tasks (txt "cache")))
list_services-last_example =
    list_services-last without_mask tasks (service (txt "db") ∷ []) (service (txt "cache"))
      (overlay ∷ []) by_tasks

-- One task is listed, and that those of "db" cannot be is no error.
forgets_the_error :
    (list_services without_mask
      (some (service (txt "db") ∷ service (txt "cache") ∷ []))
      (some (overlay ∷ []))
      tasks).1
    ≡ false
unfolding rules
forgets_the_error = refl

names_the_task :
    map
      (λ (d : DockerData). d.name)
      (list_services without_mask (some (service (txt "cache") ∷ [])) (some (overlay ∷ [])) tasks).0
    ≡ txt "cache.1" ∷ []
unfolding rules itoa itoa_from
names_the_task = refl

has_the_virtual_ip :
    (parse_service without_mask
      (service (txt "cache"))
      (network_map [] (overlay ∷ []))).network_settings.networks
    ≡ (
      txt "front",
      record { name = txt "front"; addr = txt "10.1.0.2"; port = 0; protocol = []; id = txt "n1" },
    )
      ∷ []
unfolding rules
has_the_virtual_ip = refl
