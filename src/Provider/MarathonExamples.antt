-- ===== src/Provider/MarathonExamples.antt =====
-- Applications and tasks on concrete inputs (provider/marathon/marathon.go).
use traefik_release.Base.{
  ◌≡◌, refl, Bool, true, false, none, some, List, [], ◌∷◌, ◌==◌, if◌then◌else◌, length, keep, any,
  all, Text, txt, eqt, is_empty, lower, to_lower, strip, trim_prefix, trim_suffix, join, cut,
  contains, lookup, insert, delete, fields_from, fields_func, close, split_from, split, Dict,
}
use mathlib.Core.Bool.{xor}
use traefik_release.Provider.Constraints.{
  match_constraints, constraints_loop, match_with_at_least_one_tag,
}
use traefik_release.Provider.Numbers.{
  ℤ, pos, parse_int, parse_digits, digits_value, as_positive, as_negative, itoa_int,
}
use traefik_release.Provider.Labels.{
  replace_byte, normalize, or_else, parts_of, value_at, is_enabled, replace,
}
use traefik_release.Provider.Slices.{get_elem?, set, exchange, swap, reverse_loop, reverse_slice}
use traefik_release.Provider.Picking.{picked, refused, panicked, then_picked, element}
use traefik_release.Provider.Rendering.{Engine, decoded, rendered_with, get_configuration}
use traefik_release.Provider.Cluster.{itoa, itoa_from}
use traefik_release.Provider.Marathon.{
  Marathon, Application, Task, label_in, get_label, get_application,
}
use traefik_release.Provider.Marathon.Ports.{
  index_within, parse_index, set_ports, retrieve_available_ports, explicit_port, port_at,
  index_port, process_ports, port_text, get_port, discovery_ports, index_port_of, port_by_labels,
  address_at, task_address, get_backend_server,
}
use traefik_release.Provider.Marathon.Labels.{
  is_application_enabled, or_default, is_there, parts_or_none, or_panic, amount_of, get_sub_domain,
  host_rule, get_frontend_rule, virtual_host,
}
use traefik_release.Provider.Marathon.Loading.{
  MarathonObjects, group_tag, constraint_tags, add_kept, as_picked, filtered_at, passes,
  task_filter, application_filter, filter_tasks, filter_applications, render_filtered,
  load_marathon_config,
}
use traefik_release.Provider.Marathon.PortLaws.{PortOf, process_ports-PortOf}

rules : Unit {0}
unfolding match_constraints constraints_loop match_with_at_least_one_tag parse_int parse_digits
    digits_value as_positive as_negative replace_byte normalize or_else parts_of value_at is_enabled
    replace get_elem? set exchange swap reverse_loop reverse_slice element decoded rendered_with
    get_configuration lookup insert delete eqt is_empty lower to_lower strip trim_prefix trim_suffix
    join cut contains fields_from fields_func close split_from split keep any all xor itoa itoa_from
    itoa_int get_label get_application index_within parse_index set_ports retrieve_available_ports
    explicit_port port_at index_port process_ports port_text get_port address_at task_address
    get_backend_server is_application_enabled get_sub_domain host_rule get_frontend_rule
    virtual_host group_tag constraint_tags add_kept as_picked filtered_at passes task_filter
    application_filter filter_tasks filter_applications render_filtered label_in then_picked
    discovery_ports index_port_of port_by_labels or_default is_there parts_or_none or_panic
    amount_of load_marathon_config
rules = tt

abbrev marathon : Marathon
marathon = record {
  constraints = [];
  domain = txt "example.org";
  exposed_by_default = true;
  groups_as_sub_domains = true;
  marathon_lb_compatibility = true;
  force_task_hostname = false;
  watch = false;
}

abbrev app : Dict Text → Application
app labels = record {
  id = txt "/shop/cart";
  labels = some labels;
  port_definitions = none ∷ some (pos 9000) ∷ [];
  ip_address_per_task = none;
  has_health_checks = true;
}

abbrev task : List ℤ → List Bool → Task
task ports results = record {
  id = txt "cart.1";
  app_id = txt "/shop/cart";
  host = txt "node1";
  ports = ports;
  ip_addresses = [];
  has_health_check_results = true;
  health_check_results = results;
}

abbrev second_port : Application
second_port = app ((txt "traefik.portIndex", txt "1") ∷ [])

reads_the_second_port :
    process_ports second_port (task (pos 31000 ∷ pos 31001 ∷ []) []) ≡ picked (pos 31001)
unfolding rules
reads_the_second_port = refl

-- Without ports of the task the index is one of the definitions that have a port, of which there is one.
refuses_the_second_port : process_ports second_port (task [] []) ≡ refused
unfolding rules
refuses_the_second_port = refl

abbrev engine : Engine MarathonObjects
engine = record {
  read_file = λ name. none;
  asset = λ name. some name;
  execute = λ template o. if length o.tasks == 1 then some template else none;
  decode = λ rendered. some (record { backends = some []; frontends = none });
}

abbrev unlabelled : Application
unlabelled = record second_port { labels = none }

-- Labels that are nil are read first.
panics_without_labels : process_ports unlabelled (task (pos 31000 ∷ []) []) ≡ panicked
unfolding rules
panics_without_labels = refl

-- So does a load with a task of such an application.
panics_on_load :
    load_marathon_config eqt marathon engine []
      (some (unlabelled ∷ []))
      (some (task (pos 31000 ∷ []) [] ∷ []))
    ≡ panicked
unfolding rules
panics_on_load = refl

abbrev undiscovered : Application
undiscovered = record (app []) { port_definitions = []; ip_address_per_task = some none }

-- A discovery that is nil is read where neither the task nor the definitions have a port.
panics_without_discovery : process_ports undiscovered (task [] []) ≡ panicked
unfolding rules
panics_without_discovery = refl

process_ports-PortOf_example :
    PortOf second_port
      (task (pos 31000 ∷ pos 31001 ∷ []) [])
      (process_ports second_port (task (pos 31000 ∷ pos 31001 ∷ []) []))
process_ports-PortOf_example =
    process_ports-PortOf second_port (task (pos 31000 ∷ pos 31001 ∷ []) [])

reverses_the_path : get_frontend_rule marathon (app []) ≡ picked (txt "Host:cart.shop.example.org")
unfolding rules
reverses_the_path = refl

abbrev apps : List Application
apps = app [] ∷ []

abbrev tasks : List Task
tasks = task (pos 31000 ∷ []) (true ∷ []) ∷ task (pos 31001 ∷ []) (true ∷ false ∷ []) ∷ []

-- The task whose health check failed is left out.
loads_one_task :
    load_marathon_config eqt marathon engine [] (some apps) (some tasks)
    ≡ picked (record { backends = some []; frontends = none })
unfolding rules
loads_one_task = refl
