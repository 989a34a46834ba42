-- ===== src/Provider/MesosExamples.antt =====
-- Tasks on concrete inputs (provider/mesos/mesos.go).
use traefik_release.Base.{
  inl, inr, ◌≡◌, refl, map, true, false, some, List, [], ◌∷◌, keep, any, all, All, Text, txt, eqt,
  is_empty, lower, to_lower, strip, trim_prefix, trim_suffix, join, cut, contains, lookup, insert,
  delete, fields_from, fields_func, close, split_from, split, Dict,
}
use mathlib.Core.Bool.{xor}
use traefik_release.Provider.Constraints.{
  match_constraints, constraints_loop, match_with_at_least_one_tag,
}
use traefik_release.Provider.Numbers.{
  ℤ, pos, parse_int, parse_digits, digits_value, as_positive, as_negative, itoa_int,
}
use traefik_release.Provider.Labels.{
  replace_byte, normalize, or_else, parts_of, value_at, is_enabled, replace,
}
use traefik_release.Provider.Slices.{get_elem?, set, exchange, swap, reverse_loop, reverse_slice}
use traefik_release.Provider.Picking.{IsCalm, picked, panicked, element}
use traefik_release.Provider.Rendering.{decoded, rendered_with, get_configuration}
use traefik_release.Provider.Cluster.{itoa, itoa_from}
use traefik_release.Provider.Mesos.{Mesos, Task, labels_of, get_label, get_mesos}
use traefik_release.Provider.Mesos.Labels.{
  is_mesos_application_enabled, get_sub_domain, host_rule, get_frontend_rule, cleanup_special_chars,
  get_frontend_backend, get_backend, application_label,
}
use traefik_release.Provider.Mesos.Filters.{
  is_index_of, is_one_of_ports, is_sick, mesos_task_filter,
}
use traefik_release.Provider.Mesos.Ports.{
  number_text, port_of_index, first_number, own_port, number_of, port_by, get_port,
}
use traefik_release.Provider.Mesos.Loading.{
  MesosState, with_slave_ip, running, records_of, task_records, task_in_slice, applications_from,
  mesos_objects, load_mesos_config, send_if_any, run_events,
}
use traefik_release.Provider.Mesos.CalmLaws.{IsAgreed, mesos_objects-IsCalm}
use traefik_release.Provider.Mesos.Laws.{named, applications_from_unique}

rules : Unit {0}
unfolding match_constraints constraints_loop match_with_at_least_one_tag parse_int parse_digits
    digits_value as_positive as_negative replace_byte normalize or_else parts_of value_at is_enabled
    replace get_elem? set exchange swap reverse_loop reverse_slice element decoded rendered_with
    get_configuration lookup insert delete eqt is_empty lower to_lower strip trim_prefix trim_suffix
    join cut contains fields_from fields_func close split_from split keep any all xor itoa itoa_from
    itoa_int labels_of get_label get_mesos is_mesos_application_enabled get_sub_domain host_rule
    get_frontend_rule cleanup_special_chars get_frontend_backend get_backend application_label
    is_index_of is_one_of_ports is_sick mesos_task_filter number_text port_of_index first_number
    own_port number_of port_by get_port with_slave_ip running records_of task_records task_in_slice
    applications_from mesos_objects load_mesos_config send_if_any run_events
rules = tt

abbrev mesos : Mesos
mesos = record {
  domain = txt "mesos.org";
  exposed_by_default = true;
  groups_as_sub_domains = false;
  ip_sources = txt "netinfo";
  masters = [];
}

abbrev task : Text → Text → List ℤ → Dict Text → Task
task id name ports labels = record {
  id = id;
  name = name;
  slave_id = txt "s1";
  slave_ip = [];
  state = txt "TASK_RUNNING";
  discovery_name = name;
  discovery_ports = ports;
  labels = labels;
  statuses = [];
}

abbrev first : Task
first =
    task (txt "t1") (txt "web_app") (pos 31000 ∷ pos 31001 ∷ [])
      ((txt "traefik.portIndex", txt "1") ∷ [])

-- A task of the same application, from before it had two ports and the label.
abbrev older : Task
older = task (txt "t2") (txt "web_app") (pos 31002 ∷ []) []

both_pass : (mesos_task_filter first true ≡ true) × (mesos_task_filter older true ≡ true)
unfolding rules
both_pass = (refl, refl)

abbrev state : MesosState
state = record {
  frameworks = (first ∷ older ∷ []) ∷ [];
  slaves = record { id = txt "s1"; hostname = txt "node1" } ∷ [];
}

-- One application for both, which is the first.
names_of_applications :
    map (λ (t : Task). t.id) (mesos_objects mesos state).applications ≡ txt "t1" ∷ []
unfolding rules
names_of_applications = refl

reads_the_port : get_port first (first ∷ []) ≡ picked (txt "31001")
unfolding rules
reads_the_port = refl

-- The filter let the older task through, but reading its port panics by the first one's label.
panics_for_older : get_port older (mesos_objects mesos state).applications ≡ panicked
unfolding rules
panics_for_older = refl

abbrev alike : MesosState
alike = record {
  frameworks = (first ∷ record older { discovery_name = txt "api" } ∷ first ∷ []) ∷ [];
  slaves = [];
}

alike-IsAgreed : IsAgreed (mesos_objects mesos alike).tasks
unfolding rules
alike-IsAgreed = (
  (inr refl, (inl (λ e. cc), (inr refl, tt))),
  (
    (inl (λ e. cc), (inr refl, (inl (λ e. cc), tt))),
    ((inr refl, (inl (λ e. cc), (inr refl, tt))), tt),
  ),
)

mesos_objects-IsCalm_example :
    All
      (λ t. IsCalm (get_port t (mesos_objects mesos alike).applications))
      (mesos_objects mesos alike).tasks
mesos_objects-IsCalm_example = mesos_objects-IsCalm mesos alike alike-IsAgreed

applications_from_unique_example :
    All
      (λ t. named t.discovery_name (applications_from [] (first ∷ older ∷ [])) ≡ 1)
      (first ∷ older ∷ [])
applications_from_unique_example = applications_from_unique (first ∷ older ∷ [])

names_the_host : get_frontend_rule mesos first ≡ some (txt "Host:web-app.mesos.org")
unfolding rules
names_the_host = refl

fills_in_the_host :
    map (λ (t : Task). t.slave_ip) (task_records state) ≡ txt "node1" ∷ txt "node1" ∷ []
unfolding rules
fills_in_the_host = refl
