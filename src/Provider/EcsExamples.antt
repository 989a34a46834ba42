-- ===== src/Provider/EcsExamples.antt =====
-- Tasks and instances on concrete inputs (provider/ecs/ecs.go).
use traefik_release.Base.{
  ℕ, zero, suc, ◌≡◌, refl, map, true, false, none, some, List, [], ◌∷◌, ◌++◌, if◌then◌else◌, length,
  keep, any, all, All, Text, txt, eqt, is_empty, lower, to_lower, strip, trim_prefix, trim_suffix,
  join, cut, contains, lookup, insert, delete, fields_from, fields_func, close, split_from, split,
}
use mathlib.Core.Bool.{xor}
use traefik_release.Provider.Constraints.{
  match_constraints, constraints_loop, match_with_at_least_one_tag,
}
use traefik_release.Provider.Numbers.{
  pos, parse_int, parse_digits, digits_value, as_positive, as_negative, itoa_int,
}
use traefik_release.Provider.Labels.{
  replace_byte, normalize, or_else, parts_of, value_at, is_enabled, replace,
}
use traefik_release.Provider.Slices.{get_elem?, set}
use traefik_release.Provider.Picking.{then_picked, picked, element}
use traefik_release.Provider.Rendering.{decoded, rendered_with, get_configuration}
use traefik_release.Provider.Cluster.{itoa, itoa_from}
use traefik_release.Provider.Ecs.{Ecs, EcsInstance, Machine}
use traefik_release.Provider.Ecs.Labels.{
  label, full_or, protocol, get_frontend_rule, host, port, machine_runs, enabled_by,
  filter_instance, first_of_names, filter_frontends,
}
use traefik_release.Provider.Ecs.Chunks.{
  slice, chunks_from, chunked_task_arns, joined, IsChunk, chunked_task_arns_lem,
}
use traefik_release.Provider.Ecs.Listing.{
  lookup_task_definitions, find_definition, dash_first_colon, short_id, instance_of,
  container_instance, container_instances, task_instances, instances_of_tasks, of_option,
  describe_chunks, list_instances,
}
use traefik_release.Provider.Ecs.Lookups.{
  Task, TaskDefinition, Aws, append_page, all_pages, append_each, request_each, add_arn,
  number_from, number_arns, index_at, order_from, put, with_ids, read_page, read_pages, put_machine,
  read_machines, read_reservations, nils, lookup_ec2_instances,
}
use traefik_release.Provider.Ecs.ListingLaws.{number_arns-definition}

rules : Unit {0}
unfolding match_constraints constraints_loop match_with_at_least_one_tag parse_int parse_digits
    digits_value as_positive as_negative replace_byte normalize or_else parts_of value_at is_enabled
    replace get_elem? set element decoded rendered_with get_configuration lookup insert delete eqt
    is_empty lower to_lower strip trim_prefix trim_suffix join cut contains fields_from fields_func
    close split_from split keep any all xor itoa itoa_from itoa_int label full_or protocol
    get_frontend_rule host port machine_runs enabled_by filter_instance first_of_names
    filter_frontends slice chunks_from chunked_task_arns joined append_page all_pages append_each
    request_each add_arn number_from number_arns index_at order_from put with_ids then_picked
    read_page read_pages put_machine read_machines read_reservations nils lookup_ec2_instances
    lookup_task_definitions find_definition dash_first_colon short_id instance_of container_instance
    container_instances task_instances instances_of_tasks of_option describe_chunks list_instances
rules = tt

abbrev ecs : Ecs
ecs = record { domain = txt "ecs.localhost"; exposed_by_default = true; watch = false }

abbrev arn : Text → Text
arn name = txt "arn:aws:ecs:task/" ++ name

abbrev task : Text → Text → Text → Task
task name machine definition = record {
  task_arn = arn name;
  group = txt "service:web:eu";
  container_instance_arn = machine;
  task_definition_arn = definition;
  containers = record { name = txt "nginx"; host_ports = pos 32768 ∷ [] } ∷ [];
}

abbrev tasks : List Task
tasks =
    task (txt "0123456789ab") (txt "m2") (txt "d1")
    ∷ task (txt "ba9876543210") (txt "m1") (txt "d1")
    ∷ []

abbrev machine : Text → Machine
machine ip = record { state_name = some (txt "running"); private_ip_address = some ip }

abbrev definition : TaskDefinition
definition = record {
  container_definitions = (txt "nginx", (txt "traefik.weight", txt "5") ∷ []) ∷ [];
}

-- The machines are answered in another order than that of the tasks.
abbrev aws : Aws
aws = record {
  list_tasks = some (arn (txt "0123456789ab") ∷ []) ∷ some (arn (txt "ba9876543210") ∷ []) ∷ [];
  describe_tasks = λ arns. some tasks;
  describe_container_instances =
      λ arns. some ((txt "m1", txt "i1") ∷ (txt "m2", txt "i2") ∷ []) ∷ [];
  describe_instances = λ ids.
      some (
        (some (txt "i1"), machine (txt "10.0.0.1"))
        ∷ (some (txt "i2"), machine (txt "10.0.0.2"))
        ∷ [])
      ∷ [];
  describe_task_definition = λ name. if eqt name (txt "d1") then some definition else none;
}

abbrev instance_at : Text → Text → EcsInstance
instance_at id ip = record {
  name = txt "service-web:eu-nginx";
  id = id;
  host_ports = pos 32768 ∷ [];
  docker_labels = some ((txt "traefik.weight", txt "5") ∷ []);
  machine = some (machine ip);
}

lists_both :
    list_instances aws
    ≡ picked (
        instance_at (txt "0123456789ab") (txt "10.0.0.2")
        ∷ instance_at (txt "ba9876543210") (txt "10.0.0.1")
        ∷ [])
unfolding rules
lists_both = refl

takes_an_instance :
    filter_instance ecs (instance_at (txt "0123456789ab") (txt "10.0.0.2")) ≡ picked true
unfolding rules
takes_an_instance = refl

one_frontend :
    filter_frontends
      (instance_at (txt "a") (txt "10.0.0.2") ∷ instance_at (txt "b") (txt "10.0.0.1") ∷ [])
    ≡ instance_at (txt "a") (txt "10.0.0.2") ∷ []
unfolding rules
one_frontend = refl

abbrev arns : List Text
arns = txt "d1" ∷ txt "d1" ∷ []

describes_once : lookup_task_definitions aws (number_arns arns).arns ≡ picked (definition ∷ [])
unfolding rules
describes_once = refl

number_arns-definition_example :
    All
      (λ arn.
        (d : TaskDefinition) × (aws.describe_task_definition arn ≡ some d)
        × (element (definition ∷ []) (index_at arn (number_arns arns).by_arn) ≡ picked d))
      arns
number_arns-definition_example = number_arns-definition aws arns (definition ∷ []) describes_once

abbrev numbers : ℕ → List ℕ
numbers zero = []
numbers (suc n) = n ∷ numbers n

cuts_in_three :
    elim (chunked_task_arns (numbers 201)) [ none ↦ [] | some chunks ↦ map length chunks ]
    ≡ 100 ∷ 100 ∷ 1 ∷ []
unfolding rules
cuts_in_three = refl

chunked_task_arns_lem_example :
    (chunks : List (List ℕ)) × (chunked_task_arns (numbers 201) ≡ some chunks)
    × (joined chunks ≡ numbers 201)
    × All IsChunk chunks
chunked_task_arns_lem_example = chunked_task_arns_lem (numbers 201)
