-- ===== src/Provider/Ecs/Listing.antt =====
-- provider/ecs/ecs.go: listInstances, with the task definitions that it looks up.
use traefik_release.Base.{
  ℕ, ◌-◌, Option, none, some, List, [], ◌∷◌, ◌++◌, map, ltb, ◌==◌, if◌then◌else◌, length, drop,
  Text, is_empty, Dict, lookup,
}
use traefik_release.Provider.Picking.{then_picked, Picked, picked, refused, panicked, element}
use traefik_release.Provider.Ecs.{Machine, EcsInstance}
use traefik_release.Provider.Ecs.Chunks.{chunked_task_arns}
use traefik_release.Provider.Ecs.Lookups.{
  Container, Task, TaskDefinition, Aws, all_pages, request_each, number_arns, index_at,
  lookup_ec2_instances,
}

unfoldable pub lookup_task_definitions : Aws → List Text → Picked (List TaskDefinition)
lookup_task_definitions aws [] = picked []
lookup_task_definitions aws (arn ∷ arns) = elim (aws.describe_task_definition arn) [
  | none ↦ refused
  | some d ↦ then_picked (lookup_task_definitions aws arns) (λ ds. picked (d ∷ ds))
]

-- The labels of the definition of the container's name.
unfoldable pub find_definition : Text → List (Text × Dict Text) → Option (Dict Text)
find_definition name definitions = lookup name definitions

-- strings.Replace(group, ":", "-", 1)
unfoldable pub dash_first_colon : Text → Text
dash_first_colon [] = []
dash_first_colon (c ∷ s) = let rest = dash_first_colon s in if c == b':' then b'-' ∷ s else c ∷ rest

-- The last twelve bytes.
unfoldable pub short_id : Text → Picked Text
short_id arn = if ltb (length arn) 12 then panicked else picked (drop (length arn - 12) arn)

unfoldable pub instance_of : Task → Container → TaskDefinition → Option Machine → Text → EcsInstance
instance_of t c d m id = record {
  name = dash_first_colon t.group ++ (b'-' ∷ c.name);
  id = id;
  host_ports = c.host_ports;
  docker_labels = find_definition c.name d.container_definitions;
  machine = m;
}

-- What the loop over the tasks reads of.
pub record Lists : Type 0 where
  pub machines : List (Option Machine)
  pub definitions : List TaskDefinition
  pub machine_numbers : Dict ℕ
  pub definition_numbers : Dict ℕ

-- Go reads the definition, the identifier and the machine in this order.
unfoldable pub container_instance : Lists → Task → Container → Picked EcsInstance
container_instance l t c =
    then_picked (element l.definitions (index_at t.task_definition_arn l.definition_numbers)) λ d.
      then_picked (short_id t.task_arn) λ id.
        then_picked (element l.machines (index_at t.container_instance_arn l.machine_numbers))
          λ m. picked (instance_of t c d m id)

unfoldable pub container_instances : Lists → Task → List Container → Picked (List EcsInstance)
container_instances l t [] = picked []
container_instances l t (c ∷ containers) =
    then_picked (container_instance l t c)
      (λ i. then_picked (container_instances l t containers) (λ is. picked (i ∷ is)))

unfoldable pub task_instances : Lists → List Task → Picked (List EcsInstance)
task_instances l [] = picked []
task_instances l (t ∷ tasks) =
    then_picked (container_instances l t t.containers)
      (λ is. then_picked (task_instances l tasks) (λ more. picked (is ++ more)))

unfoldable pub instances_of_tasks : Aws → List Task → Picked (List EcsInstance)
instances_of_tasks aws tasks =
    let machine_arns = number_arns (map (λ t. t.container_instance_arn) tasks) in
    let definition_arns = number_arns (map (λ t. t.task_definition_arn) tasks) in
    then_picked (lookup_ec2_instances aws machine_arns.arns) λ machines.
      then_picked (lookup_task_definitions aws definition_arns.arns) λ definitions.
        task_instances
          (record {
            machines = machines;
            definitions = definitions;
            machine_numbers = machine_arns.by_arn;
            definition_numbers = definition_arns.by_arn;
          })
          tasks

unfoldable pub of_option {ℓ} : {A : Type ℓ} → Option A → Picked A
of_option none = refused
of_option (some a) = picked a

-- No chunks is that the loop's rounds run out, which they do not.
unfoldable pub describe_chunks : Aws → Option (List (List Text)) → Picked (List Task)
describe_chunks aws none = refused
describe_chunks aws (some chunks) = of_option (request_each aws.describe_tasks chunks)

-- listInstances
unfoldable pub list_instances : Aws → Picked (List EcsInstance)
list_instances aws = then_picked (of_option (all_pages aws.list_tasks)) λ task_arns.
    if is_empty task_arns
    then picked []
    else then_picked (describe_chunks aws (chunked_task_arns task_arns)) (instances_of_tasks aws)
