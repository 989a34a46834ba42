-- ===== src/Provider/Ecs/Labels.antt =====
-- provider/ecs/ecs.go: what the labels of a container say, and which are configured. The definition
-- of a container may be nil, and then reading a label panics.
use traefik_release.Base.{
  Bool, true, false, not, Option, none, some, List, [], ◌∷◌, ◌++◌, if◌then◌else◌, any, Text, txt,
  eqt, is_empty, to_lower, split,
}
use traefik_release.Provider.Labels.{dashed, is_enabled, value_at}
use traefik_release.Provider.Numbers.{itoa_int}
use traefik_release.Provider.Picking.{Picked, picked, refused, panicked}
use traefik_release.Provider.Ecs.{Ecs, Machine, EcsInstance}

-- label
unfoldable pub label : EcsInstance → Text → Picked Text
label i k = elim i.docker_labels [ none ↦ panicked | some labels ↦ picked (value_at k labels) ]

-- The label's value, or what stands for an empty one.
unfoldable pub full_or : Text → Picked Text → Picked Text
full_or other (picked v) = picked (if is_empty v then other else v)
full_or other refused = refused
full_or other panicked = panicked

unfoldable pub protocol : EcsInstance → Picked Text
protocol i = full_or (txt "http") (label i (txt "traefik.protocol"))

unfoldable pub weight : EcsInstance → Picked Text
weight i = full_or (txt "0") (label i (txt "traefik.weight"))

unfoldable pub pass_host_header : EcsInstance → Picked Text
pass_host_header i = full_or (txt "true") (label i (txt "traefik.frontend.passHostHeader"))

unfoldable pub priority : EcsInstance → Picked Text
priority i = full_or (txt "0") (label i (txt "traefik.frontend.priority"))

unfoldable pub parts : Picked Text → Picked (List Text)
parts (picked v) = picked (if is_empty v then [] else split b',' v)
parts refused = refused
parts panicked = panicked

unfoldable pub entry_points : EcsInstance → Picked (List Text)
entry_points i = parts (label i (txt "traefik.frontend.entryPoints"))

-- getFrontendRule
unfoldable pub get_frontend_rule : Ecs → EcsInstance → Picked Text
get_frontend_rule p i =
    full_or (txt "Host:" ++ (to_lower (dashed b'_' i.name) ++ (b'.' ∷ p.domain)))
      (label i (txt "traefik.frontend.rule"))

-- Host and Port
unfoldable pub host : EcsInstance → Picked Text
host i = elim i.machine [
  | none ↦ panicked
  | some m ↦ elim m.private_ip_address [ none ↦ panicked | some ip ↦ picked ip ]
]

unfoldable pub port : EcsInstance → Picked Text
port i = elim i.host_ports [ [] ↦ panicked | p ∷ ports ↦ picked (itoa_int p) ]

-- filterInstance
unfoldable pub machine_runs : Option Machine → Bool
machine_runs none = false
machine_runs (some m) = elim m.state_name [
  | none ↦ false
  | some name ↦
      if eqt name (txt "running")
      then (elim m.private_ip_address [ none ↦ false | some _ ↦ true ])
      else false
]

unfoldable pub enabled_by : Bool → Picked Text → Picked Bool
enabled_by exposed (picked v) = picked (is_enabled exposed v)
enabled_by exposed refused = refused
enabled_by exposed panicked = panicked

unfoldable pub filter_instance : Ecs → EcsInstance → Picked Bool
filter_instance p i =
    if is_empty i.host_ports
    then picked false
    else if not (machine_runs i.machine)
    then picked false
    else enabled_by p.exposed_by_default (label i (txt "traefik.enable"))

-- filterFrontends: the first of every name; `by_name` holds the names that have been met.
unfoldable pub first_of_names : List Text → List EcsInstance → List EcsInstance
first_of_names by_name [] = []
first_of_names by_name (i ∷ instances) =
    let first = i ∷ first_of_names (i.name ∷ by_name) instances in
    let rest = first_of_names by_name instances in if any (eqt i.name) by_name then rest else first

unfoldable pub filter_frontends : List EcsInstance → List EcsInstance
filter_frontends instances = first_of_names [] instances
