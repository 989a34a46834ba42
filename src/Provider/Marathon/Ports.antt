-- ===== src/Provider/Marathon/Ports.antt =====
-- provider/marathon/marathon.go: the port and the address of a task.
use traefik_release.Base.{
  Dict, ℕ, zero, suc, Bool, true, false, not, ◌||◌, Option, none, some, List, [], ◌∷◌, ltb,
  if◌then◌else◌, length, Text, txt, is_empty, lookup,
}
use traefik_release.Provider.Numbers.{ℤ, pos, negsuc, parse_int, itoa_int}
use traefik_release.Provider.Picking.{Picked, picked, refused, panicked, element}
use traefik_release.Provider.Marathon.{Marathon, Application, Task, get_label, get_application}

-- parseIndex
unfoldable pub index_within : Option ℤ → ℕ → Option ℕ
index_within none n = none
index_within (some (pos i)) n = if ltb i n then some i else none
index_within (some (negsuc i)) n = none

unfoldable pub parse_index : Text → ℕ → Option ℕ
parse_index index n = index_within (parse_int index) n

-- retrieveAvailablePorts
unfoldable pub set_ports : List (Option ℤ) → List ℤ
set_ports [] = []
set_ports (none ∷ defs) = set_ports defs
set_ports (some port ∷ defs) = port ∷ set_ports defs

-- The ports of the IP address per task. A discovery that is nil, and its ports that are, are read.
unfoldable pub discovery_ports : Option (Option (Option (List ℤ))) → Picked (List ℤ)
discovery_ports none = picked []
discovery_ports (some none) = panicked
discovery_ports (some (some none)) = panicked
discovery_ports (some (some (some numbers))) = picked numbers

unfoldable pub retrieve_available_ports : Application → Task → Picked (List ℤ)
retrieve_available_ports a t =
    if not (is_empty t.ports)
    then picked t.ports
    else if not (is_empty a.port_definitions)
    then picked (set_ports a.port_definitions)
    else discovery_ports a.ip_address_per_task

-- processPorts
unfoldable pub explicit_port : Option ℤ → Picked ℤ
explicit_port none = refused
explicit_port (some (pos zero)) = refused
explicit_port (some (pos (suc n))) = picked (pos (suc n))
explicit_port (some (negsuc n)) = refused

unfoldable pub port_at : List ℤ → Option Text → Picked ℤ
port_at ports none = element ports 0
port_at ports (some index) = elim (parse_index index (length ports)) [
  | none ↦ refused
  | some i ↦ element ports i
]

unfoldable pub index_port : List ℤ → Option Text → Picked ℤ
index_port [] index = refused
index_port (port ∷ ports) index = port_at (port ∷ ports) index

unfoldable pub index_port_of : Picked (List ℤ) → Option Text → Picked ℤ
index_port_of (picked ports) index = index_port ports index
index_port_of refused index = refused
index_port_of panicked index = panicked

unfoldable pub port_by_labels : Dict Text → Application → Task → Picked ℤ
port_by_labels labels a t = elim (lookup (txt "traefik.port") labels) [
  | some label ↦ explicit_port (parse_int label)
  | none ↦ index_port_of (retrieve_available_ports a t) (lookup (txt "traefik.portIndex") labels)
]

unfoldable pub process_ports : Application → Task → Picked ℤ
process_ports a t = elim a.labels [ none ↦ panicked | some labels ↦ port_by_labels labels a t ]

unfoldable pub port_text : Picked ℤ → Picked Text
port_text (picked port) = picked (itoa_int port)
port_text refused = picked []
port_text panicked = panicked

-- getPort
unfoldable pub get_port : Task → List Application → Picked Text
get_port t apps = elim (get_application t apps) [
  | none ↦ picked []
  | some a ↦ port_text (process_ports a t)
]

-- getBackendServer
unfoldable pub address_at : List Text → Picked Text → Picked Text
address_at ips refused = picked []
address_at ips panicked = panicked
address_at ips (picked index) = elim (parse_index index (length ips)) [
  | none ↦ picked []
  | some i ↦ element ips i
]

unfoldable pub task_address : Application → List Text → Picked Text
task_address a [] = picked []
task_address a (ip ∷ []) = picked ip
task_address a (ip ∷ other ∷ ips) =
    address_at (ip ∷ other ∷ ips) (get_label a (txt "traefik.ipAddressIdx"))

abbrev pub has_own_addresses : Application → Bool
has_own_addresses a = elim a.ip_address_per_task [ none ↦ false | some _ ↦ true ]

unfoldable pub get_backend_server : Marathon → Task → List Application → Picked Text
get_backend_server p t apps = elim (get_application t apps) [
  | none ↦ picked []
  | some a ↦
      if not (has_own_addresses a) || p.force_task_hostname
      then picked t.host
      else task_address a t.ip_addresses
]
