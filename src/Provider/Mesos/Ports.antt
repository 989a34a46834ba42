-- ===== src/Provider/Mesos/Ports.antt =====
-- provider/mesos/mesos.go: getPort, the port of a task by the labels of its application.
use traefik_release.Base.{Option, none, some, List, [], ◌∷◌, Text, txt}
use traefik_release.Provider.Labels.{or_else}
use traefik_release.Provider.Numbers.{ℤ, pos, negsuc, parse_int, itoa_int}
use traefik_release.Provider.Picking.{Picked, picked, refused, panicked, element}
use traefik_release.Provider.Mesos.{Task, get_label, get_mesos}

unfoldable pub number_text : Picked ℤ → Picked Text
number_text (picked port) = picked (itoa_int port)
number_text refused = refused
number_text panicked = panicked

-- DiscoveryPorts[index], for whatever number the label has.
unfoldable pub port_of_index : List ℤ → ℤ → Picked Text
port_of_index ports (pos i) = number_text (element ports i)
port_of_index ports (negsuc i) = panicked

unfoldable pub first_number : List ℤ → Text
first_number [] = []
first_number (port ∷ ports) = itoa_int port

-- The label traefik.port, or the first port.
unfoldable pub own_port : Task → Task → Text
own_port t a = or_else (get_label a (txt "traefik.port")) (first_number t.discovery_ports)

-- The number that a label holds.
unfoldable pub number_of : Option Text → Option ℤ
number_of none = none
number_of (some label) = parse_int label

unfoldable pub port_by : Task → Task → Option ℤ → Picked Text
port_by t a (some index) = port_of_index t.discovery_ports index
port_by t a none = picked (own_port t a)

unfoldable pub get_port : Task → List Task → Picked Text
get_port t apps = elim (get_mesos t apps) [
  | none ↦ picked []
  | some a ↦ port_by t a (number_of (get_label a (txt "traefik.portIndex")))
]
