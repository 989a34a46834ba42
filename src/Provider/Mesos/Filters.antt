-- ===== src/Provider/Mesos/Filters.antt =====
-- provider/mesos/mesos.go: mesosTaskFilter, which tasks are configured.
use traefik_release.Base.{
  Bool, false, not, ◌&&◌, Option, none, some, List, [], ◌∷◌, ltb, ◌==◌, if◌then◌else◌, length, any,
  Text, txt, is_empty,
}
use traefik_release.Provider.Numbers.{ℤ, pos, negsuc, parse_int}
use traefik_release.Provider.Mesos.{Task, labels_of}
use traefik_release.Provider.Mesos.Labels.{is_mesos_application_enabled}

abbrev pub same_number : ℤ → ℤ → Bool
same_number (pos a) (pos b) = a == b
same_number (negsuc a) (negsuc b) = a == b
same_number (pos a) (negsuc b) = false
same_number (negsuc a) (pos b) = false

-- An index is a number within the ports; one that is not set passes.
unfoldable pub is_index_of : List ℤ → Option ℤ → Bool
is_index_of ports none = false
is_index_of ports (some (negsuc i)) = false
is_index_of ports (some (pos i)) = ltb i (length ports)

-- A port is one of those that there are.
unfoldable pub is_one_of_ports : List ℤ → Option ℤ → Bool
is_one_of_ports ports none = false
is_one_of_ports ports (some port) = any (same_number port) ports

-- The first status says that the task is not healthy.
unfoldable pub is_sick : List (Option Bool) → Bool
is_sick [] = false
is_sick (none ∷ statuses) = false
is_sick (some healthy ∷ statuses) = not healthy

abbrev pub port_index_label : Task → Text
port_index_label t = labels_of t (txt "traefik.portIndex")

abbrev pub port_value_label : Task → Text
port_value_label t = labels_of t (txt "traefik.port")

unfoldable pub mesos_task_filter : Task → Bool → Bool
mesos_task_filter t exposed_by_default =
    if is_empty t.discovery_ports
    then false
    else if not (is_mesos_application_enabled t exposed_by_default)
    then false
    else if not (is_empty (port_index_label t)) && not (is_empty (port_value_label t))
    then false
    else if not (is_empty (port_index_label t))
        && not (is_index_of t.discovery_ports (parse_int (port_index_label t)))
    then false
    else if not (is_empty (port_value_label t))
        && not (is_one_of_ports t.discovery_ports (parse_int (port_value_label t)))
    then false
    else not (is_sick t.statuses)
