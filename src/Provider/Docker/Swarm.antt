-- ===== src/Provider/Docker/Swarm.antt =====
-- provider/docker/docker.go: from what the engine tells of the services of a swarm, and their tasks.
use traefik_release.Base.{
  ℕ, Bool, true, false, Option, none, some, List, [], ◌∷◌, ◌++◌, if◌then◌else◌, Text, txt, eqt,
  Dict, lookup, insert,
}
use traefik_release.Provider.Numbers.{parse_bool}
use traefik_release.Provider.Cluster.{itoa}
use traefik_release.Provider.Docker.{NetworkData, DockerData, no_network_settings}
use traefik_release.Provider.Docker.Labels.{get_is_backend_lb_swarm}

pub record VirtualIp : Type 0 where
  pub network_id : Text
  pub addr : Text

pub record SwarmService : Type 0 where
  pub id : Text
  pub name : Text
  pub labels : Dict Text
  pub is_global : Bool
  pub endpoint_mode : Option Text
  pub virtual_ips : List VirtualIp

pub record Attachment : Type 0 where
  pub network_id : Text
  pub addresses : List Text

pub record Task : Type 0 where
  pub id : Text
  pub slot : ℕ
  pub state : Text
  pub attachments : List Attachment

pub record NetworkResource : Type 0 where
  pub id : Text
  pub name : Text

unfoldable pub network_map : Dict NetworkResource → List NetworkResource → Dict NetworkResource
network_map m [] = m
network_map m (network ∷ networks) = network_map (insert network.id network m) networks

-- `ip_of` is net.ParseCIDR with the address's String.
module _ (ip_of : Text → Text) where
  abbrev pub attached : NetworkResource → Text → Text → NetworkData
  attached network id addr = record {
    name = network.name;
    addr = ip_of addr;
    port = 0;
    protocol = [];
    id = id;
  }

  unfoldable pub add_virtual_ips :
      Dict NetworkResource → Dict NetworkData → List VirtualIp → Dict NetworkData
  add_virtual_ips m found [] = found
  add_virtual_ips m found (v ∷ ips) = elim (lookup v.network_id m) [
    | none ↦ add_virtual_ips m found ips
    | some network ↦
        add_virtual_ips m (insert network.name (attached network v.network_id v.addr) found) ips
  ]

  unfoldable pub service_networks : Dict NetworkResource → SwarmService → Dict NetworkData
  service_networks m s = elim s.endpoint_mode [
    | none ↦ []
    | some mode ↦ if eqt mode (txt "vip") then add_virtual_ips m [] s.virtual_ips else []
  ]

  -- parseService
  unfoldable pub parse_service : SwarmService → Dict NetworkResource → DockerData
  parse_service s m = record {
    service_name = s.name;
    name = s.name;
    labels = s.labels;
    network_settings = record no_network_settings { networks = service_networks m s };
    health = [];
  }

  unfoldable pub add_addresses :
      NetworkResource → Text → Dict NetworkData → List Text → Dict NetworkData
  add_addresses network id found [] = found
  add_addresses network id found (addr ∷ addresses) =
      add_addresses network id (insert network.name (attached network id addr) found) addresses

  unfoldable pub add_attachments :
      Dict NetworkResource → Dict NetworkData → List Attachment → Dict NetworkData
  add_attachments m found [] = found
  add_attachments m found (a ∷ attachments) = elim (lookup a.network_id m) [
    | none ↦ add_attachments m found attachments
    | some network ↦
        add_attachments m (add_addresses network a.network_id found a.addresses) attachments
  ]

  -- parseTasks
  unfoldable pub parse_tasks : Task → DockerData → Dict NetworkResource → Bool → DockerData
  parse_tasks task service m is_global_svc = record {
    service_name = service.name;
    name = service.name ++ (b'.' ∷ (if is_global_svc then task.id else itoa task.slot));
    labels = service.labels;
    network_settings = record no_network_settings {
      networks = add_attachments m [] task.attachments;
    };
    health = [];
  }

  unfoldable pub running_tasks :
      DockerData → Dict NetworkResource → Bool → List Task → List DockerData
  running_tasks service m is_global_svc [] = []
  running_tasks service m is_global_svc (task ∷ tasks) =
      let rest = running_tasks service m is_global_svc tasks in
      if eqt task.state (txt "running")
      then parse_tasks task service m is_global_svc ∷ rest
      else rest

  -- listTasks, with whether it failed; `task_list` is what the engine answers for the service.
  unfoldable pub list_tasks :
      Option (List Task) → DockerData → Dict NetworkResource → Bool → List DockerData × Bool
  list_tasks none service m is_global_svc = ([], true)
  list_tasks (some tasks) service m is_global_svc =
      (running_tasks service m is_global_svc tasks, false)

  -- The variable useSwarmLB
  unfoldable pub uses_swarm_lb : SwarmService → Dict NetworkResource → Bool
  uses_swarm_lb s m = elim (parse_bool (get_is_backend_lb_swarm (parse_service s m))) [
    | some b ↦ b
    | none ↦ false
  ]

  -- The loop of listServices: the list so far, and the variable err.
  unfoldable pub add_service :
      (Text → Option (List Task))
      → Dict NetworkResource
      → SwarmService
      → List DockerData × Bool
      → List DockerData × Bool
  add_service task_list m s (found, failed) =
      if uses_swarm_lb s m
      then (found ++ parse_service s m ∷ [], failed)
      else (let listed = list_tasks (task_list s.id) (parse_service s m) m s.is_global in
          (found ++ listed.0, listed.1))

  unfoldable pub services_from :
      (Text → Option (List Task))
      → Dict NetworkResource
      → List DockerData × Bool
      → List SwarmService
      → List DockerData × Bool
  services_from task_list m state [] = state
  services_from task_list m state (s ∷ services) =
      services_from task_list m (add_service task_list m s state) services

  -- listServices, with whether it failed
  unfoldable pub list_services :
      Option (List SwarmService)
      → Option (List NetworkResource)
      → (Text → Option (List Task))
      → List DockerData × Bool
  list_services none networks task_list = ([], true)
  list_services (some services) none task_list = ([], true)
  list_services (some services) (some networks) task_list =
      services_from task_list (network_map [] networks) ([], false) services
