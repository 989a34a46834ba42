-- ===== src/Provider/Mesos/Loading.antt =====
-- provider/mesos/mesos.go: taskRecords and loadMesosConfig.
use traefik_release.Base.{
  Bool, Option, none, some, List, [], ◌∷◌, ◌++◌, if◌then◌else◌, keep, any, Text, txt, eqt,
}
use traefik_release.Server.Config.{Configuration}
use traefik_release.Provider.Rendering.{Engine, get_configuration}
use traefik_release.Provider.Mesos.{Mesos, Task}
use traefik_release.Provider.Mesos.Filters.{mesos_task_filter}

pub record Slave : Type 0 where
  pub id : Text
  pub hostname : Text

-- The state of the masters: the tasks of each framework, and the slaves.
pub record MesosState : Type 0 where
  pub frameworks : List (List Task)
  pub slaves : List Slave

-- The host name of the last slave of the task's number.
unfoldable pub with_slave_ip : Task → List Slave → Task
with_slave_ip t [] = t
with_slave_ip t (s ∷ slaves) =
    with_slave_ip (if eqt t.slave_id s.id then record t { slave_ip = s.hostname } else t) slaves

-- Only tasks that run.
unfoldable pub running : List Slave → List Task → List Task
running slaves [] = []
running slaves (t ∷ tasks) =
    let rest = running slaves tasks in
    if eqt (with_slave_ip t slaves).state (txt "TASK_RUNNING")
    then with_slave_ip t slaves ∷ rest
    else rest

unfoldable pub records_of : List Slave → List (List Task) → List Task
records_of slaves [] = []
records_of slaves (tasks ∷ frameworks) = running slaves tasks ++ records_of slaves frameworks

-- taskRecords
unfoldable pub task_records : MesosState → List Task
task_records s = records_of s.slaves s.frameworks

-- taskInSlice
unfoldable pub task_in_slice : Task → List Task → Bool
task_in_slice a tasks = any (λ b. eqt b.discovery_name a.discovery_name) tasks

-- The first task of every name.
unfoldable pub applications_from : List Task → List Task → List Task
applications_from apps [] = apps
applications_from apps (t ∷ tasks) =
    applications_from (if task_in_slice t apps then apps else apps ++ t ∷ []) tasks

-- templateObjects
pub record MesosObjects : Type 0 where
  pub applications : List Task
  pub tasks : List Task
  pub domain : Text

unfoldable pub mesos_objects : Mesos → MesosState → MesosObjects
mesos_objects p s =
    let filtered = keep (λ t. mesos_task_filter t p.exposed_by_default) (task_records s) in
    record { applications = applications_from [] filtered; tasks = filtered; domain = p.domain }

-- loadMesosConfig; `found` is what FindMaster gives for the masters.
unfoldable pub load_mesos_config :
    Mesos → Engine MesosObjects → Text → Option MesosState → Option Configuration
load_mesos_config p e filename none = none
load_mesos_config p e filename (some s) =
    get_configuration e filename (txt "templates/mesos.tmpl") (mesos_objects p s)

-- What wakes the loop of Provide's operation. The state is what a load at that time finds.
pub data Event : Type 0 where
  tick : Option MesosState → Event
  changed : List Text → Option MesosState → Event
  timed_out : Event

unfoldable pub send_if_any : Option Configuration → List Configuration → List Configuration
send_if_any none later = later
send_if_any (some c) later = c ∷ later

-- The loop: what is sent, and the provider at the end.
unfoldable pub run_events :
    Mesos → Engine MesosObjects → Text → List Event → List Configuration × Mesos
run_events p e filename [] = ([], p)
run_events p e filename (tick found ∷ events) =
    let later = run_events p e filename events in
    (send_if_any (load_mesos_config p e filename found) later.0, later.1)
run_events p e filename (changed masters found ∷ events) =
    let later = run_events (record p { masters = masters }) e filename events in
    (send_if_any (load_mesos_config p e filename found) later.0, later.1)
run_events p e filename (timed_out ∷ events) = run_events p e filename events
