-- ===== src/Provider/Docker/Providing.antt =====
-- provider/docker/docker.go: Provide, one run of its operation. What the engine answers comes as a
-- list with an entry for each round of watching; an answer that is an error has no entry's value.
use traefik_release.Base.{
  Bool, true, not, ◌&&◌, Option, none, some, List, [], ◌∷◌, if◌then◌else◌, Text,
}
use traefik_release.Server.Config.{Configuration}
use traefik_release.Provider.Rendering.{Engine}
use traefik_release.Provider.Docker.{Docker, DockerData}
use traefik_release.Provider.Docker.Loading.{DockerObjects, load_docker_config}

-- The configurations that are sent, nil ones too, and whether the operation ends in an error.
pub record DockerRun : Type 0 where
  pub sent : List (Option Configuration)
  pub failed : Bool

module _ (glob : Text → Text → Bool) (p : Docker) (e : Engine DockerObjects) (filename : Text) where
  unfoldable pub send_if_any :
      Option Configuration → List (Option Configuration) → List (Option Configuration)
  send_if_any none later = later
  send_if_any (some c) later = some c ∷ later

  -- Each tick or event until the listing fails, which ends the watching.
  unfoldable pub watch_rounds : List (Option (List DockerData)) → List (Option Configuration)
  watch_rounds [] = []
  watch_rounds (none ∷ rounds) = []
  watch_rounds (some listed ∷ rounds) =
      send_if_any (load_docker_config glob p e filename listed) (watch_rounds rounds)

  -- `monitor_failed`: MonitorWithHandler ends in an error; a swarm has no monitor.
  unfoldable pub provide_once :
      Bool → Option (List DockerData) → List (Option (List DockerData)) → Bool → DockerRun
  provide_once connected none rounds monitor_failed = record { sent = []; failed = true }
  provide_once connected (some listed) rounds monitor_failed =
      if not connected then record { sent = []; failed = true } else record {
        sent =
            load_docker_config glob p e filename listed
            ∷ (if p.watch then watch_rounds rounds else []);
        failed = p.watch && not p.swarm_mode && monitor_failed;
      }
