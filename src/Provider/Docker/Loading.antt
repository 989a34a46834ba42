-- ===== src/Provider/Docker/Loading.antt =====
-- provider/docker/docker.go: loadDockerConfig.
use traefik_release.Base.{Bool, Option, List, [], keep, Text, txt, Dict}
use traefik_release.Server.Config.{Configuration}
use traefik_release.Provider.Grouping.{group_from, store_from}
use traefik_release.Provider.Rendering.{Engine, get_configuration}
use traefik_release.Provider.Docker.{Docker, DockerData}
use traefik_release.Provider.Docker.Labels.{get_frontend_name, get_backend}
use traefik_release.Provider.Docker.Filters.{container_filter}

-- templateObjects
pub record DockerObjects : Type 0 where
  pub containers : List DockerData
  pub frontends : Dict (List DockerData)
  pub backends : Dict DockerData
  pub servers : Dict (List DockerData)
  pub domain : Text

module _ (glob : Text → Text → Bool) (p : Docker) where
  unfoldable pub docker_objects : List DockerData → DockerObjects
  docker_objects inspected =
      let filtered = keep (container_filter glob p) inspected in
      record {
        containers = filtered;
        frontends = group_from (get_frontend_name p) [] filtered;
        backends = store_from get_backend [] filtered;
        servers = group_from get_backend [] filtered;
        domain = p.domain;
      }

  -- loadDockerConfig; no result is nil.
  unfoldable pub load_docker_config :
      Engine DockerObjects → Text → List DockerData → Option Configuration
  load_docker_config e filename inspected =
      get_configuration e filename (txt "templates/docker.tmpl") (docker_objects inspected)
