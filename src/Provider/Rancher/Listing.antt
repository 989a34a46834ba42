-- ===== src/Provider/Rancher/Listing.antt =====
-- provider/rancher/rancher.go: what is made of the lists of environments, services and containers.
use traefik_release.Base.{
  Bool, ◌&&◌, Option, none, some, List, [], ◌∷◌, ◌++◌, if◌then◌else◌, keep, Text, txt, eqt, Dict,
}
use traefik_release.Server.Config.{Configuration}
use traefik_release.Provider.Labels.{value_at}
use traefik_release.Provider.Grouping.{store_from}
use traefik_release.Provider.Rendering.{Engine, get_configuration}
use traefik_release.Provider.Rancher.{Rancher, RancherData}
use traefik_release.Provider.Rancher.Labels.{get_frontend_name, get_backend}
use traefik_release.Provider.Rancher.Filters.{Container, container_filter, service_filter}

pub record Environment : Type 0 where
  pub id : Text
  pub name : Text

-- A service; labels that are missing, or of a launch configuration that is, are no labels.
pub record RancherService : Type 0 where
  pub environment_id : Text
  pub name : Text
  pub health_state : Text
  pub state : Text
  pub labels : Dict Text

-- A page of containers, and the pages that Next gives: an error ends them.
unfoldable pub list_pages : List Container → List (Option (List Container)) → List Container
list_pages page [] = page
list_pages page (none ∷ pages) = page
list_pages page (some [] ∷ pages) = page
list_pages page (some (c ∷ more) ∷ pages) = page ++ list_pages (c ∷ more) pages

-- The addresses of the containers that belong to a service and may be used.
unfoldable pub addresses_of : Text → List Container → List Text
addresses_of name [] = []
addresses_of name (c ∷ containers) =
    let rest = addresses_of name containers in
    if eqt (value_at (txt "io.rancher.stack_service.name") c.labels) name && container_filter c
    then c.primary_ip_address ∷ rest
    else rest

abbrev pub full_name : Environment → RancherService → Text
full_name env s = env.name ++ (b'/' ∷ s.name)

unfoldable pub data_of : List Container → Environment → RancherService → RancherData
data_of containers env s = record {
  name = full_name env s;
  labels = s.labels;
  containers = addresses_of (full_name env s) containers;
  health = s.health_state;
  state = s.state;
}

unfoldable pub services_of : List Container → Environment → List RancherService → List RancherData
services_of containers env [] = []
services_of containers env (s ∷ services) =
    let rest = services_of containers env services in
    if eqt s.environment_id env.id then data_of containers env s ∷ rest else rest

-- parseRancherData
unfoldable pub parse_rancher_data :
    List Environment → List RancherService → List Container → List RancherData
parse_rancher_data [] services containers = []
parse_rancher_data (env ∷ environments) services containers =
    services_of containers env services ++ parse_rancher_data environments services containers

-- templateObjects
pub record RancherObjects : Type 0 where
  pub frontends : Dict RancherData
  pub backends : Dict RancherData
  pub domain : Text

module _ (glob : Text → Text → Bool) (p : Rancher) where
  unfoldable pub rancher_objects : List RancherData → RancherObjects
  rancher_objects services =
      let filtered = keep (service_filter glob p) services in
      record {
        frontends = store_from (get_frontend_name p) [] filtered;
        backends = store_from get_backend [] filtered;
        domain = p.domain;
      }

  -- loadRancherConfig
  unfoldable pub load_rancher_config :
      Engine RancherObjects → Text → List RancherData → Option Configuration
  load_rancher_config e filename services =
      get_configuration e filename (txt "templates/rancher.tmpl") (rancher_objects services)

  -- Each tick of watching reads everything again; a configuration that is nil is not sent.
  unfoldable pub refresh :
      Engine RancherObjects → Text → List (List RancherData) → List (Option Configuration)
  refresh e filename [] = []
  refresh e filename (services ∷ ticks) =
      let later = refresh e filename ticks in
      (elim (load_rancher_config e filename services) [ none ↦ later | some c ↦ some c ∷ later ])

  -- What one run of Provide's operation sends; no result where there is no client.
  unfoldable pub provide_once :
      Engine RancherObjects
      → Text
      → Bool
      → List RancherData
      → List (List RancherData)
      → Option (List (Option Configuration))
  provide_once e filename connected services ticks =
      if connected
      then some (
          load_rancher_config e filename services
          ∷ (if p.watch then refresh e filename ticks else []))
      else none
