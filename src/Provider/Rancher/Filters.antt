-- ===== src/Provider/Rancher/Filters.antt =====
-- provider/rancher/rancher.go: which containers and services are configured.
use traefik_release.Base.{
  Bool, true, false, not, ◌&&◌, ◌||◌, List, [], ◌∷◌, if◌then◌else◌, any, Text, txt, eqt, is_empty,
  Dict, split,
}
use traefik_release.Provider.Labels.{value_at, is_enabled}
use traefik_release.Provider.Constraints.{match_constraints}
use traefik_release.Provider.Rancher.{Rancher, RancherData}

-- What the provider reads of a container.
pub record Container : Type 0 where
  pub labels : Dict Text
  pub health_state : Text
  pub state : Text
  pub primary_ip_address : Text

-- The empty text or one of these.
unfoldable pub is_empty_or_one_of : List Text → Text → Bool
is_empty_or_one_of words s = is_empty s || any (eqt s) words

-- containerFilter
unfoldable pub container_filter : Container → Bool
container_filter c =
    if not (is_empty_or_one_of (txt "healthy" ∷ txt "updating-healthy" ∷ []) c.health_state)
    then false
    else is_empty_or_one_of (txt "running" ∷ txt "updating-running" ∷ []) c.state

-- isServiceEnabled
unfoldable pub is_service_enabled : RancherData → Bool → Bool
is_service_enabled s exposed_by_default =
    let v = value_at (txt "traefik.enable") s.labels in
    if is_empty v then exposed_by_default else is_enabled exposed_by_default v

abbrev pub service_health : List Text
service_health = txt "healthy" ∷ txt "updating-healthy" ∷ []

abbrev pub service_states : List Text
service_states = txt "active" ∷ txt "updating-active" ∷ txt "upgraded" ∷ []

-- `glob` is the pattern matcher of package go-glob.
unfoldable pub is_well : Rancher → RancherData → Bool
is_well p s =
    if p.enable_service_health_filter
    then is_empty_or_one_of service_health s.health && is_empty_or_one_of service_states s.state
    else true

unfoldable pub service_filter : (Text → Text → Bool) → Rancher → RancherData → Bool
service_filter glob p s =
    if is_empty (value_at (txt "traefik.port") s.labels)
    then false
    else if not (is_service_enabled s p.exposed_by_default)
    then false
    else if not
        (match_constraints glob p.constraints
          (split b',' (value_at (txt "traefik.tags") s.labels))).0
    then false
    else is_well p s
