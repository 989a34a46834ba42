-- ===== src/Provider/Docker/Labels.antt =====
-- provider/docker/docker.go: what the labels of a container say of its frontend and its backend.
use traefik_release.Base.{
  Bool, true, false, ◌&&◌, ◌||◌, Option, none, some, List, [], ◌∷◌, ◌++◌, if◌then◌else◌, Text, txt,
  is_empty, trim_prefix, Dict, lookup, insert,
}
use traefik_release.Provider.Labels.{
  normalize, or_else, parts_of, is_some, value_at, dashed, is_enabled,
}
use traefik_release.Provider.Numbers.{ℤ, pos, parse_int, max_int64}
use traefik_release.Provider.Docker.{Docker, DockerData}

-- getLabel; no result is an error.
unfoldable pub get_label : DockerData → Text → Option Text
get_label c label = lookup label c.labels

-- getLabels: the labels that are there, and whether one is missing.
unfoldable pub get_labels_from : DockerData → Dict Text × Bool → List Text → Dict Text × Bool
get_labels_from c found [] = found
get_labels_from c (found, missing) (label ∷ labels) = elim (get_label c label) [
  | none ↦ get_labels_from c (found, true) labels
  | some v ↦ get_labels_from c (insert label v found, missing) labels
]

unfoldable pub get_labels : DockerData → List Text → Dict Text × Bool
get_labels c labels = get_labels_from c ([], false) labels

abbrev pub compose_project : Text
compose_project = txt "com.docker.compose.project"

abbrev pub compose_service : Text
compose_service = txt "com.docker.compose.service"

-- The two labels of docker-compose, where both are there.
unfoldable pub compose_labels : Dict Text × Bool → Option (Text × Text)
compose_labels (found, true) = none
compose_labels (found, false) =
    some (value_at compose_service found, value_at compose_project found)

-- getSubDomain
unfoldable pub get_sub_domain : Text → Text
get_sub_domain name = dashed b'_' (dashed b'/' (trim_prefix name (txt "/")))

-- getFrontendRule
unfoldable pub default_rule : Docker → DockerData → Option (Text × Text) → Text
default_rule p c (some (service, project)) =
    txt "Host:" ++ (get_sub_domain (service ++ (b'.' ∷ project)) ++ (b'.' ∷ p.domain))
default_rule p c none =
    if is_empty p.domain
    then []
    else txt "Host:" ++ (get_sub_domain c.service_name ++ (b'.' ∷ p.domain))

unfoldable pub get_frontend_rule : Docker → DockerData → Text
get_frontend_rule p c = elim (get_label c (txt "traefik.frontend.rule")) [
  | some label ↦ label
  | none ↦ default_rule p c (compose_labels (get_labels c (compose_project ∷ compose_service ∷ [])))
]

-- getFrontendName
unfoldable pub get_frontend_name : Docker → DockerData → Text
get_frontend_name p c = normalize (get_frontend_rule p c)

-- getBackend
unfoldable pub default_backend : DockerData → Option (Text × Text) → Text
default_backend c (some (service, project)) = normalize (service ++ (b'_' ∷ project))
default_backend c none = normalize c.service_name

unfoldable pub get_backend : DockerData → Text
get_backend c = elim (get_label c (txt "traefik.backend")) [
  | some label ↦ normalize label
  | none ↦
      default_backend c (compose_labels (get_labels c (compose_project ∷ compose_service ∷ [])))
]

unfoldable pub has_circuit_breaker_label : DockerData → Bool
has_circuit_breaker_label c =
    is_some (get_label c (txt "traefik.backend.circuitbreaker.expression"))

unfoldable pub has_load_balancer_label : DockerData → Bool
has_load_balancer_label c =
    is_some (get_label c (txt "traefik.backend.loadbalancer.method"))
    || is_some (get_label c (txt "traefik.backend.loadbalancer.sticky"))

unfoldable pub has_max_conn_labels : DockerData → Bool
has_max_conn_labels c =
    is_some (get_label c (txt "traefik.backend.maxconn.amount"))
    && is_some (get_label c (txt "traefik.backend.maxconn.extractorfunc"))

unfoldable pub get_circuit_breaker_expression : DockerData → Text
get_circuit_breaker_expression c =
    or_else (get_label c (txt "traefik.backend.circuitbreaker.expression"))
      (txt "NetworkErrorRatio() > 1")

unfoldable pub get_load_balancer_method : DockerData → Text
get_load_balancer_method c =
    or_else (get_label c (txt "traefik.backend.loadbalancer.method")) (txt "wrr")

-- getMaxConnAmount: the largest int64 where there is no number.
unfoldable pub get_max_conn_amount : DockerData → ℤ
get_max_conn_amount c = elim (get_label c (txt "traefik.backend.maxconn.amount")) [
  | none ↦ pos max_int64
  | some label ↦ elim (parse_int label) [ none ↦ pos max_int64 | some i ↦ i ]
]

unfoldable pub get_max_conn_extractor_func : DockerData → Text
get_max_conn_extractor_func c =
    or_else (get_label c (txt "traefik.backend.maxconn.extractorfunc")) (txt "request.host")

unfoldable pub get_weight : DockerData → Text
get_weight c = or_else (get_label c (txt "traefik.weight")) (txt "0")

unfoldable pub get_sticky : DockerData → Text
get_sticky c = or_else (get_label c (txt "traefik.backend.loadbalancer.sticky")) (txt "false")

unfoldable pub get_is_backend_lb_swarm : DockerData → Text
get_is_backend_lb_swarm c =
    or_else (get_label c (txt "traefik.backend.loadbalancer.swarm")) (txt "false")

unfoldable pub get_domain : Docker → DockerData → Text
get_domain p c = or_else (get_label c (txt "traefik.domain")) p.domain

unfoldable pub get_protocol : DockerData → Text
get_protocol c = or_else (get_label c (txt "traefik.protocol")) (txt "http")

unfoldable pub get_pass_host_header : DockerData → Text
get_pass_host_header c = or_else (get_label c (txt "traefik.frontend.passHostHeader")) (txt "true")

unfoldable pub get_priority : DockerData → Text
get_priority c = or_else (get_label c (txt "traefik.frontend.priority")) (txt "0")

unfoldable pub get_entry_points : DockerData → List Text
get_entry_points c = parts_of (get_label c (txt "traefik.frontend.entryPoints"))

unfoldable pub get_basic_auth : DockerData → List Text
get_basic_auth c = parts_of (get_label c (txt "traefik.frontend.auth.basic"))

-- isContainerEnabled
unfoldable pub is_container_enabled : DockerData → Bool → Bool
is_container_enabled c exposed_by_default =
    is_enabled exposed_by_default (value_at (txt "traefik.enable") c.labels)
