-- ===== src/Provider/Docker/Services.antt =====
-- provider/docker/docker.go: labels of the services within one container.
use traefik_release.Base.{
  Bool, false, not, ◌&&◌, ◌||◌, Option, none, some, List, [], ◌∷◌, ◌++◌, ◌==◌, if◌then◌else◌, all,
  Text, txt, eqt, is_empty, strip, Dict, lookup, insert, keys, split,
}
use traefik_release.Provider.Labels.{normalize, or_else}
use traefik_release.Provider.Docker.{Docker, DockerData}
use traefik_release.Provider.Docker.Labels.{
  get_frontend_rule, get_backend, get_weight, get_protocol, get_pass_host_header, get_priority,
  get_entry_points, get_basic_auth,
}

-- No byte of a text ends its line.
unfoldable pub is_one_line : Text → Bool
is_one_line s = all (λ c. not (c == 10)) s

-- What the expression takes for the name of a property: port|weight|protocol|frontend\.(.*)
unfoldable pub is_property : Text → Bool
is_property s =
    eqt s (txt "port")
    || eqt s (txt "weight")
    || eqt s (txt "protocol")
    || elim (strip (txt "frontend.") s) [ some rest ↦ is_one_line rest | none ↦ false ]

-- The shortest name (.*?) such that a property stands behind the dot after it.
unfoldable pub match_service : Text → Text → Option (Text × Text)
match_service name [] = none
match_service name (c ∷ s) =
    let longer = match_service (name ++ c ∷ []) s in
    if c == b'.' && is_property s then some (name, s) else if c == 10 then none else longer

-- servicesPropertiesRegexp: the names of the service and of its property.
unfoldable pub service_property : Text → Option (Text × Text)
service_property index = elim (strip (txt "traefik.") index) [
  | none ↦ none
  | some rest ↦ match_service [] rest
]

-- extractServicesLabels
unfoldable pub properties_of : Text → Dict (Dict Text) → Dict Text
properties_of service v = elim (lookup service v) [ some properties ↦ properties | none ↦ [] ]

unfoldable pub put_property : Option (Text × Text) → Text → Dict (Dict Text) → Dict (Dict Text)
put_property none value v = v
put_property (some (service, property)) value v =
    insert service (insert property value (properties_of service v)) v

unfoldable pub extract_from : Dict (Dict Text) → Dict Text → Dict (Dict Text)
extract_from v [] = v
extract_from v ((index, value) ∷ labels) =
    extract_from (put_property (service_property index) value v) labels

unfoldable pub extract_services_labels : Dict Text → Dict (Dict Text)
extract_services_labels labels = extract_from [] labels

-- getContainerServiceLabel
unfoldable pub get_container_service_label : DockerData → Text → Text → Option Text
get_container_service_label c service entry =
    lookup entry (properties_of service (extract_services_labels c.labels))

unfoldable pub has_services : DockerData → Bool
has_services c = not (is_empty (extract_services_labels c.labels))

unfoldable pub get_service_names : DockerData → List Text
get_service_names c = keys (extract_services_labels c.labels)

-- The label of the service, or what holds for the container.
unfoldable pub get_service_entry_points : DockerData → Text → List Text
get_service_entry_points c service =
    elim (get_container_service_label c service (txt "frontend.entryPoints")) [
      | some v ↦ split b',' v
      | none ↦ get_entry_points c
    ]

unfoldable pub get_service_basic_auth : DockerData → Text → List Text
get_service_basic_auth c service =
    elim (get_container_service_label c service (txt "frontend.auth.basic")) [
      | some v ↦ split b',' v
      | none ↦ get_basic_auth c
    ]

unfoldable pub get_service_pass_host_header : DockerData → Text → Text
get_service_pass_host_header c service =
    or_else (get_container_service_label c service (txt "frontend.passHostHeader"))
      (get_pass_host_header c)

unfoldable pub get_service_priority : DockerData → Text → Text
get_service_priority c service =
    or_else (get_container_service_label c service (txt "frontend.priority")) (get_priority c)

unfoldable pub get_service_backend : DockerData → Text → Text
get_service_backend c service =
    or_else (get_container_service_label c service (txt "frontend.backend"))
      (get_backend c ++ (b'-' ∷ normalize service))

unfoldable pub get_service_frontend_rule : Docker → DockerData → Text → Text
get_service_frontend_rule p c service =
    or_else (get_container_service_label c service (txt "frontend.rule")) (get_frontend_rule p c)

-- `get_port` is the provider's function of that name.
unfoldable pub get_service_port : (DockerData → Text) → DockerData → Text → Text
get_service_port get_port c service =
    or_else (get_container_service_label c service (txt "port")) (get_port c)

unfoldable pub get_service_weight : DockerData → Text → Text
get_service_weight c service =
    or_else (get_container_service_label c service (txt "weight")) (get_weight c)

unfoldable pub get_service_protocol : DockerData → Text → Text
get_service_protocol c service =
    or_else (get_container_service_label c service (txt "protocol")) (get_protocol c)
