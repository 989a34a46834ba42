-- ===== src/Provider/Rancher/Labels.antt =====
-- provider/rancher/rancher.go: what the labels of a service say of its frontend and its backend.
use traefik_release.Base.{
  Bool, ◌&&◌, ◌||◌, Option, none, some, List, [], ◌∷◌, ◌++◌, if◌then◌else◌, Text, txt, to_lower,
  lookup,
}
use traefik_release.Provider.Labels.{normalize, or_else, parts_of, is_some, replace_byte}
use traefik_release.Provider.Numbers.{ℤ, pos, parse_int, max_int64}
use traefik_release.Provider.Rancher.{Rancher, RancherData}

-- getServiceLabel; no result is an error.
unfoldable pub get_service_label : RancherData → Text → Option Text
get_service_label s label = lookup label s.labels

unfoldable pub get_pass_host_header : RancherData → Text
get_pass_host_header s =
    or_else (get_service_label s (txt "traefik.frontend.passHostHeader")) (txt "true")

unfoldable pub get_priority : RancherData → Text
get_priority s = or_else (get_service_label s (txt "traefik.frontend.priority")) (txt "0")

unfoldable pub get_entry_points : RancherData → List Text
get_entry_points s = parts_of (get_service_label s (txt "traefik.frontend.entryPoints"))

unfoldable pub get_frontend_rule : Rancher → RancherData → Text
get_frontend_rule p s =
    or_else (get_service_label s (txt "traefik.frontend.rule"))
      (txt "Host:" ++ (to_lower (replace_byte b'/' b'.' s.name) ++ (b'.' ∷ p.domain)))

unfoldable pub get_basic_auth : RancherData → List Text
get_basic_auth s = parts_of (get_service_label s (txt "traefik.frontend.auth.basic"))

unfoldable pub get_frontend_name : Rancher → RancherData → Text
get_frontend_name p s = normalize (get_frontend_rule p s)

unfoldable pub get_load_balancer_method : RancherData → Text
get_load_balancer_method s =
    or_else (get_service_label s (txt "traefik.backend.loadbalancer.method")) (txt "wrr")

unfoldable pub has_load_balancer_label : RancherData → Bool
has_load_balancer_label s =
    is_some (get_service_label s (txt "traefik.backend.loadbalancer.method"))
    || is_some (get_service_label s (txt "traefik.backend.loadbalancer.sticky"))

unfoldable pub has_circuit_breaker_label : RancherData → Bool
has_circuit_breaker_label s =
    is_some (get_service_label s (txt "traefik.backend.circuitbreaker.expression"))

unfoldable pub get_circuit_breaker_expression : RancherData → Text
get_circuit_breaker_expression s =
    or_else (get_service_label s (txt "traefik.backend.circuitbreaker.expression"))
      (txt "NetworkErrorRatio() > 1")

-- getSticky: the label's value has no part in it.
unfoldable pub get_sticky : RancherData → Text
get_sticky s =
    if is_some (get_service_label s (txt "traefik.backend.loadbalancer.sticky"))
    then txt "true"
    else txt "false"

unfoldable pub get_backend : RancherData → Text
get_backend s = normalize (or_else (get_service_label s (txt "traefik.backend")) s.name)

unfoldable pub get_port : RancherData → Text
get_port s = or_else (get_service_label s (txt "traefik.port")) []

unfoldable pub get_protocol : RancherData → Text
get_protocol s = or_else (get_service_label s (txt "traefik.protocol")) (txt "http")

unfoldable pub get_weight : RancherData → Text
get_weight s = or_else (get_service_label s (txt "traefik.weight")) (txt "0")

unfoldable pub get_domain : Rancher → RancherData → Text
get_domain p s = or_else (get_service_label s (txt "traefik.domain")) p.domain

unfoldable pub has_max_conn_labels : RancherData → Bool
has_max_conn_labels s =
    is_some (get_service_label s (txt "traefik.backend.maxconn.amount"))
    && is_some (get_service_label s (txt "traefik.backend.maxconn.extractorfunc"))

unfoldable pub get_max_conn_amount : RancherData → ℤ
get_max_conn_amount s = elim (get_service_label s (txt "traefik.backend.maxconn.amount")) [
  | none ↦ pos max_int64
  | some label ↦ elim (parse_int label) [ none ↦ pos max_int64 | some i ↦ i ]
]

unfoldable pub get_max_conn_extractor_func : RancherData → Text
get_max_conn_extractor_func s =
    or_else (get_service_label s (txt "traefik.backend.maxconn.extractorfunc")) (txt "request.host")
