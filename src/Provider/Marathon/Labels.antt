-- ===== src/Provider/Marathon/Labels.antt =====
-- provider/marathon/marathon.go: what the labels of an application say.
use traefik_release.Base.{
  true, false, Bool, not, ◌&&◌, ◌||◌, Option, none, some, List, [], ◌∷◌, ◌++◌, if◌then◌else◌, Text,
  txt, is_empty, trim_prefix, join, split,
}
use traefik_release.Provider.Labels.{dashed, replace, is_enabled, value_at}
use traefik_release.Provider.Picking.{Picked, picked, refused, panicked, then_picked}
use traefik_release.Provider.Numbers.{ℤ, pos, parse_int, max_int64}
use traefik_release.Provider.Slices.{reverse_slice}
use traefik_release.Provider.Marathon.{Marathon, Application, Task, get_label, get_application}

-- isApplicationEnabled
unfoldable pub is_application_enabled : Application → Bool → Picked Bool
is_application_enabled a exposed_by_default = elim a.labels [
  | none ↦ panicked
  | some labels ↦ picked (is_enabled exposed_by_default (value_at (txt "traefik.enable") labels))
]

-- The label, or what stands for it where it is missing.
unfoldable pub or_default : Text → Picked Text → Picked Text
or_default other (picked v) = picked v
or_default other refused = picked other
or_default other panicked = panicked

-- Whether the label is there.
unfoldable pub is_there : Picked Text → Picked Bool
is_there (picked v) = picked true
is_there refused = picked false
is_there panicked = panicked

unfoldable pub parts_or_none : Picked Text → Picked (List Text)
parts_or_none (picked v) = picked (split b',' v)
parts_or_none refused = picked []
parts_or_none panicked = panicked

-- The label of the task's application, or what stands for it where there is none of either.
unfoldable pub task_label : Text → Text → Option Application → Picked Text
task_label label other none = picked other
task_label label other (some a) = or_default other (get_label a label)

unfoldable pub get_weight : Task → List Application → Picked Text
get_weight t apps = task_label (txt "traefik.weight") (txt "0") (get_application t apps)

unfoldable pub get_domain : Marathon → Application → Picked Text
get_domain p a = or_default p.domain (get_label a (txt "traefik.domain"))

unfoldable pub get_protocol : Task → List Application → Picked Text
get_protocol t apps = task_label (txt "traefik.protocol") (txt "http") (get_application t apps)

unfoldable pub get_sticky : Application → Picked Text
get_sticky a = or_default (txt "false") (get_label a (txt "traefik.backend.loadbalancer.sticky"))

unfoldable pub get_pass_host_header : Application → Picked Text
get_pass_host_header a =
    or_default (txt "true") (get_label a (txt "traefik.frontend.passHostHeader"))

unfoldable pub get_priority : Application → Picked Text
get_priority a = or_default (txt "0") (get_label a (txt "traefik.frontend.priority"))

unfoldable pub get_entry_points : Application → Picked (List Text)
get_entry_points a = parts_or_none (get_label a (txt "traefik.frontend.entryPoints"))

-- getSubDomain; no result is a panic.
unfoldable pub get_sub_domain : Marathon → Text → Option Text
get_sub_domain p name =
    let path = trim_prefix name (txt "/") in
    if p.groups_as_sub_domains
    then (elim (reverse_slice (split b'/' path)) [
      | none ↦ none
      | some parts ↦ some (join (txt ".") parts)
    ])
    else some (dashed b'/' path)

unfoldable pub host_rule : Marathon → Option Text → Option Text
host_rule p none = none
host_rule p (some domain) = some (txt "Host:" ++ (domain ++ (b'.' ∷ p.domain)))

-- The label HAPROXY_0_VHOST, where the provider heeds it.
unfoldable pub virtual_host : Marathon → Application → Picked Text
virtual_host p a =
    if p.marathon_lb_compatibility then get_label a (txt "HAPROXY_0_VHOST") else refused

unfoldable pub or_panic : Option Text → Picked Text
or_panic none = panicked
or_panic (some s) = picked s

-- getFrontendRule
unfoldable pub get_frontend_rule : Marathon → Application → Picked Text
get_frontend_rule p a = elim (get_label a (txt "traefik.frontend.rule")) [
  | picked label ↦ picked label
  | panicked ↦ panicked
  | refused ↦ elim (virtual_host p a) [
    | picked label ↦ picked (txt "Host:" ++ label)
    | panicked ↦ panicked
    | refused ↦ or_panic (host_rule p (get_sub_domain p a.id))
  ]
]

unfoldable pub get_frontend_backend : Application → Picked Text
get_frontend_backend a =
    or_default (replace (txt "/") (txt "-") a.id) (get_label a (txt "traefik.backend"))

unfoldable pub get_backend : Task → List Application → Picked Text
get_backend t apps = elim (get_application t apps) [
  | none ↦ picked []
  | some a ↦ get_frontend_backend a
]

unfoldable pub has_circuit_breaker_labels : Application → Picked Bool
has_circuit_breaker_labels a =
    is_there (get_label a (txt "traefik.backend.circuitbreaker.expression"))

unfoldable pub has_load_balancer_labels : Application → Picked Bool
has_load_balancer_labels a =
    then_picked (is_there (get_label a (txt "traefik.backend.loadbalancer.method"))) λ method.
      then_picked (is_there (get_label a (txt "traefik.backend.loadbalancer.sticky")))
        λ sticky. picked (method || sticky)

unfoldable pub has_max_conn_labels : Application → Picked Bool
has_max_conn_labels a =
    then_picked (is_there (get_label a (txt "traefik.backend.maxconn.amount"))) λ amount.
      then_picked (is_there (get_label a (txt "traefik.backend.maxconn.extractorfunc")))
        λ func. picked (amount && func)

unfoldable pub amount_of : Picked Text → Picked ℤ
amount_of (picked label) = elim (parse_int label) [
  | none ↦ picked (pos max_int64)
  | some i ↦ picked i
]
amount_of refused = picked (pos max_int64)
amount_of panicked = panicked

unfoldable pub get_max_conn_amount : Application → Picked ℤ
get_max_conn_amount a = amount_of (get_label a (txt "traefik.backend.maxconn.amount"))

unfoldable pub get_max_conn_extractor_func : Application → Picked Text
get_max_conn_extractor_func a =
    or_default (txt "request.host") (get_label a (txt "traefik.backend.maxconn.extractorfunc"))

unfoldable pub get_load_balancer_method : Application → Picked Text
get_load_balancer_method a =
    or_default (txt "wrr") (get_label a (txt "traefik.backend.loadbalancer.method"))

unfoldable pub get_circuit_breaker_expression : Application → Picked Text
get_circuit_breaker_expression a =
    or_default (txt "NetworkErrorRatio() > 1")
      (get_label a (txt "traefik.backend.circuitbreaker.expression"))

unfoldable pub get_health_check_path : Application → Picked Text
get_health_check_path a = or_default [] (get_label a (txt "traefik.backend.healthcheck.path"))

unfoldable pub has_health_check_labels : Application → Picked Bool
has_health_check_labels a =
    then_picked (get_health_check_path a) (λ path. picked (not (is_empty path)))

unfoldable pub get_health_check_interval : Application → Picked Text
get_health_check_interval a =
    or_default [] (get_label a (txt "traefik.backend.healthcheck.interval"))
