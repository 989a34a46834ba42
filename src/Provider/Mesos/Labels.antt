-- ===== src/Provider/Mesos/Labels.antt =====
-- provider/mesos/mesos.go: what the labels of a task say, and names.
use traefik_release.Base.{
  Bool, Option, none, some, List, [], ◌∷◌, ◌++◌, if◌then◌else◌, Text, txt, to_lower, trim_prefix,
  join, split,
}
use traefik_release.Provider.Labels.{or_else, parts_of, dashed, is_enabled}
use traefik_release.Provider.Slices.{reverse_slice}
use traefik_release.Provider.Mesos.{Mesos, Task, labels_of, get_label, get_mesos}

-- isMesosApplicationEnabled
unfoldable pub is_mesos_application_enabled : Task → Bool → Bool
is_mesos_application_enabled t exposed_by_default =
    is_enabled exposed_by_default (labels_of t (txt "traefik.enable"))

-- The label of the task's application, or what stands for it where there is none of either.
unfoldable pub application_label : Text → Text → Option Task → Text
application_label label other none = other
application_label label other (some a) = or_else (get_label a label) other

unfoldable pub get_weight : Task → List Task → Text
get_weight t apps = application_label (txt "traefik.weight") (txt "0") (get_mesos t apps)

unfoldable pub get_domain : Mesos → Task → Text
get_domain p t = or_else (get_label t (txt "traefik.domain")) p.domain

unfoldable pub get_protocol : Task → List Task → Text
get_protocol t apps = application_label (txt "traefik.protocol") (txt "http") (get_mesos t apps)

unfoldable pub get_pass_host_header : Task → Text
get_pass_host_header t = or_else (get_label t (txt "traefik.frontend.passHostHeader")) (txt "false")

unfoldable pub get_priority : Task → Text
get_priority t = or_else (get_label t (txt "traefik.frontend.priority")) (txt "0")

unfoldable pub get_entry_points : Task → List Text
get_entry_points t = parts_of (get_label t (txt "traefik.frontend.entryPoints"))

-- cleanupSpecialChars
unfoldable pub cleanup_special_chars : Text → Text
cleanup_special_chars s = dashed b'_' (dashed b':' (dashed b'.' s))

-- getSubDomain; no result is a panic.
unfoldable pub get_sub_domain : Mesos → Text → Option Text
get_sub_domain p name =
    let path = trim_prefix name (txt "/") in
    if p.groups_as_sub_domains
    then (elim (reverse_slice (split b'/' path)) [
      | none ↦ none
      | some parts ↦ some (join (txt ".") parts)
    ])
    else some (dashed b'/' path)

unfoldable pub host_rule : Mesos → Option Text → Option Text
host_rule p none = none
host_rule p (some sub_domain) =
    some (txt "Host:" ++ (to_lower (dashed b'_' sub_domain) ++ (b'.' ∷ p.domain)))

-- getFrontendRule
unfoldable pub get_frontend_rule : Mesos → Task → Option Text
get_frontend_rule p t = elim (get_label t (txt "traefik.frontend.rule")) [
  | some label ↦ some label
  | none ↦ host_rule p (get_sub_domain p t.discovery_name)
]

unfoldable pub get_frontend_backend : Task → Text
get_frontend_backend t =
    or_else (get_label t (txt "traefik.backend")) (b'-' ∷ cleanup_special_chars t.discovery_name)

unfoldable pub get_backend : Task → List Task → Text
get_backend t apps = elim (get_mesos t apps) [ none ↦ [] | some a ↦ get_frontend_backend a ]

-- getHost; `ip` is the library's method IP of a task.
unfoldable pub get_host : (Task → List Text → Text) → Mesos → Task → Text
get_host ip p t = ip t (split b',' p.ip_sources)

unfoldable pub get_id : Task → Text
get_id t = cleanup_special_chars t.id

unfoldable pub get_front_end_name : Task → Text
get_front_end_name t = dashed b'/' (cleanup_special_chars t.id)
