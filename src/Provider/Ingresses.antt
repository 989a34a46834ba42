-- ===== src/Provider/Ingresses.antt =====
-- provider/kubernetes/kubernetes.go, loadIngresses: its loops over ingresses, rules and paths.
use traefik_release.Base.{
  Bool, true, false, not, ◌&&◌, Option, none, some, List, [], ◌∷◌, ◌++◌, if◌then◌else◌, length,
  Text, txt, eqt, is_empty, cut, Dict, lookup, insert,
}
use traefik_release.Server.Config.{Frontend}
use traefik_release.Provider.Cluster.{
  IngressPath, IngressRule, Ingress, Client, annotation, should_process_ingress,
  handle_basic_auth_config,
}
use traefik_release.Provider.Services.{Templates, no_templates, backend_at, use_service}

-- PassHostHeader of the provider, unless the annotation says "true" or "false".
unfoldable pub pass_host_header : Bool → Option Text → Bool
pass_host_header disabled none = not disabled
pass_host_header disabled (some v) =
    if eqt v (txt "false") then false else if eqt v (txt "true") then true else not disabled

-- A realm that is neither empty nor Traefik's is refused.
unfoldable pub custom_realm : Ingress → Bool
custom_realm i =
    let realm = annotation (txt "ingress.kubernetes.io/auth-realm") i.annotations in
    not (is_empty realm) && not (eqt realm (txt "traefik"))

-- strings.Replace(host, "*", "{subdomain:[A-Za-z0-9-_]+}", 1)
unfoldable pub host_rule : Text → Text
host_rule host = elim (cut (b'*' ∷ []) host) [
  | none ↦ txt "Host:" ++ host
  | some (a, b) ↦ txt "HostRegexp:" ++ (a ++ (txt "{subdomain:[A-Za-z0-9-_]+}" ++ b))
]

unfoldable pub path_rule : Ingress → Text → Text
path_rule i path =
    let kind = annotation (txt "traefik.frontend.rule.type") i.annotations in
    (if is_empty kind then txt "PathPrefix" else kind) ++ (b':' ∷ path)

-- The route of the host, if there is a host and no such route; then that of the path, if there is
-- one.
unfoldable pub with_host : Text → Dict Text → Dict Text
with_host host routes =
    if is_empty host
    then routes
    else elim (lookup host routes) [ some _ ↦ routes | none ↦ insert host (host_rule host) routes ]

unfoldable pub with_path : Ingress → Text → Dict Text → Dict Text
with_path i path routes = if is_empty path then routes else insert path (path_rule i path) routes

module _ (k : Client) (disabled : Bool) where
  -- The frontend of a path that is not there yet, with its users.
  unfoldable pub new_frontend : Ingress → Text → Text → List Text → Frontend
  new_frontend i key path users = record {
    entry_points = [];
    backend = key;
    routes = [];
    pass_host_header =
        pass_host_header disabled (lookup (txt "traefik.frontend.passHostHeader") i.annotations);
    priority = length path;
    basic_auth = users;
  }

  -- What follows when the path's frontend is `f`.
  unfoldable pub with_frontend :
      Ingress → Text → IngressPath → Frontend → Templates → Option Templates
  with_frontend i host p f t =
      let key = host ++ p.path in
      let f' = record f { routes = with_path i p.path (with_host host f.routes) } in
      use_service k key p (k.get_service i.namespace p.service_name)
        (record t { frontends = insert key f' t.frontends })

  unfoldable pub find_frontend : Ingress → Text → IngressPath → Templates → Option Templates
  find_frontend i host p t = elim (lookup (host ++ p.path) t.frontends) [
    | some f ↦ with_frontend i host p f t
    | none ↦ elim (handle_basic_auth_config k i) [
      | none ↦ some t
      | some users ↦ with_frontend i host p (new_frontend i (host ++ p.path) p.path users) t
    ]
  ]

  -- One round of the loop over the paths of a rule.
  unfoldable pub load_path : Ingress → Text → IngressPath → Templates → Option Templates
  load_path i host p t =
      let key = host ++ p.path in
      let there = record t { backends = insert key (backend_at key t) t.backends } in
      if custom_realm i then none else find_frontend i host p there

  unfoldable pub load_paths : Ingress → Text → List IngressPath → Templates → Option Templates
  load_paths i host [] t = some t
  load_paths i host (p ∷ paths) t = elim (load_path i host p t) [
    | none ↦ none
    | some t' ↦ load_paths i host paths t'
  ]

  unfoldable pub load_rule : Ingress → IngressRule → Templates → Option Templates
  load_rule i r t = elim r.http [ none ↦ some t | some paths ↦ load_paths i r.host paths t ]

  unfoldable pub load_rules : Ingress → List IngressRule → Templates → Option Templates
  load_rules i [] t = some t
  load_rules i (r ∷ rules) t = elim (load_rule i r t) [
    | none ↦ none
    | some t' ↦ load_rules i rules t'
  ]

  unfoldable pub load_ingress : Ingress → Templates → Option Templates
  load_ingress i t =
      if should_process_ingress (annotation (txt "kubernetes.io/ingress.class") i.annotations)
      then load_rules i i.rules t
      else some t

  unfoldable pub load_from : List Ingress → Templates → Option Templates
  load_from [] t = some t
  load_from (i ∷ ingresses) t = elim (load_ingress i t) [
    | none ↦ none
    | some t' ↦ load_from ingresses t'
  ]

  -- loadIngresses
  unfoldable pub load_ingresses : List Ingress → Option Templates
  load_ingresses ingresses = load_from ingresses no_templates
