-- ===== src/Server/LoadSteps.antt =====
-- server/server.go, loadConfig: its loops over configurations, frontends, entry points and routes.
use traefik_release.Base.{
  ℕ, Option, none, some, List, [], ◌∷◌, ◌++◌, ltb, if◌then◌else◌, Text, is_empty, Dict, lookup,
  insert,
}
use traefik_release.Rules.Route.{Mux, ServerRoute, RouteError, parsing, nil_route, get_route}
use traefik_release.Server.Config.{Backend, Frontend, Configuration, dict_of}
use traefik_release.Server.Entries.{Redirect, Global}
use traefik_release.Server.Loading.{
  Libraries, BackendHandler, Wired, Loading, sorted_frontend_names, start_loading,
}
use traefik_release.Server.Backends.{Flow, and_then, find_redirect, find_handler}

-- No result is a panic.
module _ {S A : Type 0} where
  -- The rest of a loop over entry points, unless the frontend has been given up.
  abbrev pub unless_given_up : (S → Option S) → Option (Flow S A) → Option S
  unless_given_up rest none = none
  unless_given_up rest (some (s, none)) = some s
  unless_given_up rest (some (s, some _)) = rest s

module _ {S : Type 0} where
  -- The rest of a loop.
  abbrev pub then_load : (S → Option S) → Option S → Option S
  then_load rest none = none
  then_load rest (some s) = rest s

module _ (m : Mux) (new_route : Text → m.Route) (lib : Libraries) (g : Global) where
  open m use {Route}

  abbrev pub State : Type 0
  State = Loading Route

  abbrev pub unless_failed :
      (ServerRoute Route → ServerRoute Route × Option RouteError)
      → ServerRoute Route × Option RouteError
      → ServerRoute Route × Option RouteError
  unless_failed rest (r, none) = rest r
  unless_failed rest (r, some e) = (r, some e)

  -- The loop over the routes of a frontend.
  unfoldable pub get_routes : Dict Text → ServerRoute Route → ServerRoute Route × Option RouteError
  get_routes [] r = (r, none)
  get_routes ((_, rule) ∷ rules) r = unless_failed (λ r'. get_routes rules r') (get_route m rule r)

  abbrev pub fresh_route : Text → ServerRoute Route
  fresh_route name = record {
    route = new_route name;
    strip_prefixes = [];
    strip_prefixes_regex = [];
    add_prefix = [];
    replace_path = [];
  }

  -- The frontend's route in the router of the entry point, behind the others.
  unfoldable pub push_route : Text → Wired Route → State → State
  push_route ep w s = elim (lookup ep s.routers) [
    | none ↦ s
    | some ws ↦ record s { routers = insert ep (ws ++ w ∷ []) s.routers }
  ]

  unfoldable pub with_priority : ℕ → ServerRoute Route → ServerRoute Route
  with_priority p r = if ltb 0 p then record r { route = m.priority p r.route } else r

  -- The route with the handler that it is wired to; it stays without one where the frontend is
  -- given up.
  unfoldable pub wire :
      Text → Text → Frontend → ServerRoute Route → Flow State BackendHandler → Flow State (Unit {0})
  wire ep name f r (s, none) =
      (push_route ep (record { frontend = name; route = r; handler = none }) s, none)
  wire ep name f r (s, some h) =
      let w : Wired Route = record {
        frontend = name;
        route = with_priority f.priority r;
        handler = some h;
      } in
      (push_route ep w s, some tt)

  abbrev pub redirect_at : Text → Option Redirect
  redirect_at ep = elim (lookup ep g.entry_points) [ some e ↦ e.redirect | none ↦ none ]

  -- A route that is nil panics in getRoute; another error gives the frontend up.
  unfoldable pub wire_route :
      Text
      → Text
      → Frontend
      → Dict Backend
      → ServerRoute Route × Option RouteError
      → State
      → Option (Flow State (Unit {0}))
  wire_route ep name f backends (r, some nil_route) s = none
  wire_route ep name f backends (r, some (parsing e)) s = some (wire ep name f r (s, none))
  wire_route ep name f backends (r, none) s = some (
      wire ep name f r (
        and_then (find_handler lib g ep name f backends)
          (find_redirect lib g ep (redirect_at ep) s)))

  -- One round of the loop over the entry points of a frontend. Each router belongs to an entry
  -- point of the static configuration, so `EntryPoints[entryPointName]` is there.
  unfoldable pub load_entry :
      Text → Text → Frontend → Dict Backend → State → Option (Flow State (Unit {0}))
  load_entry ep name f backends s = elim (lookup ep s.routers) [
    | none ↦ some (s, none)
    | some _ ↦ wire_route ep name f backends (get_routes f.routes (fresh_route name)) s
  ]

  unfoldable pub load_entries : Text → Frontend → Dict Backend → List Text → State → Option State
  load_entries name f backends [] s = some s
  load_entries name f backends (ep ∷ eps) s =
      unless_given_up (λ t. load_entries name f backends eps t) (load_entry ep name f backends s)

  -- One round of the loop over the frontends of a configuration.
  unfoldable pub load_frontend : Text → Configuration → State → Option State
  load_frontend name c s = elim (lookup name (dict_of c.frontends)) [
    | none ↦ some s
    | some f ↦
        if lib.forwarder_ok f.pass_host_header
        then (if is_empty f.entry_points
            then some s
            else load_entries name f (dict_of c.backends) f.entry_points s)
        else some s
  ]

  unfoldable pub load_frontends : List Text → Configuration → State → Option State
  load_frontends [] c s = some s
  load_frontends (name ∷ names) c s =
      then_load (λ t. load_frontends names c t) (load_frontend name c s)

  unfoldable pub load_configurations : Dict Configuration → State → Option State
  load_configurations [] s = some s
  load_configurations ((_, c) ∷ cs) s =
      then_load (λ t. load_configurations cs t) (load_frontends (sorted_frontend_names c) c s)

  unfoldable pub sort_routers :
      (List (Wired Route) → List (Wired Route))
      → Dict (List (Wired Route))
      → Dict (List (Wired Route))
  sort_routers sort [] = []
  sort_routers sort ((ep, ws) ∷ routers) = (ep, sort ws) ∷ sort_routers sort routers

  -- loadConfig, which never returns an error; `sort` is SortRoutes of the router library.
  unfoldable pub load_config :
      (List (Wired Route) → List (Wired Route)) → Dict Configuration → Option State
  load_config sort cs = elim (load_configurations cs (start_loading Route g.entry_points)) [
    | none ↦ none
    | some s ↦ some (record s { routers = sort_routers sort s.routers })
  ]
