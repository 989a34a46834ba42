-- ===== src/Server/LoadInduction.antt =====
-- server/server.go, loadConfig: induction over its loops.
use traefik_release.Base.{
  subst, ◌≡◌, refl, inl, inr, Option, none, some, List, [], ◌∷◌, ◌++◌, Bool-cases, Option-cases,
  Text, is_empty, Dict, lookup,
}
use mathlib.Core.List.{Memᴰ}
use traefik_release.Rules.Route.{Mux, ServerRoute, RouteError, parsing, nil_route}
use traefik_release.Server.Config.{Backend, Frontend, Configuration, dict_of}
use traefik_release.Server.Entries.{Redirect, Global}
use traefik_release.Server.Redirects.{Rewrite}
use traefik_release.Server.Loading.{
  Libraries, BackendHandler, Wired, Loading, sorted_frontend_names, start_loading,
}
use traefik_release.Server.Backends.{Flow, and_then, find_redirect, find_handler}
use traefik_release.Server.Keeping.{find_handler-Finds}
use traefik_release.Server.LoadSteps.{
  unless_given_up, push_route, wire, redirect_at, wire_route, load_entry, load_entries,
  load_frontend, load_frontends, load_configurations, then_load, sort_routers, load_config,
}

module _ (m : Mux) (new_route : Text → m.Route) (lib : Libraries) (g : Global)
    (Uses : Text → Text → Frontend → Dict Backend → Type 0) (P : Loading m.Route → Type 0)
    (after_push : (ep name : Text) (f : Frontend) (backends : Dict Backend) (w : Wired m.Route)
        (s : Loading m.Route)
      → Uses name ep f backends
      → w.frontend ≡ name
      → ((h : BackendHandler) → w.handler ≡ some h → lookup (ep ++ f.backend) s.backends ≡ some h)
      → P s
      → P (push_route m new_route lib g ep w s))
    (after_redirect : (ep : Text) (r : Option Redirect) (s : Loading m.Route)
      → P s
      → P (find_redirect lib g ep r s).0)
    (after_handler : (ep name : Text) (f : Frontend) (backends : Dict Backend) (r : Option Rewrite)
        (s : Loading m.Route)
      → Uses name ep f backends
      → P s
      → P (find_handler lib g ep name f backends r s).0) where
  open m use {Route}

  after_wire :
      (ep name : Text) (f : Frontend) (backends : Dict Backend) (r : ServerRoute Route)
      (x : Flow (Loading Route) BackendHandler)
      → P x.0
      → Uses name ep f backends
      → ((h : BackendHandler) → x.1 ≡ some h → lookup (ep ++ f.backend) x.0.backends ≡ some h)
      → P (wire m new_route lib g ep name f r x).0
  unfolding wire
  after_wire ep name f backends r (s, none) inv u k =
      after_push ep name f backends _ s u refl (λ h e. cc) inv
  after_wire ep name f backends r (s, some h) inv u k =
      after_push ep name f backends _ s u refl k inv

  after_wire_found :
      (ep name : Text) (f : Frontend) (backends : Dict Backend) (r : ServerRoute Route)
      (x : Flow (Loading Route) (Option Rewrite))
      → P x.0
      → Uses name ep f backends
      → P
          (wire m new_route lib g ep name f r
            (and_then (find_handler lib g ep name f backends) x)).0
  after_wire_found ep name f backends r (s, none) inv u =
      after_wire ep name f backends r (s, none) inv u (λ h e. cc)
  after_wire_found ep name f backends r (s, some redirect) inv u =
      let found = find_handler-Finds lib g ep name f backends redirect s in
      after_wire ep name f backends r _ (after_handler ep name f backends redirect s u inv) u
        found.stored

  -- What a step leaves that may panic.
  abbrev pub Holds : Option (Loading Route) → Type 0
  Holds none = Unit
  Holds (some s) = P s

  abbrev HoldsBehind : Option (Flow (Loading Route) (Unit {0})) → Type 0
  HoldsBehind none = Unit
  HoldsBehind (some x) = P x.0

  after_wire_route :
      (ep name : Text) (f : Frontend) (backends : Dict Backend)
      (x : ServerRoute Route × Option RouteError) (s : Loading Route)
      → P s
      → Uses name ep f backends
      → HoldsBehind (wire_route m new_route lib g ep name f backends x s)
  unfolding wire_route
  after_wire_route ep name f backends (r, some nil_route) s inv u = tt
  after_wire_route ep name f backends (r, some (parsing e)) s inv u =
      after_wire ep name f backends r (s, none) inv u (λ h e. cc)
  after_wire_route ep name f backends (r, none) s inv u =
      after_wire_found ep name f backends r _
        (after_redirect ep (redirect_at m new_route lib g ep) s inv) u

  after_load_entry :
      (ep name : Text) (f : Frontend) (backends : Dict Backend) (s : Loading Route)
      → P s
      → Uses name ep f backends
      → HoldsBehind (load_entry m new_route lib g ep name f backends s)
  unfolding load_entry
  after_load_entry ep name f backends s inv u = elim (Option-cases (lookup ep s.routers)) [
    | inl e ↦ rw (e, load_entry) inv
    | inr (ws, e) ↦ rw (e, load_entry) (after_wire_route ep name f backends _ s inv u)
  ]

  after_unless :
      (rest : Loading Route → Option (Loading Route)) (x : Option (Flow (Loading Route) (Unit {0})))
      → HoldsBehind x
      → ((t : Loading Route) → P t → Holds (rest t))
      → Holds (unless_given_up rest x)
  after_unless rest none inv k = tt
  after_unless rest (some (s, none)) inv k = inv
  after_unless rest (some (s, some _)) inv k = k s inv

  after_then :
      (rest : Loading Route → Option (Loading Route)) (x : Option (Loading Route))
      → Holds x
      → ((t : Loading Route) → P t → Holds (rest t))
      → Holds (then_load rest x)
  after_then rest none inv k = tt
  after_then rest (some s) inv k = k s inv

  after_load_entries :
      (name : Text) (f : Frontend) (backends : Dict Backend) (eps : List Text) (s : Loading Route)
      → ((ep : Text) → Memᴰ ep eps → Uses name ep f backends)
      → P s
      → Holds (load_entries m new_route lib g name f backends eps s)
  unfolding load_entries
  after_load_entries name f backends [] s u inv = inv
  after_load_entries name f backends (ep ∷ eps) s u inv =
      after_unless (λ t. load_entries m new_route lib g name f backends eps t) _
        (after_load_entry ep name f backends s inv (u ep (Memᴰ.head refl)))
        (λ t. after_load_entries name f backends eps t (λ ep' i. u ep' (Memᴰ.tail i)))

  -- What a configuration says is among the uses.
  abbrev pub Knows : Configuration → Type 0
  Knows c =
      (name ep : Text) (f : Frontend)
      → lookup name (dict_of c.frontends) ≡ some f
      → Memᴰ ep f.entry_points
      → Uses name ep f (dict_of c.backends)

  after_load_frontend :
      (name : Text) (c : Configuration) (s : Loading Route)
      → Knows c
      → P s
      → Holds (load_frontend m new_route lib g name c s)
  unfolding load_frontend
  after_load_frontend name c s k inv = elim (Option-cases (lookup name (dict_of c.frontends))) [
    | inl e ↦ rw (e, load_frontend) inv
    | inr (f, e) ↦ elim (Bool-cases (lib.forwarder_ok f.pass_host_header)) [
      | inr u ↦ rw (e, load_frontend) (rw u inv)
      | inl u ↦ elim (Bool-cases (is_empty f.entry_points)) [
        | inl v ↦ rw (e, load_frontend) (rw (u, v) inv)
        | inr v ↦
            rw (e, load_frontend)
              (rw (u, v)
                (after_load_entries name f _ f.entry_points s (λ ep i. k name ep f e i) inv))
      ]
    ]
  ]

  after_load_frontends :
      (names : List Text) (c : Configuration) (s : Loading Route)
      → Knows c
      → P s
      → Holds (load_frontends m new_route lib g names c s)
  unfolding load_frontends
  after_load_frontends [] c s k inv = inv
  after_load_frontends (name ∷ names) c s k inv =
      after_then (λ t. load_frontends m new_route lib g names c t) _
        (after_load_frontend name c s k inv) (λ t. after_load_frontends names c t k)

  -- What each step of the loops keeps is there behind them.
  pub after_load_configurations :
      (cs : Dict Configuration) (s : Loading Route)
      → ((p : Text × Configuration) → Memᴰ p cs → Knows p.1)
      → P s
      → Holds (load_configurations m new_route lib g cs s)
  unfolding load_configurations
  after_load_configurations [] s k inv = inv
  after_load_configurations ((p, c) ∷ cs) s k inv =
      after_then (λ t. load_configurations m new_route lib g cs t) _
        (after_load_frontends (sorted_frontend_names c) c s (k (p, c) (Memᴰ.head refl)) inv)
        (λ t. after_load_configurations cs t (λ q i. k q (Memᴰ.tail i)))

  -- The routers are sorted behind the loops.
  pub after_load_config :
      (sort : List (Wired Route) → List (Wired Route)) (cs : Dict Configuration)
      (loaded : Loading Route)
      → ((p : Text × Configuration) → Memᴰ p cs → Knows p.1)
      → P (start_loading Route g.entry_points)
      → load_config m new_route lib g sort cs ≡ some loaded
      → (s : Loading Route) × P s
        × (loaded ≡ record s { routers = sort_routers m new_route lib g sort s.routers })
  unfolding load_config
  after_load_config sort cs loaded k inv e =
      let start = start_loading Route g.entry_points in
      elim (Option-cases (load_configurations m new_route lib g cs start)) [
        | inl n ↦ cc (rw (n, load_config) at e)
        | inr (s, n) ↦ (
          s,
          subst Holds n (after_load_configurations cs start k inv),
          cc (rw (n, load_config) at e),
        )
      ]
