-- ===== src/Server/Origins.antt =====
-- server/server.go, loadConfig: where the handlers come from that it makes.
use traefik_release.Base.{
  sym, subst, ◌≡◌, ap, inl, inr, Option, some, List, ◌++◌, Option-cases, Text, Dict, lookup,
}
use traefik_release.Rules.Route.{Mux}
use traefik_release.Server.Config.{Backend, Frontend, Configuration}
use traefik_release.Server.Entries.{Global}
use traefik_release.Server.Redirects.{Rewrite}
use traefik_release.Server.Loading.{Libraries, BackendHandler, Wired, Loading, start_loading}
use traefik_release.Server.Backends.{find_handler}
use traefik_release.Server.Keeping.{find_redirect-Keeps, find_handler-Finds}
use traefik_release.Server.LoadSteps.{push_route, load_config}
use traefik_release.Server.LoadInduction.{after_load_config}
use traefik_release.Server.LoadRuns.{AreUsable, load_config-Runs}
use traefik_release.Server.Sharing.{UsedIn, UsedIn-Knows}
use traefik_release.Server.Building.{IsMadeOf, find_handler-IsMadeOf}

-- Where a handler comes from: a frontend of the configurations at one of its entry points, and the
-- backend of its configuration with the name that it uses.
pub record Origin (lib : Libraries) (g : Global) (cs : Dict Configuration) (key : Text)
    (h : BackendHandler) : Type 0 where
  pub name : Text
  pub entry : Text
  pub frontend : Frontend
  pub backends : Dict Backend
  pub backend : Backend
  pub used : UsedIn cs name entry frontend backends
  pub named : lookup frontend.backend backends ≡ some backend
  pub key_joins : key ≡ entry ++ frontend.backend
  pub made : IsMadeOf lib g frontend backend h

module _ (m : Mux) (new_route : Text → m.Route) (lib : Libraries) (g : Global)
    (cs : Dict Configuration) where
  open m use {Route}

  abbrev HasOrigins : Loading Route → Type 0
  HasOrigins s =
      (k : Text) (h : BackendHandler) → lookup k s.backends ≡ some h → Origin lib g cs k h

  HasOrigins-find_handler :
      (ep name : Text) (f : Frontend) (backends : Dict Backend) (r : Option Rewrite)
      (s : Loading Route)
      → UsedIn cs name ep f backends
      → HasOrigins s
      → HasOrigins (find_handler lib g ep name f backends r s).0
  HasOrigins-find_handler ep name f backends r s u inv k h e =
      elim ((find_handler-Finds lib g ep name f backends r s).only k h e) [
        | inl old ↦ inv k h old
        | inr (same, found) ↦ elim (find_handler-IsMadeOf lib g ep name f backends r s h found) [
          | inl old ↦ inv k h (cc (old, same))
          | inr (b, p, made) ↦ record {
            name = name;
            entry = ep;
            frontend = f;
            backends = backends;
            backend = b;
            used = u;
            named = p;
            key_joins = same;
            made = made;
          }
        ]
      ]

  HasOrigins-push_route :
      (ep : Text) (w : Wired Route) (s : Loading Route)
      → HasOrigins s
      → HasOrigins (push_route m new_route lib g ep w s)
  unfolding push_route
  HasOrigins-push_route ep w s inv = elim (Option-cases (lookup ep s.routers)) [
    | inl e ↦ rw (e, push_route) inv
    | inr (ws, e) ↦ rw (e, push_route) inv
  ]

  loaded-HasOrigins :
      (sort : List (Wired Route) → List (Wired Route)) (loaded : Loading Route)
      → load_config m new_route lib g sort cs ≡ some loaded
      → HasOrigins loaded
  unfolding start_loading lookup
  loaded-HasOrigins sort loaded e =
      let (s, inv, same) =
        after_load_config m new_route lib g (UsedIn cs) HasOrigins
          (λ ep name f backends w s u n k inv. HasOrigins-push_route ep w s inv)
          (λ ep r s inv k h e.
            inv k h (cc (ap (lookup k) (find_redirect-Keeps lib g ep r s).backends, e)))
          HasOrigins-find_handler sort cs loaded (UsedIn-Knows cs) (λ k h e. cc (e)) e in
      subst HasOrigins (sym same) inv

  -- If no rule of a frontend is made of semicolons only, loading the configurations does not panic,
  -- and each handler that it makes is kept under the entry point and the backend, written one behind
  -- the other, of a frontend of the configurations, and is made of the backend that the frontend's
  -- configuration has under that name and of the frontend: the method of balancing, the servers in
  -- order, the limit of connections, the circuit breaker, the retries, and the frontend's users, or
  -- none if authentication cannot be set up.
  pub load_config-Origin :
      (sort : List (Wired Route) → List (Wired Route))
      → AreUsable cs
      → (s : Loading Route) × (load_config m new_route lib g sort cs ≡ some s)
        × ((key : Text) (h : BackendHandler)
            → lookup key s.backends ≡ some h
            → Origin lib g cs key h)
  load_config-Origin sort usable =
      let (s, e) = load_config-Runs m new_route lib g sort cs usable in
      (s, e, loaded-HasOrigins sort s e)
