-- ===== src/Server/Sharing.antt =====
-- server/server.go, loadConfig: which handlers the routes share.
use traefik_release.Base.{
  sym, ◌≡◌, refl, sym, ap, subst, inl, inr, Option, some, List, [], ◌∷◌, ◌++◌, arith, Bool-cases,
  Option-cases, All, All-append, Text, eqt, eqt_iff, Dict, lookup, lookup-insert,
}
use mathlib.Core.List.{Memᴰ}
use traefik_release.Rules.Route.{Mux}
use traefik_release.Server.Config.{Backend, Frontend, Configuration, dict_of}
use traefik_release.Server.Entries.{EntryPoint, Redirect, Global}
use traefik_release.Server.Redirects.{Rewrite}
use traefik_release.Server.Loading.{
  Libraries, BackendHandler, Wired, Loading, build_entry_points, start_loading,
}
use traefik_release.Server.Backends.{find_redirect, find_handler}
use traefik_release.Server.Keeping.{find_redirect-Keeps, find_handler-Finds}
use traefik_release.Server.LoadSteps.{push_route, sort_routers, load_config}
use traefik_release.Server.LoadInduction.{after_load_config}
use traefik_release.Server.LoadRuns.{AreUsable, load_config-Runs}

-- What a configuration says of a frontend: an entry point of it, and the backends it is among.
pub record UsedIn (cs : Dict Configuration) (name ep : Text) (f : Frontend)
    (backends : Dict Backend) : Type 0 where
  pub provider : Text
  pub configuration : Configuration
  pub member : Memᴰ (provider, configuration) cs
  pub frontend : lookup name (dict_of configuration.frontends) ≡ some f
  pub entry : Memᴰ ep f.entry_points
  pub among : backends ≡ dict_of configuration.backends

pub UsedIn-Knows :
    (cs : Dict Configuration) (p : Text × Configuration)
    → Memᴰ p cs
    → (name ep : Text) (f : Frontend) → lookup name (dict_of p.1.frontends) ≡ some f
    → Memᴰ ep f.entry_points
    → UsedIn cs name ep f (dict_of p.1.backends)
UsedIn-Knows cs (provider, c) i name ep f e j = record {
  provider = provider;
  configuration = c;
  member = i;
  frontend = e;
  entry = j;
  among = refl;
}

module _ {Route : Type 0} (cs : Dict Configuration) where
  -- A route with a handler is one of a frontend of the configurations, and has the handler of the
  -- frontend's backend at the entry point.
  abbrev pub Shares : Dict BackendHandler → Text → Wired Route → Type 0
  Shares handlers ep w =
      (h : BackendHandler)
      → w.handler ≡ some h
      → (f : Frontend) × (backends : Dict Backend) × UsedIn cs w.frontend ep f backends
        × (lookup (ep ++ f.backend) handlers ≡ some h)

  abbrev pub IsShared : Loading Route → Type 0
  IsShared s =
      (ep : Text) (ws : List (Wired Route))
      → lookup ep s.routers ≡ some ws
      → All (Shares s.backends ep) ws

  Shares-grows :
      (hs hs' : Dict BackendHandler) (ep : Text) (ws : List (Wired Route))
      → ((k : Text) (h : BackendHandler) → lookup k hs ≡ some h → lookup k hs' ≡ some h)
      → All (Shares hs ep) ws
      → All (Shares hs' ep) ws
  Shares-grows hs hs' ep [] grows a = tt
  Shares-grows hs hs' ep (w ∷ ws) grows (p, a) = (
    (λ h e. let (f, backends, u, found) = p h e in (f, backends, u, grows _ h found)),
    Shares-grows hs hs' ep ws grows a,
  )

  build_entry_points-empty :
      (eps : Dict EntryPoint) (ep : Text) (ws : List (Wired Route))
      → lookup ep (build_entry_points eps) ≡ some ws
      → ws ≡ []
  unfolding build_entry_points lookup
  build_entry_points-empty [] ep ws h = cc
  build_entry_points-empty ((name, e) ∷ eps) ep ws h = elim (Bool-cases (eqt name ep)) [
    | inl t ↦ cc (rw t at h)
    | inr t ↦ build_entry_points-empty eps ep ws (rw t at h)
  ]

module _ (m : Mux) (new_route : Text → m.Route) (lib : Libraries) (g : Global)
    (cs : Dict Configuration) where
  open m use {Route}

  lookup-sort_routers :
      (sort : List (Wired Route) → List (Wired Route)) (rs : Dict (List (Wired Route))) (ep : Text)
      (ws : List (Wired Route))
      → lookup ep (sort_routers m new_route lib g sort rs) ≡ some ws
      → (unsorted : List (Wired Route)) × (lookup ep rs ≡ some unsorted) × (ws ≡ sort unsorted)
  unfolding sort_routers lookup
  lookup-sort_routers sort [] ep ws h = cc
  lookup-sort_routers sort ((name, us) ∷ rs) ep ws h = elim (Bool-cases (eqt name ep)) [
    | inl t ↦ (us, rw t, cc (rw t at h))
    | inr t ↦ rw t (lookup-sort_routers sort rs ep ws (rw t at h))
  ]

  IsShared-push_route :
      (ep name : Text) (f : Frontend) (backends : Dict Backend) (w : Wired Route)
      (s : Loading Route)
      → UsedIn cs name ep f backends
      → w.frontend ≡ name
      → ((h : BackendHandler) → w.handler ≡ some h → lookup (ep ++ f.backend) s.backends ≡ some h)
      → IsShared cs s
      → IsShared cs (push_route m new_route lib g ep w s)
  unfolding push_route
  IsShared-push_route ep name f backends w s u n k inv = elim (Option-cases (lookup ep s.routers)) [
    | inl e ↦ rw (e, push_route) inv
    | inr (ws, e) ↦
        rw (e, push_route)
          (λ ep' ws' h. elim (Bool-cases (eqt ep ep')) [
            | inr other ↦
                inv ep' ws' (ground (arith, lookup-insert ep ep' (ws ++ w ∷ []) s.routers))
            | inl same ↦
                let there : ws' ≡ ws ++ w ∷ [] =
                  ground (arith, lookup-insert ep ep' (ws ++ w ∷ []) s.routers) in
                let mine : Shares cs s.backends ep w =
                  λ h p. (f, backends, subst (λ n. UsedIn cs n ep f backends) (sym n) u, k h p) in
                subst (λ e. All (Shares cs s.backends e) ws') ((eqt_iff ep ep').0 same)
                  (subst (λ v. All (Shares cs s.backends ep) v) (sym there)
                    (All-append (Shares cs s.backends ep) ws (w ∷ []) (inv ep ws e) (mine, tt)))
          ])
  ]

  IsShared-find_redirect :
      (ep : Text) (r : Option Redirect) (s : Loading Route)
      → IsShared cs s
      → IsShared cs (find_redirect lib g ep r s).0
  IsShared-find_redirect ep r s inv ep' ws h =
      let k = find_redirect-Keeps lib g ep r s in
      Shares-grows cs s.backends _ ep' ws (λ j b e. cc (ap (lookup j) k.backends, e))
        (inv ep' ws (cc (ap (lookup ep') k.routers, h)))

  IsShared-find_handler :
      (ep name : Text) (f : Frontend) (backends : Dict Backend) (r : Option Rewrite)
      (s : Loading Route)
      → UsedIn cs name ep f backends
      → IsShared cs s
      → IsShared cs (find_handler lib g ep name f backends r s).0
  IsShared-find_handler ep name f backends r s u inv ep' ws h =
      let k = find_handler-Finds lib g ep name f backends r s in
      Shares-grows cs s.backends _ ep' ws k.grows (inv ep' ws (cc (ap (lookup ep') k.routers, h)))

  -- What is loaded without a panic: its routes share their handlers.
  pub loaded-Shares :
      (sort : List (Wired Route) → List (Wired Route)) (loaded : Loading Route)
      → ((P : Wired Route → Type 0) (ws : List (Wired Route)) → All P ws → All P (sort ws))
      → load_config m new_route lib g sort cs ≡ some loaded
      → IsShared cs loaded
  unfolding start_loading
  loaded-Shares sort loaded sorts e =
      let start : IsShared cs (start_loading Route g.entry_points) =
        λ ep ws h. rw (build_entry_points-empty cs g.entry_points ep ws h) tt in
      let (s, inv, same) =
        after_load_config m new_route lib g (UsedIn cs) (IsShared cs) IsShared-push_route
          IsShared-find_redirect IsShared-find_handler sort cs loaded (UsedIn-Knows cs) start e in
      subst (IsShared cs) (sym same) (λ ep ws h.
        let (us, found, sorted) = lookup-sort_routers sort s.routers ep ws h in
        rw sorted (sorts _ us (inv ep us found)))

  -- If no rule of a frontend is made of semicolons only, loading the configurations does not panic,
  -- and each route that has a handler is one of a frontend of them, at one of its entry points, and
  -- its handler is the one of all routes of that backend there. Sorting the routes keeps what holds
  -- of all of them.
  pub load_config-Shares :
      (sort : List (Wired Route) → List (Wired Route))
      → ((P : Wired Route → Type 0) (ws : List (Wired Route)) → All P ws → All P (sort ws))
      → AreUsable cs
      → (s : Loading Route) × (load_config m new_route lib g sort cs ≡ some s) × IsShared cs s
  load_config-Shares sort sorts usable =
      let (s, e) = load_config-Runs m new_route lib g sort cs usable in
      (s, e, loaded-Shares sort s sorts e)
