-- ===== src/Server/LoadRuns.antt =====
-- server/server.go, loadConfig: when it runs without a panic.
use traefik_release.Base.{
  ◌≡◌, refl, subst, ◌≢◌, inl, inr, true, Option, none, some, List, [], ◌∷◌, arith, Bool-cases,
  Option-cases, All, Text, eqt, is_empty, Dict, lookup,
}
use traefik_release.Rules.Syntax.{is_semicolon}
use traefik_release.Rules.Route.{Mux, ServerRoute, RouteError, parsing, nil_route, get_route}
use traefik_release.Rules.Failures.{get_route-eq-nil_route_iff}
use traefik_release.Server.Config.{Backend, Frontend, Configuration, dict_of}
use traefik_release.Server.Entries.{Global}
use traefik_release.Server.Loading.{Libraries, Wired, Loading, sorted_frontend_names, start_loading}
use traefik_release.Server.Backends.{Flow}
use traefik_release.Server.LoadSteps.{
  unless_given_up, then_load, unless_failed, get_routes, wire_route, load_entry, load_entries,
  load_frontend, load_frontends, load_configurations, sort_routers, load_config,
}

-- A rule that is made of semicolons only.
abbrev pub IsBare : Text → Type 0
IsBare rule = (rule ≢ []) × All (λ c. is_semicolon c ≡ true) rule

-- No rule of the configurations' frontends is.
abbrev pub IsUsable : Text × Frontend → Type 0
IsUsable p = All (λ (r : Text × Text). IsBare r.1 → ⊥) p.1.routes

abbrev pub AreUsable : Dict Configuration → Type 0
AreUsable cs = All (λ (p : Text × Configuration). All IsUsable (dict_of p.1.frontends)) cs

lookup-All {ℓ} :
    {V : Type ℓ} (P : Text × V → Type 0) (k : Text) (m : Dict V) (v : V)
    → All P m
    → lookup k m ≡ some v
    → (j : Text) × P (j, v)
unfolding lookup
lookup-All P k [] v h e = cc
lookup-All P k ((j, w) ∷ m) v h e = elim (Bool-cases (eqt j k)) [
  | inl same ↦ let here : w ≡ v = ground (arith, same, e) in (j, subst (λ x. P (j, x)) here h.0)
  | inr other ↦ lookup-All P k m v h.1 (rw other at e)
]

-- It did not panic.
abbrev Runs {ℓ} : {A : Type ℓ} → Option A → Type ℓ
Runs {A = A} o = (a : A) × (o ≡ some a)

module _ (m : Mux) (new_route : Text → m.Route) (lib : Libraries) (g : Global) where
  open m use {Route}

  unless_failed-nil :
      (rest : ServerRoute Route → ServerRoute Route × Option RouteError)
      (x : ServerRoute Route × Option RouteError)
      → (x.1 ≢ some nil_route)
      → ((r : ServerRoute Route) → (rest r).1 ≢ some nil_route)
      → (unless_failed m new_route lib g rest x).1 ≢ some nil_route
  unless_failed-nil rest (r, none) h k = k r
  unless_failed-nil rest (r, some e) h k = h

  get_routes-ne-nil :
      (rules : Dict Text) (r : ServerRoute Route)
      → All (λ (p : Text × Text). IsBare p.1 → ⊥) rules
      → (get_routes m new_route lib g rules r).1 ≢ some nil_route
  unfolding get_routes
  get_routes-ne-nil [] r h = λ e. cc
  get_routes-ne-nil ((_, rule) ∷ rules) r h =
      unless_failed-nil (λ r'. get_routes m new_route lib g rules r') (get_route m rule r)
        (λ e. h.0 ((get_route-eq-nil_route_iff m rule r).0 e))
        (λ r'. get_routes-ne-nil rules r' h.1)

  wire_route-Runs :
      (ep name : Text) (f : Frontend) (backends : Dict Backend)
      (x : ServerRoute Route × Option RouteError) (s : Loading Route)
      → x.1 ≢ some nil_route
      → Runs (wire_route m new_route lib g ep name f backends x s)
  unfolding wire_route
  wire_route-Runs ep name f backends (r, some nil_route) s h = absurd (h refl)
  wire_route-Runs ep name f backends (r, some (parsing e)) s h = (_, refl)
  wire_route-Runs ep name f backends (r, none) s h = (_, refl)

  load_entry-Runs :
      (ep name j : Text) (f : Frontend) (backends : Dict Backend) (s : Loading Route)
      → IsUsable (j, f)
      → Runs (load_entry m new_route lib g ep name f backends s)
  unfolding load_entry
  load_entry-Runs ep name j f backends s u = elim (Option-cases (lookup ep s.routers)) [
    | inl e ↦ rw (e, load_entry) ((s, none), refl)
    | inr (ws, e) ↦
        rw (e, load_entry) (wire_route-Runs ep name f backends _ s (get_routes-ne-nil f.routes _ u))
  ]

  unless-Runs :
      (rest : Loading Route → Option (Loading Route)) (x : Option (Flow (Loading Route) (Unit {0})))
      → Runs x
      → ((t : Loading Route) → Runs (rest t))
      → Runs (unless_given_up rest x)
  unless-Runs rest none h k = cc (h.1)
  unless-Runs rest (some (s, none)) h k = (s, refl)
  unless-Runs rest (some (s, some _)) h k = k s

  then-Runs :
      (rest : Loading Route → Option (Loading Route)) (x : Option (Loading Route))
      → Runs x
      → ((t : Loading Route) → Runs (rest t))
      → Runs (then_load rest x)
  then-Runs rest none h k = cc (h.1)
  then-Runs rest (some s) h k = k s

  load_entries-Runs :
      (name j : Text) (f : Frontend) (backends : Dict Backend) (eps : List Text) (s : Loading Route)
      → IsUsable (j, f)
      → Runs (load_entries m new_route lib g name f backends eps s)
  unfolding load_entries
  load_entries-Runs name j f backends [] s u = (s, refl)
  load_entries-Runs name j f backends (ep ∷ eps) s u =
      unless-Runs (λ t. load_entries m new_route lib g name f backends eps t) _
        (load_entry-Runs ep name j f backends s u)
        (λ t. load_entries-Runs name j f backends eps t u)

  load_frontend-Runs :
      (name : Text) (c : Configuration) (s : Loading Route)
      → All IsUsable (dict_of c.frontends)
      → Runs (load_frontend m new_route lib g name c s)
  unfolding load_frontend
  load_frontend-Runs name c s u = elim (Option-cases (lookup name (dict_of c.frontends))) [
    | inl e ↦ rw (e, load_frontend) (s, refl)
    | inr (f, e) ↦ elim (Bool-cases (lib.forwarder_ok f.pass_host_header)) [
      | inr p ↦ rw (e, load_frontend) (rw p (s, refl))
      | inl p ↦ elim (Bool-cases (is_empty f.entry_points)) [
        | inl v ↦ rw (e, load_frontend) (rw (p, v) (s, refl))
        | inr v ↦
            let (j, usable) = lookup-All IsUsable name (dict_of c.frontends) f u e in
            rw (e, load_frontend)
              (rw (p, v) (load_entries-Runs name j f (dict_of c.backends) f.entry_points s usable))
      ]
    ]
  ]

  load_frontends-Runs :
      (names : List Text) (c : Configuration) (s : Loading Route)
      → All IsUsable (dict_of c.frontends)
      → Runs (load_frontends m new_route lib g names c s)
  unfolding load_frontends
  load_frontends-Runs [] c s u = (s, refl)
  load_frontends-Runs (name ∷ names) c s u =
      then-Runs (λ t. load_frontends m new_route lib g names c t) _ (load_frontend-Runs name c s u)
        (λ t. load_frontends-Runs names c t u)

  load_configurations-Runs :
      (cs : Dict Configuration) (s : Loading Route)
      → AreUsable cs
      → Runs (load_configurations m new_route lib g cs s)
  unfolding load_configurations
  load_configurations-Runs [] s u = (s, refl)
  load_configurations-Runs ((p, c) ∷ cs) s u =
      then-Runs (λ t. load_configurations m new_route lib g cs t) _
        (load_frontends-Runs (sorted_frontend_names c) c s u.0)
        (λ t. load_configurations-Runs cs t u.1)

  -- Loading does not panic if no rule of a frontend is made of semicolons only.
  pub load_config-Runs :
      (sort : List (Wired Route) → List (Wired Route)) (cs : Dict Configuration)
      → AreUsable cs
      → (s : Loading Route) × (load_config m new_route lib g sort cs ≡ some s)
  unfolding load_config
  load_config-Runs sort cs u =
      let (s, e) = load_configurations-Runs cs (start_loading Route g.entry_points) u in
      (record s { routers = sort_routers m new_route lib g sort s.routers }, rw (e, load_config))
