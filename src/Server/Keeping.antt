-- ===== src/Server/Keeping.antt =====
-- server/server.go, loadConfig: what the making of a handler leaves as it was.
use traefik_release.Base.{
  ℕ, ◌+◌, ◌≡◌, refl, sym, ap, ◌∙◌, ◌⊎◌, inl, inr, Option, none, some, List, [], ◌∷◌, ◌++◌, arith,
  Bool-cases, Option-cases, Text, eqt, eqt_refl, eqt_iff, Dict, lookup, insert, lookup-insert,
}
use traefik_release.Server.Config.{
  LoadBalancerMethod, BackendServer, Backend, Frontend, wrr, drr, new_load_balancer_method,
}
use traefik_release.Server.Entries.{Redirect, Global}
use traefik_release.Server.Redirects.{
  Rewrite, Redirected, unknown_entry_point, bad_address, bad_rewrite, redirect_to,
}
use traefik_release.Server.Loading.{Libraries, BackendHandler, HealthOptions, Loading}
use traefik_release.Server.Backends.{
  Flow, and_then, set_health, health_of, limit_of, breaker_of, find_redirect, finish_redirect,
  store_handler, add_servers, balance, finish_backend, build_backend, find_handler,
}

module _ {Route : Type 0} where
  -- The routers and the handlers of backends are the same.
  pub record Keeps (s t : Loading Route) : Type 0 where
    pub routers : t.routers ≡ s.routers
    pub backends : t.backends ≡ s.backends

  pub Keeps-trans : {s t u : Loading Route} → Keeps s t → Keeps t u → Keeps s u
  Keeps-trans k l = record { routers = l.routers ∙ k.routers; backends = l.backends ∙ k.backends }

  set_health-Keeps :
      (backend : Text) (o : Option HealthOptions) (s : Loading Route)
      → Keeps s (set_health backend o s)
  unfolding set_health
  set_health-Keeps backend none s = record { routers = refl; backends = refl }
  set_health-Keeps backend (some o) s = record { routers = refl; backends = refl }

  finish_redirect-Keeps :
      (ep : Text) (r : Redirected) (s : Loading Route) → Keeps s (finish_redirect ep r s).0
  unfolding finish_redirect
  finish_redirect-Keeps ep (redirect_to w) s = record { routers = refl; backends = refl }
  finish_redirect-Keeps ep (unknown_entry_point _) s = record { routers = refl; backends = refl }
  finish_redirect-Keeps ep (bad_address _) s = record { routers = refl; backends = refl }
  finish_redirect-Keeps ep (bad_rewrite _) s = record { routers = refl; backends = refl }

  and_then-Keeps :
      {A B : Type 0} (f : A → Loading Route → Flow (Loading Route) B) (s : Loading Route)
      (x : Flow (Loading Route) A)
      → Keeps s x.0
      → ((a : A) (t : Loading Route) → Keeps t (f a t).0)
      → Keeps s (and_then f x).0
  and_then-Keeps f s (t, none) k l = k
  and_then-Keeps f s (t, some a) k l = Keeps-trans k (l a t)

  -- What looking for the handler of `key` does: the routers stay, no handler that is there is
  -- replaced, the only new one is the one found, and it is there under `key`.
  pub record Finds (s : Loading Route) (key : Text) (x : Flow (Loading Route) BackendHandler)
      : Type 0 where
    pub routers : x.0.routers ≡ s.routers
    pub grows :
        (k : Text) (h : BackendHandler)
        → lookup k s.backends ≡ some h
        → lookup k x.0.backends ≡ some h
    pub stored : (h : BackendHandler) → x.1 ≡ some h → lookup key x.0.backends ≡ some h
    pub only :
        (k : Text) (h : BackendHandler)
        → lookup k x.0.backends ≡ some h
        → (lookup k s.backends ≡ some h) ⊎ ((k ≡ key) × (x.1 ≡ some h))

  store_handler-Finds :
      (key : Text) (s : Loading Route) (x : Flow (Loading Route) BackendHandler)
      → Keeps s x.0
      → lookup key s.backends ≡ none
      → Finds s key (and_then (store_handler key) x)
  unfolding store_handler
  store_handler-Finds key s (t, none) k e = record {
    routers = k.routers;
    grows = λ j h p. cc (ap (lookup j) k.backends, p);
    stored = λ h p. cc (p);
    only = λ j h p. inl (cc (ap (lookup j) k.backends, p));
  }
  store_handler-Finds key s (t, some made) k e = record {
    routers = k.routers;
    grows = λ j h p.
        ground
          (arith, lookup-insert key j made t.backends, eqt_iff key j, ap (lookup j) k.backends);
    stored = λ h p. ground (arith, lookup-insert key key made t.backends, eqt_refl key);
    only = λ j h p. elim (Bool-cases (eqt key j)) [
      | inl same ↦
          let found : ◌≡◌ {A = Option BackendHandler} (some made) (some h) =
            ground (arith, lookup-insert key j made t.backends) in
          inr (sym ((eqt_iff key j).0 same), found)
      | inr other ↦
          inl (ground (arith, lookup-insert key j made t.backends, ap (lookup j) k.backends))
    ];
  }

  module _ (lib : Libraries) (g : Global) where
    pub find_redirect-Keeps :
        (ep : Text) (r : Option Redirect) (s : Loading Route)
        → Keeps s (find_redirect lib g ep r s).0
    unfolding find_redirect
    find_redirect-Keeps ep none s = record { routers = refl; backends = refl }
    find_redirect-Keeps ep (some r) s = elim (Option-cases (lookup ep s.redirects)) [
      | inr (w, e) ↦ rw (e, find_redirect) (record { routers = refl; backends = refl })
      | inl e ↦ rw (e, find_redirect) (finish_redirect-Keeps ep _ s)
    ]

    add_servers-Keeps :
        (check : Loading Route → Loading Route) (name : Text) (servers : Dict BackendServer)
        (added : List (Text × ℕ)) (s : Loading Route)
        → ((t : Loading Route) → Keeps t (check t))
        → Keeps s (add_servers lib g check name servers added s).0
    unfolding add_servers
    add_servers-Keeps check name [] added s k = record { routers = refl; backends = refl }
    add_servers-Keeps check name ((n, server) ∷ servers) added s k =
        elim (Option-cases (lib.parse_url server.url)) [
          | inl e ↦ rw (e, add_servers) (record { routers = refl; backends = refl })
          | inr (url, e) ↦ elim (Bool-cases (lib.upsert_ok added url server.weight)) [
            | inl u ↦
                let t = record s { backend_to_frontend = insert url name s.backend_to_frontend } in
                let first : Keeps s t = record { routers = refl; backends = refl } in
                rw (e, u, add_servers)
                  (Keeps-trans first
                    (Keeps-trans (k t) (add_servers-Keeps check name servers _ (check t) k)))
            | inr u ↦ rw (e, u, add_servers) (record { routers = refl; backends = refl })
          ]
        ]

    balance-Keeps :
        (method : LoadBalancerMethod) (name backend : Text) (b : Backend) (s : Loading Route)
        → Keeps s (balance lib g method name backend b s).0
    unfolding balance
    balance-Keeps drr name backend b s =
        let first : Keeps s (record s { created = s.created + 1 }) = record {
          routers = refl;
          backends = refl;
        } in
        Keeps-trans first (
          add_servers-Keeps _ name b.servers [] _
            (set_health-Keeps backend (health_of lib g s.created b)))
    balance-Keeps wrr name backend b s =
        let first : Keeps s (record s { created = s.created + 1 }) = record {
          routers = refl;
          backends = refl;
        } in
        and_then-Keeps
          (λ servers t. (set_health backend (health_of lib g s.created b) t, some servers)) s _
          (Keeps-trans first (
            add_servers-Keeps (λ t. t) name b.servers [] _
              (λ t. record { routers = refl; backends = refl })))
          (λ servers t. set_health-Keeps backend (health_of lib g s.created b) t)

    finish_backend-Keeps :
        (lb : ℕ) (f : Frontend) (r : Option Rewrite) (method : LoadBalancerMethod) (b : Backend)
        (servers : List (Text × ℕ)) (s : Loading Route)
        → Keeps s (finish_backend lib g lb f r method b servers s).0
    unfolding finish_backend
    finish_backend-Keeps lb f r method b servers s =
        elim (Option-cases (limit_of lib g b.max_conn)) [
          | inl e ↦ rw (e, finish_backend) (record { routers = refl; backends = refl })
          | inr (limit, e) ↦ elim (Option-cases (breaker_of lib g b.circuit_breaker)) [
            | inl u ↦ rw (e, u, finish_backend) (record { routers = refl; backends = refl })
            | inr (breaker, u) ↦
                rw (e, u, finish_backend) (record { routers = refl; backends = refl })
          ]
        ]

    pub build_backend-Keeps :
        (name : Text) (f : Frontend) (r : Option Rewrite) (b : Option Backend) (s : Loading Route)
        → Keeps s (build_backend lib g name f r b s).0
    unfolding build_backend
    build_backend-Keeps name f r none s = record { routers = refl; backends = refl }
    build_backend-Keeps name f r (some b) s =
        elim (Option-cases (new_load_balancer_method b.load_balancer)) [
          | inl e ↦ rw (e, build_backend) (record { routers = refl; backends = refl })
          | inr (method, e) ↦
              rw (e, build_backend)
                (and_then-Keeps (finish_backend lib g s.created f r method b) s _
                  (balance-Keeps method name f.backend b s)
                  (finish_backend-Keeps s.created f r method b))
        ]

    pub find_handler-Finds :
        (ep name : Text) (f : Frontend) (backends : Dict Backend) (r : Option Rewrite)
        (s : Loading Route)
        → Finds s (ep ++ f.backend) (find_handler lib g ep name f backends r s)
    unfolding find_handler
    find_handler-Finds ep name f backends r s =
        elim (Option-cases (lookup (ep ++ f.backend) s.backends)) [
          | inr (h, e) ↦
              rw (e, find_handler)
                (record {
                  routers = refl;
                  grows = λ j k p. p;
                  stored = λ k p. cc (e, p);
                  only = λ j k p. inl p;
                })
          | inl e ↦
              rw (e, find_handler)
                (store_handler-Finds (ep ++ f.backend) s _ (build_backend-Keeps name f r _ s) e)
        ]
