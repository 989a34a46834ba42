-- ===== src/Server/Building.antt =====
-- server/server.go, loadConfig: what a handler of a backend is made of.
use traefik_release.Base.{
  ℕ, ◌≡◌, refl, ◌∙◌, ◌≢◌, ◌⊎◌, inl, inr, true, false, Option, none, some, List, [], ◌∷◌, ◌++◌,
  append-nil, append_assoc, arith, Bool-cases, Option-cases, Text, is_empty, Dict, lookup,
}
use traefik_release.Server.Config.{
  LoadBalancerMethod, wrr, drr, new_load_balancer_method, sticky_of, BackendServer, Backend,
  Frontend, MaxConn,
}
use traefik_release.Server.Entries.{Global}
use traefik_release.Server.Redirects.{Rewrite}
use traefik_release.Server.Loading.{Libraries, BackendHandler, Loading}
use traefik_release.Server.Backends.{
  Flow, and_then, retries_of, set_health, health_of, limit_of, auth_of, breaker_of, store_handler,
  add_servers, balance, finish_backend, build_backend, find_handler,
}

-- The servers of a backend with their parsed URLs, if all can be parsed.
pub parse_servers : (Text → Option Text) → Dict BackendServer → Option (List (Text × ℕ))
parse_servers parse [] = some []
parse_servers parse ((_, server) ∷ servers) = elim (parse server.url) [
  | none ↦ none
  | some url ↦ elim (parse_servers parse servers) [
    | none ↦ none
    | some more ↦ some ((url, server.weight) ∷ more)
  ]
]

-- A handler is made of a backend, and of the frontend that was the first to use it.
pub record IsMadeOf (lib : Libraries) (g : Global) (f : Frontend) (b : Backend) (h : BackendHandler)
    : Type 0 where
  pub method : new_load_balancer_method b.load_balancer ≡ some h.method
  pub sticky : h.sticky ≡ sticky_of b.load_balancer
  pub servers : parse_servers lib.parse_url b.servers ≡ some h.servers
  pub limited : (c : MaxConn) → b.max_conn ≡ some c → c.amount ≢ 0 → h.max_conn ≡ some c
  pub breaking : h.circuit_breaker ≡ b.circuit_breaker
  pub pass_host_header : h.pass_host_header ≡ f.pass_host_header
  pub authenticates :
      f.basic_auth ≢ []
      → lib.authenticator_ok f.basic_auth ≡ true
      → h.basic_auth ≡ some f.basic_auth
  pub unauthenticated : lib.authenticator_ok f.basic_auth ≡ false → h.basic_auth ≡ none
  pub retries : h.retries ≡ retries_of g.retry b.servers

and_then-eq-some :
    {S A B : Type 0} (f : A → S → Flow S B) (x : Flow S A) (b : B)
    → (and_then f x).1 ≡ some b
    → (a : A) × (x.1 ≡ some a) × ((f a x.0).1 ≡ some b)
and_then-eq-some f (s, none) b h = cc
and_then-eq-some f (s, some a) b h = (a, refl, h)

module _ (lib : Libraries) (g : Global) where
  auth_of-given :
      (users : List Text)
      → users ≢ []
      → lib.authenticator_ok users ≡ true
      → auth_of lib g users ≡ some users
  unfolding auth_of is_empty
  auth_of-given [] ne ok = absurd (ne refl)
  auth_of-given (u ∷ us) ne ok = rw ok

  auth_of-refused :
      (users : List Text) → lib.authenticator_ok users ≡ false → auth_of lib g users ≡ none
  unfolding auth_of is_empty
  auth_of-refused [] refused = refl
  auth_of-refused (u ∷ us) refused = rw refused

  limit_of-given :
      (o limit : Option MaxConn) (c : MaxConn)
      → limit_of lib g o ≡ some limit
      → o ≡ some c
      → c.amount ≢ 0
      → limit ≡ some c
  unfolding limit_of
  limit_of-given none limit c e o h = cc
  limit_of-given (some d) limit c e o h = ground arith

  breaker_of-same : (o breaker : Option Text) → breaker_of lib g o ≡ some breaker → breaker ≡ o
  unfolding breaker_of
  breaker_of-same none breaker e = cc
  breaker_of-same (some x) breaker e = ground arith

module _ {Route : Type 0} (lib : Libraries) (g : Global) where
  add_servers-eq-some :
      (check : Loading Route → Loading Route) (name : Text) (servers : Dict BackendServer)
      (added out : List (Text × ℕ)) (s : Loading Route)
      → (add_servers lib g check name servers added s).1 ≡ some out
      → (more : List (Text × ℕ)) × (parse_servers lib.parse_url servers ≡ some more)
        × (out ≡ added ++ more)
  unfolding add_servers parse_servers
  add_servers-eq-some check name [] added out s h = ([], refl, cc (append-nil added, h))
  add_servers-eq-some check name ((n, server) ∷ servers) added out s h =
      elim (Option-cases (lib.parse_url server.url)) [
        | inl e ↦ cc (rw (e, add_servers) at h)
        | inr (url, e) ↦ elim (Bool-cases (lib.upsert_ok added url server.weight)) [
          | inr u ↦ cc (rw (e, u, add_servers) at h)
          | inl u ↦
              let (more, p, q) =
                add_servers-eq-some check name servers (added ++ (url, server.weight) ∷ []) out _
                  (rw (e, u, add_servers) at h) in
              (
                (url, server.weight) ∷ more,
                rw (e, p, parse_servers),
                q ∙ append_assoc added ((url, server.weight) ∷ []) more,
              )
        ]
      ]

  balance-eq-some :
      (method : LoadBalancerMethod) (name backend : Text) (b : Backend) (s : Loading Route)
      (out : List (Text × ℕ))
      → (balance lib g method name backend b s).1 ≡ some out
      → parse_servers lib.parse_url b.servers ≡ some out
  unfolding balance
  balance-eq-some drr name backend b s out h =
      let (more, p, q) = add_servers-eq-some _ name b.servers [] out _ h in cc (p, q)
  balance-eq-some wrr name backend b s out h =
      let (servers, e, d) =
        and_then-eq-some
          (λ servers t. (set_health backend (health_of lib g s.created b) t, some servers)) _ out
          h in
      let (more, p, q) = add_servers-eq-some (λ t. t) name b.servers [] servers _ e in cc (p, q, d)

  finish_backend-IsMadeOf :
      (lb : ℕ) (f : Frontend) (r : Option Rewrite) (method : LoadBalancerMethod) (b : Backend)
      (servers : List (Text × ℕ)) (s : Loading Route) (h : BackendHandler)
      → new_load_balancer_method b.load_balancer ≡ some method
      → parse_servers lib.parse_url b.servers ≡ some servers
      → (finish_backend lib g lb f r method b servers s).1 ≡ some h
      → IsMadeOf lib g f b h
  unfolding finish_backend
  finish_backend-IsMadeOf lb f r method b servers s h m p e =
      elim (Option-cases (limit_of lib g b.max_conn)) [
        | inl l ↦ cc (rw (l, finish_backend) at e)
        | inr (limit, l) ↦ elim (Option-cases (breaker_of lib g b.circuit_breaker)) [
          | inl k ↦ cc (rw (l, k, finish_backend) at e)
          | inr (breaker, k) ↦
              let made : ◌≡◌ {A = Option BackendHandler}
                  (some (record {
                    balancer = lb;
                    pass_host_header = f.pass_host_header;
                    redirect = r;
                    method = method;
                    sticky = sticky_of b.load_balancer;
                    servers = servers;
                    max_conn = limit;
                    retries = retries_of g.retry b.servers;
                    prometheus = g.prometheus;
                    basic_auth = auth_of lib g f.basic_auth;
                    circuit_breaker = breaker;
                  }))
                  (some h) =
                rw (l, k, finish_backend) at e in
              record {
                method = ground (arith, made);
                sticky = ground (arith, made);
                servers = ground (arith, made);
                limited = λ c o z. cc (made, limit_of-given lib g b.max_conn limit c l o z);
                breaking = cc (made, breaker_of-same lib g b.circuit_breaker breaker k);
                pass_host_header = cc (made);
                authenticates = λ ne ok. cc (made, auth_of-given lib g f.basic_auth ne ok);
                unauthenticated = λ refused. cc (made, auth_of-refused lib g f.basic_auth refused);
                retries = cc (made);
              }
        ]
      ]

  build_backend-IsMadeOf :
      (name : Text) (f : Frontend) (r : Option Rewrite) (o : Option Backend) (s : Loading Route)
      (h : BackendHandler)
      → (build_backend lib g name f r o s).1 ≡ some h
      → (b : Backend) × (o ≡ some b) × IsMadeOf lib g f b h
  unfolding build_backend
  build_backend-IsMadeOf name f r none s h e = cc
  build_backend-IsMadeOf name f r (some b) s h e =
      elim (Option-cases (new_load_balancer_method b.load_balancer)) [
        | inl k ↦ cc (rw (k, build_backend) at e)
        | inr (method, k) ↦
            let (servers, p, q) =
              and_then-eq-some (finish_backend lib g s.created f r method b)
                (balance lib g method name f.backend b s) h (rw (k, build_backend) at e) in
            (
              b,
              refl,
              finish_backend-IsMadeOf s.created f r method b servers _ h k
                  (balance-eq-some method name f.backend b s servers p) q,
            )
      ]

  -- The handler that is found was there, or is made of the backend of that name.
  pub find_handler-IsMadeOf :
      (ep name : Text) (f : Frontend) (backends : Dict Backend) (r : Option Rewrite)
      (s : Loading Route) (h : BackendHandler)
      → (find_handler lib g ep name f backends r s).1 ≡ some h
      → (lookup (ep ++ f.backend) s.backends ≡ some h)
        ⊎ ((b : Backend) × (lookup f.backend backends ≡ some b) × IsMadeOf lib g f b h)
  unfolding find_handler store_handler
  find_handler-IsMadeOf ep name f backends r s h e =
      elim (Option-cases (lookup (ep ++ f.backend) s.backends)) [
        | inr (k, p) ↦ inl (cc (p, rw (p, find_handler) at e))
        | inl p ↦
            let (k, q, same) =
              and_then-eq-some (store_handler (ep ++ f.backend))
                (build_backend lib g name f r (lookup f.backend backends) s) h
                (rw (p, find_handler) at e) in
            inr (build_backend-IsMadeOf name f r (lookup f.backend backends) s h (cc (q, same)))
      ]
