-- ===== src/Server/Backends.antt =====
-- server/server.go, loadConfig: how the handler of a backend is made or found. Libraries are
-- parameters.
use traefik_release.Base.{
  ℕ, ◌+◌, true, false, Option, none, some, List, [], ◌∷◌, ◌++◌, ltb, ◌==◌, if◌then◌else◌, length,
  Text, is_empty, Dict, lookup, insert,
}
use traefik_release.Server.Config.{
  LoadBalancerMethod, MaxConn, BackendServer, Backend, Frontend, wrr, drr, new_load_balancer_method,
  sticky_of,
}
use traefik_release.Server.Entries.{Redirect, Global}
use traefik_release.Server.Redirects.{
  Rewrite, Redirected, unknown_entry_point, bad_address, bad_rewrite, redirect_to,
  load_entry_point_config,
}
use traefik_release.Server.Loading.{
  Libraries, BackendHandler, HealthOptions, Loading, parse_health_check_options,
}

-- The state after a step and its result; `none` is `continue frontend`.
abbrev pub Flow : Type 0 → Type 0 → Type 0
Flow S A = S × Option A

module _ {S A B : Type 0} where
  abbrev pub and_then : (A → S → Flow S B) → Flow S A → Flow S B
  and_then f (s, none) = (s, none)
  and_then f (s, some a) = f a s

unfoldable pub retries_of : Option ℕ → Dict BackendServer → Option ℕ
retries_of none servers = none
retries_of (some n) servers = some (if ltb 0 n then n else length servers)

module _ {Route : Type 0} where
  unfoldable pub set_health : Text → Option HealthOptions → Loading Route → Loading Route
  set_health backend none s = s
  set_health backend (some o) s = record s { health = insert backend o s.health }

  unfoldable pub store_handler :
      Text → BackendHandler → Loading Route → Flow (Loading Route) BackendHandler
  store_handler key h s = (record s { backends = insert key h s.backends }, some h)

  -- The redirection that an entry point gets from now on, if it could be made.
  unfoldable pub finish_redirect :
      Text → Redirected → Loading Route → Flow (Loading Route) (Option Rewrite)
  finish_redirect ep (redirect_to w) s =
      (record s { redirects = insert ep w s.redirects }, some (some w))
  finish_redirect ep (unknown_entry_point _) s = (s, none)
  finish_redirect ep (bad_address _) s = (s, none)
  finish_redirect ep (bad_rewrite _) s = (s, none)

module _ (lib : Libraries) (g : Global) where
  abbrev pub health_of : ℕ → Backend → Option HealthOptions
  health_of lb b = parse_health_check_options lib.parse_duration lb b.health_check g.health_check

  -- The limit of connections; no result is a limit that the library refuses.
  unfoldable pub limit_of : Option MaxConn → Option (Option MaxConn)
  limit_of none = some none
  limit_of (some c) =
      if c.amount == 0 then some none else if lib.limiter_ok c then some (some c) else none

  -- Basic authentication; if it cannot be made the handler goes without.
  unfoldable pub auth_of : List Text → Option (List Text)
  auth_of users =
      if is_empty users then none else if lib.authenticator_ok users then some users else none

  unfoldable pub breaker_of : Option Text → Option (Option Text)
  breaker_of none = some none
  breaker_of (some e) = if lib.breaker_ok e then some (some e) else none

module _ {Route : Type 0} (lib : Libraries) (g : Global) where
  -- The redirection of the entry point: an earlier one, a new one, or none.
  unfoldable pub find_redirect :
      Text → Option Redirect → Loading Route → Flow (Loading Route) (Option Rewrite)
  find_redirect ep none s = (s, some none)
  find_redirect ep (some r) s = elim (lookup ep s.redirects) [
    | some w ↦ (s, some (some w))
    | none ↦ finish_redirect ep (load_entry_point_config lib.rewrite_ok g.entry_points r) s
  ]

  -- The loop over the servers of a backend; `check` is done behind each of them, and `added` are
  -- the servers that the load balancer has.
  unfoldable pub add_servers :
      (Loading Route → Loading Route)
      → Text
      → Dict BackendServer
      → List (Text × ℕ)
      → Loading Route
      → Flow (Loading Route) (List (Text × ℕ))
  add_servers check name [] added s = (s, some added)
  add_servers check name ((_, server) ∷ servers) added s = elim (lib.parse_url server.url) [
    | none ↦ (s, none)
    | some url ↦
        let s' = record s { backend_to_frontend = insert url name s.backend_to_frontend } in
        elim (lib.upsert_ok added url server.weight) [
          | false ↦ (s', none)
          | true ↦ add_servers check name servers (added ++ (url, server.weight) ∷ []) (check s')
        ]
  ]

  -- The load balancer of a method with its servers. Drr sets up the health check behind each
  -- server, Wrr behind all of them.
  unfoldable pub balance :
      LoadBalancerMethod
      → Text
      → Text
      → Backend
      → Loading Route
      → Flow (Loading Route) (List (Text × ℕ))
  balance drr name backend b s =
      let lb = s.created in
      add_servers (set_health backend (health_of lib g lb b)) name b.servers []
        (record s { created = lb + 1 })
  balance wrr name backend b s =
      let lb = s.created in
      and_then (λ servers t. (set_health backend (health_of lib g lb b) t, some servers))
        (add_servers (λ t. t) name b.servers [] (record s { created = lb + 1 }))

  -- What follows the load balancer: connlimit, retry, metrics, authentication, circuit breaker.
  unfoldable pub finish_backend :
      ℕ
      → Frontend
      → Option Rewrite
      → LoadBalancerMethod
      → Backend
      → List (Text × ℕ)
      → Loading Route
      → Flow (Loading Route) BackendHandler
  finish_backend lb f redirect method b servers s = elim (limit_of lib g b.max_conn) [
    | none ↦ (s, none)
    | some limit ↦ elim (breaker_of lib g b.circuit_breaker) [
      | none ↦ (s, none)
      | some breaker ↦ (
        s,
        some (record {
          balancer = lb;
          pass_host_header = f.pass_host_header;
          redirect = redirect;
          method = method;
          sticky = sticky_of b.load_balancer;
          servers = servers;
          max_conn = limit;
          retries = retries_of g.retry b.servers;
          prometheus = g.prometheus;
          basic_auth = auth_of lib g f.basic_auth;
          circuit_breaker = breaker;
        }),
      )
    ]
  ]

  unfoldable pub build_backend :
      Text
      → Frontend
      → Option Rewrite
      → Option Backend
      → Loading Route
      → Flow (Loading Route) BackendHandler
  build_backend name f redirect none s = (s, none)
  build_backend name f redirect (some b) s = elim (new_load_balancer_method b.load_balancer) [
    | none ↦ (s, none)
    | some method ↦
        and_then (finish_backend s.created f redirect method b) (balance method name f.backend b s)
  ]

  -- `backends[entryPointName+frontend.Backend]`, which is made if it is not there.
  unfoldable pub find_handler :
      Text
      → Text
      → Frontend
      → Dict Backend
      → Option Rewrite
      → Loading Route
      → Flow (Loading Route) BackendHandler
  find_handler ep name f backends redirect s = elim (lookup (ep ++ f.backend) s.backends) [
    | some h ↦ (s, some h)
    | none ↦
        and_then (store_handler (ep ++ f.backend))
          (build_backend name f redirect (lookup f.backend backends) s)
  ]
