-- ===== src/Rules/Route.antt =====
-- server/rules.go: the rule functions, which configure a mux route, and Parse; getRoute of
-- server/server.go. The router library is the parameter `Mux`.
use traefik_release.Base.{
  ℕ, ◌+◌, Bool, true, false, Option, none, some, List, [], ◌∷◌, ◌++◌, map, ltb, if◌then◌else◌,
  length, any, Text, txt, eqt, trim_space, to_lower,
}
use traefik_release.Rules.Syntax.{
  RuleFunction, host, host_regexp, path, path_strip, path_strip_regex, path_prefix,
  path_prefix_strip, path_prefix_strip_regex, methods, headers, headers_regexp, add_prefix,
  replace_path, ParseError, Outcome, parse_rules,
}
use traefik_release.Rules.HostPort.{split_host_port}

-- CanonicalDomain of types/types.go
unfoldable pub canonical_domain : Text → Text
canonical_domain domain = to_lower (trim_space domain)

-- A route of a subrouter: router.Host(t), router.Path(t) or router.PathPrefix(t).
pub data Template : Type 0 where
  host_template path_template prefix_template : Text → Template

-- The calls of the router library. Each configures the route in place, and is a function on it.
pub record Mux : Type 1 where
  pub Route : Type 0
  pub matcher_func : (Text → Bool) → Route → Route
  pub subrouter : List Template → Route → Route
  pub methods : List Text → Route → Route
  pub headers : List Text → Route → Route
  pub headers_regexp : List Text → Route → Route
  pub get_error : Route → Option Text
  pub get_priority : Route → ℕ
  pub priority : ℕ → Route → Route

-- serverRoute
pub record ServerRoute (Route : Type 0) : Type 0 where
  pub route : Route
  pub strip_prefixes : List Text
  pub strip_prefixes_regex : List Text
  pub add_prefix : Text
  pub replace_path : Text

-- The host of the request, without its port if it has one.
unfoldable pub request_host : Text → Text
request_host h = elim (split_host_port h) [ some (name, _) ↦ name | none ↦ h ]

-- The matcher of `Host`.
unfoldable pub host_matches : List Text → Text → Bool
host_matches hosts h =
    any (λ name. eqt (canonical_domain (request_host h)) (canonical_domain name)) hosts

-- sort.Sort(bySize(paths)): longest first. The package's sort does not promise an order among texts
-- of one length; this one keeps theirs.
unfoldable pub insert_by_size : Text → List Text → List Text
insert_by_size s [] = s ∷ []
insert_by_size s (t ∷ ts) =
    if ltb (length s) (length t) then t ∷ insert_by_size s ts else s ∷ t ∷ ts

unfoldable pub sort_by_size : List Text → List Text
sort_by_size [] = []
sort_by_size (s ∷ ts) = insert_by_size s (sort_by_size ts)

-- The value that `for _, p := range paths { x = p }` leaves in x.
unfoldable pub last_of : Text → List Text → Text
last_of x [] = x
last_of x (p ∷ ps) = last_of p ps

abbrev pub path_templates : List Text → List Template
path_templates paths = map (λ p. path_template (trim_space p)) paths

abbrev pub prefix_templates : List Text → List Template
prefix_templates paths = map (λ p. prefix_template (trim_space p)) paths

-- What Parse and getRoute can answer. `nil_route` is a panic: a nil route is used.
pub data RouteError : Type 0 where
  parsing : ParseError Text → RouteError
  nil_route : RouteError

module _ (m : Mux) where
  open m use {Route}

  abbrev on_route : (Route → Route) → ServerRoute Route → ServerRoute Route
  on_route f r = record r { route = f r.route }

  -- The rule functions.
  unfoldable pub apply : RuleFunction → List Text → ServerRoute Route → ServerRoute Route
  apply host args r = on_route (m.matcher_func (host_matches args)) r
  apply host_regexp args r =
      on_route (m.subrouter (map (λ h. host_template (canonical_domain h)) args)) r
  apply path args r = on_route (m.subrouter (path_templates args)) r
  apply path_prefix args r = on_route (m.subrouter (prefix_templates args)) r
  apply path_strip args r =
      let sorted = sort_by_size args in
      on_route (m.subrouter (path_templates sorted)) (record r { strip_prefixes = sorted })
  apply path_strip_regex args r =
      let sorted = sort_by_size args in
      on_route (m.subrouter (path_templates sorted)) (record r { strip_prefixes_regex = sorted })
  apply path_prefix_strip args r =
      let sorted = sort_by_size args in
      on_route (m.subrouter (prefix_templates sorted)) (record r { strip_prefixes = sorted })
  apply path_prefix_strip_regex args r =
      let sorted = sort_by_size args in
      on_route (m.subrouter (prefix_templates sorted)) (record r { strip_prefixes_regex = sorted })
  apply methods args r = on_route (m.methods args) r
  apply headers args r = on_route (m.headers args) r
  apply headers_regexp args r = on_route (m.headers_regexp args) r
  apply add_prefix args r = record r { add_prefix = last_of r.add_prefix args }
  apply replace_path args r = record r { replace_path = last_of r.replace_path args }

  -- The state of Parse: the server's route, and whether `resultRoute` has been set. Each rule
  -- function returns the route that it has configured.
  abbrev pub ParseState : Type 0
  ParseState = ServerRoute Route × Bool

  unfoldable pub parse_callback :
      Text → RuleFunction → List Text → ParseState → ParseState × Option Text
  parse_callback name function args (r, _) =
      let r' = apply function args r in ((r', true), m.get_error r'.route)

  -- Parse: the server's route, and an error, a route, or nil where no rule was met.
  unfoldable pub parse : Text → ServerRoute Route → Outcome ParseState Text
  parse expression r = parse_rules parse_callback expression (r, false)

  unfoldable pub finish_route : ℕ → Outcome ParseState Text → ServerRoute Route × Option RouteError
  finish_route size ((r, _), some e) = (r, some (parsing e))
  finish_route size ((r, false), none) = (r, some nil_route)
  finish_route size ((r, true), none) =
      (record r { route = m.priority (m.get_priority r.route + size) r.route }, none)

  -- getRoute(serverRoute, route)
  unfoldable pub get_route : Text → ServerRoute Route → ServerRoute Route × Option RouteError
  get_route rule r = finish_route (length rule) (parse rule r)

-- The closure of ParseDomains.
unfoldable pub domains_callback :
    Text → RuleFunction → List Text → List Text → List Text × Option (⊥)
domains_callback name function args domains =
    (if eqt name (txt "Host") then domains ++ args else domains, none)

unfoldable pub finish_domains : Outcome (List Text) ⊥ → Outcome (List Text) ⊥
finish_domains (domains, some e) = ([], some e)
finish_domains (domains, none) = (map canonical_domain domains, none)

-- ParseDomains: the canonical domains, or no domains and an error.
unfoldable pub parse_domains : Text → Outcome (List Text) ⊥
parse_domains expression = finish_domains (parse_rules domains_callback expression [])
