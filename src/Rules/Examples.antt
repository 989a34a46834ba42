-- ===== src/Rules/Examples.antt =====
-- Rule expressions on concrete inputs (server/rules.go).
use traefik_release.Base.{
  ◌≡◌, refl, ◌≢◌, ◌↔◌, true, false, none, some, List, [], ◌∷◌, ◌++◌, arith, length, any, All, txt,
  eqt, is_empty, trim_space, to_lower, join, cut, lookup, fields_func,
}
use traefik_release.Rules.Syntax.{
  host, path_prefix, functions, is_semicolon, parse_args, wrap, call_rule, parse_pieces, parse_rule,
  parse_next, parse_each, parse_rules,
}
use traefik_release.Rules.Route.{
  Mux, ServerRoute, nil_route, Template, canonical_domain, request_host, host_matches, sort_by_size,
  insert_by_size, parse, apply, parse_callback, finish_route, get_route, domains_callback,
  finish_domains, parse_domains,
}
use traefik_release.Rules.HostPort.{
  split_host_port, split_plain, split_bracketed, cut_last_colon, has,
}
use traefik_release.Rules.RoundTrip.{Rule, IsPrintable, print_rules, run_rules, parse_rules-print}
use traefik_release.Rules.Failures.{get_route-eq-nil_route_iff}

rules : Unit {0}
unfolding functions parse_args wrap call_rule parse_pieces parse_rule parse_next parse_each
    parse_rules canonical_domain request_host host_matches sort_by_size insert_by_size parse apply
    parse_callback finish_route get_route domains_callback finish_domains parse_domains
    split_host_port split_plain split_bracketed cut_last_colon has lookup any cut is_empty
    fields_func join trim_space to_lower eqt
rules = tt

-- A router library in which a route is the list of its matchers' templates.
abbrev tiny : Mux
tiny = record {
  Route = List Template;
  matcher_func = λ p r. r;
  subrouter = λ ts r. r ++ ts;
  methods = λ ms r. r;
  headers = λ hs r. r;
  headers_regexp = λ hs r. r;
  get_error = λ r. none;
  get_priority = λ r. length r;
  priority = λ n r. r;
}

abbrev bare : ServerRoute (List Template)
bare = record {
  route = [];
  strip_prefixes = [];
  strip_prefixes_regex = [];
  add_prefix = [];
  replace_path = [];
}

abbrev two_rules : List Rule
two_rules =
    record { function = host; args = txt "A.com" ∷ txt "b.com" ∷ [] }
    ∷ record { function = path_prefix; args = txt "/x" ∷ [] }
    ∷ []

two_rules-IsPrintable : All IsPrintable two_rules
unfolding join trim_space
two_rules-IsPrintable = (
  record {
    given = λ e. cc;
    fields = ground arith;
    trimmed = (refl, (refl, tt));
    no_semicolon = ground arith;
    pieces = txt "A.com,b.com" ∷ [];
    pieces_given = λ e. cc;
    pieces_plain = ground arith;
    pieces_join = refl;
  },
  (
    record {
      given = λ e. cc;
      fields = ground arith;
      trimmed = (refl, tt);
      no_semicolon = ground arith;
      pieces = txt "/x" ∷ [];
      pieces_given = λ e. cc;
      pieces_plain = ground arith;
      pieces_join = refl;
    },
    tt,
  ),
)

two_rules_given : two_rules ≢ []
two_rules_given e = cc

printed : print_rules two_rules ≡ txt "Host:A.com,b.com;PathPrefix:/x"
unfolding join
printed = refl

parsed :
    parse_domains (txt "Host: A.com ,b.com;PathPrefix:/x") ≡ (txt "a.com" ∷ txt "b.com" ∷ [], none)
unfolding rules
parsed = refl

hosts :
    (host_matches (txt "a.com" ∷ []) (txt "A.com:80") ≡ true)
    × (host_matches (txt "a.com" ∷ []) (txt "b.com") ≡ false)
    × (split_host_port (txt "[::1]:80") ≡ some (txt "::1", txt "80"))
    × (split_host_port (txt "::1") ≡ none)
unfolding rules
hosts = (refl, refl, refl, refl)

parse_rules-print_example :
    parse_rules domains_callback (print_rules two_rules) []
    ≡ run_rules domains_callback two_rules []
parse_rules-print_example =
    parse_rules-print domains_callback two_rules [] two_rules_given two_rules-IsPrintable

accepted : (parse tiny (txt "Host:a.com") bare).1 ≡ none
unfolding rules
accepted = refl

get_route-eq-nil_route_iff_example :
    ((get_route tiny (txt ";;") bare).1 ≡ some nil_route)
    ↔ ((txt ";;" ≢ []) × All (λ c. is_semicolon c ≡ true) (txt ";;"))
get_route-eq-nil_route_iff_example = get_route-eq-nil_route_iff tiny (txt ";;") bare

panics : (get_route tiny (txt ";;") bare).1 ≡ some nil_route
panics = get_route-eq-nil_route_iff_example.1 ((λ e. cc), (refl, (refl, tt)))
