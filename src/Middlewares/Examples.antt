-- ===== src/Middlewares/Examples.antt =====
-- The middlewares on concrete inputs.
use traefik_release.Base.{
  ℕ, ◌+◌, ◌*◌, ◌≤◌, ◌<◌, ◌≡◌, refl, ◌⊎◌, Option, none, some, List, [], ◌∷◌, ◌++◌, arith, ltb,
  if◌then◌else◌, length, take, All, Text, txt, eqt, trim_space, trim_prefix, trim_suffix, lookup,
  insert,
}
use mathlib.Core.List.{Memᴰ}
use traefik_release.Rules.Route.{ServerRoute}
use traefik_release.Middlewares.Paths.{
  Url, Request, not_found, forwarded, forwarded_prefix_header, header_add, strip_one, strip_path,
  set_path, serve_request, strip_prefix, strip_prefix_regex, add_prefix, replace_path,
}
use traefik_release.Middlewares.Stripping.{Covers, strip_path_longest}
use traefik_release.Middlewares.Chain.{wrap_if, wire_frontend_backend}
use traefik_release.Middlewares.Wiring.{Keeps, wire-Keeps, wire-replaced, wire-strip_add}
use traefik_release.Middlewares.Retry.{
  new_recorder, write_header, is_network_error, World, retry_loop, retry,
}
use traefik_release.Middlewares.Attempts.{Ended, retry-Ended}
use traefik_release.Middlewares.Stats.{Served as Handled, new_stats_recorder, serve_all, stats_data}
use traefik_release.Middlewares.History.{errors_of, stats_data-serve_all}

middlewares : Unit {0}
unfolding header_add strip_one strip_path set_path serve_request strip_prefix strip_prefix_regex
    add_prefix replace_path wrap_if wire_frontend_backend trim_space trim_prefix trim_suffix eqt
    lookup insert
middlewares = tt

abbrev prefixes : List Text
prefixes = txt "/api/v1" ∷ txt "/api" ∷ []

strips : strip_path prefixes (txt "/api/v1/users") ≡ some (txt "/api/v1", txt "/users")
unfolding middlewares
strips = refl

prefixes_trimmed : All (λ p. trim_space p ≡ p) prefixes
unfolding trim_space
prefixes_trimmed = (refl, (refl, tt))

strip_path_longest_example :
    Covers (txt "/api/v1") (txt "/api/v1/users")
    × ((p : Text)
        → Memᴰ p prefixes
        → Covers p (txt "/api/v1/users")
        → length p ≤ length (txt "/api/v1"))
strip_path_longest_example =
    strip_path_longest prefixes (txt "/api/v1/users") (txt "/api/v1") (txt "/users")
      prefixes_trimmed (ground arith) strips

abbrev uri_of : Url → Text
uri_of u = u.path

abbrev no_match : List Text → Request → Option (Option Text)
no_match ps r = none

abbrev route : ServerRoute Unit
route = record {
  route = tt;
  strip_prefixes = prefixes;
  strip_prefixes_regex = [];
  add_prefix = txt "/new";
  replace_path = [];
}

abbrev replacing : ServerRoute Unit
replacing = record route { replace_path = txt "/fixed" }

abbrev request : Request
request = record {
  method = txt "GET";
  host = txt "h";
  url = record { path = txt "/api/users"; query = [] };
  header = [];
  request_uri = txt "/api/users";
}

abbrev reached : Request
reached = record request {
  url = record { path = txt "/new/users"; query = [] };
  header = (forwarded_prefix_header, txt "/api" ∷ []) ∷ [];
  request_uri = txt "/new/users";
}

reaches : wire_frontend_backend uri_of no_match route forwarded request ≡ forwarded reached
unfolding middlewares
reaches = refl

wire-Keeps_example : Keeps request reached
wire-Keeps_example = wire-Keeps uri_of no_match route request reached reaches

abbrev fixed : Request
fixed = record request {
  url = record { path = txt "/fixed"; query = [] };
  header =
      (forwarded_prefix_header, txt "/api" ∷ [])
      ∷ (txt "X-Replaced-Path", txt "/new/users" ∷ [])
      ∷ [];
  request_uri = txt "/fixed";
}

replaces : wire_frontend_backend uri_of no_match replacing forwarded request ≡ forwarded fixed
unfolding middlewares
replaces = refl

wire-replaced_example : (fixed.url.path ≡ txt "/fixed") × (fixed.request_uri ≡ uri_of fixed.url)
wire-replaced_example = wire-replaced uri_of no_match replacing request fixed (λ e. cc) replaces

wire-strip_add_example :
    ((strip_path prefixes (txt "/api/users") ≡ none)
      × (wire_frontend_backend uri_of no_match route forwarded request ≡ not_found))
    ⊎ ((prefix out : Text) × (b : Request) × (strip_path prefixes (txt "/api/users")
          ≡ some (prefix, out))
        × (wire_frontend_backend uri_of no_match route forwarded request ≡ forwarded b)
        × (b.url.path ≡ txt "/new" ++ out)
        × (lookup forwarded_prefix_header b.header ≡ some (prefix ∷ [])))
wire-strip_add_example = wire-strip_add uri_of no_match route request (λ e. cc) refl refl

-- A backend that answers 502 until it has been asked twice.
abbrev flaky : World ℕ
flaky = record {
  next = λ rw n. (n + 1, write_header (if ltb n 2 then 502 else 200) rw);
  keep_body = λ n. n;
  close_body = λ n. n;
  deliver = λ rw n. n * 1000 + rw.code;
}

retries :
    (retry flaky 2 0 ≡ some 2502) × (retry flaky 5 0 ≡ some 3200) × (retry flaky 1 0 ≡ some 1502)
unfolding retry retry_loop is_network_error new_recorder write_header
retries = (refl, refl, refl)

retry-Ended_example :
    ((5 ≤ 1) × ((out : ℕ) × (retry flaky 5 0 ≡ some out) × Ended flaky 5 0 0 out))
    ⊎ ((1 < 5) × ((out : ℕ) × (retry flaky 5 0 ≡ some out) × Ended flaky 5 0 0 out))
retry-Ended_example = retry-Ended flaky 5 0

abbrev handled : List ℕ → Handled
handled codes = record {
  method = txt "GET";
  host = txt "h";
  path = txt "/";
  codes = codes;
  time = 7;
}

abbrev history : List Handled
history = handled (500 ∷ []) ∷ handled [] ∷ handled (200 ∷ 404 ∷ []) ∷ handled (403 ∷ []) ∷ []

stats_data-serve_all_example :
    stats_data (serve_all history (new_stats_recorder 2)) ≡ take 2 (errors_of history [])
stats_data-serve_all_example = stats_data-serve_all 2 history
