-- ===== src/Middlewares/Paths.antt =====
-- middlewares/stripPrefix.go, stripPrefixRegex.go, addPrefix.go, replace_path.go. A handler takes a
-- request to what is served; url.RequestURI and the router of StripPrefixRegex are parameters.
use traefik_release.Base.{
  Option, none, some, List, [], ◌∷◌, ◌++◌, ltb, if◌then◌else◌, length, drop, Text, txt, eqt,
  trim_space, trim_prefix, trim_suffix, Dict, lookup, insert,
}

pub record Url : Type 0 where
  pub path : Text
  pub query : Text

pub record Request : Type 0 where
  pub method : Text
  pub host : Text
  pub url : Url
  pub header : Dict (List Text)
  pub request_uri : Text

-- What a client gets: http.NotFound, nothing (the handler returned without a word), or the answer
-- of the handler that was given this request.
pub data Served : Type 0 where
  not_found nothing : Served
  forwarded : Request → Served

abbrev pub Handler : Type 0
Handler = Request → Served

abbrev pub forwarded_prefix_header : Text
forwarded_prefix_header = txt "X-Forwarded-Prefix"

abbrev pub replaced_path_header : Text
replaced_path_header = txt "X-Replaced-Path"

abbrev pub slash : Text
slash = b'/' ∷ []

-- http.Header.Add
unfoldable pub header_add : Text → Text → Dict (List Text) → Dict (List Text)
header_add k v h = elim (lookup k h) [
  | some vs ↦ insert k (vs ++ v ∷ []) h
  | none ↦ insert k (v ∷ []) h
]

-- One round of the loop of StripPrefix: the trimmed prefix and the new path, if it is a prefix.
unfoldable pub strip_one : Text → Text → Option (Text × Text)
strip_one prefix path =
    let orig = trim_space prefix in
    let p = trim_prefix path (trim_suffix orig slash ++ slash) in
    if eqt orig path
    then some (orig, slash)
    else if ltb (length p) (length path)
    then some (orig, slash ++ trim_prefix p slash)
    else none

unfoldable pub strip_path : List Text → Text → Option (Text × Text)
strip_path [] path = none
strip_path (prefix ∷ prefixes) path =
    let later = strip_path prefixes path in
    elim (strip_one prefix path) [ some found ↦ some found | none ↦ later ]

module _ (uri : Url → Text) where
  -- The request with another path and the matching request URI.
  unfoldable pub set_path : Text → Request → Request
  set_path path r =
      let u = record r.url { path = path } in record r { url = u; request_uri = uri u }

  -- serveRequest of StripPrefix
  unfoldable pub serve_request : Handler → Request → Text → Text → Served
  serve_request handler r prefix path =
      handler (
        set_path path (record r { header = insert forwarded_prefix_header (prefix ∷ []) r.header }))

  unfoldable pub strip_prefix : List Text → Handler → Handler
  strip_prefix prefixes handler r = elim (strip_path prefixes r.url.path) [
    | some (prefix, path) ↦ serve_request handler r prefix path
    | none ↦ not_found
  ]

  -- `match` is router.Match and match.Route.URL: no match, an error of URL, or the prefix's path.
  unfoldable pub strip_prefix_regex :
      (List Text → Request → Option (Option Text)) → List Text → Handler → Handler
  strip_prefix_regex match prefixes handler r = elim (match prefixes r) [
    | none ↦ not_found
    | some none ↦ nothing
    | some (some prefix) ↦
        if ltb (length r.url.path) (length prefix)
        then nothing
        else serve_request handler r prefix (drop (length prefix) r.url.path)
  ]

  unfoldable pub add_prefix : Text → Handler → Handler
  add_prefix prefix handler r = handler (set_path (prefix ++ r.url.path) r)

  unfoldable pub replace_path : Text → Handler → Handler
  replace_path path handler r =
      handler
        (set_path path (record r { header = header_add replaced_path_header r.url.path r.header }))
