-- ===== src/Middlewares/Chain.antt =====
-- server/server.go, wireFrontendBackend: the path modifiers of a route, in the order in which they
-- wrap the backend's handler.
use traefik_release.Base.{Option, List, [], ◌∷◌, Text}
use traefik_release.Rules.Route.{ServerRoute}
use traefik_release.Middlewares.Paths.{
  Url, Request, Handler, strip_prefix, strip_prefix_regex, add_prefix, replace_path,
}

-- `if len(x) > 0 { handler = wrapper(handler) }`
unfoldable pub wrap_if {ℓ} :
    {A : Type ℓ} → List A → (List A → Handler → Handler) → Handler → Handler
wrap_if [] wrapper handler = handler
wrap_if (x ∷ xs) wrapper handler = wrapper (x ∷ xs) handler

module _ (uri : Url → Text) (match : List Text → Request → Option (Option Text)) {Route : Type 0}
    (route : ServerRoute Route) where
  -- The handler that the route gets.
  unfoldable pub wire_frontend_backend : Handler → Handler
  wire_frontend_backend handler =
      let replaced = wrap_if route.replace_path (replace_path uri) handler in
      let added = wrap_if route.add_prefix (add_prefix uri) replaced in
      let stripped = wrap_if route.strip_prefixes (strip_prefix uri) added in
      wrap_if route.strip_prefixes_regex (strip_prefix_regex uri match) stripped
