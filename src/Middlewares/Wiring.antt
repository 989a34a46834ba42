-- ===== src/Middlewares/Wiring.antt =====
-- What the wired path modifiers (server/server.go, wireFrontendBackend) do to a request.
use traefik_release.Base.{
  ◌≡◌, refl, ap, ◌∙◌, ◌≢◌, ◌⊎◌, inl, inr, Option, none, some, List, [], ◌∷◌, ◌++◌, arith, ltb,
  Bool-cases, Option-cases, length, Text, lookup, insert, lookup-insert_self,
}
use traefik_release.Rules.Route.{ServerRoute}
use traefik_release.Middlewares.Paths.{
  Url, Request, not_found, forwarded, Handler, forwarded_prefix_header, strip_path, set_path,
  serve_request, strip_prefix, strip_prefix_regex, add_prefix, replace_path,
}
use traefik_release.Middlewares.Chain.{wrap_if, wire_frontend_backend}

-- What a handler further in sees of the request.
pub record Keeps (a b : Request) : Type 0 where
  pub method : b.method ≡ a.method
  pub host : b.host ≡ a.host
  pub query : b.url.query ≡ a.url.query

-- A handler passes on requests that `P` relates to its own.
Passes : (Request → Request → Type 0) → Handler → Type 0
Passes P handler = (a b : Request) → handler a ≡ forwarded b → P a b

module _ (uri : Url → Text) (match : List Text → Request → Option (Option Text)) where
  replaced-Keeps : (p : Text) → Passes Keeps (wrap_if p (replace_path uri) forwarded)
  unfolding wrap_if replace_path set_path Passes
  replaced-Keeps [] a b h = ground arith
  replaced-Keeps (c ∷ p) a b h = ground arith

  added-Keeps :
      (p : Text) (handler : Handler)
      → Passes Keeps handler
      → Passes Keeps (wrap_if p (add_prefix uri) handler)
  unfolding wrap_if add_prefix set_path Passes
  added-Keeps [] handler k a b h = k a b h
  added-Keeps (c ∷ p) handler k a b h =
      let inner = k _ b h in
      record { method = inner.method; host = inner.host; query = inner.query }

  stripped-Keeps :
      (ps : List Text) (handler : Handler)
      → Passes Keeps handler
      → Passes Keeps (wrap_if ps (strip_prefix uri) handler)
  unfolding wrap_if strip_prefix serve_request set_path Passes
  stripped-Keeps [] handler k a b h = k a b h
  stripped-Keeps (p ∷ ps) handler k a b h = elim (Option-cases (strip_path (p ∷ ps) a.url.path)) [
    | inl e ↦ cc (rw (e, strip_prefix) at h)
    | inr ((q, out), e) ↦
        let inner = k _ b (rw (e, strip_prefix) at h) in
        record { method = inner.method; host = inner.host; query = inner.query }
  ]

  regex-Keeps :
      (ps : List Text) (handler : Handler)
      → Passes Keeps handler
      → Passes Keeps (wrap_if ps (strip_prefix_regex uri match) handler)
  unfolding wrap_if strip_prefix_regex serve_request set_path Passes
  regex-Keeps [] handler k a b h = k a b h
  regex-Keeps (p ∷ ps) handler k a b h = elim (Option-cases (match (p ∷ ps) a)) [
    | inl e ↦ cc (rw (e, strip_prefix_regex) at h)
    | inr (none, e) ↦ cc (rw (e, strip_prefix_regex) at h)
    | inr (some q, e) ↦ elim (Bool-cases (ltb (length a.url.path) (length q))) [
      | inl short ↦ cc (rw (e, short, strip_prefix_regex) at h)
      | inr long ↦
          let inner = k _ b (rw (e, long, strip_prefix_regex) at h) in
          record { method = inner.method; host = inner.host; query = inner.query }
    ]
  ]

  -- Whatever modifiers a route has, a request that reaches the backend has the method, the host and
  -- the query that came in.
  pub wire-Keeps :
      {Route : Type 0} (route : ServerRoute Route) (a b : Request)
      → wire_frontend_backend uri match route forwarded a ≡ forwarded b
      → Keeps a b
  unfolding wire_frontend_backend Passes
  wire-Keeps route = regex-Keeps route.strip_prefixes_regex _ (
      stripped-Keeps route.strip_prefixes _
        (added-Keeps route.add_prefix _ (replaced-Keeps route.replace_path)))

  -- What the backend sees does not depend on the modifiers further out.
  module _ (Q : Request → Type 0) where
    Ends : Handler → Type 0
    Ends handler = (a b : Request) → handler a ≡ forwarded b → Q b

    added-Ends :
        (p : Text) (handler : Handler) → Ends handler → Ends (wrap_if p (add_prefix uri) handler)
    unfolding wrap_if add_prefix Ends
    added-Ends [] handler k a b h = k a b h
    added-Ends (c ∷ p) handler k a b h = k _ b h

    stripped-Ends :
        (ps : List Text) (handler : Handler)
        → Ends handler
        → Ends (wrap_if ps (strip_prefix uri) handler)
    unfolding wrap_if strip_prefix serve_request Ends
    stripped-Ends [] handler k a b h = k a b h
    stripped-Ends (p ∷ ps) handler k a b h = elim (Option-cases (strip_path (p ∷ ps) a.url.path)) [
      | inl e ↦ cc (rw (e, strip_prefix) at h)
      | inr ((q, out), e) ↦ k _ b (rw (e, strip_prefix) at h)
    ]

    regex-Ends :
        (ps : List Text) (handler : Handler)
        → Ends handler
        → Ends (wrap_if ps (strip_prefix_regex uri match) handler)
    unfolding wrap_if strip_prefix_regex serve_request Ends
    regex-Ends [] handler k a b h = k a b h
    regex-Ends (p ∷ ps) handler k a b h = elim (Option-cases (match (p ∷ ps) a)) [
      | inl e ↦ cc (rw (e, strip_prefix_regex) at h)
      | inr (none, e) ↦ cc (rw (e, strip_prefix_regex) at h)
      | inr (some q, e) ↦ elim (Bool-cases (ltb (length a.url.path) (length q))) [
        | inl short ↦ cc (rw (e, short, strip_prefix_regex) at h)
        | inr long ↦ k _ b (rw (e, long, strip_prefix_regex) at h)
      ]
    ]

  replaced-Ends :
      (p : Text)
      → p ≢ []
      → Ends
          (λ b. (b.url.path ≡ p) × (b.request_uri ≡ uri b.url))
          (wrap_if p (replace_path uri) forwarded)
  unfolding wrap_if replace_path set_path Ends
  replaced-Ends [] ne a b h = absurd (ne refl)
  replaced-Ends (c ∷ p) ne a b h = ground arith

  -- If a route replaces the path, the backend sees that path and the URI made from it, whatever
  -- prefixes are stripped or added.
  pub wire-replaced :
      {Route : Type 0} (route : ServerRoute Route) (a b : Request)
      → route.replace_path ≢ []
      → wire_frontend_backend uri match route forwarded a ≡ forwarded b
      → (b.url.path ≡ route.replace_path) × (b.request_uri ≡ uri b.url)
  unfolding wire_frontend_backend Ends
  wire-replaced route a b ne =
      regex-Ends Q route.strip_prefixes_regex _
        (stripped-Ends Q route.strip_prefixes _
          (added-Ends Q route.add_prefix _ (replaced-Ends route.replace_path ne)))
        a b
    where
      Q : Request → Type 0
      Q c = (c.url.path ≡ route.replace_path) × (c.request_uri ≡ uri c.url)

  -- The handler behind the stripping of prefixes, if no path is replaced.
  add_to :
      (p : Text) (a : Request)
      → (b : Request) × (wrap_if p (add_prefix uri) forwarded a ≡ forwarded b)
        × (b.url.path ≡ p ++ a.url.path)
        × (b.header ≡ a.header)
  unfolding wrap_if add_prefix set_path
  add_to [] a = (a, refl, refl, refl)
  add_to (c ∷ p) a = (_, refl, refl, refl)

  strip_and_add :
      (ps : List Text) (p : Text) (a : Request)
      → ps ≢ []
      → ((strip_path ps a.url.path ≡ none)
          × (wrap_if ps (strip_prefix uri) (wrap_if p (add_prefix uri) forwarded) a ≡ not_found))
        ⊎ ((prefix out : Text) × (b : Request) × (strip_path ps a.url.path ≡ some (prefix, out))
            × (wrap_if ps (strip_prefix uri) (wrap_if p (add_prefix uri) forwarded) a ≡ forwarded b)
            × (b.url.path ≡ p ++ out)
            × (lookup forwarded_prefix_header b.header ≡ some (prefix ∷ [])))
  unfolding wrap_if strip_prefix serve_request set_path
  strip_and_add [] p a ne = absurd (ne refl)
  strip_and_add (q ∷ ps) p a ne = elim (Option-cases (strip_path (q ∷ ps) a.url.path)) [
    | inl e ↦ inl (e, rw (e, strip_prefix))
    | inr ((prefix, out), e) ↦
        let (b, serves, path, header) = add_to p (
          set_path uri out
            (record a { header = insert forwarded_prefix_header (prefix ∷ []) a.header })) in
        inr (
          prefix,
          out,
          b,
          e,
          rw (e, strip_prefix) serves,
          path,
          ap (lookup forwarded_prefix_header) header
              ∙ lookup-insert_self forwarded_prefix_header (prefix ∷ []) a.header,
        )
  ]

  -- A route that strips prefixes by text and replaces no path answers "not found" if no prefix is
  -- found; otherwise the backend sees the added prefix before the stripped path, and the stripped
  -- prefix in X-Forwarded-Prefix.
  pub wire-strip_add :
      {Route : Type 0} (route : ServerRoute Route) (a : Request)
      → route.strip_prefixes ≢ []
      → route.strip_prefixes_regex ≡ []
      → route.replace_path ≡ []
      → ((strip_path route.strip_prefixes a.url.path ≡ none)
          × (wire_frontend_backend uri match route forwarded a ≡ not_found))
        ⊎ ((prefix out : Text) × (b : Request) × (strip_path route.strip_prefixes a.url.path
              ≡ some (prefix, out))
            × (wire_frontend_backend uri match route forwarded a ≡ forwarded b)
            × (b.url.path ≡ route.add_prefix ++ out)
            × (lookup forwarded_prefix_header b.header ≡ some (prefix ∷ [])))
  unfolding wire_frontend_backend wrap_if
  wire-strip_add route a ne e₁ e₂ =
      rw (e₁, e₂, wrap_if) (strip_and_add route.strip_prefixes route.add_prefix a ne)
