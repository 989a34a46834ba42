-- ===== src/Server/Requests.antt =====
-- server/server.go, postLoadConfig: which certificates are asked for.
use traefik_release.Base.{
  ◌≡◌, refl, subst, ◌≢◌, inl, inr, Bool, true, false, Option, none, some, List, [], ◌∷◌, ◌++◌,
  append_assoc, arith, Bool-cases, keep, any, Text, eqt, eqt_iff, Dict, lookup,
}
use traefik_release.Server.Config.{Frontend, Configuration, dict_of}
use traefik_release.Server.Entries.{EntryPoint, Tls}
use traefik_release.Server.Listening.{
  AcmeSettings, acme_enabled, route_requests, frontend_requests, configuration_requests,
  post_load_config,
}

abbrev values {ℓ} : {V : Type ℓ} → Dict V → List V
values [] = []
values ((_, v) ∷ m) = v ∷ values m

-- The frontends of all configurations.
pub all_frontends : Dict Configuration → List Frontend
all_frontends [] = []
all_frontends ((_, c) ∷ cs) = values (dict_of c.frontends) ++ all_frontends cs

-- The domain lists of the routes of frontends.
pub requests : List Frontend → List (List Text)
requests [] = []
requests (f ∷ fs) = route_requests f.routes ++ requests fs

requests-append : (fs gs : List Frontend) → requests (fs ++ gs) ≡ requests fs ++ requests gs
unfolding requests
requests-append [] gs = refl
requests-append (f ∷ fs) gs = rw (requests-append fs gs, append_assoc)

-- Whether a frontend stands at an entry point.
abbrev pub stands_at : Text → Frontend → Bool
stands_at ep f = any (eqt ep) f.entry_points

keep_frontends-append :
    (p : Frontend → Bool) (fs gs : List Frontend) → keep p (fs ++ gs) ≡ keep p fs ++ keep p gs
unfolding keep
keep_frontends-append p [] gs = refl
keep_frontends-append p (f ∷ fs) gs = ground (arith, keep_frontends-append p fs gs)

module _ (acme : Text) (eps : Dict EntryPoint) (e : EntryPoint) (t : Tls)
    (found : lookup acme eps ≡ some e) (secure : e.tls ≡ some t) where
  acme_enabled-any : (names : List Text) → acme_enabled acme eps names ≡ some (any (eqt acme) names)
  unfolding acme_enabled any
  acme_enabled-any [] = refl
  acme_enabled-any (ep ∷ more) = elim (Bool-cases (eqt acme ep)) [
    | inl same ↦
        let here : lookup ep eps ≡ some e =
          subst (λ k. lookup k eps ≡ some e) ((eqt_iff acme ep).0 same) found in
        rw (same, here, acme_enabled, secure)
    | inr other ↦ rw other (acme_enabled-any more)
  ]

  frontend_requests-keep :
      (fs : Dict Frontend)
      → frontend_requests acme eps fs ≡ some (requests (keep (stands_at acme) (values fs)))
  unfolding frontend_requests requests keep
  frontend_requests-keep [] = refl
  frontend_requests-keep ((n, f) ∷ fs) = elim (Bool-cases (stands_at acme f)) [
    | inl h ↦
        rw (acme_enabled-any f.entry_points, frontend_requests, frontend_requests-keep fs) (rw h)
    | inr h ↦
        rw (acme_enabled-any f.entry_points, frontend_requests, frontend_requests-keep fs) (rw h)
  ]

  configuration_requests-keep :
      (cs : Dict Configuration)
      → configuration_requests acme eps cs
        ≡ some (requests (keep (stands_at acme) (all_frontends cs)))
  unfolding configuration_requests all_frontends
  configuration_requests-keep [] = unfold requests keep in refl
  configuration_requests-keep ((n, c) ∷ cs) =
      rw (frontend_requests-keep (dict_of c.frontends), configuration_requests)
        (rw (configuration_requests-keep cs) (
          rw (
            keep_frontends-append (stands_at acme) (values (dict_of c.frontends))
                (all_frontends cs),
            requests-append (keep (stands_at acme) (values (dict_of c.frontends))) _,
          )))

-- If ACME's entry point is configured with TLS, certificates are asked for on host rules, and this
-- node is not a follower in a cluster, then the domain lists asked for are those of the routes that
-- can be parsed of all frontends at that entry point, in order.
pub post_load_config-requests :
    (a : AcmeSettings) (leader : Option Bool) (eps : Dict EntryPoint) (cs : Dict Configuration)
    (e : EntryPoint) (t : Tls)
    → lookup a.entry_point eps ≡ some e
    → e.tls ≡ some t
    → a.on_host_rule ≡ true
    → leader ≢ some false
    → post_load_config (some a) leader eps cs
      ≡ some (requests (keep (stands_at a.entry_point) (all_frontends cs)))
unfolding post_load_config
post_load_config-requests a none eps cs e t found secure on l =
    rw on (configuration_requests-keep a.entry_point eps e t found secure cs)
post_load_config-requests a (some true) eps cs e t found secure on l =
    rw on (configuration_requests-keep a.entry_point eps e t found secure cs)
post_load_config-requests a (some false) eps cs e t found secure on l = absurd (l refl)
