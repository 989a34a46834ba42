-- ===== src/Server/Defaults.antt =====
-- server/server.go: what the defaults guarantee of a configuration.
use traefik_release.Base.{
  ◌≡◌, refl, ◌≢◌, ◌↔◌, ◌⊎◌, inl, inr, Bool, Option, none, some, List, [], ◌∷◌, arith, Bool-cases,
  Option-cases, Text, txt, eqt, eqt_iff, to_lower, equal_fold, Dict, lookup,
}
use traefik_release.Server.Config.{
  LoadBalancer, Backend, Frontend, Configuration, LoadBalancerMethod, wrr, drr,
  load_balancer_method_names, find_method, new_load_balancer_method, sticky_of, configure_backend,
  configure_backends, configure_frontend, configure_frontends, default_configuration_values,
}

equal_fold-wrr : (s : Text) → equal_fold (txt "Wrr") s ≡ eqt (txt "wrr") (to_lower s)
unfolding equal_fold to_lower
equal_fold-wrr s = refl

equal_fold-drr : (s : Text) → equal_fold (txt "Drr") s ≡ eqt (txt "drr") (to_lower s)
unfolding equal_fold to_lower
equal_fold-drr s = refl

-- The method of a load balancer is Wrr or Drr, in whatever case its name is written, and any other
-- name is refused.
pub method_iff :
    (b : LoadBalancer) (m : LoadBalancerMethod)
    → (new_load_balancer_method (some b) ≡ some m) ↔ (
        ((m ≡ wrr) × (to_lower b.method ≡ txt "wrr"))
        ⊎ ((m ≡ drr) × (to_lower b.method ≡ txt "drr")))
unfolding new_load_balancer_method find_method load_balancer_method_names
method_iff b m = ground (
  arith,
  equal_fold-wrr b.method,
  equal_fold-drr b.method,
  eqt_iff (txt "wrr") (to_lower b.method),
  eqt_iff (txt "drr") (to_lower b.method),
)

wrr_valid :
    (sticky : Bool)
    → new_load_balancer_method (some (record { method = txt "wrr"; sticky = sticky })) ≡ some wrr
unfolding new_load_balancer_method find_method load_balancer_method_names equal_fold eqt to_lower
wrr_valid sticky = refl

-- What configureBackends makes of a backend.
pub record IsConfigured (b c : Backend) : Type 0 where
  pub valid : new_load_balancer_method c.load_balancer ≢ none
  pub sticky : sticky_of c.load_balancer ≡ sticky_of b.load_balancer
  pub kept : (new_load_balancer_method b.load_balancer ≡ none) ⊎ (c ≡ b)
  pub servers : c.servers ≡ b.servers
  pub circuit_breaker : c.circuit_breaker ≡ b.circuit_breaker
  pub max_conn : c.max_conn ≡ b.max_conn
  pub health_check : c.health_check ≡ b.health_check

configure_backend-IsConfigured : (b : Backend) → IsConfigured b (configure_backend b)
unfolding configure_backend
configure_backend-IsConfigured b = ground (arith, wrr_valid (sticky_of b.load_balancer))

-- A name is in the configured map exactly if it was there, and its backend is the old one with a
-- valid load-balancer method, the stickiness it had, and nothing else changed.
pub lookup-configure_backends :
    (name : Text) (bs : Dict Backend)
    → ((lookup name bs ≡ none) × (lookup name (configure_backends bs) ≡ none))
      ⊎ ((b c : Backend) × (lookup name bs ≡ some b)
          × (lookup name (configure_backends bs) ≡ some c)
          × IsConfigured b c)
unfolding configure_backends lookup
lookup-configure_backends name [] = inl (refl, refl)
lookup-configure_backends name ((k, b) ∷ bs) = elim (Bool-cases (eqt k name)) [
  | inl e ↦ inr (b, configure_backend b, rw e, rw e, configure_backend-IsConfigured b)
  | inr e ↦ rw (e) (lookup-configure_backends name bs)
]

configure_backend_idempotent :
    (b : Backend) → configure_backend (configure_backend b) ≡ configure_backend b
unfolding configure_backend
configure_backend_idempotent b = ground (arith, wrr_valid (sticky_of b.load_balancer))

configure_backends_idempotent :
    (bs : Dict Backend) → configure_backends (configure_backends bs) ≡ configure_backends bs
unfolding configure_backends
configure_backends_idempotent [] = refl
configure_backends_idempotent ((k, b) ∷ bs) =
    cc (configure_backend_idempotent b, configure_backends_idempotent bs)

configure_frontend_idempotent :
    (default : List Text) (f : Frontend)
    → configure_frontend default (configure_frontend default f) ≡ configure_frontend default f
unfolding configure_frontend
configure_frontend_idempotent default f = ground arith

configure_frontends_idempotent :
    (default : List Text) (fs : Dict Frontend)
    → configure_frontends default (configure_frontends default fs) ≡ configure_frontends default fs
unfolding configure_frontends
configure_frontends_idempotent default [] = refl
configure_frontends_idempotent default ((k, f) ∷ fs) =
    cc (configure_frontend_idempotent default f, configure_frontends_idempotent default fs)

-- Filling in the defaults a second time changes nothing.
pub default_configuration_values_idempotent :
    (default : List Text) (c : Option Configuration)
    → default_configuration_values default (default_configuration_values default c)
      ≡ default_configuration_values default c
unfolding default_configuration_values
default_configuration_values_idempotent default none = refl
default_configuration_values_idempotent default (some c) = elim (Option-cases c.frontends) [
  | inl e ↦ ground arith
  | inr (fs, e) ↦ elim (Option-cases c.backends) [
    | inl e' ↦ ground (arith, configure_frontends_idempotent default fs)
    | inr (bs, e') ↦
        ground (arith, configure_frontends_idempotent default fs, configure_backends_idempotent bs)
  ]
]
