-- ===== src/Health/Checks.antt =====
-- healthcheck/healthcheck.go. The load balancer is the parameter `Balancer`; a probe of a server is
-- a function of its URL for the time of one round.
use traefik_release.Base.{
  ℕ, ◌+◌, ◌≡◌, Bool, not, Option, none, some, List, [], ◌∷◌, ◌++◌, ◌==◌, if◌then◌else◌, keep, any,
  Text, eqt, Dict,
}

-- healthcheck.LoadBalancer, with what the round-robin library says of its servers: an upsert adds a
-- new server behind the others and gives an old one its weight, a removal takes it out.
pub record Balancer : Type 1 where
  pub State : Type 0
  pub servers : State → List Text
  pub weight : State → Text → ℕ
  pub upsert_server : Text → ℕ → State → State
  pub remove_server : Text → State → State
  pub servers-upsert :
      (u : Text) (w : ℕ) (s : State)
      → servers (upsert_server u w s)
        ≡ (if any (eqt u) (servers s) then servers s else servers s ++ u ∷ [])
  pub servers-remove :
      (u : Text) (s : State) → servers (remove_server u s) ≡ keep (λ v. not (eqt u v)) (servers s)
  pub weight-upsert :
      (u v : Text) (w : ℕ) (s : State)
      → weight (upsert_server u w s) v ≡ (if eqt u v then w else weight s v)
  pub weight-remove :
      (u v : Text) (s : State) → weight (remove_server u s) v ≡ (if eqt u v then 0 else weight s v)

module _ (b : Balancer) where
  open b use {State, servers, weight, upsert_server, remove_server}

  -- BackendHealthCheck
  pub record BackendHealthCheck : Type 0 where
    pub path : Text
    pub interval : ℕ
    pub disabled : List Text
    pub lb : State

  module _ (check_health : Text → Bool) where
    -- The loop over the disabled servers; `still` are those that stay disabled.
    unfoldable pub check_disabled : List Text → List Text → State → State × List Text
    check_disabled [] still s = (s, still)
    check_disabled (u ∷ us) still s =
        let up = check_disabled us still (upsert_server u 1 s) in
        let down = check_disabled us (still ++ u ∷ []) s in if check_health u then up else down

    -- The loop over the servers that were enabled.
    unfoldable pub check_enabled : List Text → List Text → State → State × List Text
    check_enabled [] disabled s = (s, disabled)
    check_enabled (u ∷ us) disabled s =
        let up = check_enabled us disabled s in
        let down = check_enabled us (disabled ++ u ∷ []) (remove_server u s) in
        if not (check_health u) then down else up

    -- checkBackend
    unfoldable pub check_backend : BackendHealthCheck → BackendHealthCheck
    check_backend c =
        let (s, still) = check_disabled c.disabled [] c.lb in
        let (s', disabled) = check_enabled (servers c.lb) still s in
        record c { lb = s'; disabled = disabled }

-- The singleton HealthCheck, its contexts and the goroutines that it has started: each runs for one
-- backend until its context is cancelled.
pub record Checker (B : Type 0) : Type 0 where
  pub backends : Dict B
  pub cancel : Option ℕ
  pub cancelled : List ℕ
  pub contexts : ℕ
  pub routines : List (ℕ × Text)

-- newHealthCheck
unfoldable pub new_health_check : (B : Type 0) → Checker B
new_health_check B = record {
  backends = [];
  cancel = none;
  cancelled = [];
  contexts = 0;
  routines = [];
}

abbrev pub cancel_old : Option ℕ → List ℕ → List ℕ
cancel_old none cancelled = cancelled
cancel_old (some c) cancelled = c ∷ cancelled

module _ {B : Type 0} where
  unfoldable pub start_routines : ℕ → Dict B → List (ℕ × Text)
  start_routines ctx [] = []
  start_routines ctx ((id, _) ∷ bs) = (ctx, id) ∷ start_routines ctx bs

  -- SetBackendsConfiguration
  unfoldable pub set_backends_configuration : Dict B → Checker B → Checker B
  set_backends_configuration bs hc = record {
    backends = bs;
    cancel = some hc.contexts;
    cancelled = cancel_old hc.cancel hc.cancelled;
    contexts = hc.contexts + 1;
    routines = hc.routines ++ start_routines hc.contexts bs;
  }

  -- The goroutines whose context has not been cancelled.
  abbrev pub live : Checker B → List (ℕ × Text)
  live hc = keep (λ r. not (any (λ c. c == r.0) hc.cancelled)) hc.routines

  unfoldable pub set_all : List (Dict B) → Checker B → Checker B
  set_all [] hc = hc
  set_all (bs ∷ more) hc = set_all more (set_backends_configuration bs hc)
