-- ===== src/Provider/Docker/Filters.antt =====
-- provider/docker/docker.go: containerFilter, which containers make it into the configuration.
use traefik_release.Base.{
  ◌≡◌, ◌≢◌, ◌↔◌, ◌⊎◌, Bool, true, false, not, ◌||◌, none, List, [], arith, if◌then◌else◌, All, Text,
  txt, eqt, eqt_iff, is_empty, split,
}
use traefik_release.Provider.Labels.{
  value_at, is_some, or_iff, not_empty_iff, is_empty_iff, is_some_iff, is_enabled_iff,
}
use traefik_release.Provider.Numbers.{parse_int}
use traefik_release.Provider.Constraints.{match_constraints}
use traefik_release.Provider.ConstraintLaws.{Holds, match_constraints_iff}
use traefik_release.Provider.Docker.{Docker, DockerData}
use traefik_release.Provider.Docker.Labels.{get_frontend_rule, is_container_enabled}

-- `glob` is the pattern matcher of package go-glob.
module _ (glob : Text → Text → Bool) where
  abbrev pub tags_of : DockerData → List Text
  tags_of c = split b',' (value_at (txt "traefik.tags") c.labels)

  abbrev pub has_port : DockerData → Bool
  has_port c =
      not (is_empty c.network_settings.ports)
      || is_some (parse_int (value_at (txt "traefik.port") c.labels))

  abbrev pub is_healthy : DockerData → Bool
  is_healthy c = is_empty c.health || eqt c.health (txt "healthy")

  unfoldable pub container_filter : Docker → DockerData → Bool
  container_filter p c =
      if not (has_port c)
      then false
      else if not (is_container_enabled c p.exposed_by_default)
      then false
      else if not (match_constraints glob p.constraints (tags_of c)).0
      then false
      else if not (is_healthy c)
      then false
      else not (is_empty (get_frontend_rule p c))

  -- What a container must be, for the provider to configure it.
  pub record IsServed (p : Docker) (c : DockerData) : Type 0 where
    pub port :
        (c.network_settings.ports ≢ [])
        ⊎ (parse_int (value_at (txt "traefik.port") c.labels) ≢ none)
    pub enabled :
        (value_at (txt "traefik.enable") c.labels ≡ txt "true")
        ⊎ ((p.exposed_by_default ≡ true) × (value_at (txt "traefik.enable") c.labels ≢ txt "false"))
    pub matched : All (Holds glob (tags_of c)) p.constraints
    pub healthy : (c.health ≡ []) ⊎ (c.health ≡ txt "healthy")
    pub ruled : get_frontend_rule p c ≢ []

  has_port_iff :
      (c : DockerData)
      → (has_port c ≡ true) ↔ (
          (c.network_settings.ports ≢ [])
          ⊎ (parse_int (value_at (txt "traefik.port") c.labels) ≢ none))
  has_port_iff c =
      or_iff _ _ (not_empty_iff c.network_settings.ports)
        (is_some_iff (parse_int (value_at (txt "traefik.port") c.labels)))

  is_healthy_iff :
      (c : DockerData) → (is_healthy c ≡ true) ↔ ((c.health ≡ []) ⊎ (c.health ≡ txt "healthy"))
  is_healthy_iff c = or_iff _ _ (is_empty_iff c.health) (eqt_iff c.health (txt "healthy"))

  -- The five tests at once.
  all_tests :
      (a b c d e : Bool)
      → ((if not a
            then false
            else if not b
            then false
            else if not c
            then false
            else if not d
            then false
            else e)
          ≡ true)
        ↔ ((a ≡ true) × (b ≡ true) × (c ≡ true) × (d ≡ true) × (e ≡ true))
  all_tests a b c d e = (λ h. ground arith, λ h. ground arith)

  -- The filter lets through exactly these containers.
  pub container_filter_iff :
      (p : Docker) (c : DockerData) → (container_filter p c ≡ true) ↔ IsServed p c
  unfolding container_filter is_container_enabled
  container_filter_iff p c =
      let tests =
        all_tests (has_port c) _ (match_constraints glob p.constraints (tags_of c)).0 (is_healthy c)
          (not (is_empty (get_frontend_rule p c))) in
      let enabled =
        is_enabled_iff p.exposed_by_default (value_at (txt "traefik.enable") c.labels) in
      let matched = match_constraints_iff glob (tags_of c) p.constraints in
      let ruled = not_empty_iff (get_frontend_rule p c) in
      (
        λ h. record {
          port = (has_port_iff c).0 (tests.0 h).0;
          enabled = enabled.0 (tests.0 h).1;
          matched = matched.0 (tests.0 h).2;
          healthy = (is_healthy_iff c).0 (tests.0 h).3;
          ruled = ruled.0 (tests.0 h).4;
        },
        λ s. tests.1 (
          (has_port_iff c).1 s.port,
          enabled.1 s.enabled,
          matched.1 s.matched,
          (is_healthy_iff c).1 s.healthy,
          ruled.1 s.ruled,
        ),
      )
