-- ===== src/Provider/Rancher/Laws.antt =====
-- provider/rancher/rancher.go: which services and containers are used.
use traefik_release.Base.{
  ◌≡◌, refl, sym, ◌∙◌, ◌≢◌, ◌↔◌, ◌⊎◌, inl, inr, Bool, true, false, not, List, [], ◌∷◌, arith,
  if◌then◌else◌, All, Text, txt, eqt, is_empty, split,
}
use traefik_release.Provider.Labels.{
  value_at, is_enabled, is_enabled_iff, OneOf, any-eqt_iff, or_iff, and_iff, is_empty_iff,
  not_empty_iff,
}
use traefik_release.Provider.Constraints.{match_constraints}
use traefik_release.Provider.ConstraintLaws.{Holds, match_constraints_iff}
use traefik_release.Provider.Rancher.{Rancher, RancherData}
use traefik_release.Provider.Rancher.Filters.{
  is_empty_or_one_of, is_service_enabled, service_health, service_states, is_well, service_filter,
}

-- Empty, or one of the words.
abbrev pub IsEmptyOr : List Text → Text → Type 0
IsEmptyOr words s = (s ≡ []) ⊎ OneOf words s

is_empty_or_one_of_iff :
    (words : List Text) (s : Text) → (is_empty_or_one_of words s ≡ true) ↔ IsEmptyOr words s
unfolding is_empty_or_one_of
is_empty_or_one_of_iff words s = or_iff _ _ (is_empty_iff s) (any-eqt_iff s words)

empty_label :
    (exposed : Bool) (v : Text)
    → (if is_empty v then exposed else is_enabled exposed v) ≡ is_enabled exposed v
unfolding is_empty is_enabled eqt
empty_label true [] = refl
empty_label false [] = refl
empty_label exposed (c ∷ v) = refl

-- A missing label counts as an empty one.
pub is_service_enabled-enabled :
    (s : RancherData) (exposed : Bool)
    → is_service_enabled s exposed ≡ is_enabled exposed (value_at (txt "traefik.enable") s.labels)
unfolding is_service_enabled
is_service_enabled-enabled s exposed =
    empty_label exposed (value_at (txt "traefik.enable") s.labels)

module _ (glob : Text → Text → Bool) (p : Rancher) where
  -- What a service must be, for the provider to configure it.
  pub record IsOffered (s : RancherData) : Type 0 where
    pub port : value_at (txt "traefik.port") s.labels ≢ []
    pub enabled :
        (value_at (txt "traefik.enable") s.labels ≡ txt "true")
        ⊎ ((p.exposed_by_default ≡ true) × (value_at (txt "traefik.enable") s.labels ≢ txt "false"))
    pub matched :
        All (Holds glob (split b',' (value_at (txt "traefik.tags") s.labels))) p.constraints
    pub well :
        (p.enable_service_health_filter ≡ false)
        ⊎ (IsEmptyOr service_health s.health × IsEmptyOr service_states s.state)

  is_well_iff :
      (s : RancherData)
      → (is_well p s ≡ true) ↔ (
          (p.enable_service_health_filter ≡ false)
          ⊎ (IsEmptyOr service_health s.health × IsEmptyOr service_states s.state))
  unfolding is_well
  is_well_iff s = health_filter p.enable_service_health_filter _ (
      and_iff _ _ (is_empty_or_one_of_iff service_health s.health)
        (is_empty_or_one_of_iff service_states s.state))
    where
      health_filter :
          {A : Type 0} (on b : Bool)
          → ((b ≡ true) ↔ A)
          → ((if on then b else true) ≡ true) ↔ ((on ≡ false) ⊎ A)
      health_filter true b f =
          (λ e. inr (f.0 e), λ o. elim o [ inl e ↦ absurd (true_ne_false e) | inr a ↦ f.1 a ])
        where
          true_ne_false : true ≡ false → ⊥
          true_ne_false e = cc
      health_filter false b f = (λ _. inl refl, λ _. refl)

  four_tests :
      (a b c d : Bool)
      → ((if a then false else if not b then false else if not c then false else d) ≡ true)
        ↔ ((not a ≡ true) × (b ≡ true) × (c ≡ true) × (d ≡ true))
  four_tests a b c d = (λ h. ground arith, λ h. ground arith)

  -- The filter lets through exactly these services.
  pub service_filter_iff : (s : RancherData) → (service_filter glob p s ≡ true) ↔ IsOffered s
  unfolding service_filter
  service_filter_iff s =
      let port = value_at (txt "traefik.port") s.labels in
      let tags = split b',' (value_at (txt "traefik.tags") s.labels) in
      let tests =
        four_tests (is_empty port) (is_service_enabled s p.exposed_by_default)
          (match_constraints glob p.constraints tags).0 (is_well p s) in
      let same = is_service_enabled-enabled s p.exposed_by_default in
      let enabled =
        is_enabled_iff p.exposed_by_default (value_at (txt "traefik.enable") s.labels) in
      let matched = match_constraints_iff glob tags p.constraints in
      (
        λ h. record {
          port = (not_empty_iff port).0 (tests.0 h).0;
          enabled = enabled.0 (sym same ∙ (tests.0 h).1);
          matched = matched.0 (tests.0 h).2;
          well = (is_well_iff s).0 (tests.0 h).3;
        },
        λ o. tests.1 (
          (not_empty_iff port).1 o.port,
          same ∙ enabled.1 o.enabled,
          matched.1 o.matched,
          (is_well_iff s).1 o.well,
        ),
      )
