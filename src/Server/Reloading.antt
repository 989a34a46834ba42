-- ===== src/Server/Reloading.antt =====
-- server/server.go, listenConfigurations: what is in force after any messages.
use traefik_release.Base.{
  ◌++◌, ◌&&◌, ◌≡◌, refl, sym, ap, subst, ◌∙◌, inl, inr, Bool, true, false, Option, none, some, List,
  [], ◌∷◌, if◌then◌else◌, Bool-cases, Option-cases, Text, eqt, Dict, lookup, insert, keys,
  lookup-insert, IsDistinct,
}
use traefik_release.Rules.Route.{Mux}
use traefik_release.Health.Checks.{set_backends_configuration}
use traefik_release.Server.Config.{Configuration, ConfigMessage}
use traefik_release.Server.Entries.{Global}
use traefik_release.Server.Loading.{Libraries, Wired, Loading}
use traefik_release.Server.LoadSteps.{load_config}
use traefik_release.Server.Entrances.{keys-build_entry_points, keys-load_config}
use traefik_release.Provider.Labels.{is_some}
use traefik_release.Server.Listening.{
  AcmeSettings, post_load_config, Running, start_running, apply_configuration, listen_configuration,
  listen_configurations,
}
use traefik_release.Server.Updating.{has, lookup-none, update_handlers-lookup}

module _ (m : Mux) (new_route : Text → m.Route) (lib : Libraries) (g : Global)
    (sort : List (Wired m.Route) → List (Wired m.Route)) (acme : Option AcmeSettings) where
  open m use {Route}

  -- The handlers in force are those that loading the configurations in force makes.
  record InForce (r : Running Route) : Type 0 where
    names : keys r.handlers ≡ keys g.entry_points
    loaded :
        (s : Loading Route) × (load_config m new_route lib g sort r.current ≡ some s)
        × ((ep : Text) → lookup ep r.handlers ≡ lookup ep s.routers)

  -- Whether configurations can be loaded, and what follows it, without a panic.
  abbrev pub is_loadable : Option Bool → Dict Configuration → Bool
  is_loadable leader cs =
      is_some (load_config m new_route lib g sort cs)
      && is_some (post_load_config acme leader g.entry_points cs)

  -- What a round does.
  abbrev Applies : Option Bool → Dict Configuration → Option (Running Route) → Type 0
  Applies leader cs none = is_loadable leader cs ≡ false
  Applies leader cs (some r) = (is_loadable leader cs ≡ true) × InForce r × (r.current ≡ cs)

  apply_configuration-Applies :
      (leader : Option Bool) (provider : Text) (c : Configuration) (r : Running Route)
      → IsDistinct (keys g.entry_points)
      → keys r.handlers ≡ keys g.entry_points
      → Applies leader
          (insert provider c r.current)
          (apply_configuration m new_route lib g sort acme leader provider c r)
  unfolding apply_configuration
  apply_configuration-Applies leader provider c r d names =
      let cs = insert provider c r.current in
      elim (Option-cases (load_config m new_route lib g sort cs)) [
        | inl n ↦
            let stops : apply_configuration m new_route lib g sort acme leader provider c r ≡ none =
              rw (n, apply_configuration) in
            let unloadable : is_loadable leader cs ≡ false = rw n in
            subst (Applies leader cs) (sym stops) unloadable
        | inr (loaded, n) ↦
            let same = keys-load_config m new_route lib g sort cs loaded n in
            let (handlers, e, k, l) =
              update_handlers-lookup loaded.routers r.handlers (subst IsDistinct (sym same) d)
                (λ j h. subst (λ ks. has j ks ≡ true) (same ∙ sym names) h) in
            let in_force : (ep : Text) → lookup ep handlers ≡ lookup ep loaded.routers = λ ep.
              elim (Bool-cases (has ep (keys loaded.routers))) [
                | inl h ↦ l ep ∙ rw h
                | inr h ↦
                    l ep
                    ∙ rw h (
                        lookup-none ep r.handlers
                          (subst (λ ks. has ep ks ≡ false) (same ∙ sym names) h)
                        ∙ sym (lookup-none ep loaded.routers h))
              ] in
            (elim (Option-cases (post_load_config acme leader g.entry_points cs)) [
              | inl p ↦
                  let stops : apply_configuration m new_route lib g sort acme leader provider c r
                      ≡ none =
                    rw (n, apply_configuration, e, p) in
                  let unloadable : is_loadable leader cs ≡ false = rw (n, p) in
                  subst (Applies leader cs) (sym stops) unloadable
              | inr (asked, p) ↦
                  let after : Running Route = record {
                    handlers = handlers;
                    current = cs;
                    checker = set_backends_configuration loaded.health r.checker;
                    requested = r.requested ++ asked;
                  } in
                  let goes_on : apply_configuration m new_route lib g sort acme leader provider c r
                      ≡ some after =
                    rw (n, apply_configuration, e, p) in
                  let loadable : is_loadable leader cs ≡ true = rw (n, p) in
                  subst (Applies leader cs) (sym goes_on)
                    (loadable, record { names = k ∙ names; loaded = (loaded, n, in_force) }, refl)
            ])
      ]

  -- The configuration that the last of some messages of a provider carries.
  pub latest :
      Text → List (Option Bool × ConfigMessage) → Option Configuration → Option Configuration
  latest provider [] c = c
  latest provider ((_, msg) ∷ msgs) c =
      latest provider msgs (if eqt msg.provider_name provider then msg.configuration else c)

  -- Whether messages run through: each carries a configuration that, put in the place of its
  -- provider's, makes configurations that can be loaded.
  unfoldable pub runs : List (Option Bool × ConfigMessage) → Dict Configuration → Bool
  runs [] cs = true
  runs ((leader, msg) ∷ msgs) cs = elim msg.configuration [
    | none ↦ false
    | some c ↦
        is_loadable leader (insert msg.provider_name c cs)
        && runs msgs (insert msg.provider_name c cs)
  ]

  -- What holds behind messages: each provider's last configuration is in force, and the routers in
  -- force are those that loading the configurations in force makes.
  pub record IsReloaded (msgs : List (Option Bool × ConfigMessage)) (before after : Running Route)
      : Type 0 where
    pub latest_in_force :
        (provider : Text)
        → lookup provider after.current ≡ latest provider msgs (lookup provider before.current)
    pub loaded :
        (s : Loading Route) × (load_config m new_route lib g sort after.current ≡ some s)
        × ((ep : Text) → lookup ep after.handlers ≡ lookup ep s.routers)

  -- What listening to messages gives: a panic if they do not run through, and otherwise a state with
  -- the last of each.
  abbrev pub Reloads :
      List (Option Bool × ConfigMessage) → Running Route → Option (Running Route) → Type 0
  Reloads msgs before none = runs msgs before.current ≡ false
  Reloads msgs before (some after) =
      (runs msgs before.current ≡ true) × IsReloaded msgs before after

  Reloads-cons :
      (leader : Option Bool) (msg : ConfigMessage) (c : Configuration)
      (msgs : List (Option Bool × ConfigMessage)) (before between : Running Route)
      (out : Option (Running Route))
      → msg.configuration ≡ some c
      → is_loadable leader (insert msg.provider_name c before.current) ≡ true
      → between.current ≡ insert msg.provider_name c before.current
      → Reloads msgs between out
      → Reloads ((leader, msg) ∷ msgs) before out
  unfolding latest runs
  Reloads-cons leader msg c msgs before between none e h b r =
      rw (e, runs, h) (subst (λ cs. runs msgs cs ≡ false) b r)
  Reloads-cons leader msg c msgs before between (some after) e h b (r, done) = (
    rw (e, runs, h) (subst (λ cs. runs msgs cs ≡ true) b r),
    record {
      latest_in_force = λ provider.
          done.latest_in_force provider
          ∙ ap (latest provider msgs) (
              ap (lookup provider) b
              ∙ lookup-insert msg.provider_name provider c before.current
              ∙ rw e);
      loaded = done.loaded;
    },
  )

  module _ (d : IsDistinct (keys g.entry_points)) where
    -- One message, and what is known of the rest.
    listen-first :
        (leader : Option Bool) (msg : ConfigMessage) (msgs : List (Option Bool × ConfigMessage))
        (r : Running Route)
        → keys r.handlers ≡ keys g.entry_points
        → ((r' : Running Route)
            → InForce r'
            → Reloads msgs r' (listen_configurations m new_route lib g sort acme msgs r'))
        → Reloads
            ((leader, msg) ∷ msgs)
            r
            (listen_configurations m new_route lib g sort acme ((leader, msg) ∷ msgs) r)
    unfolding listen_configurations listen_configuration runs
    listen-first leader msg msgs r names rest = elim (Option-cases msg.configuration) [
      | inl e ↦ rw (e, listen_configurations, listen_configuration, runs)
      | inr (c, e) ↦
          let applied = apply_configuration-Applies leader msg.provider_name c r d names in
          (elim (Option-cases
            (apply_configuration m new_route lib g sort acme leader msg.provider_name c r)) [
              | inl n ↦
                  let unloadable : is_loadable leader (insert msg.provider_name c r.current)
                      ≡ false =
                    subst (Applies leader (insert msg.provider_name c r.current)) n applied in
                  let stops : listen_configurations m new_route lib g sort acme
                        ((leader, msg) ∷ msgs) r
                      ≡ none =
                    rw (e, listen_configurations, listen_configuration, n) in
                  let fails : runs ((leader, msg) ∷ msgs) r.current ≡ false =
                    rw (e, runs, unloadable) in
                  subst (Reloads ((leader, msg) ∷ msgs) r) (sym stops) fails
              | inr (r1, n) ↦
                  let (h, f, b) =
                    subst (Applies leader (insert msg.provider_name c r.current)) n applied in
                  let goes_on : listen_configurations m new_route lib g sort acme
                        ((leader, msg) ∷ msgs) r
                      ≡ listen_configurations m new_route lib g sort acme msgs r1 =
                    rw (e, listen_configurations, listen_configuration, n) in
                  subst (Reloads ((leader, msg) ∷ msgs) r) (sym goes_on)
                    (Reloads-cons leader msg c msgs r r1 _ e h b (rest r1 f))
            ])
    ]

    listen-Reloads :
        (msgs : List (Option Bool × ConfigMessage)) (r : Running Route)
        → InForce r
        → Reloads msgs r (listen_configurations m new_route lib g sort acme msgs r)
    unfolding listen_configurations latest runs
    listen-Reloads [] r f = (refl, record { latest_in_force = λ provider. refl; loaded = f.loaded })
    listen-Reloads ((leader, msg) ∷ msgs) r f =
        listen-first leader msg msgs r f.names (λ r' f'. listen-Reloads msgs r' f')

    -- From the start on, listening to one message or more panics exactly if one of them carries no
    -- configuration or makes configurations whose loading, or what follows it, panics. Otherwise each
    -- provider's last configuration is in force, and at each entry point the router in force is the
    -- one that loading the configurations in force makes; the names of entry points differ.
    pub listen_configurations-Reloads :
        (leader : Option Bool) (msg : ConfigMessage) (msgs : List (Option Bool × ConfigMessage))
        → let start = start_running m new_route lib g sort acme in
          Reloads
            ((leader, msg) ∷ msgs)
            start
            (listen_configurations m new_route lib g sort acme ((leader, msg) ∷ msgs) start)
    unfolding start_running
    listen_configurations-Reloads leader msg msgs =
        listen-first leader msg msgs (start_running m new_route lib g sort acme)
          (keys-build_entry_points Route g.entry_points) (listen-Reloads msgs)
