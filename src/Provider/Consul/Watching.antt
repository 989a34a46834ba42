-- ===== src/Provider/Consul/Watching.antt =====
-- provider/consul/consul_catalog.go: watchServices and watch.
use traefik_release.Base.{
  ℕ, Bool, true, not, ◌&&◌, Option, none, some, List, [], ◌∷◌, ◌==◌, if◌then◌else◌, Text,
}
use traefik_release.Server.Config.{Configuration}
use traefik_release.Provider.Rendering.{Engine}
use traefik_release.Provider.Consul.{Catalog, ServiceEntry}
use traefik_release.Provider.Consul.Nodes.{ConsulObjects, get_nodes, build_config}

-- What Consul answers in one round: the names of services, which may be nil, with the index of the
-- catalog, and the index of the states of health; an error has no answer.
pub record Answers : Type 0 where
  pub catalog : Option (Option (List Text) × ℕ)
  pub health : Option ℕ

-- The indices of the last change that was seen.
pub record Indices : Type 0 where
  pub wait_index : ℕ
  pub last_health_index : ℕ

unfoldable pub send_names : Option (List Text) → List (List Text) → List (List Text)
send_names none later = later
send_names (some names) later = names ∷ later

unfoldable pub is_same : Indices → ℕ → ℕ → Bool
is_same i catalog_index health_index =
    (i.wait_index == catalog_index) && (i.last_health_index == health_index)

-- The loop of watchServices, until an error or until it is stopped, which is the end of the rounds.
unfoldable pub watch_services : Indices → List Answers → List (List Text)
watch_services i [] = []
watch_services i (a ∷ rounds) = elim a.catalog [
  | none ↦ []
  | some (names, catalog_index) ↦ elim a.health [
    | none ↦ []
    | some health_index ↦
        let same = watch_services i rounds in
        let changed = send_names names (
          watch_services (record { wait_index = catalog_index; last_health_index = health_index })
            rounds) in
        if is_same i catalog_index health_index then same else changed
  ]
]

-- watch: what is sent for the lists of names, and whether it ends in an error. The end of the lists is
-- the end of the channel; `stopped` is that the pool stops before.
pub record ConsulRun : Type 0 where
  pub sent : List (Option Configuration)
  pub failed : Bool

unfoldable pub sent_first : Option Configuration → ConsulRun → ConsulRun
sent_first c run = record run { sent = c ∷ run.sent }

module _ (glob : Text → Text → Bool) (p : Catalog) (e : Engine ConsulObjects)
    (filename : Text) where
  unfoldable pub watch : (Text → Option (List ServiceEntry)) → Bool → List (List Text) → ConsulRun
  watch fetch stopped [] = record { sent = []; failed = not stopped }
  watch fetch stopped (names ∷ lists) = elim (get_nodes glob p fetch names) [
    | none ↦ record { sent = []; failed = true }
    | some nodes ↦ sent_first (build_config p e filename nodes) (watch fetch stopped lists)
  ]
