-- ===== src/Provider/Ecs/Loading.antt =====
-- provider/ecs/ecs.go: loadECSConfig, and one run of the operation of Provide.
use traefik_release.Base.{
  Bool, true, false, not, ◌||◌, Option, none, some, List, [], ◌∷◌, if◌then◌else◌, Text, txt,
}
use traefik_release.Server.Config.{Configuration}
use traefik_release.Provider.Rendering.{Engine, get_configuration}
use traefik_release.Provider.Picking.{then_picked, Picked, picked, refused, panicked}
use traefik_release.Provider.Ecs.{Ecs, EcsInstance}
use traefik_release.Provider.Ecs.Labels.{filter_instance}
use traefik_release.Provider.Ecs.Listing.{list_instances, of_option}
use traefik_release.Provider.Ecs.Lookups.{Aws}

-- Filtering an instance may panic.
unfoldable pub filter_instances : Ecs → List EcsInstance → Picked (List EcsInstance)
filter_instances p [] = picked []
filter_instances p (i ∷ instances) = then_picked (filter_instance p i) (λ kept.
    then_picked (filter_instances p instances) (λ rest. picked (if kept then i ∷ rest else rest)))

-- loadECSConfig; `refused` is an error.
unfoldable pub load_ecs_config : Ecs → Engine (List EcsInstance) → Text → Aws → Picked Configuration
load_ecs_config p e filename aws = then_picked (list_instances aws) λ instances.
    then_picked (filter_instances p instances)
      λ filtered. of_option (get_configuration e filename (txt "templates/ecs.tmpl") filtered)

-- handleCanceled: whether an error is reported.
abbrev pub handle_canceled : Bool → Bool → Bool
handle_canceled context_canceled error_is_canceled = not (context_canceled || error_is_canceled)

-- What wakes the loop: a tick with what AWS answers then, or that the pool stops.
pub data Event : Type 0 where
  reload : Aws → Event
  done : Event

-- The configurations that are sent, and whether the operation ends in an error, which is tried again;
-- a panic is an error by OperationWithRecover.
pub record EcsRun : Type 0 where
  pub sent : List Configuration
  pub failed : Bool

unfoldable pub sent_first : Configuration → EcsRun → EcsRun
sent_first c run = record run { sent = c ∷ run.sent }

unfoldable pub after_load : Picked Configuration → EcsRun → EcsRun
after_load (picked c) later = sent_first c later
after_load refused later = record { sent = []; failed = handle_canceled false false }
after_load panicked later = record { sent = []; failed = true }

unfoldable pub watch : Ecs → Engine (List EcsInstance) → Text → List Event → EcsRun
watch p e filename [] = record { sent = []; failed = false }
watch p e filename (done ∷ events) = record { sent = []; failed = handle_canceled true true }
watch p e filename (reload aws ∷ events) =
    after_load (load_ecs_config p e filename aws) (watch p e filename events)

-- One run, while the pool has not stopped; no client is an error.
unfoldable pub provide_once :
    Ecs → Engine (List EcsInstance) → Text → Option Aws → List Event → EcsRun
provide_once p e filename none events = record { sent = []; failed = true }
provide_once p e filename (some aws) events =
    after_load (load_ecs_config p e filename aws)
      (if p.watch then watch p e filename events else record { sent = []; failed = false })
