-- ===== src/Provider/Marathon/Loading.antt =====
-- provider/marathon/marathon.go: which tasks and applications are configured, and loadMarathonConfig.
use traefik_release.Base.{
  lookup, Dict, Bool, true, false, not, ◌&&◌, Option, none, some, List, [], ◌∷◌, ◌++◌,
  if◌then◌else◌, any, Text, txt, eqt, split,
}
use traefik_release.Server.Config.{Configuration}
use traefik_release.Provider.Labels.{is_some, value_at, is_enabled}
use traefik_release.Provider.Constraints.{match_constraints}
use traefik_release.Provider.Rendering.{Engine, get_configuration}
use traefik_release.Provider.Marathon.{Marathon, Application, Task, get_application}
use traefik_release.Provider.Numbers.{ℤ}
use traefik_release.Provider.Picking.{Picked, picked, refused, panicked, then_picked}
use traefik_release.Provider.Marathon.Ports.{process_ports}

-- The tags that the constraints are about.
unfoldable pub group_tag : Option Text → List Text
group_tag none = []
group_tag (some label) = label ∷ []

unfoldable pub constraint_tags : Marathon → Dict Text → List Text
constraint_tags p labels =
    split b',' (value_at (txt "traefik.tags") labels)
    ++ (if p.marathon_lb_compatibility then group_tag (lookup (txt "HAPROXY_GROUP") labels) else [])

abbrev pub has_both_ports : Dict Text → Bool
has_both_ports labels =
    is_some (lookup (txt "traefik.portIndex") labels)
    && is_some (lookup (txt "traefik.port") labels)

abbrev pub is_unhealthy : Application → Task → Bool
is_unhealthy a t =
    a.has_health_checks && t.has_health_check_results && any not t.health_check_results

-- fun.Filter; a test that panics ends the load.
unfoldable pub add_kept {ℓ} : {A : Type ℓ} → Picked Bool → A → Picked (List A) → Picked (List A)
add_kept (picked true) x (picked xs) = picked (x ∷ xs)
add_kept (picked true) x refused = refused
add_kept (picked true) x panicked = panicked
add_kept (picked false) x xs = xs
add_kept refused x xs = xs
add_kept panicked x xs = panicked

-- templateObjects
pub record MarathonObjects : Type 0 where
  pub applications : List Application
  pub tasks : List Task
  pub domain : Text

-- `refused` is nil, where a list could not be had or the template failed.
unfoldable pub as_picked : Option Configuration → Picked Configuration
as_picked none = refused
as_picked (some c) = picked c

module _ (glob : Text → Text → Bool) (p : Marathon) where
  -- The tests behind that of the ports. The program reads the labels for each of them.
  unfoldable pub passes : Dict Text → Application → Task → Bool → Bool
  passes labels a t exposed_by_default =
      if has_both_ports labels
      then false
      else if not (match_constraints glob p.constraints (constraint_tags p labels)).0
      then false
      else if not (is_enabled exposed_by_default (value_at (txt "traefik.enable") labels))
      then false
      else not (is_unhealthy a t)

  -- A task without a port is filtered; a panic ends the function.
  unfoldable pub filtered_at : Picked ℤ → Application → Task → Bool → Picked Bool
  filtered_at (picked _) a t exposed_by_default = elim a.labels [
    | none ↦ panicked
    | some labels ↦ picked (passes labels a t exposed_by_default)
  ]
  filtered_at refused a t exposed_by_default = picked false
  filtered_at panicked a t exposed_by_default = panicked

  -- taskFilter
  unfoldable pub task_filter : Task → List Application → Bool → Picked Bool
  task_filter t apps exposed_by_default = elim (get_application t apps) [
    | none ↦ picked false
    | some a ↦ filtered_at (process_ports a t) a t exposed_by_default
  ]

  -- applicationFilter
  unfoldable pub application_filter : Application → List Task → Picked Bool
  application_filter a tasks = elim a.labels [
    | none ↦ panicked
    | some labels ↦ picked (
        if not (match_constraints glob p.constraints (constraint_tags p labels)).0
        then false
        else any (λ t. eqt t.app_id a.id) tasks)
  ]

  unfoldable pub filter_tasks : List Application → List Task → Picked (List Task)
  filter_tasks apps [] = picked []
  filter_tasks apps (t ∷ tasks) =
      add_kept (task_filter t apps p.exposed_by_default) t (filter_tasks apps tasks)

  unfoldable pub filter_applications : List Task → List Application → Picked (List Application)
  filter_applications tasks [] = picked []
  filter_applications tasks (a ∷ apps) =
      add_kept (application_filter a tasks) a (filter_applications tasks apps)

  unfoldable pub render_filtered :
      Engine MarathonObjects → Text → List Application → List Task → Picked Configuration
  render_filtered e filename apps tasks = as_picked (
      get_configuration e filename (txt "templates/marathon.tmpl")
        (record { applications = apps; tasks = tasks; domain = p.domain }))

  -- loadMarathonConfig
  unfoldable pub load_marathon_config :
      Engine MarathonObjects
      → Text
      → Option (List Application)
      → Option (List Task)
      → Picked Configuration
  load_marathon_config e filename none tasks = refused
  load_marathon_config e filename (some apps) none = refused
  load_marathon_config e filename (some apps) (some tasks) =
      then_picked (filter_tasks apps tasks) λ filtered.
        then_picked (filter_applications filtered apps)
          λ kept. render_filtered e filename kept filtered
