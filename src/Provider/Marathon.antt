-- ===== src/Provider/Marathon.antt =====
-- provider/marathon/marathon.go: the provider's settings, and what it reads of applications and tasks.
use traefik_release.Base.{
  ℕ, zero, suc, ◌+◌, ◌-◌, ◌*◌, ◌/◌, ◌%◌, ◌^◌, ◌≤◌, ◌<◌, ◌≡◌, refl, sym, ap, subst, ◌∙◌, fun_ext,
  ◌≢◌, ◌↔◌, ◌⊎◌, inl, inr, Bool, true, false, not, ◌&&◌, ◌||◌, Option, none, some, List, [], ◌∷◌,
  ◌++◌, map, reverse, append-nil, append_assoc, arith, ltb, leb, ◌==◌, if◌then◌else◌, ==_iff,
  Bool-cases, Option-cases, length, take, drop, keep, any, all, length-append, length-take, All,
  All-append, Text, txt, eqt, eqt_refl, eqt_iff, eqt_of_ne, is_empty, is_space, trim_left,
  trim_space, lower, to_lower, equal_fold, strip, trim_prefix, trim_suffix, join, cut, contains,
  strip-append, strip-eq-some, strip_iff, Dict, lookup, insert, delete, keys, lookup-insert,
  lookup-delete, lookup-insert_self, count, IsDistinct, any_of_count, close, fields_from,
  fields_func, IsPlain, IsField, fields_func-IsField, fields_func-join, fields_func-plain,
  split_from, split, split-join, cut-eq-some,
}
pub mod Ports
pub mod Labels
pub mod Loading
pub mod PortLaws
pub mod Calmness
pub mod Laws
use traefik_release.Provider.Numbers.{ℤ}
use traefik_release.Provider.Picking.{Picked, picked, refused, panicked}
use traefik_release.Provider.Constraints.{Constraint}

-- Provider, less what is for the connection
pub record Marathon : Type 0 where
  pub constraints : List Constraint
  pub domain : Text
  pub exposed_by_default : Bool
  pub groups_as_sub_domains : Bool
  pub marathon_lb_compatibility : Bool
  pub force_task_hostname : Bool
  pub watch : Bool

-- An application, with what may be nil in it: its labels; a port definition's port; and of its IP
-- address per task the whole, the discovery, and the discovery's ports, of which the numbers stand
-- here. `has_health_checks` is the library's answer.
pub record Application : Type 0 where
  pub id : Text
  pub labels : Option (Dict Text)
  pub port_definitions : List (Option ℤ)
  pub ip_address_per_task : Option (Option (Option (List ℤ)))
  pub has_health_checks : Bool

-- A task, with the outcomes of its health checks if the library says that it has some.
pub record Task : Type 0 where
  pub id : Text
  pub app_id : Text
  pub host : Text
  pub ports : List ℤ
  pub ip_addresses : List Text
  pub has_health_check_results : Bool
  pub health_check_results : List Bool

-- getLabel; `refused` is that there is no such label. Labels that are nil are read, which panics.
unfoldable pub label_in : Dict Text → Text → Picked Text
label_in labels label = elim (lookup label labels) [ none ↦ refused | some v ↦ picked v ]

unfoldable pub get_label : Application → Text → Picked Text
get_label a label = elim a.labels [ none ↦ panicked | some labels ↦ label_in labels label ]

-- getApplication: the first of that name; no result is an error.
unfoldable pub get_application : Task → List Application → Option Application
get_application t [] = none
get_application t (a ∷ apps) = if eqt a.id t.app_id then some a else get_application t apps
