-- ===== src/Provider/Mesos.antt =====
-- provider/mesos/mesos.go: the provider's settings, and what it reads of tasks and slaves.
use traefik_release.Base.{
  ℕ, zero, suc, ◌+◌, ◌-◌, ◌*◌, ◌/◌, ◌%◌, ◌^◌, ◌≤◌, ◌<◌, ◌≡◌, refl, sym, ap, subst, ◌∙◌, fun_ext,
  ◌≢◌, ◌↔◌, ◌⊎◌, inl, inr, Bool, true, false, not, ◌&&◌, ◌||◌, Option, none, some, List, [], ◌∷◌,
  ◌++◌, map, reverse, append-nil, append_assoc, arith, ltb, leb, ◌==◌, if◌then◌else◌, ==_iff,
  Bool-cases, Option-cases, length, take, drop, keep, any, all, length-append, length-take, All,
  All-append, Text, txt, eqt, eqt_refl, eqt_iff, eqt_of_ne, is_empty, is_space, trim_left,
  trim_space, lower, to_lower, equal_fold, strip, trim_prefix, trim_suffix, join, cut, contains,
  strip-append, strip-eq-some, strip_iff, Dict, lookup, insert, delete, keys, lookup-insert,
  lookup-delete, lookup-insert_self, count, IsDistinct, any_of_count, close, fields_from,
  fields_func, IsPlain, IsField, fields_func-IsField, fields_func-join, fields_func-plain,
  split_from, split, split-join, cut-eq-some,
}
pub mod Labels
pub mod Filters
pub mod Ports
pub mod Loading
pub mod Laws
pub mod CalmLaws
use traefik_release.Provider.Numbers.{ℤ}

-- Provider, less what is for the connection
pub record Mesos : Type 0 where
  pub domain : Text
  pub exposed_by_default : Bool
  pub groups_as_sub_domains : Bool
  pub ip_sources : Text
  pub masters : List Text

-- state.Task, with the name and the ports' numbers of its discovery information. A status may be
-- without its health. Labels are a list, in which a key may stand more than once.
pub record Task : Type 0 where
  pub id : Text
  pub name : Text
  pub slave_id : Text
  pub slave_ip : Text
  pub state : Text
  pub discovery_name : Text
  pub discovery_ports : List ℤ
  pub labels : Dict Text
  pub statuses : List (Option Bool)

-- labels: the first value of a key, or the empty text.
unfoldable pub labels_of : Task → Text → Text
labels_of t key = elim (lookup key t.labels) [ some v ↦ v | none ↦ [] ]

-- getLabel; no result is an error.
unfoldable pub get_label : Task → Text → Option Text
get_label t label = lookup label t.labels

-- getMesos: the first application of the task's name.
unfoldable pub get_mesos : Task → List Task → Option Task
get_mesos t [] = none
get_mesos t (a ∷ apps) = if eqt a.discovery_name t.discovery_name then some a else get_mesos t apps
