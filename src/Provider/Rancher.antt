-- ===== src/Provider/Rancher.antt =====
-- provider/rancher/rancher.go: the provider's settings, and what it keeps of a service.
use traefik_release.Base.{
  ℕ, zero, suc, ◌+◌, ◌-◌, ◌*◌, ◌/◌, ◌%◌, ◌^◌, ◌≤◌, ◌<◌, ◌≡◌, refl, sym, ap, subst, ◌∙◌, fun_ext,
  ◌≢◌, ◌↔◌, ◌⊎◌, inl, inr, Bool, true, false, not, ◌&&◌, ◌||◌, Option, none, some, List, [], ◌∷◌,
  ◌++◌, map, reverse, append-nil, append_assoc, arith, ltb, leb, ◌==◌, if◌then◌else◌, ==_iff,
  Bool-cases, Option-cases, length, take, drop, keep, any, all, length-append, length-take, All,
  All-append, Text, txt, eqt, eqt_refl, eqt_iff, eqt_of_ne, is_empty, is_space, trim_left,
  trim_space, lower, to_lower, equal_fold, strip, trim_prefix, trim_suffix, join, cut, contains,
  strip-append, strip-eq-some, strip_iff, Dict, lookup, insert, delete, keys, lookup-insert,
  lookup-delete, lookup-insert_self, count, IsDistinct, any_of_count, close, fields_from,
  fields_func, IsPlain, IsField, fields_func-IsField, fields_func-join, fields_func-plain,
  split_from, split, split-join, cut-eq-some,
}
pub mod Labels
pub mod Filters
pub mod Listing
pub mod Laws
use traefik_release.Provider.Constraints.{Constraint}

-- Provider, less what is for the connection
pub record Rancher : Type 0 where
  pub constraints : List Constraint
  pub domain : Text
  pub exposed_by_default : Bool
  pub enable_service_health_filter : Bool
  pub watch : Bool

-- rancherData
pub record RancherData : Type 0 where
  pub name : Text
  pub labels : Dict Text
  pub containers : List Text
  pub health : Text
  pub state : Text
