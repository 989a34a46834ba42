-- ===== src/Provider/Consul.antt =====
-- provider/consul/consul_catalog.go: the provider's settings, and what it keeps of a service.
use traefik_release.Base.{
  ℕ, zero, suc, ◌+◌, ◌-◌, ◌*◌, ◌/◌, ◌%◌, ◌^◌, ◌≤◌, ◌<◌, ◌≡◌, refl, sym, ap, subst, ◌∙◌, fun_ext,
  ◌≢◌, ◌↔◌, ◌⊎◌, inl, inr, Bool, true, false, not, ◌&&◌, ◌||◌, Option, none, some, List, [], ◌∷◌,
  ◌++◌, map, reverse, append-nil, append_assoc, arith, ltb, leb, ◌==◌, if◌then◌else◌, ==_iff,
  Bool-cases, Option-cases, length, take, drop, keep, any, all, length-append, length-take, All,
  All-append, All-mono, Text, txt, eqt, eqt_refl, eqt_iff, eqt_of_ne, is_empty, is_space, trim_left,
  trim_space, lower, to_lower, equal_fold, strip, trim_prefix, trim_suffix, join, cut, contains,
  strip-append, strip-eq-some, strip_iff, Dict, lookup, insert, delete, keys, lookup-insert,
  lookup-delete, lookup-insert_self, count, IsDistinct, any_of_count, close, fields_from,
  fields_func, IsPlain, IsField, fields_func-IsField, fields_func-join, fields_func-plain,
  split_from, split, split-join, cut-eq-some,
}
pub mod Attributes
pub mod Nodes
pub mod Watching
pub mod Laws
pub mod Tags
use traefik_release.Provider.Numbers.{ℤ}
use traefik_release.Provider.Constraints.{Constraint}

-- CatalogProvider, less what is for the connection
pub record Catalog : Type 0 where
  pub constraints : List Constraint
  pub domain : Text
  pub prefix : Text

-- api.ServiceEntry: a service on a node
pub record ServiceEntry : Type 0 where
  pub node_address : Text
  pub service : Text
  pub service_address : Text
  pub tags : List Text
  pub port : ℤ

-- serviceUpdate
pub record ServiceUpdate : Type 0 where
  pub service_name : Text
  pub attributes : List Text

-- catalogUpdate
pub record CatalogUpdate : Type 0 where
  pub service : ServiceUpdate
  pub nodes : List ServiceEntry
