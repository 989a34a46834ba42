-- ===== src/Provider/Ecs.antt =====
-- provider/ecs/ecs.go: the provider's settings, and what it keeps of a container that runs.
use traefik_release.Base.{
  ℕ, zero, suc, ◌+◌, ◌-◌, ◌*◌, ◌/◌, ◌%◌, ◌^◌, ◌≤◌, ◌<◌, ◌≡◌, refl, sym, ap, subst, ◌∙◌, fun_ext,
  ◌≢◌, ◌↔◌, ◌⊎◌, inl, inr, Bool, true, false, not, ◌&&◌, ◌||◌, Option, none, some, List, [], ◌∷◌,
  ◌++◌, map, reverse, append-nil, append_assoc, arith, ltb, leb, ◌==◌, if◌then◌else◌, ==_iff,
  Bool-cases, Option-cases, length, take, drop, keep, any, all, length-append, length-take, All,
  All-append, Text, txt, eqt, eqt_refl, eqt_iff, eqt_of_ne, is_empty, is_space, trim_left,
  trim_space, lower, to_lower, equal_fold, strip, trim_prefix, trim_suffix, join, cut, contains,
  strip-append, strip-eq-some, strip_iff, Dict, lookup, insert, delete, keys, lookup-insert,
  lookup-delete, lookup-insert_self, count, IsDistinct, any_of_count, close, fields_from,
  fields_func, IsPlain, IsField, fields_func-IsField, fields_func-join, fields_func-plain,
  split_from, split, split-join, cut-eq-some,
}
pub mod Labels
pub mod Chunks
pub mod Lookups
pub mod Listing
pub mod Loading
pub mod ListingLaws
pub mod Laws
use traefik_release.Provider.Numbers.{ℤ}

-- Provider, less what is for the connection
pub record Ecs : Type 0 where
  pub domain : Text
  pub exposed_by_default : Bool
  pub watch : Bool

-- ec2.Instance, by its state's name and its private address
pub record Machine : Type 0 where
  pub state_name : Option Text
  pub private_ip_address : Option Text

-- ecsInstance: of the container the host's ports of its bindings, of its definition the labels. The
-- definition or the machine may be nil.
pub record EcsInstance : Type 0 where
  pub name : Text
  pub id : Text
  pub host_ports : List ℤ
  pub docker_labels : Option (Dict Text)
  pub machine : Option Machine
