-- ===== src/Provider/Docker.antt =====
-- provider/docker/docker.go: the provider's settings, and what it keeps of a container, a service of
-- a swarm, or a task of one. The children model its functions.
use traefik_release.Base.{
  ℕ, zero, suc, ◌+◌, ◌-◌, ◌*◌, ◌/◌, ◌%◌, ◌^◌, ◌≤◌, ◌<◌, ◌≡◌, refl, sym, ap, subst, ◌∙◌, fun_ext,
  ◌≢◌, ◌↔◌, ◌⊎◌, inl, inr, Bool, true, false, not, ◌&&◌, ◌||◌, Option, none, some, List, [], ◌∷◌,
  ◌++◌, map, reverse, append-nil, append_assoc, arith, ltb, leb, ◌==◌, if◌then◌else◌, ==_iff,
  Bool-cases, Option-cases, length, take, drop, keep, any, all, length-append, length-take, All,
  All-append, Text, txt, eqt, eqt_refl, eqt_iff, eqt_of_ne, is_empty, is_space, trim_left,
  trim_space, lower, to_lower, equal_fold, strip, trim_prefix, trim_suffix, join, cut, contains,
  strip-append, strip-eq-some, strip_iff, Dict, lookup, insert, delete, keys, lookup-insert,
  lookup-delete, lookup-insert_self, count, IsDistinct, any_of_count, close, fields_from,
  fields_func, IsPlain, IsField, fields_func-IsField, fields_func-join, fields_func-plain,
  split_from, split, split-join, cut-eq-some,
}
pub mod Labels
pub mod Services
pub mod Addresses
pub mod Filters
pub mod Listing
pub mod Swarm
pub mod Loading
pub mod Providing
pub mod ServiceLaws
pub mod Laws
use traefik_release.Provider.Constraints.{Constraint}

-- Provider, less what is for the connection
pub record Docker : Type 0 where
  pub constraints : List Constraint
  pub domain : Text
  pub exposed_by_default : Bool
  pub use_bind_port_ip : Bool
  pub swarm_mode : Bool
  pub watch : Bool

-- networkData
pub record NetworkData : Type 0 where
  pub name : Text
  pub addr : Text
  pub port : ℕ
  pub protocol : Text
  pub id : Text

pub record PortBinding : Type 0 where
  pub host_ip : Text
  pub host_port : Text

-- networkSettings; a map that is nil is empty. The keys of the ports are as "80/tcp".
pub record NetworkSettings : Type 0 where
  pub network_mode : Text
  pub ports : Dict (List PortBinding)
  pub networks : Dict NetworkData

-- dockerData
pub record DockerData : Type 0 where
  pub service_name : Text
  pub name : Text
  pub labels : Dict Text
  pub network_settings : NetworkSettings
  pub health : Text

-- networkSettings{}
abbrev pub no_network_settings : NetworkSettings
no_network_settings = record { network_mode = []; ports = []; networks = [] }
