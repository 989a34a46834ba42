-- ===== src/Provider/RancherExamples.antt =====
-- Services of Rancher on concrete inputs (provider/rancher/rancher.go).
use traefik_release.Base.{
  ◌≡◌, refl, true, false, [], ◌∷◌, keep, any, all, Text, txt, eqt, is_empty, lower, to_lower, strip,
  trim_prefix, trim_suffix, join, cut, contains, lookup, insert, delete, fields_from, fields_func,
  close, split_from, split,
}
use mathlib.Core.Bool.{xor}
use traefik_release.Provider.Constraints.{
  match_constraints, constraints_loop, match_with_at_least_one_tag,
}
use traefik_release.Provider.Numbers.{
  parse_int, parse_digits, digits_value, as_positive, as_negative, itoa_int,
}
use traefik_release.Provider.Labels.{
  replace_byte, normalize, or_else, parts_of, value_at, is_enabled, replace,
}
use traefik_release.Provider.Slices.{get_elem?, set}
use traefik_release.Provider.Picking.{element}
use traefik_release.Provider.Rendering.{decoded, rendered_with, get_configuration}
use traefik_release.Provider.Cluster.{itoa, itoa_from}
use traefik_release.Provider.Rancher.{Rancher, RancherData}
use traefik_release.Provider.Rancher.Labels.{
  get_service_label, get_frontend_rule, get_frontend_name,
}
use traefik_release.Provider.Rancher.Filters.{
  is_empty_or_one_of, is_service_enabled, is_well, service_filter,
}

rules : Unit {0}
unfolding match_constraints constraints_loop match_with_at_least_one_tag parse_int parse_digits
    digits_value as_positive as_negative replace_byte normalize or_else parts_of value_at is_enabled
    replace get_elem? set element decoded rendered_with get_configuration lookup insert delete eqt
    is_empty lower to_lower strip trim_prefix trim_suffix join cut contains fields_from fields_func
    close split_from split keep any all xor itoa itoa_from itoa_int get_service_label
    get_frontend_rule get_frontend_name is_empty_or_one_of is_service_enabled is_well service_filter
rules = tt

abbrev rancher : Rancher
rancher = record {
  constraints = [];
  domain = txt "rancher.localhost";
  exposed_by_default = false;
  enable_service_health_filter = true;
  watch = true;
}

abbrev service : Text → Text → RancherData
service enable state = record {
  name = txt "Stack/web";
  labels = (txt "traefik.port", txt "80") ∷ (txt "traefik.enable", enable) ∷ [];
  containers = [];
  health = txt "healthy";
  state = state;
}

takes_one : service_filter eqt rancher (service (txt "true") (txt "active")) ≡ true
unfolding rules
takes_one = refl

-- An empty label is as none, and the provider exposes nothing by default.
refuses_by_default : service_filter eqt rancher (service [] (txt "active")) ≡ false
unfolding rules
refuses_by_default = refl

refuses_inactive : service_filter eqt rancher (service (txt "true") (txt "inactive")) ≡ false
unfolding rules
refuses_inactive = refl

names_the_host : get_frontend_rule rancher (service [] []) ≡ txt "Host:stack.web.rancher.localhost"
unfolding rules
names_the_host = refl
