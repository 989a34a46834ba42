-- ===== src/Provider/Kv.antt =====
-- provider/kv/kv.go: the provider's settings, and what it reads of the store.
use traefik_release.Base.{
  ℕ, zero, suc, ◌+◌, ◌-◌, ◌*◌, ◌/◌, ◌%◌, ◌^◌, ◌≤◌, ◌<◌, ◌≡◌, refl, sym, ap, subst, ◌∙◌, fun_ext,
  ◌≢◌, ◌↔◌, ◌⊎◌, inl, inr, Bool, true, false, not, ◌&&◌, ◌||◌, Option, none, some, List, [], ◌∷◌,
  ◌++◌, map, reverse, append-nil, append_assoc, arith, ltb, leb, ◌==◌, if◌then◌else◌, ==_iff,
  Bool-cases, Option-cases, length, take, drop, keep, any, all, length-append, length-take, All,
  All-append, All-mono, Text, txt, eqt, eqt_refl, eqt_iff, eqt_of_ne, is_empty, is_space, trim_left,
  trim_space, lower, to_lower, equal_fold, strip, trim_prefix, trim_suffix, join, cut, contains,
  strip-append, strip-eq-some, strip_iff, Dict, lookup, insert, delete, keys, lookup-insert,
  lookup-delete, lookup-insert_self, count, IsDistinct, any_of_count, close, fields_from,
  fields_func, IsPlain, IsField, fields_func-IsField, fields_func-join, fields_func-plain,
  split_from, split, split-join, cut-eq-some,
}
pub mod Values
pub mod Loading
pub mod Laws
use traefik_release.Provider.Constraints.{Constraint}

-- Provider, less what is for the connection
pub record Kv : Type 0 where
  pub constraints : List Constraint
  pub prefix : Text

-- The answer for one key: that it is missing, another error, no pair, or the value of a pair, which
-- may be nil.
pub data Answer : Type 0 where
  key_not_found failed no_pair : Answer
  pair : Option Text → Answer

-- The store, for the time of one load: a key, and the keys under another; no list is an error.
pub record Store : Type 0 where
  pub get : Text → Answer
  pub list : Text → Option (List Text)
