-- ===== src/Rules/Syntax.antt =====
-- server/rules.go: the table of rule functions and parseRules. The callback `onRule` closes over
-- mutable variables; it is a function on their state, which comes back beside an error too.
use traefik_release.Base.{
  ℕ, Bool, Option, none, some, List, [], ◌∷◌, map, ◌==◌, if◌then◌else◌, Text, txt, is_empty,
  trim_space, join, Dict, lookup, fields_func,
}

-- The methods that the table `functions` names.
pub data RuleFunction : Type 0 where
  host host_regexp path path_strip path_strip_regex path_prefix path_prefix_strip : RuleFunction
  path_prefix_strip_regex methods headers headers_regexp add_prefix replace_path : RuleFunction

unfoldable pub functions : Dict RuleFunction
functions =
    (txt "Host", host)
    ∷ (txt "HostRegexp", host_regexp)
    ∷ (txt "Path", path)
    ∷ (txt "PathStrip", path_strip)
    ∷ (txt "PathStripRegex", path_strip_regex)
    ∷ (txt "PathPrefix", path_prefix)
    ∷ (txt "PathPrefixStrip", path_prefix_strip)
    ∷ (txt "PathPrefixStripRegex", path_prefix_strip_regex)
    ∷ (txt "Method", methods)
    ∷ (txt "Headers", headers)
    ∷ (txt "HeadersRegexp", headers_regexp)
    ∷ (txt "AddPrefix", add_prefix)
    ∷ (txt "ReplacePath", replace_path)
    ∷ []

-- The errors of parseRules; `on_rule` wraps one of the callback.
pub data ParseError (E : Type 0) : Type 0 where
  empty_rule : ParseError E
  bad_rule : Text → ParseError E
  unknown_function : Text → Text → ParseError E
  bad_args : Text → ParseError E
  on_rule : E → ParseError E

abbrev pub is_colon : ℕ → Bool
is_colon c = c == b':'

abbrev pub is_semicolon : ℕ → Bool
is_semicolon c = c == b';'

abbrev pub is_comma : ℕ → Bool
is_comma c = c == b','

-- The text behind the function's name, split into trimmed arguments.
unfoldable pub parse_args : List Text → List Text
parse_args pieces = map trim_space (fields_func is_comma (join (b':' ∷ []) pieces))

abbrev pub Outcome : Type 0 → Type 0 → Type 0
Outcome S E = S × Option (ParseError E)

module _ {S E : Type 0} where
  unfoldable pub wrap : S × Option E → Outcome S E
  wrap (s, none) = (s, none)
  wrap (s, some e) = (s, some (on_rule e))

  module _ (callback : Text → RuleFunction → List Text → S → S × Option E) where
    unfoldable pub call_rule : Text → Text → RuleFunction → List Text → S → Outcome S E
    call_rule rule name function [] s = (s, some (bad_args rule))
    call_rule rule name function (a ∷ args) s = wrap (callback name function (a ∷ args) s)

    unfoldable pub parse_pieces : Text → List Text → S → Outcome S E
    parse_pieces rule [] s = (s, some (bad_rule rule))
    parse_pieces rule (name ∷ pieces) s = elim (lookup (trim_space name) functions) [
      | none ↦ (s, some (unknown_function rule name))
      | some function ↦ call_rule rule (trim_space name) function (parse_args pieces) s
    ]

    -- One round of the loop over `parsedRules`.
    unfoldable pub parse_rule : Text → S → Outcome S E
    parse_rule rule s = parse_pieces rule (fields_func is_colon rule) s

    unfoldable pub parse_next : (S → Outcome S E) → Outcome S E → Outcome S E
    parse_next rest (s, none) = rest s
    parse_next rest (s, some e) = (s, some e)

    unfoldable pub parse_each : List Text → S → Outcome S E
    parse_each [] s = (s, none)
    parse_each (rule ∷ rules) s = parse_next (λ t. parse_each rules t) (parse_rule rule s)

    unfoldable pub parse_rules : Text → S → Outcome S E
    parse_rules expression s =
        if is_empty expression
        then (s, some empty_rule)
        else parse_each (fields_func is_semicolon expression) s
