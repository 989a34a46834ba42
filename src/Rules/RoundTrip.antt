-- ===== src/Rules/RoundTrip.antt =====
-- Reading back a printed rule expression (server/rules.go).
use traefik_release.Base.{
  ℕ, ◌≡◌, refl, ◌∙◌, fun_ext, ◌≢◌, Bool, false, Option, none, some, List, [], ◌∷◌, ◌++◌, map, arith,
  All, All-append, Text, txt, eqt, is_empty, trim_space, join, lookup, fields_func, IsPlain,
  IsField, fields_func-join,
}
use traefik_release.Rules.Syntax.{
  RuleFunction, host, host_regexp, path, path_strip, path_strip_regex, path_prefix,
  path_prefix_strip, path_prefix_strip_regex, methods, headers, headers_regexp, add_prefix,
  replace_path, functions, Outcome, is_colon, is_comma, is_semicolon, parse_args, wrap, call_rule,
  parse_pieces, parse_rule, parse_next, parse_each, parse_rules, on_rule,
}

-- A rule as its author means it.
pub record Rule : Type 0 where
  pub function : RuleFunction
  pub args : List Text

abbrev pub name_of : RuleFunction → Text
name_of host = txt "Host"
name_of host_regexp = txt "HostRegexp"
name_of path = txt "Path"
name_of path_strip = txt "PathStrip"
name_of path_strip_regex = txt "PathStripRegex"
name_of path_prefix = txt "PathPrefix"
name_of path_prefix_strip = txt "PathPrefixStrip"
name_of path_prefix_strip_regex = txt "PathPrefixStripRegex"
name_of methods = txt "Method"
name_of headers = txt "Headers"
name_of headers_regexp = txt "HeadersRegexp"
name_of add_prefix = txt "AddPrefix"
name_of replace_path = txt "ReplacePath"

-- Name:arg,arg
abbrev pub print_rule : Rule → Text
print_rule r = name_of r.function ++ (b':' ∷ join (b',' ∷ []) r.args)

-- Rule;Rule
abbrev pub print_rules : List Rule → Text
print_rules rules = join (b';' ∷ []) (map print_rule rules)

-- The arguments can be read back: there is one, each is trimmed, not empty, and without "," and
-- ";", and together they are pieces between single colons.
pub record IsPrintable (r : Rule) : Type 0 where
  pub given : r.args ≢ []
  pub fields : All (IsField is_comma) r.args
  pub trimmed : All (λ a. trim_space a ≡ a) r.args
  pub no_semicolon : All (IsPlain is_semicolon) r.args
  pub pieces : List Text
  pub pieces_given : pieces ≢ []
  pub pieces_plain : All (IsField is_colon) pieces
  pub pieces_join : join (b',' ∷ []) r.args ≡ join (b':' ∷ []) pieces

name-IsField : (f : RuleFunction) → IsField is_colon (name_of f)
name-IsField f = ground arith

name_no_semicolon : (f : RuleFunction) → IsPlain is_semicolon (name_of f)
name_no_semicolon f = ground arith

lookup-name_of : (f : RuleFunction) → lookup (name_of f) functions ≡ some f
unfolding lookup functions eqt
lookup-name_of host = refl
lookup-name_of host_regexp = refl
lookup-name_of path = refl
lookup-name_of path_strip = refl
lookup-name_of path_strip_regex = refl
lookup-name_of path_prefix = refl
lookup-name_of path_prefix_strip = refl
lookup-name_of path_prefix_strip_regex = refl
lookup-name_of methods = refl
lookup-name_of headers = refl
lookup-name_of headers_regexp = refl
lookup-name_of add_prefix = refl
lookup-name_of replace_path = refl

trim_space-name_of : (f : RuleFunction) → trim_space (name_of f) ≡ name_of f
unfolding trim_space
trim_space-name_of host = refl
trim_space-name_of _ = refl

map_trimmed : (args : List Text) → All (λ a. trim_space a ≡ a) args → map trim_space args ≡ args
map_trimmed [] h = refl
map_trimmed (a ∷ args) (e, h) = cc (e, map_trimmed args h)

IsPlain-join :
    (sep : ℕ → Bool) (d : ℕ) (parts : List Text)
    → sep d ≡ false
    → All (IsPlain sep) parts
    → IsPlain sep (join (d ∷ []) parts)
unfolding join
IsPlain-join sep d [] e h = tt
IsPlain-join sep d (s ∷ []) e h = h.0
IsPlain-join sep d (s ∷ t ∷ more) e (p, h) =
    All-append (λ c. sep c ≡ false) s _ p (e, IsPlain-join sep d (t ∷ more) e h)

append-cons-ne-nil : (s : Text) (c : ℕ) (t : Text) → s ++ (c ∷ t) ≢ []
append-cons-ne-nil [] c t e = cc
append-cons-ne-nil (d ∷ s) c t e = cc

print_rule-IsField : (r : Rule) → IsPrintable r → IsField is_semicolon (print_rule r)
print_rule-IsField r p = (
  append-cons-ne-nil (name_of r.function) _ _,
  All-append (λ c. is_semicolon c ≡ false) (name_of r.function) _ (name_no_semicolon r.function)
      (refl, IsPlain-join is_semicolon b',' r.args refl p.no_semicolon),
)

-- The name and the pieces that the loop sees.
print_rule-pieces :
    (name : Text) (pieces : List Text)
    → IsField is_colon name
    → pieces ≢ []
    → All (IsField is_colon) pieces
    → fields_func is_colon (name ++ (b':' ∷ join (b':' ∷ []) pieces)) ≡ name ∷ pieces
unfolding join
print_rule-pieces name [] f g h = absurd (g refl)
print_rule-pieces name (p ∷ ps) f g h = fields_func-join is_colon b':' (name ∷ p ∷ ps) refl (f, h)

parse_args-printed : (r : Rule) (p : IsPrintable r) → parse_args p.pieces ≡ r.args
unfolding parse_args
parse_args-printed r p =
    rw (← p.pieces_join, fields_func-join is_comma b',' r.args refl p.fields)
      (map_trimmed r.args p.trimmed)

All-print_rule :
    (rules : List Rule) → All IsPrintable rules → All (IsField is_semicolon) (map print_rule rules)
All-print_rule [] h = tt
All-print_rule (r ∷ rules) (p, h) = (print_rule-IsField r p, All-print_rule rules h)

is_empty-append-cons : (s : Text) (c : ℕ) (t : Text) → is_empty (s ++ (c ∷ t)) ≡ false
unfolding is_empty
is_empty-append-cons [] c t = refl
is_empty-append-cons (d ∷ s) c t = refl

is_empty-append_left : (s t : Text) → is_empty s ≡ false → is_empty (s ++ t) ≡ false
unfolding is_empty
is_empty-append_left [] t e = cc
is_empty-append_left (c ∷ s) t e = refl

print_rules-nonempty : (rules : List Rule) → rules ≢ [] → is_empty (print_rules rules) ≡ false
unfolding join
print_rules-nonempty [] ne = absurd (ne refl)
print_rules-nonempty (r ∷ []) ne = is_empty-append-cons (name_of r.function) _ _
print_rules-nonempty (r ∷ q ∷ rules) ne =
    is_empty-append_left (print_rule r) _ (is_empty-append-cons (name_of r.function) _ _)

module _ {S E : Type 0} (callback : Text → RuleFunction → List Text → S → S × Option E) where
  -- What follows an answer of the callback: the rest, or its error and the state at that point.
  abbrev pub or_stop : (S → Outcome S E) → S × Option E → Outcome S E
  or_stop rest (s, none) = rest s
  or_stop rest (s, some e) = (s, some (on_rule e))

  -- The callback at each rule in turn, up to the first error.
  pub run_rules : List Rule → S → Outcome S E
  run_rules [] s = (s, none)
  run_rules (r ∷ rules) s =
      or_stop (λ t. run_rules rules t) (callback (name_of r.function) r.function r.args s)

  parse_next-wrap :
      (rest : S → Outcome S E) (x : S × Option E)
      → parse_next callback rest (wrap x) ≡ or_stop rest x
  unfolding parse_next wrap
  parse_next-wrap rest (s, none) = refl
  parse_next-wrap rest (s, some e) = refl

  call_rule_given :
      (rule name : Text) (f : RuleFunction) (args : List Text) (s : S)
      → args ≢ []
      → call_rule callback rule name f args s ≡ wrap (callback name f args s)
  unfolding call_rule
  call_rule_given rule name f [] s h = absurd (h refl)
  call_rule_given rule name f (a ∷ args) s h = refl

  parse_pieces_known :
      (rule name : Text) (pieces : List Text) (f : RuleFunction) (s : S)
      → lookup (trim_space name) functions ≡ some f
      → parse_pieces callback rule (name ∷ pieces) s
        ≡ call_rule callback rule (trim_space name) f (parse_args pieces) s
  unfolding parse_pieces
  parse_pieces_known rule name pieces f s e = rw (e, parse_pieces)

  parse_rule-print_rule :
      (r : Rule) (s : S)
      → IsPrintable r
      → parse_rule callback (print_rule r) s
        ≡ wrap (callback (name_of r.function) r.function r.args s)
  unfolding parse_rule
  parse_rule-print_rule r s p =
      rw
        (
          p.pieces_join,
          print_rule-pieces (name_of r.function) p.pieces (name-IsField r.function) p.pieces_given
              p.pieces_plain,
        )
        (parse_pieces_known _ (name_of r.function) p.pieces r.function s
            (rw (trim_space-name_of r.function, lookup-name_of r.function))
          ∙ rw (trim_space-name_of r.function, parse_args-printed r p)
              (call_rule_given _ (name_of r.function) r.function r.args s p.given))

  parse_each-print :
      (rules : List Rule) (s : S)
      → All IsPrintable rules
      → parse_each callback (map print_rule rules) s ≡ run_rules rules s
  unfolding parse_each run_rules
  parse_each-print [] s h = refl
  parse_each-print (r ∷ rules) s (p, h) =
      rw (parse_rule-print_rule r s p, fun_ext (λ t. parse_each-print rules t h))
        (parse_next-wrap (λ t. run_rules rules t) _)

  -- Parsing the expression that a list of rules is printed as calls the callback at each rule's
  -- name, function and arguments, in their order, up to the first error; the list is not empty and
  -- the rules are printable.
  pub parse_rules-print :
      (rules : List Rule) (s : S)
      → rules ≢ []
      → All IsPrintable rules
      → parse_rules callback (print_rules rules) s ≡ run_rules rules s
  unfolding parse_rules
  parse_rules-print rules s ne h =
      rw
        (
          print_rules-nonempty rules ne,
          fields_func-join is_semicolon b';' (map print_rule rules) refl (All-print_rule rules h),
        )
        (parse_each-print rules s h)
