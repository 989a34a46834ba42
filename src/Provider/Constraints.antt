-- ===== src/Provider/Constraints.antt =====
-- types/types.go: constraints on tags and their text form.
use mathlib.Core.Bool.{xor}
use traefik_release.Base.{
  Bool, true, false, ◌&&◌, Option, none, some, List, [], ◌∷◌, ◌++◌, if◌then◌else◌, Text, txt, eqt,
  is_empty, cut, contains, split,
}

pub record Constraint : Type 0 where
  pub key : Text
  pub must_match : Bool
  pub regex : Text

pub data ConstraintError : Type 0 where
  no_operator not_a_tag incorrect : ConstraintError

pub data Parsed : Type 0 where
  ok : Constraint → Parsed
  err : ConstraintError → Parsed

-- The two parts that strings.SplitN(exp, sep, 2) gives, if `sep` stands in the text.
unfoldable pub finish_constraint : Bool → Option (Text × Text) → Parsed
finish_constraint must none = err incorrect
finish_constraint must (some (key, regex)) =
    if eqt key (txt "tag")
    then ok (record { key = key; must_match = must; regex = regex })
    else err not_a_tag

-- NewConstraint
unfoldable pub new_constraint : Text → Parsed
new_constraint exp =
    if contains exp (txt "==")
    then finish_constraint true (cut (txt "==") exp)
    else if contains exp (txt "!=")
    then finish_constraint false (cut (txt "!=") exp)
    else err no_operator

-- String
unfoldable pub constraint_string : Constraint → Text
constraint_string c = c.key ++ (if c.must_match then txt "==" else txt "!=") ++ c.regex

-- Set: the constraints of a comma-separated text behind those that are there; at an error those
-- before it stay.
unfoldable pub set_from : List Constraint → List Text → List Constraint × Option ConstraintError
set_from cs [] = (cs, none)
set_from cs (exp ∷ exps) = elim (new_constraint exp) [
  | ok c ↦ set_from (cs ++ c ∷ []) exps
  | err e ↦ (cs, some e)
]

unfoldable pub set_constraints : List Constraint → Text → List Constraint × Option ConstraintError
set_constraints cs str = set_from cs (split b',' str)

-- UnmarshalText and MarshalText
unfoldable pub unmarshal_text : Text → Constraint → Constraint × Option ConstraintError
unmarshal_text text c = elim (new_constraint text) [
  | err e ↦ (c, some e)
  | ok d ↦ (record { key = d.key; must_match = d.must_match; regex = d.regex }, none)
]

abbrev pub marshal_text : Constraint → Text
marshal_text c = constraint_string c

-- MatchConstraintWithAtLeastOneTag; `glob` is the pattern matcher of package go-glob.
unfoldable pub match_with_at_least_one_tag : (Text → Text → Bool) → Constraint → List Text → Bool
match_with_at_least_one_tag glob c [] = false
match_with_at_least_one_tag glob c (tag ∷ tags) =
    if glob c.regex tag then true else match_with_at_least_one_tag glob c tags

-- MatchConstraints of provider/provider.go: whether every constraint holds, or the first that fails.
unfoldable pub constraints_loop :
    (Text → Text → Bool) → List Constraint → List Text → Bool × Option Constraint
constraints_loop glob [] tags = (true, none)
constraints_loop glob (c ∷ cs) tags =
    if xor (match_with_at_least_one_tag glob c tags) c.must_match
    then (false, some c)
    else constraints_loop glob cs tags

unfoldable pub match_constraints :
    (Text → Text → Bool) → List Constraint → List Text → Bool × Option Constraint
match_constraints glob cs tags =
    if is_empty tags && is_empty cs then (true, none) else constraints_loop glob cs tags
