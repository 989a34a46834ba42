-- ===== src/Provider/Examples.antt =====
-- Constraints on concrete inputs.
use traefik_release.Base.{
  ◌≡◌, refl, true, false, not, ◌&&◌, none, [], ◌∷◌, if◌then◌else◌, txt, eqt, strip, cut, contains,
  split,
}
use traefik_release.Provider.Constraints.{
  Constraint, ok, err, not_a_tag, finish_constraint, new_constraint, constraint_string, set_from,
  set_constraints, match_constraints,
}
use traefik_release.Provider.ConstraintLaws.{
  new_constraint-constraint_string, Meaning, match_constraints-Meaning,
}

abbrev us : Constraint
us = record { key = txt "tag"; must_match = true; regex = txt "us" }

abbrev not_eu : Constraint
not_eu = record { key = txt "tag"; must_match = false; regex = txt "eu" }

abbrev odd : Constraint
odd = record { key = txt "tag"; must_match = false; regex = txt "=eu" }

reads_us : new_constraint (txt "tag==us") ≡ ok us
unfolding new_constraint contains cut strip finish_constraint eqt
reads_us = refl

reads_list : set_constraints [] (txt "tag==us,tag!=eu") ≡ (us ∷ not_eu ∷ [], none)
unfolding set_constraints set_from split new_constraint contains cut strip finish_constraint eqt
reads_list = refl

new_constraint-constraint_string_example : new_constraint (constraint_string odd) ≡ (
    if not odd.must_match && contains (b'=' ∷ odd.regex) (txt "==") then err not_a_tag else ok odd)
new_constraint-constraint_string_example = new_constraint-constraint_string odd refl

-- Its text "tag!==eu" is refused.
odd_refused : new_constraint (txt "tag!==eu") ≡ err not_a_tag
unfolding new_constraint contains cut strip finish_constraint eqt
odd_refused = refl

match_constraints-Meaning_example :
    Meaning eqt
      (txt "us" ∷ txt "eu" ∷ [])
      (us ∷ not_eu ∷ [])
      (match_constraints eqt (us ∷ not_eu ∷ []) (txt "us" ∷ txt "eu" ∷ []))
match_constraints-Meaning_example =
    match_constraints-Meaning eqt (txt "us" ∷ txt "eu" ∷ []) (us ∷ not_eu ∷ [])
