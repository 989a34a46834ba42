-- ===== src/Provider/ConstraintLaws.antt =====
-- types/types.go: constraints against their text form and their meaning.
use traefik_release.Base.{
  subst, ◌↔◌, ◌≡◌, refl, ap, ◌≢◌, inl, inr, Bool, true, false, not, ◌&&◌, Option, none, some, List,
  [], ◌∷◌, ◌++◌, arith, if◌then◌else◌, Bool-cases, Option-cases, any, All, Text, txt, eqt, eqt_iff,
  is_empty, strip, cut, contains, cut-eq-some,
}
use mathlib.Core.Bool.{xor}
use traefik_release.Provider.Constraints.{
  Constraint, not_a_tag, ok, err, finish_constraint, new_constraint, constraint_string,
  match_with_at_least_one_tag, constraints_loop, match_constraints,
}

contains_iff : (s sep : Text) → contains s sep ≡ true → (a b : Text) × (cut sep s ≡ some (a, b))
unfolding contains
contains_iff s sep h = elim (Option-cases (cut sep s)) [
  | inl e ↦ cc (rw (e, contains) at h)
  | inr ((a, b), e) ↦ (a, b, e)
]

finish-eq-ok :
    (must : Bool) (key regex : Text) (c : Constraint)
    → finish_constraint must (some (key, regex)) ≡ ok c
    → (c.key ≡ txt "tag") × (c.key ≡ key) × (c.regex ≡ regex) × (c.must_match ≡ must)
unfolding finish_constraint
finish-eq-ok must key regex c h = ground (arith, eqt_iff key (txt "tag"))

-- A text that is read as a constraint is the text of that constraint, and its key is "tag".
pub constraint_string-new_constraint :
    (exp : Text) (c : Constraint)
    → new_constraint exp ≡ ok c
    → (constraint_string c ≡ exp) × (c.key ≡ txt "tag")
unfolding new_constraint constraint_string
constraint_string-new_constraint exp c h = elim (Bool-cases (contains exp (txt "=="))) [
  | inl e ↦
      let (a, b, found) = contains_iff exp (txt "==") e in
      let facts = finish-eq-ok true a b c (rw (e, found) at h) in
      (cc (cut-eq-some (txt "==") exp a b found, facts.1, facts.2, facts.3), facts.0)
  | inr e ↦ elim (Bool-cases (contains exp (txt "!="))) [
    | inl e' ↦
        let (a, b, found) = contains_iff exp (txt "!=") e' in
        let facts = finish-eq-ok false a b c (rw (e, e', found) at h) in
        (cc (cut-eq-some (txt "!=") exp a b found, facts.1, facts.2, facts.3), facts.0)
    | inr e' ↦ cc (rw (e, e') at h)
  ]
]

tagged_eq :
    (regex : Text)
    → new_constraint ((txt "tag" ++ txt "==") ++ regex)
      ≡ ok (record { key = txt "tag"; must_match = true; regex = regex })
unfolding new_constraint contains cut strip finish_constraint eqt
tagged_eq regex = refl

tagged_ne :
    (regex : Text)
    → new_constraint ((txt "tag" ++ txt "!=") ++ regex) ≡ (
        if contains (b'=' ∷ regex) (txt "==")
        then err not_a_tag
        else ok (record { key = txt "tag"; must_match = false; regex = regex }))
unfolding new_constraint contains cut strip finish_constraint eqt
tagged_ne regex = ground arith

-- Reading the text of a constraint on tags gives the constraint back, but for one with "!=" whose
-- pattern begins with "=" or holds "==": its text is refused as not about a tag.
pub new_constraint-constraint_string :
    (c : Constraint)
    → c.key ≡ txt "tag"
    → new_constraint (constraint_string c)
      ≡ (if not c.must_match && contains (b'=' ∷ c.regex) (txt "==") then err not_a_tag else ok c)
unfolding constraint_string
new_constraint-constraint_string c k = elim (Bool-cases c.must_match) [
  | inl e ↦ rw (k, e) (tagged_eq c.regex)
  | inr e ↦ rw (k, e) (tagged_ne c.regex)
]

-- Every constraint that must match has a tag that its pattern fits, and none of the others has.
abbrev pub Holds : (Text → Text → Bool) → List Text → Constraint → Type 0
Holds glob tags c = any (glob c.regex) tags ≡ c.must_match

match_with_at_least_one_tag-eq-any :
    (glob : Text → Text → Bool) (c : Constraint) (tags : List Text)
    → match_with_at_least_one_tag glob c tags ≡ any (glob c.regex) tags
unfolding match_with_at_least_one_tag any
match_with_at_least_one_tag-eq-any glob c [] = refl
match_with_at_least_one_tag-eq-any glob c (tag ∷ tags) =
    ground (arith, match_with_at_least_one_tag-eq-any glob c tags)

xor_ne : (a b : Bool) → xor a b ≡ true → a ≢ b
unfolding xor
xor_ne a b h = ground arith

xor_eq : (a b : Bool) → xor a b ≡ false → a ≡ b
unfolding xor
xor_eq a b h = ground arith

-- The first constraint that does not hold of the tags.
pub record IsFirstFailing (glob : Text → Text → Bool) (tags : List Text) (cs : List Constraint)
    (c : Constraint) : Type 0 where
  pub before : List Constraint
  pub after : List Constraint
  pub parts : cs ≡ before ++ (c ∷ after)
  pub holding : All (Holds glob tags) before
  pub fails : ¬ Holds glob tags c

module _ (glob : Text → Text → Bool) (tags : List Text) where
  -- What an answer of MatchConstraints means.
  pub data Meaning (cs : List Constraint) : Bool × Option Constraint → Type 0 where
    accepted : All (Holds glob tags) cs → Meaning cs (true, none)
    refused : {c : Constraint} → IsFirstFailing glob tags cs c → Meaning cs (false, some c)

  Meaning-cons :
      (c : Constraint) (cs : List Constraint) (out : Bool × Option Constraint)
      → Holds glob tags c
      → Meaning cs out
      → Meaning (c ∷ cs) out
  Meaning-cons c cs out h (accepted hs) = accepted (h, hs)
  Meaning-cons c cs out h (refused f) = refused (record {
    before = c ∷ f.before;
    after = f.after;
    parts = ap (λ r. c ∷ r) f.parts;
    holding = (h, f.holding);
    fails = f.fails;
  })

  constraints_loop-Meaning : (cs : List Constraint) → Meaning cs (constraints_loop glob cs tags)
  unfolding constraints_loop xor
  constraints_loop-Meaning [] = accepted tt
  constraints_loop-Meaning (c ∷ cs) =
      rw (match_with_at_least_one_tag-eq-any glob c tags)
        (elim (Bool-cases (xor (any (glob c.regex) tags) c.must_match)) [
          | inl e ↦ rw e (
              refused (record {
                before = [];
                after = cs;
                parts = refl;
                holding = tt;
                fails = xor_ne _ _ e;
              }))
          | inr e ↦ rw e (Meaning-cons c cs _ (xor_eq _ _ e) (constraints_loop-Meaning cs))
        ])

  match_constraints-eq-loop :
      (cs : List Constraint) → match_constraints glob cs tags ≡ constraints_loop glob cs tags
  unfolding match_constraints constraints_loop is_empty
  match_constraints-eq-loop [] = ground arith
  match_constraints-eq-loop (c ∷ cs) = ground arith

  -- Tags are accepted if every constraint holds of them: some tag fits the pattern of one that must
  -- match, and none that of one that must not. Otherwise they are refused, with the first constraint
  -- that does not hold.
  pub match_constraints-Meaning :
      (cs : List Constraint) → Meaning cs (match_constraints glob cs tags)
  match_constraints-Meaning cs = rw (match_constraints-eq-loop cs) (constraints_loop-Meaning cs)

  all_of_accepted :
      (cs : List Constraint) (out : Bool × Option Constraint)
      → Meaning cs out
      → out.0 ≡ true
      → All (Holds glob tags) cs
  all_of_accepted cs out (accepted hs) e = hs
  all_of_accepted cs out (refused f) e = cc

  All-middle :
      (before : List Constraint) (c : Constraint) (after : List Constraint)
      → All (Holds glob tags) (before ++ c ∷ after)
      → Holds glob tags c
  All-middle [] c after h = h.0
  All-middle (b ∷ before) c after h = All-middle before c after h.1

  accepted_of_all :
      (cs : List Constraint) (out : Bool × Option Constraint)
      → Meaning cs out
      → All (Holds glob tags) cs
      → out.0 ≡ true
  accepted_of_all cs out (accepted hs) h = refl
  accepted_of_all cs out (refused {c} f) h =
      absurd (f.fails (All-middle f.before c f.after (subst (All (Holds glob tags)) f.parts h)))

  -- Tags are accepted exactly if every constraint holds of them.
  pub match_constraints_iff :
      (cs : List Constraint)
      → ((match_constraints glob cs tags).0 ≡ true) ↔ All (Holds glob tags) cs
  match_constraints_iff cs = (
    all_of_accepted cs (match_constraints glob cs tags) (match_constraints-Meaning cs),
    accepted_of_all cs (match_constraints glob cs tags) (match_constraints-Meaning cs),
  )
