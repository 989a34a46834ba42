-- ===== src/Rules/Failures.antt =====
-- server/rules.go: when Parse and ParseDomains fail, and getRoute (server/server.go) meets a nil
-- route.
use traefik_release.Base.{
  ℕ, ◌≡◌, refl, ◌≢◌, ◌↔◌, inl, inr, Bool, true, false, Option, none, some, List, [], ◌∷◌, ◌++◌,
  arith, Option-cases, length, All, Text, is_empty, trim_space, lookup, close, fields_from,
  fields_func,
}
use traefik_release.Rules.Syntax.{
  RuleFunction, functions, empty_rule, Outcome, is_colon, is_semicolon, parse_args, wrap, call_rule,
  parse_pieces, parse_rule, parse_next, parse_each, parse_rules,
}
use traefik_release.Rules.Route.{
  Mux, ServerRoute, nil_route, ParseState, parse_callback, parse, finish_route, get_route,
  domains_callback, finish_domains, parse_domains,
}

-- A callback that never fails, beside any other.
module _ {S E T F : Type 0} (cb : Text → RuleFunction → List Text → S → S × Option E)
    (cb' : Text → RuleFunction → List Text → T → T × Option F)
    (never : (n : Text) (f : RuleFunction) (args : List Text) (t : T)
      → (cb' n f args t).1 ≡ none) where
  call_rule_agrees :
      (rule name : Text) (f : RuleFunction) (args : List Text) (s : S) (t : T)
      → (call_rule cb rule name f args s).1 ≡ none
      → (call_rule cb' rule name f args t).1 ≡ none
  unfolding call_rule wrap
  call_rule_agrees rule name f [] s t h = cc
  call_rule_agrees rule name f (a ∷ args) s t h = ground (arith, never name f (a ∷ args) t)

  parse_pieces_agrees :
      (rule : Text) (pieces : List Text) (s : S) (t : T)
      → (parse_pieces cb rule pieces s).1 ≡ none
      → (parse_pieces cb' rule pieces t).1 ≡ none
  unfolding parse_pieces
  parse_pieces_agrees rule [] s t h = cc
  parse_pieces_agrees rule (name ∷ pieces) s t h =
      elim (Option-cases (lookup (trim_space name) functions)) [
        | inl e ↦ ground arith
        | inr (f, e) ↦
            rw (e, parse_pieces)
              (call_rule_agrees rule (trim_space name) f (parse_args pieces) s t
                (rw (e, parse_pieces) at h))
      ]

  parse_each_agrees :
      (rules : List Text) (s : S) (t : T)
      → (parse_each cb rules s).1 ≡ none
      → (parse_each cb' rules t).1 ≡ none
  unfolding parse_each parse_next parse_rule
  parse_each_agrees [] s t h = refl
  parse_each_agrees (rule ∷ rules) s t h = ground (
    arith,
    parse_pieces_agrees rule (fields_func is_colon rule) s t,
    parse_each_agrees rules (parse_rule cb rule s).0 (parse_rule cb' rule t).0,
  )

  parse_rules_agrees :
      (expression : Text) (s : S) (t : T)
      → (parse_rules cb expression s).1 ≡ none
      → (parse_rules cb' expression t).1 ≡ none
  unfolding parse_rules
  parse_rules_agrees expression s t h =
      ground (arith, parse_each_agrees (fields_func is_semicolon expression) s t)

finish_domains-eq-none : (o : Outcome (List Text) ⊥) → o.1 ≡ none → (finish_domains o).1 ≡ none
unfolding finish_domains
finish_domains-eq-none (d, none) h = refl
finish_domains-eq-none (d, some e) h = cc

-- An expression that Parse accepts, on whatever route, is one that ParseDomains accepts.
pub parse_domains_of_parse :
    (m : Mux) (expression : Text) (r : ServerRoute m.Route)
    → (parse m expression r).1 ≡ none
    → (parse_domains expression).1 ≡ none
unfolding parse parse_domains domains_callback
parse_domains_of_parse m expression r h =
    finish_domains-eq-none (parse_rules domains_callback expression []) (
      parse_rules_agrees (parse_callback m) domains_callback (λ n f args t. refl) expression
        (r, false) [] h)

fields_func-eq-nil :
    (sep : ℕ → Bool) (s : Text) → All (λ c. sep c ≡ true) s → fields_func sep s ≡ []
unfolding fields_func fields_from close
fields_func-eq-nil sep [] h = refl
fields_func-eq-nil sep (c ∷ s) (e, h) = rw e (fields_func-eq-nil sep s h)

fields_from-ne-nil : (sep : ℕ → Bool) (c : ℕ) (cur s : Text) → fields_from sep (c ∷ cur) s ≢ []
unfolding fields_from close
fields_from-ne-nil sep c cur [] e = cc
fields_from-ne-nil sep c cur (d ∷ s) e = ground (arith, fields_from-ne-nil sep c (cur ++ d ∷ []) s)

separators_of_eq-nil :
    (sep : ℕ → Bool) (s : Text) → fields_func sep s ≡ [] → All (λ c. sep c ≡ true) s
unfolding fields_func fields_from close
separators_of_eq-nil sep [] h = tt
separators_of_eq-nil sep (c ∷ s) h =
    ground (arith, separators_of_eq-nil sep s, fields_from-ne-nil sep c [] s)

module _ (m : Mux) where
  parse_pieces-found :
      (rule : Text) (pieces : List Text) (st : ParseState m)
      → (parse_pieces (parse_callback m) rule pieces st).1 ≡ none
      → (parse_pieces (parse_callback m) rule pieces st).0.1 ≡ true
  unfolding parse_pieces call_rule wrap parse_callback
  parse_pieces-found rule [] st h = cc
  parse_pieces-found rule (name ∷ pieces) st h = ground arith

  parse_each-found :
      (rules : List Text) (st : ParseState m)
      → st.1 ≡ true
      → (parse_each (parse_callback m) rules st).1 ≡ none
      → (parse_each (parse_callback m) rules st).0.1 ≡ true
  unfolding parse_each parse_next parse_rule
  parse_each-found [] st e h = e
  parse_each-found (rule ∷ rules) st e h = ground (
    arith,
    parse_pieces-found rule (fields_func is_colon rule) st,
    parse_each-found rules (parse_rule (parse_callback m) rule st).0,
  )

  parse_each-found_cons :
      (rules : List Text) (st : ParseState m)
      → rules ≢ []
      → (parse_each (parse_callback m) rules st).1 ≡ none
      → (parse_each (parse_callback m) rules st).0.1 ≡ true
  unfolding parse_each parse_next parse_rule
  parse_each-found_cons [] st ne h = absurd (ne refl)
  parse_each-found_cons (rule ∷ rules) st ne h = ground (
    arith,
    parse_pieces-found rule (fields_func is_colon rule) st,
    parse_each-found rules (parse_rule (parse_callback m) rule st).0,
  )

  finish_route-eq-nil_route :
      (size : ℕ) (o : Outcome (ParseState m) Text)
      → (finish_route m size o).1 ≡ some nil_route
      → (o.1 ≡ none) × (o.0.1 ≡ false)
  unfolding finish_route
  finish_route-eq-nil_route size ((r, found), some e) h = cc
  finish_route-eq-nil_route size ((r, false), none) h = (refl, refl)
  finish_route-eq-nil_route size ((r, true), none) h = cc

  no_fields_of_nil_route :
      (rules : List Text) (st : ParseState m)
      → (parse_each (parse_callback m) rules st).1 ≡ none
      → (parse_each (parse_callback m) rules st).0.1 ≡ false
      → rules ≡ []
  no_fields_of_nil_route [] st h k = refl
  no_fields_of_nil_route (rule ∷ rules) st h k =
      let found = parse_each-found_cons (rule ∷ rules) st (λ e. cc) h in cc

  -- getRoute uses a nil route, and panics, exactly for an expression of one or more ";" and nothing
  -- else.
  pub get_route-eq-nil_route_iff :
      (rule : Text) (r : ServerRoute m.Route)
      → ((get_route m rule r).1 ≡ some nil_route)
        ↔ ((rule ≢ []) × All (λ c. is_semicolon c ≡ true) rule)
  unfolding get_route parse parse_rules is_empty
  get_route-eq-nil_route_iff [] r = (
    λ h. let e = finish_route-eq-nil_route 0 ((r, false), some empty_rule) h in cc (e.0),
    λ h. absurd (h.0 refl),
  )
  get_route-eq-nil_route_iff (c ∷ s) r =
      let found = parse_each (parse_callback m) (fields_func is_semicolon (c ∷ s)) (r, false) in
      (
        λ h. (
          λ e. cc,
          separators_of_eq-nil is_semicolon (c ∷ s) (
              let (ok, nil) = finish_route-eq-nil_route (length (c ∷ s)) found h in
              no_fields_of_nil_route _ (r, false) ok nil),
        ),
        λ h.
            rw (fields_func-eq-nil is_semicolon (c ∷ s) h.1)
              (unfold parse_each finish_route in refl),
      )
