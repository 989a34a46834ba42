-- ===== src/Provider/Ecs/Laws.antt =====
-- provider/ecs/ecs.go: filterFrontends keeps one instance of every name.
use traefik_release.Base.{
  ℕ, ◌+◌, ◌≡◌, ap, ◌∙◌, inl, inr, true, List, [], ◌∷◌, map, arith, if◌then◌else◌, Bool-cases, any,
  Text, eqt, eqt_iff, count,
}
use traefik_release.Provider.Ecs.{EcsInstance}
use traefik_release.Provider.Ecs.Labels.{first_of_names, filter_frontends}

abbrev pub names : List EcsInstance → List Text
names instances = map (λ i. i.name) instances

any-eqt_same :
    (s t : Text) (words : List Text) → eqt s t ≡ true → any (eqt s) words ≡ any (eqt t) words
any-eqt_same s t words e = ap (λ u. any (eqt u) words) ((eqt_iff s t).0 e)

zero_add : (n : ℕ) → 0 + n ≡ n
zero_add n = omega arith

first_of_names-count :
    (by_name : List Text) (instances : List EcsInstance) (name : Text)
    → count name (names (first_of_names by_name instances))
      ≡ (if any (eqt name) by_name then 0 else if any (eqt name) (names instances) then 1 else 0)
unfolding first_of_names any
first_of_names-count by_name [] name = ground arith
first_of_names-count by_name (i ∷ instances) name = elim (Bool-cases (eqt name i.name)) [
  | inl e ↦ elim (Bool-cases (any (eqt i.name) by_name)) [
    | inl f ↦
        let met = any-eqt_same name i.name by_name e ∙ f in
        rw (f, met) (first_of_names-count by_name instances name ∙ rw met)
    | inr f ↦
        let unmet = any-eqt_same name i.name by_name e ∙ f in
        let others : count name (names (first_of_names (i.name ∷ by_name) instances)) ≡ 0 =
          rw e at (first_of_names-count (i.name ∷ by_name) instances name) in
        rw (f, unmet, e) (omega (arith, others))
  ]
  | inr e ↦ elim (Bool-cases (any (eqt i.name) by_name)) [
    | inl f ↦ rw (f, e) (first_of_names-count by_name instances name)
    | inr f ↦
        let others = rw e at (first_of_names-count (i.name ∷ by_name) instances name) in
        rw (f, e) (zero_add _ ∙ others)
  ]
]

-- Every name of an instance is the name of exactly one that is kept, and no other name is.
pub filter_frontends-count :
    (instances : List EcsInstance) (name : Text)
    → count name (names (filter_frontends instances))
      ≡ (if any (eqt name) (names instances) then 1 else 0)
unfolding filter_frontends any
filter_frontends-count instances name = first_of_names-count [] instances name
