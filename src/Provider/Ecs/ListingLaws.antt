-- ===== src/Provider/Ecs/ListingLaws.antt =====
-- provider/ecs/ecs.go: the index of a task's definition leads to that definition.
use traefik_release.Base.{
  ℕ, zero, suc, ◌≡◌, refl, sym, ap, subst, ◌∙◌, inl, inr, none, some, List, [], ◌∷◌, ◌++◌, arith,
  Bool-cases, Option-cases, length, All, All-mono, Text, eqt, eqt_iff, Dict, lookup, insert,
  lookup-insert, lookup-insert_self,
}
use traefik_release.Provider.Slices.{get_elem?, get_elem?-middle}
use traefik_release.Provider.Picking.{
  then_picked, Picked, picked, refused, panicked, element, element-some,
}
use traefik_release.Provider.Ecs.Listing.{lookup_task_definitions}
use traefik_release.Provider.Ecs.Lookups.{
  TaskDefinition, Aws, Numbering, add_arn, number_from, number_arns, index_at,
}

get_elem?-append {ℓ} :
    {A : Type ℓ} (xs ys : List A) (i : ℕ) (x : A)
    → get_elem? xs i ≡ some x
    → get_elem? (xs ++ ys) i ≡ some x
unfolding get_elem?
get_elem?-append [] ys i x e = cc
get_elem?-append (y ∷ xs) ys zero x e = e
get_elem?-append (y ∷ xs) ys (suc i) x e = get_elem?-append xs ys i x e

add_arn-old :
    (arn : Text) (n : Numbering) (i : ℕ) → lookup arn n.by_arn ≡ some i → add_arn arn n ≡ n
unfolding add_arn
add_arn-old arn n i e = rw (e, add_arn)

add_arn-new :
    (arn : Text) (n : Numbering)
    → lookup arn n.by_arn ≡ none
    → add_arn arn n
      ≡ record { arns = n.arns ++ arn ∷ []; by_arn = insert arn (length n.arns) n.by_arn }
unfolding add_arn
add_arn-new arn n e = rw (e, add_arn)

-- The index of a name is where the name stands.
abbrev IsNumbered : Numbering → Type 0
IsNumbered n = (arn : Text) (i : ℕ) → lookup arn n.by_arn ≡ some i → get_elem? n.arns i ≡ some arn

add_arn-IsNumbered : (arn : Text) (n : Numbering) → IsNumbered n → IsNumbered (add_arn arn n)
add_arn-IsNumbered arn n h = elim (Option-cases (lookup arn n.by_arn)) [
  | inl e ↦ rw (add_arn-new arn n e) (new_number arn n h)
  | inr (i, e) ↦ rw (add_arn-old arn n i e) h
]
  where
    new_number :
        (arn : Text) (n : Numbering)
        → IsNumbered n
        → (other : Text) (i : ℕ) → lookup other (insert arn (length n.arns) n.by_arn) ≡ some i
        → get_elem? (n.arns ++ arn ∷ []) i ≡ some other
    new_number arn n h other i e =
        let inserted = sym (lookup-insert arn other (length n.arns) n.by_arn) ∙ e in
        elim (Bool-cases (eqt arn other)) [
          | inl f ↦
              let last : length n.arns ≡ i = ground (arith, f, inserted) in
              subst (λ k. get_elem? (n.arns ++ arn ∷ []) k ≡ some other) last
                (get_elem?-middle n.arns arn [] ∙ ap some ((eqt_iff arn other).0 f))
          | inr f ↦
              get_elem?-append n.arns (arn ∷ []) i other (h other i (ground (arith, f, inserted)))
        ]

-- A name that is numbered stays so, with its index.
add_arn-keeps :
    (arn other : Text) (n : Numbering) (i : ℕ)
    → lookup other n.by_arn ≡ some i
    → lookup other (add_arn arn n).by_arn ≡ some i
add_arn-keeps arn other n i h = elim (Option-cases (lookup arn n.by_arn)) [
  | inl e ↦
      rw (add_arn-new arn n e)
        (lookup-insert arn other (length n.arns) n.by_arn ∙ ground (arith, h, e, eqt_iff arn other))
  | inr (k, e) ↦ rw (add_arn-old arn n k e) h
]

number_from-keeps :
    (n : Numbering) (arns : List Text) (other : Text) (i : ℕ)
    → lookup other n.by_arn ≡ some i
    → lookup other (number_from n arns).by_arn ≡ some i
unfolding number_from
number_from-keeps n [] other i h = h
number_from-keeps n (arn ∷ arns) other i h =
    number_from-keeps (add_arn arn n) arns other i (add_arn-keeps arn other n i h)

add_arn-found :
    (arn : Text) (n : Numbering) → (i : ℕ) × (lookup arn (add_arn arn n).by_arn ≡ some i)
add_arn-found arn n = elim (Option-cases (lookup arn n.by_arn)) [
  | inl e ↦
      (length n.arns, rw (add_arn-new arn n e) (lookup-insert_self arn (length n.arns) n.by_arn))
  | inr (i, e) ↦ (i, rw (add_arn-old arn n i e) e)
]

number_from-found :
    (n : Numbering) (arns : List Text)
    → All (λ arn. (i : ℕ) × (lookup arn (number_from n arns).by_arn ≡ some i)) arns
unfolding number_from
number_from-found n [] = tt
number_from-found n (arn ∷ arns) =
    let found = add_arn-found arn n in
    (
      (found.0, number_from-keeps (add_arn arn n) arns arn found.0 found.1),
      number_from-found (add_arn arn n) arns,
    )

number_from-IsNumbered :
    (n : Numbering) (arns : List Text) → IsNumbered n → IsNumbered (number_from n arns)
unfolding number_from
number_from-IsNumbered n [] h = h
number_from-IsNumbered n (arn ∷ arns) h =
    number_from-IsNumbered (add_arn arn n) arns (add_arn-IsNumbered arn n h)

index_at-some : (k : Text) (m : Dict ℕ) (i : ℕ) → lookup k m ≡ some i → index_at k m ≡ i
unfolding index_at
index_at-some k m i e = rw (e, index_at)

module _ (aws : Aws) where
  then_picked-cons :
      (d : TaskDefinition) (m : Picked (List TaskDefinition)) (ds : List TaskDefinition)
      → then_picked m (λ more. picked (d ∷ more)) ≡ picked ds
      → (more : List TaskDefinition) × (m ≡ picked more) × (ds ≡ d ∷ more)
  unfolding then_picked
  then_picked-cons d (picked more) ds h = (more, refl, ground arith)
  then_picked-cons d refused ds h = cc
  then_picked-cons d panicked ds h = cc

  lookup_task_definitions-cons :
      (a : Text) (arns : List Text) (ds : List TaskDefinition)
      → lookup_task_definitions aws (a ∷ arns) ≡ picked ds
      → (d : TaskDefinition) × (more : List TaskDefinition) × (aws.describe_task_definition a
          ≡ some d)
        × (lookup_task_definitions aws arns ≡ picked more)
        × (ds ≡ d ∷ more)
  unfolding lookup_task_definitions
  lookup_task_definitions-cons a arns ds h = elim (Option-cases (aws.describe_task_definition a)) [
    | inl e ↦ ground (arith, e, h)
    | inr (d, e) ↦
        let (more, f, g) =
          then_picked-cons d (lookup_task_definitions aws arns) ds
            (rw (e, lookup_task_definitions) at h) in
        (d, more, e, f, g)
  ]

  -- The definitions stand where the names stand.
  lookup_task_definitions-at :
      (arns : List Text) (ds : List TaskDefinition) (i : ℕ) (arn : Text)
      → lookup_task_definitions aws arns ≡ picked ds
      → get_elem? arns i ≡ some arn
      → (d : TaskDefinition) × (aws.describe_task_definition arn ≡ some d)
        × (get_elem? ds i ≡ some d)
  unfolding lookup_task_definitions get_elem?
  lookup_task_definitions-at [] ds i arn h e = cc
  lookup_task_definitions-at (a ∷ arns) ds zero arn h e =
      let (d, more, f, g, k) = lookup_task_definitions-cons a arns ds h in
      let same : a ≡ arn = ground (arith, e) in (d, rw (← same) f, ap (λ l. get_elem? l 0) k)
  lookup_task_definitions-at (a ∷ arns) ds (suc i) arn h e =
      let (d, more, f, g, k) = lookup_task_definitions-cons a arns ds h in
      let (found, p, q) = lookup_task_definitions-at arns more i arn g e in
      (found, p, ap (λ l. get_elem? l (suc i)) k ∙ q)

  definition_found :
      (n : Numbering) (ds : List TaskDefinition) (arn : Text) (i : ℕ)
      → IsNumbered n
      → lookup_task_definitions aws n.arns ≡ picked ds
      → lookup arn n.by_arn ≡ some i
      → (d : TaskDefinition) × (aws.describe_task_definition arn ≡ some d)
        × (element ds (index_at arn n.by_arn) ≡ picked d)
  definition_found n ds arn i h l e =
      let (d, f, g) = lookup_task_definitions-at n.arns ds i arn l (h arn i e) in
      (d, f, ap (element ds) (index_at-some arn n.by_arn i e) ∙ element-some ds i d g)

  -- After the numbering, and the lookup of every name once, the index of each task's name leads to
  -- what was answered for that name.
  pub number_arns-definition :
      (arns : List Text) (ds : List TaskDefinition)
      → lookup_task_definitions aws (number_arns arns).arns ≡ picked ds
      → All
          (λ arn.
            (d : TaskDefinition) × (aws.describe_task_definition arn ≡ some d)
            × (element ds (index_at arn (number_arns arns).by_arn) ≡ picked d))
          arns
  unfolding number_arns lookup
  number_arns-definition arns ds l =
      let n = number_from (record { arns = []; by_arn = [] }) arns in
      let valid : IsNumbered n = number_from-IsNumbered _ arns (λ arn i e. cc) in
      All-mono _ _ arns (λ arn found. definition_found n ds arn found.0 valid l found.1)
        (number_from-found (record { arns = []; by_arn = [] }) arns)
