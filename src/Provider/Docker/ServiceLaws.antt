-- ===== src/Provider/Docker/ServiceLaws.antt =====
-- provider/docker/docker.go: the labels of a service are found whatever the order of the labels.
use traefik_release.Base.{
  ◌≡◌, refl, sym, ap, ◌∙◌, ◌≢◌, inl, inr, Bool, true, false, ◌&&◌, Option, none, some, [], ◌∷◌,
  ◌++◌, append_assoc, arith, if◌then◌else◌, Bool-cases, Option-cases, Text, txt, eqt, eqt_refl,
  eqt_iff, strip, strip-eq-some, Dict, lookup, insert, lookup-insert, lookup-insert_self,
}
use traefik_release.Provider.Grouping.{IsMap}
use traefik_release.Provider.Docker.{DockerData}
use traefik_release.Provider.Docker.Services.{
  match_service, service_property, properties_of, put_property, extract_from,
  extract_services_labels, get_container_service_label,
}

-- The label that says `entry` of a service.
abbrev pub service_key : Text → Text → Text
service_key service entry = txt "traefik." ++ (service ++ (b'.' ∷ entry))

match_service-parts :
    (name s service entry : Text)
    → match_service name s ≡ some (service, entry)
    → name ++ s ≡ service ++ (b'.' ∷ entry)
unfolding match_service
match_service-parts name [] service entry h = cc
match_service-parts name (c ∷ s) service entry h =
    ground
      (arith, append_assoc name (c ∷ []) s, match_service-parts (name ++ c ∷ []) s service entry)

-- The expression takes a label apart without loss.
pub service_property-key :
    (index service entry : Text)
    → service_property index ≡ some (service, entry)
    → index ≡ service_key service entry
unfolding service_property
service_property-key index service entry h = elim (Option-cases (strip (txt "traefik.") index)) [
  | inl e ↦ ground (arith, e)
  | inr (rest, e) ↦
      strip-eq-some (txt "traefik.") index rest e
      ∙ ap (λ r. txt "traefik." ++ r)
          (match_service-parts [] rest service entry (ground (arith, e)))
]

-- What stands under the two names.
abbrev pub property_at : Text → Text → Dict (Dict Text) → Option Text
property_at service entry v = lookup entry (properties_of service v)

properties_of-insert :
    (s service : Text) (d : Dict Text) (v : Dict (Dict Text))
    → properties_of service (insert s d v) ≡ (if eqt s service then d else properties_of service v)
unfolding properties_of
properties_of-insert s service d v = ground (arith, lookup-insert s service d v)

-- A label under another name leaves the property, one under this name sets it.
property_at-put :
    (found : Option (Text × Text)) (value service entry : Text) (v : Dict (Dict Text))
    → (found ≢ some (service, entry))
    → property_at service entry (put_property found value v) ≡ property_at service entry v
unfolding put_property
property_at-put none value service entry v h = refl
property_at-put (some (s, q)) value service entry v h = elim (Bool-cases (eqt s service)) [
  | inl e ↦ elim (Bool-cases (eqt q entry)) [
    | inl f ↦ absurd (h (cc ((eqt_iff s service).0 e, (eqt_iff q entry).0 f)))
    | inr f ↦
        ap (lookup entry) (properties_of-insert s service _ v ∙ rw e)
        ∙ lookup-insert q entry value (properties_of s v)
        ∙ (rw f (ap (λ t. lookup entry (properties_of t v)) ((eqt_iff s service).0 e)))
  ]
  | inr e ↦ ap (lookup entry) (properties_of-insert s service _ v ∙ rw e)
]

property_at-put_self :
    (value service entry : Text) (v : Dict (Dict Text))
    → property_at service entry (put_property (some (service, entry)) value v) ≡ some value
unfolding put_property
property_at-put_self value service entry v =
    ap (lookup entry) (properties_of-insert service service _ v ∙ rw (eqt_refl service))
    ∙ lookup-insert_self entry value (properties_of service v)

ne_of_eqt : (s t : Text) → eqt s t ≡ false → s ≢ t
ne_of_eqt s t h e = ground (arith, h, (eqt_iff s t).1 e)

-- What the labels say of the property, or what was known.
module _ (service entry : Text) where
  abbrev pub said : Option Text → Option Text → Option Text
  said none old = old
  said (some v) old = some v

  extract_from-said :
      (v : Dict (Dict Text)) (labels : Dict Text)
      → service_property (service_key service entry) ≡ some (service, entry)
      → IsMap labels
      → property_at service entry (extract_from v labels)
        ≡ said (lookup (service_key service entry) labels) (property_at service entry v)
  unfolding extract_from lookup
  extract_from-said v [] h m = refl
  extract_from-said v ((index, value) ∷ labels) h (fresh, m) =
      elim (Bool-cases (eqt index (service_key service entry))) [
        | inl e ↦
            let same = (eqt_iff index (service_key service entry)).0 e in
            let found : service_property index ≡ some (service, entry) = rw same h in
            let gone : lookup (service_key service entry) labels ≡ none = rw (← same) fresh in
            extract_from-said (put_property (service_property index) value v) labels h m
            ∙ rw (e, gone, found) (property_at-put_self value service entry v)
        | inr e ↦
            let other : service_property index ≢ some (service, entry) = λ k.
              ne_of_eqt index (service_key service entry) e
                (service_property-key index service entry k) in
            extract_from-said (put_property (service_property index) value v) labels h m
            ∙ rw (e, property_at-put (service_property index) value service entry v other)
      ]

  extract_from-unsaid :
      (v : Dict (Dict Text)) (labels : Dict Text)
      → service_property (service_key service entry) ≢ some (service, entry)
      → property_at service entry (extract_from v labels) ≡ property_at service entry v
  unfolding extract_from
  extract_from-unsaid v [] h = refl
  extract_from-unsaid v ((index, value) ∷ labels) h =
      let other : service_property index ≢ some (service, entry) =
        λ e. h (ap service_property (sym (service_property-key index service entry e)) ∙ e) in
      extract_from-unsaid (put_property (service_property index) value v) labels h
      ∙ property_at-put (service_property index) value service entry v other

-- The test that an answer of the expression is this service and entry.
abbrev pub is_answer : Option (Text × Text) → Text → Text → Bool
is_answer none service entry = false
is_answer (some (s, q)) service entry = eqt s service && eqt q entry

answer_of : (o : Option (Text × Text)) (s q : Text) → is_answer o s q ≡ true → o ≡ some (s, q)
answer_of none s q h = cc
answer_of (some (s', q')) s q h =
    let service : s' ≡ s = (eqt_iff s' s).0 (ground arith) in
    let entry : q' ≡ q = (eqt_iff q' q).0 (ground arith) in cc (service, entry)

no_answer_of : (o : Option (Text × Text)) (s q : Text) → is_answer o s q ≡ false → o ≢ some (s, q)
no_answer_of o s q h e =
    let yes_answer : is_answer o s q ≡ true = rw (e, eqt_refl s, eqt_refl q) in
    ground (arith, h, yes_answer)

-- A service's property is the value of the label traefik.<service>.<property>, if the expression
-- reads that label so, and is missing otherwise: the order of the labels has no part in it.
pub get_container_service_label-lookup :
    (c : DockerData) (service entry : Text)
    → IsMap c.labels
    → get_container_service_label c service entry ≡ (
        if is_answer (service_property (service_key service entry)) service entry
        then lookup (service_key service entry) c.labels
        else none)
unfolding get_container_service_label extract_services_labels lookup properties_of
get_container_service_label-lookup c service entry m =
    elim (Bool-cases (is_answer (service_property (service_key service entry)) service entry)) [
      | inl e ↦ rw e (
          extract_from-said service entry [] c.labels (answer_of _ service entry e) m
          ∙ said_none (lookup (service_key service entry) c.labels))
      | inr e ↦
          rw e (extract_from-unsaid service entry [] c.labels (no_answer_of _ service entry e))
    ]
  where
    said_none : (o : Option Text) → said service entry o none ≡ o
    said_none none = refl
    said_none (some v) = refl
