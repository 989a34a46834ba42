-- ===== src/Provider/Consul/Laws.antt =====
-- provider/consul/consul_catalog.go: attributes in tags, and the nodes that are configured.
use traefik_release.Base.{
  ℕ, ◌+◌, ◌≡◌, refl, sym, ap, ◌∙◌, ◌≢◌, inl, inr, Bool, true, false, none, List, [], ◌∷◌, ◌++◌,
  arith, if◌then◌else◌, Bool-cases, Option-cases, any, Text, txt, lower, to_lower, strip,
  strip-eq-some,
}
use traefik_release.Provider.Consul.{Catalog, ServiceEntry, CatalogUpdate}
use traefik_release.Provider.Consul.Attributes.{
  starts_with, attribute_in, get_attribute, get_constraint_tags,
}
use traefik_release.Provider.Consul.Nodes.{
  less, insert_node, sort_nodes, is_enabled_node, ConsulObjects, add_info, visit_nodes,
  visit_catalog, consul_objects,
}

lower_idempotent : (c : ℕ) → lower (lower c) ≡ lower c
unfolding lower
lower_idempotent c = ground arith

pub to_lower-append : (s t : Text) → to_lower (s ++ t) ≡ to_lower s ++ to_lower t
unfolding to_lower
to_lower-append [] t = refl
to_lower-append (c ∷ s) t = ap (λ l. lower c ∷ l) (to_lower-append s t)

to_lower_idempotent : (s : Text) → to_lower (to_lower s) ≡ to_lower s
unfolding to_lower
to_lower_idempotent [] = refl
to_lower_idempotent (c ∷ s) = cc (lower_idempotent c, to_lower_idempotent s)

-- What is in lower case starts in lower case.
lower_prefix : (s r t : Text) → s ++ r ≡ to_lower t → to_lower s ≡ s
unfolding to_lower
lower_prefix [] r t h = refl
lower_prefix (c ∷ s) r [] h = cc
lower_prefix (c ∷ s) r (d ∷ t) h =
    let first : c ≡ lower d = ground (arith, h) in
    let rest : s ++ r ≡ to_lower t = ground (arith, h) in
    let low : lower c ≡ c = rw first (lower_idempotent d) in cc (low, lower_prefix s r t rest)

-- Of the two parts of a text in lower case the first is in lower case.
lower_front : (s t : Text) → to_lower (s ++ t) ≡ s ++ t → to_lower s ≡ s
lower_front s t h = lower_prefix s t (s ++ t) (sym h)

starts_with-lower : (start tag : Text) → starts_with start tag ≡ true → to_lower start ≡ start
unfolding starts_with
starts_with-lower start tag h = elim (Option-cases (strip start (to_lower tag))) [
  | inl e ↦ ground (arith, h, e)
  | inr (r, e) ↦ lower_prefix start r tag (sym (strip-eq-some start (to_lower tag) r e))
]

lower_start :
    (start more : Text) → to_lower (start ++ more) ≡ start ++ more → to_lower start ≡ start
lower_start start more h = lower_front start more h

-- A prefix with a capital letter starts no tag.
not_started :
    (p : Catalog) (more tag : Text)
    → to_lower p.prefix ≢ p.prefix
    → starts_with (p.prefix ++ more) tag ≡ false
not_started p more tag h = elim (Bool-cases (starts_with (p.prefix ++ more) tag)) [
  | inl e ↦ absurd (h (lower_start p.prefix more (starts_with-lower (p.prefix ++ more) tag e)))
  | inr e ↦ e
]

attribute_in-upper :
    (p : Catalog) (name tag : Text) → to_lower p.prefix ≢ p.prefix → attribute_in p name tag ≡ none
unfolding attribute_in
attribute_in-upper p name tag h = rw (not_started p (txt ".") tag h)

no_attribute :
    (p : Catalog) (name : Text) (tags : List Text) (other : Text)
    → to_lower p.prefix ≢ p.prefix
    → get_attribute p name tags other ≡ other
unfolding get_attribute
no_attribute p name [] other h = refl
no_attribute p name (tag ∷ tags) other h =
    rw (attribute_in-upper p name tag h, get_attribute) (no_attribute p name tags other h)

no_constraint_tags :
    (p : Catalog) (tags : List Text)
    → to_lower p.prefix ≢ p.prefix
    → get_constraint_tags p tags ≡ []
unfolding get_constraint_tags
no_constraint_tags p [] h = refl
no_constraint_tags p (tag ∷ tags) h =
    rw (not_started p (txt ".tags=") tag h) (no_constraint_tags p tags h)

-- With a prefix that has a capital letter no tag says anything: each attribute has its default value,
-- and there are no tags for the constraints.
pub get_attribute-upper :
    (p : Catalog) (name : Text) (tags : List Text) (default_value : Text)
    → to_lower p.prefix ≢ p.prefix
    → (get_attribute p name tags default_value ≡ default_value) × (get_constraint_tags p tags ≡ [])
get_attribute-upper p name tags default_value h =
    (no_attribute p name tags default_value h, no_constraint_tags p tags h)

module _ (q : ServiceEntry → Bool) where
  -- How many nodes pass a test.
  abbrev pub tally : List ServiceEntry → ℕ
  tally [] = 0
  tally (n ∷ nodes) = (if q n then 1 else 0) + tally nodes

  tally-insert_node :
      (n : ServiceEntry) (nodes : List ServiceEntry)
      → tally (insert_node n nodes) ≡ tally (n ∷ nodes)
  unfolding insert_node
  tally-insert_node n [] = refl
  tally-insert_node n (m ∷ nodes) = elim (Bool-cases (less m n)) [
    | inl e ↦ rw e (omega (arith, tally-insert_node n nodes))
    | inr e ↦ rw e
  ]

  tally-sort_nodes : (nodes : List ServiceEntry) → tally (sort_nodes nodes) ≡ tally nodes
  unfolding sort_nodes
  tally-sort_nodes [] = refl
  tally-sort_nodes (n ∷ nodes) =
      omega (arith, tally-insert_node n (sort_nodes nodes), tally-sort_nodes nodes)

  tally-append : (nodes more : List ServiceEntry) → tally (nodes ++ more) ≡ tally nodes + tally more
  tally-append [] more = omega arith
  tally-append (n ∷ nodes) more = omega (arith, tally-append nodes more)

  -- The nodes of the services of which some node is enabled.
  abbrev pub expected : Catalog → List CatalogUpdate → ℕ
  expected p [] = 0
  expected p (info ∷ catalog) =
      (if any (is_enabled_node p) info.nodes then tally info.nodes else 0) + expected p catalog

  visit_nodes-any :
      (p : Catalog) (info : CatalogUpdate) (nodes : List ServiceEntry) (o : ConsulObjects)
      → visit_nodes p info nodes o ≡ (if any (is_enabled_node p) nodes then add_info info o else o)
  unfolding visit_nodes any
  visit_nodes-any p info [] o = refl
  visit_nodes-any p info (n ∷ nodes) o = elim (Bool-cases (is_enabled_node p n)) [
    | inl e ↦ rw e
    | inr e ↦ rw e (visit_nodes-any p info nodes o)
  ]

  visit_nodes-tally :
      (p : Catalog) (info : CatalogUpdate) (o : ConsulObjects)
      → tally (visit_nodes p info info.nodes o).nodes
        ≡ tally o.nodes + (if any (is_enabled_node p) info.nodes then tally info.nodes else 0)
  unfolding add_info
  visit_nodes-tally p info o = elim (Bool-cases (any (is_enabled_node p) info.nodes)) [
    | inl e ↦ rw (visit_nodes-any p info info.nodes o, e) (tally-append o.nodes info.nodes)
    | inr e ↦ rw (visit_nodes-any p info info.nodes o, e) (omega arith)
  ]

  visit_catalog-tally :
      (p : Catalog) (catalog : List CatalogUpdate) (o : ConsulObjects)
      → tally (visit_catalog p catalog o).nodes ≡ tally o.nodes + expected p catalog
  unfolding visit_catalog
  visit_catalog-tally p [] o = omega arith
  visit_catalog-tally p (info ∷ catalog) o = omega (
    arith,
    visit_catalog-tally p catalog (visit_nodes p info info.nodes o),
    visit_nodes-tally p info o,
  )

  -- A service brings all of its nodes if one of them is enabled, those that are not among them, and
  -- none otherwise: so it is for the nodes that pass any test.
  pub consul_objects-tally :
      (p : Catalog) (catalog : List CatalogUpdate)
      → tally (consul_objects p catalog).nodes ≡ expected p catalog
  unfolding consul_objects
  consul_objects-tally p catalog =
      tally-sort_nodes (visit_catalog p catalog (record { services = []; nodes = [] })).nodes
      ∙ visit_catalog-tally p catalog (record { services = []; nodes = [] })
      ∙ omega arith
