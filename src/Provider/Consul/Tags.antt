-- ===== src/Provider/Consul/Tags.antt =====
-- provider/consul/consul_catalog.go: an attribute that is written in a tag is read back.
use traefik_release.Base.{
  ◌≡◌, refl, ap, ◌∙◌, true, false, some, List, [], ◌∷◌, ◌++◌, ◌==◌, length, drop, All, Text, txt,
  eqt_refl, to_lower, strip, cut, strip-append,
}
use traefik_release.Provider.Consul.{Catalog}
use traefik_release.Provider.Consul.Attributes.{
  starts_with, behind, value_of, attribute_in, get_attribute,
}
use traefik_release.Provider.Consul.Laws.{to_lower-append}

drop-append {ℓ} : {A : Type ℓ} (xs ys : List A) → drop (length xs) (xs ++ ys) ≡ ys
drop-append [] ys = refl
drop-append (x ∷ xs) ys = drop-append xs ys

cut-plain :
    (name value : Text)
    → All (λ c. (b'=' == c) ≡ false) name
    → cut (txt "=") (name ++ (b'=' ∷ value)) ≡ some (name, value)
unfolding cut strip
cut-plain [] value h = refl
cut-plain (c ∷ name) value (e, h) = rw (cut, strip, e, cut-plain name value h)

starts_with-append :
    (start more : Text) → to_lower start ≡ start → starts_with start (start ++ more) ≡ true
unfolding starts_with
starts_with-append start more h =
    rw (to_lower-append start more, h, strip-append start (to_lower more))

-- The tag of an attribute.
abbrev pub tag_of : Text → Text → Text → Text
tag_of prefix name value = (prefix ++ txt ".") ++ (name ++ (b'=' ∷ value))

attribute_in-tag_of :
    (p : Catalog) (name value : Text)
    → to_lower p.prefix ≡ p.prefix
    → All (λ c. (b'=' == c) ≡ false) name
    → attribute_in p name (tag_of p.prefix name value) ≡ some value
unfolding attribute_in behind value_of to_lower
attribute_in-tag_of p name value low plain =
    let start = p.prefix ++ txt "." in
    let low_start : to_lower start ≡ start =
      to_lower-append p.prefix (txt ".") ∙ ap (λ s. s ++ to_lower (txt ".")) low ∙ refl in
    rw (
      starts_with-append start (name ++ (b'=' ∷ value)) low_start,
      drop-append start (name ++ (b'=' ∷ value)),
      cut-plain name value plain,
      value_of,
      eqt_refl (to_lower name),
    )

-- If the prefix has no capital letter and the name no equals sign, the first tag that gives the name a
-- value is the one that counts.
pub get_attribute-tag_of :
    (p : Catalog) (name value : Text) (tags : List Text) (default_value : Text)
    → to_lower p.prefix ≡ p.prefix
    → All (λ c. (b'=' == c) ≡ false) name
    → get_attribute p name (tag_of p.prefix name value ∷ tags) default_value ≡ value
unfolding get_attribute
get_attribute-tag_of p name value tags default_value low plain =
    rw (attribute_in-tag_of p name value low plain, get_attribute)
