-- ===== src/Provider/Consul/Attributes.antt =====
-- provider/consul/consul_catalog.go: attributes in tags, and names.
use traefik_release.Base.{
  Bool, not, ◌&&◌, Option, none, some, List, [], ◌∷◌, ◌++◌, if◌then◌else◌, length, drop, Text, txt,
  eqt, is_empty, to_lower, strip, cut, split,
}
use traefik_release.Provider.Labels.{is_some, dashed, normalize}
use traefik_release.Provider.Numbers.{ℤ, itoa_int}
use traefik_release.Provider.Consul.{Catalog, ServiceEntry, ServiceUpdate}

-- strings.Index(strings.ToLower(tag), start) == 0: the prefix itself is not put in lower case.
unfoldable pub starts_with : Text → Text → Bool
starts_with start tag = is_some (strip start (to_lower tag))

-- tag[len(start):]
unfoldable pub behind : Text → Text → Text
behind start tag = drop (length start) tag

-- The value of `key=value`, if the key is this name in any case.
unfoldable pub value_of : Text → Option (Text × Text) → Option Text
value_of name none = none
value_of name (some (key, value)) = if eqt (to_lower key) (to_lower name) then some value else none

unfoldable pub attribute_in : Catalog → Text → Text → Option Text
attribute_in p name tag =
    if starts_with (p.prefix ++ txt ".") tag
    then value_of name (cut (txt "=") (behind (p.prefix ++ txt ".") tag))
    else none

-- getAttribute
unfoldable pub get_attribute : Catalog → Text → List Text → Text → Text
get_attribute p name [] default_value = default_value
get_attribute p name (tag ∷ tags) default_value = elim (attribute_in p name tag) [
  | some value ↦ value
  | none ↦ get_attribute p name tags default_value
]

-- getContraintTags
unfoldable pub get_constraint_tags : Catalog → List Text → List Text
get_constraint_tags p [] = []
get_constraint_tags p (tag ∷ tags) =
    let rest = get_constraint_tags p tags in
    if starts_with (p.prefix ++ txt ".tags=") tag
    then split b',' (behind (p.prefix ++ txt ".tags=") tag) ++ rest
    else rest

unfoldable pub get_entry_points : Text → List Text
get_entry_points list = split b',' list

unfoldable pub get_backend : ServiceEntry → Text
get_backend node = to_lower node.service

unfoldable pub get_frontend_rule : Catalog → ServiceUpdate → Text
get_frontend_rule p s =
    let custom = get_attribute p (txt "frontend.rule") s.attributes [] in
    if is_empty custom then txt "Host:" ++ (s.service_name ++ (b'.' ∷ p.domain)) else custom

unfoldable pub get_backend_address : ServiceEntry → Text
get_backend_address node =
    if is_empty node.service_address then node.node_address else node.service_address

-- The tags that the loop adds to a name.
unfoldable pub with_tags : Text → List Text → Text
with_tags name [] = name
with_tags name (tag ∷ tags) = with_tags (name ++ (txt "--" ++ normalize tag)) tags

-- getBackendName
unfoldable pub get_backend_name : ServiceEntry → ℤ → Text
get_backend_name node index =
    let name =
      to_lower node.service
      ++ (txt "--" ++ (node.service_address ++ (txt "--" ++ itoa_int node.port))) in
    dashed b'=' (dashed b'.' (with_tags name node.tags)) ++ (txt "--" ++ itoa_int index)

unfoldable pub has_maxconn_attributes : Catalog → List Text → Bool
has_maxconn_attributes p attributes =
    not (is_empty (get_attribute p (txt "backend.maxconn.amount") attributes []))
    && not (is_empty (get_attribute p (txt "backend.maxconn.extractorfunc") attributes []))
