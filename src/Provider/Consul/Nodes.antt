-- ===== src/Provider/Consul/Nodes.antt =====
-- provider/consul/consul_catalog.go: the nodes of the services, and buildConfig.
use traefik_release.Base.{
  Bool, true, false, not, ◌&&◌, Option, none, some, List, [], ◌∷◌, ◌++◌, ltb, if◌then◌else◌, keep,
  any, Text, txt, eqt, is_empty, to_lower, contains,
}
use traefik_release.Server.Config.{Configuration}
use traefik_release.Server.Loading.{less_text}
use traefik_release.Provider.Constraints.{match_constraints}
use traefik_release.Provider.Numbers.{ℤ, pos, negsuc}
use traefik_release.Provider.Rendering.{Engine, get_configuration}
use traefik_release.Provider.Consul.{Catalog, ServiceEntry, ServiceUpdate, CatalogUpdate}
use traefik_release.Provider.Consul.Attributes.{get_attribute, get_constraint_tags}

abbrev pub less_number : ℤ → ℤ → Bool
less_number (pos a) (pos b) = ltb a b
less_number (pos a) (negsuc b) = false
less_number (negsuc a) (pos b) = true
less_number (negsuc a) (negsuc b) = ltb b a

-- nodeSorter.Less
unfoldable pub less : ServiceEntry → ServiceEntry → Bool
less a b =
    if not (eqt (to_lower a.service) (to_lower b.service))
    then less_text (to_lower a.service) (to_lower b.service)
    else if not (eqt a.service_address b.service_address)
    then less_text a.service_address b.service_address
    else if not (eqt a.node_address b.node_address)
    then less_text a.node_address b.node_address
    else less_number a.port b.port

-- sort.Sort; nodes of which none is less than the other may come in any order there.
unfoldable pub insert_node : ServiceEntry → List ServiceEntry → List ServiceEntry
insert_node n [] = n ∷ []
insert_node n (m ∷ nodes) =
    let later = insert_node n nodes in if less m n then m ∷ later else n ∷ m ∷ nodes

unfoldable pub sort_nodes : List ServiceEntry → List ServiceEntry
sort_nodes [] = []
sort_nodes (n ∷ nodes) = insert_node n (sort_nodes nodes)

-- fun.Union of two sets, by their keys.
unfoldable pub add_tag : List Text → Text → List Text
add_tag set tag = if any (eqt tag) set then set else set ++ tag ∷ []

unfoldable pub add_tags : List Text → List Text → List Text
add_tags set [] = set
add_tags set (tag ∷ tags) = add_tags (add_tag set tag) tags

unfoldable pub merged_tags : List Text → List ServiceEntry → List Text
merged_tags set [] = set
merged_tags set (n ∷ nodes) = merged_tags (add_tags set n.tags) nodes

module _ (glob : Text → Text → Bool) (p : Catalog) where
  abbrev pub matches : ServiceEntry → Bool
  matches n = (match_constraints glob p.constraints (get_constraint_tags p n.tags)).0

  -- healthyNodes; `fetched` is what Consul answers for the service.
  unfoldable pub healthy_nodes : Text → Option (List ServiceEntry) → Option CatalogUpdate
  healthy_nodes service none = none
  healthy_nodes service (some entries) =
      let nodes = keep matches entries in
      some (record {
        service = record { service_name = service; attributes = merged_tags [] nodes };
        nodes = nodes;
      })

  abbrev pub add_update : CatalogUpdate → List CatalogUpdate → List CatalogUpdate
  add_update u updates = if is_empty u.nodes then updates else updates ++ u ∷ []

  -- getNodes, over the names of the index; `visited` are the names met so far, in lower case.
  unfoldable pub get_nodes_from :
      (Text → Option (List ServiceEntry))
      → List Text
      → List CatalogUpdate
      → List Text
      → Option (List CatalogUpdate)
  get_nodes_from fetch visited updates [] = some updates
  get_nodes_from fetch visited updates (service ∷ services) =
      let name = to_lower service in
      let skip = get_nodes_from fetch visited updates services in
      let visit : Option (List CatalogUpdate) = (elim (healthy_nodes name (fetch name)) [
        | none ↦ none
        | some u ↦ get_nodes_from fetch (name ∷ visited) (add_update u updates) services
      ]) in
      if not (contains name (txt " ")) && not (any (eqt name) visited) then visit else skip

  unfoldable pub get_nodes :
      (Text → Option (List ServiceEntry)) → List Text → Option (List CatalogUpdate)
  get_nodes fetch services = get_nodes_from fetch [] [] services

abbrev pub is_enabled_node : Catalog → ServiceEntry → Bool
is_enabled_node p n = not (eqt (get_attribute p (txt "enable") n.tags (txt "true")) (txt "false"))

-- templateObjects
pub record ConsulObjects : Type 0 where
  pub services : List ServiceUpdate
  pub nodes : List ServiceEntry

-- The first node that is enabled adds the service with all of its nodes, and ends the loop.
unfoldable pub add_info : CatalogUpdate → ConsulObjects → ConsulObjects
add_info info o = record {
  services = o.services ++ info.service ∷ [];
  nodes = o.nodes ++ info.nodes;
}

unfoldable pub visit_nodes :
    Catalog → CatalogUpdate → List ServiceEntry → ConsulObjects → ConsulObjects
visit_nodes p info [] o = o
visit_nodes p info (n ∷ nodes) o =
    if is_enabled_node p n then add_info info o else visit_nodes p info nodes o

unfoldable pub visit_catalog : Catalog → List CatalogUpdate → ConsulObjects → ConsulObjects
visit_catalog p [] o = o
visit_catalog p (info ∷ catalog) o = visit_catalog p catalog (visit_nodes p info info.nodes o)

unfoldable pub consul_objects : Catalog → List CatalogUpdate → ConsulObjects
consul_objects p catalog =
    let o = visit_catalog p catalog (record { services = []; nodes = [] }) in
    record o { nodes = sort_nodes o.nodes }

-- buildConfig
unfoldable pub build_config :
    Catalog → Engine ConsulObjects → Text → List CatalogUpdate → Option Configuration
build_config p e filename catalog =
    get_configuration e filename (txt "templates/consul_catalog.tmpl") (consul_objects p catalog)
