-- ===== src/Provider/Dynamo.antt =====
-- provider/dynamodb/dynamodb.go: loadDynamoConfig, over the items of the table.
use traefik_release.Base.{
  Bool, Option, none, some, List, [], ◌∷◌, ◌++◌, if◌then◌else◌, Text, Dict, insert,
}
use traefik_release.Server.Config.{Backend, Frontend, Configuration}
use traefik_release.Provider.Picking.{Picked, picked, refused, panicked}

-- An item of the table: of its attributes those that the provider reads, a backend, a frontend and a
-- name. `Attribute` is a value of the library.
pub record Item (Attribute : Type 0) : Type 0 where
  pub backend : Option Attribute
  pub frontend : Option Attribute
  pub name : Option Text

-- A page of a scan, and whether it is the last.
pub record Page (Attribute : Type 0) : Type 0 where
  pub items : List (Item Attribute)
  pub is_last : Bool

module _ {Attribute : Type 0} where
  -- The callback of ScanPages: it goes on while the page is not the last.
  unfoldable pub scan_pages : List (Page Attribute) → List (Item Attribute)
  scan_pages [] = []
  scan_pages (page ∷ pages) =
      let more = scan_pages pages in page.items ++ (if page.is_last then [] else more)

  -- scanTable; `scanned` is what the library gives, or an error.
  unfoldable pub scan_table : Option (List (Page Attribute)) → Option (List (Item Attribute))
  scan_table none = none
  scan_table (some pages) = some (scan_pages pages)

-- backends[*item["name"].S] = v
unfoldable pub put_named {ℓ} : {V : Type ℓ} → Option Text → V → Dict V → Picked (Dict V)
put_named none v m = panicked
put_named (some name) v m = picked (insert name v m)

-- The maps backends and frontends
pub record Loaded : Type 0 where
  pub backends : Dict Backend
  pub frontends : Dict Frontend

unfoldable pub with_backends : Loaded → Picked (Dict Backend) → Picked Loaded
with_backends l (picked m) = picked (record l { backends = m })
with_backends l refused = refused
with_backends l panicked = panicked

unfoldable pub with_frontends : Loaded → Picked (Dict Frontend) → Picked Loaded
with_frontends l (picked m) = picked (record l { frontends = m })
with_frontends l refused = refused
with_frontends l panicked = panicked

unfoldable pub add_backend : Option Text → Option Backend → Loaded → Picked Loaded
add_backend name none l = picked l
add_backend name (some b) l = with_backends l (put_named name b l.backends)

unfoldable pub add_frontend : Option Text → Option Frontend → Loaded → Picked Loaded
add_frontend name none l = picked l
add_frontend name (some f) l = with_frontends l (put_named name f l.frontends)

-- dynamodbattribute.Unmarshal; a value that cannot be read is left out.
pub record Unmarshal (Attribute : Type 0) : Type 0 where
  pub backend_of : Attribute → Option Backend
  pub frontend_of : Attribute → Option Frontend

module _ {Attribute : Type 0} (u : Unmarshal Attribute) where
  unfoldable pub frontend_item : Option Text → Option Attribute → Loaded → Picked Loaded
  frontend_item name none l = picked l
  frontend_item name (some a) l = add_frontend name (u.frontend_of a) l

  unfoldable pub add_item : Item Attribute → Loaded → Picked Loaded
  add_item item l = elim item.backend [
    | some a ↦ add_backend item.name (u.backend_of a) l
    | none ↦ frontend_item item.name item.frontend l
  ]

  unfoldable pub add_items : List (Item Attribute) → Loaded → Picked Loaded
  add_items [] l = picked l
  add_items (item ∷ items) l = elim (add_item item l) [
    | picked next ↦ add_items items next
    | refused ↦ refused
    | panicked ↦ panicked
  ]

  unfoldable pub as_configuration : Picked Loaded → Picked Configuration
  as_configuration (picked l) =
      picked (record { backends = some l.backends; frontends = some l.frontends })
  as_configuration refused = refused
  as_configuration panicked = panicked

  -- loadDynamoConfig; `refused` is an error.
  unfoldable pub load_dynamo_config : Option (List (Page Attribute)) → Picked Configuration
  load_dynamo_config scanned = elim (scan_table scanned) [
    | none ↦ refused
    | some items ↦ as_configuration (add_items items (record { backends = []; frontends = [] }))
  ]
