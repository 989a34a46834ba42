-- ===== src/Provider/Kv/Values.antt =====
-- provider/kv/kv.go: the functions that the template calls.
use traefik_release.Base.{
  ◌-◌, Bool, true, false, Option, none, some, List, [], ◌∷◌, ◌++◌, if◌then◌else◌, length, keep,
  Text, txt, trim_prefix, join, Dict, insert, keys, split,
}
use traefik_release.Provider.Constraints.{match_constraints}
use traefik_release.Provider.Picking.{Picked, element}
use traefik_release.Provider.Kv.{Kv, Answer, key_not_found, failed, no_pair, pair, Store}

-- string(keyPair.Value)
abbrev pub text_of : Option Text → Text
text_of none = []
text_of (some value) = value

unfoldable pub joined : List Text → Text
joined keys = join [] keys

unfoldable pub value_or : Text → Answer → Text
value_or default_value key_not_found = default_value
value_or default_value failed = default_value
value_or default_value no_pair = default_value
value_or default_value (pair value) = text_of value

-- get
unfoldable pub get : Store → Text → List Text → Text
get s default_value keys = value_or default_value (s.get (trim_prefix (joined keys) (txt "/")))

-- splitGet
unfoldable pub parts_or_none : Answer → List Text
parts_or_none key_not_found = []
parts_or_none failed = []
parts_or_none no_pair = []
parts_or_none (pair value) = split b',' (text_of value)

unfoldable pub split_get : Store → List Text → List Text
split_get s keys = parts_or_none (s.get (joined keys))

-- last
unfoldable pub last : Text → Picked Text
last key = let parts = split b'/' key in element parts (length parts - 1)

-- The part of a key behind the joined keys, up to a slash.
unfoldable pub first_part : List Text → Text
first_part [] = []
first_part (part ∷ parts) = part

unfoldable pub directory_of : Text → Text → Text
directory_of joined_keys key = first_part (split b'/' (trim_prefix key joined_keys))

unfoldable pub directories : Text → Dict Text → List Text → Dict Text
directories joined_keys found [] = found
directories joined_keys found (key ∷ keys) =
    let directory = directory_of joined_keys key in
    directories joined_keys (insert directory (joined_keys ++ directory) found) keys

abbrev pub values : Dict Text → List Text
values [] = []
values ((_, v) ∷ m) = v ∷ values m

-- list
unfoldable pub list : Store → List Text → List Text
list s keys = elim (s.list (joined keys)) [
  | none ↦ []
  | some pairs ↦ values (directories (joined keys) [] pairs)
]

-- checkConstraints
unfoldable pub tags_text : Answer → Text
tags_text key_not_found = []
tags_text failed = []
tags_text no_pair = []
tags_text (pair value) = text_of value

module _ (glob : Text → Text → Bool) (p : Kv) (s : Store) where
  unfoldable pub check_constraints : List Text → Bool
  check_constraints keys =
      (match_constraints glob p.constraints (split b',' (tags_text (s.get (joined keys))))).0

  -- Whether a key can be read: a pair that is nil can.
  unfoldable pub can_get : Answer → Bool
  can_get key_not_found = false
  can_get failed = false
  can_get no_pair = true
  can_get (pair value) = true

  -- listServers
  unfoldable pub is_listed : Text → Bool
  is_listed server =
      if can_get (s.get (server ++ txt "/url"))
      then check_constraints (server ∷ txt "/tags" ∷ [])
      else false

  unfoldable pub list_servers : Text → List Text
  list_servers backend = keep is_listed (list s (backend ∷ txt "/servers/" ∷ []))
