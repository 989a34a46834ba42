-- ===== src/Provider/Rendering.antt =====
-- provider/provider.go: GetConfiguration and CreateTLSConfig, over what they read and call.
use traefik_release.Base.{Bool, Option, none, some, List, [], ◌∷◌, if◌then◌else◌, Text, is_empty}
use traefik_release.Server.Config.{Configuration}

-- Files, the assets of the program, the template engine and the TOML decoder; no result is an error.
pub record Engine (Objects : Type 0) : Type 0 where
  pub read_file : Text → Option Text
  pub asset : Text → Option Text
  pub execute : Text → Objects → Option Text
  pub decode : Text → Option Configuration

module _ {Objects : Type 0} (e : Engine Objects) where
  unfoldable pub decoded : Option Text → Option Configuration
  decoded none = none
  decoded (some rendered) = e.decode rendered

  unfoldable pub rendered_with : Objects → Option Text → Option Configuration
  rendered_with objects none = none
  rendered_with objects (some template) = decoded (e.execute template objects)

  -- GetConfiguration: the template of the file that is set, or the default one.
  unfoldable pub get_configuration : Text → Text → Objects → Option Configuration
  get_configuration filename default_template_file objects =
      rendered_with objects
        (if is_empty filename then e.asset default_template_file else e.read_file filename)

-- ClientTLS
pub record ClientTls : Type 0 where
  pub ca : Text
  pub cert : Text
  pub key : Text
  pub insecure_skip_verify : Bool

-- What the function asks of files and of crypto/tls; `Pair` is a certificate with its key.
pub record TlsLibrary (Pair : Type 0) : Type 0 where
  pub is_file : Text → Bool
  pub read_file : Text → Option Text
  pub load_pair : Text → Text → Option Pair
  pub parse_pair : Text → Text → Option Pair

pub record TlsConfig (Pair : Type 0) : Type 0 where
  pub certificate : Pair
  pub roots : List Text
  pub skip_verify : Bool

module _ {Pair : Type 0} (l : TlsLibrary Pair) where
  -- The certificates of authorities; an error where the file cannot be read.
  unfoldable pub authorities : Text → Option (List Text)
  authorities ca =
      if is_empty ca
      then some []
      else if l.is_file ca
      then (elim (l.read_file ca) [ none ↦ none | some pem ↦ some (pem ∷ []) ])
      else some (ca ∷ [])

  -- Both are files, or neither is.
  unfoldable pub key_pair : Text → Text → Option Pair
  key_pair cert key =
      if l.is_file cert
      then (if l.is_file key then l.load_pair cert key else none)
      else if l.is_file key
      then none
      else l.parse_pair cert key

  unfoldable pub client_config :
      ClientTls → Option (List Text) → Option Pair → Option (TlsConfig Pair)
  client_config c (some roots) (some pair) =
      some (record { certificate = pair; roots = roots; skip_verify = c.insecure_skip_verify })
  client_config c none pair = none
  client_config c (some roots) none = none

  -- CreateTLSConfig of a receiver that is not nil
  unfoldable pub create_tls_config : ClientTls → Option (TlsConfig Pair)
  create_tls_config c = client_config c (authorities c.ca) (key_pair c.cert c.key)
