-- ===== src/Provider/Cluster.antt =====
-- provider/kubernetes/kubernetes.go: the objects that the provider reads, and its helpers.
use traefik_release.Base.{
  ℕ, zero, suc, ◌+◌, ◌/◌, ◌%◌, Bool, not, ◌&&◌, ◌||◌, Option, none, some, List, [], ◌∷◌, ltb, ◌==◌,
  if◌then◌else◌, Text, txt, eqt, is_empty, to_lower, trim_suffix, Dict, lookup, split,
}

-- What the API server answers: an error, that there is no such object, or the object.
pub data Fetched {ℓ} (A : Type ℓ) : Type ℓ where
  failed absent : Fetched A
  found : A → Fetched A

-- intstr.IntOrString, by what its IntValue and String give.
pub record IntOrString : Type 0 where
  pub int_value : ℕ
  pub string : Text

pub record IngressPath : Type 0 where
  pub path : Text
  pub service_name : Text
  pub service_port : IntOrString

-- A rule of an ingress; no paths is a rule without HTTP.
pub record IngressRule : Type 0 where
  pub host : Text
  pub http : Option (List IngressPath)

pub record Ingress : Type 0 where
  pub namespace : Text
  pub annotations : Dict Text
  pub rules : List IngressRule

pub record ServicePort : Type 0 where
  pub name : Text
  pub port : ℕ

pub record Service : Type 0 where
  pub namespace : Text
  pub name : Text
  pub annotations : Dict Text
  pub kind : Text
  pub external_name : Text
  pub ports : List ServicePort

-- An address, with the name of its target if it has one.
pub record Address : Type 0 where
  pub ip : Text
  pub target : Option Text

pub record Subset : Type 0 where
  pub addresses : List Address
  pub ports : List ServicePort

-- The client, for the time of one load: services, the subsets of endpoints, the contents of secrets.
pub record Client : Type 0 where
  pub get_service : Text → Text → Fetched Service
  pub get_endpoints : Text → Text → Fetched (List Subset)
  pub get_secret : Text → Text → Fetched (Option (Dict Text))

-- annotations[name], the empty text where it is missing
unfoldable pub annotation : Text → Dict Text → Text
annotation name notes = elim (lookup name notes) [ some v ↦ v | none ↦ [] ]

unfoldable pub should_process_ingress : Text → Bool
should_process_ingress ingress_class = is_empty ingress_class || eqt ingress_class (txt "traefik")

unfoldable pub equal_ports : ServicePort → IntOrString → Bool
equal_ports p ingress_port =
    (p.port == ingress_port.int_value) || (not (is_empty p.name) && eqt p.name ingress_port.string)

-- The last endpoint port of the service port's name, or the first one, or the service port's own.
unfoldable pub last_named : Text → ℕ → List ServicePort → ℕ
last_named name port [] = port
last_named name port (p ∷ ps) = last_named name (if eqt name p.name then p.port else port) ps

unfoldable pub endpoint_port_number : ServicePort → List ServicePort → ℕ
endpoint_port_number s [] = s.port
endpoint_port_number s (p ∷ ps) = last_named s.name p.port (p ∷ ps)

-- strconv.Itoa; a number has no more digits than itself and one.
unfoldable pub itoa_from : ℕ → ℕ → Text → Text
itoa_from zero n digits = digits
itoa_from (suc fuel) n digits =
    let more = itoa_from fuel (n / 10) ((b'0' + n % 10) ∷ digits) in
    if ltb n 10 then (b'0' + n % 10) ∷ digits else more

unfoldable pub itoa : ℕ → Text
itoa n = itoa_from (n + 1) n []

-- The lines that a bufio.Scanner gives, less the empty ones. Its limit on a line's length is left
-- out.
unfoldable pub full_lines : List Text → List Text
full_lines [] = []
full_lines (line ∷ lines) =
    let rest = full_lines lines in
    let text = trim_suffix line (13 ∷ []) in if is_empty text then rest else text ∷ rest

unfoldable pub credentials_of : Text → Option (List Text)
credentials_of secret =
    let creds = full_lines (split 10 secret) in if is_empty creds then none else some creds

-- The one element of a secret's contents.
unfoldable pub single_element : Option (Dict Text) → Option Text
single_element (some ((_, v) ∷ [])) = some v
single_element (some []) = none
single_element (some (a ∷ b ∷ more)) = none
single_element none = none

unfoldable pub secret_credentials : Fetched (Option (Dict Text)) → Option (List Text)
secret_credentials failed = none
secret_credentials absent = none
secret_credentials (found contents) = elim (single_element contents) [
  | none ↦ none
  | some secret ↦ credentials_of secret
]

-- loadAuthCredentials; no result is an error.
unfoldable pub load_auth_credentials : Client → Text → Text → Option (List Text)
load_auth_credentials k namespace secret = secret_credentials (k.get_secret namespace secret)

abbrev pub auth_type_name : Text
auth_type_name = txt "ingress.kubernetes.io/auth-type"

-- handleBasicAuthConfig: no users where there is no annotation, and no result for an error.
unfoldable pub handle_basic_auth_config : Client → Ingress → Option (List Text)
handle_basic_auth_config k i = elim (lookup auth_type_name i.annotations) [
  | none ↦ some []
  | some auth_type ↦
      let secret = annotation (txt "ingress.kubernetes.io/auth-secret") i.annotations in
      if eqt (to_lower auth_type) (txt "basic") && not (is_empty secret)
      then load_auth_credentials k i.namespace secret
      else none
]
