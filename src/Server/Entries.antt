-- ===== src/Server/Entries.antt =====
-- server/configuration.go: the static configuration of entry points, and how their flags are read.
-- The regular expression of a flag is a parameter.
use traefik_release.Base.{
  ℕ, Bool, true, false, ◌&&◌, ◌||◌, Option, none, some, List, [], ◌∷◌, ◌++◌, if◌then◌else◌, map,
  Text, txt, is_empty, equal_fold, join, split, Dict, lookup, insert,
}

-- Certificate: a file or its content, for the certificate and for the key.
pub record CertificateFiles : Type 0 where
  pub cert_file : Text
  pub key_file : Text

-- TLS
pub record Tls : Type 0 where
  pub min_version : Text
  pub cipher_suites : Option (List Text)
  pub certificates : List CertificateFiles
  pub client_ca_files : List Text

-- Redirect
pub record Redirect : Type 0 where
  pub entry_point : Text
  pub regex : Text
  pub replacement : Text

-- EntryPoint
pub record EntryPoint : Type 0 where
  pub address : Text
  pub tls : Option Tls
  pub redirect : Option Redirect
  pub auth : Option (List Text)
  pub compress : Bool

-- GlobalConfiguration, as far as loading a configuration reads it: the attempts of Retry, if it is
-- set; the interval of HealthCheck, if it is set; whether the Prometheus metrics are on.
pub record Global : Type 0 where
  pub entry_points : Dict EntryPoint
  pub default_entry_points : List Text
  pub retry : Option ℕ
  pub health_check : Option ℕ
  pub prometheus : Bool

-- String and Set of Certificates; Set keeps what it has read before an error, which is `true`.
unfoldable pub certificate_text : CertificateFiles → Text
certificate_text c = c.cert_file ++ (b',' ∷ c.key_file)

unfoldable pub certificates_string : List CertificateFiles → Text
certificates_string certs = join (b';' ∷ []) (map certificate_text certs)

-- A text between commas: exactly two files.
unfoldable pub two_files : List Text → Option CertificateFiles
two_files (cert ∷ key ∷ []) = some (record { cert_file = cert; key_file = key })
two_files _ = none

unfoldable pub certificates_from : List CertificateFiles → List Text → List CertificateFiles × Bool
certificates_from certs [] = (certs, false)
certificates_from certs (text ∷ texts) = elim (two_files (split b',' text)) [
  | none ↦ (certs, true)
  | some c ↦ certificates_from (certs ++ c ∷ []) texts
]

unfoldable pub certificates_set : List CertificateFiles → Text → List CertificateFiles × Bool
certificates_set certs value = certificates_from certs (split b';' value)

-- String and Set of DefaultEntryPoints. strings.Split never gives an empty list here.
unfoldable pub default_entry_points_string : List Text → Text
default_entry_points_string names = join (b',' ∷ []) names

unfoldable pub default_entry_points_set : List Text → Text → List Text × Bool
default_entry_points_set names value =
    let parts = split b',' value in
    if is_empty parts then (names, true) else (names ++ parts, false)

-- What Set of EntryPoints can answer. `nil_tls` is a panic: client CAs are set on a nil TLS.
pub data FlagError : Type 0 where
  bad_format bad_certificates nil_tls : FlagError

-- result[name], the empty text where the flag has no such part
unfoldable pub part_of : Text → Dict Text → Text
part_of name parts = elim (lookup name parts) [ some t ↦ t | none ↦ [] ]

-- The TLS of a flag: with certificates, with those of ACME, or none.
unfoldable pub flag_certificates : List CertificateFiles × Bool → Option (Option Tls)
flag_certificates (certs, true) = none
flag_certificates (certs, false) = some (
    some (record {
      min_version = [];
      cipher_suites = none;
      certificates = certs;
      client_ca_files = [];
    }))

unfoldable pub flag_tls : Dict Text → Option (Option Tls)
flag_tls parts =
    if is_empty (part_of (txt "TLS") parts)
    then (if is_empty (part_of (txt "TLSACME") parts)
        then some none
        else flag_certificates ([], false))
    else flag_certificates (certificates_set [] (part_of (txt "TLS") parts))

-- `tls.ClientCAFiles = files`
unfoldable pub with_client_cas : Text → Option Tls → Option (Option Tls)
with_client_cas ca tls = if is_empty ca then some tls else elim tls [
  | none ↦ none
  | some t ↦ some (some (record t { client_ca_files = split b',' ca }))
]

unfoldable pub flag_redirect : Dict Text → Option Redirect
flag_redirect parts =
    let entry_point = part_of (txt "RedirectEntryPoint") parts in
    let regex = part_of (txt "RedirectRegex") parts in
    let replacement = part_of (txt "RedirectReplacement") parts in
    if is_empty entry_point && (is_empty regex && is_empty replacement)
    then none
    else some (record { entry_point = entry_point; regex = regex; replacement = replacement })

unfoldable pub flag_compress : Text → Bool
flag_compress value =
    if is_empty value then false else equal_fold value (txt "enable") || equal_fold value (txt "on")

-- What Set leaves: the entry points, and its error.
abbrev pub FlagOutcome : Type 0
FlagOutcome = Dict EntryPoint × Option FlagError

unfoldable pub flag_entry_point : Dict Text → Option Tls → EntryPoint
flag_entry_point parts tls = record {
  address = part_of (txt "Address") parts;
  tls = tls;
  redirect = flag_redirect parts;
  auth = none;
  compress = flag_compress (part_of (txt "Compress") parts);
}

unfoldable pub entry_points_from : Dict EntryPoint → Dict Text → FlagOutcome
entry_points_from eps parts = elim (flag_tls parts) [
  | none ↦ (eps, some bad_certificates)
  | some tls ↦ elim (with_client_cas (part_of (txt "CA") parts) tls) [
    | none ↦ (eps, some nil_tls)
    | some tls' ↦ (insert (part_of (txt "Name") parts) (flag_entry_point parts tls') eps, none)
  ]
]

-- Set of EntryPoints; `find` gives the named parts of the first match of its regular expression.
unfoldable pub entry_points_set : (Text → Option (Dict Text)) → Dict EntryPoint → Text → FlagOutcome
entry_points_set find eps value = elim (find value) [
  | none ↦ (eps, some bad_format)
  | some parts ↦ entry_points_from eps parts
]
