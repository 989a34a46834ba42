-- ===== src/Server/Encryption.antt =====
-- server/server.go, createTLSConfig, and server/configuration.go, CreateTLSConfig: the TLS of an
-- entry point.
use traefik_release.Base.{
  ℕ, Bool, Option, none, some, List, [], ◌∷◌, ◌++◌, if◌then◌else◌, Text, txt, eqt, Dict, lookup,
}
use traefik_release.Server.Entries.{CertificateFiles, Tls, EntryPoint}

-- What lies outside: files, key pairs, certificate pools, and the certificates with ACME's.
pub record TlsLibrary : Type 1 where
  pub Pair : Type 0
  pub is_path : Text → Bool
  pub load_pair : Text → Text → Option Pair
  pub parse_pair : Text → Text → Option Pair
  pub read_file : Text → Option Text
  pub has_certificates : Text → Bool
  pub with_acme : List Pair → Option (List Pair)

pub data TlsError : Type 0 where
  bad_key_file bad_pair unreadable_ca invalid_ca acme_failed unknown_acme_entry_point : TlsError
  no_certificates : TlsError
  invalid_cipher_suite : Text → TlsError

-- Setting TLS up, or why it is refused.
pub data Setup {ℓ} (A : Type ℓ) : Type ℓ where
  refused : TlsError → Setup A
  set_up : A → Setup A

infixl 5 ◌>>=◌
abbrev pub ◌>>=◌ {ℓ κ} : {A : Type ℓ} {B : Type κ} → Setup A → (A → Setup B) → Setup B
m >>= next = elim m [ refused why ↦ refused why | set_up a ↦ next a ]

abbrev pub or_error {ℓ} : {A : Type ℓ} → TlsError → Option A → Setup A
or_error e none = refused e
or_error e (some a) = set_up a

-- minVersion and cipherSuites, with the numbers that package crypto/tls gives these names.
unfoldable pub min_versions : Dict ℕ
min_versions =
    (txt "VersionTLS10", 0x0301) ∷ (txt "VersionTLS11", 0x0302) ∷ (txt "VersionTLS12", 0x0303) ∷ []

unfoldable pub known_cipher_suites : Dict ℕ
known_cipher_suites =
    (txt "TLS_RSA_WITH_RC4_128_SHA", 0x0005)
    ∷ (txt "TLS_RSA_WITH_3DES_EDE_CBC_SHA", 0x000a)
    ∷ (txt "TLS_RSA_WITH_AES_128_CBC_SHA", 0x002f)
    ∷ (txt "TLS_RSA_WITH_AES_256_CBC_SHA", 0x0035)
    ∷ (txt "TLS_RSA_WITH_AES_128_CBC_SHA256", 0x003c)
    ∷ (txt "TLS_RSA_WITH_AES_128_GCM_SHA256", 0x009c)
    ∷ (txt "TLS_RSA_WITH_AES_256_GCM_SHA384", 0x009d)
    ∷ (txt "TLS_ECDHE_ECDSA_WITH_RC4_128_SHA", 0xc007)
    ∷ (txt "TLS_ECDHE_ECDSA_WITH_AES_128_CBC_SHA", 0xc009)
    ∷ (txt "TLS_ECDHE_ECDSA_WITH_AES_256_CBC_SHA", 0xc00a)
    ∷ (txt "TLS_ECDHE_RSA_WITH_RC4_128_SHA", 0xc011)
    ∷ (txt "TLS_ECDHE_RSA_WITH_3DES_EDE_CBC_SHA", 0xc012)
    ∷ (txt "TLS_ECDHE_RSA_WITH_AES_128_CBC_SHA", 0xc013)
    ∷ (txt "TLS_ECDHE_RSA_WITH_AES_256_CBC_SHA", 0xc014)
    ∷ (txt "TLS_ECDHE_ECDSA_WITH_AES_128_CBC_SHA256", 0xc023)
    ∷ (txt "TLS_ECDHE_RSA_WITH_AES_128_CBC_SHA256", 0xc027)
    ∷ (txt "TLS_ECDHE_RSA_WITH_AES_128_GCM_SHA256", 0xc02f)
    ∷ (txt "TLS_ECDHE_ECDSA_WITH_AES_128_GCM_SHA256", 0xc02b)
    ∷ (txt "TLS_ECDHE_RSA_WITH_AES_256_GCM_SHA384", 0xc030)
    ∷ (txt "TLS_ECDHE_ECDSA_WITH_AES_256_GCM_SHA384", 0xc02c)
    ∷ (txt "TLS_ECDHE_RSA_WITH_CHACHA20_POLY1305", 0xcca8)
    ∷ (txt "TLS_ECDHE_ECDSA_WITH_CHACHA20_POLY1305", 0xcca9)
    ∷ []

-- The loop over the cipher suites of the entry point.
unfoldable pub suites_from : List ℕ → List Text → Setup (List ℕ)
suites_from suites [] = set_up suites
suites_from suites (name ∷ names) = elim (lookup name known_cipher_suites) [
  | none ↦ refused (invalid_cipher_suite name)
  | some c ↦ suites_from (suites ++ c ∷ []) names
]

unfoldable pub cipher_suites_of : Option (List Text) → Setup (Option (List ℕ))
cipher_suites_of none = set_up none
cipher_suites_of (some names) = suites_from [] names >>= λ suites. set_up (some suites)

-- tls.Config, as far as the server sets it: the client CAs, if a client must show a certificate;
-- the least version, which comes with the server's preference among suites.
pub record TlsConfig (Pair : Type 0) : Type 0 where
  pub certificates : List Pair
  pub next_protos : List Text
  pub client_cas : Option (List Text)
  pub min_version : Option ℕ
  pub cipher_suites : Option (List ℕ)

module _ (lib : TlsLibrary) where
  open lib use {Pair}

  -- One round of CreateTLSConfig: both texts are paths, or neither is.
  unfoldable pub load_certificate : CertificateFiles → Setup Pair
  load_certificate c =
      if lib.is_path c.cert_file
      then (if lib.is_path c.key_file
          then or_error bad_pair (lib.load_pair c.cert_file c.key_file)
          else refused bad_key_file)
      else (if lib.is_path c.key_file
          then refused bad_key_file
          else or_error bad_pair (lib.parse_pair c.cert_file c.key_file))

  -- CreateTLSConfig
  unfoldable pub load_certificates : List CertificateFiles → Setup (List Pair)
  load_certificates [] = set_up []
  load_certificates (c ∷ cs) =
      load_certificate c >>= λ p. load_certificates cs >>= λ ps. set_up (p ∷ ps)

  -- The loop over the files of client CAs.
  unfoldable pub load_client_cas : List Text → Setup (List Text)
  load_client_cas [] = set_up []
  load_client_cas (file ∷ files) = or_error unreadable_ca (lib.read_file file) >>= λ pem.
      (if lib.has_certificates pem then set_up pem else refused invalid_ca) >>= λ pem.
      load_client_cas files >>= λ pems. set_up (pem ∷ pems)

  unfoldable pub client_cas_of : List Text → Setup (Option (List Text))
  client_cas_of [] = set_up none
  client_cas_of (file ∷ files) = load_client_cas (file ∷ files) >>= λ pems. set_up (some pems)

  -- The certificates with those of ACME, if this is its entry point.
  unfoldable pub acme_certificates :
      Option Text → Dict EntryPoint → Text → List Pair → Setup (List Pair)
  acme_certificates none eps name pairs = set_up pairs
  acme_certificates (some acme) eps name pairs = elim (lookup acme eps) [
    | none ↦ refused unknown_acme_entry_point
    | some _ ↦ if eqt name acme then or_error acme_failed (lib.with_acme pairs) else set_up pairs
  ]

  unfoldable pub some_certificates : List Pair → Setup (List Pair)
  some_certificates [] = refused no_certificates
  some_certificates (p ∷ ps) = set_up (p ∷ ps)

  -- What createTLSConfig does with the certificates and client CAs that it has loaded.
  unfoldable pub finish_tls :
      Option Text
      → Dict EntryPoint
      → Text
      → Tls
      → List Pair
      → Option (List Text)
      → Setup (Option (TlsConfig Pair))
  finish_tls acme eps name t loaded cas = acme_certificates acme eps name loaded >>= λ found.
      some_certificates found >>= λ pairs. cipher_suites_of t.cipher_suites >>= λ suites. set_up (
        some (record {
          certificates = pairs;
          next_protos = txt "h2" ∷ txt "http/1.1" ∷ [];
          client_cas = cas;
          min_version = lookup t.min_version min_versions;
          cipher_suites = suites;
        }))

  -- createTLSConfig; no configuration is an entry point without TLS.
  unfoldable pub create_tls_config :
      Option Text → Dict EntryPoint → Text → Option Tls → Setup (Option (TlsConfig Pair))
  create_tls_config acme eps name none = set_up none
  create_tls_config acme eps name (some t) = load_certificates t.certificates >>= λ loaded.
      client_cas_of t.client_ca_files >>= λ cas. finish_tls acme eps name t loaded cas
