-- ===== src/Server/StaticExamples.antt =====
-- The static configuration on concrete inputs (server/configuration.go, server/server.go).
use traefik_release.Base.{
  ◌≡◌, refl, ◌↔◌, true, false, none, some, List, [], ◌∷◌, arith, All, Text, txt, eqt, Dict, lookup,
}
use traefik_release.Server.Entries.{CertificateFiles, entry_points_set, nil_tls}
use traefik_release.Server.Flags.{IsWritable, IsBare, entry_points_set-panics_iff}
use traefik_release.Server.Redirects.{
  load_entry_point_config, redirect_to, any_address, load_entry_point_config-port,
}
use traefik_release.Server.Encryption.{
  TlsLibrary, set_up, suites_from, cipher_suites_of, known_cipher_suites, min_versions,
  load_certificate, load_certificates, load_client_cas, client_cas_of, acme_certificates,
  some_certificates, finish_tls, create_tls_config,
}
use traefik_release.Server.EncryptionLaws.{IsSecured, create_tls_config-IsSecured}
use traefik_release.Server.Samples.{plain_tls, secure_port, ports, https_here}

abbrev files : TlsLibrary
files = record {
  Pair = Text;
  is_path = λ t. false;
  load_pair = λ c k. none;
  parse_pair = λ c k. some c;
  read_file = λ t. some t;
  has_certificates = λ t. true;
  with_acme = λ ps. none;
}

plain_tls_set_up :
    create_tls_config files none ports (txt "https") (some plain_tls)
    ≡ set_up (
        some (record {
          certificates = txt "c" ∷ [];
          next_protos = txt "h2" ∷ txt "http/1.1" ∷ [];
          client_cas = some (txt "ca" ∷ []);
          min_version = some 0x0303;
          cipher_suites = some (0x009c ∷ []);
        }))
unfolding create_tls_config finish_tls load_certificates load_certificate client_cas_of
    load_client_cas acme_certificates some_certificates cipher_suites_of suites_from
    known_cipher_suites min_versions lookup eqt
plain_tls_set_up = refl

create_tls_config-IsSecured_example : IsSecured files plain_tls (record {
  certificates = txt "c" ∷ [];
  next_protos = txt "h2" ∷ txt "http/1.1" ∷ [];
  client_cas = some (txt "ca" ∷ []);
  min_version = some 0x0303;
  cipher_suites = some (0x009c ∷ []);
})
create_tls_config-IsSecured_example =
    create_tls_config-IsSecured files none ports (txt "https") plain_tls _ plain_tls_set_up

abbrev two_pairs : List CertificateFiles
two_pairs =
    record { cert_file = txt "a.crt"; key_file = txt "a.key" }
    ∷ record { cert_file = txt "b.crt"; key_file = txt "b.key" }
    ∷ []

two_pairs-IsWritable : All IsWritable two_pairs
two_pairs-IsWritable = ground arith

abbrev ca_only : Dict Text
ca_only = (txt "Name", txt "x") ∷ (txt "CA", txt "ca") ∷ []

entry_points_set-panics_iff_example :
    ((entry_points_set (λ v. some ca_only) [] (txt "Name:x CA:ca")).1 ≡ some nil_tls)
    ↔ ((parts : Dict Text) × (some ca_only ≡ some parts) × IsBare parts)
entry_points_set-panics_iff_example =
    entry_points_set-panics_iff [] (λ v. some ca_only) (txt "Name:x CA:ca")

load_entry_point_config-port_example :
    load_entry_point_config
      (λ e r. true)
      ports
      (record { entry_point = txt "https"; regex = []; replacement = [] })
    ≡ redirect_to (record { regex = any_address; replacement = txt "https://$1:443$2" })
load_entry_point_config-port_example =
    load_entry_point_config-port (λ e r. true) ports
      (record { entry_point = txt "https"; regex = []; replacement = [] }) secure_port
      (txt "0.0.0.0") (txt "443") [] (λ e. cc) https_here refl (ground arith) (λ e. cc)
      (ground arith) tt (λ e r. refl)
