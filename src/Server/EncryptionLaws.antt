-- ===== src/Server/EncryptionLaws.antt =====
-- server/server.go, createTLSConfig: what TLS an entry point gets.
use traefik_release.Base.{
  ℕ, ◌≡◌, refl, subst, ◌∙◌, ◌≢◌, inl, inr, true, Option, none, some, List, [], ◌∷◌, ◌++◌,
  append-nil, append_assoc, Bool-cases, Option-cases, Text, Dict, lookup,
}
use traefik_release.Server.Entries.{Tls, EntryPoint}
use traefik_release.Server.Encryption.{
  TlsLibrary, TlsError, unreadable_ca, Setup, set_up, refused, ◌>>=◌, or_error, known_cipher_suites,
  suites_from, cipher_suites_of, TlsConfig, load_certificates, load_client_cas, client_cas_of,
  acme_certificates, some_certificates, finish_tls, create_tls_config,
}

-- What a setup of two stages went through.
stages {ℓ κ} :
    {A : Type ℓ} {B : Type κ} {b : B} (next : A → Setup B) (m : Setup A)
    → (m >>= next) ≡ set_up b
    → (a : A) × (next a ≡ set_up b) × (m ≡ set_up a)
stages next (refused why) done = cc
stages next (set_up a) done = (a, done, refl)

or_error-eq-set_up {ℓ} :
    {A : Type ℓ} (e : TlsError) (o : Option A) {a : A} → or_error e o ≡ set_up a → o ≡ some a
or_error-eq-set_up e none h = cc
or_error-eq-set_up e (some a) h = cc

-- The numbers of suites by their names.
pub AreSuites : List Text → List ℕ → Type 0
AreSuites [] [] = Unit
AreSuites [] (c ∷ cs) = ⊥
AreSuites (n ∷ ns) [] = ⊥
AreSuites (n ∷ ns) (c ∷ cs) = (lookup n known_cipher_suites ≡ some c) × AreSuites ns cs

-- The contents of files of client CAs, which hold certificates.
pub AreRead : (lib : TlsLibrary) → List Text → List Text → Type 0
AreRead lib [] [] = Unit
AreRead lib [] (p ∷ ps) = ⊥
AreRead lib (f ∷ fs) [] = ⊥
AreRead lib (f ∷ fs) (p ∷ ps) =
    (lib.read_file f ≡ some p) × (lib.has_certificates p ≡ true) × AreRead lib fs ps

suites_from-AreSuites :
    (suites : List ℕ) (names : List Text) (out : List ℕ)
    → suites_from suites names ≡ set_up out
    → (more : List ℕ) × (out ≡ suites ++ more) × AreSuites names more
unfolding suites_from AreSuites
suites_from-AreSuites suites [] out h = ([], cc (append-nil suites, h), tt)
suites_from-AreSuites suites (n ∷ names) out h =
    elim (Option-cases (lookup n known_cipher_suites)) [
      | inl e ↦ cc (rw (e, suites_from) at h)
      | inr (c, e) ↦
          let (more, p, q) =
            suites_from-AreSuites (suites ++ c ∷ []) names out (rw (e, suites_from) at h) in
          (c ∷ more, p ∙ append_assoc suites (c ∷ []) more, (e, q))
    ]

-- What the TLS of an entry point is: it has a certificate; each cipher suite that is named is
-- offered, in order, and no other, unless none are named; a client must show a certificate by the
-- client CAs exactly if files of them are given, and each of them was read and holds certificates.
pub record IsSecured (lib : TlsLibrary) (t : Tls) (c : TlsConfig lib.Pair) : Type 0 where
  pub certified : c.certificates ≢ []
  pub default_suites : t.cipher_suites ≡ none → c.cipher_suites ≡ none
  pub named_suites :
      (names : List Text)
      → t.cipher_suites ≡ some names
      → (suites : List ℕ) × (c.cipher_suites ≡ some suites) × AreSuites names suites
  pub open_to_all : t.client_ca_files ≡ [] → c.client_cas ≡ none
  pub clients_checked :
      t.client_ca_files ≢ []
      → (pems : List Text) × (c.client_cas ≡ some pems) × AreRead lib t.client_ca_files pems

module _ (lib : TlsLibrary) where
  open lib use {Pair}

  load_client_cas-AreRead :
      (files pems : List Text) → load_client_cas lib files ≡ set_up pems → AreRead lib files pems
  unfolding load_client_cas AreRead
  load_client_cas-AreRead [] [] h = tt
  load_client_cas-AreRead [] (p ∷ ps) h = cc
  load_client_cas-AreRead (f ∷ files) pems h =
      let (pem, rest, read) = stages _ (or_error unreadable_ca (lib.read_file f)) h in
      elim (Bool-cases (lib.has_certificates pem)) [
        | inr no_certificate ↦ cc (rw no_certificate at rest)
        | inl certain ↦
            let (more, same, e) =
              stages (λ pems. set_up (pem ∷ pems)) (load_client_cas lib files)
                (rw certain at rest) in
            let whole : pem ∷ more ≡ pems = cc (same) in
            subst (AreRead lib (f ∷ files)) whole (
              or_error-eq-set_up unreadable_ca (lib.read_file f) read,
              certain,
              load_client_cas-AreRead files more e,
            )
      ]

  some_certificates-ne-nil : (ps qs : List Pair) → some_certificates lib ps ≡ set_up qs → qs ≢ []
  unfolding some_certificates
  some_certificates-ne-nil [] qs h e = cc
  some_certificates-ne-nil (p ∷ ps) qs h e = cc

  cipher_suites_of-given :
      (names : List Text) (out : Option (List ℕ))
      → cipher_suites_of (some names) ≡ set_up out
      → (suites : List ℕ) × (out ≡ some suites) × AreSuites names suites
  unfolding cipher_suites_of
  cipher_suites_of-given names out h =
      let (suites, same, e) = stages (λ suites. set_up (some suites)) (suites_from [] names) h in
      let (more, p, q) = suites_from-AreSuites [] names suites e in (more, cc (same, p), q)

  client_cas_of-given :
      (files : List Text) (out : Option (List Text))
      → files ≢ []
      → client_cas_of lib files ≡ set_up out
      → (pems : List Text) × (out ≡ some pems) × AreRead lib files pems
  unfolding client_cas_of
  client_cas_of-given [] out ne h = absurd (ne refl)
  client_cas_of-given (f ∷ files) out ne h =
      let (pems, same, e) =
        stages (λ pems. set_up (some pems)) (load_client_cas lib (f ∷ files)) h in
      (pems, cc (same), load_client_cas-AreRead (f ∷ files) pems e)

  cipher_suites_of-unnamed :
      (o : Option (List Text)) (out : Option (List ℕ))
      → o ≡ none
      → cipher_suites_of o ≡ set_up out
      → out ≡ none
  unfolding cipher_suites_of
  cipher_suites_of-unnamed none out n h = cc
  cipher_suites_of-unnamed (some names) out n h = cc

  client_cas_of-open :
      (files : List Text) (out : Option (List Text))
      → files ≡ []
      → client_cas_of lib files ≡ set_up out
      → out ≡ none
  unfolding client_cas_of
  client_cas_of-open [] out n h = cc
  client_cas_of-open (f ∷ files) out n h = cc

  parts-IsSecured :
      (t : Tls) (c : TlsConfig Pair) (found : List Pair)
      → client_cas_of lib t.client_ca_files ≡ set_up c.client_cas
      → some_certificates lib found ≡ set_up c.certificates
      → cipher_suites_of t.cipher_suites ≡ set_up c.cipher_suites
      → IsSecured lib t c
  parts-IsSecured t c found cas certs suites = record {
    certified = some_certificates-ne-nil found c.certificates certs;
    default_suites = λ n. cipher_suites_of-unnamed t.cipher_suites c.cipher_suites n suites;
    named_suites = λ names given. cipher_suites_of-given names c.cipher_suites (cc (suites, given));
    open_to_all = λ n. client_cas_of-open t.client_ca_files c.client_cas n cas;
    clients_checked = λ given. client_cas_of-given t.client_ca_files c.client_cas given cas;
  }

  -- The last steps, when the certificates have been loaded.
  IsSecured-from :
      (acme : Option Text) (eps : Dict EntryPoint) (name : Text) (t : Tls) (c : TlsConfig Pair)
      (loaded : List Pair) (cas : Option (List Text))
      → client_cas_of lib t.client_ca_files ≡ set_up cas
      → finish_tls lib acme eps name t loaded cas ≡ set_up (some c)
      → IsSecured lib t c
  unfolding finish_tls
  IsSecured-from acme eps name t c loaded cas e h =
      let (found, h1, _) = stages _ (acme_certificates lib acme eps name loaded) h in
      let (pairs, h2, e2) = stages _ (some_certificates lib found) h1 in
      let (suites, h3, e3) = stages _ (cipher_suites_of t.cipher_suites) h2 in
      parts-IsSecured t c found (cc (e, h3)) (cc (e2, h3)) (cc (e3, h3))

  -- An entry point for which TLS can be set up has a certificate; it offers the cipher suites that
  -- its configuration names, each known, and no other, or the default ones if it names none; and
  -- clients must show a certificate exactly if files of client CAs are given, all of which were
  -- read and hold certificates.
  pub create_tls_config-IsSecured :
      (acme : Option Text) (eps : Dict EntryPoint) (name : Text) (t : Tls) (c : TlsConfig Pair)
      → create_tls_config lib acme eps name (some t) ≡ set_up (some c)
      → IsSecured lib t c
  unfolding create_tls_config
  create_tls_config-IsSecured acme eps name t c h =
      let (loaded, h1, _) = stages _ (load_certificates lib t.certificates) h in
      let (cas, h2, e) = stages _ (client_cas_of lib t.client_ca_files) h1 in
      IsSecured-from acme eps name t c loaded cas e h2
