-- ===== src/Acme/Lookup.antt =====
-- acme/account.go: adding, renewing and finding certificates.
use traefik_release.Base.{
  ◌≡◌, refl, sym, ap, ◌≢◌, ◌⊎◌, inl, inr, true, Option, none, some, List, [], ◌∷◌, ◌++◌, Bool-cases,
  Option-cases, any, All, Text, eqt,
}
use traefik_release.Acme.Certificates.{
  Domain, Certificate, X509, DomainsCertificate, CertError, bad_key_pair, not_found, list_of,
  deep_equal, renew_certificates, get_certificate_for_domain,
}
use traefik_release.Acme.Duplicates.{deep_equal_iff}

-- The names that a certificate is for.
abbrev pub names : DomainsCertificate → List Text
names c = c.domains.main ∷ list_of c.domains.sans

abbrev pub Serves : Text → DomainsCertificate → Type 0
Serves domain c = any (λ d. eqt d domain) (names c) ≡ true

-- The certificate that is found is the first that names the domain, and none is found exactly if
-- none names it.
pub get_certificate_for_domain_lem :
    (domain : Text) (certs : List DomainsCertificate)
    → ((get_certificate_for_domain domain certs ≡ none) × All (λ c. ¬ Serves domain c) certs)
      ⊎ ((before after : List DomainsCertificate) × (c : DomainsCertificate) × (certs
            ≡ before ++ c ∷ after)
          × (get_certificate_for_domain domain certs ≡ some c)
          × Serves domain c
          × All (λ d. ¬ Serves domain d) before)
unfolding get_certificate_for_domain
get_certificate_for_domain_lem domain [] = inl (refl, tt)
get_certificate_for_domain_lem domain (c ∷ cs) =
    elim (Bool-cases (any (λ d. eqt d domain) (names c))) [
      | inl e ↦ inr ([], cs, c, refl, rw e, e, tt)
      | inr e ↦ elim (get_certificate_for_domain_lem domain cs) [
        | inl (nothing, others) ↦ inl (rw e nothing, ((λ h. cc), others))
        | inr (before, after, d, parts, found, serves, others) ↦
            inr
              (c ∷ before, after, d, ap (λ r. c ∷ r) parts, rw e found, serves, ((λ h. cc), others))
      ]
    ]

module _ (x : X509) where
  -- What a renewal does to the certificates: the first for the domain gets the new certificate, and
  -- nothing else changes; without one, or with a bad key, nothing changes and an error comes back.
  pub data Renewal (cert : Certificate) (domain : Domain) (certs : List DomainsCertificate)
      : List DomainsCertificate × Option CertError → Type 0 where
    missing :
        All (λ c. c.domains ≢ domain) certs
        → Renewal cert domain certs (certs, some (not_found domain.main))
    refused :
        x.key_pair cert.certificate cert.private_key ≡ none
        → Renewal cert domain certs (certs, some bad_key_pair)
    renewed :
        (before after : List DomainsCertificate) (c : DomainsCertificate) {blocks : List Text}
        {out : List DomainsCertificate}
        → certs ≡ before ++ c ∷ after
        → All (λ d. d.domains ≢ domain) before
        → c.domains ≡ domain
        → x.key_pair cert.certificate cert.private_key ≡ some blocks
        → out
          ≡ before
            ++ record {
              domains = domain;
              certificate = cert;
              tls_cert = some (record { blocks = blocks; leaf = none });
            }
              ∷ after
        → Renewal cert domain certs (out, none)

  Renewal-cons :
      (cert : Certificate) (domain : Domain) (c : DomainsCertificate) (cs : List DomainsCertificate)
      (r : List DomainsCertificate × Option CertError)
      → c.domains ≢ domain
      → Renewal cert domain cs r
      → Renewal cert domain (c ∷ cs) (c ∷ r.0, r.1)
  Renewal-cons cert domain c cs r ne (missing h) = missing (ne, h)
  Renewal-cons cert domain c cs r ne (refused h) = refused h
  Renewal-cons cert domain c cs r ne (renewed before after d parts others same pair out) =
      renewed (c ∷ before) after d (ap (λ l. c ∷ l) parts) (ne, others) same pair
        (ap (λ l. c ∷ l) out)

  -- Renewing a certificate.
  pub renew_certificates-Renewal :
      (cert : Certificate) (domain : Domain) (certs : List DomainsCertificate)
      → Renewal cert domain certs (renew_certificates x cert domain certs)
  unfolding renew_certificates
  renew_certificates-Renewal cert domain [] = missing tt
  renew_certificates-Renewal cert domain (c ∷ cs) =
      elim (Bool-cases (deep_equal domain c.domains)) [
        | inl e ↦ elim (Option-cases (x.key_pair cert.certificate cert.private_key)) [
          | inl k ↦ rw (e, k, renew_certificates) (refused k)
          | inr (blocks, k) ↦
              rw (e, k, renew_certificates)
                (renewed [] cs c refl tt (sym ((deep_equal_iff _ _).0 e)) k
                  (rw ((deep_equal_iff domain c.domains).0 e)))
        ]
        | inr e ↦ rw e (
            Renewal-cons cert domain c cs _
              (λ s. cc (e, (deep_equal_iff domain c.domains).1 (sym s)))
              (renew_certificates-Renewal cert domain cs))
      ]
