-- ===== src/Acme/Certificates.antt =====
-- acme/account.go: certificates by domains. crypto/tls and crypto/x509 are the parameter `X509`. The
-- lock makes each method one step.
use traefik_release.Base.{
  ℕ, zero, suc, Bool, true, false, ◌&&◌, ◌||◌, Option, none, some, List, [], ◌∷◌, ◌++◌, ltb, ◌==◌,
  if◌then◌else◌, length, any, Text, txt, eqt, join,
}
use traefik_release.Provider.Picking.{Picked, picked, refused, panicked, then_picked}

-- acme.Domain; `none` is a nil slice, which reflect.DeepEqual tells from an empty one.
pub record Domain : Type 0 where
  pub main : Text
  pub sans : Option (List Text)

-- Certificate
pub record Certificate : Type 0 where
  pub domain : Text
  pub cert_url : Text
  pub cert_stable_url : Text
  pub private_key : Text
  pub certificate : Text

-- tls.X509KeyPair(certificate, key): a chain; x509.ParseCertificate of a block: its NotAfter.
pub record X509 : Type 0 where
  pub key_pair : Text → Text → Option (List Text)
  pub parse : Text → Option ℕ

-- tls.Certificate: its blocks, and the NotAfter of its leaf if that is parsed.
pub record TlsCert : Type 0 where
  pub blocks : List Text
  pub leaf : Option ℕ

-- DomainsCertificate
pub record DomainsCertificate : Type 0 where
  pub domains : Domain
  pub certificate : Certificate
  pub tls_cert : Option TlsCert

pub data CertError : Type 0 where
  bad_key_pair bad_leaf : CertError
  not_found : Text → CertError

abbrev pub list_of : Option (List Text) → List Text
list_of none = []
list_of (some xs) = xs

unfoldable pub eq_texts : List Text → List Text → Bool
eq_texts [] [] = true
eq_texts (s ∷ ss) (t ∷ ts) = eqt s t && eq_texts ss ts
eq_texts _ _ = false

-- reflect.DeepEqual on domains
unfoldable pub eq_sans : Option (List Text) → Option (List Text) → Bool
eq_sans none none = true
eq_sans (some ss) (some ts) = eq_texts ss ts
eq_sans _ _ = false

unfoldable pub deep_equal : Domain → Domain → Bool
deep_equal d e = eqt d.main e.main && eq_sans d.sans e.sans

-- s < t on strings
unfoldable pub text_less : Text → Text → Bool
text_less s [] = false
text_less [] (b ∷ t) = true
text_less (a ∷ s) (b ∷ t) = ltb a b || ((a == b) && text_less s t)

-- tlsCert.Leaf.NotAfter; `none` is a nil pointer on the way, which panics.
unfoldable pub leaf_of : Option TlsCert → Option ℕ
leaf_of none = none
leaf_of (some t) = t.leaf

abbrev pub not_after : DomainsCertificate → Option ℕ
not_after c = leaf_of c.tls_cert

unfoldable pub is_after : Option ℕ → Option ℕ → Option Bool
is_after (some m) (some n) = some (ltb n m)
is_after (some m) none = none
is_after none n = none

-- Less; `none` is a panic.
unfoldable pub less : DomainsCertificate → DomainsCertificate → Option Bool
less c d =
    if deep_equal c.domains d.domains
    then is_after (not_after c) (not_after d)
    else some (
        if eqt c.domains.main d.domains.main
        then text_less (join (txt ",") (list_of c.domains.sans))
            (join (txt ",") (list_of d.domains.sans))
        else text_less c.domains.main d.domains.main)

abbrev pub keep_first :
    DomainsCertificate → Option (List DomainsCertificate) → Option (List DomainsCertificate)
keep_first d rest = elim rest [ none ↦ none | some ds ↦ some (d ∷ ds) ]

-- sort.Sort(dc); `none` is a panic of Less. The package's sort does not promise which pairs it
-- compares, nor an order among certificates of which neither is less; this one inserts them.
unfoldable pub placed :
    DomainsCertificate
    → DomainsCertificate
    → List DomainsCertificate
    → Option (List DomainsCertificate)
    → Option Bool
    → Option (List DomainsCertificate)
placed c d ds rest none = none
placed c d ds rest (some true) = keep_first d rest
placed c d ds rest (some false) = some (c ∷ d ∷ ds)

unfoldable pub insert_sorted :
    DomainsCertificate → List DomainsCertificate → Option (List DomainsCertificate)
insert_sorted c [] = some (c ∷ [])
insert_sorted c (d ∷ ds) = placed c d ds (insert_sorted c ds) (less d c)

unfoldable pub sort_certs : List DomainsCertificate → Option (List DomainsCertificate)
sort_certs [] = some []
sort_certs (c ∷ cs) = elim (sort_certs cs) [ none ↦ none | some ds ↦ insert_sorted c ds ]

-- The inner loop of removeDuplicates: what is left behind `c`. The log of a removal reads the leaf of
-- the certificate; `none` is its panic.
unfoldable pub delete_same :
    DomainsCertificate → List DomainsCertificate → Option (List DomainsCertificate)
delete_same c [] = some []
delete_same c (d ∷ ds) =
    let rest = delete_same c ds in
    if deep_equal c.domains d.domains
    then elim (not_after d) [ none ↦ none | some _ ↦ rest ]
    else keep_first d rest

abbrev pub first_kept :
    DomainsCertificate → Picked (List DomainsCertificate) → Picked (List DomainsCertificate)
first_kept c rest = elim rest [
  | picked ds ↦ picked (c ∷ ds)
  | refused ↦ refused
  | panicked ↦ panicked
]

-- The outer loop, on fuel; `refused` is fuel that has run out.
unfoldable pub dedup : ℕ → List DomainsCertificate → Picked (List DomainsCertificate)
dedup fuel [] = picked []
dedup zero (c ∷ cs) = refused
dedup (suc fuel) (c ∷ cs) = elim (delete_same c cs) [
  | none ↦ panicked
  | some ds ↦ first_kept c (dedup fuel ds)
]

unfoldable pub remove_duplicates : List DomainsCertificate → Picked (List DomainsCertificate)
remove_duplicates certs = elim (sort_certs certs) [
  | none ↦ panicked
  | some sorted ↦ dedup (length certs) sorted
]

module _ (x : X509) where
  -- One round of the loop of Init; the first block of a chain without blocks is read, which panics.
  unfoldable pub init_one : DomainsCertificate → Picked (DomainsCertificate × Option CertError)
  init_one c = elim (x.key_pair c.certificate.certificate c.certificate.private_key) [
    | none ↦ picked (c, some bad_key_pair)
    | some [] ↦ panicked
    | some (b ∷ bs) ↦ elim (x.parse b) [
      | none ↦
          picked
            (record c { tls_cert = some (record { blocks = b ∷ bs; leaf = none }) }, some bad_leaf)
      | some n ↦
          picked (record c { tls_cert = some (record { blocks = b ∷ bs; leaf = some n }) }, none)
    ]
  ]

  unfoldable pub init_next :
      List DomainsCertificate
      → Picked (List DomainsCertificate × Option CertError)
      → Picked (DomainsCertificate × Option CertError)
      → Picked (List DomainsCertificate × Option CertError)
  init_next cs rest panicked = panicked
  init_next cs rest refused = refused
  init_next cs rest (picked (c, some e)) = picked (c ∷ cs, some e)
  init_next cs (picked (ds, e)) (picked (c, none)) = picked (c ∷ ds, e)
  init_next cs refused (picked (c, none)) = refused
  init_next cs panicked (picked (c, none)) = panicked

  unfoldable pub init_loop :
      List DomainsCertificate → Picked (List DomainsCertificate × Option CertError)
  init_loop [] = picked ([], none)
  init_loop (c ∷ cs) = init_next cs (init_loop cs) (init_one c)

  unfoldable pub finish_init :
      List DomainsCertificate × Option CertError
      → Picked (List DomainsCertificate × Option CertError)
  finish_init (cs, some e) = picked (cs, some e)
  finish_init (cs, none) = then_picked (remove_duplicates cs) λ ds. picked (ds, none)

  -- Init: after an error the certificates before it are read and nothing is removed.
  unfoldable pub init :
      List DomainsCertificate → Picked (List DomainsCertificate × Option CertError)
  init certs = then_picked (init_loop certs) finish_init

  -- renewCertificates
  unfoldable pub renew_certificates :
      Certificate → Domain → List DomainsCertificate → List DomainsCertificate × Option CertError
  renew_certificates acme_cert domain [] = ([], some (not_found domain.main))
  renew_certificates acme_cert domain (c ∷ cs) =
      let (rest, e) = renew_certificates acme_cert domain cs in
      if deep_equal domain c.domains
      then elim (x.key_pair acme_cert.certificate acme_cert.private_key) [
        | none ↦ (c ∷ cs, some bad_key_pair)
        | some blocks ↦ (
          record c {
            certificate = acme_cert;
            tls_cert = some (record { blocks = blocks; leaf = none });
          }
              ∷ cs,
          none,
        )
      ]
      else (c ∷ rest, e)

  -- addCertificateForDomains
  unfoldable pub add_certificate_for_domains :
      Certificate → Domain → List DomainsCertificate → List DomainsCertificate × Option CertError
  add_certificate_for_domains acme_cert domain certs =
      elim (x.key_pair acme_cert.certificate acme_cert.private_key) [
        | none ↦ (certs, some bad_key_pair)
        | some blocks ↦ (
          certs
              ++ record {
                domains = domain;
                certificate = acme_cert;
                tls_cert = some (record { blocks = blocks; leaf = none });
              }
                ∷ [],
          none,
        )
      ]

  -- needRenew; `month` is 30 days from now.
  unfoldable pub need_renew_blocks : ℕ → List Text → Bool
  need_renew_blocks month [] = false
  need_renew_blocks month (b ∷ bs) = elim (x.parse b) [
    | none ↦ true
    | some n ↦ if ltb n month then true else need_renew_blocks month bs
  ]

-- getCertificateForDomain
unfoldable pub get_certificate_for_domain :
    Text → List DomainsCertificate → Option DomainsCertificate
get_certificate_for_domain domain [] = none
get_certificate_for_domain domain (c ∷ cs) =
    if any (λ d. eqt d domain) (c.domains.main ∷ list_of c.domains.sans)
    then some c
    else get_certificate_for_domain domain cs

-- exists
unfoldable pub exists : Domain → List DomainsCertificate → Option DomainsCertificate
exists domain [] = none
exists domain (c ∷ cs) = if deep_equal domain c.domains then some c else exists domain cs
