-- ===== src/Acme/Examples.antt =====
-- Certificates on concrete inputs (acme/account.go).
use traefik_release.Base.{
  none, ℕ, ◌≡◌, refl, some, List, [], ◌∷◌, length, All, Text, txt, eqt, join,
}
use mathlib.Core.List.{Memᴰ}
use traefik_release.Provider.Picking.{picked, panicked}
use traefik_release.Acme.Certificates.{
  X509, DomainsCertificate, eq_texts, eq_sans, deep_equal, less, insert_sorted, sort_certs,
  delete_same, dedup, remove_duplicates, text_less, leaf_of, is_after, placed,
}
use traefik_release.Acme.Duplicates.{IsUnique, HasLeaf, Covers, remove_duplicates_lem}

abbrev cert_of : Text → ℕ → DomainsCertificate
cert_of main until = record {
  domains = record { main = main; sans = some (txt "www" ∷ []) };
  certificate = record {
    domain = main;
    cert_url = [];
    cert_stable_url = [];
    private_key = txt "k";
    certificate = txt "c";
  };
  tls_cert = some (record { blocks = txt "c" ∷ []; leaf = some until });
}

abbrev certs : List DomainsCertificate
certs = cert_of (txt "b") 1 ∷ cert_of (txt "a") 5 ∷ cert_of (txt "b") 9 ∷ []

latest_kept : remove_duplicates certs ≡ picked (cert_of (txt "a") 5 ∷ cert_of (txt "b") 9 ∷ [])
unfolding remove_duplicates dedup delete_same sort_certs insert_sorted placed less is_after leaf_of
    text_less deep_equal eq_sans eq_texts eqt join
latest_kept = refl

abbrev renewed_cert : DomainsCertificate
renewed_cert = record (cert_of (txt "b") 1) {
  tls_cert = some (record { blocks = txt "c" ∷ []; leaf = none });
}

-- A renewed certificate has no leaf; beside one for the same domains it is compared.
renewed_panics : remove_duplicates (renewed_cert ∷ cert_of (txt "b") 9 ∷ []) ≡ panicked
unfolding remove_duplicates dedup delete_same sort_certs insert_sorted placed less is_after leaf_of
    text_less deep_equal eq_sans eq_texts eqt join
renewed_panics = refl

certs-HasLeaf : All HasLeaf certs
unfolding leaf_of
certs-HasLeaf = ((1, refl), ((5, refl), ((9, refl), tt)))

remove_duplicates_lem_example :
    (out : List DomainsCertificate) × (remove_duplicates certs ≡ picked out)
    × IsUnique out
    × All (λ d. Memᴰ d certs) out
    × All (Covers out) certs
remove_duplicates_lem_example = remove_duplicates_lem certs certs-HasLeaf

abbrev trusting : X509
trusting = record { key_pair = λ c k. some (c ∷ []); parse = λ b. some (length b) }
