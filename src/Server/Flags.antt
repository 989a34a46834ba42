-- ===== src/Server/Flags.antt =====
-- What reading flags of certificates and entry points (server/configuration.go) gives.
use traefik_release.Base.{
  ◌≡◌, refl, sym, subst, ◌∙◌, ◌≢◌, ◌↔◌, ◌⊎◌, inl, inr, Bool, true, false, Option, none, some, List,
  [], ◌∷◌, ◌++◌, map, append-nil, append_assoc, ◌==◌, Bool-cases, Option-cases, All, All-append,
  Text, txt, is_empty, join, Dict, split, split-join,
}
use traefik_release.Server.Entries.{
  CertificateFiles, EntryPoint, Tls, certificate_text, certificates_string, two_files,
  certificates_from, certificates_set, nil_tls, part_of, flag_certificates, flag_tls,
  with_client_cas, entry_points_from, entry_points_set,
}

-- Files whose names hold neither "," nor ";".
pub record IsWritable (c : CertificateFiles) : Type 0 where
  pub cert_no_comma : All (λ b. (b == b',') ≡ false) c.cert_file
  pub key_no_comma : All (λ b. (b == b',') ≡ false) c.key_file
  pub cert_no_semicolon : All (λ b. (b == b';') ≡ false) c.cert_file
  pub key_no_semicolon : All (λ b. (b == b';') ≡ false) c.key_file

certificate_text-plain :
    (c : CertificateFiles) → IsWritable c → All (λ b. (b == b';') ≡ false) (certificate_text c)
unfolding certificate_text
certificate_text-plain c w =
    All-append (λ b. (b == b';') ≡ false) c.cert_file _ w.cert_no_semicolon
      (refl, w.key_no_semicolon)

two_files-split :
    (c : CertificateFiles) → IsWritable c → two_files (split b',' (certificate_text c)) ≡ some c
unfolding certificate_text two_files
two_files-split c w =
    let parts : ◌≡◌ (split b',' (c.cert_file ++ (b',' ∷ c.key_file)))
        (c.cert_file ∷ c.key_file ∷ []) =
      unfold join in
      split-join b',' (c.cert_file ∷ c.key_file ∷ []) (λ e. cc)
        (w.cert_no_comma, (w.key_no_comma, tt)) in
    rw parts

certificates_from-text :
    (certs more : List CertificateFiles)
    → All IsWritable more
    → certificates_from certs (map certificate_text more) ≡ (certs ++ more, false)
unfolding certificates_from
certificates_from-text certs [] h = rw append-nil
certificates_from-text certs (c ∷ more) (w, h) =
    rw (two_files-split c w, certificates_from)
      (certificates_from-text (certs ++ c ∷ []) more h ∙ rw append_assoc)

All-certificate_text :
    (certs : List CertificateFiles)
    → All IsWritable certs
    → All (All (λ b. (b == b';') ≡ false)) (map certificate_text certs)
All-certificate_text [] h = tt
All-certificate_text (c ∷ certs) (w, h) = (certificate_text-plain c w, All-certificate_text certs h)

map-certificate_text-ne-nil :
    (certs : List CertificateFiles) → certs ≢ [] → map certificate_text certs ≢ []
map-certificate_text-ne-nil [] ne e = ne refl
map-certificate_text-ne-nil (c ∷ certs) ne e = cc

-- Setting certificates by the text of a list of certificates appends that list, without an error,
-- if the list is not empty and no file name holds a comma or a semicolon.
pub certificates_set-certificates_string :
    (certs more : List CertificateFiles)
    → more ≢ []
    → All IsWritable more
    → certificates_set certs (certificates_string more) ≡ (certs ++ more, false)
unfolding certificates_set certificates_string
certificates_set-certificates_string certs more ne h =
    rw
      (split-join b';' (map certificate_text more) (map-certificate_text-ne-nil more ne)
        (All-certificate_text more h))
      (certificates_from-text certs more h)

-- A flag with client CAs, and with neither certificates nor ACME.
abbrev pub IsBare : Dict Text → Type 0
IsBare parts =
    (part_of (txt "TLS") parts ≡ [])
    × (part_of (txt "TLSACME") parts ≡ [])
    × (part_of (txt "CA") parts ≢ [])

is_empty_iff : (t : Text) → (is_empty t ≡ true) ↔ (t ≡ [])
unfolding is_empty
is_empty_iff [] = ((λ _. refl), (λ _. refl))
is_empty_iff (c ∷ t) = ((λ e. cc), (λ e. cc))

flag_certificates-cases :
    (r : List CertificateFiles × Bool)
    → (flag_certificates r ≡ none) ⊎ ((t : Tls) × (flag_certificates r ≡ some (some t)))
unfolding flag_certificates
flag_certificates-cases (certs, true) = inl refl
flag_certificates-cases (certs, false) = inr (_, refl)

module _ (eps : Dict EntryPoint) where
  with_client_cas-given : (ca : Text) (t : Tls) → with_client_cas ca (some t) ≢ none
  unfolding with_client_cas is_empty
  with_client_cas-given [] t e = cc
  with_client_cas-given (c ∷ ca) t e = cc

  with_client_cas-nil_iff : (ca : Text) → (with_client_cas ca none ≡ none) ↔ (ca ≢ [])
  unfolding with_client_cas is_empty
  with_client_cas-nil_iff [] = ((λ e. cc), (λ ne. absurd (ne refl)))
  with_client_cas-nil_iff (c ∷ ca) = ((λ e h. cc), (λ ne. refl))

  from-given :
      (parts : Dict Text) (t : Tls)
      → flag_tls parts ≡ some (some t)
      → (entry_points_from eps parts).1 ≢ some nil_tls
  unfolding entry_points_from
  from-given parts t e h =
      elim (Option-cases (with_client_cas (part_of (txt "CA") parts) (some t))) [
        | inl n ↦ with_client_cas-given (part_of (txt "CA") parts) t n
        | inr (tls, s) ↦ cc (rw (e, s, entry_points_from) at h)
      ]

  from-bad :
      (parts : Dict Text) → flag_tls parts ≡ none → (entry_points_from eps parts).1 ≢ some nil_tls
  unfolding entry_points_from
  from-bad parts e h = cc (rw (e, entry_points_from) at h)

  from-certificates :
      (parts : Dict Text) (r : List CertificateFiles × Bool)
      → flag_tls parts ≡ flag_certificates r
      → (entry_points_from eps parts).1 ≢ some nil_tls
  from-certificates parts r e h = elim (flag_certificates-cases r) [
    | inl n ↦ from-bad parts (e ∙ n) h
    | inr (t, s) ↦ from-given parts t (e ∙ s) h
  ]

  from-nil :
      (parts : Dict Text)
      → flag_tls parts ≡ some none
      → ((entry_points_from eps parts).1 ≡ some nil_tls) ↔ (part_of (txt "CA") parts ≢ [])
  unfolding entry_points_from
  from-nil parts e = elim (Option-cases (with_client_cas (part_of (txt "CA") parts) none)) [
    | inl n ↦ (
      (λ _. (with_client_cas-nil_iff (part_of (txt "CA") parts)).0 n),
      (λ _. rw (e, n, entry_points_from)),
    )
    | inr (tls, s) ↦ (
      (λ h. cc (rw (e, s, entry_points_from) at h)),
      (λ ne. cc ((with_client_cas-nil_iff (part_of (txt "CA") parts)).1 ne)),
    )
  ]

  from-panics_iff :
      (parts : Dict Text) → ((entry_points_from eps parts).1 ≡ some nil_tls) ↔ IsBare parts
  unfolding flag_tls
  from-panics_iff parts = elim (Bool-cases (is_empty (part_of (txt "TLS") parts))) [
    | inl e ↦ elim (Bool-cases (is_empty (part_of (txt "TLSACME") parts))) [
      | inl f ↦
          let tls = (is_empty_iff (part_of (txt "TLS") parts)).0 e in
          let acme = (is_empty_iff (part_of (txt "TLSACME") parts)).0 f in
          let same = from-nil parts (rw (e, f)) in ((λ h. (tls, acme, same.0 h)), (λ b. same.1 b.2))
      | inr f ↦ (
        (λ h. absurd (from-certificates parts ([], false) (rw (e, f)) h)),
        (λ b. cc (f, (is_empty_iff (part_of (txt "TLSACME") parts)).1 b.1)),
      )
    ]
    | inr e ↦ (
      (λ h.
          absurd
            (from-certificates parts (certificates_set [] (part_of (txt "TLS") parts)) (rw e) h)),
      (λ b. cc (e, (is_empty_iff (part_of (txt "TLS") parts)).1 b.0)),
    )
  ]

  -- Setting an entry point panics exactly for a flag with client CAs that has neither certificates
  -- nor the mark for those of ACME.
  pub entry_points_set-panics_iff :
      (find : Text → Option (Dict Text)) (value : Text)
      → ((entry_points_set find eps value).1 ≡ some nil_tls)
        ↔ ((parts : Dict Text) × (find value ≡ some parts) × IsBare parts)
  unfolding entry_points_set
  entry_points_set-panics_iff find value = elim (Option-cases (find value)) [
    | inl e ↦ ((λ h. cc (rw (e, entry_points_set) at h)), (λ b. cc (e, b.1)))
    | inr (parts, e) ↦ (
      (λ h. (parts, e, (from-panics_iff parts).0 (rw (e, entry_points_set) at h))),
      (λ b.
          let same : parts ≡ b.0 = cc (e, b.1) in
          rw (e, entry_points_set) ((from-panics_iff parts).1 (subst IsBare (sym same) b.2))),
    )
  ]
