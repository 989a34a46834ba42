-- ===== src/Acme/Duplicates.antt =====
-- acme/account.go, removeDuplicates: it ends, and what it keeps.
use traefik_release.Base.{
  eqt, if◌then◌else◌, join, txt, ltb, Bool, ℕ, zero, suc, ◌≤◌, ◌≡◌, refl, ap, ◌∙◌, ◌≢◌, ◌↔◌, inl,
  inr, true, Option, none, some, List, [], ◌∷◌, arith, Bool-cases, length, All, Text, eqt_iff,
}
use mathlib.Core.List.{Memᴰ}
use traefik_release.Provider.Picking.{picked}
use traefik_release.Acme.Certificates.{
  Domain, DomainsCertificate, eq_texts, eq_sans, deep_equal, less, insert_sorted, sort_certs,
  delete_same, dedup, remove_duplicates, not_after, is_after, placed, list_of, text_less,
}

eq_texts_iff : (ss ts : List Text) → (eq_texts ss ts ≡ true) ↔ (ss ≡ ts)
unfolding eq_texts
eq_texts_iff [] [] = ground arith
eq_texts_iff [] (t ∷ ts) = ground arith
eq_texts_iff (s ∷ ss) [] = ground arith
eq_texts_iff (s ∷ ss) (t ∷ ts) = ground (arith, eqt_iff s t, eq_texts_iff ss ts)

eq_sans_iff : (a b : Option (List Text)) → (eq_sans a b ≡ true) ↔ (a ≡ b)
unfolding eq_sans
eq_sans_iff none none = ground arith
eq_sans_iff none (some t) = ground arith
eq_sans_iff (some s) none = ground arith
eq_sans_iff (some s) (some t) = ground (arith, eq_texts_iff s t)

-- DeepEqual on domains is equality.
pub deep_equal_iff : (d e : Domain) → (deep_equal d e ≡ true) ↔ (d ≡ e)
unfolding deep_equal
deep_equal_iff d e = ground (arith, eqt_iff d.main e.main, eq_sans_iff d.sans e.sans)

abbrev pub Differs : DomainsCertificate → DomainsCertificate → Type 0
Differs c d = c.domains ≢ d.domains

-- The leaf of the certificate is read.
abbrev pub HasLeaf : DomainsCertificate → Type 0
HasLeaf c = (n : ℕ) × (not_after c ≡ some n)

-- Some certificate of the list is for the same domains.
abbrev pub Covers : List DomainsCertificate → DomainsCertificate → Type 0
Covers out c = (d : DomainsCertificate) × Memᴰ d out × (d.domains ≡ c.domains)

-- No two certificates of the list are for the same domains.
abbrev pub IsUnique : List DomainsCertificate → Type 0
IsUnique [] = Unit
IsUnique (c ∷ cs) = All (Differs c) cs × IsUnique cs

-- What the inner loop leaves behind `c`.
record IsLeft (c : DomainsCertificate) (ds out : List DomainsCertificate) : Type 1 where
  shorter : length out ≤ length ds
  apart : All (Differs c) out
  kept : (P : DomainsCertificate → Type 0) → All P ds → All P out
  covered : (rest : List DomainsCertificate) → All (Covers rest) out → All (Covers (c ∷ rest)) ds

delete_same-IsLeft :
    (c : DomainsCertificate) (ds : List DomainsCertificate)
    → All HasLeaf ds
    → (out : List DomainsCertificate) × (delete_same c ds ≡ some out) × IsLeft c ds out
unfolding delete_same
delete_same-IsLeft c [] h =
    ([], refl, record { shorter = omega arith; apart = tt; kept = λ P k. tt; covered = λ r k. tt })
delete_same-IsLeft c (d ∷ ds) ((n, leaf), h) =
    let (out, e, l) = delete_same-IsLeft c ds h in
    elim (Bool-cases (deep_equal c.domains d.domains)) [
      | inl same ↦ (
        out,
        rw (same, leaf, e),
        record {
          shorter = omega (arith, l.shorter);
          apart = l.apart;
          kept = λ P k. l.kept P k.1;
          covered = λ rest k. ((c, Memᴰ.head refl, (deep_equal_iff _ _).0 same), l.covered rest k);
        },
      )
      | inr other ↦ (
        d ∷ out,
        rw (other, e),
        record {
          shorter = omega (arith, l.shorter);
          apart = ((λ same. cc (other, (deep_equal_iff c.domains d.domains).1 same)), l.apart);
          kept = λ P k. (k.0, l.kept P k.1);
          covered = λ rest k.
              let (found, more) = k in ((found.0, Memᴰ.tail found.1, found.2), l.covered rest more);
        },
      )
    ]

-- What is left of a list: what holds of all of the list holds of all that is left, and the domains of each certificate
-- of the list are those of one that is left.
record IsReduced (all out : List DomainsCertificate) : Type 1 where
  unique : IsUnique out
  kept : (P : DomainsCertificate → Type 0) → All P all → All P out
  covered : All (Covers out) all

dedup-IsReduced :
    (fuel : ℕ) (cs : List DomainsCertificate)
    → length cs ≤ fuel
    → All HasLeaf cs
    → (out : List DomainsCertificate) × (dedup fuel cs ≡ picked out) × IsReduced cs out
unfolding dedup
dedup-IsReduced zero [] b h = ([], refl, record { unique = tt; kept = λ P k. tt; covered = tt })
dedup-IsReduced (suc fuel) [] b h =
    ([], refl, record { unique = tt; kept = λ P k. tt; covered = tt })
dedup-IsReduced zero (c ∷ cs) b h = elim b [ ]
dedup-IsReduced (suc fuel) (c ∷ cs) b h =
    let (ds, deleted, l) = delete_same-IsLeft c cs h.1 in
    let (out, e, r) = dedup-IsReduced fuel ds (omega (arith, b, l.shorter)) (l.kept HasLeaf h.1) in
    (
      c ∷ out,
      rw (deleted, e, dedup),
      record {
        unique = (r.kept (Differs c) l.apart, r.unique);
        kept = λ P k. (k.0, r.kept P (l.kept P k.1));
        covered = ((c, Memᴰ.head refl, refl), l.covered out r.covered);
      },
    )

-- The same certificates in some order.
record IsShuffled (xs out : List DomainsCertificate) : Type 1 where
  same : (P : DomainsCertificate → Type 0) → All P out ↔ All P xs
  long : length out ≡ length xs

less-HasLeaf : (c d : DomainsCertificate) → HasLeaf c → HasLeaf d → (b : Bool) × (less c d ≡ some b)
unfolding less is_after
less-HasLeaf c d (m, e) (n, f) = elim (Bool-cases (deep_equal c.domains d.domains)) [
  | inl same ↦ (ltb n m, rw (same, e, f))
  | inr other ↦ (
    if eqt c.domains.main d.domains.main
        then text_less (join (txt ",") (list_of c.domains.sans))
            (join (txt ",") (list_of d.domains.sans))
        else text_less c.domains.main d.domains.main,
    rw other,
  )
]

insert_sorted-IsShuffled :
    (c : DomainsCertificate) (ds : List DomainsCertificate)
    → HasLeaf c
    → All HasLeaf ds
    → (out : List DomainsCertificate) × (insert_sorted c ds ≡ some out) × IsShuffled (c ∷ ds) out
unfolding insert_sorted placed
insert_sorted-IsShuffled c [] p h =
    (c ∷ [], refl, record { same = λ P. ((λ k. k), (λ k. k)); long = refl })
insert_sorted-IsShuffled c (d ∷ ds) p h =
    let (out, e, s) = insert_sorted-IsShuffled c ds p h.1 in
    let (before, first) = less-HasLeaf d c h.0 p in
    elim (Bool-cases before) [
      | inl ahead ↦ (
        d ∷ out,
        rw (first, ahead, e),
        record {
          same = λ P. (
            (λ k. let (a, rest) = (s.same P).0 k.1 in (a, (k.0, rest))),
            (λ k. (k.1.0, (s.same P).1 (k.0, k.1.1))),
          );
          long = ap suc s.long;
        },
      )
      | inr behind ↦
          (c ∷ d ∷ ds, rw (first, behind), record { same = λ P. ((λ k. k), (λ k. k)); long = refl })
    ]

sort_certs-IsShuffled :
    (cs : List DomainsCertificate)
    → All HasLeaf cs
    → (out : List DomainsCertificate) × (sort_certs cs ≡ some out) × IsShuffled cs out
unfolding sort_certs
sort_certs-IsShuffled [] h = ([], refl, record { same = λ P. ((λ k. k), (λ k. k)); long = refl })
sort_certs-IsShuffled (c ∷ cs) h =
    let (ds, e, s) = sort_certs-IsShuffled cs h.1 in
    let (out, f, t) = insert_sorted-IsShuffled c ds h.0 ((s.same HasLeaf).1 h.1) in
    (
      out,
      rw e f,
      record {
        same = λ P. (
          (λ k. let (a, rest) = (t.same P).0 k in (a, (s.same P).0 rest)),
          (λ k. (t.same P).1 (k.0, (s.same P).1 k.1)),
        );
        long = t.long ∙ ap suc s.long;
      },
    )

All-map {ℓ} :
    {P Q : DomainsCertificate → Type ℓ} (cs : List DomainsCertificate)
    → ((c : DomainsCertificate) → P c → Q c)
    → All P cs
    → All Q cs
All-map [] f h = tt
All-map (c ∷ cs) f h = (f c h.0, All-map cs f h.1)

All-self : (cs : List DomainsCertificate) → All (λ c. Memᴰ c cs) cs
All-self [] = tt
All-self (c ∷ cs) = (Memᴰ.head refl, All-map cs (λ d m. Memᴰ.tail m) (All-self cs))

-- If the leaf of every certificate is read, removeDuplicates ends without a panic. No two of the
-- certificates that it leaves are for the same domains, each is one of those that were there, and for
-- the domains of each that was there one is left.
pub remove_duplicates_lem :
    (certs : List DomainsCertificate)
    → All HasLeaf certs
    → (out : List DomainsCertificate) × (remove_duplicates certs ≡ picked out)
      × IsUnique out
      × All (λ d. Memᴰ d certs) out
      × All (Covers out) certs
unfolding remove_duplicates
remove_duplicates_lem certs h =
    let (sorted, e, s) = sort_certs-IsShuffled certs h in
    let (out, f, r) =
      dedup-IsReduced (length certs) sorted (omega (arith, s.long)) ((s.same HasLeaf).1 h) in
    (
      out,
      rw (e, remove_duplicates) f,
      r.unique,
      r.kept (λ d. Memᴰ d certs) ((s.same (λ d. Memᴰ d certs)).1 (All-self certs)),
      (s.same (Covers out)).0 r.covered,
    )
