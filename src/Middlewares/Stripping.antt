-- ===== src/Middlewares/Stripping.antt =====
-- middlewares/stripPrefix.go: which prefix is stripped, and what is left.
use traefik_release.Base.{
  ℕ, ◌≤◌, ◌≡◌, refl, sym, ap, ◌∙◌, ◌↔◌, ◌⊎◌, inl, inr, true, false, none, some, List, [], ◌∷◌, ◌++◌,
  arith, ltb, Bool-cases, Option-cases, length, length-append, All, Text, eqt, eqt_iff, trim_space,
  strip, trim_prefix, trim_suffix, strip-append, strip-eq-some,
}
use mathlib.Core.List.{Memᴰ}
use traefik_release.Rules.Sizes.{IsLongestFirst}
use traefik_release.Middlewares.Paths.{slash, strip_one, strip_path}

-- The path is the prefix, or goes on behind it with a slash; a slash that ends the prefix counts.
abbrev pub Covers : Text → Text → Type 0
Covers p path = (p ≡ path) ⊎ ((rest : Text) × (path ≡ (trim_suffix p slash ++ slash) ++ rest))

lt_irrefl_ltb : (n : ℕ) → ltb n n ≡ false
lt_irrefl_ltb n = ground arith

-- trim_prefix makes a text shorter exactly where it finds a prefix that is not empty.
trim_prefix-lt :
    (s p : Text)
    → ltb (length (trim_prefix s p)) (length s) ≡ true
    → (rest : Text) × (strip p s ≡ some rest)
unfolding trim_prefix
trim_prefix-lt s p h = elim (Option-cases (strip p s)) [
  | inl e ↦ cc (rw (e, trim_prefix) at h, lt_irrefl_ltb (length s))
  | inr (rest, e) ↦ (rest, e)
]

trim_prefix-append : (p s : Text) → trim_prefix (p ++ s) p ≡ s
unfolding trim_prefix
trim_prefix-append p s = rw (strip-append p s, trim_prefix)

Covers-lt :
    (p s path : Text)
    → path ≡ (p ++ slash) ++ s
    → ltb (length (trim_prefix path (p ++ slash))) (length path) ≡ true
Covers-lt p s path e =
    rw (e, trim_prefix-append (p ++ slash) s)
      (ground (arith, length-append (p ++ slash) s, length-append p slash))

strip_one-Covers :
    (p path q out : Text)
    → trim_space p ≡ p
    → strip_one p path ≡ some (q, out)
    → Covers p path × (q ≡ p)
unfolding strip_one
strip_one-Covers p path q out t h = elim (Bool-cases (eqt (trim_space p) path)) [
  | inl e ↦ (inl (sym t ∙ (eqt_iff _ _).0 e), ground arith)
  | inr e ↦
      elim (Bool-cases (
        ltb (length (trim_prefix path (trim_suffix (trim_space p) slash ++ slash)))
          (length path))) [
            | inl lt ↦ (
              inr (
                  let (rest, found) =
                    trim_prefix-lt path (trim_suffix (trim_space p) slash ++ slash) lt in
                  (
                    rest,
                    rw t at
                        (strip-eq-some (trim_suffix (trim_space p) slash ++ slash) path rest found),
                  )),
              ground arith,
            )
            | inr ge ↦ absurd (ground arith)
          ]
]

strip_one-none : (p path : Text) → trim_space p ≡ p → strip_one p path ≡ none → ¬ Covers p path
unfolding strip_one
strip_one-none p path t h (inl e) = ground (arith, eqt_iff (trim_space p) path)
strip_one-none p path t h (inr (rest, e)) =
    ground (arith, Covers-lt (trim_suffix p slash) rest path)

All-Memᴰ : {p : Text} (P : Text → Type 0) (ps : List Text) → All P ps → Memᴰ p ps → P p
All-Memᴰ P [] h m = elim m [ ]
All-Memᴰ P (q ∷ ps) (h, hs) (Memᴰ.head e) = rw e h
All-Memᴰ P (q ∷ ps) (h, hs) (Memᴰ.tail m) = All-Memᴰ P ps hs m

-- If the prefixes are trimmed and the longest stand first, the prefix that is stripped covers the
-- path, and no other prefix of the list that covers the path is longer.
pub strip_path_longest :
    (prefixes : List Text) (path q out : Text)
    → All (λ p. trim_space p ≡ p) prefixes
    → IsLongestFirst prefixes
    → strip_path prefixes path ≡ some (q, out)
    → Covers q path × ((p : Text) → Memᴰ p prefixes → Covers p path → length p ≤ length q)
unfolding strip_path
strip_path_longest [] path q out t l h = cc
strip_path_longest (r ∷ prefixes) path q out (t, ts) (below, l) h =
    elim (Option-cases (strip_one r path)) [
      | inl e ↦ skipped e (strip_path_longest prefixes path q out ts l (rw (e, strip_path) at h))
      | inr ((q', out'), e) ↦ chosen q' out' e
    ]
  where
    skipped :
        strip_one r path ≡ none
        → Covers q path × ((p : Text) → Memᴰ p prefixes → Covers p path → length p ≤ length q)
        → Covers q path × ((p : Text) → Memᴰ p (r ∷ prefixes) → Covers p path → length p ≤ length q)
    skipped e (c, ih) = (c, λ p m k. later p m k)
      where
        later : (p : Text) → Memᴰ p (r ∷ prefixes) → Covers p path → length p ≤ length q
        later p (Memᴰ.head same) k = absurd (strip_one-none r path t e (rw same at k))
        later p (Memᴰ.tail m) k = ih p m k

    chosen :
        (q' out' : Text)
        → strip_one r path ≡ some (q', out')
        → Covers q path × ((p : Text) → Memᴰ p (r ∷ prefixes) → Covers p path → length p ≤ length q)
    chosen q' out' e =
        let same : q ≡ r = cc ((strip_one-Covers r path q' out' t e).1, q_of_found) in
        (rw same (strip_one-Covers r path q' out' t e).0, λ p m k. rw same (bound p m))
      where
        q_of_found : q ≡ q'
        q_of_found = ground arith

        bound : (p : Text) → Memᴰ p (r ∷ prefixes) → length p ≤ length r
        bound p (Memᴰ.head eq) = omega (arith, ap length eq)
        bound p (Memᴰ.tail m) = All-Memᴰ (λ u. length u ≤ length r) prefixes below m

-- A request is answered by "not found" exactly if no prefix covers its path.
pub strip_path-eq-none_iff :
    (prefixes : List Text) (path : Text)
    → All (λ p. trim_space p ≡ p) prefixes
    → (strip_path prefixes path ≡ none) ↔ All (λ p. ¬ Covers p path) prefixes
unfolding strip_path
strip_path-eq-none_iff [] path t = ((λ h. tt), (λ h. refl))
strip_path-eq-none_iff (p ∷ prefixes) path (t, ts) = elim (Option-cases (strip_one p path)) [
  | inl e ↦
      let (to, from) = strip_path-eq-none_iff prefixes path ts in
      (
        λ h. (strip_one-none p path t e, to (rw (e, strip_path) at h)),
        λ h. rw (e, strip_path) (from h.1),
      )
  | inr ((q, out), e) ↦
      (λ h. absurd (ground arith), λ h. absurd (h.0 (strip_one-Covers p path q out t e).0))
]
