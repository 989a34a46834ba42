-- ===== src/Base/Texts.antt =====
-- Go strings as lists of bytes, and the functions of package strings that the program calls. Of the
-- Unicode white space and of the letters with two cases, those of ASCII are modelled.
use Prim.Native.Char.{code}
use Prim.Native.String.{String}
use Prim.Native.Nat.{ℕ, ◌+◌}
use mathlib.Core.Path.{◌≡◌, refl, ap, ◌∙◌}
use mathlib.Core.Logic.{◌≢◌, ◌↔◌, inl, inr}
use mathlib.Core.Bool.{Bool, true, false, ◌&&◌, ◌||◌}
use mathlib.Core.Option.{Option, none, some}
use mathlib.Core.List.{List, [], ◌∷◌, ◌++◌, reverse}
use native.Mathlib.Omega.{arith}
use traefik_release.Base.Tests.{leb, ◌==◌, if◌then◌else◌, Option-cases}

abbrev pub Text : Type 0
Text = List ℕ

-- The bytes of a literal.
abbrev pub txt : String → Text
txt String.[] = []
txt (String.◌∷◌ c s) = code c ∷ txt s

-- s == t
unfoldable pub eqt : Text → Text → Bool
eqt [] [] = true
eqt (a ∷ s) (b ∷ t) = (a == b) && eqt s t
eqt _ _ = false

pub eqt_refl : (s : Text) → eqt s s ≡ true
unfolding eqt
eqt_refl [] = refl
eqt_refl (a ∷ s) = ground (arith, eqt_refl s)

pub eqt_iff : (s t : Text) → (eqt s t ≡ true) ↔ (s ≡ t)
unfolding eqt
eqt_iff [] [] = ground arith
eqt_iff [] (b ∷ t) = ground arith
eqt_iff (a ∷ s) [] = ground arith
eqt_iff (a ∷ s) (b ∷ t) = ground (arith, eqt_iff s t)

pub eqt_of_ne : (s t : Text) → s ≢ t → eqt s t ≡ false
eqt_of_ne s t h = ground (arith, eqt_iff s t)

unfoldable pub is_empty {ℓ} : {A : Type ℓ} → List A → Bool
is_empty [] = true
is_empty (_ ∷ _) = false

unfoldable pub is_space : ℕ → Bool
is_space c = (leb 9 c && leb c 13) || (c == 32)

-- strings.TrimLeftFunc(s, unicode.IsSpace)
unfoldable pub trim_left : Text → Text
trim_left [] = []
trim_left (c ∷ s) = let rest = trim_left s in if is_space c then rest else c ∷ s

-- strings.TrimSpace
unfoldable pub trim_space : Text → Text
unfolding trim_left is_space
trim_space s = reverse (trim_left (reverse (trim_left s)))

unfoldable pub lower : ℕ → ℕ
lower c = if leb 65 c && leb c 90 then c + 32 else c

-- strings.ToLower
unfoldable pub to_lower : Text → Text
unfolding lower
to_lower [] = []
to_lower (c ∷ s) = lower c ∷ to_lower s

-- strings.EqualFold
unfoldable pub equal_fold : Text → Text → Bool
unfolding eqt to_lower
equal_fold s t = eqt (to_lower s) (to_lower t)

-- The rest of a text behind a prefix.
unfoldable pub strip : Text → Text → Option Text
strip [] s = some s
strip (p ∷ ps) [] = none
strip (p ∷ ps) (c ∷ s) = let rest = strip ps s in if p == c then rest else none

-- strings.TrimPrefix(s, prefix)
unfoldable pub trim_prefix : Text → Text → Text
unfolding strip
trim_prefix s prefix = elim (strip prefix s) [ some rest ↦ rest | none ↦ s ]

-- strings.TrimSuffix(s, suffix)
unfoldable pub trim_suffix : Text → Text → Text
unfolding trim_prefix
trim_suffix s suffix = reverse (trim_prefix (reverse s) (reverse suffix))

-- strings.Join(parts, sep)
unfoldable pub join : Text → List Text → Text
join sep [] = []
join sep (s ∷ []) = s
join sep (s ∷ t ∷ more) = s ++ (sep ++ join sep (t ∷ more))

-- The texts before and behind the first place where `sep` stands; `none` where it stands nowhere.
unfoldable pub cut : Text → Text → Option (Text × Text)
unfolding strip
cut sep [] = elim (strip sep []) [ some rest ↦ some ([], rest) | none ↦ none ]
cut sep (c ∷ s) =
    let later = cut sep s in
    elim (strip sep (c ∷ s)) [
      | some rest ↦ some ([], rest)
      | none ↦ elim later [ some (a, b) ↦ some (c ∷ a, b) | none ↦ none ]
    ]

-- strings.Contains(s, sep)
unfoldable pub contains : Text → Text → Bool
unfolding cut
contains s sep = elim (cut sep s) [ some _ ↦ true | none ↦ false ]

pub strip-append : (p s : Text) → strip p (p ++ s) ≡ some s
unfolding strip
strip-append [] s = refl
strip-append (c ∷ p) s = ground (arith, strip-append p s)

pub strip-eq-some : (p s r : Text) → strip p s ≡ some r → s ≡ p ++ r
unfolding strip
strip-eq-some [] s r h = ground arith
strip-eq-some (c ∷ p) [] r h = ground arith
strip-eq-some (c ∷ p) (d ∷ s) r h = ground (arith, strip-eq-some p s r)

pub strip_iff : (p s r : Text) → (strip p s ≡ some r) ↔ (s ≡ p ++ r)
strip_iff p s r = (strip-eq-some p s r, λ e. ap (strip p) e ∙ strip-append p r)

-- What is before and behind the place makes up the text.
pub cut-eq-some : (sep s a b : Text) → cut sep s ≡ some (a, b) → s ≡ a ++ (sep ++ b)
unfolding cut
cut-eq-some sep [] a b h = ground (arith, strip-eq-some sep [] b)
cut-eq-some sep (c ∷ s) a b h = elim (Option-cases (strip sep (c ∷ s))) [
  | inr (rest, e) ↦ ground (arith, strip-eq-some sep (c ∷ s) rest)
  | inl e ↦ elim (Option-cases (cut sep s)) [
    | inl e' ↦ cc (rw (e, e', cut) at h)
    | inr ((a', b'), e') ↦
        let ih = cut-eq-some sep s a' b' e' in
        let same : ◌≡◌ {A = Option (Text × Text)} (some (c ∷ a', b')) (some (a, b)) =
          rw (e, e', cut) at h in
        cc (ih, same)
  ]
]
