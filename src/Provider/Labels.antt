-- ===== src/Provider/Labels.antt =====
-- provider/provider.go: the text helpers that the providers share. Texts are ASCII here.
use traefik_release.Base.{
  ℕ, zero, suc, ◌-◌, ◌≡◌, refl, ap, ◌≢◌, ◌↔◌, ◌⊎◌, inl, inr, Bool, true, false, not, ◌&&◌, ◌||◌,
  Option, none, some, List, [], ◌∷◌, ◌++◌, arith, leb, ◌==◌, if◌then◌else◌, Bool-cases, length, any,
  All, Text, txt, eqt, eqt_iff, eqt_of_ne, is_empty, strip, join, Dict, lookup, close, fields_from,
  fields_func, fields_func-IsField, fields_func-join, split_from, split,
}
use traefik_release.Server.Redirects.{is_digit}

-- strings.Replace without a limit: every occurrence of `old`, which is not empty, from the left.
-- `skip` bytes belong to an occurrence that is replaced already.
unfoldable pub replace_from : Text → Text → ℕ → Text → Text
replace_from old new skip [] = []
replace_from old new (suc skip) (c ∷ s) = replace_from old new skip s
replace_from old new zero (c ∷ s) = elim (strip old (c ∷ s)) [
  | some rest ↦ new ++ replace_from old new (length old - 1) s
  | none ↦ c ∷ replace_from old new 0 s
]

-- An empty `old` stands before every byte and at the end.
unfoldable pub weave : Text → Text → Text
weave new [] = new
weave new (c ∷ s) = new ++ (c ∷ weave new s)

-- Replace
unfoldable pub replace : Text → Text → Text → Text
unfolding replace_from weave
replace old new [] = if is_empty old then new else []
replace old new (c ∷ s) = if is_empty old then weave new (c ∷ s) else replace_from old new 0 (c ∷ s)

-- Replacing one byte by one other.
unfoldable pub replace_byte : ℕ → ℕ → Text → Text
replace_byte old new [] = []
replace_byte old new (c ∷ s) = (if c == old then new else c) ∷ replace_byte old new s

abbrev pub dashed : ℕ → Text → Text
dashed c = replace_byte c b'-'

-- unicode.IsLetter and unicode.IsNumber
abbrev pub is_letter_or_number : ℕ → Bool
is_letter_or_number c = is_digit c || leb b'a' c && leb c b'z' || leb b'A' c && leb c b'Z'

abbrev pub is_separator : ℕ → Bool
is_separator c = not (is_letter_or_number c)

-- Normalize
unfoldable pub normalize : Text → Text
unfolding fields_func fields_from close join
normalize name = join (txt "-") (fields_func is_separator name)

-- A label's value, or what stands in its place.
unfoldable pub or_else : Option Text → Text → Text
or_else (some v) other = v
or_else none other = other

-- The parts of a label's value between commas, or none.
unfoldable pub parts_of : Option Text → List Text
unfolding split split_from
parts_of (some v) = split b',' v
parts_of none = []

abbrev pub is_some {ℓ} : {A : Type ℓ} → Option A → Bool
is_some none = false
is_some (some a) = true

-- labels[name] of a Go map: the empty text where it is missing.
unfoldable pub value_at : Text → Dict Text → Text
unfolding lookup or_else
value_at name labels = or_else (lookup name labels) []

-- The test that the providers share: exposed by default unless the label says false, or said to be.
unfoldable pub is_enabled : Bool → Text → Bool
unfolding eqt
is_enabled exposed label = exposed && not (eqt label (txt "false")) || eqt label (txt "true")

-- A name that is normal stays.
pub normalize_idempotent : (s : Text) → normalize (normalize s) ≡ normalize s
unfolding normalize
normalize_idempotent s = ap (join (txt "-")) (
    fields_func-join is_separator b'-' (fields_func is_separator s) refl
      (fields_func-IsField is_separator s))

-- A byte that is replaced by another is gone.
pub replace_byte-gone :
    (old new : ℕ) (s : Text)
    → (new == old) ≡ false
    → All (λ c. (c == old) ≡ false) (replace_byte old new s)
unfolding replace_byte
replace_byte-gone old new [] h = tt
replace_byte-gone old new (c ∷ s) h = elim (Bool-cases (c == old)) [
  | inl e ↦ rw e (h, replace_byte-gone old new s h)
  | inr e ↦ rw e (e, replace_byte-gone old new s h)
]

replace_from-byte :
    (old new : ℕ) (s : Text) → replace_from (old ∷ []) (new ∷ []) 0 s ≡ replace_byte old new s
unfolding replace_from replace_byte strip
replace_from-byte old new [] = refl
replace_from-byte old new (c ∷ s) = ground (arith, replace_from-byte old new s)

-- Replacing by the general function is the same at one byte.
pub replace-byte :
    (old new : ℕ) (s : Text) → replace (old ∷ []) (new ∷ []) s ≡ replace_byte old new s
unfolding replace is_empty replace_byte
replace-byte old new [] = refl
replace-byte old new (c ∷ s) = replace_from-byte old new (c ∷ s)

enabled_forth :
    (exposed : Bool) (label : Text)
    → is_enabled exposed label ≡ true
    → (label ≡ txt "true") ⊎ ((exposed ≡ true) × (label ≢ txt "false"))
unfolding is_enabled
enabled_forth exposed label h = elim (Bool-cases (eqt label (txt "true"))) [
  | inl e ↦ inl ((eqt_iff label (txt "true")).0 e)
  | inr e ↦ inr (ground arith, λ f. ground (arith, (eqt_iff label (txt "false")).1 f))
]

enabled_back :
    (exposed : Bool) (label : Text)
    → (label ≡ txt "true") ⊎ ((exposed ≡ true) × (label ≢ txt "false"))
    → is_enabled exposed label ≡ true
unfolding is_enabled
enabled_back exposed label (inl e) = ground (arith, (eqt_iff label (txt "true")).1 e)
enabled_back exposed label (inr (on, ne)) = ground (arith, on, eqt_of_ne label (txt "false") ne)

-- In words.
pub is_enabled_iff :
    (exposed : Bool) (label : Text)
    → (is_enabled exposed label ≡ true)
      ↔ ((label ≡ txt "true") ⊎ ((exposed ≡ true) × (label ≢ txt "false")))
is_enabled_iff exposed label = (enabled_forth exposed label, enabled_back exposed label)

pub is_empty_iff {ℓ} : {A : Type ℓ} (l : List A) → (is_empty l ≡ true) ↔ (l ≡ [])
unfolding is_empty
is_empty_iff [] = (λ _. refl, λ _. refl)
is_empty_iff (x ∷ l) = (λ e. cc, λ e. cc)

pub is_some_iff {ℓ} : {A : Type ℓ} (o : Option A) → (is_some o ≡ true) ↔ (o ≢ none)
is_some_iff none = (λ e. cc, λ h. absurd (h refl))
is_some_iff (some a) = (λ _ e. cc, λ _. refl)

pub or_iff {ℓ κ} :
    {A : Type ℓ} {B : Type κ} (a b : Bool)
    → ((a ≡ true) ↔ A)
    → ((b ≡ true) ↔ B)
    → ((a || b) ≡ true) ↔ (A ⊎ B)
or_iff true b f g = (λ _. inl (f.0 refl), λ _. refl)
or_iff false b f g =
    (λ e. inr (g.0 e), λ o. elim o [ inl x ↦ absurd (false_ne_true (f.1 x)) | inr y ↦ g.1 y ])
  where
    false_ne_true : false ≡ true → ⊥
    false_ne_true e = cc

pub not_empty_iff {ℓ} : {A : Type ℓ} (l : List A) → (not (is_empty l) ≡ true) ↔ (l ≢ [])
unfolding is_empty
not_empty_iff [] = (λ e. cc, λ h. absurd (h refl))
not_empty_iff (x ∷ l) = (λ _ e. cc, λ _. refl)

-- A text is one of some words.
abbrev pub OneOf : List Text → Text → Type 0
OneOf [] s = ⊥
OneOf (w ∷ words) s = (s ≡ w) ⊎ OneOf words s

pub any-eqt_iff : (s : Text) (words : List Text) → (any (eqt s) words ≡ true) ↔ OneOf words s
unfolding any
any-eqt_iff s [] = (λ e. cc, λ h. absurd h)
any-eqt_iff s (w ∷ words) = or_iff _ _ (eqt_iff s w) (any-eqt_iff s words)

pub and_iff {ℓ κ} :
    {A : Type ℓ} {B : Type κ} (a b : Bool)
    → ((a ≡ true) ↔ A)
    → ((b ≡ true) ↔ B)
    → ((a && b) ≡ true) ↔ (A × B)
and_iff true b f g = (λ e. (f.0 refl, g.0 e), λ p. g.1 p.1)
and_iff false b f g = (λ e. cc, λ p. f.1 p.0)
