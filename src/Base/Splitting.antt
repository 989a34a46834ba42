-- ===== src/Base/Splitting.antt =====
-- What splitting a text into fields guarantees, and that it undoes joining.
use mathlib.Core.Path.{◌≡◌, refl, sym, ap, ◌∙◌}
use mathlib.Core.Logic.{◌≢◌, inl, inr}
use mathlib.Core.Bool.{Bool, true, false}
use mathlib.Core.List.{List, [], ◌∷◌, ◌++◌, append-nil, append_assoc}
use Prim.Native.Nat.{ℕ}
use traefik_release.Base.Tests.{◌==◌, ==_iff, Bool-cases}
use traefik_release.Base.Lists.{All, All-append}
use traefik_release.Base.Texts.{Text, join}
use traefik_release.Base.Fields.{
  close, fields_from, fields_func, split_from, split, IsPlain, IsField,
}

module _ (sep : ℕ → Bool) where
  close-IsField :
      (cur : Text) (rest : List Text)
      → IsPlain sep cur
      → All (IsField sep) rest
      → All (IsField sep) (close cur rest)
  unfolding close
  close-IsField [] rest h k = k
  close-IsField (c ∷ cur) rest h k = (((λ e. cc), h), k)

  fields_from-IsField : (cur s : Text) → IsPlain sep cur → All (IsField sep) (fields_from sep cur s)
  unfolding fields_from
  fields_from-IsField cur [] h = close-IsField cur [] h tt
  fields_from-IsField cur (c ∷ s) h = elim (Bool-cases (sep c)) [
    | inl e ↦ rw e (close-IsField cur _ h (fields_from-IsField [] s tt))
    | inr e ↦
        rw e
          (fields_from-IsField (cur ++ c ∷ []) s (All-append (λ c. sep c ≡ false) cur _ h (e, tt)))
  ]

  -- Every field is there, and holds no separator.
  pub fields_func-IsField : (s : Text) → All (IsField sep) (fields_func sep s)
  unfolding fields_func
  fields_func-IsField s = fields_from-IsField [] s tt

  fields_from-plain :
      (cur s rest : Text)
      → IsPlain sep s
      → fields_from sep cur (s ++ rest) ≡ fields_from sep (cur ++ s) rest
  unfolding fields_from
  fields_from-plain cur [] rest h = rw append-nil
  fields_from-plain cur (c ∷ s) rest (e, h) =
      rw e (fields_from-plain (cur ++ c ∷ []) s rest h ∙ rw append_assoc)

  close-ne-nil : (s : Text) (rest : List Text) → s ≢ [] → close s rest ≡ s ∷ rest
  unfolding close
  close-ne-nil [] rest h = absurd (h refl)
  close-ne-nil (c ∷ s) rest h = refl

  fields_from-sep :
      (d : ℕ) (cur rest : Text)
      → sep d ≡ true
      → fields_from sep cur (d ∷ rest) ≡ close cur (fields_from sep [] rest)
  unfolding fields_from
  fields_from-sep d cur rest e = rw e

  -- Splitting undoes joining, if each part is a field.
  pub fields_func-join :
      (d : ℕ) (parts : List Text)
      → sep d ≡ true
      → All (IsField sep) parts
      → fields_func sep (join (d ∷ []) parts) ≡ parts
  unfolding fields_func join fields_from
  fields_func-join d [] e h = refl
  fields_func-join d (s ∷ []) e ((ne, p), _) =
      ap (fields_from sep []) (sym (append-nil s))
      ∙ fields_from-plain [] s [] p
      ∙ close-ne-nil s [] ne
  fields_func-join d (s ∷ t ∷ more) e ((ne, p), h) =
      fields_from-plain [] s (d ∷ join (d ∷ []) (t ∷ more)) p
      ∙ fields_from-sep d s _ e
      ∙ close-ne-nil s _ ne
      ∙ ap (λ r. s ∷ r) (fields_func-join d (t ∷ more) e h)

  -- A text without separators that is not empty is its only field.
  pub fields_func-plain : (s : Text) → IsField sep s → fields_func sep s ≡ s ∷ []
  unfolding fields_func fields_from
  fields_func-plain s (ne, p) =
      ap (fields_from sep []) (sym (append-nil s))
      ∙ fields_from-plain [] s [] p
      ∙ close-ne-nil s [] ne

-- Splitting at one byte undoes joining, if there is a part and no part holds the byte.
split_from-plain :
    (d : ℕ) (cur s rest : Text)
    → All (λ c. (c == d) ≡ false) s
    → split_from d cur (s ++ rest) ≡ split_from d (cur ++ s) rest
unfolding split_from
split_from-plain d cur [] rest h = rw append-nil
split_from-plain d cur (c ∷ s) rest (e, h) =
    rw e (split_from-plain d (cur ++ c ∷ []) s rest h ∙ rw append_assoc)

split_from-sep :
    (d : ℕ) (cur rest : Text) → split_from d cur (d ∷ rest) ≡ cur ∷ split_from d [] rest
unfolding split_from
split_from-sep d cur rest = rw ((==_iff d d).1 refl)

pub split-join :
    (d : ℕ) (parts : List Text)
    → parts ≢ []
    → All (All (λ c. (c == d) ≡ false)) parts
    → split d (join (d ∷ []) parts) ≡ parts
unfolding split join split_from
split-join d [] ne h = absurd (ne refl)
split-join d (s ∷ []) ne (p, _) =
    ap (split_from d []) (sym (append-nil s)) ∙ split_from-plain d [] s [] p
split-join d (s ∷ t ∷ more) ne (p, h) =
    split_from-plain d [] s (d ∷ join (d ∷ []) (t ∷ more)) p
    ∙ split_from-sep d s _
    ∙ ap (λ r. s ∷ r) (split-join d (t ∷ more) (λ e. cc) h)
