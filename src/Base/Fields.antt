-- ===== src/Base/Fields.antt =====
-- strings.FieldsFunc: the fields of a text between the bytes that a test takes for separators.
use Prim.Native.Nat.{ℕ}
use mathlib.Core.Path.{◌≡◌}
use mathlib.Core.Logic.{◌≢◌}
use mathlib.Core.Bool.{Bool, false}
use mathlib.Core.List.{List, [], ◌∷◌, ◌++◌}
use traefik_release.Base.Tests.{◌==◌, if◌then◌else◌}
use traefik_release.Base.Lists.{All}
use traefik_release.Base.Texts.{Text}

-- A field that has ended is a field of the result unless it is empty.
unfoldable pub close : Text → List Text → List Text
close [] rest = rest
close (c ∷ cur) rest = (c ∷ cur) ∷ rest

unfoldable pub fields_from : (ℕ → Bool) → Text → Text → List Text
unfolding close
fields_from sep cur [] = close cur []
fields_from sep cur (c ∷ s) =
    let closed = fields_from sep [] s in
    let longer = fields_from sep (cur ++ c ∷ []) s in if sep c then close cur closed else longer

unfoldable pub fields_func : (ℕ → Bool) → Text → List Text
unfolding fields_from
fields_func sep s = fields_from sep [] s

-- strings.Split at one byte: the parts between its occurrences, the empty ones too.
unfoldable pub split_from : ℕ → Text → Text → List Text
split_from sep cur [] = cur ∷ []
split_from sep cur (c ∷ s) =
    let closed = split_from sep [] s in
    let longer = split_from sep (cur ++ c ∷ []) s in if c == sep then cur ∷ closed else longer

unfoldable pub split : ℕ → Text → List Text
unfolding split_from
split sep s = split_from sep [] s

-- A field that holds no separator.
abbrev pub IsPlain : (ℕ → Bool) → Text → Type 0
IsPlain sep s = All (λ c. sep c ≡ false) s

abbrev pub IsField : (ℕ → Bool) → Text → Type 0
IsField sep s = (s ≢ []) × IsPlain sep s
