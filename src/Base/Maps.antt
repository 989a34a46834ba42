-- ===== src/Base/Maps.antt =====
-- Go maps with string keys, as association lists. An iteration goes through the entries in the
-- order of the list; Go leaves that order open.
use Prim.Native.Nat.{ℕ, ◌+◌, ◌≤◌}
use mathlib.Core.Path.{◌≡◌, refl}
use mathlib.Core.Bool.{false}
use mathlib.Core.Option.{Option, none, some}
use mathlib.Core.List.{List, [], ◌∷◌}
use native.Mathlib.Omega.{arith}
use traefik_release.Base.Tests.{if◌then◌else◌}
use traefik_release.Base.Lists.{any}
use traefik_release.Base.Texts.{Text, eqt, eqt_iff, eqt_refl}

abbrev pub Dict {ℓ} : Type ℓ → Type ℓ
Dict V = List (Text × V)

module _ {ℓ} {V : Type ℓ} where
  unfoldable pub lookup : Text → Dict V → Option V
  lookup k [] = none
  lookup k ((j, v) ∷ m) = if eqt j k then some v else lookup k m

  -- m[k] = v
  unfoldable pub insert : Text → V → Dict V → Dict V
  insert k v [] = (k, v) ∷ []
  insert k v ((j, w) ∷ m) = if eqt j k then (k, v) ∷ m else (j, w) ∷ insert k v m

  -- delete(m, k)
  unfoldable pub delete : Text → Dict V → Dict V
  delete k [] = []
  delete k ((j, w) ∷ m) = let rest = delete k m in if eqt j k then rest else (j, w) ∷ rest

  abbrev pub keys : Dict V → List Text
  keys [] = []
  keys ((k, _) ∷ m) = k ∷ keys m

  pub lookup-insert :
      (k j : Text) (v : V) (m : Dict V)
      → lookup j (insert k v m) ≡ (if eqt k j then some v else lookup j m)
  unfolding lookup insert
  lookup-insert k j v [] = refl
  lookup-insert k j v ((i, w) ∷ m) =
      ground (arith, eqt_iff k j, eqt_iff i k, eqt_iff i j, lookup-insert k j v m)

  pub lookup-delete :
      (k j : Text) (m : Dict V) → lookup j (delete k m) ≡ (if eqt k j then none else lookup j m)
  unfolding lookup delete
  lookup-delete k j [] = ground arith
  lookup-delete k j ((i, w) ∷ m) =
      ground (arith, eqt_iff k j, eqt_iff i k, eqt_iff i j, lookup-delete k j m)

  pub lookup-insert_self : (k : Text) (v : V) (m : Dict V) → lookup k (insert k v m) ≡ some v
  lookup-insert_self k v m = simp (lookup-insert, eqt_refl)

abbrev pub count : Text → List Text → ℕ
count u [] = 0
count u (x ∷ xs) = (if eqt u x then 1 else 0) + count u xs

-- No text twice.
abbrev pub IsDistinct : List Text → Type 0
IsDistinct us = (u : Text) → count u us ≤ 1

pub any_of_count : (u : Text) (xs : List Text) → count u xs ≡ 0 → any (eqt u) xs ≡ false
unfolding any
any_of_count u [] h = refl
any_of_count u (x ∷ xs) h = ground (arith, any_of_count u xs)
