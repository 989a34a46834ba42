-- ===== src/Provider/Picking.antt =====
-- Reading a slice at a computed index: a Go program panics where the index is out of range.
use traefik_release.Base.{ℕ, zero, suc, ◌<◌, ◌≡◌, refl, none, some, List, [], ◌∷◌, arith, length}
use traefik_release.Provider.Slices.{get_elem?}

-- What a function that reads a slice at a computed index may do.
pub data Picked {ℓ} (A : Type ℓ) : Type ℓ where
  picked : A → Picked A
  refused : Picked A
  panicked : Picked A

-- s[i]
unfoldable pub element {ℓ} : {A : Type ℓ} → List A → ℕ → Picked A
element xs i = elim (get_elem? xs i) [ some x ↦ picked x | none ↦ panicked ]

pub get_elem?-lt {ℓ} :
    {A : Type ℓ} (xs : List A) (i : ℕ) → i < length xs → (x : A) × (get_elem? xs i ≡ some x)
unfolding get_elem?
get_elem?-lt [] i h = absurd (omega arith)
get_elem?-lt (x ∷ xs) zero h = (x, refl)
get_elem?-lt (x ∷ xs) (suc i) h = get_elem?-lt xs i (omega arith)

pub element-some {ℓ} :
    {A : Type ℓ} (xs : List A) (i : ℕ) (x : A) → get_elem? xs i ≡ some x → element xs i ≡ picked x
unfolding element
element-some xs i x e = rw (e, element)

-- No panic.
abbrev pub IsCalm {ℓ} : {A : Type ℓ} → Picked A → Type 0
IsCalm (picked _) = Unit
IsCalm refused = Unit
IsCalm panicked = ⊥

pub element-IsCalm {ℓ} : {A : Type ℓ} (xs : List A) (i : ℕ) → i < length xs → IsCalm (element xs i)
element-IsCalm xs i h = let found = get_elem?-lt xs i h in rw (element-some xs i found.0 found.1) tt

-- What follows a value, where there is one.
unfoldable pub then_picked {ℓ κ} : {A : Type ℓ} {B : Type κ} → Picked A → (A → Picked B) → Picked B
then_picked (picked a) f = f a
then_picked refused f = refused
then_picked panicked f = panicked
