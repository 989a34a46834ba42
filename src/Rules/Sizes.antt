-- ===== src/Rules/Sizes.antt =====
-- server/rules.go, bySize: the order in which prefixes are tried.
use traefik_release.Base.{
  ℕ, ◌≤◌, inl, inr, List, [], ◌∷◌, arith, ltb, Bool-cases, length, All, Text,
}
use mathlib.Core.List.{Perm}
use mathlib.Core.List.Perm
use traefik_release.Rules.Route.{insert_by_size, sort_by_size}

-- No text is longer than one before it.
abbrev pub IsLongestFirst : List Text → Type 0
IsLongestFirst [] = Unit
IsLongestFirst (s ∷ ts) = All (λ t. length t ≤ length s) ts × IsLongestFirst ts

All-insert :
    (P : Text → Type 0) (s : Text) (ts : List Text) → P s → All P ts → All P (insert_by_size s ts)
unfolding insert_by_size
All-insert P s [] p h = (p, tt)
All-insert P s (t ∷ ts) p h = elim (Bool-cases (ltb (length s) (length t))) [
  | inl e ↦ rw e (h.0, All-insert P s ts p h.1)
  | inr e ↦ rw e (p, h)
]

All-weaken :
    (n m : ℕ) (ts : List Text) → n ≤ m → All (λ t. length t ≤ n) ts → All (λ t. length t ≤ m) ts
All-weaken n m [] e h = tt
All-weaken n m (t ∷ ts) e h = (omega arith, All-weaken n m ts e h.1)

insert_by_size-IsLongestFirst :
    (s : Text) (ts : List Text) → IsLongestFirst ts → IsLongestFirst (insert_by_size s ts)
unfolding insert_by_size
insert_by_size-IsLongestFirst s [] h = (tt, tt)
insert_by_size-IsLongestFirst s (t ∷ ts) (below, h) =
    elim (Bool-cases (ltb (length s) (length t))) [
      | inl e ↦ rw e (
        All-insert (λ u. length u ≤ length t) s ts (ground arith) below,
        insert_by_size-IsLongestFirst s ts h,
      )
      | inr e ↦
          rw e
            ((ground arith, All-weaken (length t) (length s) ts (ground arith) below), (below, h))
    ]

sort_by_size-IsLongestFirst : (ts : List Text) → IsLongestFirst (sort_by_size ts)
unfolding sort_by_size
sort_by_size-IsLongestFirst [] = tt
sort_by_size-IsLongestFirst (s ∷ ts) =
    insert_by_size-IsLongestFirst s (sort_by_size ts) (sort_by_size-IsLongestFirst ts)

insert_by_size-perm : (s : Text) (ts : List Text) → Perm (insert_by_size s ts) (s ∷ ts)
unfolding insert_by_size
insert_by_size-perm s [] = Perm.refl _
insert_by_size-perm s (t ∷ ts) = elim (Bool-cases (ltb (length s) (length t))) [
  | inl e ↦ rw e (Perm.trans (Perm.cons t (insert_by_size-perm s ts)) (Perm.swap s t ts))
  | inr e ↦ rw e (Perm.refl _)
]

sort_by_size-perm : (ts : List Text) → Perm (sort_by_size ts) ts
unfolding sort_by_size
sort_by_size-perm [] = Perm.refl _
sort_by_size-perm (s ∷ ts) =
    Perm.trans (insert_by_size-perm s (sort_by_size ts)) (Perm.cons s (sort_by_size-perm ts))

-- Sorting by size keeps the texts and puts the longest first.
pub sort_by_size_sorts :
    (ts : List Text) → Perm (sort_by_size ts) ts × IsLongestFirst (sort_by_size ts)
sort_by_size_sorts ts = (sort_by_size-perm ts, sort_by_size-IsLongestFirst ts)
