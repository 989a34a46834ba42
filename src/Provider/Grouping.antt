-- ===== src/Provider/Grouping.antt =====
-- Loops of the providers that fill a Go map from a list: m[k] = append(m[k], a), and m[k] = a.
use traefik_release.Base.{
  ◌≡◌, refl, sym, ◌∙◌, inl, inr, Bool, Option, none, some, List, [], ◌∷◌, ◌++◌, append-nil,
  append_assoc, if◌then◌else◌, Bool-cases, keep, Text, eqt, eqt_iff, Dict, lookup, insert,
  lookup-insert,
}

module _ {ℓ} {V : Type ℓ} where
  -- What a missing key stands for in a map of slices.
  unfoldable pub or_nil : Option (List V) → List V
  or_nil none = []
  or_nil (some l) = l

  -- No key twice: what a Go map is.
  abbrev pub IsMap : Dict V → Type ℓ
  IsMap [] = Unit
  IsMap ((k, _) ∷ m) = (lookup k m ≡ none) × IsMap m

module _ {ℓ} {A : Type ℓ} (name : A → Text) where
  unfoldable pub append_to_group : A → Dict (List A) → Dict (List A)
  unfolding insert lookup or_nil
  append_to_group a m = insert (name a) (or_nil (lookup (name a) m) ++ a ∷ []) m

  unfoldable pub group_from : Dict (List A) → List A → Dict (List A)
  unfolding append_to_group
  group_from m [] = m
  group_from m (a ∷ items) = group_from (append_to_group a m) items

  unfoldable pub store_from : Dict A → List A → Dict A
  unfolding insert
  store_from m [] = m
  store_from m (a ∷ items) = store_from (insert (name a) a m) items

  abbrev pub is_named : Text → A → Bool
  is_named k a = eqt (name a) k

  unfoldable pub last_or : Option A → List A → Option A
  last_or old [] = old
  last_or old (a ∷ items) = last_or (some a) items

  lookup-append_to_group :
      (k : Text) (a : A) (m : Dict (List A))
      → or_nil (lookup k (append_to_group a m))
        ≡ (if is_named k a then or_nil (lookup k m) ++ a ∷ [] else or_nil (lookup k m))
  unfolding append_to_group or_nil
  lookup-append_to_group k a m = elim (Bool-cases (eqt (name a) k)) [
    | inl e ↦ rw (
      lookup-insert (name a) k (or_nil (lookup (name a) m) ++ a ∷ []) m,
      e,
      (eqt_iff (name a) k).0 e,
    )
    | inr e ↦ rw (lookup-insert (name a) k (or_nil (lookup (name a) m) ++ a ∷ []) m, e)
  ]

  -- The group of a key holds the items of that name, in their order.
  pub lookup-group_from :
      (k : Text) (m : Dict (List A)) (items : List A)
      → or_nil (lookup k (group_from m items)) ≡ or_nil (lookup k m) ++ keep (is_named k) items
  unfolding group_from keep
  lookup-group_from k m [] = sym (append-nil _)
  lookup-group_from k m (a ∷ items) =
      lookup-group_from k (append_to_group a m) items
      ∙ (rw (lookup-append_to_group k a m) (elim (Bool-cases (eqt (name a) k)) [
        | inl e ↦ rw e (append_assoc (or_nil (lookup k m)) (a ∷ []) (keep (is_named k) items))
        | inr e ↦ rw e
      ]))

  -- Under a key stands the last item of that name, or what was there.
  pub lookup-store_from :
      (k : Text) (m : Dict A) (items : List A)
      → lookup k (store_from m items) ≡ last_or (lookup k m) (keep (is_named k) items)
  unfolding store_from keep last_or
  lookup-store_from k m [] = refl
  lookup-store_from k m (a ∷ items) =
      lookup-store_from k (insert (name a) a m) items
      ∙ (rw (lookup-insert (name a) k a m)
          (elim (Bool-cases (eqt (name a) k)) [ inl e ↦ rw (e, last_or) | inr e ↦ rw e ]))
