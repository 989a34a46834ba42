-- ===== src/Server/Updating.antt =====
-- server/server.go, listenConfigurations: what the update of the handlers leaves.
use traefik_release.Base.{
  ◌≡◌, refl, sym, subst, ◌∙◌, inl, inr, Bool, true, false, none, some, List, [], ◌∷◌, arith,
  if◌then◌else◌, Bool-cases, any, Text, eqt, eqt_refl, eqt_iff, Dict, lookup, insert, keys,
  lookup-insert, IsDistinct, any_of_count,
}
use traefik_release.Server.Entrances.{keys-insert}
use traefik_release.Server.Listening.{update_handlers}

-- Whether a text is a key.
abbrev pub has : Text → List Text → Bool
has k ks = any (eqt k) ks

pub lookup-none {ℓ} :
    {V : Type ℓ} (k : Text) (m : Dict V) → has k (keys m) ≡ false → lookup k m ≡ none
unfolding lookup any
lookup-none k [] h = refl
lookup-none k ((j, v) ∷ m) h = ground (arith, eqt_iff k j, eqt_iff j k, lookup-none k m)

lookup-some {ℓ} :
    {V : Type ℓ} (k : Text) (m : Dict V) → has k (keys m) ≡ true → (v : V) × (lookup k m ≡ some v)
unfolding lookup any
lookup-some k [] h = cc
lookup-some k ((j, v) ∷ m) h = elim (Bool-cases (eqt j k)) [
  | inl e ↦ (v, rw e)
  | inr e ↦ rw e (lookup-some k m (ground (arith, eqt_iff k j, eqt_iff j k)))
]

lookup-cons {ℓ} :
    {V : Type ℓ} (k j : Text) (v : V) (m : Dict V)
    → lookup j ((k, v) ∷ m) ≡ (if eqt k j then some v else lookup j m)
unfolding lookup
lookup-cons k j v m = refl

-- The handlers after an update: those of the new entry points, which are all there, are new.
pub update_handlers-lookup {ℓ} :
    {R : Type ℓ} (new old : Dict R)
    → IsDistinct (keys new)
    → ((k : Text) → has k (keys new) ≡ true → has k (keys old) ≡ true)
    → (out : Dict R) × (update_handlers new old ≡ some out)
      × (keys out ≡ keys old)
      × ((k : Text) → lookup k out ≡ (if has k (keys new) then lookup k new else lookup k old))
unfolding update_handlers any
update_handlers-lookup [] old d sub = (old, refl, refl, λ k. refl)
update_handlers-lookup {R = R} ((ep, r) ∷ new) old d sub =
    let (v, there) = lookup-some ep old (sub ep (ground (arith, eqt_refl ep))) in
    let same = keys-insert ep r v old there in
    let distinct : IsDistinct (keys new) = λ u. ground (arith, d u) in
    let sub' : (k : Text) → has k (keys new) ≡ true → has k (keys (insert ep r old)) ≡ true =
      λ k h. subst (λ ks. has k ks ≡ true) (sym same) (sub k (ground arith)) in
    let apart = any_of_count ep (keys new) (ground (arith, d ep, eqt_refl ep)) in
    let (out, e, k, l) = update_handlers-lookup new (insert ep r old) distinct sub' in
    (
      out,
      rw (there, update_handlers) e,
      k ∙ same,
      λ j. ground (
        arith,
        l j,
        lookup-cons ep j r new,
        lookup-insert ep j r old,
        apart,
        eqt_iff ep j,
        eqt_iff j ep,
      ),
    )
