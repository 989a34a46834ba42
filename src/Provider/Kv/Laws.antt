-- ===== src/Provider/Kv/Laws.antt =====
-- provider/kv/kv.go: which frontends a load keeps, and when it panics.
use traefik_release.Base.{
  ℕ, ◌-◌, ◌<◌, ◌≡◌, refl, ap, ◌∙◌, inl, inr, Option, none, some, [], ◌∷◌, ◌++◌, arith,
  if◌then◌else◌, Bool-cases, length, Text, txt, eqt, eqt_iff, Dict, lookup, delete, lookup-delete,
  split_from, split,
}
use traefik_release.Server.Config.{Backend, Frontend, Configuration}
use traefik_release.Provider.Labels.{is_some}
use traefik_release.Provider.Grouping.{IsMap}
use traefik_release.Provider.Picking.{Picked, picked, panicked, IsCalm, element-IsCalm}
use traefik_release.Provider.Rendering.{Engine, get_configuration}
use traefik_release.Provider.Kv.{Kv, Store}
use traefik_release.Provider.Kv.Values.{last}
use traefik_release.Provider.Kv.Loading.{
  or_empty, remove_frontends, cleaned, clean, alias, load_config,
}

-- A frontend stays if its backend is there.
abbrev pub if_served : Dict Backend → Option Frontend → Option Frontend → Option Frontend
if_served backends none other = other
if_served backends (some f) other = if is_some (lookup f.backend backends) then other else none

module _ (backends : Dict Backend) (k : Text) where
  if_served-none : (o : Option Frontend) → if_served backends o none ≡ none
  if_served-none none = refl
  if_served-none (some f) = elim (Bool-cases (is_some (lookup f.backend backends))) [
    | inl e ↦ rw e
    | inr e ↦ rw e
  ]

  lookup-remove_frontends :
      (rest frontends : Dict Frontend)
      → IsMap rest
      → lookup k (remove_frontends backends rest frontends)
        ≡ if_served backends (lookup k rest) (lookup k frontends)
  unfolding remove_frontends lookup
  lookup-remove_frontends [] frontends m = refl
  lookup-remove_frontends ((key, f) ∷ rest) frontends (fresh, m) =
      lookup-remove_frontends rest
        (if is_some (lookup f.backend backends) then frontends else delete key frontends) m
      ∙ elim (Bool-cases (eqt key k)) [
        | inl e ↦
            let gone : lookup k rest ≡ none = rw (← (eqt_iff key k).0 e) fresh in
            elim (Bool-cases (is_some (lookup f.backend backends))) [
              | inl h ↦ rw (e, gone, h)
              | inr h ↦ rw (e, gone, h) (lookup-delete key k frontends ∙ rw e)
            ]
        | inr e ↦ elim (Bool-cases (is_some (lookup f.backend backends))) [
          | inl h ↦ rw (e, h)
          | inr h ↦
              rw (e, h)
                (ap (if_served backends (lookup k rest)) (lookup-delete key k frontends ∙ rw e))
        ]
      ]

abbrev pub backends_of : Configuration → Dict Backend
backends_of c = or_empty c.backends

abbrev pub frontends_of : Configuration → Dict Frontend
frontends_of c = or_empty c.frontends

cleaned_frontends :
    (c : Configuration)
    → frontends_of (cleaned c) ≡ remove_frontends (backends_of c) (frontends_of c) (frontends_of c)
unfolding cleaned remove_frontends
cleaned_frontends c = frontends_case c.frontends
  where
    frontends_case :
        (o : Option (Dict Frontend))
        → or_empty
            (elim o [ none ↦ none | some fs ↦ some (remove_frontends (or_empty c.backends) fs fs) ])
          ≡ remove_frontends (or_empty c.backends) (or_empty o) (or_empty o)
    frontends_case none = refl
    frontends_case (some fs) = refl

cleaned_backends : (c : Configuration) → backends_of (cleaned c) ≡ backends_of c
unfolding cleaned
cleaned_backends c = refl

-- What loading makes of the configuration that the template gives.
abbrev pub IsCleaned : Option Configuration → Picked Configuration → Type 0
IsCleaned none out = out ≡ panicked
IsCleaned (some c) out =
    (d : Configuration) × (out ≡ picked d)
    × (backends_of d ≡ backends_of c)
    × ((k : Text)
        → lookup k (frontends_of d)
          ≡ if_served (backends_of c) (lookup k (frontends_of c)) (lookup k (frontends_of c)))

abbrev pub HasMap : Option Configuration → Type 0
HasMap none = Unit
HasMap (some c) = IsMap (frontends_of c)

clean-IsCleaned : (o : Option Configuration) → HasMap o → IsCleaned o (clean o)
unfolding clean
clean-IsCleaned none m = refl
clean-IsCleaned (some c) m = (
  cleaned c,
  refl,
  cleaned_backends c,
  λ k. ap (lookup k) (cleaned_frontends c) ∙ lookup-remove_frontends (backends_of c) k _ _ m,
)

-- Loading panics exactly if the template fails, and otherwise keeps the backends, and of the frontends
-- exactly those whose backend is there.
pub load_config-IsCleaned :
    (p : Kv) (e : Engine (Text × Store)) (filename : Text) (s : Store)
    → HasMap (get_configuration e filename (txt "templates/kv.tmpl") (alias p s, s))
    → IsCleaned
        (get_configuration e filename (txt "templates/kv.tmpl") (alias p s, s))
        (load_config p e filename s)
unfolding load_config
load_config-IsCleaned p e filename s m = clean-IsCleaned _ m

split_from_not_empty : (sep : ℕ) (cur s : Text) → 0 < length (split_from sep cur s)
unfolding split_from
split_from_not_empty sep cur [] = omega arith
split_from_not_empty sep cur (c ∷ s) = ground (arith, split_from_not_empty sep (cur ++ c ∷ []) s)

-- The last part of a key is read within the parts, for there is one in any key.
pub last-IsCalm : (key : Text) → IsCalm (last key)
unfolding last split
last-IsCalm key =
    element-IsCalm (split_from b'/' [] key) (length (split_from b'/' [] key) - 1)
      (omega (arith, split_from_not_empty b'/' [] key))
