-- ===== src/Provider/Marathon/Calmness.antt =====
-- provider/marathon/marathon.go: no panic where no pointer is nil.
use traefik_release.Base.{
  All, eqt, Dict, ◌≡◌, subst, inl, inr, not, ◌||◌, some, List, [], ◌∷◌, arith, Bool-cases,
  Option-cases, length, Text, lookup,
}
use traefik_release.Provider.Numbers.{ℤ}
use traefik_release.Provider.Picking.{Picked, picked, refused, panicked, IsCalm, element-IsCalm}
use traefik_release.Provider.Marathon.{
  Marathon, Application, Task, label_in, get_label, get_application,
}
use traefik_release.Provider.Marathon.Ports.{
  parse_index, address_at, task_address, has_own_addresses, get_backend_server,
}
use traefik_release.Provider.Marathon.PortLaws.{
  IsBroken, PortOf, explicit, indexed, not_positive, no_port, bad_index, no_labels, no_discovery,
  parse_index-lt,
}

-- No pointer of an application is nil that the program reads.
abbrev pub IsWhole : Application → Type 0
IsWhole a = (labels : Dict Text) × (a.labels ≡ some labels) × (IsBroken a.ip_address_per_task → ⊥)

pub PortOf-IsCalm :
    (a : Application) (t : Task) {o : Picked ℤ} → PortOf a t o → IsWhole a → IsCalm o
PortOf-IsCalm a t (explicit _ _ _ _ _ _) w = tt
PortOf-IsCalm a t (indexed _ _ _ _ _ _ _ _) w = tt
PortOf-IsCalm a t (not_positive _ _ _ _ _) w = tt
PortOf-IsCalm a t (no_port _ _ _ _) w = tt
PortOf-IsCalm a t (bad_index _ _ _ _ _ _ _ _) w = tt
PortOf-IsCalm a t (no_labels e) w = cc (e, w.1)
PortOf-IsCalm a t (no_discovery _ _ _ _ _ broken) w = w.2 broken

label_in-IsCalm : (labels : Dict Text) (label : Text) → IsCalm (label_in labels label)
unfolding label_in
label_in-IsCalm labels label = elim (Option-cases (lookup label labels)) [
  | inl e ↦ rw (e, label_in) tt
  | inr (v, e) ↦ rw (e, label_in) tt
]

get_label-IsCalm : (a : Application) (label : Text) → IsWhole a → IsCalm (get_label a label)
unfolding get_label
get_label-IsCalm a label (labels, e, _) = rw (e, get_label) (label_in-IsCalm labels label)

address_at-IsCalm : (ips : List Text) (o : Picked Text) → IsCalm o → IsCalm (address_at ips o)
unfolding address_at
address_at-IsCalm ips refused h = tt
address_at-IsCalm ips panicked h = h
address_at-IsCalm ips (picked index) h = elim (Option-cases (parse_index index (length ips))) [
  | inl e ↦ rw (e, address_at) tt
  | inr (i, e) ↦ rw (e, address_at) (element-IsCalm ips i (parse_index-lt index (length ips) i e))
]

task_address-IsCalm : (a : Application) (ips : List Text) → IsWhole a → IsCalm (task_address a ips)
unfolding task_address
task_address-IsCalm a [] w = tt
task_address-IsCalm a (ip ∷ []) w = tt
task_address-IsCalm a (ip ∷ other ∷ ips) w = address_at-IsCalm _ _ (get_label-IsCalm a _ w)

-- An application that is found is one of the list.
pub get_application-All :
    (P : Application → Type 0) (t : Task) (apps : List Application) (a : Application)
    → All P apps
    → get_application t apps ≡ some a
    → P a
unfolding get_application
get_application-All P t [] a h e = cc
get_application-All P t (b ∷ apps) a h e = elim (Bool-cases (eqt b.id t.app_id)) [
  | inl f ↦ let same : b ≡ a = ground (arith, f, e) in subst P same h.0
  | inr f ↦ get_application-All P t apps a h.1 (rw f at e)
]

-- If no pointer of an application is nil the address of a task is found without a panic, whatever
-- the labels say.
pub get_backend_server-IsCalm :
    (p : Marathon) (t : Task) (apps : List Application)
    → All IsWhole apps
    → IsCalm (get_backend_server p t apps)
unfolding get_backend_server
get_backend_server-IsCalm p t apps w = elim (Option-cases (get_application t apps)) [
  | inl e ↦ rw (e, get_backend_server) tt
  | inr (a, e) ↦ elim (Bool-cases (not (has_own_addresses a) || p.force_task_hostname)) [
    | inl f ↦ rw (e, f, get_backend_server) tt
    | inr f ↦
        rw (e, f, get_backend_server)
          (task_address-IsCalm a t.ip_addresses (get_application-All IsWhole t apps a w e))
  ]
]
