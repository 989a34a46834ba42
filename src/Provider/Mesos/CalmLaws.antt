-- ===== src/Provider/Mesos/CalmLaws.antt =====
-- provider/mesos/mesos.go: when the ports of a whole load are read without a panic.
use traefik_release.Base.{
  ◌≡◌, ◌≢◌, ◌⊎◌, subst, inl, inr, Bool, true, some, List, [], ◌∷◌, ◌++◌, arith, Bool-cases,
  Option-cases, keep, All, All-mono, All-append, txt, eqt, eqt_iff,
}
use traefik_release.Provider.Picking.{IsCalm}
use traefik_release.Provider.Mesos.{Mesos, Task, get_label, get_mesos}
use traefik_release.Provider.Mesos.Filters.{mesos_task_filter}
use traefik_release.Provider.Mesos.Ports.{get_port}
use traefik_release.Provider.Mesos.Loading.{
  MesosState, task_in_slice, applications_from, mesos_objects, task_records,
}
use traefik_release.Provider.Mesos.Laws.{get_port-IsCalm}

All-keep {ℓ} : {A : Type ℓ} (f : A → Bool) (xs : List A) → All (λ x. f x ≡ true) (keep f xs)
unfolding keep
All-keep f [] = tt
All-keep f (x ∷ xs) = elim (Bool-cases (f x)) [
  | inl e ↦ rw e (e, All-keep f xs)
  | inr e ↦ rw e (All-keep f xs)
]

All-pair {ℓ κ μ} :
    {A : Type ℓ} (P : A → Type κ) (Q : A → Type μ) (xs : List A)
    → All P xs
    → All Q xs
    → All (λ x. P x × Q x) xs
All-pair P Q [] p q = tt
All-pair P Q (x ∷ xs) p q = ((p.0, q.0), All-pair P Q xs p.1 q.1)

module _ (P : Task → Type 0) where
  -- What holds of the tasks holds of their applications.
  applications_from-All :
      (apps tasks : List Task) → All P apps → All P tasks → All P (applications_from apps tasks)
  unfolding applications_from
  applications_from-All apps [] ha ht = ha
  applications_from-All apps (t ∷ tasks) ha ht = elim (Bool-cases (task_in_slice t apps)) [
    | inl e ↦ rw e (applications_from-All apps tasks ha ht.1)
    | inr e ↦ rw e (
        applications_from-All (apps ++ t ∷ []) tasks (All-append P apps (t ∷ []) ha (ht.0, tt))
          ht.1)
  ]

  get_mesos-All :
      (t a : Task) (apps : List Task)
      → All P apps
      → get_mesos t apps ≡ some a
      → P a × (a.discovery_name ≡ t.discovery_name)
  unfolding get_mesos
  get_mesos-All t a [] h e = cc
  get_mesos-All t a (b ∷ apps) h e = elim (Bool-cases (eqt b.discovery_name t.discovery_name)) [
    | inl f ↦
        let same : b ≡ a = ground (arith, f, e) in
        (
          subst P same h.0,
          subst (λ c. c.discovery_name ≡ t.discovery_name) same ((eqt_iff _ _).0 f),
        )
    | inr f ↦ get_mesos-All t a apps h.1 (rw f at e)
  ]

-- Tasks of one name have the same label for the index of the port.
abbrev pub AgreesOn : Task → Task → Type 0
AgreesOn t a =
    (a.discovery_name ≢ t.discovery_name)
    ⊎ (get_label a (txt "traefik.portIndex") ≡ get_label t (txt "traefik.portIndex"))

abbrev pub IsAgreed : List Task → Type 0
IsAgreed tasks = All (λ t. All (AgreesOn t) tasks) tasks

port_of_load-IsCalm :
    (t : Task) (tasks : List Task) (exposed : Bool)
    → mesos_task_filter t exposed ≡ true
    → All (AgreesOn t) tasks
    → IsCalm (get_port t (applications_from [] tasks))
unfolding get_port
port_of_load-IsCalm t tasks exposed h agreed =
    elim (Option-cases (get_mesos t (applications_from [] tasks))) [
      | inl e ↦ rw (e, get_port) tt
      | inr (a, e) ↦
          let found =
            get_mesos-All (AgreesOn t) t a (applications_from [] tasks)
              (applications_from-All (AgreesOn t) [] tasks tt agreed) e in
          (elim found.0 [
            | inl other ↦ absurd (other found.1)
            | inr same ↦ get_port-IsCalm t a (applications_from [] tasks) exposed h e same
          ])
    ]

-- If the tasks of a load that have the same name have the same label for the index, the port of each
-- of them is read without a panic, by the applications of the load.
pub mesos_objects-IsCalm :
    (p : Mesos) (s : MesosState)
    → IsAgreed (mesos_objects p s).tasks
    → All (λ t. IsCalm (get_port t (mesos_objects p s).applications)) (mesos_objects p s).tasks
unfolding mesos_objects
mesos_objects-IsCalm p s agreed =
    let tasks = keep (λ t. mesos_task_filter t p.exposed_by_default) (task_records s) in
    let passed = All-keep (λ t. mesos_task_filter t p.exposed_by_default) (task_records s) in
    All-mono _ _ tasks (λ t h. port_of_load-IsCalm t tasks p.exposed_by_default h.0 h.1)
      (All-pair _ _ tasks passed agreed)
