-- ===== src/Provider/Mesos/Laws.antt =====
-- provider/mesos/mesos.go: the applications of a load, and when reading a port panics.
use traefik_release.Base.{
  ℕ, zero, suc, ◌+◌, ◌≤◌, ◌≡◌, refl, subst, ◌⊎◌, inl, inr, Bool, true, false, not, ◌&&◌, Option,
  none, some, List, [], ◌∷◌, ◌++◌, arith, if◌then◌else◌, Bool-cases, Option-cases, length, any, All,
  All-mono, Text, txt, eqt, eqt_refl, eqt_iff, is_empty, lookup,
}
use traefik_release.Provider.Numbers.{ℤ, pos, negsuc, parse_int}
use traefik_release.Provider.Picking.{panicked, element, get_elem?-lt, element-some, IsCalm}
use traefik_release.Provider.Slices.{get_elem?}
use traefik_release.Provider.Mesos.{Task, labels_of, get_label, get_mesos}
use traefik_release.Provider.Mesos.Filters.{is_index_of, port_index_label, mesos_task_filter}
use traefik_release.Provider.Mesos.Ports.{number_text, port_of_index, number_of, port_by, get_port}
use traefik_release.Provider.Mesos.Loading.{task_in_slice, applications_from}

index_checked :
    (t : Task) (exposed : Bool)
    → mesos_task_filter t exposed ≡ true
    → (not (is_empty (port_index_label t))
        && not (is_index_of t.discovery_ports (parse_int (port_index_label t))))
      ≡ false
unfolding mesos_task_filter
index_checked t exposed h = ground arith

number_not_empty : (label : Text) (z : ℤ) → parse_int label ≡ some z → is_empty label ≡ false
unfolding parse_int is_empty
number_not_empty [] z h = cc
number_not_empty (c ∷ label) z h = refl

-- A label that is a number is not empty, and the filter has checked it.
checked_index :
    (t : Task) (exposed : Bool) (label : Text) (z : ℤ)
    → mesos_task_filter t exposed ≡ true
    → get_label t (txt "traefik.portIndex") ≡ some label
    → parse_int label ≡ some z
    → is_index_of t.discovery_ports (some z) ≡ true
unfolding get_label labels_of
checked_index t exposed label z h e f =
    let same : port_index_label t ≡ label = rw (labels_of, e) in
    let full : is_empty label ≡ false = number_not_empty label z f in
    let tested =
      subst (λ l. (not (is_empty l) && not (is_index_of t.discovery_ports (parse_int l))) ≡ false)
        same (index_checked t exposed h) in
    ground (arith, f, full, tested)

port_of_index-IsCalm :
    (ports : List ℤ) (z : ℤ) → is_index_of ports (some z) ≡ true → IsCalm (port_of_index ports z)
unfolding port_of_index is_index_of number_text
port_of_index-IsCalm ports (pos i) h =
    let found = get_elem?-lt ports i (ground arith) in rw (element-some ports i found.0 found.1) tt
port_of_index-IsCalm ports (negsuc i) h = cc

number_cases :
    (label : Option Text)
    → (number_of label ≡ none)
      ⊎ ((p : Text × ℤ) × (label ≡ some p.0)
          × (parse_int p.0 ≡ some p.1)
          × (number_of label ≡ some p.1))
unfolding number_of
number_cases none = inl refl
number_cases (some label) = elim (Option-cases (parse_int label)) [
  | inl e ↦ inl e
  | inr (z, e) ↦ inr ((label, z), refl, e, e)
]

-- For a task that passes the filter, and an application with the same label for the index, the port is
-- read within the slice.
pub get_port-IsCalm :
    (t a : Task) (apps : List Task) (exposed : Bool)
    → mesos_task_filter t exposed ≡ true
    → get_mesos t apps ≡ some a
    → get_label a (txt "traefik.portIndex") ≡ get_label t (txt "traefik.portIndex")
    → IsCalm (get_port t apps)
unfolding get_port get_label port_by
get_port-IsCalm t a apps exposed h e same =
    elim (number_cases (lookup (txt "traefik.portIndex") a.labels)) [
      | inl n ↦ rw (e, get_port, n) tt
      | inr ((label, z), l, f, n) ↦
          let own : get_label t (txt "traefik.portIndex") ≡ some label = rw (← same) l in
          rw (e, get_port, n)
            (port_of_index-IsCalm t.discovery_ports z (checked_index t exposed label z h own f))
    ]

get_elem?-none {ℓ} : {A : Type ℓ} (xs : List A) (i : ℕ) → length xs ≤ i → get_elem? xs i ≡ none
unfolding get_elem?
get_elem?-none [] i h = refl
get_elem?-none (x ∷ xs) zero h = absurd (omega arith)
get_elem?-none (x ∷ xs) (suc i) h = get_elem?-none xs i (omega arith)

port_of_index-out :
    (ports : List ℤ) (i : ℕ) → length ports ≤ i → port_of_index ports (pos i) ≡ panicked
unfolding port_of_index element number_text
port_of_index-out ports i h = rw (get_elem?-none ports i h, port_of_index, element)

-- The index is that of the application, and the ports are those of the task: where the task has no
-- such port the program panics, whether or not the task passes the filter by its own labels.
pub get_port-panics :
    (t a : Task) (apps : List Task) (label : Text) (i : ℕ)
    → get_mesos t apps ≡ some a
    → get_label a (txt "traefik.portIndex") ≡ some label
    → parse_int label ≡ some (pos i)
    → length t.discovery_ports ≤ i
    → get_port t apps ≡ panicked
unfolding get_port port_by number_of port_of_index number_text element
get_port-panics t a apps label i e l f h =
    rw (e, get_port, l, number_of, f, port_by) (port_of_index-out t.discovery_ports i h)

-- How many applications bear a name.
abbrev pub named : Text → List Task → ℕ
named name [] = 0
named name (a ∷ apps) = (if eqt a.discovery_name name then 1 else 0) + named name apps

named-append :
    (name : Text) (apps more : List Task)
    → named name (apps ++ more) ≡ named name apps + named name more
named-append name [] more = omega arith
named-append name (a ∷ apps) more = omega (arith, named-append name apps more)

-- A name that is not in the slice is borne by none.
named-absent :
    (t : Task) (apps : List Task) → task_in_slice t apps ≡ false → named t.discovery_name apps ≡ 0
unfolding task_in_slice any
named-absent t [] h = refl
named-absent t (a ∷ apps) h = ground (arith, named-absent t apps)

named-present :
    (t : Task) (apps : List Task) → task_in_slice t apps ≡ true → 1 ≤ named t.discovery_name apps
unfolding task_in_slice any
named-present t [] h = cc
named-present t (a ∷ apps) h = ground (arith, named-present t apps)

module _ (name : Text) where
  add_distinct :
      (t : Task) (apps : List Task)
      → named name apps ≤ 1
      → named name (if task_in_slice t apps then apps else apps ++ t ∷ []) ≤ 1
  add_distinct t apps h = elim (Bool-cases (task_in_slice t apps)) [
    | inl e ↦ rw e h
    | inr e ↦ elim (Bool-cases (eqt t.discovery_name name)) [
      | inl f ↦
          let none_yet : named name apps ≡ 0 =
            subst (λ n. named n apps ≡ 0) ((eqt_iff t.discovery_name name).0 f)
              (named-absent t apps e) in
          rw (e, named-append name apps (t ∷ []), f, none_yet) (omega arith)
      | inr f ↦ rw (e, named-append name apps (t ∷ []), f) (omega arith)
    ]
  ]

  applications_from-distinct :
      (apps tasks : List Task) → named name apps ≤ 1 → named name (applications_from apps tasks) ≤ 1
  unfolding applications_from
  applications_from-distinct apps [] h = h
  applications_from-distinct apps (t ∷ tasks) h =
      applications_from-distinct (if task_in_slice t apps then apps else apps ++ t ∷ []) tasks
        (add_distinct t apps h)

  applications_from-grows :
      (apps tasks : List Task) → named name apps ≤ named name (applications_from apps tasks)
  unfolding applications_from
  applications_from-grows apps [] = omega arith
  applications_from-grows apps (t ∷ tasks) = elim (Bool-cases (task_in_slice t apps)) [
    | inl e ↦ rw e (applications_from-grows apps tasks)
    | inr e ↦ rw e (
        omega
          (arith, applications_from-grows (apps ++ t ∷ []) tasks, named-append name apps (t ∷ [])))
  ]

covers_next :
    (t : Task) (apps : List Task)
    → 1 ≤ named t.discovery_name (if task_in_slice t apps then apps else apps ++ t ∷ [])
covers_next t apps = elim (Bool-cases (task_in_slice t apps)) [
  | inl e ↦ rw e (named-present t apps e)
  | inr e ↦
      rw (e, named-append t.discovery_name apps (t ∷ []), eqt_refl t.discovery_name) (omega arith)
]

covers :
    (apps tasks : List Task)
    → All (λ t. 1 ≤ named t.discovery_name (applications_from apps tasks)) tasks
unfolding applications_from
covers apps [] = tt
covers apps (t ∷ tasks) =
    let next = if task_in_slice t apps then apps else apps ++ t ∷ [] in
    (
      omega (arith, covers_next t apps, applications_from-grows t.discovery_name next tasks),
      covers next tasks,
    )

-- Each task of a load has exactly one application of its name.
pub applications_from_unique :
    (tasks : List Task) → All (λ t. named t.discovery_name (applications_from [] tasks) ≡ 1) tasks
applications_from_unique tasks =
    All-mono (λ (t : Task). 1 ≤ named t.discovery_name (applications_from [] tasks))
      (λ (t : Task). named t.discovery_name (applications_from [] tasks) ≡ 1) tasks
      (λ t h. omega (arith, h, applications_from-distinct t.discovery_name [] tasks (omega arith)))
      (covers [] tasks)
