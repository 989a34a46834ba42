-- ===== src/Provider/Marathon/PortLaws.antt =====
-- provider/marathon/marathon.go: a slice is never read out of its bounds.
use traefik_release.Base.{
  is_empty, Dict, ℕ, zero, suc, ◌<◌, ◌≡◌, refl, subst, ◌≢◌, inl, inr, Option, none, some, List, [],
  ◌∷◌, arith, Bool-cases, Option-cases, length, Text, txt, lookup,
}
use traefik_release.Provider.Numbers.{ℤ, pos, negsuc, parse_int}
use traefik_release.Provider.Slices.{get_elem?}
use traefik_release.Provider.Picking.{
  Picked, picked, refused, panicked, element, get_elem?-lt, element-some,
}
use traefik_release.Provider.Labels.{is_empty_iff}
use traefik_release.Provider.Marathon.{Application, Task}
use traefik_release.Provider.Marathon.Ports.{
  index_within, parse_index, discovery_ports, retrieve_available_ports, explicit_port, port_at,
  index_port, index_port_of, port_by_labels, process_ports,
}

index_within-lt : (o : Option ℤ) (n i : ℕ) → index_within o n ≡ some i → i < n
unfolding index_within
index_within-lt none n i h = cc
index_within-lt (some (pos k)) n i h = ground arith
index_within-lt (some (negsuc k)) n i h = cc

-- An index that is accepted lies within the length.
pub parse_index-lt : (s : Text) (n i : ℕ) → parse_index s n ≡ some i → i < n
unfolding parse_index
parse_index-lt s n i h = index_within-lt (parse_int s) n i h

-- A pointer on the way to the discovery's ports is nil.
abbrev pub IsBroken : Option (Option (Option (List ℤ))) → Type 0
IsBroken none = ⊥
IsBroken (some none) = Unit
IsBroken (some (some none)) = Unit
IsBroken (some (some (some _))) = ⊥

module _ (a : Application) (t : Task) where
  -- What processPorts may give: the positive number of the label, one of the ports that there are, an
  -- error with its cause, or a panic by a pointer that is nil.
  pub data PortOf : Picked ℤ → Type 0 where
    explicit :
        (labels : Dict Text) (label : Text) (n : ℕ)
        → a.labels ≡ some labels
        → lookup (txt "traefik.port") labels ≡ some label
        → parse_int label ≡ some (pos (suc n))
        → PortOf (picked (pos (suc n)))
    indexed :
        (labels : Dict Text) (ports : List ℤ) (i : ℕ) (port : ℤ)
        → a.labels ≡ some labels
        → lookup (txt "traefik.port") labels ≡ none
        → retrieve_available_ports a t ≡ picked ports
        → get_elem? ports i ≡ some port
        → PortOf (picked port)
    not_positive :
        (labels : Dict Text) (label : Text)
        → a.labels ≡ some labels
        → lookup (txt "traefik.port") labels ≡ some label
        → ((n : ℕ) → parse_int label ≢ some (pos (suc n)))
        → PortOf refused
    no_port :
        (labels : Dict Text)
        → a.labels ≡ some labels
        → lookup (txt "traefik.port") labels ≡ none
        → retrieve_available_ports a t ≡ picked []
        → PortOf refused
    bad_index :
        (labels : Dict Text) (ports : List ℤ) (index : Text)
        → a.labels ≡ some labels
        → lookup (txt "traefik.port") labels ≡ none
        → retrieve_available_ports a t ≡ picked ports
        → lookup (txt "traefik.portIndex") labels ≡ some index
        → parse_index index (length ports) ≡ none
        → PortOf refused
    no_labels : a.labels ≡ none → PortOf panicked
    no_discovery :
        (labels : Dict Text)
        → a.labels ≡ some labels
        → lookup (txt "traefik.port") labels ≡ none
        → t.ports ≡ []
        → a.port_definitions ≡ []
        → IsBroken a.ip_address_per_task
        → PortOf panicked

  -- What reading the ports may do: a panic is by the pointers of the discovery.
  abbrev Retrieved : Picked (List ℤ) → Type 0
  Retrieved (picked ports) = Unit
  Retrieved refused = ⊥
  Retrieved panicked = (t.ports ≡ []) × (a.port_definitions ≡ []) × IsBroken a.ip_address_per_task

  discovery_ports-IsBroken :
      (o : Option (Option (Option (List ℤ))))
      → t.ports ≡ []
      → a.port_definitions ≡ []
      → a.ip_address_per_task ≡ o
      → Retrieved (discovery_ports o)
  unfolding discovery_ports
  discovery_ports-IsBroken none e f g = tt
  discovery_ports-IsBroken (some none) e f g = (e, f, rw g tt)
  discovery_ports-IsBroken (some (some none)) e f g = (e, f, rw g tt)
  discovery_ports-IsBroken (some (some (some _))) e f g = tt

  retrieve-Retrieved : Retrieved (retrieve_available_ports a t)
  unfolding retrieve_available_ports
  retrieve-Retrieved = elim (Bool-cases (is_empty t.ports)) [
    | inr e ↦ rw e tt
    | inl e ↦ elim (Bool-cases (is_empty a.port_definitions)) [
      | inr f ↦ rw (e, f) tt
      | inl f ↦
          let open_ports =
            discovery_ports-IsBroken a.ip_address_per_task ((is_empty_iff t.ports).0 e)
              ((is_empty_iff a.port_definitions).0 f) refl in
          rw (e, f) open_ports
    ]
  ]

  module _ (labels : Dict Text) (given : a.labels ≡ some labels) where
    explicit_port-PortOf :
        (label : Text) (o : Option ℤ)
        → lookup (txt "traefik.port") labels ≡ some label
        → parse_int label ≡ o
        → PortOf (explicit_port o)
    unfolding explicit_port
    explicit_port-PortOf label none e f = not_positive labels label given e (λ n g. cc (f, g))
    explicit_port-PortOf label (some (pos zero)) e f =
        not_positive labels label given e (λ n g. ground (arith, f, g))
    explicit_port-PortOf label (some (pos (suc n))) e f = explicit labels label n given e f
    explicit_port-PortOf label (some (negsuc n)) e f =
        not_positive labels label given e (λ m g. cc (f, g))

    module _ (ports : List ℤ) (none_given : lookup (txt "traefik.port") labels ≡ none)
        (retrieved : retrieve_available_ports a t ≡ picked ports) where
      indexed_at : (i : ℕ) → i < length ports → PortOf (element ports i)
      indexed_at i h =
          let found = get_elem?-lt ports i h in
          rw (element-some ports i found.0 found.1)
            (indexed labels ports i found.0 given none_given retrieved found.1)

      port_at-PortOf :
          (o : Option Text)
          → lookup (txt "traefik.portIndex") labels ≡ o
          → 0 < length ports
          → PortOf (port_at ports o)
      unfolding port_at
      port_at-PortOf none f h = indexed_at 0 h
      port_at-PortOf (some index) f h = elim (Option-cases (parse_index index (length ports))) [
        | inl g ↦ rw (g, port_at) (bad_index labels ports index given none_given retrieved f g)
        | inr (i, g) ↦ rw (g, port_at) (indexed_at i (parse_index-lt index (length ports) i g))
      ]

    index_port-PortOf :
        (ports : List ℤ)
        → lookup (txt "traefik.port") labels ≡ none
        → retrieve_available_ports a t ≡ picked ports
        → PortOf (index_port ports (lookup (txt "traefik.portIndex") labels))
    unfolding index_port
    index_port-PortOf [] f e = no_port labels given f e
    index_port-PortOf (port ∷ ports) f e =
        port_at-PortOf (port ∷ ports) f e (lookup (txt "traefik.portIndex") labels) refl
          (omega arith)

    index_port_of-PortOf :
        (o : Picked (List ℤ))
        → lookup (txt "traefik.port") labels ≡ none
        → retrieve_available_ports a t ≡ o
        → Retrieved o
        → PortOf (index_port_of o (lookup (txt "traefik.portIndex") labels))
    unfolding index_port_of
    index_port_of-PortOf (picked ports) f e r = index_port-PortOf ports f e
    index_port_of-PortOf refused f e r = absurd r
    index_port_of-PortOf panicked f e (p, d, broken) = no_discovery labels given f p d broken

    port_by_labels-PortOf : PortOf (port_by_labels labels a t)
    unfolding port_by_labels
    port_by_labels-PortOf = elim (Option-cases (lookup (txt "traefik.port") labels)) [
      | inl e ↦
          rw (e, port_by_labels)
            (index_port_of-PortOf (retrieve_available_ports a t) e refl retrieve-Retrieved)
      | inr (label, e) ↦
          rw (e, port_by_labels) (explicit_port-PortOf label (parse_int label) e refl)
    ]

  -- The positive number of the port label, one of the ports that there are, or an error with its
  -- cause. It panics only where the labels are nil, or where neither a label nor the task nor the
  -- definitions give a port and the discovery or its ports are nil; no port is read out of bounds.
  pub process_ports-PortOf : PortOf (process_ports a t)
  unfolding process_ports
  process_ports-PortOf = elim (Option-cases a.labels) [
    | inl e ↦
        let read : panicked ≡ process_ports a t = simp (e, process_ports) in
        subst PortOf read (no_labels e)
    | inr (labels, e) ↦
        let read : port_by_labels labels a t ≡ process_ports a t = simp (e, process_ports) in
        subst PortOf read (port_by_labels-PortOf labels e)
  ]
