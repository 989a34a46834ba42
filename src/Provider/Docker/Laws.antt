-- ===== src/Provider/Docker/Laws.antt =====
-- provider/docker/docker.go: names, amounts, the maps for the template, and failing lists.
use traefik_release.Base.{
  ℕ, ◌≡◌, refl, ap, ◌∙◌, inl, inr, Bool, true, false, not, Option, none, some, List, [], ◌∷◌, ◌++◌,
  arith, ◌==◌, Bool-cases, Option-cases, keep, All, Text, txt, trim_prefix, Dict, lookup,
}
use traefik_release.Provider.Labels.{replace_byte, replace_byte-gone, is_some}
use traefik_release.Provider.Numbers.{InRange, parse_int, parse_int-InRange}
use traefik_release.Provider.Grouping.{
  or_nil, is_named, last_or, lookup-group_from, lookup-store_from,
}
use traefik_release.Provider.Rendering.{Engine}
use traefik_release.Provider.Docker.{Docker, DockerData}
use traefik_release.Provider.Docker.Labels.{
  get_label, get_sub_domain, get_max_conn_amount, get_backend, get_frontend_name,
}
use traefik_release.Provider.Docker.Filters.{container_filter}
use traefik_release.Provider.Docker.Swarm.{
  Task, SwarmService, NetworkResource, list_tasks, uses_swarm_lb, add_service, services_from,
  list_services, network_map,
}
use traefik_release.Provider.Docker.Loading.{DockerObjects, docker_objects}
use traefik_release.Provider.Docker.Providing.{send_if_any, watch_rounds, provide_once}

-- A byte that is not there is not brought in by another replacement.
replace_byte-keeps :
    (gone old new : ℕ) (s : Text)
    → (new == gone) ≡ false
    → All (λ c. (c == gone) ≡ false) s
    → All (λ c. (c == gone) ≡ false) (replace_byte old new s)
unfolding replace_byte
replace_byte-keeps gone old new [] h a = tt
replace_byte-keeps gone old new (c ∷ s) h (e, a) = elim (Bool-cases (c == old)) [
  | inl f ↦ rw f (h, replace_byte-keeps gone old new s h a)
  | inr f ↦ rw f (e, replace_byte-keeps gone old new s h a)
]

-- A subdomain holds no slash and no underscore.
pub get_sub_domain-plain :
    (name : Text)
    → All (λ c. (c == b'/') ≡ false) (get_sub_domain name)
      × All (λ c. (c == b'_') ≡ false) (get_sub_domain name)
unfolding get_sub_domain
get_sub_domain-plain name = (
  replace_byte-keeps b'/' b'_' b'-' _ refl
      (replace_byte-gone b'/' b'-' (trim_prefix name (txt "/")) refl),
  replace_byte-gone b'_' b'-' _ refl,
)

-- The limit on connections is an int64, whatever the label says.
pub get_max_conn_amount-InRange : (c : DockerData) → InRange (get_max_conn_amount c)
unfolding get_max_conn_amount
get_max_conn_amount-InRange c =
    elim (Option-cases (get_label c (txt "traefik.backend.maxconn.amount"))) [
      | inl e ↦ rw (e, get_max_conn_amount) (omega arith)
      | inr (label, e) ↦ elim (Option-cases (parse_int label)) [
        | inl f ↦ rw (e, f, get_max_conn_amount) (omega arith)
        | inr (z, f) ↦ rw (e, f, get_max_conn_amount) (parse_int-InRange label z f)
      ]
    ]

module _ (glob : Text → Text → Bool) (p : Docker) where
  -- The servers of a backend are the containers that pass the filter and name it, in their order, and
  -- its settings are those of the last of them; in the same way each frontend has its containers.
  pub docker_objects-groups :
      (inspected : List DockerData) (name : Text)
      → let o = docker_objects glob p inspected in
        let served = keep (container_filter glob p) inspected in
        (or_nil (lookup name o.servers) ≡ keep (is_named get_backend name) served)
        × (lookup name o.backends
            ≡ last_or get_backend none (keep (is_named get_backend name) served))
        × (or_nil (lookup name o.frontends) ≡ keep (is_named (get_frontend_name p) name) served)
  unfolding docker_objects or_nil lookup
  docker_objects-groups inspected name =
      let served = keep (container_filter glob p) inspected in
      (
        lookup-group_from get_backend name [] served,
        lookup-store_from get_backend name [] served,
        lookup-group_from (get_frontend_name p) name [] served,
      )

  module _ (e : Engine DockerObjects) (filename : Text) where
    -- What comes behind a list that fails has no effect.
    watch_rounds-failed :
        (before after : List (Option (List DockerData)))
        → watch_rounds glob p e filename (before ++ none ∷ after)
          ≡ watch_rounds glob p e filename before
    unfolding watch_rounds
    watch_rounds-failed [] after = refl
    watch_rounds-failed (none ∷ before) after = refl
    watch_rounds-failed (some listed ∷ before) after =
        ap (send_if_any glob p e filename _) (watch_rounds-failed before after)

    -- A swarm whose list fails once while it is watched sends nothing more, and its operation has
    -- ended without an error, so that it is not tried again.
    pub provide_once-stalls :
        (listed : List DockerData) (before after : List (Option (List DockerData))) (failed : Bool)
        → p.swarm_mode ≡ true
        → let run =
            provide_once glob p e filename true (some listed) (before ++ none ∷ after) failed in
          (run.sent ≡ (provide_once glob p e filename true (some listed) before failed).sent)
          × (run.failed ≡ false)
    unfolding provide_once
    provide_once-stalls listed before after failed h =
        (rw (watch_rounds-failed before after), ground (arith, h))

module _ (ip_of : Text → Text) (task_list : Text → Option (List Task)) where
  services_from-last :
      (m : Dict NetworkResource) (state : List DockerData × Bool) (services : List SwarmService)
      (s : SwarmService)
      → services_from ip_of task_list m state (services ++ s ∷ [])
        ≡ add_service ip_of task_list m s (services_from ip_of task_list m state services)
  unfolding services_from
  services_from-last m state [] s = refl
  services_from-last m state (t ∷ services) s =
      services_from-last m (add_service ip_of task_list m t state) services s

  add_service-failed :
      (m : Dict NetworkResource) (s : SwarmService) (state : List DockerData × Bool)
      → uses_swarm_lb ip_of s m ≡ false
      → (add_service ip_of task_list m s state).1 ≡ not (is_some (task_list s.id))
  unfolding add_service list_tasks
  add_service-failed m s (found, failed) h = elim (Option-cases (task_list s.id)) [
    | inl e ↦ rw (h, add_service, e)
    | inr (tasks, e) ↦ rw (h, add_service, e)
  ]

  -- If the last service goes by its tasks, listServices fails exactly if that service's tasks cannot
  -- be listed: that those of any other cannot is forgotten.
  pub list_services-last :
      (services : List SwarmService) (s : SwarmService) (networks : List NetworkResource)
      → uses_swarm_lb ip_of s (network_map [] networks) ≡ false
      → (list_services ip_of (some (services ++ s ∷ [])) (some networks) task_list).1
        ≡ not (is_some (task_list s.id))
  unfolding list_services
  list_services-last services s networks h =
      let m = network_map [] networks in
      ap (λ (r : List DockerData × Bool). r.1) (services_from-last m ([], false) services s)
      ∙ add_service-failed m s (services_from ip_of task_list m ([], false) services) h
