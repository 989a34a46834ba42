-- ===== src/Provider/Marathon/Laws.antt =====
-- provider/marathon/marathon.go: loads without a panic, and the names of subdomains.
use traefik_release.Base.{
  ◌≡◌, inl, inr, Bool, false, some, List, reverse, if◌then◌else◌, Bool-cases, Text, txt,
  trim_prefix, join, split,
}
use traefik_release.Provider.Labels.{dashed}
use traefik_release.Provider.Slices.{reverse_slice-reverse}
use traefik_release.Provider.Marathon.{Marathon, Application, Task}
use traefik_release.Provider.Picking.{Picked, picked, refused, panicked}
use traefik_release.Provider.Marathon.Labels.{get_sub_domain}
use traefik_release.Provider.Marathon.Loading.{task_filter, application_filter}

-- A subdomain is the path with its parts in reverse, or with dashes; the swaps are within the slice.
pub get_sub_domain-eq :
    (p : Marathon) (name : Text)
    → let path = trim_prefix name (txt "/") in
      get_sub_domain p name
      ≡ some (
          if p.groups_as_sub_domains
          then join (txt ".") (reverse (split b'/' path))
          else dashed b'/' path)
unfolding get_sub_domain
get_sub_domain-eq p name = elim (Bool-cases p.groups_as_sub_domains) [
  | inl e ↦ rw (e, reverse_slice-reverse (split b'/' (trim_prefix name (txt "/"))))
  | inr e ↦ rw e
]

-- The answer of a filter, where it has one.
abbrev pub verdict : Picked Bool → Bool
verdict (picked b) = b
verdict refused = false
verdict panicked = false

module _ (glob : Text → Text → Bool) (p : Marathon) where
  abbrev pub is_kept : List Application → Task → Bool
  is_kept apps t = verdict (task_filter glob p t apps p.exposed_by_default)

  abbrev pub is_wanted : List Task → Application → Bool
  is_wanted tasks a = verdict (application_filter glob p a tasks)
