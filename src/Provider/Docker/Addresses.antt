-- ===== src/Provider/Docker/Addresses.antt =====
-- provider/docker/docker.go: the address and the port of a container.
use traefik_release.Base.{
  ℕ, ◌≡◌, refl, subst, inl, inr, Bool, false, ◌&&◌, ◌||◌, Option, none, some, List, [], ◌∷◌, ◌++◌,
  arith, ltb, leb, if◌then◌else◌, Option-cases, All, Text, txt, eqt, eqt_of_ne, is_empty, Dict,
  lookup, keys,
}
use traefik_release.Provider.Labels.{or_else}
use traefik_release.Provider.Docker.{Docker, NetworkData, PortBinding, DockerData}
use traefik_release.Provider.Docker.Labels.{get_label}

-- What the program uses of the package nat of docker/go-connections.
pub record Ports : Type 0 where
  pub int_of : Text → ℕ
  pub port_of : Text → Text
  pub sort : (Text → Text → Bool) → List Text → List Text

-- The least port of a sorted list, or the empty text.
unfoldable pub first_port : Ports → List Text → Text
first_port n [] = []
first_port n (port ∷ ports) = n.port_of port

-- getPort
unfoldable pub get_port : Ports → DockerData → Text
get_port n c = elim (get_label c (txt "traefik.port")) [
  | some label ↦ label
  | none ↦
      first_port n (n.sort (λ i j. ltb (n.int_of i) (n.int_of j)) (keys c.network_settings.ports))
]

-- The host's address of the first binding of a port that is named like this one.
unfoldable pub bound_ip : Text → Dict (List PortBinding) → Option Text
bound_ip port [] = none
bound_ip port ((netport, bindings) ∷ ports) =
    let later = bound_ip port ports in
    if eqt netport (port ++ txt "/TCP") || eqt netport (port ++ txt "/UDP")
    then (elim bindings [ [] ↦ later | b ∷ more ↦ some b.host_ip ])
    else later

unfoldable pub first_address : Dict NetworkData → Text
first_address [] = []
first_address ((_, network) ∷ networks) = network.addr

unfoldable pub bound_address : Ports → Docker → DockerData → Option Text
bound_address n p c =
    if p.use_bind_port_ip then bound_ip (get_port n c) c.network_settings.ports else none

unfoldable pub default_address : Ports → Docker → DockerData → Text
default_address n p c =
    if eqt (txt "host") c.network_settings.network_mode
    then txt "127.0.0.1"
    else or_else (bound_address n p c) (first_address c.network_settings.networks)

-- getIPAddress
unfoldable pub named_network : DockerData → Option NetworkData
named_network c = elim (get_label c (txt "traefik.docker.network")) [
  | none ↦ none
  | some label ↦ if is_empty label then none else lookup label c.network_settings.networks
]

unfoldable pub get_ip_address : Ports → Docker → DockerData → Text
get_ip_address n p c = elim (named_network c) [
  | some network ↦ network.addr
  | none ↦ default_address n p c
]

-- No capital letter, as in the names that the engine gives ports: "80/tcp".
abbrev pub IsLowerCase : Text → Type 0
IsLowerCase s = All (λ c. (leb b'A' c && leb c b'Z') ≡ false) s

not_upper_port : (port s : Text) → IsLowerCase (port ++ (b'/' ∷ b'T' ∷ s)) → ⊥
not_upper_port [] s h = ground arith
not_upper_port (c ∷ port) s h = not_upper_port port s h.1

not_upper_udp : (port s : Text) → IsLowerCase (port ++ (b'/' ∷ b'U' ∷ s)) → ⊥
not_upper_udp [] s h = ground arith
not_upper_udp (c ∷ port) s h = not_upper_udp port s h.1

bound_ip-lower :
    (port : Text) (ports : Dict (List PortBinding))
    → All IsLowerCase (keys ports)
    → bound_ip port ports ≡ none
unfolding bound_ip
bound_ip-lower port [] h = refl
bound_ip-lower port ((netport, bindings) ∷ ports) (h, hs) =
    let tcp =
      eqt_of_ne netport (port ++ txt "/TCP") (λ e. not_upper_port port _ (subst IsLowerCase e h)) in
    let udp =
      eqt_of_ne netport (port ++ txt "/UDP") (λ e. not_upper_udp port _ (subst IsLowerCase e h)) in
    rw (tcp, udp) (bound_ip-lower port ports hs)

bound_address-lower :
    (n : Ports) (p : Docker) (c : DockerData)
    → All IsLowerCase (keys c.network_settings.ports)
    → bound_address n p c ≡ none
unfolding bound_address
bound_address-lower n p c h =
    ground (arith, bound_ip-lower (get_port n c) c.network_settings.ports h)

default_address-lower :
    (n : Ports) (p : Docker) (c : DockerData)
    → All IsLowerCase (keys c.network_settings.ports)
    → default_address n p c ≡ default_address n (record p { use_bind_port_ip = false }) c
unfolding default_address
default_address-lower n p c h =
    let unbound = bound_address-lower n (record p { use_bind_port_ip = false }) c h in
    rw (bound_address-lower n p c h, unbound)

-- With such names the setting UseBindPortIP changes nothing.
pub get_ip_address-lower :
    (n : Ports) (p : Docker) (c : DockerData)
    → All IsLowerCase (keys c.network_settings.ports)
    → get_ip_address n p c ≡ get_ip_address n (record p { use_bind_port_ip = false }) c
unfolding get_ip_address
get_ip_address-lower n p c h = elim (Option-cases (named_network c)) [
  | inl e ↦ rw (e, get_ip_address) (default_address-lower n p c h)
  | inr (network, e) ↦ rw (e, get_ip_address)
]
