-- ===== src/Provider/Services.antt =====
-- provider/kubernetes/kubernetes.go, loadIngresses: what the service of a path does to the templates.
use traefik_release.Base.{
  false, ◌||◌, Option, none, some, List, [], ◌∷◌, ◌++◌, ◌==◌, if◌then◌else◌, Text, txt, eqt,
  is_empty, Dict, lookup, insert, delete,
}
use traefik_release.Server.Config.{LoadBalancer, BackendServer, Backend, Frontend}
use traefik_release.Provider.Cluster.{
  Fetched, failed, absent, found, IntOrString, IngressPath, ServicePort, Service, Address, Subset,
  Client, annotation, equal_ports, endpoint_port_number, itoa,
}

-- The maps of templateObjects; a load that fails returns no configuration.
pub record Templates : Type 0 where
  pub backends : Dict Backend
  pub frontends : Dict Frontend

unfoldable pub no_templates : Templates
no_templates = record { backends = []; frontends = [] }

-- The backend under a key, which is made if it is not there.
unfoldable pub new_backend : Backend
new_backend = record {
  servers = [];
  circuit_breaker = none;
  load_balancer = some (record { method = txt "wrr"; sticky = false });
  max_conn = none;
  health_check = none;
}

unfoldable pub backend_at : Text → Templates → Backend
backend_at key t = elim (lookup key t.backends) [ some b ↦ b | none ↦ new_backend ]

-- What the annotations of a service say of its backend.
unfoldable pub balancer_of : Service → Option LoadBalancer → Option LoadBalancer
balancer_of s none = none
balancer_of s (some lb) = some (record {
  method =
      if eqt (annotation (txt "traefik.backend.loadbalancer.method") s.annotations) (txt "drr")
      then txt "drr"
      else lb.method;
  sticky =
      eqt (annotation (txt "traefik.backend.loadbalancer.sticky") s.annotations) (txt "true")
      || lb.sticky;
})

unfoldable pub annotated : Service → Backend → Backend
annotated s b =
    let expression = annotation (txt "traefik.backend.circuitbreaker") s.annotations in
    record b {
      circuit_breaker = if is_empty expression then b.circuit_breaker else some expression;
      load_balancer = balancer_of s b.load_balancer;
    }

abbrev pub protocol_of : ServicePort → Text
protocol_of p = if p.port == 443 then txt "https" else txt "http"

abbrev pub server_name : Text → Option Text → Text
server_name url none = url
server_name url (some name) = if is_empty name then url else name

-- The loops over the subsets of endpoints and their addresses.
unfoldable pub add_addresses :
    ServicePort → List ServicePort → List Address → Dict BackendServer → Dict BackendServer
add_addresses port ports [] servers = servers
add_addresses port ports (a ∷ more) servers =
    let number = itoa (endpoint_port_number port ports) in
    let url = protocol_of port ++ (txt "://" ++ (a.ip ++ (b':' ∷ number))) in
    add_addresses port ports more
      (insert (server_name url a.target) (record { url = url; weight = 1 }) servers)

unfoldable pub add_subsets : ServicePort → List Subset → Dict BackendServer → Dict BackendServer
add_subsets port [] servers = servers
add_subsets port (s ∷ subsets) servers =
    add_subsets port subsets (add_addresses port s.ports s.addresses servers)

unfoldable pub add_endpoints :
    ServicePort → Fetched (List Subset) → Dict BackendServer → Option (Dict BackendServer)
add_endpoints port failed servers = none
add_endpoints port absent servers = some servers
add_endpoints port (found subsets) servers = some (add_subsets port subsets servers)

-- The servers of the service's port; no result is an error of the client.
unfoldable pub port_servers :
    Client → Service → ServicePort → Dict BackendServer → Option (Dict BackendServer)
port_servers k s port servers =
    let url = protocol_of port ++ (txt "://" ++ s.external_name) in
    if eqt s.kind (txt "ExternalName")
    then some (insert url (record { url = url; weight = 1 }) servers)
    else add_endpoints port (k.get_endpoints s.namespace s.name) servers

-- The loop over the ports of a service, up to the one that the ingress names.
unfoldable pub service_servers :
    Client
    → Service
    → IntOrString
    → List ServicePort
    → Dict BackendServer
    → Option (Dict BackendServer)
service_servers k s ingress_port [] servers = some servers
service_servers k s ingress_port (p ∷ ports) servers =
    let rest = service_servers k s ingress_port ports servers in
    if equal_ports p ingress_port then port_servers k s p servers else rest

-- What a path's service does to the templates; no result is an error of the client.
unfoldable pub use_service :
    Client → Text → IngressPath → Fetched Service → Templates → Option Templates
use_service k key p failed t = none
use_service k key p absent t = some (record t { frontends = delete key t.frontends })
use_service k key p (found s) t =
    let b = annotated s (backend_at key t) in
    elim (service_servers k s p.service_port s.ports b.servers) [
      | none ↦ none
      | some servers ↦
          some (record t { backends = insert key (record b { servers = servers }) t.backends })
    ]
