-- ===== src/Provider/Docker/Listing.antt =====
-- provider/docker/docker.go: from what the engine tells of containers.
use traefik_release.Base.{Option, none, some, List, [], ◌∷◌, Text, Dict}
use traefik_release.Provider.Docker.{NetworkData, PortBinding, NetworkSettings, DockerData}

-- What the provider reads of the engine's answers; a pointer that may be nil is an option.
pub record ContainerBase : Type 0 where
  pub name : Text
  pub network_mode : Option Text
  pub health : Option Text

pub record EndpointSettings : Type 0 where
  pub network_id : Text
  pub ip_address : Text

pub record ContainerSettings : Type 0 where
  pub ports : Dict (List PortBinding)
  pub networks : Dict EndpointSettings

pub record ContainerJson : Type 0 where
  pub base : Option ContainerBase
  pub labels : Option (Dict Text)
  pub settings : Option ContainerSettings

abbrev pub text_or_nil : Option Text → Text
text_or_nil none = []
text_or_nil (some s) = s

unfoldable pub base_name : Option ContainerBase → Text
base_name none = []
base_name (some b) = b.name

unfoldable pub base_mode : Option ContainerBase → Text
base_mode none = []
base_mode (some b) = text_or_nil b.network_mode

unfoldable pub base_health : Option ContainerBase → Text
base_health none = []
base_health (some b) = text_or_nil b.health

abbrev pub labels_or_nil : Option (Dict Text) → Dict Text
labels_or_nil none = []
labels_or_nil (some labels) = labels

abbrev pub network_of : Text → EndpointSettings → NetworkData
network_of name e = record {
  name = name;
  addr = e.ip_address;
  port = 0;
  protocol = [];
  id = e.network_id;
}

unfoldable pub networks_of : Dict EndpointSettings → Dict NetworkData
networks_of [] = []
networks_of ((name, e) ∷ networks) = (name, network_of name e) ∷ networks_of networks

unfoldable pub settings_of : Text → Option ContainerSettings → NetworkSettings
settings_of mode none = record { network_mode = mode; ports = []; networks = [] }
settings_of mode (some s) = record {
  network_mode = mode;
  ports = s.ports;
  networks = networks_of s.networks;
}

-- parseContainer
unfoldable pub parse_container : ContainerJson → DockerData
parse_container c = record {
  service_name = base_name c.base;
  name = base_name c.base;
  labels = labels_or_nil c.labels;
  network_settings = settings_of (base_mode c.base) c.settings;
  health = base_health c.base;
}

-- listContainers: a container that cannot be inspected is left out.
unfoldable pub inspect_all : (Text → Option ContainerJson) → List Text → List DockerData
inspect_all inspect [] = []
inspect_all inspect (id ∷ ids) = elim (inspect id) [
  | none ↦ inspect_all inspect ids
  | some c ↦ parse_container c ∷ inspect_all inspect ids
]

unfoldable pub list_containers :
    Option (List Text) → (Text → Option ContainerJson) → Option (List DockerData)
list_containers none inspect = none
list_containers (some ids) inspect = some (inspect_all inspect ids)
