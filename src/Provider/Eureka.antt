-- ===== src/Provider/Eureka.antt =====
-- provider/eureka/eureka.go: the functions that the template calls, and buildConfiguration.
use traefik_release.Base.{
  Bool, true, false, not, ◌&&◌, Option, none, some, List, [], ◌∷◌, ◌++◌, if◌then◌else◌, Text, txt,
  is_empty, Dict, lookup,
}
use traefik_release.Server.Config.{Configuration}
use traefik_release.Provider.Labels.{or_else, dashed}
use traefik_release.Provider.Numbers.{ℤ, itoa_int}
use traefik_release.Provider.Rendering.{Engine, get_configuration}

-- What the provider reads of eureka.InstanceInfo.
pub record InstanceInfo : Type 0 where
  pub ip_addr : Text
  pub port : ℤ
  pub secure_port : ℤ
  pub secure_port_enabled : Bool
  pub metadata : Dict Text

unfoldable pub get_port : InstanceInfo → Text
get_port i = if i.secure_port_enabled then itoa_int i.secure_port else itoa_int i.port

unfoldable pub get_protocol : InstanceInfo → Text
get_protocol i = if i.secure_port_enabled then txt "https" else txt "http"

unfoldable pub get_weight : InstanceInfo → Text
get_weight i = or_else (lookup (txt "traefik.weight") i.metadata) (txt "0")

unfoldable pub get_instance_id : InstanceInfo → Text
get_instance_id i =
    or_else (lookup (txt "traefik.backend.id") i.metadata)
      (dashed b'.' i.ip_addr ++ (b'-' ∷ get_port i))

-- buildConfiguration: an error where the applications cannot be had; the inner result may be nil, and
-- that is no error. The applications are instances under a name.
unfoldable pub build_configuration :
    Engine (Dict (List InstanceInfo))
    → Text
    → Option (Dict (List InstanceInfo))
    → Option (Option Configuration)
build_configuration e filename none = none
build_configuration e filename (some applications) =
    some (get_configuration e filename (txt "templates/eureka.tmpl") applications)

-- Provide: the goroutine of the ticker ends at the first error.
unfoldable pub refresh :
    Engine (Dict (List InstanceInfo))
    → Text
    → List (Option (Dict (List InstanceInfo)))
    → List (Option Configuration)
refresh e filename [] = []
refresh e filename (applications ∷ ticks) = elim (build_configuration e filename applications) [
  | none ↦ []
  | some c ↦ c ∷ refresh e filename ticks
]

-- One run of the operation: what is sent, and whether it fails. `parsed` is whether a delay that is
-- set can be read; the first configuration is sent before that.
unfoldable pub provide_once :
    Engine (Dict (List InstanceInfo))
    → Text
    → Text
    → Bool
    → Option (Dict (List InstanceInfo))
    → List (Option (Dict (List InstanceInfo)))
    → List (Option Configuration) × Bool
provide_once e filename delay parsed applications ticks =
    elim (build_configuration e filename applications) [
      | none ↦ ([], true)
      | some c ↦
          if not (is_empty delay) && not parsed
          then (c ∷ [], true)
          else (c ∷ refresh e filename ticks, false)
    ]
