-- ===== src/Provider/Kv/Loading.antt =====
-- provider/kv/kv.go: loadConfig, which removes the frontends without a backend, and one run of the
-- operations of Provide and of watchKv.
use traefik_release.Base.{
  Bool, true, false, not, Option, none, some, List, [], ◌∷◌, if◌then◌else◌, Text, txt, trim_suffix,
  Dict, lookup, delete,
}
use traefik_release.Server.Config.{Backend, Frontend, Configuration}
use traefik_release.Provider.Labels.{is_some}
use traefik_release.Provider.Picking.{Picked, picked, refused, panicked}
use traefik_release.Provider.Rendering.{Engine, get_configuration}
use traefik_release.Provider.Kv.{Kv, Store}
use traefik_release.Provider.Kv.Values.{get}

abbrev pub or_empty {ℓ} : {V : Type ℓ} → Option (Dict V) → Dict V
or_empty none = []
or_empty (some m) = m

-- The loop over the frontends; a map may lose keys while it is gone through.
unfoldable pub remove_frontends : Dict Backend → Dict Frontend → Dict Frontend → Dict Frontend
remove_frontends backends [] frontends = frontends
remove_frontends backends ((key, f) ∷ rest) frontends =
    remove_frontends backends rest
      (if is_some (lookup f.backend backends) then frontends else delete key frontends)

unfoldable pub cleaned : Configuration → Configuration
cleaned c = record c {
  frontends = elim c.frontends [
    | none ↦ none
    | some frontends ↦ some (remove_frontends (or_empty c.backends) frontends frontends)
  ];
}

-- A configuration that is nil is read, which panics.
unfoldable pub clean : Option Configuration → Picked Configuration
clean none = panicked
clean (some c) = picked (cleaned c)

-- The prefix that the template sees: the alias may supersede the provider's.
unfoldable pub alias : Kv → Store → Text
alias p s = trim_suffix (get s p.prefix (p.prefix ∷ txt "/alias" ∷ [])) (txt "/")

-- loadConfig; the objects are the prefix with the store.
unfoldable pub load_config : Kv → Engine (Text × Store) → Text → Store → Picked Configuration
load_config p e filename s =
    clean (get_configuration e filename (txt "templates/kv.tmpl") (alias p s, s))

-- What is sent, and whether the operation ends in an error; a panic is one by OperationWithRecover.
pub record KvRun : Type 0 where
  pub sent : List Configuration
  pub failed : Bool

unfoldable pub sent_or_failed : Picked Configuration → KvRun → KvRun
sent_or_failed (picked c) later = record later { sent = c ∷ later.sent }
sent_or_failed refused later = later
sent_or_failed panicked later = record { sent = []; failed = true }

-- watchKv: an event comes with the store at that time. The channel of events closes, which is an
-- error, or the pool stops.
unfoldable pub watch_events : Kv → Engine (Text × Store) → Text → Bool → List Store → KvRun
watch_events p e filename stopped [] = record { sent = []; failed = not stopped }
watch_events p e filename stopped (s ∷ events) =
    sent_or_failed (load_config p e filename s) (watch_events p e filename stopped events)

-- Provide: the first load, if the store answers.
unfoldable pub provide_once : Kv → Engine (Text × Store) → Text → Bool → Store → KvRun
provide_once p e filename answers s =
    if answers
    then sent_or_failed (load_config p e filename s) (record { sent = []; failed = false })
    else record { sent = []; failed = true }
