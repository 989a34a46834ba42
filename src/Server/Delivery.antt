-- ===== src/Server/Delivery.antt =====
-- server/server.go, listenProviders: what reaches the validated configurations.
use traefik_release.Base.{
  ◌∷◌, ℕ, ◌≡◌, ◌⊎◌, Bool, false, Option, none, List, arith, Text, Dict, lookup, insert,
}
use traefik_release.Server.Config.{Configuration, ConfigMessage, default_configuration_values}
use traefik_release.Server.Throttle.{Listener, is_empty_configuration, accept, receive, note}

module _ (default : List Text) (throttle : ℕ)
    (deep_equal : Option (Option Configuration) → Option Configuration → Bool) where
  -- What is stored under a name is a message of that provider, neither empty nor without defaults.
  pub record IsGood (name : Text) (m : ConfigMessage) : Type 0 where
    pub named : m.provider_name ≡ name
    pub full : is_empty_configuration m.configuration ≡ false
    pub defaulted :
        (c : Option Configuration) × (m.configuration ≡ default_configuration_values default c)

  pub accept-configs :
      (tested set : ℕ) (msg : ConfigMessage) (l : Listener)
      → (accept default throttle deep_equal tested set msg l).0.last_configs
        ≡ insert msg.provider_name msg l.last_configs
  unfolding accept
  accept-configs tested set msg l = ground arith

  -- A message that the loop does not skip.
  abbrev pub IsNews : Dict (Option Configuration) → ConfigMessage → Type 0
  IsNews current msg =
      (is_empty_configuration (default_configuration_values default msg.configuration) ≡ false)
      × (deep_equal (lookup msg.provider_name current)
            (default_configuration_values default msg.configuration)
          ≡ false)

  -- The message with the defaults filled in.
  abbrev pub filled : ConfigMessage → ConfigMessage
  filled msg = record msg { configuration = default_configuration_values default msg.configuration }

  pub receive_news :
      (current : Dict (Option Configuration)) (tested set : ℕ) (msg : ConfigMessage) (l : Listener)
      → IsNews current msg
      → receive default throttle deep_equal current tested set msg l
        ≡ accept default throttle deep_equal tested set (filled msg) l
  unfolding receive
  receive_news current tested set msg l h = rw (h.0, h.1)

  pub receive-cases :
      (current : Dict (Option Configuration)) (tested set : ℕ) (msg : ConfigMessage) (l : Listener)
      → IsNews current msg
        ⊎ (receive default throttle deep_equal current tested set msg l ≡ (l, none))
  unfolding receive
  receive-cases current tested set msg l = ground arith

  -- What is noted of a message.
  pub note_news :
      (current : Dict (Option Configuration)) (msg : ConfigMessage) (h : List ConfigMessage)
      → IsNews current msg
      → note default throttle deep_equal current msg h ≡ filled msg ∷ h
  unfolding note
  note_news current msg h n = rw (n.0, n.1)

  -- A message is news, or it changes nothing.
  pub round_cases :
      (current : Dict (Option Configuration)) (tested set : ℕ) (msg : ConfigMessage) (l : Listener)
      (h : List ConfigMessage)
      → IsNews current msg
        ⊎ ((receive default throttle deep_equal current tested set msg l ≡ (l, none))
            × (note default throttle deep_equal current msg h ≡ h))
  unfolding receive note
  round_cases current tested set msg l h = ground arith
