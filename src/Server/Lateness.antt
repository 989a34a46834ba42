-- ===== src/Server/Lateness.antt =====
-- server/server.go, listenProviders: the fate of a message that comes within the throttle duration.
use traefik_release.Base.{
  ℕ, ◌+◌, ◌≤◌, ◌<◌, ◌≡◌, inl, inr, Bool, Option, none, some, List, [], ◌∷◌, ◌++◌, arith, Text, Dict,
  lookup,
}
use traefik_release.Server.Config.{Configuration, ConfigMessage}
use traefik_release.Server.Throttle.{
  Timer, Listener, receive, is_quiet, wake, remove_timer, timer_at,
}
use traefik_release.Server.Delivery.{IsNews, filled}
use traefik_release.Server.Dropping.{receive_accepted}

module _ (default : List Text) (throttle : ℕ)
    (deep_equal : Option (Option Configuration) → Option Configuration → Bool) where
  -- The listener behind a message.
  abbrev pub after : Dict (Option Configuration) → ℕ → ℕ → ConfigMessage → Listener → Listener
  after current tested set msg l = (receive default throttle deep_equal current tested set msg l).0

  abbrev pub timer_of : ConfigMessage → ℕ → Timer
  timer_of msg tested = record { provider = msg.provider_name; due = tested + throttle }

  delayed :
      (current : Dict (Option Configuration)) (tested set : ℕ) (msg : ConfigMessage) (l : Listener)
      → IsNews default throttle deep_equal current msg
      → tested ≤ l.last_received + throttle
      → ((after current tested set msg l).last_received ≡ set)
        × (lookup msg.provider_name (after current tested set msg l).last_configs
            ≡ some (filled default throttle deep_equal msg))
        × ((after current tested set msg l).timers ≡ l.timers ++ timer_of msg tested ∷ [])
  delayed current tested set msg l news soon =
      let (at, stored, either) =
        receive_accepted default throttle deep_equal current tested set msg l news in
      (at, stored, elim either [ inl x ↦ absurd (omega arith) | inr x ↦ x.2 ])

  -- A delayed message is what its goroutine takes to send on, if it wakes more than the throttle
  -- duration after the round that accepted the message and nothing else is accepted before its Get.
  pub delayed_then_sent :
      (current : Dict (Option Configuration)) (tested set now : ℕ) (msg : ConfigMessage)
      (l : Listener)
      → IsNews default throttle deep_equal current msg
      → tested ≤ l.last_received + throttle
      → set + throttle < now
      → wake default throttle deep_equal now (timer_of msg tested) (after current tested set msg l)
        ≡ some (filled default throttle deep_equal msg)
  unfolding wake is_quiet
  delayed_then_sent current tested set now msg l news soon late =
      let (at, stored, _) = delayed current tested set msg l news soon in
      rw (at, stored) (ground arith)

  -- If no goroutine waits, a message that is delayed is dropped if another message is accepted within
  -- the throttle duration of it, and its goroutine wakes no later than the throttle duration after
  -- that round: it is the goroutine that waits first, it sends nothing, and the one that is left waits
  -- for the other message's provider.
  pub delayed_then_dropped :
      (cur₁ cur₂ : Dict (Option Configuration)) (t₁ s₁ t₂ s₂ now : ℕ) (a b : ConfigMessage)
      (l : Listener)
      → IsNews default throttle deep_equal cur₁ a
      → IsNews default throttle deep_equal cur₂ b
      → l.timers ≡ []
      → t₁ ≤ l.last_received + throttle
      → t₂ ≤ s₁ + throttle
      → now ≤ s₂ + throttle
      → (timer_at 0 (after cur₂ t₂ s₂ b (after cur₁ t₁ s₁ a l)).timers ≡ some (timer_of a t₁))
        × (wake default throttle deep_equal now
              (timer_of a t₁)
              (after cur₂ t₂ s₂ b (after cur₁ t₁ s₁ a l))
            ≡ none)
        × (remove_timer 0 (after cur₂ t₂ s₂ b (after cur₁ t₁ s₁ a l)).timers ≡ timer_of b t₂ ∷ [])
  unfolding wake is_quiet timer_at remove_timer
  delayed_then_dropped cur₁ cur₂ t₁ s₁ t₂ s₂ now a b l na nb empty soon₁ soon₂ early =
      let (at₁, _, timers₁) = delayed cur₁ t₁ s₁ a l na soon₁ in
      let (at₂, _, timers₂) = delayed cur₂ t₂ s₂ b (after cur₁ t₁ s₁ a l) nb (rw at₁ soon₂) in
      (rw (timers₂, timers₁, empty), rw at₂ (ground arith), rw (timers₂, timers₁, empty))
