-- ===== src/Server/Throttle.antt =====
-- server/server.go, listenProviders: throttling of the configurations that providers send. A timer
-- is a goroutine that waits for the throttle duration; times are numbers. When it has waited, its
-- test, its Get and its send are steps of their own, since nothing is locked between them.
use traefik_release.Base.{
  ℕ, zero, suc, ◌+◌, ◌≤◌, ◌≡◌, Bool, true, false, Option, none, some, List, [], ◌∷◌, ◌++◌, ltb,
  if◌then◌else◌, Text, Dict, lookup, insert,
}
use traefik_release.Server.Config.{Configuration, ConfigMessage, default_configuration_values}

-- A waiting goroutine: the provider that it waits for, and the time before which it does not wake.
pub record Timer : Type 0 where
  pub provider : Text
  pub due : ℕ

-- The variables of listenProviders, and the goroutines that it has started: those that wait, the
-- providers of those whose test has passed, and the messages of those that are about to send.
pub record Listener : Type 0 where
  pub last_received : ℕ
  pub last_configs : Dict ConfigMessage
  pub timers : List Timer
  pub passed : List Text
  pub taken : List ConfigMessage

unfoldable pub new_listener : Listener
new_listener = record { last_received = 0; last_configs = []; timers = []; passed = []; taken = [] }

-- `configMsg.Configuration == nil || Backends == nil && Frontends == nil`
unfoldable pub is_empty_configuration : Option Configuration → Bool
is_empty_configuration none = true
is_empty_configuration (some c) = elim c.backends [
  | none ↦ elim c.frontends [ none ↦ true | some _ ↦ false ]
  | some _ ↦ false
]

module _ {A : Type 0} where
  unfoldable pub remove_timer : ℕ → List A → List A
  remove_timer i [] = []
  remove_timer zero (t ∷ ts) = ts
  remove_timer (suc i) (t ∷ ts) = t ∷ remove_timer i ts

  unfoldable pub timer_at : ℕ → List A → Option A
  timer_at i [] = none
  timer_at zero (t ∷ ts) = some t
  timer_at (suc i) (t ∷ ts) = timer_at i ts

module _ (default : List Text) (throttle : ℕ)
    (deep_equal : Option (Option Configuration) → Option Configuration → Bool) where
  -- A message that is neither empty nor the configuration that is in force. `tested` and `set` are
  -- the times of the test and at the end of the round.
  unfoldable pub accept : ℕ → ℕ → ConfigMessage → Listener → Listener × Option ConfigMessage
  accept tested set msg l =
      let stored = record l { last_configs = insert msg.provider_name msg l.last_configs } in
      if ltb (l.last_received + throttle) tested
      then (record stored { last_received = set }, some msg)
      else (
        record stored {
          last_received = set;
          timers =
              l.timers ++ record { provider = msg.provider_name; due = tested + throttle } ∷ [];
        },
        none,
      )

  -- One message of configurationChan; `current` are the configurations in force.
  unfoldable pub receive :
      Dict (Option Configuration)
      → ℕ
      → ℕ
      → ConfigMessage
      → Listener
      → Listener × Option ConfigMessage
  receive current tested set sent l =
      let c = default_configuration_values default sent.configuration in
      let msg = record sent { configuration = c } in
      if is_empty_configuration c
      then (l, none)
      else if deep_equal (lookup msg.provider_name current) c
      then (l, none)
      else accept tested set msg l

  -- The test of a goroutine that has waited: nothing came in for the throttle duration.
  unfoldable pub is_quiet : ℕ → Listener → Bool
  is_quiet now l = ltb (l.last_received + throttle) now

  -- What a goroutine takes that is not interrupted between its test and its Get.
  unfoldable pub wake : ℕ → Timer → Listener → Option ConfigMessage
  wake now t l = if is_quiet now l then lookup t.provider l.last_configs else none

  -- What a step shows: nothing, a message that the loop sends on at once, one that a goroutine
  -- takes, or one that a goroutine sends on.
  pub data Event : Type 0 where
    silent : Event
    at_once took sent_on : ConfigMessage → Event

  unfoldable pub shown : Option ConfigMessage → Event
  shown none = silent
  shown (some m) = at_once m

  -- The state behind a Get: the message that there is under the provider's name is taken.
  unfoldable pub take_message : ℕ → Listener → Option ConfigMessage → Listener × Event
  take_message i l none = (record l { passed = remove_timer i l.passed }, silent)
  take_message i l (some m) =
      (record l { passed = remove_timer i l.passed; taken = m ∷ l.taken }, took m)

  -- A round of the loop, and what is seen of it.
  unfoldable pub round :
      Dict (Option Configuration) → ℕ → ℕ → ConfigMessage → Listener → Listener × Event
  round current tested set sent l =
      let (l', out) = receive current tested set sent l in (l', shown out)

  -- The state behind the test of the waiting goroutine `i`.
  unfoldable pub test_timer : ℕ → ℕ → Timer → Listener → Listener
  test_timer now i t l =
      let left = record l { timers = remove_timer i l.timers } in
      if is_quiet now l then record left { passed = t.provider ∷ l.passed } else left

  -- The messages that the loop does not skip, the last first: what providers have sent, whatever
  -- the loop keeps of it.
  unfoldable pub note :
      Dict (Option Configuration) → ConfigMessage → List ConfigMessage → List ConfigMessage
  note current sent h =
      let c = default_configuration_values default sent.configuration in
      if is_empty_configuration c
      then h
      else if deep_equal (lookup sent.provider_name current) c
      then h
      else record sent { configuration = c } ∷ h

  -- The steps at a time, with the messages accepted before and behind them, and what they show. The
  -- configurations in force are the environment's.
  pub data Step
      : ℕ → Listener → List ConfigMessage → Listener → List ConfigMessage → Event → Type 0 where
    received :
        {now : ℕ} {l : Listener} {h : List ConfigMessage} (current : Dict (Option Configuration))
        (set : ℕ) (msg : ConfigMessage)
        → now ≤ set
        → Step now l h
            (round current now set msg l).0
            (note current msg h)
            (round current now set msg l).1
    test :
        {now : ℕ} {l : Listener} {h : List ConfigMessage} (i : ℕ) (t : Timer)
        → timer_at i l.timers ≡ some t
        → t.due ≤ now
        → Step now l h (test_timer now i t l) h silent
    got :
        {now : ℕ} {l : Listener} {h : List ConfigMessage} (i : ℕ) (provider : Text)
        → timer_at i l.passed ≡ some provider
        → Step now l h
            (take_message i l (lookup provider l.last_configs)).0
            h
            (take_message i l (lookup provider l.last_configs)).1
    sending :
        {now : ℕ} {l : Listener} {h : List ConfigMessage} (i : ℕ) (m : ConfigMessage)
        → timer_at i l.taken ≡ some m
        → Step now l h (record l { taken = remove_timer i l.taken }) h (sent_on m)

  -- Reachable states, with the messages accepted so far.
  pub data Reach : Listener → List ConfigMessage → Type 0 where
    start : Reach new_listener []
    next :
        {now : ℕ} {l l' : Listener} {h h' : List ConfigMessage} {e : Event}
        → Reach l h
        → Step now l h l' h' e
        → Reach l' h'
