-- ===== src/Server/Examples.antt =====
-- Configurations and the throttle on concrete inputs (server/server.go).
use traefik_release.Base.{
  List, lookup, ◌≡◌, refl, All, Bool, true, false, Option, none, some, [], ◌∷◌, arith, Text, txt,
  Dict, insert,
}
use traefik_release.Server.Config.{
  Backend, Configuration, ConfigMessage, default_configuration_values,
}
use traefik_release.Server.Throttle.{
  Listener, new_listener, is_empty_configuration, accept, receive, wake, remove_timer, timer_at,
  round, shown, note, at_once, sent_on, Step, sending, received, start, Timer, test_timer, is_quiet,
  take_message, Reach, next, test, got,
}
use traefik_release.Server.Delivery.{IsGood, IsNews, filled}
use traefik_release.Server.Dropping.{Fits, sent_is_latest}
use traefik_release.Server.Lateness.{after, timer_of, delayed_then_sent, delayed_then_dropped}

abbrev plain : Backend
plain = record {
  servers = [];
  circuit_breaker = none;
  load_balancer = some (record { method = txt "best"; sticky = true });
  max_conn = none;
  health_check = none;
}

abbrev backends : Dict Backend
backends = (txt "b", plain) ∷ []

abbrev sent : Text → ConfigMessage
sent p = record {
  provider_name = p;
  configuration = some (record { backends = some backends; frontends = none });
}

abbrev never_equal : Option (Option Configuration) → Option Configuration → Bool
never_equal a b = false

news : (p : Text) → IsNews [] 2 never_equal [] (sent p)
unfolding default_configuration_values is_empty_configuration
news p = (refl, refl)

abbrev first : Listener
first = record {
  last_received = 10;
  last_configs = (txt "p", sent (txt "p")) ∷ [];
  timers = [];
  passed = [];
  taken = [];
}

first_step :
    receive [] 2 never_equal [] 9 10 (sent (txt "p")) new_listener ≡ (first, some (sent (txt "p")))
unfolding receive accept new_listener default_configuration_values is_empty_configuration insert
first_step = refl

first_accepted :
    (round [] 2 never_equal [] 9 10 (sent (txt "p")) new_listener
      ≡ (first, at_once (sent (txt "p"))))
    × (note [] 2 never_equal [] (sent (txt "p")) [] ≡ sent (txt "p") ∷ [])
unfolding round receive accept shown note new_listener default_configuration_values
    is_empty_configuration insert
first_accepted = (refl, refl)

-- A run: the first message is sent on at once, the second waits, and its goroutine passes its test.
abbrev one : Listener
one = (round [] 2 never_equal [] 9 10 (sent (txt "p")) new_listener).0

abbrev two : Listener
two = (round [] 2 never_equal [] 11 11 (sent (txt "q")) one).0

abbrev accepted : List ConfigMessage
accepted = note [] 2 never_equal [] (sent (txt "q")) (note [] 2 never_equal [] (sent (txt "p")) [])

abbrev waiting : Timer
waiting = record { provider = txt "q"; due = 13 }

abbrev tested : Listener
tested = test_timer [] 2 never_equal 14 0 waiting two

is_waiting : timer_at 0 two.timers ≡ some waiting
unfolding round receive accept timer_at default_configuration_values is_empty_configuration
    new_listener
is_waiting = refl

has_passed : timer_at 0 tested.passed ≡ some (txt "q")
unfolding round receive accept timer_at test_timer remove_timer is_quiet
    default_configuration_values is_empty_configuration new_listener
has_passed = refl

run : Reach [] 2 never_equal tested accepted
run =
    next
      (next (next start (received [] 10 (sent (txt "p")) (omega arith)))
        (received [] 11 (sent (txt "q")) (omega arith)))
      (test 0 waiting is_waiting (omega arith))

sent_is_latest_example :
    Fits [] 2 never_equal accepted
      (take_message [] 2 never_equal 0 tested (lookup (txt "q") tested.last_configs)).1
    × All (λ m. IsGood [] 2 never_equal m.provider_name m) accepted
sent_is_latest_example = sent_is_latest [] 2 never_equal {now = 14} run (got 0 (txt "q") has_passed)

-- A message that a goroutine has taken at the time 20, with another of its provider that comes in at
-- the time 21 and is sent on at once: the older one may still be sent behind it.
abbrev older : ConfigMessage
older = sent (txt "p")

abbrev newer : ConfigMessage
newer = record {
  provider_name = txt "p";
  configuration = some (record { backends = some []; frontends = none });
}

abbrev taking : Listener
taking = record first { taken = older ∷ [] }

abbrev after_newer : Listener
after_newer = (round [] 2 never_equal [] 21 21 newer taking).0

newer_is_sent : (round [] 2 never_equal [] 21 21 newer taking).1 ≡ at_once newer
unfolding round receive accept shown default_configuration_values is_empty_configuration
newer_is_sent = refl

older_is_sent_behind :
    Step [] 2 never_equal 22 after_newer
      (newer ∷ older ∷ [])
      (record after_newer { taken = [] })
      (newer ∷ older ∷ [])
      (sent_on older)
unfolding round receive accept shown default_configuration_values is_empty_configuration timer_at
    remove_timer
older_is_sent_behind = sending 0 older refl

delayed_then_sent_example :
    wake [] 2 never_equal 14
      (timer_of [] 2 never_equal (sent (txt "q")) 11)
      (after [] 2 never_equal [] 11 11 (sent (txt "q")) first)
    ≡ some (filled [] 2 never_equal (sent (txt "q")))
delayed_then_sent_example =
    delayed_then_sent [] 2 never_equal [] 11 11 14 (sent (txt "q")) first (news (txt "q"))
      (omega arith) (omega arith)

abbrev both : Listener
both =
    after [] 2 never_equal [] 12 12 (sent (txt "r"))
      (after [] 2 never_equal [] 11 11 (sent (txt "q")) first)

delayed_then_dropped_example :
    (timer_at 0 both.timers ≡ some (timer_of [] 2 never_equal (sent (txt "q")) 11))
    × (wake [] 2 never_equal 14 (timer_of [] 2 never_equal (sent (txt "q")) 11) both ≡ none)
    × (remove_timer 0 both.timers ≡ timer_of [] 2 never_equal (sent (txt "r")) 12 ∷ [])
delayed_then_dropped_example =
    delayed_then_dropped [] 2 never_equal [] [] 11 11 12 12 14 (sent (txt "q")) (sent (txt "r"))
      first (news (txt "q")) (news (txt "r")) refl (omega arith) (omega arith) (omega arith)
