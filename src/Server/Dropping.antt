-- ===== src/Server/Dropping.antt =====
-- server/server.go, listenProviders: which messages are sent on, delayed and dropped.
use traefik_release.Base.{
  zero, suc, if◌then◌else◌, eqt, eqt_refl, eqt_iff, All, All-mono, lookup-insert, ℕ, ◌+◌, ◌≤◌, ◌<◌,
  ◌≡◌, refl, sym, ap, ◌∙◌, ◌⊎◌, inl, inr, Bool, Option, none, some, List, [], ◌∷◌, ◌++◌, arith, ltb,
  Bool-cases, Text, Dict, lookup, lookup-insert_self,
}
use mathlib.Core.Path.{subst}
use mathlib.Core.List.{Memᴰ}
use traefik_release.Server.Config.{Configuration, ConfigMessage}
use traefik_release.Server.Throttle.{
  Timer, Listener, new_listener, accept, receive, remove_timer, timer_at, is_quiet, Event, silent,
  at_once, took, sent_on, shown, take_message, round, test_timer, Step, received, test, got,
  sending, Reach, start, next,
}
use traefik_release.Server.Delivery.{
  IsGood, IsNews, filled, receive_news, accept-configs, note_news, round_cases,
}

module _ (default : List Text) (throttle : ℕ)
    (deep_equal : Option (Option Configuration) → Option Configuration → Bool) where
  -- The last message of a provider.
  abbrev pub latest : Text → List ConfigMessage → Option ConfigMessage
  latest name [] = none
  latest name (m ∷ h) = if eqt m.provider_name name then some m else latest name h

  -- The state against the messages that were accepted: the last of each provider is kept, and what
  -- goroutines are about to send is among them.
  pub record Tracks (l : Listener) (h : List ConfigMessage) : Type 0 where
    pub kept : (name : Text) → lookup name l.last_configs ≡ latest name h
    pub good : All (λ m. IsGood default throttle deep_equal m.provider_name m) h
    pub taken : All (λ m. Memᴰ m h) l.taken

  latest-named :
      (name : Text) (h : List ConfigMessage) (m : ConfigMessage)
      → latest name h ≡ some m
      → (m.provider_name ≡ name) × Memᴰ m h
  latest-named name [] m e = cc
  latest-named name (k ∷ h) m e = elim (Bool-cases (eqt k.provider_name name)) [
    | inl same ↦
        let here : ◌≡◌ {A = Option ConfigMessage} (some k) (some m) = rw same at e in
        let eq : k ≡ m = cc (here) in
        (
          ap (λ (x : ConfigMessage). x.provider_name) (sym eq) ∙ (eqt_iff _ _).0 same,
          Memᴰ.head (sym eq),
        )
    | inr other ↦ let (named, i) = latest-named name h m (rw other at e) in (named, Memᴰ.tail i)
  ]

  All-remove_timer {κ} :
      {A : Type 0} (P : A → Type κ) (i : ℕ) (xs : List A) → All P xs → All P (remove_timer i xs)
  unfolding remove_timer
  All-remove_timer P i [] h = tt
  All-remove_timer P zero (x ∷ xs) h = h.1
  All-remove_timer P (suc i) (x ∷ xs) h = (h.0, All-remove_timer P i xs h.1)

  All-timer_at {κ} :
      {A : Type 0} (P : A → Type κ) (i : ℕ) (xs : List A) (x : A)
      → All P xs
      → timer_at i xs ≡ some x
      → P x
  unfolding timer_at
  All-timer_at P i [] x h e = cc
  All-timer_at P zero (y ∷ ys) x h e = subst P (cc (e)) h.0
  All-timer_at P (suc i) (y ∷ ys) x h e = All-timer_at P i ys x h.1 e

  accept-taken :
      (tested set : ℕ) (msg : ConfigMessage) (l : Listener)
      → (accept default throttle deep_equal tested set msg l).0.taken ≡ l.taken
  unfolding accept
  accept-taken tested set msg l = ground arith

  -- The message that is sent on at once is the one accepted.
  accept-out :
      (tested set : ℕ) (msg m : ConfigMessage) (l : Listener)
      → (accept default throttle deep_equal tested set msg l).1 ≡ some m
      → m ≡ msg
  unfolding accept
  accept-out tested set msg m l e = ground arith

  accept-Tracks :
      (tested set : ℕ) (msg : ConfigMessage) (l : Listener) (h : List ConfigMessage)
      → IsGood default throttle deep_equal msg.provider_name msg
      → Tracks l h
      → Tracks (accept default throttle deep_equal tested set msg l).0 (msg ∷ h)
  accept-Tracks tested set msg l h g t = record {
    kept = λ name.
        rw (accept-configs default throttle deep_equal tested set msg l)
          (lookup-insert msg.provider_name name msg l.last_configs ∙ rw (t.kept name));
    good = (g, t.good);
    taken =
        rw (accept-taken tested set msg l)
          (All-mono (λ m. Memᴰ m h) (λ m. Memᴰ m (msg ∷ h)) l.taken (λ m i. Memᴰ.tail i) t.taken);
  }

  -- What a step shows, of the accepted messages: one that is sent on at once or taken is the last of
  -- its provider, one that a goroutine sends on is one of them.
  abbrev pub Fits : List ConfigMessage → Event default throttle deep_equal → Type 0
  Fits h silent = Unit
  Fits h (at_once m) = latest m.provider_name h ≡ some m
  Fits h (took m) = latest m.provider_name h ≡ some m
  Fits h (sent_on m) = Memᴰ m h

  IsNews-IsGood :
      (current : Dict (Option Configuration)) (msg : ConfigMessage)
      → IsNews default throttle deep_equal current msg
      → IsGood default throttle deep_equal msg.provider_name
          (filled default throttle deep_equal msg)
  IsNews-IsGood current msg news = record {
    named = refl;
    full = news.0;
    defaulted = (msg.configuration, refl);
  }

  shown-Fits :
      (m : ConfigMessage) (h : List ConfigMessage) (out : Option ConfigMessage)
      → ((x : ConfigMessage) → out ≡ some x → x ≡ m)
      → Fits (m ∷ h) (shown default throttle deep_equal out)
  unfolding shown
  shown-Fits m h none f = tt
  shown-Fits m h (some x) f =
      subst (λ (y : ConfigMessage). latest y.provider_name (m ∷ h) ≡ some y) (sym (f x refl))
        (rw (eqt_refl m.provider_name))

  take_message-Tracks :
      (i : ℕ) (provider : Text) (l : Listener) (h : List ConfigMessage) (o : Option ConfigMessage)
      → Tracks l h
      → latest provider h ≡ o
      → Tracks (take_message default throttle deep_equal i l o).0 h
        × Fits h (take_message default throttle deep_equal i l o).1
  unfolding take_message
  take_message-Tracks i provider l h none t e =
      (record { kept = t.kept; good = t.good; taken = t.taken }, tt)
  take_message-Tracks i provider l h (some m) t e =
      let (named, member) = latest-named provider h m e in
      (
        record { kept = t.kept; good = t.good; taken = (member, t.taken) },
        subst (λ (k : Text). latest k h ≡ some m) (sym named) e,
      )

  test_timer-Tracks :
      (now i : ℕ) (w : Timer) (l : Listener) (h : List ConfigMessage)
      → Tracks l h
      → Tracks (test_timer default throttle deep_equal now i w l) h
  unfolding test_timer
  test_timer-Tracks now i w l h t = elim (Bool-cases (is_quiet default throttle deep_equal now l)) [
    | inl e ↦ rw e (record { kept = t.kept; good = t.good; taken = t.taken })
    | inr e ↦ rw e (record { kept = t.kept; good = t.good; taken = t.taken })
  ]

  Step-Tracks :
      {now : ℕ} {l l' : Listener} {h h' : List ConfigMessage}
      {e : Event default throttle deep_equal}
      → Step default throttle deep_equal now l h l' h' e
      → Tracks l h
      → Tracks l' h' × Fits h' e
  unfolding round shown
  Step-Tracks {now} {l} {h = h} (received current set msg late) t =
      elim (round_cases default throttle deep_equal current now set msg l h) [
        | inr (same, unnoted) ↦ rw (same, unnoted) (t, tt)
        | inl news ↦
            let m = filled default throttle deep_equal msg in
            rw
              (
                receive_news default throttle deep_equal current now set msg l news,
                note_news default throttle deep_equal current msg h news,
              )
              (
                accept-Tracks now set m l h (IsNews-IsGood current msg news) t,
                shown-Fits m h _ (λ x. accept-out now set m x l),
              )
      ]
  Step-Tracks {now} {l} {h = h} (test i w e due) t = (test_timer-Tracks now i w l h t, tt)
  Step-Tracks {now} {l} {h = h} (got i provider e) t =
      take_message-Tracks i provider l h (lookup provider l.last_configs) t (sym (t.kept provider))
  Step-Tracks {now} {l} {h = h} (sending i m e) t = (
    record {
      kept = t.kept;
      good = t.good;
      taken = All-remove_timer (λ x. Memᴰ x h) i l.taken t.taken;
    },
    All-timer_at (λ x. Memᴰ x h) i l.taken m t.taken e,
  )

  Reach-Tracks :
      {l : Listener} {h : List ConfigMessage} → Reach default throttle deep_equal l h → Tracks l h
  unfolding new_listener lookup
  Reach-Tracks start = record { kept = λ name. refl; good = tt; taken = tt }
  Reach-Tracks (next r s) = (Step-Tracks s (Reach-Tracks r)).0

  -- After any steps of the loop and of the goroutines, in any order: what the loop sends on at once
  -- and what a goroutine takes is the last message accepted from its provider up to then, what a
  -- goroutine sends on is one that was accepted, and every message accepted has its defaults filled
  -- in and is not empty.
  pub sent_is_latest :
      {now : ℕ} {l l' : Listener} {h h' : List ConfigMessage}
      {e : Event default throttle deep_equal}
      → Reach default throttle deep_equal l h
      → Step default throttle deep_equal now l h l' h' e
      → Fits h' e × All (λ m. IsGood default throttle deep_equal m.provider_name m) h'
  sent_is_latest r s = let t = Step-Tracks s (Reach-Tracks r) in (t.1, t.0.good)

  module _ (current : Dict (Option Configuration)) (tested set : ℕ) (msg : ConfigMessage)
      (l : Listener) (news : IsNews default throttle deep_equal current msg) where
    -- A message that is not skipped is sent on at once exactly if nothing was accepted in the
    -- throttle duration before it; otherwise one more timer waits.
    pub receive_accepted :
        let (l', out) = receive default throttle deep_equal current tested set msg l in
        (l'.last_received ≡ set)
        × (lookup msg.provider_name l'.last_configs ≡ some (filled default throttle deep_equal msg))
        × (((l.last_received + throttle < tested)
              × (out ≡ some (filled default throttle deep_equal msg))
              × (l'.timers ≡ l.timers))
            ⊎ ((tested ≤ l.last_received + throttle)
                × (out ≡ none)
                × (l'.timers
                    ≡ l.timers
                      ++ record { provider = msg.provider_name; due = tested + throttle } ∷ [])))
    receive_accepted = rw (receive_news default throttle deep_equal current tested set msg l news) (
        unfold accept in
        elim (Bool-cases (ltb (l.last_received + throttle) tested)) [
          | inl now ↦ rw now (
            refl,
            lookup-insert_self msg.provider_name _ l.last_configs,
            inl (ground arith, refl, refl),
          )
          | inr later ↦ rw later (
            refl,
            lookup-insert_self msg.provider_name _ l.last_configs,
            inr (ground arith, refl, refl),
          )
        ])
