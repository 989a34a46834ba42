-- ===== src/Health/Routines.antt =====
-- healthcheck/healthcheck.go: the life of the goroutines, and what a recovery does to weights.
use traefik_release.Base.{
  ℕ, suc, ◌<◌, ◌≡◌, refl, ap, ◌∙◌, ◌⊎◌, inl, inr, Bool, true, false, not, Option, none, some, List,
  [], ◌∷◌, ◌++◌, map, arith, ltb, ◌==◌, Bool-cases, keep, any, All, All-append, Text, eqt, eqt_refl,
  eqt_iff, Dict, keys,
}
use native.Mathlib.Numerals.{add-one}
use traefik_release.Health.Checks.{
  Balancer, Checker, new_health_check, start_routines, cancel_old, set_backends_configuration, live,
  set_all, check_disabled,
}

-- Every context that a goroutine runs under is one that was made, and all but the newest are
-- cancelled.
record IsValid {B : Type 0} (hc : Checker B) : Type 0 where
  made : All (λ r. r.0 < hc.contexts) hc.routines
  old : (c : ℕ) → c < hc.contexts → (any (λ d. d == c) hc.cancelled ≡ true) ⊎ (hc.cancel ≡ some c)
  bounded : All (λ c. c < hc.contexts) hc.cancelled
  newest : (c : ℕ) → hc.cancel ≡ some c → c < hc.contexts

new_health_check-IsValid : (B : Type 0) → IsValid (new_health_check B)
unfolding new_health_check
new_health_check-IsValid B = record {
  made = tt;
  old = λ c h. absurd (omega arith);
  bounded = tt;
  newest = λ c h. cc;
}

start_routines-made :
    {B : Type 0} (n : ℕ) (bs : Dict B) → All (λ r. r.0 < suc n) (start_routines n bs)
unfolding start_routines
start_routines-made n [] = tt
start_routines-made n ((id, b) ∷ bs) = (omega arith, start_routines-made n bs)

All-weaken : (n : ℕ) (rs : List (ℕ × Text)) → All (λ r. r.0 < n) rs → All (λ r. r.0 < suc n) rs
All-weaken n [] h = tt
All-weaken n (r ∷ rs) (p, h) = (omega arith, All-weaken n rs h)

All-weaken_numbers : (n : ℕ) (cs : List ℕ) → All (λ c. c < n) cs → All (λ c. c < suc n) cs
All-weaken_numbers n [] h = tt
All-weaken_numbers n (c ∷ cs) (p, h) = (omega arith, All-weaken_numbers n cs h)

is_cancelled : ℕ → List ℕ → Bool
is_cancelled c cs = any (λ d. d == c) cs

cancel_old-keeps :
    (o : Option ℕ) (cs : List ℕ) (c : ℕ)
    → is_cancelled c cs ≡ true
    → is_cancelled c (cancel_old o cs) ≡ true
unfolding is_cancelled any
cancel_old-keeps none cs c h = h
cancel_old-keeps (some d) cs c h = ground arith

cancel_old-cancels : (c : ℕ) (cs : List ℕ) → is_cancelled c (cancel_old (some c) cs) ≡ true
unfolding is_cancelled any
cancel_old-cancels c cs = ground arith

cancel_old-bounded :
    (n : ℕ) (o : Option ℕ) (cs : List ℕ)
    → ((c : ℕ) → o ≡ some c → c < n)
    → All (λ c. c < n) cs
    → All (λ c. c < suc n) (cancel_old o cs)
cancel_old-bounded n none cs h k = All-weaken_numbers n cs k
cancel_old-bounded n (some d) cs h k = (omega (arith, h d refl), All-weaken_numbers n cs k)

module _ {B : Type 0} (bs : Dict B) (hc : Checker B) (v : IsValid hc) where
  old_cancelled :
      (c : ℕ) → c < hc.contexts → is_cancelled c (cancel_old hc.cancel hc.cancelled) ≡ true
  unfolding is_cancelled
  old_cancelled c h = elim (v.old c h) [
    | inl e ↦ cancel_old-keeps hc.cancel hc.cancelled c e
    | inr e ↦ rw e (cancel_old-cancels c hc.cancelled)
  ]

  set-IsValid : IsValid (set_backends_configuration bs hc)
  unfolding set_backends_configuration is_cancelled
  set-IsValid = record {
    made = rw add-one (
        All-append (λ r. r.0 < suc hc.contexts) hc.routines _
          (All-weaken hc.contexts hc.routines v.made) (start_routines-made hc.contexts bs));
    old = λ c h. elim (Bool-cases (ltb c hc.contexts)) [
      | inl e ↦ inl (old_cancelled c (ground arith))
      | inr e ↦ inr (ground arith)
    ];
    bounded = rw add-one (cancel_old-bounded hc.contexts hc.cancel hc.cancelled v.newest v.bounded);
    newest = λ c h. ground arith;
  }

not-cancelled : (n : ℕ) (cs : List ℕ) → All (λ c. c < n) cs → is_cancelled n cs ≡ false
unfolding is_cancelled any
not-cancelled n [] h = refl
not-cancelled n (c ∷ cs) (p, h) = ground (arith, not-cancelled n cs h)

keep-none :
    (cs : List ℕ) (n : ℕ) (rs : List (ℕ × Text))
    → ((c : ℕ) → c < n → is_cancelled c cs ≡ true)
    → All (λ r. r.0 < n) rs
    → keep (λ r. not (any (λ c. c == r.0) cs)) rs ≡ []
unfolding keep is_cancelled
keep-none cs n [] h k = refl
keep-none cs n ((c, id) ∷ rs) h (p, k) = rw (h c p) (keep-none cs n rs h k)

keep-started :
    (cs : List ℕ) (n : ℕ) {B : Type 0} (bs : Dict B)
    → is_cancelled n cs ≡ false
    → keep (λ r. not (any (λ c. c == r.0) cs)) (start_routines n bs) ≡ start_routines n bs
unfolding keep is_cancelled start_routines
keep-started cs n [] h = refl
keep-started cs n ((id, b) ∷ bs) h = rw h (ap (λ r. (n, id) ∷ r) (keep-started cs n bs h))

keep-append :
    (p : ℕ × Text → Bool) (xs ys : List (ℕ × Text)) → keep p (xs ++ ys) ≡ keep p xs ++ keep p ys
unfolding keep
keep-append p [] ys = refl
keep-append p (x ∷ xs) ys = elim (Bool-cases (p x)) [
  | inl e ↦ rw e (ap (λ r. x ∷ r) (keep-append p xs ys))
  | inr e ↦ rw e (keep-append p xs ys)
]

cancel_old-below :
    (n : ℕ) (o : Option ℕ) (cs : List ℕ)
    → ((c : ℕ) → o ≡ some c → c < n)
    → All (λ c. c < n) cs
    → All (λ c. c < n) (cancel_old o cs)
cancel_old-below n none cs h k = k
cancel_old-below n (some d) cs h k = (h d refl, k)

live-set :
    {B : Type 0} (bs : Dict B) (hc : Checker B)
    → IsValid hc
    → live (set_backends_configuration bs hc) ≡ start_routines hc.contexts bs
unfolding set_backends_configuration
live-set bs hc v =
    let cs = cancel_old hc.cancel hc.cancelled in
    keep-append _ hc.routines (start_routines hc.contexts bs)
    ∙ ap (λ r. r ++ keep (λ r. not (any (λ c. c == r.0) cs)) (start_routines hc.contexts bs))
        (keep-none cs hc.contexts hc.routines (old_cancelled bs hc v) v.made)
    ∙ keep-started cs hc.contexts bs (
        not-cancelled hc.contexts cs
          (cancel_old-below hc.contexts hc.cancel hc.cancelled v.newest v.bounded))

set_all-IsValid :
    {B : Type 0} (history : List (Dict B)) (hc : Checker B)
    → IsValid hc
    → IsValid (set_all history hc)
unfolding set_all
set_all-IsValid [] hc v = v
set_all-IsValid (bs ∷ more) hc v = set_all-IsValid more _ (set-IsValid bs hc v)

ids_started : {B : Type 0} (n : ℕ) (bs : Dict B) → map (λ r. r.1) (start_routines n bs) ≡ keys bs
unfolding start_routines
ids_started n [] = refl
ids_started n ((id, b) ∷ bs) = ap (λ r. id ∷ r) (ids_started n bs)

-- After any number of configurations the goroutines that are not cancelled are those of the last
-- one, one for each of its backends.
pub live_after_set :
    {B : Type 0} (history : List (Dict B)) (bs : Dict B)
    → map (λ r. r.1) (live (set_backends_configuration bs (set_all history (new_health_check B))))
      ≡ keys bs
live_after_set {B} history bs =
    let hc = set_all history (new_health_check B) in
    ap (map (λ r. r.1)) (live-set bs hc (set_all-IsValid history _ (new_health_check-IsValid B)))
    ∙ ids_started hc.contexts bs

module _ (b : Balancer) (health : Text → Bool) where
  open b use {State, weight}

  weight_kept :
      (us still : List Text) (s : State) (u : Text)
      → any (eqt u) us ≡ false
      → weight (check_disabled b health us still s).0 u ≡ weight s u
  unfolding check_disabled any
  weight_kept [] still s u h = refl
  weight_kept (v ∷ us) still s u h = ground (
    arith,
    weight_kept us still (b.upsert_server v 1 s) u,
    weight_kept us (still ++ v ∷ []) s u,
    b.weight-upsert v u 1 s,
    eqt_iff u v,
    eqt_iff v u,
  )

  -- A disabled server that is found healthy goes back with the weight 1, whatever it had before.
  pub recovered-weight :
      (us still : List Text) (s : State) (u : Text)
      → any (eqt u) us ≡ true
      → health u ≡ true
      → weight (check_disabled b health us still s).0 u ≡ 1
  unfolding check_disabled any
  recovered-weight [] still s u h e = cc
  recovered-weight (v ∷ us) still s u h e = elim (Bool-cases (any (eqt u) us)) [
    | inl later ↦ ground (
      arith,
      recovered-weight us still (b.upsert_server v 1 s) u,
      recovered-weight us (still ++ v ∷ []) s u,
    )
    | inr last ↦ ground (
      arith,
      weight_kept us still (b.upsert_server v 1 s) u,
      b.weight-upsert v u 1 s,
      eqt_iff u v,
      eqt_iff v u,
      eqt_refl v,
      ap health ((eqt_iff u v).0 (ground arith)),
    )
  ]
