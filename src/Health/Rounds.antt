-- ===== src/Health/Rounds.antt =====
-- healthcheck/healthcheck.go: what a round of checks does to the two lists of servers.
use traefik_release.Base.{
  ◌+◌, ◌≡◌, refl, sym, ap, ◌∙◌, fun_ext, inl, inr, count, IsDistinct, any_of_count, Bool, true,
  false, not, ◌&&◌, ◌||◌, List, [], ◌∷◌, ◌++◌, arith, if◌then◌else◌, Bool-cases, keep, any, Text,
  eqt, eqt_refl, eqt_iff,
}
use mathlib.Core.Path.{ap₂}
use mathlib.Core.List.{append-nil, append_assoc}
use traefik_release.Health.Checks.{
  Balancer, BackendHealthCheck, check_disabled, check_enabled, check_backend,
}

count-append : (u : Text) (xs ys : List Text) → count u (xs ++ ys) ≡ count u xs + count u ys
count-append u [] ys = omega arith
count-append u (x ∷ xs) ys = omega (arith, count-append u xs ys)

count-keep :
    (u : Text) (p : Text → Bool) (xs : List Text)
    → count u (keep p xs) ≡ (if p u then count u xs else 0)
unfolding keep
count-keep u p [] = ground arith
count-keep u p (x ∷ xs) = ground (arith, count-keep u p xs, eqt_iff u x)

any-append :
    (u : Text) (xs ys : List Text) → any (eqt u) (xs ++ ys) ≡ (any (eqt u) xs || any (eqt u) ys)
unfolding any
any-append u [] ys = refl
any-append u (x ∷ xs) ys = ground (arith, any-append u xs ys)

IsDistinct-middle :
    (xs : List Text) (u : Text) (us : List Text)
    → IsDistinct (xs ++ u ∷ us)
    → any (eqt u) xs ≡ false
IsDistinct-middle xs u us d =
    any_of_count u xs (ground (arith, d u, count-append u xs (u ∷ us), eqt_refl u))

IsDistinct-drop :
    (xs : List Text) (u : Text) (us : List Text) → IsDistinct (xs ++ u ∷ us) → IsDistinct (xs ++ us)
IsDistinct-drop xs u us d v = omega (arith, d v, count-append v xs (u ∷ us), count-append v xs us)

keep-append : (p : Text → Bool) (xs ys : List Text) → keep p (xs ++ ys) ≡ keep p xs ++ keep p ys
unfolding keep
keep-append p [] ys = refl
keep-append p (x ∷ xs) ys = ground (arith, keep-append p xs ys)

keep-keep : (p q : Text → Bool) (xs : List Text) → keep p (keep q xs) ≡ keep (λ v. q v && p v) xs
unfolding keep
keep-keep p q [] = refl
keep-keep p q (x ∷ xs) = elim (Bool-cases (q x)) [
  | inl e ↦ rw e (elim (Bool-cases (p x)) [
    | inl e' ↦ rw e' (ap (λ r. x ∷ r) (keep-keep p q xs))
    | inr e' ↦ rw e' (keep-keep p q xs)
  ])
  | inr e ↦ rw e (keep-keep p q xs)
]

keep-absorb : (p q : Text → Bool) (xs : List Text) → keep (λ v. p v || q v) (keep p xs) ≡ keep p xs
unfolding keep
keep-absorb p q [] = refl
keep-absorb p q (x ∷ xs) = ground (arith, keep-absorb p q xs)

any-here : (x : Text) (pre xs : List Text) → any (eqt x) (pre ++ x ∷ xs) ≡ true
unfolding any
any-here x [] xs = rw (eqt_refl x)
any-here x (y ∷ pre) xs = ground (arith, any-here x pre xs)

keep-all : (p : Text → Bool) (xs : List Text) → ((v : Text) → p v ≡ true) → keep p xs ≡ xs
unfolding keep
keep-all p [] h = refl
keep-all p (x ∷ xs) h = rw (h x) (ap (λ r. x ∷ r) (keep-all p xs h))

keep-among :
    (p : Text → Bool) (pre xs : List Text)
    → keep (λ v. p v || not (any (eqt v) (pre ++ xs))) xs ≡ keep p xs
unfolding keep
keep-among p pre [] = refl
keep-among p pre (x ∷ xs) =
    let here = any-here x pre xs in
    let ih = simp append_assoc at (keep-among p (pre ++ x ∷ []) xs) in ground (arith, here, ih)

module _ (b : Balancer) (health : Text → Bool) where
  open b use {State, servers, weight}

  abbrev pub healthy : List Text → List Text
  healthy us = keep health us

  abbrev pub unhealthy : List Text → List Text
  unhealthy us = keep (λ u. not (health u)) us

  check_disabled-still :
      (us still : List Text) (s : State)
      → (check_disabled b health us still s).1 ≡ still ++ unhealthy us
  unfolding check_disabled keep
  check_disabled-still [] still s = sym (append-nil still)
  check_disabled-still (u ∷ us) still s = elim (Bool-cases (health u)) [
    | inl e ↦ rw e (check_disabled-still us still (b.upsert_server u 1 s))
    | inr e ↦ rw e (check_disabled-still us (still ++ u ∷ []) s ∙ append_assoc still (u ∷ []) _)
  ]

  check_disabled-servers :
      (us still : List Text) (s : State)
      → IsDistinct (servers s ++ us)
      → servers (check_disabled b health us still s).0 ≡ servers s ++ healthy us
  unfolding check_disabled keep
  check_disabled-servers [] still s d = sym (append-nil (servers s))
  check_disabled-servers (u ∷ us) still s d =
      let fresh = IsDistinct-middle (servers s) u us d in
      let added : servers (b.upsert_server u 1 s) ≡ servers s ++ u ∷ [] =
        b.servers-upsert u 1 s ∙ rw fresh in
      elim (Bool-cases (health u)) [
        | inl e ↦ rw e (
            check_disabled-servers us still (b.upsert_server u 1 s) (rw (added, append_assoc) d)
            ∙ rw (added, append_assoc))
        | inr e ↦
            rw e
              (check_disabled-servers us (still ++ u ∷ []) s (IsDistinct-drop (servers s) u us d))
      ]

  check_enabled-disabled :
      (us disabled : List Text) (s : State)
      → (check_enabled b health us disabled s).1 ≡ disabled ++ unhealthy us
  unfolding check_enabled keep
  check_enabled-disabled [] disabled s = sym (append-nil disabled)
  check_enabled-disabled (u ∷ us) disabled s = elim (Bool-cases (health u)) [
    | inl e ↦ rw e (check_enabled-disabled us disabled s)
    | inr e ↦ rw e (
        check_enabled-disabled us (disabled ++ u ∷ []) (b.remove_server u s)
        ∙ append_assoc disabled (u ∷ []) _)
  ]

  check_enabled-servers :
      (us disabled : List Text) (s : State)
      → servers (check_enabled b health us disabled s).0
        ≡ keep (λ v. health v || not (any (eqt v) us)) (servers s)
  unfolding check_enabled any
  check_enabled-servers [] disabled s = sym (keep-all _ (servers s) (λ v. ground arith))
  check_enabled-servers (u ∷ us) disabled s = elim (Bool-cases (health u)) [
    | inl e ↦ rw e (
        check_enabled-servers us disabled s
        ∙ ap (λ p. keep p (servers s)) (fun_ext (λ v. ground (arith, eqt_iff v u))))
    | inr e ↦ rw e (
        check_enabled-servers us (disabled ++ u ∷ []) (b.remove_server u s)
        ∙ ap (keep _) (b.servers-remove u s)
        ∙ keep-keep _ _ (servers s)
        ∙ ap (λ p. keep p (servers s)) (fun_ext (λ v. ground (arith, eqt_iff v u, eqt_iff u v))))
  ]

  -- After a round the servers are those that are healthy, the old ones first, and the disabled are
  -- those that are not, if no server stood twice in the two lists.
  pub check_backend-splits :
      (c : BackendHealthCheck b)
      → IsDistinct (servers c.lb ++ c.disabled)
      → (servers (check_backend b health c).lb ≡ healthy (servers c.lb) ++ healthy c.disabled)
        × ((check_backend b health c).disabled ≡ unhealthy c.disabled ++ unhealthy (servers c.lb))
  unfolding check_backend
  check_backend-splits c d =
      let s = (check_disabled b health c.disabled [] c.lb).0 in
      let still = (check_disabled b health c.disabled [] c.lb).1 in
      (
        check_enabled-servers (servers c.lb) still s
            ∙ ap (keep (λ v. health v || not (any (eqt v) (servers c.lb))))
                (check_disabled-servers c.disabled [] c.lb d)
            ∙ keep-append _ (servers c.lb) (healthy c.disabled)
            ∙ ap₂ (λ xs ys. xs ++ ys) (keep-among health [] (servers c.lb))
                (keep-absorb health _ c.disabled),
        check_enabled-disabled (servers c.lb) still s
            ∙ ap (λ xs. xs ++ unhealthy (servers c.lb)) (check_disabled-still c.disabled [] c.lb),
      )

  -- A round neither loses nor doubles a server: each stands in the two lists as often as before.
  pub count-check_backend :
      (c : BackendHealthCheck b) (u : Text)
      → IsDistinct (servers c.lb ++ c.disabled)
      → count u (servers (check_backend b health c).lb ++ (check_backend b health c).disabled)
        ≡ count u (servers c.lb ++ c.disabled)
  count-check_backend c u d =
      let (up, down) = check_backend-splits c d in
      rw (up, down)
        (ground (
          arith,
          count-append u (healthy (servers c.lb) ++ healthy c.disabled)
              (unhealthy c.disabled ++ unhealthy (servers c.lb)),
          count-append u (healthy (servers c.lb)) (healthy c.disabled),
          count-append u (unhealthy c.disabled) (unhealthy (servers c.lb)),
          count-append u (servers c.lb) c.disabled,
          count-keep u health (servers c.lb),
          count-keep u health c.disabled,
          count-keep u (λ u. not (health u)) (servers c.lb),
          count-keep u (λ u. not (health u)) c.disabled,
        ))
