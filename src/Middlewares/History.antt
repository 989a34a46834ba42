-- ===== src/Middlewares/History.antt =====
-- middlewares/stats.go: the list against the history of requests.
use traefik_release.Base.{
  ℕ, zero, suc, ◌≤◌, ◌≡◌, refl, sym, ap, ◌∙◌, inl, inr, List, [], ◌∷◌, arith, ltb, leb,
  if◌then◌else◌, Bool-cases, length, take,
}
use traefik_release.Middlewares.Stats.{
  StatsError, StatsRecorder, new_stats_recorder, Served, recorded_code, error_of, serve, stats_data,
  serve_all,
}

-- All errors of the requests, the latest first, before those of `older`.
abbrev pub errors_of : List Served → List StatsError → List StatsError
errors_of [] older = older
errors_of (r ∷ rs) older = errors_of rs (
    if leb 400 (recorded_code 200 r.codes)
    then error_of r (recorded_code 200 r.codes) ∷ older
    else older)

take-take-suc {ℓ} : {A : Type ℓ} (n : ℕ) (xs : List A) → take n (take (suc n) xs) ≡ take n xs
take-take-suc zero xs = refl
take-take-suc (suc n) [] = refl
take-take-suc (suc n) (x ∷ xs) = ap (λ ys. x ∷ ys) (take-take-suc n xs)

take-take-cons {ℓ} :
    {A : Type ℓ} (n : ℕ) (x : A) (xs : List A) → take n (x ∷ take n xs) ≡ take n (x ∷ xs)
take-take-cons zero x xs = refl
take-take-cons (suc n) x xs = ap (λ ys. x ∷ ys) (take-take-suc n xs)

take_of_le {ℓ} : {A : Type ℓ} (n : ℕ) (xs : List A) → length xs ≤ n → take n xs ≡ xs
take_of_le zero [] h = refl
take_of_le zero (x ∷ xs) h = elim h [ ]
take_of_le (suc n) [] h = refl
take_of_le (suc n) (x ∷ xs) h = ap (λ ys. x ∷ ys) (take_of_le n xs (omega arith))

abbrev record_of : ℕ → List StatsError → StatsRecorder
record_of n errors = record { num_recent_errors = n; recent_errors = errors }

serve-take :
    (r : Served) (n : ℕ) (older : List StatsError)
    → serve r (record_of n (take n older))
      ≡ record_of n (
          take n (
            if leb 400 (recorded_code 200 r.codes)
            then error_of r (recorded_code 200 r.codes) ∷ older
            else older))
unfolding serve
serve-take r n older =
    let e = error_of r (recorded_code 200 r.codes) in
    elim (Bool-cases (leb 400 (recorded_code 200 r.codes))) [
      | inr ok ↦ rw ok
      | inl bad ↦ elim (Bool-cases (ltb n (suc (length (take n older))))) [
        | inl full ↦ rw (bad, full) (ap (record_of n) (take-take-cons n e older))
        | inr room ↦
            rw (bad, room)
              (ap (record_of n)
                (sym (take_of_le n (e ∷ take n older) (ground arith)) ∙ take-take-cons n e older))
      ]
    ]

serve_all-take :
    (rs : List Served) (n : ℕ) (older : List StatsError)
    → serve_all rs (record_of n (take n older)) ≡ record_of n (take n (errors_of rs older))
unfolding serve_all
serve_all-take [] n older = refl
serve_all-take (r ∷ rs) n older =
    ap (serve_all rs) (serve-take r n older)
    ∙ serve_all-take rs n (
        if leb 400 (recorded_code 200 r.codes)
        then error_of r (recorded_code 200 r.codes) ∷ older
        else older)

take-nil {ℓ} : {A : Type ℓ} (n : ℕ) → take {A = A} n [] ≡ []
take-nil zero = refl
take-nil (suc n) = refl

-- After any requests the recorder holds the latest of their errors, the latest first, as many as it
-- is to keep; a request is an error if its last status code is 400 or more.
pub stats_data-serve_all :
    (n : ℕ) (rs : List Served)
    → stats_data (serve_all rs (new_stats_recorder n)) ≡ take n (errors_of rs [])
unfolding stats_data new_stats_recorder
stats_data-serve_all n rs =
    ap (λ (s : StatsRecorder). s.recent_errors)
      (ap (λ es. serve_all rs (record_of n es)) (sym (take-nil n)) ∙ serve_all-take rs n [])
