-- ===== src/Safe/Signals.antt =====
-- safe/routine.go: which goroutines are told to end.
use traefik_release.Base.{ℕ, ◌≡◌, refl, ◌⊎◌, inl, inr, true, ◌&&◌, List, [], ◌∷◌, ◌++◌, arith, ◌==◌}
use traefik_release.Safe.Pool.{
  Signal, on_stop, on_ctx, Run, run_on_ctx, member, remove_one, all_signalled,
}

pub member-append : (c d : ℕ) (cs : List ℕ) → member c cs ≡ true → member c (cs ++ d ∷ []) ≡ true
unfolding member
member-append c d [] h = cc
member-append c d (e ∷ cs) h = ground (arith, member-append c d cs)

pub remove_one-append :
    (c d : ℕ) (cs : List ℕ)
    → member c cs ≡ true
    → remove_one c (cs ++ d ∷ []) ≡ remove_one c cs ++ d ∷ []
unfolding member remove_one
remove_one-append c d [] h = cc
remove_one-append c d (e ∷ cs) h = ground (arith, remove_one-append c d cs)

pub member-last : (c : ℕ) (cs : List ℕ) → member c (cs ++ c ∷ []) ≡ true
unfolding member
member-last c [] = ground arith
member-last c (d ∷ cs) = ground (arith, member-last c cs)

pub Signal-cases : (s : Signal) → ((c : ℕ) × (s ≡ on_stop c)) ⊎ ((c : ℕ) × (s ≡ on_ctx c))
Signal-cases (on_stop c) = inl (c, refl)
Signal-cases (on_ctx c) = inr (c, refl)

-- One more goroutine that is told to end.
pub all_signalled-stop :
    (ctx c task : ℕ) (runs : List Run) (sent : List ℕ)
    → all_signalled ctx runs sent ≡ true
    → all_signalled ctx (runs ++ record { task = task; signal = on_stop c } ∷ []) (sent ++ c ∷ [])
      ≡ true
unfolding all_signalled
all_signalled-stop ctx c task [] sent h = ground (arith, member-last c sent)
all_signalled-stop ctx c task (r ∷ runs) sent h = elim (Signal-cases r.signal) [
  | inl (d, e) ↦
      let h' : (member d sent && all_signalled ctx runs (remove_one d sent)) ≡ true =
        rw (e, all_signalled) at h in
      let there : member d sent ≡ true = ground arith in
      rw (e, all_signalled, member-append d c sent there, remove_one-append d c sent there)
        (all_signalled-stop ctx c task runs (remove_one d sent) (ground arith))
  | inr (d, e) ↦
      let h' : ((d == ctx) && all_signalled ctx runs sent) ≡ true = rw (e, all_signalled) at h in
      rw (e, all_signalled) (ground (arith, all_signalled-stop ctx c task runs sent))
]

pub all_signalled-ctx :
    (ctx task : ℕ) (runs : List Run) (sent : List ℕ)
    → all_signalled ctx runs sent ≡ true
    → all_signalled ctx (runs ++ run_on_ctx ctx task ∷ []) sent ≡ true
unfolding all_signalled
all_signalled-ctx ctx task [] sent h = ground arith
all_signalled-ctx ctx task (r ∷ runs) sent h = elim (Signal-cases r.signal) [
  | inl (d, e) ↦
      let h' : (member d sent && all_signalled ctx runs (remove_one d sent)) ≡ true =
        rw (e, all_signalled) at h in
      rw (e, all_signalled) (ground (arith, all_signalled-ctx ctx task runs (remove_one d sent)))
  | inr (d, e) ↦
      let h' : ((d == ctx) && all_signalled ctx runs sent) ≡ true = rw (e, all_signalled) at h in
      rw (e, all_signalled) (ground (arith, all_signalled-ctx ctx task runs sent))
]
