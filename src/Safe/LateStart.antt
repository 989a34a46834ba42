-- ===== src/Safe/LateStart.antt =====
-- safe/routine.go: a restart whose goroutines read the variable of the loop of Start late.
use traefik_release.Base.{
  ℕ, ◌+◌, ◌<◌, ◌≡◌, refl, ◌∙◌, false, List, [], ◌∷◌, ◌++◌, map, arith, length,
}
use traefik_release.Safe.Pool.{
  Run, Routine, Pool, run_on_ctx, run_of, stops, member, remove_one, all_signalled, hangs, stop,
  late, last, seen, reopen, start,
}
use traefik_release.Safe.Stopping.{IsStopped, any_closed-reopen}

-- The channels of a restarted pool are numbered one after the other.
last_stop :
    (n : ℕ) (r : Routine) (rs : List Routine)
    → (last (record r { stop = n }) (reopen (n + 1) rs)).stop ≡ n + length rs
unfolding last reopen
last_stop n r [] = omega arith
last_stop n r (q ∷ rs) = last_stop (n + 1) q rs ∙ omega arith

member-reopen-above : (c n : ℕ) (rs : List Routine) → c < n → member c (stops (reopen n rs)) ≡ false
unfolding member reopen
member-reopen-above c n [] h = refl
member-reopen-above c n (r ∷ rs) h = ground (arith, member-reopen-above c (n + 1) rs)

-- The last channel has one value.
member-remove_one-last :
    (c n : ℕ) (r : Routine) (rs : List Routine)
    → c ≡ n + length rs
    → member c (remove_one c (stops (reopen n (r ∷ rs)))) ≡ false
unfolding member remove_one reopen
member-remove_one-last c n r [] e = ground arith
member-remove_one-last c n r (q ∷ rs) e = ground (arith, member-remove_one-last c (n + 1) q rs)

-- Two goroutines wait on the last channel.
late-hang :
    (ctx n : ℕ) (r q : Routine) (rs : List Routine) (more : List Run)
    → all_signalled ctx
        (map run_of (seen late (reopen n (r ∷ q ∷ rs))) ++ more)
        (stops (reopen n (r ∷ q ∷ rs)))
      ≡ false
unfolding all_signalled seen reopen
late-hang ctx n r q rs more =
    ground (arith, member-remove_one-last _ n r (q ∷ rs) (last_stop n r (q ∷ rs)))

-- If the goroutines of a restart first run when the loop of Start is over, and there are at least two
-- routines with stop channels, then all of them run the last routine on its channel, and the next
-- Stop never returns.
pub stop-start_late :
    (p : Pool) (r q : Routine) (rs : List Routine)
    → IsStopped p
    → p.routines ≡ r ∷ q ∷ rs
    → stop (start late p) ≡ hangs
unfolding stop start
stop-start_late p r q rs s e = rw (
  any_closed-reopen p.closed p.channels p.channels p.routines s.closed_made (omega arith),
  e,
  late-hang p.contexts p.channels r q rs (map (run_on_ctx p.contexts) (seen late p.routines_ctx)),
)
