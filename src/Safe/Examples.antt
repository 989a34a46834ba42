-- ===== src/Safe/Examples.antt =====
-- The pool of goroutines on concrete inputs (safe/routine.go).
use traefik_release.Base.{◌≡◌, refl, [], ◌∷◌, arith}
use traefik_release.Safe.Pool.{
  Pool, new_pool, go, go_ctx, member, remove_one, all_signalled, any_closed, Stopping, stopped,
  hangs, stop, late, start,
}
use traefik_release.Safe.Stopping.{new, begun, begun_ctx, IsStopped, stop-InUse}
use traefik_release.Safe.LateStart.{stop-start_late}

abbrev busy : Pool
busy = go 7 (go_ctx 8 (go 9 new_pool))

stop-InUse_example : (p : Pool) × (stop busy ≡ stopped p) × IsStopped p
stop-InUse_example = stop-InUse busy (begun 7 (begun_ctx 8 (begun 9 new)))

abbrev rested : Pool
rested = record {
  routines = record { task = 9; stop = 0 } ∷ record { task = 7; stop = 1 } ∷ [];
  routines_ctx = 8 ∷ [];
  ctx = 0;
  contexts = 1;
  channels = 2;
  closed = 0 ∷ 1 ∷ [];
  running = [];
}

-- The pool above, when it has been stopped.
busy_stops : stop busy ≡ stopped rested
unfolding stop go go_ctx new_pool any_closed all_signalled member remove_one
busy_stops = refl

rested-IsStopped : IsStopped rested
rested-IsStopped = record { none_running = refl; closed_made = (omega arith, (omega arith, tt)) }

stop-start_late_example : stop (start late rested) ≡ hangs
stop-start_late_example =
    stop-start_late rested (record { task = 9; stop = 0 }) (record { task = 7; stop = 1 }) []
      rested-IsStopped refl

-- A pool that is stopped a second time, without a start between, panics.
stops_twice : stop rested ≡ Stopping.panics
unfolding stop any_closed all_signalled member remove_one
stops_twice = refl
