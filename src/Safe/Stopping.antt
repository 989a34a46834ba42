-- ===== src/Safe/Stopping.antt =====
-- safe/routine.go: stopping a pool.
use traefik_release.Base.{
  ℕ, suc, ◌+◌, ◌≤◌, ◌<◌, ◌≡◌, refl, subst, true, false, List, [], ◌∷◌, ◌++◌, map, arith, length,
  All, All-append,
}
use traefik_release.Safe.Pool.{
  Routine, Pool, new_pool, add_go_ctx, run_on_ctx, go_ctx, run_of, go, stops, member, remove_one,
  all_signalled, any_closed, stopped, stop, at_once, seen, reopen, start,
}
use traefik_release.Safe.Signals.{all_signalled-stop, all_signalled-ctx}

-- The pools in use: a new one, one with another goroutine, and one that is started again after it
-- was stopped, whose goroutines begin at once.
pub data InUse : Pool → Type 0 where
  new : InUse new_pool
  added : (task : ℕ) {p : Pool} → InUse p → InUse (add_go_ctx task p)
  begun_ctx : (task : ℕ) {p : Pool} → InUse p → InUse (go_ctx task p)
  begun : (task : ℕ) {p : Pool} → InUse p → InUse (go task p)
  restarted : {p p' : Pool} → InUse p → stop p ≡ stopped p' → InUse (start at_once p')

-- What holds of a pool in use.
pub record IsUsable (p : Pool) : Type 0 where
  pub no_closed : any_closed p.closed (stops p.routines) ≡ false
  pub signalled : all_signalled p.ctx p.running (stops p.routines) ≡ true
  pub closed_made : All (λ c. c < p.channels) p.closed
  pub stops_made : All (λ c. c < p.channels) (stops p.routines)

new_pool-IsUsable : IsUsable new_pool
unfolding new_pool any_closed all_signalled
new_pool-IsUsable = record { no_closed = refl; signalled = refl; closed_made = tt; stops_made = tt }

stops-append : (rs : List Routine) (r : Routine) → stops (rs ++ r ∷ []) ≡ stops rs ++ r.stop ∷ []
stops-append [] r = refl
stops-append (q ∷ rs) r = cc (stops-append rs r)

any_closed-append :
    (closed cs : List ℕ) (c : ℕ)
    → any_closed closed cs ≡ false
    → member c closed ≡ false
    → any_closed closed (cs ++ c ∷ []) ≡ false
unfolding any_closed
any_closed-append closed [] c h m = ground arith
any_closed-append closed (d ∷ cs) c h m = ground (arith, any_closed-append closed cs c)

-- A number that is not below the bound of a list is not in it.
member_above : (c n : ℕ) (cs : List ℕ) → All (λ d. d < n) cs → n ≤ c → member c cs ≡ false
unfolding member
member_above c n [] a h = refl
member_above c n (d ∷ cs) (p, a) h = ground (arith, member_above c n cs a h)

All-raise : (n m : ℕ) (cs : List ℕ) → n ≤ m → All (λ c. c < n) cs → All (λ c. c < m) cs
All-raise n m [] le a = tt
All-raise n m (c ∷ cs) le (p, a) = (omega arith, All-raise n m cs le a)

go-IsUsable : (task : ℕ) (p : Pool) → IsUsable p → IsUsable (go task p)
unfolding go
go-IsUsable task p u = record {
  no_closed = rw (stops-append p.routines (record { task = task; stop = p.channels })) (
      any_closed-append p.closed (stops p.routines) p.channels u.no_closed
        (member_above p.channels p.channels p.closed u.closed_made (omega arith)));
  signalled =
      rw (stops-append p.routines (record { task = task; stop = p.channels }))
        (all_signalled-stop p.ctx p.channels task p.running (stops p.routines) u.signalled);
  closed_made = All-raise p.channels (p.channels + 1) p.closed (omega arith) u.closed_made;
  stops_made = rw (stops-append p.routines (record { task = task; stop = p.channels })) (
      All-append (λ c. c < p.channels + 1) (stops p.routines) _
        (All-raise p.channels (p.channels + 1) (stops p.routines) (omega arith) u.stops_made)
        (omega arith, tt));
}

go_ctx-IsUsable : (task : ℕ) (p : Pool) → IsUsable p → IsUsable (go_ctx task p)
unfolding go_ctx
go_ctx-IsUsable task p u = record {
  no_closed = u.no_closed;
  signalled = all_signalled-ctx p.ctx task p.running (stops p.routines) u.signalled;
  closed_made = u.closed_made;
  stops_made = u.stops_made;
}

add_go_ctx-IsUsable : (task : ℕ) (p : Pool) → IsUsable p → IsUsable (add_go_ctx task p)
unfolding add_go_ctx
add_go_ctx-IsUsable task p u = record {
  no_closed = u.no_closed;
  signalled = u.signalled;
  closed_made = u.closed_made;
  stops_made = u.stops_made;
}

-- A stopped pool: no goroutine runs, and its closed channels are old ones.
pub record IsStopped (p : Pool) : Type 0 where
  pub none_running : p.running ≡ []
  pub closed_made : All (λ c. c < p.channels) p.closed

stop-IsStopped : (p : Pool) → IsUsable p → (p' : Pool) × (stop p ≡ stopped p') × IsStopped p'
unfolding stop
stop-IsStopped p u =
    let p' = record p { closed = stops p.routines ++ p.closed; running = [] } in
    (
      p',
      rw (u.no_closed, u.signalled),
      record {
        none_running = refl;
        closed_made =
            All-append (λ c. c < p.channels) (stops p.routines) _ u.stops_made u.closed_made;
      },
    )

-- New channels are not closed, and told to their goroutines.
pub any_closed-reopen :
    (closed : List ℕ) (n m : ℕ) (rs : List Routine)
    → All (λ c. c < n) closed
    → n ≤ m
    → any_closed closed (stops (reopen m rs)) ≡ false
unfolding reopen any_closed
any_closed-reopen closed n m [] a h = refl
any_closed-reopen closed n m (r ∷ rs) a h =
    ground (arith, member_above m n closed a h, any_closed-reopen closed n (m + 1) rs a)

all_signalled-runs_ctx :
    (ctx : ℕ) (tasks : List ℕ) (sent : List ℕ)
    → all_signalled ctx (map (run_on_ctx ctx) tasks) sent ≡ true
unfolding all_signalled
all_signalled-runs_ctx ctx [] sent = refl
all_signalled-runs_ctx ctx (t ∷ tasks) sent = ground (arith, all_signalled-runs_ctx ctx tasks sent)

all_signalled-Runs :
    (ctx : ℕ) (rs : List Routine) (tasks : List ℕ)
    → all_signalled ctx (map run_of rs ++ map (run_on_ctx ctx) tasks) (stops rs) ≡ true
unfolding all_signalled member remove_one
all_signalled-Runs ctx [] tasks = all_signalled-runs_ctx ctx tasks []
all_signalled-Runs ctx (r ∷ rs) tasks = ground (arith, all_signalled-Runs ctx rs tasks)

stops-reopen-below :
    (n : ℕ) (rs : List Routine) → All (λ c. c < n + length rs) (stops (reopen n rs))
unfolding reopen
stops-reopen-below n [] = tt
stops-reopen-below n (r ∷ rs) = (
  omega arith,
  All-raise (n + 1 + length rs) (n + suc (length rs)) _ (omega arith)
      (stops-reopen-below (n + 1) rs),
)

start-IsUsable : (p : Pool) → IsStopped p → IsUsable (start at_once p)
unfolding start seen
start-IsUsable p s = record {
  no_closed =
      any_closed-reopen p.closed p.channels p.channels p.routines s.closed_made (omega arith);
  signalled = all_signalled-Runs p.contexts (reopen p.channels p.routines) p.routines_ctx;
  closed_made =
      All-raise p.channels (p.channels + length p.routines) p.closed (omega arith) s.closed_made;
  stops_made = stops-reopen-below p.channels p.routines;
}

IsStopped-stop : (p p' : Pool) → IsUsable p → stop p ≡ stopped p' → IsStopped p'
IsStopped-stop p p' u e =
    let (q, same, s) = stop-IsStopped p u in
    let there : q ≡ p' = cc (same, e) in subst IsStopped there s

InUse-IsUsable : (p : Pool) → InUse p → IsUsable p
InUse-IsUsable _ new = new_pool-IsUsable
InUse-IsUsable _ (added task {p} u) = add_go_ctx-IsUsable task p (InUse-IsUsable p u)
InUse-IsUsable _ (begun_ctx task {p} u) = go_ctx-IsUsable task p (InUse-IsUsable p u)
InUse-IsUsable _ (begun task {p} u) = go-IsUsable task p (InUse-IsUsable p u)
InUse-IsUsable _ (restarted {p} {p'} u e) =
    start-IsUsable p' (IsStopped-stop p p' (InUse-IsUsable p u) e)

-- Stopping a pool in use returns, and then no goroutine runs: no send is on a closed channel, and no
-- goroutine is waited for that is not told to end. The goroutines of a restart have begun at once.
pub stop-InUse : (p : Pool) → InUse p → (p' : Pool) × (stop p ≡ stopped p') × IsStopped p'
stop-InUse p u = stop-IsStopped p (InUse-IsUsable p u)
