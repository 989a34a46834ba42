-- ===== src/Safe/Pool.antt =====
-- safe/routine.go: the pool of goroutines. A task stands for the function that a goroutine runs.
use traefik_release.Base.{
  ℕ, ◌+◌, Bool, true, false, ◌&&◌, ◌||◌, List, [], ◌∷◌, ◌++◌, map, ◌==◌, if◌then◌else◌, length,
}

-- What a goroutine waits for: a value on a stop channel, or the end of a context.
pub data Signal : Type 0 where
  on_stop on_ctx : ℕ → Signal

-- A goroutine that runs a task.
pub record Run : Type 0 where
  pub task : ℕ
  pub signal : Signal

-- routine: a task, and its stop channel.
pub record Routine : Type 0 where
  pub task : ℕ
  pub stop : ℕ

-- Pool. Channels and contexts are numbered in the order in which they are made.
pub record Pool : Type 0 where
  pub routines : List Routine
  pub routines_ctx : List ℕ
  pub ctx : ℕ
  pub contexts : ℕ
  pub channels : ℕ
  pub closed : List ℕ
  pub running : List Run

-- NewPool
unfoldable pub new_pool : Pool
new_pool = record {
  routines = [];
  routines_ctx = [];
  ctx = 0;
  contexts = 1;
  channels = 0;
  closed = [];
  running = [];
}

-- AddGoCtx, GoCtx and Go
unfoldable pub add_go_ctx : ℕ → Pool → Pool
add_go_ctx task p = record p { routines_ctx = p.routines_ctx ++ task ∷ [] }

abbrev pub run_on_ctx : ℕ → ℕ → Run
run_on_ctx ctx task = record { task = task; signal = on_ctx ctx }

unfoldable pub go_ctx : ℕ → Pool → Pool
go_ctx task p = record p {
  routines_ctx = p.routines_ctx ++ task ∷ [];
  running = p.running ++ run_on_ctx p.ctx task ∷ [];
}

abbrev pub run_of : Routine → Run
run_of r = record { task = r.task; signal = on_stop r.stop }

unfoldable pub go : ℕ → Pool → Pool
go task p =
    let r : Routine = record { task = task; stop = p.channels } in
    record p {
      routines = p.routines ++ r ∷ [];
      channels = p.channels + 1;
      running = p.running ++ run_of r ∷ [];
    }

abbrev pub stops : List Routine → List ℕ
stops [] = []
stops (r ∷ rs) = r.stop ∷ stops rs

unfoldable pub member : ℕ → List ℕ → Bool
member c [] = false
member c (d ∷ ds) = (d == c) || member c ds

unfoldable pub remove_one : ℕ → List ℕ → List ℕ
remove_one c [] = []
remove_one c (d ∷ ds) = let rest = remove_one c ds in if d == c then ds else d ∷ rest

-- Whether each running goroutine is told to end: a value on a channel reaches one goroutine, the
-- end of a context reaches all. `sent` are the channels with a value.
unfoldable pub all_signalled : ℕ → List Run → List ℕ → Bool
all_signalled ctx [] sent = true
all_signalled ctx (r ∷ runs) sent = elim r.signal [
  | on_ctx c ↦ (c == ctx) && all_signalled ctx runs sent
  | on_stop c ↦ member c sent && all_signalled ctx runs (remove_one c sent)
]

unfoldable pub any_closed : List ℕ → List ℕ → Bool
any_closed closed [] = false
any_closed closed (c ∷ cs) = member c closed || any_closed closed cs

-- What Stop does: it returns, it panics at a send on a closed channel, or it waits forever.
pub data Stopping : Type 0 where
  stopped : Pool → Stopping
  panics hangs : Stopping

-- Stop, if each goroutine ends when it is told to.
unfoldable pub stop : Pool → Stopping
stop p =
    if any_closed p.closed (stops p.routines)
    then panics
    else if all_signalled p.ctx p.running (stops p.routines)
    then stopped (record p { closed = stops p.routines ++ p.closed; running = [] })
    else hangs

-- When the goroutines that Start starts read the loop's variable: at once, or when its loop is over.
-- These are the two ends of what the scheduler may do.
pub data Schedule : Type 0 where
  at_once late : Schedule

unfoldable pub last {ℓ} : {A : Type ℓ} → A → List A → A
last x [] = x
last x (y ∷ ys) = last y ys

-- The values of the loop's variable that the goroutines see.
unfoldable pub seen {ℓ} : {A : Type ℓ} → Schedule → List A → List A
seen at_once xs = xs
seen late [] = []
seen late (x ∷ xs) = map (λ _. last x xs) (x ∷ xs)

-- Each routine gets a new channel.
unfoldable pub reopen : ℕ → List Routine → List Routine
reopen n [] = []
reopen n (r ∷ rs) = record r { stop = n } ∷ reopen (n + 1) rs

-- Start, after Stop
unfoldable pub start : Schedule → Pool → Pool
start when p =
    let rs = reopen p.channels p.routines in
    record p {
      routines = rs;
      ctx = p.contexts;
      contexts = p.contexts + 1;
      channels = p.channels + length p.routines;
      running = map run_of (seen when rs) ++ map (run_on_ctx p.contexts) (seen when p.routines_ctx);
    }
