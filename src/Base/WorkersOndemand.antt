-- ===== src/Base/WorkersOndemand.antt =====
-- Threads on demand: src/base/workers_ondemand.c. A launch and the thread that it makes are one task
-- of the state; each stretch of code between two waits, or between a write of a shared variable and
-- the next, is a step. The threads of the C library start whenever they do.
pub mod Counted
pub mod Serial
pub mod Destroy
pub mod Stuck
mod Tests
use xpn.Prelude.{
  ℕ, zero, suc, ◌+◌, ◌-◌, Bool, true, false, not, Option, none, some, List, [], ◌∷◌, ◌==◌, ◌≡◌,
  if◌then◌else◌, ◌>>=◌, get_elem?, set,
}

-- Where a thread is, in `worker_run`: not there, created, past the copy of the arguments, or past
-- the end of the function.
pub data Thread : Type 0 where
  missing created running ended : Thread

-- A call of `worker_ondemand_launch` has set `busy_worker`, it waits, or it returned; behind the
-- first, it has a thread.
pub data Task : Type 0 where
  marked : Task
  waiting returned : (thread : Thread) → Task

-- `worker_ondemand_t`, and the tasks, the last one first.
pub record OnDemand : Type 0 where
  pub busy_worker : Bool
  pub n_workers : ℕ
  pub tasks : List Task

-- `worker_ondemand_init`
unfoldable pub ondemand_init : OnDemand
ondemand_init = record { busy_worker = true; n_workers = 0; tasks = [] }

-- The steps, with the task that makes them; `create` with whether `pthread_create` succeeds.
pub data Event : Type 0 where
  mark : Event
  create : (success : Bool) (i : ℕ) → Event
  prolog wakeup epilog : (i : ℕ) → Event

-- `worker_ondemand_launch` up to its wait.
unfoldable pub launch_create : (success : Bool) → Task → Option Task
launch_create success marked = some (waiting (if success then created else missing))
launch_create success (waiting thread) = none
launch_create success (returned thread) = none

-- The end of `worker_ondemand_launch`, which goes on once `busy_worker` is FALSE.
unfoldable pub launch_return : (busy : Bool) → Task → Option Task
launch_return busy marked = none
launch_return busy (waiting thread) = if busy then none else some (returned thread)
launch_return busy (returned thread) = none

-- `worker_run`: the copy of the arguments, under the mutex.
unfoldable pub thread_prolog : Thread → Option Thread
thread_prolog missing = none
thread_prolog created = some running
thread_prolog running = none
thread_prolog ended = none

-- `worker_run`: the end.
unfoldable pub thread_epilog : Thread → Option Thread
thread_epilog missing = none
thread_epilog created = none
thread_epilog running = some ended
thread_epilog ended = none

-- A step of the thread of a task.
unfoldable pub run_thread : (Thread → Option Thread) → Task → Option Task
run_thread move marked = none
run_thread move (waiting thread) = move thread >>= λ th. some (waiting th)
run_thread move (returned thread) = move thread >>= λ th. some (returned th)

-- A step of a task, with what it does to the shared variables.
unfoldable pub step : Event → OnDemand → Option OnDemand
step mark w = some (record w { busy_worker = true; tasks = marked ∷ w.tasks })
step (create success i) w = get_elem? w.tasks i >>= λ t.
    launch_create success t >>= λ t'. some (record w { tasks = set w.tasks i t' })
step (prolog i) w = get_elem? w.tasks i >>= λ t. run_thread thread_prolog t >>= λ t'.
    some (record { busy_worker = false; n_workers = w.n_workers + 1; tasks = set w.tasks i t' })
step (wakeup i) w = get_elem? w.tasks i >>= λ t. launch_return w.busy_worker t >>= λ t'.
    some (record w { busy_worker = true; tasks = set w.tasks i t' })
step (epilog i) w = get_elem? w.tasks i >>= λ t. run_thread thread_epilog t >>= λ t'.
    some (record w { n_workers = w.n_workers - 1; tasks = set w.tasks i t' })

-- `workers_ondemand_destroy` goes on once there are no workers.
unfoldable pub can_destroy : OnDemand → Bool
can_destroy w = w.n_workers == 0

-- The states that a sequence of steps reaches from another one.
pub data Run (start : OnDemand) : OnDemand → Type 0 where
  begin : Run start start
  next : {w w' : OnDemand} → Run start w → (e : Event) → step e w ≡ some w' → Run start w'
