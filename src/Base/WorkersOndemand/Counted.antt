-- ===== src/Base/WorkersOndemand/Counted.antt =====
-- `n_workers` counts the threads that run.
use xpn.Prelude.{
  ℕ, ◌+◌, ◌-◌, ◌≡◌, refl, sym, ap, ◌∙◌, subst, Bool, true, false, arith, Option, some, ◌>>=◌,
  get_elem?, set, sum_of, sum_of-set, some_injective, some_ne_none, bind_result,
}
use xpn.Base.WorkersOndemand.{
  Thread, missing, created, running, ended, Task, marked, waiting, returned, OnDemand,
  ondemand_init, Event, mark, create, prolog, wakeup, epilog, launch_create, launch_return,
  thread_prolog, thread_epilog, run_thread, step, Run, begin, next,
}

abbrev pub is_running : Thread → ℕ
is_running missing = 0
is_running created = 0
is_running running = 1
is_running ended = 0

abbrev pub runs : Task → ℕ
runs marked = 0
runs (waiting thread) = is_running thread
runs (returned thread) = is_running thread

thread_prolog_runs :
    (u v : Thread) → thread_prolog u ≡ some v → (is_running u ≡ 0) × (is_running v ≡ 1)
unfolding thread_prolog
thread_prolog_runs missing v h = absurd (some_ne_none (sym h))
thread_prolog_runs created v h = (refl, ap is_running (sym (some_injective h)))
thread_prolog_runs running v h = absurd (some_ne_none (sym h))
thread_prolog_runs ended v h = absurd (some_ne_none (sym h))

thread_epilog_runs :
    (u v : Thread) → thread_epilog u ≡ some v → (is_running u ≡ 1) × (is_running v ≡ 0)
unfolding thread_epilog
thread_epilog_runs missing v h = absurd (some_ne_none (sym h))
thread_epilog_runs created v h = absurd (some_ne_none (sym h))
thread_epilog_runs running v h = (refl, ap is_running (sym (some_injective h)))
thread_epilog_runs ended v h = absurd (some_ne_none (sym h))

pub run_thread-runs :
    (move : Thread → Option Thread) (a b : ℕ)
    → ((u v : Thread) → move u ≡ some v → (is_running u ≡ a) × (is_running v ≡ b))
    → (t t' : Task) → run_thread move t ≡ some t'
    → (runs t ≡ a) × (runs t' ≡ b)
unfolding run_thread
run_thread-runs move a b m marked t' h = absurd (some_ne_none (sym h))
run_thread-runs move a b m (waiting u) t' h =
    let (v, e, e') = bind_result (move u) (λ th. some (waiting th)) t' h in
    ((m u v e).0, ap runs (sym (some_injective e')) ∙ (m u v e).1)
run_thread-runs move a b m (returned u) t' h =
    let (v, e, e') = bind_result (move u) (λ th. some (returned th)) t' h in
    ((m u v e).0, ap runs (sym (some_injective e')) ∙ (m u v e).1)

launch_create-runs :
    (success : Bool) (t t' : Task)
    → launch_create success t ≡ some t'
    → (runs t ≡ 0) × (runs t' ≡ 0)
unfolding launch_create
launch_create-runs true marked t' h = (refl, ap runs (sym (some_injective h)))
launch_create-runs false marked t' h = (refl, ap runs (sym (some_injective h)))
launch_create-runs success (waiting u) t' h = absurd (some_ne_none (sym h))
launch_create-runs success (returned u) t' h = absurd (some_ne_none (sym h))

launch_return-runs : (busy : Bool) (t t' : Task) → launch_return busy t ≡ some t' → runs t' ≡ runs t
unfolding launch_return
launch_return-runs busy marked t' h = absurd (some_ne_none (sym h))
launch_return-runs true (waiting u) t' h = absurd (some_ne_none (sym h))
launch_return-runs false (waiting u) t' h = ap runs (sym (some_injective h))
launch_return-runs busy (returned u) t' h = absurd (some_ne_none (sym h))

-- `n_workers` is the number of threads that run.
abbrev pub IsCounted : OnDemand → Type 0
IsCounted w = w.n_workers ≡ sum_of runs w.tasks

-- A step of one task, taken apart.
pub task_step :
    (w w' : OnDemand) (i : ℕ) (move : Task → Option Task) (after : Task → OnDemand)
    → (get_elem? w.tasks i >>= λ t. move t >>= λ t'. some (after t')) ≡ some w'
    → (t t' : Task) × (get_elem? w.tasks i ≡ some t) × (move t ≡ some t') × (after t' ≡ w')
task_step w w' i move after h =
    let (t, at, h1) =
      bind_result (get_elem? w.tasks i) (λ t. move t >>= λ t'. some (after t')) w' h in
    let (t', m, h2) = bind_result (move t) (λ t'. some (after t')) w' h1 in
    (t, t', at, m, some_injective h2)

pub step-IsCounted : (e : Event) (w w' : OnDemand) → IsCounted w → step e w ≡ some w' → IsCounted w'
unfolding step
step-IsCounted mark w w' h e =
    subst IsCounted (some_injective e)
      (let n : w.n_workers ≡ 0 + sum_of runs w.tasks = omega (arith, h) in n)
step-IsCounted (create success i) w w' h e =
    let (t, t', at, m, same) =
      task_step w w' i (launch_create success) (λ u. record w { tasks = set w.tasks i u }) e in
    let (a, b) = launch_create-runs success t t' m in
    subst IsCounted same (
      let n : w.n_workers ≡ sum_of runs (set w.tasks i t') =
        omega (arith, h, sum_of-set runs w.tasks i t t' at, a, b) in
      n)
step-IsCounted (prolog i) w w' h e =
    let (t, t', at, m, same) =
      task_step w w' i (run_thread thread_prolog)
        (λ u. record { busy_worker = false; n_workers = w.n_workers + 1; tasks = set w.tasks i u })
        e in
    let (a, b) = run_thread-runs thread_prolog 0 1 thread_prolog_runs t t' m in
    subst IsCounted same (
      let n : w.n_workers + 1 ≡ sum_of runs (set w.tasks i t') =
        omega (arith, h, sum_of-set runs w.tasks i t t' at, a, b) in
      n)
step-IsCounted (wakeup i) w w' h e =
    let (t, t', at, m, same) =
      task_step w w' i (launch_return w.busy_worker)
        (λ u. record w { busy_worker = true; tasks = set w.tasks i u }) e in
    let a : runs t' ≡ runs t = launch_return-runs w.busy_worker t t' m in
    subst IsCounted same (
      let n : w.n_workers ≡ sum_of runs (set w.tasks i t') =
        omega (arith, h, sum_of-set runs w.tasks i t t' at, a) in
      n)
step-IsCounted (epilog i) w w' h e =
    let (t, t', at, m, same) =
      task_step w w' i (run_thread thread_epilog)
        (λ u. record w { n_workers = w.n_workers - 1; tasks = set w.tasks i u }) e in
    let (a, b) = run_thread-runs thread_epilog 1 0 thread_epilog_runs t t' m in
    subst IsCounted same (
      let n : w.n_workers - 1 ≡ sum_of runs (set w.tasks i t') =
        omega (arith, h, sum_of-set runs w.tasks i t t' at, a, b) in
      n)

-- However the launches and their threads take turns, `n_workers` is the number of threads that run.
pub Run-IsCounted : (w : OnDemand) → Run ondemand_init w → IsCounted w
unfolding ondemand_init
Run-IsCounted w begin = refl
Run-IsCounted w (next {w = w1} run e s) = step-IsCounted e w1 w (Run-IsCounted w1 run) s
