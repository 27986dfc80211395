-- ===== src/Base/WorkersOndemand/Destroy.antt =====
-- Runs in which each launch returns before the next one begins.
use xpn.Prelude.{
  ◌+◌, ◌-◌, ◌≡◌, refl, sym, ◌∙◌, subst, Bool, true, false, arith, some, List, [], ◌∷◌, set, sum_of,
  some_injective,
}
use xpn.Base.WorkersOndemand.{
  missing, created, running, ended, Task, marked, waiting, returned, OnDemand, ondemand_init, Event,
  mark, create, prolog, wakeup, epilog, launch_create, launch_return, thread_prolog, thread_epilog,
  run_thread, step, can_destroy,
}
use xpn.Base.WorkersOndemand.Counted.{runs, IsCounted, task_step, step-IsCounted}
use xpn.Base.WorkersOndemand.Serial.{
  AllSettled, IsSerial, IsSerial-set, create-IsLast, return-IsLast, prolog-IsLast, epilog-IsLast,
}

-- Each launch returned.
abbrev pub HasReturned : Task → Type 0
HasReturned marked = ⊥
HasReturned (waiting thread) = ⊥
HasReturned (returned thread) = Unit

abbrev pub AllReturned : List Task → Type 0
AllReturned [] = Unit
AllReturned (t ∷ tasks) = HasReturned t × AllReturned tasks

abbrev pub AllEnded : List Task → Type 0
AllEnded [] = Unit
AllEnded (t ∷ tasks) = (t ≡ returned ended) × AllEnded tasks

abbrev pub MayStep : Event → OnDemand → Type 0
MayStep mark w = AllReturned w.tasks
MayStep (create success i) w = Unit
MayStep (prolog i) w = Unit
MayStep (wakeup i) w = Unit
MayStep (epilog i) w = Unit

-- A launch begins only when the others returned; threads start and end whenever they do.
pub data SerialRun : OnDemand → Type 0 where
  begin : SerialRun ondemand_init
  next :
      {w w' : OnDemand}
      → SerialRun w
      → (e : Event) → MayStep e w
      → step e w ≡ some w'
      → SerialRun w'

returned-AllSettled :
    (busy : Bool) (tasks : List Task) → IsSerial busy tasks → AllReturned tasks → AllSettled tasks
returned-AllSettled busy [] h r = tt
returned-AllSettled busy (marked ∷ tasks) h r = absurd r.0
returned-AllSettled busy (waiting u ∷ tasks) h r = absurd r.0
returned-AllSettled busy (returned u ∷ tasks) h r = (h.0, h.1)

step-IsSerial :
    (e : Event) (w w' : OnDemand)
    → MayStep e w
    → IsSerial w.busy_worker w.tasks
    → step e w ≡ some w'
    → IsSerial w'.busy_worker w'.tasks
unfolding step
step-IsSerial mark w w' may h e =
    subst (λ v. IsSerial v.busy_worker v.tasks) (some_injective e)
      (refl, returned-AllSettled w.busy_worker w.tasks h may)
step-IsSerial (create success i) w w' may h e =
    let (t, t', at, m, same) =
      task_step w w' i (launch_create success) (λ u. record w { tasks = set w.tasks i u }) e in
    let (a, b) = create-IsLast success w.busy_worker t t' m in
    subst (λ v. IsSerial v.busy_worker v.tasks) same
      (IsSerial-set w.busy_worker w.busy_worker w.tasks i t t' h at a b)
step-IsSerial (prolog i) w w' may h e =
    let (t, t', at, m, same) =
      task_step w w' i (run_thread thread_prolog)
        (λ u. record { busy_worker = false; n_workers = w.n_workers + 1; tasks = set w.tasks i u })
        e in
    let (a, b) = prolog-IsLast w.busy_worker t t' m in
    subst (λ v. IsSerial v.busy_worker v.tasks) same
      (IsSerial-set w.busy_worker false w.tasks i t t' h at a b)
step-IsSerial (wakeup i) w w' may h e =
    let (t, t', at, m, same) =
      task_step w w' i (launch_return w.busy_worker)
        (λ u. record w { busy_worker = true; tasks = set w.tasks i u }) e in
    let (a, b) = return-IsLast w.busy_worker t t' m in
    subst (λ v. IsSerial v.busy_worker v.tasks) same
      (IsSerial-set w.busy_worker true w.tasks i t t' h at a b)
step-IsSerial (epilog i) w w' may h e =
    let (t, t', at, m, same) =
      task_step w w' i (run_thread thread_epilog)
        (λ u. record w { n_workers = w.n_workers - 1; tasks = set w.tasks i u }) e in
    let (a, b) = epilog-IsLast w.busy_worker t t' m in
    subst (λ v. IsSerial v.busy_worker v.tasks) same
      (IsSerial-set w.busy_worker w.busy_worker w.tasks i t t' h at a b)

reached : (w : OnDemand) → SerialRun w → IsSerial w.busy_worker w.tasks × IsCounted w
unfolding ondemand_init
reached w begin = (tt, refl)
reached w (next {w = w1} run e may s) =
    let (h, c) = reached w1 run in (step-IsSerial e w1 w may h s, step-IsCounted e w1 w c s)

settled-AllEnded : (tasks : List Task) → AllSettled tasks → sum_of runs tasks ≡ 0 → AllEnded tasks
settled-AllEnded [] h n = tt
settled-AllEnded (marked ∷ tasks) h n = absurd h.0
settled-AllEnded (waiting u ∷ tasks) h n = absurd h.0
settled-AllEnded (returned missing ∷ tasks) h n = absurd h.0
settled-AllEnded (returned created ∷ tasks) h n = absurd h.0
settled-AllEnded (returned running ∷ tasks) h n = absurd (omega (arith, n))
settled-AllEnded (returned ended ∷ tasks) h n =
    (refl, settled-AllEnded tasks h.1 (omega (arith, n)))

-- When all launches returned, each thread has its own copy of the arguments; and when
-- `workers_ondemand_destroy` then goes on, each thread has ended.
pub SerialRun-AllEnded :
    (w : OnDemand)
    → SerialRun w
    → AllReturned w.tasks
    → AllSettled w.tasks × (can_destroy w ≡ true → AllEnded w.tasks)
unfolding can_destroy
SerialRun-AllEnded w run r =
    let (h, c) = reached w run in
    let settled : AllSettled w.tasks = returned-AllSettled w.busy_worker w.tasks h r in
    (
      settled,
      λ z. settled-AllEnded w.tasks settled (sym c ∙ (let e : w.n_workers ≡ 0 = ground arith in e)),
    )
