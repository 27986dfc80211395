-- ===== src/Base/WorkersOndemand/Stuck.antt =====
-- A launch that waits for ever.
use xpn.Prelude.{
  ℕ, zero, suc, ◌+◌, ◌-◌, ◌≡◌, sym, ap, ◌∙◌, subst, Bool, true, false, some, List, [], ◌∷◌,
  get_elem?, get_elem?_bound, get_elem?-set_self, get_elem?-set_ne, set, some_injective,
  some_ne_none, bind_result, ℕ_discrete,
}
use xpn.Base.WorkersOndemand.{
  Thread, missing, created, running, ended, Task, marked, waiting, returned, OnDemand, Event, mark,
  create, prolog, wakeup, epilog, launch_create, launch_return, thread_prolog, thread_epilog,
  run_thread, step,
}
use xpn.Base.WorkersOndemand.Counted.{task_step}

-- No thread of this task is about to start.
abbrev pub NotStarting : Thread → Type 0
NotStarting missing = Unit
NotStarting created = ⊥
NotStarting running = Unit
NotStarting ended = Unit

abbrev pub IsQuiet : Task → Type 0
IsQuiet marked = ⊥
IsQuiet (waiting thread) = NotStarting thread
IsQuiet (returned thread) = NotStarting thread

abbrev pub AllQuiet : List Task → Type 0
AllQuiet [] = Unit
AllQuiet (t ∷ tasks) = IsQuiet t × AllQuiet tasks

-- The launch waits, and nothing is on its way that could wake it.
pub record IsStuck (w : OnDemand) (i : ℕ) : Type 0 where
  pub busy : w.busy_worker ≡ true
  pub quiet : AllQuiet w.tasks
  pub thread : Thread
  pub waits : get_elem? w.tasks i ≡ some (waiting thread)

abbrev pub IsLaunch : Event → Type 0
IsLaunch mark = Unit
IsLaunch (create success i) = ⊥
IsLaunch (prolog i) = ⊥
IsLaunch (wakeup i) = ⊥
IsLaunch (epilog i) = ⊥

-- Runs without a new launch.
pub data Later (start : OnDemand) : OnDemand → Type 0 where
  begin : Later start start
  next :
      {w w' : OnDemand}
      → Later start w
      → (e : Event) → (IsLaunch e → ⊥)
      → step e w ≡ some w'
      → Later start w'

AllQuiet-get :
    (tasks : List Task) (i : ℕ) (t : Task) → AllQuiet tasks → get_elem? tasks i ≡ some t → IsQuiet t
AllQuiet-get [] i t h at = absurd (some_ne_none (sym at))
AllQuiet-get (u ∷ tasks) zero t h at = subst IsQuiet (some_injective at) h.0
AllQuiet-get (u ∷ tasks) (suc i) t h at = AllQuiet-get tasks i t h.1 at

AllQuiet-set :
    (tasks : List Task) (i : ℕ) (t : Task) → AllQuiet tasks → IsQuiet t → AllQuiet (set tasks i t)
AllQuiet-set [] i t h s = tt
AllQuiet-set (u ∷ tasks) zero t h s = (s, h.1)
AllQuiet-set (u ∷ tasks) (suc i) t h s = (h.0, AllQuiet-set tasks i t h.1 s)

quiet_create : (success : Bool) (t t' : Task) → IsQuiet t → launch_create success t ≡ some t' → ⊥
unfolding launch_create
quiet_create success marked t' h e = h
quiet_create success (waiting u) t' h e = some_ne_none (sym e)
quiet_create success (returned u) t' h e = some_ne_none (sym e)

quiet_prolog_thread : (u v : Thread) → NotStarting u → thread_prolog u ≡ some v → ⊥
unfolding thread_prolog
quiet_prolog_thread missing v h e = some_ne_none (sym e)
quiet_prolog_thread created v h e = h
quiet_prolog_thread running v h e = some_ne_none (sym e)
quiet_prolog_thread ended v h e = some_ne_none (sym e)

quiet_prolog : (t t' : Task) → IsQuiet t → run_thread thread_prolog t ≡ some t' → ⊥
unfolding run_thread
quiet_prolog marked t' h e = h
quiet_prolog (waiting u) t' h e =
    let (v, m, e') = bind_result (thread_prolog u) (λ th. some (waiting th)) t' e in
    quiet_prolog_thread u v h m
quiet_prolog (returned u) t' h e =
    let (v, m, e') = bind_result (thread_prolog u) (λ th. some (returned th)) t' e in
    quiet_prolog_thread u v h m

busy_return : (t t' : Task) → launch_return true t ≡ some t' → ⊥
unfolding launch_return
busy_return marked t' e = some_ne_none (sym e)
busy_return (waiting u) t' e = some_ne_none (sym e)
busy_return (returned u) t' e = some_ne_none (sym e)

epilog_quiet_thread : (u v : Thread) → thread_epilog u ≡ some v → NotStarting v
unfolding thread_epilog
epilog_quiet_thread missing v e = absurd (some_ne_none (sym e))
epilog_quiet_thread created v e = absurd (some_ne_none (sym e))
epilog_quiet_thread running v e = subst NotStarting (some_injective e) tt
epilog_quiet_thread ended v e = absurd (some_ne_none (sym e))

-- The end of a thread leaves its task quiet, and waiting if it was.
epilog-IsQuiet :
    (t t' : Task)
    → run_thread thread_epilog t ≡ some t'
    → IsQuiet t' × ((u : Thread) → t ≡ waiting u → (v : Thread) × (t' ≡ waiting v))
unfolding run_thread
epilog-IsQuiet marked t' e = absurd (some_ne_none (sym e))
epilog-IsQuiet (waiting u) t' e =
    let (v, m, e') = bind_result (thread_epilog u) (λ th. some (waiting th)) t' e in
    (
      subst IsQuiet (some_injective e') (epilog_quiet_thread u v m),
      λ u' is. (v, sym (some_injective e')),
    )
epilog-IsQuiet (returned u) t' e =
    let (v, m, e') = bind_result (thread_epilog u) (λ th. some (returned th)) t' e in
    (subst IsQuiet (some_injective e') (epilog_quiet_thread u v m), λ u' is. cc)

step-IsStuck :
    (e : Event) (w w' : OnDemand) (i : ℕ)
    → (IsLaunch e → ⊥)
    → IsStuck w i
    → step e w ≡ some w'
    → IsStuck w' i
unfolding step
step-IsStuck mark w w' i other h e = absurd (other tt)
step-IsStuck (create success j) w w' i other h e =
    let (t, t', at, m, same) =
      task_step w w' j (launch_create success) (λ u. record w { tasks = set w.tasks j u }) e in
    absurd (quiet_create success t t' (AllQuiet-get w.tasks j t h.quiet at) m)
step-IsStuck (prolog j) w w' i other h e =
    let (t, t', at, m, same) =
      task_step w w' j (run_thread thread_prolog)
        (λ u. record { busy_worker = false; n_workers = w.n_workers + 1; tasks = set w.tasks j u })
        e in
    absurd (quiet_prolog t t' (AllQuiet-get w.tasks j t h.quiet at) m)
step-IsStuck (wakeup j) w w' i other h e =
    let (t, t', at, m, same) =
      task_step w w' j (launch_return w.busy_worker)
        (λ u. record w { busy_worker = true; tasks = set w.tasks j u }) e in
    absurd (busy_return t t' (ap (λ b. launch_return b t) (sym h.busy) ∙ m))
step-IsStuck (epilog j) w w' i other h e =
    let (t, t', at, m, same) =
      task_step w w' j (run_thread thread_epilog)
        (λ u. record w { n_workers = w.n_workers - 1; tasks = set w.tasks j u }) e in
    let (q, waits) = epilog-IsQuiet t t' m in
    let kept : (v : Thread) × (get_elem? (set w.tasks j t') i ≡ some (waiting v)) =
      elim (ℕ_discrete j i) [
        | yes is ↦
            let (v, e') =
              waits h.thread (some_injective (sym at ∙ ap (get_elem? w.tasks) is ∙ h.waits)) in
            (
              v,
              ap (get_elem? (set w.tasks j t')) (sym is)
                  ∙ get_elem?-set_self w.tasks j t' (get_elem?_bound w.tasks j t at)
                  ∙ ap some e',
            )
        | no apart ↦ (h.thread, get_elem?-set_ne w.tasks t' apart ∙ h.waits)
      ] in
    subst (λ v. IsStuck v i) same
      (record {
        busy = h.busy;
        quiet = AllQuiet-set w.tasks j t' h.quiet q;
        thread = kept.0;
        waits = kept.1;
      })

-- A launch that waits while `busy_worker` is TRUE, and no thread is about to start and no launch about
-- to make one, waits for ever unless there is a new launch.
pub Later-IsStuck : (w w' : OnDemand) (i : ℕ) → IsStuck w i → Later w w' → IsStuck w' i
Later-IsStuck w w' i h begin = h
Later-IsStuck w w' i h (next {w = w1} run e other s) =
    step-IsStuck e w1 w' i other (Later-IsStuck w w1 i h run) s
