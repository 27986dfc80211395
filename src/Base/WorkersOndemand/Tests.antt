-- ===== src/Base/WorkersOndemand/Tests.antt =====
-- Runs of launches, and the theorem about them at an input that meets its hypotheses.
use xpn.Prelude.{◌≡◌, refl, true, Option, some, [], ◌∷◌, ◌>>=◌}
use xpn.Base.WorkersOndemand.{
  created, running, ended, Task, marked, waiting, returned, OnDemand, ondemand_init, mark, create,
  prolog, wakeup, epilog, launch_create, launch_return, thread_prolog, thread_epilog, run_thread,
  step, can_destroy,
}
use xpn.Base.WorkersOndemand.Serial.{AllSettled}
use xpn.Base.WorkersOndemand.Stuck
use xpn.Base.WorkersOndemand.Stuck.{IsStuck, Later-IsStuck}
use xpn.Base.WorkersOndemand.Destroy.{SerialRun, begin, next, AllEnded, SerialRun-AllEnded}

-- One launch, whose thread has ended.
abbrev one_ended : OnDemand
one_ended = record { busy_worker = true; n_workers = 0; tasks = returned ended ∷ [] }

one_ended-SerialRun : SerialRun one_ended
unfolding ondemand_init step launch_create launch_return run_thread thread_prolog thread_epilog
one_ended-SerialRun =
    next
      (next (next (next (next begin mark tt refl) (create true 0) tt refl) (prolog 0) tt refl)
        (wakeup 0) tt refl)
      (epilog 0) tt refl

SerialRun-AllEnded_example :
    AllSettled one_ended.tasks × (can_destroy one_ended ≡ true → AllEnded one_ended.tasks)
SerialRun-AllEnded_example = SerialRun-AllEnded one_ended one_ended-SerialRun (tt, tt)

-- Two launches at a time: the thread of the first one starts, the second launch takes its signal, and
-- the first one waits until some other thread starts.
abbrev then_step : Option OnDemand → xpn.Base.WorkersOndemand.Event → Option OnDemand
then_step o e = o >>= step e

two_launches :
    then_step
      (then_step
        (then_step
          (then_step (then_step (then_step (some ondemand_init) mark) mark) (create true 0))
          (create true 1))
        (prolog 1))
      (wakeup 0)
    ≡ some (record {
      busy_worker = true;
      n_workers = 1;
      tasks = returned created ∷ waiting running ∷ [];
    })
unfolding ondemand_init step launch_create launch_return run_thread thread_prolog
two_launches = refl

-- Both threads started before a launch was woken: one signal for two.
abbrev both_started : OnDemand
both_started = record {
  busy_worker = true;
  n_workers = 2;
  tasks = returned running ∷ waiting running ∷ [];
}

both_started_reached :
    then_step
      (then_step
        (then_step
          (then_step
            (then_step (then_step (then_step (some ondemand_init) mark) mark) (create true 0))
            (create true 1))
          (prolog 1))
        (prolog 0))
      (wakeup 0)
    ≡ some both_started
unfolding ondemand_init step launch_create launch_return run_thread thread_prolog
both_started_reached = refl

both_started-IsStuck : IsStuck both_started 1
both_started-IsStuck = record {
  busy = refl;
  quiet = (tt, (tt, tt));
  thread = running;
  waits = refl;
}

Later-IsStuck_example :
    IsStuck
      (record { busy_worker = true; n_workers = 1; tasks = returned ended ∷ waiting running ∷ [] })
      1
unfolding step run_thread thread_epilog
Later-IsStuck_example =
    Later-IsStuck both_started
      (record { busy_worker = true; n_workers = 1; tasks = returned ended ∷ waiting running ∷ [] })
      1 both_started-IsStuck (Stuck.next Stuck.begin (epilog 0) (λ x. x) refl)
