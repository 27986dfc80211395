-- ===== src/Base/WorkersOndemand/Serial.antt =====
-- One launch at a time: when it returns, its thread has its own copy of the arguments.
use xpn.Prelude.{
  ℕ, zero, suc, ◌≡◌, refl, sym, subst, Bool, true, false, some, List, [], ◌∷◌, get_elem?, set,
  some_injective, some_ne_none, bind_result, ◌⊎◌, inl, inr,
}
use xpn.Base.WorkersOndemand.{
  Thread, missing, created, running, ended, Task, marked, waiting, returned, launch_create,
  launch_return, thread_prolog, thread_epilog, run_thread,
}

-- The thread has copied its arguments.
abbrev pub IsPast : Thread → Type 0
IsPast missing = ⊥
IsPast created = ⊥
IsPast running = Unit
IsPast ended = Unit

-- The launch returned, and its thread has copied its arguments.
abbrev pub IsSettled : Task → Type 0
IsSettled marked = ⊥
IsSettled (waiting thread) = ⊥
IsSettled (returned thread) = IsPast thread

abbrev pub AllSettled : List Task → Type 0
AllSettled [] = Unit
AllSettled (t ∷ tasks) = IsSettled t × AllSettled tasks

-- The last launch: it may be on its way, and once `busy_worker` is FALSE its thread has the arguments.
abbrev pub IsLast : (busy : Bool) → Task → Type 0
IsLast busy marked = busy ≡ true
IsLast busy (waiting thread) = (busy ≡ true) ⊎ IsPast thread
IsLast busy (returned thread) = IsPast thread

abbrev pub IsSerial : (busy : Bool) → List Task → Type 0
IsSerial busy [] = Unit
IsSerial busy (t ∷ tasks) = IsLast busy t × AllSettled tasks

AllSettled-get :
    (tasks : List Task) (i : ℕ) (t : Task)
    → AllSettled tasks
    → get_elem? tasks i ≡ some t
    → IsSettled t
AllSettled-get [] i t h at = absurd (some_ne_none (sym at))
AllSettled-get (u ∷ tasks) zero t h at = subst IsSettled (some_injective at) h.0
AllSettled-get (u ∷ tasks) (suc i) t h at = AllSettled-get tasks i t h.1 at

AllSettled-set :
    (tasks : List Task) (i : ℕ) (t : Task)
    → AllSettled tasks
    → IsSettled t
    → AllSettled (set tasks i t)
AllSettled-set [] i t h s = tt
AllSettled-set (u ∷ tasks) zero t h s = (s, h.1)
AllSettled-set (u ∷ tasks) (suc i) t h s = (h.0, AllSettled-set tasks i t h.1 s)

-- A step of the last launch, or of one that is settled.
pub IsSerial-set :
    (busy busy' : Bool) (tasks : List Task) (i : ℕ) (t t' : Task)
    → IsSerial busy tasks
    → get_elem? tasks i ≡ some t
    → (IsLast busy t → IsLast busy' t')
    → (IsSettled t → IsSettled t' × (busy ≡ busy'))
    → IsSerial busy' (set tasks i t')
IsSerial-set busy busy' [] i t t' h at last settled = tt
IsSerial-set busy busy' (u ∷ tasks) zero t t' h at last settled =
    (last (subst (IsLast busy) (some_injective at) h.0), h.1)
IsSerial-set busy busy' (u ∷ tasks) (suc i) t t' h at last settled =
    let (s, same) = settled (AllSettled-get tasks i t h.1 at) in
    (subst (λ b. IsLast b u) same h.0, AllSettled-set tasks i t' h.1 s)

pub create-IsLast :
    (success busy : Bool) (t t' : Task)
    → launch_create success t ≡ some t'
    → (IsLast busy t → IsLast busy t') × (IsSettled t → IsSettled t' × (busy ≡ busy))
unfolding launch_create
create-IsLast success busy marked t' e =
    (λ h. subst (IsLast busy) (some_injective e) (inl h), λ h. absurd h)
create-IsLast success busy (waiting th) t' e = absurd (some_ne_none (sym e))
create-IsLast success busy (returned th) t' e = absurd (some_ne_none (sym e))

pub return-IsLast :
    (busy : Bool) (t t' : Task)
    → launch_return busy t ≡ some t'
    → (IsLast busy t → IsLast true t') × (IsSettled t → IsSettled t' × (busy ≡ true))
unfolding launch_return
return-IsLast busy marked t' e = absurd (some_ne_none (sym e))
return-IsLast true (waiting th) t' e = absurd (some_ne_none (sym e))
return-IsLast false (waiting th) t' e =
    (λ h. subst (IsLast true) (some_injective e) (past th h), λ h. absurd h)
  where
    past : (u : Thread) → (false ≡ true) ⊎ IsPast u → IsPast u
    past u (inl h) = absurd (let f : false ≡ true = h in cc)
    past u (inr h) = h
return-IsLast busy (returned th) t' e = absurd (some_ne_none (sym e))

prolog-IsPast : (u v : Thread) → thread_prolog u ≡ some v → IsPast v × (IsPast u → ⊥)
unfolding thread_prolog
prolog-IsPast missing v e = absurd (some_ne_none (sym e))
prolog-IsPast created v e = (subst IsPast (some_injective e) tt, λ h. h)
prolog-IsPast running v e = absurd (some_ne_none (sym e))
prolog-IsPast ended v e = absurd (some_ne_none (sym e))

pub prolog-IsLast :
    (busy : Bool) (t t' : Task)
    → run_thread thread_prolog t ≡ some t'
    → (IsLast busy t → IsLast false t') × (IsSettled t → IsSettled t' × (busy ≡ false))
unfolding run_thread
prolog-IsLast busy marked t' e = absurd (some_ne_none (sym e))
prolog-IsLast busy (waiting u) t' e =
    let (v, m, e') = bind_result (thread_prolog u) (λ th. some (waiting th)) t' e in
    (λ h. subst (IsLast false) (some_injective e') (inr (prolog-IsPast u v m).0), λ h. absurd h)
prolog-IsLast busy (returned u) t' e =
    let (v, m, e') = bind_result (thread_prolog u) (λ th. some (returned th)) t' e in
    (
      λ h. subst (IsLast false) (some_injective e') (prolog-IsPast u v m).0,
      λ h. absurd ((prolog-IsPast u v m).1 h),
    )

epilog-IsPast : (u v : Thread) → thread_epilog u ≡ some v → IsPast v
unfolding thread_epilog
epilog-IsPast missing v e = absurd (some_ne_none (sym e))
epilog-IsPast created v e = absurd (some_ne_none (sym e))
epilog-IsPast running v e = subst IsPast (some_injective e) tt
epilog-IsPast ended v e = absurd (some_ne_none (sym e))

pub epilog-IsLast :
    (busy : Bool) (t t' : Task)
    → run_thread thread_epilog t ≡ some t'
    → (IsLast busy t → IsLast busy t') × (IsSettled t → IsSettled t' × (busy ≡ busy))
unfolding run_thread
epilog-IsLast busy marked t' e = absurd (some_ne_none (sym e))
epilog-IsLast busy (waiting u) t' e =
    let (v, m, e') = bind_result (thread_epilog u) (λ th. some (waiting th)) t' e in
    (λ h. subst (IsLast busy) (some_injective e') (inr (epilog-IsPast u v m)), λ h. absurd h)
epilog-IsLast busy (returned u) t' e =
    let (v, m, e') = bind_result (thread_epilog u) (λ th. some (returned th)) t' e in
    (
      λ h. subst (IsLast busy) (some_injective e') (epilog-IsPast u v m),
      λ h. (subst IsSettled (some_injective e') (epilog-IsPast u v m), refl),
    )
