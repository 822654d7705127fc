-- ===== src/Process/Tests.antt =====
-- The first process, 1, waits for a child; its child 2 runs and has the children 4 and 3, of which 3 is a
-- zombie. 0 is idle and 5 is a new process structure.
use nku_os_lab.Base.{
  ==_of_ne, ℕ, zero, suc, ◌<◌, ◌≡◌, ◌≢◌, refl, Bool, true, false, none, some, List, [], ◌∷◌, ltb,
  ◌==◌, if◌then◌else◌, arith, update,
}
use nku_os_lab.Base.Int.{pos}
use nku_os_lab.Base.Outcome.{ok, panic}
use nku_os_lab.Buffer.{e_no_mem}
use nku_os_lab.SkewHeap.{nil}
use nku_os_lab.Sched.{
  ProcState, proc_uninit, proc_sleeping, proc_runnable, proc_zombie, is_zombie, Kernel,
}
use nku_os_lab.Sched.Queued.{IsKernel}
use nku_os_lab.Sched.RoundRobin.{occurs, unlink, default_sched_class, default_sched_class-Lawful}
use nku_os_lab.Pid.{max_pid}
use nku_os_lab.Process.{
  Links, Procs, wt_child, hash32, find_proc, bad_proc, wait_pass, reap, do_exit,
}
use nku_os_lab.Process.Family.{IsSiblings, IsFamily}
use nku_os_lab.Process.Exit.{Exited, do_exit-Exited}
use nku_os_lab.Process.Find.{IsHashed}
use nku_os_lab.Process.Wait.{first_zombie, answer, Answered, wait_pass_lem}
use nku_os_lab.Process.Reap.{reap_lem}
use nku_os_lab.Process.Fork.{do_fork}
use nku_os_lab.Process.Kept.{IsProcs, Forked}
use nku_os_lab.Process.Forked.{do_fork_lem}

abbrev state_of : ℕ → ProcState
state_of p =
    if p == 1
    then proc_sleeping
    else if p == 3
    then proc_zombie
    else if ltb p 5
    then proc_runnable
    else proc_uninit

abbrev kernel : Kernel
kernel = record {
  procs = λ p. record {
    state = state_of p;
    runs = 1;
    need_resched = false;
    wait_state = if p == 1 then wt_child else 0;
    in_rq = true;
    time_slice = 5;
    lab6_stride = 0;
    lab6_priority = 1;
  };
  run_list = 4 ∷ [];
  run_pool = nil;
  proc_num = 1;
  max_time_slice = 5;
  current = 2;
  idleproc = 0;
}

abbrev links : Links
links = record {
  parent = λ p. if ltb p 3 then (if p == 2 then 1 else 0) else 2;
  cptr = λ p. if p == 0 then some 1 else if p == 1 then some 2 else if p == 2 then some 4 else none;
  yptr = λ p. if p == 3 then some 4 else none;
  optr = λ p. if p == 4 then some 3 else none;
  proc_list = 4 ∷ 3 ∷ 2 ∷ 1 ∷ [];
  nr_process = 5;
}

abbrev kids : ℕ → List ℕ
kids p = if p == 0 then 1 ∷ [] else if p == 1 then 2 ∷ [] else if p == 2 then 4 ∷ 3 ∷ [] else []

abbrev procs : Procs
procs = record {
  links = links;
  pid = λ p. p;
  hash_list = λ h.
      if h == 632
      then 1 ∷ []
      else if h == 241
      then 2 ∷ []
      else if h == 874
      then 3 ∷ []
      else if h == 483
      then 4 ∷ []
      else [];
  kernel = kernel;
  exit_code = λ p. pos 7;
  exiting = λ p. false;
  initproc = 1;
  last_pid = 4;
  next_safe = max_pid;
}

kernel-IsKernel : IsKernel default_sched_class-Lawful kernel
unfolding default_sched_class-Lawful occurs
kernel-IsKernel = record {
  valid = record { once = λ p. ground arith; marked = λ p e. refl; counted = refl };
  queued = λ p. ground arith;
}

lines : (x : ℕ) → IsSiblings links x none (links.cptr x) (kids x)
lines zero = (refl, refl, refl, refl)
lines (suc zero) = (refl, refl, refl, refl)
lines (suc (suc zero)) = (refl, refl, refl, (refl, refl, refl, refl))
lines (suc (suc (suc n))) =
    rw
      (
        ==_of_ne (suc (suc (suc n))) 0 (λ e. omega (arith, e)),
        ==_of_ne (suc (suc (suc n))) 1 (λ e. omega (arith, e)),
        ==_of_ne (suc (suc (suc n))) 2 (λ e. omega (arith, e)),
      )
      refl

links-IsFamily : IsFamily links kids
unfolding occurs
links-IsFamily = record { lines = lines; once = λ x c. ground arith }

procs-IsHashed : IsHashed (4 ∷ 3 ∷ 2 ∷ 1 ∷ []) procs
unfolding occurs hash32
procs-IsHashed = record {
  placed = λ h p o. ground (arith, o);
  present = λ p o. ground (arith, o);
  once = λ p. ground arith;
  unique = λ p q o i e. e;
  range = λ p o. ground (arith, o);
}

do_exit-Exited_example :
    (t : Procs) × (kids' : ℕ → List ℕ) × (do_exit default_sched_class 2 (pos 9) procs ≡ ok t)
    × Exited default_sched_class-Lawful (pos 9) procs t kids kids'
do_exit-Exited_example =
    do_exit-Exited default_sched_class-Lawful 2 (pos 9) procs kids links-IsFamily kernel-IsKernel
      (λ e. omega (arith, e)) (λ e. omega (arith, e)) (λ e. omega (arith, e)) refl refl
      (omega arith)

wait_pass_lem_example :
    (◌≡◌ {A = ℕ} 0 0
      → wait_pass 3 0 procs
        ≡ ok
            (answer false (kids 2) (first_zombie (λ c. is_zombie (kernel.procs c).state) (kids 2))))
    × (◌≢◌ {A = ℕ} 0 0
        → ((p : ℕ)
            → 0 < occurs p (4 ∷ 3 ∷ 2 ∷ 1 ∷ [])
            → p ≡ 0
            → Answered 0 (4 ∷ 3 ∷ 2 ∷ 1 ∷ []) procs (wait_pass 3 0 procs) p)
          × (((p : ℕ) → 0 < occurs p (4 ∷ 3 ∷ 2 ∷ 1 ∷ []) → p ≢ 0)
              → wait_pass 3 0 procs ≡ ok bad_proc))
wait_pass_lem_example =
    wait_pass_lem 3 0 procs kids (4 ∷ 3 ∷ 2 ∷ 1 ∷ []) links-IsFamily procs-IsHashed (omega arith)

reap_lem_example :
    (t : Procs) × (reap 3 procs ≡ ok (pos 7, t))
    × IsFamily t.links (update kids 2 (unlink 3 (kids 2)))
    × IsHashed (unlink 3 (4 ∷ 3 ∷ 2 ∷ 1 ∷ [])) t
    × (find_proc 3 t ≡ none)
    × ((q : ℕ) → 0 < occurs q (4 ∷ 3 ∷ 2 ∷ 1 ∷ []) → 3 ≢ q → find_proc q t ≡ some q)
unfolding occurs
reap_lem_example =
    reap_lem 3 procs kids (4 ∷ 3 ∷ 2 ∷ 1 ∷ []) links-IsFamily procs-IsHashed refl refl
      (λ e. omega (arith, e)) (λ e. omega (arith, e))

procs-IsProcs : IsProcs default_sched_class-Lawful kids procs
unfolding occurs
procs-IsProcs = record {
  family = links-IsFamily;
  listed = λ y c o. ground (arith, o);
  hashed = procs-IsHashed;
  kernel = kernel-IsKernel;
  settled = λ p o. ground (arith, o);
  bounded = omega arith;
  counted = omega arith;
}

do_fork_lem_example :
    (do_fork default_sched_class none true true true procs ≡ ok (e_no_mem, procs))
    × (◌≢◌ {A = ℕ} 0 0 → do_fork default_sched_class (some 5) true true true procs ≡ panic)
    × (◌≡◌ {A = ℕ} 0 0
        → (◌≡◌ {A = Bool} true false
            → (t : Procs) × (do_fork default_sched_class (some 5) true true true procs
                ≡ ok (e_no_mem, t))
              × IsProcs default_sched_class-Lawful kids t)
          × (◌≡◌ {A = Bool} true true
              → (n : ℕ) × (t : Procs) × (do_fork default_sched_class (some 5) true true true procs
                  ≡ ok (pos n, t))
                × Forked default_sched_class-Lawful 5 n kids procs t))
unfolding occurs
do_fork_lem_example =
    do_fork_lem default_sched_class-Lawful 5 kids procs procs-IsProcs refl refl (omega arith) true
      true true
