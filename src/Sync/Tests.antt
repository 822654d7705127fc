-- ===== src/Sync/Tests.antt =====
-- A semaphore of value zero for which two processes wait, one that is free, and a call of each
-- operation.
use nku_os_lab.Base.{
  ℕ, ◌≡◌, refl, true, false, [], ◌∷◌, ltb, ◌==◌, update, if◌then◌else◌, false-ne-true, arith,
}
use nku_os_lab.Base.Outcome.{ok}
use nku_os_lab.SkewHeap.{nil}
use nku_os_lab.Sched.{proc_uninit, proc_sleeping, proc_runnable, Proc, Kernel}
use nku_os_lab.Sched.Queued.{IsKernel}
use nku_os_lab.Sched.RoundRobin.{occurs, default_sched_class, default_sched_class-Lawful}
use nku_os_lab.Sync.{Sync, is_positive, wt_ksem, down_begin, try_down, up}
use nku_os_lab.Sync.Waiting.{Sleeps, IsSemaphore, less_one, down_begin_lem}
use nku_os_lab.Sync.HandOver.{Upped, up-Upped}
use nku_os_lab.Sync.Runs.{begin, by_up, by_try, Balanced, Run-Balanced}

-- 0 is idle, 1 runs, 2 is in the run list, and 4 and 5 sleep for the semaphore.
abbrev users : ℕ → Proc
users p = record {
  state =
      if ltb p 3
      then proc_runnable
      else if (p == 4)
      then proc_sleeping
      else if (p == 5)
      then proc_sleeping
      else proc_uninit;
  runs = 1;
  need_resched = false;
  wait_state = if ltb 3 p then wt_ksem else 0;
  in_rq = true;
  time_slice = 5;
  lab6_stride = 0;
  lab6_priority = 1;
}

abbrev kernel : Kernel
kernel = record {
  procs = users;
  run_list = 2 ∷ [];
  run_pool = nil;
  proc_num = 1;
  max_time_slice = 5;
  current = 1;
  idleproc = 0;
}

abbrev system : Sync
system = record {
  kernel = kernel;
  waits = λ w. record { proc = w; wakeup_flags = 0x80000000; wait_queue = 9; linked = true };
  queues = λ q. if q == 9 then 4 ∷ 5 ∷ [] else [];
  value = λ q. 0;
}

kernel-IsKernel : IsKernel default_sched_class-Lawful kernel
unfolding default_sched_class-Lawful occurs
kernel-IsKernel = record {
  valid = record { once = λ p. ground arith; marked = λ p e. refl; counted = refl };
  queued = λ p. ground arith;
}

system-IsSemaphore : IsSemaphore default_sched_class-Lawful 9 system
unfolding occurs
system-IsSemaphore = record {
  kernel = kernel-IsKernel;
  idle = λ l. absurd (false-ne-true l);
  once = λ w. ground arith;
  sleeps = λ w o. record {
    linked = refl;
    at = refl;
    state = ground (arith, o);
    wait_state = ground (arith, o);
  };
  apart = λ v w a b e. e;
}

up-Upped_example :
    (t : Sync) × (up default_sched_class 9 system ≡ ok t)
    × IsSemaphore default_sched_class-Lawful 9 t
    × Upped default_sched_class-Lawful 9 system system-IsSemaphore (4 ∷ 5 ∷ []) t
up-Upped_example = up-Upped default_sched_class-Lawful 9 system system-IsSemaphore

down_begin_lem_example :
    (is_positive (system.value 9) ≡ true
      → (down_begin 9 1 wt_ksem system ≡ ok (true, less_one default_sched_class-Lawful 9 system))
        × (try_down 9 system ≡ (true, less_one default_sched_class-Lawful 9 system))
        × IsSemaphore default_sched_class-Lawful 9 (less_one default_sched_class-Lawful 9 system))
    × (is_positive (system.value 9) ≡ false
        → (try_down 9 system ≡ (false, system))
          × (t : Sync) × (down_begin 9 1 wt_ksem system ≡ ok (false, t))
          × IsSemaphore default_sched_class-Lawful 9 t
          × Sleeps 9 t 1
          × (t.queues 9 ≡ 4 ∷ 5 ∷ 1 ∷ [])
          × ((t.waits 1).proc ≡ 1)
          × (t.value 9 ≡ system.value 9))
unfolding occurs
down_begin_lem_example =
    down_begin_lem default_sched_class-Lawful 9 1 system system-IsSemaphore refl refl

-- The semaphore 8, for which no process waits, after `up` and then after `try_down`.
abbrev after_up : Sync
after_up = record system { value = update system.value 8 1 }

abbrev after_down : Sync
after_down = record after_up { value = update after_up.value 8 0 }

free-IsSemaphore : IsSemaphore default_sched_class-Lawful 8 system
unfolding occurs
free-IsSemaphore = record {
  kernel = kernel-IsKernel;
  idle = λ l. refl;
  once = λ w. omega arith;
  sleeps = λ w o. absurd (omega (arith, o));
  apart = λ v w a b e. e;
}

Run-Balanced_example : Balanced default_sched_class-Lawful 8 0 1 1 after_down
unfolding up try_down
Run-Balanced_example =
    Run-Balanced default_sched_class-Lawful 8 0 system 1 1 after_down free-IsSemaphore refl
      (omega arith) (by_try true (by_up begin refl) refl)
