-- ===== src/Timers/Tests.antt =====
-- Three timers, two of which expire at the next tick.
use nku_os_lab.Base.{ltb, if◌then◌else◌, ℕ, ◌<◌, ◌≡◌, refl, true, false, List, ◌∷◌, [], arith}
use nku_os_lab.Base.Outcome.{ok, panic}
use nku_os_lab.SkewHeap.{nil}
use nku_os_lab.Sched.{proc_sleeping, proc_runnable, Kernel}
use nku_os_lab.Sched.Queued.{IsKernel}
use nku_os_lab.Sched.RoundRobin.{occurs, default_sched_class, default_sched_class-Lawful}
use nku_os_lab.Timers.{Timer, is_linked, add_timer, del_timer, run_timer_list}
use nku_os_lab.Timers.Deadlines.{
  deadlines, insert, remove, total, add_timer-deadlines, del_timer-deadlines,
}
use nku_os_lab.Timers.Run.{Ticks, run_timer_list-Ticks}

abbrev timer : ℕ → ℕ → Timer
timer key expires = record { key = key; expires = expires; proc = key }

abbrev timers : List Timer
timers = timer 10 1 ∷ timer 11 0 ∷ timer 12 4 ∷ []

add_timer-deadlines_example :
    (0 < 3
      → is_linked 13 timers ≡ false
      → (us : List Timer) × (add_timer (timer 13 3) timers ≡ ok us)
        × (deadlines 0 us ≡ insert (timer 13 3) (deadlines 0 timers)))
    × ((timer 13 3).expires ≡ 0 → add_timer (timer 13 3) timers ≡ panic)
    × (is_linked 13 timers ≡ true → add_timer (timer 13 3) timers ≡ panic)
add_timer-deadlines_example = add_timer-deadlines (timer 13 3) timers

del_timer-deadlines_example : deadlines 0 (del_timer 10 timers) ≡ remove 10 (deadlines 0 timers)
unfolding total
del_timer-deadlines_example = del_timer-deadlines 10 0 timers (omega arith)

-- The processes 10, 11 and 12 sleep, 1 runs and 0 is idle.
abbrev kernel : Kernel
kernel = record {
  procs = λ p. record {
    state = if ltb p 2 then proc_runnable else proc_sleeping;
    runs = 1;
    need_resched = false;
    wait_state = if ltb p 2 then 0 else 0x80000002;
    in_rq = false;
    time_slice = 5;
    lab6_stride = 0;
    lab6_priority = 1;
  };
  run_list = [];
  run_pool = nil;
  proc_num = 0;
  max_time_slice = 5;
  current = 1;
  idleproc = 0;
}

kernel-IsKernel : IsKernel default_sched_class-Lawful kernel
unfolding default_sched_class-Lawful occurs
kernel-IsKernel = record {
  valid = record { once = λ p. omega arith; marked = λ p e. ground (arith, e); counted = refl };
  queued = λ p. ground arith;
}

run_timer_list-Ticks_example :
    Ticks default_sched_class-Lawful
      (deadlines 0 timers)
      kernel
      (run_timer_list default_sched_class timers kernel)
run_timer_list-Ticks_example =
    run_timer_list-Ticks default_sched_class-Lawful timers kernel kernel-IsKernel
      (refl, refl, (refl, refl, (refl, refl, tt))) (omega arith)
