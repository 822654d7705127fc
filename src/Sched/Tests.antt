-- ===== src/Sched/Tests.antt =====
-- A run list of two processes and a run pool of three, and the calls on them.
use nku_os_lab.Base.{
  ◌<◌, ℕ, ◌+◌, ◌≡◌, refl, true, false, ◌&&◌, [], ◌∷◌, ltb, ◌==◌, if◌then◌else◌, arith, ◌-◌, ◌%◌,
  ◌^◌,
}
use nku_os_lab.Base.Outcome.{ok, panic}
use nku_os_lab.SkewHeap.{Heap, nil, node}
use nku_os_lab.SkewHeap.Counts.{count, size}
use nku_os_lab.SkewHeap.Order.{IsHeap}
use nku_os_lab.Sched.{
  proc_uninit, proc_sleeping, proc_runnable, is_runnable, is_zombie, Proc, Kernel, schedule,
  wakeup_proc,
}
use nku_os_lab.Sched.Queued.{IsKernel, Chosen}
use nku_os_lab.Sched.Dispatch.{schedule-Chosen}
use nku_os_lab.Sched.Wake.{Woken, wakeup_proc-Woken}
use nku_os_lab.Sched.RoundRobin.{occurs, default_sched_class, default_sched_class-Lawful}
use nku_os_lab.Sched.Turns.{schedule_times, schedule_times-current}
use nku_os_lab.Sched.Stride.{stride_pick_next}
use nku_os_lab.Sched.Window.{IsPool}
use nku_os_lab.Sched.Least.{Turn, stride_turn}

-- 0 is idle, 1 runs, 2 and 3 wait for their turn and 4 sleeps.
abbrev tasks : ℕ → Proc
tasks p = record {
  state = if ltb p 4 then proc_runnable else if p == 4 then proc_sleeping else proc_uninit;
  runs = 7;
  need_resched = true;
  wait_state = 0;
  in_rq = ltb 1 p && ltb p 4;
  time_slice = 5;
  lab6_stride = 0;
  lab6_priority = 1;
}

abbrev machine : Kernel
machine = record {
  procs = tasks;
  run_list = 2 ∷ 3 ∷ [];
  run_pool = nil;
  proc_num = 2;
  max_time_slice = 5;
  current = 1;
  idleproc = 0;
}

machine-IsKernel : IsKernel default_sched_class-Lawful machine
unfolding default_sched_class-Lawful occurs
machine-IsKernel = record {
  valid = record { once = λ p. ground arith; marked = λ p e. ground (arith, e); counted = refl };
  queued = λ p. ground arith;
}

schedule-Chosen_example :
    (t : Kernel) × (schedule default_sched_class machine ≡ ok t)
    × Chosen default_sched_class-Lawful machine t
schedule-Chosen_example = schedule-Chosen default_sched_class-Lawful machine machine-IsKernel

wakeup_proc-Woken_example :
    (is_zombie proc_sleeping ≡ true → wakeup_proc default_sched_class 4 machine ≡ panic)
    × (is_zombie proc_sleeping ≡ false
        → is_runnable proc_sleeping ≡ true
        → wakeup_proc default_sched_class 4 machine ≡ ok machine)
    × (is_zombie proc_sleeping ≡ false
        → is_runnable proc_sleeping ≡ false
        → (t : Kernel) × (wakeup_proc default_sched_class 4 machine ≡ ok t)
          × Woken default_sched_class-Lawful machine 4 machine-IsKernel t)
wakeup_proc-Woken_example = wakeup_proc-Woken default_sched_class-Lawful machine 4 machine-IsKernel

schedule_times-current_example : (t : Kernel) × (schedule_times 2 machine ≡ ok t) × (t.current ≡ 3)
schedule_times-current_example = schedule_times-current 1 machine 3 machine-IsKernel refl

-- The strides: that of 6 has gone over 2^32.
abbrev strides : ℕ → ℕ
strides p = if p == 6 then 2 ^ 32 + 2 ^ 10 else 2 ^ 32 - 2 ^ 20

abbrev runners : ℕ → Proc
runners p = record {
  state = proc_runnable;
  runs = 1;
  need_resched = false;
  wait_state = 0;
  in_rq = true;
  time_slice = 5;
  lab6_stride = strides p % 2 ^ 32;
  lab6_priority = 3;
}

abbrev pool : Heap
pool = node 5 (node 6 nil nil) (node 7 nil nil)

abbrev pool_machine : Kernel
pool_machine = record {
  procs = runners;
  run_list = [];
  run_pool = pool;
  proc_num = 3;
  max_time_slice = 5;
  current = 1;
  idleproc = 0;
}

pool-IsHeap : IsHeap strides pool
pool-IsHeap =
    ((omega arith, tt, tt), (omega arith, tt, tt), ((tt, tt, (tt, tt)), (tt, tt, (tt, tt))))

pool-IsPool : IsPool strides pool_machine
unfolding count size
pool-IsPool = record {
  stands = λ p. refl;
  window = λ p q a b. ground (arith, a, b);
  heap = pool-IsHeap;
  once = λ p. ground arith;
  marked = λ p c. refl;
  counted = refl;
  bounded = omega arith;
}

stride_turn_example :
    ((pool_machine.procs 5).lab6_priority ≡ 0 → stride_pick_next pool_machine ≡ panic)
    × (0 < (pool_machine.procs 5).lab6_priority
        → Turn strides pool_machine 5 (node 6 nil nil) (node 7 nil nil) pool-IsPool refl)
stride_turn_example =
    stride_turn strides pool_machine 5 (node 6 nil nil) (node 7 nil nil) pool-IsPool refl
