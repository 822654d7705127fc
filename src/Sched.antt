-- ===== src/Sched.antt =====
-- Lab8/code/kern/schedule/sched.c and sched.h: the scheduler over a scheduling class. Interrupts are
-- off in each of the functions, so that each is one step. A process is a number.
pub mod Laws
pub mod Queued
pub mod Dispatch
pub mod Wake
pub mod RoundRobin
pub mod Unlink
pub mod Turns
pub mod Stride
pub mod Window
pub mod Least
mod Tests
use nku_os_lab.Base.{
  ℕ, ◌+◌, ◌-◌, ◌%◌, ◌^◌, Bool, true, false, not, Option, none, some, List, [], ltb, ◌==◌,
  if◌then◌else◌, update,
}
use nku_os_lab.Base.Outcome.{Outcome, ok, panic, ◌>>=◌, ◌>>◌, assert}
use nku_os_lab.SkewHeap.{Heap, nil}

-- `enum proc_state`
pub data ProcState : Type 0 where
  proc_uninit proc_sleeping proc_runnable proc_zombie : ProcState

abbrev pub is_runnable : ProcState → Bool
is_runnable proc_runnable = true
is_runnable _ = false

abbrev pub is_zombie : ProcState → Bool
is_zombie proc_zombie = true
is_zombie _ = false

-- What `struct proc_struct` holds for the scheduler. `in_rq` is `proc->rq == rq`. `runs` wraps around
-- at 32 bits, and `time_slice` is never negative.
pub record Proc : Type 0 where
  pub state : ProcState
  pub runs : ℕ
  pub need_resched : Bool
  pub wait_state : ℕ
  pub in_rq : Bool
  pub time_slice : ℕ
  pub lab6_stride : ℕ
  pub lab6_priority : ℕ

-- The processes, the fields of `struct run_queue` with the list in its order, and `current` and
-- `idleproc`.
pub record Kernel : Type 0 where
  pub procs : ℕ → Proc
  pub run_list : List ℕ
  pub run_pool : Heap
  pub proc_num : ℕ
  pub max_time_slice : ℕ
  pub current : ℕ
  pub idleproc : ℕ

-- `struct sched_class`
pub record SchedClass : Type 0 where
  pub init : Kernel → Kernel
  pub enqueue : ℕ → Kernel → Outcome Kernel
  pub dequeue : ℕ → Kernel → Outcome Kernel
  pub pick_next : Kernel → Outcome (Option ℕ × Kernel)
  pub proc_tick : ℕ → Kernel → Kernel

abbrev pub set_proc : ℕ → Proc → Kernel → Kernel
set_proc p f k = record k { procs = update k.procs p f }

-- `proc_run`: the switch of the context and of the page table is left out.
unfoldable pub proc_run : ℕ → Kernel → Kernel
proc_run p k = record k { current = p }

module _ (c : SchedClass) where
  unfoldable pub sched_class_enqueue : ℕ → Kernel → Outcome Kernel
  sched_class_enqueue p k = if not (p == k.idleproc) then c.enqueue p k else ok k

  unfoldable pub sched_class_proc_tick : ℕ → Kernel → Kernel
  sched_class_proc_tick p k =
      if not (p == k.idleproc)
      then c.proc_tick p k
      else set_proc p (record (k.procs p) { need_resched = true }) k

  unfoldable pub sched_init : Kernel → Kernel
  sched_init k = c.init (record k { max_time_slice = 5 })

  unfoldable pub wakeup_proc : ℕ → Kernel → Outcome Kernel
  unfolding sched_class_enqueue
  wakeup_proc p k = do
    assert (not (is_zombie (k.procs p).state))
    let woken = set_proc p (record (k.procs p) { state = proc_runnable; wait_state = 0 }) k
    if not (is_runnable (k.procs p).state)
        then (if not (p == k.current) then sched_class_enqueue p woken else ok woken)
        else ok k

  -- `schedule` from the result of `pick_next` on.
  unfoldable pub run_next : Option ℕ → Kernel → Outcome Kernel
  unfolding proc_run
  run_next found k = do
    t ← elim found [ none ↦ ok k | some p ↦ c.dequeue p k ]
    let next : ℕ = elim found [ none ↦ t.idleproc | some p ↦ p ]
    let u = set_proc next (record (t.procs next) { runs = ((t.procs next).runs + 1) % 2 ^ 32 }) t
    ok (if not (next == u.current) then proc_run next u else u)

  unfoldable pub schedule : Kernel → Outcome Kernel
  unfolding sched_class_enqueue run_next
  schedule k = do
    let s = set_proc k.current (record (k.procs k.current) { need_resched = false }) k
    t ← if is_runnable (s.procs s.current).state then sched_class_enqueue s.current s else ok s
    picked ← c.pick_next t
    run_next picked.0 picked.1

-- Lab8/code/kern/process/proc.c
unfoldable pub do_yield : Kernel → Kernel
do_yield k = set_proc k.current (record (k.procs k.current) { need_resched = true }) k

unfoldable pub lab6_set_priority : ℕ → Kernel → Kernel
lab6_set_priority priority k =
    set_proc k.current
      (record (k.procs k.current) { lab6_priority = if priority == 0 then 1 else priority }) k
