-- ===== src/Sync.antt =====
-- Lab8/code/kern/sync/wait.c and sem.c: wait queues, and semaphores on them. Interrupts are off in
-- each of the functions, so that each is one step; `__down` is one step before it calls `schedule`
-- and one after it. A wait queue, and the semaphore that it belongs to, is a number, as is a wait.
-- The queue is the list of its waits in the order of the ring.
pub mod Waiting
pub mod HandOver
pub mod Finish
pub mod Runs
mod Tests
use nku_os_lab.Base.{
  ℕ, zero, suc, ◌+◌, ◌-◌, ◌%◌, ◌^◌, Bool, true, false, not, ◌&&◌, Option, none, some, List, [], ◌∷◌,
  ◌++◌, length, ltb, ◌==◌, if◌then◌else◌, update,
}
use nku_os_lab.Base.Outcome.{Outcome, ok, panic, out_of_fuel, ◌>>=◌, ◌>>◌, assert}
use nku_os_lab.Sched.{proc_sleeping, Kernel, SchedClass, set_proc, wakeup_proc}
use nku_os_lab.Sched.RoundRobin.{unlink, head_of}

-- `wait_t`; `linked` is `!list_empty(&(wait->wait_link))`.
pub record Wait : Type 0 where
  pub proc : ℕ
  pub wakeup_flags : ℕ
  pub wait_queue : ℕ
  pub linked : Bool

-- The scheduler, the waits, the wait queues, and the 32 bits of the values of the semaphores.
pub record Sync : Type 0 where
  pub kernel : Kernel
  pub waits : ℕ → Wait
  pub queues : ℕ → List ℕ
  pub value : ℕ → ℕ

abbrev pub wt_interrupted : ℕ
wt_interrupted = 0x80000000

abbrev pub wt_ksem : ℕ
wt_ksem = 0x100

-- `sem->value > 0`, of an `int`
abbrev pub is_positive : ℕ → Bool
is_positive v = ltb 0 v && ltb v (2 ^ 31)

abbrev pub set_wait : ℕ → Wait → Sync → Sync
set_wait w a s = record s { waits = update s.waits w a }

abbrev pub set_queue : ℕ → List ℕ → Sync → Sync
set_queue q ws s = record s { queues = update s.queues q ws }

unfoldable pub wait_init : ℕ → ℕ → Sync → Sync
wait_init w proc s =
    set_wait w (record (s.waits w) { proc = proc; wakeup_flags = wt_interrupted; linked = false }) s

unfoldable pub wait_queue_init : ℕ → Sync → Sync
wait_queue_init q s = set_queue q [] s

unfoldable pub wait_queue_add : ℕ → ℕ → Sync → Outcome Sync
wait_queue_add q w s = do
  assert (not (s.waits w).linked)
  ok (
      set_queue q (s.queues q ++ (w ∷ []))
        (set_wait w (record (s.waits w) { wait_queue = q; linked = true }) s))

unfoldable pub wait_queue_del : ℕ → ℕ → Sync → Outcome Sync
wait_queue_del q w s = do
  assert ((s.waits w).linked && ((s.waits w).wait_queue == q))
  ok (set_queue q (unlink w (s.queues q)) (set_wait w (record (s.waits w) { linked = false }) s))

-- The entry behind another in the ring, if it is not the head.
abbrev pub behind : ℕ → List ℕ → Option ℕ
behind w [] = none
behind w (x ∷ xs) = let rest = behind w xs in if x == w then head_of xs else rest

abbrev pub last_of : List ℕ → Option ℕ
last_of [] = none
last_of (x ∷ xs) = elim (last_of xs) [ none ↦ some x | some y ↦ some y ]

-- The entry before another in the ring, if it is not the head; `before` is what stands before the
-- list.
abbrev pub in_front : Option ℕ → ℕ → List ℕ → Option ℕ
in_front before w [] = none
in_front before w (x ∷ xs) = let rest = in_front (some x) w xs in if x == w then before else rest

unfoldable pub wait_queue_next : ℕ → ℕ → Sync → Outcome (Option ℕ)
wait_queue_next q w s = do
  assert ((s.waits w).linked && ((s.waits w).wait_queue == q))
  ok (behind w (s.queues q))

unfoldable pub wait_queue_prev : ℕ → ℕ → Sync → Outcome (Option ℕ)
wait_queue_prev q w s = do
  assert ((s.waits w).linked && ((s.waits w).wait_queue == q))
  ok (in_front none w (s.queues q))

unfoldable pub wait_queue_first : ℕ → Sync → Option ℕ
wait_queue_first q s = head_of (s.queues q)

unfoldable pub wait_queue_last : ℕ → Sync → Option ℕ
wait_queue_last q s = last_of (s.queues q)

unfoldable pub wait_queue_empty : ℕ → Sync → Bool
wait_queue_empty q s = elim (s.queues q) [ [] ↦ true | w ∷ ws ↦ false ]

unfoldable pub wait_in_queue : ℕ → Sync → Bool
wait_in_queue w s = (s.waits w).linked

unfoldable pub wait_current_set : ℕ → ℕ → ℕ → Sync → Outcome Sync
unfolding wait_init wait_queue_add
wait_current_set q w wait_state s =
    let p = s.kernel.current in
    let t = wait_init w p s in
    let asleep = record (t.kernel.procs p) { state = proc_sleeping; wait_state = wait_state } in
    wait_queue_add q w (record t { kernel = set_proc p asleep t.kernel })

unfoldable pub wait_current_del : ℕ → ℕ → Sync → Outcome Sync
unfolding wait_in_queue wait_queue_del
wait_current_del q w s = if wait_in_queue w s then wait_queue_del q w s else ok s

unfoldable pub sem_init : ℕ → ℕ → Sync → Sync
unfolding wait_queue_init
sem_init q value s = wait_queue_init q (record s { value = update s.value q (value % 2 ^ 32) })

-- `__down` up to the call of `schedule`: whether the process goes on without it.
unfoldable pub down_begin : ℕ → ℕ → ℕ → Sync → Outcome (Bool × Sync)
unfolding wait_current_set
down_begin q w wait_state s =
    if is_positive (s.value q)
    then ok (true, record s { value = update s.value q (s.value q - 1) })
    else (wait_current_set q w wait_state s >>= λ t. ok (false, t))

-- `__down` from then on, and its result.
unfoldable pub down_finish : ℕ → ℕ → ℕ → Sync → Outcome (ℕ × Sync)
unfolding wait_current_del
down_finish q w wait_state s = do
  t ← wait_current_del q w s
  ok (if not ((t.waits w).wakeup_flags == wait_state) then (t.waits w).wakeup_flags else 0, t)

-- The assertion of `down` on the result of `__down`.
unfoldable pub down_checked : ℕ → Sync → Outcome Sync
down_checked flags s = assert (flags == 0) >> ok s

unfoldable pub try_down : ℕ → Sync → Bool × Sync
try_down q s =
    if is_positive (s.value q)
    then (true, record s { value = update s.value q (s.value q - 1) })
    else (false, s)

module _ (c : SchedClass) where
  unfoldable pub wakeup_wait : ℕ → ℕ → ℕ → Bool → Sync → Outcome Sync
  unfolding wait_queue_del
  wakeup_wait q w wakeup_flags del s = do
    t ← if del then wait_queue_del q w s else ok s
    let u = set_wait w (record (t.waits w) { wakeup_flags = wakeup_flags }) t
    k ← wakeup_proc c (u.waits w).proc u.kernel
    ok (record u { kernel = k })

  unfoldable pub wakeup_first : ℕ → ℕ → Bool → Sync → Outcome Sync
  unfolding wait_queue_first wakeup_wait
  wakeup_first q wakeup_flags del s = elim (wait_queue_first q s) [
    | none ↦ ok s
    | some w ↦ wakeup_wait q w wakeup_flags del s
  ]

  -- The loop of `wakeup_queue` that takes the waits out.
  unfoldable pub wakeup_del_loop : ℕ → ℕ → ℕ → Option ℕ → Sync → Outcome Sync
  unfolding wait_queue_first wakeup_wait
  wakeup_del_loop zero q flags found s = elim found [ none ↦ ok s | some w ↦ out_of_fuel ]
  wakeup_del_loop (suc fuel) q flags found s = elim found [
    | none ↦ ok s
    | some w ↦
        wakeup_wait q w flags true s >>= λ t. wakeup_del_loop fuel q flags (wait_queue_first q t) t
  ]

  -- The loop that leaves them in.
  unfoldable pub wakeup_loop : ℕ → ℕ → ℕ → Option ℕ → Sync → Outcome Sync
  unfolding wait_queue_next wakeup_wait
  wakeup_loop zero q flags found s = elim found [ none ↦ ok s | some w ↦ out_of_fuel ]
  wakeup_loop (suc fuel) q flags found s = elim found [
    | none ↦ ok s
    | some w ↦ wakeup_wait q w flags false s >>= λ t.
        wait_queue_next q w t >>= λ next. wakeup_loop fuel q flags next t
  ]

  unfoldable pub wakeup_queue : ℕ → ℕ → Bool → Sync → Outcome Sync
  unfolding wakeup_del_loop wakeup_loop wait_queue_first
  wakeup_queue q flags del s =
      let found = wait_queue_first q s in
      let fuel = length (s.queues q) in
      if del then wakeup_del_loop fuel q flags found s else wakeup_loop fuel q flags found s

  -- `__up`
  unfoldable pub up_waiting : ℕ → ℕ → Sync → Outcome Sync
  unfolding wait_queue_first wakeup_wait
  up_waiting q wait_state s = elim (wait_queue_first q s) [
    | none ↦ ok (record s { value = update s.value q ((s.value q + 1) % 2 ^ 32) })
    | some w ↦
        assert ((s.kernel.procs (s.waits w).proc).wait_state == wait_state)
        >> wakeup_wait q w wait_state true s
  ]

  unfoldable pub up : ℕ → Sync → Outcome Sync
  unfolding up_waiting
  up q s = up_waiting q wt_ksem s
