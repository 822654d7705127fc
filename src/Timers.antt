-- ===== src/Timers.antt =====
-- Lab8/code/kern/schedule/sched.c: the list of timers. It is given by its timers in the order of the
-- ring; each holds the ticks from the one before it to its own. A timer and a process are numbers,
-- and no process is NULL.
pub mod Deadlines
pub mod Run
mod Tests
use Prim.Native.Nat.{bit_and}
use nku_os_lab.Base.{
  ℕ, ◌+◌, ◌-◌, ◌%◌, ◌^◌, Bool, false, true, not, ◌||◌, List, ◌∷◌, [], ltb, ◌==◌, if◌then◌else◌,
}
use nku_os_lab.Sched.{Kernel, SchedClass, wakeup_proc, sched_class_proc_tick}
use nku_os_lab.Base.Outcome.{Outcome, ok, ◌>>=◌, ◌>>◌, assert}

-- `timer_t`; `key` stands for its address.
pub record Timer : Type 0 where
  pub key : ℕ
  pub expires : ℕ
  pub proc : ℕ

-- `!list_empty(&(timer->timer_link))`
unfoldable pub is_linked : ℕ → List Timer → Bool
is_linked key [] = false
is_linked key (t ∷ ts) = (t.key == key) || is_linked key ts

-- The loop of `add_timer`.
unfoldable pub place_timer : Timer → List Timer → List Timer
place_timer t [] = t ∷ []
place_timer t (next ∷ ts) =
    let rest = place_timer (record t { expires = t.expires - next.expires }) ts in
    if ltb t.expires next.expires
    then t ∷ (record next { expires = next.expires - t.expires } ∷ ts)
    else next ∷ rest

unfoldable pub add_timer : Timer → List Timer → Outcome (List Timer)
unfolding is_linked place_timer
add_timer t ts = do
  assert (ltb 0 t.expires)
  assert (not (is_linked t.key ts))
  ok (place_timer t ts)

-- What a timer that is removed leaves to the next one.
unfoldable pub pass_on : ℕ → List Timer → List Timer
pass_on expires [] = []
pass_on expires (next ∷ ts) =
    if not (expires == 0)
    then record next { expires = (next.expires + expires) % 2 ^ 32 } ∷ ts
    else next ∷ ts

unfoldable pub del_timer : ℕ → List Timer → List Timer
unfolding pass_on
del_timer key [] = []
del_timer key (t ∷ ts) =
    let rest = del_timer key ts in if t.key == key then pass_on t.expires ts else t ∷ rest

module _ (cl : SchedClass) where
  -- The loop of `run_timer_list`, with the list from the timer on.
  unfoldable pub expire : List Timer → Kernel → Outcome (List Timer × Kernel)
  expire [] k = ok ([], k)
  expire (t ∷ ts) k =
      let rest = λ (k' : Kernel). expire ts k' in
      let w = (k.procs t.proc).wait_state in
      if t.expires == 0
      then (assert ((w == 0) || not (bit_and w 0x80000000 == 0))
          >> (wakeup_proc cl t.proc k >>= rest))
      else ok (t ∷ ts, k)

  unfoldable pub run_timer_list : List Timer → Kernel → Outcome (List Timer × Kernel)
  unfolding expire sched_class_proc_tick
  run_timer_list [] k = ok ([], sched_class_proc_tick cl k.current k)
  run_timer_list (t ∷ ts) k = do
    assert (not (t.expires == 0))
    (left, k') ← expire (record t { expires = t.expires - 1 } ∷ ts) k
    ok (left, sched_class_proc_tick cl k'.current k')
