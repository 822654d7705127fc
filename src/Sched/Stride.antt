-- ===== src/Sched/Stride.antt =====
-- Lab8/code/kern/schedule/default_sched_stride.c: the stride class on a skew heap.
use nku_os_lab.Base.{
  ℕ, ◌+◌, ◌-◌, ◌/◌, ◌%◌, ◌^◌, Bool, true, false, ◌&&◌, Option, none, some, [], ltb, ◌==◌,
  if◌then◌else◌,
}
use nku_os_lab.Base.Int.{ℤ, pos, negsuc}
use nku_os_lab.Base.Outcome.{Outcome, ok, panic, ◌>>◌, assert}
use nku_os_lab.SkewHeap.{Heap, nil, node, skew_heap_insert, skew_heap_remove}
use nku_os_lab.Sched.{Proc, Kernel, SchedClass, set_proc}
use nku_os_lab.Sched.RoundRobin.{fresh_slice, rr_proc_tick}

abbrev pub big_stride : ℕ
big_stride = 2 ^ 30

-- The difference of the strides as a signed number of 32 bits, and its sign.
unfoldable pub proc_stride_comp_f : (ℕ → Proc) → ℕ → ℕ → ℤ
proc_stride_comp_f procs a b =
    let c = ((procs a).lab6_stride + 2 ^ 32 - (procs b).lab6_stride) % 2 ^ 32 in
    if ltb c (2 ^ 31) then (if c == 0 then pos 0 else pos 1) else negsuc 0

abbrev pub is_minus_one : ℤ → Bool
is_minus_one (pos n) = false
is_minus_one (negsuc n) = n == 0

-- `comp(a, b) == -1`
abbrev pub stride_less : (ℕ → Proc) → ℕ → ℕ → Bool
unfolding proc_stride_comp_f
stride_less procs a b = is_minus_one (proc_stride_comp_f procs a b)

unfoldable pub stride_init : Kernel → Kernel
stride_init k = record k { run_list = []; run_pool = nil; proc_num = 0 }

unfoldable pub stride_enqueue : ℕ → Kernel → Outcome Kernel
unfolding proc_stride_comp_f
stride_enqueue p k =
    let f = record (k.procs p) {
      time_slice = fresh_slice (k.procs p).time_slice k.max_time_slice;
      in_rq = true;
    } in
    ok (record (set_proc p f k) {
      run_pool = skew_heap_insert (stride_less k.procs) k.run_pool p;
      proc_num = (k.proc_num + 1) % 2 ^ 32;
    })

unfoldable pub stride_dequeue : ℕ → Kernel → Outcome Kernel
unfolding proc_stride_comp_f
stride_dequeue p k = do
  assert ((k.procs p).in_rq && ltb 0 k.proc_num)
  ok (record k {
    run_pool = skew_heap_remove (stride_less k.procs) k.run_pool p;
    proc_num = (k.proc_num + 2 ^ 32 - 1) % 2 ^ 32;
  })

-- The root is the process with the least stride. A division by zero is undefined.
abbrev pub advance : Heap → Kernel → Outcome (Option ℕ × Kernel)
advance nil k = ok (none, k)
advance (node p l r) k =
    if (k.procs p).lab6_priority == 0
    then panic
    else ok (
      some p,
      set_proc p
          (record (k.procs p) {
            lab6_stride =
                ((k.procs p).lab6_stride + big_stride / (k.procs p).lab6_priority) % 2 ^ 32;
          })
          k,
    )

unfoldable pub stride_pick_next : Kernel → Outcome (Option ℕ × Kernel)
stride_pick_next k = advance k.run_pool k

-- The same steps as in the round-robin class.
unfoldable pub stride_proc_tick : ℕ → Kernel → Kernel
unfolding rr_proc_tick
stride_proc_tick p k = rr_proc_tick p k

unfoldable pub stride_sched_class : SchedClass
unfolding stride_init stride_enqueue stride_dequeue stride_pick_next stride_proc_tick
stride_sched_class = record {
  init = stride_init;
  enqueue = stride_enqueue;
  dequeue = stride_dequeue;
  pick_next = stride_pick_next;
  proc_tick = stride_proc_tick;
}
