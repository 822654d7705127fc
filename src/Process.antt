-- ===== src/Process.antt =====
-- Lab8/code/kern/process/proc.c: the links between processes, the search by number, and what
-- do_exit, do_wait and do_kill do with them. A process is a number; `Kernel` of Sched holds its
-- state and what it waits for, and NULL is `none`.
pub mod Family
pub mod Join
pub mod Unlink
pub mod Adopt
pub mod Give
pub mod Exit
pub mod Find
pub mod Wait
pub mod Reap
pub mod Table
pub mod Fork
pub mod Kept
pub mod Forked
mod Tests
use nku_os_lab.Base.{
  ℕ, zero, suc, ◌+◌, ◌-◌, ◌*◌, ◌/◌, ◌%◌, ◌^◌, Bool, true, false, not, ◌&&◌, ◌||◌, Option, none,
  some, List, [], ◌∷◌, ltb, ◌==◌, if◌then◌else◌, update,
}
use Prim.Native.Nat.{bit_and}
use nku_os_lab.Base.Int.{ℤ, pos, negsuc}
use nku_os_lab.Base.Outcome.{Outcome, ok, panic, out_of_fuel, ◌>>=◌, ◌>>◌, assert}
use nku_os_lab.Sched.{
  proc_sleeping, proc_zombie, is_zombie, Kernel, SchedClass, set_proc, wakeup_proc,
}
use nku_os_lab.Sched.RoundRobin.{unlink}
use nku_os_lab.Sync.{wt_interrupted}
use nku_os_lab.Pid.{max_pid}

-- The links of `struct proc_struct`, the list of all processes and their number.
pub record Links : Type 0 where
  pub parent : ℕ → ℕ
  pub cptr : ℕ → Option ℕ
  pub yptr : ℕ → Option ℕ
  pub optr : ℕ → Option ℕ
  pub proc_list : List ℕ
  pub nr_process : ℕ

-- `a->yptr = b`, if `a` is not NULL.
abbrev pub set_yptr : Option ℕ → Option ℕ → Links → Links
set_yptr none b l = l
set_yptr (some a) b l = record l { yptr = update l.yptr a b }

unfoldable pub set_links : ℕ → Links → Links
set_links p l =
    let x = l.parent p in
    let a = record l { proc_list = p ∷ l.proc_list; yptr = update l.yptr p none } in
    let b = record a { optr = update a.optr p (a.cptr x) } in
    let d = set_yptr (a.cptr x) (some p) b in
    record d { cptr = update d.cptr x (some p); nr_process = d.nr_process + 1 }

-- `proc->yptr->optr = proc->optr`, or else `proc->parent->cptr = proc->optr`.
abbrev pub close_gap : Option ℕ → ℕ → Links → Links
close_gap (some y) p l = record l { optr = update l.optr y (l.optr p) }
close_gap none p l = record l { cptr = update l.cptr (l.parent p) (l.optr p) }

unfoldable pub remove_links : ℕ → Links → Links
remove_links p l =
    let a = record l { proc_list = unlink p l.proc_list } in
    let b = set_yptr (a.optr p) (a.yptr p) a in
    let d = close_gap (b.yptr p) p b in record d { nr_process = d.nr_process - 1 }

-- The processes by their numbers. `exiting` is the flag PF_EXITING.
pub record Procs : Type 0 where
  pub links : Links
  pub pid : ℕ → ℕ
  pub hash_list : ℕ → List ℕ
  pub kernel : Kernel
  pub exit_code : ℕ → ℤ
  pub exiting : ℕ → Bool
  pub initproc : ℕ
  pub last_pid : ℕ
  pub next_safe : ℕ

unfoldable pub hash32 : ℕ → ℕ → ℕ
hash32 val bits = (val * 0x9e370001) % 2 ^ 32 / 2 ^ (32 - bits)

abbrev pub pid_hashfn : ℕ → ℕ
pid_hashfn pid = hash32 pid 10

unfoldable pub hash_proc : ℕ → Procs → Procs
unfolding hash32
hash_proc p s =
    let h = pid_hashfn (s.pid p) in
    record s { hash_list = update s.hash_list h (p ∷ s.hash_list h) }

-- `list_del(&(proc->hash_link))`: the entry leaves the list that it is in.
unfoldable pub unhash_proc : ℕ → Procs → Procs
unhash_proc p s = record s { hash_list = λ h. unlink p (s.hash_list h) }

-- The loop over one list of the hash table.
unfoldable pub with_pid : (ℕ → ℕ) → ℕ → List ℕ → Option ℕ
with_pid pids pid [] = none
with_pid pids pid (p ∷ ps) =
    let rest = with_pid pids pid ps in if pids p == pid then some p else rest

unfoldable pub find_proc : ℕ → Procs → Option ℕ
unfolding with_pid hash32
find_proc pid s =
    if ltb 0 pid && ltb pid max_pid then with_pid s.pid pid (s.hash_list (pid_hashfn pid)) else none

abbrev pub wt_child : ℕ
wt_child = 0x80000001

-- One round of the loop of `do_exit` that gives the children of `x` to `i`; `c` is the first.
unfoldable pub adopt : ℕ → ℕ → ℕ → Links → Links
adopt x i c l =
    let a = record l { cptr = update l.cptr x (l.optr c); yptr = update l.yptr c none } in
    let b = record a { optr = update a.optr c (a.cptr i) } in
    let d = set_yptr (b.cptr i) (some c) b in
    record d { parent = update d.parent c i; cptr = update d.cptr i (some c) }

module _ (cl : SchedClass) where
  -- `if (proc->wait_state == WT_CHILD) wakeup_proc(proc)`
  abbrev pub wake_waiting : ℕ → Kernel → Outcome Kernel
  wake_waiting p k = if (k.procs p).wait_state == wt_child then wakeup_proc cl p k else ok k

  -- One test of the loop's condition, and what follows it.
  unfoldable pub adopt_next : (Procs → Outcome Procs) → ℕ → Option ℕ → Procs → Outcome Procs
  unfolding adopt
  adopt_next again x none s = ok s
  adopt_next again x (some c) s =
      (if is_zombie (s.kernel.procs c).state then wake_waiting s.initproc s.kernel else ok s.kernel)
      >>= λ k. again (record s { links = adopt x s.initproc c s.links; kernel = k })

  -- The loop of `do_exit`.
  unfoldable pub adopt_all : ℕ → ℕ → Procs → Outcome Procs
  unfolding adopt_next
  adopt_all zero x s = adopt_next (λ t. out_of_fuel) x (s.links.cptr x) s
  adopt_all (suc fuel) x s = adopt_next (adopt_all fuel x) x (s.links.cptr x) s

  -- `do_exit` up to the call of `schedule`, which does not return; the release of the address space
  -- and of the open files is left out.
  unfoldable pub do_exit : ℕ → ℤ → Procs → Outcome Procs
  unfolding adopt_all
  do_exit fuel error_code s = do
    let x = s.kernel.current
    assert (not (x == s.kernel.idleproc))
    assert (not (x == s.initproc))
    let k = set_proc x (record (s.kernel.procs x) { state = proc_zombie }) s.kernel
    k' ← wake_waiting (s.links.parent x) k
    adopt_all fuel x (record s { kernel = k'; exit_code = update s.exit_code x error_code })

  -- The results are 0, -E_KILLED and -E_INVAL.
  unfoldable pub do_kill : ℕ → Procs → Outcome (ℤ × Procs)
  unfolding find_proc
  do_kill pid s = elim (find_proc pid s) [
    | none ↦ ok (negsuc 2, s)
    | some p ↦
        let t = record s { exiting = update s.exiting p true } in
        let woken : Outcome (ℤ × Procs) =
          (if not (bit_and (t.kernel.procs p).wait_state wt_interrupted == 0)
            then wakeup_proc cl p t.kernel
            else ok t.kernel)
          >>= λ k. ok (pos 0, record t { kernel = k }) in
        if not (s.exiting p) then woken else ok (negsuc 8, s)
  ]

-- What one pass of `do_wait` over the children comes to.
pub data Waited : Type 0 where
  found : ℕ → Waited
  has_kid : Waited
  bad_proc : Waited

-- The loop over the children, from `proc` on.
unfoldable pub wait_scan : ℕ → Option ℕ → Bool → Procs → Outcome Waited
wait_scan zero proc haskid s = out_of_fuel
wait_scan (suc fuel) none haskid s = ok (if haskid then has_kid else bad_proc)
wait_scan (suc fuel) (some p) haskid s =
    let rest = wait_scan fuel (s.links.optr p) true s in
    if is_zombie (s.kernel.procs p).state then ok (found p) else rest

-- `do_wait` from `repeat` to the branches on what was found.
unfoldable pub wait_pass : ℕ → ℕ → Procs → Outcome Waited
unfolding find_proc wait_scan
wait_pass fuel pid s =
    let x = s.kernel.current in
    let one : Waited = elim (find_proc pid s) [
      | none ↦ bad_proc
      | some p ↦
          if s.links.parent p == x
          then (if is_zombie (s.kernel.procs p).state then found p else has_kid)
          else bad_proc
    ] in
    if not (pid == 0) then ok one else wait_scan fuel (s.links.cptr x) false s

-- `do_wait` from `found` on; the process structure and its stack are freed with it.
unfoldable pub reap : ℕ → Procs → Outcome (ℤ × Procs)
unfolding unhash_proc remove_links
reap p s = do
  assert (not ((p == s.kernel.idleproc) || (p == s.initproc)))
  let t = unhash_proc p s
  ok (s.exit_code p, record t { links = remove_links p t.links })
