-- ===== src/Process/Fork.antt =====
-- `do_fork`: what it does with the numbers, the table and the families, and with the scheduler.
use nku_os_lab.Base.{ℕ, Bool, ◌&&◌, Option, none, some, map, leb, ◌==◌, if◌then◌else◌, update}
use nku_os_lab.Base.Int.{ℤ, pos, negsuc}
use nku_os_lab.Base.Outcome.{Outcome, ok, ◌>>=◌, ◌>>◌, assert}
use nku_os_lab.Buffer.{e_no_mem}
use nku_os_lab.Sched.{SchedClass, wakeup_proc}
use nku_os_lab.Pid.{max_process, get_pid}
use nku_os_lab.Process.{Procs, set_links, hash_proc}

abbrev pub e_no_free_proc : ℤ
e_no_free_proc = negsuc 4

module _ (cl : SchedClass) where
  -- From the number of the new process on.
  unfoldable pub enlist : ℕ → Procs → Outcome (ℤ × Procs)
  unfolding get_pid hash_proc set_links
  enlist p s = do
    found ← get_pid (map s.pid s.links.proc_list) s.last_pid s.next_safe
    let t = record s { pid = update s.pid p found.0; last_pid = found.0; next_safe = found.1 }
    let u = hash_proc p t
    let v = record u { links = set_links p u.links }
    k ← wakeup_proc cl p v.kernel
    ok (pos (v.pid p), record v { kernel = k })

  -- `made` is what `alloc_proc` gives, a process in its first state, and the other arguments say
  -- whether `setup_kstack`, `copy_mm` and `copy_files` succeed.
  unfoldable pub do_fork : Option ℕ → Bool → Bool → Bool → Procs → Outcome (ℤ × Procs)
  unfolding enlist
  do_fork made kstack mm files s =
      let made_one : Outcome (ℤ × Procs) = elim made [
        | none ↦ ok (e_no_mem, s)
        | some p ↦
            let t = record s {
              links = record s.links { parent = update s.links.parent p s.kernel.current };
            } in
            assert ((s.kernel.procs s.kernel.current).wait_state == 0)
            >> (if kstack && (mm && files) then enlist p t else ok (e_no_mem, t))
      ] in
      if leb max_process s.links.nr_process then ok (e_no_free_proc, s) else made_one
