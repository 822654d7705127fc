-- ===== src/Process/Kept.antt =====
-- What the processes keep over a fork, and what the new process is.
use nku_os_lab.Base.{
  ℕ, ◌+◌, ◌≤◌, ◌<◌, ◌≡◌, ◌≢◌, sym, ◌∙◌, ap, ap₂, subst, true, some, List, ◌∷◌, length, map, update,
}
use nku_os_lab.Sched.{is_runnable, SchedClass}
use nku_os_lab.Sched.Laws.{Lawful}
use nku_os_lab.Sched.Queued.{IsKernel}
use nku_os_lab.Sched.RoundRobin.{occurs}
use nku_os_lab.Pid.{max_pid}
use nku_os_lab.Pid.Pass.{IsWindow}
use nku_os_lab.Process.{Procs, pid_hashfn, find_proc}
use nku_os_lab.Process.Family.{IsFamily}
use nku_os_lab.Process.Find.{IsHashed}

pub IsHashed-Same :
    (live : List ℕ) (s t : Procs)
    → t.pid ≡ s.pid
    → t.hash_list ≡ s.hash_list
    → IsHashed live s
    → IsHashed live t
IsHashed-Same live s t a b g = record {
  placed = λ h p o.
      let (i, e) = g.placed h p (subst (λ (f : ℕ → List ℕ). 0 < occurs p (f h)) b o) in
      (i, e ∙ ap (λ (f : ℕ → ℕ). pid_hashfn (f p)) (sym a));
  present = λ p o.
      ap₂ (λ (f : ℕ → List ℕ) (k : ℕ → ℕ). occurs p (f (pid_hashfn (k p)))) b a ∙ g.present p o;
  once = g.once;
  unique = λ p q o i e. g.unique p q o i (ap (λ f. f p) (sym a) ∙ e ∙ ap (λ f. f q) a);
  range = λ p o. subst (λ m. (0 < m) × (m < max_pid)) (ap (λ f. f p) (sym a)) (g.range p o);
}

module _ {cl : SchedClass} (law : Lawful cl) where
  -- All that the processes are to keep.
  pub record IsProcs (kids : ℕ → List ℕ) (s : Procs) : Type 0 where
    pub family : IsFamily s.links kids
    pub listed : (y c : ℕ) → 0 < occurs c (kids y) → 0 < occurs c s.links.proc_list
    pub hashed : IsHashed s.links.proc_list s
    pub kernel : IsKernel law s.kernel
    pub settled : IsWindow (map s.pid s.links.proc_list) (s.last_pid + 1) s.next_safe
    pub bounded : s.next_safe ≤ max_pid
    pub counted : length s.links.proc_list ≤ s.links.nr_process

  -- The state after a fork that succeeded, with the new process `p` and its number.
  pub record Forked (p n : ℕ) (kids : ℕ → List ℕ) (s t : Procs) : Type 0 where
    pub sound : IsProcs (update kids s.kernel.current (p ∷ kids s.kernel.current)) t
    pub positive : 0 < n
    pub new : (q : ℕ) → 0 < occurs q s.links.proc_list → s.pid q ≢ n
    pub finds : find_proc n t ≡ some p
    pub runs : is_runnable (t.kernel.procs p).state ≡ true
    pub others : (q : ℕ) → p ≢ q → (t.kernel.procs q).state ≡ (s.kernel.procs q).state
