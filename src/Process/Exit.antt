-- ===== src/Process/Exit.antt =====
-- What `do_exit` leaves to the scheduler: the family without the children of the process that ends,
-- and the processes that it woke up.
use nku_os_lab.Base.{
  ℕ, ◌≤◌, ◌≡◌, ◌≢◌, refl, sym, ◌∙◌, ap, subst, true, false, not, none, List, [], length, rev_onto,
  ◌==◌, ==_of_ne, ℕ_discrete, update, update_self, update_ne,
}
use nku_os_lab.Base.Int.{ℤ}
use nku_os_lab.Base.Outcome.{ok, ◌>>=◌, ◌>>◌, assert}
use nku_os_lab.Sched.{Proc, proc_zombie, is_runnable, is_zombie, Kernel, SchedClass, set_proc}
use nku_os_lab.Sched.Laws.{Lawful}
use nku_os_lab.Sched.Queued.{IsKernel}
use nku_os_lab.Sched.Wake.{asleep-IsKernel}
use nku_os_lab.Process.{Procs, wt_child, wake_waiting, adopt_all, do_exit}
use nku_os_lab.Process.Family.{IsFamily}
use nku_os_lab.Process.Adopt.{IsGiving}
use nku_os_lab.Process.Give.{wake_waiting-Roused, adopt_all-HandedOver}

module _ {cl : SchedClass} (law : Lawful cl) where
  -- What `do_exit` leaves to `schedule`: the process that ran is a zombie with its exit code and without
  -- children.
  pub record Exited (error_code : ℤ) (s t : Procs) (kids kids' : ℕ → List ℕ) : Type 0 where
    pub kernel : IsKernel law t.kernel
    pub zombie : (t.kernel.procs s.kernel.current).state ≡ proc_zombie
    pub exit_code : t.exit_code s.kernel.current ≡ error_code
    pub family : IsFamily t.links kids'
    pub none_left : kids' s.kernel.current ≡ []
    pub taken : kids' s.initproc ≡ rev_onto (kids s.kernel.current) (kids s.initproc)
    pub others : (y : ℕ) → s.kernel.current ≢ y → s.initproc ≢ y → kids' y ≡ kids y
    pub parent_woken :
        (s.kernel.procs (s.links.parent s.kernel.current)).wait_state ≡ wt_child
        → is_runnable (t.kernel.procs (s.links.parent s.kernel.current)).state ≡ true

  module _ (fuel : ℕ) (error_code : ℤ) (s : Procs) (kids : ℕ → List ℕ)
      (family : IsFamily s.links kids) (h : IsKernel law s.kernel)
      (not_idle : s.kernel.current ≢ s.kernel.idleproc) (not_init : s.kernel.current ≢ s.initproc)
      (not_own : s.kernel.current ≢ s.links.parent s.kernel.current)
      (parent_alive : is_zombie (s.kernel.procs (s.links.parent s.kernel.current)).state ≡ false)
      (init_alive : is_zombie (s.kernel.procs s.initproc).state ≡ false)
      (enough : length (kids s.kernel.current) ≤ fuel) where
    x : ℕ
    x = s.kernel.current

    p : ℕ
    unfolding x
    p = s.links.parent x

    dead : Kernel
    unfolding x
    dead = set_proc x (record (s.kernel.procs x) { state = proc_zombie }) s.kernel

    dead-IsKernel : IsKernel law dead
    unfolding dead x
    dead-IsKernel = asleep-IsKernel law s.kernel x h proc_zombie (s.kernel.procs x).wait_state refl

    -- The other processes are as they were.
    same : (q : ℕ) → x ≢ q → dead.procs q ≡ s.kernel.procs q
    unfolding dead
    same q n = update_ne s.kernel.procs x _ q n

    giving : IsGiving x s.links kids
    giving = record {
      lines = λ y n. family.lines y;
      giving = (none, family.lines x);
      once = family.once;
    }

    -- `do_exit` of a process that is neither the idle process nor the first fails no assertion: the
    -- process becomes a zombie with its exit code, and its children, the last first, become the
    -- youngest children of the first process. No other process gains or loses a child, and the
    -- parent is woken up if it waits for a child. The loop over the children ends after as many
    -- rounds.
    pub do_exit-Exited :
        (t : Procs) × (kids' : ℕ → List ℕ) × (do_exit cl fuel error_code s ≡ ok t)
        × Exited error_code s t kids kids'
    unfolding do_exit x p dead
    do_exit-Exited =
        let (k, q, r, woken) =
          wake_waiting-Roused law p dead dead-IsKernel
            (ap (λ (f : Proc). is_zombie f.state) (same p not_own) ∙ parent_alive) in
        let u = record s { kernel = k; exit_code = update s.exit_code x error_code } in
        let alive : is_zombie (k.procs s.initproc).state ≡ false = elim (ℕ_discrete p s.initproc) [
          | yes e ↦ subst (λ z. is_zombie (k.procs z).state ≡ false) e r.alive
          | no n ↦
              ap is_zombie (r.others s.initproc n)
              ∙ ap (λ (f : Proc). is_zombie f.state) (same s.initproc not_init)
              ∙ init_alive
        ] in
        let (t, kids', run, d) =
          adopt_all-HandedOver law fuel x (kids x) u kids giving not_init refl enough r.kernel
            alive in
        (
          t,
          kids',
          ap
                (λ b.
                  assert (not b)
                  >> (assert (not (x == s.initproc))
                      >> (wake_waiting cl p dead >>= λ k.
                          adopt_all cl fuel x (record s {
                            kernel = k;
                            exit_code = update s.exit_code x error_code;
                          }))))
                (==_of_ne x s.kernel.idleproc not_idle)
              ∙ ap
                  (λ b.
                    assert (not b)
                    >> (wake_waiting cl p dead >>= λ k.
                        adopt_all cl fuel x
                          (record s { kernel = k; exit_code = update s.exit_code x error_code })))
                  (==_of_ne x s.initproc not_init)
              ∙ ap
                  (λ o. o >>= λ k.
                    adopt_all cl fuel x
                      (record s { kernel = k; exit_code = update s.exit_code x error_code }))
                  q
              ∙ run,
          record {
            kernel = d.roused.kernel;
            zombie =
                d.roused.others x (λ e. not_init (sym e))
                ∙ r.others x (λ e. not_own (sym e))
                ∙ ap (λ (f : Proc). f.state) (update_self s.kernel.procs x _);
            exit_code = ap (λ f. f x) d.exit_code ∙ update_self s.exit_code x error_code;
            family = d.family;
            none_left = d.none_left;
            taken = d.taken;
            others = d.others;
            parent_woken = λ w.
                let up = woken (ap (λ (f : Proc). f.wait_state) (same p not_own) ∙ w) in
                elim (ℕ_discrete s.initproc p) [
                  | yes e ↦
                      subst (λ z. is_runnable (t.kernel.procs z).state ≡ true) e
                        (d.roused.keeps
                          (subst (λ z. is_runnable (k.procs z).state ≡ true) (sym e) up))
                  | no n ↦ ap is_runnable (d.roused.others p n) ∙ up
                ];
          },
        )
