-- ===== src/Sync/Waiting.antt =====
-- Semaphores in order, and what `__down` and `try_down` do.
use nku_os_lab.Base.{
  ℕ, ◌+◌, ◌-◌, ◌≤◌, ◌<◌, ◌≡◌, ◌≢◌, refl, sym, ◌∙◌, ap, subst, ◌⊎◌, inl, inr, true, false, not, [],
  ◌∷◌, ◌++◌, arith, update, update_self, update_ne, ℕ_discrete,
}
use nku_os_lab.Base.Outcome.{ok, ◌>>=◌, ◌>>◌, assert}
use nku_os_lab.SkewHeap.Counts.{one_if, one_if_self, one_if_ne}
use nku_os_lab.Sched.{Proc, proc_sleeping, is_runnable, SchedClass, set_proc}
use nku_os_lab.Sched.Laws.{Lawful}
use nku_os_lab.Sched.Queued.{IsKernel}
use nku_os_lab.Sched.Wake.{asleep-IsKernel}
use nku_os_lab.Sched.RoundRobin.{occurs, occurs-append}
use nku_os_lab.Sync.{
  Wait, Sync, is_positive, wt_ksem, set_wait, set_queue, wait_init, wait_queue_add,
  wait_current_set, down_begin, try_down,
}

-- The wait stands in the queue `q`, and its process sleeps for the semaphore.
pub record Sleeps (q : ℕ) (s : Sync) (w : ℕ) : Type 0 where
  pub linked : (s.waits w).linked ≡ true
  pub at : (s.waits w).wait_queue ≡ q
  pub state : (s.kernel.procs (s.waits w).proc).state ≡ proc_sleeping
  pub wait_state : (s.kernel.procs (s.waits w).proc).wait_state ≡ wt_ksem

clash : false ≡ true → ⊥
clash z = cc

module _ {c : SchedClass} (law : Lawful c) where
  -- A semaphore in order: it has a value or waits, never both, and its waits are those of different
  -- processes that sleep.
  pub record IsSemaphore (q : ℕ) (s : Sync) : Type 0 where
    pub kernel : IsKernel law s.kernel
    pub idle : is_positive (s.value q) ≡ true → s.queues q ≡ []
    pub once : (w : ℕ) → occurs w (s.queues q) ≤ 1
    pub sleeps : (w : ℕ) → 0 < occurs w (s.queues q) → Sleeps q s w
    pub apart :
        (v w : ℕ)
        → 0 < occurs v (s.queues q)
        → 0 < occurs w (s.queues q)
        → (s.waits v).proc ≡ (s.waits w).proc
        → v ≡ w

  -- The semaphore with one less, for a value that is positive.
  abbrev pub less_one : ℕ → Sync → Sync
  less_one q s = record s { value = update s.value q (s.value q - 1) }

  pub less_one-IsSemaphore :
      (q : ℕ) (s : Sync)
      → IsSemaphore q s
      → is_positive (s.value q) ≡ true
      → IsSemaphore q (less_one q s)
  less_one-IsSemaphore q s h l = record {
    kernel = h.kernel;
    idle = λ k. h.idle l;
    once = h.once;
    sleeps = λ w o. record {
      linked = (h.sleeps w o).linked;
      at = (h.sleeps w o).at;
      state = (h.sleeps w o).state;
      wait_state = (h.sleeps w o).wait_state;
    };
    apart = h.apart;
  }

  module _ (q w : ℕ) (s : Sync) (h : IsSemaphore q s) (fresh : occurs w (s.queues q) ≡ 0)
      (running : is_runnable (s.kernel.procs s.kernel.current).state ≡ true) where
    awake : (v : ℕ) → 0 < occurs v (s.queues q) → (s.waits v).proc ≢ s.kernel.current
    awake v o e = clash (
        sym (ap is_runnable (h.sleeps v o).state)
        ∙ ap (λ x. is_runnable (s.kernel.procs x).state) e
        ∙ running)

    me : ℕ
    me = s.kernel.current

    asleep : Proc
    unfolding me
    asleep = record (s.kernel.procs me) { state = proc_sleeping; wait_state = wt_ksem }

    fresh_wait : Sync
    unfolding me asleep
    fresh_wait = record s {
      kernel = set_proc me asleep s.kernel;
      waits =
          update s.waits w
            (record (s.waits w) { proc = me; wakeup_flags = 0x80000000; linked = false });
    }

    -- The state in which the process waits.
    unfoldable pub waiting : Sync
    unfolding fresh_wait
    waiting =
        set_queue q (s.queues q ++ (w ∷ []))
          (set_wait w (record (fresh_wait.waits w) { wait_queue = q; linked = true }) fresh_wait)

    mine : Wait
    unfolding me
    mine = record { proc = me; wakeup_flags = 0x80000000; wait_queue = q; linked = true }

    own : waiting.waits w ≡ mine
    unfolding waiting fresh_wait mine me
    own =
        update_self fresh_wait.waits w _
        ∙ ap (λ (a : Wait). record a { wait_queue = q; linked = true }) (update_self s.waits w _)

    other_waits : (v : ℕ) → w ≢ v → waiting.waits v ≡ s.waits v
    unfolding waiting fresh_wait
    other_waits v n = update_ne fresh_wait.waits w _ v n ∙ update_ne s.waits w _ v n

    line : waiting.queues q ≡ s.queues q ++ (w ∷ [])
    unfolding waiting fresh_wait
    line = update_self s.queues q _

    in_line : (v : ℕ) → occurs v (waiting.queues q) ≡ occurs v (s.queues q) + one_if w v
    unfolding occurs
    in_line v = ap (occurs v) line ∙ omega (arith, occurs-append v (s.queues q) (w ∷ []))

    -- Who is in the queue now was there or is the new one.
    who :
        (v : ℕ)
        → 0 < occurs v (waiting.queues q)
        → (w ≡ v) ⊎ ((w ≢ v) × (0 < occurs v (s.queues q)))
    who v o = elim (ℕ_discrete w v) [
      | yes e ↦ inl e
      | no n ↦ inr (n, omega (arith, o, in_line v, one_if_ne w v n))
    ]

    Sleeps-now : (v : ℕ) → (w ≡ v) ⊎ ((w ≢ v) × (0 < occurs v (s.queues q))) → Sleeps q waiting v
    unfolding waiting fresh_wait asleep me mine
    Sleeps-now v (inl e) = subst (Sleeps q waiting) e (record {
      linked = ap (λ (a : Wait). a.linked) own;
      at = ap (λ (a : Wait). a.wait_queue) own;
      state =
          ap (λ (a : Wait). (waiting.kernel.procs a.proc).state) own
          ∙ ap (λ (f : Proc). f.state) (update_self s.kernel.procs me asleep);
      wait_state =
          ap (λ (a : Wait). (waiting.kernel.procs a.proc).wait_state) own
          ∙ ap (λ (f : Proc). f.wait_state) (update_self s.kernel.procs me asleep);
    })
    Sleeps-now v (inr (n, o)) =
        let z = h.sleeps v o in
        let same =
          ap (λ (a : Wait). waiting.kernel.procs a.proc) (other_waits v n)
          ∙ update_ne s.kernel.procs me asleep (s.waits v).proc (λ e. awake v o (sym e)) in
        record {
          linked = ap (λ (a : Wait). a.linked) (other_waits v n) ∙ z.linked;
          at = ap (λ (a : Wait). a.wait_queue) (other_waits v n) ∙ z.at;
          state = ap (λ (f : Proc). f.state) same ∙ z.state;
          wait_state = ap (λ (f : Proc). f.wait_state) same ∙ z.wait_state;
        }

    apart_now :
        (u v : ℕ)
        → (w ≡ u) ⊎ ((w ≢ u) × (0 < occurs u (s.queues q)))
        → (w ≡ v) ⊎ ((w ≢ v) × (0 < occurs v (s.queues q)))
        → (waiting.waits u).proc ≡ (waiting.waits v).proc
        → u ≡ v
    unfolding mine me
    apart_now u v (inl a) (inl b) e = sym a ∙ b
    apart_now u v (inl a) (inr (n, o)) e = absurd (
        awake v o (
          sym (ap (λ (a : Wait). a.proc) (other_waits v n))
          ∙ sym e
          ∙ ap (λ x. (waiting.waits x).proc) (sym a)
          ∙ ap (λ (a : Wait). a.proc) own))
    apart_now u v (inr (n, o)) (inl b) e = absurd (
        awake u o (
          sym (ap (λ (a : Wait). a.proc) (other_waits u n))
          ∙ e
          ∙ ap (λ x. (waiting.waits x).proc) (sym b)
          ∙ ap (λ (a : Wait). a.proc) own))
    apart_now u v (inr (n, o)) (inr (m, r)) e = h.apart u v o r (
        sym (ap (λ (a : Wait). a.proc) (other_waits u n))
        ∙ e
        ∙ ap (λ (a : Wait). a.proc) (other_waits v m))

    waiting-IsSemaphore : is_positive (s.value q) ≡ false → IsSemaphore q waiting
    unfolding waiting fresh_wait asleep me
    waiting-IsSemaphore z = record {
      kernel = asleep-IsKernel law s.kernel me h.kernel proc_sleeping wt_ksem refl;
      idle = λ l. absurd (clash (sym z ∙ l));
      once = λ v. elim (ℕ_discrete w v) [
        | yes e ↦
            subst (λ x. occurs x (waiting.queues q) ≤ 1) e
              (omega (arith, in_line w, fresh, one_if_self w))
        | no n ↦ omega (arith, in_line v, h.once v, one_if_ne w v n)
      ];
      sleeps = λ v o. Sleeps-now v (who v o);
      apart = λ u v a b e. apart_now u v (who u a) (who v b) e;
    }

    -- `__down` takes one from a positive value and goes on. Otherwise the process that runs goes to
    -- sleep at the end of the queue. The semaphore is in order either way, and `try_down` does the
    -- same to a positive value and nothing otherwise.
    pub down_begin_lem :
        (is_positive (s.value q) ≡ true
          → (down_begin q w wt_ksem s ≡ ok (true, less_one q s))
            × (try_down q s ≡ (true, less_one q s))
            × IsSemaphore q (less_one q s))
        × (is_positive (s.value q) ≡ false
            → (try_down q s ≡ (false, s))
              × (t : Sync) × (down_begin q w wt_ksem s ≡ ok (false, t))
              × IsSemaphore q t
              × Sleeps q t w
              × (t.queues q ≡ s.queues q ++ (w ∷ []))
              × ((t.waits w).proc ≡ s.kernel.current)
              × (t.value q ≡ s.value q))
    unfolding down_begin try_down wait_current_set wait_init wait_queue_add waiting fresh_wait
        asleep me mine
    down_begin_lem = (
      λ l. (rw l refl, rw l refl, less_one-IsSemaphore q s h l),
      λ z. (
        rw z refl,
        waiting,
        rw z (
            ap (λ (a : Wait). (assert (not a.linked) >> ok waiting) >>= λ t. ok (false, t))
              (update_self s.waits w _)),
        waiting-IsSemaphore z,
        Sleeps-now w (inl refl),
        line,
        ap (λ (a : Wait). a.proc) own,
        refl,
      ),
    )
