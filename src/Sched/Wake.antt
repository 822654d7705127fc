-- ===== src/Sched/Wake.antt =====
-- `wakeup_proc` over any lawful scheduling class, and a process that goes to sleep.
use nku_os_lab.Base.{
  ℕ, ◌+◌, ◌≡◌, ◌≢◌, refl, sym, ◌∙◌, ap, subst, Bool, true, false, not, ◌&&◌, ◌==◌, arith,
  update_self, update_ne, ℕ_discrete, ==_iff, ==_of_ne, ==_refl,
}
use nku_os_lab.Base.Outcome.{ok, panic}
use nku_os_lab.SkewHeap.Counts.{one_if}
use nku_os_lab.Sched.{
  ProcState, proc_runnable, is_runnable, is_zombie, Proc, Kernel, SchedClass, set_proc,
  sched_class_enqueue, wakeup_proc,
}
use nku_os_lab.Sched.Laws.{Aside, Lawful}
use nku_os_lab.Sched.Queued.{
  can_run, bit, Aside-set, IsKernel, current-count, not_self, can_run-Frame,
}

-- Another state of one process.
abbrev pub with_state : ℕ → ProcState → ℕ → Kernel → Kernel
with_state p state wait_state k =
    set_proc p (record (k.procs p) { state = state; wait_state = wait_state }) k

module _ {c : SchedClass} (law : Lawful c) (k : Kernel) (p : ℕ) (h : IsKernel law k) where
  -- A process that was woken up: it is runnable, and nothing else is to be seen.
  pub record Woken (t : Kernel) : Type 0 where
    pub kernel : IsKernel law t
    pub awake : (t.procs p).state ≡ proc_runnable
    pub calm : (t.procs p).wait_state ≡ 0
    pub others : (q : ℕ) → p ≢ q → (t.procs q).state ≡ (k.procs q).state
    pub waits : (q : ℕ) → p ≢ q → (t.procs q).wait_state ≡ (k.procs q).wait_state
    pub current : t.current ≡ k.current
    pub idleproc : t.idleproc ≡ k.idleproc

  changed : (x : ProcState) (w : ℕ) → Aside k (with_state p x w k)
  changed x w = Aside-set k p (record (k.procs p) { state = x; wait_state = w }) refl refl refl

  can_run-other : (x : ProcState) (w q : ℕ) → p ≢ q → can_run (with_state p x w k) q ≡ can_run k q
  can_run-other x w q n =
      ap (λ (f : Proc). is_runnable f.state && not (q == k.idleproc))
        (update_ne k.procs p (record (k.procs p) { state = x; wait_state = w }) q n)

  can_run-here :
      (x : ProcState) (w : ℕ)
      → can_run (with_state p x w k) p ≡ (is_runnable x && not (p == k.idleproc))
  can_run-here x w =
      ap (λ (f : Proc). is_runnable f.state && not (p == k.idleproc))
        (update_self k.procs p (record (k.procs p) { state = x; wait_state = w }))

  -- The queue is right again if it is at `p`.
  rebuilt :
      (x : ProcState) (w : ℕ)
      → law.count k p ≡ bit (can_run (with_state p x w k) p && not (p == k.current))
      → IsKernel law (with_state p x w k)
  rebuilt x w e = record {
    valid = (law.aside k (with_state p x w k) (changed x w) h.valid).0;
    queued = λ q.
        (law.aside k (with_state p x w k) (changed x w) h.valid).1 q ∙ elim (ℕ_discrete p q) [
          | yes i ↦
              subst
                (λ r. law.count k r ≡ bit (can_run (with_state p x w k) r && not (r == k.current)))
                i e
          | no n ↦
              h.queued q ∙ ap (λ b. bit (b && not (q == k.current))) (sym (can_run-other x w q n))
        ];
  }

  falls : (b : Bool) → (b && false) ≡ false
  falls true = refl
  falls false = refl

  -- A process that can not run is not in the queue.
  absent : is_runnable (k.procs p).state ≡ false → law.count k p ≡ 0
  absent e = h.queued p ∙ ap (λ b. bit ((b && not (p == k.idleproc)) && not (p == k.current))) e

  woken_state : Kernel
  woken_state = with_state p proc_runnable 0 k

  awake_there : (woken_state.procs p).state ≡ proc_runnable
  unfolding woken_state
  awake_there =
      ap (λ (f : Proc). f.state)
        (update_self k.procs p (record (k.procs p) { state = proc_runnable; wait_state = 0 }))

  calm_there : (woken_state.procs p).wait_state ≡ 0
  unfolding woken_state
  calm_there =
      ap (λ (f : Proc). f.wait_state)
        (update_self k.procs p (record (k.procs p) { state = proc_runnable; wait_state = 0 }))

  others_there : (q : ℕ) → p ≢ q → (woken_state.procs q).state ≡ (k.procs q).state
  unfolding woken_state
  others_there q n =
      ap (λ (f : Proc). f.state)
        (update_ne k.procs p (record (k.procs p) { state = proc_runnable; wait_state = 0 }) q n)

  waits_there : (q : ℕ) → p ≢ q → (woken_state.procs q).wait_state ≡ (k.procs q).wait_state
  unfolding woken_state
  waits_there q n =
      ap (λ (f : Proc). f.wait_state)
        (update_ne k.procs p (record (k.procs p) { state = proc_runnable; wait_state = 0 }) q n)

  kept :
      is_runnable (k.procs p).state ≡ false
      → can_run woken_state p && not (p == k.current) ≡ false
      → Woken woken_state
  unfolding woken_state
  kept e f = record {
    kernel = rebuilt proc_runnable 0 (absent e ∙ ap bit (sym f));
    awake = awake_there;
    calm = calm_there;
    others = others_there;
    waits = waits_there;
    current = refl;
    idleproc = refl;
  }

  -- The process is put into the queue.
  queued_up :
      is_runnable (k.procs p).state ≡ false
      → p ≢ k.current
      → p ≢ k.idleproc
      → (t : Kernel) × (c.enqueue p woken_state ≡ ok t) × Woken t
  unfolding woken_state
  queued_up e n i =
      let (v, m) = law.aside k woken_state (changed proc_runnable 0) h.valid in
      let (t, q, w, f, count) = law.enqueue_law woken_state p v (m p ∙ absent e) in
      let now : can_run woken_state p ≡ true =
        can_run-here proc_runnable 0 ∙ ap not (==_of_ne p k.idleproc i) in
      (
        t,
        q,
        record {
          kernel = record {
            valid = w;
            queued = λ r.
                count r
                ∙ ap (λ a. a + one_if p r) (m r)
                ∙ elim (ℕ_discrete p r) [
                  | yes z ↦
                      subst
                        (λ r.
                          law.count k r + one_if p r
                          ≡ bit (can_run woken_state r && not (r == k.current)))
                        z (rw (absent e, now, ==_refl p, ==_of_ne p k.current n) refl)
                  | no d ↦ rw (==_of_ne p r d) (
                      omega (
                        arith,
                        h.queued r
                            ∙ ap (λ b. bit (b && not (r == k.current)))
                                (sym (can_run-other proc_runnable 0 r d)),
                      ))
                ]
                ∙ ap (λ b. bit (b && not (r == k.current)))
                    (sym (can_run-Frame law woken_state t f r))
                ∙ ap (λ j. bit (can_run t r && not (r == j))) (sym f.current);
          };
          awake = f.states p ∙ awake_there;
          calm = f.waits p ∙ calm_there;
          others = λ r d. f.states r ∙ others_there r d;
          waits = λ r d. f.waits r ∙ waits_there r d;
          current = f.current;
          idleproc = f.idleproc;
        },
      )

  -- The process that runs goes to sleep.
  pub asleep-IsKernel : (x : ProcState) (w : ℕ) → p ≡ k.current → IsKernel law (with_state p x w k)
  asleep-IsKernel x w e = rebuilt x w (
      subst (λ j. law.count k j ≡ 0) (sym e) (current-count law k h)
      ∙ ap bit (
          sym (
            subst (λ j. can_run (with_state p x w k) p && not (p == j) ≡ false) e
              (not_self law (can_run (with_state p x w k) p) p))))

  -- `wakeup_proc` of a zombie fails an assertion, and a runnable process is left alone. Any other
  -- process becomes runnable and, unless it is the one that runs or the idle process, joins the
  -- queue; no other process changes its state or what it waits for.
  pub wakeup_proc-Woken :
      (is_zombie (k.procs p).state ≡ true → wakeup_proc c p k ≡ panic)
      × (is_zombie (k.procs p).state ≡ false
          → is_runnable (k.procs p).state ≡ true
          → wakeup_proc c p k ≡ ok k)
      × (is_zombie (k.procs p).state ≡ false
          → is_runnable (k.procs p).state ≡ false
          → (t : Kernel) × (wakeup_proc c p k ≡ ok t) × Woken t)
  unfolding wakeup_proc sched_class_enqueue woken_state
  wakeup_proc-Woken = (
    λ z. rw z refl,
    λ z e. rw (z, e) refl,
    λ z e. elim (ℕ_discrete p k.current) [
      | yes i ↦ (
        woken_state,
        rw (z, e, (==_iff p k.current).1 i) refl,
        kept e (
            subst (λ j. can_run woken_state p && not (p == j) ≡ false) i
              (not_self law (can_run woken_state p) p)),
      )
      | no n ↦ elim (ℕ_discrete p k.idleproc) [
        | yes i ↦ (
          woken_state,
          rw (z, e, ==_of_ne p k.current n, (==_iff p k.idleproc).1 i) refl,
          kept e (
              ap (λ b. b && not (p == k.current))
                (can_run-here proc_runnable 0 ∙ ap not ((==_iff p k.idleproc).1 i))),
        )
        | no i ↦
            let (t, q, w) = queued_up e n i in
            (t, rw (z, e, ==_of_ne p k.current n, ==_of_ne p k.idleproc i) q, w)
      ]
    ],
  )
