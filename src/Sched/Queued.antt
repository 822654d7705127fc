-- ===== src/Sched/Queued.antt =====
-- The queue of a lawful scheduling class between two steps of the scheduler, and the first part of
-- `schedule`, which queues the process that ran.
use nku_os_lab.Base.{
  ℕ, ◌+◌, ◌≡◌, ◌≢◌, refl, sym, ◌∙◌, ap, subst, ◌⊎◌, inl, inr, Bool, true, false, not, ◌&&◌, ◌==◌,
  if◌then◌else◌, arith, Bool-cases, update, update_self, update_ne, ℕ_discrete, ==_of_ne, ==_refl,
}
use nku_os_lab.Base.Outcome.{ok}
use nku_os_lab.SkewHeap.Counts.{one_if}
use nku_os_lab.Sched.{is_runnable, Proc, Kernel, SchedClass, set_proc, sched_class_enqueue}
use nku_os_lab.Sched.Laws.{Frame, Aside, Lawful}

-- Whether a process can be given the processor: it is runnable and not the idle process.
abbrev pub can_run : Kernel → ℕ → Bool
can_run k p = is_runnable (k.procs p).state && not (p == k.idleproc)

abbrev pub bit : Bool → ℕ
bit true = 1
bit false = 0

-- A change of one process that the queue does not depend on.
pub Aside-set :
    (k : Kernel) (p : ℕ) (f : Proc)
    → f.in_rq ≡ (k.procs p).in_rq
    → f.lab6_stride ≡ (k.procs p).lab6_stride
    → f.lab6_priority ≡ (k.procs p).lab6_priority
    → Aside k (set_proc p f k)
Aside-set k p f a b c = record {
  queue = (refl, refl, refl);
  marks = λ q. elim (ℕ_discrete p q) [
    | yes e ↦
        subst
          (λ r.
            ((update k.procs p f r).in_rq ≡ (k.procs r).in_rq)
            × ((update k.procs p f r).lab6_stride ≡ (k.procs r).lab6_stride)
            × ((update k.procs p f r).lab6_priority ≡ (k.procs r).lab6_priority))
          e (rw (update_self k.procs p f) (a, b, c))
    | no n ↦ rw (update_ne k.procs p f q n) (refl, refl, refl)
  ];
}

-- A field that a change of one process leaves alone.
pub field_set :
    {A : Type 0} (field : Proc → A) (k : Kernel) (p : ℕ) (f : Proc) (q : ℕ)
    → field f ≡ field (k.procs p)
    → field ((set_proc p f k).procs q) ≡ field (k.procs q)
field_set field k p f q e = elim (ℕ_discrete p q) [
  | yes i ↦
      subst (λ r. field (update k.procs p f r) ≡ field (k.procs r)) i
        (ap field (update_self k.procs p f) ∙ e)
  | no n ↦ ap field (update_ne k.procs p f q n)
]

module _ {c : SchedClass} (law : Lawful c) where
  -- Between two steps, the processes in the queue are exactly those that can run and do not.
  pub record IsKernel (k : Kernel) : Type 0 where
    pub valid : law.IsValid k
    pub queued : (p : ℕ) → law.count k p ≡ bit (can_run k p && not (p == k.current))

  -- The same while the process that runs is to be queued too.
  pub record IsGathered (k : Kernel) : Type 0 where
    pub valid : law.IsValid k
    pub queued : (p : ℕ) → law.count k p ≡ bit (can_run k p)

  -- The process that runs after `schedule`: one that could run, or the idle process if none could.
  pub record Chosen (k t : Kernel) : Type 0 where
    pub kernel : IsKernel t
    pub states : (p : ℕ) → (t.procs p).state ≡ (k.procs p).state
    pub waits : (p : ℕ) → (t.procs p).wait_state ≡ (k.procs p).wait_state
    pub idleproc : t.idleproc ≡ k.idleproc
    pub choice :
        (can_run k t.current ≡ true) ⊎ ((t.current ≡ k.idleproc) × ((p : ℕ) → can_run k p ≡ false))

  pub can_run-Frame : (s t : Kernel) → Frame s t → (p : ℕ) → can_run t p ≡ can_run s p
  can_run-Frame s t f p = rw (f.states p, f.idleproc) refl

  pub not_self : (b : Bool) (p : ℕ) → (b && not (p == p)) ≡ false
  not_self b p = rw (==_refl p) (go b)
    where
      go : (b : Bool) → (b && false) ≡ false
      go true = refl
      go false = refl

  pub not_other : (b : Bool) (p q : ℕ) → p ≢ q → (b && not (p == q)) ≡ b
  not_other b p q n = rw (==_of_ne p q n) (go b)
    where
      go : (b : Bool) → (b && true) ≡ b
      go true = refl
      go false = refl

  -- The process that runs is not in the queue.
  pub current-count : (k : Kernel) → IsKernel k → law.count k k.current ≡ 0
  current-count k h = h.queued k.current ∙ ap bit (not_self (can_run k k.current) k.current)

  pub IsGathered-idle : (k : Kernel) → IsKernel k → can_run k k.current ≡ false → IsGathered k
  IsGathered-idle k h e = record {
    valid = h.valid;
    queued = λ p. elim (ℕ_discrete p k.current) [
      | yes i ↦
          subst (λ q. law.count k q ≡ bit (can_run k q)) (sym i)
            (current-count k h ∙ ap bit (sym e))
      | no n ↦ h.queued p ∙ ap bit (not_other (can_run k p) p k.current n)
    ];
  }

  -- What `schedule` does before it picks.
  pub gather :
      (k : Kernel)
      → IsKernel k
      → (t : Kernel) × ((if is_runnable (k.procs k.current).state
            then sched_class_enqueue c k.current k
            else ok k)
          ≡ ok t)
        × IsGathered t
        × Frame k t
  unfolding sched_class_enqueue
  gather k h = elim (Bool-cases (is_runnable (k.procs k.current).state)) [
    | inr e ↦ (
      k,
      rw e refl,
      IsGathered-idle k h (rw e refl),
      record { states = λ p. refl; waits = λ p. refl; current = refl; idleproc = refl },
    )
    | inl e ↦ elim (Bool-cases (k.current == k.idleproc)) [
      | inl i ↦ (
        k,
        rw (e, i) refl,
        IsGathered-idle k h (rw (e, i) refl),
        record { states = λ p. refl; waits = λ p. refl; current = refl; idleproc = refl },
      )
      | inr i ↦
          let (t, q, v, f, n) = law.enqueue_law k k.current h.valid (current-count k h) in
          (
            t,
            rw (e, i) q,
            record {
              valid = v;
              queued =
                  λ p. n p ∙ gathered t f (rw (e, i) refl) p ∙ ap bit (sym (can_run-Frame k t f p));
            },
            f,
          )
    ]
  ]
    where
      gathered :
          (t : Kernel)
          → Frame k t
          → can_run k k.current ≡ true
          → (p : ℕ) → law.count k p + one_if k.current p ≡ bit (can_run k p)
      gathered t f e p = elim (ℕ_discrete k.current p) [
        | yes i ↦
            subst (λ q. law.count k q + one_if k.current q ≡ bit (can_run k q)) i
              (rw (current-count k h, e, ==_refl k.current) refl)
        | no n ↦ rw (==_of_ne k.current p n) (
            omega
              (arith, h.queued p ∙ ap bit (not_other (can_run k p) p k.current (λ z. n (sym z)))))
      ]
