-- ===== src/Timers/Run.antt =====
-- A tick of the list of timers.
use Prim.Native.Nat.{bit_and}
use nku_os_lab.Base.{
  ℕ, zero, suc, ◌+◌, ◌-◌, ◌<◌, ◌≡◌, ◌≢◌, refl, sym, ◌∙◌, ap, ap₂, subst, inl, inr, Bool, true,
  false, not, ◌||◌, List, ◌∷◌, [], ◌==◌, arith, leb-eq-false, ==_of_ne, ℕ_discrete, Bool-cases,
}
use nku_os_lab.Base.Outcome.{Outcome, ok, ◌>>=◌, ◌>>◌, assert}
use nku_os_lab.SkewHeap.Counts.{one_if, one_if_self, one_if_ne}
use nku_os_lab.Sched.{
  is_runnable, is_zombie, Kernel, SchedClass, wakeup_proc, sched_class_proc_tick,
}
use nku_os_lab.Sched.Laws.{Lawful}
use nku_os_lab.Sched.Queued.{IsKernel}
use nku_os_lab.Sched.Wake.{wakeup_proc-Woken}
use nku_os_lab.Sched.RoundRobin.{occurs}
use nku_os_lab.Timers.{Timer, expire, run_timer_list}
use nku_os_lab.Timers.Deadlines.{deadlines, due, later, due-far, later-far}

-- The test of what a process waits for.
abbrev pub interruptible : ℕ → Bool
interruptible w = (w == 0) || not (bit_and w 0x80000000 == 0)

-- Every process of the list can be woken: it is no zombie, and waits for nothing or can be interrupted.
abbrev pub CanWake : Kernel → List Timer → Type 0
CanWake k [] = Unit {0}
CanWake k (t ∷ ts) =
    (is_zombie (k.procs t.proc).state ≡ false)
    × (interruptible (k.procs t.proc).wait_state ≡ true)
    × CanWake k ts

-- The list is empty or its first timer has ticks to go.
abbrev pub IsRunning : List Timer → Type 0
IsRunning [] = Unit {0}
IsRunning (t ∷ ts) = 0 < t.expires

-- `wakeup_proc` of one process after the other.
abbrev pub wake_all : SchedClass → List ℕ → Kernel → Outcome Kernel
wake_all cl [] k = ok k
wake_all cl (p ∷ ps) k = wakeup_proc cl p k >>= λ k'. wake_all cl ps k'

module _ {cl : SchedClass} (law : Lawful cl) where
  -- The processes were woken up, and nothing happened to the others.
  pub record Roused (ps : List ℕ) (k t : Kernel) : Type 0 where
    pub kernel : IsKernel law t
    pub run : wake_all cl ps k ≡ ok t
    pub awake : (p : ℕ) → 0 < occurs p ps → is_runnable (t.procs p).state ≡ true
    pub others : (p : ℕ) → occurs p ps ≡ 0 → (t.procs p).state ≡ (k.procs p).state
    pub current : t.current ≡ k.current

  -- The outcome of a tick, by the deadlines `all` before it.
  abbrev pub Ticks : List Timer → Kernel → Outcome (List Timer × Kernel) → Type 0
  Ticks all k out =
      (left : List Timer) × (t : Kernel) × (out ≡ ok (left, sched_class_proc_tick cl t.current t))
      × Roused (due all) k t
      × (deadlines 0 left ≡ later all)
      × IsRunning left

  -- The same before the tick of the scheduling class.
  abbrev Expires : List Timer → Kernel → Outcome (List Timer × Kernel) → Type 0
  Expires all k out =
      (left : List Timer) × (t : Kernel) × (out ≡ ok (left, t))
      × Roused (due all) k t
      × (deadlines 0 left ≡ later all)
      × IsRunning left

  -- One process is woken up.
  record Up (p : ℕ) (k t : Kernel) : Type 0 where
    kernel : IsKernel law t
    run : wakeup_proc cl p k ≡ ok t
    awake : is_runnable (t.procs p).state ≡ true
    alive : is_zombie (t.procs p).state ≡ false
    calm : interruptible (t.procs p).wait_state ≡ true
    others : (q : ℕ) → p ≢ q → (t.procs q).state ≡ (k.procs q).state
    waits : (q : ℕ) → p ≢ q → (t.procs q).wait_state ≡ (k.procs q).wait_state
    current : t.current ≡ k.current

  wake-Up :
      (p : ℕ) (k : Kernel)
      → IsKernel law k
      → is_zombie (k.procs p).state ≡ false
      → interruptible (k.procs p).wait_state ≡ true
      → (t : Kernel) × Up p k t
  wake-Up p k h z w = elim (Bool-cases (is_runnable (k.procs p).state)) [
    | inl r ↦ (
      k,
      record {
        kernel = h;
        run = (wakeup_proc-Woken law k p h).1 z r;
        awake = r;
        alive = z;
        calm = w;
        others = λ q n. refl;
        waits = λ q n. refl;
        current = refl;
      },
    )
    | inr r ↦
        let (t, e, x) = (wakeup_proc-Woken law k p h).2 z r in
        (
          t,
          record {
            kernel = x.kernel;
            run = e;
            awake = ap is_runnable x.awake;
            alive = ap is_zombie x.awake;
            calm = ap interruptible x.calm;
            others = x.others;
            waits = x.waits;
            current = x.current;
          },
        )
  ]

  CanWake-Up : (p : ℕ) (k t : Kernel) → Up p k t → (ts : List Timer) → CanWake k ts → CanWake t ts
  CanWake-Up p k t u [] c = tt
  CanWake-Up p k t u (x ∷ ts) (z, w, c) = elim (ℕ_discrete p x.proc) [
    | yes e ↦ (
      subst (λ q. is_zombie (t.procs q).state ≡ false) e u.alive,
      subst (λ q. interruptible (t.procs q).wait_state ≡ true) e u.calm,
      CanWake-Up p k t u ts c,
    )
    | no n ↦ (
      ap is_zombie (u.others x.proc n) ∙ z,
      ap interruptible (u.waits x.proc n) ∙ w,
      CanWake-Up p k t u ts c,
    )
  ]

  Roused-cons :
      (p : ℕ) (ps : List ℕ) (k t u : Kernel) → Up p k t → Roused ps t u → Roused (p ∷ ps) k u
  unfolding occurs
  Roused-cons p ps k t u x r = record {
    kernel = r.kernel;
    run = ap (λ (o : Outcome Kernel). o >>= λ k'. wake_all cl ps k') x.run ∙ r.run;
    awake = λ q o. elim (ℕ_discrete 0 (occurs q ps)) [
      | no n ↦ r.awake q (omega (arith, n))
      | yes z ↦ ap is_runnable (r.others q (sym z)) ∙ elim (ℕ_discrete p q) [
        | yes e ↦ subst (λ q. is_runnable (t.procs q).state ≡ true) e x.awake
        | no n ↦ absurd (omega (arith, o, z, one_if_ne p q n))
      ]
    ];
    others = λ q o.
        r.others q (omega (arith, o))
        ∙ x.others q (λ e.
          subst (λ z. one_if p z + occurs z ps ≡ 0 → ⊥) e (λ i. omega (arith, i, one_if_self p)) o);
    current = r.current ∙ x.current;
  }

  Roused-refl : (k : Kernel) → IsKernel law k → Roused [] k k
  unfolding occurs
  Roused-refl k h = record {
    kernel = h;
    run = refl;
    awake = λ p o. absurd (omega (arith, o));
    others = λ p o. refl;
    current = refl;
  }

  expire-Expires :
      (ts : List Timer) (k : Kernel)
      → IsKernel law k
      → CanWake k ts
      → Expires (deadlines 1 ts) k (expire cl ts k)
  unfolding expire deadlines due later
  expire-Expires [] k h c = ([], k, refl, Roused-refl k h, refl, tt)
  expire-Expires (t ∷ ts) k h (z, w, c) =
      go t.expires refl (λ u x. expire-Expires ts u x.kernel (CanWake-Up t.proc k u x ts c))
    where
      go :
          (n : ℕ)
          → t.expires ≡ n
          → ((u : Kernel) → Up t.proc k u → Expires (deadlines 1 ts) u (expire cl ts u))
          → Expires (deadlines 1 (t ∷ ts)) k (expire cl (t ∷ ts) k)
      go zero e ih =
          let (u, x) = wake-Up t.proc k h z w in
          let (left, v, q, r, b, i) = ih u x in
          (
            left,
            v,
            rw (e, w, x.run) q,
            rw e (Roused-cons t.proc (due (deadlines 1 ts)) k u v x r),
            rw e b,
            i,
          )
      go (suc n) e ih = (
        t ∷ ts,
        k,
        ground (arith, e),
        rw (leb-eq-false 1 (1 + t.expires) (omega (arith, e))) (
            subst (λ ps. Roused ps k k) (sym (due-far (1 + t.expires) ts (omega (arith, e))))
              (Roused-refl k h)),
        rw (leb-eq-false 1 (1 + t.expires) (omega (arith, e))) (
            ap₂ (λ n us. record t { expires = n } ∷ us) (omega arith)
              (sym (later-far (0 + t.expires) ts (omega (arith, e)))
                ∙ ap (λ n. later (deadlines n ts)) (omega arith))),
        omega (arith, e),
      )

  -- A tick of a running list, whose processes are no zombies and wait for nothing or can be
  -- interrupted, fails no assertion. It calls `wakeup_proc` for exactly the processes of the timers
  -- whose deadline is one tick away, in their order: they can run, and no other process changes its
  -- state. The deadline of every other timer comes one tick closer, the list is running again, and
  -- the scheduling class gets its tick for the process that runs.
  pub run_timer_list-Ticks :
      (ts : List Timer) (k : Kernel)
      → IsKernel law k
      → CanWake k ts
      → IsRunning ts
      → Ticks (deadlines 0 ts) k (run_timer_list cl ts k)
  unfolding run_timer_list deadlines due later
  run_timer_list-Ticks [] k h c r = ([], k, refl, Roused-refl k h, refl, tt)
  run_timer_list-Ticks (t ∷ ts) k h c r =
      let less = record t { expires = t.expires - 1 } in
      let (left, u, q, x, b, i) = expire-Expires (less ∷ ts) k h c in
      let e : 1 + (t.expires - 1) ≡ 0 + t.expires = omega (arith, r) in
      (
        left,
        u,
        ap
              (λ z.
                assert (not z)
                >> (expire cl (less ∷ ts) k >>= λ (left, k').
                    ok (left, sched_class_proc_tick cl k'.current k')))
              (==_of_ne t.expires 0 (λ z. omega (arith, z, r)))
            ∙ ap
                (λ (o : Outcome (List Timer × Kernel)).
                  o >>= λ (left, k'). ok (left, sched_class_proc_tick cl k'.current k'))
                q,
        subst (λ n. Roused (due (record t { expires = n } ∷ deadlines n ts)) k u) e x,
        b ∙ ap (λ n. later (record t { expires = n } ∷ deadlines n ts)) e,
        i,
      )
