-- ===== src/Sched/Dispatch.antt =====
-- `schedule` over any lawful scheduling class.
use nku_os_lab.Base.{
  ℕ, ◌+◌, ◌%◌, ◌^◌, ◌≡◌, refl, sym, ◌∙◌, ap, subst, ◌⊎◌, inl, inr, Bool, true, false, not, ◌&&◌,
  Option, none, some, ◌==◌, if◌then◌else◌, arith, ℕ_discrete, ==_iff, ==_of_ne, ==_refl,
}
use nku_os_lab.Base.Outcome.{Outcome, ok}
use nku_os_lab.SkewHeap.Counts.{one_if}
use nku_os_lab.Sched.{is_runnable, Proc, Kernel, SchedClass, set_proc, proc_run, run_next, schedule}
use nku_os_lab.Sched.Laws.{Frame, Aside, Lawful, Picks}
use nku_os_lab.Sched.Queued.{
  can_run, bit, Aside-set, field_set, IsKernel, IsGathered, Chosen, can_run-Frame, not_self,
  not_other, gather,
}

module _ {c : SchedClass} (law : Lawful c) where
  -- The process `n` out of the queue, and to run.
  record IsPicked (n : ℕ) (k : Kernel) : Type 0 where
    valid : law.IsValid k
    queued : (p : ℕ) → law.count k p ≡ bit (can_run k p && not (p == n))

  -- `run_next` behind the removal of `n` from the queue.
  switch_to : ℕ → Kernel → Kernel
  switch_to n t =
      let u = set_proc n (record (t.procs n) { runs = ((t.procs n).runs + 1) % 2 ^ 32 }) t in
      if not (n == u.current) then proc_run n u else u

  switch_to-current :
      (n : ℕ) (t : Kernel)
      → switch_to n t
        ≡ record (set_proc n (record (t.procs n) { runs = ((t.procs n).runs + 1) % 2 ^ 32 }) t) {
          current = n;
        }
  unfolding switch_to proc_run
  switch_to-current n t = elim (ℕ_discrete n t.current) [
    | yes e ↦ rw ((==_iff n t.current).1 e) (
        ap
          (λ m.
            record (set_proc n (record (t.procs n) { runs = ((t.procs n).runs + 1) % 2 ^ 32 }) t) {
              current = m;
            })
          (sym e))
    | no d ↦ rw (==_of_ne n t.current d) refl
  ]

  ran : ℕ → Kernel → Proc
  ran n t = record (t.procs n) { runs = ((t.procs n).runs + 1) % 2 ^ 32 }

  can_run-set :
      (k : Kernel) (n m : ℕ) (f : Proc) (p : ℕ)
      → f.state ≡ (k.procs n).state
      → can_run (record (set_proc n f k) { current = m }) p ≡ can_run k p
  can_run-set k n m f p e =
      ap (λ s. is_runnable s && not (p == k.idleproc)) (field_set (λ (f : Proc). f.state) k n f p e)

  -- The state after the switch.
  record Switched (n : ℕ) (k t : Kernel) : Type 0 where
    kernel : IsKernel law t
    current : t.current ≡ n
    states : (p : ℕ) → (t.procs p).state ≡ (k.procs p).state
    waits : (p : ℕ) → (t.procs p).wait_state ≡ (k.procs p).wait_state
    idleproc : t.idleproc ≡ k.idleproc

  switched : (n : ℕ) (t : Kernel) → IsPicked n t → Switched n t (switch_to n t)
  unfolding ran
  switched n t h = subst (Switched n t) (sym (switch_to-current n t)) record {
    kernel = record {
      valid = (law.aside t after apart h.valid).0;
      queued = λ p.
          (law.aside t after apart h.valid).1 p
          ∙ h.queued p
          ∙ ap (λ b. bit (b && not (p == n))) (sym (can_run-set t n n (ran n t) p refl));
    };
    current = refl;
    states = λ p. field_set (λ (f : Proc). f.state) t n (ran n t) p refl;
    waits = λ p. field_set (λ (f : Proc). f.wait_state) t n (ran n t) p refl;
    idleproc = refl;
  }
    where
      after : Kernel
      after = record (set_proc n (ran n t) t) { current = n }

      apart : Aside t after
      apart =
          let a = Aside-set t n (ran n t) refl refl refl in
          record { queue = a.queue; marks = a.marks }

  IsPicked-some :
      (s t : Kernel) (n : ℕ)
      → IsGathered law s
      → law.IsValid t
      → Frame s t
      → ((q : ℕ) → law.count t q + one_if n q ≡ law.count s q)
      → IsPicked n t
  IsPicked-some s t n g v f count = record {
    valid = v;
    queued = λ p. elim (ℕ_discrete p n) [
      | yes e ↦
          subst (λ q. law.count t q ≡ bit (can_run t q && not (q == n))) (sym e)
            (rw (not_self law (can_run t n) n) (
              zero_here (law.count t n) (can_run s n) (
                ap (λ k. law.count t n + k) (ap (λ b. if b then 1 else 0) (sym (==_refl n)))
                ∙ count n
                ∙ g.queued n)))
      | no d ↦
          let other : one_if n p ≡ 0 = rw (==_of_ne n p (λ z. d (sym z))) refl in
          omega (arith, count p, other)
          ∙ g.queued p
          ∙ ap bit (sym (can_run-Frame law s t f p) ∙ sym (not_other law (can_run t p) p n d))
    ];
  }
    where
      zero_here : (a : ℕ) (b : Bool) → a + 1 ≡ bit b → a ≡ 0
      zero_here a true e = omega (arith, e)
      zero_here a false e = omega (arith, e)

  IsPicked-none :
      (s : Kernel)
      → IsGathered law s
      → ((q : ℕ) → law.count s q ≡ 0)
      → IsPicked s.idleproc s × ((q : ℕ) → can_run s q ≡ false)
  IsPicked-none s g z = (
    record {
      valid = g.valid;
      queued = λ p.
          z p
          ∙ ap bit (
              sym (nothing p)
              ∙ sym (falls (can_run s p) (not (p == s.idleproc)) (nothing p))
              ∙ refl);
    },
    nothing,
  )
    where
      no_bit : (b : Bool) → 0 ≡ bit b → b ≡ false
      no_bit false e = refl
      no_bit true e = absurd (omega (arith, e))

      nothing : (q : ℕ) → can_run s q ≡ false
      nothing q = no_bit (can_run s q) (sym (z q) ∙ g.queued q)

      falls : (b c : Bool) → b ≡ false → (b && c) ≡ b
      falls false c e = refl
      falls true c e = cc

  IsGathered-later :
      (s t : Kernel)
      → IsGathered law s
      → law.IsValid t
      → Frame s t
      → ((q : ℕ) → law.count t q ≡ law.count s q)
      → IsGathered law t
  IsGathered-later s t g v f n = record {
    valid = v;
    queued = λ p. n p ∙ g.queued p ∙ ap bit (sym (can_run-Frame law s t f p));
  }

  -- What the switch is to reach from `s`.
  Reached : Kernel → Outcome Kernel → Type 0
  Reached s out =
      (t : Kernel) × (out ≡ ok t)
      × IsKernel law t
      × ((p : ℕ) → (t.procs p).state ≡ (s.procs p).state)
      × ((p : ℕ) → (t.procs p).wait_state ≡ (s.procs p).wait_state)
      × (t.idleproc ≡ s.idleproc)
      × ((can_run s t.current ≡ true)
          ⊎ ((t.current ≡ s.idleproc) × ((p : ℕ) → can_run s p ≡ false)))

  run_next-Reached :
      (s : Kernel) (o : Option ℕ)
      → IsGathered law s
      → Picks (law.count s) o
      → Reached s (run_next c o s)
  unfolding run_next switch_to Reached
  run_next-Reached s none g z =
      let (p, nothing) = IsPicked-none s g z in
      let w = switched s.idleproc s p in
      (
        switch_to s.idleproc s,
        refl,
        w.kernel,
        w.states,
        w.waits,
        w.idleproc,
        inr (w.current, nothing),
      )
  run_next-Reached s (some n) g one =
      let (t, q, v, f, count) = law.dequeue_law s n g.valid one in
      let w = switched n t (IsPicked-some s t n g v f count) in
      (
        switch_to n t,
        rw q refl,
        w.kernel,
        λ p. w.states p ∙ f.states p,
        λ p. w.waits p ∙ f.waits p,
        w.idleproc ∙ f.idleproc,
        inl (ap (can_run s) w.current ∙ had_bit (can_run s n) (sym (g.queued n) ∙ one)),
      )
    where
      had_bit : (b : Bool) → bit b ≡ 1 → b ≡ true
      had_bit true e = refl
      had_bit false e = absurd (omega (arith, e))

  can_run-same :
      (s t : Kernel)
      → ((p : ℕ) → (t.procs p).state ≡ (s.procs p).state)
      → t.idleproc ≡ s.idleproc
      → (p : ℕ) → can_run t p ≡ can_run s p
  can_run-same s t f e p = rw (f p, e) refl

  -- `schedule` fails no assertion. Afterwards the queue holds exactly the processes that can run and
  -- do not, as before; no process changed its state or what it waits for; and the process that runs is one that could
  -- run, or the idle process if none could.
  pub schedule-Chosen :
      (k : Kernel) → IsKernel law k → (t : Kernel) × (schedule c k ≡ ok t) × Chosen law k t
  unfolding schedule Reached
  schedule-Chosen k h =
      let s = set_proc k.current (record (k.procs k.current) { need_resched = false }) k in
      let same = λ (p : ℕ).
        field_set (λ (f : Proc). f.state) k k.current
          (record (k.procs k.current) { need_resched = false }) p refl in
      let same_wait = λ (p : ℕ).
        field_set (λ (f : Proc). f.wait_state) k k.current
          (record (k.procs k.current) { need_resched = false }) p refl in
      let a =
        Aside-set k k.current (record (k.procs k.current) { need_resched = false }) refl refl
          refl in
      let (v, n) = law.aside k s a h.valid in
      let start : IsKernel law s = record {
        valid = v;
        queued = λ p.
            n p
            ∙ h.queued p
            ∙ ap (λ b. bit (b && not (p == k.current))) (sym (can_run-same k s same refl p));
      } in
      let (t, q, g, f) = gather law s start in
      let (o, u, r, w, d, m, picks) = law.pick_law t g.valid in
      let g' = IsGathered-later t u g w d m in
      let (x, y, kernel, states, waits, idle, choice) =
        run_next-Reached u o g' (picks_later o (law.count t) (law.count u) m picks) in
      let all = λ (p : ℕ).
        can_run-Frame law t u d p ∙ can_run-Frame law s t f p ∙ can_run-same k s same refl p in
      (
        x,
        rw (q, r) y,
        record {
          kernel = kernel;
          states = λ p. states p ∙ d.states p ∙ f.states p ∙ same p;
          waits = λ p. waits p ∙ d.waits p ∙ f.waits p ∙ same_wait p;
          idleproc = idle ∙ d.idleproc ∙ f.idleproc;
          choice = elim choice [
            | inl e ↦ inl (sym (all x.current) ∙ e)
            | inr (e, z) ↦ inr (e ∙ d.idleproc ∙ f.idleproc, λ p. sym (all p) ∙ z p)
          ];
        },
      )
    where
      picks_later : (o : Option ℕ) (a b : ℕ → ℕ) → ((q : ℕ) → b q ≡ a q) → Picks a o → Picks b o
      picks_later none a b m z = λ q. m q ∙ z q
      picks_later (some p) a b m z = m p ∙ z
