-- ===== src/Process/Forked.antt =====
-- What `do_fork` makes: a process with a new number, in the table and among the children of the
-- process that runs.
use nku_os_lab.Base.{
  ℕ, ◌+◌, ◌≤◌, ◌<◌, ◌≡◌, ◌≢◌, refl, sym, ◌∙◌, ap, subst, ◌⊎◌, inl, inr, Bool, true, false, ◌&&◌,
  none, some, List, ◌∷◌, length, map, leb-eq-false, ==_of_ne, ==_iff, arith, ℕ_discrete, dec_lt,
  update, update_self, update_ne,
}
use nku_os_lab.Base.Int.{ℤ, pos}
use nku_os_lab.Base.Outcome.{Outcome, ok, panic, ◌>>=◌}
use nku_os_lab.Buffer.{e_no_mem}
use nku_os_lab.SkewHeap.Counts.{one_if, one_if_self, one_if_ne}
use nku_os_lab.Sched.{proc_uninit, is_runnable, is_zombie, Kernel, SchedClass, wakeup_proc}
use nku_os_lab.Sched.Laws.{Lawful}
use nku_os_lab.Sched.Queued.{IsKernel}
use nku_os_lab.Sched.Wake.{wakeup_proc-Woken}
use nku_os_lab.Sched.RoundRobin.{occurs}
use nku_os_lab.Pid.{max_process}
use nku_os_lab.Pid.Search.{IsFound, get_pid-IsFound_total}
use nku_os_lab.Process.{Links, Procs, pid_hashfn, hash_proc, set_links, find_proc}
use nku_os_lab.Process.Family.{IsFamily, IsSiblings-Same, set_yptr_rest}
use nku_os_lab.Process.Join.{set_links-IsFamily}
use nku_os_lab.Process.Find.{IsHashed, find_proc_own}
use nku_os_lab.Process.Table.{map-occurs, hash-IsHashed, length-map, map-update}
use nku_os_lab.Process.Fork.{enlist, do_fork}
use nku_os_lab.Process.Kept.{IsProcs, Forked, IsHashed-Same}

module _ {cl : SchedClass} (law : Lawful cl) where
  module _ (p : ℕ) (kids : ℕ → List ℕ) (s : Procs) (h : IsProcs law kids s)
      (absent : occurs p s.links.proc_list ≡ 0) (uninit : (s.kernel.procs p).state ≡ proc_uninit)
      (few : s.links.nr_process < max_process) where
    x : ℕ
    x = s.kernel.current

    childless : (y : ℕ) → occurs p (kids y) ≡ 0
    childless y = elim (dec_lt 0 (occurs p (kids y))) [
      | yes o ↦ absurd (omega (arith, h.listed y p o, absent))
      | no o ↦ omega (arith, o)
    ]

    -- The links with the parent of the new process.
    own_parent : Links
    unfolding x
    own_parent = record s.links { parent = update s.links.parent p x }

    own_parent-IsFamily : IsFamily own_parent kids
    unfolding own_parent
    own_parent-IsFamily = record {
      lines = λ y.
          IsSiblings-Same s.links own_parent y none (s.links.cptr y) (kids y)
            (λ c o. (
              refl,
              refl,
              update_ne s.links.parent p x c (λ e.
                  subst (λ z. 0 < occurs z (kids y) → ⊥) e (λ k. omega (arith, k, childless y)) o),
            ))
            (h.family.lines y);
      once = h.family.once;
    }

    with_parent : Procs
    unfolding own_parent
    with_parent = record s { links = own_parent }

    with_parent-IsProcs : IsProcs law kids with_parent
    unfolding with_parent own_parent
    with_parent-IsProcs = record {
      family = own_parent-IsFamily;
      listed = h.listed;
      hashed = IsHashed-Same s.links.proc_list s with_parent refl refl h.hashed;
      kernel = h.kernel;
      settled = h.settled;
      bounded = h.bounded;
      counted = h.counted;
    }

    -- The links after `set_links`.
    joined : Links
    joined = set_links p own_parent

    joined-list : joined.proc_list ≡ p ∷ s.links.proc_list
    unfolding joined set_links own_parent
    joined-list = (set_yptr_rest (own_parent.cptr (own_parent.parent p)) (some p) _).3

    joined-count : joined.nr_process ≡ s.links.nr_process + 1
    unfolding joined set_links own_parent
    joined-count =
        ap (λ n. n + 1) (set_yptr_rest (own_parent.cptr (own_parent.parent p)) (some p) _).4

    joined-IsFamily : IsFamily joined (update kids x (p ∷ kids x))
    unfolding joined own_parent
    joined-IsFamily =
        subst (λ y. IsFamily joined (update kids y (p ∷ kids y))) (update_self s.links.parent p x)
          (set_links-IsFamily p own_parent kids own_parent-IsFamily childless)

    forked : (n next : ℕ) (k : Kernel) → Procs
    unfolding joined
    forked n next k = record s {
      links = joined;
      pid = update s.pid p n;
      hash_list = update s.hash_list (pid_hashfn n) (p ∷ s.hash_list (pid_hashfn n));
      kernel = k;
      last_pid = n;
      next_safe = next;
    }

    forked-IsProcs :
        (n next : ℕ) (k : Kernel)
        → IsFound (map s.pid s.links.proc_list) n next
        → occurs n (map s.pid s.links.proc_list) ≡ 0
        → IsKernel law k
        → IsProcs law (update kids x (p ∷ kids x)) (forked n next k)
    unfolding forked occurs
    forked-IsProcs n next k found new kernel = record {
      family = joined-IsFamily;
      listed = λ y c o.
          subst (λ ps. 0 < occurs c ps) (sym joined-list)
            (elim (ℕ_discrete p c) [
              | yes e ↦ omega (arith, subst (λ z. one_if p z ≡ 1) e (one_if_self p))
              | no d ↦ omega (arith, older y c d o)
            ]);
      hashed =
          subst (λ ps. IsHashed ps (forked n next k)) (sym joined-list)
            (IsHashed-Same (p ∷ s.links.proc_list)
              (record s {
                pid = update s.pid p n;
                hash_list = update s.hash_list (pid_hashfn n) (p ∷ s.hash_list (pid_hashfn n));
              })
              (forked n next k) refl refl
              (hash-IsHashed p n s.links.proc_list s h.hashed absent
                (λ q o e. omega (
                  arith,
                  map-occurs s.pid s.links.proc_list q o,
                  ap (λ m. occurs m (map s.pid s.links.proc_list)) e,
                  new,
                ))
                found.positive (omega (arith, found.ordered, found.bounded))));
      kernel = kernel;
      settled = λ q o.
          window q (subst (λ ns. 0 < occurs q ns) (ap (map (update s.pid p n)) joined-list) o);
      bounded = found.bounded;
      counted =
          subst (λ ps. length ps ≤ joined.nr_process) (sym joined-list)
            (omega (arith, joined-count, h.counted));
    }
      where
        older :
            (y c : ℕ)
            → p ≢ c
            → 0 < occurs c (update kids x (p ∷ kids x) y)
            → 0 < occurs c s.links.proc_list
        older y c d o = elim (ℕ_discrete x y) [
          | yes e ↦
              let o' = subst (λ z. 0 < occurs c (update kids x (p ∷ kids x) z)) (sym e) o in
              h.listed x c (
                omega (
                  arith,
                  subst (λ ks. 0 < occurs c ks) (update_self kids x (p ∷ kids x)) o',
                  one_if_ne p c d,
                ))
          | no i ↦
              h.listed y c (subst (λ ks. 0 < occurs c ks) (update_ne kids x (p ∷ kids x) y i) o)
        ]

        window :
            (q : ℕ)
            → 0
              < one_if (update s.pid p n p) q + occurs q (map (update s.pid p n) s.links.proc_list)
            → (q < n + 1) ⊎ (next ≤ q)
        window q o = elim (ℕ_discrete n q) [
          | yes e ↦ inl (omega (arith, e))
          | no d ↦
              let none : one_if (update s.pid p n p) q ≡ 0 =
                subst (λ m. one_if m q ≡ 0) (sym (update_self s.pid p n)) (one_if_ne n q d) in
              let o' =
                subst (λ ns. 0 < one_if (update s.pid p n p) q + occurs q ns)
                  (map-update s.pid p n s.links.proc_list absent) o in
              elim (found.window q (omega (arith, o', none))) [
                | inl z ↦ inl (omega (arith, z))
                | inr z ↦ inr z
              ]
        ]

    own_number :
        (n : ℕ) (t : Procs)
        → t.pid p ≡ n
        → IsHashed t.links.proc_list t
        → 0 < occurs p t.links.proc_list
        → find_proc n t ≡ some p
    own_number n t e g o =
        subst (λ m. find_proc m t ≡ some p) e (find_proc_own t.links.proc_list t p g o)

    -- The new process is enlisted, and runnable.
    enlist-Forked :
        (n : ℕ) × (t : Procs) × (enlist cl p with_parent ≡ ok (pos n, t)) × Forked law p n kids s t
    unfolding enlist hash_proc with_parent own_parent forked joined x occurs
    enlist-Forked =
        let (n, next, r, found, new) =
          get_pid-IsFound_total (map s.pid s.links.proc_list) s.last_pid s.next_safe
            (omega (arith, length-map s.pid s.links.proc_list, h.counted, few)) h.settled
            h.bounded in
        let (k, q, w) =
          (wakeup_proc-Woken law s.kernel p h.kernel).2 (ap is_zombie uninit)
            (ap is_runnable uninit) in
        let done : ℕ → Outcome (ℤ × Procs) = λ m. wakeup_proc cl p s.kernel >>= λ k. ok (
          pos m,
          record s {
            links = joined;
            pid = update s.pid p n;
            hash_list = update s.hash_list (pid_hashfn m) (p ∷ s.hash_list (pid_hashfn m));
            kernel = k;
            last_pid = n;
            next_safe = next;
          },
        ) in
        let sound = forked-IsProcs n next k found new w.kernel in
        (
          n,
          forked n next k,
          ap
                (λ (o : Outcome (ℕ × ℕ)). o >>= λ found.
                  let t = record with_parent {
                    pid = update s.pid p found.0;
                    last_pid = found.0;
                    next_safe = found.1;
                  } in
                  let u = hash_proc p t in
                  let v = record u { links = set_links p u.links } in
                  wakeup_proc cl p v.kernel >>= λ k. ok (pos (v.pid p), record v { kernel = k }))
                r
              ∙ ap done (update_self s.pid p n)
              ∙ ap (λ o. o >>= λ k. ok (pos n, forked n next k)) q,
          record {
            sound = sound;
            positive = found.positive;
            new = λ q o e. omega (
              arith,
              map-occurs s.pid s.links.proc_list q o,
              ap (λ m. occurs m (map s.pid s.links.proc_list)) e,
              new,
            );
            finds =
                own_number n (forked n next k) (update_self s.pid p n) sound.hashed
                  (subst (λ ps. 0 < occurs p ps) (sym joined-list) (omega (arith, one_if_self p)));
            runs = ap is_runnable w.awake;
            others = w.others;
          },
        )

    -- `do_fork` below MAX_PROCESS, on processes that are in order and a new structure that is in no list
    -- and in its first state: without memory for the process it answers -E_NO_MEM, and it panics if
    -- the process that runs still waits for something. When a later step fails, it answers -E_NO_MEM
    -- and every property of the processes is kept. Otherwise the answer is a number from 1 that no
    -- process had; the new process is found by it, is runnable, and is the youngest child of the
    -- process that runs, no other process changed its state, and every property of the processes is
    -- kept.
    pub do_fork_lem :
        (kstack mm files : Bool)
        → (do_fork cl none kstack mm files s ≡ ok (e_no_mem, s))
          × ((s.kernel.procs s.kernel.current).wait_state ≢ 0
              → do_fork cl (some p) kstack mm files s ≡ panic)
          × ((s.kernel.procs s.kernel.current).wait_state ≡ 0
              → (kstack && (mm && files) ≡ false
                  → (t : Procs) × (do_fork cl (some p) kstack mm files s ≡ ok (e_no_mem, t))
                    × IsProcs law kids t)
                × (kstack && (mm && files) ≡ true
                    → (n : ℕ) × (t : Procs) × (do_fork cl (some p) kstack mm files s
                        ≡ ok (pos n, t))
                      × Forked law p n kids s t))
    unfolding do_fork with_parent own_parent x
    do_fork_lem kstack mm files =
        let below = leb-eq-false s.links.nr_process max_process few in
        (
          rw below refl,
          λ n. rw (below, ==_of_ne (s.kernel.procs s.kernel.current).wait_state 0 n) refl,
          λ e.
              let calm = (==_iff (s.kernel.procs s.kernel.current).wait_state 0).1 e in
              (
                λ b. (with_parent, rw (below, calm, b) refl, with_parent-IsProcs),
                λ b. let (n, t, r, f) = enlist-Forked in (n, t, rw (below, calm, b) r, f),
              ),
        )
