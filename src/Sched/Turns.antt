-- ===== src/Sched/Turns.antt =====
-- The turns of the processes under round robin.
use nku_os_lab.Base.{
  ℕ, zero, suc, ◌+◌, ◌%◌, ◌^◌, ◌≤◌, ◌≡◌, refl, sym, ◌∙◌, ap, subst, inl, inr, false, not, ◌&&◌,
  some, List, [], ◌∷◌, ◌++◌, get_elem?, ◌==◌, if◌then◌else◌, arith, Bool-cases, update_self,
  ==_refl, ==_iff,
}
use mathlib.Core.List.{append-nil}
use nku_os_lab.Base.Outcome.{Outcome, ok, ◌>>=◌}
use nku_os_lab.SkewHeap.Counts.{one_if_self}
use nku_os_lab.Sched.{
  Proc, Kernel, set_proc, is_runnable, proc_run, sched_class_enqueue, run_next, schedule,
}
use nku_os_lab.Sched.Queued.{can_run, Aside-set, IsKernel, current-count}
use nku_os_lab.Sched.Dispatch.{schedule-Chosen}
use nku_os_lab.Sched.RoundRobin.{
  occurs, unlink, default_sched_class, default_sched_class-Lawful, IsRunList, rr-Aside, rr_dequeue,
  rr_pick_next, head_of, rr_enqueue-queued, rr_queued, rr_queued-IsRunList, rr_unlinked,
  rr_dequeue-unlinked,
}

-- `schedule` as often as said, with nothing else in between.
unfoldable pub schedule_times : ℕ → Kernel → Outcome Kernel
schedule_times zero k = ok k
schedule_times (suc n) k = schedule default_sched_class k >>= schedule_times n

-- The process that runs goes to the end of the run list, if it can run.
abbrev behind : Kernel → List ℕ
behind k = if can_run k k.current then k.current ∷ [] else []

front-occurs :
    (k : Kernel) (x : ℕ) (xs : List ℕ) → IsRunList k → k.run_list ≡ x ∷ xs → occurs x k.run_list ≡ 1
unfolding occurs
front-occurs k x xs h e =
    let once = subst (λ l. occurs x l ≤ 1) e (h.once x) in rw e (omega (arith, once, one_if_self x))

unlink-front : (x : ℕ) (xs : List ℕ) → unlink x (x ∷ xs) ≡ xs
unfolding unlink
unlink-front x xs = rw (==_refl x) refl

-- The state without the first process of the run list, which is to run.
taken : ℕ → Kernel → Kernel
taken x k =
    set_proc x
      (record ((rr_unlinked x k).procs x) {
        runs = (((rr_unlinked x k).procs x).runs + 1) % 2 ^ 32;
      })
      (rr_unlinked x k)

run_next-taken :
    (k : Kernel) (x : ℕ)
    → rr_dequeue x k ≡ ok (rr_unlinked x k)
    → run_next default_sched_class (some x) k
      ≡ ok (if not (x == (taken x k).current) then proc_run x (taken x k) else taken x k)
unfolding run_next default_sched_class taken
run_next-taken k x q = rw q refl

switch-here :
    (k : Kernel) (x : ℕ) (xs : List ℕ)
    → IsRunList k
    → k.run_list ≡ x ∷ xs
    → (t : Kernel) × (run_next default_sched_class (some x) k ≡ ok t)
      × (t.current ≡ x)
      × (t.run_list ≡ xs)
unfolding proc_run taken rr_unlinked
switch-here k x xs h e =
    let q = run_next-taken k x (rr_dequeue-unlinked k x h (front-occurs k x xs h e)) in
    let list = ap (unlink x) e ∙ unlink-front x xs in
    elim (Bool-cases (x == k.current)) [
      | inl i ↦ (
        taken x k,
        q ∙ ap (λ b. ok (if not b then proc_run x (taken x k) else taken x k)) i,
        sym ((==_iff x k.current).0 i),
        list,
      )
      | inr i ↦ (
        record (taken x k) { current = x },
        q ∙ ap (λ b. ok (if not b then proc_run x (taken x k) else taken x k)) i,
        refl,
        list,
      )
    ]

-- What `schedule` does behind the queueing of the process that ran.
picks_front :
    (k : Kernel) (x : ℕ) (xs : List ℕ)
    → IsRunList k
    → k.run_list ≡ x ∷ xs
    → (t : Kernel) × ((default_sched_class.pick_next k >>= λ picked.
          run_next default_sched_class picked.0 picked.1)
        ≡ ok t)
      × (t.current ≡ x)
      × (t.run_list ≡ xs)
unfolding default_sched_class rr_pick_next
picks_front k x xs h e =
    let (t, q, c, l) = switch-here k x xs h e in
    (t, ap (λ o. run_next default_sched_class o k) (ap head_of e) ∙ q, c, l)

gathers :
    (s : Kernel) (x : ℕ) (xs : List ℕ)
    → IsRunList s
    → occurs s.current s.run_list ≡ 0
    → s.run_list ≡ x ∷ xs
    → (t : Kernel) × ((if is_runnable (s.procs s.current).state
          then sched_class_enqueue default_sched_class s.current s
          else ok s)
        ≡ ok t)
      × IsRunList t
      × (t.run_list ≡ x ∷ (xs ++ behind s))
unfolding sched_class_enqueue default_sched_class rr_queued
gathers s x xs v z e = elim (Bool-cases (is_runnable (s.procs s.current).state)) [
  | inr a ↦ (s, rw a refl, v, e ∙ rw (a, append-nil) refl)
  | inl a ↦ elim (Bool-cases (s.current == s.idleproc)) [
    | inl i ↦ (s, rw (a, i) refl, v, e ∙ rw (a, i, append-nil) refl)
    | inr i ↦ (
      rr_queued s.current s,
      rw (a, i) (rr_enqueue-queued s s.current z),
      rr_queued-IsRunList s s.current v z,
      ap (λ l. l ++ (s.current ∷ [])) e ∙ rw (a, i) refl,
    )
  ]
]

-- `schedule` in the steps of round robin: the first process of the list runs, and the one that ran
-- goes to its end if it can run.
rr_schedule_lem :
    (k : Kernel) (x : ℕ) (xs : List ℕ)
    → IsKernel default_sched_class-Lawful k
    → k.run_list ≡ x ∷ xs
    → (t : Kernel) × (schedule default_sched_class k ≡ ok t)
      × (t.current ≡ x)
      × (t.run_list ≡ xs ++ behind k)
unfolding default_sched_class-Lawful schedule
rr_schedule_lem k x xs h e =
    let f = record (k.procs k.current) { need_resched = false } in
    let s = set_proc k.current f k in
    let v = (rr-Aside k s (Aside-set k k.current f refl refl refl) h.valid).0 in
    let (t, q, w, l) = gathers s x xs v (current-count default_sched_class-Lawful k h) e in
    let same : behind s ≡ behind k =
      ap
        (λ (f : Proc).
          if is_runnable f.state && not (k.current == k.idleproc) then k.current ∷ [] else [])
        (update_self k.procs k.current f) in
    let (u, r, c, m) = picks_front t x (xs ++ behind s) w l in
    (
      u,
      ap
            (λ o. o >>= λ t. default_sched_class.pick_next t >>= λ picked.
              run_next default_sched_class picked.0 picked.1)
            q
          ∙ r,
      c,
      m ∙ ap (λ l. xs ++ l) same,
    )

get_elem?-append :
    (xs ys : List ℕ) (i p : ℕ) → get_elem? xs i ≡ some p → get_elem? (xs ++ ys) i ≡ some p
get_elem?-append [] ys i p e = cc
get_elem?-append (x ∷ xs) ys zero p e = e
get_elem?-append (x ∷ xs) ys (suc i) p e = get_elem?-append xs ys i p e

ok_injective : {t u : Kernel} → ◌≡◌ {A = Outcome Kernel} (ok t) (ok u) → t ≡ u
ok_injective e = cc

rr_schedule-IsKernel :
    (k t : Kernel)
    → IsKernel default_sched_class-Lawful k
    → schedule default_sched_class k ≡ ok t
    → IsKernel default_sched_class-Lawful t
rr_schedule-IsKernel k t h q =
    let (u, r, chosen) = schedule-Chosen default_sched_class-Lawful k h in
    subst (IsKernel default_sched_class-Lawful) (ok_injective (sym r ∙ q)) chosen.kernel

turns :
    (i : ℕ) (xs : List ℕ) (k : Kernel) (p : ℕ)
    → IsKernel default_sched_class-Lawful k
    → k.run_list ≡ xs
    → get_elem? xs i ≡ some p
    → (t : Kernel) × (schedule_times (suc i) k ≡ ok t) × (t.current ≡ p)
unfolding schedule_times
turns zero [] k p h l e = cc
turns (suc i) [] k p h l e = cc
turns zero (x ∷ xs) k p h l e =
    let (t, q, c, m) = rr_schedule_lem k x xs h l in
    (t, ap (λ o. o >>= schedule_times zero) q, c ∙ cc)
turns (suc i) (x ∷ xs) k p h l e =
    let (t, q, c, m) = rr_schedule_lem k x xs h l in
    let (u, r, d) =
      turns i t.run_list t p (rr_schedule-IsKernel k t h q) refl
        (ap (λ l. get_elem? l i) m ∙ get_elem?-append xs (behind k) i p e) in
    (u, ap (λ o. o >>= schedule_times (suc i)) q ∙ r, d)

-- Under round robin every process in the run list gets its turn: the process at place `i` runs after
-- `i + 1` calls of `schedule`, whatever the other processes are.
pub schedule_times-current :
    (i : ℕ) (k : Kernel) (p : ℕ)
    → IsKernel default_sched_class-Lawful k
    → get_elem? k.run_list i ≡ some p
    → (t : Kernel) × (schedule_times (suc i) k ≡ ok t) × (t.current ≡ p)
schedule_times-current i k p h e = turns i k.run_list k p h refl e
