-- ===== src/Sched/RoundRobin.antt =====
-- Lab8/code/kern/schedule/default_sched.c: the round-robin class. The run list is the list of its
-- processes in the order of the ring.
use nku_os_lab.Base.{
  ℕ, ◌+◌, ◌-◌, ◌%◌, ◌^◌, ◌≤◌, ◌≡◌, refl, sym, ◌∙◌, ap, ap₂, subst, ◌⊎◌, inl, inr, Bool, true, false,
  not, ◌&&◌, ◌||◌, Option, none, some, List, [], ◌∷◌, ◌++◌, length, length-append, ltb, ◌==◌,
  if◌then◌else◌, arith, update, update_self, update_ne, ℕ_discrete, ==_iff, ==_of_ne,
}
use nku_os_lab.Base.Outcome.{Outcome, ok, ◌>>◌, assert}
use nku_os_lab.SkewHeap.Counts.{one_if, one_if_ne, one_if_self}
use nku_os_lab.Sched.{Proc, Kernel, SchedClass, set_proc}
use nku_os_lab.Sched.Laws.{Frame, Aside, Lawful, Picks}

-- `!list_empty(&(proc->run_link))`
unfoldable pub in_list : ℕ → List ℕ → Bool
in_list p [] = false
in_list p (x ∷ xs) = (x == p) || in_list p xs

-- `list_del_init(&(proc->run_link))`
unfoldable pub unlink : ℕ → List ℕ → List ℕ
unlink p [] = []
unlink p (x ∷ xs) = let rest = unlink p xs in if x == p then xs else x ∷ rest

-- The time slice that both classes give to a process in the queue.
abbrev pub fresh_slice : ℕ → ℕ → ℕ
fresh_slice slice max = if (slice == 0) || ltb max slice then max else slice

unfoldable pub rr_init : Kernel → Kernel
rr_init k = record k { run_list = []; proc_num = 0 }

unfoldable pub rr_enqueue : ℕ → Kernel → Outcome Kernel
unfolding in_list
rr_enqueue p k = do
  assert (not (in_list p k.run_list))
  let f = record (k.procs p) {
    time_slice = fresh_slice (k.procs p).time_slice k.max_time_slice;
    in_rq = true;
  }
  ok (record (set_proc p f k) {
    run_list = k.run_list ++ (p ∷ []);
    proc_num = (k.proc_num + 1) % 2 ^ 32;
  })

unfoldable pub rr_dequeue : ℕ → Kernel → Outcome Kernel
unfolding in_list unlink
rr_dequeue p k = do
  assert (in_list p k.run_list && (k.procs p).in_rq)
  ok (record k { run_list = unlink p k.run_list; proc_num = (k.proc_num + 2 ^ 32 - 1) % 2 ^ 32 })

abbrev pub head_of : List ℕ → Option ℕ
head_of [] = none
head_of (x ∷ xs) = some x

unfoldable pub rr_pick_next : Kernel → Outcome (Option ℕ × Kernel)
rr_pick_next k = ok (head_of k.run_list, k)

unfoldable pub rr_proc_tick : ℕ → Kernel → Kernel
rr_proc_tick p k =
    let slice = (k.procs p).time_slice - 1 in
    set_proc p
      (record (k.procs p) {
        time_slice = slice;
        need_resched = if slice == 0 then true else (k.procs p).need_resched;
      })
      k

unfoldable pub default_sched_class : SchedClass
unfolding rr_init rr_enqueue rr_dequeue rr_pick_next rr_proc_tick
default_sched_class = record {
  init = rr_init;
  enqueue = rr_enqueue;
  dequeue = rr_dequeue;
  pick_next = rr_pick_next;
  proc_tick = rr_proc_tick;
}

unfoldable pub occurs : ℕ → List ℕ → ℕ
occurs p [] = 0
occurs p (x ∷ xs) = one_if x p + occurs p xs

pub occurs-append : (p : ℕ) (xs ys : List ℕ) → occurs p (xs ++ ys) ≡ occurs p xs + occurs p ys
unfolding occurs
occurs-append p [] ys = omega arith
occurs-append p (x ∷ xs) ys = omega (arith, occurs-append p xs ys)

in_list-absent : (p : ℕ) (xs : List ℕ) → occurs p xs ≡ 0 → in_list p xs ≡ false
unfolding occurs in_list
in_list-absent p [] h = refl
in_list-absent p (x ∷ xs) h = ground (arith, h, in_list-absent p xs)

pub in_list-present : (p : ℕ) (xs : List ℕ) → occurs p xs ≡ 1 → in_list p xs ≡ true
unfolding occurs in_list
in_list-present p [] h = absurd (omega (arith, h))
in_list-present p (x ∷ xs) h = ground (arith, h, in_list-present p xs)

pub unlink-occurs :
    (p q : ℕ) (xs : List ℕ) → occurs p xs ≡ 1 → occurs q (unlink p xs) + one_if p q ≡ occurs q xs
unfolding occurs unlink
unlink-occurs p q [] h = absurd (omega (arith, h))
unlink-occurs p q (x ∷ xs) h = elim (ℕ_discrete x p) [
  | yes e ↦
      rw ((==_iff x p).1 e)
        (subst (λ y. occurs q xs + one_if y q ≡ one_if x q + occurs q xs) e (omega arith))
  | no n ↦
      let rest : occurs p xs ≡ 1 = omega (arith, h, one_if_ne x p n) in
      rw (==_of_ne x p n) (omega (arith, unlink-occurs p q xs rest))
]

pub length-unlink : (p : ℕ) (xs : List ℕ) → occurs p xs ≡ 1 → length (unlink p xs) + 1 ≡ length xs
unfolding occurs unlink
length-unlink p [] h = absurd (omega (arith, h))
length-unlink p (x ∷ xs) h = ground (arith, h, length-unlink p xs)

-- The run list holds no process twice, each knows that it is there, and their number is kept.
pub record IsRunList (k : Kernel) : Type 0 where
  pub once : (p : ℕ) → occurs p k.run_list ≤ 1
  pub marked : (p : ℕ) → occurs p k.run_list ≡ 1 → (k.procs p).in_rq ≡ true
  pub counted : k.proc_num ≡ length k.run_list % 2 ^ 32

pub rr-Aside :
    (s t : Kernel)
    → Aside s t
    → IsRunList s
    → IsRunList t × ((p : ℕ) → occurs p t.run_list ≡ occurs p s.run_list)
rr-Aside s t a h = (
  record {
    once = λ p. subst (λ l. occurs p l ≤ 1) (sym a.queue.0) (h.once p);
    marked = λ p e. (a.marks p).0 ∙ h.marked p (ap (occurs p) (sym a.queue.0) ∙ e);
    counted = a.queue.2 ∙ h.counted ∙ ap (λ l. length l % 2 ^ 32) (sym a.queue.0);
  },
  λ p. ap (occurs p) a.queue.0,
)

-- The process as `rr_enqueue` leaves it.
unfoldable pub queued_proc : ℕ → Kernel → Proc
queued_proc p k = record (k.procs p) {
  time_slice = fresh_slice (k.procs p).time_slice k.max_time_slice;
  in_rq = true;
}

marks_set :
    (k : Kernel) (p q : ℕ)
    → ((k.procs q).in_rq ≡ true) ⊎ (p ≡ q)
    → (update k.procs p (queued_proc p k) q).in_rq ≡ true
unfolding queued_proc
marks_set k p q h = elim (ℕ_discrete p q) [
  | yes e ↦
      subst (λ r. (update k.procs p (queued_proc p k) r).in_rq ≡ true) e
        (ap (λ (f : Proc). f.in_rq) (update_self k.procs p (queued_proc p k)))
  | no n ↦
      ap (λ (f : Proc). f.in_rq) (update_ne k.procs p (queued_proc p k) q n)
      ∙ elim h [ inl e ↦ e | inr e ↦ absurd (n e) ]
]

kept_by_queueing :
    {A : Type 0} (field : Proc → A) (k : Kernel) (p q : ℕ)
    → field (queued_proc p k) ≡ field (k.procs p)
    → field (update k.procs p (queued_proc p k) q) ≡ field (k.procs q)
kept_by_queueing field k p q h = elim (ℕ_discrete p q) [
  | yes e ↦
      subst (λ r. field (update k.procs p (queued_proc p k) r) ≡ field (k.procs r)) e
        (ap field (update_self k.procs p (queued_proc p k)) ∙ h)
  | no n ↦ ap field (update_ne k.procs p (queued_proc p k) q n)
]

-- The state after `rr_enqueue`.
unfoldable pub rr_queued : ℕ → Kernel → Kernel
unfolding queued_proc
rr_queued p k = record (set_proc p (queued_proc p k) k) {
  run_list = k.run_list ++ (p ∷ []);
  proc_num = (k.proc_num + 1) % 2 ^ 32;
}

occurs-queued : (p q : ℕ) (xs : List ℕ) → occurs q (xs ++ (p ∷ [])) ≡ occurs q xs + one_if p q
unfolding occurs
occurs-queued p q xs = omega (arith, occurs-append q xs (p ∷ []))

pub rr_enqueue-queued :
    (k : Kernel) (p : ℕ) → occurs p k.run_list ≡ 0 → rr_enqueue p k ≡ ok (rr_queued p k)
unfolding rr_enqueue rr_queued queued_proc
rr_enqueue-queued k p z = rw (in_list-absent p k.run_list z) refl

pub rr_queued-IsRunList :
    (k : Kernel) (p : ℕ) → IsRunList k → occurs p k.run_list ≡ 0 → IsRunList (rr_queued p k)
unfolding rr_queued queued_proc
rr_queued-IsRunList k p h z = record {
  once = λ q. elim (ℕ_discrete p q) [
    | yes e ↦
        subst (λ r. occurs r (k.run_list ++ (p ∷ [])) ≤ 1) e
          (omega (arith, occurs-queued p p k.run_list, z, one_if_self p))
    | no n ↦ omega (arith, occurs-queued p q k.run_list, h.once q, one_if_ne p q n)
  ];
  marked = λ q e. marks_set k p q (elim (ℕ_discrete p q) [
    | yes i ↦ inr i
    | no n ↦ inl (h.marked q (omega (arith, e, occurs-queued p q k.run_list, one_if_ne p q n)))
  ]);
  counted = omega (arith, h.counted, length-append k.run_list (p ∷ []));
}

pub rr_queued-Frame : (k : Kernel) (p : ℕ) → Frame k (rr_queued p k)
unfolding rr_queued queued_proc
rr_queued-Frame k p = record {
  states = λ q. kept_by_queueing (λ (f : Proc). f.state) k p q refl;
  waits = λ q. kept_by_queueing (λ (f : Proc). f.wait_state) k p q refl;
  current = refl;
  idleproc = refl;
}

pub rr_enqueue_law :
    (k : Kernel) (p : ℕ)
    → IsRunList k
    → occurs p k.run_list ≡ 0
    → (t : Kernel) × (rr_enqueue p k ≡ ok t)
      × IsRunList t
      × Frame k t
      × ((q : ℕ) → occurs q t.run_list ≡ occurs q k.run_list + one_if p q)
unfolding rr_queued queued_proc
rr_enqueue_law k p h z = (
  rr_queued p k,
  rr_enqueue-queued k p z,
  rr_queued-IsRunList k p h z,
  rr_queued-Frame k p,
  λ q. occurs-queued p q k.run_list,
)

-- The state after `rr_dequeue`.
unfoldable pub rr_unlinked : ℕ → Kernel → Kernel
rr_unlinked p k = record k {
  run_list = unlink p k.run_list;
  proc_num = (k.proc_num + 2 ^ 32 - 1) % 2 ^ 32;
}

pub rr_dequeue-unlinked :
    (k : Kernel) (p : ℕ)
    → IsRunList k
    → occurs p k.run_list ≡ 1
    → rr_dequeue p k ≡ ok (rr_unlinked p k)
unfolding rr_dequeue rr_unlinked
rr_dequeue-unlinked k p h e =
    ap (λ b. assert b >> ok (rr_unlinked p k))
      (ap₂ ◌&&◌ (in_list-present p k.run_list e) (h.marked p e))

pub rr_dequeue_law :
    (k : Kernel) (p : ℕ)
    → IsRunList k
    → occurs p k.run_list ≡ 1
    → (t : Kernel) × (rr_dequeue p k ≡ ok t)
      × IsRunList t
      × Frame k t
      × ((q : ℕ) → occurs q t.run_list + one_if p q ≡ occurs q k.run_list)
unfolding rr_unlinked
rr_dequeue_law k p h e = (
  rr_unlinked p k,
  rr_dequeue-unlinked k p h e,
  record {
    once = λ q. omega (arith, h.once q, unlink-occurs p q k.run_list e);
    marked = λ q i. h.marked q (still q i);
    counted = omega (arith, h.counted, length-unlink p k.run_list e);
  },
  record { states = λ q. refl; waits = λ q. refl; current = refl; idleproc = refl },
  λ q. unlink-occurs p q k.run_list e,
)
  where
    still : (q : ℕ) → occurs q (unlink p k.run_list) ≡ 1 → occurs q k.run_list ≡ 1
    still q i = omega (arith, h.once q, i, unlink-occurs p q k.run_list e)

pub head_of-Picks :
    (xs : List ℕ) → ((p : ℕ) → occurs p xs ≤ 1) → Picks (λ p. occurs p xs) (head_of xs)
unfolding occurs
head_of-Picks [] h = λ q. refl
head_of-Picks (x ∷ xs) h = omega (arith, h x, one_if_self x)

-- The round-robin class keeps the laws.
unfoldable pub default_sched_class-Lawful : Lawful default_sched_class
unfolding default_sched_class rr_pick_next
default_sched_class-Lawful = record {
  IsValid = IsRunList;
  count = λ k p. occurs p k.run_list;
  once = λ k p h. h.once p;
  aside = rr-Aside;
  enqueue_law = rr_enqueue_law;
  dequeue_law = rr_dequeue_law;
  pick_law = λ k h. (
    head_of k.run_list,
    k,
    refl,
    h,
    record { states = λ q. refl; waits = λ q. refl; current = refl; idleproc = refl },
    λ q. refl,
    head_of-Picks k.run_list h.once,
  );
}
