-- ===== src/Sched/Least.antt =====
-- A turn of the stride class: the process with the least stride leaves the queue, advances, and
-- can join the queue again.
use nku_os_lab.Base.{
  ℕ, ◌+◌, ◌-◌, ◌/◌, ◌%◌, ◌^◌, ◌≤◌, ◌<◌, ◌≡◌, ◌≢◌, refl, sym, ◌∙◌, ap, subst, true, some, ltb, arith,
  update, update_self, update_ne, ℕ_discrete, ==_of_ne, ==_iff, ==_refl, lt→ltb,
}
use native.Mathlib.Nat.{div-le_self}
use nku_os_lab.Base.Outcome.{ok, panic}
use nku_os_lab.SkewHeap.{Heap, nil, node, skew_heap_merge, skew_heap_remove}
use nku_os_lab.SkewHeap.Counts.{count, size, one_if, one_if_self, merge-count, merge-size}
use nku_os_lab.SkewHeap.Order.{Each, IsHeap, Each-count, merge-IsHeap}
use nku_os_lab.Sched.{Proc, Kernel, set_proc}
use nku_os_lab.Sched.Stride.{
  big_stride, stride_less, stride_enqueue, stride_dequeue, stride_pick_next, advance,
}
use nku_os_lab.Sched.Window.{
  IsPool, Fits, StandsFor, root-least, IsHeap-cong, update_keeps, stride_less-ltb, enqueued,
  enqueued-IsPool,
}

-- The strides after the turn of `p`.
abbrev pub advanced : (ℕ → ℕ) → Kernel → ℕ → ℕ → ℕ
advanced s k p = update s p (s p + big_stride / (k.procs p).lab6_priority)

step-bound : (n : ℕ) → big_stride / n ≤ big_stride
step-bound n = div-le_self big_stride n

dequeue_root :
    (u : Kernel) (p : ℕ) (l r : Heap)
    → (u.procs p).in_rq ≡ true
    → ltb 0 u.proc_num ≡ true
    → u.run_pool ≡ node p l r
    → stride_dequeue p u
      ≡ ok (record u {
        run_pool = skew_heap_merge (stride_less u.procs) l r;
        proc_num = (u.proc_num + 2 ^ 32 - 1) % 2 ^ 32;
      })
unfolding stride_dequeue skew_heap_remove
dequeue_root u p l r m c e =
    let removed : skew_heap_remove (stride_less u.procs) (node p l r) p
        ≡ skew_heap_merge (stride_less u.procs) l r =
      rw (==_refl p) refl in
    rw (m, c)
      (ap (λ t. ok (record u { run_pool = t; proc_num = (u.proc_num + 2 ^ 32 - 1) % 2 ^ 32 }))
        (ap (λ t. skew_heap_remove (stride_less u.procs) t p) e ∙ removed))

module _ (s : ℕ → ℕ) (k : Kernel) (p : ℕ) (l r : Heap) (h : IsPool s k)
    (pool : k.run_pool ≡ node p l r) where
  inside : (q : ℕ) → count q k.run_pool ≡ one_if p q + count q l + count q r
  unfolding count
  inside q = ap (count q) pool

  alone : (count p l ≡ 0) × (count p r ≡ 0)
  alone = (
    omega (arith, inside p, h.once p, one_if_self p),
    omega (arith, inside p, h.once p, one_if_self p),
  )

  unfoldable pub picked : Proc
  picked = record (k.procs p) {
    lab6_stride = ((k.procs p).lab6_stride + big_stride / (k.procs p).lab6_priority) % 2 ^ 32;
  }

  -- The state after `stride_pick_next`.
  unfoldable pub moved : Kernel
  unfolding picked
  moved = set_proc p picked k

  pick_lem : 0 < (k.procs p).lab6_priority → stride_pick_next k ≡ ok (some p, moved)
  unfolding stride_pick_next moved picked
  pick_lem positive =
      ap (λ t. advance t k) pool
      ∙ rw (==_of_ne (k.procs p).lab6_priority 0 (λ e. omega (arith, e, positive))) refl

  moved_stands : StandsFor moved.procs (advanced s k p)
  unfolding moved picked
  moved_stands q = elim (ℕ_discrete p q) [
    | yes e ↦
        subst (λ a. (update k.procs p picked a).lab6_stride ≡ advanced s k p a % 2 ^ 32) e
          (ap (λ (f : Proc). f.lab6_stride) (update_self k.procs p picked)
            ∙ omega (arith, h.stands p)
            ∙ ap (λ a. a % 2 ^ 32) (sym (update_self s p _)))
    | no n ↦
        ap (λ (f : Proc). f.lab6_stride) (update_ne k.procs p picked q n)
        ∙ h.stands q
        ∙ ap (λ a. a % 2 ^ 32) (sym (update_ne s p _ q n))
  ]

  -- The state after `stride_dequeue`.
  unfoldable pub left : Kernel
  left = record moved {
    run_pool = skew_heap_merge (stride_less moved.procs) l r;
    proc_num = (k.proc_num + 2 ^ 32 - 1) % 2 ^ 32;
  }

  gone :
      (q : ℕ)
      → 0 < count q (skew_heap_merge (stride_less moved.procs) l r)
      → (p ≢ q) × (0 < count q k.run_pool)
  gone q c =
      let both = merge-count (stride_less moved.procs) q l r in
      (
        λ e.
            subst (λ a. 0 < count a l + count a r → ⊥) e (λ z. omega (arith, z, alone.0, alone.1))
              (omega (arith, c, both)),
        omega (arith, c, both, inside q),
      )

  stays : (q : ℕ) → p ≢ q → advanced s k p q ≡ s q
  stays q n = update_ne s p _ q n

  -- The processes that are left.
  Rest : ℕ → Type 0
  Rest q = (p ≢ q) × (0 < count q k.run_pool)

  Rest-of : (a : Heap) → ((q : ℕ) → count q a ≤ count q l + count q r) → Each Rest a
  unfolding Rest
  Rest-of a c = Each-count Rest a λ q i. (
    λ e.
        subst (λ b. 0 < count b l + count b r → ⊥) e (λ z. omega (arith, z, alone.0, alone.1))
          (omega (arith, i, c q)),
    omega (arith, i, c q, inside q),
  )

  Rest-close : (a b : ℕ) → Rest a → Rest b → advanced s k p a ≤ advanced s k p b + big_stride
  unfolding Rest
  Rest-close a b x y = rw (stays a x.0, stays b y.0) (h.window a b x.1 y.1)

  same_there : (a : Heap) → Each Rest a → Each (λ q. advanced s k p q ≡ s q) a
  unfolding Rest
  same_there nil e = tt
  same_there (node x b c) e = (stays x e.0.0, same_there b e.1, same_there c e.2)

  pool-IsHeap : IsHeap s (node p l r)
  pool-IsHeap = subst (IsHeap s) pool h.heap

  left-IsPool : IsPool (advanced s k p) left
  unfolding left moved picked Rest size
  left-IsPool =
      let el = Rest-of l (λ q. omega arith) in
      let er = Rest-of r (λ q. omega arith) in
      let sizes = ap size pool in
      record {
        stands = moved_stands;
        window = λ a b x y. Rest-close a b (gone a x) (gone b y);
        heap =
            merge-IsHeap (stride_less moved.procs) (advanced s k p) Rest
              (λ a b x y.
                stride_less-ltb moved.procs (advanced s k p) a b moved_stands (Rest-close a b x y)
                  (Rest-close b a y x))
              l r el er (IsHeap-cong s (advanced s k p) l (same_there l el) pool-IsHeap.2.0)
              (IsHeap-cong s (advanced s k p) r (same_there r er) pool-IsHeap.2.1);
        once = λ q. omega (arith, merge-count (stride_less moved.procs) q l r, inside q, h.once q);
        marked = λ q c.
            update_keeps (λ (f : Proc). f.in_rq) k.procs p picked q refl ∙ h.marked q (gone q c).1;
        counted =
            omega (arith, h.counted, sizes, h.bounded, merge-size (stride_less moved.procs) l r);
        bounded = omega (arith, sizes, h.bounded, merge-size (stride_less moved.procs) l r);
      }

  dequeue_lem : stride_dequeue p moved ≡ ok left
  unfolding left moved picked size
  dequeue_lem =
      dequeue_root moved p l r
        (update_keeps (λ (f : Proc). f.in_rq) k.procs p picked p refl
          ∙ h.marked p (omega (arith, inside p, one_if_self p)))
        (lt→ltb 0 k.proc_num (omega (arith, h.counted, ap size pool))) pool

  Fits-again : Fits (advanced s k p) p left.run_pool
  unfolding left moved picked
  Fits-again q c =
      let there : 0 < count p k.run_pool = omega (arith, inside p, one_if_self p) in
      let g = gone q c in
      let new = update_self s p (s p + big_stride / (k.procs p).lab6_priority) in
      let old = stays q g.0 in
      let least = root-least s p l r pool-IsHeap q (subst (λ a. 0 < count q a) pool g.1) in
      let close = h.window q p g.1 there in
      (
        omega (arith, new, old, least, step-bound (k.procs p).lab6_priority),
        omega (arith, new, old, close),
      )

  -- The process at the root with the least stride was taken out; the strides are those after its
  -- turn, and it can join the others again.
  pub record Turn : Type 0 where
    pub least : (q : ℕ) → 0 < count q k.run_pool → s p ≤ s q
    pub picks : stride_pick_next k ≡ ok (some p, moved)
    pub dequeues : stride_dequeue p moved ≡ ok left
    pub rest : IsPool (advanced s k p) left
    pub out : (q : ℕ) → count q left.run_pool + one_if p q ≡ count q k.run_pool
    pub again :
        (stride_enqueue p left ≡ ok (enqueued p left)) × IsPool (advanced s k p) (enqueued p left)

  -- `s` gives the strides as numbers without bound, and `p` is at the root of the run pool. If the
  -- priority of `p` is zero, as `alloc_proc` leaves it, the choice divides by zero. Otherwise, while
  -- the strides in the pool lie within BIG_STRIDE of each other, whatever the priorities of the
  -- others are, the signed difference of the 32-bit strides picks a process with the least stride, and after its
  -- turn they still do: the process leaves the queue, all others stay in it, and it can be queued
  -- again with the stride that its priority gives it.
  pub stride_turn :
      ((k.procs p).lab6_priority ≡ 0 → stride_pick_next k ≡ panic)
      × (0 < (k.procs p).lab6_priority → Turn)
  unfolding stride_enqueue stride_pick_next enqueued left size
  stride_turn = (
    λ z. ap (λ t. advance t k) pool ∙ rw ((==_iff (k.procs p).lab6_priority 0).1 z) refl,
    λ positive. record {
      least = λ q c. root-least s p l r pool-IsHeap q (subst (λ a. 0 < count q a) pool c);
      picks = pick_lem positive;
      dequeues = dequeue_lem;
      rest = left-IsPool;
      out = λ q. omega (arith, merge-count (stride_less moved.procs) q l r, inside q);
      again = (
        refl,
        enqueued-IsPool (advanced s k p) left p left-IsPool
            (omega (arith, merge-count (stride_less moved.procs) p l r, alone.0, alone.1))
            Fits-again
            (omega (arith, ap size pool, h.bounded, merge-size (stride_less moved.procs) l r)),
      );
    },
  )
