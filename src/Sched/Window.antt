-- ===== src/Sched/Window.antt =====
-- The order of the stride class: the strides in the queue are numbers modulo 2^32 that stand for
-- strides without bound, which never differ by more than BIG_STRIDE.
use nku_os_lab.Base.{
  ℕ, ◌+◌, ◌%◌, ◌^◌, ◌≤◌, ◌<◌, ◌≡◌, refl, sym, ◌∙◌, ap, subst, ◌⊎◌, inl, inr, true, ltb, arith,
  update, update_self, update_ne, ℕ_discrete,
}
use nku_os_lab.SkewHeap.{Heap, nil, node, skew_heap_insert}
use nku_os_lab.SkewHeap.Counts.{count, size, one_if_self, one_if_ne, insert-count, merge-size}
use nku_os_lab.SkewHeap.Order.{Each, IsHeap, Each-count, count-Each, insert-IsHeap}
use nku_os_lab.Sched.{Proc, Kernel, set_proc}
use nku_os_lab.Sched.RoundRobin.{fresh_slice}
use nku_os_lab.Sched.Stride.{big_stride, proc_stride_comp_f, stride_less}

-- The 32-bit strides in `procs` stand for the strides `s`.
abbrev pub StandsFor : (ℕ → Proc) → (ℕ → ℕ) → Type 0
StandsFor procs s = (p : ℕ) → (procs p).lab6_stride ≡ s p % 2 ^ 32

-- No two strides in the queue are further apart than BIG_STRIDE.
abbrev pub IsWindow : (ℕ → ℕ) → Heap → Type 0
IsWindow s h = (p q : ℕ) → 0 < count p h → 0 < count q h → s p ≤ s q + big_stride

-- The run pool: a heap by the strides `s`, in which no process stands twice.
pub record IsPool (s : ℕ → ℕ) (k : Kernel) : Type 0 where
  pub stands : StandsFor k.procs s
  pub window : IsWindow s k.run_pool
  pub heap : IsHeap s k.run_pool
  pub once : (p : ℕ) → count p k.run_pool ≤ 1
  pub marked : (p : ℕ) → 0 < count p k.run_pool → (k.procs p).in_rq ≡ true
  pub counted : k.proc_num ≡ size k.run_pool
  pub bounded : size k.run_pool < 2 ^ 32

-- Within the window, the signed difference decides the order of the strides.
pub stride_less-ltb :
    (procs : ℕ → Proc) (s : ℕ → ℕ) (a b : ℕ)
    → StandsFor procs s
    → s a ≤ s b + big_stride
    → s b ≤ s a + big_stride
    → stride_less procs a b ≡ ltb (s a) (s b)
unfolding proc_stride_comp_f
stride_less-ltb procs s a b f l k = ground (arith, f a, f b, l, k)

-- The least stride is at the root.
pub root-least :
    (s : ℕ → ℕ) (p : ℕ) (l r : Heap)
    → IsHeap s (node p l r)
    → (q : ℕ) → 0 < count q (node p l r)
    → s p ≤ s q
root-least s p l r h q c = count-Each (λ y. s p ≤ s y) (node p l r) (omega arith, h.0, h.1) q c

pub IsHeap-cong : (s t : ℕ → ℕ) (h : Heap) → Each (λ y. t y ≡ s y) h → IsHeap s h → IsHeap t h
IsHeap-cong s t nil e h = tt
IsHeap-cong s t (node x l r) e h = (
  Each-cong l e.1 h.0,
  Each-cong r e.2 h.1,
  (IsHeap-cong s t l e.1 h.2.0, IsHeap-cong s t r e.2 h.2.1),
)
  where
    Each-cong :
        (a : Heap) → Each (λ y. t y ≡ s y) a → Each (λ y. s x ≤ s y) a → Each (λ y. t x ≤ t y) a
    Each-cong nil i j = tt
    Each-cong (node y b c) i j =
        (omega (arith, e.0, i.0, j.0), Each-cong b i.1 j.1, Each-cong c i.2 j.2)

-- The process and its new stride can go among the others.
abbrev pub Fits : (ℕ → ℕ) → ℕ → Heap → Type 0
Fits s p h = (q : ℕ) → 0 < count q h → (s p ≤ s q + big_stride) × (s q ≤ s p + big_stride)

-- The state after `stride_enqueue`.
unfoldable pub enqueued : ℕ → Kernel → Kernel
enqueued p k =
    record (set_proc p
      (record (k.procs p) {
        time_slice = fresh_slice (k.procs p).time_slice k.max_time_slice;
        in_rq = true;
      })
      k) {
        run_pool = skew_heap_insert (stride_less k.procs) k.run_pool p;
        proc_num = (k.proc_num + 1) % 2 ^ 32;
      }

-- A field of a process that an update leaves alone.
pub update_keeps :
    {A : Type 0} (field : Proc → A) (procs : ℕ → Proc) (p : ℕ) (f : Proc) (q : ℕ)
    → field f ≡ field (procs p)
    → field (update procs p f q) ≡ field (procs q)
update_keeps field procs p f q e = elim (ℕ_discrete p q) [
  | yes i ↦
      subst (λ r. field (update procs p f r) ≡ field (procs r)) i
        (ap field (update_self procs p f) ∙ e)
  | no n ↦ ap field (update_ne procs p f q n)
]

module _ (s : ℕ → ℕ) (k : Kernel) (p : ℕ) (h : IsPool s k) (absent : count p k.run_pool ≡ 0)
    (fits : Fits s p k.run_pool) (room : size k.run_pool + 1 < 2 ^ 32) where
  -- The process is among the old ones or is the new one.
  Here : ℕ → Type 0
  Here q = (0 < count q k.run_pool) ⊎ (q ≡ p)

  close : (a b : ℕ) → Here a → Here b → s a ≤ s b + big_stride
  unfolding Here
  close a b (inl x) (inl y) = h.window a b x y
  close a b (inl x) (inr y) = subst (λ z. s a ≤ s z + big_stride) (sym y) (fits a x).1
  close a b (inr x) (inl y) = subst (λ z. s z ≤ s b + big_stride) (sym x) (fits b y).0
  close a b (inr x) (inr y) = omega (arith, ap s (x ∙ sym y))

  here : (q : ℕ) → 0 < count q (skew_heap_insert (stride_less k.procs) k.run_pool p) → Here q
  unfolding Here
  here q c = elim (ℕ_discrete p q) [
    | yes e ↦ inr (sym e)
    | no n ↦
        inl (omega (arith, c, insert-count (stride_less k.procs) q k.run_pool p, one_if_ne p q n))
  ]

  pub size-enqueued :
      size (skew_heap_insert (stride_less k.procs) k.run_pool p) ≡ size k.run_pool + 1
  unfolding skew_heap_insert size
  size-enqueued = omega (arith, merge-size (stride_less k.procs) k.run_pool (node p nil nil))

  pub enqueued-IsPool : IsPool s (enqueued p k)
  unfolding enqueued Here
  enqueued-IsPool = record {
    stands = λ q. update_keeps (λ (f : Proc). f.lab6_stride) k.procs p _ q refl ∙ h.stands q;
    window = λ a b x y. close a b (here a x) (here b y);
    heap =
        insert-IsHeap (stride_less k.procs) s Here
          (λ a b x y. stride_less-ltb k.procs s a b h.stands (close a b x y) (close b a y x))
          k.run_pool p (Each-count Here k.run_pool (λ q c. inl c)) (inr refl) h.heap;
    once = λ q. elim (ℕ_discrete p q) [
      | yes e ↦
          subst (λ r. count r (skew_heap_insert (stride_less k.procs) k.run_pool p) ≤ 1) e
            (omega
              (arith, absent, insert-count (stride_less k.procs) p k.run_pool p, one_if_self p))
      | no n ↦
          omega
            (arith, h.once q, insert-count (stride_less k.procs) q k.run_pool p, one_if_ne p q n)
    ];
    marked = λ q c. elim (ℕ_discrete p q) [
      | yes e ↦
          subst (λ r. ((enqueued p k).procs r).in_rq ≡ true) e
            (ap (λ (f : Proc). f.in_rq) (update_self k.procs p _))
      | no n ↦
          ap (λ (f : Proc). f.in_rq) (update_ne k.procs p _ q n)
          ∙ h.marked q
              (omega (arith, c, insert-count (stride_less k.procs) q k.run_pool p, one_if_ne p q n))
    ];
    counted = omega (arith, h.counted, room, size-enqueued);
    bounded = omega (arith, room, size-enqueued);
  }
