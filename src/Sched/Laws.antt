-- ===== src/Sched/Laws.antt =====
-- What the scheduler relies on in a scheduling class.
use nku_os_lab.Base.{ℕ, ◌+◌, ◌≤◌, ◌≡◌, Option, none, some}
use nku_os_lab.Base.Outcome.{ok}
use nku_os_lab.SkewHeap.Counts.{one_if}
use nku_os_lab.Sched.{Kernel, SchedClass}

-- A step of the class leaves the states of the processes, what they wait for, and who runs, as they are.
pub record Frame (s t : Kernel) : Type 0 where
  pub states : (p : ℕ) → (t.procs p).state ≡ (s.procs p).state
  pub waits : (p : ℕ) → (t.procs p).wait_state ≡ (s.procs p).wait_state
  pub current : t.current ≡ s.current
  pub idleproc : t.idleproc ≡ s.idleproc

-- A change of the processes that the queue does not depend on.
pub record Aside (s t : Kernel) : Type 0 where
  pub queue : (t.run_list ≡ s.run_list) × (t.run_pool ≡ s.run_pool) × (t.proc_num ≡ s.proc_num)
  pub marks :
      (p : ℕ)
      → ((t.procs p).in_rq ≡ (s.procs p).in_rq)
        × ((t.procs p).lab6_stride ≡ (s.procs p).lab6_stride)
        × ((t.procs p).lab6_priority ≡ (s.procs p).lab6_priority)

-- What `pick_next` finds: a process of the queue, or that the queue is empty.
abbrev pub Picks : (ℕ → ℕ) → Option ℕ → Type 0
Picks count none = (q : ℕ) → count q ≡ 0
Picks count (some p) = count p ≡ 1

-- The laws of a class: `count k p` says how often `p` is in the queue of `k`.
pub record Lawful (c : SchedClass) : Type 1 where
  pub IsValid : Kernel → Type 0
  pub count : Kernel → ℕ → ℕ
  pub once : (k : Kernel) (p : ℕ) → IsValid k → count k p ≤ 1
  pub aside : (s t : Kernel) → Aside s t → IsValid s → IsValid t × ((p : ℕ) → count t p ≡ count s p)
  pub enqueue_law :
      (k : Kernel) (p : ℕ)
      → IsValid k
      → count k p ≡ 0
      → (t : Kernel) × (c.enqueue p k ≡ ok t)
        × IsValid t
        × Frame k t
        × ((q : ℕ) → count t q ≡ count k q + one_if p q)
  pub dequeue_law :
      (k : Kernel) (p : ℕ)
      → IsValid k
      → count k p ≡ 1
      → (t : Kernel) × (c.dequeue p k ≡ ok t)
        × IsValid t
        × Frame k t
        × ((q : ℕ) → count t q + one_if p q ≡ count k q)
  pub pick_law :
      (k : Kernel)
      → IsValid k
      → (o : Option ℕ) × (t : Kernel) × (c.pick_next k ≡ ok (o, t))
        × IsValid t
        × Frame k t
        × ((q : ℕ) → count t q ≡ count k q)
        × Picks (count k) o
