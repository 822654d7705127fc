-- ===== src/Sync/HandOver.antt =====
-- What `__up` does, and that the process that it wakes up has got the semaphore.
use nku_os_lab.Base.{
  ℕ, ◌+◌, ◌%◌, ◌^◌, ◌≤◌, ◌<◌, ◌≡◌, ◌≢◌, refl, sym, ◌∙◌, ap, ap₂, subst, true, false, not, ◌&&◌,
  none, some, List, [], ◌∷◌, ◌==◌, ==_refl, if◌then◌else◌, arith, update, update_self, update_ne,
}
use nku_os_lab.Base.Outcome.{Outcome, ok, ◌>>=◌, ◌>>◌, assert}
use nku_os_lab.SkewHeap.Counts.{one_if, one_if_self}
use nku_os_lab.Sched.{proc_runnable, is_runnable, is_zombie, Kernel, SchedClass, wakeup_proc}
use nku_os_lab.Sched.Laws.{Lawful}
use nku_os_lab.Sched.Wake.{Woken, wakeup_proc-Woken}
use nku_os_lab.Sched.RoundRobin.{occurs, unlink, head_of}
use nku_os_lab.Sync.{
  Wait, Sync, wt_ksem, set_wait, set_queue, wait_queue_first, wait_queue_del, wait_in_queue,
  wait_current_del, wakeup_wait, up_waiting, up, down_finish, down_checked,
}
use nku_os_lab.Sync.Waiting.{IsSemaphore}

module _ {c : SchedClass} (law : Lawful c) (q : ℕ) (s : Sync) (h : IsSemaphore law q s) where
  -- What `up` does to an empty queue: the value grows.
  pub record Counted (t : Sync) : Type 0 where
    pub value : t.value q ≡ (s.value q + 1) % 2 ^ 32
    pub queue : t.queues q ≡ []
    pub kernel : t.kernel ≡ s.kernel

  -- What it does to a queue that begins with `w`: the process of `w` has the semaphore.
  pub record Handed (w : ℕ) (ws : List ℕ) (t : Sync) : Type 0 where
    pub value : t.value q ≡ s.value q
    pub queue : t.queues q ≡ ws
    pub awake : (t.kernel.procs (s.waits w).proc).state ≡ proc_runnable
    pub current : t.kernel.current ≡ s.kernel.current
    pub finishes : (down_finish q w wt_ksem t ≡ ok (0, t)) × (down_checked 0 t ≡ ok t)

  module _ (w : ℕ) (ws : List ℕ) (e : s.queues q ≡ w ∷ ws) where
    p : ℕ
    p = (s.waits w).proc

    within : (v : ℕ) → occurs v (s.queues q) ≡ one_if w v + occurs v ws
    unfolding occurs
    within v = ap (occurs v) e

    there : 0 < occurs w (s.queues q)
    there = omega (arith, within w, one_if_self w)

    -- The waits behind `w` are other waits of other processes.
    others :
        (v : ℕ) → 0 < occurs v ws → (w ≢ v) × (0 < occurs v (s.queues q)) × (p ≢ (s.waits v).proc)
    unfolding p
    others v o =
        let n : w ≢ v = λ i.
          subst (λ x. 0 < occurs x ws → ⊥) i
            (λ z. omega (arith, z, within w, h.once w, one_if_self w)) o in
        let b : 0 < occurs v (s.queues q) = omega (arith, o, within v) in
        (n, b, λ i. n (h.apart w v there b i))

    -- The state in which `wakeup_proc` is called.
    unfoldable pub taken_out : Sync
    taken_out =
        set_wait w
          (record (update s.waits w (record (s.waits w) { linked = false }) w) {
            wakeup_flags = wt_ksem;
          })
          (set_queue q (unlink w (s.queues q))
            (set_wait w (record (s.waits w) { linked = false }) s))

    given : Wait
    unfolding p
    given = record {
      proc = p;
      wakeup_flags = wt_ksem;
      wait_queue = (s.waits w).wait_queue;
      linked = false;
    }

    own : taken_out.waits w ≡ given
    unfolding taken_out given p
    own =
        update_self (update s.waits w (record (s.waits w) { linked = false })) w _
        ∙ ap (λ (a : Wait). record a { wakeup_flags = wt_ksem }) (update_self s.waits w _)

    other_waits : (v : ℕ) → w ≢ v → taken_out.waits v ≡ s.waits v
    unfolding taken_out
    other_waits v n =
        update_ne (update s.waits w (record (s.waits w) { linked = false })) w _ v n
        ∙ update_ne s.waits w _ v n

    rest : taken_out.queues q ≡ ws
    unfolding taken_out unlink
    rest = update_self s.queues q _ ∙ ap (unlink w) e ∙ rw (==_refl w) refl

    woken : Kernel → Sync
    woken k = record taken_out { kernel = k }

    woken-IsSemaphore : (k : Kernel) → Woken law s.kernel p h.kernel k → IsSemaphore law q (woken k)
    unfolding woken taken_out
    woken-IsSemaphore k z = record {
      kernel = z.kernel;
      idle = λ l. absurd (filled (sym e ∙ h.idle l));
      once = λ v. subst (λ l. occurs v l ≤ 1) (sym rest) (omega (arith, within v, h.once v));
      sleeps = λ v o.
          let (n, b, d) = others v (subst (λ l. 0 < occurs v l) rest o) in
          let y = h.sleeps v b in
          record {
            linked = ap (λ (a : Wait). a.linked) (other_waits v n) ∙ y.linked;
            at = ap (λ (a : Wait). a.wait_queue) (other_waits v n) ∙ y.at;
            state =
                ap (λ (a : Wait). (k.procs a.proc).state) (other_waits v n)
                ∙ z.others (s.waits v).proc d
                ∙ y.state;
            wait_state =
                ap (λ (a : Wait). (k.procs a.proc).wait_state) (other_waits v n)
                ∙ z.waits (s.waits v).proc d
                ∙ y.wait_state;
          };
      apart = λ u v a b i.
          let (m, f, _) = others u (subst (λ l. 0 < occurs u l) rest a) in
          let (n, g, _) = others v (subst (λ l. 0 < occurs v l) rest b) in
          h.apart u v f g (
            sym (ap (λ (a : Wait). a.proc) (other_waits u m))
            ∙ i
            ∙ ap (λ (a : Wait). a.proc) (other_waits v n));
    }
      where
        filled : ◌≡◌ {A = List ℕ} (w ∷ ws) [] → ⊥
        filled z = cc

    guard : ((s.waits w).linked && ((s.waits w).wait_queue == q)) ≡ true
    guard = ap₂ (λ a b. a && (b == q)) (h.sleeps w there).linked (h.sleeps w there).at ∙ ==_refl q

    wakes :
        (k : Kernel)
        → wakeup_proc c p s.kernel ≡ ok k
        → wakeup_wait c q w wt_ksem true s ≡ ok (woken k)
    unfolding wakeup_wait wait_queue_del woken taken_out given p
    wakes k r =
        ap
          (λ b.
            (assert b
              >> ok (
                  set_queue q (unlink w (s.queues q))
                    (set_wait w (record (s.waits w) { linked = false }) s)))
            >>= λ t.
                wakeup_proc c
                  ((set_wait w (record (t.waits w) { wakeup_flags = wt_ksem }) t).waits w).proc
                  t.kernel
                >>= λ k. ok (record (set_wait w (record (t.waits w) { wakeup_flags = wt_ksem }) t) {
                  kernel = k;
                }))
          guard
        ∙ ap (λ (a : Wait). wakeup_proc c a.proc s.kernel >>= λ k. ok (woken k)) own
        ∙ ap (λ o. o >>= λ k. ok (woken k)) r

    ups : up c q s ≡ wakeup_wait c q w wt_ksem true s
    unfolding up up_waiting wait_queue_first
    ups =
        ap
          (λ l. elim (head_of l) as (λ _. Outcome Sync) [
            | none ↦ ok (record s { value = update s.value q ((s.value q + 1) % 2 ^ 32) })
            | some w ↦
                assert ((s.kernel.procs (s.waits w).proc).wait_state == wt_ksem)
                >> wakeup_wait c q w wt_ksem true s
          ])
          e
        ∙ ap (λ x. assert (x == wt_ksem) >> wakeup_wait c q w wt_ksem true s)
            (h.sleeps w there).wait_state

    finished : (k : Kernel) → down_finish q w wt_ksem (woken k) ≡ ok (0, woken k)
    unfolding down_finish wait_current_del wait_in_queue woken given p
    finished k =
        ap
          (λ (a : Wait). (if a.linked then wait_queue_del q w (woken k) else ok (woken k)) >>= λ t.
            ok (
              if not ((t.waits w).wakeup_flags == wt_ksem) then (t.waits w).wakeup_flags else 0,
              t,
            ))
          own
        ∙ ap
            (λ (a : Wait).
              ok (if not (a.wakeup_flags == wt_ksem) then a.wakeup_flags else 0, woken k))
            own

    hands_over : (t : Sync) × (up c q s ≡ ok t) × IsSemaphore law q t × Handed w ws t
    unfolding p woken taken_out down_checked
    hands_over =
        let y = h.sleeps w there in
        let (k, r, z) =
          (wakeup_proc-Woken law s.kernel p h.kernel).2 (ap is_zombie y.state)
            (ap is_runnable y.state) in
        (
          woken k,
          ups ∙ wakes k r,
          woken-IsSemaphore k z,
          record {
            value = refl;
            queue = rest;
            awake = z.awake;
            current = z.current;
            finishes = (finished k, refl);
          },
        )

  -- What `up` is to do, by the queue.
  abbrev pub Upped : List ℕ → Sync → Type 0
  Upped [] t = Counted t
  Upped (w ∷ ws) t = Handed w ws t

  by_queue :
      (l : List ℕ)
      → s.queues q ≡ l
      → (t : Sync) × (up c q s ≡ ok t) × IsSemaphore law q t × Upped l t
  unfolding up up_waiting wait_queue_first
  by_queue (w ∷ ws) e = hands_over w ws e
  by_queue [] e =
      let t = record s { value = update s.value q ((s.value q + 1) % 2 ^ 32) } in
      (
        t,
        ap
            (λ l. elim (head_of l) as (λ _. Outcome Sync) [
              | none ↦ ok t
              | some w ↦
                  assert ((s.kernel.procs (s.waits w).proc).wait_state == wt_ksem)
                  >> wakeup_wait c q w wt_ksem true s
            ])
            e,
        record {
          kernel = h.kernel;
          idle = λ l. e;
          once = h.once;
          sleeps = λ w o. record {
            linked = (h.sleeps w o).linked;
            at = (h.sleeps w o).at;
            state = (h.sleeps w o).state;
            wait_state = (h.sleeps w o).wait_state;
          };
          apart = h.apart;
        },
        record { value = update_self s.value q _; queue = e; kernel = refl },
      )

  -- `up` fails no assertion and keeps the semaphore in order. With no one waiting, the value grows by
  -- one, as 32 bits do. Otherwise the value stays as it is and the first in the queue is woken up and leaves it; if
  -- its process then runs on in `__down`, the result is 0, and the assertion of `down` holds.
  pub up-Upped : (t : Sync) × (up c q s ≡ ok t) × IsSemaphore law q t × Upped (s.queues q) t
  up-Upped = by_queue (s.queues q) refl
