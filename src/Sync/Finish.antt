-- ===== src/Sync/Finish.antt =====
-- What `__down` does after its call of `schedule`.
use nku_os_lab.Base.{
  ℕ, ◌≤◌, ◌<◌, ◌≡◌, ◌≢◌, refl, sym, ◌∙◌, ap, subst, ◌⊎◌, inl, inr, true, false, not, ◌&&◌, ◌==◌,
  if◌then◌else◌, arith, update_self, update_ne, ℕ_discrete, Bool-cases,
}
use nku_os_lab.Base.Outcome.{Outcome, ok, panic, ◌>>=◌, ◌>>◌, assert}
use nku_os_lab.Sched.{SchedClass}
use nku_os_lab.Sched.Laws.{Lawful}
use nku_os_lab.Sched.RoundRobin.{occurs, unlink}
use nku_os_lab.Sched.Unlink.{unlink_other, unlink_self}
use nku_os_lab.Sync.{
  Wait, Sync, wt_ksem, set_wait, set_queue, wait_queue_del, wait_in_queue, wait_current_del,
  down_finish,
}
use nku_os_lab.Sync.Waiting.{IsSemaphore}

module _ {c : SchedClass} (law : Lawful c) (q w : ℕ) (t : Sync) (h : IsSemaphore law q t) where
  -- The state without the wait.
  left : Sync
  left = set_queue q (unlink w (t.queues q)) (set_wait w (record (t.waits w) { linked = false }) t)

  line : left.queues q ≡ unlink w (t.queues q)
  unfolding left
  line = update_self t.queues q _

  gone : occurs w (left.queues q) ≡ 0
  gone = ap (occurs w) line ∙ unlink_self w (t.queues q) (h.once w)

  other : (v : ℕ) → w ≢ v → occurs v (left.queues q) ≡ occurs v (t.queues q)
  other v n = ap (occurs v) line ∙ unlink_other w v (t.queues q) n

  there : (v : ℕ) → 0 < occurs v (left.queues q) → (w ≢ v) × (0 < occurs v (t.queues q))
  there v o = elim (ℕ_discrete w v) [
    | yes e ↦
        absurd (subst (λ x. 0 < occurs x (left.queues q) → ⊥) e (λ z. omega (arith, z, gone)) o)
    | no n ↦ (n, omega (arith, o, other v n))
  ]

  waits_kept : (v : ℕ) → w ≢ v → left.waits v ≡ t.waits v
  unfolding left
  waits_kept v n = update_ne t.waits w _ v n

  left-IsSemaphore : IsSemaphore law q left
  unfolding left unlink
  left-IsSemaphore = record {
    kernel = h.kernel;
    idle = λ l. line ∙ ap (unlink w) (h.idle l);
    once = λ v. elim (ℕ_discrete w v) [
      | yes e ↦ subst (λ x. occurs x (left.queues q) ≤ 1) e (omega (arith, gone))
      | no n ↦ omega (arith, other v n, h.once v)
    ];
    sleeps = λ v o.
        let (n, b) = there v o in
        let z = h.sleeps v b in
        record {
          linked = ap (λ (a : Wait). a.linked) (waits_kept v n) ∙ z.linked;
          at = ap (λ (a : Wait). a.wait_queue) (waits_kept v n) ∙ z.at;
          state = ap (λ (a : Wait). (t.kernel.procs a.proc).state) (waits_kept v n) ∙ z.state;
          wait_state =
              ap (λ (a : Wait). (t.kernel.procs a.proc).wait_state) (waits_kept v n) ∙ z.wait_state;
        };
    apart = λ u v a b e.
        let (m, x) = there u a in
        let (n, y) = there v b in
        h.apart u v x y (
          sym (ap (λ (a : Wait). a.proc) (waits_kept u m))
          ∙ e
          ∙ ap (λ (a : Wait). a.proc) (waits_kept v n));
  }

  answer : Sync → Outcome (ℕ × Sync)
  answer u =
      ok (if not ((u.waits w).wakeup_flags == wt_ksem) then (u.waits w).wakeup_flags else 0, u)

  arrived : (flags : ℕ) (u v : Sync) → answer v ≡ ok (flags, u) → v ≡ u
  unfolding answer
  arrived flags u v e = cc

  -- When `__down` comes to its end, the semaphore is as it was, or its wait left the queue and the
  -- semaphore is in order.
  pub down_finish-Leaves :
      (flags : ℕ) (u : Sync)
      → down_finish q w wt_ksem t ≡ ok (flags, u)
      → (t ≡ u) ⊎ (IsSemaphore law q u × (u.value q ≡ t.value q))
  unfolding down_finish wait_current_del wait_in_queue wait_queue_del answer left
  down_finish-Leaves flags u e = elim (Bool-cases (t.waits w).linked) [
    | inr n ↦ inl (arrived flags u t (sym (rw n refl) ∙ e))
    | inl y ↦ elim (Bool-cases ((t.waits w).linked && ((t.waits w).wait_queue == q))) [
      | inl g ↦ inr (
          subst (λ v. IsSemaphore law q v × (v.value q ≡ t.value q))
            (arrived flags u left (sym (reached y g) ∙ e)) (left-IsSemaphore, refl))
      | inr g ↦ absurd (failed (sym (stopped y g) ∙ e))
    ]
  ]
    where
      finish : Outcome Sync → Outcome (ℕ × Sync)
      finish o = o >>= answer

      reached :
          (t.waits w).linked ≡ true
          → ((t.waits w).linked && ((t.waits w).wait_queue == q)) ≡ true
          → down_finish q w wt_ksem t ≡ answer left
      reached y g =
          ap (λ b. finish (if b then wait_queue_del q w t else ok t)) y
          ∙ ap (λ b. finish (assert b >> ok left)) g

      stopped :
          (t.waits w).linked ≡ true
          → ((t.waits w).linked && ((t.waits w).wait_queue == q)) ≡ false
          → down_finish q w wt_ksem t ≡ panic
      stopped y g =
          ap (λ b. finish (if b then wait_queue_del q w t else ok t)) y
          ∙ ap (λ b. finish (assert b >> ok left)) g

      failed : ◌≡◌ {A = Outcome (ℕ × Sync)} panic (ok (flags, u)) → ⊥
      failed z = cc
