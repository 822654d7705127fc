-- ===== src/Sync/Runs.antt =====
-- A semaphore over any sequence of steps of the processes that use it.
use nku_os_lab.Base.{
  ℕ, ◌+◌, ◌-◌, ◌<◌, ◌≡◌, refl, sym, ◌∙◌, subst, ◌^◌, Bool, true, false, inl, inr, Bool-cases, List,
  [], ◌∷◌, if◌then◌else◌, arith, update_self,
}
use nku_os_lab.Base.Outcome.{Outcome, ok}
use nku_os_lab.Sched.{Kernel, SchedClass, is_runnable, schedule}
use nku_os_lab.Sched.Laws.{Lawful}
use nku_os_lab.Sched.Dispatch.{schedule-Chosen}
use nku_os_lab.Sched.RoundRobin.{occurs}
use nku_os_lab.Sync.{Sync, is_positive, wt_ksem, down_finish, down_begin, try_down, up}
use nku_os_lab.Sync.Waiting.{IsSemaphore, less_one, less_one-IsSemaphore, down_begin_lem}
use nku_os_lab.Sync.Finish.{down_finish-Leaves}
use nku_os_lab.Sync.HandOver.{Upped, up-Upped}

-- How many processes `up` gives the semaphore to.
abbrev pub handed : List ℕ → ℕ
handed [] = 0
handed (w ∷ ws) = 1

abbrev pub went_on : Bool → ℕ
went_on b = if b then 1 else 0

module _ (c : SchedClass) where
  -- From `s`, with `ups` calls of `up`, to a state in which the semaphore `q` was given out `given`
  -- times: to processes that went on in `down` or `try_down`, and by `up`.
  pub data Run (q : ℕ) (s : Sync) : ℕ → ℕ → Sync → Type 0 where
    begin : Run q s 0 0 s
    by_up :
        {ups given : ℕ} {t u : Sync}
        → Run q s ups given t
        → up c q t ≡ ok u
        → Run q s (ups + 1) (given + handed (t.queues q)) u
    by_down :
        {ups given : ℕ} {t u : Sync} (w : ℕ) (b : Bool)
        → Run q s ups given t
        → occurs w (t.queues q) ≡ 0
        → is_runnable (t.kernel.procs t.kernel.current).state ≡ true
        → down_begin q w wt_ksem t ≡ ok (b, u)
        → Run q s ups (given + went_on b) u
    by_finish :
        {ups given : ℕ} {t u : Sync} (w flags : ℕ)
        → Run q s ups given t
        → down_finish q w wt_ksem t ≡ ok (flags, u)
        → Run q s ups given u
    by_try :
        {ups given : ℕ} {t u : Sync} (b : Bool)
        → Run q s ups given t
        → try_down q t ≡ (b, u)
        → Run q s ups (given + went_on b) u
    by_schedule :
        {ups given : ℕ} {t : Sync} {k : Kernel}
        → Run q s ups given t
        → schedule c t.kernel ≡ ok k
        → Run q s ups given (record t { kernel = k })

-- The semaphore is in order and its balance is right.
pub record Balanced {c : SchedClass} (law : Lawful c) (q start ups given : ℕ) (t : Sync)
    : Type 0 where
  pub sound : IsSemaphore law q t
  pub balance : t.value q + given ≡ start + ups

module _ {c : SchedClass} (law : Lawful c) (q start : ℕ) where
  ok_injective : {A : Type 0} {a b : A} → ◌≡◌ {A = Outcome A} (ok a) (ok b) → a ≡ b
  ok_injective e = cc

  up-Balanced :
      (ups given : ℕ) (t u : Sync)
      → Balanced law q start ups given t
      → up c q t ≡ ok u
      → start + (ups + 1) < 2 ^ 31
      → Balanced law q start (ups + 1) (given + handed (t.queues q)) u
  up-Balanced ups given t u h e small =
      let (v, r, i, x) = up-Upped law q t h.sound in
      subst (Balanced law q start (ups + 1) (given + handed (t.queues q)))
        (ok_injective (sym r ∙ e)) (record { sound = i; balance = counts (t.queues q) v x })
    where
      counts :
          (l : List ℕ) (v : Sync)
          → Upped law q t h.sound l v
          → v.value q + (given + handed l) ≡ start + (ups + 1)
      counts [] v x = omega (arith, x.value, h.balance, small)
      counts (w ∷ ws) v x = omega (arith, x.value, h.balance)

  -- The state and the answer are those of an equation between pairs.
  arrived :
      (ups given : ℕ) (a b : Bool) (v u : Sync)
      → ◌≡◌ {A = Bool × Sync} (a, v) (b, u)
      → Balanced law q start ups (given + went_on a) v
      → Balanced law q start ups (given + went_on b) u
  arrived ups given a b v u e h =
      subst (λ (x : Bool × Sync). Balanced law q start ups (given + went_on x.0) x.1) e h

  one_left : (n : ℕ) → is_positive n ≡ true → 0 < n
  one_left n e = ground (arith, e)

  took :
      (ups given : ℕ) (t : Sync)
      → Balanced law q start ups given t
      → is_positive (t.value q) ≡ true
      → IsSemaphore law q (less_one law q t)
      → Balanced law q start ups (given + went_on true) (less_one law q t)
  took ups given t h l i = record {
    sound = i;
    balance =
        omega (arith, h.balance, one_left (t.value q) l, update_self t.value q (t.value q - 1));
  }

  down-Balanced :
      (ups given : ℕ) (t u : Sync) (w : ℕ) (b : Bool)
      → Balanced law q start ups given t
      → occurs w (t.queues q) ≡ 0
      → is_runnable (t.kernel.procs t.kernel.current).state ≡ true
      → down_begin q w wt_ksem t ≡ ok (b, u)
      → Balanced law q start ups (given + went_on b) u
  down-Balanced ups given t u w b h f r e = elim (Bool-cases (is_positive (t.value q))) [
    | inl l ↦
        let (x, y, i) = (down_begin_lem law q w t h.sound f r).0 l in
        arrived ups given true b (less_one law q t) u (ok_injective (sym x ∙ e))
          (took ups given t h l i)
    | inr n ↦
        let (x, v, y, i, z, line, me, none_left) = (down_begin_lem law q w t h.sound f r).1 n in
        arrived ups given false b v u (ok_injective (sym y ∙ e))
          (record { sound = i; balance = omega (arith, h.balance, none_left) })
  ]

  try-Balanced :
      (ups given : ℕ) (t u : Sync) (b : Bool)
      → Balanced law q start ups given t
      → try_down q t ≡ (b, u)
      → Balanced law q start ups (given + went_on b) u
  unfolding try_down
  try-Balanced ups given t u b h e = elim (Bool-cases (is_positive (t.value q))) [
    | inl l ↦
        arrived ups given true b (less_one law q t) u (sym (rw l refl) ∙ e)
          (took ups given t h l (less_one-IsSemaphore law q t h.sound l))
    | inr n ↦
        arrived ups given false b t u (sym (rw n refl) ∙ e)
          (record { sound = h.sound; balance = omega (arith, h.balance) })
  ]

  schedule-Balanced :
      (ups given : ℕ) (t : Sync) (k : Kernel)
      → Balanced law q start ups given t
      → schedule c t.kernel ≡ ok k
      → Balanced law q start ups given (record t { kernel = k })
  schedule-Balanced ups given t k h e =
      let (j, r, chosen) = schedule-Chosen law t.kernel h.sound.kernel in
      subst (λ k. Balanced law q start ups given (record t { kernel = k }))
        (ok_injective (sym r ∙ e))
        (record {
          sound = record {
            kernel = chosen.kernel;
            idle = h.sound.idle;
            once = h.sound.once;
            sleeps = λ w o.
                let z = h.sound.sleeps w o in
                record {
                  linked = z.linked;
                  at = z.at;
                  state = chosen.states (t.waits w).proc ∙ z.state;
                  wait_state = chosen.waits (t.waits w).proc ∙ z.wait_state;
                };
            apart = h.sound.apart;
          };
          balance = h.balance;
        })

  finish-Balanced :
      (ups given : ℕ) (t u : Sync) (w flags : ℕ)
      → Balanced law q start ups given t
      → down_finish q w wt_ksem t ≡ ok (flags, u)
      → Balanced law q start ups given u
  finish-Balanced ups given t u w flags h e =
      elim (down_finish-Leaves law q w t h.sound flags u e) [
        | inl same ↦ subst (Balanced law q start ups given) same h
        | inr (i, value) ↦ record { sound = i; balance = omega (arith, h.balance, value) }
      ]

  -- However `up`, the two halves of `down`, `try_down` and `schedule` follow one another from a
  -- semaphore in order, as long as the value at the start and the number of calls of `up` add up to
  -- less than 2^31, so that the value does not overflow: it stays in order, never with a positive
  -- value while a process waits, and its value and the number of times it was given out add up to
  -- the value at the start and the number of calls of `up`.
  pub Run-Balanced :
      (s : Sync) (ups given : ℕ) (t : Sync)
      → IsSemaphore law q s
      → s.value q ≡ start
      → start + ups < 2 ^ 31
      → Run c q s ups given t
      → Balanced law q start ups given t
  Run-Balanced s ups given t h e l begin = record { sound = h; balance = omega (arith, e) }
  Run-Balanced s ups given t h e l (by_up run r) =
      up-Balanced _ _ _ _ (Run-Balanced s _ _ _ h e (omega (arith, l)) run) r l
  Run-Balanced s ups given t h e l (by_down w b run f a r) =
      down-Balanced _ _ _ _ w b (Run-Balanced s _ _ _ h e l run) f a r
  Run-Balanced s ups given t h e l (by_finish w flags run r) =
      finish-Balanced _ _ _ _ w flags (Run-Balanced s _ _ _ h e l run) r
  Run-Balanced s ups given t h e l (by_try b run r) =
      try-Balanced _ _ _ _ b (Run-Balanced s _ _ _ h e l run) r
  Run-Balanced s ups given t h e l (by_schedule run r) =
      schedule-Balanced _ _ _ _ (Run-Balanced s _ _ _ h e l run) r
