-- ===== src/Pid/Runs.antt =====
-- The numbers of the processes over any sequence of forks and exits.
use nku_os_lab.Base.{
  ℕ, ◌+◌, ◌≤◌, ◌<◌, ◌≡◌, sym, ◌∙◌, subst, inl, inr, List, [], ◌∷◌, length, arith, ℕ_discrete,
}
use nku_os_lab.Base.Outcome.{Outcome, ok}
use nku_os_lab.SkewHeap.Counts.{one_if, one_if_self, one_if_ne}
use nku_os_lab.Sched.RoundRobin.{occurs, unlink, unlink-occurs, length-unlink}
use nku_os_lab.Pid.{max_process, max_pid, get_pid}
use nku_os_lab.Pid.Pass.{IsWindow}
use nku_os_lab.Pid.Search.{get_pid-IsFound_total}

-- What forks and exits lead to from the start, with the numbers of the processes in the order of
-- `proc_list`, `last_pid` and `next_safe`. `do_fork` takes a number only below MAX_PROCESS.
pub data Reached : List ℕ → ℕ → ℕ → Type 0 where
  start : Reached [] max_pid max_pid
  by_fork :
      {pids : List ℕ} {last next l n : ℕ}
      → Reached pids last next
      → length pids < max_process
      → get_pid pids last next ≡ ok (l, n)
      → Reached (l ∷ pids) l n
  by_exit :
      {pids : List ℕ} {last next : ℕ} (p : ℕ)
      → Reached pids last next
      → occurs p pids ≡ 1
      → Reached (unlink p pids) last next

-- No two processes have the same number, each is from 1 to MAX_PID - 1, and the next call of
-- `get_pid` finds another.
pub record IsNumbered (pids : List ℕ) (last next : ℕ) : Type 0 where
  pub once : (p : ℕ) → occurs p pids ≤ 1
  pub range : (p : ℕ) → 0 < occurs p pids → (0 < p) × (p < max_pid)
  pub few : length pids ≤ max_process
  pub window : IsWindow pids (last + 1) next
  pub bounded : next ≤ max_pid

ok_injective : {A : Type 0} {a b : A} → ◌≡◌ {A = Outcome A} (ok a) (ok b) → a ≡ b
ok_injective e = cc

forked :
    (pids : List ℕ) (last next : ℕ)
    → IsNumbered pids last next
    → length pids < max_process
    → (l n : ℕ) × (get_pid pids last next ≡ ok (l, n))
      × (occurs l pids ≡ 0)
      × IsNumbered (l ∷ pids) l n
unfolding occurs
forked pids last next h few =
    let (l, n, r, found, absent) =
      get_pid-IsFound_total pids last next (omega (arith, few)) h.window h.bounded in
    (
      l,
      n,
      r,
      absent,
      record {
        once = λ p. elim (ℕ_discrete l p) [
          | yes e ↦
              subst (λ x. one_if l x + occurs x pids ≤ 1) e (omega (arith, absent, one_if_self l))
          | no d ↦ omega (arith, h.once p, one_if_ne l p d)
        ];
        range = λ p o. elim (ℕ_discrete l p) [
          | yes e ↦
              subst (λ x. (0 < x) × (x < max_pid)) e
                (found.positive, omega (arith, found.ordered, found.bounded))
          | no d ↦ h.range p (omega (arith, o, one_if_ne l p d))
        ];
        few = omega (arith, few);
        window = λ p o. elim (ℕ_discrete l p) [
          | yes e ↦ inl (omega (arith, e))
          | no d ↦ elim (found.window p (omega (arith, o, one_if_ne l p d))) [
            | inl x ↦ inl (omega (arith, x))
            | inr x ↦ inr x
          ]
        ];
        bounded = found.bounded;
      },
    )

numbered : (pids : List ℕ) (last next : ℕ) → Reached pids last next → IsNumbered pids last next
unfolding occurs
numbered pids last next start = record {
  once = λ p. omega arith;
  range = λ p o. absurd (omega (arith, o));
  few = omega arith;
  window = λ p o. absurd (omega (arith, o));
  bounded = omega arith;
}
numbered pids last next (by_fork {pids = qs} {last = a} {next = b} run few e) =
    let (l, n, r, absent, g) = forked qs a b (numbered qs a b run) few in
    let z = ok_injective (sym r ∙ e) in subst (λ (x : ℕ × ℕ). IsNumbered (x.0 ∷ qs) x.0 x.1) z g
numbered pids last next (by_exit {pids = qs} p run e) =
    let h = numbered qs last next run in
    record {
      once = λ q. omega (arith, h.once q, unlink-occurs p q qs e);
      range = λ q o. h.range q (omega (arith, o, unlink-occurs p q qs e));
      few = omega (arith, h.few, length-unlink p qs e);
      window = λ q o. h.window q (omega (arith, o, unlink-occurs p q qs e));
      bounded = h.bounded;
    }

-- However processes are forked and exit: no two have the same number, each number is from 1 to
-- MAX_PID - 1, and as long as there are fewer than MAX_PROCESS processes, `get_pid` ends and gives
-- a number that no process has.
pub Reached-IsNumbered :
    (pids : List ℕ) (last next : ℕ)
    → Reached pids last next
    → IsNumbered pids last next
      × (length pids < max_process
          → (l n : ℕ) × (get_pid pids last next ≡ ok (l, n))
            × (occurs l pids ≡ 0)
            × IsNumbered (l ∷ pids) l n)
Reached-IsNumbered pids last next run =
    let h = numbered pids last next run in (h, λ few. forked pids last next h few)
