-- ===== src/Sched/Unlink.antt =====
-- How often an entry is in a list after another, or itself, was unlinked.
use nku_os_lab.Base.{
  ℕ, ◌+◌, ◌≤◌, ◌≡◌, ◌≢◌, refl, sym, subst, List, [], ◌∷◌, ==_of_ne, ==_iff, arith, ℕ_discrete,
}
use nku_os_lab.SkewHeap.Counts.{one_if, one_if_self, one_if_ne}
use nku_os_lab.Sched.RoundRobin.{occurs, unlink}

pub unlink_other : (p q : ℕ) (xs : List ℕ) → p ≢ q → occurs q (unlink p xs) ≡ occurs q xs
unfolding occurs unlink
unlink_other p q [] n = refl
unlink_other p q (x ∷ xs) n = elim (ℕ_discrete x p) [
  | yes e ↦
      rw ((==_iff x p).1 e) (
        subst (λ z. occurs q xs ≡ one_if z q + occurs q xs) (sym e)
          (omega (arith, one_if_ne p q n)))
  | no d ↦ rw (==_of_ne x p d) (omega (arith, unlink_other p q xs n))
]

pub unlink_self : (p : ℕ) (xs : List ℕ) → occurs p xs ≤ 1 → occurs p (unlink p xs) ≡ 0
unfolding occurs unlink
unlink_self p [] l = refl
unlink_self p (x ∷ xs) l = elim (ℕ_discrete x p) [
  | yes e ↦
      let one : one_if x p ≡ 1 = subst (λ z. one_if x z ≡ 1) e (one_if_self x) in
      rw ((==_iff x p).1 e) (omega (arith, l, one))
  | no d ↦ rw (==_of_ne x p d) (omega (arith, one_if_ne x p d, unlink_self p xs (omega (arith, l))))
]
