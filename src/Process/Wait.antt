-- ===== src/Process/Wait.antt =====
-- What `do_wait` finds.
use nku_os_lab.Base.{
  ℕ, zero, suc, ◌<◌, ◌≡◌, ◌≢◌, refl, sym, ◌∙◌, ap, subst, inl, inr, Bool, true, false, Option, none,
  some, List, [], ◌∷◌, length, ◌==◌, ==_of_ne, ==_iff, if◌then◌else◌, arith, Bool-cases,
}
use nku_os_lab.Base.Outcome.{Outcome, ok}
use nku_os_lab.Sched.{is_zombie}
use nku_os_lab.Sched.RoundRobin.{occurs}
use nku_os_lab.Process.{Procs, find_proc, Waited, found, has_kid, bad_proc, wait_scan, wait_pass}
use nku_os_lab.Process.Family.{IsSiblings, IsFamily}
use nku_os_lab.Process.Find.{FindsAmong, IsHashed, find_proc-FindsAmong, find_proc_own}

-- The first of the processes that is a zombie.
abbrev pub first_zombie : (ℕ → Bool) → List ℕ → Option ℕ
first_zombie zombie [] = none
first_zombie zombie (c ∷ cs) =
    let rest = first_zombie zombie cs in if zombie c then some c else rest

-- What the loop over the children `cs` is to find, when `haskid` says whether there was one before.
abbrev pub answer : Bool → List ℕ → Option ℕ → Waited
answer haskid cs (some p) = found p
answer haskid [] none = if haskid then has_kid else bad_proc
answer haskid (c ∷ cs) none = has_kid

wait_scan-answer :
    (fuel : ℕ) (s : Procs) (x : ℕ) (younger first : Option ℕ) (cs : List ℕ) (haskid : Bool)
    → length cs < fuel
    → IsSiblings s.links x younger first cs
    → wait_scan fuel first haskid s
      ≡ ok (answer haskid cs (first_zombie (λ c. is_zombie (s.kernel.procs c).state) cs))
unfolding wait_scan
wait_scan-answer zero s x younger first cs haskid l h = absurd (omega (arith, l))
wait_scan-answer (suc fuel) s x younger first [] haskid l h =
    ap (λ o. wait_scan (suc fuel) o haskid s) h
wait_scan-answer (suc fuel) s x younger first (c ∷ cs) haskid l (f, y, a, rest) =
    ap (λ o. wait_scan (suc fuel) o haskid s) f
    ∙ elim (Bool-cases (is_zombie (s.kernel.procs c).state)) [
      | inl e ↦ ap searched e ∙ sym (ap answered e)
      | inr e ↦
          ap searched e
          ∙ wait_scan-answer fuel s x (some c) (s.links.optr c) cs true (omega (arith, l)) rest
          ∙ ap ok (one_more cs rest_zombie)
          ∙ sym (ap answered e)
    ]
  where
    rest_zombie : Option ℕ
    rest_zombie = first_zombie (λ c. is_zombie (s.kernel.procs c).state) cs

    searched : Bool → Outcome Waited
    searched b = if b then ok (found c) else wait_scan fuel (s.links.optr c) true s

    answered : Bool → Outcome Waited
    answered b = ok (answer haskid (c ∷ cs) (if b then some c else rest_zombie))

    one_more : (cs : List ℕ) (o : Option ℕ) → answer true cs o ≡ answer haskid (c ∷ cs) o
    one_more cs (some p) = refl
    one_more [] none = refl
    one_more (d ∷ cs) none = refl

-- What `do_wait` for the child `p` is to find.
abbrev pub Answered : ℕ → List ℕ → Procs → Outcome Waited → ℕ → Type 0
Answered n live s r p =
    (s.links.parent p ≡ s.kernel.current
      → r ≡ ok (if is_zombie (s.kernel.procs p).state then found p else has_kid))
    × (s.links.parent p ≢ s.kernel.current → r ≡ ok bad_proc)

-- `do_wait` for any child finds the youngest child that is a zombie; with none it waits if there is a
-- child, and else fails. For one number it finds the process with that number if it is a child and a
-- zombie, waits if it is a child and no zombie, and fails if it is not a child or is not there. The
-- loop over the children ends after as many rounds.
pub wait_pass_lem :
    (fuel n : ℕ) (s : Procs) (kids : ℕ → List ℕ) (live : List ℕ)
    → IsFamily s.links kids
    → IsHashed live s
    → length (kids s.kernel.current) < fuel
    → (n ≡ 0
        → wait_pass fuel n s
          ≡ ok (
              answer false
                (kids s.kernel.current)
                (first_zombie (λ c. is_zombie (s.kernel.procs c).state) (kids s.kernel.current))))
      × (n ≢ 0
          → ((p : ℕ) → 0 < occurs p live → s.pid p ≡ n → Answered n live s (wait_pass fuel n s) p)
            × (((p : ℕ) → 0 < occurs p live → s.pid p ≢ n) → wait_pass fuel n s ≡ ok bad_proc))
unfolding wait_pass
wait_pass_lem fuel n s kids live family hashed enough = (
  λ e. rw ((==_iff n 0).1 e) (
      wait_scan-answer fuel s s.kernel.current none (s.links.cptr s.kernel.current)
        (kids s.kernel.current) false enough (family.lines s.kernel.current)),
  λ z. (
    λ p o e.
        let own : find_proc n s ≡ some p =
          subst (λ m. find_proc m s ≡ some p) e (find_proc_own live s p hashed o) in
        (
          λ c.
              rw (==_of_ne n 0 z)
                (ap one own ∙ ap (λ b. ok (if b then state p else bad_proc)) ((==_iff _ _).1 c)),
          λ c.
              rw (==_of_ne n 0 z)
                (ap one own ∙ ap (λ b. ok (if b then state p else bad_proc)) (==_of_ne _ _ c)),
        ),
    λ absent.
        rw (==_of_ne n 0 z)
          (ap one (lost absent (find_proc n s) (find_proc-FindsAmong n live s hashed))),
  ),
)
  where
    state : ℕ → Waited
    state p = if is_zombie (s.kernel.procs p).state then found p else has_kid

    one : Option ℕ → Outcome Waited
    one o = ok (elim o as (λ _. Waited) [
      | none ↦ bad_proc
      | some p ↦
          if s.links.parent p == s.kernel.current
          then (if is_zombie (s.kernel.procs p).state then found p else has_kid)
          else bad_proc
    ])

    lost :
        ((p : ℕ) → 0 < occurs p live → s.pid p ≢ n)
        → (o : Option ℕ) → FindsAmong s.pid n live o
        → o ≡ none
    lost absent none g = refl
    lost absent (some p) (i, e) = absurd (absent p i e)
