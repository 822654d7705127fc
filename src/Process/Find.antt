-- ===== src/Process/Find.antt =====
-- The search for a process by its number.
use nku_os_lab.Base.{
  ℕ, ◌≤◌, ◌<◌, ◌≡◌, ◌≢◌, refl, sym, ◌∙◌, ap, ap₂, subst, inl, inr, ◌&&◌, Option, none, some, List,
  [], ◌∷◌, ltb, lt→ltb, ==_of_ne, ==_iff, arith, Bool-cases, false-ne-true, ℕ_discrete,
}
use nku_os_lab.SkewHeap.Counts.{one_if_self, one_if_ne}
use nku_os_lab.Sched.RoundRobin.{occurs}
use nku_os_lab.Pid.{max_pid}
use nku_os_lab.Process.{Procs, pid_hashfn, with_pid, find_proc}

-- What a search for the number `n` among `ps` gives.
abbrev pub FindsAmong : (ℕ → ℕ) → ℕ → List ℕ → Option ℕ → Type 0
FindsAmong pids n ps (some p) = (0 < occurs p ps) × (pids p ≡ n)
FindsAmong pids n ps none = (p : ℕ) → 0 < occurs p ps → pids p ≢ n

with_pid-FindsAmong :
    (pids : ℕ → ℕ) (n : ℕ) (ps : List ℕ) → FindsAmong pids n ps (with_pid pids n ps)
unfolding with_pid occurs
with_pid-FindsAmong pids n [] = λ p o. absurd (omega (arith, o))
with_pid-FindsAmong pids n (q ∷ ps) = elim (ℕ_discrete (pids q) n) [
  | yes e ↦ rw ((==_iff (pids q) n).1 e) (omega (arith, one_if_self q), e)
  | no d ↦ rw (==_of_ne (pids q) n d) (later d (with_pid pids n ps) (with_pid-FindsAmong pids n ps))
]
  where
    later : pids q ≢ n → (o : Option ℕ) → FindsAmong pids n ps o → FindsAmong pids n (q ∷ ps) o
    later d (some p) (i, e) = (omega (arith, i), e)
    later d none h = λ p o. elim (ℕ_discrete q p) [
      | yes i ↦ subst (λ z. pids z ≢ n) i d
      | no i ↦ h p (omega (arith, o, one_if_ne q p i))
    ]

-- The hash table holds the processes `live` under their numbers, which are all different.
pub record IsHashed (live : List ℕ) (s : Procs) : Type 0 where
  pub placed :
      (h p : ℕ) → 0 < occurs p (s.hash_list h) → (0 < occurs p live) × (h ≡ pid_hashfn (s.pid p))
  pub present : (p : ℕ) → 0 < occurs p live → occurs p (s.hash_list (pid_hashfn (s.pid p))) ≡ 1
  pub once : (p : ℕ) → occurs p live ≤ 1
  pub unique : (p q : ℕ) → 0 < occurs p live → 0 < occurs q live → s.pid p ≡ s.pid q → p ≡ q
  pub range : (p : ℕ) → 0 < occurs p live → (0 < s.pid p) × (s.pid p < max_pid)

-- `find_proc` finds the process with the number, if there is one among those in the table.
pub find_proc-FindsAmong :
    (n : ℕ) (live : List ℕ) (s : Procs) → IsHashed live s → FindsAmong s.pid n live (find_proc n s)
unfolding find_proc
find_proc-FindsAmong n live s h = elim (Bool-cases (ltb 0 n && ltb n max_pid)) [
  | inr e ↦ rw e (λ p o i.
      let r = h.range p o in
      false-ne-true (
        sym e
        ∙ ap₂ ◌&&◌ (lt→ltb 0 n (omega (arith, r.0, i))) (lt→ltb n max_pid (omega (arith, r.1, i)))))
  | inl e ↦ rw e (
      all (with_pid s.pid n (s.hash_list (pid_hashfn n)))
        (with_pid-FindsAmong s.pid n (s.hash_list (pid_hashfn n))))
]
  where
    all :
        (o : Option ℕ)
        → FindsAmong s.pid n (s.hash_list (pid_hashfn n)) o
        → FindsAmong s.pid n live o
    all (some p) (i, e) = ((h.placed (pid_hashfn n) p i).0, e)
    all none g = λ p o i.
        g p
          (subst (λ z. 0 < occurs p (s.hash_list (pid_hashfn z))) i (omega (arith, h.present p o)))
          i

-- The process with a number is the one that `find_proc` gives.
pub find_proc_own :
    (live : List ℕ) (s : Procs) (p : ℕ)
    → IsHashed live s
    → 0 < occurs p live
    → find_proc (s.pid p) s ≡ some p
find_proc_own live s p h o = own (find_proc (s.pid p) s) (find_proc-FindsAmong (s.pid p) live s h)
  where
    own : (r : Option ℕ) → FindsAmong s.pid (s.pid p) live r → r ≡ some p
    own (some q) (i, e) = ap some (h.unique q p i o e)
    own none g = absurd (g p o refl)
