-- ===== src/Process/Reap.antt =====
-- What `do_wait` takes away.
use nku_os_lab.Base.{
  ℕ, ◌≤◌, ◌<◌, ◌≡◌, ◌≢◌, refl, sym, ◌∙◌, subst, Option, none, some, List, ==_of_ne, arith,
  ℕ_discrete, update,
}
use nku_os_lab.Base.Outcome.{ok}
use nku_os_lab.SkewHeap.Counts.{one_if_ne}
use nku_os_lab.Sched.Unlink.{unlink_other, unlink_self}
use nku_os_lab.Sched.RoundRobin.{occurs, unlink, unlink-occurs}
use nku_os_lab.Process.{Links, Procs, pid_hashfn, unhash_proc, find_proc, remove_links, reap}
use nku_os_lab.Process.Family.{IsFamily}
use nku_os_lab.Process.Unlink.{remove_links-IsFamily}
use nku_os_lab.Process.Find.{FindsAmong, IsHashed, find_proc-FindsAmong, find_proc_own}

-- The table without one of its processes.
unhash-IsHashed :
    (p : ℕ) (live : List ℕ) (s : Procs)
    → IsHashed live s
    → occurs p live ≡ 1
    → (l : Links)
    → IsHashed (unlink p live) (record s { links = l; hash_list = λ h. unlink p (s.hash_list h) })
unhash-IsHashed p live s g here l = record {
  placed = λ h q o.
      let n : p ≢ q = other h q o in
      let (i, e) = g.placed h q (omega (arith, o, unlink_other p q (s.hash_list h) n)) in
      (omega (arith, i, unlink_other p q live n), e);
  present = λ q o.
      let n : p ≢ q = alive q o in
      unlink_other p q (s.hash_list (pid_hashfn (s.pid q))) n ∙ g.present q (still q o);
  once = λ q. elim (ℕ_discrete p q) [
    | yes e ↦
        subst (λ z. occurs z (unlink p live) ≤ 1) e (omega (arith, unlink_self p live (g.once p)))
    | no n ↦ omega (arith, unlink_other p q live n, g.once q)
  ];
  unique = λ q r o i e. g.unique q r (still q o) (still r i) e;
  range = λ q o. g.range q (still q o);
}
  where
    alive : (q : ℕ) → 0 < occurs q (unlink p live) → p ≢ q
    alive q o e =
        subst (λ z. 0 < occurs z (unlink p live) → ⊥) e
          (λ k. omega (arith, k, unlink_self p live (g.once p))) o

    still : (q : ℕ) → 0 < occurs q (unlink p live) → 0 < occurs q live
    still q o = omega (arith, o, unlink-occurs p q live here)

    at_most : (h : ℕ) → occurs p (s.hash_list h) ≤ 1
    at_most h = elim (ℕ_discrete h (pid_hashfn (s.pid p))) [
      | yes e ↦
          subst (λ z. occurs p (s.hash_list z) ≤ 1) (sym e)
            (omega (arith, g.present p (omega (arith, here))))
      | no n ↦ elim (ℕ_discrete (occurs p (s.hash_list h)) 0) [
        | yes z ↦ omega (arith, z)
        | no z ↦ absurd (n (g.placed h p (omega (arith, z))).1)
      ]
    ]

    other : (h q : ℕ) → 0 < occurs q (unlink p (s.hash_list h)) → p ≢ q
    other h q o e =
        subst (λ z. 0 < occurs z (unlink p (s.hash_list h)) → ⊥) e
          (λ k. omega (arith, k, unlink_self p (s.hash_list h) (at_most h))) o

-- A child that was found, is neither the idle process nor the first, and is in the table: `do_wait` takes
-- its exit code, and the process leaves its family and the table, so that no search for its number
-- finds a process. Every other process in the table is found as before.
pub reap_lem :
    (p : ℕ) (s : Procs) (kids : ℕ → List ℕ) (live : List ℕ)
    → IsFamily s.links kids
    → IsHashed live s
    → occurs p (kids (s.links.parent p)) ≡ 1
    → occurs p live ≡ 1
    → p ≢ s.kernel.idleproc
    → p ≢ s.initproc
    → (t : Procs) × (reap p s ≡ ok (s.exit_code p, t))
      × IsFamily t.links (update kids (s.links.parent p) (unlink p (kids (s.links.parent p))))
      × IsHashed (unlink p live) t
      × (find_proc (s.pid p) t ≡ none)
      × ((q : ℕ) → 0 < occurs q live → p ≢ q → find_proc (s.pid q) t ≡ some q)
unfolding reap unhash_proc
reap_lem p s kids live family hashed child here not_idle not_init =
    let u = record s { hash_list = λ h. unlink p (s.hash_list h) } in
    let t = record u { links = remove_links p s.links } in
    let left : IsHashed (unlink p live) t =
      unhash-IsHashed p live s hashed here (remove_links p s.links) in
    (
      t,
      rw (==_of_ne p s.kernel.idleproc not_idle, ==_of_ne p s.initproc not_init) refl,
      remove_links-IsFamily p s.links kids family child,
      left,
      gone (find_proc (s.pid p) t) (find_proc-FindsAmong (s.pid p) (unlink p live) t left),
      λ q o n.
          find_proc_own (unlink p live) t q left
            (omega (arith, o, unlink-occurs p q live here, one_if_ne p q n)),
    )
  where
    gone : (o : Option ℕ) → FindsAmong s.pid (s.pid p) (unlink p live) o → o ≡ none
    gone none g = refl
    gone (some q) (i, e) =
        let same : q ≡ p =
          hashed.unique q p (omega (arith, i, unlink-occurs p q live here)) (omega (arith, here))
            e in
        absurd (
          subst (λ z. 0 < occurs z (unlink p live) → ⊥) (sym same)
            (λ k. omega (arith, k, unlink_self p live (hashed.once p))) i)
