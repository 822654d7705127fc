-- ===== src/Process/Table.antt =====
-- The table of processes by their numbers, and their numbers in a list, with one process more.
use nku_os_lab.Base.{
  ℕ, ◌+◌, ◌≤◌, ◌<◌, ◌≡◌, ◌≢◌, refl, sym, ◌∙◌, ap, ap₂, subst, List, [], ◌∷◌, length, map, arith,
  ℕ_discrete, dec_lt, update, update_self, update_ne,
}
use nku_os_lab.SkewHeap.Counts.{one_if, one_if_self, one_if_ne}
use nku_os_lab.Sched.RoundRobin.{occurs}
use nku_os_lab.Pid.{max_pid}
use nku_os_lab.Process.{Procs, pid_hashfn}
use nku_os_lab.Process.Find.{IsHashed}

-- A number that no process of the list has.
pub map-occurs :
    (pids : ℕ → ℕ) (ps : List ℕ) (q : ℕ) → 0 < occurs q ps → 0 < occurs (pids q) (map pids ps)
unfolding occurs
map-occurs pids [] q o = absurd (omega (arith, o))
map-occurs pids (p ∷ ps) q o = elim (ℕ_discrete p q) [
  | yes e ↦
      subst (λ z. 0 < one_if (pids p) (pids z) + occurs (pids z) (map pids ps)) e
        (omega (arith, one_if_self (pids p)))
  | no n ↦ omega (arith, map-occurs pids ps q (omega (arith, o, one_if_ne p q n)))
]

-- The table with a process more, whose number is new.
pub hash-IsHashed :
    (p n : ℕ) (live : List ℕ) (s : Procs)
    → IsHashed live s
    → occurs p live ≡ 0
    → ((q : ℕ) → 0 < occurs q live → s.pid q ≢ n)
    → 0 < n
    → n < max_pid
    → IsHashed (p ∷ live) (record s {
      pid = update s.pid p n;
      hash_list = update s.hash_list (pid_hashfn n) (p ∷ s.hash_list (pid_hashfn n));
    })
unfolding occurs
hash-IsHashed p n live s g absent new positive bounded = record {
  placed = λ h q o. elim (ℕ_discrete p q) [
    | yes e ↦
        subst (λ z. (0 < one_if p z + occurs z live) × (h ≡ pid_hashfn (update s.pid p n z))) e
          (
            omega (arith, one_if_self p),
            here_only h (subst (λ z. 0 < occurs z (table h)) (sym e) o) ∙ ap pid_hashfn (sym own),
          )
    | no d ↦
        let (i, e) = g.placed h q (old h q d o) in
        (omega (arith, i), e ∙ ap pid_hashfn (sym (update_ne s.pid p n q d)))
  ];
  present = λ q o. elim (ℕ_discrete p q) [
    | yes e ↦
        subst (λ z. occurs z (table (pid_hashfn (update s.pid p n z))) ≡ 1) e
          (subst (λ m. occurs p (table (pid_hashfn m)) ≡ 1) (sym own)
            (ap (occurs p) (update_self s.hash_list (pid_hashfn n) _)
              ∙ omega (arith, one_if_self p, nowhere (pid_hashfn n))))
    | no d ↦
        subst (λ m. occurs q (table (pid_hashfn m)) ≡ 1) (sym (update_ne s.pid p n q d))
          (same (pid_hashfn (s.pid q)) q d ∙ g.present q (omega (arith, o, one_if_ne p q d)))
  ];
  once = λ q. elim (ℕ_discrete p q) [
    | yes e ↦ subst (λ z. one_if p z + occurs z live ≤ 1) e (omega (arith, one_if_self p, absent))
    | no d ↦ omega (arith, one_if_ne p q d, g.once q)
  ];
  unique = λ q r o i e. elim (ℕ_discrete p q) [
    | yes x ↦ elim (ℕ_discrete p r) [
      | yes y ↦ sym x ∙ y
      | no y ↦ absurd (
          new r (omega (arith, i, one_if_ne p r y))
            (sym (update_ne s.pid p n r y) ∙ sym e ∙ ap (update s.pid p n) (sym x) ∙ own))
    ]
    | no x ↦ elim (ℕ_discrete p r) [
      | yes y ↦ absurd (
          new q (omega (arith, o, one_if_ne p q x))
            (sym (update_ne s.pid p n q x) ∙ e ∙ ap (update s.pid p n) (sym y) ∙ own))
      | no y ↦
          g.unique q r (omega (arith, o, one_if_ne p q x)) (omega (arith, i, one_if_ne p r y))
            (sym (update_ne s.pid p n q x) ∙ e ∙ update_ne s.pid p n r y)
    ]
  ];
  range = λ q o. elim (ℕ_discrete p q) [
    | yes e ↦
        subst (λ z. (0 < update s.pid p n z) × (update s.pid p n z < max_pid)) e
          (subst (λ m. (0 < m) × (m < max_pid)) (sym own) (positive, bounded))
    | no d ↦
        subst (λ m. (0 < m) × (m < max_pid)) (sym (update_ne s.pid p n q d))
          (g.range q (omega (arith, o, one_if_ne p q d)))
  ];
}
  where
    table : ℕ → List ℕ
    table = update s.hash_list (pid_hashfn n) (p ∷ s.hash_list (pid_hashfn n))

    own : update s.pid p n p ≡ n
    own = update_self s.pid p n

    nowhere : (h : ℕ) → occurs p (s.hash_list h) ≡ 0
    nowhere h = elim (dec_lt 0 (occurs p (s.hash_list h))) [
      | yes o ↦ absurd (omega (arith, absent, (g.placed h p o).0))
      | no o ↦ omega (arith, o)
    ]

    same : (h q : ℕ) → p ≢ q → occurs q (table h) ≡ occurs q (s.hash_list h)
    same h q d = elim (ℕ_discrete (pid_hashfn n) h) [
      | yes e ↦
          subst (λ z. occurs q (table z) ≡ occurs q (s.hash_list z)) e
            (ap (occurs q) (update_self s.hash_list (pid_hashfn n) _)
              ∙ omega (arith, one_if_ne p q d))
      | no x ↦ ap (occurs q) (update_ne s.hash_list (pid_hashfn n) _ h x)
    ]

    old : (h q : ℕ) → p ≢ q → 0 < occurs q (table h) → 0 < occurs q (s.hash_list h)
    old h q d o = omega (arith, o, same h q d)

    here_only : (h : ℕ) → 0 < occurs p (table h) → h ≡ pid_hashfn n
    here_only h o = elim (ℕ_discrete (pid_hashfn n) h) [
      | yes e ↦ sym e
      | no x ↦ absurd (
          omega (
            arith,
            subst (λ ps. 0 < occurs p ps) (update_ne s.hash_list (pid_hashfn n) _ h x) o,
            nowhere h,
          ))
    ]

pub length-map : (pids : ℕ → ℕ) (ps : List ℕ) → length (map pids ps) ≡ length ps
length-map pids [] = refl
length-map pids (p ∷ ps) = omega (arith, length-map pids ps)

pub map-update :
    (pids : ℕ → ℕ) (p n : ℕ) (ps : List ℕ)
    → occurs p ps ≡ 0
    → map (update pids p n) ps ≡ map pids ps
unfolding occurs
map-update pids p n [] z = refl
map-update pids p n (q ∷ ps) z =
    let d : p ≢ q = λ e.
      subst (λ w. one_if q w + occurs w ps ≡ 0 → ⊥) (sym e) (λ k. omega (arith, k, one_if_self q))
        z in
    ap₂ ◌∷◌ (update_ne pids p n q d) (map-update pids p n ps (omega (arith, z)))
