-- ===== src/Pid/Pass.antt =====
-- What one walk along the list of processes leaves.
use nku_os_lab.Base.{
  ℕ, ◌+◌, ◌≤◌, ◌<◌, ◌≡◌, ◌≢◌, refl, sym, ◌∙◌, ap₂, subst, ◌⊎◌, inl, inr, false, ◌&&◌, List, [], ◌∷◌,
  ltb, leb, lt→ltb, false-ne-true, if◌then◌else◌, arith, ℕ_discrete, ==_iff, ==_of_ne, dec_lt,
  Bool-cases,
}
use nku_os_lab.SkewHeap.Counts.{one_if, one_if_self, one_if_ne}
use nku_os_lab.Sched.RoundRobin.{occurs}
use nku_os_lab.Pid.{max_pid, Walk, ended, repeat_from, walk}

-- No number of the list is `last`, or lies between `last` and `next`.
abbrev pub IsWindow : List ℕ → ℕ → ℕ → Type 0
IsWindow pids last next = (q : ℕ) → 0 < occurs q pids → (q < last) ⊎ (next ≤ q)

-- What a walk from `last` and `next` leaves; `f` is a number that is free.
abbrev pub Walked : List ℕ → ℕ → ℕ → ℕ → Walk → Type 0
Walked pids f last next (ended l n) =
    (last ≤ l) × (l < n) × (n ≤ next) × (last ≤ f → l ≤ f) × IsWindow pids l n
Walked pids f last next (repeat_from l) =
    (m : ℕ) × (last ≤ m)
    × (m < next)
    × (last ≤ f → m < f)
    × (l ≡ (if leb max_pid (m + 1) then 1 else m + 1))

-- A number in front of the list that is out of the way.
Walked-cons :
    (p : ℕ) (pids : List ℕ) (f last next last' next' : ℕ) (w : Walk)
    → last ≤ last'
    → next' ≤ next
    → (last ≤ f → last' ≤ f)
    → (p < last') ⊎ (next' ≤ p)
    → Walked pids f last' next' w
    → Walked (p ∷ pids) f last next w
unfolding occurs
Walked-cons p pids f last next last' next' (ended l n) a b c side (i, j, k, g, h) = (
  omega arith,
  j,
  omega arith,
  λ z. g (c z),
  λ q o. elim (ℕ_discrete p q) [
    | yes e ↦
        subst (λ x. (x < l) ⊎ (n ≤ x)) e
          (elim side [ inl s ↦ inl (omega (arith, s, i)) | inr s ↦ inr (omega (arith, s, k)) ])
    | no d ↦ h q (omega (arith, o, one_if_ne p q d))
  ],
)
Walked-cons p pids f last next last' next' (repeat_from l) a b c side (m, i, j, k, h) =
    (m, omega arith, omega arith, λ z. k (c z), h)

pub walk-Walked :
    (pids : List ℕ) (f last next : ℕ)
    → last < next
    → occurs f pids ≡ 0
    → Walked pids f last next (walk pids last next)
unfolding walk occurs
walk-Walked [] f last next l z =
    (omega arith, l, omega arith, λ h. h, λ q o. absurd (omega (arith, o)))
walk-Walked (p ∷ pids) f last next l z =
    let absent : occurs f pids ≡ 0 = omega (arith, z) in
    let other : p ≢ f = λ e.
      subst (λ x. one_if x f + occurs f pids ≡ 0 → ⊥) (sym e) (λ y. omega (arith, y, one_if_self f))
        z in
    elim (ℕ_discrete p last) [
      | yes e ↦ elim (Bool-cases (leb next (last + 1))) [
        | inl g ↦
            rw ((==_iff p last).1 e, g)
              (last, omega arith, l, λ y. omega (arith, e, y, other), refl)
        | inr g ↦
            rw ((==_iff p last).1 e, g)
              (Walked-cons p pids f last next (last + 1) next (walk pids (last + 1) next)
                (omega arith) (omega arith) (λ y. omega (arith, e, y, other))
                (inl (omega (arith, e)))
                (walk-Walked pids f (last + 1) next (ground (arith, g)) absent))
      ]
      | no d ↦ elim (Bool-cases (ltb last p && ltb p next)) [
        | inl g ↦
            rw (==_of_ne p last d, g)
              (Walked-cons p pids f last next last p (walk pids last p) (omega arith)
                (ground (arith, g)) (λ y. y) (inr (omega arith))
                (walk-Walked pids f last p (ground (arith, g)) absent))
        | inr g ↦
            rw (==_of_ne p last d, g)
              (Walked-cons p pids f last next last next (walk pids last next) (omega arith)
                (omega arith) (λ y. y) (apart d g) (walk-Walked pids f last next l absent))
      ]
    ]
  where
    apart : p ≢ last → (ltb last p && ltb p next) ≡ false → (p < last) ⊎ (next ≤ p)
    apart d g = elim (dec_lt p next) [
      | no b ↦ inr (omega (arith, b))
      | yes b ↦ elim (dec_lt last p) [
        | yes a ↦ absurd (false-ne-true (sym g ∙ ap₂ ◌&&◌ (lt→ltb last p a) (lt→ltb p next b)))
        | no a ↦ inl (omega (arith, a, d))
      ]
    ]
