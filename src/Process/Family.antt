-- ===== src/Process/Family.antt =====
-- The children of every process, as the list that `cptr` and the sibling links make.
use nku_os_lab.Base.{
  ℕ, ◌+◌, ◌≤◌, ◌<◌, ◌≡◌, ◌≢◌, refl, sym, ◌∙◌, ap, subst, ◌⊎◌, inl, inr, Option, none, some, List,
  [], ◌∷◌, arith, ℕ_discrete, update, update_self, update_ne,
}
use nku_os_lab.SkewHeap.Counts.{one_if, one_if_self, one_if_ne}
use nku_os_lab.Sched.RoundRobin.{occurs}
use nku_os_lab.Process.{Links, set_yptr}

pub some_injective : {a b : ℕ} → ◌≡◌ {A = Option ℕ} (some a) (some b) → a ≡ b
some_injective e = cc

pub none-ne-some : (c : ℕ) → ◌≢◌ {A = Option ℕ} none (some c)
none-ne-some c e = cc

-- The siblings `cs`, children of `x`, from the pointer `first` on: the oldest is last, and `younger` is
-- the sibling before them.
abbrev pub IsSiblings : Links → ℕ → Option ℕ → Option ℕ → List ℕ → Type 0
IsSiblings l x younger first [] = first ≡ none
IsSiblings l x younger first (c ∷ cs) =
    (first ≡ some c)
    × (l.yptr c ≡ younger)
    × (l.parent c ≡ x)
    × IsSiblings l x (some c) (l.optr c) cs

-- `kids x` are the children of `x`, the youngest first.
pub record IsFamily (l : Links) (kids : ℕ → List ℕ) : Type 0 where
  pub lines : (x : ℕ) → IsSiblings l x none (l.cptr x) (kids x)
  pub once : (x c : ℕ) → occurs c (kids x) ≤ 1

-- The sibling links of some processes are as they were.
abbrev pub Same : Links → Links → ℕ → Type 0
Same l m c = (m.yptr c ≡ l.yptr c) × (m.optr c ≡ l.optr c) × (m.parent c ≡ l.parent c)

pub IsSiblings-Same :
    (l m : Links) (x : ℕ) (younger first : Option ℕ) (cs : List ℕ)
    → ((c : ℕ) → 0 < occurs c cs → Same l m c)
    → IsSiblings l x younger first cs
    → IsSiblings m x younger first cs
unfolding occurs
IsSiblings-Same l m x younger first [] same h = h
IsSiblings-Same l m x younger first (c ∷ cs) same (f, y, p, rest) =
    let (a, b, d) = same c (omega (arith, one_if_self c)) in
    (
      f,
      a ∙ y,
      d ∙ p,
      subst (λ o. IsSiblings m x (some c) o cs) (sym b)
          (IsSiblings-Same l m x (some c) (l.optr c) cs (λ e o. same e (omega (arith, o))) rest),
    )

-- Every child has its parent.
pub IsSiblings-parent :
    (l : Links) (x : ℕ) (younger first : Option ℕ) (cs : List ℕ)
    → IsSiblings l x younger first cs
    → (c : ℕ) → 0 < occurs c cs
    → l.parent c ≡ x
unfolding occurs
IsSiblings-parent l x younger first [] h c o = absurd (omega (arith, o))
IsSiblings-parent l x younger first (e ∷ cs) (f, y, p, rest) c o = elim (ℕ_discrete e c) [
  | yes i ↦ subst (λ z. l.parent z ≡ x) i p
  | no d ↦ IsSiblings-parent l x (some e) (l.optr e) cs rest c (omega (arith, o, one_if_ne e c d))
]

-- The entry in front of the list can be another one: only the first child knows it.
pub IsSiblings_under :
    (l m : Links) (x : ℕ) (younger younger' first : Option ℕ) (cs : List ℕ)
    → ((c : ℕ)
        → first ≡ some c
        → (m.yptr c ≡ younger') × (m.optr c ≡ l.optr c) × (m.parent c ≡ l.parent c))
    → ((c : ℕ) → 0 < occurs c cs → first ≢ some c → Same l m c)
    → ((c : ℕ) → occurs c cs ≤ 1)
    → IsSiblings l x younger first cs
    → IsSiblings m x younger' first cs
unfolding occurs
IsSiblings_under l m x y y' first [] head same once h = h
IsSiblings_under l m x y y' first (c ∷ cs) head same once (f, i, p, rest) =
    let (a, b, d) = head c f in
    (
      f,
      a,
      d ∙ p,
      subst (λ o. IsSiblings m x (some c) o cs) (sym b)
          (IsSiblings-Same l m x (some c) (l.optr c) cs
            (λ e o. same e (omega (arith, o)) (λ j. other e o (sym f ∙ j))) rest),
    )
  where
    other : (e : ℕ) → 0 < occurs e cs → ◌≡◌ {A = Option ℕ} (some c) (some e) → ⊥
    other e o j =
        let i : c ≡ e = some_injective j in
        subst (λ z. one_if z e + occurs e cs ≤ 1 → ⊥) (sym i)
          (λ k. omega (arith, k, one_if_self e, o)) (once e)

pub IsSiblings-head :
    (l : Links) (x : ℕ) (younger first : Option ℕ) (cs : List ℕ) (c : ℕ)
    → IsSiblings l x younger first cs
    → first ≡ some c
    → 0 < occurs c cs
unfolding occurs
IsSiblings-head l x younger first [] c h e = absurd (none-ne-some c (sym h ∙ e))
IsSiblings-head l x younger first (d ∷ cs) c (f, y, p, rest) e =
    let i : d ≡ c = some_injective (sym f ∙ e) in
    subst (λ z. 0 < one_if d z + occurs z cs) i (omega (arith, one_if_self d))

-- What `set_yptr` writes, and what it leaves.
pub set_yptr_at : (o v : Option ℕ) (l : Links) (c : ℕ) → o ≡ some c → (set_yptr o v l).yptr c ≡ v
set_yptr_at none v l c e = cc
set_yptr_at (some a) v l c e =
    subst (λ z. update l.yptr a v z ≡ v) (some_injective e) (update_self l.yptr a v)

pub set_yptr_off :
    (o v : Option ℕ) (l : Links) (c : ℕ) → o ≢ some c → (set_yptr o v l).yptr c ≡ l.yptr c
set_yptr_off none v l c n = refl
set_yptr_off (some a) v l c n = update_ne l.yptr a v c (λ e. n (ap some e))

pub set_yptr_rest :
    (o v : Option ℕ) (l : Links)
    → ((set_yptr o v l).optr ≡ l.optr)
      × ((set_yptr o v l).parent ≡ l.parent)
      × ((set_yptr o v l).cptr ≡ l.cptr)
      × ((set_yptr o v l).proc_list ≡ l.proc_list)
      × ((set_yptr o v l).nr_process ≡ l.nr_process)
set_yptr_rest none v l = (refl, refl, refl, refl, refl)
set_yptr_rest (some a) v l = (refl, refl, refl, refl, refl)

-- A sibling is the first, or the one that it names is in the line.
pub IsSiblings-place :
    (l : Links) (x : ℕ) (younger first : Option ℕ) (cs : List ℕ) (p : ℕ)
    → IsSiblings l x younger first cs
    → 0 < occurs p cs
    → ((first ≡ some p) × (l.yptr p ≡ younger))
      ⊎ ((c : ℕ) × (l.yptr p ≡ some c) × (0 < occurs c cs))
unfolding occurs
IsSiblings-place l x younger first [] p h o = absurd (omega (arith, o))
IsSiblings-place l x younger first (d ∷ cs) p (f, y, a, rest) o = elim (ℕ_discrete d p) [
  | yes e ↦ inl (f ∙ ap some e, subst (λ z. l.yptr z ≡ younger) e y)
  | no n ↦
      elim (IsSiblings-place l x (some d) (l.optr d) cs p rest
        (omega (arith, o, one_if_ne d p n))) [
          | inl (g, z) ↦ inr (d, z, omega (arith, one_if_self d))
          | inr (c, z, i) ↦ inr (c, z, omega (arith, i))
        ]
]

-- The next older sibling is in the line.
pub IsSiblings-older :
    (l : Links) (x : ℕ) (younger first : Option ℕ) (cs : List ℕ) (p c : ℕ)
    → IsSiblings l x younger first cs
    → 0 < occurs p cs
    → l.optr p ≡ some c
    → 0 < occurs c cs
unfolding occurs
IsSiblings-older l x younger first [] p c h o e = o
IsSiblings-older l x younger first (d ∷ cs) p c (f, y, a, rest) o e = elim (ℕ_discrete d p) [
  | yes i ↦
      let next = IsSiblings-head l x (some d) (l.optr d) cs c rest (ap l.optr i ∙ e) in
      omega (arith, next)
  | no n ↦
      let next =
        IsSiblings-older l x (some d) (l.optr d) cs p c rest (omega (arith, o, one_if_ne d p n))
          e in
      omega (arith, next)
]

-- The first sibling has no younger one in the line.
pub IsSiblings-first :
    (l : Links) (x : ℕ) (younger first : Option ℕ) (cs : List ℕ) (p : ℕ)
    → IsSiblings l x younger first cs
    → first ≡ some p
    → l.yptr p ≡ younger
IsSiblings-first l x younger first [] p h e = absurd (none-ne-some p (sym h ∙ e))
IsSiblings-first l x younger first (d ∷ cs) p (f, y, a, rest) e =
    subst (λ z. l.yptr z ≡ younger) (some_injective (sym f ∙ e)) y

-- No sibling is its own older one.
pub IsSiblings-not_self :
    (l : Links) (x : ℕ) (younger first : Option ℕ) (cs : List ℕ) (p : ℕ)
    → IsSiblings l x younger first cs
    → ((c : ℕ) → occurs c cs ≤ 1)
    → 0 < occurs p cs
    → l.optr p ≢ some p
unfolding occurs
IsSiblings-not_self l x younger first [] p h once o e = omega (arith, o)
IsSiblings-not_self l x younger first (d ∷ cs) p (f, y, a, rest) once o e = elim (ℕ_discrete d p) [
  | yes i ↦
      let again = IsSiblings-head l x (some d) (l.optr d) cs p rest (ap l.optr i ∙ e) in
      let self : one_if d p ≡ 1 = subst (λ z. one_if d z ≡ 1) i (one_if_self d) in
      omega (arith, again, self, once p)
  | no n ↦
      IsSiblings-not_self l x (some d) (l.optr d) cs p rest (λ c. omega (arith, once c))
        (omega (arith, o, one_if_ne d p n)) e
]
