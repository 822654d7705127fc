-- ===== src/Process/Unlink.antt =====
-- What `remove_links` makes of a family.
use nku_os_lab.Base.{
  ℕ, ◌+◌, ◌≤◌, ◌<◌, ◌≡◌, ◌≢◌, refl, sym, ◌∙◌, ap, subst, ◌⊎◌, inl, inr, Option, none, some, List,
  [], ◌∷◌, ==_iff, ==_of_ne, arith, ℕ_discrete, update, update_self, update_ne,
}
use nku_os_lab.SkewHeap.Counts.{one_if, one_if_self, one_if_ne}
use nku_os_lab.Sched.RoundRobin.{occurs, unlink, unlink-occurs}
use nku_os_lab.Process.{Links, set_yptr, close_gap, remove_links}
use nku_os_lab.Process.Family.{
  IsSiblings, IsFamily, IsSiblings-Same, IsSiblings-parent, IsSiblings-head, IsSiblings-place,
  IsSiblings-older, IsSiblings_under, set_yptr_at, set_yptr_off, set_yptr_rest, some_injective,
  none-ne-some, IsSiblings-first, IsSiblings-not_self,
}

-- How the links change when `p` leaves.
record Left (p : ℕ) (l m : Links) : Type 0 where
  parents : m.parent ≡ l.parent
  older_one : (c : ℕ) → l.optr p ≡ some c → m.yptr c ≡ l.yptr p
  not_older : (c : ℕ) → l.optr p ≢ some c → m.yptr c ≡ l.yptr c
  younger_one : (c : ℕ) → l.yptr p ≡ some c → m.optr c ≡ l.optr p
  not_younger : (c : ℕ) → l.yptr p ≢ some c → m.optr c ≡ l.optr c
  first_one : l.yptr p ≡ none → m.cptr (l.parent p) ≡ l.optr p
  not_first : (x : ℕ) → (l.yptr p ≢ none) ⊎ (l.parent p ≢ x) → m.cptr x ≡ l.cptr x

close_gap-Left :
    (p : ℕ) (l b : Links) (y : Option ℕ)
    → l.yptr p ≡ y
    → b.parent ≡ l.parent
    → b.optr ≡ l.optr
    → b.cptr ≡ l.cptr
    → ((c : ℕ) → l.optr p ≡ some c → b.yptr c ≡ l.yptr p)
    → ((c : ℕ) → l.optr p ≢ some c → b.yptr c ≡ l.yptr c)
    → Left p l (close_gap y p b)
close_gap-Left p l b none e i o f g h = record {
  parents = i;
  older_one = g;
  not_older = h;
  younger_one = λ c z. absurd (none-ne-some c (sym e ∙ z));
  not_younger = λ c z. ap (λ f. f c) o;
  first_one = λ z.
      ap (λ q. update b.cptr (q p) (b.optr p) (l.parent p)) i
      ∙ update_self b.cptr (l.parent p) (b.optr p)
      ∙ ap (λ f. f p) o;
  not_first = λ x z.
      ap (λ q. update b.cptr (q p) (b.optr p) x) i
      ∙ update_ne b.cptr (l.parent p) (b.optr p) x (elim z [ inl n ↦ absurd (n e) | inr n ↦ n ])
      ∙ ap (λ f. f x) f;
}
close_gap-Left p l b (some y) e i o f g h = record {
  parents = i;
  older_one = g;
  not_older = h;
  younger_one = λ c z.
      subst (λ d. update b.optr y (b.optr p) d ≡ l.optr p) (some_injective (sym e ∙ z))
        (update_self b.optr y (b.optr p) ∙ ap (λ f. f p) o);
  not_younger = λ c z. update_ne b.optr y (b.optr p) c (λ d. z (e ∙ ap some d)) ∙ ap (λ f. f c) o;
  first_one = λ z. absurd (none-ne-some y (sym z ∙ e));
  not_first = λ x z. ap (λ f. f x) f;
}

remove_links-Left : (p : ℕ) (l : Links) → l.optr p ≢ some p → Left p l (remove_links p l)
unfolding remove_links
remove_links-Left p l n =
    let a = record l { proc_list = unlink p l.proc_list } in
    let b = set_yptr (l.optr p) (l.yptr p) a in
    let (o, i, f, _, _) = set_yptr_rest (l.optr p) (l.yptr p) a in
    let c =
      close_gap-Left p l b (b.yptr p) (sym (set_yptr_off (l.optr p) (l.yptr p) a p n)) i o f
        (λ c e. set_yptr_at (l.optr p) (l.yptr p) a c e)
        (λ c e. set_yptr_off (l.optr p) (l.yptr p) a c e) in
    record {
      parents = c.parents;
      older_one = c.older_one;
      not_older = c.not_older;
      younger_one = c.younger_one;
      not_younger = c.not_younger;
      first_one = c.first_one;
      not_first = c.not_first;
    }

-- A pointer to an entry of a line that the other entries do not hold.
apart : (c d : ℕ) (cs : List ℕ) → one_if c c + occurs c cs ≤ 1 → 0 < occurs d cs → c ≢ d
apart c d cs h o e = subst (λ z. 0 < occurs z cs → ⊥) e (λ k. omega (arith, k, h, one_if_self c)) o

module _ (p : ℕ) (l m : Links) (x : ℕ) (left : Left p l m) where
  remove_line :
      (cs : List ℕ) (younger first first' : Option ℕ)
      → IsSiblings l x younger first cs
      → ((c : ℕ) → occurs c cs ≤ 1)
      → occurs p cs ≡ 1
      → ((c : ℕ) → younger ≡ some c → occurs c cs ≡ 0)
      → (first ≡ some p → first' ≡ l.optr p)
      → (first ≢ some p → first' ≡ first)
      → IsSiblings m x younger first' (unlink p cs)
  unfolding occurs unlink
  remove_line [] younger first first' h once o out head other = absurd (omega (arith, o))
  remove_line (c ∷ cs) younger first first' (f, y, a, rest) once o out head other =
      elim (ℕ_discrete c p) [
        | yes e ↦
            let mine : l.yptr p ≡ younger = subst (λ z. l.yptr z ≡ younger) e y in
            let away : (d : ℕ) → 0 < occurs d cs → l.yptr p ≢ some d =
              λ d i z. omega (arith, i, out d (sym mine ∙ z)) in
            rw ((==_iff c p).1 e) (
              subst (λ g. IsSiblings m x younger g cs) (sym (head (f ∙ ap some e)))
                (subst (λ z. IsSiblings m x younger (l.optr z) cs) e
                  (IsSiblings_under l m x (some c) younger (l.optr c) cs
                    (λ d g.
                      let i = IsSiblings-head l x (some c) (l.optr c) cs d rest g in
                      (
                        left.older_one d (sym (ap l.optr e) ∙ g) ∙ mine,
                        left.not_younger d (away d i),
                        ap (λ f. f d) left.parents,
                      ))
                    (λ d i n. (
                      left.not_older d (λ z. n (ap l.optr e ∙ z)),
                      left.not_younger d (away d i),
                      ap (λ f. f d) left.parents,
                    ))
                    (λ d. omega (arith, once d)) rest)))
        | no n ↦
            let there : occurs p cs ≡ 1 = omega (arith, o, one_if_ne c p n) in
            let not_c = λ (d : ℕ) (i : 0 < occurs d cs). apart c d cs (once c) i in
            rw (==_of_ne c p n) (
              other (λ z. n (some_injective (sym f ∙ z))) ∙ f,
              left.not_older c (λ z.
                    not_c c
                      (IsSiblings-older l x (some c) (l.optr c) cs p c rest (omega (arith, there))
                        z)
                      refl)
                  ∙ y,
              ap (λ f. f c) left.parents ∙ a,
              remove_line cs (some c) (l.optr c) (m.optr c) rest (λ d. omega (arith, once d)) there
                  (λ d z.
                    subst (λ e. occurs e cs ≡ 0) (some_injective z)
                      (omega (arith, once c, one_if_self c)))
                  (λ z. left.younger_one c (IsSiblings-first l x (some c) (l.optr c) cs p rest z))
                  (λ z. left.not_younger c (λ w.
                    later z w
                      (IsSiblings-place l x (some c) (l.optr c) cs p rest (omega (arith, there))))),
            )
      ]
    where
      later :
          l.optr c ≢ some p
          → l.yptr p ≡ some c
          → ((l.optr c ≡ some p) × (l.yptr p ≡ some c))
            ⊎ ((d : ℕ) × (l.yptr p ≡ some d) × (0 < occurs d cs))
          → ⊥
      later z w (inl (i, j)) = z i
      later z w (inr (d, i, j)) = apart c d cs (once c) j (some_injective (sym w ∙ i))

module _ (p : ℕ) (l : Links) (kids : ℕ → List ℕ) (h : IsFamily l kids)
    (child : occurs p (kids (l.parent p)) ≡ 1) where
  x : ℕ
  x = l.parent p

  there : 0 < occurs p (kids x)
  unfolding x
  there = omega (arith, child)

  not_self : l.optr p ≢ some p
  unfolding x
  not_self = IsSiblings-not_self l x none (l.cptr x) (kids x) p (h.lines x) (h.once x) there

  m : Links
  m = remove_links p l

  left : Left p l m
  unfolding m
  left = remove_links-Left p l not_self

  here : IsSiblings m x none (m.cptr x) (unlink p (kids x))
  unfolding x
  here =
      remove_line p l m x left (kids x) none (l.cptr x) (m.cptr x) (h.lines x) (h.once x) child
        (λ c e. absurd (none-ne-some c e))
        (λ e. left.first_one (IsSiblings-first l x none (l.cptr x) (kids x) p (h.lines x) e))
        (λ n. left.not_first x (
          inl
            (λ e. headed n e (IsSiblings-place l x none (l.cptr x) (kids x) p (h.lines x) there))))
    where
      headed :
          l.cptr x ≢ some p
          → l.yptr p ≡ none
          → ((l.cptr x ≡ some p) × (l.yptr p ≡ none))
            ⊎ ((c : ℕ) × (l.yptr p ≡ some c) × (0 < occurs c (kids x)))
          → ⊥
      headed n e (inl (i, j)) = n i
      headed n e (inr (c, i, j)) = none-ne-some c (sym e ∙ i)

  -- What `p` points to are children of its parent.
  near : (c : ℕ) → (l.optr p ≡ some c) ⊎ (l.yptr p ≡ some c) → l.parent c ≡ x
  near c (inl e) =
      IsSiblings-parent l x none (l.cptr x) (kids x) (h.lines x) c
        (IsSiblings-older l x none (l.cptr x) (kids x) p c (h.lines x) there e)
  near c (inr e) = elim (IsSiblings-place l x none (l.cptr x) (kids x) p (h.lines x) there) [
    | inl (i, j) ↦ absurd (none-ne-some c (sym j ∙ e))
    | inr (d, i, j) ↦
        subst (λ z. l.parent z ≡ x) (some_injective (sym i ∙ e))
          (IsSiblings-parent l x none (l.cptr x) (kids x) (h.lines x) d j)
  ]

  elsewhere : (y : ℕ) → x ≢ y → IsSiblings m y none (m.cptr y) (kids y)
  unfolding x
  elsewhere y n =
      let own = λ (c : ℕ) (o : 0 < occurs c (kids y)).
        IsSiblings-parent l y none (l.cptr y) (kids y) (h.lines y) c o in
      subst (λ f. IsSiblings m y none f (kids y)) (sym (left.not_first y (inr n)))
        (IsSiblings-Same l m y none (l.cptr y) (kids y)
          (λ c o. (
            left.not_older c (λ e. n (sym (near c (inl e)) ∙ own c o)),
            left.not_younger c (λ e. n (sym (near c (inr e)) ∙ own c o)),
            ap (λ f. f c) left.parents,
          ))
          (h.lines y))

  -- A child leaves the line of its siblings, wherever it stands in it; the other children keep their
  -- order, and no other process gains or loses a child.
  pub remove_links-IsFamily :
      IsFamily (remove_links p l) (update kids (l.parent p) (unlink p (kids (l.parent p))))
  unfolding x m
  remove_links-IsFamily = record {
    lines = λ y. elim (ℕ_discrete (l.parent p) y) [
      | yes e ↦
          subst
            (λ z.
              IsSiblings m z none (m.cptr z)
                (update kids (l.parent p) (unlink p (kids (l.parent p))) z))
            e
            (subst (λ cs. IsSiblings m x none (m.cptr x) cs) (sym (update_self kids (l.parent p) _))
              here)
      | no n ↦
          subst (λ cs. IsSiblings m y none (m.cptr y) cs) (sym (update_ne kids (l.parent p) _ y n))
            (elsewhere y n)
    ];
    once = λ y c. elim (ℕ_discrete (l.parent p) y) [
      | yes e ↦
          subst (λ z. occurs c (update kids (l.parent p) (unlink p (kids (l.parent p))) z) ≤ 1) e
            (subst (λ cs. occurs c cs ≤ 1) (sym (update_self kids (l.parent p) _))
              (omega (arith, h.once (l.parent p) c, unlink-occurs p c (kids (l.parent p)) child)))
      | no n ↦ subst (λ cs. occurs c cs ≤ 1) (sym (update_ne kids (l.parent p) _ y n)) (h.once y c)
    ];
  }
