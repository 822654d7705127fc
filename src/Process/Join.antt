-- ===== src/Process/Join.antt =====
-- What `set_links` makes of a family.
use nku_os_lab.Base.{
  ℕ, ◌+◌, ◌≤◌, ◌<◌, ◌≡◌, ◌≢◌, sym, ◌∙◌, ap, subst, none, some, List, ◌∷◌, arith, ℕ_discrete, update,
  update_self, update_ne,
}
use nku_os_lab.SkewHeap.Counts.{one_if, one_if_self, one_if_ne}
use nku_os_lab.Sched.RoundRobin.{occurs}
use nku_os_lab.Process.{Links, set_links}
use nku_os_lab.Process.Family.{
  IsSiblings, IsFamily, IsSiblings-Same, IsSiblings-parent, IsSiblings-head, IsSiblings_under,
  set_yptr_at, set_yptr_off, set_yptr_rest,
}

module _ (p : ℕ) (l : Links) (kids : ℕ → List ℕ) (h : IsFamily l kids)
    (absent : (y : ℕ) → occurs p (kids y) ≡ 0) where
  x : ℕ
  x = l.parent p

  m : Links
  m = set_links p l

  base : Links
  unfolding x
  base = record l {
    proc_list = p ∷ l.proc_list;
    yptr = update l.yptr p none;
    optr = update l.optr p (l.cptr x);
  }

  parents : m.parent ≡ l.parent
  unfolding m set_links x base
  parents = (set_yptr_rest (l.cptr x) (some p) base).1

  optrs : m.optr ≡ update l.optr p (l.cptr x)
  unfolding m set_links x base
  optrs = (set_yptr_rest (l.cptr x) (some p) base).0

  first_child : (y : ℕ) → m.cptr y ≡ update l.cptr x (some p) y
  unfolding m set_links x base
  first_child y = ap (λ f. update f x (some p) y) (set_yptr_rest (l.cptr x) (some p) base).2

  -- A child is not the new process.
  not_new : (y c : ℕ) → 0 < occurs c (kids y) → p ≢ c
  not_new y c o e = subst (λ z. 0 < occurs z (kids y) → ⊥) e (λ k. omega (arith, k, absent y)) o

  optr_old : (c : ℕ) → p ≢ c → m.optr c ≡ l.optr c
  optr_old c n = ap (λ f. f c) optrs ∙ update_ne l.optr p _ c n

  yptr_old : (c : ℕ) → p ≢ c → l.cptr x ≢ some c → m.yptr c ≡ l.yptr c
  unfolding m set_links x base
  yptr_old c n d = set_yptr_off (l.cptr x) (some p) base c d ∙ update_ne l.yptr p none c n

  yptr_head : (c : ℕ) → l.cptr x ≡ some c → m.yptr c ≡ some p
  unfolding m set_links x base
  yptr_head c e = set_yptr_at (l.cptr x) (some p) base c e

  yptr_new : m.yptr p ≡ none
  unfolding m set_links x base
  yptr_new =
      set_yptr_off (l.cptr x) (some p) base p
        (λ e. omega (arith, absent x, IsSiblings-head l x none (l.cptr x) (kids x) p (h.lines x) e))
      ∙ update_self l.yptr p none

  elsewhere : (y : ℕ) → x ≢ y → IsSiblings m y none (m.cptr y) (kids y)
  elsewhere y n =
      subst (λ f. IsSiblings m y none f (kids y))
        (sym (first_child y ∙ update_ne l.cptr x (some p) y n))
        (IsSiblings-Same l m y none (l.cptr y) (kids y)
          (λ c o. (
            yptr_old c (not_new y c o) (λ e. n (
                sym (
                  IsSiblings-parent l x none (l.cptr x) (kids x) (h.lines x) c
                    (IsSiblings-head l x none (l.cptr x) (kids x) c (h.lines x) e))
                ∙ IsSiblings-parent l y none (l.cptr y) (kids y) (h.lines y) c o)),
            optr_old c (not_new y c o),
            ap (λ f. f c) parents,
          ))
          (h.lines y))

  here : IsSiblings m x none (m.cptr x) (p ∷ kids x)
  unfolding x
  here = (
    first_child x ∙ update_self l.cptr x (some p),
    yptr_new,
    ap (λ f. f p) parents,
    subst (λ o. IsSiblings m x (some p) o (kids x))
        (sym (ap (λ f. f p) optrs ∙ update_self l.optr p (l.cptr x)))
        (IsSiblings_under l m x none (some p) (l.cptr x) (kids x)
          (λ c e.
            let o = IsSiblings-head l x none (l.cptr x) (kids x) c (h.lines x) e in
            (yptr_head c e, optr_old c (not_new x c o), ap (λ f. f c) parents))
          (λ c o n.
            (yptr_old c (not_new x c o) n, optr_old c (not_new x c o), ap (λ f. f c) parents))
          (h.once x) (h.lines x)),
  )

  -- A process that was nobody's child becomes the youngest child of its parent; the children of
  -- every other process, and their order, stay as they are.
  pub set_links-IsFamily :
      IsFamily (set_links p l) (update kids (l.parent p) (p ∷ kids (l.parent p)))
  unfolding x m occurs
  set_links-IsFamily = record {
    lines = λ y. elim (ℕ_discrete (l.parent p) y) [
      | yes e ↦
          subst
            (λ z.
              IsSiblings m z none (m.cptr z) (update kids (l.parent p) (p ∷ kids (l.parent p)) z))
            e
            (subst (λ cs. IsSiblings m x none (m.cptr x) cs) (sym (update_self kids (l.parent p) _))
              here)
      | no n ↦
          subst (λ cs. IsSiblings m y none (m.cptr y) cs) (sym (update_ne kids (l.parent p) _ y n))
            (elsewhere y n)
    ];
    once = λ y c. elim (ℕ_discrete (l.parent p) y) [
      | yes e ↦
          subst (λ z. occurs c (update kids (l.parent p) (p ∷ kids (l.parent p)) z) ≤ 1) e
            (subst (λ cs. occurs c cs ≤ 1) (sym (update_self kids (l.parent p) _)) (added c))
      | no n ↦ subst (λ cs. occurs c cs ≤ 1) (sym (update_ne kids (l.parent p) _ y n)) (h.once y c)
    ];
  }
    where
      added : (c : ℕ) → one_if p c + occurs c (kids (l.parent p)) ≤ 1
      added c = elim (ℕ_discrete p c) [
        | yes e ↦
            subst (λ z. one_if p z + occurs z (kids (l.parent p)) ≤ 1) e
              (omega (arith, absent (l.parent p), one_if_self p))
        | no n ↦ omega (arith, h.once (l.parent p) c, one_if_ne p c n)
      ]
