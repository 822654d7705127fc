-- ===== src/SkewHeap/Remove.antt =====
-- The removal of a linked entry, compared with the removal from the tree.
use nku_os_lab.Base.{
  ℕ, ◌+◌, ◌<◌, ◌≡◌, ◌≢◌, refl, sym, ◌∙◌, ap, arith, inl, inr, Bool-cases, update_self, update_ne,
  ==_iff, ==_of_ne, ◌==◌, ℕ_discrete, dec_lt,
}
use nku_os_lab.SkewHeap.{Heap, nil, node}
use nku_os_lab.SkewHeap.Counts.{count, one_if_ne}
use nku_os_lab.SkewHeap.Entries.{Entries, replace_son, set_parent}
use nku_os_lab.SkewHeap.Shape.{root, Linked, IsAt, Once, root-count, Same, Same-IsAt, son-Linked}
use nku_os_lab.SkewHeap.Plant.{Merged, Linked-root}
use nku_os_lab.SkewHeap.Inside.{inside}
use nku_os_lab.SkewHeap.Cut.{Cut}

pub IsAt-positive : (s : Entries) (a : ℕ) (t : Heap) (q : ℕ) → IsAt s a t → 0 < count q t → 0 < q
unfolding count
IsAt-positive s a nil q h k = absurd (omega (arith, k))
IsAt-positive s a (node x l r) q h k = elim (ℕ_discrete x q) [
  | yes e ↦ omega (arith, e, h.1)
  | no n ↦ elim (dec_lt 0 (count q l)) [
    | yes i ↦ IsAt-positive s (s.left x) l q h.2.0 i
    | no i ↦ IsAt-positive s (s.right x) r q h.3.0 (omega (arith, k, i, one_if_ne x q n))
  ]
]

module _ (rep p : ℕ) (s : Entries) where
  pub set_parent-left : (q : ℕ) → (set_parent rep p s).left q ≡ s.left q
  unfolding set_parent
  set_parent-left q = elim (Bool-cases (rep == 0)) [ inl e ↦ rw e refl | inr e ↦ rw e refl ]

  pub set_parent-right : (q : ℕ) → (set_parent rep p s).right q ≡ s.right q
  unfolding set_parent
  set_parent-right q = elim (Bool-cases (rep == 0)) [ inl e ↦ rw e refl | inr e ↦ rw e refl ]

  set_parent-parent : (q : ℕ) → (0 < rep → q ≢ rep) → (set_parent rep p s).parent q ≡ s.parent q
  unfolding set_parent
  set_parent-parent q h = elim (ℕ_discrete rep 0) [
    | yes e ↦ rw ((==_iff rep 0).1 e) refl
    | no n ↦ rw (==_of_ne rep 0 n) (update_ne s.parent rep p q (λ e. h (omega (arith, n)) (sym e)))
  ]

  set_parent-parent_new : 0 < rep → (set_parent rep p s).parent rep ≡ p
  unfolding set_parent
  set_parent-parent_new h =
      rw (==_of_ne rep 0 (λ e. omega (arith, e, h))) (update_self s.parent rep p)

module _ (p b rep : ℕ) (s : Entries) where
  replace_son-left : (q : ℕ) → q ≢ p → (replace_son p b rep s).left q ≡ s.left q
  unfolding replace_son
  replace_son-left q n = elim (Bool-cases (s.left p == b)) [
    | inl e ↦ rw e (update_ne s.left p rep q (λ z. n (sym z)))
    | inr e ↦ rw e refl
  ]

  replace_son-right : (q : ℕ) → q ≢ p → (replace_son p b rep s).right q ≡ s.right q
  unfolding replace_son
  replace_son-right q n = elim (Bool-cases (s.left p == b)) [
    | inl e ↦ rw e refl
    | inr e ↦ rw e (update_ne s.right p rep q (λ z. n (sym z)))
  ]

  replace_son-parent : (q : ℕ) → (replace_son p b rep s).parent q ≡ s.parent q
  unfolding replace_son
  replace_son-parent q = elim (Bool-cases (s.left p == b)) [ inl e ↦ rw e refl | inr e ↦ rw e refl ]

  replace_son-on_left :
      s.left p ≡ b
      → ((replace_son p b rep s).left p ≡ rep) × ((replace_son p b rep s).right p ≡ s.right p)
  unfolding replace_son
  replace_son-on_left e = rw ((==_iff (s.left p) b).1 e) (update_self s.left p rep, refl)

  replace_son-on_right :
      s.left p ≢ b
      → ((replace_son p b rep s).right p ≡ rep) × ((replace_son p b rep s).left p ≡ s.left p)
  unfolding replace_son
  replace_son-on_right n = rw (==_of_ne (s.left p) b n) (update_self s.right p rep, refl)

-- The merged sons, with the parent of the entry.
module _ (s v : Entries) (b : ℕ) (bl br m : Heap)
    (inner : Merged s v (λ q. count q bl + count q br) m)
    (counts : (q : ℕ) → count q m ≡ count q bl + count q br) (once : Once m) where
  abbrev pub raised : Entries
  raised = set_parent (root m) (s.parent b) v

  pub raised_parent : (q : ℕ) → count q bl + count q br ≡ 0 → raised.parent q ≡ s.parent q
  raised_parent q h =
      set_parent-parent (root m) (s.parent b) v q
        (λ k e. omega (arith, h, counts q, root-count m k, ap (λ z. count z m) e))
      ∙ inner.parent q h

  pub raised-IsAt : IsAt raised (root m) m
  raised-IsAt = Same-IsAt v raised (root m) m once same inner.at
    where
      same : Same v raised m
      same = record {
        left = λ q k. set_parent-left (root m) (s.parent b) v q;
        right = λ q k. set_parent-right (root m) (s.parent b) v q;
        parent = λ q k n. set_parent-parent (root m) (s.parent b) v q (λ _. n);
      }

  pub raised-Linked : Linked raised (s.parent b) m
  raised-Linked =
      Linked-root v raised (s.parent b) m (set_parent-parent_new (root m) (s.parent b) v) inner.at

  abbrev pub replaced : Entries
  replaced = replace_son (s.parent b) b (root m) raised

  pub replaced-Cut : inside b bl br (s.parent b) ≡ 0 → Cut s replaced b bl br m
  replaced-Cut out = record {
    left = λ q n z.
        replace_son-left (s.parent b) b (root m) raised q n
        ∙ set_parent-left (root m) _ v q
        ∙ inner.left q (omega (arith, z));
    right = λ q n z.
        replace_son-right (s.parent b) b (root m) raised q n
        ∙ set_parent-right (root m) _ v q
        ∙ inner.right q (omega (arith, z));
    parent = λ q z.
        replace_son-parent (s.parent b) b (root m) raised q ∙ raised_parent q (omega (arith, z));
    at = Same-IsAt raised replaced (root m) m once same raised-IsAt;
    linked =
        son-Linked raised replaced (s.parent b) m raised-Linked
          (λ k. replace_son-parent (s.parent b) b (root m) raised (root m)) raised-IsAt;
    on_left = λ e.
        let w = replace_son-on_left (s.parent b) b (root m) raised (left_p ∙ e) in
        (w.0, w.1 ∙ right_p);
    on_right = λ n.
        let w = replace_son-on_right (s.parent b) b (root m) raised (λ z. n (sym left_p ∙ z)) in
        (w.0, w.1 ∙ left_p);
  }
    where
      left_p : raised.left (s.parent b) ≡ s.left (s.parent b)
      left_p = set_parent-left (root m) _ v (s.parent b) ∙ inner.left _ (omega (arith, out))

      right_p : raised.right (s.parent b) ≡ s.right (s.parent b)
      right_p = set_parent-right (root m) _ v (s.parent b) ∙ inner.right _ (omega (arith, out))

      not_p : (q : ℕ) → 0 < count q m → q ≢ s.parent b
      not_p q k e = omega (arith, out, counts q, k, ap (λ z. count z bl + count z br) e)

      same : Same raised replaced m
      same = record {
        left = λ q k. replace_son-left (s.parent b) b (root m) raised q (not_p q k);
        right = λ q k. replace_son-right (s.parent b) b (root m) raised q (not_p q k);
        parent = λ q k n. replace_son-parent (s.parent b) b (root m) raised q;
      }
