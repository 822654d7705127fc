-- ===== src/SkewHeap/Plant.antt =====
-- The step of `skew_heap_merge`: the merged heap becomes the left son of the entry, and what was the
-- left son its right one.
use nku_os_lab.Base.{
  ℕ, ◌+◌, ◌≤◌, ◌<◌, ◌≡◌, ◌≢◌, refl, sym, ◌∙◌, ap, subst, arith, update_self, update_ne, ==_iff,
  ==_of_ne, ℕ_discrete,
}
use nku_os_lab.SkewHeap.{Heap, nil, node}
use nku_os_lab.SkewHeap.Counts.{count, one_if, one_if_self}
use nku_os_lab.SkewHeap.Entries.{Entries, set_sons}
use nku_os_lab.SkewHeap.Shape.{
  root, Linked, IsAt, IsAt-root, root-count, Same, Same-IsAt, son-Linked,
}

-- What a merge of two trees leaves: the tree `m` of the result, every entry outside the two as it
-- was, and the parent of the root as it was.
pub record Merged (s u : Entries) (often : ℕ → ℕ) (m : Heap) : Type 0 where
  pub at : IsAt u (root m) m
  pub left : (q : ℕ) → often q ≡ 0 → u.left q ≡ s.left q
  pub right : (q : ℕ) → often q ≡ 0 → u.right q ≡ s.right q
  pub parent : (q : ℕ) → often q ≡ 0 → u.parent q ≡ s.parent q
  pub top : 0 < root m → u.parent (root m) ≡ s.parent (root m)

one_if_zero : (x q : ℕ) → one_if x q ≡ 0 → q ≢ x
one_if_zero x q h e = omega (arith, h, subst (λ y. one_if x y ≡ 1) (sym e) (one_if_self x))

set_sons-parent :
    (x l r q : ℕ) (s : Entries) → (0 < l → q ≢ l) → (set_sons x l r s).parent q ≡ s.parent q
unfolding set_sons
set_sons-parent x l r q s h = elim (ℕ_discrete l 0) [
  | yes e ↦ rw ((==_iff l 0).1 e) refl
  | no n ↦ rw (==_of_ne l 0 n) (update_ne s.parent l x q (λ e. h (omega (arith, n)) (sym e)))
]

set_sons-parent_new : (x l r : ℕ) (s : Entries) → 0 < l → (set_sons x l r s).parent l ≡ x
unfolding set_sons
set_sons-parent_new x l r s h =
    rw (==_of_ne l 0 (λ e. omega (arith, e, h))) (update_self s.parent l x)

pub Linked-root :
    (s u : Entries) (x : ℕ) (t : Heap)
    → (0 < root t → u.parent (root t) ≡ x)
    → IsAt s (root t) t
    → Linked u x t
Linked-root s u x nil h i = tt
Linked-root s u x (node y l r) h i = h i.1

module _ (s t : Entries) (x : ℕ) (xl m : Heap) (often : ℕ → ℕ) (positive : 0 < x)
    (inner : Merged s t often m) (counts : (q : ℕ) → count q m ≡ often q)
    (once : (q : ℕ) → one_if x q + count q xl + often q ≤ 1) where
  abbrev planted : Entries
  planted = set_sons x (root m) (s.left x) t

  away : (q : ℕ) → often q ≡ 0 → 0 < root m → q ≢ root m
  away q h k e = omega (arith, h, counts q, root-count m k, ap (λ z. count z m) e)

  below : (q : ℕ) → 0 < count q xl + often q → q ≢ x
  below q h = one_if_zero x q (omega (arith, once q, h))

  kept_left : (q : ℕ) → q ≢ x → planted.left q ≡ t.left q
  unfolding set_sons
  kept_left q n = update_ne t.left x (root m) q (λ e. n (sym e))

  kept_right : (q : ℕ) → q ≢ x → planted.right q ≡ t.right q
  unfolding set_sons
  kept_right q n = update_ne t.right x (s.left x) q (λ e. n (sym e))

  kept_parent : (q : ℕ) → often q ≡ 0 → planted.parent q ≡ s.parent q
  kept_parent q h = set_sons-parent x (root m) (s.left x) q t (away q h) ∙ inner.parent q h

  Same-merged : Same t planted m
  Same-merged = record {
    left = λ q k. kept_left q (below q (omega (arith, k, counts q)));
    right = λ q k. kept_right q (below q (omega (arith, k, counts q)));
    parent = λ q k n. set_sons-parent x (root m) (s.left x) q t (λ _. n);
  }

  outside : (q : ℕ) → 0 < count q xl → often q ≡ 0
  outside q k = omega (arith, once q, k)

  Same-left : Same s planted xl
  Same-left = record {
    left = λ q k. kept_left q (below q (omega (arith, k))) ∙ inner.left q (outside q k);
    right = λ q k. kept_right q (below q (omega (arith, k))) ∙ inner.right q (outside q k);
    parent = λ q k n. kept_parent q (outside q k);
  }

  not_x : (q : ℕ) → one_if x q + count q xl + often q ≡ 0 → q ≢ x
  not_x q h = one_if_zero x q (omega (arith, h))

  none_left : (q : ℕ) → one_if x q + count q xl + often q ≡ 0 → often q ≡ 0
  none_left q h = omega (arith, h)

  pub planted-Merged :
      IsAt s (s.left x) xl
      → Linked s x xl
      → Merged s planted (λ q. one_if x q + count q xl + often q) (node x m xl)
  unfolding set_sons
  planted-Merged h k = record {
    at = (
      refl,
      positive,
      (
        subst (λ q. IsAt planted q m) (sym (update_self t.left x (root m)))
            (Same-IsAt t planted (root m) m (λ q. omega (arith, once q, counts q)) Same-merged
              inner.at),
        Linked-root t planted x m (set_sons-parent_new x (root m) (s.left x) t) inner.at,
      ),
      (
        subst (λ q. IsAt planted q xl) (sym (update_self t.right x (s.left x)))
            (Same-IsAt s planted (s.left x) xl (λ q. omega (arith, once q)) Same-left h),
        son-Linked s planted x xl k
            (λ i. kept_parent (root xl) (outside (root xl) (root-count xl i)))
            (subst (λ q. IsAt s q xl) (IsAt-root s (s.left x) xl h) h),
      ),
    );
    left = λ q z. kept_left q (not_x q z) ∙ inner.left q (none_left q z);
    right = λ q z. kept_right q (not_x q z) ∙ inner.right q (none_left q z);
    parent = λ q z. kept_parent q (none_left q z);
    top = λ i. kept_parent x (omega (arith, once x, one_if_self x));
  }
