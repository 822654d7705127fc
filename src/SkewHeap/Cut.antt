-- ===== src/SkewHeap/Cut.antt =====
-- An entry of a tree of linked entries gives its place to the merge of its sons.
use nku_os_lab.Base.{ℕ, ◌<◌, ◌≡◌, ◌≢◌, refl, sym, ◌∙◌, subst, arith, Bool, ==_of_ne}
use nku_os_lab.SkewHeap.{Heap, nil, node, skew_heap_merge, skew_heap_remove}
use nku_os_lab.SkewHeap.Counts.{count}
use nku_os_lab.SkewHeap.Entries.{Entries}
use nku_os_lab.SkewHeap.Shape.{
  root, Linked, IsAt, IsAt-root, Once, root-count, Same, Same-IsAt, son-Linked,
}
use nku_os_lab.SkewHeap.Inside.{In, inside, In-here, In-root, In-root_outside}

-- The entry `b` with its sons was replaced by the tree `m` at its parent.
pub record Cut (s u : Entries) (b : ℕ) (bl br m : Heap) : Type 0 where
  pub left : (q : ℕ) → q ≢ s.parent b → inside b bl br q ≡ 0 → u.left q ≡ s.left q
  pub right : (q : ℕ) → q ≢ s.parent b → inside b bl br q ≡ 0 → u.right q ≡ s.right q
  pub parent : (q : ℕ) → inside b bl br q ≡ 0 → u.parent q ≡ s.parent q
  pub at : IsAt u (root m) m
  pub linked : Linked u (s.parent b) m
  pub on_left :
      s.left (s.parent b) ≡ b
      → (u.left (s.parent b) ≡ root m) × (u.right (s.parent b) ≡ s.right (s.parent b))
  pub on_right :
      s.left (s.parent b) ≢ b
      → (u.right (s.parent b) ≡ root m) × (u.left (s.parent b) ≡ s.left (s.parent b))

pub remove-below :
    (less : ℕ → ℕ → Bool) (c : ℕ) (l r : Heap) (b : ℕ)
    → c ≢ b
    → skew_heap_remove less (node c l r) b
      ≡ node c (skew_heap_remove less l b) (skew_heap_remove less r b)
unfolding skew_heap_remove
remove-below less c l r b n = rw (==_of_ne c b n) refl

In-nil : (b : ℕ) (bl br : Heap) → In b bl br nil → ⊥
unfolding count
In-nil b bl br i = omega (arith, In-here b bl br nil i)

module _ (less : ℕ → ℕ → Bool) (s u : Entries) (b : ℕ) (bl br : Heap)
    (cut : Cut s u b bl br (skew_heap_merge less bl br)) where
  -- A son that the entry does not stand in.
  pub aside :
      (x a : ℕ) (r : Heap)
      → Once r
      → ((q : ℕ) → 0 < count q r → (q ≢ s.parent b) × (inside b bl br q ≡ 0))
      → IsAt s a r
      → Linked s x r
      → IsAt u a r × Linked u x r
  aside x a r once out h k = (
    Same-IsAt s u a r once same h,
    son-Linked s u x r k (λ i. cut.parent (root r) (out (root r) (root-count r i)).1)
        (subst (λ q. IsAt s q r) (IsAt-root s a r h) h),
  )
    where
      same : Same s u r
      same = record {
        left = λ q i. cut.left q (out q i).0 (out q i).1;
        right = λ q i. cut.right q (out q i).0 (out q i).1;
        parent = λ q i n. cut.parent q (out q i).1;
      }

  -- A son that the entry stands in, below its root.
  pub deeper :
      (x a : ℕ) (l : Heap)
      → In b bl br l
      → Once l
      → b ≢ root l
      → IsAt s a l
      → Linked s x l
      → IsAt u (root l) (skew_heap_remove less l b)
      → IsAt u a (skew_heap_remove less l b) × Linked u x (skew_heap_remove less l b)
  deeper x a nil i once n h k v = absurd (In-nil b bl br i)
  deeper x a (node c cl cr) i once n h k v =
      let e = remove-below less c cl cr b (λ e. n (sym e)) in
      let w = subst (λ t. IsAt u c t) e v in
      subst (λ t. IsAt u a t × Linked u x t) (sym e)
        ((h.0, w.1, w.2, w.3), cut.parent c (In-root_outside b bl br (node c cl cr) i once n) ∙ k)

  pub left_other : (l : Heap) (a : ℕ) → IsAt s a l → 0 < b → count b l ≡ 0 → a ≢ b
  left_other l a h pos none e =
      let z : root l ≡ b = sym (IsAt-root s a l h) ∙ e in
      omega (arith, none, subst (λ y. 0 < count y l) z (root-count l (omega (arith, z, pos))))

  pub here_son :
      (x : ℕ) (l : Heap)
      → In b bl br l
      → Once l
      → b ≡ root l
      → s.parent b ≡ x
      → IsAt u (root (skew_heap_merge less bl br)) (skew_heap_remove less l b)
        × Linked u x (skew_heap_remove less l b)
  here_son x l i once e px =
      rw (In-root b bl br less l i once e)
        (cut.at, subst (λ q. Linked u q (skew_heap_merge less bl br)) px cut.linked)
