-- ===== src/SkewHeap/Shape.antt =====
-- When the pointers of entries make a tree, and what keeps it one.
use nku_os_lab.Base.{ℕ, ◌+◌, ◌≤◌, ◌<◌, ◌≡◌, ◌≢◌, sym, ◌∙◌, subst, arith}
use nku_os_lab.SkewHeap.{Heap, nil, node}
use nku_os_lab.SkewHeap.Counts.{count, one_if, one_if_self}
use nku_os_lab.SkewHeap.Entries.{Entries}

abbrev pub root : Heap → ℕ
root nil = 0
root (node x l r) = x

-- The parent of the root, where there is one.
abbrev pub Linked : Entries → ℕ → Heap → Type 0
Linked s q nil = Unit
Linked s q (node x l r) = s.parent x ≡ q

-- The tree hangs on the pointer; what the parent of its root is does not matter.
abbrev pub IsAt : Entries → ℕ → Heap → Type 0
IsAt s p nil = p ≡ 0
IsAt s p (node x l r) =
    (p ≡ x) × (0 < x) × (IsAt s (s.left x) l × Linked s x l) × (IsAt s (s.right x) r × Linked s x r)

abbrev pub Once : Heap → Type 0
Once t = (p : ℕ) → count p t ≤ 1

pub IsAt-root : (s : Entries) (p : ℕ) (t : Heap) → IsAt s p t → p ≡ root t
IsAt-root s p nil h = h
IsAt-root s p (node x l r) h = h.0

pub root-count : (t : Heap) → 0 < root t → 0 < count (root t) t
unfolding count
root-count nil h = absurd (omega (arith, h))
root-count (node x l r) h = omega (arith, one_if_self x)

-- The pointers of the entries of a tree are the same, but perhaps the parent of its root.
pub record Same (s u : Entries) (t : Heap) : Type 0 where
  pub left : (p : ℕ) → 0 < count p t → u.left p ≡ s.left p
  pub right : (p : ℕ) → 0 < count p t → u.right p ≡ s.right p
  pub parent : (p : ℕ) → 0 < count p t → p ≢ root t → u.parent p ≡ s.parent p

pub below_ne : (x p : ℕ) (l r : Heap) → Once (node x l r) → 0 < count p l + count p r → p ≢ x
unfolding count
below_ne x p l r once h e =
    omega (arith, once p, h, subst (λ y. one_if x y ≡ 1) (sym e) (one_if_self x))

pub son-Linked :
    (s u : Entries) (x : ℕ) (t : Heap)
    → Linked s x t
    → (0 < root t → u.parent (root t) ≡ s.parent (root t))
    → IsAt s (root t) t
    → Linked u x t
son-Linked s u x nil h same i = tt
son-Linked s u x (node y l r) h same i = same i.1 ∙ h

pub Same-IsAt : (s u : Entries) (p : ℕ) (t : Heap) → Once t → Same s u t → IsAt s p t → IsAt u p t
unfolding count
Same-IsAt s u p nil once same h = h
Same-IsAt s u p (node x l r) once same h = (
  h.0,
  h.1,
  (
    subst (λ q. IsAt u q l) (sym (same.left x here))
        (Same-IsAt s u (s.left x) l (λ q. omega (arith, once q)) Same-left h.2.0),
    son-Linked s u x l h.2.1
        (λ k.
          same.parent (root l) (omega (arith, root-count l k))
            (below_ne x (root l) l r once (omega (arith, root-count l k))))
        (subst (λ q. IsAt s q l) (IsAt-root s _ l h.2.0) h.2.0),
  ),
  (
    subst (λ q. IsAt u q r) (sym (same.right x here))
        (Same-IsAt s u (s.right x) r (λ q. omega (arith, once q)) same_right h.3.0),
    son-Linked s u x r h.3.1
        (λ k.
          same.parent (root r) (omega (arith, root-count r k))
            (below_ne x (root r) l r once (omega (arith, root-count r k))))
        (subst (λ q. IsAt s q r) (IsAt-root s _ r h.3.0) h.3.0),
  ),
)
  where
    here : 0 < count x (node x l r)
    here = omega (arith, one_if_self x)

    Same-left : Same s u l
    Same-left = record {
      left = λ q k. same.left q (omega (arith, k));
      right = λ q k. same.right q (omega (arith, k));
      parent = λ q k n. same.parent q (omega (arith, k)) (below_ne x q l r once (omega (arith, k)));
    }

    same_right : Same s u r
    same_right = record {
      left = λ q k. same.left q (omega (arith, k));
      right = λ q k. same.right q (omega (arith, k));
      parent = λ q k n. same.parent q (omega (arith, k)) (below_ne x q l r once (omega (arith, k)));
    }
