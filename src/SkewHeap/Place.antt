-- ===== src/SkewHeap/Place.antt =====
-- The tree in which an entry gave its place to the merge of its sons.
use nku_os_lab.Base.{ℕ, ◌<◌, ◌≡◌, ◌≢◌, refl, sym, ◌∙◌, ap, subst, arith, Bool, ℕ_discrete}
use nku_os_lab.SkewHeap.{Heap, node, skew_heap_merge, skew_heap_remove}
use nku_os_lab.SkewHeap.Counts.{count, one_if_self, remove-absent}
use nku_os_lab.SkewHeap.Entries.{Entries}
use nku_os_lab.SkewHeap.Shape.{root, IsAt, IsAt-root, Once, below_ne}
use nku_os_lab.SkewHeap.Inside.{
  In, here, in_left, in_right, inside, In-count, In-here, In-parent, In-sons, Linked-root_at,
}
use nku_os_lab.SkewHeap.Cut.{Cut, aside, deeper, left_other, here_son, remove-below}

module _ (less : ℕ → ℕ → Bool) (s u : Entries) (b : ℕ) (bl br : Heap)
    (cut : Cut s u b bl br (skew_heap_merge less bl br)) where
  left_here :
      (a x : ℕ) (l r : Heap)
      → Once (node x l r)
      → IsAt s a (node x l r)
      → In b bl br l
      → b ≡ root l
      → IsAt u a (node x (skew_heap_remove less l b) r)
  unfolding count
  left_here a x l r once h i e =
      let once_l : Once l = λ q. omega (arith, once q) in
      let once_r : Once r = λ q. omega (arith, once q) in
      let px : s.parent b ≡ x =
        ap s.parent e
        ∙ Linked-root_at b bl br s x l
            (subst (λ y. 0 < y) e (In-sons b bl br s (s.left x) l i h.2.0).0) h.2.1 in
      let hit : s.left (s.parent b) ≡ b = ap s.left px ∙ (IsAt-root s (s.left x) l h.2.0 ∙ sym e) in
      let son = here_son less s u b bl br cut x l i once_l e px in
      let out : (q : ℕ) → 0 < count q r → (q ≢ s.parent b) × (inside b bl br q ≡ 0) = λ q k. (
        λ (z : q ≡ s.parent b). below_ne x q l r once (omega (arith, k)) (z ∙ px),
        omega (arith, once q, In-count b bl br l q i, k),
      ) in
      let rest = aside less s u b bl br cut x (s.right x) r once_r out h.3.0 h.3.1 in
      (
        h.0,
        h.1,
        (
          subst (λ q. IsAt u q (skew_heap_remove less l b))
              (sym (ap u.left (sym px) ∙ (cut.on_left hit).0)) son.0,
          son.1,
        ),
        (
          subst (λ q. IsAt u q r) (sym (ap u.right (sym px) ∙ (cut.on_left hit).1 ∙ ap s.right px))
              rest.0,
          rest.1,
        ),
      )

  left_below :
      (a x : ℕ) (l r : Heap)
      → Once (node x l r)
      → IsAt s a (node x l r)
      → In b bl br l
      → b ≢ root l
      → IsAt u (s.left x) (skew_heap_remove less l b)
      → IsAt u a (node x (skew_heap_remove less l b) r)
  unfolding count
  left_below a x l r once h i m v =
      let once_l : Once l = λ q. omega (arith, once q) in
      let once_r : Once r = λ q. omega (arith, once q) in
      let inner = In-parent b bl br s (s.left x) l i h.2.0 m in
      let not_p : x ≢ s.parent b =
        λ z. below_ne x (s.parent b) l r once (omega (arith, inner)) (sym z) in
      let zero_x : inside b bl br x ≡ 0 =
        omega (arith, once x, one_if_self x, In-count b bl br l x i) in
      let out : (q : ℕ) → 0 < count q r → (q ≢ s.parent b) × (inside b bl br q ≡ 0) = λ q k. (
        λ (z : q ≡ s.parent b).
            omega (arith, once (s.parent b), inner, subst (λ y. 0 < count y r) z k),
        omega (arith, once q, In-count b bl br l q i, k),
      ) in
      let rest = aside less s u b bl br cut x (s.right x) r once_r out h.3.0 h.3.1 in
      let son =
        deeper less s u b bl br cut x (s.left x) l i once_l m h.2.0 h.2.1
          (subst (λ q. IsAt u q (skew_heap_remove less l b)) (IsAt-root s (s.left x) l h.2.0) v) in
      (
        h.0,
        h.1,
        (
          subst (λ q. IsAt u q (skew_heap_remove less l b)) (sym (cut.left x not_p zero_x)) son.0,
          son.1,
        ),
        (subst (λ q. IsAt u q r) (sym (cut.right x not_p zero_x)) rest.0, rest.1),
      )

  right_here :
      (a x : ℕ) (l r : Heap)
      → Once (node x l r)
      → IsAt s a (node x l r)
      → In b bl br r
      → b ≡ root r
      → count b l ≡ 0
      → IsAt u a (node x l (skew_heap_remove less r b))
  unfolding count
  right_here a x l r once h i e empty =
      let once_l : Once l = λ q. omega (arith, once q) in
      let once_r : Once r = λ q. omega (arith, once q) in
      let px : s.parent b ≡ x =
        ap s.parent e
        ∙ Linked-root_at b bl br s x r
            (subst (λ y. 0 < y) e (In-sons b bl br s (s.right x) r i h.3.0).0) h.3.1 in
      let miss : s.left (s.parent b) ≢ b = λ z.
        left_other less s u b bl br cut l (s.left x) h.2.0
          (In-sons b bl br s (s.right x) r i h.3.0).0 empty (sym (ap s.left px) ∙ z) in
      let son = here_son less s u b bl br cut x r i once_r e px in
      let out : (q : ℕ) → 0 < count q l → (q ≢ s.parent b) × (inside b bl br q ≡ 0) = λ q k. (
        λ (z : q ≡ s.parent b). below_ne x q l r once (omega (arith, k)) (z ∙ px),
        omega (arith, once q, In-count b bl br r q i, k),
      ) in
      let rest = aside less s u b bl br cut x (s.left x) l once_l out h.2.0 h.2.1 in
      (
        h.0,
        h.1,
        (
          subst (λ q. IsAt u q l) (sym (ap u.left (sym px) ∙ (cut.on_right miss).1 ∙ ap s.left px))
              rest.0,
          rest.1,
        ),
        (
          subst (λ q. IsAt u q (skew_heap_remove less r b))
              (sym (ap u.right (sym px) ∙ (cut.on_right miss).0)) son.0,
          son.1,
        ),
      )

  right_below :
      (a x : ℕ) (l r : Heap)
      → Once (node x l r)
      → IsAt s a (node x l r)
      → In b bl br r
      → b ≢ root r
      → IsAt u (s.right x) (skew_heap_remove less r b)
      → IsAt u a (node x l (skew_heap_remove less r b))
  unfolding count
  right_below a x l r once h i m v =
      let once_l : Once l = λ q. omega (arith, once q) in
      let once_r : Once r = λ q. omega (arith, once q) in
      let inner = In-parent b bl br s (s.right x) r i h.3.0 m in
      let not_p : x ≢ s.parent b =
        λ z. below_ne x (s.parent b) l r once (omega (arith, inner)) (sym z) in
      let zero_x : inside b bl br x ≡ 0 =
        omega (arith, once x, one_if_self x, In-count b bl br r x i) in
      let out : (q : ℕ) → 0 < count q l → (q ≢ s.parent b) × (inside b bl br q ≡ 0) = λ q k. (
        λ (z : q ≡ s.parent b).
            omega (arith, once (s.parent b), inner, subst (λ y. 0 < count y l) z k),
        omega (arith, once q, In-count b bl br r q i, k),
      ) in
      let rest = aside less s u b bl br cut x (s.left x) l once_l out h.2.0 h.2.1 in
      let son =
        deeper less s u b bl br cut x (s.right x) r i once_r m h.3.0 h.3.1
          (subst (λ q. IsAt u q (skew_heap_remove less r b)) (IsAt-root s (s.right x) r h.3.0) v) in
      (
        h.0,
        h.1,
        (subst (λ q. IsAt u q l) (sym (cut.left x not_p zero_x)) rest.0, rest.1),
        (
          subst (λ q. IsAt u q (skew_heap_remove less r b)) (sym (cut.right x not_p zero_x)) son.0,
          son.1,
        ),
      )

  -- Where the entry stands below the root, the tree without it hangs on the same pointer.
  pub cut-IsAt :
      (a : ℕ) (t : Heap)
      → In b bl br t
      → Once t
      → IsAt s a t
      → b ≢ root t
      → IsAt u a (skew_heap_remove less t b)
  unfolding count
  cut-IsAt a _ here once h n = absurd (n refl)
  cut-IsAt a _ (in_left {x = x} {l = l} {r = r} i) once h n =
      let empty : count b r ≡ 0 = omega (arith, once b, In-here b bl br l i) in
      subst (λ t. IsAt u a t)
        (sym (
          remove-below less x l r b (λ e. n (sym e))
          ∙ ap (node x (skew_heap_remove less l b)) (remove-absent less r b empty)))
        (elim (ℕ_discrete b (root l)) [
          | yes e ↦ left_here a x l r once h i e
          | no m ↦
              left_below a x l r once h i m
                (cut-IsAt (s.left x) l i (λ q. omega (arith, once q)) h.2.0 m)
        ])
  cut-IsAt a _ (in_right {x = x} {l = l} {r = r} i) once h n =
      let empty : count b l ≡ 0 = omega (arith, once b, In-here b bl br r i) in
      subst (λ t. IsAt u a t)
        (sym (
          remove-below less x l r b (λ e. n (sym e))
          ∙ ap (λ (k : Heap). node x k (skew_heap_remove less r b)) (remove-absent less l b empty)))
        (elim (ℕ_discrete b (root r)) [
          | yes e ↦ right_here a x l r once h i e empty
          | no m ↦
              right_below a x l r once h i m
                (cut-IsAt (s.right x) r i (λ q. omega (arith, once q)) h.3.0 m)
        ])
