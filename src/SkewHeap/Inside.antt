-- ===== src/SkewHeap/Inside.antt =====
-- Where an entry stands in a tree.
use nku_os_lab.Base.{
  ℕ, ◌+◌, ◌≤◌, ◌<◌, ◌≡◌, ◌≢◌, refl, sym, ◌∙◌, ap, subst, arith, Bool, ==_refl, ℕ_discrete, dec_lt,
}
use nku_os_lab.SkewHeap.{Heap, nil, node, skew_heap_merge, skew_heap_remove}
use nku_os_lab.SkewHeap.Counts.{count, one_if, one_if_self, one_if_ne, size}
use nku_os_lab.SkewHeap.Entries.{Entries}
use nku_os_lab.SkewHeap.Shape.{root, Linked, IsAt, Once, below_ne}

-- The entry stands in the tree, with the two sons.
pub data In (b : ℕ) (bl br : Heap) : Heap → Type 0 where
  here : In b bl br (node b bl br)
  in_left : {x : ℕ} {l r : Heap} → In b bl br l → In b bl br (node x l r)
  in_right : {x : ℕ} {l r : Heap} → In b bl br r → In b bl br (node x l r)

-- How often an entry is the one, or stands below it.
abbrev pub inside : ℕ → Heap → Heap → ℕ → ℕ
inside b bl br q = one_if b q + (count q bl + count q br)

pub find_In : (b : ℕ) (t : Heap) → 0 < count b t → (bl : Heap) × (br : Heap) × In b bl br t
unfolding count
find_In b nil h = absurd (omega (arith, h))
find_In b (node x l r) h = elim (ℕ_discrete x b) [
  | yes e ↦ (l, r, subst (λ y. In b l r (node y l r)) (sym e) here)
  | no n ↦ elim (dec_lt 0 (count b l)) [
    | yes i ↦ let (bl, br, j) = find_In b l i in (bl, br, in_left j)
    | no i ↦
        let (bl, br, j) = find_In b r (omega (arith, h, i, one_if_ne x b n)) in (bl, br, in_right j)
  ]
]

module _ (b : ℕ) (bl br : Heap) where
  pub In-count : (t : Heap) (q : ℕ) → In b bl br t → inside b bl br q ≤ count q t
  unfolding count
  In-count _ q here = omega arith
  In-count _ q (in_left {l = l} i) = omega (arith, In-count l q i)
  In-count _ q (in_right {r = r} i) = omega (arith, In-count r q i)

  pub In-size : (t : Heap) → In b bl br t → size bl + size br < size t
  unfolding size
  In-size _ here = omega arith
  In-size _ (in_left {l = l} i) = omega (arith, In-size l i)
  In-size _ (in_right {r = r} i) = omega (arith, In-size r i)

  pub In-here : (t : Heap) → In b bl br t → 0 < count b t
  In-here t i = omega (arith, In-count t b i, one_if_self b)

  -- The sons of the entry, as its pointers give them.
  pub In-sons :
      (s : Entries) (a : ℕ) (t : Heap)
      → In b bl br t
      → IsAt s a t
      → (0 < b) × (IsAt s (s.left b) bl × Linked s b bl) × (IsAt s (s.right b) br × Linked s b br)
  In-sons s a _ here h = (h.1, h.2, h.3)
  In-sons s a _ (in_left {x = x} {l = l} i) h = In-sons s (s.left x) l i h.2.0
  In-sons s a _ (in_right {x = x} {r = r} i) h = In-sons s (s.right x) r i h.3.0

  -- The root of the tree is not the entry: it does not stand below it.
  pub In-root_outside :
      (t : Heap) → In b bl br t → Once t → b ≢ root t → inside b bl br (root t) ≡ 0
  unfolding count
  In-root_outside _ here once n = absurd (n refl)
  In-root_outside _ (in_left {x = x} {l = l} {r = r} i) once n =
      omega (arith, In-count l x i, once x, one_if_self x)
  In-root_outside _ (in_right {x = x} {l = l} {r = r} i) once n =
      omega (arith, In-count r x i, once x, one_if_self x)

  -- The root of the tree is the entry: removing it is merging its sons.
  pub In-root :
      (less : ℕ → ℕ → Bool) (t : Heap)
      → In b bl br t
      → Once t
      → b ≡ root t
      → skew_heap_remove less t b ≡ skew_heap_merge less bl br
  unfolding skew_heap_remove count
  In-root less _ here once e = rw (==_refl b) refl
  In-root less _ (in_left {x = x} {l = l} {r = r} i) once e =
      absurd (below_ne x b l r once (omega (arith, In-here l i)) e)
  In-root less _ (in_right {x = x} {l = l} {r = r} i) once e =
      absurd (below_ne x b l r once (omega (arith, In-here r i)) e)

  pub Linked-root_at :
      (s : Entries) (x : ℕ) (t : Heap) → 0 < root t → Linked s x t → s.parent (root t) ≡ x
  Linked-root_at s x nil h k = absurd (omega (arith, h))
  Linked-root_at s x (node y l r) h k = k

  -- The parent of an entry below the root stands in the tree.
  pub In-parent :
      (s : Entries) (a : ℕ) (t : Heap)
      → In b bl br t
      → IsAt s a t
      → b ≢ root t
      → 0 < count (s.parent b) t
  unfolding count
  In-parent s a _ here h n = absurd (n refl)
  In-parent s a _ (in_left {x = x} {l = l} {r = r} i) h n = elim (ℕ_discrete b (root l)) [
    | yes e ↦
        let px : s.parent b ≡ x =
          ap s.parent e
          ∙ Linked-root_at s x l (subst (λ y. 0 < y) e (In-sons s (s.left x) l i h.2.0).0) h.2.1 in
        omega (arith, subst (λ y. one_if x y ≡ 1) (sym px) (one_if_self x))
    | no m ↦ omega (arith, In-parent s (s.left x) l i h.2.0 m)
  ]
  In-parent s a _ (in_right {x = x} {l = l} {r = r} i) h n = elim (ℕ_discrete b (root r)) [
    | yes e ↦
        let px : s.parent b ≡ x =
          ap s.parent e
          ∙ Linked-root_at s x r (subst (λ y. 0 < y) e (In-sons s (s.right x) r i h.3.0).0) h.3.1 in
        omega (arith, subst (λ y. one_if x y ≡ 1) (sym px) (one_if_self x))
    | no m ↦ omega (arith, In-parent s (s.right x) r i h.3.0 m)
  ]

  -- That parent is neither the entry nor below it.
  pub In-parent_outside :
      (s : Entries) (a : ℕ) (t : Heap)
      → In b bl br t
      → Once t
      → IsAt s a t
      → b ≢ root t
      → inside b bl br (s.parent b) ≡ 0
  unfolding count
  In-parent_outside s a _ here once h n = absurd (n refl)
  In-parent_outside s a _ (in_left {x = x} {l = l} {r = r} i) once h n =
      elim (ℕ_discrete b (root l)) [
        | yes e ↦
            let px : s.parent b ≡ x =
              ap s.parent e
              ∙ Linked-root_at s x l (subst (λ y. 0 < y) e (In-sons s (s.left x) l i h.2.0).0)
                  h.2.1 in
            subst (λ y. inside b bl br y ≡ 0) (sym px)
              (omega (arith, once x, one_if_self x, In-count l x i))
        | no m ↦ In-parent_outside s (s.left x) l i (λ q. omega (arith, once q)) h.2.0 m
      ]
  In-parent_outside s a _ (in_right {x = x} {l = l} {r = r} i) once h n =
      elim (ℕ_discrete b (root r)) [
        | yes e ↦
            let px : s.parent b ≡ x =
              ap s.parent e
              ∙ Linked-root_at s x r (subst (λ y. 0 < y) e (In-sons s (s.right x) r i h.3.0).0)
                  h.3.1 in
            subst (λ y. inside b bl br y ≡ 0) (sym px)
              (omega (arith, once x, one_if_self x, In-count r x i))
        | no m ↦ In-parent_outside s (s.right x) r i (λ q. omega (arith, once q)) h.3.0 m
      ]
