-- ===== src/SkewHeap/Order.antt =====
-- The order of a heap: no entry stands above one with a smaller key.
use nku_os_lab.Base.{
  ℕ, ◌≤◌, ◌<◌, ◌≡◌, sym, ◌∙◌, Bool, false, ltb, ◌==◌, arith, Bool-cases, inl, inr, ltb→lt,
  ℕ_discrete, dec_lt, subst,
}
use nku_os_lab.SkewHeap.Counts.{count, one_if_self, one_if_ne}
use nku_os_lab.SkewHeap.{
  Heap, nil, node, merge_into, skew_heap_merge, skew_heap_insert, skew_heap_remove,
}

-- What holds of every entry.
abbrev pub Each : (ℕ → Type 0) → Heap → Type 0
Each P nil = Unit
Each P (node x l r) = P x × Each P l × Each P r

abbrev pub IsHeap : (ℕ → ℕ) → Heap → Type 0
IsHeap key nil = Unit
IsHeap key (node x l r) =
    Each (λ y. key x ≤ key y) l × Each (λ y. key x ≤ key y) r × (IsHeap key l × IsHeap key r)

pub Each-mono : (P Q : ℕ → Type 0) (a : Heap) → ((x : ℕ) → P x → Q x) → Each P a → Each Q a
Each-mono P Q nil f h = tt
Each-mono P Q (node x l r) f h = (f x h.0, Each-mono P Q l f h.1, Each-mono P Q r f h.2)

-- What holds of every entry that occurs, and back.
pub Each-count : (P : ℕ → Type 0) (a : Heap) → ((x : ℕ) → 0 < count x a → P x) → Each P a
unfolding count
Each-count P nil h = tt
Each-count P (node x l r) h = (
  h x (omega (arith, one_if_self x)),
  Each-count P l (λ y k. h y (omega (arith, k))),
  Each-count P r (λ y k. h y (omega (arith, k))),
)

pub count-Each : (P : ℕ → Type 0) (a : Heap) → Each P a → (x : ℕ) → 0 < count x a → P x
unfolding count
count-Each P nil h x k = absurd (omega (arith, k))
count-Each P (node y l r) h x k = elim (ℕ_discrete y x) [
  | yes e ↦ subst P e h.0
  | no n ↦ elim (dec_lt 0 (count x l)) [
    | yes i ↦ count-Each P l h.1 x i
    | no i ↦ count-Each P r h.2 x (omega (arith, k, i, one_if_ne y x n))
  ]
]

module _ (less : ℕ → ℕ → Bool) (P : ℕ → Type 0) where
  merge_into-Each :
      (x : ℕ) (xl xr : Heap) (f : Heap → Heap) (b : Heap)
      → ((t : Heap) → Each P t → Each P (f t))
      → Each P (node x xl xr)
      → Each P b
      → Each P (merge_into less x xl xr f b)
  unfolding merge_into
  merge_into-Each x xl xr f nil h a b = a
  merge_into-Each x xl xr f (node y yl yr) h a b = elim (Bool-cases (less x y)) [
    | inl e ↦ rw e (a.0, h (node y yl yr) b, a.1)
    | inr e ↦ rw e (b.0, merge_into-Each x xl xr f yr h a b.2, b.1)
  ]

  pub merge-Each : (a b : Heap) → Each P a → Each P b → Each P (skew_heap_merge less a b)
  unfolding skew_heap_merge
  merge-Each nil b h k = k
  merge-Each (node x xl xr) b h k =
      merge_into-Each x xl xr (skew_heap_merge less xr) b (λ t q. merge-Each xr t h.2 q) h k

  pub remove-Each : (a : Heap) (b : ℕ) → Each P a → Each P (skew_heap_remove less a b)
  unfolding skew_heap_remove
  remove-Each nil b h = tt
  remove-Each (node x l r) b h = elim (Bool-cases (x == b)) [
    | inl e ↦ rw e (merge-Each l r h.1 h.2)
    | inr e ↦ rw e (h.0, remove-Each l b h.1, remove-Each r b h.2)
  ]

module _ (less : ℕ → ℕ → Bool) (key : ℕ → ℕ) (P : ℕ → Type 0)
    (agrees : (a b : ℕ) → P a → P b → less a b ≡ ltb (key a) (key b)) where
  least_over :
      (x y : ℕ) (a : Heap)
      → key x ≤ key y
      → Each (λ z. key y ≤ key z) a
      → Each (λ z. key x ≤ key z) a
  least_over x y a l h =
      Each-mono (λ z. key y ≤ key z) (λ z. key x ≤ key z) a (λ z k. omega (arith, l, k)) h

  merge_into-IsHeap :
      (x : ℕ) (xl xr b : Heap)
      → ((t : Heap) → Each P t → IsHeap key t → IsHeap key (skew_heap_merge less xr t))
      → Each P (node x xl xr)
      → Each P b
      → IsHeap key (node x xl xr)
      → IsHeap key b
      → IsHeap key (merge_into less x xl xr (skew_heap_merge less xr) b)
  unfolding merge_into
  merge_into-IsHeap x xl xr nil f p q a b = a
  merge_into-IsHeap x xl xr (node y yl yr) f p q a b = elim (Bool-cases (less x y)) [
    | inl e ↦
        let l : key x ≤ key y =
          omega (arith, ltb→lt (key x) (key y) (sym (agrees x y p.0 q.0) ∙ e)) in
        rw e (
          merge-Each less (λ z. key x ≤ key z) xr (node y yl yr) a.1
              (l, least_over x y yl l b.0, least_over x y yr l b.1),
          a.0,
          (f (node y yl yr) q b, a.2.0),
        )
    | inr e ↦
        let l : key y ≤ key x = not_less x y (sym (agrees x y p.0 q.0) ∙ e) in
        rw e (
          merge_into-Each less (λ z. key y ≤ key z) x xl xr (skew_heap_merge less xr) yr
              (λ t h. merge-Each less (λ z. key y ≤ key z) xr t (least_over y x xr l a.1) h)
              (l, least_over y x xl l a.0, least_over y x xr l a.1) b.1,
          b.0,
          (merge_into-IsHeap x xl xr yr f p q.2 a b.2.1, b.2.0),
        )
  ]
    where
      not_less : (x y : ℕ) → ltb (key x) (key y) ≡ false → key y ≤ key x
      not_less x y h = ground (arith, h)

  pub merge-IsHeap :
      (a b : Heap)
      → Each P a
      → Each P b
      → IsHeap key a
      → IsHeap key b
      → IsHeap key (skew_heap_merge less a b)
  unfolding skew_heap_merge
  merge-IsHeap nil b p q h k = k
  merge-IsHeap (node x xl xr) b p q h k =
      merge_into-IsHeap x xl xr b (λ t r m. merge-IsHeap xr t p.2 r h.2.1 m) p q h k

  pub insert-IsHeap :
      (a : Heap) (b : ℕ) → Each P a → P b → IsHeap key a → IsHeap key (skew_heap_insert less a b)
  unfolding skew_heap_insert
  insert-IsHeap a b p q h = merge-IsHeap a (node b nil nil) p (q, tt, tt) h (tt, tt, (tt, tt))

  pub remove-IsHeap :
      (a : Heap) (b : ℕ) → Each P a → IsHeap key a → IsHeap key (skew_heap_remove less a b)
  unfolding skew_heap_remove
  remove-IsHeap nil b p h = tt
  remove-IsHeap (node x l r) b p h = elim (Bool-cases (x == b)) [
    | inl e ↦ rw e (merge-IsHeap l r p.1 p.2 h.2.0 h.2.1)
    | inr e ↦ rw e (
      remove-Each less (λ y. key x ≤ key y) l b h.0,
      remove-Each less (λ y. key x ≤ key y) r b h.1,
      (remove-IsHeap l b p.1 h.2.0, remove-IsHeap r b p.2 h.2.1),
    )
  ]
