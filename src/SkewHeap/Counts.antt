-- ===== src/SkewHeap/Counts.antt =====
-- How often an entry stands in a heap.
use nku_os_lab.Base.{
  ℕ, suc, ◌+◌, ◌≡◌, ◌≢◌, refl, Bool, ◌==◌, if◌then◌else◌, arith, Bool-cases, inl, inr, ℕ_discrete,
  ==_iff, ==_of_ne, ==_refl, subst,
}
use nku_os_lab.SkewHeap.{
  Heap, nil, node, merge_into, skew_heap_merge, skew_heap_insert, skew_heap_remove,
}

-- One if the entries are the same.
abbrev pub one_if : ℕ → ℕ → ℕ
one_if x p = if x == p then 1 else 0

pub one_if_ne : (x p : ℕ) → x ≢ p → one_if x p ≡ 0
one_if_ne x p n = rw (==_of_ne x p n) refl

pub one_if_self : (x : ℕ) → one_if x x ≡ 1
one_if_self x = rw (==_refl x) refl

unfoldable pub count : ℕ → Heap → ℕ
count p nil = 0
count p (node x l r) = one_if x p + count p l + count p r

merge_into-count :
    (less : ℕ → ℕ → Bool) (p x : ℕ) (xl xr : Heap) (merge_right : Heap → Heap) (b : Heap)
    → ((t : Heap) → count p (merge_right t) ≡ count p xr + count p t)
    → count p (merge_into less x xl xr merge_right b) ≡ count p (node x xl xr) + count p b
unfolding merge_into count
merge_into-count less p x xl xr f nil h = omega arith
merge_into-count less p x xl xr f (node y yl yr) h = elim (Bool-cases (less x y)) [
  | inl e ↦ rw e (omega (arith, h (node y yl yr)))
  | inr e ↦ rw e (omega (arith, merge_into-count less p x xl xr f yr h))
]

pub merge-count :
    (less : ℕ → ℕ → Bool) (p : ℕ) (a b : Heap)
    → count p (skew_heap_merge less a b) ≡ count p a + count p b
unfolding skew_heap_merge count
merge-count less p nil b = omega arith
merge-count less p (node x xl xr) b =
    merge_into-count less p x xl xr (skew_heap_merge less xr) b (λ t. merge-count less p xr t)

pub insert-count :
    (less : ℕ → ℕ → Bool) (p : ℕ) (a : Heap) (b : ℕ)
    → count p (skew_heap_insert less a b) ≡ count p a + one_if b p
unfolding skew_heap_insert count
insert-count less p a b = omega (arith, merge-count less p a (node b nil nil))

-- An entry that is not there: nothing is removed.
pub remove-absent :
    (less : ℕ → ℕ → Bool) (a : Heap) (b : ℕ) → count b a ≡ 0 → skew_heap_remove less a b ≡ a
unfolding skew_heap_remove count
remove-absent less nil b h = refl
remove-absent less (node x l r) b h =
    ground (
      arith,
      h,
      remove-absent less l b (omega (arith, h)),
      remove-absent less r b (omega (arith, h)),
    )

-- An entry that stands in the heap once is removed, and no other.
pub remove-count :
    (less : ℕ → ℕ → Bool) (p : ℕ) (a : Heap) (b : ℕ)
    → count b a ≡ 1
    → count p (skew_heap_remove less a b) + one_if b p ≡ count p a
unfolding skew_heap_remove count
remove-count less p nil b h = absurd (omega (arith, h))
remove-count less p (node x l r) b h = elim (ℕ_discrete x b) [
  | yes e ↦ rw ((==_iff x b).1 e) (
      subst
        (λ y. count p (skew_heap_merge less l r) + one_if y p ≡ one_if x p + count p l + count p r)
        e (omega (arith, merge-count less p l r)))
  | no n ↦ rw (==_of_ne x b n) (elim (ℕ_discrete (count b l) 1) [
    | yes k ↦
        rw (remove-absent less r b (omega (arith, h, k))) (omega (arith, remove-count less p l b k))
    | no k ↦
        let z : count b l ≡ 0 = omega (arith, h, k) in
        let one : count b r ≡ 1 = ground (arith, h, z, n) in
        rw (remove-absent less l b z) (omega (arith, remove-count less p r b one))
  ])
]

unfoldable pub size : Heap → ℕ
size nil = 0
size (node x l r) = suc (size l + size r)

merge_into-size :
    (less : ℕ → ℕ → Bool) (x : ℕ) (xl xr : Heap) (merge_right : Heap → Heap) (b : Heap)
    → ((t : Heap) → size (merge_right t) ≡ size xr + size t)
    → size (merge_into less x xl xr merge_right b) ≡ size (node x xl xr) + size b
unfolding merge_into size
merge_into-size less x xl xr f nil h = omega arith
merge_into-size less x xl xr f (node y yl yr) h = elim (Bool-cases (less x y)) [
  | inl e ↦ rw e (omega (arith, h (node y yl yr)))
  | inr e ↦ rw e (omega (arith, merge_into-size less x xl xr f yr h))
]

pub merge-size :
    (less : ℕ → ℕ → Bool) (a b : Heap) → size (skew_heap_merge less a b) ≡ size a + size b
unfolding skew_heap_merge size
merge-size less nil b = omega arith
merge-size less (node x xl xr) b =
    merge_into-size less x xl xr (skew_heap_merge less xr) b (λ t. merge-size less xr t)
