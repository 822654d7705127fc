-- ===== src/SkewHeap/Multiset.antt =====
-- Merging, inserting and removing, as operations on a multiset of entries that is kept in order.
use nku_os_lab.Base.{ℕ, ◌+◌, ◌≡◌, Bool, ltb}
use nku_os_lab.SkewHeap.{Heap, skew_heap_merge, skew_heap_insert, skew_heap_remove}
use nku_os_lab.SkewHeap.Counts.{count, one_if, merge-count, insert-count, remove-count}
use nku_os_lab.SkewHeap.Order.{IsHeap, Each, Each-count, merge-IsHeap, insert-IsHeap, remove-IsHeap}

-- A heap in order that holds each entry as often as said.
pub record Holds (key : ℕ → ℕ) (often : ℕ → ℕ) (a : Heap) : Type 0 where
  pub ordered : IsHeap key a
  pub counts : (p : ℕ) → count p a ≡ often p

module _ (less : ℕ → ℕ → Bool) (key : ℕ → ℕ)
    (agrees : (a b : ℕ) → less a b ≡ ltb (key a) (key b)) where
  anywhere : (a : Heap) → Each (λ x. Unit) a
  anywhere a = Each-count (λ x. Unit) a (λ x h. tt)

  -- The three operations keep the order of the heap. A merge holds the entries of both heaps, an
  -- insertion one entry more; the removal of an entry that is there once, at the root or below it,
  -- takes out that entry and no other.
  pub skew_heap_operations :
      (a b : Heap) (x : ℕ)
      → IsHeap key a
      → IsHeap key b
      → Holds key (λ p. count p a + count p b) (skew_heap_merge less a b)
        × Holds key (λ p. count p a + one_if x p) (skew_heap_insert less a x)
        × (count x a ≡ 1
            → IsHeap key (skew_heap_remove less a x)
              × ((p : ℕ) → count p (skew_heap_remove less a x) + one_if x p ≡ count p a))
  skew_heap_operations a b x h k =
      let ok_keys = λ (a b : ℕ) (p q : Unit). agrees a b in
      (
        record {
          ordered = merge-IsHeap less key (λ x. Unit) ok_keys a b (anywhere a) (anywhere b) h k;
          counts = λ p. merge-count less p a b;
        },
        record {
          ordered = insert-IsHeap less key (λ x. Unit) ok_keys a x (anywhere a) tt h;
          counts = λ p. insert-count less p a x;
        },
        λ once. (
          remove-IsHeap less key (λ x. Unit) ok_keys a x (anywhere a) h,
          λ p. remove-count less p a x once,
        ),
      )
