-- ===== src/SkewHeap.antt =====
-- Lab8/code/libs/skew_heap.h: skew heaps. SkewHeap.Entries has the operations on the pointers of the
-- entries. Here are their abstract counterparts, on the tree that the pointers make, with numbers
-- for the addresses of the entries. `less a b` is `comp(a, b) == -1`, the only test of the comparison.
pub mod Counts
pub mod Order
pub mod Multiset
pub mod Entries
pub mod Shape
pub mod Plant
pub mod Merge
pub mod Inside
pub mod Cut
pub mod Place
pub mod Remove
pub mod Ends
pub mod Refines
mod Tests
use nku_os_lab.Base.{ℕ, Bool, ◌==◌, if◌then◌else◌}

pub data Heap : Type 0 where
  nil : Heap
  node : ℕ → Heap → Heap → Heap

-- The merge of the heap of `x` with another; `merge_right` is the merge with its right son.
unfoldable pub merge_into : (ℕ → ℕ → Bool) → ℕ → Heap → Heap → (Heap → Heap) → Heap → Heap
merge_into less x xl xr merge_right nil = node x xl xr
merge_into less x xl xr merge_right (node y yl yr) =
    let rest = merge_into less x xl xr merge_right yr in
    if less x y then node x (merge_right (node y yl yr)) xl else node y rest yl

unfoldable pub skew_heap_merge : (ℕ → ℕ → Bool) → Heap → Heap → Heap
unfolding merge_into
skew_heap_merge less nil b = b
skew_heap_merge less (node x xl xr) b = merge_into less x xl xr (skew_heap_merge less xr) b

unfoldable pub skew_heap_insert : (ℕ → ℕ → Bool) → Heap → ℕ → Heap
unfolding skew_heap_merge
skew_heap_insert less a b = skew_heap_merge less a (node b nil nil)

-- The merge of the two sons of the entry takes its place.
unfoldable pub skew_heap_remove : (ℕ → ℕ → Bool) → Heap → ℕ → Heap
unfolding skew_heap_merge
skew_heap_remove less nil b = nil
skew_heap_remove less (node x l r) b =
    let inside = node x (skew_heap_remove less l b) (skew_heap_remove less r b) in
    if x == b then skew_heap_merge less l r else inside
