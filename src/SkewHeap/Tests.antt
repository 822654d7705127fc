-- ===== src/SkewHeap/Tests.antt =====
-- Two heaps of numbers, each its own key, as trees and as linked entries.
use nku_os_lab.Base.{ℕ, ◌+◌, ◌-◌, ◌≤◌, ◌≡◌, refl, ltb, arith, ◌==◌, if◌then◌else◌}
use nku_os_lab.SkewHeap.{Heap, nil, node, skew_heap_merge}
use nku_os_lab.SkewHeap.Counts.{count, one_if, size}
use nku_os_lab.SkewHeap.Order.{IsHeap}
use nku_os_lab.SkewHeap.Entries.{Entries, merge_entries, insert_entry, remove_entry}
use nku_os_lab.SkewHeap.Ends.{Stands, Ends}
use nku_os_lab.SkewHeap.Refines.{skew_heap_refines}

abbrev itself : ℕ → ℕ
itself x = x

abbrev low : Heap
low = node 3 (node 8 nil nil) (node 5 nil nil)

abbrev high : Heap
high = node 4 nil (node 9 nil nil)

low-IsHeap : IsHeap itself low
low-IsHeap =
    ((omega arith, tt, tt), (omega arith, tt, tt), ((tt, tt, (tt, tt)), (tt, tt, (tt, tt))))

high-IsHeap : IsHeap itself high
high-IsHeap = (tt, (omega arith, tt, tt), (tt, (tt, tt, (tt, tt))))

merge_runs :
    skew_heap_merge ltb low high
    ≡ node 3 (node 4 (node 5 (node 9 nil nil) nil) nil) (node 8 nil nil)
unfolding skew_heap_merge
merge_runs = refl

abbrev below_3 : ℕ → ℕ
below_3 x = if x == 8 then 3 else if x == 5 then 3 else if x == 9 then 4 else 0

-- The pointers of both heaps.
abbrev entries : Entries
entries = record {
  parent = below_3;
  left = λ x. if x == 3 then 8 else 0;
  right = λ x. if x == 3 then 5 else if x == 4 then 9 else 0;
}

together : (q : ℕ) → count q low + count q high ≤ 1
unfolding count
together q = ground arith

low-Stands : Stands itself entries low
low-Stands = record {
  at = (
    refl,
    omega arith,
    ((refl, omega arith, (refl, tt), (refl, tt)), refl),
    ((refl, omega arith, (refl, tt), (refl, tt)), refl),
  );
  top = refl;
  once = λ q. omega (arith, together q);
  ordered = low-IsHeap;
}

high-Stands : Stands itself entries high
high-Stands = record {
  at = (refl, omega arith, (refl, tt), ((refl, omega arith, (refl, tt), (refl, tt)), refl));
  top = refl;
  once = λ q. omega (arith, together q);
  ordered = high-IsHeap;
}

-- The entries 3, 8 and 5, and 4 and 9, are merged; 7 is inserted, and 5, a right son, removed.
skew_heap_refines_example :
    Ends itself entries
      (λ q. count q low + count q high)
      (λ q. count q low + count q high)
      (merge_entries ltb 9 3 4 entries)
    × Ends itself entries
        (λ q. count q low + one_if 7 q)
        (λ q. count q low + one_if 7 q)
        (insert_entry ltb 9 3 7 entries)
    × Ends itself entries
        (λ q. count q low)
        (λ q. count q low - one_if 5 q)
        (remove_entry ltb 9 3 5 entries)
unfolding count size
skew_heap_refines_example =
    skew_heap_refines ltb itself (λ a b. refl) entries low high 7 5 9 low-Stands high-Stands
      together (omega arith) refl refl (omega arith)
