-- ===== src/SkewHeap/Refines.antt =====
-- The three operations on linked entries, as operations on a multiset of entries kept in order.
use nku_os_lab.Base.{
  ℕ, suc, ◌+◌, ◌-◌, ◌≤◌, ◌<◌, ◌≡◌, ◌≢◌, refl, sym, ◌∙◌, ap, subst, arith, Bool, ltb, ==_of_ne,
  ℕ_discrete,
}
use nku_os_lab.Base.Outcome.{ok}
use nku_os_lab.SkewHeap.{Heap, skew_heap_merge, skew_heap_remove}
use nku_os_lab.SkewHeap.Counts.{count, one_if, size, merge-count, remove-count}
use nku_os_lab.SkewHeap.Order.{IsHeap}
use nku_os_lab.SkewHeap.Multiset.{skew_heap_operations}
use nku_os_lab.SkewHeap.Entries.{Entries, merge_entries, insert_entry, remove_entry}
use nku_os_lab.SkewHeap.Shape.{root, Linked, IsAt, IsAt-root, Once}
use nku_os_lab.SkewHeap.Plant.{Merged, Linked-root}
use nku_os_lab.SkewHeap.Merge.{merge_entries-Merges}
use nku_os_lab.SkewHeap.Inside.{
  In, inside, find_In, In-count, In-size, In-root, In-root_outside, In-parent, In-parent_outside,
  In-sons, Linked-root_at,
}
use nku_os_lab.SkewHeap.Place.{cut-IsAt}
use nku_os_lab.SkewHeap.Remove.{
  IsAt-positive, raised, raised_parent, raised-IsAt, raised-Linked, replaced, replaced-Cut,
  set_parent-left, set_parent-right,
}
use nku_os_lab.SkewHeap.Ends.{Stands, Ends, merge-Ends, insert-Ends}

module _ (less : ℕ → ℕ → Bool) (key : ℕ → ℕ)
    (agrees : (a b : ℕ) → less a b ≡ ltb (key a) (key b)) where
  -- What the removal from the tree leaves.
  module _ (s : Entries) (t : Heap) (b : ℕ) (h : Stands key s t) (here : count b t ≡ 1) where
    removed-counts : (q : ℕ) → count q (skew_heap_remove less t b) ≡ count q t - one_if b q
    removed-counts q = omega (arith, remove-count less q t b here)

    removed-Once : Once (skew_heap_remove less t b)
    removed-Once q = omega (arith, remove-count less q t b here, h.once q)

    removed-ordered : IsHeap key (skew_heap_remove less t b)
    removed-ordered = ((skew_heap_operations less key agrees t t b h.ordered h.ordered).2 here).0

    module _ (n : ℕ) (bl br : Heap) (j : In b bl br t) (u : Entries)
        (r : merge_entries less n (s.left b) (s.right b) s
          ≡ ok (root (skew_heap_merge less bl br), u))
        (i : Merged s u (λ q. count q bl + count q br) (skew_heap_merge less bl br)) where
      abbrev m : Heap
      m = skew_heap_merge less bl br

      m-counts : (q : ℕ) → count q m ≡ count q bl + count q br
      m-counts q = merge-count less q bl br

      m-Once : Once m
      m-Once q = omega (arith, m-counts q, In-count b bl br t q j, h.once q)

      abbrev up : Entries
      up = raised s u b bl br m i m-counts m-Once

      outside : (q : ℕ) → count q t ≡ 0 → count q bl + count q br ≡ 0
      outside q z = omega (arith, z, In-count b bl br t q j)

      removed_root :
          b ≡ root t
          → Ends key s
              (λ q. count q t)
              (λ q. count q t - one_if b q)
              (remove_entry less n (root t) b s)
      unfolding remove_entry
      removed_root e =
          let p : s.parent b ≡ 0 =
            ap s.parent e
            ∙ Linked-root_at b bl br s 0 t
                (subst (λ y. 0 < y) e (In-sons b bl br s (root t) t j h.at).0) h.top in
          let same = In-root b bl br less t j h.once e in
          record {
            final = up;
            tree = m;
            ends = rw (r, p) refl;
            stands = record {
              at = raised-IsAt s u b bl br m i m-counts m-Once;
              top = subst (λ y. Linked up y m) p (raised-Linked s u b bl br m i m-counts m-Once);
              once = m-Once;
              ordered = subst (IsHeap key) same removed-ordered;
            };
            counts = λ q. sym (ap (count q) same) ∙ removed-counts q;
            untouched = record {
              left = λ q z. set_parent-left (root m) (s.parent b) u q ∙ i.left q (outside q z);
              right = λ q z. set_parent-right (root m) (s.parent b) u q ∙ i.right q (outside q z);
              parent = λ q z. raised_parent s u b bl br m i m-counts m-Once q (outside q z);
            };
          }

      removed_below :
          b ≢ root t
          → Ends key s
              (λ q. count q t)
              (λ q. count q t - one_if b q)
              (remove_entry less n (root t) b s)
      unfolding remove_entry
      removed_below e =
          let inner = In-parent b bl br s (root t) t j h.at e in
          let cut =
            replaced-Cut s u b bl br m i m-counts m-Once
              (In-parent_outside b bl br s (root t) t j h.once h.at e) in
          let v = replaced s u b bl br m i m-counts m-Once in
          let rest = skew_heap_remove less t b in
          let at : IsAt v (root t) rest =
            cut-IsAt less s v b bl br cut (root t) t j h.once h.at e in
          let same : root t ≡ root rest = IsAt-root v (root t) rest at in
          let away : (q : ℕ) → count q t ≡ 0 → q ≢ s.parent b =
            λ q z y. omega (arith, inner, z, ap (λ w. count w t) y) in
          let none : (q : ℕ) → count q t ≡ 0 → inside b bl br q ≡ 0 =
            λ q z. omega (arith, z, In-count b bl br t q j) in
          record {
            final = v;
            tree = rest;
            ends =
                rw
                  (
                    r,
                    ==_of_ne (s.parent b) 0
                        (λ y. omega (arith, y, IsAt-positive s (root t) t (s.parent b) h.at inner)),
                  )
                  (ap (λ y. ok (y, v)) same);
            stands = record {
              at = subst (λ y. IsAt v y rest) same at;
              top =
                  Linked-root v v 0 rest
                    (λ k.
                      ap v.parent (sym same)
                      ∙ (cut.parent (root t) (In-root_outside b bl br t j h.once e)
                          ∙ Linked-root_at b bl br s 0 t (subst (λ y. 0 < y) (sym same) k) h.top))
                    (subst (λ y. IsAt v y rest) same at);
              once = removed-Once;
              ordered = removed-ordered;
            };
            counts = removed-counts;
            untouched = record {
              left = λ q z. cut.left q (away q z) (none q z);
              right = λ q z. cut.right q (away q z) (none q z);
              parent = λ q z. cut.parent q (none q z);
            };
          }

  remove-Ends :
      (s : Entries) (t : Heap) (b n : ℕ)
      → Stands key s t
      → count b t ≡ 1
      → size t ≤ n
      → Ends key s (λ q. count q t) (λ q. count q t - one_if b q) (remove_entry less n (root t) b s)
  remove-Ends s t b n h here l =
      let (bl, br, j) = find_In b t (omega (arith, here)) in
      let sons = In-sons b bl br s (root t) t j h.at in
      let (u, r, i) =
        merge_entries-Merges less n (s.left b) (s.right b) s bl br sons.1.0 sons.2.0
          (λ q. omega (arith, In-count b bl br t q j, h.once q))
          (omega (arith, In-size b bl br t j, l)) in
      elim (ℕ_discrete b (root t)) [
        | yes e ↦ removed_root s t b h here n bl br j u r i e
        | no e ↦ removed_below s t b h here n bl br j u r i e
      ]

  -- On the pointers of the entries, with the parents: for heaps in order whose entries are linked
  -- as their trees, with no parent at the root, and with fuel for their sizes, each operation ends
  -- with the root of such a heap. A merge of two heaps without a common entry holds the entries of
  -- both, an insertion of an entry that is not there holds it too, and a removal of an entry that
  -- is there, at the root or below it, holds all the others. Entries outside the heaps keep their
  -- pointers.
  pub skew_heap_refines :
      (s : Entries) (t v : Heap) (x b n : ℕ)
      → Stands key s t
      → Stands key s v
      → ((q : ℕ) → count q t + count q v ≤ 1)
      → 0 < x
      → count x t ≡ 0
      → count b t ≡ 1
      → suc (size t + size v) < n
      → Ends key s
          (λ q. count q t + count q v)
          (λ q. count q t + count q v)
          (merge_entries less n (root t) (root v) s)
        × Ends key s
            (λ q. count q t + one_if x q)
            (λ q. count q t + one_if x q)
            (insert_entry less n (root t) x s)
        × Ends key s
            (λ q. count q t)
            (λ q. count q t - one_if b q)
            (remove_entry less n (root t) b s)
  skew_heap_refines s t v x b n h k once pos new one l = (
    merge-Ends less key agrees s t v n h k once (omega (arith, l)),
    insert-Ends less key agrees s t x n h pos new (omega (arith, l)),
    remove-Ends s t b n h one (omega (arith, l)),
  )
