-- ===== src/SkewHeap/Ends.antt =====
-- Merging and inserting linked entries.
use nku_os_lab.Base.{
  ℕ, suc, inl, inr, Bool-cases, ◌+◌, ◌≤◌, ◌<◌, ◌≡◌, ◌≢◌, refl, ◌∙◌, ap, subst, arith, Bool, ltb,
  update_self, update_ne, ==_iff, ==_of_ne, ℕ_discrete,
}
use nku_os_lab.Base.Outcome.{Outcome, ok}
use nku_os_lab.SkewHeap.{Heap, nil, node, merge_into, skew_heap_merge}
use nku_os_lab.SkewHeap.Counts.{count, one_if, one_if_self, one_if_ne, size, merge-count}
use nku_os_lab.SkewHeap.Order.{IsHeap}
use nku_os_lab.SkewHeap.Multiset.{skew_heap_operations}
use nku_os_lab.SkewHeap.Entries.{Entries, merge_entries, insert_entry, skew_heap_init}
use nku_os_lab.SkewHeap.Shape.{root, Linked, IsAt, Once, root-count, Same, Same-IsAt, son-Linked}
use nku_os_lab.SkewHeap.Plant.{Linked-root}
use nku_os_lab.SkewHeap.Merge.{merge_entries-Merges}
use nku_os_lab.SkewHeap.Inside.{Linked-root_at}

-- The entries of a heap in order: their pointers make the tree, and its root has no parent.
pub record Stands (key : ℕ → ℕ) (s : Entries) (t : Heap) : Type 0 where
  pub at : IsAt s (root t) t
  pub top : Linked s 0 t
  pub once : Once t
  pub ordered : IsHeap key t

pub record Untouched (s u : Entries) (often : ℕ → ℕ) : Type 0 where
  pub left : (q : ℕ) → often q ≡ 0 → u.left q ≡ s.left q
  pub right : (q : ℕ) → often q ≡ 0 → u.right q ≡ s.right q
  pub parent : (q : ℕ) → often q ≡ 0 → u.parent q ≡ s.parent q

-- The call ends with the root of a heap that holds the entries as often as said; entries outside
-- those that it is about keep their pointers.
pub record Ends (key : ℕ → ℕ) (s : Entries) (about often : ℕ → ℕ) (o : Outcome (ℕ × Entries))
    : Type 0 where
  pub final : Entries
  pub tree : Heap
  pub ends : o ≡ ok (root tree, final)
  pub stands : Stands key final tree
  pub counts : (q : ℕ) → count q tree ≡ often q
  pub untouched : Untouched s final about

module _ (less : ℕ → ℕ → Bool) (key : ℕ → ℕ)
    (agrees : (a b : ℕ) → less a b ≡ ltb (key a) (key b)) where
  pub merge-Ends :
      (s : Entries) (t v : Heap) (n : ℕ)
      → Stands key s t
      → Stands key s v
      → ((q : ℕ) → count q t + count q v ≤ 1)
      → size t + size v < n
      → Ends key s
          (λ q. count q t + count q v)
          (λ q. count q t + count q v)
          (merge_entries less n (root t) (root v) s)
  unfolding skew_heap_merge merge_into
  merge-Ends s t v n h k once l =
      let (u, e, i) = merge_entries-Merges less n (root t) (root v) s t v h.at k.at once l in
      let m = skew_heap_merge less t v in
      record {
        final = u;
        tree = m;
        ends = e;
        stands = record {
          at = i.at;
          top = Linked-root u u 0 m (λ p. i.top p ∙ no_parent p) i.at;
          once = λ q. omega (arith, once q, merge-count less q t v);
          ordered = (skew_heap_operations less key agrees t v 0 h.ordered k.ordered).0.ordered;
        };
        counts = λ q. merge-count less q t v;
        untouched = record { left = i.left; right = i.right; parent = i.parent };
      }
    where
      either :
          (t v : Heap)
          → Linked s 0 t
          → Linked s 0 v
          → 0 < root (skew_heap_merge less t v)
          → s.parent (root (skew_heap_merge less t v)) ≡ 0
      either nil v a b p = Linked-root_at 0 nil nil s 0 v p b
      either (node x xl xr) nil a b p = a
      either (node x xl xr) (node y yl yr) a b p = elim (Bool-cases (less x y)) [
        | inl e ↦ rw e a
        | inr e ↦ rw e b
      ]

      no_parent :
          0 < root (skew_heap_merge less t v) → s.parent (root (skew_heap_merge less t v)) ≡ 0
      no_parent p = either t v h.top k.top p

  pub insert-Ends :
      (s : Entries) (t : Heap) (x n : ℕ)
      → Stands key s t
      → 0 < x
      → count x t ≡ 0
      → suc (size t) < n
      → Ends key s
          (λ q. count q t + one_if x q)
          (λ q. count q t + one_if x q)
          (insert_entry less n (root t) x s)
  unfolding insert_entry skew_heap_init count size
  insert-Ends s t x n h pos new l =
      let v = skew_heap_init x s in
      let alone : Stands key v (node x nil nil) = record {
        at = (refl, pos, (update_self s.left x 0, tt), (update_self s.right x 0, tt));
        top = update_self s.parent x 0;
        once = λ q. one_if_le x q;
        ordered = (tt, tt, (tt, tt));
      } in
      let r =
        merge-Ends v t (node x nil nil) n (kept h) alone (λ q. disjoint q) (omega (arith, l)) in
      record {
        final = r.final;
        tree = r.tree;
        ends = r.ends;
        stands = r.stands;
        counts = λ q. omega (arith, r.counts q);
        untouched = record {
          left = λ q z. r.untouched.left q (omega (arith, z)) ∙ update_ne s.left x 0 q (apart q z);
          right =
              λ q z. r.untouched.right q (omega (arith, z)) ∙ update_ne s.right x 0 q (apart q z);
          parent =
              λ q z. r.untouched.parent q (omega (arith, z)) ∙ update_ne s.parent x 0 q (apart q z);
        };
      }
    where
      one_if_le : (x q : ℕ) → one_if x q + 0 + 0 ≤ 1
      one_if_le x q = elim (ℕ_discrete x q) [
        | yes e ↦ rw ((==_iff x q).1 e) (omega arith)
        | no m ↦ rw (==_of_ne x q m) (omega arith)
      ]

      apart : (q : ℕ) → count q t + one_if x q ≡ 0 → x ≢ q
      apart q z e = omega (arith, z, subst (λ y. one_if x y ≡ 1) e (one_if_self x))

      other : (q : ℕ) → 0 < count q t → x ≢ q
      other q k e = omega (arith, k, new, ap (λ y. count y t) e)

      disjoint : (q : ℕ) → count q t + (one_if x q + 0 + 0) ≤ 1
      disjoint q = elim (ℕ_discrete x q) [
        | yes e ↦ omega (arith, one_if_le x q, new, ap (λ y. count y t) e)
        | no m ↦ omega (arith, one_if_ne x q m, h.once q)
      ]

      kept : Stands key s t → Stands key (skew_heap_init x s) t
      kept k = record {
        at = Same-IsAt s (skew_heap_init x s) (root t) t k.once same k.at;
        top =
            son-Linked s (skew_heap_init x s) 0 t k.top
              (λ i. update_ne s.parent x 0 (root t) (other (root t) (root-count t i))) k.at;
        once = k.once;
        ordered = k.ordered;
      }
        where
          same : Same s (skew_heap_init x s) t
          same = record {
            left = λ q i. update_ne s.left x 0 q (other q i);
            right = λ q i. update_ne s.right x 0 q (other q i);
            parent = λ q i m. update_ne s.parent x 0 q (other q i);
          }
