-- ===== src/SkewHeap/Merge.antt =====
-- The merge of two heaps of linked entries, compared with the merge of their trees.
use nku_os_lab.Base.{
  ℕ, zero, suc, ◌+◌, ◌≤◌, ◌<◌, ◌≡◌, refl, sym, ◌∙◌, ap, subst, arith, Bool, Bool-cases, inl, inr,
  ==_of_ne,
}
use nku_os_lab.Base.Outcome.{Outcome, ok, ◌>>=◌}
use nku_os_lab.SkewHeap.{Heap, nil, node, skew_heap_merge, merge_into}
use nku_os_lab.SkewHeap.Counts.{count, one_if, size, merge-count}
use nku_os_lab.SkewHeap.Entries.{Entries, merge_entries, set_sons}
use nku_os_lab.SkewHeap.Shape.{root, Linked, IsAt, IsAt-root}
use nku_os_lab.SkewHeap.Plant.{Merged, planted-Merged}

-- The merge ends, and leaves the tree.
abbrev pub Merges : Entries → (ℕ → ℕ) → Heap → Outcome (ℕ × Entries) → Type 0
Merges s often m o = (u : Entries) × (o ≡ ok (root m, u)) × Merged s u often m

Merged-often :
    (s u : Entries) (f g : ℕ → ℕ) (m : Heap)
    → ((q : ℕ) → g q ≡ 0 → f q ≡ 0)
    → Merged s u f m
    → Merged s u g m
Merged-often s u f g m e h = record {
  at = h.at;
  left = λ q z. h.left q (e q z);
  right = λ q z. h.right q (e q z);
  parent = λ q z. h.parent q (e q z);
  top = h.top;
}

unchanged : (s : Entries) (p : ℕ) (f : ℕ → ℕ) (m : Heap) → IsAt s p m → Merged s s f m
unchanged s p f m h = record {
  at = subst (λ q. IsAt s q m) (IsAt-root s p m h) h;
  left = λ q z. refl;
  right = λ q z. refl;
  parent = λ q z. refl;
  top = λ i. refl;
}

module _ (less : ℕ → ℕ → Bool) where
  -- The merge below the entry that comes first, and its new sons.
  merge_below :
      (s : Entries) (x : ℕ) (xl v w : Heap) (often : ℕ → ℕ) (o : Outcome (ℕ × Entries))
      → 0 < x
      → IsAt s (s.left x) xl
      → Linked s x xl
      → ((q : ℕ) → often q ≡ one_if x q + count q xl + (count q v + count q w))
      → ((q : ℕ) → often q ≤ 1)
      → Merges s (λ q. count q v + count q w) (skew_heap_merge less v w) o
      → Merges s often
          (node x (skew_heap_merge less v w) xl)
          (o >>= λ (l, u). ok (x, set_sons x l (s.left x) u))
  merge_below s x xl v w often o pos h k e once (u, r, i) =
      let m = skew_heap_merge less v w in
      (
        set_sons x (root m) (s.left x) u,
        rw r refl,
        Merged-often s (set_sons x (root m) (s.left x) u)
            (λ q. one_if x q + count q xl + (count q v + count q w)) often (node x m xl)
            (λ q z. sym (e q) ∙ z)
            (planted-Merged s u x xl m (λ q. count q v + count q w) pos i
              (λ q. merge-count less q v w) (λ q. omega (arith, once q, e q)) h k),
      )

  pub merge_entries-Merges :
      (n a b : ℕ) (s : Entries) (t u : Heap)
      → IsAt s a t
      → IsAt s b u
      → ((q : ℕ) → count q t + count q u ≤ 1)
      → size t + size u < n
      → Merges s
          (λ q. count q t + count q u)
          (skew_heap_merge less t u)
          (merge_entries less n a b s)
  unfolding merge_entries skew_heap_merge merge_into count size
  merge_entries-Merges zero a b s t u h k once l = absurd (omega (arith, l))
  merge_entries-Merges (suc n) a b s nil u h k once l =
      (s, rw h (ap (λ p. ok (p, s)) (IsAt-root s b u k)), unchanged s b _ u k)
  merge_entries-Merges (suc n) a b s (node x xl xr) nil h k once l = (
    s,
    rw (==_of_ne a 0 (λ e. omega (arith, e, h.0, h.1)), k) (ap (λ p. ok (p, s)) h.0),
    unchanged s a _ (node x xl xr) h,
  )
  merge_entries-Merges (suc n) a b s (node x xl xr) (node y yl yr) h k once l =
      rw
        (
          h.0,
          k.0,
          ==_of_ne x 0 (λ e. omega (arith, e, h.1)),
          ==_of_ne y 0 (λ e. omega (arith, e, k.1)),
        )
        (elim (Bool-cases (less x y)) [
          | inl e ↦ rw e (
              merge_below s x xl xr (node y yl yr) _ _ h.1 h.2.0 h.2.1 (λ q. omega arith) once
                (merge_entries-Merges n (s.right x) y s xr (node y yl yr) h.3.0
                  (refl, k.1, k.2, k.3) (λ q. omega (arith, once q)) (omega (arith, l))))
          | inr e ↦ rw e (
              merge_below s y yl (node x xl xr) yr _ _ k.1 k.2.0 k.2.1 (λ q. omega arith) once
                (merge_entries-Merges n x (s.right y) s (node x xl xr) yr (refl, h.1, h.2, h.3)
                  k.3.0 (λ q. omega (arith, once q)) (omega (arith, l))))
        ])
