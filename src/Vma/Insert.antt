-- ===== src/Vma/Insert.antt =====
-- `insert_vma_struct`: where the area goes, and when an assertion fails.
use nku_os_lab.Base.{
  ℕ, ◌+◌, ◌≤◌, ◌<◌, ◌≡◌, refl, ap, subst, ◌⊎◌, ◌↔◌, inl, inr, Option, none, some, List, ◌∷◌, [],
  ltb, if◌then◌else◌, length, arith, dec_lt, lt→ltb, ltb-eq-false,
}
use nku_os_lab.Base.Outcome.{ok, panic, ◌>>=◌, ◌>>◌}
use nku_os_lab.Vma.{Vma, Mm, check_vma_overlap, check_prev, place_vma, insert_vma_struct}
use nku_os_lab.Vma.Sorted.{Member, IsSorted, IsCached, IsMm, Member-above}

-- The area in its place by its start.
unfoldable pub insert_by_start : Vma → List Vma → List Vma
insert_by_start vma [] = vma ∷ []
insert_by_start vma (v ∷ vs) =
    let rest = insert_by_start vma vs in
    if ltb vma.vm_start v.vm_start then vma ∷ (v ∷ vs) else v ∷ rest

abbrev pub Overlaps : Vma → Vma → Type 0
Overlaps vma v = (v.vm_start < vma.vm_end) × (vma.vm_start < v.vm_end)

abbrev pub IsApart : Vma → List Vma → Type 0
IsApart vma vs = (v : Vma) → Member v vs → ¬ Overlaps vma v

-- What is known of the area before: it ends at `lo`.
abbrev Before : Option Vma → ℕ → Vma → Type 0
Before none lo vma = lo ≤ vma.vm_start
Before (some p) lo vma = (p.vm_end ≡ lo) × (p.vm_start < p.vm_end)

check_prev-ok :
    (prev : Option Vma) (lo : ℕ) (vma : Vma)
    → Before prev lo vma
    → vma.vm_start < vma.vm_end
    → lo ≤ vma.vm_start
    → check_prev prev vma ≡ ok tt
unfolding check_vma_overlap
check_prev-ok none lo vma b n l = refl
check_prev-ok (some p) lo vma b n l = ground (arith, b.0, b.1, n, l)

check_prev-panic :
    (prev : Option Vma) (lo : ℕ) (vma : Vma)
    → Before prev lo vma
    → vma.vm_start < lo
    → check_prev prev vma ≡ panic
unfolding check_vma_overlap
check_prev-panic none lo vma b l = absurd (omega (arith, b, l))
check_prev-panic (some p) lo vma b l = ground (arith, b.0, b.1, l)

check_next-ok :
    (vma v : Vma)
    → vma.vm_start < vma.vm_end
    → v.vm_start < v.vm_end
    → vma.vm_end ≤ v.vm_start
    → check_vma_overlap vma v ≡ ok tt
unfolding check_vma_overlap
check_next-ok vma v a b c = ground (arith, a, b, c)

check_next-panic :
    (vma v : Vma)
    → vma.vm_start < vma.vm_end
    → v.vm_start < vma.vm_end
    → check_vma_overlap vma v ≡ panic
unfolding check_vma_overlap
check_next-panic vma v a b = ground (arith, a, b)

apart_next :
    (vma v : Vma)
    → ¬ Overlaps vma v
    → vma.vm_start < v.vm_start
    → v.vm_start < v.vm_end
    → vma.vm_end ≤ v.vm_start
apart_next vma v f l n = elim (dec_lt v.vm_start vma.vm_end) [
  | yes k ↦ absurd (f (k, omega (arith, l, n)))
  | no k ↦ omega (arith, k)
]

apart_prev :
    (vma v : Vma)
    → ¬ Overlaps vma v
    → v.vm_start ≤ vma.vm_start
    → vma.vm_start < vma.vm_end
    → v.vm_end ≤ vma.vm_start
apart_prev vma v f l n = elim (dec_lt vma.vm_start v.vm_end) [
  | yes k ↦ absurd (f (omega (arith, l, n), k))
  | no k ↦ omega (arith, k)
]

module _ (vma : Vma) (nonempty : vma.vm_start < vma.vm_end) where
  place_vma-ok :
      (prev : Option Vma) (lo : ℕ) (vs : List Vma)
      → Before prev lo vma
      → lo ≤ vma.vm_start
      → IsSorted lo vs
      → IsApart vma vs
      → (place_vma prev vma vs ≡ ok (insert_by_start vma vs)) × IsSorted lo (insert_by_start vma vs)
  unfolding place_vma insert_by_start
  place_vma-ok prev lo [] b l s a =
      (rw (check_prev-ok prev lo vma b nonempty l) refl, (l, nonempty, tt))
  place_vma-ok prev lo (v ∷ vs) b l s a = elim (dec_lt vma.vm_start v.vm_start) [
    | yes k ↦
        let e = apart_next vma v (a v (inl refl)) k s.1 in
        rw (lt→ltb vma.vm_start v.vm_start k) (
          rw (check_prev-ok prev lo vma b nonempty l, check_next-ok vma v nonempty s.1 e) refl,
          (l, nonempty, (e, s.1, s.2)),
        )
    | no k ↦
        let e = apart_prev vma v (a v (inl refl)) (omega (arith, k)) nonempty in
        let (p, q) = place_vma-ok (some v) v.vm_end vs (refl, s.1) e s.2 (λ u m. a u (inr m)) in
        rw (ltb-eq-false vma.vm_start v.vm_start (omega (arith, k)))
          (ap (λ x. x >>= λ r. ok (v ∷ r)) p, (s.0, s.1, q))
  ]

  place_vma-panic :
      (prev : Option Vma) (lo : ℕ) (vs : List Vma)
      → Before prev lo vma
      → IsSorted lo vs
      → (vma.vm_start < lo) ⊎ ((v : Vma) × Member v vs × Overlaps vma v)
      → place_vma prev vma vs ≡ panic
  unfolding place_vma
  place_vma-panic prev lo [] b s (inl k) = rw (check_prev-panic prev lo vma b k) refl
  place_vma-panic prev lo [] b s (inr (v, m, o)) = elim m [ ]
  place_vma-panic prev lo (v ∷ vs) b s o = elim (dec_lt vma.vm_start v.vm_start) [
    | yes k ↦ rw (lt→ltb vma.vm_start v.vm_start k) (stops k o)
    | no k ↦ rw (ltb-eq-false vma.vm_start v.vm_start (omega (arith, k))) (
        ap (λ x. x >>= λ r. ok (v ∷ r))
          (place_vma-panic (some v) v.vm_end vs (refl, s.1) s.2 (goes_on k o)))
  ]
    where
      Bad : Type 0
      Bad = (vma.vm_start < lo) ⊎ ((u : Vma) × Member u (v ∷ vs) × Overlaps vma u)

      meets : (u : Vma) → Member u (v ∷ vs) → Overlaps vma u → v.vm_start < vma.vm_end
      meets u (inl e) q = subst (λ w. w.vm_start < vma.vm_end) e q.0
      meets u (inr m) q =
          let above = Member-above v.vm_end u vs s.2 m in omega (arith, above.0, s.1, q.0)

      stops :
          vma.vm_start < v.vm_start
          → Bad
          → (check_prev prev vma >> (check_vma_overlap vma v >> ok (vma ∷ (v ∷ vs)))) ≡ panic
      stops k (inl p) = rw (check_prev-panic prev lo vma b p) refl
      stops k (inr (u, m, q)) = elim (dec_lt vma.vm_start lo) [
        | yes p ↦ rw (check_prev-panic prev lo vma b p) refl
        | no p ↦
            rw
              (
                check_prev-ok prev lo vma b nonempty (omega (arith, p)),
                check_next-panic vma v nonempty (meets u m q),
              )
              refl
      ]

      goes_on :
          ¬ (vma.vm_start < v.vm_start)
          → Bad
          → (vma.vm_start < v.vm_end) ⊎ ((u : Vma) × Member u vs × Overlaps vma u)
      goes_on k (inl p) = absurd (k (omega (arith, p, s.0)))
      goes_on k (inr (u, inl e, q)) = inl (subst (λ w. vma.vm_start < w.vm_end) e q.1)
      goes_on k (inr (u, inr m, q)) = inr (u, m, q)

  Member-insert :
      (u : Vma) (vs : List Vma) → Member u (insert_by_start vma vs) ↔ ((u ≡ vma) ⊎ Member u vs)
  unfolding insert_by_start
  Member-insert u [] = (λ m. m, λ m. m)
  Member-insert u (v ∷ vs) = elim (dec_lt vma.vm_start v.vm_start) [
    | yes k ↦ rw (lt→ltb vma.vm_start v.vm_start k) (λ m. m, λ m. m)
    | no k ↦
        rw (ltb-eq-false vma.vm_start v.vm_start (omega (arith, k)))
          (to (Member-insert u vs), from (Member-insert u vs))
  ]
    where
      to :
          (Member u (insert_by_start vma vs) ↔ ((u ≡ vma) ⊎ Member u vs))
          → Member u (v ∷ insert_by_start vma vs)
          → (u ≡ vma) ⊎ Member u (v ∷ vs)
      to ih (inl e) = inr (inl e)
      to ih (inr m) = elim (ih.0 m) [ inl e ↦ inl e | inr k ↦ inr (inr k) ]

      from :
          (Member u (insert_by_start vma vs) ↔ ((u ≡ vma) ⊎ Member u vs))
          → (u ≡ vma) ⊎ Member u (v ∷ vs)
          → Member u (v ∷ insert_by_start vma vs)
      from ih (inl e) = inr (ih.1 (inl e))
      from ih (inr (inl e)) = inl e
      from ih (inr (inr m)) = inr (ih.1 (inr m))

  length-insert : (vs : List Vma) → length (insert_by_start vma vs) ≡ length vs + 1
  unfolding insert_by_start
  length-insert [] = refl
  length-insert (v ∷ vs) = ground (arith, length-insert vs)

-- The area as it stands in the list.
abbrev pub placed : Vma → Mm → Vma
placed vma mm = record vma { vm_mm = some mm.key }

-- The state after an insertion.
pub record Inserted (vma : Vma) (mm mm' : Mm) : Type 0 where
  pub valid : IsMm mm'
  pub ordered : mm'.mmap_list ≡ insert_by_start (placed vma mm) mm.mmap_list
  pub members : (u : Vma) → Member u mm'.mmap_list ↔ ((u ≡ placed vma mm) ⊎ Member u mm.mmap_list)
  pub key : mm'.key ≡ mm.key
  pub cache : mm'.mmap_cache ≡ mm.mmap_cache

IsCached-insert :
    (vma : Vma) (nonempty : vma.vm_start < vma.vm_end) (o : Option Vma) (vs : List Vma)
    → IsCached o vs
    → IsCached o (insert_by_start vma vs)
IsCached-insert vma n none vs c = tt
IsCached-insert vma n (some v) vs c = (Member-insert vma n v vs).1 (inr c)

-- `insert_vma_struct` puts an area that is not empty and overlaps no other in its place, so that the
-- address space is in order again and has exactly this area more; an empty area and one that
-- overlaps another fail an assertion.
pub insert_vma_struct-Inserted :
    (vma : Vma) (mm : Mm)
    → IsMm mm
    → (vma.vm_start < vma.vm_end
        → IsApart vma mm.mmap_list
        → (mm' : Mm) × (insert_vma_struct vma mm ≡ ok mm') × Inserted vma mm mm')
      × (vma.vm_end ≤ vma.vm_start → insert_vma_struct vma mm ≡ panic)
      × ((v : Vma) → Member v mm.mmap_list → Overlaps vma v → insert_vma_struct vma mm ≡ panic)
unfolding insert_vma_struct
insert_vma_struct-Inserted vma mm h = (
  λ n a.
      let w = placed vma mm in
      let (e, s) = place_vma-ok w n none 0 mm.mmap_list (omega arith) (omega arith) h.sorted a in
      (
        record mm { mmap_list = insert_by_start w mm.mmap_list; map_count = mm.map_count + 1 },
        rw (lt→ltb vma.vm_start vma.vm_end n, e) refl,
        record {
          valid = record {
            sorted = s;
            counted = omega (arith, h.counted, length-insert w n mm.mmap_list);
            cached = IsCached-insert w n mm.mmap_cache mm.mmap_list h.cached;
          };
          ordered = refl;
          members = λ u. Member-insert w n u mm.mmap_list;
          key = refl;
          cache = refl;
        },
      ),
  λ n. rw (ltb-eq-false vma.vm_start vma.vm_end n) refl,
  λ v m o. elim (dec_lt vma.vm_start vma.vm_end) [
    | no n ↦ rw (ltb-eq-false vma.vm_start vma.vm_end (omega (arith, n))) refl
    | yes n ↦
        rw
          (
            lt→ltb vma.vm_start vma.vm_end n,
            place_vma-panic (placed vma mm) n none 0 mm.mmap_list (omega arith) h.sorted
                (inr (v, m, o)),
          )
          refl
  ],
)
