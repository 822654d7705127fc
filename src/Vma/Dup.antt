-- ===== src/Vma/Dup.antt =====
-- Lab8/code/kern/mm/vmm.c: `dup_mmap`, the copy of an address space.
use nku_os_lab.Base.{
  ℕ, ◌≤◌, ◌<◌, ◌≡◌, refl, sym, ◌∙◌, ap₂, subst, ◌↔◌, inl, inr, Bool, true, false, none, some, List,
  ◌∷◌, [], ◌==◌, if◌then◌else◌, arith, All, lt→ltb, map, Bool-cases,
}
use nku_os_lab.Base.Int.{ℤ, pos, negsuc}
use nku_os_lab.Base.Outcome.{Outcome, ok, ◌>>=◌}
use nku_os_lab.Vma.{Vma, Mm, e_no_mem, vma_create, insert_vma_struct}
use nku_os_lab.Vma.Sorted.{IsSorted, IsMm}
use nku_os_lab.Vma.Insert.{Overlaps, IsApart, insert_by_start, insert_vma_struct-Inserted}

abbrev pub is_zero : ℤ → Bool
is_zero (pos n) = n == 0
is_zero (negsuc n) = false

-- One round of the loop. `room` is whether `kmalloc` succeeds for the copy of an area, `copied` is
-- whether `copy_range` does for its pages; the page tables are not part of the state.
unfoldable pub dup_area : (Vma → Bool) → (Vma → Bool) → Vma → Mm → Outcome (ℤ × Mm)
unfolding vma_create insert_vma_struct
dup_area room copied vma to = elim (vma_create (room vma) vma.vm_start vma.vm_end vma.vm_flags) [
  | none ↦ ok (e_no_mem, to)
  | some nvma ↦ insert_vma_struct nvma to >>= λ u. ok (if copied vma then pos 0 else e_no_mem, u)
]

-- The loop goes from the last area to the first, and ends with the first failure.
unfoldable pub dup_areas : (Vma → Bool) → (Vma → Bool) → List Vma → Mm → Outcome (ℤ × Mm)
unfolding dup_area
dup_areas room copied [] to = ok (pos 0, to)
dup_areas room copied (vma ∷ vmas) to = dup_areas room copied vmas to >>= λ (ret, t).
    if is_zero ret then dup_area room copied vma t else ok (ret, t)

unfoldable pub dup_mmap : (Vma → Bool) → (Vma → Bool) → Mm → Mm → Outcome (ℤ × Mm)
unfolding dup_areas
dup_mmap room copied to from = dup_areas room copied from.mmap_list to

-- The copies of the areas, in the address space with the address `key`.
abbrev pub copies : ℕ → List Vma → List Vma
copies key vs = map {A = Vma} {B = Vma} (λ v. record v { vm_mm = some key }) vs

copies-IsApart :
    (key lo : ℕ) (vma : Vma) (vs : List Vma)
    → IsSorted lo vs
    → vma.vm_end ≤ lo
    → IsApart vma (copies key vs)
copies-IsApart key lo vma [] s l v m o = elim m [ ]
copies-IsApart key lo vma (u ∷ us) s l v (inl e) o =
    let q = subst (Overlaps vma) e o in omega (arith, q.0, s.0, l)
copies-IsApart key lo vma (u ∷ us) s l v (inr m) o =
    copies-IsApart key u.vm_end vma us s.2 (omega (arith, l, s.0, s.1)) v m o

insert-copies :
    (key lo : ℕ) (vma : Vma) (vs : List Vma)
    → IsSorted lo vs
    → vma.vm_start < lo
    → insert_by_start vma (copies key vs) ≡ vma ∷ copies key vs
unfolding insert_by_start
insert-copies key lo vma [] s l = refl
insert-copies key lo vma (u ∷ us) s l =
    rw (lt→ltb vma.vm_start u.vm_start (omega (arith, l, s.0))) refl

-- What the copy of the areas `vs` is to give: a code and an address space that is in order. The code
-- is zero exactly if every call succeeded, and then the copies are there.
pub record Dups (room copied : Vma → Bool) (to : Mm) (vs : List Vma) (ret : ℤ) (t : Mm)
    : Type 0 where
  pub valid : IsMm t
  pub key : t.key ≡ to.key
  pub done : is_zero ret ≡ true → t.mmap_list ≡ copies to.key vs
  pub code : (is_zero ret ≡ true) ↔ All (λ v. (room v ≡ true) × (copied v ≡ true)) vs

-- The copy as `vma_create` makes it.
abbrev fresh : Vma → Vma
fresh v = record v { vm_mm = none }

-- A round in an address space that holds the copies of the areas behind.
module _ (room copied : Vma → Bool) (to t : Mm) (v : Vma) (vs : List Vma) (lo : ℕ)
    (nonempty : v.vm_start < v.vm_end) (s : IsSorted v.vm_end vs) (valid : IsMm t)
    (key : t.key ≡ to.key) (list : t.mmap_list ≡ copies to.key vs) where
  added :
      (u : Mm) × (insert_vma_struct (fresh v) t ≡ ok u)
      × IsMm u
      × (u.key ≡ to.key)
      × (u.mmap_list ≡ copies to.key (v ∷ vs))
  added =
      let (u, q, i) = (insert_vma_struct-Inserted (fresh v) t valid).0 nonempty (
        subst (IsApart (fresh v)) (sym list)
          (copies-IsApart to.key v.vm_end (fresh v) vs s (omega arith))) in
      (
        u,
        q,
        i.valid,
        i.key ∙ key,
        i.ordered
            ∙ ap₂ (λ (k : ℕ) l. insert_by_start (record v { vm_mm = some k }) l) key list
            ∙ insert-copies to.key v.vm_end (record v { vm_mm = some to.key }) vs s nonempty,
      )

  dup_area-Dups :
      ((ret : ℤ) → is_zero ret ≡ true → (All (λ v. (room v ≡ true) × (copied v ≡ true)) vs))
      → (a b : Bool) → room v ≡ a
      → copied v ≡ b
      → (ret : ℤ) × (u : Mm) × (dup_area room copied v t ≡ ok (ret, u))
        × Dups room copied to (v ∷ vs) ret u
  unfolding dup_area vma_create
  dup_area-Dups all false b e f = (
    e_no_mem,
    t,
    rw (e, dup_area) refl,
    record { valid = valid; key = key; done = λ z. cc; code = (λ z. cc, λ h. cc (e, h.0.0)) },
  )
  dup_area-Dups all true false e f =
      let (u, q, i, k, l) = added in
      (
        e_no_mem,
        u,
        rw (e, f, dup_area) (rw q refl),
        record { valid = i; key = k; done = λ z. cc; code = (λ z. cc, λ h. cc (f, h.0.1)) },
      )
  dup_area-Dups all true true e f =
      let (u, q, i, k, l) = added in
      (
        pos 0,
        u,
        rw (e, f, dup_area) (rw q refl),
        record {
          valid = i;
          key = k;
          done = λ z. l;
          code = (λ z. ((e, f), all (pos 0) refl), λ h. refl);
        },
      )

dup_areas-Dups :
    (room copied : Vma → Bool) (to : Mm) (lo : ℕ) (vs : List Vma)
    → IsMm to
    → to.mmap_list ≡ []
    → IsSorted lo vs
    → (ret : ℤ) × (t : Mm) × (dup_areas room copied vs to ≡ ok (ret, t))
      × Dups room copied to vs ret t
unfolding dup_areas
dup_areas-Dups room copied to lo [] h e s =
    (pos 0, to, refl, record { valid = h; key = refl; done = λ z. e; code = (λ z. tt, λ z. refl) })
dup_areas-Dups room copied to lo (v ∷ vs) h e s =
    go (dup_areas-Dups room copied to v.vm_end vs h e s.2)
  where
    Goal : Type 0
    Goal =
        (ret : ℤ) × (t : Mm) × (dup_areas room copied (v ∷ vs) to ≡ ok (ret, t))
        × Dups room copied to (v ∷ vs) ret t

    go :
        ((ret : ℤ) × (t : Mm) × (dup_areas room copied vs to ≡ ok (ret, t))
          × Dups room copied to vs ret t)
        → Goal
    go (ret, t, q, d) = elim (Bool-cases (is_zero ret)) [
      | inr f ↦ (
        ret,
        t,
        rw (q, f) refl,
        record {
          valid = d.valid;
          key = d.key;
          done = λ z. cc (f, z);
          code = (λ z. cc (f, z), λ all. d.code.1 all.1);
        },
      )
      | inl f ↦
          let (r, u, p, k) =
            dup_area-Dups room copied to t v vs lo s.1 s.2 d.valid d.key (d.done f)
              (λ _ _. d.code.0 f) (room v) (copied v) refl refl in
          (r, u, rw (q, f) p, k)
    ]

-- `dup_mmap` into an address space without areas fails no assertion, and leaves it in order. It
-- returns zero exactly if every allocation and every copy of pages succeeded, and then the address
-- space has a copy of every area, in the same order.
pub dup_mmap-Dups :
    (room copied : Vma → Bool) (to from : Mm)
    → IsMm to
    → to.mmap_list ≡ []
    → IsMm from
    → (ret : ℤ) × (t : Mm) × (dup_mmap room copied to from ≡ ok (ret, t))
      × Dups room copied to from.mmap_list ret t
unfolding dup_mmap
dup_mmap-Dups room copied to from h e f =
    dup_areas-Dups room copied to 0 from.mmap_list h e f.sorted
