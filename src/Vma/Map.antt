-- ===== src/Vma/Map.antt =====
-- `mm_map`: a new area for a range of addresses.
use nku_os_lab.Base.{
  ℕ, ◌<◌, ◌≡◌, refl, sym, ◌∙◌, ap, subst, ◌⊎◌, ◌↔◌, Bool, true, false, Option, none, some, ltb,
  if◌then◌else◌, arith, lt→ltb,
}
use nku_os_lab.Base.Int.{ℤ, pos}
use nku_os_lab.Base.Outcome.{Outcome, ok, panic, ◌>>=◌}
use nku_os_lab.Vma.{
  Vma, Mm, e_inval, e_no_mem, page_size, round_down, round_up, add64, user_access, vma_create,
  find_vma, insert_vma_struct, mm_map,
}
use nku_os_lab.Vma.Sorted.{Member, IsMm, Covers, Finds, Searched, find_vma-Finds}
use nku_os_lab.Vma.Insert.{Overlaps, IsApart, placed, insert_vma_struct-Inserted}

-- The area that `mm_map` makes: the pages that the range meets.
abbrev pub area : ℕ → ℕ → ℕ → Vma
area addr len vm_flags = record {
  vm_mm = none;
  vm_start = round_down addr page_size;
  vm_end = round_up (add64 addr len) page_size;
  vm_flags = vm_flags;
}

user_access-lt : (a b : ℕ) → user_access a b ≡ true → a < b
unfolding user_access
user_access-lt a b h = ground (arith, h)

module _ (room : Bool) (addr len vm_flags : ℕ) (mm : Mm) (h : IsMm mm) where
  -- `mm_map` behind the test of the range, by what `find_vma` returns.
  abbrev Mapped : Option Vma → Mm → Outcome ((ℤ × Option Vma) × Mm)
  Mapped found mm' =
      if elim found [ none ↦ false | some vma ↦ ltb vma.vm_start (area addr len vm_flags).vm_end ]
      then ok ((e_inval, none), mm')
      else elim (vma_create room (area addr len vm_flags).vm_start (area addr len vm_flags).vm_end
          vm_flags) [
            | none ↦ ok ((e_no_mem, none), mm')
            | some vma ↦ insert_vma_struct vma mm' >>= λ mm''.
                ok ((pos 0, some (record vma { vm_mm = some mm'.key })), mm'')
          ]

  mapped :
      user_access (area addr len vm_flags).vm_start (area addr len vm_flags).vm_end ≡ true
      → mm_map room addr len vm_flags mm
        ≡ Mapped
            (find_vma (area addr len vm_flags).vm_start mm).0
            (find_vma (area addr len vm_flags).vm_start mm).1
  unfolding mm_map
  mapped e = rw e refl

  -- What `mm_map` does with a range of user addresses, by the areas that are there.
  pub record Maps (out : Outcome ((ℤ × Option Vma) × Mm)) : Type 0 where
    pub taken :
        (v : Vma)
        → Member v mm.mmap_list
        → Covers (area addr len vm_flags).vm_start v
        → (mm' : Mm) × (out ≡ ok ((e_inval, none), mm')) × Searched mm mm'
    pub exhausted :
        room ≡ false
        → ((v : Vma) → Member v mm.mmap_list → ¬ Covers (area addr len vm_flags).vm_start v)
        → (mm' : Mm) × (out ≡ ok ((e_no_mem, none), mm')) × Searched mm mm'
    pub added :
        room ≡ true
        → IsApart (area addr len vm_flags) mm.mmap_list
        → (mm' : Mm) × (out ≡ ok ((pos 0, some (placed (area addr len vm_flags) mm)), mm'))
          × IsMm mm'
          × ((u : Vma)
              → Member u mm'.mmap_list
                ↔ ((u ≡ placed (area addr len vm_flags) mm) ⊎ Member u mm.mmap_list))
    pub overlapping :
        room ≡ true
        → ((v : Vma) → Member v mm.mmap_list → ¬ Covers (area addr len vm_flags).vm_start v)
        → (v : Vma) → Member v mm.mmap_list
        → Overlaps (area addr len vm_flags) v
        → out ≡ panic

  module _ (nonempty : (area addr len vm_flags).vm_start < (area addr len vm_flags).vm_end)
      (mm' : Mm) (s : Searched mm mm') where
    found_taken :
        (v : Vma)
        → Covers (area addr len vm_flags).vm_start v
        → Mapped (some v) mm' ≡ ok ((e_inval, none), mm')
    found_taken v c =
        rw (lt→ltb v.vm_start (area addr len vm_flags).vm_end (omega (arith, c.0, nonempty))) refl

    found_full : room ≡ false → Mapped none mm' ≡ ok ((e_no_mem, none), mm')
    unfolding vma_create
    found_full e = rw e refl

    insertion :
        room ≡ true
        → Mapped none mm' ≡ (
            insert_vma_struct (area addr len vm_flags) mm' >>= λ mm''.
            ok ((pos 0, some (placed (area addr len vm_flags) mm')), mm''))
    unfolding vma_create
    insertion e = rw e refl

    moved : placed (area addr len vm_flags) mm' ≡ placed (area addr len vm_flags) mm
    moved = ap (λ k. record (area addr len vm_flags) { vm_mm = some k }) s.key

    found_none :
        ((v : Vma) → Member v mm.mmap_list → ¬ Covers (area addr len vm_flags).vm_start v)
        → Maps (Mapped none mm')
    found_none f =
        let ins = insert_vma_struct-Inserted (area addr len vm_flags) mm' s.valid in
        record {
          taken = λ v m c. absurd (f v m c);
          exhausted = λ e g. (mm', found_full e, s);
          added = λ e a.
              let (t, q, i) =
                ins.0 nonempty (subst (IsApart (area addr len vm_flags)) (sym s.list) a) in
              (
                t,
                insertion e
                    ∙ ap
                        (λ x. x >>= λ mm''.
                          ok ((pos 0, some (placed (area addr len vm_flags) mm')), mm''))
                        q
                    ∙ ap (λ w. ok ((pos 0, some w), t)) moved,
                i.valid,
                subst (λ w. (u : Vma) → Member u t.mmap_list ↔ ((u ≡ w) ⊎ Member u mm.mmap_list))
                    moved
                    (subst
                      (λ l.
                        (u : Vma)
                        → Member u t.mmap_list
                          ↔ ((u ≡ placed (area addr len vm_flags) mm') ⊎ Member u l))
                      s.list i.members),
              );
          overlapping = λ e g v m o.
              insertion e
              ∙ ap
                  (λ x.
                    x >>= λ mm''. ok ((pos 0, some (placed (area addr len vm_flags) mm')), mm''))
                  (ins.2 v (subst (Member v) (sym s.list) m) o);
        }

    found_some :
        (v : Vma)
        → Member v mm.mmap_list
        → Covers (area addr len vm_flags).vm_start v
        → Maps (Mapped (some v) mm')
    found_some v m c = record {
      taken = λ u k d. (mm', found_taken v c, s);
      exhausted = λ e f. absurd (f v m c);
      added = λ e a. absurd (a v m (omega (arith, c.0, nonempty), c.1));
      overlapping = λ e f. absurd (f v m c);
    }

  maps :
      (nonempty : (area addr len vm_flags).vm_start < (area addr len vm_flags).vm_end)
      (o : Option Vma) (mm' : Mm)
      → Finds (area addr len vm_flags).vm_start mm.mmap_list o
      → Searched mm mm'
      → Maps (Mapped o mm')
  maps n none mm' f s = found_none n mm' s f
  maps n (some v) mm' f s = found_some n mm' s v f.0 f.1

  -- `mm_map` refuses a range whose pages are not all user addresses, without a change. Otherwise it
  -- refuses if an area holds the first page's address, and fails for lack of memory, with only the
  -- cache changed; it adds exactly the area of the pages if that overlaps no other, and the address
  -- space is in order again. Where the pages overlap an area that does not hold the first address,
  -- an assertion fails.
  pub mm_map-Maps :
      (user_access (area addr len vm_flags).vm_start (area addr len vm_flags).vm_end ≡ false
        → mm_map room addr len vm_flags mm ≡ ok ((e_inval, none), mm))
      × (user_access (area addr len vm_flags).vm_start (area addr len vm_flags).vm_end ≡ true
          → Maps (mm_map room addr len vm_flags mm))
  unfolding mm_map
  mm_map-Maps = (
    λ e. rw e refl,
    λ e.
        let (f, s, _) = find_vma-Finds (area addr len vm_flags).vm_start mm h in
        subst Maps (sym (mapped e)) (
          maps (user_access-lt (area addr len vm_flags).vm_start (area addr len vm_flags).vm_end e)
            (find_vma (area addr len vm_flags).vm_start mm).0
            (find_vma (area addr len vm_flags).vm_start mm).1 f s),
  )
