-- ===== src/Vma/Tests.antt =====
-- An address space of two areas, and the calls on it.
use nku_os_lab.Base.{
  ◌≤◌, ◌<◌, ◌≡◌, refl, ◌↔◌, inl, inr, Bool, true, false, none, some, ◌∷◌, [], arith,
}
use nku_os_lab.Base.Int.{ℤ}
use nku_os_lab.Base.Outcome.{ok, panic}
use nku_os_lab.Text.{Bytes}
use nku_os_lab.Vma.{Vma, Mm, e_inval, add64, user_access, insert_vma_struct, mm_map, user_mem_check}
use nku_os_lab.Vma.Sorted.{Member, IsMm, Searched}
use nku_os_lab.Vma.Insert.{Overlaps, IsApart, Inserted, insert_vma_struct-Inserted}
use nku_os_lab.Vma.Map.{Maps, mm_map-Maps}
use nku_os_lab.Vma.Check.{IsAllowed, user_mem_check-Checks}
use nku_os_lab.Vma.Dup.{dup_mmap, Dups, dup_mmap-Dups}
use nku_os_lab.Vma.User.{copy_string, CopyOutcome, copy_string-CopyOutcome}

abbrev text_area : Vma
text_area = record { vm_mm = some 1; vm_start = 0x800000; vm_end = 0x802000; vm_flags = 3 }

abbrev stack_area : Vma
stack_area = record { vm_mm = some 1; vm_start = 0x7ff00000; vm_end = 0x80000000; vm_flags = 11 }

abbrev space : Mm
space = record {
  key = 1;
  mmap_list = text_area ∷ stack_area ∷ [];
  mmap_cache = some stack_area;
  pgdir = 7;
  map_count = 2;
  mm_count = 1;
}

abbrev empty_space : Mm
empty_space = record {
  key = 2;
  mmap_list = [];
  mmap_cache = none;
  pgdir = 8;
  map_count = 0;
  mm_count = 0;
}

abbrev heap_area : Vma
heap_area = record { vm_mm = none; vm_start = 0x900000; vm_end = 0x901000; vm_flags = 3 }

abbrev text : Bytes
text a = 0

space-IsMm : IsMm space
space-IsMm = record { sorted = omega arith; counted = refl; cached = inr (inl refl) }

empty-IsMm : IsMm empty_space
empty-IsMm = record { sorted = tt; counted = refl; cached = tt }

insert_vma_struct-Inserted_example :
    (0x900000 < 0x901000
      → IsApart heap_area (text_area ∷ stack_area ∷ [])
      → (mm' : Mm) × (insert_vma_struct heap_area space ≡ ok mm') × Inserted heap_area space mm')
    × (0x901000 ≤ 0x900000 → insert_vma_struct heap_area space ≡ panic)
    × ((v : Vma)
        → Member v (text_area ∷ stack_area ∷ [])
        → Overlaps heap_area v
        → insert_vma_struct heap_area space ≡ panic)
insert_vma_struct-Inserted_example = insert_vma_struct-Inserted heap_area space space-IsMm

mm_map-Maps_example :
    (user_access 0x7ff000 0x801000 ≡ false
      → mm_map true 0x7ff800 0x900 3 space ≡ ok ((e_inval, none), space))
    × (user_access 0x7ff000 0x801000 ≡ true
        → Maps true 0x7ff800 0x900 3 space space-IsMm (mm_map true 0x7ff800 0x900 3 space))
mm_map-Maps_example = mm_map-Maps true 0x7ff800 0x900 3 space space-IsMm

user_mem_check-Checks_example :
    (b : Bool) × (mm' : Mm) × (user_mem_check (some space) 0x800100 64 true ≡ ok (b, some mm'))
    × Searched space mm'
    × ((b ≡ true) ↔ (
        (user_access 0x800100 (add64 0x800100 64) ≡ true)
        × IsAllowed true 0x800100 (add64 0x800100 64) (text_area ∷ stack_area ∷ [])))
user_mem_check-Checks_example = user_mem_check-Checks space 0x800100 64 true space-IsMm

dup_mmap-Dups_example :
    (ret : ℤ) × (t : Mm) × (dup_mmap (λ v. true) (λ v. true) empty_space space ≡ ok (ret, t))
    × Dups (λ v. true) (λ v. true) empty_space (text_area ∷ stack_area ∷ []) ret t
dup_mmap-Dups_example =
    dup_mmap-Dups (λ v. true) (λ v. true) empty_space space empty-IsMm refl space-IsMm

copy_string-CopyOutcome_example :
    CopyOutcome 16 100 0x800100 space text (copy_string (some space) 100 0x800100 16 text)
copy_string-CopyOutcome_example =
    copy_string-CopyOutcome 16 100 0x800100 space text space-IsMm (omega arith) (inl (omega arith))
