-- ===== src/Vma.antt =====
-- Lab8/code/kern/mm/vmm.c and vmm.h: the areas of virtual memory of a process. An area is never
-- changed once it is in the list, so that a pointer to it is given by its contents; the list is
-- given by its areas in their order.
pub mod Sorted
pub mod Insert
pub mod Map
pub mod Check
pub mod Dup
pub mod User
mod Tests
use Prim.Native.Nat.{bit_and}
use nku_os_lab.Base.{
  ℕ, zero, suc, ◌+◌, ◌-◌, ◌%◌, ◌^◌, Bool, false, true, not, ◌&&◌, ◌||◌, Option, none, some, List,
  ◌∷◌, [], ltb, leb, ◌==◌, if◌then◌else◌, length,
}
use nku_os_lab.Base.Int.{ℤ, pos, negsuc}
use nku_os_lab.Base.Outcome.{Outcome, ok, panic, out_of_fuel, ◌>>=◌, ◌>>◌, assert}

-- `struct vma_struct`; `vm_mm` is the address of the `mm_struct` that it was inserted into.
pub record Vma : Type 0 where
  pub vm_mm : Option ℕ
  pub vm_start : ℕ
  pub vm_end : ℕ
  pub vm_flags : ℕ

-- `struct mm_struct`; `key` stands for its address, and 0 is no page directory.
pub record Mm : Type 0 where
  pub key : ℕ
  pub mmap_list : List Vma
  pub mmap_cache : Option Vma
  pub pgdir : ℕ
  pub map_count : ℕ
  pub mm_count : ℕ

abbrev pub e_inval : ℤ
e_inval = negsuc 2

abbrev pub e_no_mem : ℤ
e_no_mem = negsuc 3

abbrev pub vm_read : ℕ
vm_read = 1

abbrev pub vm_write : ℕ
vm_write = 2

abbrev pub vm_stack : ℕ
vm_stack = 8

abbrev pub page_size : ℕ
page_size = 4096

abbrev pub round_down : ℕ → ℕ → ℕ
round_down a n = a - a % n

abbrev pub round_up : ℕ → ℕ → ℕ
round_up a n = round_down ((a + n - 1) % 2 ^ 64) n

-- The sum of an address and a length.
abbrev pub add64 : ℕ → ℕ → ℕ
add64 a b = (a + b) % 2 ^ 64

unfoldable pub user_access : ℕ → ℕ → Bool
user_access start end' = leb 0x00200000 start && (ltb start end' && leb end' 0x80000000)

unfoldable pub kern_access : ℕ → ℕ → Bool
kern_access start end' =
    leb 0xFFFFFFFFC0200000 start && (ltb start end' && leb end' 0xFFFFFFFFC8000000)

-- `room` is whether `kmalloc` succeeds.
unfoldable pub mm_create : Bool → ℕ → Option Mm
mm_create room key =
    if room
    then some record {
      key = key;
      mmap_list = [];
      mmap_cache = none;
      pgdir = 0;
      map_count = 0;
      mm_count = 0;
    }
    else none

unfoldable pub vma_create : Bool → ℕ → ℕ → ℕ → Option Vma
vma_create room vm_start vm_end vm_flags =
    if room
    then some record { vm_mm = none; vm_start = vm_start; vm_end = vm_end; vm_flags = vm_flags }
    else none

abbrev pub contains : ℕ → Vma → Bool
contains addr vma = leb vma.vm_start addr && ltb addr vma.vm_end

-- The loop of `find_vma`.
unfoldable pub scan_vma : ℕ → List Vma → Option Vma
scan_vma addr [] = none
scan_vma addr (vma ∷ vmas) =
    let rest = scan_vma addr vmas in if contains addr vma then some vma else rest

abbrev pub is_cached : ℕ → Option Vma → Bool
is_cached addr none = false
is_cached addr (some vma) = contains addr vma

unfoldable pub find_vma : ℕ → Mm → Option Vma × Mm
unfolding scan_vma
find_vma addr mm =
    let vma = if is_cached addr mm.mmap_cache then mm.mmap_cache else scan_vma addr mm.mmap_list in
    (vma, elim vma [ none ↦ mm | some v ↦ record mm { mmap_cache = some v } ])

unfoldable pub check_vma_overlap : Vma → Vma → Outcome (Unit {0})
check_vma_overlap prev next = do
  assert (ltb prev.vm_start prev.vm_end)
  assert (leb prev.vm_end next.vm_start)
  assert (ltb next.vm_start next.vm_end)

-- The check against the area before, if there is one.
abbrev pub check_prev : Option Vma → Vma → Outcome (Unit {0})
check_prev none vma = ok tt
check_prev (some prev) vma = check_vma_overlap prev vma

-- `insert_vma_struct` from its loop on: `prev` is the area at `le_prev`.
unfoldable pub place_vma : Option Vma → Vma → List Vma → Outcome (List Vma)
unfolding check_vma_overlap
place_vma prev vma [] = check_prev prev vma >> ok (vma ∷ [])
place_vma prev vma (next ∷ vmas) =
    let rest = place_vma (some next) vma vmas in
    if ltb vma.vm_start next.vm_start
    then (check_prev prev vma >> (check_vma_overlap vma next >> ok (vma ∷ (next ∷ vmas))))
    else (rest >>= λ r. ok (next ∷ r))

unfoldable pub insert_vma_struct : Vma → Mm → Outcome Mm
unfolding place_vma
insert_vma_struct vma mm = do
  assert (ltb vma.vm_start vma.vm_end)
  vmas ← place_vma none (record vma { vm_mm = some mm.key }) mm.mmap_list
  ok (record mm { mmap_list = vmas; map_count = mm.map_count + 1 })

-- The result is the code, the area that is stored, and the state.
unfoldable pub mm_map : Bool → ℕ → ℕ → ℕ → Mm → Outcome ((ℤ × Option Vma) × Mm)
unfolding find_vma vma_create insert_vma_struct user_access
mm_map room addr len vm_flags mm =
    let start = round_down addr page_size in
    let end' = round_up (add64 addr len) page_size in
    let (found, mm') = find_vma start mm in
    if not (user_access start end')
    then ok ((e_inval, none), mm)
    else if elim found [ none ↦ false | some vma ↦ ltb vma.vm_start end' ]
    then ok ((e_inval, none), mm')
    else elim (vma_create room start end' vm_flags) [
      | none ↦ ok ((e_no_mem, none), mm')
      | some vma ↦ insert_vma_struct vma mm' >>= λ mm''.
          ok ((pos 0, some (record vma { vm_mm = some mm'.key })), mm'')
    ]

-- The flags of an area allow a read or a write at `start`.
abbrev pub allows : Bool → ℕ → Vma → Bool
allows write start vma =
    not (bit_and vma.vm_flags (if write then vm_write else vm_read) == 0)
    && not (
        write && (not (bit_and vma.vm_flags vm_stack == 0) && ltb start (vma.vm_start + page_size)))

-- The loop of `user_mem_check`.
unfoldable pub check_range : ℕ → Bool → ℕ → ℕ → Mm → Outcome (Bool × Mm)
unfolding find_vma
check_range zero write start end' mm = out_of_fuel
check_range (suc fuel) write start end' mm =
    let (found, mm') = find_vma start mm in
    if ltb start end'
    then elim found [
      | none ↦ ok (false, mm')
      | some vma ↦ elim (not (ltb start vma.vm_start) && allows write start vma) [
        | false ↦ ok (false, mm')
        | true ↦ check_range fuel write vma.vm_end end' mm'
      ]
    ]
    else ok (true, mm)

unfoldable pub user_mem_check : Option Mm → ℕ → ℕ → Bool → Outcome (Bool × Option Mm)
unfolding check_range user_access kern_access
user_mem_check none addr len write = ok (kern_access addr (add64 addr len), none)
user_mem_check (some mm) addr len write =
    if user_access addr (add64 addr len)
    then (check_range (length mm.mmap_list + 2) write addr (add64 addr len) mm >>= λ (b, mm').
        ok (b, some mm'))
    else ok (false, some mm)
