-- ===== src/Paging.antt =====
-- Lab8/code/kern/mm/pmm.c and pmm.h: the three levels of page tables. A page, `struct Page *`, is known
-- by its number (`page2ppn`), and a page of memory that holds a table by its 512 entries. NULL is
-- `none`, and a pointer to an entry is a page and an index.
pub mod Bits
pub mod Tree
pub mod Graft
pub mod Grow
pub mod Plant
pub mod FirstFit
pub mod Release
pub mod Place
pub mod Insert
mod Tests
use Prim.Native.Nat.{bit_or}
use nku_os_lab.Base.{
  ℕ, zero, suc, ◌+◌, ◌-◌, ◌*◌, ◌/◌, ◌%◌, ◌^◌, Bool, true, false, not, ◌&&◌, Option, none, some,
  List, [], ◌∷◌, ltb, ◌==◌, if◌then◌else◌, update,
}
use nku_os_lab.Base.Int.{ℤ, pos}
use nku_os_lab.Base.Outcome.{Outcome, ok, panic, ◌>>=◌, ◌>>◌, assert}
use nku_os_lab.Buffer.{e_no_mem}

-- What page tables take of `struct pmm_manager`.
pub record PmmManager (S : Type 0) : Type 0 where
  pub alloc_pages : ℕ → S → Outcome (Option ℕ × S)
  pub free_pages : ℕ → ℕ → S → Outcome S

-- The entries of every page, the 32 bits of `ref` of every page, and the state of the allocator.
pub record Vm (S : Type 0) : Type 0 where
  pub mem : ℕ → ℕ → ℕ
  pub ref : ℕ → ℕ
  pub pool : S

abbrev pub pdx1 : ℕ → ℕ
pdx1 la = la / 2 ^ 30 % 512

abbrev pub pdx0 : ℕ → ℕ
pdx0 la = la / 2 ^ 21 % 512

abbrev pub ptx : ℕ → ℕ
ptx la = la / 2 ^ 12 % 512

abbrev pub pte_u : ℕ
pte_u = 0x10

-- `pte & PTE_V`
abbrev pub pte_v : ℕ → Bool
pte_v pte = pte % 2 == 1

-- `PPN(PTE_ADDR(pte))`
unfoldable pub pte_ppn : ℕ → ℕ
pte_ppn pte = pte / 1024 * 1024 * 4 % 2 ^ 64 / 2 ^ 12

unfoldable pub pte_create : ℕ → ℕ → ℕ
pte_create ppn type = bit_or (bit_or (ppn * 1024 % 2 ^ 64) 1) type

module _ {S : Type 0} where
  abbrev pub set_entry : ℕ → ℕ → ℕ → Vm S → Vm S
  set_entry t i pte s = record s { mem = update s.mem t (update (s.mem t) i pte) }

  abbrev pub set_page_ref : ℕ → ℕ → Vm S → Vm S
  set_page_ref page val s = record s { ref = update s.ref page val }

  abbrev pub page_ref_inc : ℕ → Vm S → Vm S
  page_ref_inc page s = set_page_ref page ((s.ref page + 1) % 2 ^ 32) s

  abbrev pub page_ref_dec : ℕ → Vm S → Vm S
  page_ref_dec page s = set_page_ref page ((s.ref page + (2 ^ 32 - 1)) % 2 ^ 32) s

module _ {S : Type 0} (pmm_manager : PmmManager S) (npage : ℕ) where
  -- `KADDR(PDE_ADDR(pte))` and `pa2page(PTE_ADDR(pte))`
  unfoldable pub page_at : ℕ → Outcome ℕ
  unfolding pte_ppn
  page_at pte = assert (ltb (pte_ppn pte) npage) >> ok (pte_ppn pte)

  unfoldable pub pte2page : ℕ → Outcome ℕ
  unfolding page_at
  pte2page pte = assert (pte_v pte) >> page_at pte

  unfoldable pub alloc_page : Vm S → Outcome (Option ℕ × Vm S)
  alloc_page s =
      pmm_manager.alloc_pages 1 s.pool >>= λ (page, pool). ok (page, record s { pool = pool })

  unfoldable pub free_page : ℕ → Vm S → Outcome (Vm S)
  free_page page s = pmm_manager.free_pages page 1 s.pool >>= λ pool. ok (record s { pool = pool })

  -- The page that was allocated becomes a table of zeros, named by the entry `i` of `t`.
  abbrev pub hang_table : ℕ → ℕ → Option ℕ → Vm S → Outcome (Option ℕ × Vm S)
  hang_table t i none s = ok (none, s)
  hang_table t i (some page) s =
      let u = set_page_ref page 1 s in
      let v = record u { mem = update u.mem page (λ j. 0) } in
      assert (ltb page npage)
      >> (let w = set_entry t i (pte_create page (bit_or pte_u 1)) v in
          page_at (w.mem t i) >>= λ c. ok (some c, w))

  -- One level of `get_pte`: the table that the entry `i` of `t` names.
  unfoldable pub descend : Bool → ℕ → ℕ → Vm S → Outcome (Option ℕ × Vm S)
  unfolding alloc_page page_at
  descend create t i s =
      let made : Outcome (Option ℕ × Vm S) =
        if create then (alloc_page s >>= λ (page, u). hang_table t i page u) else ok (none, s) in
      if pte_v (s.mem t i) then (page_at (s.mem t i) >>= λ c. ok (some c, s)) else made

  -- What follows the second level, and the first.
  abbrev pub entry_in : ℕ → Option ℕ → Vm S → Outcome (Option (ℕ × ℕ) × Vm S)
  entry_in la none s = ok (none, s)
  entry_in la (some pt) s = ok (some (pt, ptx la), s)

  unfoldable pub below_pd0 : ℕ → Bool → Option ℕ → Vm S → Outcome (Option (ℕ × ℕ) × Vm S)
  unfolding descend
  below_pd0 la create none s = ok (none, s)
  below_pd0 la create (some pd0) s = descend create pd0 (pdx0 la) s >>= λ (pt, t). entry_in la pt t

  unfoldable pub get_pte : ℕ → ℕ → Bool → Vm S → Outcome (Option (ℕ × ℕ) × Vm S)
  unfolding below_pd0
  get_pte pgdir la create s =
      descend create pgdir (pdx1 la) s >>= λ (pd0, t). below_pd0 la create pd0 t

  unfoldable pub get_page : ℕ → ℕ → Vm S → Outcome (Option ℕ × Vm S)
  unfolding get_pte pte2page
  get_page pgdir la s = get_pte pgdir la false s >>= λ (ptep, t). elim ptep [
    | none ↦ ok (none, t)
    | some (p, i) ↦
        if pte_v (t.mem p i)
        then (pte2page (t.mem p i) >>= λ page. ok (some page, t))
        else ok (none, t)
  ]

  unfoldable pub page_remove_pte : ℕ → ℕ → Vm S → Outcome (Vm S)
  unfolding pte2page free_page
  page_remove_pte p i s =
      if pte_v (s.mem p i)
      then (pte2page (s.mem p i) >>= λ page.
          let t = page_ref_dec page s in
          (if t.ref page == 0 then free_page page t else ok t) >>= λ u. ok (set_entry p i 0 u))
      else ok s

  unfoldable pub page_remove : ℕ → ℕ → Vm S → Outcome (Vm S)
  unfolding get_pte page_remove_pte
  page_remove pgdir la s = get_pte pgdir la false s >>= λ (ptep, t). elim ptep [
    | none ↦ ok t
    | some (p, i) ↦ page_remove_pte p i t
  ]

  -- `page_insert` once the entry is found.
  unfoldable pub insert_at : ℕ → ℕ → ℕ → ℕ → Vm S → Outcome (Vm S)
  unfolding pte2page page_remove_pte
  insert_at p i page perm s =
      let t = page_ref_inc page s in
      (if pte_v (t.mem p i)
        then (pte2page (t.mem p i) >>= λ old.
            if old == page then ok (page_ref_dec page t) else page_remove_pte p i t)
        else ok t)
      >>= λ u. ok (set_entry p i (pte_create page (bit_or 1 perm)) u)

  unfoldable pub page_insert : ℕ → ℕ → ℕ → ℕ → Vm S → Outcome (ℤ × Vm S)
  unfolding get_pte insert_at
  page_insert pgdir page la perm s = get_pte pgdir la true s >>= λ (ptep, t). elim ptep [
    | none ↦ ok (e_no_mem, t)
    | some (p, i) ↦ insert_at p i page perm t >>= λ u. ok (pos 0, u)
  ]
