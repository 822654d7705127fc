-- ===== src/Pmm/Boot.antt =====
-- The first use of the allocator: `default_init`, then `default_init_memmap` on one range of pages.
use nku_os_lab.Base.{
  ℕ, zero, suc, ◌+◌, ◌^◌, ◌≤◌, ◌<◌, ◌≡◌, refl, [], ◌∷◌, true, false, arith, update,
}
use nku_os_lab.Base.Outcome.{ok}
use nku_os_lab.ListEntry.{list_init, list_add}
use nku_os_lab.ListEntry.Ring.{list_init-IsRing, list_empty_nil}
use nku_os_lab.ListEntry.Add.{list_add-IsRing}
use nku_os_lab.Pmm.{Pmm, Page, free_list, init, init_pages, init_memmap, set_block, link_block}
use nku_os_lab.Pmm.Blocks.{block}
use nku_os_lab.Pmm.Represents.{Represents}

init_pages_total :
    (n p : ℕ) (page : ℕ → Page)
    → ((q : ℕ) → p ≤ q → q < p + n → (page q).reserved ≡ true)
    → (page' : ℕ → Page) × (init_pages n p page ≡ ok page')
unfolding init_pages
init_pages_total zero p page h = (page, refl)
init_pages_total (suc n) p page h =
    let (page', e) =
      init_pages_total n (suc p)
        (update page p (record { ref = 0; reserved = false; head = false; property = 0 }))
        (λ q lo hi. ground (arith, h q (omega arith) (omega arith))) in
    (page', rw (h p (omega arith) (omega arith)) e)

-- After `default_init`, handing a range of `n` reserved pages to `default_init_memmap` returns a
-- state that represents that range as the one free block.
pub init_memmap-Represents :
    (fuel base n : ℕ) (s : Pmm)
    → 0 < n
    → n < 2 ^ 32
    → ((q : ℕ) → base ≤ q → q < base + n → (s.page q).reserved ≡ true)
    → (t : Pmm) × (init_memmap fuel base n (init s) ≡ ok t) × Represents t (block base n ∷ [])
unfolding init init_memmap link_block set_block
init_memmap-Represents fuel base n s pos small h =
    let (page', e) = init_pages_total n base s.page h in
    let empty = list_init-IsRing free_list s.links in
    (
      record (set_block base n (record s { page = page'; nr_free = 0 })) {
        links = list_add free_list (suc base) (list_init free_list s.links);
      },
      ground (arith, pos, e, list_empty_nil free_list (list_init free_list s.links) empty),
      record {
        ring = list_add-IsRing [] [] (suc base) empty (omega arith);
        sizes = ((ground (arith, small), ground arith), tt);
        sorted = omega arith;
        counted = omega arith;
        small = omega arith;
      },
    )
