-- ===== src/Pmm/Tests.antt =====
-- Runs of the allocator, and its theorems at concrete states.
use nku_os_lab.Base.{
  ℕ, ◌+◌, ◌≤◌, ◌<◌, ◌≡◌, refl, ◌⊎◌, true, false, some, List, [], ◌∷◌, arith, update,
}
use nku_os_lab.Base.Outcome.{ok, panic}
use nku_os_lab.Pmm.Search.{leftover}
use nku_os_lab.Pmm.{Page, Pmm, take_pages, init, init_memmap, alloc_pages, free_pages}
use nku_os_lab.Pmm.Blocks.{Block, block, first_fit}
use nku_os_lab.Pmm.Represents.{Represents}
use nku_os_lab.Pmm.Insert.{IsGap}
use nku_os_lab.Pmm.Alloc.{Allocates, alloc_pages_refines}
use nku_os_lab.Pmm.Free.{Frees, release, free_pages_refines}
use nku_os_lab.Pmm.Twice.{double_allocation}
use nku_os_lab.Pmm.Covers.{Takes, alloc_pages-Takes}
use nku_os_lab.Pmm.Apart.{IsApart, release-IsApart, release-leftover}
use nku_os_lab.Pmm.Guards.{bad_requests_panic}
use nku_os_lab.Pmm.Boot.{init_memmap-Represents}

abbrev reserved_page : Page
reserved_page = record { ref = 0; reserved = true; head = false; property = 0 }

abbrev used_page : Page
used_page = record { ref = 0; reserved = false; head = false; property = 0 }

abbrev free_page : ℕ → Page
free_page n = record { ref = 0; reserved = false; head = true; property = n }

abbrev boot : Pmm
boot = record {
  page = λ _. reserved_page;
  links = record { prev = λ _. 0; next = λ _. 0 };
  nr_free = 7;
}

-- Two free blocks: pages 4 and 5, and pages 9 to 12.
abbrev two_blocks : Pmm
two_blocks = record {
  page = update (update (λ _. used_page) 4 (free_page 2)) 9 (free_page 4);
  links = record {
    prev = update (update (λ _. 0) 10 5) 0 10;
    next = update (update (λ _. 0) 0 5) 5 10;
  };
  nr_free = 6;
}

abbrev blocks : List Block
blocks = block 4 2 ∷ block 9 4 ∷ []

-- Two free pages, 1 and 3.
abbrev two_pages : Pmm
two_pages = record {
  page = update (update (λ _. used_page) 1 (free_page 1)) 3 (free_page 1);
  links = record {
    prev = update (update (λ _. 0) 4 2) 0 4;
    next = update (update (λ _. 0) 0 2) 2 4;
  };
  nr_free = 2;
}

two_blocks-Represents : Represents two_blocks blocks
two_blocks-Represents = record {
  ring = record { linked = (refl, refl, (refl, refl, (refl, refl))); distinct = omega arith };
  sizes = ((refl, refl), ((refl, refl), tt));
  sorted = omega arith;
  counted = refl;
  small = omega arith;
}

two_pages-Represents : Represents two_pages (block 1 1 ∷ block 3 1 ∷ [])
two_pages-Represents = record {
  ring = record { linked = (refl, refl, (refl, refl, (refl, refl))); distinct = omega arith };
  sizes = ((refl, refl), ((refl, refl), tt));
  sorted = omega arith;
  counted = refl;
  small = omega arith;
}

gap : IsGap two_blocks (block 4 2 ∷ []) 6 2 (block 9 4 ∷ [])
gap = record {
  allocated = λ q lo hi. (ground arith, ground arith);
  positive = omega arith;
  below = omega arith;
  above = omega arith;
  fits = omega arith;
}

IsGap-behind : IsGap two_pages (block 1 1 ∷ block 3 1 ∷ []) 5 2 []
IsGap-behind = record {
  allocated = λ q lo hi. (ground arith, ground arith);
  positive = omega arith;
  below = omega arith;
  above = omega arith;
  fits = omega arith;
}

alloc_pages_refines_example : Allocates 9 3 two_blocks (first_fit 3 blocks)
alloc_pages_refines_example =
    alloc_pages_refines 9 3 (omega arith) blocks (omega arith) two_blocks-Represents

free_pages_refines_example : Frees 9 6 2 two_blocks (release (block 4 2 ∷ []) 6 2 (block 9 4 ∷ []))
free_pages_refines_example =
    free_pages_refines 9 (block 4 2 ∷ []) 6 2 (block 9 4) [] (omega arith) two_blocks-Represents gap

double_allocation_example :
    (t : Pmm) × (u : Pmm) × (v : Pmm) × (free_pages 9 5 2 two_pages ≡ ok t)
    × (alloc_pages 9 2 t ≡ ok (some 5, u))
    × (alloc_pages 9 2 u ≡ ok (some 5, v))
double_allocation_example =
    double_allocation 9 (block 1 1 ∷ []) (block 3 1) 5 2 (omega arith) two_pages-Represents
      IsGap-behind (omega arith) (omega arith)

release-IsApart_example : IsApart (release (block 4 2 ∷ []) 6 3 (block 9 4 ∷ []))
release-IsApart_example =
    release-IsApart (block 4 2 ∷ []) 6 3 (block 9 4 ∷ []) (omega arith) (omega arith) (omega arith)
      (omega arith) (omega arith)

release-leftover_example : release (block 4 2 ∷ []) 9 1 (leftover 1 (block 9 4) []) ≡ blocks
release-leftover_example =
    release-leftover 1 (block 4 2 ∷ []) (block 9 4) [] (omega arith) (omega arith)

alloc_two_blocks : alloc_pages 9 3 two_blocks ≡ ok (some 9, take_pages 9 3 two_blocks)
unfolding alloc_pages
alloc_two_blocks = refl

alloc_pages-Takes_example :
    (cs : List Block) × Represents (take_pages 9 3 two_blocks) cs × Takes 9 3 blocks cs
alloc_pages-Takes_example =
    alloc_pages-Takes 9 3 blocks 9 (take_pages 9 3 two_blocks) (omega arith) (omega arith)
      two_blocks-Represents alloc_two_blocks

bad_requests_panic_example :
    (alloc_pages 9 0 two_blocks ≡ panic)
    × (free_pages 9 7 0 two_blocks ≡ panic)
    × ((q : ℕ)
        → 7 ≤ q
        → q < 7 + 3
        → ((two_blocks.page q).reserved ≡ true) ⊎ ((two_blocks.page q).head ≡ true)
        → free_pages 9 7 3 two_blocks ≡ panic)
bad_requests_panic_example = bad_requests_panic 9 7 3 two_blocks

init_memmap-Represents_example :
    (t : Pmm) × (init_memmap 9 4 12 (init boot) ≡ ok t) × Represents t (block 4 12 ∷ [])
init_memmap-Represents_example =
    init_memmap-Represents 9 4 12 boot (omega arith) (omega arith) (λ q lo hi. refl)
