-- ===== src/Pmm/Guards.antt =====
-- The assertions of the allocator.
use nku_os_lab.Base.{ℕ, zero, suc, ◌+◌, ◌≤◌, ◌<◌, ◌≡◌, ◌⊎◌, true, false, arith, update, dec_lt}
use nku_os_lab.Base.Outcome.{panic}
use nku_os_lab.Pmm.{Pmm, Page, clear_pages, alloc_pages, free_pages}

clear_pages_panics :
    (n p q : ℕ) (page : ℕ → Page)
    → p ≤ q
    → q < p + n
    → ((page q).reserved ≡ true) ⊎ ((page q).head ≡ true)
    → clear_pages n p page ≡ panic
unfolding clear_pages
clear_pages_panics zero p q page lo hi h = absurd (omega arith)
clear_pages_panics (suc n) p q page lo hi h = elim (dec_lt p q) [
  | yes l ↦ ground (
    arith,
    h,
    clear_pages_panics n (suc p) q
        (update page p (record (page p) { ref = 0; reserved = false; head = false })),
  )
  | no l ↦ let e : p ≡ q = omega arith in rw e (ground (arith, h))
]

-- `default_free_pages` fails an assertion if no page is freed, or if a page of the range is reserved
-- or starts a free block, so that a free block is not freed again; `default_alloc_pages` fails one
-- on a request of no page.
pub bad_requests_panic :
    (fuel base n : ℕ) (s : Pmm)
    → (alloc_pages fuel 0 s ≡ panic)
      × (free_pages fuel base 0 s ≡ panic)
      × ((q : ℕ)
          → base ≤ q
          → q < base + n
          → ((s.page q).reserved ≡ true) ⊎ ((s.page q).head ≡ true)
          → free_pages fuel base n s ≡ panic)
unfolding alloc_pages free_pages
bad_requests_panic fuel base n s = (
  ground arith,
  ground arith,
  λ q lo hi h. ground (arith, clear_pages_panics n base q s.page lo hi h),
)
