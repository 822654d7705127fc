-- ===== src/Pmm/Alloc.antt =====
-- `default_alloc_pages` against `first_fit`.
use nku_os_lab.Base.{
  ℕ, ◌≤◌, ◌<◌, ◌≡◌, subst, List, ◌∷◌, ◌++◌, Option, none, some, All, arith, lt→ltb, ltb-eq-false,
  length, length-append, dec_lt,
}
use nku_os_lab.Base.Outcome.{ok}
use nku_os_lab.Pmm.{Pmm, free_list, take_pages, alloc_pages}
use nku_os_lab.Pmm.Blocks.{Block, total-append, first_fit}
use nku_os_lab.Pmm.Represents.{Represents}
use nku_os_lab.Pmm.Search.{find_page-none, find_page-some, Fit, misses, fits, Fit-total, leftover}
use nku_os_lab.Pmm.Take.{take_pages_all, take_pages_split}

-- What the allocator is to do, given what the specification says.
abbrev pub Allocates : ℕ → ℕ → Pmm → Option (ℕ × List Block) → Type 0
Allocates fuel n s none = alloc_pages fuel n s ≡ ok (none, s)
Allocates fuel n s (some (p, bs)) =
    (t : Pmm) × (alloc_pages fuel n s ≡ ok (some p, t)) × Represents t bs

take_pages-Represents :
    {s : Pmm} (xs : List Block) (b : Block) (ys : List Block) (n : ℕ)
    → 0 < n
    → n ≤ b.size
    → Represents s (xs ++ (b ∷ ys))
    → Represents (take_pages b.base n s) (xs ++ leftover n b ys)
take_pages-Represents {s} xs b ys n pos m r = elim (dec_lt n b.size) [
  | yes h ↦ rw (lt→ltb n b.size h) (take_pages_split xs b ys r n pos h)
  | no h ↦ rw (ltb-eq-false n b.size (omega arith)) (
      subst (λ k. Represents (take_pages b.base k s) (xs ++ ys)) (omega arith)
        (take_pages_all xs b ys r))
]

module _ (fuel n : ℕ) {s : Pmm} (pos : 0 < n) where
  alloc_pages-none :
      (bs : List Block)
      → length bs < fuel
      → Represents s bs
      → All (λ c. c.size < n) bs
      → alloc_pages fuel n s ≡ ok (none, s)
  unfolding alloc_pages
  alloc_pages-none bs enough r a =
      ground (arith, find_page-none fuel free_list n s bs r.ring.linked r.sizes a enough)

  alloc_pages-some :
      (xs : List Block) (b : Block) (ys : List Block)
      → length (xs ++ (b ∷ ys)) < fuel
      → Represents s (xs ++ (b ∷ ys))
      → All (λ c. c.size < n) xs
      → n ≤ b.size
      → alloc_pages fuel n s ≡ ok (some b.base, take_pages b.base n s)
  unfolding alloc_pages
  alloc_pages-some xs b ys enough r a m = ground (
    arith,
    r.counted,
    total-append xs (b ∷ ys),
    find_page-some fuel free_list n s xs b ys r.ring.linked r.sizes a m
        (omega (arith, length-append {0} xs (b ∷ ys))),
  )

  -- On a state that represents `bs`, with fuel for its length, `default_alloc_pages` does what
  -- `first_fit` says: it returns NULL and changes nothing if no block has `n` pages, and otherwise
  -- returns the first page of the first such block, in a state that represents the blocks left.
  pub alloc_pages_refines :
      (bs : List Block) → length bs < fuel → Represents s bs → Allocates fuel n s (first_fit n bs)
  alloc_pages_refines bs enough r = go (Fit-total n bs)
    where
      go : Fit n bs → Allocates fuel n s (first_fit n bs)
      go (misses a e) = rw e (alloc_pages-none bs enough r a)
      go (fits xs b ys q a m e) =
          let enough' = subst (λ l. length l < fuel) q enough in
          let r' = subst (Represents s) q r in
          rw e (
            take_pages b.base n s,
            alloc_pages-some xs b ys enough' r' a m,
            take_pages-Represents xs b ys n pos m r',
          )
