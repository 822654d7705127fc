-- ===== src/Pmm/Insert.antt =====
-- How `default_free_pages` resets the pages of a block and links it into the free list, before the
-- merges: where some free block lies above, and where the list is empty.
use nku_os_lab.Base.{
  ℕ, zero, suc, ◌+◌, ◌^◌, ◌≤◌, ◌<◌, ◌≡◌, ◌≢◌, refl, ◌⊎◌, inl, inr, List, [], ◌∷◌, ◌++◌, true, false,
  All, All-append, All-append_left, All-append_right, All-mono, arith, length, update,
}
use nku_os_lab.Base.Outcome.{ok}
use nku_os_lab.ListEntry.{Links, list_add_before, list_empty}
use nku_os_lab.ListEntry.Ring.{IsRing, Chain}
use nku_os_lab.Pmm.{Pmm, Page, free_list, u32, clear_pages, set_block, link_loop, link_block}
use nku_os_lab.Pmm.Blocks.{
  Block, block, end_of, links_of, total, IsSorted, total-append, IsSorted-starts, IsSorted-insert,
}
use nku_os_lab.Pmm.Represents.{Represents, Describes, Describes-update}

-- The pages `p` to `p + n - 1` are allocated: neither reserved nor the start of a free block.
abbrev pub AreAllocated : (ℕ → Page) → ℕ → ℕ → Type 0
AreAllocated page p n =
    (q : ℕ) → p ≤ q → q < p + n → ((page q).reserved ≡ false) × ((page q).head ≡ false)

-- The loop over the pages resets them and no others.
pub clear_pages_lem :
    (n p : ℕ) (page : ℕ → Page)
    → AreAllocated page p n
    → (page' : ℕ → Page) × (clear_pages n p page ≡ ok page')
      × ((q : ℕ) → (q < p) ⊎ (p + n ≤ q) → page' q ≡ page q)
unfolding clear_pages
clear_pages_lem zero p page h = (page, refl, λ q o. refl)
clear_pages_lem (suc n) p page h =
    let cleared = update page p (record (page p) { ref = 0; reserved = false; head = false }) in
    let (page', e, out) = clear_pages_lem n (suc p) cleared (λ q lo hi. (
      ground (arith, h q (omega arith) (omega arith)),
      ground (arith, h q (omega arith) (omega arith)),
    )) in
    let here = h p (omega arith) (omega arith) in
    (page', rw (here.0, here.1) e, λ q o. ground (arith, o, out q (shift q o)))
  where
    shift : (q : ℕ) → (q < p) ⊎ (p + suc n ≤ q) → (q < suc p) ⊎ (suc p + n ≤ q)
    shift q (inl a) = inl (omega arith)
    shift q (inr b) = inr (omega arith)

-- The loop stops before the first block above `base`.
link_loop_before :
    (fuel le base : ℕ) (l : Links) (xs : List Block) (y : Block) (ys : List Block)
    → Chain l le (links_of (xs ++ (y ∷ ys))) free_list
    → All (λ c. c.base ≤ base) xs
    → base < y.base
    → length xs < fuel
    → link_loop fuel le base l ≡ ok (list_add_before (suc y.base) (suc base) l)
unfolding link_loop
link_loop_before zero le base l xs y ys c a h f = absurd (omega arith)
link_loop_before (suc fuel) le base l [] y ys c a h f = ground (arith, c.0)
link_loop_before (suc fuel) le base l (x ∷ []) y ys c a h f = ground (
  arith,
  c.0,
  a.0,
  c.2.0,
  link_loop_before fuel (suc x.base) base l [] y ys c.2 a.1 h (omega arith),
)
link_loop_before (suc fuel) le base l (x ∷ z ∷ xs) y ys c a h f = ground (
  arith,
  c.0,
  a.0,
  c.2.0,
  link_loop_before fuel (suc x.base) base l (z ∷ xs) y ys c.2 a.1 h (omega arith),
)

next_of_links :
    (l : Links) (xs : List Block) (y : Block) (ys : List Block)
    → Chain l free_list (links_of (xs ++ (y ∷ ys))) free_list
    → list_empty free_list l ≡ false
unfolding list_empty
next_of_links l [] y ys c = ground (arith, c.0)
next_of_links l (x ∷ xs) y ys c = ground (arith, c.0)

pub link_block_before :
    (fuel base : ℕ) (l : Links) (xs : List Block) (y : Block) (ys : List Block)
    → Chain l free_list (links_of (xs ++ (y ∷ ys))) free_list
    → All (λ c. c.base ≤ base) xs
    → base < y.base
    → length xs < fuel
    → link_block fuel base l ≡ ok (list_add_before (suc y.base) (suc base) l)
unfolding link_block
link_block_before fuel base l xs y ys c a h f =
    rw (next_of_links l xs y ys c) (link_loop_before fuel free_list base l xs y ys c a h f)

-- A block of `n` pages from `base` on lies between `xs` and `ys`, and its pages are allocated.
pub record IsGap (s : Pmm) (xs : List Block) (base n : ℕ) (ys : List Block) : Type 0 where
  pub allocated : AreAllocated s.page base n
  pub positive : 0 < n
  pub below : All (λ c. end_of c ≤ base) xs
  pub above : IsSorted (base + n) ys
  pub fits : total (xs ++ ys) + n < 2 ^ 32

module _ {s : Pmm} (xs : List Block) (base n : ℕ) (ys : List Block) (r : Represents s (xs ++ ys))
    (g : IsGap s xs base n ys) (page' : ℕ → Page)
    (same : (q : ℕ) → (q < base) ⊎ (base + n ≤ q) → page' q ≡ s.page q) (l : Links)
    (ring : IsRing l free_list (links_of (xs ++ (block base n ∷ ys)))) where
  -- Resetting the pages does not touch the descriptors of the free blocks.
  untouched :
      (zs : List Block)
      → All (λ c. (c.base < base) ⊎ (base + n ≤ c.base)) zs
      → All (Describes s.page) zs
      → All (Describes page') zs
  untouched [] o d = tt
  untouched (z ∷ zs) o d = (rw (same z.base o.0) d.0, untouched zs o.1 d.1)

  keep :
      (zs : List Block)
      → All (λ c. (c.base < base) ⊎ (base + n ≤ c.base)) zs
      → All (Describes s.page) zs
      → All (Describes (set_block base n (record s { page = page' })).page) zs
  unfolding set_block
  keep zs o d =
      Describes-update page' base (record (page' base) { head = true; property = u32 n }) zs
        (All-mono (λ c. (c.base < base) ⊎ (base + n ≤ c.base)) (λ c. c.base ≢ base) zs
          (λ c k e. omega (arith, g.positive)) o)
        (untouched zs o d)

  xs_positive : All (λ c. 0 < c.size) xs
  xs_positive = go 0 xs r.sorted
    where
      go : (lo : ℕ) (zs : List Block) → IsSorted lo (zs ++ ys) → All (λ c. 0 < c.size) zs
      go lo [] h = tt
      go lo (z ∷ zs) h = (h.1, go (end_of z) zs h.2)

  below_base :
      (zs : List Block)
      → All (λ c. 0 < c.size) zs
      → All (λ c. end_of c ≤ base) zs
      → All (λ c. (c.base < base) ⊎ (base + n ≤ c.base)) zs
  below_base [] p h = tt
  below_base (z ∷ zs) p h = (inl (omega (arith, p.0, h.0)), below_base zs p.1 h.1)

  -- The marked and linked block joins the blocks represented.
  pub set_block-Represents :
      Represents
        (record (set_block base n (record s { page = page' })) { links = l })
        (xs ++ (block base n ∷ ys))
  unfolding set_block
  set_block-Represents = record {
    ring = ring;
    sizes =
        All-append (Describes (set_block base n (record s { page = page' })).page) xs
          (block base n ∷ ys)
          (keep xs (below_base xs xs_positive g.below)
            (All-append_left (Describes s.page) xs ys r.sizes))
          (
            (ground (arith, g.fits), ground arith),
            keep ys
                (All-mono (λ c. base + n ≤ c.base) (λ c. (c.base < base) ⊎ (base + n ≤ c.base)) ys
                  (λ c k. inr k) (IsSorted-starts (base + n) ys g.above))
                (All-append_right (Describes s.page) xs ys r.sizes),
          );
    sorted =
        IsSorted-insert 0 xs (block base n) ys (omega arith) g.positive g.below g.above r.sorted;
    counted =
        omega (arith, r.counted, g.fits, total-append xs (block base n ∷ ys), total-append xs ys);
    small = omega (arith, g.fits, total-append xs (block base n ∷ ys), total-append xs ys);
  }
