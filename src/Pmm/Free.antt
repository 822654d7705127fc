-- ===== src/Pmm/Free.antt =====
-- `default_free_pages` where the freed block lies below some free block, or is the only one.
use nku_os_lab.Base.{
  ℕ, suc, ◌+◌, ◌≤◌, ◌<◌, ◌≡◌, ◌≢◌, sym, subst, List, [], ◌∷◌, ◌++◌, true, All, All-append, All-mono,
  arith, length,
}
use nku_os_lab.Base.Outcome.{ok}
use nku_os_lab.ListEntry.{Links, list_add, list_add_before, list_empty}
use nku_os_lab.ListEntry.Ring.{Fresh, IsRing, list_empty_nil}
use nku_os_lab.ListEntry.Add.{list_add_before-IsRing, list_add-IsRing}
use nku_os_lab.Pmm.{Pmm, Page, free_list, set_block, link_block, merge_prev, merge_next, free_pages}
use nku_os_lab.Pmm.Blocks.{
  Block, block, end_of, links_of, IsSorted, links_of-append, IsSorted-starts, Fresh-links_of,
}
use nku_os_lab.Pmm.Represents.{Represents}
use nku_os_lab.Pmm.Insert.{clear_pages_lem, link_block_before, IsGap, set_block-Represents}
use nku_os_lab.Pmm.Merge.{coalesce_prev, coalesce_next, merge_prev_refines, merge_next_refines}

-- The list of blocks after the block at `base` of `n` pages is freed between `xs` and `ys`.
unfoldable pub release : List Block → ℕ → ℕ → List Block → List Block
release xs base n ys =
    let (ws, b) = coalesce_prev xs (block base n) in
    let (b', zs) = coalesce_next b ys in ws ++ (b' ∷ zs)

pub gap-Fresh :
    {s : Pmm} (xs : List Block) (base n : ℕ) (ys : List Block)
    → Represents s (xs ++ ys)
    → IsGap s xs base n ys
    → Fresh (suc base) (free_list ∷ (links_of xs ++ links_of ys))
gap-Fresh {s} xs base n ys r g = (
  omega arith,
  subst (Fresh (suc base)) (links_of-append xs ys) (
      Fresh-links_of base (xs ++ ys) (
        All-append (λ c. suc c.base ≢ suc base) xs ys (lower 0 xs r.sorted g.below)
          (All-mono (λ c. base + n ≤ c.base) (λ c. suc c.base ≢ suc base) ys
            (λ c k. omega (arith, g.positive)) (IsSorted-starts (base + n) ys g.above)))),
)
  where
    lower :
        (lo : ℕ) (zs : List Block)
        → IsSorted lo (zs ++ ys)
        → All (λ c. end_of c ≤ base) zs
        → All (λ c. suc c.base ≢ suc base) zs
    lower lo [] h e = tt
    lower lo (z ∷ zs) h e = (omega (arith, h.1, e.0), lower (end_of z) zs h.2 e.1)

-- From the linked block on: the two merges.
merges_refine :
    {u : Pmm} (xs : List Block) (base n : ℕ) (ys : List Block)
    → Represents u (xs ++ (block base n ∷ ys))
    → let (base', v) = merge_prev base u in Represents (merge_next base' v) (release xs base n ys)
unfolding release
merges_refine {u} xs base n ys r =
    let (t, e, rt) = merge_prev_refines xs (block base n) ys r in
    rw e (
      merge_next_refines (coalesce_prev xs (block base n)).0 (coalesce_prev xs (block base n)).1 ys
        rt)

-- What `default_free_pages` is to do: return, in a state of the blocks `bs`.
abbrev pub Frees : ℕ → ℕ → ℕ → Pmm → List Block → Type 0
Frees fuel base n s bs = (t : Pmm) × (free_pages fuel base n s ≡ ok t) × Represents t bs

module _ (fuel : ℕ) {s : Pmm} (xs : List Block) (base n : ℕ) (ys : List Block)
    (r : Represents s (xs ++ ys)) (g : IsGap s xs base n ys) (l : Links) where
  finish :
      ((page : ℕ → Page)
        → link_block fuel base (set_block base n (record s { page = page })).links ≡ ok l)
      → IsRing l free_list (links_of (xs ++ (block base n ∷ ys)))
      → Frees fuel base n s (release xs base n ys)
  unfolding free_pages
  finish linked ring =
      let (page', e, out) = clear_pages_lem n base s.page g.allocated in
      let u = record (set_block base n (record s { page = page' })) { links = l } in
      (
        merge_next (merge_prev base u).0 (merge_prev base u).1,
        ground (arith, g.positive, e, linked page'),
        merges_refine xs base n ys (set_block-Represents xs base n ys r g page' out l ring),
      )

-- Where the freed block lies below the block `y`, with fuel for the list, `default_free_pages`
-- returns, in a state that represents the old blocks with the freed one in its place, joined with
-- each neighbour that it touches.
pub free_pages_refines :
    (fuel : ℕ) {s : Pmm} (xs : List Block) (base n : ℕ) (y : Block) (ys : List Block)
    → length xs < fuel
    → Represents s (xs ++ (y ∷ ys))
    → IsGap s xs base n (y ∷ ys)
    → Frees fuel base n s (release xs base n (y ∷ ys))
unfolding set_block
free_pages_refines fuel {s} xs base n y ys enough r g =
    finish fuel xs base n (y ∷ ys) r g (list_add_before (suc y.base) (suc base) s.links)
      (λ page.
        link_block_before fuel base s.links xs y ys r.ring.linked
          (All-mono (λ c. end_of c ≤ base) (λ c. c.base ≤ base) xs (λ c k. omega arith) g.below)
          (omega (arith, g.positive, g.above.0)) enough)
      (subst (IsRing (list_add_before (suc y.base) (suc base) s.links) free_list)
        (sym (links_of-append xs (block base n ∷ y ∷ ys)))
        (list_add_before-IsRing (links_of xs) (links_of (y ∷ ys)) (suc base)
          (subst (IsRing s.links free_list) (links_of-append xs (y ∷ ys)) r.ring)
          (gap-Fresh xs base n (y ∷ ys) r g)))

link_block_empty :
    (fuel base : ℕ) (l : Links)
    → list_empty free_list l ≡ true
    → link_block fuel base l ≡ ok (list_add free_list (suc base) l)
unfolding link_block
link_block_empty fuel base l e = rw e

-- On an empty free list `default_free_pages` returns, in a state of the one freed block.
pub free_pages_empty :
    (fuel : ℕ) {s : Pmm} (base n : ℕ)
    → Represents s []
    → IsGap s [] base n []
    → Frees fuel base n s (block base n ∷ [])
unfolding release coalesce_prev coalesce_next set_block
free_pages_empty fuel {s} base n r g =
    finish fuel [] base n [] r g (list_add free_list (suc base) s.links)
      (λ page. link_block_empty fuel base s.links (list_empty_nil free_list s.links r.ring))
      (list_add-IsRing [] [] (suc base) r.ring (gap-Fresh [] base n [] r g))
