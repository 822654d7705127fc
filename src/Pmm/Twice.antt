-- ===== src/Pmm/Twice.antt =====
-- `default_alloc_pages` on a block that `default_free_pages` linked in above every other.
use nku_os_lab.Base.{
  ℕ, zero, suc, ◌+◌, ◌≤◌, ◌<◌, ◌≡◌, refl, sym, subst, ◌∙◌, ◌⊎◌, List, [], ◌∷◌, ◌++◌, some, All,
  arith, length, length-append,
}
use mathlib.Core.List.{append-nil}
use nku_os_lab.Base.Outcome.{ok}
use nku_os_lab.ListEntry.{Links, list_add, list_del}
use nku_os_lab.ListEntry.Ring.{IsRing}
use nku_os_lab.ListEntry.Add.{list_add-IsRing}
use nku_os_lab.Pmm.{Pmm, Page, free_list, set_block, find_page, take_pages, alloc_pages, free_pages}
use nku_os_lab.Pmm.Blocks.{Block, block, links_of, total, links_of-append, total-append}
use nku_os_lab.Pmm.Represents.{Represents}
use nku_os_lab.Pmm.Insert.{clear_pages_lem, IsGap, set_block-Represents}
use nku_os_lab.Pmm.Search.{find_page-some}
use nku_os_lab.Pmm.Tail.{linked_twice, after_last, free_pages-after_last, ends}
use nku_os_lab.Pmm.Free.{gap-Fresh}
use nku_os_lab.Pmm.Merge.{links-last}

-- The search reads only the forward links and the sizes.
find_page_cong :
    (fuel le n : ℕ) (s t : Pmm)
    → ((a : ℕ) → s.links.next a ≡ t.links.next a)
    → ((p : ℕ) → (s.page p).property ≡ (t.page p).property)
    → find_page fuel le n s ≡ find_page fuel le n t
unfolding find_page
find_page_cong zero le n s t hn hp = refl
find_page_cong (suc fuel) le n s t hn hp =
    rw
      (
        hn le,
        hp (Prim.Native.Nat.pred (t.links.next le)),
        find_page_cong fuel (t.links.next le) n s t hn hp,
      )
      refl

-- The second linking changes no forward link.
next-linked_twice :
    (l : Links) (z base a : ℕ)
    → (linked_twice z base l).next a ≡ (list_add (suc z) (suc base) l).next a
unfolding list_add
next-linked_twice l z base a = ground arith

-- Taking a whole block that is its own predecessor changes no forward link and no size.
take_pages_self :
    (base n : ℕ) (s : Pmm)
    → s.links.prev (suc base) ≡ suc base
    → (s.page base).property ≡ n
    → ((a : ℕ) → (take_pages base n s).links.next a ≡ s.links.next a)
      × ((p : ℕ) → ((take_pages base n s).page p).property ≡ (s.page p).property)
unfolding take_pages list_del
take_pages_self base n s e f = (λ a. ground (arith, e, f), λ p. ground (arith, f))

-- A successful search decides the whole call.
alloc_pages_of_find :
    (fuel n p : ℕ) (s : Pmm)
    → 0 < n
    → n ≤ s.nr_free
    → find_page fuel free_list n s ≡ ok (some p)
    → alloc_pages fuel n s ≡ ok (some p, take_pages p n s)
unfolding alloc_pages
alloc_pages_of_find fuel n p s pos m e = ground (arith, e)

module _ (fuel : ℕ) {s : Pmm} (xs : List Block) (z : Block) (base n : ℕ)
    (enough : length xs + 2 < fuel) (r : Represents s (xs ++ (z ∷ [])))
    (g : IsGap s (xs ++ (z ∷ [])) base n []) (page : ℕ → Page)
    (same : (q : ℕ) → (q < base) ⊎ (base + n ≤ q) → page q ≡ s.page q) where
  -- The state as it would be if the loop had stopped after the first linking.
  linked_once : Pmm
  linked_once = record (set_block base n (record s { page = page })) {
    links = list_add (suc z.base) (suc base) s.links;
  }

  linked_once-Represents : Represents linked_once ((xs ++ (z ∷ [])) ++ (block base n ∷ []))
  unfolding linked_once
  linked_once-Represents =
      set_block-Represents (xs ++ (z ∷ [])) base n [] r' g page same
        (list_add (suc z.base) (suc base) s.links)
        (subst
          (λ k.
            IsRing (list_add k (suc base) s.links) free_list
              (links_of ((xs ++ (z ∷ [])) ++ (block base n ∷ []))))
          (links-last free_list xs z)
          (subst (IsRing _ free_list) (sym (links_of-append (xs ++ (z ∷ [])) (block base n ∷ []))) (
            list_add-IsRing (links_of (xs ++ (z ∷ []))) [] (suc base)
              (subst (IsRing s.links free_list) (sym (append-nil (links_of (xs ++ (z ∷ [])))))
                r.ring)
              (gap-Fresh (xs ++ (z ∷ [])) base n [] r' g))))
    where
      r' : Represents s ((xs ++ (z ∷ [])) ++ [])
      r' = subst (Represents s) (sym (append-nil (xs ++ (z ∷ [])))) r

  module _ (all_small : All (λ c. c.size < n) (xs ++ (z ∷ []))) where
    finds : find_page fuel free_list n (after_last z.base base n page s) ≡ ok (some base)
    unfolding linked_once
    finds =
        find_page_cong fuel free_list n (after_last z.base base n page s) linked_once
          (next-linked_twice s.links z.base base) (λ p. refl)
        ∙ find_page-some fuel free_list n linked_once (xs ++ (z ∷ [])) (block base n) []
            linked_once-Represents.ring.linked linked_once-Represents.sizes all_small (omega arith)
            (omega (arith, length-append {0} xs (z ∷ [])))

    finds_again :
        find_page fuel free_list n (take_pages base n (after_last z.base base n page s))
        ≡ ok (some base)
    unfolding set_block
    finds_again =
        let kept =
          take_pages_self base n (after_last z.base base n page s)
            (ends fuel xs z base n enough r g).0 (ground (arith, g.fits)) in
        find_page_cong fuel free_list n (take_pages base n (after_last z.base base n page s))
          (after_last z.base base n page s) kept.0 kept.1
        ∙ finds

    counts :
        n ≤ total (xs ++ (z ∷ []))
        → (n ≤ (after_last z.base base n page s).nr_free)
          × (n ≤ (take_pages base n (after_last z.base base n page s)).nr_free)
    unfolding set_block take_pages
    counts m = (
      omega (arith, r.counted, g.fits, total-append (xs ++ (z ∷ [])) []),
      omega (arith, r.counted, g.fits, total-append (xs ++ (z ∷ [])) []),
    )

-- A block of `n` pages is freed above every free block, all of them smaller and of `n` pages or
-- more together. Then each of the next two requests for `n` pages is answered with the same page.
pub double_allocation :
    (fuel : ℕ) {s : Pmm} (xs : List Block) (z : Block) (base n : ℕ)
    → length xs + 2 < fuel
    → Represents s (xs ++ (z ∷ []))
    → IsGap s (xs ++ (z ∷ [])) base n []
    → All (λ c. c.size < n) (xs ++ (z ∷ []))
    → n ≤ total (xs ++ (z ∷ []))
    → (t : Pmm) × (u : Pmm) × (v : Pmm) × (free_pages fuel base n s ≡ ok t)
      × (alloc_pages fuel n t ≡ ok (some base, u))
      × (alloc_pages fuel n u ≡ ok (some base, v))
double_allocation fuel {s} xs z base n enough r g small m =
    let (page, e, out) = clear_pages_lem n base s.page g.allocated in
    let t = after_last z.base base n page s in
    let u = take_pages base n t in
    let c = counts fuel xs z base n enough r g page out small m in
    (
      t,
      u,
      take_pages base n u,
      free_pages-after_last fuel xs z base n enough r g page e,
      alloc_pages_of_find fuel n base t g.positive c.0
          (finds fuel xs z base n enough r g page out small),
      alloc_pages_of_find fuel n base u g.positive c.1
          (finds_again fuel xs z base n enough r g page out small),
    )
