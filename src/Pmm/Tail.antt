-- ===== src/Pmm/Tail.antt =====
-- `default_free_pages` where the freed block lies above every free block.
use nku_os_lab.Base.{
  ℕ, zero, suc, ◌+◌, ◌≤◌, ◌<◌, ◌≡◌, ◌≢◌, refl, sym, subst, ◌∙◌, List, [], ◌∷◌, ◌++◌, false, All,
  All-append_left, All-append_right, arith, length, ltb-eq-false, ==_of_ne,
}
use nku_os_lab.Base.Outcome.{ok}
use nku_os_lab.ListEntry.{Links, list_add, list_empty}
use nku_os_lab.ListEntry.Ring.{Distinct, IsRing, Chain, last}
use nku_os_lab.Pmm.{
  Pmm, Page, free_list, page_link, clear_pages, set_block, link_loop, link_block, merge_prev,
  merge_next, free_pages,
}
use nku_os_lab.Pmm.Blocks.{Block, end_of, links_of, IsSorted}
use nku_os_lab.Pmm.Represents.{Represents}
use nku_os_lab.Pmm.Insert.{clear_pages_lem, IsGap}

-- The links after the loop: linked in behind `z`, and then behind itself.
abbrev pub linked_twice : ℕ → ℕ → Links → Links
linked_twice z base l = list_add (suc base) (suc base) (list_add (suc z) (suc base) l)

link_loop_self :
    (fuel le base : ℕ) (l : Links)
    → l.next le ≡ suc base
    → l.next (suc base) ≡ free_list
    → link_loop (suc (suc fuel)) le base l ≡ ok (list_add (suc base) (suc base) l)
unfolding link_loop
link_loop_self fuel le base l e f = ground (arith, e, f)

link_loop_last :
    (fuel le base : ℕ) (l : Links) (z : Block)
    → l.next le ≡ suc z.base
    → l.next (suc z.base) ≡ free_list
    → z.base < base
    → link_loop (suc (suc (suc fuel))) le base l ≡ ok (linked_twice z.base base l)
unfolding link_loop
link_loop_last fuel le base l z e f h = ground (
  arith,
  e,
  f,
  link_loop_self fuel (suc z.base) base (list_add (suc z.base) (suc base) l)
      (next_here l z.base base f h).0 (next_here l z.base base f h).1,
)
  where
    next_here :
        (l : Links) (z base : ℕ)
        → l.next (suc z) ≡ free_list
        → z < base
        → ((list_add (suc z) (suc base) l).next (suc z) ≡ suc base)
          × ((list_add (suc z) (suc base) l).next (suc base) ≡ free_list)
    next_here l z base f h = (ground (arith, f), ground (arith, f))

-- One round past a block below `base` that is not the last.
link_loop_step :
    (fuel le base : ℕ) (l : Links) (x : ℕ)
    → l.next le ≡ suc x
    → x ≤ base
    → l.next (suc x) ≢ free_list
    → link_loop (suc fuel) le base l ≡ link_loop fuel (suc x) base l
unfolding link_loop
link_loop_step fuel le base l x e h n =
    rw (e, ltb-eq-false base x h, ==_of_ne (l.next (suc x)) 0 n, ==_of_ne (suc x) 0 (omega arith))
      refl

link_loop_enough :
    (fuel le base : ℕ) (l : Links) (z : Block)
    → l.next le ≡ suc z.base
    → l.next (suc z.base) ≡ free_list
    → z.base < base
    → 2 < fuel
    → link_loop fuel le base l ≡ ok (linked_twice z.base base l)
link_loop_enough zero le base l z e f h m = absurd (omega arith)
link_loop_enough (suc zero) le base l z e f h m = absurd (omega arith)
link_loop_enough (suc (suc zero)) le base l z e f h m = absurd (omega arith)
link_loop_enough (suc (suc (suc fuel))) le base l z e f h m = link_loop_last fuel le base l z e f h

next-ne :
    (l : Links) (a : ℕ) (xs : List Block) (z : Block)
    → Chain l a (links_of (xs ++ (z ∷ []))) free_list
    → l.next a ≢ free_list
next-ne l a [] z c = omega (arith, c.0)
next-ne l a (x ∷ xs) z c = omega (arith, c.0)

-- With fuel for the list and two more rounds.
link_loop_behind :
    (fuel le base : ℕ) (l : Links) (xs : List Block) (z : Block)
    → Chain l le (links_of (xs ++ (z ∷ []))) free_list
    → All (λ c. c.base < base) xs
    → z.base < base
    → length xs + 2 < fuel
    → link_loop fuel le base l ≡ ok (linked_twice z.base base l)
link_loop_behind zero le base l xs z c a h f = absurd (omega arith)
link_loop_behind (suc fuel) le base l [] z c a h f =
    link_loop_enough (suc fuel) le base l z c.0 c.2.0 h (omega arith)
link_loop_behind (suc fuel) le base l (x ∷ xs) z c a h f =
    link_loop_step fuel le base l x.base c.0 (omega (arith, a.0)) (next-ne l (suc x.base) xs z c.2)
    ∙ link_loop_behind fuel (suc x.base) base l xs z c.2 a.1 h (omega arith)

nonempty :
    (l : Links) (xs : List Block) (z : Block)
    → Chain l free_list (links_of (xs ++ (z ∷ []))) free_list
    → list_empty free_list l ≡ false
unfolding list_empty
nonempty l [] z c = ground (arith, c.0)
nonempty l (x ∷ xs) z c = ground (arith, c.0)

-- In a ring no entry but the head is its own predecessor.
prev-last-ne :
    (l : Links) (a : ℕ) (x : ℕ) (xs : List ℕ) (b : ℕ)
    → Distinct (a ∷ x ∷ xs)
    → Chain l a (x ∷ xs) b
    → l.prev (last x xs) ≢ last x xs
prev-last-ne l a x [] b d c = λ e. d.0.0 (sym e ∙ c.1)
prev-last-ne l a x (y ∷ xs) b d c = prev-last-ne l x y xs b d.1 c.2

prev-head : (l : Links) (a : ℕ) (xs : List ℕ) (b : ℕ) → Chain l a xs b → l.prev b ≡ last a xs
prev-head l a [] b c = c.1
prev-head l a (x ∷ xs) b c = prev-head l x xs b c.2

-- If the head's predecessor is its own predecessor, it is the head, and the ring is empty.
IsRing-self :
    (l : Links) (h e : ℕ) (xs : List ℕ) → IsRing l h xs → l.prev h ≡ e → l.prev e ≡ e → e ≡ h
IsRing-self l h e [] r p q = sym p ∙ r.linked.1
IsRing-self l h e (x ∷ xs) r p q = absurd (
    subst (λ k. l.prev k ≢ k) (sym (prev-head l h (x ∷ xs) h r.linked) ∙ p)
      (prev-last-ne l h x xs h r.distinct r.linked) q)

pub linked_twice_ends :
    (l : Links) (z base : ℕ)
    → l.next (suc z) ≡ free_list
    → z < base
    → ((linked_twice z base l).prev (suc base) ≡ suc base)
      × ((linked_twice z base l).prev free_list ≡ suc base)
      × ((linked_twice z base l).next (suc base) ≡ free_list)
unfolding list_add
linked_twice_ends l z base e h = (ground (arith, e), ground (arith, e), ground (arith, e))

-- Neither merge is made at a block that is its own predecessor and the last of the list.
merges_skipped :
    (u : Pmm) (base : ℕ)
    → u.links.prev (suc base) ≡ suc base
    → u.links.next (suc base) ≡ free_list
    → 0 < (u.page base).property
    → (merge_prev base u ≡ (base, u)) × (merge_next base u ≡ u)
unfolding merge_prev merge_next
merges_skipped u base p q h = (rw p (ground (arith, h)), rw q refl)

strictly_below :
    (lo base : ℕ) (zs : List Block)
    → IsSorted lo zs
    → All (λ c. end_of c ≤ base) zs
    → All (λ c. c.base < base) zs
strictly_below lo base [] h e = tt
strictly_below lo base (z ∷ zs) h e =
    (omega (arith, h.1, e.0), strictly_below (end_of z) base zs h.2 e.1)

at_end :
    (l : Links) (a : ℕ) (xs : List Block) (z : Block)
    → Chain l a (links_of (xs ++ (z ∷ []))) free_list
    → l.next (suc z.base) ≡ free_list
at_end l a [] z c = c.2.0
at_end l a (x ∷ xs) z c = at_end l (suc x.base) xs z c.2

-- The state that freeing above every free block leaves, given the pages after the reset.
abbrev pub after_last : ℕ → ℕ → ℕ → (ℕ → Page) → Pmm → Pmm
after_last z base n page s = record (set_block base n (record s { page = page })) {
  links = linked_twice z base s.links;
}

module _ (fuel : ℕ) {s : Pmm} (xs : List Block) (z : Block) (base n : ℕ)
    (enough : length xs + 2 < fuel) (r : Represents s (xs ++ (z ∷ [])))
    (g : IsGap s (xs ++ (z ∷ [])) base n []) where
  lower : All (λ c. c.base < base) xs × (z.base < base)
  lower =
      let h = strictly_below 0 base (xs ++ (z ∷ [])) r.sorted g.below in
      (
        All-append_left (λ c. c.base < base) xs (z ∷ []) h,
        (All-append_right (λ c. c.base < base) xs (z ∷ []) h).0,
      )

  pub ends :
      ((linked_twice z.base base s.links).prev (suc base) ≡ suc base)
      × ((linked_twice z.base base s.links).prev free_list ≡ suc base)
      × ((linked_twice z.base base s.links).next (suc base) ≡ free_list)
  ends = linked_twice_ends s.links z.base base (at_end s.links free_list xs z r.ring.linked) lower.1

  linked : link_block fuel base s.links ≡ ok (linked_twice z.base base s.links)
  unfolding link_block
  linked =
      rw (nonempty s.links xs z r.ring.linked)
        (link_loop_behind fuel free_list base s.links xs z r.ring.linked lower.0 lower.1 enough)

  pub free_pages-after_last :
      (page' : ℕ → Page)
      → clear_pages n base s.page ≡ ok page'
      → free_pages fuel base n s ≡ ok (after_last z.base base n page' s)
  unfolding free_pages set_block
  free_pages-after_last page' e =
      let u = after_last z.base base n page' s in
      let m = merges_skipped u base ends.0 ends.2 (ground (arith, g.positive, g.fits)) in
      ground (arith, g.positive, e, linked, m.0, m.1)

  -- Where the freed block lies above every free block, and there is one, `default_free_pages`
  -- returns, and leaves the freed block's link its own predecessor: the state represents no list
  -- of blocks any more.
  pub free_pages_breaks_ring :
      (t : Pmm) × (free_pages fuel base n s ≡ ok t)
      × (t.links.prev (page_link base) ≡ page_link base)
      × ((bs : List Block) → ¬ Represents t bs)
  unfolding set_block
  free_pages_breaks_ring =
      let (page', e, out) = clear_pages_lem n base s.page g.allocated in
      (
        after_last z.base base n page' s,
        free_pages-after_last page' e,
        ends.0,
        λ bs q. absurd (
            omega (
              arith,
              IsRing-self (linked_twice z.base base s.links) free_list (suc base) (links_of bs)
                  q.ring ends.1 ends.0,
            )),
      )
