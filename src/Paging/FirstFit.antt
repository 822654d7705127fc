-- ===== src/Paging/FirstFit.antt =====
-- The first-fit allocator of default_pmm.c as the allocator of the page tables.
use nku_os_lab.Base.{
  length-append, ==_refl, ℕ, zero, suc, ◌+◌, ◌-◌, ◌≤◌, ◌<◌, ◌≡◌, ◌≢◌, refl, sym, ◌∙◌, ap, inl, inr,
  Bool, true, false, ◌&&◌, ◌||◌, Option, none, some, List, [], ◌∷◌, ◌++◌, length, All, ltb, leb,
  ==_iff, ==_of_ne, ◌==◌, if◌then◌else◌, arith, Bool-cases, false-ne-true, ℕ_discrete,
}
use nku_os_lab.Base.Outcome.{ok}
use nku_os_lab.ListEntry.{list_next}
use nku_os_lab.ListEntry.Ring.{Chain}
use nku_os_lab.Pmm.{Pmm, free_list, le2page, alloc_pages, free_pages}
use nku_os_lab.Pmm.Blocks.{Block, block, links_of, end_of, IsSorted, first_fit}
use nku_os_lab.Pmm.Represents.{Describes, Represents}
use nku_os_lab.Pmm.Search.{Fit, misses, fits, Fit-total}
use nku_os_lab.Pmm.Merge.{coalesce_prev, coalesce_next}
use nku_os_lab.Pmm.Insert.{IsGap}
use nku_os_lab.Pmm.Alloc.{Allocates, alloc_pages_refines}
use nku_os_lab.Pmm.Free.{release, free_pages_refines}
use nku_os_lab.Pmm.Covers.{IsFree, first_fit-Takes}
use nku_os_lab.Paging.{PmmManager}
use nku_os_lab.Paging.Tree.{Takes, Lawful}

-- The page lies in one of the blocks.
abbrev pub free_in : ℕ → List Block → Bool
free_in p [] = false
free_in p (b ∷ bs) = (leb b.base p && ltb p (end_of b)) || free_in p bs

free_in-IsFree :
    (p : ℕ) (bs : List Block)
    → (free_in p bs ≡ true → IsFree p bs) × (IsFree p bs → free_in p bs ≡ true)
free_in-IsFree p [] = (λ e. false-ne-true e, λ f. absurd f)
free_in-IsFree p (b ∷ bs) = elim (Bool-cases (leb b.base p && ltb p (end_of b))) [
  | inl e ↦ (λ z. inl (ground (arith, e)), λ f. rw e refl)
  | inr e ↦ (
    λ z. inr ((free_in-IsFree p bs).0 (sym (ap (λ x. x || free_in p bs) e) ∙ z)),
    λ f.
        rw e (elim f [ inl h ↦ absurd (ground (arith, e, h)) | inr g ↦ (free_in-IsFree p bs).1 g ]),
  )
]

free_in-append :
    (p : ℕ) (xs ys : List Block) → free_in p (xs ++ ys) ≡ (free_in p xs || free_in p ys)
free_in-append p [] ys = refl
free_in-append p (x ∷ xs) ys = ground (arith, free_in-append p xs ys)

-- The blocks as the list of the state gives them.
unfoldable pub blocks_from : ℕ → ℕ → Pmm → List Block
blocks_from zero le s = []
blocks_from (suc fuel) le s =
    let next = list_next le s.links in
    let page = le2page next in
    let rest = blocks_from fuel next s in
    if next == free_list then [] else block page (s.page page).property ∷ rest

blocks_from-Chain :
    (fuel le : ℕ) (s : Pmm) (bs : List Block)
    → Chain s.links le (links_of bs) free_list
    → All (Describes s.page) bs
    → length bs ≤ fuel
    → blocks_from fuel le s ≡ bs
unfolding blocks_from
blocks_from-Chain zero le s [] c d l = refl
blocks_from-Chain zero le s (b ∷ bs) c d l = absurd (omega (arith, l))
blocks_from-Chain (suc fuel) le s [] c d l = rw c.0 refl
blocks_from-Chain (suc fuel) le s (b ∷ bs) c d l =
    rw (c.0, d.0.0, ==_of_ne (suc b.base) 0 (λ e. omega (arith, e)))
      (ap (λ rest. b ∷ rest) (blocks_from-Chain fuel (suc b.base) s bs c.2 d.1 (omega (arith, l))))

-- There are no more blocks than pages.
fewer :
    (lo hi : ℕ) (bs : List Block)
    → IsSorted lo bs
    → lo ≤ hi
    → ((p : ℕ) → IsFree p bs → p < hi)
    → lo + length bs ≤ hi
fewer lo hi [] s l f = omega (arith, l)
fewer lo hi (b ∷ bs) s l f =
    let last : b.base + b.size ≤ hi =
      omega (arith, s.1, f (b.base + b.size - 1) (inl (omega (arith, s.1), omega (arith, s.1)))) in
    omega (arith, s.0, s.1, fewer (end_of b) hi bs s.2 last (λ p g. f p (inr g)))

-- Two blocks that touch are one.
meet :
    (p a n m c : ℕ) (r : Bool)
    → a + n ≡ c
    → ((leb a p && ltb p (a + (n + m))) || r)
      ≡ ((leb a p && ltb p (a + n)) || ((leb c p && ltb p (c + m)) || r))
meet p a n m c r e = ground (arith, e)

-- Merging changes no page.
next-free :
    (p : ℕ) (b : Block) (ys : List Block)
    → free_in p ((coalesce_next b ys).0 ∷ (coalesce_next b ys).1) ≡ free_in p (b ∷ ys)
unfolding coalesce_next
next-free p b [] = refl
next-free p b (c ∷ cs) = elim (ℕ_discrete (end_of b) c.base) [
  | no n ↦ rw (==_of_ne (end_of b) c.base n) refl
  | yes e ↦
      rw ((==_iff (end_of b) c.base).1 e) (meet p b.base b.size c.size c.base (free_in p cs) e)
]

prev-free :
    (p : ℕ) (xs : List Block) (b : Block) (ys : List Block)
    → free_in p ((coalesce_prev xs b).0 ++ ((coalesce_prev xs b).1 ∷ ys))
      ≡ free_in p (xs ++ (b ∷ ys))
unfolding coalesce_prev
prev-free p [] b ys = refl
prev-free p (c ∷ []) b ys = elim (ℕ_discrete (end_of c) b.base) [
  | no n ↦ rw (==_of_ne (end_of c) b.base n) refl
  | yes e ↦
      rw ((==_iff (end_of c) b.base).1 e) (meet p c.base c.size b.size b.base (free_in p ys) e)
]
prev-free p (c ∷ d ∷ cs) b ys =
    ap (λ r. (leb c.base p && ltb p (end_of c)) || r) (prev-free p (d ∷ cs) b ys)

release-free :
    (p : ℕ) (xs : List Block) (base : ℕ) (ys : List Block)
    → free_in p (release xs base 1 ys) ≡ free_in p (xs ++ (block base 1 ∷ ys))
unfolding release
release-free p xs base ys =
    let (ws, b) = coalesce_prev xs (block base 1) in
    free_in-append p ws ((coalesce_next b ys).0 ∷ (coalesce_next b ys).1)
    ∙ ap (λ r. free_in p ws || r) (next-free p b ys)
    ∙ sym (free_in-append p ws (b ∷ ys))
    ∙ prev-free p xs (block base 1) ys

one_page :
    (p base : ℕ) (xs ys : List Block)
    → free_in p (xs ++ (block base 1 ∷ ys)) ≡ ((p == base) || free_in p (xs ++ ys))
one_page p base xs ys =
    free_in-append p xs (block base 1 ∷ ys)
    ∙ swap (free_in p xs) (free_in p ys)
    ∙ ap (λ r. (p == base) || r) (sym (free_in-append p xs ys))
  where
    swap : (a b : Bool) → (a || ((leb base p && ltb p (base + 1)) || b)) ≡ ((p == base) || (a || b))
    swap a b = ground arith

module _ (npage : ℕ) where
  -- `default_pmm_manager`, with fuel for as many blocks as there are pages.
  abbrev pub default_pmm_manager : PmmManager Pmm
  default_pmm_manager = record {
    alloc_pages = alloc_pages (npage + 1);
    free_pages = free_pages (npage + 1);
  }

  -- The state represents free blocks of the pages that there are.
  abbrev IsPool : Pmm → Type 0
  IsPool s = (bs : List Block) × Represents s bs × ((p : ℕ) → IsFree p bs → p < npage)

  unfoldable pub is_free : ℕ → Pmm → Bool
  is_free p s = free_in p (blocks_from npage free_list s)

  -- Of a state that represents `bs`.
  is_free-free_in :
      (s : Pmm) (bs : List Block)
      → Represents s bs
      → ((p : ℕ) → IsFree p bs → p < npage)
      → (length bs ≤ npage) × ((p : ℕ) → is_free p s ≡ free_in p bs)
  unfolding is_free
  is_free-free_in s bs r f =
      let l = fewer 0 npage bs r.sorted (omega arith) f in
      (
        omega (arith, l),
        λ p.
            ap (free_in p)
              (blocks_from-Chain npage free_list s bs r.ring.linked r.sizes (omega (arith, l))),
      )

  no_block : (q : ℕ) (bs : List Block) → All (λ c. c.size < 1) bs → free_in q bs ≡ false
  no_block q [] a = refl
  no_block q (b ∷ bs) a = ground (arith, a.0, no_block q bs a.1)

  -- What an allocation of one page is.
  pub AllocLaw : Pmm → Type 0
  unfolding is_free
  AllocLaw s =
      (o : Option ℕ) × (t : Pmm) × (alloc_pages (npage + 1) 1 s ≡ ok (o, t))
      × IsPool t
      × Takes (λ p. is_free p s) (λ p. is_free p t) npage o

  pub allocates : (s : Pmm) → IsPool s → AllocLaw s
  unfolding AllocLaw
  allocates s (bs, r, f) =
      let (l, same) = is_free-free_in s bs r f in
      go same (first_fit 1 bs) refl (Fit-total 1 bs)
        (alloc_pages_refines (npage + 1) 1 (omega arith) bs (omega (arith, l)) r)
    where
      go :
          ((p : ℕ) → is_free p s ≡ free_in p bs)
          → (o : Option (ℕ × List Block)) → first_fit 1 bs ≡ o
          → Fit 1 bs
          → Allocates (npage + 1) 1 s o
          → (o : Option ℕ) × (t : Pmm) × (alloc_pages (npage + 1) 1 s ≡ ok (o, t))
            × IsPool t
            × Takes (λ p. is_free p s) (λ p. is_free p t) npage o
      go same none e (fits xs b ys d a m g) c = absurd (cc)
      go same none e (misses a g) c =
          (none, s, c, (bs, r, f), λ q. (same q ∙ no_block q bs a, same q ∙ no_block q bs a))
      go same (some (p, cs)) e fit (t, c, rt) =
          let takes = first_fit-Takes 1 bs p cs r.sorted e in
          let inside : IsFree p bs = (takes p).0 (omega arith, omega arith) in
          let below : (q : ℕ) → IsFree q cs → q < npage = λ q i. f q ((takes q).1 i).0 in
          let same' = (is_free-free_in t cs rt below).1 in
          (
            some p,
            t,
            c,
            (cs, rt, below),
            (
              same p ∙ (free_in-IsFree p bs).1 inside,
              f p inside,
              same' p ∙ elim (Bool-cases (free_in p cs)) [
                | inr z ↦ z
                | inl z ↦
                    absurd (((takes p).1 ((free_in-IsFree p cs).0 z)).1 (omega arith, omega arith))
              ],
              λ q n. same' q ∙ elim (Bool-cases (free_in q bs)) [
                | inl z ↦
                    (free_in-IsFree q cs).1
                      ((takes q).2 ((free_in-IsFree q bs).0 z) (λ (a, b). n (omega (arith, a, b))))
                    ∙ sym (same q ∙ z)
                | inr z ↦ elim (Bool-cases (free_in q cs)) [
                  | inr y ↦ y ∙ sym (same q ∙ z)
                  | inl y ↦ absurd (
                      false-ne-true (
                        sym z
                        ∙ (free_in-IsFree q bs).1 ((takes q).1 ((free_in-IsFree q cs).0 y)).0))
                ]
              ],
            ),
          )

  -- The first-fit allocator takes a page back that was allocated and lies between its blocks, with one
  -- of them above it.
  abbrev pub IsBetween : ℕ → Pmm → Type 0
  IsBetween p s =
      (xs : List Block) × (y : Block) × (ys : List Block) × Represents s (xs ++ (y ∷ ys))
      × IsGap s xs p 1 (y ∷ ys)
      × ((q : ℕ) → IsFree q (xs ++ (y ∷ ys)) → q < npage)

  pub frees :
      (p : ℕ) (s : Pmm)
      → p < npage
      → IsBetween p s
      → (t : Pmm) × (free_pages (npage + 1) p 1 s ≡ ok t)
        × IsPool t
        × (is_free p t ≡ true)
        × ((q : ℕ) → p ≢ q → is_free q t ≡ is_free q s)
  frees p s l (xs, y, ys, r, g, f) =
      let (n, same) = is_free-free_in s (xs ++ (y ∷ ys)) r f in
      let (t, e, rt) =
        free_pages_refines (npage + 1) xs p 1 y ys (omega (arith, n, length-append {0} xs (y ∷ ys)))
          r g in
      let now : (q : ℕ)
          → free_in q (release xs p 1 (y ∷ ys)) ≡ ((q == p) || free_in q (xs ++ (y ∷ ys))) =
        λ q. release-free q xs p (y ∷ ys) ∙ one_page q p xs (y ∷ ys) in
      let below : (q : ℕ) → IsFree q (release xs p 1 (y ∷ ys)) → q < npage = λ q i.
        elim (ℕ_discrete q p) [
          | yes z ↦ omega (arith, z, l)
          | no z ↦ f q (
              (free_in-IsFree q (xs ++ (y ∷ ys))).0 (
                ap (λ b. b || free_in q (xs ++ (y ∷ ys))) (sym (==_of_ne q p z))
                ∙ sym (now q)
                ∙ (free_in-IsFree q (release xs p 1 (y ∷ ys))).1 i))
        ] in
      let same' = (is_free-free_in t (release xs p 1 (y ∷ ys)) rt below).1 in
      (
        t,
        e,
        (release xs p 1 (y ∷ ys), rt, below),
        same' p ∙ now p ∙ ap (λ b. b || free_in p (xs ++ (y ∷ ys))) (==_refl p),
        λ q z.
            same' q
            ∙ now q
            ∙ ap (λ b. b || free_in q (xs ++ (y ∷ ys))) (==_of_ne q p (λ i. z (sym i)))
            ∙ sym (same q),
      )

  -- `default_alloc_pages` and `default_free_pages` keep the laws of the allocator.
  unfoldable pub default_pmm_manager-Lawful : Lawful default_pmm_manager npage
  unfolding AllocLaw
  default_pmm_manager-Lawful = record {
    IsValid = IsPool;
    is_free = is_free;
    CanFree = IsBetween;
    alloc_law = allocates;
    free_law = λ p s v l e c. frees p s l c;
  }
