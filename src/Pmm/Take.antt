-- ===== src/Pmm/Take.antt =====
-- `default_alloc_pages` from the block that the search found: the block leaves the list, and what
-- is left of it takes its place.
use nku_os_lab.Base.{
  ℕ, suc, ◌+◌, ◌-◌, ◌≤◌, ◌<◌, ◌≡◌, ◌≢◌, sym, subst, List, ◌∷◌, ◌++◌, true, false, All, All-append,
  All-append_left, All-append_right, All-mono, arith, lt→ltb, ltb-eq-false, update,
}
use nku_os_lab.ListEntry.{list_add, list_del}
use nku_os_lab.ListEntry.Ring.{Fresh, IsRing}
use nku_os_lab.ListEntry.Add.{list_add-IsRing}
use nku_os_lab.ListEntry.Delete.{list_del-IsRing, list_del_ends}
use nku_os_lab.Pmm.{Pmm, Page, free_list, u32, take_pages}
use nku_os_lab.Pmm.Blocks.{
  Block, block, end_of, links_of, links_of-append, total-append, IsSorted-starts, IsSorted-ends,
  IsSorted-at, IsSorted-replace, IsSorted-remove, Fresh-links_of,
}
use nku_os_lab.Pmm.Represents.{Represents, Describes, Describes-update}

module _ {s : Pmm} (xs : List Block) (b : Block) (ys : List Block)
    (r : Represents s (xs ++ (b ∷ ys))) where
  cut : IsRing s.links free_list (links_of xs ++ (suc b.base ∷ links_of ys))
  cut = subst (IsRing s.links free_list) (links_of-append xs (b ∷ ys)) r.ring

  unlinked : IsRing (list_del (suc b.base) s.links) free_list (links_of xs ++ links_of ys)
  unlinked = list_del-IsRing (links_of xs) (links_of ys) (suc b.base) cut

  size_of_block : (s.page b.base).property ≡ b.size
  size_of_block = (All-append_right (Describes s.page) xs (b ∷ ys) r.sizes).0.0

  -- The blocks before `b` lie below `b`, and those behind it above.
  around : (p : ℕ) → b.base ≤ p → p < end_of b → All (λ c. c.base ≢ p) xs × All (λ c. c.base ≢ p) ys
  around p lo hi = (
    All-mono (λ c. (0 < c.size) × (end_of c ≤ b.base)) (λ c. c.base ≢ p) xs (λ c h. omega arith)
        (IsSorted-ends 0 xs b ys r.sorted),
    All-mono (λ c. end_of b ≤ c.base) (λ c. c.base ≢ p) ys (λ c h. omega arith)
        (IsSorted-starts (end_of b) ys (IsSorted-at 0 xs b ys r.sorted).2),
  )

  away : (p : ℕ) → b.base ≤ p → p < end_of b → All (λ c. c.base ≢ p) (xs ++ ys)
  away p lo hi = let a = around p lo hi in All-append (λ c. c.base ≢ p) xs ys a.0 a.1

  rest_sizes : All (Describes s.page) (xs ++ ys)
  rest_sizes =
      All-append (Describes s.page) xs ys (All-append_left (Describes s.page) xs (b ∷ ys) r.sizes)
        (All-append_right (Describes s.page) xs (b ∷ ys) r.sizes).1

  -- A block of exactly `n` pages is used up.
  pub take_pages_all : Represents (take_pages b.base b.size s) (xs ++ ys)
  unfolding take_pages
  take_pages_all =
      rw (size_of_block, ltb-eq-false b.size b.size (omega arith))
        (record {
          ring =
              subst (IsRing (list_del (suc b.base) s.links) free_list) (sym (links_of-append xs ys))
                unlinked;
          sizes =
              Describes-update s.page b.base _ (xs ++ ys)
                (away b.base (omega arith) (omega (arith, (IsSorted-at 0 xs b ys r.sorted).1)))
                rest_sizes;
          sorted = IsSorted-remove 0 xs b ys r.sorted;
          counted = omega (arith, r.counted, r.small, total-append xs ys, total-append xs (b ∷ ys));
          small = omega (arith, r.small, total-append xs ys, total-append xs (b ∷ ys));
        })

  module _ (n : ℕ) (pos : 0 < n) (more : n < b.size) where
    rest-Fresh : Fresh (suc (b.base + n)) (free_list ∷ (links_of xs ++ links_of ys))
    rest-Fresh = (
      omega arith,
      subst (Fresh (suc (b.base + n))) (links_of-append xs ys) (
          Fresh-links_of (b.base + n) (xs ++ ys) (
            All-mono (λ c. c.base ≢ b.base + n) (λ c. suc c.base ≢ suc (b.base + n)) (xs ++ ys)
              (λ c h. omega arith) (away (b.base + n) (omega arith) (omega arith)))),
    )

    relinked :
        IsRing
          (list_add (s.links.prev (suc b.base)) (suc (b.base + n)) (list_del (suc b.base) s.links))
          free_list
          (links_of (xs ++ (block (b.base + n) (b.size - n) ∷ ys)))
    relinked =
        rw
          (
            (list_del_ends s.links (suc b.base) 0 (links_of xs) (links_of ys) 0 cut.linked).0,
            links_of-append xs (block (b.base + n) (b.size - n) ∷ ys),
          )
          (list_add-IsRing (links_of xs) (links_of ys) (suc (b.base + n)) unlinked rest-Fresh)

    -- Of a larger block the lower `n` pages are taken.
    pub take_pages_split :
        Represents (take_pages b.base n s) (xs ++ (block (b.base + n) (b.size - n) ∷ ys))
    unfolding take_pages
    take_pages_split =
        rw (size_of_block, lt→ltb n b.size more)
          (record {
            ring = relinked;
            sizes =
                All-append (Describes page') xs (block (b.base + n) (b.size - n) ∷ ys)
                  (keep xs (λ p lo hi. (around p lo hi).0)
                    (All-append_left (Describes s.page) xs (b ∷ ys) r.sizes))
                  (
                    (small_rest, ground arith),
                    keep ys (λ p lo hi. (around p lo hi).1)
                        (All-append_right (Describes s.page) xs (b ∷ ys) r.sizes).1,
                  );
            sorted =
                IsSorted-replace 0 xs b (block (b.base + n) (b.size - n)) ys (omega arith)
                  (omega arith) (omega arith) r.sorted;
            counted = omega (
              arith,
              r.counted,
              r.small,
              total-append xs (b ∷ ys),
              total-append xs (block (b.base + n) (b.size - n) ∷ ys),
            );
            small = omega (
              arith,
              r.small,
              total-append xs (b ∷ ys),
              total-append xs (block (b.base + n) (b.size - n) ∷ ys),
            );
          })
      where
        mid : ℕ → Page
        mid =
            update s.page (b.base + n)
              (record (s.page (b.base + n)) { head = true; property = u32 (b.size - n) })

        page' : ℕ → Page
        page' = update mid b.base (record (mid b.base) { head = false })

        small_rest : (page' (b.base + n)).property ≡ b.size - n
        small_rest = ground (arith, r.small, total-append xs (b ∷ ys))

        keep :
            (zs : List Block)
            → ((p : ℕ) → b.base ≤ p → p < end_of b → All (λ c. c.base ≢ p) zs)
            → All (Describes s.page) zs
            → All (Describes page') zs
        keep zs far d =
            Describes-update mid b.base (record (mid b.base) { head = false }) zs
              (far b.base (omega arith) (omega arith))
              (Describes-update s.page (b.base + n)
                (record (s.page (b.base + n)) { head = true; property = u32 (b.size - n) }) zs
                (far (b.base + n) (omega arith) (omega arith)) d)
