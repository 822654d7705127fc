-- ===== src/Pmm/Join.antt =====
-- Two neighbouring blocks become one: the update that both merges of `default_free_pages` make.
use nku_os_lab.Base.{
  ℕ, suc, ◌+◌, ◌^◌, ◌≤◌, ◌<◌, ◌≡◌, ◌≢◌, refl, sym, ap, subst, List, [], ◌∷◌, ◌++◌, false, All,
  All-append, All-append_left, All-append_right, All-mono, arith, update, ◌∙◌,
}
use nku_os_lab.ListEntry.{list_del}
use nku_os_lab.ListEntry.Ring.{IsRing}
use nku_os_lab.ListEntry.Delete.{list_del-IsRing}
use nku_os_lab.Pmm.{Pmm, Page, free_list, u32}
use nku_os_lab.Pmm.Blocks.{
  Block, block, end_of, links_of, total, IsSorted, links_of-append, total-append, IsSorted-starts,
  IsSorted-ends, IsSorted-at,
}
use nku_os_lab.Pmm.Represents.{Represents, Describes, Describes-update}

-- The descriptors after page `low` absorbs the block at page `high`.
abbrev pub absorbed : ℕ → ℕ → (ℕ → Page) → ℕ → Page
absorbed low high page =
    let grown =
      update page low
        (record (page low) { property = u32 ((page low).property + (page high).property) }) in
    update grown high (record (grown high) { head = false })

abbrev pub join : ℕ → ℕ → Pmm → Pmm
join low high s = record s { page = absorbed low high s.page; links = list_del (suc high) s.links }

abbrev pub joined : Block → Block → Block
joined c b = block c.base (c.size + b.size)

IsSorted-join :
    (lo : ℕ) (xs : List Block) (c b : Block) (ys : List Block)
    → end_of c ≡ b.base
    → IsSorted lo (xs ++ (c ∷ b ∷ ys))
    → IsSorted lo (xs ++ (joined c b ∷ ys))
IsSorted-join lo [] c b ys e s = (s.0, omega arith, subst (λ k. IsSorted k ys) (omega arith) s.2.2)
IsSorted-join lo (x ∷ xs) c b ys e s = (s.0, s.1, IsSorted-join (end_of x) xs c b ys e s.2)

total_join :
    (xs : List Block) (c b : Block) (ys : List Block)
    → total (xs ++ (joined c b ∷ ys)) ≡ total (xs ++ (c ∷ b ∷ ys))
total_join xs c b ys =
    omega (arith, total-append xs (joined c b ∷ ys), total-append xs (c ∷ b ∷ ys))

links_of_snoc :
    (xs : List Block) (c : Block) (ws : List ℕ)
    → links_of (xs ++ (c ∷ [])) ++ ws ≡ links_of xs ++ (suc c.base ∷ ws)
links_of_snoc [] c ws = refl
links_of_snoc (x ∷ xs) c ws = ap (λ l. suc x.base ∷ l) (links_of_snoc xs c ws)

module _ {s : Pmm} (xs : List Block) (c b : Block) (ys : List Block)
    (r : Represents s (xs ++ (c ∷ b ∷ ys))) where
  cut_high : IsRing s.links free_list (links_of (xs ++ (c ∷ [])) ++ (suc b.base ∷ links_of ys))
  cut_high =
      subst (IsRing s.links free_list)
        (links_of-append xs (c ∷ b ∷ ys) ∙ sym (links_of_snoc xs c (suc b.base ∷ links_of ys)))
        r.ring

  join-IsRing :
      IsRing (list_del (suc b.base) s.links) free_list (links_of (xs ++ (joined c b ∷ ys)))
  join-IsRing =
      subst (IsRing (list_del (suc b.base) s.links) free_list)
        (links_of_snoc xs c (links_of ys) ∙ sym (links_of-append xs (joined c b ∷ ys)))
        (list_del-IsRing (links_of (xs ++ (c ∷ []))) (links_of ys) (suc b.base) cut_high)

  after_low : IsSorted (end_of c) (b ∷ ys)
  after_low = (IsSorted-at 0 xs c (b ∷ ys) r.sorted).2

  positive : (0 < c.size) × (0 < b.size)
  positive = ((IsSorted-at 0 xs c (b ∷ ys) r.sorted).1, after_low.1)

  described : All (Describes s.page) (c ∷ b ∷ ys)
  described = All-append_right (Describes s.page) xs (c ∷ b ∷ ys) r.sizes

  fits_u32 : c.size + b.size < 2 ^ 32
  fits_u32 = omega (arith, r.small, total-append xs (c ∷ b ∷ ys))

  -- Blocks away from both pages keep their descriptors.
  keep :
      (zs : List Block)
      → All (λ z. z.base ≢ c.base) zs
      → All (λ z. z.base ≢ b.base) zs
      → All (Describes s.page) zs
      → All (Describes (absorbed c.base b.base s.page)) zs
  keep zs hc hb d =
      Describes-update grown b.base (record (grown b.base) { head = false }) zs hb
        (Describes-update s.page c.base _ zs hc d)
    where
      grown : ℕ → Page
      grown = update s.page c.base (record (s.page c.base) {
        property = u32 ((s.page c.base).property + (s.page b.base).property);
      })

  not_low : (p : ℕ) → c.base ≤ p → All (λ z. z.base ≢ p) xs
  not_low p h =
      All-mono (λ z. (0 < z.size) × (end_of z ≤ c.base)) (λ z. z.base ≢ p) xs (λ z k. omega arith)
        (IsSorted-ends 0 xs c (b ∷ ys) r.sorted)

  not_high : (p : ℕ) → p < end_of b → All (λ z. z.base ≢ p) ys
  not_high p h =
      All-mono (λ z. end_of b ≤ z.base) (λ z. z.base ≢ p) ys (λ z k. omega arith)
        (IsSorted-starts (end_of b) ys after_low.2)

  grown_size : Describes (absorbed c.base b.base s.page) (joined c b)
  grown_size = (
    ground (arith, described.0.0, described.1.0.0, fits_u32, positive, after_low.0),
    ground (arith, described.0.1, positive, after_low.0),
  )

  pub join-Represents :
      end_of c ≡ b.base → Represents (join c.base b.base s) (xs ++ (joined c b ∷ ys))
  join-Represents e = record {
    ring = join-IsRing;
    sizes =
        All-append (Describes (absorbed c.base b.base s.page)) xs (joined c b ∷ ys)
          (keep xs (not_low c.base (omega arith)) (not_low b.base (omega (arith, after_low.0)))
            (All-append_left (Describes s.page) xs (c ∷ b ∷ ys) r.sizes))
          (
            grown_size,
            keep ys (not_high c.base (omega (arith, after_low.0, positive)))
                (not_high b.base (omega (arith, positive))) described.1.1,
          );
    sorted = IsSorted-join 0 xs c b ys e r.sorted;
    counted = omega (arith, r.counted, total_join xs c b ys);
    small = omega (arith, r.small, total_join xs c b ys);
  }
