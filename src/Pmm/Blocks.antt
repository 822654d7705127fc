-- ===== src/Pmm/Blocks.antt =====
-- The free list as the client sees it: blocks of pages in the order of their addresses.
use nku_os_lab.Base.{
  ℕ, suc, ◌+◌, ◌-◌, ◌≤◌, ◌<◌, ◌≡◌, ◌≢◌, refl, ap, List, [], ◌∷◌, ◌++◌, Option, none, some, ltb, leb,
  if◌then◌else◌, All, arith,
}
use nku_os_lab.ListEntry.Ring.{Fresh}

pub record Block : Type 0 where
  pub base : ℕ
  pub size : ℕ

abbrev pub block : ℕ → ℕ → Block
block b n = record { base = b; size = n }

abbrev pub end_of : Block → ℕ
end_of b = b.base + b.size

-- The addresses of the links of the blocks' first pages.
abbrev pub links_of : List Block → List ℕ
links_of [] = []
links_of (b ∷ bs) = suc b.base ∷ links_of bs

abbrev pub total : List Block → ℕ
total [] = 0
total (b ∷ bs) = b.size + total bs

-- In order, apart, and not empty; every block starts at `lo` or later.
abbrev pub IsSorted : ℕ → List Block → Type 0
IsSorted lo [] = Unit
IsSorted lo (b ∷ bs) = (lo ≤ b.base) × (0 < b.size) × IsSorted (end_of b) bs

pub links_of-append : (xs ys : List Block) → links_of (xs ++ ys) ≡ links_of xs ++ links_of ys
links_of-append [] ys = refl
links_of-append (b ∷ xs) ys = ap (λ l. suc b.base ∷ l) (links_of-append xs ys)

pub total-append : (xs ys : List Block) → total (xs ++ ys) ≡ total xs + total ys
total-append [] ys = omega arith
total-append (b ∷ xs) ys = omega (arith, total-append xs ys)

pub IsSorted-weaken : (lo lo' : ℕ) (bs : List Block) → lo' ≤ lo → IsSorted lo bs → IsSorted lo' bs
IsSorted-weaken lo lo' [] h s = tt
IsSorted-weaken lo lo' (b ∷ bs) h s = (omega arith, s.1, s.2)

-- What comes behind starts behind.
pub IsSorted-starts : (lo : ℕ) (bs : List Block) → IsSorted lo bs → All (λ b. lo ≤ b.base) bs
IsSorted-starts lo [] s = tt
IsSorted-starts lo (b ∷ bs) s =
    (s.0, IsSorted-starts lo bs (IsSorted-weaken (end_of b) lo bs (omega arith) s.2))

pub IsSorted-right : (lo : ℕ) (xs ys : List Block) → IsSorted lo (xs ++ ys) → IsSorted lo ys
IsSorted-right lo [] ys s = s
IsSorted-right lo (b ∷ xs) ys s =
    IsSorted-weaken (end_of b) lo ys (omega arith) (IsSorted-right (end_of b) xs ys s.2)

-- What comes before ends before.
pub IsSorted-ends :
    (lo : ℕ) (xs : List Block) (b : Block) (ys : List Block)
    → IsSorted lo (xs ++ (b ∷ ys))
    → All (λ c. (0 < c.size) × (end_of c ≤ b.base)) xs
IsSorted-ends lo [] b ys s = tt
IsSorted-ends lo (c ∷ xs) b ys s =
    ((s.1, (IsSorted-right (end_of c) xs (b ∷ ys) s.2).0), IsSorted-ends (end_of c) xs b ys s.2)

pub IsSorted-at :
    (lo : ℕ) (xs : List Block) (b : Block) (ys : List Block)
    → IsSorted lo (xs ++ (b ∷ ys))
    → (lo ≤ b.base) × (0 < b.size) × IsSorted (end_of b) ys
IsSorted-at lo xs b ys s = IsSorted-right lo xs (b ∷ ys) s

-- A block may be replaced by one within its bounds, or taken out.
pub IsSorted-replace :
    (lo : ℕ) (xs : List Block) (b r : Block) (ys : List Block)
    → b.base ≤ r.base
    → 0 < r.size
    → end_of r ≤ end_of b
    → IsSorted lo (xs ++ (b ∷ ys))
    → IsSorted lo (xs ++ (r ∷ ys))
IsSorted-replace lo [] b r ys hb hr he s =
    (omega arith, hr, IsSorted-weaken (end_of b) (end_of r) ys he s.2)
IsSorted-replace lo (c ∷ xs) b r ys hb hr he s =
    (s.0, s.1, IsSorted-replace (end_of c) xs b r ys hb hr he s.2)

pub IsSorted-remove :
    (lo : ℕ) (xs : List Block) (b : Block) (ys : List Block)
    → IsSorted lo (xs ++ (b ∷ ys))
    → IsSorted lo (xs ++ ys)
IsSorted-remove lo [] b ys s = IsSorted-weaken (end_of b) lo ys (omega arith) s.2
IsSorted-remove lo (c ∷ xs) b ys s = (s.0, s.1, IsSorted-remove (end_of c) xs b ys s.2)

-- A block fits between what ends before it and what starts behind it.
pub IsSorted-insert :
    (lo : ℕ) (xs : List Block) (b : Block) (ys : List Block)
    → lo ≤ b.base
    → 0 < b.size
    → All (λ c. end_of c ≤ b.base) xs
    → IsSorted (end_of b) ys
    → IsSorted lo (xs ++ ys)
    → IsSorted lo (xs ++ (b ∷ ys))
IsSorted-insert lo [] b ys hl hb hx hy s = (hl, hb, hy)
IsSorted-insert lo (c ∷ xs) b ys hl hb hx hy s =
    (s.0, s.1, IsSorted-insert (end_of c) xs b ys hx.0 hb hx.1 hy s.2)

-- The link of a page outside of all blocks is fresh for the list.
pub Fresh-links_of :
    (p : ℕ) (bs : List Block) → All (λ b. suc b.base ≢ suc p) bs → Fresh (suc p) (links_of bs)
Fresh-links_of p [] h = tt
Fresh-links_of p (b ∷ bs) h = (h.0, Fresh-links_of p bs h.1)

-- The specification of the allocator: the first block of at least `n` pages is used, from its
-- lower end, and what is left of it stays in its place.
unfoldable pub first_fit : ℕ → List Block → Option (ℕ × List Block)
first_fit n [] = none
first_fit n (b ∷ bs) =
    let rest = first_fit n bs in
    if leb n b.size
    then some (b.base, if ltb n b.size then block (b.base + n) (b.size - n) ∷ bs else bs)
    else elim rest [ none ↦ none | some (p, cs) ↦ some (p, b ∷ cs) ]
