-- ===== src/Pmm/Search.antt =====
-- The search of `default_alloc_pages`, and where `first_fit` cuts the list of blocks.
use nku_os_lab.Base.{
  ℕ, zero, suc, ◌+◌, ◌-◌, ◌≤◌, ◌<◌, ◌≡◌, refl, ap, List, [], ◌∷◌, ◌++◌, none, some, ltb,
  if◌then◌else◌, All, arith, length, dec_lt,
}
use nku_os_lab.Base.Outcome.{ok}
use nku_os_lab.ListEntry.Ring.{Chain}
use nku_os_lab.Pmm.{Pmm, free_list, find_page}
use nku_os_lab.Pmm.Blocks.{Block, block, links_of, first_fit}
use nku_os_lab.Pmm.Represents.{Describes}

-- The search stops at the first block that is large enough, or at the end of the list.
pub find_page-none :
    (fuel le n : ℕ) (s : Pmm) (bs : List Block)
    → Chain s.links le (links_of bs) free_list
    → All (Describes s.page) bs
    → All (λ c. c.size < n) bs
    → length bs < fuel
    → find_page fuel le n s ≡ ok none
unfolding find_page
find_page-none zero le n s bs c d a h = absurd (omega arith)
find_page-none (suc fuel) le n s [] c d a h = ground arith
find_page-none (suc fuel) le n s (b ∷ bs) c d a h =
    ground
      (arith, c.0, d.0.0, a.0, find_page-none fuel (suc b.base) n s bs c.2 d.1 a.1 (omega arith))

pub find_page-some :
    (fuel le n : ℕ) (s : Pmm) (xs : List Block) (b : Block) (ys : List Block)
    → Chain s.links le (links_of (xs ++ (b ∷ ys))) free_list
    → All (Describes s.page) (xs ++ (b ∷ ys))
    → All (λ c. c.size < n) xs
    → n ≤ b.size
    → length xs < fuel
    → find_page fuel le n s ≡ ok (some b.base)
unfolding find_page
find_page-some zero le n s xs b ys c d a m h = absurd (omega arith)
find_page-some (suc fuel) le n s [] b ys c d a m h = ground (arith, c.0, d.0.0)
find_page-some (suc fuel) le n s (x ∷ xs) b ys c d a m h = ground (
  arith,
  c.0,
  d.0.0,
  a.0,
  find_page-some fuel (suc x.base) n s xs b ys c.2 d.1 a.1 m (omega arith),
)

-- What stays of a block of which `n` pages are taken, with the blocks behind it.
abbrev pub leftover : ℕ → Block → List Block → List Block
leftover n b ys = if ltb n b.size then block (b.base + n) (b.size - n) ∷ ys else ys

-- What `first_fit` does, by the place of the block that it uses.
pub data Fit (n : ℕ) (bs : List Block) : Type 0 where
  misses : All (λ c. c.size < n) bs → first_fit n bs ≡ none → Fit n bs
  fits :
      (xs : List Block) (b : Block) (ys : List Block)
      → bs ≡ xs ++ (b ∷ ys)
      → All (λ c. c.size < n) xs
      → n ≤ b.size
      → first_fit n bs ≡ some (b.base, xs ++ leftover n b ys)
      → Fit n bs

Fit-cons : (n : ℕ) (b : Block) (bs : List Block) → b.size < n → Fit n bs → Fit n (b ∷ bs)
unfolding first_fit
Fit-cons n b bs h (misses a e) = misses (h, a) (ground (arith, e))
Fit-cons n b bs h (fits xs c ys q a m e) =
    fits (b ∷ xs) c ys (ap (λ l. b ∷ l) q) (h, a) m (ground (arith, e))

pub Fit-total : (n : ℕ) (bs : List Block) → Fit n bs
unfolding first_fit
Fit-total n [] = misses tt refl
Fit-total n (b ∷ bs) = elim (dec_lt b.size n) [
  | yes h ↦ Fit-cons n b bs h (Fit-total n bs)
  | no h ↦ fits [] b bs refl tt (omega arith) (ground arith)
]
