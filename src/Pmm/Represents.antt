-- ===== src/Pmm/Represents.antt =====
-- When the state of default_pmm.c represents a list of blocks.
use nku_os_lab.Base.{ℕ, ◌^◌, ◌<◌, ◌≡◌, ◌≢◌, List, [], ◌∷◌, true, All, arith, update}
use nku_os_lab.ListEntry.Ring.{IsRing}
use nku_os_lab.Pmm.{Pmm, Page, free_list}
use nku_os_lab.Pmm.Blocks.{Block, links_of, total, IsSorted}

-- The descriptor of a block's first page holds its size, and is marked.
abbrev pub Describes : (ℕ → Page) → Block → Type 0
Describes page b = ((page b.base).property ≡ b.size) × ((page b.base).head ≡ true)

pub record Represents (s : Pmm) (bs : List Block) : Type 0 where
  pub ring : IsRing s.links free_list (links_of bs)
  pub sizes : All (Describes s.page) bs
  pub sorted : IsSorted 0 bs
  pub counted : s.nr_free ≡ total bs
  pub small : total bs < 2 ^ 32

-- Writes to other pages do not matter.
pub Describes-update :
    (page : ℕ → Page) (p : ℕ) (v : Page) (bs : List Block)
    → All (λ b. b.base ≢ p) bs
    → All (Describes page) bs
    → All (Describes (update page p v)) bs
Describes-update page p v [] h d = tt
Describes-update page p v (b ∷ bs) h d = (ground (arith, h.0), Describes-update page p v bs h.1 d.1)
