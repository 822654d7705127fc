-- ===== src/Pmm/Merge.antt =====
-- The two merges of `default_free_pages`, against their effect on the list of blocks.
use nku_os_lab.Base.{
  ℕ, suc, ◌≡◌, ◌≢◌, refl, sym, subst, List, [], ◌∷◌, ◌++◌, ◌==◌, if◌then◌else◌, All,
  All-append_right, arith, ==_of_ne, ==_iff, ℕ_discrete,
}
use mathlib.Core.List.{append_assoc}
use nku_os_lab.ListEntry.Ring.{Chain, last}
use nku_os_lab.ListEntry.Delete.{list_del_ends}
use nku_os_lab.Pmm.{Pmm, free_list, merge_prev, merge_next}
use nku_os_lab.Pmm.Blocks.{Block, end_of, links_of, links_of-append}
use nku_os_lab.Pmm.Represents.{Represents, Describes}
use nku_os_lab.Pmm.Join.{join, joined, join-Represents}

-- The last block before `b` grows over `b` if `b` starts where it ends.
unfoldable pub coalesce_prev : List Block → Block → List Block × Block
coalesce_prev [] b = ([], b)
coalesce_prev (c ∷ []) b = if end_of c == b.base then ([], joined c b) else (c ∷ [], b)
coalesce_prev (c ∷ d ∷ cs) b = let (ds, b') = coalesce_prev (d ∷ cs) b in (c ∷ ds, b')

-- `b` grows over the first block behind it if that starts where `b` ends.
unfoldable pub coalesce_next : Block → List Block → Block × List Block
coalesce_next b [] = (b, [])
coalesce_next b (c ∷ cs) = if end_of b == c.base then (joined b c, cs) else (b, c ∷ cs)

coalesce_prev-snoc :
    (xs : List Block) (c b : Block)
    → coalesce_prev (xs ++ (c ∷ [])) b
      ≡ (if end_of c == b.base then (xs, joined c b) else (xs ++ (c ∷ []), b))
unfolding coalesce_prev
coalesce_prev-snoc [] c b = refl
coalesce_prev-snoc (x ∷ []) c b = ground (arith, coalesce_prev-snoc [] c b)
coalesce_prev-snoc (x ∷ y ∷ xs) c b = ground (arith, coalesce_prev-snoc (y ∷ xs) c b)

-- A list is empty or has a last element.
data Snoc : List Block → Type 0 where
  empty : Snoc []
  snoc : (xs : List Block) (c : Block) → Snoc (xs ++ (c ∷ []))

Snoc-total : (xs : List Block) → Snoc xs
Snoc-total [] = empty
Snoc-total (x ∷ xs) = go (Snoc-total xs)
  where
    go : {ys : List Block} → Snoc ys → Snoc (x ∷ ys)
    go empty = snoc [] x
    go (snoc ys c) = snoc (x ∷ ys) c

pub links-last :
    (a : ℕ) (xs : List Block) (c : Block) → last a (links_of (xs ++ (c ∷ []))) ≡ suc c.base
links-last a [] c = refl
links-last a (x ∷ xs) c = links-last (suc x.base) xs c

-- What `merge_prev` leaves, as a state of the list `xs ++ b ∷ ys` with the merge made.
abbrev pub MergedPrev : List Block → Block → List Block → Pmm → Type 0
MergedPrev xs b ys s =
    let (ws, b') = coalesce_prev xs b in
    (t : Pmm) × (merge_prev b.base s ≡ (b'.base, t)) × Represents t (ws ++ (b' ∷ ys))

merge_prev_first :
    {s : Pmm} (b : Block) (ys : List Block)
    → Represents s (b ∷ ys)
    → merge_prev b.base s ≡ (b.base, s)
unfolding merge_prev
merge_prev_first b ys r = rw (r.ring.linked.1) refl

merge_prev_only :
    {s : Pmm} (b : Block) (ys : List Block) → Represents s (b ∷ ys) → MergedPrev [] b ys s
unfolding coalesce_prev
merge_prev_only {s} b ys r = (s, merge_prev_first b ys r, r)

merge_next_last :
    {s : Pmm} (xs : List Block) (b : Block)
    → Represents s (xs ++ (b ∷ []))
    → merge_next b.base s ≡ s
unfolding merge_next
merge_next_last {s} xs b r = rw (list_del_ends s.links (suc b.base) 0 (links_of xs) [] 0 ch).1 refl
  where
    ch : Chain s.links 0 (links_of xs ++ (suc b.base ∷ [])) 0
    ch = subst (λ l. Chain s.links 0 l 0) (links_of-append xs (b ∷ [])) r.ring.linked

module _ {s : Pmm} (xs : List Block) (c b : Block) (ys : List Block)
    (r : Represents s (xs ++ (c ∷ b ∷ ys))) where
  before : s.links.prev (suc b.base) ≡ suc c.base
  before = go 0 xs r.ring.linked
    where
      go :
          (a : ℕ) (zs : List Block)
          → Chain s.links a (links_of (zs ++ (c ∷ b ∷ ys))) free_list
          → s.links.prev (suc b.base) ≡ suc c.base
      go a [] ch = ch.2.1
      go a (z ∷ zs) ch = go (suc z.base) zs ch.2

  behind : s.links.next (suc c.base) ≡ suc b.base
  behind = go 0 xs r.ring.linked
    where
      go :
          (a : ℕ) (zs : List Block)
          → Chain s.links a (links_of (zs ++ (c ∷ b ∷ ys))) free_list
          → s.links.next (suc c.base) ≡ suc b.base
      go a [] ch = ch.2.0
      go a (z ∷ zs) ch = go (suc z.base) zs ch.2

  sizes_here : All (Describes s.page) (c ∷ b ∷ ys)
  sizes_here = All-append_right (Describes s.page) xs (c ∷ b ∷ ys) r.sizes

  merge_prev-join : end_of c ≡ b.base → merge_prev b.base s ≡ (c.base, join c.base b.base s)
  unfolding merge_prev
  merge_prev-join e = rw before (ground (arith, sizes_here.0.0, e))

  merge_prev_apart : end_of c ≢ b.base → merge_prev b.base s ≡ (b.base, s)
  unfolding merge_prev
  merge_prev_apart e = rw before (ground (arith, sizes_here.0.0, e))

  merge_next-join : end_of c ≡ b.base → merge_next c.base s ≡ join c.base b.base s
  unfolding merge_next
  merge_next-join e = rw behind (ground (arith, sizes_here.0.0, e))

  merge_next_apart : end_of c ≢ b.base → merge_next c.base s ≡ s
  unfolding merge_next
  merge_next_apart e = rw behind (ground (arith, sizes_here.0.0, e))

merge_prev_snoc :
    {s : Pmm} (xs : List Block) (c b : Block) (ys : List Block)
    → Represents s (xs ++ (c ∷ b ∷ ys))
    → MergedPrev (xs ++ (c ∷ [])) b ys s
merge_prev_snoc {s} xs c b ys r =
    rw (coalesce_prev-snoc xs c b) (elim (ℕ_discrete (end_of c) b.base) [
      | yes e ↦
          rw ((==_iff (end_of c) b.base).1 e)
            (join c.base b.base s, merge_prev-join xs c b ys r e, join-Represents xs c b ys r e)
      | no ne ↦ rw (==_of_ne (end_of c) b.base ne) (
        s,
        merge_prev_apart xs c b ys r ne,
        subst (Represents s) (sym (append_assoc xs (c ∷ []) (b ∷ ys))) r,
      )
    ])

-- `merge_prev` makes `coalesce_prev` on the list of blocks, and returns where the block now starts.
pub merge_prev_refines :
    {s : Pmm} (xs : List Block) (b : Block) (ys : List Block)
    → Represents s (xs ++ (b ∷ ys))
    → MergedPrev xs b ys s
merge_prev_refines {s} xs b ys = go (Snoc-total xs)
  where
    go : {zs : List Block} → Snoc zs → Represents s (zs ++ (b ∷ ys)) → MergedPrev zs b ys s
    go empty r = merge_prev_only b ys r
    go (snoc ws c) r =
        merge_prev_snoc ws c b ys (subst (Represents s) (append_assoc ws (c ∷ []) (b ∷ ys)) r)

-- `merge_next` makes `coalesce_next` on the list of blocks.
pub merge_next_refines :
    {s : Pmm} (xs : List Block) (b : Block) (ys : List Block)
    → Represents s (xs ++ (b ∷ ys))
    → let (b', zs) = coalesce_next b ys in Represents (merge_next b.base s) (xs ++ (b' ∷ zs))
unfolding coalesce_next
merge_next_refines xs b [] r = rw (merge_next_last xs b r) r
merge_next_refines {s} xs b (c ∷ ys) r = elim (ℕ_discrete (end_of b) c.base) [
  | yes e ↦
      rw ((==_iff (end_of b) c.base).1 e, merge_next-join xs b c ys r e)
        (join-Represents xs b c ys r e)
  | no ne ↦ rw (==_of_ne (end_of b) c.base ne, merge_next_apart xs b c ys r ne) r
]
