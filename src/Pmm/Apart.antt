-- ===== src/Pmm/Apart.antt =====
-- Lists of blocks in which no two touch: what allocation and release keep, and the round trip.
use nku_os_lab.Base.{
  ℕ, ◌+◌, ◌-◌, ◌≤◌, ◌<◌, ◌≡◌, refl, sym, ap, subst, List, [], ◌∷◌, ◌++◌, arith, ==_of_ne, ==_iff,
  dec_lt, ℕ_discrete, lt→ltb, ltb-eq-false, ==_refl,
}
use nku_os_lab.Pmm.Blocks.{Block, block, end_of}
use nku_os_lab.Pmm.Join.{joined}
use nku_os_lab.Pmm.Merge.{coalesce_prev, coalesce_next}
use nku_os_lab.Pmm.Free.{release}
use nku_os_lab.Pmm.Search.{leftover}

-- Sorted, and between two blocks lies a page that belongs to none.
abbrev pub IsApart : List Block → Type 0
IsApart [] = Unit
IsApart (b ∷ []) = 0 < b.size
IsApart (b ∷ c ∷ bs) = (0 < b.size) × (end_of b < c.base) × IsApart (c ∷ bs)

-- Before `base` there is room, and behind the last block of `xs` at least one page of it is left,
-- or none.
abbrev pub IsBelow : List Block → ℕ → Type 0
IsBelow [] base = Unit
IsBelow (c ∷ []) base = end_of c ≤ base
IsBelow (c ∷ d ∷ cs) base = IsBelow (d ∷ cs) base

abbrev pub IsAbove : ℕ → List Block → Type 0
IsAbove e [] = Unit
IsAbove e (c ∷ cs) = e ≤ c.base

-- The merge behind leaves a list that starts where it did and has no two blocks that touch.
coalesce_next-IsApart :
    (b : Block) (ys : List Block)
    → 0 < b.size
    → IsAbove (end_of b) ys
    → IsApart ys
    → let (b', zs) = coalesce_next b ys in (b'.base ≡ b.base) × (0 < b'.size) × IsApart (b' ∷ zs)
unfolding coalesce_next
coalesce_next-IsApart b [] h a p = (refl, h, h)
coalesce_next-IsApart b (c ∷ []) h a p = elim (ℕ_discrete (end_of b) c.base) [
  | yes e ↦ rw ((==_iff (end_of b) c.base).1 e) (refl, omega arith, omega arith)
  | no ne ↦ rw (==_of_ne (end_of b) c.base ne) (refl, h, (h, omega arith, p))
]
coalesce_next-IsApart b (c ∷ d ∷ ys) h a p = elim (ℕ_discrete (end_of b) c.base) [
  | yes e ↦ rw ((==_iff (end_of b) c.base).1 e) (refl, omega arith, (omega arith, omega arith, p.2))
  | no ne ↦ rw (==_of_ne (end_of b) c.base ne) (refl, h, (h, omega arith, p))
]

abbrev StartsAt : ℕ → List Block → Type 0
StartsAt p [] = ⊥
StartsAt p (b ∷ bs) = b.base ≡ p

IsApart-cons :
    (c : Block) (p : ℕ) (bs : List Block)
    → 0 < c.size
    → end_of c < p
    → StartsAt p bs
    → IsApart bs
    → IsApart (c ∷ bs)
IsApart-cons c p [] h l q a = absurd q
IsApart-cons c p (b ∷ bs) h l q a = (h, omega arith, a)

-- Freeing behind a first block `c`: the list still starts where `c` does.
release-IsApart_cons :
    (c : Block) (xs : List Block) (base n : ℕ) (ys : List Block)
    → 0 < n
    → IsApart (c ∷ xs)
    → IsBelow (c ∷ xs) base
    → IsAbove (base + n) ys
    → IsApart ys
    → StartsAt c.base (release (c ∷ xs) base n ys) × IsApart (release (c ∷ xs) base n ys)
unfolding release coalesce_prev
release-IsApart_cons c [] base n ys h p q a r = elim (ℕ_discrete (end_of c) base) [
  | yes e ↦ rw ((==_iff (end_of c) base).1 e) (
      let k =
        coalesce_next-IsApart (joined c (block base n)) ys (omega arith)
          (subst (λ m. IsAbove m ys) (omega arith) a) r in
      (k.0, k.2))
  | no ne ↦ rw (==_of_ne (end_of c) base ne) (
      let (e, pos, k) = coalesce_next-IsApart (block base n) ys h a r in
      (refl, (p, omega arith, k)))
]
release-IsApart_cons c (d ∷ xs) base n ys h p q a r =
    let (s, k) = release-IsApart_cons d xs base n ys h p.2 q a r in
    (refl, IsApart-cons c d.base (release (d ∷ xs) base n ys) p.0 p.1 s k)

-- Freeing a block into its gap leaves no two blocks that touch, if there were none before.
pub release-IsApart :
    (xs : List Block) (base n : ℕ) (ys : List Block)
    → 0 < n
    → IsApart xs
    → IsBelow xs base
    → IsAbove (base + n) ys
    → IsApart ys
    → IsApart (release xs base n ys)
unfolding release coalesce_prev
release-IsApart [] base n ys h p q a r = (coalesce_next-IsApart (block base n) ys h a r).2
release-IsApart (c ∷ xs) base n ys h p q a r = (release-IsApart_cons c xs base n ys h p q a r).1

coalesce_prev-keeps :
    (xs : List Block) (b : Block) (ys : List Block)
    → IsApart (xs ++ (b ∷ ys))
    → (n : ℕ) → coalesce_prev xs (block b.base n) ≡ (xs, block b.base n)
unfolding coalesce_prev
coalesce_prev-keeps [] b ys p n = refl
coalesce_prev-keeps (c ∷ []) b ys p n = rw (==_of_ne (end_of c) b.base (omega (arith, p.1))) refl
coalesce_prev-keeps (c ∷ d ∷ xs) b ys p n = rw (coalesce_prev-keeps (d ∷ xs) b ys p.2 n) refl

IsApart-right : (xs ys : List Block) → IsApart (xs ++ ys) → IsApart ys
IsApart-right [] ys p = p
IsApart-right (x ∷ []) [] p = tt
IsApart-right (x ∷ []) (y ∷ ys) p = p.2
IsApart-right (x ∷ z ∷ xs) ys p = IsApart-right (z ∷ xs) ys p.2

coalesce_next-keeps :
    (b : Block) (ys : List Block) → IsApart (b ∷ ys) → coalesce_next b ys ≡ (b, ys)
unfolding coalesce_next
coalesce_next-keeps b [] p = refl
coalesce_next-keeps b (c ∷ ys) p = rw (==_of_ne (end_of b) c.base (omega (arith, p.1))) refl

-- The two halves of a block merge to the block.
coalesce_next-halves :
    (b : Block) (n : ℕ) (ys : List Block)
    → n ≤ b.size
    → coalesce_next (block b.base n) (block (b.base + n) (b.size - n) ∷ ys) ≡ (b, ys)
unfolding coalesce_next
coalesce_next-halves b n ys m =
    rw (==_refl (b.base + n)) (ap (λ k. (block b.base k, ys)) (omega arith))

-- In a list of blocks none of which touch, taking the lower `n` pages of a block and releasing them
-- again gives the list back, also where the whole block was taken.
pub release-leftover :
    (n : ℕ) (xs : List Block) (b : Block) (ys : List Block)
    → n ≤ b.size
    → IsApart (xs ++ (b ∷ ys))
    → release xs b.base n (leftover n b ys) ≡ xs ++ (b ∷ ys)
unfolding release
release-leftover n xs b ys m p = rw (coalesce_prev-keeps xs b ys p n) (elim (dec_lt n b.size) [
  | yes h ↦ rw (lt→ltb n b.size h) (rw (coalesce_next-halves b n ys m) refl)
  | no h ↦ rw (ltb-eq-false n b.size (omega arith)) (rw (whole (omega arith)) refl)
])
  where
    whole : n ≡ b.size → coalesce_next (block b.base n) ys ≡ (b, ys)
    whole e =
        subst (λ k. coalesce_next (block b.base k) ys ≡ (b, ys)) (sym e)
          (coalesce_next-keeps b ys (IsApart-right xs (b ∷ ys) p))
