-- ===== src/Pmm/Covers.antt =====
-- The pages of the free blocks, before and after an allocation or a free.
use nku_os_lab.Base.{
  ℕ, ◌+◌, ◌≤◌, ◌<◌, ◌≡◌, refl, sym, subst, ◌⊎◌, inl, inr, List, [], ◌∷◌, ◌++◌, Option, some, none,
  All, arith, dec_lt, lt→ltb, ltb-eq-false, length,
}
use nku_os_lab.Pmm.Blocks.{Block, end_of, IsSorted, first_fit, IsSorted-ends, IsSorted-at}
use nku_os_lab.Pmm.Search.{leftover, Fit, misses, fits, Fit-total}
use nku_os_lab.Pmm.{Pmm, alloc_pages}
use nku_os_lab.Pmm.Represents.{Represents}
use nku_os_lab.Pmm.Alloc.{Allocates, alloc_pages_refines}
use nku_os_lab.Base.Outcome.{ok}

abbrev pub Holds : ℕ → Block → Type 0
Holds p b = (b.base ≤ p) × (p < end_of b)

-- Page `p` lies in one of the blocks.
abbrev pub IsFree : ℕ → List Block → Type 0
IsFree p [] = ⊥
IsFree p (b ∷ bs) = Holds p b ⊎ IsFree p bs

IsFree-ge : (lo p : ℕ) (bs : List Block) → IsSorted lo bs → IsFree p bs → lo ≤ p
IsFree-ge lo p [] s f = absurd f
IsFree-ge lo p (b ∷ bs) s (inl h) = omega arith
IsFree-ge lo p (b ∷ bs) s (inr f) = omega (arith, IsFree-ge (end_of b) p bs s.2 f)

IsFree-lt :
    (hi p : ℕ) (bs : List Block)
    → All (λ c. (0 < c.size) × (end_of c ≤ hi)) bs
    → IsFree p bs
    → p < hi
IsFree-lt hi p [] a f = absurd f
IsFree-lt hi p (b ∷ bs) a (inl h) = omega (arith, a.0)
IsFree-lt hi p (b ∷ bs) a (inr f) = IsFree-lt hi p bs a.1 f

pub IsFree-append : (p : ℕ) (xs ys : List Block) → IsFree p (xs ++ ys) → IsFree p xs ⊎ IsFree p ys
IsFree-append p [] ys f = inr f
IsFree-append p (x ∷ xs) ys (inl h) = inl (inl h)
IsFree-append p (x ∷ xs) ys (inr f) = elim (IsFree-append p xs ys f) [
  | inl g ↦ inl (inr g)
  | inr g ↦ inr g
]

pub IsFree-append_left : (p : ℕ) (xs ys : List Block) → IsFree p xs → IsFree p (xs ++ ys)
IsFree-append_left p [] ys f = absurd f
IsFree-append_left p (x ∷ xs) ys (inl h) = inl h
IsFree-append_left p (x ∷ xs) ys (inr f) = inr (IsFree-append_left p xs ys f)

pub IsFree-append_right : (p : ℕ) (xs ys : List Block) → IsFree p ys → IsFree p (xs ++ ys)
IsFree-append_right p [] ys f = f
IsFree-append_right p (x ∷ xs) ys f = inr (IsFree-append_right p xs ys f)

module _ (n p : ℕ) (b : Block) (ys : List Block) (m : n ≤ b.size) where
  leftover-IsFree : IsFree p (leftover n b ys) → ((b.base + n ≤ p) × (p < end_of b)) ⊎ IsFree p ys
  leftover-IsFree = elim (dec_lt n b.size) [
    | yes h ↦ rw (lt→ltb n b.size h) (elim [ inl k ↦ inl (k.0, omega arith) | inr f ↦ inr f ])
    | no h ↦ rw (ltb-eq-false n b.size (omega arith)) (λ f. inr f)
  ]

  IsFree-leftover : ((b.base + n ≤ p) × (p < end_of b)) ⊎ IsFree p ys → IsFree p (leftover n b ys)
  IsFree-leftover = elim (dec_lt n b.size) [
    | yes h ↦ rw (lt→ltb n b.size h) (elim [ inl k ↦ inl (k.0, omega arith) | inr f ↦ inr f ])
    | no h ↦
        rw (ltb-eq-false n b.size (omega arith)) (elim [ inl k ↦ absurd (omega arith) | inr f ↦ f ])
  ]

-- What allocation does to the set of free pages: `n` of them from `q` on are taken.
abbrev pub Takes : ℕ → ℕ → List Block → List Block → Type 0
Takes q n bs cs =
    (p : ℕ)
    → ((q ≤ p) × (p < q + n) → IsFree p bs)
      × (IsFree p cs → IsFree p bs × ¬ ((q ≤ p) × (p < q + n)))
      × (IsFree p bs → ¬ ((q ≤ p) × (p < q + n)) → IsFree p cs)

leftover-Takes :
    (n : ℕ) (xs : List Block) (b : Block) (ys : List Block)
    → n ≤ b.size
    → IsSorted 0 (xs ++ (b ∷ ys))
    → Takes b.base n (xs ++ (b ∷ ys)) (xs ++ leftover n b ys)
leftover-Takes n xs b ys m s p = (
  λ h. IsFree-append_right p xs (b ∷ ys) (inl (h.0, omega arith)),
  λ f. elim (IsFree-append p xs (leftover n b ys) f) [
    | inl g ↦ (IsFree-append_left p xs (b ∷ ys) g, λ h. omega (arith, below g))
    | inr g ↦ elim (leftover-IsFree n p b ys m g) [
      | inl k ↦ (IsFree-append_right p xs (b ∷ ys) (inl (omega arith)), λ h. omega arith)
      | inr k ↦ (IsFree-append_right p xs (b ∷ ys) (inr k), λ h. omega (arith, above k))
    ]
  ],
  λ f out. elim (IsFree-append p xs (b ∷ ys) f) [
    | inl g ↦ IsFree-append_left p xs (leftover n b ys) g
    | inr g ↦ IsFree-append_right p xs (leftover n b ys) (IsFree-leftover n p b ys m (rest out g))
  ],
)
  where
    below : IsFree p xs → p < b.base
    below = IsFree-lt b.base p xs (IsSorted-ends 0 xs b ys s)

    above : IsFree p ys → end_of b ≤ p
    above = IsFree-ge (end_of b) p ys (IsSorted-at 0 xs b ys s).2

    rest :
        ¬ ((b.base ≤ p) × (p < b.base + n))
        → IsFree p (b ∷ ys)
        → ((b.base + n ≤ p) × (p < end_of b)) ⊎ IsFree p ys
    rest out (inl k) =
        inl (elim (dec_lt p (b.base + n)) [
          | yes l ↦ absurd (out (k.0, l))
          | no l ↦ (omega arith, k.1)
        ])
    rest out (inr k) = inr k

pub first_fit-Takes :
    (n : ℕ) (bs : List Block) (q : ℕ) (cs : List Block)
    → IsSorted 0 bs
    → first_fit n bs ≡ some (q, cs)
    → Takes q n bs cs
first_fit-Takes n bs q cs s e = go (Fit-total n bs)
  where
    go : Fit n bs → Takes q n bs cs
    go (misses a f) = absurd (cc)
    go (fits xs b ys d a m f) =
        let same : (b.base ≡ q) × (xs ++ leftover n b ys ≡ cs) = (cc, cc) in
        subst (λ k. Takes k n bs cs) same.0
          (subst (λ l. Takes b.base n bs l) same.1
            (subst (λ l. Takes b.base n l (xs ++ leftover n b ys)) (sym d)
              (leftover-Takes n xs b ys m (subst (IsSorted 0) d s))))

-- What `default_alloc_pages` returns, on a state that represents blocks and with fuel for their
-- number: the `n` pages from the returned one on were free, and in the new state, which represents
-- blocks again, exactly the other free pages are still free.
pub alloc_pages-Takes :
    (fuel n : ℕ) {s : Pmm} (bs : List Block) (q : ℕ) (t : Pmm)
    → 0 < n
    → length bs < fuel
    → Represents s bs
    → alloc_pages fuel n s ≡ ok (some q, t)
    → (cs : List Block) × Represents t cs × Takes q n bs cs
alloc_pages-Takes fuel n {s} bs q t pos enough r e =
    go (first_fit n bs) refl (alloc_pages_refines fuel n pos bs enough r)
  where
    go :
        (o : Option (ℕ × List Block))
        → first_fit n bs ≡ o
        → Allocates fuel n s o
        → (cs : List Block) × Represents t cs × Takes q n bs cs
    go none f a = absurd (cc)
    go (some (p, cs)) f (u, a, k) =
        let same : (p ≡ q) × (u ≡ t) = (cc, cc) in
        (
          cs,
          subst (λ w. Represents w cs) same.1 k,
          subst (λ w. Takes w n bs cs) same.0 (first_fit-Takes n bs p cs r.sorted f),
        )
