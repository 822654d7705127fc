-- ===== src/ListEntry/Ring.antt =====
-- When the links of list.h represent a sequence: from the head, `next` runs through the entries
-- and back to the head, `prev` runs the other way, and no entry is met twice.
use nku_os_lab.Base.{
  ℕ, ◌≡◌, ◌≢◌, sym, List, [], ◌∷◌, ◌++◌, All, All-mono, true, arith, update, ==_refl, ==_of_ne,
}
use nku_os_lab.ListEntry.{Links, list_init, list_empty}

-- `x` is not among `xs`.
abbrev pub Fresh : ℕ → List ℕ → Type 0
Fresh x xs = All (λ y. y ≢ x) xs

abbrev pub Distinct : List ℕ → Type 0
Distinct [] = Unit
Distinct (x ∷ xs) = Fresh x xs × Distinct xs

-- The links from `a` through `xs` to `b`, both ways.
abbrev pub Chain : Links → ℕ → List ℕ → ℕ → Type 0
Chain l a [] b = (l.next a ≡ b) × (l.prev b ≡ a)
Chain l a (x ∷ xs) b = (l.next a ≡ x) × (l.prev x ≡ a) × Chain l x xs b

pub record IsRing (l : Links) (h : ℕ) (xs : List ℕ) : Type 0 where
  pub linked : Chain l h xs h
  pub distinct : Distinct (h ∷ xs)

-- The last entry of `a ∷ xs`, and the first of `ys` followed by `b`.
abbrev pub last : ℕ → List ℕ → ℕ
last a [] = a
last a (x ∷ xs) = last x xs

abbrev pub first : List ℕ → ℕ → ℕ
first [] b = b
first (y ∷ ys) b = y

pub All-last {ℓ} : (P : ℕ → Type ℓ) (a : ℕ) (xs : List ℕ) → P a → All P xs → P (last a xs)
All-last P a [] h hs = h
All-last P a (x ∷ xs) h hs = All-last P x xs hs.0 hs.1

pub All-first {ℓ} : (P : ℕ → Type ℓ) (ys : List ℕ) (b : ℕ) → All P ys → P b → P (first ys b)
All-first P [] b hs h = h
All-first P (y ∷ ys) b hs h = hs.0

-- A chain stays one under writes to other entries.
pub Chain-frame :
    (l m : Links) (a : ℕ) (xs : List ℕ) (b : ℕ)
    → m.next a ≡ l.next a
    → All (λ x. m.next x ≡ l.next x) xs
    → All (λ x. m.prev x ≡ l.prev x) xs
    → m.prev b ≡ l.prev b
    → Chain l a xs b
    → Chain m a xs b
Chain-frame l m a [] b na ns ps pb c = (cc, cc)
Chain-frame l m a (x ∷ xs) b na ns ps pb c = (cc, cc, Chain-frame l m x xs b ns.0 ns.1 ps.1 pb c.2)

-- Where a chain is cut, the two ends point at one another.
pub Chain-cut :
    (l : Links) (a : ℕ) (xs ys : List ℕ) (b : ℕ)
    → Chain l a (xs ++ ys) b
    → (l.next (last a xs) ≡ first ys b) × (l.prev (first ys b) ≡ last a xs)
Chain-cut l a [] [] b c = c
Chain-cut l a [] (y ∷ ys) b c = (c.0, c.1)
Chain-cut l a (x ∷ xs) ys b c = Chain-cut l x xs ys b c.2

-- A write at an entry that is fresh for a list does not show in it.
pub update-Fresh :
    (f : ℕ → ℕ) (u v : ℕ) (xs : List ℕ) → Fresh u xs → All (λ x. update f u v x ≡ f x) xs
update-Fresh f u v xs h =
    All-mono (λ y. y ≢ u) (λ x. update f u v x ≡ f x) xs
      (λ x ne. rw (==_of_ne u x (λ e. ne (sym e)))) h

pub update-Fresh_twice :
    (f : ℕ → ℕ) (u v w z : ℕ) (xs : List ℕ)
    → Fresh u xs
    → Fresh w xs
    → All (λ x. update (update f u v) w z x ≡ f x) xs
update-Fresh_twice f u v w z [] hu hw = tt
update-Fresh_twice f u v w z (x ∷ xs) hu hw = (
  rw (==_of_ne w x (λ e. hw.0 (sym e)), ==_of_ne u x (λ e. hu.0 (sym e))),
  update-Fresh_twice f u v w z xs hu.1 hw.1,
)

-- `list_init` makes an empty ring.
pub list_init-IsRing : (h : ℕ) (l : Links) → IsRing (list_init h l) h []
unfolding list_init
list_init-IsRing h l = record { linked = ground arith; distinct = (tt, tt) }

-- `list_empty` tells whether a ring has no entry.
pub list_empty_nil : (h : ℕ) (l : Links) → IsRing l h [] → list_empty h l ≡ true
unfolding list_empty
list_empty_nil h l r = rw (r.linked.0, ==_refl)
