-- ===== src/Paging/Bits.antt =====
-- The bits of a page table entry as arithmetic.
use Prim.Native.Nat.{digits, bit_or, bit_or-bitwise}
use nku_os_lab.Base.{
  ℕ, zero, suc, ◌+◌, ◌*◌, ◌/◌, ◌%◌, ◌^◌, ◌≤◌, ◌<◌, ◌≡◌, refl, sym, true, ap, ap₂, ◌∙◌, max, ==_iff,
  arith,
}
use nku_os_lab.Paging.{pte_v, pte_create, pte_ppn}

-- More digits to go than the number has change nothing.
spare_digits : (n m a b : ℕ) → a ≤ n → a ≤ m → digits (λ y. y) max n a b ≡ digits (λ y. y) max m a b
spare_digits zero zero a b p q = refl
spare_digits zero (suc m) zero b p q = refl
spare_digits zero (suc m) (suc a) b p q = absurd (omega (arith, p))
spare_digits (suc n) zero zero b p q = refl
spare_digits (suc n) zero (suc a) b p q = absurd (omega (arith, q))
spare_digits (suc n) (suc m) zero b p q = refl
spare_digits (suc n) (suc m) (suc a) b p q =
    ap (λ d. d * 2 + max (suc a % 2) (b % 2))
      (spare_digits n m (suc a / 2) (b / 2) (omega (arith, p)) (omega (arith, q)))

lowest_digit : (a b : ℕ) → bit_or a b ≡ bit_or (a / 2) (b / 2) * 2 + max (a % 2) (b % 2)
lowest_digit zero b = simp bit_or-bitwise (omega arith)
lowest_digit (suc a) b = simp bit_or-bitwise (
    ap (λ d. d * 2 + max (suc a % 2) (b % 2))
      (spare_digits a (suc a / 2) (suc a / 2) (b / 2) (omega arith) (omega arith)))

half : (a b : ℕ) → bit_or a b / 2 ≡ bit_or (a / 2) (b / 2)
half a b = omega (arith, lowest_digit a b)

no_digits : (n a : ℕ) → a ≤ n → bit_or a 0 ≡ a
no_digits n zero l = simp bit_or-bitwise refl
no_digits zero (suc a) l = absurd (omega (arith, l))
no_digits (suc n) (suc a) l =
    let down : bit_or (suc a / 2) 0 ≡ suc a / 2 = no_digits n (suc a / 2) (omega (arith, l)) in
    lowest_digit (suc a) 0 ∙ ap (λ d. d * 2 + max (suc a % 2) (0 % 2)) down ∙ omega arith

-- Shifts to the right, by several digits at once.
Shifts : ℕ → Type 0
Shifts k = (a b : ℕ) → bit_or a b / k ≡ bit_or (a / k) (b / k)

Shifts-trans : (m n k : ℕ) → ((x : ℕ) → x / m / n ≡ x / k) → Shifts m → Shifts n → Shifts k
unfolding Shifts
Shifts-trans m n k e f g a b =
    sym (e (bit_or a b)) ∙ ap (λ x. x / n) (f a b) ∙ g (a / m) (b / m) ∙ ap₂ bit_or (e a) (e b)

shift_10 : Shifts 1024
unfolding Shifts
shift_10 =
    let two : Shifts 4 = Shifts-trans 2 2 4 (λ x. omega arith) half half in
    let four : Shifts 16 = Shifts-trans 4 4 16 (λ x. omega arith) two two in
    let eight : Shifts 256 = Shifts-trans 16 16 256 (λ x. omega arith) four four in
    Shifts-trans 256 4 1024 (λ x. omega arith) eight two

-- An entry that `pte_create` makes is valid and names its page.
pub pte_create_lem :
    (ppn type : ℕ)
    → ppn < 2 ^ 44
    → type < 1024
    → (pte_v (pte_create ppn type) ≡ true) × (pte_ppn (pte_create ppn type) ≡ ppn)
unfolding pte_create pte_ppn Shifts
pte_create_lem ppn type l h = (
  (==_iff _ 1).1 (omega (arith, lowest_digit low type, lowest_digit (ppn * 1024 % 2 ^ 64) 1)),
  (omega (arith, named, l)),
)
  where
    low : ℕ
    low = bit_or (ppn * 1024 % 2 ^ 64) 1

    front : ppn * 1024 % 2 ^ 64 / 1024 ≡ ppn
    front = omega (arith, l)

    named : bit_or low type / 1024 ≡ ppn
    named =
        shift_10 low type
        ∙ ap₂ bit_or
            (shift_10 (ppn * 1024 % 2 ^ 64) 1
              ∙ ap₂ bit_or front (omega arith)
              ∙ no_digits ppn ppn (omega arith))
            (omega (arith, h))
        ∙ no_digits ppn ppn (omega arith)

-- The flags with which a table, or a page, is entered.
pub flags_lem : (perm : ℕ) → perm < 1024 → bit_or 1 perm < 1024
flags_lem perm l = omega (arith, l, lowest_digit 1 perm, no_digits_left (perm / 2))
  where
    no_digits_left : (b : ℕ) → bit_or 0 b ≡ b
    no_digits_left b = simp bit_or-bitwise refl
