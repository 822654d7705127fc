-- ===== src/Bitmap/Alloc.antt =====
-- What `bitmap_alloc` finds, and that `bitmap_free` gives it back.
use nku_os_lab.Base.{
  ℕ, ◌+◌, ◌*◌, ◌/◌, ◌%◌, ◌^◌, ◌≤◌, ◌<◌, ◌≡◌, refl, ap, ◌⊎◌, Bool, true, false, Option, none, some,
  lt→ltb, ltb-eq-false,
}
use nku_os_lab.Base.Outcome.{Outcome, ok, panic}
use nku_os_lab.Bitmap.{Bitmap, word_bits, with_bit, bitmap_translate, bitmap_test, bitmap_free}
use nku_os_lab.Bitmap.Bits.{bit, IsBitmap, Changed, with_bit-Changed, Changed-IsBitmap}

-- The first set bit of a word from `offset` on, within `n` bits.
record First (w : ℕ → Bool) (offset n j : ℕ) : Type 0 where
  from : offset ≤ j
  below : j < offset + n
  set : w j ≡ true
  first : (i : ℕ) → offset ≤ i → i < j → w i ≡ false

-- The state and the answer after bit `j` of word `ix` was taken.
abbrev took : ℕ → ℕ → Bitmap → Outcome (Option ℕ × Bitmap)
took ix j b = ok (some ((ix * word_bits + j) % 2 ^ 32), with_bit ix j false b)

-- The bit `i` was taken, the lowest that was set.
pub record Taken (b : Bitmap) (i : ℕ) (t : Bitmap) : Type 0 where
  pub inside : i < b.nbits
  pub free : bit b i ≡ true
  pub lowest : (j : ℕ) → j < i → bit b j ≡ false
  pub now : Changed b i false t

-- What the search answers.
abbrev pub Allocated : Bitmap → Outcome (Option ℕ × Bitmap) → Type 0
Allocated b r =
    ((i : ℕ) × (t : Bitmap) × (r ≡ ok (some i, t)) × Taken b i t)
    ⊎ ((r ≡ ok (none, b)) × ((j : ℕ) → j < b.nbits → bit b j ≡ false))

-- `bitmap_free` of an index in use sets its bit and no other; of a free index it fails an assertion,
-- as do `bitmap_free` and `bitmap_test` out of range.
pub bitmap_free_lem :
    (b : Bitmap) (i : ℕ)
    → IsBitmap b
    → (b.nbits ≤ i → (bitmap_free b i ≡ panic) × (bitmap_test b i ≡ panic))
      × (i < b.nbits
          → (bitmap_test b i ≡ ok (bit b i))
            × (bit b i ≡ true → bitmap_free b i ≡ panic)
            × (bit b i ≡ false
                → (t : Bitmap) × (bitmap_free b i ≡ ok t)
                  × Changed b i true t
                  × IsBitmap t
                  × (bitmap_test t i ≡ ok true)))
unfolding bitmap_free bitmap_test bitmap_translate
bitmap_free_lem b i h = (
  λ l. (rw (ltb-eq-false i b.nbits l) refl, rw (ltb-eq-false i b.nbits l) refl),
  λ l.
      let inside = lt→ltb i b.nbits l in
      (
        rw inside refl,
        λ s. rw (inside, s) refl,
        λ s.
            let c = with_bit-Changed b i true in
            (
              with_bit (i / word_bits) (i % word_bits) true b,
              rw (inside, s) refl,
              c,
              Changed-IsBitmap b (with_bit (i / word_bits) (i % word_bits) true b) i true l c h,
              rw inside (ap ok c.here),
            ),
      ),
)
