-- ===== src/Bitmap.antt =====
-- Lab8/code/kern/fs/sfs/bitmap.c: the bitmap of free blocks, where a set bit is a free one. A word is
-- given by its bits; the words from `nwords` on are not in the block and are never read. `size_t`
-- has 64 bits, so that the products with WORD_BITS do not wrap around.
pub mod Bits
pub mod Alloc
pub mod Create
mod Tests
use nku_os_lab.Base.{
  ℕ, zero, suc, ◌+◌, ◌-◌, ◌*◌, ◌/◌, ◌%◌, ◌^◌, Bool, true, false, not, ◌&&◌, ◌||◌, Option, none,
  some, ltb, ◌==◌, if◌then◌else◌, update,
}
use nku_os_lab.Base.Outcome.{Outcome, ok, panic, ◌>>=◌, ◌>>◌, assert}

pub record Bitmap : Type 0 where
  pub nbits : ℕ
  pub nwords : ℕ
  pub map : ℕ → ℕ → Bool

abbrev pub word_bits : ℕ
word_bits = 32

-- One bit of one word.
abbrev pub with_bit : ℕ → ℕ → Bool → Bitmap → Bitmap
with_bit ix offset a b = record b { map = update b.map ix (update (b.map ix) offset a) }

-- The loop over the leftover bits, which are as many as the first argument says.
unfoldable pub flip_rest : ℕ → ℕ → ℕ → Bitmap → Bitmap
flip_rest zero ix overbits b = b
flip_rest (suc n) ix overbits b =
    flip_rest n ix (overbits + 1) (with_bit ix overbits (not (b.map ix overbits)) b)

-- `struct_there` and `map_there` say whether the two calls of `kmalloc` give memory.
unfoldable pub bitmap_create : Bool → Bool → ℕ → Outcome (Option Bitmap)
unfolding flip_rest
bitmap_create struct_there map_there nbits = do
  assert (not (nbits == 0) && ltb nbits (nbits + word_bits))
  let nwords = (nbits + word_bits - 1) / word_bits % 2 ^ 32
  let bitmap : Bitmap = record { nbits = nbits; nwords = nwords; map = λ ix offset. true }
  let ix = nwords - 1
  let overbits = nbits - ix * word_bits
  let leftover : Outcome (Option Bitmap) =
      assert (nbits / word_bits == ix)
      >> assert (ltb 0 overbits && ltb overbits word_bits)
      >> ok (some (flip_rest (word_bits - overbits) ix overbits bitmap))
  if struct_there && map_there
      then (if not (nbits == nwords * word_bits) then leftover else ok (some bitmap))
      else ok none

-- `map[ix] != 0`
unfoldable pub some_set : ℕ → (ℕ → Bool) → Bool
some_set zero w = false
some_set (suc n) w = w n || some_set n w

-- The loop over the bits of a word, of which `n` are left.
unfoldable pub alloc_bit : ℕ → ℕ → ℕ → Bitmap → Outcome (Option ℕ × Bitmap)
alloc_bit zero ix offset b = panic
alloc_bit (suc n) ix offset b =
    let rest = alloc_bit n ix (offset + 1) b in
    if b.map ix offset
    then ok
        (some ((ix * word_bits + offset) % 2 ^ 32), with_bit ix offset (not (b.map ix offset)) b)
    else rest

-- The loop over the words, of which `n` are left.
unfoldable pub alloc_word : ℕ → ℕ → Bitmap → Outcome (Option ℕ × Bitmap)
unfolding some_set alloc_bit
alloc_word zero ix b = ok (none, b)
alloc_word (suc n) ix b =
    let rest = alloc_word n (ix + 1) b in
    if some_set word_bits (b.map ix) then alloc_bit word_bits ix 0 b else rest

-- The index, or `none` for -E_NO_MEM.
unfoldable pub bitmap_alloc : Bitmap → Outcome (Option ℕ × Bitmap)
unfolding alloc_word
bitmap_alloc b = alloc_word b.nwords 0 b

-- The word of an index and its place in the word.
unfoldable pub bitmap_translate : Bitmap → ℕ → Outcome (ℕ × ℕ)
bitmap_translate b index = assert (ltb index b.nbits) >> ok (index / word_bits, index % word_bits)

unfoldable pub bitmap_test : Bitmap → ℕ → Outcome Bool
unfolding bitmap_translate
bitmap_test b index = do at ← bitmap_translate b index; ok (b.map at.0 at.1)

unfoldable pub bitmap_free : Bitmap → ℕ → Outcome Bitmap
unfolding bitmap_translate
bitmap_free b index = do
  at ← bitmap_translate b index
  assert (not (b.map at.0 at.1))
  ok (with_bit at.0 at.1 true b)

-- The length in bytes, and the words.
unfoldable pub bitmap_getdata : Bitmap → ℕ × (ℕ → ℕ → Bool)
bitmap_getdata b = (4 * b.nwords, b.map)
