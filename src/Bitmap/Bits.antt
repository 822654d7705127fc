-- ===== src/Bitmap/Bits.antt =====
-- The bits of a bitmap by their index.
use nku_os_lab.Base.{
  ℕ, ◌*◌, ◌/◌, ◌%◌, ◌^◌, ◌≤◌, ◌<◌, ◌≡◌, ◌≢◌, refl, ◌∙◌, ap, subst, Bool, false, arith, update,
  update_self, update_ne, ℕ_discrete,
}
use nku_os_lab.Bitmap.{Bitmap, word_bits, with_bit}

-- Whether the block of this index is free.
abbrev pub bit : Bitmap → ℕ → Bool
bit b i = b.map (i / word_bits) (i % word_bits)

-- The bits from `nbits` on are in use.
pub record IsBitmap (b : Bitmap) : Type 0 where
  pub fits : b.nwords * word_bits ≤ 2 ^ 32
  pub rest : (i : ℕ) → b.nbits ≤ i → i < b.nwords * word_bits → bit b i ≡ false
  pub covered : b.nbits ≤ b.nwords * word_bits

-- Only one bit changed.
pub record Changed (b : Bitmap) (i : ℕ) (a : Bool) (t : Bitmap) : Type 0 where
  pub here : bit t i ≡ a
  pub others : (j : ℕ) → i ≢ j → bit t j ≡ bit b j
  pub nbits : t.nbits ≡ b.nbits
  pub nwords : t.nwords ≡ b.nwords

other_place : (i j : ℕ) → i ≢ j → i / word_bits ≡ j / word_bits → i % word_bits ≢ j % word_bits
other_place i j n e m = n (omega (arith, e, m))

pub with_bit-Changed :
    (b : Bitmap) (i : ℕ) (a : Bool) → Changed b i a (with_bit (i / word_bits) (i % word_bits) a b)
with_bit-Changed b i a = record {
  here =
      ap (λ (w : ℕ → Bool). w (i % word_bits)) (update_self b.map (i / word_bits) _)
      ∙ update_self (b.map (i / word_bits)) (i % word_bits) a;
  others = λ j n. elim (ℕ_discrete (i / word_bits) (j / word_bits)) [
    | no d ↦
        ap (λ (w : ℕ → Bool). w (j % word_bits))
          (update_ne b.map (i / word_bits) _ (j / word_bits) d)
    | yes e ↦
        subst
          (λ x.
            update b.map (i / word_bits) (update (b.map (i / word_bits)) (i % word_bits) a) x
              (j % word_bits)
            ≡ b.map x (j % word_bits))
          e
          (ap (λ (w : ℕ → Bool). w (j % word_bits)) (update_self b.map (i / word_bits) _)
            ∙ update_ne (b.map (i / word_bits)) (i % word_bits) a (j % word_bits)
                (other_place i j n e))
  ];
  nbits = refl;
  nwords = refl;
}

pub Changed-IsBitmap :
    (b t : Bitmap) (i : ℕ) (a : Bool) → i < b.nbits → Changed b i a t → IsBitmap b → IsBitmap t
Changed-IsBitmap b t i a l c h = record {
  fits = omega (arith, c.nwords, h.fits);
  rest = λ j k m.
      c.others j (λ e. omega (arith, e, k, l, c.nbits))
      ∙ h.rest j (omega (arith, k, c.nbits)) (omega (arith, m, c.nwords));
  covered = omega (arith, c.nbits, c.nwords, h.covered);
}
