-- ===== src/Bitmap/Create.antt =====
-- What `bitmap_create` makes.
use nku_os_lab.Base.{
  ℕ, zero, suc, ◌+◌, ◌-◌, ◌*◌, ◌/◌, ◌%◌, ◌^◌, ◌≤◌, ◌<◌, ◌≡◌, ◌≢◌, refl, ◌∙◌, ap, subst, Bool, true,
  false, not, ◌&&◌, none, some, lt→ltb, ==_iff, ==_of_ne, arith, update_self, update_ne, ℕ_discrete,
}
use nku_os_lab.Base.Outcome.{ok, panic}
use nku_os_lab.Bitmap.{Bitmap, word_bits, with_bit, flip_rest, bitmap_create}
use nku_os_lab.Bitmap.Bits.{bit, IsBitmap}

-- The bits that the loop flips, and those that it leaves alone.
record Flipped (n ix o : ℕ) (b t : Bitmap) : Type 0 where
  nbits : t.nbits ≡ b.nbits
  nwords : t.nwords ≡ b.nwords
  elsewhere : (x y : ℕ) → ix ≢ x → t.map x y ≡ b.map x y
  before : (y : ℕ) → y < o → t.map ix y ≡ b.map ix y
  after : (y : ℕ) → o ≤ y → y < o + n → t.map ix y ≡ not (b.map ix y)

with_bit-same :
    (ix o y : ℕ) (a : Bool) (b : Bitmap) → o ≢ y → (with_bit ix o a b).map ix y ≡ b.map ix y
with_bit-same ix o y a b n =
    ap (λ (w : ℕ → Bool). w y) (update_self b.map ix _) ∙ update_ne (b.map ix) o a y n

with_bit-here : (ix o : ℕ) (a : Bool) (b : Bitmap) → (with_bit ix o a b).map ix o ≡ a
with_bit-here ix o a b =
    ap (λ (w : ℕ → Bool). w o) (update_self b.map ix _) ∙ update_self (b.map ix) o a

flip_rest-Flipped : (n ix o : ℕ) (b : Bitmap) → Flipped n ix o b (flip_rest n ix o b)
unfolding flip_rest
flip_rest-Flipped zero ix o b = record {
  nbits = refl;
  nwords = refl;
  elsewhere = λ x y n. refl;
  before = λ y l. refl;
  after = λ y l m. absurd (omega (arith, l, m));
}
flip_rest-Flipped (suc n) ix o b =
    let c = with_bit ix o (not (b.map ix o)) b in
    let f = flip_rest-Flipped n ix (o + 1) c in
    record {
      nbits = f.nbits;
      nwords = f.nwords;
      elsewhere =
          λ x y d. f.elsewhere x y d ∙ ap (λ (w : ℕ → Bool). w y) (update_ne b.map ix _ x d);
      before = λ y l.
          f.before y (omega (arith, l))
          ∙ with_bit-same ix o y (not (b.map ix o)) b (λ e. omega (arith, e, l));
      after = λ y l m. elim (ℕ_discrete o y) [
        | yes e ↦
            subst (λ z. (flip_rest n ix (o + 1) c).map ix z ≡ not (b.map ix z)) e
              (f.before o (omega arith) ∙ with_bit-here ix o (not (b.map ix o)) b)
        | no d ↦
            f.after y (omega (arith, l, d)) (omega (arith, m))
            ∙ ap not (with_bit-same ix o y (not (b.map ix o)) b d)
      ];
    }

-- All blocks are free, and nothing else is.
pub record Fresh (nbits : ℕ) (b : Bitmap) : Type 0 where
  pub sound : IsBitmap b
  pub size : b.nbits ≡ nbits
  pub free : (i : ℕ) → i < nbits → bit b i ≡ true

-- The words of a bitmap, in the code's terms.
abbrev words : ℕ → ℕ
words nbits = (nbits + word_bits - 1) / word_bits % 2 ^ 32

abbrev all_set : ℕ → Bitmap
all_set nbits = record { nbits = nbits; nwords = words nbits; map = λ ix offset. true }

words_lem :
    (n : ℕ)
    → 0 < n
    → n < 2 ^ 32
    → (n ≤ words n * word_bits)
      × (words n * word_bits < n + word_bits)
      × (words n * word_bits ≤ 2 ^ 32)
words_lem n h l = (omega (arith, l), omega (arith, h), omega (arith, l))

created :
    (nbits : ℕ)
    → 0 < nbits
    → nbits < 2 ^ 32
    → nbits ≢ words nbits * word_bits
    → Fresh nbits (
        flip_rest
          (word_bits - (nbits - (words nbits - 1) * word_bits))
          (words nbits - 1)
          (nbits - (words nbits - 1) * word_bits)
          (all_set nbits))
created nbits h l n =
    let ix = words nbits - 1 in
    let o = nbits - ix * word_bits in
    let t = flip_rest (word_bits - o) ix o (all_set nbits) in
    let (w, v, u) = words_lem nbits h l in
    let f = flip_rest-Flipped (word_bits - o) ix o (all_set nbits) in
    record {
      sound = record {
        fits = omega (arith, f.nwords, u);
        rest = λ i k m.
            let same : i / word_bits ≡ ix = omega (arith, f.nwords, f.nbits, w, v, n, k, m) in
            ap (λ x. t.map x (i % word_bits)) same
            ∙ f.after (i % word_bits) (omega (arith, f.nwords, f.nbits, w, v, n, k, m))
                (omega arith);
        covered = omega (arith, f.nwords, f.nbits, w);
      };
      size = f.nbits;
      free = λ i k. elim (ℕ_discrete ix (i / word_bits)) [
        | yes e ↦
            subst (λ x. t.map x (i % word_bits) ≡ true) e
              (f.before (i % word_bits) (omega (arith, w, v, k, e)))
        | no d ↦ f.elsewhere (i / word_bits) (i % word_bits) d
      ];
    }

-- `bitmap_create` fails an assertion for no bits, and gives NULL when there is no memory. Otherwise,
-- for any number of 32 bits, it makes a bitmap of that many free blocks in which the leftover bits
-- of the last word are in use.
pub bitmap_create-Fresh :
    (nbits : ℕ)
    → nbits < 2 ^ 32
    → (struct_there map_there : Bool)
    → (nbits ≡ 0 → bitmap_create struct_there map_there nbits ≡ panic)
      × (0 < nbits
          → (struct_there && map_there ≡ false
              → bitmap_create struct_there map_there nbits ≡ ok none)
            × (struct_there && map_there ≡ true
                → (b : Bitmap) × (bitmap_create struct_there map_there nbits ≡ ok (some b))
                  × Fresh nbits b))
unfolding bitmap_create
bitmap_create-Fresh nbits l s m = (
  λ e. rw ((==_iff nbits 0).1 e) refl,
  λ h.
      let (w, v, u) = words_lem nbits h l in
      let some_bits = ==_of_ne nbits 0 (λ e. omega (arith, e, h)) in
      let wide = lt→ltb nbits (nbits + word_bits) (omega arith) in
      (
        λ e. rw (some_bits, wide, e) refl,
        λ e. elim (ℕ_discrete nbits (words nbits * word_bits)) [
          | yes f ↦ (
            all_set nbits,
            rw (some_bits, wide, e, (==_iff nbits (words nbits * word_bits)).1 f) refl,
            record {
              sound = record {
                fits = u;
                rest = λ i k j. absurd (omega (arith, f, k, j));
                covered = w;
              };
              size = refl;
              free = λ i k. refl;
            },
          )
          | no f ↦ (
            flip_rest (word_bits - (nbits - (words nbits - 1) * word_bits)) (words nbits - 1)
                (nbits - (words nbits - 1) * word_bits) (all_set nbits),
            rw
                (
                  some_bits,
                  wide,
                  e,
                  ==_of_ne nbits (words nbits * word_bits) f,
                  (==_iff (nbits / word_bits) (words nbits - 1)).1 (omega (arith, w, v, f, h)),
                  lt→ltb 0 (nbits - (words nbits - 1) * word_bits) (omega (arith, w, v, f, h)),
                  lt→ltb (nbits - (words nbits - 1) * word_bits) word_bits
                      (omega (arith, w, v, f, h)),
                )
                refl,
            created nbits h l f,
          )
        ],
      ),
)
