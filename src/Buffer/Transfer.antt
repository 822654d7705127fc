-- ===== src/Buffer/Transfer.antt =====
-- What a transfer copies, and what it leaves of the buffer.
use nku_os_lab.Base.{
  ℕ, ◌+◌, ◌-◌, ◌%◌, ◌^◌, ◌≤◌, ◌<◌, ◌≡◌, refl, sym, subst, ◌⊎◌, Bool, ltb, leb, ◌==◌, if◌then◌else◌,
  arith, dec_lt, lt→ltb, ltb-eq-false, leb-eq-true,
}
use nku_os_lab.Base.Int.{ℤ, pos}
use nku_os_lab.Base.Outcome.{Outcome, ok, ◌>>=◌}
use nku_os_lab.Files.Interface.{Iobuf, iobuf_used}
use nku_os_lab.Text.{Bytes, memmove, memset}
use nku_os_lab.Text.Blocks.{Copied, memmove-Copied, memset_fills}
use nku_os_lab.Buffer.{e_no_mem, iobuf_skip, alen, iobuf_move, iobuf_move_zeros}

-- A buffer in use: what is left does not exceed its length, and the numbers are of 64 bits.
pub record IsIobuf (iob : Iobuf) : Type 0 where
  pub left : iob.io_resid ≤ iob.io_len
  pub length_bound : iob.io_len < 2 ^ 64
  pub offset_bound : iob.io_offset < 2 ^ 64

-- The buffer `t` is `iob` after a transfer of `n` bytes.
pub record Advanced (iob t : Iobuf) (n : ℕ) : Type 0 where
  pub fits : n ≤ iob.io_resid
  pub base : t.io_base ≡ iob.io_base + n
  pub offset : t.io_offset ≡ (iob.io_offset + n) % 2 ^ 64
  pub resid : t.io_resid + n ≡ iob.io_resid
  pub whole : t.io_len ≡ iob.io_len

abbrev pub code : Iobuf → ℕ → ℤ
code iob len = if leb len iob.io_resid then pos 0 else e_no_mem

skip_lem :
    (iob : Iobuf) (n : ℕ)
    → n ≤ iob.io_resid
    → (t : Iobuf) × (iobuf_skip iob n ≡ ok t) × Advanced iob t n
unfolding iobuf_skip
skip_lem iob n l = (
  record iob {
    io_base = iob.io_base + n;
    io_offset = (iob.io_offset + n) % 2 ^ 64;
    io_resid = iob.io_resid - n;
  },
  rw (leb-eq-true n iob.io_resid l) refl,
  record { fits = l; base = refl; offset = refl; resid = omega (arith, l); whole = refl },
)

-- The length that is moved, and the code.
alen_cases :
    (iob : Iobuf) (len : ℕ)
    → (alen iob len ≤ iob.io_resid)
      × ((if (len - alen iob len) == 0 then pos 0 else e_no_mem) ≡ code iob len)
unfolding alen
alen_cases iob len = ground arith

nothing_lem :
    (iob : Iobuf) (len : ℕ)
    → alen iob len ≡ 0
    → (if len == 0 then pos 0 else e_no_mem) ≡ code iob len
unfolding alen
nothing_lem iob len z = ground (arith, z)

stays : (o n : ℕ) → o < 2 ^ 64 → n ≡ 0 → o ≡ (o + n) % 2 ^ 64
stays o n l z = omega (arith, l, z)

-- The blocks of a transfer.
abbrev pub source : Iobuf → ℕ → Bool → ℕ
source iob data' m2b = if m2b then data' else iob.io_base

abbrev pub destination : Iobuf → ℕ → Bool → ℕ
destination iob data' m2b = if m2b then iob.io_base else data'

-- What a transfer of the length `len` is to do: as many bytes are moved as are asked for and the
-- buffer has left.
abbrev pub Transfers :
    Iobuf → ℕ → (ℕ → Bytes → Type 0) → Outcome ((ℤ × ℕ) × (Iobuf × Bytes)) → Type 0
Transfers iob len Written out =
    (t : Iobuf) × (after : Bytes) × (out ≡ ok ((code iob len, alen iob len), (t, after)))
    × Advanced iob t (alen iob len)
    × Written (alen iob len) after

-- The common part of the two functions; `write` is the loop on the memory.
transfer_lem :
    (iob : Iobuf) (len : ℕ) (mem : Bytes) (write : ℕ → Bytes) (Written : ℕ → Bytes → Type 0)
    → IsIobuf iob
    → ((n : ℕ) → Written n (write n))
    → (Written 0 mem)
    → Transfers iob len Written (
        let n = alen iob len in
        if ltb 0 n
        then (iobuf_skip iob n >>= λ t.
            ok ((if (len - n) == 0 then pos 0 else e_no_mem, n), (t, write n)))
        else ok ((if len == 0 then pos 0 else e_no_mem, n), (iob, mem)))
transfer_lem iob len mem write Written h w w0 = elim (dec_lt 0 (alen iob len)) [
  | yes k ↦
      let (t, e, a) = skip_lem iob (alen iob len) (alen_cases iob len).0 in
      (
        t,
        write (alen iob len),
        rw (lt→ltb 0 (alen iob len) k, e, (alen_cases iob len).1) refl,
        a,
        w (alen iob len),
      )
  | no k ↦
      let z : alen iob len ≡ 0 = omega (arith, k) in
      (
        iob,
        mem,
        rw (ltb-eq-false 0 (alen iob len) (omega (arith, k)), nothing_lem iob len z) refl,
        record {
          fits = omega (arith, z);
          base = omega (arith, z);
          offset = stays iob.io_offset (alen iob len) h.offset_bound z;
          resid = omega (arith, z);
          whole = refl;
        },
        subst (λ n. Written n mem) (sym z) w0,
      )
]

-- `iobuf_move` returns for every buffer in use. It moves the smaller of the length asked for and of
-- what is left in the buffer, in the direction asked for, however the blocks overlap, and writes
-- nothing else. The buffer advances by that length, which is returned, with the code 0 if it is
-- the length asked for and E_NO_MEM if it is less.
pub iobuf_move-Transfers :
    (iob : Iobuf) (data' len : ℕ) (m2b : Bool) (mem : Bytes)
    → IsIobuf iob
    → Transfers iob len
        (λ n after. Copied mem after (destination iob data' m2b) (source iob data' m2b) n)
        (iobuf_move iob data' len m2b mem)
unfolding iobuf_move
iobuf_move-Transfers iob data' len m2b mem h =
    transfer_lem iob len mem (λ n. memmove (destination iob data' m2b) (source iob data' m2b) n mem)
      (λ n after. Copied mem after (destination iob data' m2b) (source iob data' m2b) n) h
      (λ n. memmove-Copied (destination iob data' m2b) (source iob data' m2b) n mem)
      record { inside = λ i l. elim l [ ]; outside = λ a o. refl }

-- What zeroing `n` bytes of the buffer from `base` on is to do with the memory.
abbrev pub Zeroed : ℕ → Bytes → ℕ → Bytes → Type 0
Zeroed base mem n after =
    (a : ℕ)
    → ((base ≤ a) × (a < base + n) → after a ≡ 0) × ((a < base) ⊎ (base + n ≤ a) → after a ≡ mem a)

-- `iobuf_move_zeros` returns for every buffer in use. It zeroes the smaller of the length asked for
-- and of what is left in the buffer, and writes nothing else; the buffer, the length and the code
-- are those of a transfer of that length.
pub iobuf_move_zeros-Transfers :
    (iob : Iobuf) (len : ℕ) (mem : Bytes)
    → IsIobuf iob
    → Transfers iob len (Zeroed iob.io_base mem) (iobuf_move_zeros iob len mem)
unfolding iobuf_move_zeros
iobuf_move_zeros-Transfers iob len mem h =
    transfer_lem iob len mem (λ n. memset iob.io_base 0 n mem) (Zeroed iob.io_base mem) h
      (λ n. memset_fills iob.io_base 0 n mem)
      λ a. (λ l. absurd (omega (arith, l.0, l.1)), λ o. refl)

-- A buffer that has advanced by `n` bytes is in use as before, and `iobuf_used` counts those bytes.
pub Advanced-IsIobuf :
    (iob t : Iobuf) (n : ℕ)
    → IsIobuf iob
    → Advanced iob t n
    → IsIobuf t × (iobuf_used t ≡ iobuf_used iob + n)
unfolding iobuf_used
Advanced-IsIobuf iob t n h a = (
  record {
    left = omega (arith, a.resid, a.whole, h.left);
    length_bound = omega (arith, a.whole, h.length_bound);
    offset_bound = omega (arith, a.offset);
  },
  omega (arith, a.resid, a.whole, h.left, h.length_bound),
)
