-- ===== src/Buffer/Repeat.antt =====
-- Transfers that are made in two steps.
use nku_os_lab.Base.{
  ℕ, ◌+◌, ◌-◌, ◌≤◌, ◌≡◌, sym, ◌∙◌, ap, subst, ◌⊎◌, inl, inr, false, arith, dec_lt, leb-eq-true,
  if◌then◌else◌,
}
use nku_os_lab.Base.Int.{pos}
use nku_os_lab.Base.Outcome.{ok}
use nku_os_lab.Files.Interface.{Iobuf}
use nku_os_lab.Text.{Bytes}
use nku_os_lab.Text.Blocks.{Copied, Copied-append}
use nku_os_lab.Buffer.{e_no_mem, alen, iobuf_move}
use nku_os_lab.Buffer.Transfer.{IsIobuf, Advanced, Advanced-IsIobuf, code, iobuf_move-Transfers}

-- A copy determines the memory behind it.
Copied-unique :
    (mem m m' : Bytes) (d s n : ℕ) → Copied mem m d s n → Copied mem m' d s n → (a : ℕ) → m a ≡ m' a
Copied-unique mem m m' d s n c c' a = elim (dec_lt a d) [
  | yes k ↦ c.outside a (inl k) ∙ sym (c'.outside a (inl k))
  | no k ↦ elim (dec_lt a (d + n)) [
    | no b ↦ c.outside a (inr (omega arith)) ∙ sym (c'.outside a (inr (omega arith)))
    | yes b ↦
        subst (λ j. m j ≡ m' j) {x = d + (a - d)} (omega arith)
          (c.inside (a - d) (omega arith) ∙ sym (c'.inside (a - d) (omega arith)))
  ]
]

-- A transfer of a length that the buffer has left.
Full : Iobuf → ℕ → ℕ → Bytes → Type 0
Full iob data' len mem =
    (t : Iobuf) × (after : Bytes) × (iobuf_move iob data' len false mem
      ≡ ok ((pos 0, len), (t, after)))
    × Advanced iob t len
    × Copied mem after data' iob.io_base len

full :
    (iob : Iobuf) (data' len : ℕ) (mem : Bytes)
    → IsIobuf iob
    → len ≤ iob.io_resid
    → Full iob data' len mem
unfolding Full alen
full iob data' len mem h l =
    let e : alen iob len ≡ len = ground (arith, l) in
    let (t, after, q, a, c) = iobuf_move-Transfers iob data' len false mem h in
    (
      t,
      after,
      q
          ∙ ap (λ n. ok ((code iob len, n), (t, after))) e
          ∙ ap (λ b. ok ((if b then pos 0 else e_no_mem, len), (t, after)))
              (leb-eq-true len iob.io_resid l),
      subst (Advanced iob t) e a,
      subst (Copied mem after data' iob.io_base) e c,
    )

-- What two transfers do, and what one does of both lengths.
abbrev pub MovesTwice : Iobuf → ℕ → ℕ → ℕ → Bytes → Type 0
MovesTwice iob data' p q mem =
    (t1 t2 t : Iobuf) × (m1 m2 m : Bytes) × (iobuf_move iob data' p false mem
      ≡ ok ((pos 0, p), (t1, m1)))
    × (iobuf_move t1 (data' + p) q false m1 ≡ ok ((pos 0, q), (t2, m2)))
    × (iobuf_move iob data' (p + q) false mem ≡ ok ((pos 0, p + q), (t, m)))
    × ((a : ℕ) → m2 a ≡ m a)
    × (t2 ≡ t)

Advanced-unique :
    (iob t u v : Iobuf) (p q : ℕ)
    → Advanced iob t p
    → Advanced t u q
    → Advanced iob v (p + q)
    → u ≡ v
Advanced-unique iob t u v p q a b c =
    same (omega (arith, a.base, b.base, c.base)) (omega (arith, a.offset, b.offset, c.offset))
      (omega (arith, a.whole, b.whole, c.whole)) (omega (arith, a.resid, b.resid, c.resid))
  where
    same :
        u.io_base ≡ v.io_base
        → u.io_offset ≡ v.io_offset
        → u.io_len ≡ v.io_len
        → u.io_resid ≡ v.io_resid
        → u ≡ v
    same w x y z i = record { io_base = w i; io_offset = x i; io_len = y i; io_resid = z i }

-- `iobuf_move` may be called repeatedly: out of a buffer in use that has `p + q` bytes left, moving
-- `p` bytes and then `q` bytes to the memory behind them succeeds and leaves the memory and the
-- buffer as moving `p + q` bytes at once does, where that memory does not meet the bytes moved.
pub iobuf_move_twice :
    (iob : Iobuf) (data' p q : ℕ) (mem : Bytes)
    → IsIobuf iob
    → p + q ≤ iob.io_resid
    → (data' + (p + q) ≤ iob.io_base) ⊎ (iob.io_base + (p + q) ≤ data')
    → MovesTwice iob data' p q mem
unfolding Full
iobuf_move_twice iob data' p q mem h l o =
    let (t1, m1, e1, a1, c1) = full iob data' p mem h (omega (arith, l)) in
    let (t2, m2, e2, a2, c2) =
      full t1 (data' + p) q m1 (Advanced-IsIobuf iob t1 p h a1).0 (omega (arith, l, a1.resid)) in
    let (t, m, e, a, c) = full iob data' (p + q) mem h l in
    (
      t1,
      t2,
      t,
      m1,
      m2,
      m,
      e1,
      e2,
      e,
      Copied-unique mem m2 m data' iob.io_base (p + q)
          (Copied-append mem m1 m2 data' iob.io_base p q o c1
            (subst (λ b. Copied m1 m2 (data' + p) b q) a1.base c2))
          c,
      Advanced-unique iob t1 t2 t p q a1 a2 a,
    )
