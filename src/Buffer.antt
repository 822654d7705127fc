-- ===== src/Buffer.antt =====
-- Lab8/code/kern/fs/iobuf.c: transfers between a buffer and the memory beside it.
pub mod Transfer
pub mod Repeat
mod Tests
use nku_os_lab.Base.{ℕ, ◌+◌, ◌-◌, ◌%◌, ◌^◌, Bool, ltb, leb, ◌==◌, if◌then◌else◌}
use nku_os_lab.Base.Int.{ℤ, pos, negsuc}
use nku_os_lab.Base.Outcome.{Outcome, ok, ◌>>=◌, ◌>>◌, assert}
use nku_os_lab.Files.Interface.{Iobuf}
use nku_os_lab.Text.{Bytes, memmove, memset}

abbrev pub e_no_mem : ℤ
e_no_mem = negsuc 3

unfoldable pub iobuf_skip : Iobuf → ℕ → Outcome Iobuf
iobuf_skip iob n = do
  assert (leb n iob.io_resid)
  ok (record iob {
    io_base = iob.io_base + n;
    io_offset = (iob.io_offset + n) % 2 ^ 64;
    io_resid = iob.io_resid - n;
  })

-- The length of a transfer: `alen` in both functions.
unfoldable pub alen : Iobuf → ℕ → ℕ
alen iob len = if ltb len iob.io_resid then len else iob.io_resid

-- The result is the code, what is stored through `copiedp`, the buffer and the memory. `m2b` is
-- "memory to buffer".
unfoldable pub iobuf_move : Iobuf → ℕ → ℕ → Bool → Bytes → Outcome ((ℤ × ℕ) × (Iobuf × Bytes))
unfolding iobuf_skip alen
iobuf_move iob data' len m2b mem =
    let n = alen iob len in
    let src = if m2b then data' else iob.io_base in
    let dst = if m2b then iob.io_base else data' in
    if ltb 0 n
    then (iobuf_skip iob n >>= λ t.
        ok ((if (len - n) == 0 then pos 0 else e_no_mem, n), (t, memmove dst src n mem)))
    else ok ((if len == 0 then pos 0 else e_no_mem, n), (iob, mem))

unfoldable pub iobuf_move_zeros : Iobuf → ℕ → Bytes → Outcome ((ℤ × ℕ) × (Iobuf × Bytes))
unfolding iobuf_skip alen
iobuf_move_zeros iob len mem =
    let n = alen iob len in
    if ltb 0 n
    then (iobuf_skip iob n >>= λ t.
        ok ((if (len - n) == 0 then pos 0 else e_no_mem, n), (t, memset iob.io_base 0 n mem)))
    else ok ((if len == 0 then pos 0 else e_no_mem, n), (iob, mem))
