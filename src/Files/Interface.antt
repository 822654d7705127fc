-- ===== src/Files/Interface.antt =====
-- What the table of open files uses of the virtual file system, and the buffers that it passes.
use nku_os_lab.Base.{ℕ, ◌+◌, ◌-◌, ◌%◌, ◌^◌, List}
use nku_os_lab.Base.Int.{ℤ}

-- `struct iobuf`
pub record Iobuf : Type 0 where
  pub io_base : ℕ
  pub io_offset : ℕ
  pub io_len : ℕ
  pub io_resid : ℕ

unfoldable pub iobuf_init : ℕ → ℕ → ℕ → Iobuf
iobuf_init base len offset = record {
  io_base = base;
  io_offset = offset;
  io_len = len;
  io_resid = len;
}

-- The difference of two `size_t`.
unfoldable pub iobuf_used : Iobuf → ℕ
iobuf_used iob = (iob.io_len + 2 ^ 64 - iob.io_resid) % 2 ^ 64

-- An inode is a number. Every operation acts on the state of the file systems, and returns the code
-- that the function returns, beside what it stores through its pointer arguments.
pub record Vfs : Type 1 where
  pub World : Type 0
  pub vfs_open : List ℕ → ℕ → World → ℤ × ℕ × World
  pub vfs_close : ℕ → World → World
  pub vop_read : ℕ → Iobuf → World → ℤ × Iobuf × World
  pub vop_write : ℕ → Iobuf → World → ℤ × Iobuf × World
  pub vop_tryseek : ℕ → ℕ → World → ℤ × World
  pub vop_fstat : ℕ → World → ℤ × ℕ × World
  pub vop_fsync : ℕ → World → ℤ × World
  pub vop_getdirentry : ℕ → Iobuf → World → ℤ × Iobuf × World
  pub vop_ref_inc : ℕ → World → World
  pub vop_open_inc : ℕ → World → World
