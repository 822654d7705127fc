-- ===== src/Files.antt =====
-- Lab8/code/kern/fs/file.c and file.h: the table of open files of a process. A `struct file *` is
-- the index of the entry in the table, `off_t` is the bit pattern of a 64-bit word.
pub mod Interface
pub mod Parts
pub mod Calls
pub mod Invariant
pub mod Steps
pub mod Search
pub mod Open
pub mod Entry
pub mod Read
pub mod Lowest
pub mod Lookup
pub mod Entries
pub mod Total
pub mod Init
mod Tests
use Prim.Native.Nat.{bit_and}
use nku_os_lab.Base.{
  ℕ, zero, suc, ◌+◌, ◌-◌, ◌%◌, ◌^◌, ◌⊎◌, inl, inr, Bool, true, false, not, ◌&&◌, ◌||◌, Option, none,
  some, List, update, ltb, ◌==◌, if◌then◌else◌,
}
use nku_os_lab.Base.Int.{ℤ, pos, negsuc}
use nku_os_lab.Base.Outcome.{Outcome, ok, panic, ◌>>=◌, ◌>>◌, assert}
use nku_os_lab.Files.Interface.{Vfs, Iobuf, iobuf_init, iobuf_used}

pub data Status : Type 0 where
  fd_none fd_init fd_opened fd_closed : Status

abbrev pub is_none : Status → Bool
is_none fd_none = true
is_none _ = false

abbrev pub is_init : Status → Bool
is_init fd_init = true
is_init _ = false

abbrev pub is_opened : Status → Bool
is_opened fd_opened = true
is_opened _ = false

abbrev pub is_closed : Status → Bool
is_closed fd_closed = true
is_closed _ = false

pub record File : Type 0 where
  pub status : Status
  pub readable : Bool
  pub writable : Bool
  pub fd : ℕ
  pub position : ℕ
  pub node : Option ℕ
  pub open_count : ℕ

-- The error codes of libs/error.h, negated.
abbrev pub e_inval : ℤ
e_inval = negsuc 2

abbrev pub e_busy : ℤ
e_busy = negsuc 14

abbrev pub e_max_open : ℤ
e_max_open = negsuc 21

-- `fd == NO_FD`
abbrev pub is_no_fd : ℤ → Bool
is_no_fd (pos n) = false
is_no_fd (negsuc n) = suc n == 0x9527

abbrev pub no_fd : ℤ
no_fd = negsuc 0x9526

abbrev pub is_zero : ℤ → Bool
is_zero (pos n) = n == 0
is_zero (negsuc n) = false

abbrev pub add_off : ℕ → ℕ → ℕ
add_off a b = (a + b) % 2 ^ 64

-- The first entry from `fd` on, of `left` entries, that is not in use.
unfoldable pub find_none : ℕ → ℕ → (ℕ → File) → Option ℕ
find_none zero fd array = none
find_none (suc left) fd array =
    let rest = find_none left (suc fd) array in if is_none (array fd).status then some fd else rest

-- The loop of `fd_array_init` from the entry `fd` on, over `left` entries.
unfoldable pub init_entries : ℕ → ℕ → (ℕ → File) → ℕ → File
init_entries zero fd array = array
init_entries (suc left) fd array =
    init_entries left (suc fd)
      (update array fd (record (array fd) { open_count = 0; status = fd_none; fd = fd }))

-- `nentry` is FILES_STRUCT_NENTRY.
unfoldable pub fd_array_init : ℕ → (ℕ → File) → ℕ → File
unfolding init_entries
fd_array_init nentry array = init_entries nentry 0 array

-- `struct files_struct` of the current process, and the file systems.
pub record Files (v : Vfs) : Type 0 where
  pub array : ℕ → File
  pub files_count : ℕ
  pub world : v.World

module _ {v : Vfs} where
  open v use {
    World, vfs_open, vfs_close, vop_read, vop_write, vop_tryseek, vop_fstat, vop_fsync,
    vop_getdirentry, vop_ref_inc, vop_open_inc,
  }

  abbrev pub put : ℕ → File → Files v → Files v
  put i f s = record s { array = update s.array i f }

  -- The assertion of `get_fd_array`; a process with no table has the count 0.
  abbrev pub get_fd_array : Files v → Outcome (Unit {0})
  get_fd_array s = assert (ltb 0 s.files_count)

  -- The code behind the label `found` of `fd_array_alloc`.
  unfoldable pub fd_array_found : ℕ → Files v → Outcome ((ℤ ⊎ ℕ) × Files v)
  fd_array_found i s = do
    assert ((s.array i).open_count == 0)
    ok (inr i, put i (record (s.array i) { status = fd_init; node = none }) s)

  unfoldable pub fd_array_free : ℕ → Files v → Outcome (Files v)
  fd_array_free i s = do
    assert (is_init (s.array i).status || is_closed (s.array i).status)
    assert ((s.array i).open_count == 0)
    let freed = put i (record (s.array i) { status = fd_none }) s
    if is_closed (s.array i).status
        then elim (s.array i).node [
          | none ↦ panic
          | some n ↦ ok (record freed { world = vfs_close n s.world })
        ]
        else ok freed

  unfoldable pub fd_array_acquire : ℕ → Files v → Outcome (Files v)
  fd_array_acquire i s = do
    assert (is_opened (s.array i).status)
    ok (put i (record (s.array i) { open_count = (s.array i).open_count + 1 }) s)

  unfoldable pub fd_array_release : ℕ → Files v → Outcome (Files v)
  unfolding fd_array_free
  fd_array_release i s = do
    assert (is_opened (s.array i).status || is_closed (s.array i).status)
    assert (ltb 0 (s.array i).open_count)
    let t = put i (record (s.array i) { open_count = (s.array i).open_count - 1 }) s
    if (t.array i).open_count == 0 then fd_array_free i t else ok t

  unfoldable pub fd_array_open : ℕ → Files v → Outcome (Files v)
  fd_array_open i s = do
    assert (is_init (s.array i).status && elim (s.array i).node [ none ↦ false | some n ↦ true ])
    ok (
        put i (record (s.array i) { status = fd_opened; open_count = (s.array i).open_count + 1 })
          s)

  unfoldable pub fd_array_close : ℕ → Files v → Outcome (Files v)
  unfolding fd_array_free
  fd_array_close i s = do
    assert (is_opened (s.array i).status)
    assert (ltb 0 (s.array i).open_count)
    let t =
        put i (record (s.array i) { status = fd_closed; open_count = (s.array i).open_count - 1 }) s
    if (t.array i).open_count == 0 then fd_array_free i t else ok t

  -- `to` is one entry and `from` another. A null node is a fault.
  unfoldable pub fd_array_dup : ℕ → ℕ → Files v → Outcome (Files v)
  unfolding fd_array_open
  fd_array_dup to from s = do
    assert (is_init (s.array to).status && is_opened (s.array from).status)
    elim (s.array from).node [
      | none ↦ panic
      | some n ↦
          fd_array_open to
            (record (put to
              (record (s.array to) {
                position = (s.array from).position;
                readable = (s.array from).readable;
                writable = (s.array from).writable;
                node = some n;
              })
              s) { world = vop_open_inc n (vop_ref_inc n s.world) })
    ]
