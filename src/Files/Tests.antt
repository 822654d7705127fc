-- ===== src/Files/Tests.antt =====
-- A table of three entries, and the calls on it.
use nku_os_lab.Base.{
  ℕ, zero, suc, ◌+◌, ◌≡◌, refl, arith, Bool, true, false, Option, none, some, ◌∷◌, [], ◌-◌,
}
use nku_os_lab.Base.Int.{pos}
use nku_os_lab.Base.Outcome.{ok}
use nku_os_lab.Files.Interface.{Vfs}
use nku_os_lab.Files.{Files, File, fd_none, fd_opened, e_inval}
use nku_os_lab.Files.Calls.{file_open, file_read, file_write}
use nku_os_lab.Files.Parts.{access_mode}
use nku_os_lab.Files.Invariant.{IsTable, IsSettled}
use nku_os_lab.Files.Search.{IsLowest}
use nku_os_lab.Files.Lowest.{OpensLowest, file_open_cases}
use nku_os_lab.Files.Read.{Moves, file_read_write}
use nku_os_lab.Files.Total.{Performs, calls_settle, dup_file}

-- A file system that counts the calls; a read moves four bytes.
abbrev disk : Vfs
disk = record {
  World = ℕ;
  vfs_open = λ path flags w. (pos 0, 9, suc w);
  vfs_close = λ n w. suc w;
  vop_read = λ n iob w.
      (pos 0, record iob { io_resid = iob.io_resid - 4; io_offset = iob.io_offset + 4 }, suc w);
  vop_write = λ n iob w. (pos 0, record iob { io_resid = 0 }, suc w);
  vop_tryseek = λ n offset w. (pos 0, suc w);
  vop_fstat = λ n w. (pos 0, 100, suc w);
  vop_fsync = λ n w. (pos 0, suc w);
  vop_getdirentry = λ n iob w. (pos 0, iob, suc w);
  vop_ref_inc = λ n w. suc w;
  vop_open_inc = λ n w. suc w;
}

abbrev entry : ℕ → File
entry zero = record {
  status = fd_opened;
  readable = true;
  writable = true;
  fd = 0;
  position = 5;
  node = some 7;
  open_count = 1;
}
entry (suc zero) = record {
  status = fd_opened;
  readable = true;
  writable = false;
  fd = 1;
  position = 0;
  node = some 8;
  open_count = 1;
}
entry (suc (suc n)) = record {
  status = fd_none;
  readable = false;
  writable = false;
  fd = suc (suc n);
  position = 0;
  node = none;
  open_count = 0;
}

abbrev table : Files disk
table = record { array = entry; files_count = 1; world = 0 }

entry_fd : (i : ℕ) → (entry i).fd ≡ i
entry_fd zero = refl
entry_fd (suc zero) = refl
entry_fd (suc (suc n)) = refl

entry-IsSettled : (i : ℕ) → IsSettled (entry i)
entry-IsSettled zero = (refl, (7, refl))
entry-IsSettled (suc zero) = (refl, (8, refl))
entry-IsSettled (suc (suc n)) = refl

table-IsTable : IsTable 3 table
table-IsTable = record {
  present = omega arith;
  numbered = λ i l. entry_fd i;
  settled = λ i l. entry-IsSettled i;
}

calls_settle_example : Performs 3 table (dup_file (pos 1) (pos 2))
calls_settle_example = calls_settle 3 table table-IsTable (dup_file (pos 1) (pos 2))

file_open_cases_example :
    (access_mode 2 ≡ none → file_open 3 (47 ∷ 97 ∷ []) 2 table ≡ ok (e_inval, table))
    × ((readable writable : Bool)
        → access_mode 2 ≡ some (readable, writable)
        → (o : Option ℕ) × IsLowest 3 0 entry o
          × OpensLowest 3 table (47 ∷ 97 ∷ []) 2 readable writable o)
file_open_cases_example = file_open_cases 3 table table-IsTable (47 ∷ 97 ∷ []) 2

file_read_write_example :
    (true ≡ true
      → Moves 3 table 0 table-IsTable
          (omega arith)
          refl
          disk.vop_read
          4096
          10
          (file_read 3 (pos 0) 4096 10 table))
    × (true ≡ true
        → Moves 3 table 0 table-IsTable
            (omega arith)
            refl
            disk.vop_write
            4096
            10
            (file_write 3 (pos 0) 4096 10 table))
    × (true ≡ false → file_read 3 (pos 0) 4096 10 table ≡ ok ((e_inval, 0), table))
    × (true ≡ false → file_write 3 (pos 0) 4096 10 table ≡ ok ((e_inval, 0), table))
file_read_write_example = file_read_write 3 table 0 table-IsTable (omega arith) refl 4096 10
