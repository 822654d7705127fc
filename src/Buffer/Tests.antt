-- ===== src/Buffer/Tests.antt =====
-- A buffer of ten bytes at 100, of which six are left, and transfers on it.
use nku_os_lab.Base.{◌+◌, inr, arith}
use nku_os_lab.Files.Interface.{Iobuf}
use nku_os_lab.Text.{Bytes}
use nku_os_lab.Buffer.Transfer.{IsIobuf}
use nku_os_lab.Buffer.Repeat.{MovesTwice, iobuf_move_twice}

abbrev buffer : Iobuf
buffer = record { io_base = 100; io_offset = 4; io_len = 10; io_resid = 6 }

buffer-IsIobuf : IsIobuf buffer
buffer-IsIobuf = record {
  left = omega arith;
  length_bound = omega arith;
  offset_bound = omega arith;
}

abbrev bytes : Bytes
bytes a = a + 1

iobuf_move_twice_example : MovesTwice buffer 200 2 3 bytes
iobuf_move_twice_example =
    iobuf_move_twice buffer 200 2 3 bytes buffer-IsIobuf (omega arith) (inr (omega arith))
