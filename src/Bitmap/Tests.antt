-- ===== src/Bitmap/Tests.antt =====
-- A bitmap of 40 blocks, of which the first three are in use.
use nku_os_lab.Base.{◌+◌, ◌*◌, ◌&&◌, ltb}
use nku_os_lab.Bitmap.{Bitmap}

abbrev blocks : Bitmap
blocks = record {
  nbits = 40;
  nwords = 2;
  map = λ ix offset. ltb 2 (ix * 32 + offset) && ltb (ix * 32 + offset) 40;
}
