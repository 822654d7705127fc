-- ===== src/Files/Calls.antt =====
-- Lab8/code/kern/fs/file.c: the calls on open files. `nentry` is FILES_STRUCT_NENTRY, the number of
-- entries of the table.
use nku_os_lab.Base.{
  ℕ, ◌⊎◌, inl, inr, Bool, true, false, not, ◌&&◌, Option, none, some, List, ltb, ◌==◌,
  if◌then◌else◌,
}
use nku_os_lab.Base.Int.{ℤ, pos, negsuc}
use nku_os_lab.Base.Outcome.{Outcome, ok, ◌>>=◌, ◌>>◌}
use nku_os_lab.Files.Interface.{Vfs, iobuf_init, iobuf_used}
use nku_os_lab.Files.{
  Files, is_none, is_opened, e_inval, e_busy, e_max_open, is_no_fd, no_fd, is_zero, add_off,
  find_none, get_fd_array, fd_array_found, fd_array_close, fd_array_dup,
}
use nku_os_lab.Files.Parts.{access_mode, open_entry, move_bytes, move_position, consult, during}

-- `nentry` is FILES_STRUCT_NENTRY.
module _ {v : Vfs} (nentry : ℕ) where
  open v use {vop_read, vop_write, vop_tryseek, vop_fstat, vop_fsync, vop_getdirentry}

  unfoldable pub fd_array_alloc : ℤ → Files v → Outcome ((ℤ ⊎ ℕ) × Files v)
  unfolding find_none fd_array_found
  fd_array_alloc fd s = do
    get_fd_array s
    if is_no_fd fd
        then elim (find_none nentry 0 s.array) [
          | none ↦ ok (inl e_max_open, s)
          | some i ↦ fd_array_found i s
        ]
        else elim fd [
          | pos i ↦
              if ltb i nentry
              then (if is_none (s.array i).status then fd_array_found i s else ok (inl e_busy, s))
              else ok (inl e_inval, s)
          | negsuc n ↦ ok (inl e_inval, s)
        ]

  -- The test `testfd` and the look-up; the entry is returned by its index.
  unfoldable pub fd2file : ℤ → Files v → Outcome (ℤ ⊎ ℕ)
  fd2file (negsuc n) s = ok (inl e_inval)
  fd2file (pos i) s =
      if ltb i nentry
      then (get_fd_array s
          >> ok (
              if is_opened (s.array i).status && ((s.array i).fd == i) then inr i else inl e_inval))
      else ok (inl e_inval)

  unfoldable pub file_testfd : ℤ → Bool → Bool → Files v → Outcome Bool
  unfolding fd2file
  file_testfd fd readable writable s = do
    found ← fd2file fd s
    elim found [
      | inl e ↦ ok false
      | inr i ↦ ok (
          if readable && not (s.array i).readable
          then false
          else if writable && not (s.array i).writable
          then false
          else true)
    ]

  unfoldable pub file_open : List ℕ → ℕ → Files v → Outcome (ℤ × Files v)
  unfolding access_mode fd_array_alloc open_entry
  file_open path open_flags s = elim (access_mode open_flags) [
    | none ↦ ok (e_inval, s)
    | some (readable, writable) ↦ fd_array_alloc no_fd s >>= λ (found, t). elim found [
      | inl e ↦ ok (e, t)
      | inr i ↦ open_entry path open_flags readable writable i t
    ]
  ]

  unfoldable pub file_close : ℤ → Files v → Outcome (ℤ × Files v)
  unfolding fd2file fd_array_close
  file_close fd s = do
    found ← fd2file fd s
    elim found [ inl e ↦ ok (e, s) | inr i ↦ fd_array_close i s >>= λ t. ok (pos 0, t) ]

  -- The result is the code and what is stored through `copied_store`.
  unfoldable pub file_read : ℤ → ℕ → ℕ → Files v → Outcome ((ℤ × ℕ) × Files v)
  unfolding fd2file during move_bytes
  file_read fd base len s = do
    found ← fd2file fd s
    elim found [
      | inl e ↦ ok ((e, 0), s)
      | inr i ↦
          if not (s.array i).readable
          then ok ((e_inval, 0), s)
          else during i (move_bytes vop_read i base len) s
    ]

  unfoldable pub file_write : ℤ → ℕ → ℕ → Files v → Outcome ((ℤ × ℕ) × Files v)
  unfolding fd2file during move_bytes
  file_write fd base len s = do
    found ← fd2file fd s
    elim found [
      | inl e ↦ ok ((e, 0), s)
      | inr i ↦
          if not (s.array i).writable
          then ok ((e_inval, 0), s)
          else during i (move_bytes vop_write i base len) s
    ]

  unfoldable pub file_seek : ℤ → ℕ → ℕ → Files v → Outcome (ℤ × Files v)
  unfolding fd2file during move_position
  file_seek fd offset whence s = do
    found ← fd2file fd s
    elim found [ inl e ↦ ok (e, s) | inr i ↦ during i (move_position i offset whence) s ]

  -- The size is that of the `struct stat`, which a refused call leaves alone.
  unfoldable pub file_fstat : ℤ → Files v → Outcome ((ℤ × Option ℕ) × Files v)
  unfolding fd2file during consult
  file_fstat fd s = do
    found ← fd2file fd s
    elim found [
      | inl e ↦ ok ((e, none), s)
      | inr i ↦
          during i
            (consult (λ n w. let (ret, size, w') = vop_fstat n w in ((ret, some size), w')) i) s
    ]

  unfoldable pub file_fsync : ℤ → Files v → Outcome (ℤ × Files v)
  unfolding fd2file during consult
  file_fsync fd s = do
    found ← fd2file fd s
    elim found [ inl e ↦ ok (e, s) | inr i ↦ during i (consult vop_fsync i) s ]

  -- `name` is the address of `direntp->name`, an array of 256 bytes, and `offset` is
  -- `direntp->offset`; the result is the code and the new offset.
  unfoldable pub file_getdirentry : ℤ → ℕ → ℕ → Files v → Outcome ((ℤ × ℕ) × Files v)
  unfolding fd2file during consult iobuf_init iobuf_used
  file_getdirentry fd name offset s = do
    found ← fd2file fd s
    elim found [
      | inl e ↦ ok ((e, offset), s)
      | inr i ↦
          during i
            (consult
              (λ n w.
                let (ret, iob, w') = vop_getdirentry n (iobuf_init name 256 offset) w in
                ((ret, if is_zero ret then add_off offset (iobuf_used iob) else offset), w'))
              i)
            s
    ]

  unfoldable pub file_dup : ℤ → ℤ → Files v → Outcome (ℤ × Files v)
  unfolding fd2file fd_array_alloc fd_array_dup
  file_dup fd1 fd2 s = do
    found ← fd2file fd1 s
    elim found [
      | inl e ↦ ok (e, s)
      | inr from ↦ fd_array_alloc fd2 s >>= λ (fresh, t). elim fresh [
        | inl e ↦ ok (e, t)
        | inr to ↦ fd_array_dup to from t >>= λ u. ok (pos (u.array to).fd, u)
      ]
    ]
