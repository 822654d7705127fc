-- ===== src/Files/Parts.antt =====
-- Lab8/code/kern/fs/file.c: the parts that the calls on open files share.
use Prim.Native.Nat.{bit_and}
use nku_os_lab.Base.{ℕ, Bool, true, false, not, ◌&&◌, Option, none, some, List, ◌==◌, if◌then◌else◌}
use nku_os_lab.Base.Int.{ℤ, pos}
use nku_os_lab.Base.Outcome.{Outcome, ok, panic, ◌>>=◌}
use nku_os_lab.Files.Interface.{Vfs, Iobuf, iobuf_init, iobuf_used}
use nku_os_lab.Files.{
  Files, is_opened, e_inval, is_zero, add_off, put, fd_array_free, fd_array_acquire,
  fd_array_release, fd_array_open,
}

-- A call of a file system through `file->node`; a null node is a fault.
abbrev pub with_node : {A : Type 0} → Option ℕ → (ℕ → Outcome A) → Outcome A
with_node none f = panic
with_node (some n) f = f n

-- The access mode of the flags: readable and writable.
unfoldable pub access_mode : ℕ → Option (Bool × Bool)
access_mode open_flags =
    let mode = bit_and open_flags 3 in
    if mode == 0
    then some (true, false)
    else if mode == 1
    then some (false, true)
    else if mode == 2
    then some (true, true)
    else none

-- The switch of `file_seek`: the code, the new position and the state after a `vop_fstat`.
unfoldable pub seek_target : {W : Type 0} → (ℕ → W → ℤ × ℕ × W) → ℕ → ℕ → ℕ → ℕ → W → ℤ × ℕ × W
seek_target vop_fstat position offset whence n w =
    let (ret, size, w') = vop_fstat n w in
    if whence == 0
    then (pos 0, offset, w)
    else if whence == 1
    then (pos 0, add_off offset position, w)
    else if whence == 2
    then (ret, if is_zero ret then add_off offset size else offset, w')
    else (e_inval, offset, w)

module _ {v : Vfs} where
  open v use {World, vfs_open, vfs_close, vop_fstat, vop_tryseek}

  -- The part of `file_open` behind the allocation of the entry `i`.
  unfoldable pub open_entry : List ℕ → ℕ → Bool → Bool → ℕ → Files v → Outcome (ℤ × Files v)
  unfolding fd_array_free fd_array_open
  open_entry path open_flags readable writable i s =
      let (ret, node', w) = vfs_open path open_flags s.world in
      let t = record s { world = w } in
      let (ret', size, w') = vop_fstat node' w in
      let ready = λ (x : Files v) (offset : ℕ).
        put i
          (record (x.array i) {
            position = offset;
            node = some node';
            readable = readable;
            writable = writable;
          })
          x in
      let start = put i (record (t.array i) { position = 0 }) t in
      if not (is_zero ret)
      then (fd_array_free i t >>= λ u. ok (ret, u))
      else if bit_and open_flags 0x20 == 0
      then (fd_array_open i (ready t 0) >>= λ u. ok (pos ((u.array i).fd), u))
      else if not (is_zero ret')
      then (fd_array_free i (record start { world = vfs_close node' w' }) >>= λ u. ok (ret', u))
      else (fd_array_open i (ready (record t { world = w' }) size) >>= λ u.
          ok (pos ((u.array i).fd), u))

  -- `file_read` and `file_write` between `fd_array_acquire` and the end: the file system moves bytes
  -- from the file's position on, and the position advances by what it moved.
  unfoldable pub move_bytes :
      (ℕ → Iobuf → World → ℤ × Iobuf × World) → ℕ → ℕ → ℕ → Files v → Outcome ((ℤ × ℕ) × Files v)
  unfolding fd_array_release iobuf_init iobuf_used
  move_bytes move i base len t = with_node (t.array i).node λ n.
      let (ret, iob, w) = move n (iobuf_init base len (t.array i).position) t.world in
      let copied = iobuf_used iob in
      let u = record t { world = w } in
      let moved =
        if is_opened (u.array i).status
        then put i (record (u.array i) { position = add_off (u.array i).position copied }) u
        else u in
      fd_array_release i moved >>= λ x. ok ((ret, copied), x)

  -- `file_seek` between the same two points.
  unfoldable pub move_position : ℕ → ℕ → ℕ → Files v → Outcome (ℤ × Files v)
  unfolding fd_array_release seek_target
  move_position i offset whence t = with_node (t.array i).node λ n.
      let (ret, target, w) = seek_target vop_fstat (t.array i).position offset whence n t.world in
      let (ret', w') = vop_tryseek n target w in
      let u = record t { world = if is_zero ret then w' else w } in
      let sought =
        if is_zero ret && is_zero ret'
        then put i (record (u.array i) { position = target }) u
        else u in
      fd_array_release i sought >>= λ x. ok (if is_zero ret then ret' else ret, x)

  -- The same part of `file_fstat`, `file_fsync` and `file_getdirentry`: a call of the file system.
  unfoldable pub consult :
      {A : Type 0} → (ℕ → World → A × World) → ℕ → Files v → Outcome (A × Files v)
  unfolding fd_array_release
  consult ask i t = with_node (t.array i).node λ n.
      let (answer, w) = ask n t.world in
      fd_array_release i (record t { world = w }) >>= λ x. ok (answer, x)

  -- The entry `i` is used by one more during a call.
  unfoldable pub during :
      {A : Type 0} → ℕ → (Files v → Outcome (A × Files v)) → Files v → Outcome (A × Files v)
  unfolding fd_array_acquire
  during i body s = fd_array_acquire i s >>= body
