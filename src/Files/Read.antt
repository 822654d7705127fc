-- ===== src/Files/Read.antt =====
-- The calls on a file that is open: what they return and what they change.
use nku_os_lab.Base.{
  ℕ, ◌+◌, ◌<◌, ◌≡◌, refl, sym, ◌∙◌, ap, subst, Bool, true, false, ◌&&◌, some, inr, if◌then◌else◌,
  lt→ltb, ==_refl,
}
use nku_os_lab.Base.Int.{ℤ, pos}
use nku_os_lab.Base.Outcome.{Outcome, ok, ◌>>=◌, ◌>>◌, assert}
use nku_os_lab.Files.Interface.{Vfs, Iobuf, iobuf_init, iobuf_used}
use nku_os_lab.Files.{
  Files, File, fd_opened, is_opened, is_zero, e_inval, add_off, put, fd_array_acquire,
}
use nku_os_lab.Files.Calls.{fd2file, file_read, file_write, file_seek}
use nku_os_lab.Files.Parts.{during, move_bytes, move_position, consult, seek_target}
use nku_os_lab.Files.Invariant.{IsTable, Changes, opened_entry}
use nku_os_lab.Files.Steps.{
  Changes-put, Changes-trans, move_bytes_lem, move_position_lem, consult_lem,
}

module _ {v : Vfs} (nentry : ℕ) (s : Files v) (i : ℕ) (h : IsTable nentry s) (l : i < nentry)
    (opened : (s.array i).status ≡ fd_opened) where
  pub fd2file_lem : fd2file nentry (pos i) s ≡ ok (inr i)
  unfolding fd2file
  fd2file_lem =
      rw (lt→ltb i nentry l, lt→ltb 0 s.files_count h.present, opened, h.numbered i l, ==_refl i)
        refl

  -- The inode of the open file.
  pub inode : ℕ
  inode = (opened_entry nentry s i h l opened).1.0

  pub inode_lem : (s.array i).node ≡ some inode
  unfolding inode
  inode_lem = (opened_entry nentry s i h l opened).1.1

  pub one_user : (s.array i).open_count ≡ 1
  one_user = (opened_entry nentry s i h l opened).0

  busy : File
  busy = record (s.array i) { open_count = 2 }

  -- The state in which the body of a call runs.
  pub acquired : Files v
  acquired = put i (record (s.array i) { open_count = 2 }) (record s { world = s.world })

  pub during_lem :
      {A : Type 0} (body : Files v → Outcome (A × Files v)) → during i body s ≡ body acquired
  unfolding during fd_array_acquire acquired
  during_lem body =
      ap
        (λ (k : Bool).
          (assert k
            >> ok (put i (record (s.array i) { open_count = (s.array i).open_count + 1 }) s))
          >>= body)
        (ap is_opened opened)
      ∙ ap (λ c. body (put i (record (s.array i) { open_count = c }) s)) (ap (λ c. c + 1) one_user)

  pub acquired_change : Changes s acquired i (record (s.array i) { open_count = 2 })
  unfolding acquired
  acquired_change = Changes-put s i (record (s.array i) { open_count = 2 }) s.world

  pub settle :
      (u : Files v) (p : ℕ)
      → Changes acquired u i (record (s.array i) { position = p; open_count = 1 })
      → Changes s u i (record (s.array i) { position = p })
  settle u p c =
      subst (λ k. Changes s u i (record (s.array i) { position = p; open_count = k }))
        (sym one_user)
        (Changes-trans s acquired u i (record (s.array i) { open_count = 2 })
          (record (s.array i) { position = p; open_count = 1 }) acquired_change c)

  acquired_opened : (acquired.array i).status ≡ fd_opened
  acquired_opened = ap (λ (f : File). f.status) acquired_change.here ∙ opened

  acquired_twice : (acquired.array i).open_count ≡ 2
  acquired_twice = ap (λ (f : File). f.open_count) acquired_change.here

  acquired_inode : (acquired.array i).node ≡ some inode
  acquired_inode = ap (λ (f : File). f.node) acquired_change.here ∙ inode_lem

  -- What a call that moves bytes is to do with the open file: one call of the file system at the
  -- file's position; the position advances by what was moved, and nothing else changes.
  abbrev pub Moves :
      (ℕ → Iobuf → v.World → ℤ × Iobuf × v.World) → ℕ → ℕ → Outcome ((ℤ × ℕ) × Files v) → Type 0
  Moves move base len out =
      let (ret, iob, w) = move inode (iobuf_init base len (s.array i).position) s.world in
      (u : Files v) × (out ≡ ok ((ret, iobuf_used iob), u))
      × Changes s u i
          (record (s.array i) { position = add_off (s.array i).position (iobuf_used iob) })
      × (u.world ≡ w)

  pub move_bytes-Moves :
      (move : ℕ → Iobuf → v.World → ℤ × Iobuf × v.World) (base len : ℕ)
      → Moves move base len (during i (move_bytes move i base len) s)
  unfolding acquired
  move_bytes-Moves move base len =
      let (u, e, c, w) = subst Body acquired_change.here (
        move_bytes_lem acquired i inode acquired_opened acquired_twice acquired_inode move base
          len) in
      (u, during_lem (move_bytes move i base len) ∙ e, settle u _ c, w)
    where
      Body : File → Type 0
      Body f =
          let (ret, iob, w) = move inode (iobuf_init base len f.position) s.world in
          (u : Files v) × (move_bytes move i base len acquired ≡ ok ((ret, iobuf_used iob), u))
          × Changes acquired u i
              (record f { position = add_off f.position (iobuf_used iob); open_count = 1 })
          × (u.world ≡ w)

  file_read-readable :
      (base len : ℕ)
      → (s.array i).readable ≡ true
      → file_read nentry (pos i) base len s ≡ during i (move_bytes v.vop_read i base len) s
  unfolding file_read
  file_read-readable base len r = rw (fd2file_lem, r) refl

  file_write-writable :
      (base len : ℕ)
      → (s.array i).writable ≡ true
      → file_write nentry (pos i) base len s ≡ during i (move_bytes v.vop_write i base len) s
  unfolding file_write
  file_write-writable base len r = rw (fd2file_lem, r) refl

  -- Reading an open and readable file, and writing one that is open and writable, is one call of
  -- the file system at the file's position: its code and the number of bytes are returned, the
  -- position advances by that number, and no other entry changes. Without the permission the call
  -- is refused and changes nothing.
  pub file_read_write :
      (base len : ℕ)
      → ((s.array i).readable ≡ true
          → Moves v.vop_read base len (file_read nentry (pos i) base len s))
        × ((s.array i).writable ≡ true
            → Moves v.vop_write base len (file_write nentry (pos i) base len s))
        × ((s.array i).readable ≡ false
            → file_read nentry (pos i) base len s ≡ ok ((e_inval, 0), s))
        × ((s.array i).writable ≡ false
            → file_write nentry (pos i) base len s ≡ ok ((e_inval, 0), s))
  unfolding file_read file_write
  file_read_write base len = (
    λ r.
        subst (Moves v.vop_read base len) (sym (file_read-readable base len r))
          (move_bytes-Moves v.vop_read base len),
    λ r.
        subst (Moves v.vop_write base len) (sym (file_write-writable base len r))
          (move_bytes-Moves v.vop_write base len),
    λ r. rw (fd2file_lem, r) refl,
    λ r. rw (fd2file_lem, r) refl,
  )

  pub move_position-during :
      (offset whence : ℕ)
      → let (ret, target, w) =
          seek_target v.vop_fstat (s.array i).position offset whence inode s.world in
        let (ret', w') = v.vop_tryseek inode target w in
        let p = if is_zero ret && is_zero ret' then target else (s.array i).position in
        (u : Files v) × (during i (move_position i offset whence) s
          ≡ ok (if is_zero ret then ret' else ret, u))
        × Changes s u i (record (s.array i) { position = p })
  unfolding acquired
  move_position-during offset whence =
      let (u, e, c) = subst Body acquired_change.here (
        move_position_lem acquired i inode acquired_opened acquired_twice acquired_inode offset
          whence) in
      (u, during_lem (move_position i offset whence) ∙ e, settle u _ c)
    where
      Body : File → Type 0
      Body f =
          let (ret, target, w) = seek_target v.vop_fstat f.position offset whence inode s.world in
          let (ret', w') = v.vop_tryseek inode target w in
          let p = if is_zero ret && is_zero ret' then target else f.position in
          (u : Files v) × (move_position i offset whence acquired
            ≡ ok (if is_zero ret then ret' else ret, u))
          × Changes acquired u i (record f { position = p; open_count = 1 })

  -- `file_seek` on an open file returns the code of the last call that it made. The position becomes
  -- the offset, the offset from the old position or the offset from the size of the file, by the
  -- mode; it stays if the mode is none of these or a call of the file system fails. No other entry
  -- changes.
  pub file_seek_lem :
      (offset whence : ℕ)
      → let (ret, target, w) =
          seek_target v.vop_fstat (s.array i).position offset whence inode s.world in
        let (ret', w') = v.vop_tryseek inode target w in
        let p = if is_zero ret && is_zero ret' then target else (s.array i).position in
        (u : Files v) × (file_seek nentry (pos i) offset whence s
          ≡ ok (if is_zero ret then ret' else ret, u))
        × Changes s u i (record (s.array i) { position = p })
  unfolding file_seek
  file_seek_lem offset whence =
      let (u, e, c) = move_position-during offset whence in (u, rw fd2file_lem e, c)

  -- The position stays in the calls that only ask the file system.
  pub consult-during :
      {A : Type 0} (ask : ℕ → v.World → A × v.World)
      → (u : Files v) × (during i (consult ask i) s ≡ ok ((ask inode s.world).0, u))
        × Changes s u i (record (s.array i) { position = (s.array i).position })
        × (u.world ≡ (ask inode s.world).1)
  unfolding acquired
  consult-during ask =
      let (u, e, c, w) =
        consult_lem acquired i inode acquired_opened acquired_twice acquired_inode ask in
      (
        u,
        during_lem (consult ask i) ∙ e,
        settle u (s.array i).position (
            subst (λ f. Changes acquired u i (record f { open_count = 1 })) acquired_change.here c),
        w,
      )
