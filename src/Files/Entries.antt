-- ===== src/Files/Entries.antt =====
-- The calls on one open file, and what they leave of the table.
use nku_os_lab.Base.{ℕ, ◌<◌, ◌≡◌, refl, ap, Bool, true, false, not, none, if◌then◌else◌}
use nku_os_lab.Base.Int.{ℤ, pos}
use nku_os_lab.Base.Outcome.{ok, ◌>>=◌}
use nku_os_lab.Files.Interface.{Vfs, Iobuf}
use nku_os_lab.Files.{Files, fd_none, fd_opened, e_inval}
use nku_os_lab.Files.Calls.{
  file_close, file_read, file_write, file_seek, file_fstat, file_fsync, file_getdirentry,
}
use nku_os_lab.Files.Parts.{during, consult, move_bytes}
use nku_os_lab.Files.Invariant.{IsTable, Changes, Changes-IsTable}
use nku_os_lab.Files.Lookup.{Settles, by_entry}
use nku_os_lab.Files.Open.{close_lem}
use nku_os_lab.Files.Read.{
  inode, inode_lem, one_user, move_bytes-Moves, move_position-during, consult-during,
}

module _ {v : Vfs} (nentry : ℕ) (s : Files v) (h : IsTable nentry s) where
  -- Only the position of an open entry changed.
  pub moved-IsTable :
      (u : Files v) (i p : ℕ)
      → i < nentry
      → (s.array i).status ≡ fd_opened
      → Changes s u i (record (s.array i) { position = p })
      → IsTable nentry u
  moved-IsTable u i p l o c =
      Changes-IsTable nentry s u i (record (s.array i) { position = p }) h c (h.numbered i l)
        (h.settled i l)

  pub file_close-Settles : (fd : ℤ) → Settles nentry (file_close nentry fd s)
  unfolding file_close
  file_close-Settles fd =
      by_entry nentry s h fd (λ e. e) _
        λ i l o.
          let (u, e, c, w) =
            close_lem s i (inode nentry s i h l o) o (one_user nentry s i h l o)
              (inode_lem nentry s i h l o) in
          (
            pos 0,
            u,
            ap (λ x. x >>= λ t. ok (pos 0, t)) e,
            Changes-IsTable nentry s u i (record (s.array i) { status = fd_none; open_count = 0 }) h
                c (h.numbered i l) refl,
          )

  -- Bytes are moved only with the permission.
  permitted-Settles :
      (i base len : ℕ) (move : ℕ → Iobuf → v.World → ℤ × Iobuf × v.World)
      → i < nentry
      → (s.array i).status ≡ fd_opened
      → (permission : Bool)
      → Settles nentry
          (if not permission then ok ((e_inval, 0), s) else during i (move_bytes move i base len) s)
  permitted-Settles i base len move l o false = ((e_inval, 0), s, refl, h)
  permitted-Settles i base len move l o true =
      let (u, e, c, w) = move_bytes-Moves nentry s i h l o move base len in
      (_, u, e, moved-IsTable u i _ l o c)

  pub file_read-Settles : (fd : ℤ) (base len : ℕ) → Settles nentry (file_read nentry fd base len s)
  unfolding file_read
  file_read-Settles fd base len =
      by_entry nentry s h fd (λ e. (e, 0)) _
        λ i l o. permitted-Settles i base len v.vop_read l o (s.array i).readable

  pub file_write-Settles :
      (fd : ℤ) (base len : ℕ) → Settles nentry (file_write nentry fd base len s)
  unfolding file_write
  file_write-Settles fd base len =
      by_entry nentry s h fd (λ e. (e, 0)) _
        λ i l o. permitted-Settles i base len v.vop_write l o (s.array i).writable

  pub file_seek-Settles :
      (fd : ℤ) (offset whence : ℕ) → Settles nentry (file_seek nentry fd offset whence s)
  unfolding file_seek
  file_seek-Settles fd offset whence =
      by_entry nentry s h fd (λ e. e) _
        λ i l o.
          let (u, e, c) = move_position-during nentry s i h l o offset whence in
          (_, u, e, moved-IsTable u i _ l o c)

  consult-Settles :
      {A : Type 0} (i : ℕ) (ask : ℕ → v.World → A × v.World)
      → i < nentry
      → (s.array i).status ≡ fd_opened
      → Settles nentry (during i (consult ask i) s)
  consult-Settles i ask l o =
      let (u, e, c, w) = consult-during nentry s i h l o ask in (_, u, e, moved-IsTable u i _ l o c)

  pub file_fstat-Settles : (fd : ℤ) → Settles nentry (file_fstat nentry fd s)
  unfolding file_fstat
  file_fstat-Settles fd = by_entry nentry s h fd (λ e. (e, none)) _ λ i l o. consult-Settles i _ l o

  pub file_fsync-Settles : (fd : ℤ) → Settles nentry (file_fsync nentry fd s)
  unfolding file_fsync
  file_fsync-Settles fd =
      by_entry nentry s h fd (λ e. e) _ λ i l o. consult-Settles i v.vop_fsync l o

  pub file_getdirentry-Settles :
      (fd : ℤ) (name offset : ℕ) → Settles nentry (file_getdirentry nentry fd name offset s)
  unfolding file_getdirentry
  file_getdirentry-Settles fd name offset =
      by_entry nentry s h fd (λ e. (e, offset)) _ λ i l o. consult-Settles i _ l o
