-- ===== src/Files/Total.antt =====
-- All calls on the table of open files together.
use nku_os_lab.Base.{
  ℕ, ◌<◌, ◌≡◌, refl, sym, ◌∙◌, ap, subst, ◌⊎◌, inl, inr, Bool, Option, none, some, List, arith,
  update_self, update_ne,
}
use nku_os_lab.Base.Int.{ℤ, pos}
use nku_os_lab.Base.Outcome.{Outcome, ok, ◌>>=◌}
use nku_os_lab.Files.Interface.{Vfs}
use nku_os_lab.Files.{Files, File, fd_none, fd_opened, e_inval, e_max_open, put, fd_array_dup}
use nku_os_lab.Files.Calls.{
  fd_array_alloc, file_open, file_close, file_read, file_write, file_seek, file_fstat, file_fsync,
  file_getdirentry, file_dup,
}
use nku_os_lab.Files.Parts.{access_mode}
use nku_os_lab.Files.Invariant.{
  IsTable, IsSettled, IsSettledAs, Changes, Changes-IsTable, free_entry,
}
use nku_os_lab.Files.Steps.{Changes-put, Changes-trans}
use nku_os_lab.Files.Lookup.{Settles, by_entry}
use nku_os_lab.Files.Lowest.{OpensLowest, file_open_cases}
use nku_os_lab.Files.Search.{IsLowest, fresh_entry, Allocation, refused, taken, Allocation-total}
use nku_os_lab.Files.Open.{made_open, copied, dup_lem}
use nku_os_lab.Files.Entry.{Opens, failed, opens}
use nku_os_lab.Files.Read.{inode, inode_lem}
use nku_os_lab.Files.Entries.{
  file_close-Settles, file_read-Settles, file_write-Settles, file_seek-Settles, file_fstat-Settles,
  file_fsync-Settles, file_getdirentry-Settles,
}

-- A call, without its results that are not codes.
pub data Call : Type 0 where
  open_file : List ℕ → ℕ → Call
  close_file : ℤ → Call
  read_file write_file : ℤ → ℕ → ℕ → Call
  seek_file : ℤ → ℕ → ℕ → Call
  fstat_file fsync_file : ℤ → Call
  getdirentry_file : ℤ → ℕ → ℕ → Call
  dup_file : ℤ → ℤ → Call

abbrev pub Performs : {v : Vfs} → ℕ → Files v → Call → Type 0
Performs nentry s (open_file path flags) = Settles nentry (file_open nentry path flags s)
Performs nentry s (close_file fd) = Settles nentry (file_close nentry fd s)
Performs nentry s (read_file fd base len) = Settles nentry (file_read nentry fd base len s)
Performs nentry s (write_file fd base len) = Settles nentry (file_write nentry fd base len s)
Performs nentry s (seek_file fd offset whence) =
    Settles nentry (file_seek nentry fd offset whence s)
Performs nentry s (fstat_file fd) = Settles nentry (file_fstat nentry fd s)
Performs nentry s (fsync_file fd) = Settles nentry (file_fsync nentry fd s)
Performs nentry s (getdirentry_file fd name offset) =
    Settles nentry (file_getdirentry nentry fd name offset s)
Performs nentry s (dup_file fd1 fd2) = Settles nentry (file_dup nentry fd1 fd2 s)

module _ {v : Vfs} (nentry : ℕ) (s : Files v) (h : IsTable nentry s) where
  -- What is left of the entry `i` after it was allocated in `s`.
  fresh_change : (i : ℕ) → Changes s (put i (fresh_entry s i) s) i (fresh_entry s i)
  fresh_change i = Changes-put s i (fresh_entry s i) s.world

  fresh_number : (i : ℕ) → i < nentry → ((put i (fresh_entry s i) s).array i).fd ≡ i
  fresh_number i l =
      ap (λ (f : File). f.fd) (update_self s.array i (fresh_entry s i)) ∙ h.numbered i l

  -- A settled entry in place of the one that was allocated.
  replaced :
      (i : ℕ) (u : Files v) (f : File)
      → i < nentry
      → Changes (put i (fresh_entry s i) s) u i f
      → f.fd ≡ ((put i (fresh_entry s i) s).array i).fd
      → IsSettled f
      → IsTable nentry u
  replaced i u f l c r k =
      Changes-IsTable nentry s u i f h
        (Changes-trans s (put i (fresh_entry s i) s) u i (fresh_entry s i) f (fresh_change i) c)
        (r ∙ fresh_number i l) k

  Opens-Settles :
      (path : List ℕ) (flags : ℕ) (readable writable : Bool) (i : ℕ) (out : Outcome (ℤ × Files v))
      → i < nentry
      → Opens path flags readable writable i (put i (fresh_entry s i) s) out
      → Settles nentry out
  Opens-Settles path flags readable writable i out l (failed ret u f e z y c p q r) =
      (ret, u, e, replaced i u f l c r (subst (λ x. IsSettledAs x f.open_count f.node) (sym p) q))
  Opens-Settles path flags readable writable i out l (opens u position y e z c) =
      (_, u, e, replaced i u _ l c refl (refl, ((v.vfs_open path flags s.world).1, refl)))

  file_open-Settles : (path : List ℕ) (flags : ℕ) → Settles nentry (file_open nentry path flags s)
  file_open-Settles path flags = go (access_mode flags) refl
    where
      lowest :
          (readable writable : Bool) (o : Option ℕ)
          → IsLowest nentry 0 s.array o
          → OpensLowest nentry s path flags readable writable o
          → Settles nentry (file_open nentry path flags s)
      lowest readable writable none r e = (e_max_open, s, e, h)
      lowest readable writable (some i) r e =
          Opens-Settles path flags readable writable i (file_open nentry path flags s)
            (omega (arith, r.1)) e

      go :
          (m : Option (Bool × Bool))
          → access_mode flags ≡ m
          → Settles nentry (file_open nentry path flags s)
      go none e = (e_inval, s, (file_open_cases nentry s h path flags).0 e, h)
      go (some (readable, writable)) e =
          let (o, r, k) = (file_open_cases nentry s h path flags).1 readable writable e in
          lowest readable writable o r k

  differ : ¬ (fd_none ≡ fd_opened)
  differ q = cc

  dup_taken :
      (to from : ℕ)
      → to < nentry
      → from < nentry
      → (s.array from).status ≡ fd_opened
      → (s.array to).status ≡ fd_none
      → Settles nentry
          (fd_array_dup to from (put to (fresh_entry s to) s) >>= λ u. ok (pos (u.array to).fd, u))
  dup_taken to from l k o e =
      let t = put to (fresh_entry s to) s in
      let n = inode nentry s from h k o in
      let w = v.vop_open_inc n (v.vop_ref_inc n s.world) in
      let fresh : t.array to ≡ fresh_entry s to = update_self s.array to (fresh_entry s to) in
      let kept : t.array from ≡ s.array from =
        update_ne s.array to (fresh_entry s to) from
          λ q. differ (sym e ∙ ap (λ j. (s.array j).status) q ∙ o) in
      let start = ap (λ (f : File). f.status) fresh in
      let (u, q, c) =
        made_open t (put to (copied t to from n) (record t { world = w })) to n (copied t to from n)
          (Changes-put t to (copied t to from n) w) start refl
          (ap (λ (f : File). f.open_count) fresh ∙ free_entry nentry s to h l e) in
      (
        _,
        u,
        ap (λ x. x >>= λ u. ok (pos (u.array to).fd, u))
            (dup_lem t to from n start (ap (λ (f : File). f.status) kept ∙ o)
                (ap (λ (f : File). f.node) kept ∙ inode_lem nentry s from h k o)
              ∙ q),
        replaced to u _ l c refl (refl, (n, refl)),
      )

  file_dup-Settles : (fd1 fd2 : ℤ) → Settles nentry (file_dup nentry fd1 fd2 s)
  unfolding file_dup
  file_dup-Settles fd1 fd2 =
      by_entry nentry s h fd1 (λ e. e) _ λ from k o. go from k o (Allocation-total nentry s h fd2)
    where
      After : ℕ → Outcome ((ℤ ⊎ ℕ) × Files v) → Outcome (ℤ × Files v)
      After from out = out >>= λ (fresh, t). elim fresh [
        | inl e ↦ ok (e, t)
        | inr to ↦ fd_array_dup to from t >>= λ u. ok (pos (u.array to).fd, u)
      ]

      go :
          (from : ℕ)
          → from < nentry
          → (s.array from).status ≡ fd_opened
          → Allocation nentry s h fd2
          → Settles nentry (After from (fd_array_alloc nentry fd2 s))
      go from k o (refused e q) = (e, s, ap (After from) q, h)
      go from k o (taken to l z q) =
          let (a, t, p, w) = dup_taken to from l k o z in (a, t, ap (After from) q ∙ p, w)

  -- Every call on a table of open files returns: no assertion fails and no null inode is followed,
  -- whatever the file systems answer and whatever the descriptors, paths, flags and lengths are.
  -- Afterwards the table is one again: every entry is free and unused, or open with exactly one
  -- user and an inode.
  pub calls_settle : (c : Call) → Performs nentry s c
  calls_settle (open_file path flags) = file_open-Settles path flags
  calls_settle (close_file fd) = file_close-Settles nentry s h fd
  calls_settle (read_file fd base len) = file_read-Settles nentry s h fd base len
  calls_settle (write_file fd base len) = file_write-Settles nentry s h fd base len
  calls_settle (seek_file fd offset whence) = file_seek-Settles nentry s h fd offset whence
  calls_settle (fstat_file fd) = file_fstat-Settles nentry s h fd
  calls_settle (fsync_file fd) = file_fsync-Settles nentry s h fd
  calls_settle (getdirentry_file fd name offset) =
      file_getdirentry-Settles nentry s h fd name offset
  calls_settle (dup_file fd1 fd2) = file_dup-Settles fd1 fd2
