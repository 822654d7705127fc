-- ===== src/Files/Invariant.antt =====
-- The table of open files between two calls, and what a call changes in it.
use nku_os_lab.Base.{ℕ, ◌<◌, ◌≡◌, ◌≢◌, sym, ◌∙◌, subst, ap, Option, some, arith, ℕ_discrete}
use nku_os_lab.Files.Interface.{Vfs}
use nku_os_lab.Files.{Files, File, Status, fd_none, fd_init, fd_opened, fd_closed}

-- An entry is free and has no user, or it is open, has one user, and has an inode.
abbrev pub IsSettledAs : Status → ℕ → Option ℕ → Type 0
IsSettledAs fd_none count inode = count ≡ 0
IsSettledAs fd_opened count inode = (count ≡ 1) × ((n : ℕ) × (inode ≡ some n))
IsSettledAs fd_init count inode = ⊥
IsSettledAs fd_closed count inode = ⊥

abbrev pub IsSettled : File → Type 0
IsSettled f = IsSettledAs f.status f.open_count f.node

module _ {v : Vfs} where
  pub record IsTable (nentry : ℕ) (s : Files v) : Type 0 where
    pub present : 0 < s.files_count
    pub numbered : (i : ℕ) → i < nentry → (s.array i).fd ≡ i
    pub settled : (i : ℕ) → i < nentry → IsSettled (s.array i)

  -- From `s` to `t` the entry `i` becomes `f`, and no other entry changes.
  pub record Changes (s t : Files v) (i : ℕ) (f : File) : Type 0 where
    pub here : t.array i ≡ f
    pub others : (j : ℕ) → i ≢ j → t.array j ≡ s.array j
    pub present : t.files_count ≡ s.files_count

  pub Changes-IsTable :
      (nentry : ℕ) (s t : Files v) (i : ℕ) (f : File)
      → IsTable nentry s
      → Changes s t i f
      → f.fd ≡ i
      → IsSettled f
      → IsTable nentry t
  Changes-IsTable nentry s t i f h c e k = record {
    present = omega (arith, h.present, c.present);
    numbered = λ j l. elim (ℕ_discrete i j) [
      | yes q ↦ subst (λ m. (t.array m).fd ≡ m) q (ap (λ g. g.fd) c.here ∙ e)
      | no q ↦ ap (λ (g : File). g.fd) (c.others j q) ∙ h.numbered j l
    ];
    settled = λ j l. elim (ℕ_discrete i j) [
      | yes q ↦ subst (λ m. IsSettled (t.array m)) q (subst IsSettled (sym c.here) k)
      | no q ↦ subst IsSettled (sym (c.others j q)) (h.settled j l)
    ];
  }

  -- An open entry of a table has one user and an inode.
  pub opened_entry :
      (nentry : ℕ) (s : Files v) (i : ℕ)
      → IsTable nentry s
      → i < nentry
      → (s.array i).status ≡ fd_opened
      → ((s.array i).open_count ≡ 1) × ((n : ℕ) × ((s.array i).node ≡ some n))
  opened_entry nentry s i h l e =
      subst (λ x. IsSettledAs x (s.array i).open_count (s.array i).node) e (h.settled i l)

  pub free_entry :
      (nentry : ℕ) (s : Files v) (i : ℕ)
      → IsTable nentry s
      → i < nentry
      → (s.array i).status ≡ fd_none
      → (s.array i).open_count ≡ 0
  free_entry nentry s i h l e =
      subst (λ x. IsSettledAs x (s.array i).open_count (s.array i).node) e (h.settled i l)
