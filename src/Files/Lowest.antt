-- ===== src/Files/Lowest.antt =====
-- `file_open` as a whole: which entry it takes, and what it returns.
use nku_os_lab.Base.{
  ℕ, ◌≡◌, refl, sym, ◌∙◌, ap, subst, Bool, Option, none, some, List, arith, update_self,
}
use nku_os_lab.Base.Outcome.{ok}
use nku_os_lab.Files.Interface.{Vfs}
use nku_os_lab.Files.{Files, File, e_inval, e_max_open, find_none, put}
use nku_os_lab.Files.Calls.{file_open}
use nku_os_lab.Files.Parts.{access_mode}
use nku_os_lab.Files.Invariant.{IsTable, free_entry}
use nku_os_lab.Files.Search.{IsLowest, find_none-IsLowest, fresh_entry, alloc_any}
use nku_os_lab.Files.Entry.{Opens, open_entry-Opens}

-- What `file_open` is to do, by the lowest free entry.
abbrev pub OpensLowest : {v : Vfs} → ℕ → Files v → List ℕ → ℕ → Bool → Bool → Option ℕ → Type 0
OpensLowest nentry s path flags readable writable none =
    file_open nentry path flags s ≡ ok (e_max_open, s)
OpensLowest nentry s path flags readable writable (some i) =
    Opens path flags readable writable i (put i (fresh_entry s i) s) (file_open nentry path flags s)

module _ {v : Vfs} (nentry : ℕ) (s : Files v) (h : IsTable nentry s) where
  open_found :
      (path : List ℕ) (flags : ℕ) (readable writable : Bool)
      → access_mode flags ≡ some (readable, writable)
      → (o : Option ℕ) → find_none nentry 0 s.array ≡ o
      → IsLowest nentry 0 s.array o
      → OpensLowest nentry s path flags readable writable o
  unfolding file_open
  open_found path flags readable writable m none e r =
      rw (m, file_open) (rw (alloc_any nentry s h none e r) refl)
  open_found path flags readable writable m (some i) e r =
      subst (Opens path flags readable writable i (put i (fresh_entry s i) s))
        (sym (rw (m, file_open) (rw (alloc_any nentry s h (some i) e r) refl)))
        (open_entry-Opens path flags readable writable i (put i (fresh_entry s i) s)
          (ap (λ (f : File). f.status) (update_self s.array i (fresh_entry s i)))
          (ap (λ (f : File). f.open_count) (update_self s.array i (fresh_entry s i))
            ∙ free_entry nentry s i h (omega (arith, r.1)) r.2))

  -- `file_open` refuses a bad access mode with E_INVAL and a full table with E_MAX_OPEN, and changes
  -- nothing then. Otherwise it works on the lowest free entry. It fails with the code of `vfs_open`,
  -- or, with O_APPEND, with that of `vop_fstat`, and the entry is free again; or these succeed and it
  -- returns the number of the entry, open in the mode asked for on the inode found, at position 0
  -- or, with O_APPEND, at the size that `vop_fstat` gives.
  pub file_open_cases :
      (path : List ℕ) (flags : ℕ)
      → (access_mode flags ≡ none → file_open nentry path flags s ≡ ok (e_inval, s))
        × ((readable writable : Bool)
            → access_mode flags ≡ some (readable, writable)
            → (o : Option ℕ) × IsLowest nentry 0 s.array o
              × OpensLowest nentry s path flags readable writable o)
  unfolding file_open
  file_open_cases path flags = (
    λ m. rw (m, file_open) refl,
    λ readable writable m. (
      find_none nentry 0 s.array,
      find_none-IsLowest nentry 0 s.array,
      open_found path flags readable writable m (find_none nentry 0 s.array) refl
          (find_none-IsLowest nentry 0 s.array),
    ),
  )
