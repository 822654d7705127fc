-- ===== src/Files/Init.antt =====
-- The first state of a table of open files.
use nku_os_lab.Base.{
  ℕ, zero, suc, ◌+◌, ◌≤◌, ◌<◌, ◌≡◌, ◌≢◌, refl, sym, ◌∙◌, ap, subst, ◌⊎◌, inl, inr, arith, update,
  update_self, update_ne, ℕ_discrete,
}
use nku_os_lab.Files.Interface.{Vfs}
use nku_os_lab.Files.{Files, File, fd_none, init_entries, fd_array_init}
use nku_os_lab.Files.Invariant.{IsTable, IsSettled}

-- The entry that the initialisation makes of `f` in the place `i`.
abbrev cleared : File → ℕ → File
cleared f i = record f { open_count = 0; status = fd_none; fd = i }

init_entries-outside :
    (left fd : ℕ) (array : ℕ → File) (j : ℕ)
    → (j < fd) ⊎ (fd + left ≤ j)
    → init_entries left fd array j ≡ array j
unfolding init_entries
init_entries-outside zero fd array j h = refl
init_entries-outside (suc left) fd array j h =
    init_entries-outside left (suc fd) (update array fd (cleared (array fd) fd)) j (go h)
    ∙ update_ne array fd (cleared (array fd) fd) j (differ h)
  where
    go : (j < fd) ⊎ (fd + suc left ≤ j) → (j < suc fd) ⊎ (suc fd + left ≤ j)
    go (inl l) = inl (omega arith)
    go (inr l) = inr (omega arith)

    differ : (j < fd) ⊎ (fd + suc left ≤ j) → fd ≢ j
    differ (inl l) q = absurd (omega arith)
    differ (inr l) q = absurd (omega arith)

init_entries-inside :
    (left fd : ℕ) (array : ℕ → File) (j : ℕ)
    → fd ≤ j
    → j < fd + left
    → init_entries left fd array j ≡ cleared (array j) j
unfolding init_entries
init_entries-inside zero fd array j lo hi = absurd (omega arith)
init_entries-inside (suc left) fd array j lo hi = elim (ℕ_discrete fd j) [
  | yes q ↦
      init_entries-outside left (suc fd) (update array fd (cleared (array fd) fd)) j
        (inl (omega arith))
      ∙ subst (λ k. update array fd (cleared (array fd) fd) k ≡ cleared (array k) k) q
          (update_self array fd (cleared (array fd) fd))
  | no q ↦
      init_entries-inside left (suc fd) (update array fd (cleared (array fd) fd)) j (omega arith)
        (omega arith)
      ∙ ap (λ f. cleared f j) (update_ne array fd (cleared (array fd) fd) j q)
]

module _ {v : Vfs} (nentry : ℕ) where
  -- Whatever the memory of the table held, after `fd_array_init` it is a table without an open
  -- file: each of the `nentry` entries is free, has its own number and no user. Memory behind the
  -- table is not written.
  pub fd_array_init-IsTable :
      (s : Files v)
      → 0 < s.files_count
      → let array = fd_array_init nentry s.array in
        IsTable nentry (record s { array = array })
        × ((i : ℕ) → i < nentry → (array i).status ≡ fd_none)
        × ((i : ℕ) → nentry ≤ i → array i ≡ s.array i)
  unfolding fd_array_init
  fd_array_init-IsTable s h = (
    record {
      present = h;
      numbered = λ i l.
          ap (λ (f : File). f.fd)
            (init_entries-inside nentry 0 s.array i (omega arith) (omega arith));
      settled = λ i l.
          subst IsSettled (sym (init_entries-inside nentry 0 s.array i (omega arith) (omega arith)))
            refl;
    },
    λ i l.
        ap (λ (f : File). f.status)
          (init_entries-inside nentry 0 s.array i (omega arith) (omega arith)),
    λ i l. init_entries-outside nentry 0 s.array i (inr (omega arith)),
  )
