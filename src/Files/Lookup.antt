-- ===== src/Files/Lookup.antt =====
-- The look-up of a descriptor, and calls that begin with it.
use nku_os_lab.Base.{ℕ, ◌<◌, ◌≡◌, refl, ◌∙◌, ap, inl, inr, Bool, true, false, ltb, lt→ltb, ltb→lt}
use nku_os_lab.Base.Int.{ℤ, pos, negsuc}
use nku_os_lab.Base.Outcome.{Outcome, ok, ◌>>=◌}
use nku_os_lab.Files.Interface.{Vfs}
use nku_os_lab.Files.{Files, Status, fd_none, fd_init, fd_opened, fd_closed, is_opened, e_inval}
use nku_os_lab.Files.Calls.{fd2file}
use nku_os_lab.Files.Invariant.{IsTable}
use nku_os_lab.Files.Read.{fd2file_lem}

-- The state after a call that returned.
abbrev pub Settles : {v : Vfs} {A : Type 0} → ℕ → Outcome (A × Files v) → Type 0
Settles {v} {A} nentry out = (a : A) × (t : Files v) × (out ≡ ok (a, t)) × IsTable nentry t

-- What a look-up finds: nothing, or an open entry.
data Found {v : Vfs} (nentry : ℕ) (s : Files v) (fd : ℤ) : Type 0 where
  missing : fd2file nentry fd s ≡ ok (inl e_inval) → Found nentry s fd
  present :
      (i : ℕ)
      → i < nentry
      → (s.array i).status ≡ fd_opened
      → fd2file nentry fd s ≡ ok (inr i)
      → Found nentry s fd

is_opened_eq : (x : Status) → is_opened x ≡ true → x ≡ fd_opened
is_opened_eq fd_opened e = refl
is_opened_eq fd_none e = cc
is_opened_eq fd_init e = cc
is_opened_eq fd_closed e = cc

module _ {v : Vfs} (nentry : ℕ) (s : Files v) (h : IsTable nentry s) where
  Found-at :
      (i : ℕ) (b c : Bool)
      → ltb i nentry ≡ b
      → is_opened (s.array i).status ≡ c
      → Found nentry s (pos i)
  unfolding fd2file
  Found-at i false c e f = missing (rw e refl)
  Found-at i true false e f = missing (rw (e, lt→ltb 0 s.files_count h.present, f) refl)
  Found-at i true true e f =
      let l : i < nentry = ltb→lt i nentry e in
      let o = is_opened_eq (s.array i).status f in present i l o (fd2file_lem nentry s i h l o)

  Found-total : (fd : ℤ) → Found nentry s fd
  unfolding fd2file
  Found-total (pos i) = Found-at i (ltb i nentry) (is_opened (s.array i).status) refl refl
  Found-total (negsuc n) = missing refl

  -- A call settles if it does so on an open entry and otherwise refuses.
  pub by_entry :
      {A : Type 0} (fd : ℤ) (k : ℤ → A) (body : ℕ → Outcome (A × Files v))
      → ((i : ℕ) → i < nentry → (s.array i).status ≡ fd_opened → Settles nentry (body i))
      → Settles nentry
          (fd2file nentry fd s >>= λ found. elim found [ inl e ↦ ok (k e, s) | inr i ↦ body i ])
  by_entry fd k body f = go (Found-total fd)
    where
      go :
          Found nentry s fd
          → Settles nentry
              (fd2file nentry fd s >>= λ found. elim found [ inl e ↦ ok (k e, s) | inr i ↦ body i ])
      go (missing e) = (
        k e_inval,
        s,
        ap (λ x. x >>= λ found. elim found [ inl e ↦ ok (k e, s) | inr i ↦ body i ]) e,
        h,
      )
      go (present i l o e) =
          let (a, t, q, w) = f i l o in
          (
            a,
            t,
            ap (λ x. x >>= λ found. elim found [ inl e ↦ ok (k e, s) | inr i ↦ body i ]) e ∙ q,
            w,
          )
