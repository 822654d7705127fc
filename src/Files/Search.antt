-- ===== src/Files/Search.antt =====
-- The search for a free entry, and the allocation of it.
use nku_os_lab.Base.{
  ℕ, zero, suc, ◌+◌, ◌≤◌, ◌<◌, ◌≡◌, ◌≢◌, refl, ◌∙◌, subst, inl, inr, Bool, true, false, Option,
  none, some, arith, ltb, ◌==◌, if◌then◌else◌, lt→ltb, ltb→lt, dec_lt,
}
use nku_os_lab.Base.Int.{ℤ, pos, negsuc}
use nku_os_lab.Base.Outcome.{ok}
use nku_os_lab.Files.Interface.{Vfs}
use nku_os_lab.Files.{
  Files, File, Status, fd_none, fd_init, fd_opened, fd_closed, is_none, e_max_open, e_busy, e_inval,
  find_none, put, fd_array_found, no_fd,
}
use nku_os_lab.Files.Calls.{fd_array_alloc}
use nku_os_lab.Files.Invariant.{IsTable, free_entry}

-- What the search finds: the lowest free entry of a range, if there is one.
abbrev pub IsLowest : ℕ → ℕ → (ℕ → File) → Option ℕ → Type 0
IsLowest n k array none = (j : ℕ) → k ≤ j → j < k + n → (array j).status ≢ fd_none
IsLowest n k array (some i) =
    (k ≤ i)
    × (i < k + n)
    × ((array i).status ≡ fd_none)
    × ((j : ℕ) → k ≤ j → j < i → (array j).status ≢ fd_none)

is_none_iff : (s : Status) → (is_none s ≡ true → s ≡ fd_none) × (is_none s ≡ false → s ≢ fd_none)
is_none_iff fd_none = (λ e. refl, λ e. cc)
is_none_iff fd_init = (λ e. cc, λ e q. cc)
is_none_iff fd_opened = (λ e. cc, λ e q. cc)
is_none_iff fd_closed = (λ e. cc, λ e q. cc)

IsLowest-suc :
    (n k : ℕ) (array : ℕ → File) (o : Option ℕ)
    → (array k).status ≢ fd_none
    → IsLowest n (suc k) array o
    → IsLowest (suc n) k array o
IsLowest-suc n k array none h r = λ j lo hi. elim (dec_lt k j) [
  | yes a ↦ r j a (omega arith)
  | no a ↦ subst (λ m. (array m).status ≢ fd_none) {x = k} (omega arith) h
]
IsLowest-suc n k array (some i) h r = (
  omega (arith, r.0),
  omega (arith, r.1),
  r.2,
  λ j lo hi. elim (dec_lt k j) [
    | yes a ↦ r.3 j a hi
    | no a ↦ subst (λ m. (array m).status ≢ fd_none) {x = k} (omega arith) h
  ],
)

pub find_none-IsLowest : (n k : ℕ) (array : ℕ → File) → IsLowest n k array (find_none n k array)
unfolding find_none
find_none-IsLowest zero k array = λ j lo hi. absurd (omega arith)
find_none-IsLowest (suc n) k array =
    go (is_none (array k).status) refl (find_none-IsLowest n (suc k) array)
  where
    go :
        (b : Bool)
        → is_none (array k).status ≡ b
        → IsLowest n (suc k) array (find_none n (suc k) array)
        → IsLowest (suc n) k array (if b then some k else find_none n (suc k) array)
    go true e r = (
      omega arith,
      omega arith,
      (is_none_iff (array k).status).0 e,
      λ j lo hi. absurd (omega arith),
    )
    go false e r =
        IsLowest-suc n k array (find_none n (suc k) array) ((is_none_iff (array k).status).1 e) r

-- The entry as the allocation leaves it.
abbrev pub fresh_entry : {v : Vfs} → Files v → ℕ → File
fresh_entry s i = record (s.array i) { status = fd_init; node = none }

module _ {v : Vfs} (nentry : ℕ) (s : Files v) (h : IsTable nentry s) where
  -- The allocation of a free entry.
  pub fd_array_found_lem :
      (i : ℕ)
      → i < nentry
      → (s.array i).status ≡ fd_none
      → fd_array_found i s ≡ ok (inr i, put i (fresh_entry s i) s)
  unfolding fd_array_found
  fd_array_found_lem i l e = rw (free_entry nentry s i h l e) refl

  -- What an allocation does: it is refused and changes nothing, or it takes a free entry.
  pub data Allocation (fd : ℤ) : Type 0 where
    refused : (e : ℤ) → fd_array_alloc nentry fd s ≡ ok (inl e, s) → Allocation fd
    taken :
        (i : ℕ)
        → i < nentry
        → (s.array i).status ≡ fd_none
        → fd_array_alloc nentry fd s ≡ ok (inr i, put i (fresh_entry s i) s)
        → Allocation fd

  -- Without a wish, the lowest free entry is taken, and the call fails if there is none.
  pub alloc_any :
      (o : Option ℕ)
      → find_none nentry 0 s.array ≡ o
      → IsLowest nentry 0 s.array o
      → fd_array_alloc nentry no_fd s
        ≡ elim o [ none ↦ ok (inl e_max_open, s) | some i ↦ ok (inr i, put i (fresh_entry s i) s) ]
  unfolding fd_array_alloc
  alloc_any none e r = rw (lt→ltb 0 s.files_count h.present, e) refl
  alloc_any (some i) e r =
      rw (lt→ltb 0 s.files_count h.present, e) (fd_array_found_lem i (omega (arith, r.1)) r.2)

  alloc_at :
      (i : ℕ) (b c : Bool) → ltb i nentry ≡ b → is_none (s.array i).status ≡ c → Allocation (pos i)
  unfolding fd_array_alloc
  alloc_at i false c e f = refused e_inval (rw (lt→ltb 0 s.files_count h.present, e) refl)
  alloc_at i true false e f = refused e_busy (rw (lt→ltb 0 s.files_count h.present, e, f) refl)
  alloc_at i true true e f =
      let free = (is_none_iff (s.array i).status).0 f in
      let l : i < nentry = ltb→lt i nentry e in
      taken i l free (rw (lt→ltb 0 s.files_count h.present, e, f) (fd_array_found_lem i l free))

  alloc_search :
      (fd : ℤ) → fd_array_alloc nentry fd s ≡ fd_array_alloc nentry no_fd s → Allocation fd
  alloc_search fd q = go (find_none nentry 0 s.array) refl (find_none-IsLowest nentry 0 s.array)
    where
      go :
          (o : Option ℕ)
          → find_none nentry 0 s.array ≡ o
          → IsLowest nentry 0 s.array o
          → Allocation fd
      go none e r = refused e_max_open (q ∙ alloc_any none e r)
      go (some i) e r = taken i (omega (arith, r.1)) r.2 (q ∙ alloc_any (some i) e r)

  alloc_negative : (n : ℕ) (b : Bool) → (suc n == 0x9527) ≡ b → Allocation (negsuc n)
  unfolding fd_array_alloc
  alloc_negative n true e = alloc_search (negsuc n) (rw (lt→ltb 0 s.files_count h.present, e) refl)
  alloc_negative n false e = refused e_inval (rw (lt→ltb 0 s.files_count h.present, e) refl)

  pub Allocation-total : (fd : ℤ) → Allocation fd
  Allocation-total (pos i) = alloc_at i (ltb i nentry) (is_none (s.array i).status) refl refl
  Allocation-total (negsuc n) = alloc_negative n (suc n == 0x9527) refl
