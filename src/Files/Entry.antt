-- ===== src/Files/Entry.antt =====
-- `file_open` behind the allocation of its entry, on every branch.
use nku_os_lab.Base.{
  ◌⊎◌, inl, inr, ℕ, ◌≡◌, refl, ◌∙◌, ap, Bool, true, false, not, some, List, ◌==◌, if◌then◌else◌,
}
use nku_os_lab.Base.Int.{ℤ, pos}
use nku_os_lab.Base.Outcome.{Outcome, ok, ◌>>=◌}
use nku_os_lab.Files.Interface.{Vfs}
use nku_os_lab.Files.{
  Files, File, fd_none, fd_init, fd_opened, is_zero, put, fd_array_free, fd_array_open,
}
use nku_os_lab.Files.Parts.{open_entry}
use nku_os_lab.Files.Invariant.{Changes}
use nku_os_lab.Files.Steps.{Changes-put}
use nku_os_lab.Files.Open.{given_back, made_open}
use Prim.Native.Nat.{bit_and}

module _ {v : Vfs} (path : List ℕ) (flags : ℕ) (readable writable : Bool) (i : ℕ)
    (t : Files v) where
  -- The entry that a successful `file_open` leaves.
  abbrev pub opened_as : ℕ → ℕ → File
  opened_as n position = record (t.array i) {
    status = fd_opened;
    readable = readable;
    writable = writable;
    position = position;
    node = some n;
    open_count = 1;
  }

  -- `O_APPEND` is in the flags.
  abbrev pub appends : Bool
  appends = not (bit_and flags 0x20 == 0)

  -- Whence an error code may come: from `vfs_open`, or, with O_APPEND, from `vop_fstat` of what was
  -- opened.
  abbrev pub Fails : ℤ → Type 0
  Fails ret =
      (ret ≡ (v.vfs_open path flags t.world).0)
      ⊎ ((is_zero (v.vfs_open path flags t.world).0 ≡ true)
          × (appends ≡ true)
          × (ret
              ≡ (v.vop_fstat (v.vfs_open path flags t.world).1
                  (v.vfs_open path flags t.world).2).0))

  -- Where an open file begins: at 0, or, with O_APPEND, at the size that `vop_fstat` gives.
  abbrev pub StartsAt : ℕ → Type 0
  StartsAt position =
      ((appends ≡ false) × (position ≡ 0))
      ⊎ ((appends ≡ true)
          × (is_zero
                (v.vop_fstat (v.vfs_open path flags t.world).1 (v.vfs_open path flags t.world).2).0
              ≡ true)
          × (position
              ≡ (v.vop_fstat (v.vfs_open path flags t.world).1
                  (v.vfs_open path flags t.world).2).1))

  -- The outcomes of `file_open` on the entry `i`: a code that is not zero, and the entry given back;
  -- or its number, and the entry open on the inode that `vfs_open` returned.
  pub data Opens (out : Outcome (ℤ × Files v)) : Type 0 where
    failed :
        (ret : ℤ) (u : Files v) (f : File)
        → out ≡ ok (ret, u)
        → is_zero ret ≡ false
        → Fails ret
        → Changes t u i f
        → f.status ≡ fd_none
        → f.open_count ≡ 0
        → f.fd ≡ (t.array i).fd
        → Opens out
    opens :
        (u : Files v) (position : ℕ)
        → StartsAt position
        → out ≡ ok (pos (t.array i).fd, u)
        → is_zero (v.vfs_open path flags t.world).0 ≡ true
        → Changes t u i (opened_as (v.vfs_open path flags t.world).1 position)
        → Opens out

  module _ (a : (t.array i).status ≡ fd_init) (b : (t.array i).open_count ≡ 0) where
    fail_with :
        (ret : ℤ) (m : Files v) (g : File)
        → is_zero ret ≡ false
        → Fails ret
        → Changes t m i g
        → g.status ≡ fd_init
        → g.open_count ≡ 0
        → g.fd ≡ (t.array i).fd
        → Opens (fd_array_free i m >>= λ u. ok (ret, u))
    fail_with ret m g z y c p q r =
        let (u, e, d) = given_back t m i g c p q in
        failed ret u (record g { status = fd_none }) (ap (λ x. x >>= λ u. ok (ret, u)) e) z y d refl
          q r

    open_with :
        (m : Files v) (position : ℕ)
        → StartsAt position
        → is_zero (v.vfs_open path flags t.world).0 ≡ true
        → Changes t m i (record (t.array i) {
          position = position;
          node = some (v.vfs_open path flags t.world).1;
          readable = readable;
          writable = writable;
        })
        → Opens (fd_array_open i m >>= λ u. ok (pos ((u.array i).fd), u))
    open_with m position y z c =
        let (u, e, d) = made_open t m i (v.vfs_open path flags t.world).1 _ c a refl b in
        opens u position y
          (ap (λ x. x >>= λ u. ok (pos ((u.array i).fd), u)) e
            ∙ ap (λ (f : File). ok (pos f.fd, u)) d.here)
          z d

    pub open_entry-Opens : Opens (open_entry path flags readable writable i t)
    unfolding open_entry
    open_entry-Opens =
        go (is_zero ret) refl (bit_and flags 0x20 == 0) refl (is_zero (v.vop_fstat n w).0) refl
      where
        ret : ℤ
        ret = (v.vfs_open path flags t.world).0

        n : ℕ
        n = (v.vfs_open path flags t.world).1

        w : v.World
        w = (v.vfs_open path flags t.world).2

        ready : ℕ → File
        ready k = record (t.array i) {
          position = k;
          node = some n;
          readable = readable;
          writable = writable;
        }

        go :
            (z : Bool)
            → is_zero ret ≡ z
            → (plain : Bool) → (bit_and flags 0x20 == 0) ≡ plain
            → (y : Bool) → is_zero (v.vop_fstat n w).0 ≡ y
            → Opens (
                if not z
                then (fd_array_free i (record t { world = w }) >>= λ u. ok (ret, u))
                else if plain
                then (fd_array_open i (put i (ready 0) (record t { world = w })) >>= λ u.
                    ok (pos ((u.array i).fd), u))
                else if not y
                then (fd_array_free i
                      (record (put i
                        (record (t.array i) { position = 0 })
                        (record t { world = w })) { world = v.vfs_close n (v.vop_fstat n w).2 })
                    >>= λ u. ok ((v.vop_fstat n w).0, u))
                else (fd_array_open i
                      (put i (ready (v.vop_fstat n w).1) (record t { world = (v.vop_fstat n w).2 }))
                    >>= λ u. ok (pos ((u.array i).fd), u)))
        go false e plain x y f =
            fail_with ret (record t { world = w }) (t.array i) e (inl refl)
              record { here = refl; others = λ j h. refl; present = refl } a b refl
        go true e true x y f =
            open_with (put i (ready 0) (record t { world = w })) 0 (inl (ap not x, refl)) e
              (Changes-put t i (ready 0) w)
        go true e false x false f =
            fail_with (v.vop_fstat n w).0 _ (record (t.array i) { position = 0 }) f
              (inr (e, ap not x, refl))
              (Changes-put t i (record (t.array i) { position = 0 })
                (v.vfs_close n (v.vop_fstat n w).2))
              a b refl
        go true e false x true f =
            open_with (put i (ready (v.vop_fstat n w).1) (record t { world = (v.vop_fstat n w).2 }))
              (v.vop_fstat n w).1 (inr (ap not x, f, refl)) e
              (Changes-put t i (ready (v.vop_fstat n w).1) (v.vop_fstat n w).2)
