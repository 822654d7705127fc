-- ===== src/Files/Open.antt =====
-- Opening, closing and duplicating: what becomes of the entries.
use nku_os_lab.Base.{ℕ, ◌-◌, ◌≡◌, refl, ◌∙◌, ap, ◌&&◌, none, some, arith, update_self, update_ne}
use nku_os_lab.Base.Outcome.{Outcome, ok, panic, ◌>>◌, assert}
use nku_os_lab.Files.Interface.{Vfs}
use nku_os_lab.Files.{
  Files, File, fd_none, fd_init, fd_opened, fd_closed, is_init, is_opened, put, fd_array_free,
  fd_array_open, fd_array_close, fd_array_dup,
}
use nku_os_lab.Files.Invariant.{Changes}
use nku_os_lab.Files.Steps.{Changes-trans}

module _ {v : Vfs} where
  free_init_lem :
      (m : Files v) (i : ℕ)
      → (m.array i).status ≡ fd_init
      → (m.array i).open_count ≡ 0
      → fd_array_free i m ≡ ok (put i (record (m.array i) { status = fd_none }) m)
  unfolding fd_array_free
  free_init_lem m i a b = ground (arith, a, b)

  -- An entry that was allocated and is given back.
  pub given_back :
      (t m : Files v) (i : ℕ) (g : File)
      → Changes t m i g
      → g.status ≡ fd_init
      → g.open_count ≡ 0
      → (u : Files v) × (fd_array_free i m ≡ ok u) × Changes t u i (record g { status = fd_none })
  given_back t m i g c a b = (
    put i (record (m.array i) { status = fd_none }) m,
    free_init_lem m i (ap (λ (f : File). f.status) c.here ∙ a)
        (ap (λ (f : File). f.open_count) c.here ∙ b),
    Changes-trans t m (put i (record (m.array i) { status = fd_none }) m) i g
        (record g { status = fd_none }) c
        record {
          here =
              update_self m.array i (record (m.array i) { status = fd_none })
              ∙ ap (λ (f : File). record f { status = fd_none }) c.here;
          others = λ j h. update_ne m.array i (record (m.array i) { status = fd_none }) j h;
          present = refl;
        },
  )

  open_lem :
      (m : Files v) (i n : ℕ)
      → (m.array i).status ≡ fd_init
      → (m.array i).node ≡ some n
      → (m.array i).open_count ≡ 0
      → fd_array_open i m ≡ ok (put i (record (m.array i) { status = fd_opened; open_count = 1 }) m)
  unfolding fd_array_open
  open_lem m i n a b c = ground (arith, a, b, c)

  -- An entry that was allocated and is opened.
  pub made_open :
      (t m : Files v) (i n : ℕ) (g : File)
      → Changes t m i g
      → g.status ≡ fd_init
      → g.node ≡ some n
      → g.open_count ≡ 0
      → (u : Files v) × (fd_array_open i m ≡ ok u)
        × Changes t u i (record g { status = fd_opened; open_count = 1 })
  made_open t m i n g c a b d = (
    put i (record (m.array i) { status = fd_opened; open_count = 1 }) m,
    open_lem m i n (ap (λ (f : File). f.status) c.here ∙ a) (ap (λ (f : File). f.node) c.here ∙ b)
        (ap (λ (f : File). f.open_count) c.here ∙ d),
    Changes-trans t m (put i (record (m.array i) { status = fd_opened; open_count = 1 }) m) i g
        (record g { status = fd_opened; open_count = 1 }) c
        record {
          here =
              update_self m.array i (record (m.array i) { status = fd_opened; open_count = 1 })
              ∙ ap (λ (f : File). record f { status = fd_opened; open_count = 1 }) c.here;
          others = λ j h.
              update_ne m.array i (record (m.array i) { status = fd_opened; open_count = 1 }) j h;
          present = refl;
        },
  )

  pub close_lem :
      (m : Files v) (i n : ℕ)
      → (m.array i).status ≡ fd_opened
      → (m.array i).open_count ≡ 1
      → (m.array i).node ≡ some n
      → (u : Files v) × (fd_array_close i m ≡ ok u)
        × Changes m u i (record (m.array i) { status = fd_none; open_count = 0 })
        × (u.world ≡ v.vfs_close n m.world)
  unfolding fd_array_close fd_array_free
  close_lem m i n a b c =
      let closed = record (m.array i) {
        status = fd_closed;
        open_count = (m.array i).open_count - 1;
      } in
      let t = put i closed m in
      (
        record (put i (record (t.array i) { status = fd_none }) t) {
          world = v.vfs_close n m.world;
        },
        ground (arith, a, b, c),
        record { here = ground (arith, b); others = λ j h. ground (arith, h); present = refl },
        refl,
      )

  -- The entry `to` with what it takes from the entry `from`.
  abbrev pub copied : Files v → ℕ → ℕ → ℕ → File
  copied t to from n = record (t.array to) {
    position = (t.array from).position;
    readable = (t.array from).readable;
    writable = (t.array from).writable;
    node = some n;
  }

  pub dup_lem :
      (t : Files v) (to from n : ℕ)
      → (t.array to).status ≡ fd_init
      → (t.array from).status ≡ fd_opened
      → (t.array from).node ≡ some n
      → fd_array_dup to from t
        ≡ fd_array_open to (
            put to
              (copied t to from n)
              (record t { world = v.vop_open_inc n (v.vop_ref_inc n t.world) }))
  unfolding fd_array_dup
  dup_lem t to from n a b c =
      ap (λ k. assert k >> elim (t.array from).node [ none ↦ panic | some m ↦ opened m ])
        (ap (λ x. is_init x && is_opened (t.array from).status) a ∙ ap is_opened b)
      ∙ ap (λ o. elim o [ none ↦ panic | some m ↦ opened m ]) c
    where
      opened : ℕ → Outcome (Files v)
      opened m = fd_array_open to (
          put to (copied t to from m)
            (record t { world = v.vop_open_inc m (v.vop_ref_inc m t.world) }))
