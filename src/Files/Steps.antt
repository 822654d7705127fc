-- ===== src/Files/Steps.antt =====
-- What the calls do with an open entry that has one user.
use nku_os_lab.Base.{
  ℕ, ◌≡◌, refl, ◌∙◌, ap, Bool, true, false, ◌&&◌, Option, some, arith, update_self, update_ne,
  if◌then◌else◌,
}
use nku_os_lab.Base.Int.{ℤ}
use nku_os_lab.Base.Outcome.{Outcome, ok, ◌>>=◌}
use nku_os_lab.Files.Interface.{Vfs, Iobuf, iobuf_init, iobuf_used}
use nku_os_lab.Files.{Files, File, fd_opened, is_opened, add_off, is_zero, put, fd_array_release}
use nku_os_lab.Files.Parts.{with_node, move_bytes, move_position, consult, seek_target}
use nku_os_lab.Files.Invariant.{Changes}

with_node_lem :
    {A : Type 0} (o : Option ℕ) (n : ℕ) (f : ℕ → Outcome A) → o ≡ some n → with_node o f ≡ f n
with_node_lem o n f e = rw e refl

module _ {v : Vfs} where
  pub Changes-put :
      (s : Files v) (i : ℕ) (f : File) (w : v.World)
      → Changes s (put i f (record s { world = w })) i f
  Changes-put s i f w = record {
    here = update_self s.array i f;
    others = λ j h. update_ne s.array i f j h;
    present = refl;
  }

  pub Changes-trans :
      (s t u : Files v) (i : ℕ) (f g : File) → Changes s t i f → Changes t u i g → Changes s u i g
  Changes-trans s t u i f g c d = record {
    here = d.here;
    others = λ j h. d.others j h ∙ c.others j h;
    present = d.present ∙ c.present;
  }

  -- The release of an entry with two users.
  release_lem :
      (t : Files v) (i : ℕ)
      → (t.array i).status ≡ fd_opened
      → (t.array i).open_count ≡ 2
      → fd_array_release i t ≡ ok (put i (record (t.array i) { open_count = 1 }) t)
  unfolding fd_array_release
  release_lem t i a b = ground (arith, a, b)

  -- The release after an update that leaves the entry open, with two users.
  released :
      (t m : Files v) (i : ℕ) (g : File)
      → Changes t m i g
      → g.status ≡ fd_opened
      → g.open_count ≡ 2
      → (u : Files v) × (fd_array_release i m ≡ ok u)
        × Changes t u i (record g { open_count = 1 })
        × (u.world ≡ m.world)
  released t m i g c a b = (
    put i (record (m.array i) { open_count = 1 }) m,
    release_lem m i (ap (λ (f : File). f.status) c.here ∙ a)
        (ap (λ (f : File). f.open_count) c.here ∙ b),
    Changes-trans t m (put i (record (m.array i) { open_count = 1 }) m) i g
        (record g { open_count = 1 }) c
        record {
          here =
              update_self m.array i (record (m.array i) { open_count = 1 })
              ∙ ap (λ (f : File). record f { open_count = 1 }) c.here;
          others = λ j h. update_ne m.array i (record (m.array i) { open_count = 1 }) j h;
          present = refl;
        },
    refl,
  )

  module _ (t : Files v) (i n : ℕ) (a : (t.array i).status ≡ fd_opened)
      (b : (t.array i).open_count ≡ 2) (c : (t.array i).node ≡ some n) where
    pub move_bytes_lem :
        (move : ℕ → Iobuf → v.World → ℤ × Iobuf × v.World) (base len : ℕ)
        → let (ret, iob, w) = move n (iobuf_init base len (t.array i).position) t.world in
          let p = add_off (t.array i).position (iobuf_used iob) in
          (u : Files v) × (move_bytes move i base len t ≡ ok ((ret, iobuf_used iob), u))
          × Changes t u i (record (t.array i) { position = p; open_count = 1 })
          × (u.world ≡ w)
    unfolding move_bytes
    move_bytes_lem move base len =
        let (ret, iob, w) = move n (iobuf_init base len (t.array i).position) t.world in
        let g = record (t.array i) { position = add_off (t.array i).position (iobuf_used iob) } in
        let m = put i g (record t { world = w }) in
        let (u, e, ch, we) = released t m i g (Changes-put t i g w) a b in
        (
          u,
          with_node_lem (t.array i).node n _ c
              ∙ ap
                  (λ (k : Bool).
                    fd_array_release i (if k then m else record t { world = w }) >>= λ y.
                    ok ((ret, iobuf_used iob), y))
                  (ap is_opened a)
              ∙ ap (λ z. z >>= λ y. ok ((ret, iobuf_used iob), y)) e,
          ch,
          we,
        )

    -- The code that `file_seek` returns, and the position that the entry has then.
    pub move_position_lem :
        (offset whence : ℕ)
        → let (ret, target, w) =
            seek_target v.vop_fstat (t.array i).position offset whence n t.world in
          let (ret', w') = v.vop_tryseek n target w in
          let p = if is_zero ret && is_zero ret' then target else (t.array i).position in
          (u : Files v) × (move_position i offset whence t
            ≡ ok (if is_zero ret then ret' else ret, u))
          × Changes t u i (record (t.array i) { position = p; open_count = 1 })
    unfolding move_position
    move_position_lem offset whence =
        let (ret, target, w) =
          seek_target v.vop_fstat (t.array i).position offset whence n t.world in
        let (ret', w') = v.vop_tryseek n target w in
        let p = if is_zero ret && is_zero ret' then target else (t.array i).position in
        let g = record (t.array i) { position = p } in
        let x = record t { world = if is_zero ret then w' else w } in
        let (u, e, ch, we) =
          released t
            (if is_zero ret && is_zero ret'
              then put i (record (t.array i) { position = target }) x
              else x)
            i g (sought (is_zero ret && is_zero ret') target x.world) a b in
        (
          u,
          with_node_lem (t.array i).node n _ c
              ∙ ap (λ z. z >>= λ y. ok (if is_zero ret then ret' else ret, y)) e,
          ch,
        )
      where
        sought :
            (k : Bool) (target : ℕ) (w : v.World)
            → Changes t
                (if k
                  then put i (record (t.array i) { position = target }) (record t { world = w })
                  else record t { world = w })
                i
                (record (t.array i) { position = if k then target else (t.array i).position })
        sought true target w = Changes-put t i (record (t.array i) { position = target }) w
        sought false target w = record { here = refl; others = λ j h. refl; present = refl }

    pub consult_lem :
        {A : Type 0} (ask : ℕ → v.World → A × v.World)
        → let (answer, w) = ask n t.world in
          (u : Files v) × (consult ask i t ≡ ok (answer, u))
          × Changes t u i (record (t.array i) { open_count = 1 })
          × (u.world ≡ w)
    unfolding consult
    consult_lem ask =
        let (answer, w) = ask n t.world in
        let (u, e, ch, we) =
          released t (record t { world = w }) i (t.array i)
            record { here = refl; others = λ j h. refl; present = refl } a b in
        (u, with_node_lem (t.array i).node n _ c ∙ ap (λ z. z >>= λ y. ok (answer, y)) e, ch, we)
