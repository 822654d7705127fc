-- ===== src/Paging/Grow.antt =====
-- `get_pte` that makes the tables that are missing: what it finds, and that every address still
-- leads to the same page.
use nku_os_lab.Base.{false, ℕ, ◌^◌, ◌≤◌, ◌≡◌, refl, sym, ◌∙◌, true, Option, none, some, [], ◌∷◌}
use nku_os_lab.Base.Outcome.{ok}
use nku_os_lab.Paging.{PmmManager, Vm, pdx1, pdx0, ptx, descend, below_pd0, get_pte}
use nku_os_lab.Paging.Tree.{Lawful, Role, table, table-ne-other, step, IsTree}
use nku_os_lab.Paging.Graft.{Grown, Grown-trans, Reaches, descend-Reaches}

module _ {S : Type 0} {pmm : PmmManager S} {npage : ℕ} (law : Lawful pmm npage) (pgdir : ℕ) where
  -- What `get_pte` gives: no page is free, or the entry for the address in a table of the last level.
  pub record Found (la : ℕ) (role : ℕ → Role) (u : Vm S) (t i : ℕ) : Type 0 where
    pub pd0 : ℕ
    pub index : i ≡ ptx la
    pub pd0_role : role pd0 ≡ table 1 (pdx1 la ∷ [])
    pub pt_role : role t ≡ table 0 (pdx0 la ∷ pdx1 la ∷ [])
    pub to_pd0 : step u pgdir (pdx1 la) ≡ some pd0
    pub to_pt : step u pd0 (pdx0 la) ≡ some t

  abbrev pub FoundAt : ℕ → (ℕ → Role) → Vm S → Option (ℕ × ℕ) → Type 0
  FoundAt la role u none = (p : ℕ) → law.is_free p u.pool ≡ false
  FoundAt la role u (some (t, i)) = Found la role u t i

  -- `get_pte` with leave to make tables ends without a failed assertion. It gives no
  -- entry only if no page is free any more; otherwise it gives the entry for the address. The tables stay a tree, every address
  -- leads to the same page as before, and no page that was not free changes its part or its
  -- count of references.
  pub get_pte-FoundAt :
      (la : ℕ) (role : ℕ → Role) (s : Vm S)
      → npage ≤ 2 ^ 44
      → IsTree law pgdir role s
      → (o : Option (ℕ × ℕ)) × (role' : ℕ → Role) × (u : Vm S) × (get_pte pmm npage pgdir la true s
          ≡ ok (o, u))
        × Grown law pgdir role s role' u
        × FoundAt la role' u o
  unfolding get_pte below_pd0
  get_pte-FoundAt la role s small tree =
      let (o, role', t, e, g, r) =
        descend-Reaches law pgdir small pgdir (pdx1 la) 1 [] role s tree tree.top in
      second o role' t e g r
    where
      second :
          (o : Option ℕ) (role' : ℕ → Role) (t : Vm S)
          → descend pmm npage true pgdir (pdx1 la) s ≡ ok (o, t)
          → Grown law pgdir role s role' t
          → Reaches law pgdir pgdir (pdx1 la) 1 [] role' t o
          → (o : Option (ℕ × ℕ)) × (role' : ℕ → Role) × (u : Vm S) × (get_pte pmm npage pgdir la
                true s
              ≡ ok (o, u))
            × Grown law pgdir role s role' u
            × FoundAt la role' u o
      second none role' t e g r = (none, role', t, rw e refl, g, r)
      second (some d) role' t e g (to_d, rd) =
          let (o, role'', u, e', h, r) =
            descend-Reaches law pgdir small d (pdx0 la) 0 (pdx1 la ∷ []) role' t g.tree rd in
          third o role'' u e' h r
        where
          third :
              (o : Option ℕ) (role'' : ℕ → Role) (u : Vm S)
              → descend pmm npage true d (pdx0 la) t ≡ ok (o, u)
              → Grown law pgdir role' t role'' u
              → Reaches law pgdir d (pdx0 la) 0 (pdx1 la ∷ []) role'' u o
              → (o : Option (ℕ × ℕ)) × (role' : ℕ → Role) × (u : Vm S) × (get_pte pmm npage pgdir la
                    true s
                  ≡ ok (o, u))
                × Grown law pgdir role s role' u
                × FoundAt la role' u o
          third none role'' u e' h r = (
            none,
            role'',
            u,
            rw (e, e') refl,
            Grown-trans law pgdir role s role' t role'' u g h,
            r,
          )
          third (some p) role'' u e' h (to_p, rp) = (
            some (p, ptx la),
            role'',
            u,
            rw (e, e') refl,
            Grown-trans law pgdir role s role' t role'' u g h,
            record {
              pd0 = d;
              index = refl;
              pd0_role = h.keeps d (λ z. table-ne-other 1 (pdx1 la ∷ []) (sym rd ∙ z)) ∙ rd;
              pt_role = rp;
              to_pd0 =
                  h.steps pgdir (pdx1 la) d (λ z. table-ne-other 2 [] (sym g.tree.top ∙ z)) to_d;
              to_pt = to_p;
            },
          )
