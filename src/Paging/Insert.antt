-- ===== src/Paging/Insert.antt =====
-- `page_insert`: the page is mapped at the address, the page that was mapped there is let go, and
-- nothing else changes.
use Prim.Native.Nat.{bit_or}
use nku_os_lab.Base.{
  ◌%◌, ◌≢◌, ℕ, ◌^◌, ◌≤◌, ◌<◌, ◌≡◌, refl, sym, ◌∙◌, ap, subst, ◌⊎◌, inl, inr, true, false, Option,
  none, some, [], ◌∷◌, if◌then◌else◌, arith, Bool-cases, ℕ_discrete,
}
use nku_os_lab.Base.Int.{ℤ, pos}
use nku_os_lab.Base.Outcome.{Outcome, ok}
use nku_os_lab.Buffer.{e_no_mem}
use nku_os_lab.Process.Family.{none-ne-some, some_injective}
use nku_os_lab.Paging.{
  PmmManager, Vm, pdx1, pdx0, ptx, pte_v, pte_ppn, pte_create, get_pte, page_insert,
}
use nku_os_lab.Paging.Bits.{pte_create_lem, flags_lem}
use nku_os_lab.Paging.Tree.{Lawful, Role, other, mapped, IsTree}
use nku_os_lab.Paging.Graft.{Grown}
use nku_os_lab.Paging.Grow.{FoundAt, get_pte-FoundAt}
use nku_os_lab.Paging.Plant.{Apart, names, mapped_before, mapped_here, mapped-Apart, planted-IsTree}
use nku_os_lab.Paging.Place.{Counts, Counts-from, insert_at-Placed}

module _ {S : Type 0} {pmm : PmmManager S} {npage : ℕ} (law : Lawful pmm npage) where
  -- What `page_insert` comes to, with the page `old` mapped before.
  abbrev pub InsertedOr : ℕ → ℕ → ℕ → Vm S → Vm S → Outcome (ℤ × Vm S) → Type 0
  InsertedOr pgdir la page s w r =
      ((r ≡ ok (e_no_mem, w))
        × ((p : ℕ) → law.is_free p w.pool ≡ false)
        × (mapped pgdir w la ≡ mapped pgdir s la))
      ⊎ ((r ≡ ok (pos 0, w))
          × (mapped pgdir w la ≡ some page)
          × Counts law page s w (mapped pgdir s la))

  -- `page_insert` of a page in use, on an address space whose tables are a tree, where the page that is
  -- mapped at the address, if there is one, is in use and no table, and one that the allocator can
  -- take back if this is the last reference to it, with flags below 1024, at most 2^44
  -- pages and a count of references that fits in 32 bits: no assertion fails. It
  -- answers -E_NO_MEM only if no page is free any more for the tables, and then every address leads to the same page as before.
  -- Otherwise it answers 0, the address leads to the page, and every address in another page of the
  -- address space to the same as before; the page gains a reference, and the page that was mapped
  -- loses one and is free if it was the last, except that a page mapped again keeps its count. In
  -- each case the tables stay a tree.
  pub page_insert-InsertedOr :
      (pgdir la page perm : ℕ) (role : ℕ → Role) (s : Vm S)
      → npage ≤ 2 ^ 44
      → IsTree law pgdir role s
      → page < npage
      → perm < 1024
      → law.is_free page s.pool ≡ false
      → s.ref page < 2 ^ 32
      → ((q : ℕ)
          → mapped pgdir s la ≡ some q
          → (q < npage) × (role q ≡ other) × (law.is_free q s.pool ≡ false))
      → ((q : ℕ) (o : Option (ℕ × ℕ)) (u : Vm S)
          → mapped pgdir s la ≡ some q
          → q ≢ page
          → s.ref q % 2 ^ 32 ≡ 1
          → get_pte pmm npage pgdir la true s ≡ ok (o, u)
          → law.CanFree q u.pool)
      → (role' : ℕ → Role) × (w : Vm S) × IsTree law pgdir role' w
        × ((la' : ℕ) → Apart la' la → mapped pgdir w la' ≡ mapped pgdir s la')
        × InsertedOr pgdir la page s w (page_insert pmm npage pgdir page la perm s)
  unfolding page_insert mapped
  page_insert-InsertedOr pgdir la page perm role s small tree below low taken in_range known last =
      let (o, role', u, e, g, f) = get_pte-FoundAt law pgdir la role s small tree in
      result o role' u e g f
    where
      lookup :
          (role' : ℕ → Role) (u : Vm S)
          → Grown law pgdir role s role' u
          → (a : ℕ) → mapped pgdir u a ≡ mapped pgdir s a
      lookup role' u g a = g.lookups pgdir 2 [] (pdx1 a ∷ pdx0 a ∷ ptx a ∷ []) tree.top refl

      result :
          (o : Option (ℕ × ℕ)) (role' : ℕ → Role) (u : Vm S)
          → get_pte pmm npage pgdir la true s ≡ ok (o, u)
          → Grown law pgdir role s role' u
          → FoundAt law pgdir la role' u o
          → (role' : ℕ → Role) × (w : Vm S) × IsTree law pgdir role' w
            × ((la' : ℕ) → Apart la' la → mapped pgdir w la' ≡ mapped pgdir s la')
            × InsertedOr pgdir la page s w (page_insert pmm npage pgdir page la perm s)
      result none role' u e g f =
          (role', u, g.tree, λ a n. lookup role' u g a, inl (rw e refl, f, lookup role' u g la))
      result (some (t, i)) role' u e g f =
          let before = mapped_before law pgdir la role' u g.tree t i f in
          let old : (q : ℕ) → names (u.mem t i) ≡ some q → mapped pgdir s la ≡ some q =
            λ q z. sym (lookup role' u g la) ∙ before ∙ z in
          let (w, e', p) =
            insert_at-Placed law t i page perm u g.tree.pool
              (subst (λ n. n < 2 ^ 32) (sym (g.used page taken).1) in_range)
              (λ v.
                let (a, b, c) =
                  known (pte_ppn (u.mem t i))
                    (old _ (ap (λ b. if b then some (pte_ppn (u.mem t i)) else none) v)) in
                (
                  a,
                  (g.used _ c).0,
                  λ n x.
                      last (pte_ppn (u.mem t i)) (some (t, i)) u
                        (old _ (ap (λ b. if b then some (pte_ppn (u.mem t i)) else none) v)) n
                        (ap (λ r. r % 2 ^ 32) (sym (g.used _ c).1) ∙ x) e,
                )) in
          let spare : (q : ℕ) → law.is_free q w.pool ≡ true → role' q ≡ other = λ q z.
            elim (Bool-cases (pte_v (u.mem t i))) [
              | inr v ↦ g.tree.spare q (
                  sym (
                    p.only_old q (λ y.
                      none-ne-some q
                        (sym (ap (λ b. if b then some (pte_ppn (u.mem t i)) else none) v) ∙ y)))
                  ∙ z)
              | inl v ↦
                  let first = ap (λ b. if b then some (pte_ppn (u.mem t i)) else none) v in
                  elim (ℕ_discrete (pte_ppn (u.mem t i)) q) [
                    | yes y ↦
                        let (a, b, c) = known (pte_ppn (u.mem t i)) (old _ first) in
                        ap role' (sym y) ∙ (g.used _ c).2 ∙ b
                    | no n ↦
                        g.tree.spare q
                          (sym (p.only_old q (λ y. n (some_injective (sym first ∙ y)))) ∙ z)
                  ]
            ] in
          let seen =
            pte_create_lem page (bit_or 1 perm) (omega (arith, below, small))
              (flags_lem perm low) in
          (
            role',
            w,
            planted-IsTree law pgdir la role' u g.tree t i f w (pte_create page (bit_or 1 perm))
                p.written p.off p.valid spare,
            λ a n.
                mapped-Apart law pgdir la role' u g.tree t i f w (pte_create page (bit_or 1 perm))
                  p.written p.off a n
                ∙ lookup role' u g a,
            inr (
              rw (e, e') refl,
              mapped_here law pgdir la role' u g.tree t i f w (pte_create page (bit_or 1 perm))
                    p.written p.off
                  ∙ ap (λ b. if b then some (pte_ppn (pte_create page (bit_or 1 perm))) else none)
                      seen.0
                  ∙ ap some seen.1,
              Counts-from law page u s w (mapped pgdir s la)
                  (λ q z. let (a, b, c) = known q z in (g.used q c).1) (g.used page taken).1
                  (subst (λ o. Counts law page u w o) (sym before ∙ lookup role' u g la) p.counts),
            ),
          )
