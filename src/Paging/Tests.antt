-- ===== src/Paging/Tests.antt =====
-- The first-fit allocator with two free blocks, and an address space with one page mapped.
use nku_os_lab.Base.{
  ◌%◌, inl, inr, update, ◌^◌, ℕ, zero, suc, ◌<◌, ◌≡◌, ◌≢◌, refl, sym, ◌∙◌, ap, subst, Bool, true,
  false, Option, some, List, [], ◌∷◌, ◌==◌, ==_of_ne, if◌then◌else◌, arith, false-ne-true,
}
use nku_os_lab.Base.Outcome.{Outcome, ok}
use nku_os_lab.Pmm.{Page, Pmm}
use nku_os_lab.Pmm.Blocks.{Block, block}
use nku_os_lab.Pmm.Represents.{Represents}
use nku_os_lab.Pmm.Insert.{IsGap}
use nku_os_lab.Pmm.Covers.{IsFree}
use nku_os_lab.Paging.FirstFit.{
  default_pmm_manager, default_pmm_manager-Lawful, is_free, blocks_from, IsBetween,
}
use nku_os_lab.Process.Family.{some_injective}
use nku_os_lab.Paging.{below_pd0, descend, page_at, Vm, pte_v, pte_ppn, get_pte, page_insert}
use nku_os_lab.Paging.Tree.{
  Role, other, table, mapped, IsTree, table-ne-other, table_height, table_path,
}
use nku_os_lab.Paging.Graft.{Grown}
use nku_os_lab.Paging.Grow.{FoundAt, get_pte-FoundAt}
use nku_os_lab.Paging.Plant.{Apart}
use nku_os_lab.Paging.Insert.{InsertedOr, page_insert-InsertedOr}

abbrev page : ℕ → Bool → ℕ → Page
page n head size = record { ref = n; reserved = false; head = head; property = size }

-- The pages 5 and 6, and 9 to 12, are free.
abbrev pool : Pmm
pool = record {
  page = update (update (λ _. page 0 false 0) 5 (page 0 true 2)) 9 (page 0 true 4);
  links = record {
    prev = update (update (λ _. 0) 10 6) 0 10;
    next = update (update (λ _. 0) 0 6) 6 10;
  };
  nr_free = 6;
}

abbrev blocks : List Block
blocks = block 5 2 ∷ block 9 4 ∷ []

pool-Represents : Represents pool blocks
pool-Represents = record {
  ring = record { linked = (refl, refl, (refl, refl, (refl, refl))); distinct = omega arith };
  sizes = ((refl, refl), ((refl, refl), tt));
  sorted = omega arith;
  counted = refl;
  small = omega arith;
}

pool-below : (p : ℕ) → IsFree p blocks → p < 20
pool-below p (inl h) = omega (arith, h)
pool-below p (inr (inl h)) = omega (arith, h)
pool-below p (inr (inr h)) = absurd h

-- The page 8 was allocated.
IsGap-8 : IsGap pool (block 5 2 ∷ []) 8 1 (block 9 4 ∷ [])
IsGap-8 = record {
  allocated = λ q lo hi. (ground arith, ground arith);
  positive = omega arith;
  below = omega arith;
  above = omega arith;
  fits = omega arith;
}

-- The tables 1, 3 and 4 lead from the address 0x1000 to the page 8.
abbrev entries : ℕ → ℕ → ℕ
entries p k =
    if p == 1
    then (if k == 0 then 3089 else 0)
    else if p == 3
    then (if k == 0 then 4113 else 0)
    else if p == 4
    then (if k == 1 then 8215 else 0)
    else 0

abbrev space : Vm Pmm
space = record { mem = entries; ref = λ p. 1; pool = pool }

abbrev roles : ℕ → Role
roles p =
    if p == 1
    then table 2 []
    else if p == 3
    then table 1 (0 ∷ [])
    else if p == 4
    then table 0 (0 ∷ 0 ∷ [])
    else other

roles-points :
    (p k h : ℕ) (path : List ℕ)
    → roles p ≡ table (suc h) path
    → pte_v (entries p k) ≡ true
    → (pte_ppn (entries p k) < 20) × (roles (pte_ppn (entries p k)) ≡ table h (k ∷ path))
unfolding pte_ppn
roles-points zero k h path e v = absurd (table-ne-other (suc h) path (sym e))
roles-points (suc zero) zero h path e v = (
  omega arith,
  ap (λ g. table g (0 ∷ [])) (omega (arith, table_height e))
      ∙ ap (λ (ks : List ℕ). table h (0 ∷ ks)) (table_path e),
)
roles-points (suc zero) (suc k) h path e v = absurd (ground (arith, v))
roles-points (suc (suc zero)) k h path e v = absurd (table-ne-other (suc h) path (sym e))
roles-points (suc (suc (suc zero))) zero h path e v = (
  omega arith,
  ap (λ g. table g (0 ∷ 0 ∷ [])) (omega (arith, table_height e))
      ∙ ap (λ (ks : List ℕ). table h (0 ∷ ks)) (table_path e),
)
roles-points (suc (suc (suc zero))) (suc k) h path e v = absurd (ground (arith, v))
roles-points (suc (suc (suc (suc zero)))) k h path e v = absurd (omega (arith, table_height e))
roles-points (suc (suc (suc (suc (suc p))))) k h path e v =
    absurd (table-ne-other (suc h) path (sym e ∙ rest))
  where
    rest : roles (suc (suc (suc (suc (suc p))))) ≡ other
    rest =
        rw
          (
            ==_of_ne (suc (suc (suc (suc (suc p))))) 1 (λ e. omega (arith, e)),
            ==_of_ne (suc (suc (suc (suc (suc p))))) 3 (λ e. omega (arith, e)),
            ==_of_ne (suc (suc (suc (suc (suc p))))) 4 (λ e. omega (arith, e)),
          )
          refl

space-IsTree : IsTree (default_pmm_manager-Lawful 20) 1 roles space
unfolding default_pmm_manager-Lawful is_free blocks_from
space-IsTree = record {
  top = refl;
  points = roles-points;
  spare = λ p e.
      let no = λ (k : ℕ) (f : is_free 20 k pool ≡ false).
        ==_of_ne p k (λ z. false-ne-true (sym f ∙ subst (λ q. is_free 20 q pool ≡ true) z e)) in
      rw (no 1 refl, no 3 refl, no 4 refl) refl;
  pool = (blocks, pool-Represents, pool-below);
}

-- A second table of the last level is needed for 0x200000.
get_pte-FoundAt_example :
    (o : Option (ℕ × ℕ)) × (role' : ℕ → Role) × (u : Vm Pmm) × (get_pte
        (default_pmm_manager 20)
        20
        1
        0x200000
        true
        space
      ≡ ok (o, u))
    × Grown (default_pmm_manager-Lawful 20) 1 roles space role' u
    × FoundAt (default_pmm_manager-Lawful 20) 1 0x200000 role' u o
get_pte-FoundAt_example =
    get_pte-FoundAt (default_pmm_manager-Lawful 20) 1 0x200000 roles space (omega arith)
      space-IsTree

was_mapped :
    (q : ℕ)
    → mapped 1 space 0x1000 ≡ some q
    → (q < 20) × (roles q ≡ other) × (is_free 20 q space.pool ≡ false)
unfolding mapped pte_ppn default_pmm_manager-Lawful is_free blocks_from
was_mapped q e =
    subst (λ p. (p < 20) × (roles p ≡ other) × (is_free 20 p pool ≡ false)) (some_injective e)
      (omega arith, refl, refl)

let_go :
    (q : ℕ) (o : Option (ℕ × ℕ)) (u : Vm Pmm)
    → mapped 1 space 0x1000 ≡ some q
    → q ≢ 7
    → space.ref q % 2 ^ 32 ≡ 1
    → get_pte (default_pmm_manager 20) 20 1 0x1000 true space ≡ ok (o, u)
    → IsBetween 20 q u.pool
unfolding mapped pte_ppn get_pte below_pd0 descend page_at
let_go q o u e n one r =
    subst (λ p. IsBetween 20 p u.pool) (some_injective e)
      (subst (λ (v : Vm Pmm). IsBetween 20 8 v.pool) (reached o u r)
        (block 5 2 ∷ [], block 9 4, [], pool-Represents, IsGap-8, pool-below))
  where
    reached :
        (o : Option (ℕ × ℕ)) (u : Vm Pmm)
        → ◌≡◌ {A = Outcome (Option (ℕ × ℕ) × Vm Pmm)} (ok (some (4, 1), space)) (ok (o, u))
        → space ≡ u
    reached o u z = cc

-- The page 7 takes the place of 8, which becomes free.
page_insert-InsertedOr_example :
    (role' : ℕ → Role) × (w : Vm Pmm) × IsTree (default_pmm_manager-Lawful 20) 1 role' w
    × ((la' : ℕ) → Apart la' 0x1000 → mapped 1 w la' ≡ mapped 1 space la')
    × InsertedOr
        (default_pmm_manager-Lawful 20)
        1
        0x1000
        7
        space
        w
        (page_insert (default_pmm_manager 20) 20 1 7 0x1000 0x17 space)
unfolding default_pmm_manager-Lawful is_free blocks_from
page_insert-InsertedOr_example =
    page_insert-InsertedOr (default_pmm_manager-Lawful 20) 1 0x1000 7 0x17 roles space (omega arith)
      space-IsTree (omega arith) (omega arith) refl (omega arith) was_mapped let_go
