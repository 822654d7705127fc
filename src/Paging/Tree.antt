-- ===== src/Paging/Tree.antt =====
-- The tables of one address space as a tree, and what an address leads to.
use nku_os_lab.Base.{
  ℕ, zero, suc, ◌<◌, ◌≡◌, ◌≢◌, refl, sym, ◌∙◌, ap, inl, inr, Bool, true, false, Option, none, some,
  List, [], ◌∷◌, length, rev_onto, if◌then◌else◌, arith, Bool-cases, ℕ_discrete,
}
use nku_os_lab.Base.Outcome.{ok}
use nku_os_lab.Paging.{PmmManager, Vm, pdx1, pdx0, ptx, pte_v, pte_ppn}

-- What an allocation of one page takes, where `free` says which pages are free: it fails only when
-- no page is.
abbrev pub Takes : (ℕ → Bool) → (ℕ → Bool) → ℕ → Option ℕ → Type 0
Takes free free' npage none = (q : ℕ) → (free q ≡ false) × (free' q ≡ false)
Takes free free' npage (some p) =
    (free p ≡ true) × (p < npage) × (free' p ≡ false) × ((q : ℕ) → p ≢ q → free' q ≡ free q)

-- What page tables rely on in an allocator.
pub record Lawful {S : Type 0} (pmm : PmmManager S) (npage : ℕ) : Type 1 where
  pub IsValid : S → Type 0
  pub is_free : ℕ → S → Bool
  -- The states in which the allocator takes the page back.
  pub CanFree : ℕ → S → Type 0
  pub alloc_law :
      (s : S)
      → IsValid s
      → (o : Option ℕ) × (t : S) × (pmm.alloc_pages 1 s ≡ ok (o, t))
        × IsValid t
        × Takes (λ p. is_free p s) (λ p. is_free p t) npage o
  pub free_law :
      (p : ℕ) (s : S)
      → IsValid s
      → p < npage
      → is_free p s ≡ false
      → CanFree p s
      → (t : S) × (pmm.free_pages p 1 s ≡ ok t)
        × IsValid t
        × (is_free p t ≡ true)
        × ((q : ℕ) → p ≢ q → is_free q t ≡ is_free q s)

-- What a page is: no table, or a table over `h` further levels of tables, with the indices that lead to
-- it, the last first.
pub data Role : Type 0 where
  other : Role
  table : ℕ → List ℕ → Role

pub table-ne-other : (h : ℕ) (path : List ℕ) → table h path ≢ other
table-ne-other h path e = cc

pub table_height : {h h' : ℕ} {path path' : List ℕ} → table h path ≡ table h' path' → h ≡ h'
table_height e = cc

pub table_path :
    {h h' : ℕ} {path path' : List ℕ} → table h path ≡ table h' path' → ◌≡◌ {A = List ℕ} path path'
table_path e = cc

module _ {S : Type 0} where
  abbrev pub step : Vm S → ℕ → ℕ → Option ℕ
  step s p k = if pte_v (s.mem p k) then some (pte_ppn (s.mem p k)) else none

  -- The page that the indices lead to.
  unfoldable pub resolve : Vm S → Option ℕ → List ℕ → Option ℕ
  resolve s o [] = o
  resolve s none (k ∷ ks) = none
  resolve s (some p) (k ∷ ks) = resolve s (step s p k) ks

  pub resolve-none : (s : Vm S) (ks : List ℕ) → resolve s none ks ≡ none
  unfolding resolve
  resolve-none s [] = refl
  resolve-none s (k ∷ ks) = refl

  pub resolve-same :
      (s u : Vm S)
      → ((p k : ℕ) → step u p k ≡ step s p k)
      → (o : Option ℕ) (ks : List ℕ) → resolve u o ks ≡ resolve s o ks
  unfolding resolve
  resolve-same s u e o [] = refl
  resolve-same s u e none (k ∷ ks) = refl
  resolve-same s u e (some p) (k ∷ ks) =
      ap (λ o. resolve u o ks) (e p k) ∙ resolve-same s u e (step s p k) ks

  -- The page that is mapped at an address.
  unfoldable pub mapped : ℕ → Vm S → ℕ → Option ℕ
  unfolding resolve
  mapped pgdir s la = resolve s (some pgdir) (pdx1 la ∷ pdx0 la ∷ ptx la ∷ [])

-- The tables below `pgdir`: an entry of a table that is not of the last level, if it is valid, names the
-- table for its index. A free page is no table.
pub record IsTree {S : Type 0} {pmm : PmmManager S} {npage : ℕ} (law : Lawful pmm npage) (pgdir : ℕ)
    (role : ℕ → Role) (s : Vm S) : Type 0 where
  pub top : role pgdir ≡ table 2 []
  pub points :
      (p k h : ℕ) (path : List ℕ)
      → role p ≡ table (suc h) path
      → pte_v (s.mem p k) ≡ true
      → (pte_ppn (s.mem p k) < npage) × (role (pte_ppn (s.mem p k)) ≡ table h (k ∷ path))
  pub spare : (p : ℕ) → law.is_free p s.pool ≡ true → role p ≡ other
  pub pool : law.IsValid s.pool

module _ {S : Type 0} {pmm : PmmManager S} {npage : ℕ} (law : Lawful pmm npage) (pgdir : ℕ)
    (role : ℕ → Role) (s u : Vm S) (tree : IsTree law pgdir role s) where
  -- One entry is the same, and what follows it leads to the same page.
  resolve-step :
      (p k h : ℕ) (path ks : List ℕ)
      → role p ≡ table h path
      → length ks ≡ h
      → step u p k ≡ step s p k
      → ((q g : ℕ)
          → role q ≡ table g (k ∷ path)
          → length ks ≡ suc g
          → resolve u (some q) ks ≡ resolve s (some q) ks)
      → resolve u (step u p k) ks ≡ resolve s (step s p k) ks
  unfolding resolve
  resolve-step p k h path ks rp l e ih =
      ap (λ o. resolve u o ks) e ∙ elim (Bool-cases (pte_v (s.mem p k))) [
        | inr v ↦
            ap (λ b. resolve u (entry b) ks) v
            ∙ resolve-none u ks
            ∙ sym (ap (λ b. resolve s (entry b) ks) v ∙ resolve-none s ks)
        | inl v ↦
            ap (λ b. resolve u (entry b) ks) v
            ∙ further ks h ih refl l v
            ∙ sym (ap (λ b. resolve s (entry b) ks) v)
      ]
    where
      entry : Bool → Option ℕ
      entry b = if b then some (pte_ppn (s.mem p k)) else none

      further :
          (js : List ℕ) (h' : ℕ)
          → ((q g : ℕ)
              → role q ≡ table g (k ∷ path)
              → length js ≡ suc g
              → resolve u (some q) js ≡ resolve s (some q) js)
          → h ≡ h'
          → length js ≡ h'
          → pte_v (s.mem p k) ≡ true
          → resolve u (some (pte_ppn (s.mem p k))) js ≡ resolve s (some (pte_ppn (s.mem p k))) js
      further [] h' ih a z v = refl
      further (j ∷ js) zero ih a z v = absurd (omega (arith, z))
      further (j ∷ js) (suc g) ih a z v =
          ih (pte_ppn (s.mem p k)) g (tree.points p k g path (rp ∙ ap (λ x. table x path) a) v).1 z

  -- The same entries up to one that leads to an empty table and led to nothing: the tables lead to the
  -- same pages.
  pub resolve-graft :
      (t i c h : ℕ) (path : List ℕ)
      → role t ≡ table (suc h) path
      → role c ≡ other
      → ((p k : ℕ) → p ≢ c → ((p ≡ t) × (k ≡ i) → ⊥) → step u p k ≡ step s p k)
      → step s t i ≡ none
      → step u t i ≡ some c
      → ((k : ℕ) → step u c k ≡ none)
      → (ks : List ℕ) (p h' : ℕ) (path' : List ℕ) → role p ≡ table h' path'
      → length ks ≡ suc h'
      → resolve u (some p) ks ≡ resolve s (some p) ks
  unfolding resolve
  resolve-graft t i c h path rt rc agree was now empty [] p h' path' rp l = refl
  resolve-graft t i c h path rt rc agree was now empty (k ∷ ks) p h' path' rp l =
      let same = λ (e : step u p k ≡ step s p k).
        resolve-step p k h' path' ks rp (omega (arith, l)) e
          (λ q g. resolve-graft t i c h path rt rc agree was now empty ks q g (k ∷ path')) in
      elim (ℕ_discrete p t) [
        | no n ↦ same (agree p k own (λ e. n e.0))
        | yes e ↦ elim (ℕ_discrete k i) [
          | no n ↦ same (agree p k own (λ e. n e.1))
          | yes e' ↦
              let high : h' ≡ suc h = table_height (sym rp ∙ ap role e ∙ rt) in
              ap (λ o. resolve u o ks) (ap (λ q. step u q k) e ∙ ap (λ j. step u t j) e' ∙ now)
              ∙ dead ks (omega (arith, high, l))
              ∙ sym (
                  ap (λ o. resolve s o ks) (ap (λ q. step s q k) e ∙ ap (λ j. step s t j) e' ∙ was)
                  ∙ resolve-none s ks)
        ]
      ]
    where
      own : p ≢ c
      own e = table-ne-other h' path' (sym rp ∙ ap role e ∙ rc)

      dead : (js : List ℕ) → 0 < length js → resolve u (some c) js ≡ none
      dead [] z = absurd (omega (arith, z))
      dead (j ∷ js) z = ap (λ o. resolve u o js) (empty j) ∙ resolve-none u js

  -- The same entries up to one of the last level: other indices lead to the same pages.
  pub resolve-plant :
      (t i : ℕ) (path : List ℕ)
      → role t ≡ table 0 path
      → ((p k : ℕ) → ((p ≡ t) × (k ≡ i) → ⊥) → step u p k ≡ step s p k)
      → (ks : List ℕ) (p h' : ℕ) (path' : List ℕ) → role p ≡ table h' path'
      → length ks ≡ suc h'
      → ◌≢◌ {A = List ℕ} (rev_onto ks path') (i ∷ path)
      → resolve u (some p) ks ≡ resolve s (some p) ks
  unfolding resolve
  resolve-plant t i path rt agree [] p h' path' rp l away = refl
  resolve-plant t i path rt agree (k ∷ ks) p h' path' rp l away =
      let same = λ (e : step u p k ≡ step s p k).
        resolve-step p k h' path' ks rp (omega (arith, l)) e
          (λ q g rq lq. resolve-plant t i path rt agree ks q g (k ∷ path') rq lq away) in
      elim (ℕ_discrete p t) [
        | no n ↦ same (agree p k (λ e. n e.0))
        | yes e ↦ elim (ℕ_discrete k i) [
          | no n ↦ same (agree p k (λ e. n e.1))
          | yes e' ↦
              let met = sym rp ∙ ap role e ∙ rt in
              absurd (
                last ks (omega (arith, l, table_height met)) away
                  (ap (λ j. j ∷ path') e' ∙ ap (λ (js : List ℕ). i ∷ js) (table_path met)))
        ]
      ]
    where
      last :
          (js : List ℕ)
          → length js ≡ 0
          → ◌≢◌ {A = List ℕ} (rev_onto js (k ∷ path')) (i ∷ path)
          → ◌≢◌ {A = List ℕ} (k ∷ path') (i ∷ path)
      last [] z n = n
      last (j ∷ js) z n = absurd (omega (arith, z))
