-- ===== src/Paging/Plant.antt =====
-- What a new entry in a table of the last level changes.
use nku_os_lab.Base.{
  ℕ, suc, ◌/◌, ◌%◌, ◌^◌, ◌<◌, ◌≡◌, ◌≢◌, refl, sym, ◌∙◌, ap, subst, true, Option, none, some, List,
  [], ◌∷◌, if◌then◌else◌, arith,
}
use nku_os_lab.Paging.{PmmManager, Vm, pdx1, pdx0, ptx, pte_v, pte_ppn}
use nku_os_lab.Paging.Tree.{
  Lawful, Role, other, table, table_height, step, resolve, mapped, IsTree, resolve-plant,
}
use nku_os_lab.Paging.Grow.{Found}

-- The addresses `a` and `b` are in different pages of the 39-bit address space.
abbrev pub Apart : ℕ → ℕ → Type 0
Apart a b = a % 2 ^ 39 / 2 ^ 12 ≢ b % 2 ^ 39 / 2 ^ 12

first_of : List ℕ → ℕ
first_of [] = 0
first_of (k ∷ ks) = k

rest_of : List ℕ → List ℕ
rest_of [] = []
rest_of (k ∷ ks) = ks

Apart-indices :
    (a b : ℕ)
    → Apart a b
    → ◌≢◌ {A = List ℕ} (ptx a ∷ pdx0 a ∷ pdx1 a ∷ []) (ptx b ∷ pdx0 b ∷ pdx1 b ∷ [])
unfolding first_of rest_of
Apart-indices a b n e =
    let x : ptx a ≡ ptx b = ap first_of e in
    let y : pdx0 a ≡ pdx0 b = ap (λ ks. first_of (rest_of ks)) e in
    let z : pdx1 a ≡ pdx1 b = ap (λ ks. first_of (rest_of (rest_of ks))) e in
    n (omega (arith, x, y, z))

-- The page that an entry names, if it is valid.
abbrev pub names : ℕ → Option ℕ
names e = if pte_v e then some (pte_ppn e) else none

module _ {S : Type 0} {pmm : PmmManager S} {npage : ℕ} (law : Lawful pmm npage) (pgdir la : ℕ)
    (role : ℕ → Role) (u : Vm S) (tree : IsTree law pgdir role u) (t i : ℕ)
    (found : Found law pgdir la role u t i) where
  -- Before the change, the entry is what the address leads to.
  pub mapped_before : mapped pgdir u la ≡ names (u.mem t i)
  unfolding mapped resolve
  mapped_before =
      ap (λ o. resolve u o (pdx0 la ∷ ptx la ∷ [])) found.to_pd0
      ∙ ap (λ o. resolve u o (ptx la ∷ [])) found.to_pt
      ∙ ap (λ k. step u t k) (sym found.index)

  module _ (w : Vm S) (e : ℕ) (written : w.mem t i ≡ e)
      (off : (p k : ℕ) → ((p ≡ t) × (k ≡ i) → ⊥) → w.mem p k ≡ u.mem p k) where
    high : (p h : ℕ) (path : List ℕ) → role p ≡ table (suc h) path → p ≢ t
    high p h path r z = omega (arith, table_height (sym r ∙ ap role z ∙ found.pt_role))

    steps : (p k : ℕ) → ((p ≡ t) × (k ≡ i) → ⊥) → step w p k ≡ step u p k
    steps p k n = ap names (off p k n)

    pub mapped_here : mapped pgdir w la ≡ names e
    unfolding mapped resolve
    mapped_here =
        ap (λ o. resolve w o (pdx0 la ∷ ptx la ∷ []))
          (steps pgdir (pdx1 la) (λ z. high pgdir 1 [] tree.top z.0) ∙ found.to_pd0)
        ∙ ap (λ o. resolve w o (ptx la ∷ []))
            (steps found.pd0 (pdx0 la) (λ z. high found.pd0 0 (pdx1 la ∷ []) found.pd0_role z.0)
              ∙ found.to_pt)
        ∙ ap (λ k. step w t k) (sym found.index)
        ∙ ap names written

    pub mapped-Apart : (la' : ℕ) → Apart la' la → mapped pgdir w la' ≡ mapped pgdir u la'
    unfolding mapped
    mapped-Apart la' n =
        resolve-plant law pgdir role u w tree t i (pdx0 la ∷ pdx1 la ∷ []) found.pt_role steps
          (pdx1 la' ∷ pdx0 la' ∷ ptx la' ∷ []) pgdir 2 [] tree.top refl
          (λ z. Apart-indices la' la n (z ∙ ap (λ j. j ∷ (pdx0 la ∷ pdx1 la ∷ [])) found.index))

    pub planted-IsTree :
        law.IsValid w.pool
        → ((p : ℕ) → law.is_free p w.pool ≡ true → role p ≡ other)
        → IsTree law pgdir role w
    planted-IsTree valid spare = record {
      top = tree.top;
      points = λ p k h path r v.
          let same = off p k (λ z. high p h path r z.0) in
          let (a, b) = tree.points p k h path r (ap pte_v (sym same) ∙ v) in
          subst (λ x. (pte_ppn x < npage) × (role (pte_ppn x) ≡ table h (k ∷ path))) (sym same)
            (a, b);
      spare = spare;
      pool = valid;
    }
