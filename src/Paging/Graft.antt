-- ===== src/Paging/Graft.antt =====
-- One level of `get_pte` that makes the table that is missing: it leads to nothing yet.
use Prim.Native.Nat.{bit_or}
use nku_os_lab.Base.{
  ℕ, suc, ◌^◌, ◌≤◌, ◌<◌, ◌≡◌, ◌≢◌, refl, sym, ◌∙◌, ap, subst, inl, inr, true, false, Option, none,
  some, List, [], ◌∷◌, length, ltb, lt→ltb, if◌then◌else◌, arith, Bool-cases, false-ne-true,
  ℕ_discrete, update, update_self, update_ne,
}
use nku_os_lab.Base.Outcome.{Outcome, ok, ◌>>=◌, ◌>>◌, assert}
use nku_os_lab.Paging.{
  PmmManager, Vm, pte_u, pte_v, pte_ppn, pte_create, page_at, alloc_page, descend,
}
use nku_os_lab.Paging.Bits.{pte_create_lem}
use nku_os_lab.Paging.Tree.{
  Takes, Lawful, Role, other, table, table-ne-other, table_height, table_path, step, resolve,
  IsTree, resolve-graft, resolve-same,
}
use nku_os_lab.Process.Family.{none-ne-some}

module _ {S : Type 0} {pmm : PmmManager S} {npage : ℕ} (law : Lawful pmm npage) (pgdir : ℕ) where
  -- Tables were added to the tree of `s`, of pages that were free.
  pub record Grown (role : ℕ → Role) (s : Vm S) (role' : ℕ → Role) (u : Vm S) : Type 0 where
    pub tree : IsTree law pgdir role' u
    pub keeps : (p : ℕ) → role p ≢ other → role' p ≡ role p
    pub lookups :
        (p h : ℕ) (path ks : List ℕ)
        → role p ≡ table h path
        → length ks ≡ suc h
        → resolve u (some p) ks ≡ resolve s (some p) ks
    pub steps : (p k c : ℕ) → role p ≢ other → step s p k ≡ some c → step u p k ≡ some c
    pub used :
        (p : ℕ)
        → law.is_free p s.pool ≡ false
        → (law.is_free p u.pool ≡ false) × (u.ref p ≡ s.ref p) × (role' p ≡ role p)

  pub Grown-refl : (role : ℕ → Role) (s : Vm S) → IsTree law pgdir role s → Grown role s role s
  Grown-refl role s tree = record {
    tree = tree;
    keeps = λ p n. refl;
    lookups = λ p h path ks e l. refl;
    steps = λ p k c n e. e;
    used = λ p e. (e, refl, refl);
  }

  pub Grown-trans :
      (role : ℕ → Role) (s : Vm S) (role' : ℕ → Role) (t : Vm S) (role'' : ℕ → Role) (u : Vm S)
      → Grown role s role' t
      → Grown role' t role'' u
      → Grown role s role'' u
  Grown-trans role s role' t role'' u g h = record {
    tree = h.tree;
    keeps = λ p n. h.keeps p (λ e. n (sym (g.keeps p n) ∙ e)) ∙ g.keeps p n;
    lookups = λ p d path ks e l.
        h.lookups p d path ks (g.keeps p (λ z. table-ne-other d path (sym e ∙ z)) ∙ e) l
        ∙ g.lookups p d path ks e l;
    steps = λ p k c n e. h.steps p k c (λ z. n (sym (g.keeps p n) ∙ z)) (g.steps p k c n e);
    used =
        λ p e. let (a, b, c) = g.used p e in let (a', b', c') = h.used p a in (a', b' ∙ b, c' ∙ c);
  }

  -- What one level of `get_pte` gives: no page is free, or the table for the index.
  abbrev pub Reaches : ℕ → ℕ → ℕ → List ℕ → (ℕ → Role) → Vm S → Option ℕ → Type 0
  Reaches t i h path role u none = (p : ℕ) → law.is_free p u.pool ≡ false
  Reaches t i h path role u (some c) = (step u t i ≡ some c) × (role c ≡ table h (i ∷ path))

  module _ (small : npage ≤ 2 ^ 44) (t i h : ℕ) (path : List ℕ) (role : ℕ → Role) (s : Vm S)
      (tree : IsTree law pgdir role s) (rt : role t ≡ table (suc h) path) where
    table_entry : ℕ → ℕ
    table_entry c = pte_create c (bit_or pte_u 1)

    -- The state with `c` as the table for the entry.
    grafted : ℕ → S → Vm S
    unfolding table_entry
    grafted c pool = record s {
      mem =
          update (update s.mem c (λ j. 0)) t (update (update s.mem c (λ j. 0) t) i (table_entry c));
      ref = update s.ref c 1;
      pool = pool;
    }

    roles : ℕ → ℕ → Role
    roles c = update role c (table h (i ∷ path))

    module _ (c : ℕ) (pool : S) (below : c < npage) (free : law.is_free c s.pool ≡ true)
        (valid : law.IsValid pool) (taken : law.is_free c pool ≡ false)
        (rest : (q : ℕ) → c ≢ q → law.is_free q pool ≡ law.is_free q s.pool)
        (missing : pte_v (s.mem t i) ≡ false) where
      spare : role c ≡ other
      spare = tree.spare c free

      apart : c ≢ t
      apart e = table-ne-other (suc h) path (sym rt ∙ ap role (sym e) ∙ spare)

      at_entry : (grafted c pool).mem t i ≡ table_entry c
      unfolding grafted
      at_entry =
          ap (λ (f : ℕ → ℕ). f i) (update_self (update s.mem c (λ j. 0)) t _)
          ∙ update_self (update s.mem c (λ j. 0) t) i (table_entry c)

      named : (pte_v (table_entry c) ≡ true) × (pte_ppn (table_entry c) ≡ c)
      unfolding table_entry
      named = pte_create_lem c (bit_or pte_u 1) (omega (arith, below, small)) (omega arith)

      hung : page_at pmm npage (table_entry c) ≡ ok c
      unfolding page_at
      hung =
          ap (λ d. assert (ltb d npage) >> ok d) named.1
          ∙ ap (λ b. assert b >> ok c) (lt→ltb c npage below)

      elsewhere : (p k : ℕ) → p ≢ c → ((p ≡ t) × (k ≡ i) → ⊥) → (grafted c pool).mem p k ≡ s.mem p k
      unfolding grafted
      elsewhere p k n m = elim (ℕ_discrete t p) [
        | no d ↦
            ap (λ (f : ℕ → ℕ). f k)
              (update_ne (update s.mem c (λ j. 0)) t _ p d
                ∙ update_ne s.mem c (λ j. 0) p (λ e. n (sym e)))
        | yes e ↦
            subst (λ q. (grafted c pool).mem q k ≡ s.mem q k) e
              (ap (λ (f : ℕ → ℕ). f k) (update_self (update s.mem c (λ j. 0)) t _)
                ∙ update_ne (update s.mem c (λ j. 0) t) i (table_entry c) k (λ z. m (sym e, sym z))
                ∙ ap (λ (f : ℕ → ℕ). f k) (update_ne s.mem c (λ j. 0) t apart))
      ]

      fresh : (k : ℕ) → (grafted c pool).mem c k ≡ 0
      unfolding grafted
      fresh k =
          ap (λ (f : ℕ → ℕ). f k)
            (update_ne (update s.mem c (λ j. 0)) t _ c (λ e. apart (sym e))
              ∙ update_self s.mem c (λ j. 0))

      -- The entry of the table names the new one.
      now : step (grafted c pool) t i ≡ some c
      now =
          ap (λ e. if pte_v e then some (pte_ppn e) else none) at_entry
          ∙ ap (λ b. if b then some (pte_ppn (table_entry c)) else none) named.0
          ∙ ap some named.1

      kept_role : (p : ℕ) → role p ≢ other → roles c p ≡ role p
      unfolding roles
      kept_role p n = update_ne role c (table h (i ∷ path)) p (λ e. n (ap role (sym e) ∙ spare))

      new_role : roles c c ≡ table h (i ∷ path)
      unfolding roles
      new_role = update_self role c (table h (i ∷ path))

      old_role : (p : ℕ) → c ≢ p → roles c p ≡ role p
      unfolding roles
      old_role p n = update_ne role c (table h (i ∷ path)) p n

      grafted-points :
          (p k h' : ℕ) (path' : List ℕ)
          → roles c p ≡ table (suc h') path'
          → pte_v ((grafted c pool).mem p k) ≡ true
          → (pte_ppn ((grafted c pool).mem p k) < npage)
            × (roles c (pte_ppn ((grafted c pool).mem p k)) ≡ table h' (k ∷ path'))
      grafted-points p k h' path' e v = elim (ℕ_discrete c p) [
        | yes z ↦ absurd (
            false-ne-true
              (sym (ap pte_v (fresh k)) ∙ ap (λ q. pte_v ((grafted c pool).mem q k)) z ∙ v))
        | no n ↦ elim (ℕ_discrete p t) [
          | no d ↦ old n (λ z. d z.0)
          | yes z ↦ elim (ℕ_discrete k i) [
            | no d ↦ old n (λ z. d z.1)
            | yes y ↦
                let same = sym rt ∙ ap role (sym z) ∙ sym (old_role p n) ∙ e in
                subst (λ x. (x < npage) × (roles c x ≡ table h' (k ∷ path')))
                  (sym (
                    ap (λ q. pte_ppn ((grafted c pool).mem q k)) z
                    ∙ ap (λ j. pte_ppn ((grafted c pool).mem t j)) y
                    ∙ ap pte_ppn at_entry
                    ∙ named.1))
                  (
                    below,
                    new_role
                        ∙ ap (λ j. table h (j ∷ path)) (sym y)
                        ∙ ap (λ g. table g (k ∷ path)) (omega (arith, table_height same))
                        ∙ ap (λ (js : List ℕ). table h' (k ∷ js)) (table_path same),
                  )
          ]
        ]
      ]
        where
          old :
              c ≢ p
              → ((p ≡ t) × (k ≡ i) → ⊥)
              → (pte_ppn ((grafted c pool).mem p k) < npage)
                × (roles c (pte_ppn ((grafted c pool).mem p k)) ≡ table h' (k ∷ path'))
          old n m =
              let kept = elsewhere p k (λ z. n (sym z)) m in
              let (a, b) =
                tree.points p k h' path' (sym (old_role p n) ∙ e) (ap pte_v (sym kept) ∙ v) in
              subst (λ x. (pte_ppn x < npage) × (roles c (pte_ppn x) ≡ table h' (k ∷ path')))
                (sym kept)
                (
                  a,
                  kept_role (pte_ppn (s.mem p k)) (λ z. table-ne-other h' (k ∷ path') (sym b ∙ z))
                      ∙ b,
                )

      grafted-IsTree : IsTree law pgdir (roles c) (grafted c pool)
      unfolding grafted
      grafted-IsTree = record {
        top = kept_role pgdir (λ z. table-ne-other 2 [] (sym tree.top ∙ z)) ∙ tree.top;
        points = grafted-points;
        spare = λ p e. elim (ℕ_discrete c p) [
          | yes z ↦ absurd (false-ne-true (sym taken ∙ ap (λ q. law.is_free q pool) z ∙ e))
          | no n ↦ old_role p n ∙ tree.spare p (sym (rest p n) ∙ e)
        ];
        pool = valid;
      }

      grafted-Grown : Grown role s (roles c) (grafted c pool)
      unfolding grafted
      grafted-Grown = record {
        tree = grafted-IsTree;
        keeps = kept_role;
        lookups = λ p h' path' ks e l.
            resolve-graft law pgdir role s (grafted c pool) tree t i c h path rt spare
              (λ q k n m. ap (λ x. if pte_v x then some (pte_ppn x) else none) (elsewhere q k n m))
              (ap (λ b. if b then some (pte_ppn (s.mem t i)) else none) missing) now
              (λ k. ap (λ x. if pte_v x then some (pte_ppn x) else none) (fresh k)) ks p h' path' e
              l;
        steps = λ p k d n e.
            ap (λ x. if pte_v x then some (pte_ppn x) else none)
              (elsewhere p k (λ z. n (ap role z ∙ spare))
                (λ (a, b). none-ne-some d (
                  sym (ap (λ b. if b then some (pte_ppn (s.mem t i)) else none) missing)
                  ∙ sym (ap (λ q. step s q k) a ∙ ap (λ j. step s t j) b)
                  ∙ e)))
            ∙ e;
        used = λ p e.
            let n : c ≢ p =
              λ z. false-ne-true (sym e ∙ ap (λ q. law.is_free q s.pool) (sym z) ∙ free) in
            (rest p n ∙ e, update_ne s.ref c 1 p n, old_role p n);
      }

    -- One level of `get_pte` with leave to make a table.
    pub descend-Reaches :
        (o : Option ℕ) × (role' : ℕ → Role) × (u : Vm S) × (descend pmm npage true t i s
          ≡ ok (o, u))
        × Grown role s role' u
        × Reaches t i h path role' u o
    unfolding descend page_at alloc_page grafted table_entry
    descend-Reaches = elim (Bool-cases (pte_v (s.mem t i))) [
      | inl v ↦
          let (a, b) = tree.points t i h path rt v in
          (
            some (pte_ppn (s.mem t i)),
            role,
            s,
            rw (v, lt→ltb (pte_ppn (s.mem t i)) npage a) refl,
            Grown-refl role s tree,
            (ap (λ b. if b then some (pte_ppn (s.mem t i)) else none) v, b),
          )
      | inr v ↦
          let (o, pool, e, valid, takes) = law.alloc_law s.pool tree.pool in
          made v o pool e valid takes
    ]
      where
        made :
            pte_v (s.mem t i) ≡ false
            → (o : Option ℕ) (pool : S) → pmm.alloc_pages 1 s.pool ≡ ok (o, pool)
            → law.IsValid pool
            → Takes (λ p. law.is_free p s.pool) (λ p. law.is_free p pool) npage o
            → (o : Option ℕ) × (role' : ℕ → Role) × (u : Vm S) × (descend pmm npage true t i s
                ≡ ok (o, u))
              × Grown role s role' u
              × Reaches t i h path role' u o
        made v none pool e valid same = (
          none,
          role,
          record s { pool = pool },
          rw (v, e) refl,
          record {
            tree = record {
              top = tree.top;
              points = tree.points;
              spare = λ p z. absurd (false-ne-true (sym (same p).1 ∙ z));
              pool = valid;
            };
            keeps = λ p n. refl;
            lookups = λ p h' path' ks a l.
                resolve-same s (record s { pool = pool }) (λ q j. refl) (some p) ks;
            steps = λ p k c n a. a;
            used = λ p z. ((same p).1, refl, refl);
          },
          λ p. (same p).1,
        )
        made v (some c) pool e valid (free, below, taken, rest) = (
          some c,
          roles c,
          grafted c pool,
          rw (v, e, lt→ltb c npage below)
              (ap (λ x. page_at pmm npage x >>= λ d. ok (some d, grafted c pool))
                  (at_entry c pool below free valid taken rest v)
                ∙ ap (λ (r : Outcome ℕ). r >>= λ d. ok (some d, grafted c pool))
                    (hung c pool below free valid taken rest v)),
          grafted-Grown c pool below free valid taken rest v,
          (now c pool below free valid taken rest v, new_role c pool below free valid taken rest v),
        )
