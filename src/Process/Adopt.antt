-- ===== src/Process/Adopt.antt =====
-- How `do_exit` gives the children of a process to another one.
use nku_os_lab.Base.{
  ℕ, ◌+◌, ◌≤◌, ◌<◌, ◌≡◌, ◌≢◌, refl, sym, ◌∙◌, ap, subst, Option, none, some, List, ◌∷◌, arith,
  ℕ_discrete, update, update_self, update_ne,
}
use nku_os_lab.SkewHeap.Counts.{one_if, one_if_self, one_if_ne}
use nku_os_lab.Sched.RoundRobin.{occurs}
use nku_os_lab.Process.{Links, set_yptr, adopt}
use nku_os_lab.Process.Family.{
  IsSiblings, Same, IsSiblings-Same, IsSiblings-parent, IsSiblings-head, IsSiblings_under,
  set_yptr_at, set_yptr_off, set_yptr_rest,
}

-- The families while `x` gives its children away: the first that is left may still name a younger one.
pub record IsGiving (x : ℕ) (l : Links) (kids : ℕ → List ℕ) : Type 0 where
  pub lines : (y : ℕ) → x ≢ y → IsSiblings l y none (l.cptr y) (kids y)
  pub giving : (younger : Option ℕ) × IsSiblings l x younger (l.cptr x) (kids x)
  pub once : (y c : ℕ) → occurs c (kids y) ≤ 1

module _ (x i c : ℕ) (cs : List ℕ) (l : Links) (kids : ℕ → List ℕ) (h : IsGiving x l kids)
    (n : x ≢ i) (e : kids x ≡ c ∷ cs) where
  line : IsSiblings l x h.giving.0 (l.cptr x) (c ∷ cs)
  line = subst (λ k. IsSiblings l x h.giving.0 (l.cptr x) k) e h.giving.1

  rest : IsSiblings l x (some c) (l.optr c) cs
  rest = line.3

  count : (d : ℕ) → one_if c d + occurs d cs ≤ 1
  unfolding occurs
  count d = subst (λ k. occurs d k ≤ 1) e (h.once x d)

  base : Links
  base = record l {
    cptr = update l.cptr x (l.optr c);
    yptr = update l.yptr c none;
    optr = update l.optr c (l.cptr i);
  }

  marked : Links
  marked = set_yptr (l.cptr i) (some c) base

  m : Links
  unfolding marked
  m = record marked { parent = update marked.parent c i; cptr = update marked.cptr i (some c) }

  adopt-eq : adopt x i c l ≡ m
  unfolding adopt m marked base
  adopt-eq =
      ap
        (λ o.
          let b = record l {
            cptr = update l.cptr x (l.optr c);
            yptr = update l.yptr c none;
            optr = update l.optr c o;
          } in
          let d = set_yptr o (some c) b in
          record d { parent = update d.parent c i; cptr = update d.cptr i (some c) })
        (update_ne l.cptr x (l.optr c) i n)

  child : (y d : ℕ) → x ≢ y → 0 < occurs d (kids y) → l.parent d ≡ y
  child y d k o = IsSiblings-parent l y none (l.cptr y) (kids y) (h.lines y k) d o

  -- Another child than `c`, of another process than `i`, keeps its links.
  keeps : (d : ℕ) → c ≢ d → l.parent d ≢ i → Same l m d
  unfolding m marked base
  keeps d k z = (
    set_yptr_off (l.cptr i) (some c) base d
          (λ f. z (child i d n (IsSiblings-head l i none (l.cptr i) (kids i) d (h.lines i n) f)))
        ∙ update_ne l.yptr c none d k,
    ap (λ f. f d) (set_yptr_rest (l.cptr i) (some c) base).0 ∙ update_ne l.optr c _ d k,
    update_ne marked.parent c i d k ∙ ap (λ f. f d) (set_yptr_rest (l.cptr i) (some c) base).1,
  )

  first_child : (y : ℕ) → i ≢ y → m.cptr y ≡ update l.cptr x (l.optr c) y
  unfolding m marked base
  first_child y k =
      update_ne marked.cptr i (some c) y k
      ∙ ap (λ f. f y) (set_yptr_rest (l.cptr i) (some c) base).2

  not_c : (y d : ℕ) → x ≢ y → 0 < occurs d (kids y) → c ≢ d
  not_c y d k o z = k (sym line.2 ∙ ap l.parent z ∙ child y d k o)

  elsewhere : (y : ℕ) → x ≢ y → i ≢ y → IsSiblings m y none (m.cptr y) (kids y)
  elsewhere y k j =
      subst (λ f. IsSiblings m y none f (kids y))
        (sym (first_child y j ∙ update_ne l.cptr x (l.optr c) y k))
        (IsSiblings-Same l m y none (l.cptr y) (kids y)
          (λ d o. keeps d (not_c y d k o) (λ z. j (sym z ∙ child y d k o))) (h.lines y k))

  giver : IsSiblings m x (some c) (m.cptr x) cs
  giver =
      subst (λ f. IsSiblings m x (some c) f cs)
        (sym (first_child x (λ z. n (sym z)) ∙ update_self l.cptr x (l.optr c)))
        (IsSiblings-Same l m x (some c) (l.optr c) cs
          (λ d o.
            keeps d
              (λ z.
                subst (λ u. 0 < occurs u cs → ⊥) z (λ v. omega (arith, v, count c, one_if_self c))
                  o)
              (λ z. n (sym (IsSiblings-parent l x (some c) (l.optr c) cs rest d o) ∙ z)))
          rest)

  taker : IsSiblings m i none (m.cptr i) (c ∷ kids i)
  unfolding m marked base
  taker = (
    update_self marked.cptr i (some c),
    set_yptr_off (l.cptr i) (some c) base c
          (λ f. not_c i c n (IsSiblings-head l i none (l.cptr i) (kids i) c (h.lines i n) f) refl)
        ∙ update_self l.yptr c none,
    update_self marked.parent c i,
    subst (λ o. IsSiblings m i (some c) o (kids i))
        (sym (
          ap (λ f. f c) (set_yptr_rest (l.cptr i) (some c) base).0
          ∙ update_self l.optr c (l.cptr i)))
        (IsSiblings_under l m i none (some c) (l.cptr i) (kids i)
          (λ d f.
            let o = IsSiblings-head l i none (l.cptr i) (kids i) d (h.lines i n) f in
            (
              set_yptr_at (l.cptr i) (some c) base d f,
              optr_of d (not_c i d n o),
              parent_of d (not_c i d n o),
            ))
          (λ d o f. (
            set_yptr_off (l.cptr i) (some c) base d f ∙ update_ne l.yptr c none d (not_c i d n o),
            optr_of d (not_c i d n o),
            parent_of d (not_c i d n o),
          ))
          (h.once i) (h.lines i n)),
  )
    where
      optr_of : (d : ℕ) → c ≢ d → m.optr d ≡ l.optr d
      optr_of d k =
          ap (λ f. f d) (set_yptr_rest (l.cptr i) (some c) base).0 ∙ update_ne l.optr c _ d k

      parent_of : (d : ℕ) → c ≢ d → m.parent d ≡ l.parent d
      parent_of d k =
          update_ne marked.parent c i d k ∙ ap (λ f. f d) (set_yptr_rest (l.cptr i) (some c) base).1

  -- The children after one round.
  abbrev pub given : ℕ → List ℕ
  given = update (update kids x cs) i (c ∷ kids i)

  pub given_at :
      (y : ℕ) (P : List ℕ → Type 0)
      → (x ≡ y → P cs)
      → (i ≡ y → P (c ∷ kids i))
      → (x ≢ y → i ≢ y → P (kids y))
      → P (given y)
  given_at y P a b d = elim (ℕ_discrete i y) [
    | yes z ↦
        subst (λ w. P (given w)) z
          (subst P (sym (update_self (update kids x cs) i (c ∷ kids i))) (b z))
    | no j ↦
        subst P (sym (update_ne (update kids x cs) i (c ∷ kids i) y j)) (elim (ℕ_discrete x y) [
          | yes z ↦
              subst (λ w. P (update kids x cs w)) z (subst P (sym (update_self kids x cs)) (a z))
          | no k ↦ subst P (sym (update_ne kids x cs y k)) (d k j)
        ])
  ]

  pub adopt-IsGiving : IsGiving x (adopt x i c l) given
  unfolding occurs
  adopt-IsGiving =
      subst (λ a. IsGiving x a given) (sym adopt-eq)
        (record {
          lines = λ y k.
              given_at y (λ ks. IsSiblings m y none (m.cptr y) ks) (λ z. absurd (k z))
                (λ z. subst (λ w. IsSiblings m w none (m.cptr w) (c ∷ kids i)) z taker)
                (λ a b. elsewhere y a b);
          giving = (
            some c,
            given_at x (λ ks. IsSiblings m x (some c) (m.cptr x) ks) (λ z. giver)
                (λ z. absurd (n (sym z))) (λ a b. absurd (a refl)),
          );
          once = λ y d.
              given_at y (λ ks. occurs d ks ≤ 1) (λ z. omega (arith, count d))
                (λ z. elim (ℕ_discrete c d) [
                  | yes w ↦
                      subst (λ u. one_if c u + occurs u (kids i) ≤ 1) w
                        (elim (ℕ_discrete (occurs c (kids i)) 0) [
                          | yes v ↦ omega (arith, v, one_if_self c)
                          | no v ↦ absurd (not_c i c n (omega (arith, v)) refl)
                        ])
                  | no w ↦ omega (arith, one_if_ne c d w, h.once i d)
                ])
                (λ a b. h.once y d);
        })
