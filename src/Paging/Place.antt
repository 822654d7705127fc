-- ===== src/Paging/Place.antt =====
-- What `page_insert` writes once the entry is found, and the counts of references.
use Prim.Native.Nat.{bit_or}
use nku_os_lab.Base.{
  ℕ, ◌+◌, ◌-◌, ◌%◌, ◌^◌, ◌<◌, ◌≡◌, ◌≢◌, refl, sym, ◌∙◌, ap, subst, inl, inr, Bool, true, false,
  Option, none, some, ◌==◌, ==_iff, ==_of_ne, if◌then◌else◌, arith, Bool-cases, ℕ_discrete,
  update_self, update_ne,
}
use nku_os_lab.Base.Outcome.{Outcome, ok, ◌>>=◌}
use nku_os_lab.Paging.{
  PmmManager, Vm, pte_v, pte_ppn, pte_create, set_entry, page_ref_inc, page_ref_dec, pte2page,
  page_remove_pte, insert_at,
}
use nku_os_lab.Paging.Tree.{Lawful}
use nku_os_lab.Paging.Plant.{names}
use nku_os_lab.Paging.Release.{set_entry-mem, set_entry_off, pte2page_lem, page_remove_pte-Removed}

module _ {S : Type 0} {pmm : PmmManager S} {npage : ℕ} (law : Lawful pmm npage) where
  -- The counts of references after `page` took the place of what was mapped.
  abbrev pub Counts : ℕ → Vm S → Vm S → Option ℕ → Type 0
  Counts page s w none = w.ref page ≡ (s.ref page + 1) % 2 ^ 32
  Counts page s w (some q) =
      (q ≡ page → w.ref page ≡ s.ref page)
      × (q ≢ page
          → (w.ref page ≡ (s.ref page + 1) % 2 ^ 32)
            × (w.ref q ≡ (s.ref q + (2 ^ 32 - 1)) % 2 ^ 32)
            × (law.is_free q w.pool ≡ (w.ref q == 0)))

  pub Counts-from :
      (page : ℕ) (u s w : Vm S) (o : Option ℕ)
      → ((q : ℕ) → o ≡ some q → u.ref q ≡ s.ref q)
      → u.ref page ≡ s.ref page
      → Counts page u w o
      → Counts page s w o
  Counts-from page u s w none a b c = c ∙ ap (λ n. (n + 1) % 2 ^ 32) b
  Counts-from page u s w (some q) a b (c, d) = (
    λ z. c z ∙ b,
    λ n.
        let (x, y, r) = d n in
        (x ∙ ap (λ n. (n + 1) % 2 ^ 32) b, y ∙ ap (λ n. (n + (2 ^ 32 - 1)) % 2 ^ 32) (a q refl), r),
  )

  -- What the entry `i` of `t` and the counts become.
  pub record Placed (t i page e : ℕ) (s w : Vm S) : Type 0 where
    pub off : (p k : ℕ) → ((p ≡ t) × (k ≡ i) → ⊥) → w.mem p k ≡ s.mem p k
    pub written : w.mem t i ≡ e
    pub valid : law.IsValid w.pool
    pub only_old :
        (q : ℕ) → names (s.mem t i) ≢ some q → law.is_free q w.pool ≡ law.is_free q s.pool
    pub counts : Counts page s w (names (s.mem t i))

  module _ (t i page perm : ℕ) (s : Vm S) (valid : law.IsValid s.pool)
      (in_range : s.ref page < 2 ^ 32)
      (known : pte_v (s.mem t i) ≡ true
        → (pte_ppn (s.mem t i) < npage)
          × (law.is_free (pte_ppn (s.mem t i)) s.pool ≡ false)
          × (pte_ppn (s.mem t i) ≢ page
              → s.ref (pte_ppn (s.mem t i)) % 2 ^ 32 ≡ 1
              → law.CanFree (pte_ppn (s.mem t i)) s.pool)) where
    new_entry : ℕ
    new_entry = pte_create page (bit_or 1 perm)

    old_page : ℕ
    old_page = pte_ppn (s.mem t i)

    named : pte_v (s.mem t i) ≡ true → names (s.mem t i) ≡ some old_page
    unfolding old_page
    named v = ap (λ b. if b then some (pte_ppn (s.mem t i)) else none) v

    more : Vm S
    more = page_ref_inc page s

    once_more : more.ref page ≡ (s.ref page + 1) % 2 ^ 32
    unfolding more
    once_more = update_self s.ref page _

    place : Outcome (Vm S) → Outcome (Vm S)
    unfolding new_entry
    place o = o >>= λ u. ok (set_entry t i new_entry u)

    chosen : Bool → Outcome (Vm S)
    unfolding more
    chosen b = if b then ok (page_ref_dec page more) else page_remove_pte pmm npage t i more

    began :
        pte_v (s.mem t i) ≡ true
        → pte_ppn (s.mem t i) < npage
        → insert_at pmm npage t i page perm s ≡ place (chosen (old_page == page))
    unfolding insert_at place chosen old_page more new_entry
    began v below =
        ap
          (λ b. place (
            if b
            then (pte2page pmm npage (s.mem t i) >>= λ old. chosen (old == page))
            else ok more))
          v
        ∙ ap (λ (o : Outcome ℕ). place (o >>= λ old. chosen (old == page)))
            (pte2page_lem law (s.mem t i) v below)

    pub insert_at-Placed :
        (w : Vm S) × (insert_at pmm npage t i page perm s ≡ ok w)
        × Placed t i page (pte_create page (bit_or 1 perm)) s w
    unfolding insert_at place chosen old_page more new_entry
    insert_at-Placed = elim (Bool-cases (pte_v (s.mem t i))) [
      | inr v ↦ (
        set_entry t i new_entry more,
        ap
            (λ b. place (
              if b
              then (pte2page pmm npage (s.mem t i) >>= λ old. chosen (old == page))
              else ok more))
            v,
        record {
          off = set_entry_off law t i new_entry more;
          written = set_entry-mem law t i new_entry more;
          valid = valid;
          only_old = λ q n. refl;
          counts =
              subst (λ o. Counts page s (set_entry t i new_entry more) o)
                (sym (ap (λ b. if b then some (pte_ppn (s.mem t i)) else none) v)) once_more;
        },
      )
      | inl v ↦ elim (ℕ_discrete old_page page) [
        | yes z ↦
            let w = set_entry t i new_entry (page_ref_dec page more) in
            (
              w,
              began v (known v).0 ∙ ap (λ b. place (chosen b)) ((==_iff old_page page).1 z),
              record {
                off = set_entry_off law t i new_entry (page_ref_dec page more);
                written = set_entry-mem law t i new_entry (page_ref_dec page more);
                valid = valid;
                only_old = λ q n. refl;
                counts =
                    subst (λ o. Counts page s w o) (sym (named v))
                      (
                        λ a.
                            update_self more.ref page _
                            ∙ ap (λ n. (n + (2 ^ 32 - 1)) % 2 ^ 32) once_more
                            ∙ omega (arith, in_range),
                        λ n. absurd (n z),
                      );
              },
            )
        | no n ↦
            let (u, e, r) =
              page_remove_pte-Removed law t i more valid v (known v).0 (known v).1 (λ z.
                (known v).2 n (
                  omega (
                    arith,
                    z,
                    update_ne s.ref page ((s.ref page + 1) % 2 ^ 32) old_page (λ y. n (sym y)),
                  ))) in
            let w = set_entry t i new_entry u in
            (
              w,
              began v (known v).0
                  ∙ ap (λ b. place (chosen b)) (==_of_ne old_page page n)
                  ∙ ap place e,
              record {
                off = λ p k m. set_entry_off law t i new_entry u p k m ∙ r.off p k m;
                written = set_entry-mem law t i new_entry u;
                valid = r.valid;
                only_old = λ q m. r.others q (λ z. m (named v ∙ ap some z));
                counts =
                    subst (λ o. Counts page s w o) (sym (named v))
                      (
                        λ z. absurd (n z),
                        λ m. (
                          ap (λ f. f page) r.counted
                              ∙ update_ne more.ref old_page _ page m
                              ∙ once_more,
                          ap (λ f. f old_page) r.counted
                              ∙ update_self more.ref old_page _
                              ∙ ap (λ x. (x + (2 ^ 32 - 1)) % 2 ^ 32)
                                  (update_ne s.ref page _ old_page (λ z. n (sym z))),
                          r.released,
                        ),
                      );
              },
            )
      ]
    ]
