-- ===== src/Paging/Release.antt =====
-- `page_remove_pte`: the entry is cleared, and the page loses a reference.
use nku_os_lab.Base.{
  ==_iff, ℕ, ◌+◌, ◌-◌, ◌%◌, ◌^◌, ◌<◌, ◌≡◌, ◌≢◌, refl, sym, ◌∙◌, ap, subst, inl, inr, true, false,
  ltb, lt→ltb, ◌==◌, if◌then◌else◌, Bool-cases, ℕ_discrete, update, update_self, update_ne,
}
use nku_os_lab.Base.Outcome.{Outcome, ok, ◌>>=◌, ◌>>◌, assert}
use nku_os_lab.Paging.{
  PmmManager, Vm, pte_v, pte_ppn, set_entry, page_ref_dec, page_at, pte2page, free_page,
  page_remove_pte,
}
use nku_os_lab.Paging.Tree.{Lawful}

module _ {S : Type 0} {pmm : PmmManager S} {npage : ℕ} (law : Lawful pmm npage) where
  -- The entry `i` of `t` was cleared, and the page `old` that it named lost a reference; without any
  -- left it is free.
  pub record Removed (t i old : ℕ) (s u : Vm S) : Type 0 where
    pub off : (p k : ℕ) → ((p ≡ t) × (k ≡ i) → ⊥) → u.mem p k ≡ s.mem p k
    pub cleared : u.mem t i ≡ 0
    pub counted : u.ref ≡ update s.ref old ((s.ref old + (2 ^ 32 - 1)) % 2 ^ 32)
    pub valid : law.IsValid u.pool
    pub released : law.is_free old u.pool ≡ (u.ref old == 0)
    pub others : (q : ℕ) → old ≢ q → law.is_free q u.pool ≡ law.is_free q s.pool

  pub set_entry-mem : (t i e : ℕ) (s : Vm S) → (set_entry t i e s).mem t i ≡ e
  set_entry-mem t i e s =
      ap (λ (f : ℕ → ℕ). f i) (update_self s.mem t _) ∙ update_self (s.mem t) i e

  pub set_entry_off :
      (t i e : ℕ) (s : Vm S) (p k : ℕ)
      → ((p ≡ t) × (k ≡ i) → ⊥)
      → (set_entry t i e s).mem p k ≡ s.mem p k
  set_entry_off t i e s p k n = elim (ℕ_discrete t p) [
    | no d ↦ ap (λ (f : ℕ → ℕ). f k) (update_ne s.mem t _ p d)
    | yes z ↦
        subst (λ q. (set_entry t i e s).mem q k ≡ s.mem q k) z
          (ap (λ (f : ℕ → ℕ). f k) (update_self s.mem t _)
            ∙ update_ne (s.mem t) i e k (λ y. n (sym z, sym y)))
  ]

  pub pte2page_lem :
      (e : ℕ) → pte_v e ≡ true → pte_ppn e < npage → pte2page pmm npage e ≡ ok (pte_ppn e)
  unfolding pte2page page_at
  pte2page_lem e v l =
      ap (λ b. assert b >> (assert (ltb (pte_ppn e) npage) >> ok (pte_ppn e))) v
      ∙ ap (λ b. assert b >> ok (pte_ppn e)) (lt→ltb (pte_ppn e) npage l)

  pub page_remove_pte-Removed :
      (t i : ℕ) (s : Vm S)
      → law.IsValid s.pool
      → pte_v (s.mem t i) ≡ true
      → pte_ppn (s.mem t i) < npage
      → law.is_free (pte_ppn (s.mem t i)) s.pool ≡ false
      → ((s.ref (pte_ppn (s.mem t i)) + (2 ^ 32 - 1)) % 2 ^ 32 ≡ 0
          → law.CanFree (pte_ppn (s.mem t i)) s.pool)
      → (u : Vm S) × (page_remove_pte pmm npage t i s ≡ ok u)
        × Removed t i (pte_ppn (s.mem t i)) s u
  unfolding page_remove_pte free_page
  page_remove_pte-Removed t i s valid v below taken can = elim (Bool-cases (left == 0)) [
    | inr z ↦ (
      set_entry t i 0 (page_ref_dec old s),
      began
          ∙ ap
              (λ b. finish (
                if b
                then free_page pmm npage old (page_ref_dec old s)
                else ok (page_ref_dec old s)))
              (ap (λ n. n == 0) at_old ∙ z),
      record {
        off = set_entry_off t i 0 (page_ref_dec old s);
        cleared = set_entry-mem t i 0 (page_ref_dec old s);
        counted = refl;
        valid = valid;
        released = taken ∙ sym (ap (λ n. n == 0) at_old ∙ z);
        others = λ q n. refl;
      },
    )
    | inl z ↦
        let (pool, e, valid', free, rest) =
          law.free_law old s.pool valid below taken (can ((==_iff left 0).0 z)) in
        let freed = record (page_ref_dec old s) { pool = pool } in
        (
          set_entry t i 0 freed,
          began
              ∙ ap
                  (λ b. finish (
                    if b
                    then free_page pmm npage old (page_ref_dec old s)
                    else ok (page_ref_dec old s)))
                  (ap (λ n. n == 0) at_old ∙ z)
              ∙ ap
                  (λ (o : Outcome S).
                    finish (o >>= λ pool. ok (record (page_ref_dec old s) { pool = pool })))
                  e,
          record {
            off = set_entry_off t i 0 freed;
            cleared = set_entry-mem t i 0 freed;
            counted = refl;
            valid = valid';
            released = free ∙ sym (ap (λ n. n == 0) at_old ∙ z);
            others = rest;
          },
        )
  ]
    where
      old : ℕ
      old = pte_ppn (s.mem t i)

      left : ℕ
      left = (s.ref old + (2 ^ 32 - 1)) % 2 ^ 32

      at_old : update s.ref old left old ≡ left
      at_old = update_self s.ref old left

      finish : Outcome (Vm S) → Outcome (Vm S)
      finish o = o >>= λ u. ok (set_entry t i 0 u)

      after : ℕ → Outcome (Vm S)
      after page =
          let t' = page_ref_dec page s in
          finish (if t'.ref page == 0 then free_page pmm npage page t' else ok t')

      began : page_remove_pte pmm npage t i s ≡ after old
      began =
          ap (λ b. if b then (pte2page pmm npage (s.mem t i) >>= after) else ok s) v
          ∙ ap (λ (o : Outcome ℕ). o >>= after) (pte2page_lem (s.mem t i) v below)
