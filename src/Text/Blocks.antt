-- ===== src/Text/Blocks.antt =====
-- `memmove`, `memcpy` and `memset`: which bytes they write, and what stands there afterwards.
use nku_os_lab.Base.{
  ℕ, zero, suc, ◌+◌, ◌-◌, ◌≤◌, ◌<◌, ◌≡◌, refl, ◌⊎◌, inl, inr, ◌∙◌, ap, ap₂, sym, subst, update,
  update_self, update_ne, arith, dec_lt, ltb-eq-false, lt→ltb,
}
use nku_os_lab.Text.{Bytes, memset, copy_up, copy_down, memmove, memcpy}

-- `after` holds at `dst` the `n` bytes that `before` holds at `src`, and is `before` elsewhere.
pub record Copied (before after : Bytes) (dst src n : ℕ) : Type 0 where
  pub inside : (i : ℕ) → i < n → after (dst + i) ≡ before (src + i)
  pub outside : (a : ℕ) → (a < dst) ⊎ (dst + n ≤ a) → after a ≡ before a

copy_up-outside :
    (d s n : ℕ) (mem : Bytes) (a : ℕ) → (a < d) ⊎ (d + n ≤ a) → copy_up d s n mem a ≡ mem a
unfolding copy_up
copy_up-outside d s zero mem a h = refl
copy_up-outside d s (suc n) mem a h =
    copy_up-outside (d + 1) (s + 1) n (update mem d (mem s)) a (further h)
    ∙ update_ne mem d (mem s) a (λ e. omega arith)
  where
    further : (a < d) ⊎ (d + suc n ≤ a) → (a < d + 1) ⊎ (d + 1 + n ≤ a)
    further (inl k) = inl (omega arith)
    further (inr k) = inr (omega arith)

copy_up-inside :
    (d s n : ℕ) (mem : Bytes) (i : ℕ)
    → (d ≤ s) ⊎ (s + n ≤ d)
    → i < n
    → copy_up d s n mem (d + i) ≡ mem (s + i)
unfolding copy_up
copy_up-inside d s zero mem i h l = elim l [ ]
copy_up-inside d s (suc n) mem zero h l =
    subst (λ k. copy_up (d + 1) (s + 1) n (update mem d (mem s)) k ≡ mem (s + 0)) {x = d}
      (omega arith)
      (copy_up-outside (d + 1) (s + 1) n (update mem d (mem s)) d (inl (omega arith))
        ∙ update_self mem d (mem s)
        ∙ ap mem (omega arith))
copy_up-inside d s (suc n) mem (suc i) h l =
    ap (copy_up (d + 1) (s + 1) n (update mem d (mem s))) (omega arith)
    ∙ copy_up-inside (d + 1) (s + 1) n (update mem d (mem s)) i (closer h) (omega arith)
    ∙ update_ne mem d (mem s) (s + 1 + i) (λ e. omega arith)
    ∙ ap mem (omega arith)
  where
    closer : (d ≤ s) ⊎ (s + suc n ≤ d) → (d + 1 ≤ s + 1) ⊎ (s + 1 + n ≤ d + 1)
    closer (inl k) = inl (omega arith)
    closer (inr k) = inr (omega arith)

copy_down-suc :
    (d s n : ℕ) (mem : Bytes)
    → copy_down (d + suc n) (s + suc n) (suc n) mem
      ≡ copy_down (d + n) (s + n) n (update mem (d + n) (mem (s + n)))
unfolding copy_down
copy_down-suc d s n mem =
    let e : d + suc n - 1 ≡ d + n = omega arith in
    let f : s + suc n - 1 ≡ s + n = omega arith in
    ap₂ (λ x y. copy_down x y n (update mem x (mem y))) e f

-- One more byte at the upper end, copied first.
Copied-suc :
    (mem after : Bytes) (d s n : ℕ)
    → s ≤ d
    → Copied (update mem (d + n) (mem (s + n))) after d s n
    → Copied mem after d s (suc n)
Copied-suc mem after d s n h c = record {
  inside = λ i l. elim (dec_lt i n) [
    | yes k ↦ c.inside i k ∙ update_ne mem (d + n) (mem (s + n)) (s + i) (λ e. omega arith)
    | no k ↦
        subst (λ j. after (d + j) ≡ mem (s + j)) {x = n} (omega arith)
          (c.outside (d + n) (inr (omega arith)) ∙ update_self mem (d + n) (mem (s + n)))
  ];
  outside = λ a o.
      c.outside a (elim o [ inl k ↦ inl k | inr k ↦ inr (omega arith) ])
      ∙ update_ne mem (d + n) (mem (s + n)) a (λ e. omega arith);
}

-- The backward loop is started `n` behind the two blocks.
copy_down-Copied :
    (d s n : ℕ) (mem : Bytes) → s ≤ d → Copied mem (copy_down (d + n) (s + n) n mem) d s n
unfolding copy_down
copy_down-Copied d s zero mem h = record { inside = λ i l. elim l [ ]; outside = λ a o. refl }
copy_down-Copied d s (suc n) mem h =
    Copied-suc mem (copy_down (d + suc n) (s + suc n) (suc n) mem) d s n h (
      subst (λ m. Copied (update mem (d + n) (mem (s + n))) m d s n) (sym (copy_down-suc d s n mem))
        (copy_down-Copied d s n (update mem (d + n) (mem (s + n))) h))

copy_up-Copied :
    (d s n : ℕ) (mem : Bytes) → (d ≤ s) ⊎ (s + n ≤ d) → Copied mem (copy_up d s n mem) d s n
copy_up-Copied d s n mem h = record {
  inside = λ i l. copy_up-inside d s n mem i h l;
  outside = λ a o. copy_up-outside d s n mem a o;
}

-- `memmove` copies the block as it was before the call, however the two blocks overlap, and writes
-- nothing else.
pub memmove-Copied : (dst src n : ℕ) (mem : Bytes) → Copied mem (memmove dst src n mem) dst src n
unfolding memmove
memmove-Copied dst src n mem = elim (dec_lt src dst) [
  | yes a ↦ elim (dec_lt dst (src + n)) [
    | yes b ↦
        rw (lt→ltb src dst a, lt→ltb dst (src + n) b) (copy_down-Copied dst src n mem (omega arith))
    | no b ↦
        rw (lt→ltb src dst a, ltb-eq-false dst (src + n) (omega arith))
          (copy_up-Copied dst src n mem (inr (omega arith)))
  ]
  | no a ↦
      rw (ltb-eq-false src dst (omega arith)) (copy_up-Copied dst src n mem (inl (omega arith)))
]

-- `memcpy` does the same where the destination does not start inside the source block.
pub memcpy-Copied :
    (dst src n : ℕ) (mem : Bytes)
    → (dst ≤ src) ⊎ (src + n ≤ dst)
    → Copied mem (memcpy dst src n mem) dst src n
unfolding memcpy
memcpy-Copied dst src n mem h = copy_up-Copied dst src n mem h

-- `memset` fills exactly its block.
pub memset_fills :
    (s c n : ℕ) (mem : Bytes) (a : ℕ)
    → ((s ≤ a) × (a < s + n) → memset s c n mem a ≡ c)
      × ((a < s) ⊎ (s + n ≤ a) → memset s c n mem a ≡ mem a)
unfolding memset
memset_fills s c zero mem a = (λ h. absurd (omega arith), λ h. refl)
memset_fills s c (suc n) mem a =
    let ih = memset_fills (s + 1) c n (update mem s c) a in
    (
      λ h. elim (dec_lt s a) [
        | yes k ↦ ih.0 (omega arith)
        | no k ↦
            ih.1 (inl (omega arith))
            ∙ subst (λ x. update mem s c x ≡ c) {x = s} (omega arith) (update_self mem s c)
      ],
      λ h.
          ih.1 (elim h [ inl k ↦ inl (omega arith) | inr k ↦ inr (omega arith) ])
          ∙ update_ne mem s c a (λ e. omega arith),
    )

-- Two copies to adjoining blocks that the source does not meet are one.
pub Copied-append :
    (mem m1 m2 : Bytes) (d s p q : ℕ)
    → (d + (p + q) ≤ s) ⊎ (s + (p + q) ≤ d)
    → Copied mem m1 d s p
    → Copied m1 m2 (d + p) (s + p) q
    → Copied mem m2 d s (p + q)
Copied-append mem m1 m2 d s p q h c1 c2 = record {
  inside = λ i l. elim (dec_lt i p) [
    | yes k ↦ c2.outside (d + i) (inl (omega arith)) ∙ c1.inside i k
    | no k ↦
        subst (λ j. m2 (d + j) ≡ mem (s + j)) {x = p + (i - p)} (omega arith)
          (subst (λ a. m2 a ≡ mem (s + (p + (i - p)))) {x = d + p + (i - p)} (omega arith)
            (c2.inside (i - p) (omega arith)
              ∙ c1.outside (s + p + (i - p)) (away h (i - p) (omega arith))
              ∙ ap mem (omega arith)))
  ];
  outside = λ a o.
      c2.outside a (elim o [ inl l ↦ inl (omega arith) | inr l ↦ inr (omega arith) ])
      ∙ c1.outside a (elim o [ inl l ↦ inl l | inr l ↦ inr (omega arith) ]);
}
  where
    away :
        (d + (p + q) ≤ s) ⊎ (s + (p + q) ≤ d)
        → (k : ℕ) → k < q
        → (s + p + k < d) ⊎ (d + p ≤ s + p + k)
    away (inl l) k b = inr (omega arith)
    away (inr l) k b = inl (omega arith)
