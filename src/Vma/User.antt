-- ===== src/Vma/User.antt =====
-- Lab8/code/kern/mm/vmm.c: copies between a process and the kernel, on a memory of bytes.
use nku_os_lab.Base.{
  ℕ, zero, suc, ◌+◌, ◌-◌, ◌^◌, ◌≤◌, ◌<◌, ◌≡◌, ◌≢◌, refl, sym, ◌∙◌, subst, ◌⊎◌, inl, inr, Bool, true,
  false, Option, some, ltb, ◌==◌, if◌then◌else◌, arith, dec_lt, lt→ltb, ltb-eq-false, ==_iff,
  ==_of_ne,
}
use nku_os_lab.Base.Outcome.{Outcome, ok, out_of_fuel, ◌>>=◌}
use nku_os_lab.Text.{Bytes, memcpy, strnlen}
use nku_os_lab.Text.Chars.{strnlen_lem}
use nku_os_lab.Text.Blocks.{Copied, Copied-append, memcpy-Copied}
use nku_os_lab.Vma.{Mm, page_size, round_down, add64, user_mem_check}
use nku_os_lab.Vma.Sorted.{IsMm, Searched}
use nku_os_lab.Vma.Check.{user_mem_check-Checks}

unfoldable pub copy_from_user :
    Option Mm → ℕ → ℕ → ℕ → Bool → Bytes → Outcome (Bool × (Option Mm × Bytes))
unfolding user_mem_check
copy_from_user mm dst src len writable mem = user_mem_check mm src len writable >>= λ (b, mm').
    ok (b, (mm', if b then memcpy dst src len mem else mem))

unfoldable pub copy_to_user : Option Mm → ℕ → ℕ → ℕ → Bytes → Outcome (Bool × (Option Mm × Bytes))
unfolding user_mem_check
copy_to_user mm dst src len mem = user_mem_check mm dst len true >>= λ (b, mm').
    ok (b, (mm', if b then memcpy dst src len mem else mem))

-- The loop of `copy_string`; a round takes at least one byte.
unfoldable pub copy_parts :
    ℕ → ℕ → Option Mm → ℕ → ℕ → ℕ → Bytes → Outcome (Bool × (Option Mm × Bytes))
unfolding user_mem_check
copy_parts zero part mm dst src maxn mem = out_of_fuel
copy_parts (suc fuel) part mm dst src maxn mem =
    let n = if ltb maxn part then maxn else part in
    let alen = strnlen src n mem in
    user_mem_check mm src n false >>= λ (b, mm'). elim b [
      | false ↦ ok (false, (mm', mem))
      | true ↦ elim (ltb alen n) [
        | true ↦ ok (true, (mm', memcpy dst src (alen + 1) mem))
        | false ↦ elim (n == maxn) [
          | true ↦ ok (false, (mm', mem))
          | false ↦
              copy_parts fuel page_size mm' (dst + n) (src + n) (maxn - n) (memcpy dst src n mem)
        ]
      ]
    ]

unfoldable pub copy_string : Option Mm → ℕ → ℕ → ℕ → Bytes → Outcome (Bool × (Option Mm × Bytes))
unfolding copy_parts
copy_string mm dst src maxn mem =
    copy_parts (maxn + 2) (round_down (add64 src page_size) page_size - src) mm dst src maxn mem

-- The result of a copy of at most `maxn` bytes: it writes only there; and where it says yes, a
-- string that ends within them stands at `src`, and was copied with its null byte.
pub record CopiesUpTo (maxn dst src : ℕ) (before : Bytes) (b : Bool) (after : Bytes) : Type 0 where
  pub outside : (a : ℕ) → (a < dst) ⊎ (dst + maxn ≤ a) → after a ≡ before a
  pub string :
      b ≡ true
      → (k : ℕ) × (k < maxn)
        × ((i : ℕ) → i < k → before (src + i) ≢ 0)
        × (before (src + k) ≡ 0)
        × Copied before after dst src (k + 1)

unchanged : (maxn dst src : ℕ) (mem : Bytes) → CopiesUpTo maxn dst src mem false mem
unchanged maxn dst src mem = record { outside = λ a o. refl; string = λ e. cc }

-- The two blocks of `maxn` bytes do not meet.
abbrev pub Apart : ℕ → ℕ → ℕ → Type 0
Apart maxn dst src = (dst + maxn ≤ src) ⊎ (src + maxn ≤ dst)

Apart-below : (m n dst src : ℕ) → n ≤ m → Apart m dst src → Apart n dst src
Apart-below m n dst src l (inl o) = inl (omega arith)
Apart-below m n dst src l (inr o) = inr (omega arith)

Apart-forward : (dst src n : ℕ) → Apart n dst src → (dst ≤ src) ⊎ (src + n ≤ dst)
Apart-forward dst src n (inl o) = inl (omega arith)
Apart-forward dst src n (inr o) = inr o

Apart-shift : (n m dst src : ℕ) → Apart (n + m) dst src → Apart m (dst + n) (src + n)
Apart-shift n m dst src (inl o) = inl (omega arith)
Apart-shift n m dst src (inr o) = inr (omega arith)

-- The source of a copy that it does not meet stays.
source_stays :
    (n k dst src : ℕ) (mem mem' : Bytes) (a : ℕ)
    → Apart (n + k) dst src
    → Copied mem mem' dst src n
    → a < n + k
    → mem' (src + a) ≡ mem (src + a)
source_stays n k dst src mem mem' a (inl o) c l = c.outside (src + a) (inr (omega arith))
source_stays n k dst src mem mem' a (inr o) c l = c.outside (src + a) (inl (omega arith))

-- The string ends in the part.
last_part :
    (maxn dst src n : ℕ) (mem : Bytes)
    → n ≤ maxn
    → Apart maxn dst src
    → strnlen src n mem < n
    → CopiesUpTo maxn dst src mem true (memcpy dst src (strnlen src n mem + 1) mem)
last_part maxn dst src n mem l o k =
    let k' = strnlen src n mem in
    let (u, nz, z) = strnlen_lem src n mem in
    let c = memcpy-Copied dst src (k' + 1) mem (
      Apart-forward dst src (k' + 1) (Apart-below maxn (k' + 1) dst src (omega (arith, k, l)) o)) in
    record {
      outside =
          λ a x. c.outside a (elim x [ inl y ↦ inl y | inr y ↦ inr (omega (arith, k, l, y)) ]);
      string = λ e. (k', omega (arith, k, l), nz, z k, c);
    }

-- A part without a null byte, and what comes behind it.
next_part :
    (n m dst src : ℕ) (mem mem' : Bytes) (b : Bool)
    → Apart (n + m) dst src
    → ((i : ℕ) → i < n → mem (src + i) ≢ 0)
    → CopiesUpTo m (dst + n) (src + n) (memcpy dst src n mem) b mem'
    → CopiesUpTo (n + m) dst src mem b mem'
next_part n m dst src mem mem' b o nz r =
    let c =
      memcpy-Copied dst src n mem
        (Apart-forward dst src n (Apart-below (n + m) n dst src (omega arith) o)) in
    record {
      outside = λ a x.
          r.outside a (elim x [ inl y ↦ inl (omega arith) | inr y ↦ inr (omega arith) ])
          ∙ c.outside a (elim x [ inl y ↦ inl y | inr y ↦ inr (omega arith) ]);
      string = λ e.
          let (k, l, f, z, d) = r.string e in
          let stays : (i : ℕ) → i < m → memcpy dst src n mem (src + n + i) ≡ mem (src + n + i) =
            λ i j.
              subst (λ a. memcpy dst src n mem a ≡ mem a) {x = src + (n + i)} (omega arith)
                (source_stays n m dst src mem (memcpy dst src n mem) (n + i) o c (omega arith)) in
          (
            n + k,
            omega (arith, l),
            λ i j. elim (dec_lt i n) [
              | yes y ↦ nz i y
              | no y ↦
                  subst (λ a. mem a ≢ 0) {x = src + n + (i - n)} (omega arith)
                    (λ q. f (i - n) (omega arith) (stays (i - n) (omega (arith, l)) ∙ q))
            ],
            subst (λ a. mem a ≡ 0) {x = src + n + k} (omega arith) (sym (stays k l) ∙ z),
            subst (Copied mem mem' dst src) {x = n + (k + 1)} (omega arith) (
                Copied-append mem (memcpy dst src n mem) mem' dst src n (k + 1)
                  (Apart-below (n + m) (n + (k + 1)) dst src (omega (arith, l)) o) c d),
          );
    }

-- The outcome of a copy with the check of the addresses.
abbrev pub CopyOutcome : ℕ → ℕ → ℕ → Mm → Bytes → Outcome (Bool × (Option Mm × Bytes)) → Type 0
CopyOutcome maxn dst src mm mem out =
    (b : Bool) × (mm' : Mm) × (mem' : Bytes) × (out ≡ ok (b, (some mm', mem')))
    × Searched mm mm'
    × CopiesUpTo maxn dst src mem b mem'

Searched-IsMm : (s t u : Mm) → Searched s t → Searched t u → Searched s u
Searched-IsMm s t u a b = record {
  valid = b.valid;
  list = b.list ∙ a.list;
  key = b.key ∙ a.key;
  count = b.count ∙ a.count;
}

-- One round, by the part `n` that it looks at; `rest` is the rounds behind.
round :
    (n maxn dst src : ℕ) (mm : Mm) (mem : Bytes)
    (rest : Option Mm → Outcome (Bool × (Option Mm × Bytes)))
    → IsMm mm
    → n ≤ maxn
    → Apart maxn dst src
    → ((mm' : Mm)
        → IsMm mm'
        → n < maxn
        → CopyOutcome (maxn - n) (dst + n) (src + n) mm' (memcpy dst src n mem) (rest (some mm')))
    → CopyOutcome maxn dst src mm mem (
        user_mem_check (some mm) src n false >>= λ (b, mm'). elim b [
          | false ↦ ok (false, (mm', mem))
          | true ↦ elim (ltb (strnlen src n mem) n) [
            | true ↦ ok (true, (mm', memcpy dst src (strnlen src n mem + 1) mem))
            | false ↦ elim (n == maxn) [ true ↦ ok (false, (mm', mem)) | false ↦ rest mm' ]
          ]
        ])
round n maxn dst src mm mem rest h l o f =
    let (b, mm', q, s, _) = user_mem_check-Checks mm src n false h in rw q (go b mm' s)
  where
    Last : Bool → Mm → Outcome (Bool × (Option Mm × Bytes))
    Last b mm' = elim b [ true ↦ ok (false, (some mm', mem)) | false ↦ rest (some mm') ]

    Ends : Bool → Mm → Outcome (Bool × (Option Mm × Bytes))
    Ends b mm' = elim b [
      | true ↦ ok (true, (some mm', memcpy dst src (strnlen src n mem + 1) mem))
      | false ↦ Last (n == maxn) mm'
    ]

    Body : Bool → Mm → Outcome (Bool × (Option Mm × Bytes))
    Body b mm' = elim b [
      | false ↦ ok (false, (some mm', mem))
      | true ↦ Ends (ltb (strnlen src n mem) n) mm'
    ]

    open_end :
        (mm' : Mm)
        → Searched mm mm'
        → strnlen src n mem ≡ n
        → n < maxn
        → CopyOutcome maxn dst src mm mem (rest (some mm'))
    open_end mm' s e k =
        let (b, t, mem', q, r, c) = f mm' s.valid k in
        (
          b,
          t,
          mem',
          q,
          Searched-IsMm mm mm' t s r,
          subst (λ m. CopiesUpTo m dst src mem b mem') {x = n + (maxn - n)} (omega (arith, k))
              (next_part n (maxn - n) dst src mem mem' b
                (Apart-below maxn (n + (maxn - n)) dst src (omega (arith, k)) o)
                (λ i j. (strnlen_lem src n mem).1 i (omega (arith, e, j))) c),
        )

    go : (b : Bool) (mm' : Mm) → Searched mm mm' → CopyOutcome maxn dst src mm mem (Body b mm')
    go false mm' s = (false, mm', mem, refl, s, unchanged maxn dst src mem)
    go true mm' s = elim (dec_lt (strnlen src n mem) n) [
      | yes k ↦
          subst (λ t. CopyOutcome maxn dst src mm mem (Ends t mm'))
            (sym (lt→ltb (strnlen src n mem) n k))
            (
              true,
              mm',
              memcpy dst src (strnlen src n mem + 1) mem,
              refl,
              s,
              last_part maxn dst src n mem l o k,
            )
      | no k ↦
          subst (λ t. CopyOutcome maxn dst src mm mem (Ends t mm'))
            (sym (ltb-eq-false (strnlen src n mem) n (omega (arith, k))))
            (elim (dec_lt n maxn) [
              | no j ↦
                  subst (λ t. CopyOutcome maxn dst src mm mem (Last t mm'))
                    (sym ((==_iff n maxn).1 (omega (arith, l, j))))
                    (false, mm', mem, refl, s, unchanged maxn dst src mem)
              | yes j ↦
                  subst (λ t. CopyOutcome maxn dst src mm mem (Last t mm'))
                    (sym (==_of_ne n maxn (λ q. omega (arith, q, j))))
                    (open_end mm' s (omega (arith, k, (strnlen_lem src n mem).0)) j)
            ])
    ]

least : (maxn part : ℕ) → (if ltb maxn part then maxn else part) ≤ maxn
least maxn part = ground arith

shrinks :
    (fuel maxn part : ℕ)
    → 0 < part
    → maxn < suc fuel
    → (if ltb maxn part then maxn else part) < maxn
    → maxn - (if ltb maxn part then maxn else part) < fuel
shrinks fuel maxn part p l k = ground (arith, p, l, k)

whole :
    (maxn part : ℕ)
    → (if ltb maxn part then maxn else part) + (maxn - (if ltb maxn part then maxn else part))
      ≤ maxn
whole maxn part = ground arith

copy_parts-CopyOutcome :
    (fuel part maxn dst src : ℕ) (mm : Mm) (mem : Bytes)
    → IsMm mm
    → 0 < part
    → maxn < fuel
    → Apart maxn dst src
    → CopyOutcome maxn dst src mm mem (copy_parts fuel part (some mm) dst src maxn mem)
unfolding copy_parts
copy_parts-CopyOutcome zero part maxn dst src mm mem h p l o = absurd (omega (arith, l))
copy_parts-CopyOutcome (suc fuel) part maxn dst src mm mem h p l o =
    round (if ltb maxn part then maxn else part) maxn dst src mm mem
      (λ mm'.
        copy_parts fuel page_size mm' (dst + (if ltb maxn part then maxn else part))
          (src + (if ltb maxn part then maxn else part))
          (maxn - (if ltb maxn part then maxn else part))
          (memcpy dst src (if ltb maxn part then maxn else part) mem))
      h (least maxn part) o
      λ mm' i k.
        copy_parts-CopyOutcome fuel page_size (maxn - (if ltb maxn part then maxn else part))
          (dst + (if ltb maxn part then maxn else part))
          (src + (if ltb maxn part then maxn else part)) mm'
          (memcpy dst src (if ltb maxn part then maxn else part) mem) i (omega arith)
          (shrinks fuel maxn part p l k)
          (Apart-shift (if ltb maxn part then maxn else part)
            (maxn - (if ltb maxn part then maxn else part)) dst src
            (Apart-below maxn _ dst src (whole maxn part) o))

-- `copy_string` of a process with an address space returns, where the two blocks of `maxn` bytes do
-- not meet and the addresses do not reach the end of the 64 bits. It writes nothing outside the
-- block at `dst`; and where it says yes, a string of less than `maxn` bytes stands at `src` and was
-- copied with its null byte.
pub copy_string-CopyOutcome :
    (maxn dst src : ℕ) (mm : Mm) (mem : Bytes)
    → IsMm mm
    → src + page_size < 2 ^ 64
    → Apart maxn dst src
    → CopyOutcome maxn dst src mm mem (copy_string (some mm) dst src maxn mem)
unfolding copy_string
copy_string-CopyOutcome maxn dst src mm mem h l o =
    copy_parts-CopyOutcome (maxn + 2) (round_down (add64 src page_size) page_size - src) maxn dst
      src mm mem h (omega (arith, l)) (omega arith) o
