-- ===== src/Vma/Check.antt =====
-- `user_mem_check`: which ranges of addresses it lets a process use.
use nku_os_lab.Base.{
  ℕ, zero, suc, ◌+◌, ◌≤◌, ◌<◌, ◌≡◌, refl, sym, ◌∙◌, ap, subst, ◌↔◌, inl, inr, Bool, true, false,
  not, ◌&&◌, Option, none, some, List, ◌∷◌, [], ltb, if◌then◌else◌, length, arith, lt→ltb,
  ltb-eq-false, dec_lt, Bool-cases,
}
use nku_os_lab.Base.Outcome.{Outcome, ok, ◌>>=◌}
use nku_os_lab.Vma.{Vma, Mm, add64, user_access, find_vma, allows, check_range, user_mem_check}
use nku_os_lab.Vma.Sorted.{Member, IsMm, Covers, Finds, Searched, Covers-unique, find_vma-Finds}

-- Every address of the range lies in an area that allows the access there.
abbrev pub IsAllowed : Bool → ℕ → ℕ → List Vma → Type 0
IsAllowed write start end' vs =
    (a : ℕ)
    → start ≤ a
    → a < end'
    → (v : Vma) × Member v vs × Covers a v × (allows write a v ≡ true)

-- The areas that do not end before `start`.
left : ℕ → List Vma → ℕ
left start [] = 0
left start (v ∷ vs) = if ltb start v.vm_end then left start vs + 1 else left start vs

left_mono : (a b : ℕ) (vs : List Vma) → a ≤ b → left b vs ≤ left a vs
unfolding left
left_mono a b [] h = omega arith
left_mono a b (v ∷ vs) h = ground (arith, left_mono a b vs h)

left-lt :
    (start : ℕ) (v : Vma) (vs : List Vma)
    → Member v vs
    → Covers start v
    → left v.vm_end vs < left start vs
unfolding left
left-lt start v [] m c = elim m [ ]
left-lt start v (u ∷ us) (inl e) c =
    subst (λ w. left w.vm_end (u ∷ us) < left start (u ∷ us)) (sym e)
      (ground (arith, subst (Covers start) e c, left_mono start u.vm_end us))
left-lt start v (u ∷ us) (inr m) c = ground (arith, c.0, c.1, left-lt start v us m c)

left-length : (start : ℕ) (vs : List Vma) → left start vs ≤ length vs
unfolding left
left-length start [] = omega arith
left-length start (v ∷ vs) = ground (arith, left-length start vs)

-- An area allows an access at every later address of it, if at one.
allows-later :
    (write : Bool) (a b : ℕ) (v : Vma) → a ≤ b → allows write a v ≡ true → allows write b v ≡ true
allows-later true a b v l h = ground (arith, l, h)
allows-later false a b v l h = h

-- The outcome of the loop.
abbrev Checks : Bool → ℕ → ℕ → Mm → Outcome (Bool × Mm) → Type 0
Checks write start end' mm out =
    (b : Bool) × (mm' : Mm) × (out ≡ ok (b, mm'))
    × Searched mm mm'
    × ((b ≡ true) ↔ IsAllowed write start end' mm.mmap_list)

Searched-trans : (s t u : Mm) → Searched s t → Searched t u → Searched s u
Searched-trans s t u a b = record {
  valid = b.valid;
  list = b.list ∙ a.list;
  key = b.key ∙ a.key;
  count = b.count ∙ a.count;
}

Searched-self : (mm : Mm) → IsMm mm → Searched mm mm
Searched-self mm h = record { valid = h; list = refl; key = refl; count = refl }

module _ (write : Bool) (start end' : ℕ) (mm : Mm) (h : IsMm mm) (open' : start < end') where
  none-Checks :
      (mm' : Mm)
      → Searched mm mm'
      → Finds start mm.mmap_list none
      → Checks write start end' mm (ok (false, mm'))
  none-Checks mm' s f = (
    false,
    mm',
    refl,
    s,
    (λ e. cc, λ all. let (v, m, c, _) = all start (omega arith) open' in absurd (f v m c)),
  )

  refused-Checks :
      (mm' : Mm) (v : Vma)
      → Searched mm mm'
      → Member v mm.mmap_list
      → Covers start v
      → allows write start v ≡ false
      → Checks write start end' mm (ok (false, mm'))
  refused-Checks mm' v s m c e = (
    false,
    mm',
    refl,
    s,
    (
      λ q. cc,
      λ all.
          let (u, n, d, t) = all start (omega arith) open' in
          cc (e, t, Covers-unique start 0 u v mm.mmap_list h.sorted n m d c),
    ),
  )

  further-Checks :
      (mm' : Mm) (v : Vma) (out : Outcome (Bool × Mm))
      → Searched mm mm'
      → Member v mm.mmap_list
      → Covers start v
      → allows write start v ≡ true
      → Checks write v.vm_end end' mm' out
      → Checks write start end' mm out
  further-Checks mm' v out s m c e (b, t, q, r, i) =
      (b, t, q, Searched-trans mm mm' t s r, (to, from))
    where
      to : b ≡ true → IsAllowed write start end' mm.mmap_list
      to z a l k = elim (dec_lt a v.vm_end) [
        | yes y ↦ (v, m, (omega (arith, c.0, l), y), allows-later write start a v l e)
        | no n ↦ subst (IsAllowed write v.vm_end end') s.list (i.0 z) a (omega (arith, n)) k
      ]

      from : IsAllowed write start end' mm.mmap_list → b ≡ true
      from all = i.1 (
          subst (IsAllowed write v.vm_end end') (sym s.list)
            (λ a l k. all a (omega (arith, l, c.1)) k))

check_range-Checks :
    (fuel : ℕ) (write : Bool) (start end' : ℕ) (mm : Mm)
    → IsMm mm
    → left start mm.mmap_list < fuel
    → Checks write start end' mm (check_range fuel write start end' mm)
unfolding check_range
check_range-Checks zero write start end' mm h l = absurd (omega (arith, l))
check_range-Checks (suc fuel) write start end' mm h l = elim (dec_lt start end') [
  | no n ↦ rw (ltb-eq-false start end' (omega (arith, n))) (
    true,
    mm,
    refl,
    Searched-self mm h,
    (λ e a k j. absurd (omega (arith, n, k, j)), λ all. refl),
  )
  | yes y ↦
      let (f, s, _) = find_vma-Finds start mm h in
      rw (lt→ltb start end' y) (
        go y (find_vma start mm).0 (find_vma start mm).1 f s
          (λ v m'. check_range-Checks fuel write v.vm_end end' m'))
]
  where
    go :
        start < end'
        → (o : Option Vma) (mm' : Mm) → Finds start mm.mmap_list o
        → Searched mm mm'
        → ((v : Vma) (m' : Mm)
            → IsMm m'
            → left v.vm_end m'.mmap_list < fuel
            → Checks write v.vm_end end' m' (check_range fuel write v.vm_end end' m'))
        → Checks write start end' mm (elim o [
          | none ↦ ok (false, mm')
          | some vma ↦ elim (not (ltb start vma.vm_start) && allows write start vma) [
            | false ↦ ok (false, mm')
            | true ↦ check_range fuel write vma.vm_end end' mm'
          ]
        ])
    go y none mm' f s ih = none-Checks write start end' mm h y mm' s f
    go y (some v) mm' (m, c) s ih = elim (Bool-cases (allows write start v)) [
      | inr e ↦
          rw (ltb-eq-false start v.vm_start c.0, e)
            (refused-Checks write start end' mm h y mm' v s m c e)
      | inl e ↦
          rw (ltb-eq-false start v.vm_start c.0, e)
            (further-Checks write start end' mm h y mm' v (check_range fuel write v.vm_end end' mm')
              s m c e
              (ih v mm' s.valid (
                subst (λ vs. left v.vm_end vs < fuel) (sym s.list)
                  (omega (arith, l, left-lt start v mm.mmap_list m c)))))
    ]

-- `user_mem_check` of a process with an address space returns, and says yes exactly if the range is
-- one of user addresses and each of its bytes lies in an area that allows the access: with the flag
-- for it and, for a write to a stack, not in the first page of the area.
pub user_mem_check-Checks :
    (mm : Mm) (addr len : ℕ) (write : Bool)
    → IsMm mm
    → (b : Bool) × (mm' : Mm) × (user_mem_check (some mm) addr len write ≡ ok (b, some mm'))
      × Searched mm mm'
      × ((b ≡ true) ↔ (
          (user_access addr (add64 addr len) ≡ true)
          × IsAllowed write addr (add64 addr len) mm.mmap_list))
unfolding user_mem_check
user_mem_check-Checks mm addr len write h = elim (Bool-cases (user_access addr (add64 addr len))) [
  | inr e ↦ (false, mm, rw e refl, Searched-self mm h, (λ z. cc, λ (z, _). cc (e, z)))
  | inl e ↦
      let (b, mm', q, s, i) =
        check_range-Checks (length mm.mmap_list + 2) write addr (add64 addr len) mm h
          (omega (arith, left-length addr mm.mmap_list)) in
      (
        b,
        mm',
        rw e (ap (λ x. x >>= λ (b, mm'). ok (b, some mm')) q),
        s,
        (λ z. (e, i.0 z), λ (_, all). i.1 all),
      )
]
