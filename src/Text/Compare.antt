-- ===== src/Text/Compare.antt =====
-- `strcmp`, `strncmp` and `memcmp` against the order of byte sequences.
use nku_os_lab.Base.{
  ℕ, zero, suc, ◌+◌, ◌<◌, ◌≡◌, ◌↔◌, refl, sym, ◌∙◌, ap, some, List, [], ◌∷◌, length, ◌==◌,
  if◌then◌else◌, arith, ==_refl, ==_of_ne, ==_iff, ℕ_discrete, dec_lt, subst, ap₂, ◌⊎◌, inl, inr,
  leb-eq-false, leb-eq-true,
}
use nku_os_lab.Base.Int.{ℤ, pos, negsuc, sub_ℕ}
use nku_os_lab.Text.{Bytes, strcmp, memcmp}
use nku_os_lab.Text.Chars.{IsString}

-- The difference at the first place where the sequences differ; the end counts as a zero byte.
pub compare_bytes : List ℕ → List ℕ → ℤ
compare_bytes [] [] = pos 0
compare_bytes [] (d ∷ ds) = sub_ℕ 0 d
compare_bytes (c ∷ cs) [] = sub_ℕ c 0
compare_bytes (c ∷ cs) (d ∷ ds) =
    let rest = compare_bytes cs ds in if c == d then rest else sub_ℕ c d

-- `strcmp` returns that difference.
strcmp-compare_bytes :
    (fuel s1 s2 : ℕ) (mem : Bytes) (cs ds : List ℕ)
    → length cs < fuel
    → IsString mem s1 cs
    → IsString mem s2 ds
    → strcmp fuel s1 s2 mem ≡ some (compare_bytes cs ds)
unfolding strcmp compare_bytes
strcmp-compare_bytes zero s1 s2 mem cs ds f h k = absurd (omega arith)
strcmp-compare_bytes (suc fuel) s1 s2 mem [] [] f h k = ground (arith, h, k)
strcmp-compare_bytes (suc fuel) s1 s2 mem [] (d ∷ ds) f h k = ground (arith, h, k.0)
strcmp-compare_bytes (suc fuel) s1 s2 mem (c ∷ cs) [] f h k = ground (arith, h.0, h.1, k)
strcmp-compare_bytes (suc fuel) s1 s2 mem (c ∷ cs) (d ∷ ds) f h k = ground (
  arith,
  h.0,
  h.1,
  k.0,
  strcmp-compare_bytes fuel (s1 + 1) (s2 + 1) mem cs ds (omega arith) h.2 k.2,
)

-- The lexicographic order.
abbrev pub Precedes : List ℕ → List ℕ → Type 0
Precedes [] [] = ⊥
Precedes [] (d ∷ ds) = Unit
Precedes (c ∷ cs) [] = ⊥
Precedes (c ∷ cs) (d ∷ ds) = (c < d) ⊎ ((c ≡ d) × Precedes cs ds)

abbrev pub IsNegative : ℤ → Type 0
IsNegative (pos n) = ⊥
IsNegative (negsuc n) = Unit

sub_ℕ-IsNegative : (a b : ℕ) → a < b → IsNegative (sub_ℕ a b)
sub_ℕ-IsNegative a b h = rw (leb-eq-false a b h) tt

IsNegative-lt : (a b : ℕ) → IsNegative (sub_ℕ a b) → a < b
IsNegative-lt a b h = elim (dec_lt a b) [
  | yes k ↦ k
  | no k ↦ absurd (rw (leb-eq-true b a (omega arith)) at h)
]

sub_ℕ-eq-zero : (a b : ℕ) → sub_ℕ a b ≡ pos 0 → a ≡ b
sub_ℕ-eq-zero a b h = ground arith

compare_bytes-eq-zero :
    (m : Bytes) (s t : ℕ) (cs ds : List ℕ)
    → IsString m s cs
    → IsString m t ds
    → compare_bytes cs ds ≡ pos 0
    → cs ≡ ds
unfolding compare_bytes
compare_bytes-eq-zero m s t [] [] h k e = refl
compare_bytes-eq-zero m s t [] (d ∷ ds) h k e = absurd (k.1 (sym (sub_ℕ-eq-zero 0 d e)))
compare_bytes-eq-zero m s t (c ∷ cs) [] h k e = absurd (h.1 (sub_ℕ-eq-zero c 0 e))
compare_bytes-eq-zero m s t (c ∷ cs) (d ∷ ds) h k e = elim (ℕ_discrete c d) [
  | yes q ↦
      ap₂ (λ x xs. x ∷ xs) q
        (compare_bytes-eq-zero m (s + 1) (t + 1) cs ds h.2 k.2 (rw ((==_iff c d).1 q) at e))
  | no q ↦ absurd (q (sub_ℕ-eq-zero c d (rw (==_of_ne c d q) at e)))
]

compare_bytes_refl : (cs : List ℕ) → compare_bytes cs cs ≡ pos 0
unfolding compare_bytes
compare_bytes_refl [] = refl
compare_bytes_refl (c ∷ cs) = rw (==_refl c) (compare_bytes_refl cs)

compare_bytes-Precedes :
    (m : Bytes) (s t : ℕ) (cs ds : List ℕ)
    → IsString m s cs
    → IsString m t ds
    → IsNegative (compare_bytes cs ds) ↔ Precedes cs ds
unfolding compare_bytes
compare_bytes-Precedes m s t [] [] h k = (λ e. e, λ e. e)
compare_bytes-Precedes m s t [] (d ∷ ds) h k =
    (λ e. tt, λ e. sub_ℕ-IsNegative 0 d (omega (arith, k.1)))
compare_bytes-Precedes m s t (c ∷ cs) [] h k =
    (λ e. omega (arith, IsNegative-lt c 0 e), λ e. absurd e)
compare_bytes-Precedes m s t (c ∷ cs) (d ∷ ds) h k = elim (ℕ_discrete c d) [
  | yes q ↦
      let ih = compare_bytes-Precedes m (s + 1) (t + 1) cs ds h.2 k.2 in
      rw ((==_iff c d).1 q)
        (λ e. inr (q, ih.0 e), elim [ inl l ↦ absurd (omega arith) | inr p ↦ ih.1 p.1 ])
  | no q ↦ rw (==_of_ne c d q) (
    λ e. inl (IsNegative-lt c d e),
    elim [ inl l ↦ sub_ℕ-IsNegative c d l | inr p ↦ absurd (q p.0) ],
  )
]

-- `strcmp` returns zero exactly on equal strings, and a negative number exactly where the first
-- comes before the second in the lexicographic order of their bytes.
pub strcmp_order :
    (fuel s1 s2 : ℕ) (mem : Bytes) (cs ds : List ℕ)
    → length cs < fuel
    → IsString mem s1 cs
    → IsString mem s2 ds
    → (z : ℤ) × (strcmp fuel s1 s2 mem ≡ some z)
      × ((z ≡ pos 0) ↔ (cs ≡ ds))
      × (IsNegative z ↔ Precedes cs ds)
strcmp_order fuel s1 s2 mem cs ds f h k = (
  compare_bytes cs ds,
  strcmp-compare_bytes fuel s1 s2 mem cs ds f h k,
  (
    compare_bytes-eq-zero mem s1 s2 cs ds h k,
    λ e. subst (λ l. compare_bytes cs l ≡ pos 0) e (compare_bytes_refl cs),
  ),
  compare_bytes-Precedes mem s1 s2 cs ds h k,
)

-- Where the first bytes agree, the rest decides.
shift-first :
    (n s1 s2 : ℕ) (mem : Bytes)
    → mem s1 ≡ mem s2
    → ((i : ℕ) → i < n → mem (s1 + 1 + i) ≡ mem (s2 + 1 + i))
      ↔ ((i : ℕ) → i < suc n → mem (s1 + i) ≡ mem (s2 + i))
shift-first n s1 s2 mem q =
    (forth, λ h i l. ap mem (omega arith) ∙ h (suc i) (omega arith) ∙ ap mem (omega arith))
  where
    forth :
        ((i : ℕ) → i < n → mem (s1 + 1 + i) ≡ mem (s2 + 1 + i))
        → (i : ℕ) → i < suc n
        → mem (s1 + i) ≡ mem (s2 + i)
    forth h zero l = ap mem (omega arith) ∙ q ∙ ap mem (omega arith)
    forth h (suc i) l = ap mem (omega arith) ∙ h i (omega arith) ∙ ap mem (omega arith)

-- `memcmp` returns zero exactly where the two blocks hold the same bytes.
pub memcmp-eq-zero :
    (n s1 s2 : ℕ) (mem : Bytes)
    → (memcmp s1 s2 n mem ≡ pos 0) ↔ ((i : ℕ) → i < n → mem (s1 + i) ≡ mem (s2 + i))
unfolding memcmp
memcmp-eq-zero zero s1 s2 mem = (λ e i l. elim l [ ], λ h. refl)
memcmp-eq-zero (suc n) s1 s2 mem = elim (ℕ_discrete (mem s1) (mem s2)) [
  | yes q ↦
      let ih = memcmp-eq-zero n (s1 + 1) (s2 + 1) mem in
      let sh = shift-first n s1 s2 mem q in
      rw ((==_iff (mem s1) (mem s2)).1 q) (λ e. sh.0 (ih.0 e), λ h. ih.1 (sh.1 h))
  | no q ↦ rw (==_of_ne (mem s1) (mem s2) q) (
    λ e. absurd (q (sub_ℕ-eq-zero (mem s1) (mem s2) e)),
    λ h. absurd (q (ap mem (omega arith) ∙ h 0 (omega arith) ∙ ap mem (omega arith))),
  )
]
