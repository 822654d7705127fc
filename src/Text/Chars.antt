-- ===== src/Text/Chars.antt =====
-- Strings in memory, and the functions that only read one.
use nku_os_lab.Base.{
  ℕ, zero, suc, ◌+◌, ◌≤◌, ◌<◌, ◌≡◌, ◌≢◌, ◌∙◌, ap, subst, ℕ_discrete, ==_of_ne, none, some, List, [],
  ◌∷◌, length, ◌==◌, if◌then◌else◌, arith, min,
}
use nku_os_lab.Text.{Bytes, strlen_from, strlen, strnlen_from, strnlen, strchr, strfind}

-- The bytes `cs`, none of them zero, stand at `s`, and a zero byte behind them.
abbrev pub IsString : Bytes → ℕ → List ℕ → Type 0
IsString mem s [] = mem s ≡ 0
IsString mem s (c ∷ cs) = (mem s ≡ c) × (c ≢ 0) × IsString mem (s + 1) cs

strlen_from-length :
    (fuel s cnt : ℕ) (mem : Bytes) (cs : List ℕ)
    → length cs < fuel
    → IsString mem s cs
    → strlen_from fuel s cnt mem ≡ some (cnt + length cs)
unfolding strlen_from
strlen_from-length zero s cnt mem cs f h = absurd (omega arith)
strlen_from-length (suc fuel) s cnt mem [] f h = ground (arith, h)
strlen_from-length (suc fuel) s cnt mem (c ∷ cs) f h =
    ground (arith, h.0, h.1, strlen_from-length fuel (s + 1) (cnt + 1) mem cs (omega arith) h.2)

-- `strlen` returns the number of bytes before the zero byte.
pub strlen-length :
    (fuel s : ℕ) (mem : Bytes) (cs : List ℕ)
    → length cs < fuel
    → IsString mem s cs
    → strlen fuel s mem ≡ some (length cs)
unfolding strlen
strlen-length fuel s mem cs f h = strlen_from-length fuel s 0 mem cs f h ∙ ap some (omega arith)

strnlen_from-min :
    (len s cnt : ℕ) (mem : Bytes) (cs : List ℕ)
    → IsString mem s cs
    → strnlen_from len s cnt mem ≡ cnt + min len (length cs)
unfolding strnlen_from
strnlen_from-min zero s cnt mem cs h = omega arith
strnlen_from-min (suc len) s cnt mem [] h = ground (arith, h)
strnlen_from-min (suc len) s cnt mem (c ∷ cs) h =
    ground (arith, h.0, h.1, strnlen_from-min len (s + 1) (cnt + 1) mem cs h.2)

-- `strnlen` agrees with `strlen` up to its limit.
pub strnlen-min :
    (s len : ℕ) (mem : Bytes) (cs : List ℕ)
    → IsString mem s cs
    → strnlen s len mem ≡ min len (length cs)
unfolding strnlen
strnlen-min s len mem cs h = strnlen_from-min len s 0 mem cs h ∙ omega arith

strnlen_from_lem :
    (left s cnt : ℕ) (mem : Bytes)
    → (n : ℕ) × (strnlen_from left s cnt mem ≡ cnt + n)
      × (n ≤ left)
      × ((i : ℕ) → i < n → mem (s + i) ≢ 0)
      × (n < left → mem (s + n) ≡ 0)
unfolding strnlen_from
strnlen_from_lem zero s cnt mem = (0, omega arith, omega arith, λ i l. elim l [ ], λ l. elim l [ ])
strnlen_from_lem (suc left) s cnt mem = elim (ℕ_discrete (mem s) 0) [
  | yes e ↦ (
    0,
    rw e (omega arith),
    omega arith,
    λ i l. elim l [ ],
    λ l. subst (λ a. mem a ≡ 0) {x = s} (omega arith) e,
  )
  | no f ↦
      let (n, q, l, nz, z) = strnlen_from_lem left (s + 1) (cnt + 1) mem in
      (
        suc n,
        rw (==_of_ne (mem s) 0 f) (omega (arith, q)),
        omega (arith, l),
        λ i k. further f nz i k,
        λ k. subst (λ a. mem a ≡ 0) {x = s + 1 + n} (omega arith) (z (omega (arith, k))),
      )
]
  where
    further :
        {n : ℕ}
        → mem s ≢ 0
        → ((i : ℕ) → i < n → mem (s + 1 + i) ≢ 0)
        → (i : ℕ) → i < suc n
        → mem (s + i) ≢ 0
    further f nz zero k = subst (λ a. mem a ≢ 0) {x = s} (omega arith) f
    further f nz (suc i) k =
        subst (λ a. mem a ≢ 0) {x = s + 1 + i} (omega arith) (nz i (omega (arith, k)))

-- `strnlen` counts the bytes before the first null byte, and `len` of them at most.
pub strnlen_lem :
    (s len : ℕ) (mem : Bytes)
    → (strnlen s len mem ≤ len)
      × ((i : ℕ) → i < strnlen s len mem → mem (s + i) ≢ 0)
      × (strnlen s len mem < len → mem (s + strnlen s len mem) ≡ 0)
unfolding strnlen
strnlen_lem s len mem =
    let (n, q, l, nz, z) = strnlen_from_lem len s 0 mem in
    let e : n ≡ strnlen_from len s 0 mem = omega (arith, q) in
    subst (λ m. (m ≤ len) × ((i : ℕ) → i < m → mem (s + i) ≢ 0) × (m < len → mem (s + m) ≡ 0)) e
      (l, nz, z)

-- The place of the first `c` among the bytes, or the number of bytes.
abbrev pub index_of : ℕ → List ℕ → ℕ
index_of c [] = 0
index_of c (b ∷ bs) = if b == c then 0 else suc (index_of c bs)

-- `strfind` returns the address of the first byte `c`, or of the zero byte; `strchr` returns the
-- same address where there is such a byte, and NULL where there is none.
pub strfind-index_of :
    (fuel s c : ℕ) (mem : Bytes) (cs : List ℕ)
    → length cs < fuel
    → IsString mem s cs
    → (strfind fuel s c mem ≡ some (s + index_of c cs))
      × (strchr fuel s c mem
          ≡ some (if index_of c cs == length cs then none else some (s + index_of c cs)))
unfolding strfind strchr
strfind-index_of zero s c mem cs f h = absurd (omega arith)
strfind-index_of (suc fuel) s c mem [] f h = (ground (arith, h), ground (arith, h))
strfind-index_of (suc fuel) s c mem (b ∷ cs) f h =
    let ih = strfind-index_of fuel (s + 1) c mem cs (omega arith) h.2 in
    (ground (arith, h.0, h.1, ih.0), ground (arith, h.0, h.1, ih.1))
