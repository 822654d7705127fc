-- ===== src/Text/Copy.antt =====
-- `strcpy` and `strcat`: the string that they leave, and the bytes that they leave alone.
use nku_os_lab.Base.{
  ℕ, zero, suc, ◌+◌, ◌≤◌, ◌<◌, ◌≡◌, subst, ◌⊎◌, inl, inr, ◌∙◌, Option, some, List, [], ◌∷◌, ◌++◌,
  length, arith, update, update_self, update_ne,
}
use nku_os_lab.Text.{Bytes, strcpy, strcat}
use nku_os_lab.Text.Chars.{IsString, strlen-length}

-- A string stays where no byte of it changes.
IsString-frame :
    (m m' : Bytes) (s : ℕ) (cs : List ℕ)
    → ((a : ℕ) → s ≤ a → a ≤ s + length cs → m' a ≡ m a)
    → IsString m s cs
    → IsString m' s cs
IsString-frame m m' s [] same h = same s (omega arith) (omega arith) ∙ h
IsString-frame m m' s (c ∷ cs) same h = (
  same s (omega arith) (omega arith) ∙ h.0,
  h.1,
  IsString-frame m m' (s + 1) cs (λ a lo hi. same a (omega arith) (omega arith)) h.2,
)

-- What a copy of the string `cs` to `dst` leaves.
abbrev pub CopiesString : Option Bytes → Bytes → ℕ → List ℕ → Type 0
CopiesString out mem dst cs =
    (mem' : Bytes) × (out ≡ some mem')
    × IsString mem' dst cs
    × ((a : ℕ) → (a < dst) ⊎ (dst + length cs < a) → mem' a ≡ mem a)

-- `strcpy` copies the string and writes nothing else, if the destination does not start inside of
-- the source behind its first byte.
pub strcpy-CopiesString :
    (fuel dst src : ℕ) (mem : Bytes) (cs : List ℕ)
    → length cs < fuel
    → (dst ≤ src) ⊎ (src + length cs < dst)
    → IsString mem src cs
    → CopiesString (strcpy fuel dst src mem) mem dst cs
unfolding strcpy
strcpy-CopiesString zero dst src mem cs f o h = absurd (omega arith)
strcpy-CopiesString (suc fuel) dst src mem [] f o h = (
  update mem dst (mem src),
  ground (arith, h),
  update_self mem dst (mem src) ∙ h,
  λ a k. update_ne mem dst (mem src) a (λ e. omega arith),
)
strcpy-CopiesString (suc fuel) dst src mem (c ∷ cs) f o h =
    let step = update mem dst (mem src) in
    let (mem', e, str, out) =
      strcpy-CopiesString fuel (dst + 1) (src + 1) step cs (omega arith) (closer o) (
        IsString-frame mem step (src + 1) cs
          (λ a lo hi. update_ne mem dst (mem src) a (λ q. omega arith)) h.2) in
    (
      mem',
      ground (arith, h.0, h.1, e),
      (out dst (inl (omega arith)) ∙ update_self mem dst (mem src) ∙ h.0, h.1, str),
      λ a k.
          out a (elim k [ inl l ↦ inl (omega arith) | inr l ↦ inr (omega arith) ])
          ∙ update_ne mem dst (mem src) a (λ q. omega arith),
    )
  where
    closer :
        (dst ≤ src) ⊎ (src + length (c ∷ cs) < dst)
        → (dst + 1 ≤ src + 1) ⊎ (src + 1 + length cs < dst + 1)
    closer (inl k) = inl (omega arith)
    closer (inr k) = inr (omega arith)

-- A string whose zero byte is overwritten by a string is the concatenation of the two.
IsString-append :
    (m m' : Bytes) (s : ℕ) (bs cs : List ℕ)
    → IsString m s bs
    → ((a : ℕ) → a < s + length bs → m' a ≡ m a)
    → IsString m' (s + length bs) cs
    → IsString m' s (bs ++ cs)
IsString-append m m' s [] cs h same k = subst (λ a. IsString m' a cs) (omega arith) k
IsString-append m m' s (b ∷ bs) cs h same k = (
  same s (omega arith) ∙ h.0,
  h.1,
  IsString-append m m' (s + 1) bs cs h.2 (λ a l. same a (omega arith))
      (subst (λ a. IsString m' a cs) (omega arith) k),
)

-- `strcat` leaves the concatenation of the two strings at the first, where the two lie apart, and
-- writes only from the end of the first on.
pub strcat-append :
    (fuel dst src : ℕ) (mem : Bytes) (bs cs : List ℕ)
    → length bs < fuel
    → length cs < fuel
    → (dst + length bs ≤ src) ⊎ (src + length cs < dst)
    → IsString mem dst bs
    → IsString mem src cs
    → (mem' : Bytes) × (strcat fuel dst src mem ≡ some mem')
      × IsString mem' dst (bs ++ cs)
      × ((a : ℕ) → (a < dst + length bs) ⊎ (dst + length bs + length cs < a) → mem' a ≡ mem a)
unfolding strcat
strcat-append fuel dst src mem bs cs f g o hb hc =
    let (mem', e, str, out) =
      strcpy-CopiesString fuel (dst + length bs) src mem cs g
        (elim o [ inl k ↦ inl k | inr k ↦ inr (omega arith) ]) hc in
    (
      mem',
      rw (strlen-length fuel dst mem bs f hb, strcat) e,
      IsString-append mem mem' dst bs cs hb (λ a l. out a (inl l)) str,
      out,
    )
