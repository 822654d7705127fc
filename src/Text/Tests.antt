-- ===== src/Text/Tests.antt =====
-- The string functions at concrete strings, and their theorems there.
use nku_os_lab.Base.{ℕ, ◌+◌, ◌≤◌, ◌<◌, ◌≡◌, ◌↔◌, refl, ◌⊎◌, inr, some, List, [], ◌∷◌, arith, update}
use nku_os_lab.Base.Int.{ℤ, pos}
use nku_os_lab.Text.{Bytes, strlen, strncpy, strcmp, strncmp, memset, memmove, memcpy}
use nku_os_lab.Text.Chars.{IsString, strlen-length}
use nku_os_lab.Text.Blocks.{Copied, memcpy-Copied, memmove-Copied, memset_fills}
use nku_os_lab.Text.Compare.{Precedes, IsNegative, strcmp_order}

-- "ab" at 10 and "abc" at 20.
abbrev words : Bytes
words = update (update (update (update (update (λ _. 0) 10 97) 11 98) 20 97) 21 98) 22 99

ab-IsString : IsString words 10 (97 ∷ 98 ∷ [])
ab-IsString = (refl, omega arith, (refl, omega arith, refl))

abc-IsString : IsString words 20 (97 ∷ 98 ∷ 99 ∷ [])
abc-IsString = (refl, omega arith, (refl, omega arith, (refl, omega arith, refl)))

overlapping_move : memmove 11 10 3 words 12 ≡ 98
unfolding memmove
overlapping_move = refl

prefix_compares : strncmp 10 20 2 words ≡ pos 0
unfolding strncmp
prefix_compares = refl

padded_copy : strncpy 30 10 5 words 31 ≡ 98
unfolding strncpy
padded_copy = refl

strlen-length_example : strlen 9 20 words ≡ some 3
strlen-length_example = strlen-length 9 20 words (97 ∷ 98 ∷ 99 ∷ []) (omega arith) abc-IsString

memcpy-Copied_example : Copied words (memcpy 40 20 3 words) 40 20 3
memcpy-Copied_example = memcpy-Copied 40 20 3 words (inr (omega arith))

memmove-Copied_example : Copied words (memmove 21 20 3 words) 21 20 3
memmove-Copied_example = memmove-Copied 21 20 3 words

strcmp_order_example :
    (z : ℤ) × (strcmp 9 10 20 words ≡ some z)
    × ((z ≡ pos 0) ↔ (◌≡◌ {A = List ℕ} (97 ∷ 98 ∷ []) (97 ∷ 98 ∷ 99 ∷ [])))
    × (IsNegative z ↔ Precedes (97 ∷ 98 ∷ []) (97 ∷ 98 ∷ 99 ∷ []))
strcmp_order_example =
    strcmp_order 9 10 20 words (97 ∷ 98 ∷ []) (97 ∷ 98 ∷ 99 ∷ []) (omega arith) ab-IsString
      abc-IsString

memset_fills_example :
    ((10 ≤ 11) × (11 < 10 + 3) → memset 10 7 3 words 11 ≡ 7)
    × ((11 < 10) ⊎ (10 + 3 ≤ 11) → memset 10 7 3 words 11 ≡ words 11)
memset_fills_example = memset_fills 10 7 3 words 11
