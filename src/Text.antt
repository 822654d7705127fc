-- ===== src/Text.antt =====
-- Lab8/code/libs/string.c: strings that end in a zero byte and blocks of memory. The memory is a
-- function from addresses to bytes; `char` is unsigned on the target. A loop that runs to a zero
-- byte takes fuel, and returns `none` when it runs out.
pub mod Chars
pub mod Blocks
pub mod Copy
pub mod Compare
mod Tests
use nku_os_lab.Base.{
  ℕ, zero, suc, ◌+◌, ◌-◌, Bool, true, false, ◌&&◌, not, Option, none, some, update, ltb, ◌==◌,
  if◌then◌else◌,
}
use nku_os_lab.Base.Int.{ℤ, pos, sub_ℕ}

abbrev pub Bytes : Type 0
Bytes = ℕ → ℕ

-- `cnt` is the count so far.
unfoldable pub strlen_from : ℕ → ℕ → ℕ → Bytes → Option ℕ
strlen_from zero s cnt mem = none
strlen_from (suc fuel) s cnt mem =
    let rest = strlen_from fuel (s + 1) (cnt + 1) mem in if not (mem s == 0) then rest else some cnt

unfoldable pub strlen : ℕ → ℕ → Bytes → Option ℕ
unfolding strlen_from
strlen fuel s mem = strlen_from fuel s 0 mem

-- The rounds that are left of `cnt < len`, and the count.
unfoldable pub strnlen_from : ℕ → ℕ → ℕ → Bytes → ℕ
strnlen_from zero s cnt mem = cnt
strnlen_from (suc left) s cnt mem =
    let rest = strnlen_from left (s + 1) (cnt + 1) mem in if not (mem s == 0) then rest else cnt

unfoldable pub strnlen : ℕ → ℕ → Bytes → ℕ
unfolding strnlen_from
strnlen s len mem = strnlen_from len s 0 mem

-- Every round writes, the last one the zero byte.
unfoldable pub strcpy : ℕ → ℕ → ℕ → Bytes → Option Bytes
strcpy zero dst src mem = none
strcpy (suc fuel) dst src mem =
    let written = update mem dst (mem src) in
    let rest = strcpy fuel (dst + 1) (src + 1) written in
    if not (mem src == 0) then rest else some written

-- `src` stays on the zero byte, so the rest is filled with zeros.
unfoldable pub strncpy : ℕ → ℕ → ℕ → Bytes → Bytes
strncpy dst src zero mem = mem
strncpy dst src (suc len) mem =
    strncpy (dst + 1) (if not (mem src == 0) then src + 1 else src) len (update mem dst (mem src))

unfoldable pub strcat : ℕ → ℕ → ℕ → Bytes → Option Bytes
unfolding strlen strcpy
strcat fuel dst src mem = elim (strlen fuel dst mem) [
  | none ↦ none
  | some n ↦ strcpy fuel (dst + n) src mem
]

unfoldable pub strcmp : ℕ → ℕ → ℕ → Bytes → Option ℤ
strcmp zero s1 s2 mem = none
strcmp (suc fuel) s1 s2 mem =
    let rest = strcmp fuel (s1 + 1) (s2 + 1) mem in
    if not (mem s1 == 0) && (mem s1 == mem s2) then rest else some (sub_ℕ (mem s1) (mem s2))

unfoldable pub strncmp : ℕ → ℕ → ℕ → Bytes → ℤ
strncmp s1 s2 zero mem = pos 0
strncmp s1 s2 (suc n) mem =
    let rest = strncmp (s1 + 1) (s2 + 1) n mem in
    if not (mem s1 == 0) && (mem s1 == mem s2) then rest else sub_ℕ (mem s1) (mem s2)

-- `some none` is NULL.
unfoldable pub strchr : ℕ → ℕ → ℕ → Bytes → Option (Option ℕ)
strchr zero s c mem = none
strchr (suc fuel) s c mem =
    let rest = strchr fuel (s + 1) c mem in
    if not (mem s == 0) then (if mem s == c then some (some s) else rest) else some none

unfoldable pub strfind : ℕ → ℕ → ℕ → Bytes → Option ℕ
strfind zero s c mem = none
strfind (suc fuel) s c mem =
    let rest = strfind fuel (s + 1) c mem in
    if not (mem s == 0) then (if mem s == c then some s else rest) else some s

unfoldable pub memset : ℕ → ℕ → ℕ → Bytes → Bytes
memset s c zero mem = mem
memset s c (suc n) mem = memset (s + 1) c n (update mem s c)

-- The forward loop of `memmove` and of `memcpy`.
unfoldable pub copy_up : ℕ → ℕ → ℕ → Bytes → Bytes
copy_up d s zero mem = mem
copy_up d s (suc n) mem = copy_up (d + 1) (s + 1) n (update mem d (mem s))

-- The backward loop, from the ends of the two blocks.
unfoldable pub copy_down : ℕ → ℕ → ℕ → Bytes → Bytes
copy_down d s zero mem = mem
copy_down d s (suc n) mem = copy_down (d - 1) (s - 1) n (update mem (d - 1) (mem (s - 1)))

unfoldable pub memmove : ℕ → ℕ → ℕ → Bytes → Bytes
unfolding copy_up copy_down
memmove dst src n mem =
    if ltb src dst && ltb dst (src + n)
    then copy_down (dst + n) (src + n) n mem
    else copy_up dst src n mem

unfoldable pub memcpy : ℕ → ℕ → ℕ → Bytes → Bytes
unfolding copy_up
memcpy dst src n mem = copy_up dst src n mem

unfoldable pub memcmp : ℕ → ℕ → ℕ → Bytes → ℤ
memcmp s1 s2 zero mem = pos 0
memcmp s1 s2 (suc n) mem =
    let rest = memcmp (s1 + 1) (s2 + 1) n mem in
    if not (mem s1 == mem s2) then sub_ℕ (mem s1) (mem s2) else rest
