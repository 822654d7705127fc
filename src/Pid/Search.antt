-- ===== src/Pid/Search.antt =====
-- `get_pid` ends and gives a number that no process has.
use nku_os_lab.Base.{
  ℕ, zero, suc, ◌+◌, ◌-◌, ◌*◌, ◌≤◌, ◌<◌, ◌≡◌, refl, ◌⊎◌, inl, inr, List, [], ◌∷◌, length, leb,
  if◌then◌else◌, arith, dec_lt, Bool-cases,
}
use nku_os_lab.Base.Outcome.{ok}
use nku_os_lab.Sched.RoundRobin.{occurs}
use nku_os_lab.Pid.{max_pid, Walk, ended, repeat_from, walk, walks, get_pid}
use nku_os_lab.Pid.Pass.{IsWindow, Walked, walk-Walked}

-- How far a search from `last` is from the free number `f`, by way of the end of the numbers.
distance : ℕ → ℕ → ℕ
distance last f = if leb last f then f - last else (max_pid - last) + f

-- The numbers that a search may give.
pub record IsFound (pids : List ℕ) (last next : ℕ) : Type 0 where
  pub positive : 0 < last
  pub ordered : last < next
  pub bounded : next ≤ max_pid
  pub window : IsWindow pids last next

-- A new walk starts nearer to the free number.
distance-repeat :
    (f last l m : ℕ)
    → 0 < f
    → f < max_pid
    → last < max_pid
    → last ≤ m
    → m < max_pid
    → (last ≤ f → m < f)
    → l ≡ (if leb max_pid (m + 1) then 1 else m + 1)
    → (distance l f < distance last f) × (0 < l) × (l < max_pid)
unfolding distance
distance-repeat f last l m fp fb b x y z e = elim (dec_lt f last) [
  | yes g ↦ ground (arith, g, e, x, y, b, fp, fb)
  | no g ↦ let h = z (omega (arith, g)) in ground (arith, g, h, e, x, y, b, fp, fb)
]

module _ (pids : List ℕ) (f : ℕ) (free : occurs f pids ≡ 0) (f_positive : 0 < f)
    (f_bounded : f < max_pid) where
  by_walk :
      (fuel last : ℕ) (w : Walk)
      → walk pids last max_pid ≡ w
      → distance last f < suc fuel
      → 0 < last
      → last < max_pid
      → ((l : ℕ)
          → distance l f < fuel
          → 0 < l
          → l < max_pid
          → (l' n : ℕ) × (walks fuel pids l ≡ ok (l', n)) × IsFound pids l' n)
      → Walked pids f last max_pid w
      → (l n : ℕ) × (walks (suc fuel) pids last ≡ ok (l, n)) × IsFound pids l n
  unfolding walks
  by_walk fuel last (ended l n) e d a b again (i, j, k, g, h) = (
    l,
    n,
    rw (e, walks) refl,
    record { positive = omega arith; ordered = j; bounded = k; window = h },
  )
  by_walk fuel last (repeat_from l) e d a b again (m, i, j, k, h) =
      let (x, y, z) = distance-repeat f last l m f_positive f_bounded b i j k h in
      let (l', n, r, found) = again l (omega (arith, x, d)) y z in (l', n, rw (e, walks) r, found)

  walks-IsFound :
      (fuel last : ℕ)
      → distance last f < fuel
      → 0 < last
      → last < max_pid
      → (l n : ℕ) × (walks fuel pids last ≡ ok (l, n)) × IsFound pids l n
  walks-IsFound zero last d a b = absurd (omega (arith, d))
  walks-IsFound (suc fuel) last d a b =
      by_walk fuel last (walk pids last max_pid) refl d a b (walks-IsFound fuel)
        (walk-Walked pids f last max_pid b free)

  near : (last : ℕ) → last < max_pid → distance last f < 2 * max_pid
  unfolding distance
  near last l = ground (arith, l, f_bounded)

  get_pid-IsFound :
      (last next : ℕ)
      → IsWindow pids (last + 1) next
      → next ≤ max_pid
      → (l n : ℕ) × (get_pid pids last next ≡ ok (l, n)) × IsFound pids l n
  unfolding get_pid
  get_pid-IsFound last next w b = elim (Bool-cases (leb max_pid (last + 1))) [
    | inl e ↦
        let (l, n, r, found) =
          walks-IsFound (2 * max_pid) 1 (near 1 (omega arith)) (omega arith) (omega arith) in
        (l, n, rw e r, found)
    | inr e ↦ elim (Bool-cases (leb next (last + 1))) [
      | inl g ↦
          let small : last + 1 < max_pid = ground (arith, e) in
          let (l, n, r, found) =
            walks-IsFound (2 * max_pid) (last + 1) (near (last + 1) small) (omega arith) small in
          (l, n, rw (e, g) r, found)
      | inr g ↦
          let inside : last + 1 < next = ground (arith, g) in
          (
            last + 1,
            next,
            rw (e, g) refl,
            record { positive = omega arith; ordered = inside; bounded = b; window = w },
          )
    ]
  ]

-- A number that is found is not in the list.
pub IsFound-absent : (pids : List ℕ) (last next : ℕ) → IsFound pids last next → occurs last pids ≡ 0
IsFound-absent pids last next h = elim (dec_lt 0 (occurs last pids)) [
  | yes o ↦
      absurd
        (elim (h.window last o) [ inl x ↦ omega (arith, x) | inr x ↦ omega (arith, x, h.ordered) ])
  | no o ↦ omega (arith, o)
]

-- How often the numbers from 1 to `n` are in the list, together.
total : ℕ → List ℕ → ℕ
total zero pids = 0
total (suc n) pids = total n pids + occurs (suc n) pids

total-cons :
    (n p : ℕ) (pids : List ℕ) → total n (p ∷ pids) ≤ total n pids + (if leb p n then 1 else 0)
unfolding total occurs
total-cons zero p pids = omega arith
total-cons (suc n) p pids = ground (arith, total-cons n p pids)

total-length : (n : ℕ) (pids : List ℕ) → total n pids ≤ length pids
unfolding total occurs
total-length n [] = empty n
  where
    empty : (n : ℕ) → total n [] ≤ 0
    empty zero = omega arith
    empty (suc n) = omega (arith, empty n)
total-length n (p ∷ pids) = ground (arith, total-cons n p pids, total-length n pids)

-- A short list leaves a number free.
some_free :
    (n : ℕ) (pids : List ℕ)
    → (((f : ℕ) × (0 < f) × (f ≤ n) × (occurs f pids ≡ 0)) ⊎ (n ≤ total n pids))
unfolding total
some_free zero pids = inr (omega arith)
some_free (suc n) pids = elim (some_free n pids) [
  | inl (f, a, b, c) ↦ inl (f, a, omega (arith, b), c)
  | inr h ↦ elim (dec_lt 0 (occurs (suc n) pids)) [
    | yes o ↦ inr (omega (arith, h, o))
    | no o ↦ inl (suc n, omega arith, omega arith, omega (arith, o))
  ]
]

-- Fewer processes than numbers, and no number in use between `last_pid` and `next_safe`: `get_pid`
-- ends, with the walks that it makes counted, and gives a number from 1 to MAX_PID - 1 that no process
-- has. No number in use lies between it and the new `next_safe`.
pub get_pid-IsFound_total :
    (pids : List ℕ) (last next : ℕ)
    → length pids + 1 < max_pid
    → IsWindow pids (last + 1) next
    → next ≤ max_pid
    → (l n : ℕ) × (get_pid pids last next ≡ ok (l, n)) × IsFound pids l n × (occurs l pids ≡ 0)
get_pid-IsFound_total pids last next few w b = elim (some_free (max_pid - 1) pids) [
  | inl (f, x, y, z) ↦
      let (l, n, r, found) = get_pid-IsFound pids f z x (omega (arith, y)) last next w b in
      (l, n, r, found, IsFound-absent pids l n found)
  | inr h ↦ absurd (omega (arith, h, few, total-length (max_pid - 1) pids))
]
