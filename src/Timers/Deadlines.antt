-- ===== src/Timers/Deadlines.antt =====
-- The list of timers by the ticks from now to each of them.
use nku_os_lab.Base.{
  ℕ, ◌+◌, ◌-◌, ◌^◌, ◌<◌, ◌≡◌, refl, ◌∙◌, ap, Bool, true, false, not, List, ◌∷◌, [], ltb, leb, ◌==◌,
  if◌then◌else◌, arith, lt→ltb,
}
use nku_os_lab.Base.Outcome.{ok, panic, ◌>>◌, assert}
use nku_os_lab.Timers.{Timer, is_linked, place_timer, add_timer, pass_on, del_timer}

-- The timers with the ticks from now, where the list starts `base` ticks from now.
unfoldable pub deadlines : ℕ → List Timer → List Timer
deadlines base [] = []
deadlines base (t ∷ ts) = record t { expires = base + t.expires } ∷ deadlines (base + t.expires) ts

-- A timer among others by deadline, behind those of the same.
unfoldable pub insert : Timer → List Timer → List Timer
insert t [] = t ∷ []
insert t (u ∷ us) =
    let rest = insert t us in if ltb t.expires u.expires then t ∷ (u ∷ us) else u ∷ rest

unfoldable pub remove : ℕ → List Timer → List Timer
remove key [] = []
remove key (t ∷ ts) = let rest = remove key ts in if t.key == key then ts else t ∷ rest

place_timer-deadlines :
    (t : Timer) (base : ℕ) (ts : List Timer)
    → deadlines base (place_timer t ts)
      ≡ insert (record t { expires = base + t.expires }) (deadlines base ts)
unfolding deadlines insert place_timer
place_timer-deadlines t base [] = refl
place_timer-deadlines t base (u ∷ us) = ground (
  arith,
  place_timer-deadlines (record t { expires = t.expires - u.expires }) (base + u.expires) us,
)

-- `add_timer` puts a timer that is not in the list and has ticks to go behind those whose deadline is
-- not later than its own, and leaves every other deadline as it was; a timer without ticks to go
-- and one that is in the list fail an assertion.
pub add_timer-deadlines :
    (t : Timer) (ts : List Timer)
    → (0 < t.expires
        → is_linked t.key ts ≡ false
        → (us : List Timer) × (add_timer t ts ≡ ok us)
          × (deadlines 0 us ≡ insert t (deadlines 0 ts)))
      × (t.expires ≡ 0 → add_timer t ts ≡ panic)
      × (is_linked t.key ts ≡ true → add_timer t ts ≡ panic)
unfolding add_timer
add_timer-deadlines t ts = (
  λ l e. (
    place_timer t ts,
    rw (lt→ltb 0 t.expires l, e) refl,
    place_timer-deadlines t 0 ts
        ∙ ap (λ n. insert (record t { expires = n }) (deadlines 0 ts)) (omega arith),
  ),
  λ z. rw z refl,
  λ e. linked (ltb 0 t.expires) e,
)
  where
    linked :
        (b : Bool)
        → is_linked t.key ts ≡ true
        → (assert b >> (assert (not (is_linked t.key ts)) >> ok (place_timer t ts))) ≡ panic
    linked true e = rw e refl
    linked false e = refl

-- The ticks to the last timer.
unfoldable pub total : List Timer → ℕ
total [] = 0
total (t ∷ ts) = t.expires + total ts

pass_on-deadlines :
    (e base : ℕ) (ts : List Timer)
    → e + total ts < 2 ^ 32
    → deadlines base (pass_on e ts) ≡ deadlines (base + e) ts
unfolding deadlines pass_on total
pass_on-deadlines e base [] h = refl
pass_on-deadlines e base (t ∷ ts) h = ground (arith, h)

-- `del_timer` takes the timer out, and leaves every other deadline as it was, if the last of them is
-- a number of 32 bits.
pub del_timer-deadlines :
    (key base : ℕ) (ts : List Timer)
    → total ts < 2 ^ 32
    → deadlines base (del_timer key ts) ≡ remove key (deadlines base ts)
unfolding deadlines remove del_timer total
del_timer-deadlines key base [] h = refl
del_timer-deadlines key base (t ∷ ts) h = ground (
  arith,
  pass_on-deadlines t.expires base ts (omega (arith, h)),
  del_timer-deadlines key (base + t.expires) ts (omega (arith, h)),
)

-- The processes of the timers whose deadline is one tick away or less, and the other timers, one
-- tick later.
unfoldable pub due : List Timer → List ℕ
due [] = []
due (t ∷ ts) = let rest = due ts in if leb t.expires 1 then t.proc ∷ rest else rest

unfoldable pub later : List Timer → List Timer
later [] = []
later (t ∷ ts) =
    let rest = later ts in
    if leb t.expires 1 then rest else record t { expires = t.expires - 1 } ∷ rest

pub due-far : (base : ℕ) (ts : List Timer) → 1 < base → due (deadlines base ts) ≡ []
unfolding deadlines due
due-far base [] h = refl
due-far base (t ∷ ts) h = ground (arith, due-far (base + t.expires) ts (omega (arith, h)))

pub later-far :
    (base : ℕ) (ts : List Timer) → 0 < base → later (deadlines (base + 1) ts) ≡ deadlines base ts
unfolding deadlines later
later-far base [] h = refl
later-far base (t ∷ ts) h = ground (arith, h, later-far (base + t.expires) ts (omega (arith, h)))
