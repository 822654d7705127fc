-- ===== src/Pid.antt =====
-- Lab8/code/kern/process/proc.c: `get_pid`, over the numbers of the processes in the order of
-- `proc_list`. `last_pid` and `next_safe` are its static variables.
pub mod Pass
pub mod Search
pub mod Runs
mod Tests
use nku_os_lab.Base.{
  ℕ, zero, suc, ◌+◌, ◌*◌, Bool, true, false, not, ◌&&◌, List, [], ◌∷◌, ltb, leb, ◌==◌,
  if◌then◌else◌,
}
use nku_os_lab.Base.Outcome.{Outcome, ok, out_of_fuel}

abbrev pub max_process : ℕ
max_process = 4096

abbrev pub max_pid : ℕ
max_pid = max_process * 2

-- The end of one walk along the list: the end of the list, with the values of `last_pid` and
-- `next_safe`, or `goto repeat`, with the value of `last_pid`.
pub data Walk : Type 0 where
  ended : ℕ → ℕ → Walk
  repeat_from : ℕ → Walk

unfoldable pub walk : List ℕ → ℕ → ℕ → Walk
walk [] last_pid next_safe = ended last_pid next_safe
walk (pid ∷ pids) last_pid next_safe =
    let taken = pid == last_pid in
    let nearer = not taken && (ltb last_pid pid && ltb pid next_safe) in
    let rest =
      walk pids (if taken then last_pid + 1 else last_pid) (if nearer then pid else next_safe) in
    if taken && leb next_safe (last_pid + 1)
    then repeat_from (if leb max_pid (last_pid + 1) then 1 else last_pid + 1)
    else rest

-- The walks from the label `inside` on.
unfoldable pub walks : ℕ → List ℕ → ℕ → Outcome (ℕ × ℕ)
unfolding walk
walks zero pids last_pid = out_of_fuel
walks (suc fuel) pids last_pid = elim (walk pids last_pid max_pid) [
  | ended last next ↦ ok (last, next)
  | repeat_from last ↦ walks fuel pids last
]

-- The new values of `last_pid`, which is the result, and of `next_safe`.
unfoldable pub get_pid : List ℕ → ℕ → ℕ → Outcome (ℕ × ℕ)
unfolding walks
get_pid pids last_pid next_safe =
    if leb max_pid (last_pid + 1)
    then walks (2 * max_pid) pids 1
    else if leb next_safe (last_pid + 1)
    then walks (2 * max_pid) pids (last_pid + 1)
    else ok (last_pid + 1, next_safe)
