-- ===== src/Pid/Tests.antt =====
-- Two processes, before a third is forked, and after the numbers were used up once.
use nku_os_lab.Base.{ℕ, ◌<◌, ◌≡◌, refl, List, [], ◌∷◌, length, arith}
use nku_os_lab.Base.Outcome.{ok}
use nku_os_lab.Sched.RoundRobin.{occurs}
use nku_os_lab.Pid.{max_process, max_pid, get_pid}
use nku_os_lab.Pid.Search.{IsFound, get_pid-IsFound_total}
use nku_os_lab.Pid.Pass.{IsWindow}
use nku_os_lab.Pid.Runs.{start, by_fork, IsNumbered, Reached-IsNumbered}

first_pid : get_pid [] max_pid max_pid ≡ ok (1, max_pid)
unfolding get_pid
first_pid = refl

-- The search starts again from 1, and passes over 1 and 2.
wraps_around : get_pid (8191 ∷ 2 ∷ 1 ∷ []) 8191 8192 ≡ ok (3, 8191)
unfolding get_pid
wraps_around = refl

full-IsWindow : IsWindow (8191 ∷ 2 ∷ 1 ∷ []) 8192 8192
unfolding occurs
full-IsWindow q o = ground (arith, o)

get_pid-IsFound_total_example :
    (l n : ℕ) × (get_pid (8191 ∷ 2 ∷ 1 ∷ []) 8191 8192 ≡ ok (l, n))
    × IsFound (8191 ∷ 2 ∷ 1 ∷ []) l n
    × (occurs l (8191 ∷ 2 ∷ 1 ∷ []) ≡ 0)
get_pid-IsFound_total_example =
    get_pid-IsFound_total (8191 ∷ 2 ∷ 1 ∷ []) 8191 8192 (omega arith) full-IsWindow (omega arith)

abbrev one_process : List ℕ
one_process = 1 ∷ []

Reached-IsNumbered_example :
    IsNumbered one_process 1 max_pid
    × (length one_process < max_process
        → (l n : ℕ) × (get_pid one_process 1 max_pid ≡ ok (l, n))
          × (occurs l one_process ≡ 0)
          × IsNumbered (l ∷ one_process) l n)
unfolding get_pid
Reached-IsNumbered_example =
    Reached-IsNumbered one_process 1 max_pid (by_fork start (omega arith) refl)
