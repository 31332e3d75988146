-- ===== src/Pid/Examples.antt =====
-- `get_pid` among two processes.
use lab.Base.{◌≡◌, ◌≤◌, ◌<◌, inl, ◌∷◌, [], List, ℤ, pos, ok, arith}
use lab.Pid.Clear.{Unused}
use lab.Pid.Unique.{IsValid}
use lab.Pid.Room.{get_pid-Unused}
use lab.Pid.{Pids, max_pid, get_pid}

abbrev two_pids : List ℤ
two_pids = pos 2 ∷ pos 1 ∷ []

-- At boot both variables are MAX_PID.
abbrev boot : Pids
boot = record { last_pid = max_pid; next_safe = max_pid }

boot-IsValid : IsValid two_pids boot
boot-IsValid = record { high = omega arith; clear = (inl (omega arith), (inl (omega arith), tt)) }

get_pid-Unused_example :
    (v : Pids) × (get_pid 30000 two_pids boot ≡ ok v)
    × (1 ≤ v.last_pid)
    × (v.last_pid < max_pid)
    × Unused v.last_pid two_pids
    × IsValid two_pids v
get_pid-Unused_example = get_pid-Unused 30000 two_pids boot boot-IsValid (omega arith) (omega arith)
