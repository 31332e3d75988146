-- ===== src/Pid.antt =====
-- `get_pid` of kern/process/proc.c. The list `pids` has the `pid` of the processes on `proc_list`, in
-- order; the static variables last_pid and next_safe are a pair. The walk runs on fuel.
pub mod Clear
pub mod Unique
pub mod Room
mod Examples
use lab.Base.{
  ℕ, zero, suc, ◌+◌, ◌*◌, Bool, true, false, ◌&&◌, List, [], ◌∷◌, ltb, leb, ◌==◌, if◌then◌else◌, ℤ,
  pos, negsuc, Outcome, ok, out_of_fuel,
}

abbrev pub max_process : ℕ
max_process = 4096

abbrev pub max_pid : ℕ
max_pid = max_process * 2

-- `last_pid` and `next_safe`.
pub record Pids : Type 0 where
  pub last_pid : ℕ
  pub next_safe : ℕ

-- `proc->pid == pid`
abbrev pub pid_is : ℤ → ℕ → Bool
pid_is (pos p) pid = p == pid
pid_is (negsuc p) pid = false

-- `proc->pid > last_pid && next_safe > proc->pid`
abbrev pub pid_between : ℤ → Pids → Bool
pid_between (pos p) v = ltb v.last_pid p && ltb p v.next_safe
pid_between (negsuc p) v = false

abbrev pub int_of : ℤ → ℕ
int_of (pos p) = p
int_of (negsuc p) = 0

-- The body of the loop at a process with pid `p`: the pids that it looks at next, and the variables.
abbrev pub visit : List ℤ → ℤ → List ℤ → Pids → List ℤ × Pids
visit all p rest v =
    let last = v.last_pid + 1 in
    if pid_is p v.last_pid
    then (if leb v.next_safe last
        then (all, record { last_pid = if leb max_pid last then 1 else last; next_safe = max_pid })
        else (rest, record v { last_pid = last }))
    else if pid_between p v
    then (rest, record v { next_safe = int_of p })
    else (rest, v)

-- The loop, with `rest` to come of `all`.
unfoldable pub scan_pids : ℕ → List ℤ → List ℤ → Pids → Outcome Pids
scan_pids zero all rest v = out_of_fuel
scan_pids (suc fuel) all [] v = ok v
scan_pids (suc fuel) all (p ∷ rest) v =
    let (rest', v') = visit all p rest v in scan_pids fuel all rest' v'

-- The result is `last_pid`.
unfoldable pub get_pid : ℕ → List ℤ → Pids → Outcome Pids
unfolding scan_pids
get_pid fuel pids v =
    let last = v.last_pid + 1 in
    let first = (if leb max_pid last then 1 else last) in
    let inside = scan_pids fuel pids pids (record { last_pid = first; next_safe = max_pid }) in
    if leb max_pid last
    then inside
    else if leb v.next_safe last
    then inside
    else ok (record v { last_pid = last })
