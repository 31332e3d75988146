-- ===== src/Wait.antt =====
-- `find_proc`, `do_kill` and `do_wait` of kern/process/proc.c. The hash lists are lists of processes.
-- The walk over the children runs on fuel. The answer of `user_mem_check` for `code_store` is an
-- argument, and giving back the memory of a process is not in the model.
pub mod Children
pub mod Find
pub mod Codes
mod Examples
use Prim.Native.Nat.{bit_or}
use lab.Base.{
  ℕ, zero, suc, ◌+◌, ◌-◌, ◌*◌, ◌/◌, ◌%◌, ◌^◌, Bool, true, false, ◌&&◌, ◌||◌, not, ltb, ◌==◌,
  if◌then◌else◌, update, List, [], ◌∷◌, ℤ, pos, negsuc, Option, none, some, Outcome, ok, panic,
  out_of_fuel, ◌>>=◌,
}
use lab.Vmm.{any_of, e_inval}
use lab.Proc.{ProcState, sleeping, Proc, Kernel, null, is_zombie, set_proc, remove_links}
use lab.Sched.{wakeup_proc, schedule}
use lab.Pid.{max_pid, pid_is}
use lab.Exit.{wt_child, wt_interrupted, do_exit}

-- Error codes of libs/error.h, negated as the kernel returns them.
abbrev pub e_bad_proc : ℤ
e_bad_proc = negsuc 1

abbrev pub e_killed : ℤ
e_killed = negsuc 8

-- PF_EXITING.
abbrev pub pf_exiting : ℕ
pf_exiting = 1

-- `hash32` of libs/hash.c: the high bits of a product of 32 bits.
unfoldable pub hash32 : ℕ → ℕ → ℕ
hash32 val bits = (val * 0x9e370001 % 2 ^ 32) / 2 ^ (32 - bits)

-- `pid_hashfn` of a pid that is not negative.
abbrev pub pid_hashfn : ℕ → ℕ
pid_hashfn pid = hash32 pid 10

abbrev pub HashList : Type 0
HashList = ℕ → List ℕ

abbrev pub uint_of : ℤ → ℕ
uint_of (pos p) = p
uint_of (negsuc p) = 2 ^ 32 - 1 - p

unfoldable pub hash_proc : ℕ → Kernel → HashList → HashList
unfolding hash32
hash_proc proc k hash =
    let h = pid_hashfn (uint_of (k.procs proc).pid) in update hash h (proc ∷ hash h)

abbrev pub remove : ℕ → List ℕ → List ℕ
remove proc [] = []
remove proc (p ∷ ps) = if p == proc then ps else p ∷ remove proc ps

unfoldable pub unhash_proc : ℕ → Kernel → HashList → HashList
unfolding hash32
unhash_proc proc k hash =
    let h = pid_hashfn (uint_of (k.procs proc).pid) in update hash h (remove proc (hash h))

-- The loop of `find_proc` over a hash list; NULL if there is none.
unfoldable pub find_pid : ℕ → (ℕ → Proc) → List ℕ → ℕ
find_pid pid procs [] = null
find_pid pid procs (p ∷ ps) = if pid_is (procs p).pid pid then p else find_pid pid procs ps

unfoldable pub find_proc : ℤ → Kernel → HashList → ℕ
unfolding find_pid hash32
find_proc (pos pid) k hash =
    if ltb 0 pid && ltb pid max_pid then find_pid pid k.procs (hash (pid_hashfn pid)) else null
find_proc (negsuc pid) k hash = null

-- `if (proc->wait_state & WT_INTERRUPTED) wakeup_proc(proc);`
abbrev pub interrupt : ℕ → Kernel → Outcome Kernel
interrupt proc k =
    if any_of (k.procs proc).wait_state wt_interrupted then wakeup_proc proc k else ok k

unfoldable pub do_kill : ℤ → Kernel → HashList → Outcome (ℤ × Kernel)
do_kill pid k hash =
    let proc = find_proc pid k hash in
    let flags = (k.procs proc).flags in
    let killed = set_proc k proc (record (k.procs proc) { flags = bit_or flags pf_exiting }) in
    if proc == null
    then ok (e_inval, k)
    else if any_of flags pf_exiting
    then ok (e_killed, k)
    else (do k' ← interrupt proc killed; ok (pos 0, k'))

-- What `do_wait` finds out about the children that it may wait for.
pub data Child : Type 0 where
  found : ℕ → Child
  alive : Child
  none_there : Child

-- The loop over all children; `haskid` tells that it has seen one.
unfoldable pub find_zombie : ℕ → (ℕ → Proc) → ℕ → Bool → Outcome Child
find_zombie zero procs proc haskid = out_of_fuel
find_zombie (suc fuel) procs proc haskid =
    let rest = find_zombie fuel procs (procs proc).optr true in
    if proc == null
    then ok (if haskid then alive else none_there)
    else if is_zombie (procs proc).state
    then ok (found proc)
    else rest

-- The one process that `do_wait` is asked for.
abbrev pub check_child : ℕ → Kernel → Child
check_child proc k =
    if not (proc == null) && ((k.procs proc).parent == k.current)
    then (if is_zombie (k.procs proc).state then found proc else alive)
    else none_there

unfoldable pub find_child : ℕ → ℤ → Kernel → HashList → Outcome Child
find_child fuel (pos zero) k hash = find_zombie fuel k.procs (k.procs k.current).cptr false
find_child fuel (pos (suc n)) k hash = ok (check_child (find_proc (pos (suc n)) k hash) k)
find_child fuel (negsuc n) k hash = ok (check_child (find_proc (negsuc n) k hash) k)

-- `do_wait` returns, with the exit code that it stores, or the process sleeps and another one runs.
pub data Waited : Type 0 where
  returned : ℤ → Option ℤ → Kernel → HashList → Waited
  slept : Kernel → Waited

unfoldable pub reap : Bool → ℕ → Kernel → HashList → Outcome Waited
reap store proc k hash =
    if (proc == k.idleproc) || (proc == k.initproc)
    then panic
    else ok (
        returned (pos 0) (if store then some (k.procs proc).exit_code else none)
          (remove_links proc k) (unhash_proc proc k hash))

unfoldable pub fall_asleep : Kernel → Kernel
fall_asleep k =
    set_proc k k.current (record (k.procs k.current) { state = sleeping; wait_state = wt_child })

-- What follows from `repeat` on, up to the call of `schedule`.
unfoldable pub wait_round : ℕ → Bool → ℤ → Kernel → HashList → Outcome Waited
wait_round fuel store pid k hash = do
  child ← find_child fuel pid k hash
  elim child [
    | found proc ↦ reap store proc k hash
    | alive ↦ (do k' ← schedule fuel (fall_asleep k); ok (slept k'))
    | none_there ↦ ok (returned e_bad_proc none k hash)
  ]

-- `store` tells that `code_store` is not NULL.
unfoldable pub do_wait : ℕ → Bool → Bool → ℤ → Kernel → HashList → Outcome Waited
do_wait fuel store mem_ok pid k hash =
    if store && not mem_ok
    then ok (returned e_inval none k hash)
    else wait_round fuel store pid k hash

-- When the process that slept runs again.
unfoldable pub wait_resume : ℕ → Bool → ℤ → Kernel → HashList → Outcome Waited
wait_resume fuel store pid k hash =
    if any_of (k.procs k.current).flags pf_exiting
    then (do k' ← do_exit fuel e_killed k; ok (slept k'))
    else wait_round fuel store pid k hash
