-- ===== src/Exit.antt =====
-- `do_exit` of kern/process/proc.c: the end of a process. The release of its address space is not in
-- the model. The walks over the children and over `proc_list` run on fuel.
pub mod Relink
pub mod Adopt
pub mod Kept
pub mod Loop
pub mod Done
pub mod Samples
mod Examples
use lab.Base.{
  ℕ, zero, suc, ◌+◌, Bool, true, false, ◌&&◌, ◌==◌, if◌then◌else◌, ℤ, Outcome, ok, panic,
  out_of_fuel, ◌>>=◌,
}
use lab.Proc.{ProcState, zombie, Proc, Kernel, null, is_zombie, set_proc}
use lab.Sched.{wakeup_proc, schedule}

-- WT_INTERRUPTED and WT_CHILD.
abbrev pub wt_interrupted : ℕ
wt_interrupted = 0x80000000

abbrev pub wt_child : ℕ
wt_child = wt_interrupted + 1

-- `if (proc->wait_state == WT_CHILD) wakeup_proc(proc);`
abbrev pub wakeup_waiting : ℕ → Kernel → Outcome Kernel
wakeup_waiting proc k = if (k.procs proc).wait_state == wt_child then wakeup_proc proc k else ok k

-- The pointers in a round of the loop of `do_exit`: `proc`, the youngest child of the current
-- process, leaves it and becomes the youngest child of `initproc`.
unfoldable pub disown_child : ℕ → Kernel → Kernel
disown_child proc k =
    set_proc k k.current (record (k.procs k.current) { cptr = (k.procs proc).optr })

unfoldable pub give_child : ℕ → Kernel → Kernel
give_child proc k =
    let k₁ = set_proc k proc (record (k.procs proc) { yptr = null }) in
    let older = (k₁.procs k.initproc).cptr in
    let k₂ = set_proc k₁ proc (record (k₁.procs proc) { optr = older }) in
    let k₃ =
      if older == null then k₂ else set_proc k₂ older (record (k₂.procs older) { yptr = proc }) in
    let k₄ = set_proc k₃ proc (record (k₃.procs proc) { parent = k.initproc }) in
    set_proc k₄ k.initproc (record (k₄.procs k.initproc) { cptr = proc })

unfoldable pub relink_child : ℕ → Kernel → Kernel
unfolding disown_child give_child
relink_child proc k = give_child proc (disown_child proc k)

-- A round of that loop.
unfoldable pub adopt_child : ℕ → Kernel → Outcome Kernel
adopt_child proc k =
    let k' = relink_child proc k in
    if is_zombie (k'.procs proc).state then wakeup_waiting k'.initproc k' else ok k'

unfoldable pub adopt_children : ℕ → Kernel → Outcome Kernel
adopt_children zero k = out_of_fuel
adopt_children (suc fuel) k =
    let proc = (k.procs k.current).cptr in
    let rest = (do k' ← adopt_child proc k; adopt_children fuel k') in
    if proc == null then ok k else rest

-- The current process turns into a zombie.
unfoldable pub become_zombie : ℤ → Kernel → Kernel
become_zombie error_code k =
    set_proc k k.current (record (k.procs k.current) { state = zombie; exit_code = error_code })

-- `schedule` does not come back to the process.
unfoldable pub do_exit : ℕ → ℤ → Kernel → Outcome Kernel
do_exit fuel error_code k =
    if k.current == k.idleproc then panic else if k.current == k.initproc then panic else (do
      let k₁ = become_zombie error_code k
      k₂ ← wakeup_waiting (k₁.procs k.current).parent k₁
      k₃ ← adopt_children fuel k₂
      k₄ ← schedule fuel k₃
      if k₄.current == k.current then panic else ok k₄)
