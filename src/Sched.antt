-- ===== src/Sched.antt =====
-- kern/schedule/sched.c: waking a process, and the choice of the next one. The walk over `proc_list`
-- runs on fuel.
pub mod RoundRobin
pub mod Fair
mod Examples
use lab.Base.{
  ℕ, zero, suc, ◌+◌, ◌%◌, Bool, true, false, ◌&&◌, ◌||◌, not, ◌==◌, if◌then◌else◌, Outcome, ok,
  out_of_fuel, ◌>>=◌, ◌>>◌, assert,
}
use lab.Links.{list_next}
use lab.Proc.{
  ProcState, uninit, sleeping, runnable, zombie, Proc, Kernel, null, proc_list, int_mod,
  is_runnable, is_zombie, set_proc, proc_run,
}

unfoldable pub wakeup_proc : ℕ → Kernel → Outcome Kernel
wakeup_proc proc k = do
  assert (not (is_zombie (k.procs proc).state))
  let woken = record (k.procs proc) { state = runnable; wait_state = 0 }
  if is_runnable (k.procs proc).state then ok k else ok (set_proc k proc woken)

-- The do-while loop of `schedule`, from `le` on; `next` is the process looked at last, or NULL.
unfoldable pub find_next : ℕ → ℕ → ℕ → ℕ → Kernel → Outcome ℕ
unfolding list_next
find_next zero last le next k = out_of_fuel
find_next (suc fuel) last le next k =
    let le' = list_next le k.links in
    let next' = if le' == proc_list then next else le' in
    let rest = find_next fuel last le' next' k in
    if not (le' == proc_list) && is_runnable (k.procs le').state
    then ok next'
    else if le' == last
    then ok next'
    else rest

-- The end of `schedule`: with nothing to run it takes the idle process.
abbrev pub or_idle : Kernel → ℕ → ℕ
or_idle k next = if next == null || not (is_runnable (k.procs next).state) then k.idleproc else next

unfoldable pub run_next : ℕ → Kernel → Kernel
unfolding proc_run
run_next next k =
    let runs = ((k.procs next).runs + 1) % int_mod in
    proc_run next (set_proc k next (record (k.procs next) { runs = runs }))

unfoldable pub schedule : ℕ → Kernel → Outcome Kernel
unfolding find_next run_next
schedule fuel k = do
  let k' = set_proc k k.current (record (k.procs k.current) { need_resched = false })
  let last = (if k.current == k.idleproc then proc_list else k.current)
  next ← find_next fuel last last null k'
  ok (run_next (or_idle k' next) k')
