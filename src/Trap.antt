-- ===== src/Trap.antt =====
-- kern/trap/trap.c: the timer interrupt, the page faults of user programs, and the end of a trap. What
-- a trap prints is not in the model.
pub mod Kills
pub mod Dispatch
pub mod Ignored
pub mod Forks
mod Examples
use lab.Base.{
  ℕ, ◌+◌, ◌%◌, ◌^◌, Bool, true, false, ◌&&◌, not, ◌==◌, if◌then◌else◌, update, Option, none, some,
  ℤ, Outcome, ok, panic, ◌>>=◌,
}
use lab.Vmm.{Mm, any_of}
use lab.Paging.{Machine, is_zero}
use lab.Fault.{pf_write, do_pgfault}
use lab.Proc.{Proc, Kernel, null, set_proc}
use lab.Sched.{schedule}
use lab.Wait.{pf_exiting, e_killed}
use lab.Space.{Space}
use lab.Task.{Memory, World}
use lab.Fork.{put_space}
use lab.Release.{exit_process}

-- TICK_NUM.
abbrev pub tick_num : ℕ
tick_num = 100

-- IRQ_S_TIMER: the ticks, and the process that is to be rescheduled.
unfoldable pub timer_interrupt : ℕ → Kernel → ℕ × Kernel
timer_interrupt ticks k =
    let ticks' = (ticks + 1) % 2 ^ 64 in
    let marked = set_proc k k.current (record (k.procs k.current) { need_resched = true }) in
    let runs = not (k.current == null) && not (k.current == k.idleproc) in
    (ticks', if (ticks' % tick_num == 0) && runs then marked else k)

-- The address space after a page fault.
abbrev pub after_fault : ℕ → Option (Mm × ℕ) → Machine → Memory → Memory
after_fault mm none m memory = record memory { machine = m }
after_fault mm (some (areas, pgdir)) m memory =
    put_space mm (record (memory.spaces mm) { mm = areas }) m memory

-- CAUSE_FETCH_PAGE_FAULT, CAUSE_LOAD_PAGE_FAULT and CAUSE_STORE_PAGE_FAULT: `store` tells the last.
unfoldable pub page_fault : ℕ → Bool → Bool → ℕ → World → Outcome World
page_fault fuel in_kernel store addr w =
    let mm = (w.threads w.kernel.current).mm in
    let space = w.memory.spaces mm in
    let err = if store then pf_write else 0 in
    if in_kernel then panic else if mm == null then panic else (do
      (ret, areas, m) ← do_pgfault fuel (some (space.mm, space.pgdir)) err addr w.memory.machine
      let w₁ : World = record w { memory = after_fault mm areas m w.memory }
      if is_zero ret then ok w₁ else exit_process fuel e_killed w₁)

-- The end of `trap` in a process, with what it does before it returns to a user program.
unfoldable pub leave_trap : ℕ → Bool → World → Outcome World
leave_trap fuel in_kernel w =
    let proc = w.kernel.procs w.kernel.current in
    let scheduled = (do k ← schedule fuel w.kernel; ok (record w { kernel = k })) in
    if in_kernel
    then ok w
    else if any_of proc.flags pf_exiting
    then exit_process fuel e_killed w
    else if proc.need_resched
    then scheduled
    else ok w
