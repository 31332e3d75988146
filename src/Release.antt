-- ===== src/Release.antt =====
-- `do_exit` of kern/process/proc.c with the address space that the process gives back; the rest of it
-- is in `Exit`.
pub mod Ended
mod Examples
use lab.Base.{
  ℕ, ◌+◌, ◌-◌, ◌*◌, ◌%◌, ◌^◌, ◌==◌, if◌then◌else◌, update, ℤ, pos, Outcome, ok, panic, ◌>>=◌,
}
use lab.Vmm.{page_size}
use lab.Proc.{Kernel, null}
use lab.Exit.{do_exit}
use lab.Space.{Space, mm_count_dec}
use lab.Task.{Thread, Memory, World}
use lab.Fork.{put_space, drop_space}

-- A process less uses the address space `mm`; if it was the last, exit_mmap, put_pgdir and mm_destroy
-- take the space apart.
unfoldable pub leave_space : ℕ → ℕ → Memory → Outcome Memory
leave_space fuel mm memory =
    let space = mm_count_dec (memory.spaces mm) in
    let memory' = put_space mm space memory.machine memory in
    if space.mm_count == 0
    then (do (ret, m) ← drop_space fuel (pos 0) mm memory'; ok m)
    else ok memory'

-- The current process leaves its address space.
unfoldable pub leave_mm : ℕ → World → Outcome World
unfolding leave_space
leave_mm fuel w =
    let c = w.kernel.current in
    let mm = (w.threads c).mm in
    if mm == null then ok w else (do
      memory ← leave_space fuel mm w.memory
      ok (record w {
        kernel = record w.kernel { satp = w.memory.boot * page_size };
        threads = update w.threads c (record (w.threads c) { mm = null });
        memory = memory;
      }))

unfoldable pub exit_process : ℕ → ℤ → World → Outcome World
unfolding leave_mm
exit_process fuel error_code w =
    if w.kernel.current == w.kernel.idleproc
    then panic
    else if w.kernel.current == w.kernel.initproc
    then panic
    else (do
      w₁ ← leave_mm fuel w
      k ← do_exit fuel error_code w₁.kernel
      ok (record w₁ { kernel = k }))
