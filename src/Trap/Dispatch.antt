-- ===== src/Trap/Dispatch.antt =====
-- kern/trap/trap.c: which handler a trap gets, by its cause. What the handlers print is not in the model.
use lab.Base.{
  ℕ, ◌+◌, ◌%◌, ◌^◌, Bool, ◌||◌, not, ltb, ◌==◌, if◌then◌else◌, update, Option, some, Outcome, ok,
  panic, ◌>>=◌,
}
use lab.Vmm.{any_of}
use lab.Space.{Bytes}
use lab.Task.{Trapframe, World}
use lab.Wait.{pf_exiting}
use lab.Exec.{sstatus_spp}
use lab.Syscall.{Outside, Called, answers, elsewhere, syscall}
use lab.Trap.{timer_interrupt, page_fault, leave_trap}

-- The world with the counter of clock.c and the bytes of memory.
pub record Machinery : Type 0 where
  pub world : World
  pub ticks : ℕ
  pub bytes : Bytes

-- What a handler does: it comes back, or `kernel_execve_ret` goes to the program at once with the trap
-- frame of the process, or the process has ended or sleeps.
pub data Handled : Type 0 where
  comes_back : Machinery → Handled
  starts : Machinery → Handled
  switched : World → Handled

abbrev pub trap_in_kernel : Trapframe → Bool
trap_in_kernel tf = any_of tf.status sstatus_spp

abbrev pub irq_s_timer : ℕ
irq_s_timer = 5

-- `(tf->cause << 1) >> 1`, of a cause whose top bit is set; the other causes only print.
unfoldable pub interrupt_handler : Trapframe → Machinery → Machinery
unfolding timer_interrupt
interrupt_handler tf c =
    let (ticks, k) = timer_interrupt c.ticks c.world.kernel in
    if tf.cause % 2 ^ 63 == irq_s_timer
    then record c { world = record c.world { kernel = k }; ticks = ticks }
    else c

-- `tf->epc += 4`, in the trap frame of the current process.
abbrev pub skip_call : Trapframe → Trapframe
skip_call tf = record tf { epc = (tf.epc + 4) % 2 ^ 64 }

abbrev pub set_frame : Option Trapframe → World → World
set_frame tf w =
    let c = w.kernel.current in
    record w { threads = update w.threads c (record (w.threads c) { tf = tf }) }

-- What the system call leaves, for the handler that called it.
abbrev handled : (Machinery → Handled) → Machinery → Called → Handled
handled back c (answers ret store w bytes) = back (record c { world = w; bytes = bytes })
handled back c (elsewhere w) = switched w

unfoldable pub handle_call :
    ℕ → ℕ → Outside → Trapframe → (Machinery → Handled) → Machinery → Outcome Handled
unfolding syscall
handle_call rounds fuel outside tf back c = do
  let tf' = skip_call tf
  result ← syscall rounds fuel outside tf' c.bytes (set_frame (some tf') c.world)
  ok (handled back c result)

-- The three page faults.
unfoldable pub handle_fault : ℕ → Trapframe → Machinery → Outcome Handled
handle_fault fuel tf c = do
  w ← page_fault fuel (trap_in_kernel tf) (tf.cause == 15) tf.tval c.world
  ok (
      if w.kernel.current == c.world.kernel.current
      then comes_back (record c { world = w })
      else switched w)

unfoldable pub exception_handler : ℕ → ℕ → Outside → Trapframe → Machinery → Outcome Handled
unfolding handle_call handle_fault
exception_handler rounds fuel outside tf c =
    if tf.cause == 3
    then (if tf.gpr 17 == 10
        then handle_call rounds fuel outside tf starts c
        else ok (comes_back c))
    else if tf.cause == 6
    then panic
    else if (tf.cause == 8) || (tf.cause == 9)
    then handle_call rounds fuel outside tf comes_back c
    else if (tf.cause == 12) || ((tf.cause == 13) || (tf.cause == 15))
    then handle_fault fuel tf c
    else ok (comes_back c)

unfoldable pub trap_dispatch : ℕ → ℕ → Outside → Trapframe → Machinery → Outcome Handled
unfolding interrupt_handler exception_handler
trap_dispatch rounds fuel outside tf c =
    if not (ltb tf.cause (2 ^ 63))
    then ok (comes_back (interrupt_handler tf c))
    else exception_handler rounds fuel outside tf c

-- How a trap ends: with a return to `trap_frame`, now or when the process runs again, or not at all.
pub data Trapped : Type 0 where
  returns : Option Trapframe → Machinery → Trapped
  waits : Option Trapframe → World → Trapped
  gone : World → Trapped

-- From the return of `trap_dispatch` on; `otf` is the trap frame that the process had.
unfoldable pub end_trap : ℕ → Bool → Option Trapframe → Machinery → Outcome Trapped
unfolding leave_trap
end_trap fuel in_kernel otf c = do
  let tf = (c.world.threads c.world.kernel.current).tf
  let w = set_frame otf c.world
  let p = c.world.kernel.procs c.world.kernel.current
  w' ← leave_trap fuel in_kernel w
  ok (
      if w'.kernel.current == w.kernel.current
      then returns tf (record c { world = w' })
      else if any_of p.flags pf_exiting
      then gone w'
      else waits tf w')

-- `trap` in a process.
unfoldable pub trap : ℕ → ℕ → Outside → Trapframe → Machinery → Outcome Trapped
unfolding trap_dispatch end_trap
trap rounds fuel outside tf c = do
  let otf = (c.world.threads c.world.kernel.current).tf
  let c₁ : Machinery = record c { world = set_frame (some tf) c.world }
  done ← trap_dispatch rounds fuel outside tf c₁
  elim done [
    | comes_back c₂ ↦ end_trap fuel (trap_in_kernel tf) otf c₂
    | starts c₂ ↦ ok (returns (c₂.world.threads c₂.world.kernel.current).tf c₂)
    | switched w ↦ ok (gone w)
  ]
