-- ===== src/Syscall.antt =====
-- kern/syscall/syscall.c: the system calls of the current process. What is printed is not in the model.
-- The outside world gives what `kmalloc` gives, and the bytes at an address of the kernel's memory.
use lab.Base.{
  ℕ, ◌-◌, ◌%◌, ◌^◌, Bool, true, ◌||◌, not, ltb, ◌==◌, if◌then◌else◌, update, Option, none, some, ℤ,
  pos, negsuc, Outcome, ok, panic, ◌>>=◌,
}
use lab.Vmm.{e_inval, user_mem_check}
use lab.Proc.{null, do_yield, remove_links}
use lab.Sched.{schedule}
use lab.Wait.{found, alive, none_there, e_bad_proc, find_child, fall_asleep, unhash_proc, do_kill}
use lab.Space.{Bytes}
use lab.Task.{Trapframe, Thread, World, Heap, reg_a0, reg_sp, put_kstack}
use lab.Fork.{do_fork}
use lab.Release.{exit_process}
use lab.Exec.{Executed, returned, ended, areas_of, put_areas, do_execve}
use lab.Print.{to_int}

-- `uint64_t` of an `int`.
abbrev pub of_int : ℤ → ℕ
of_int (pos n) = n % 2 ^ 64
of_int (negsuc n) = 2 ^ 64 - 1 - n

pub record Outside : Type 0 where
  pub heap : Heap
  pub area_ok : ℕ → Bool
  pub at_address : ℕ → Bytes

-- A system call returns with a result, or the process has ended or sleeps, and another one runs. A value
-- that is stored at `store` is given back with the result.
pub data Called : Type 0 where
  answers : ℤ → Option ℤ → World → Bytes → Called
  elsewhere : World → Called

unfoldable pub sys_exit : ℕ → ℕ → World → Outcome Called
sys_exit fuel arg0 w = do w' ← exit_process fuel (to_int arg0) w; ok (elsewhere w')

unfoldable pub sys_fork : ℕ → Outside → Trapframe → Bytes → World → Outcome Called
sys_fork fuel outside tf bytes w = do
  (ret, w') ← do_fork fuel outside.heap 0 (tf.gpr reg_sp) tf w
  ok (answers ret none w' bytes)

-- The end of `do_wait`, with the kernel stack of the child.
unfoldable pub take_child : ℕ → Bool → ℕ → Bytes → World → Outcome Called
take_child fuel store proc bytes w =
    let code = (w.kernel.procs proc).exit_code in
    let w₁ : World = record w {
      kernel = remove_links proc w.kernel;
      hash = unhash_proc proc w.kernel w.hash;
    } in
    if (proc == w.kernel.idleproc) || (proc == w.kernel.initproc) then panic else (do
      w₂ ← put_kstack fuel proc w₁
      ok (answers (pos 0) (if store then some code else none) w₂ bytes))

-- `do_wait` up to the call of `schedule`.
unfoldable pub wait_child : ℕ → Bool → ℤ → Bytes → World → Outcome Called
unfolding take_child fall_asleep find_child
wait_child fuel store pid bytes w = do
  child ← find_child fuel pid w.kernel w.hash
  elim child [
    | found proc ↦ take_child fuel store proc bytes w
    | alive ↦ (do
      k ← schedule fuel (fall_asleep w.kernel)
      ok (elsewhere (record w { kernel = k })))
    | none_there ↦ ok (answers e_bad_proc none w bytes)
  ]

-- `sizeof(int)` bytes are checked at `store`.
unfoldable pub sys_wait : ℕ → ℕ → ℕ → Bytes → World → Outcome Called
unfolding wait_child
sys_wait fuel arg0 store bytes w =
    let mm = (w.threads w.kernel.current).mm in
    let wait = wait_child fuel (not (store == null)) (to_int arg0) bytes in
    if store == null then wait w else (do
      (allowed, areas) ← user_mem_check fuel (areas_of mm w.memory) store 4 true
      let w₁ : World = record w { memory = put_areas mm areas w.memory }
      if allowed then wait w₁ else ok (answers e_inval none w₁ bytes))

abbrev called : Executed → Called
called (returned ret w bytes) = answers ret none w bytes
called (ended w) = elsewhere w

unfoldable pub sys_exec : ℕ → ℕ → Outside → ℕ → ℕ → ℕ → Bytes → World → Outcome Called
sys_exec rounds fuel outside name len binary bytes w = do
  done ←
      do_execve rounds fuel outside.heap.mm_at outside.area_ok name len (outside.at_address binary)
        bytes w
  ok (called done)

unfoldable pub sys_kill : ℕ → Bytes → World → Outcome Called
sys_kill arg0 bytes w = do
  (ret, k) ← do_kill (to_int arg0) w.kernel w.hash
  ok (answers ret none (record w { kernel = k }) bytes)

-- SYS_exit and the other numbers of libs/unistd.h, and the table of the functions.
unfoldable pub call : ℕ → ℕ → Outside → Trapframe → ℕ → Bytes → World → Outcome Called
unfolding sys_exit sys_fork sys_wait sys_exec sys_kill do_yield
call rounds fuel outside tf num bytes w =
    let answer : ℤ → Outcome Called = λ ret. ok (answers ret none w bytes) in
    if num == 1
    then sys_exit fuel (tf.gpr 11) w
    else if num == 2
    then sys_fork fuel outside tf bytes w
    else if num == 3
    then sys_wait fuel (tf.gpr 11) (tf.gpr 12) bytes w
    else if num == 4
    then sys_exec rounds fuel outside (tf.gpr 11) (tf.gpr 12) (tf.gpr 13) bytes w
    else if num == 10
    then ok (answers (pos 0) none (record w { kernel = do_yield w.kernel }) bytes)
    else if num == 12
    then sys_kill (tf.gpr 11) bytes w
    else if num == 18
    then answer (w.kernel.procs w.kernel.current).pid
    else if (num == 30) || (num == 31)
    then answer (pos 0)
    else panic

-- `tf->gpr.a0 = ...`, in the trap frame of the process that has called.
abbrev pub set_result : ℤ → Thread → Thread
set_result ret thread = elim thread.tf [
  | none ↦ thread
  | some tf ↦ record thread { tf = some (record tf { gpr = update tf.gpr reg_a0 (of_int ret) }) }
]

abbrev pub give_result : ℕ → Called → Called
give_result c (elsewhere w) = elsewhere w
give_result c (answers ret store w bytes) =
    answers ret store (record w { threads = update w.threads c (set_result ret (w.threads c)) })
      bytes

-- `num >= 0 && num < NUM_SYSCALLS`, where the table ends with SYS_pgdir.
abbrev pub call_number : ℤ → Option ℕ
call_number (pos n) = if ltb n 32 then some n else none
call_number (negsuc n) = none

unfoldable pub syscall : ℕ → ℕ → Outside → Trapframe → Bytes → World → Outcome Called
unfolding call
syscall rounds fuel outside tf bytes w = elim (call_number (to_int (tf.gpr reg_a0))) [
  | none ↦ panic
  | some num ↦ (do
    result ← call rounds fuel outside tf num bytes w
    ok (give_result w.kernel.current result))
]
