-- ===== src/Exec.antt =====
-- `load_icode` and `do_execve` of kern/process/proc.c: a process changes its program. The segments are
-- in `Load`. The name of the process and what is printed are not in the model. `kmalloc_ok` tells of
-- an area, by its address, whether `vma_create` gets its memory.
pub mod Starts
pub mod Fails
mod Examples
use Prim.Native.Nat.{bit_or}
use lab.Base.{
  ℕ, ◌+◌, ◌-◌, ◌*◌, ◌%◌, ◌^◌, Bool, true, false, not, ◌==◌, if◌then◌else◌, update, Option, none,
  some, ℤ, pos, Outcome, ok, panic, ◌>>=◌, ◌>>◌,
}
use lab.Vmm.{
  Mm, e_inval, e_no_mem, page_size, any_of, vm_read, vm_write, vm_stack, user_top, mm_map,
  user_mem_check,
}
use lab.Paging.{Perm, Machine, no_perm, is_zero, pgdir_alloc_page}
use lab.Proc.{Kernel, null, set_proc}
use lab.Space.{Bytes, Space, mm_count_inc, setup_pgdir, put_pgdir, mm_destroy}
use lab.Task.{Trapframe, Thread, Memory, World, reg_sp}
use lab.Fork.{new_space, put_space, drop_space}
use lab.Release.{leave_mm, exit_process}
use lab.Load.{e_inval_elf, elf_magic, Elf, elf_header, Image, load_segments}

-- USTACKTOP and USTACKSIZE of memlayout.h.
abbrev pub ustack_top : ℕ
ustack_top = user_top

abbrev pub ustack_size : ℕ
ustack_size = 256 * page_size

-- PTE_USER of mmu.h.
abbrev pub pte_user : Perm
pte_user = record no_perm { read = true; write = true; exec = true; user = true }

-- A page of the stack, whose allocation is asserted.
unfoldable pub stack_page : ℕ → ℕ → ℕ → Machine → Outcome Machine
stack_page fuel pgdir n m = do
  (page, m') ← pgdir_alloc_page fuel pgdir (ustack_top - n * page_size) pte_user m
  elim page [ none ↦ panic | some p ↦ ok m' ]

unfoldable pub build_stack : ℕ → (ℕ → Bool) → ℕ → Image → Outcome (ℤ × Image)
unfolding stack_page
build_stack fuel kmalloc_ok pgdir i = do
  let bottom = ustack_top - ustack_size
  let flags = bit_or (bit_or vm_read vm_write) vm_stack
  (ret, mm) ← mm_map (kmalloc_ok bottom) i.mm bottom ustack_size flags
  if not (is_zero ret) then ok (ret, record i { mm = mm }) else (do
    m₁ ← stack_page fuel pgdir 1 i.machine
    m₂ ← stack_page fuel pgdir 2 m₁
    m₃ ← stack_page fuel pgdir 3 m₂
    m₄ ← stack_page fuel pgdir 4 m₃
    ok (pos 0, record i { mm = mm; machine = m₄ }))

-- SSTATUS_SPIE and SSTATUS_SPP.
abbrev pub sstatus_spie : ℕ
sstatus_spie = 0x20

abbrev pub sstatus_spp : ℕ
sstatus_spp = 0x100

-- `(sstatus | SSTATUS_SPIE) & ~SSTATUS_SPP`
abbrev pub user_status : ℕ → ℕ
user_status sstatus =
    let s = bit_or sstatus sstatus_spie in if any_of s sstatus_spp then s - sstatus_spp else s

-- The trap frame with which the program starts.
abbrev pub user_frame : ℕ → Trapframe → Trapframe
user_frame entry tf = record {
  gpr = update (λ r. 0) reg_sp ustack_top;
  status = user_status tf.status;
  epc = entry;
  tval = 0;
  cause = 0;
}

-- Steps (5) and (6), with the trap frame that the process has.
abbrev pub user_world : ℕ → ℕ → Trapframe → World → World
user_world mm entry tf w =
    let c = w.kernel.current in
    let space = mm_count_inc (w.memory.spaces mm) in
    let satp = space.pgdir * page_size in
    let k = set_proc w.kernel c (record (w.kernel.procs c) { pgdir = satp }) in
    record w {
      kernel = record k { satp = satp };
      threads =
          update w.threads c (record (w.threads c) { mm = mm; tf = some (user_frame entry tf) });
      memory = put_space mm space w.memory.machine w.memory;
    }

-- A trap frame that is NULL stops the model.
unfoldable pub start_user : ℕ → ℕ → World → Outcome World
start_user mm entry w = elim (w.threads w.kernel.current).tf [
  | none ↦ panic
  | some tf ↦ ok (user_world mm entry tf w)
]

-- The new space with what has been loaded, in the memory.
abbrev pub put_image : ℕ → Image → Memory → Memory
put_image mm i memory = put_space mm (record (memory.spaces mm) { mm = i.mm }) i.machine memory

-- `bad_cleanup_mmap` and what follows.
abbrev pub give_up : ℕ → ℤ → ℕ → Image → World → Outcome (ℤ × World × Bytes)
give_up fuel ret mm i w = do
  (ret', memory) ← drop_space fuel ret mm (put_image mm i w.memory)
  ok (ret', record w { memory = memory }, i.bytes)

-- Step (3.3) and the steps behind it, with the space `mm` and its page directory.
unfoldable pub load_program :
    ℕ → ℕ → (ℕ → Bool) → ℕ → Bytes → Bytes → World → Outcome (ℤ × World × Bytes)
unfolding elf_header load_segments build_stack start_user
load_program rounds fuel kmalloc_ok mm binary bytes w =
    let elf = elf_header binary in
    let space = w.memory.spaces mm in
    let image : Image = record { mm = space.mm; machine = w.memory.machine; bytes = bytes } in
    let bad_elf : Outcome (ℤ × World × Bytes) = (do
      m ← put_pgdir fuel space w.memory.machine
      s ← mm_destroy space
      ok (e_inval_elf, record w { memory = put_space mm s m w.memory }, bytes)) in
    let load : Outcome (ℤ × World × Bytes) = (do
      (ret, i₁) ←
          load_segments elf.e_phnum rounds fuel kmalloc_ok space.pgdir binary elf.e_phoff image
      if not (is_zero ret) then give_up fuel ret mm i₁ w else (do
        (ret', i₂) ← build_stack fuel kmalloc_ok space.pgdir i₁
        if not (is_zero ret') then give_up fuel ret' mm i₂ w else (do
          w' ← start_user mm elf.e_entry (record w { memory = put_image mm i₂ w.memory })
          ok (pos 0, w', i₂.bytes)))) in
    if not (elf.e_magic == elf_magic) then bad_elf else load

-- `mm_at` is what `mm_create` gets.
unfoldable pub load_icode :
    ℕ → ℕ → Option ℕ → (ℕ → Bool) → Bytes → Bytes → World → Outcome (ℤ × World × Bytes)
unfolding load_program
load_icode rounds fuel mm_at kmalloc_ok binary bytes w =
    if not ((w.threads w.kernel.current).mm == null) then panic else elim mm_at [
      | none ↦ ok (e_no_mem, w, bytes)
      | some mm ↦ (do
        (ret, space, m) ← setup_pgdir fuel w.memory.boot new_space w.memory.machine
        let w' : World = record w { memory = put_space mm space m w.memory }
        if is_zero ret then load_program rounds fuel kmalloc_ok mm binary bytes w' else (do
          s ← mm_destroy space
          ok (e_no_mem, record w { memory = put_space mm s m w.memory }, bytes)))
    ]

-- `do_execve` returns, or the process has ended and another one runs.
pub data Executed : Type 0 where
  returned : ℤ → World → Bytes → Executed
  ended : World → Executed

-- The areas of the current process, if it has an address space, and the memory with its areas after
-- a search.
abbrev pub areas_of : ℕ → Memory → Option Mm
areas_of mm memory = if mm == null then none else some (memory.spaces mm).mm

abbrev pub put_areas : ℕ → Option Mm → Memory → Memory
put_areas mm none memory = memory
put_areas mm (some areas) memory =
    put_space mm (record (memory.spaces mm) { mm = areas }) memory.machine memory

unfoldable pub do_execve :
    ℕ → ℕ → Option ℕ → (ℕ → Bool) → ℕ → ℕ → Bytes → Bytes → World → Outcome Executed
unfolding load_icode leave_mm
do_execve rounds fuel mm_at kmalloc_ok name len binary bytes w = do
  let mm = (w.threads w.kernel.current).mm
  (allowed, areas) ← user_mem_check fuel (areas_of mm w.memory) name len false
  let w₁ : World = record w { memory = put_areas mm areas w.memory }
  if not allowed then ok (returned e_inval w₁ bytes) else (do
    w₂ ← leave_mm fuel w₁
    (ret, w₃, bytes') ← load_icode rounds fuel mm_at kmalloc_ok binary bytes w₂
    if is_zero ret
        then ok (returned (pos 0) w₃ bytes')
        else (do w₄ ← exit_process fuel ret w₃; ok (ended w₄)))
