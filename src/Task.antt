-- ===== src/Task.antt =====
-- The parts of a process that kern/process/proc.c gives it when it is made: alloc_proc, setup_kstack,
-- put_kstack and copy_thread. `World` joins the states of the parts of the kernel. Which addresses
-- `kmalloc` gives is an argument. Kernel stacks and page directories are named by their first page.
use lab.Base.{
  ℕ, ◌+◌, ◌-◌, ◌*◌, ◌%◌, ◌^◌, Bool, false, ◌==◌, if◌then◌else◌, update, Option, none, some, ℤ, pos,
  negsuc, Outcome, ok, ◌>>=◌, ◌>>◌,
}
use lab.Vmm.{Vma, e_no_mem, page_size}
use lab.Paging.{Machine, in_memory, alloc_pages, free_pages}
use lab.Space.{Space}
use lab.Proc.{uninit, Kernel, null, set_proc}
use lab.Pid.{Pids}
use lab.Wait.{HashList}

-- KSTACKPAGE of memlayout.h.
abbrev pub kstack_pages : ℕ
kstack_pages = 2

-- `page2kva`, with PHYSICAL_MEMORY_OFFSET.
abbrev pub page2kva : ℕ → ℕ
page2kva page = (page * page_size + 0xFFFFFFFF40000000) % 2 ^ 64

-- `struct trapframe`: the registers by their numbers, and the control registers.
pub record Trapframe : Type 0 where
  pub gpr : ℕ → ℕ
  pub status : ℕ
  pub epc : ℕ
  pub tval : ℕ
  pub cause : ℕ

-- Where a new context goes on.
pub data Entry : Type 0 where
  nowhere forkret : Entry

-- The rest of `struct proc_struct`: the address space, the kernel stack, the trap frame (with its
-- address) and the registers ra and sp of the context.
pub record Thread : Type 0 where
  pub mm : ℕ
  pub kstack : ℕ
  pub tf : Option Trapframe
  pub tf_at : ℕ
  pub ra : Entry
  pub sp : ℕ

-- Physical memory, the address spaces by their addresses, and the page of boot_pgdir_va.
pub record Memory : Type 0 where
  pub machine : Machine
  pub spaces : ℕ → Space
  pub boot : ℕ

pub record World : Type 0 where
  pub kernel : Kernel
  pub hash : HashList
  pub pids : Pids
  pub threads : ℕ → Thread
  pub memory : Memory

-- What `kmalloc` gives: the address of a process, that of an address space, and memory for an area.
pub record Heap : Type 0 where
  pub proc_at : Option ℕ
  pub mm_at : Option ℕ
  pub vma_ok : Vma → Bool

abbrev pub blank_thread : Thread
blank_thread = record { mm = null; kstack = 0; tf = none; tf_at = 0; ra = nowhere; sp = 0 }

-- `alloc_proc` at the address that `kmalloc` gave; exit_code keeps what was there.
unfoldable pub alloc_proc : ℕ → World → World
alloc_proc proc w = record w {
  kernel = set_proc w.kernel proc (record {
    state = uninit;
    pid = negsuc 0;
    runs = 0;
    need_resched = false;
    parent = null;
    pgdir = w.memory.boot * page_size;
    flags = 0;
    exit_code = (w.kernel.procs proc).exit_code;
    wait_state = 0;
    cptr = null;
    yptr = null;
    optr = null;
  });
  threads = update w.threads proc blank_thread;
}

abbrev pub set_machine : Machine → World → World
set_machine m w = record w { memory = record w.memory { machine = m } }

unfoldable pub setup_kstack : ℕ → ℕ → World → Outcome (ℤ × World)
setup_kstack fuel proc w = do
  (page, m) ← alloc_pages fuel kstack_pages w.memory.machine
  elim page [
    | none ↦ ok (e_no_mem, set_machine m w)
    | some p ↦ (do
      in_memory p m
      ok (
        pos 0,
        set_machine m
            (record w { threads = update w.threads proc (record (w.threads proc) { kstack = p }) }),
      ))
  ]

unfoldable pub put_kstack : ℕ → ℕ → World → Outcome World
put_kstack fuel proc w = do
  in_memory (w.threads proc).kstack w.memory.machine
  m ← free_pages fuel (w.threads proc).kstack kstack_pages w.memory.machine
  ok (set_machine m w)

-- Registers a0 and sp.
abbrev pub reg_a0 : ℕ
reg_a0 = 10

abbrev pub reg_sp : ℕ
reg_sp = 2

-- The trap frame of 36 words ends at the top of the stack.
unfoldable pub copy_thread : ℕ → ℕ → Trapframe → World → World
copy_thread proc esp tf w =
    let at = (page2kva (w.threads proc).kstack + kstack_pages * page_size - 36 * 8) % 2 ^ 64 in
    let sp = if esp == 0 then at else esp in
    let tf' = record tf { gpr = update (update tf.gpr reg_a0 0) reg_sp sp } in
    let thread = record (w.threads proc) { tf = some tf'; tf_at = at; ra = forkret; sp = at } in
    record w { threads = update w.threads proc thread }
