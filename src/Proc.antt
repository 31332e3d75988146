-- ===== src/Proc.antt =====
-- kern/process/proc.h and proc.c: the processes. A process is an address, 0 is NULL, and the store
-- `procs` holds the structure at each address. The `list_link` of the process p is the list entry p,
-- and the head of `proc_list` is the entry 0. The interrupts are off in the functions modelled here.
pub mod Store
pub mod Fields
pub mod Family
pub mod Leave
pub mod Samples
use lab.Base.{ℕ, ◌+◌, ◌-◌, ◌%◌, ◌^◌, Bool, true, false, if◌then◌else◌, update, ◌==◌, ℤ}
use lab.Links.{Links, list_add, list_del}

pub data ProcState : Type 0 where
  uninit sleeping runnable zombie : ProcState

-- `struct proc_struct`. Its stack, trap frame, context, address space and name are not in it.
pub record Proc : Type 0 where
  pub state : ProcState
  pub pid : ℤ
  pub runs : ℕ
  pub need_resched : Bool
  pub parent : ℕ
  pub pgdir : ℕ
  pub flags : ℕ
  pub exit_code : ℤ
  pub wait_state : ℕ
  pub cptr : ℕ
  pub yptr : ℕ
  pub optr : ℕ

-- The variables of proc.c, with the links of `proc_list` and the page table that `satp` points to.
pub record Kernel : Type 0 where
  pub procs : ℕ → Proc
  pub links : Links
  pub current : ℕ
  pub idleproc : ℕ
  pub initproc : ℕ
  pub nr_process : ℕ
  pub satp : ℕ

abbrev pub null : ℕ
null = 0

abbrev pub proc_list : ℕ
proc_list = 0

-- The range of `int`, as a bit pattern.
abbrev pub int_mod : ℕ
int_mod = 2 ^ 32

abbrev pub is_runnable : ProcState → Bool
is_runnable uninit = false
is_runnable sleeping = false
is_runnable runnable = true
is_runnable zombie = false

abbrev pub is_zombie : ProcState → Bool
is_zombie uninit = false
is_zombie sleeping = false
is_zombie runnable = false
is_zombie zombie = true

-- A write to the structure at `p`.
abbrev pub set_proc : Kernel → ℕ → Proc → Kernel
set_proc k p proc = record k { procs = update k.procs p proc }

-- `proc_run`. The registers that `switch_to` saves and loads are not in the model.
unfoldable pub proc_run : ℕ → Kernel → Kernel
proc_run proc k =
    if proc == k.current then k else record k { current = proc; satp = (k.procs proc).pgdir }

unfoldable pub do_yield : Kernel → Kernel
do_yield k = set_proc k k.current (record (k.procs k.current) { need_resched = true })

-- `set_links`
unfoldable pub set_links : ℕ → Kernel → Kernel
set_links proc k =
    let k₁ = record k { links = list_add proc_list proc k.links } in
    let k₂ = set_proc k₁ proc (record (k₁.procs proc) { yptr = null }) in
    let parent = (k₂.procs proc).parent in
    let older = (k₂.procs parent).cptr in
    let k₃ = set_proc k₂ proc (record (k₂.procs proc) { optr = older }) in
    let k₄ =
      if older == null then k₃ else set_proc k₃ older (record (k₃.procs older) { yptr = proc }) in
    let k₅ = set_proc k₄ parent (record (k₄.procs parent) { cptr = proc }) in
    record k₅ { nr_process = (k.nr_process + 1) % int_mod }

-- `remove_links`
unfoldable pub remove_links : ℕ → Kernel → Kernel
remove_links proc k =
    let k₁ = record k { links = list_del proc k.links } in
    let older = (k₁.procs proc).optr in
    let k₂ =
      if older == null
      then k₁
      else set_proc k₁ older (record (k₁.procs older) { yptr = (k₁.procs proc).yptr }) in
    let younger = (k₂.procs proc).yptr in
    let parent = (k₂.procs proc).parent in
    let k₃ =
      if younger == null
      then set_proc k₂ parent (record (k₂.procs parent) { cptr = (k₂.procs proc).optr })
      else set_proc k₂ younger (record (k₂.procs younger) { optr = (k₂.procs proc).optr }) in
    record k₃ { nr_process = (k.nr_process + int_mod - 1) % int_mod }
