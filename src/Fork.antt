-- ===== src/Fork.antt =====
-- `do_fork` of kern/process/proc.c with copy_mm. `kfree` does nothing in the model.
pub mod Enter
pub mod Child
pub mod Made
pub mod Whole
pub mod Errors
mod Examples
use Prim.Native.Nat.{bit_or}
use lab.Base.{
  ℕ, zero, suc, ◌+◌, ◌-◌, ◌*◌, ◌%◌, ◌^◌, Bool, true, false, ◌&&◌, not, ltb, leb, ◌==◌,
  if◌then◌else◌, update, Option, none, some, List, [], ◌∷◌, map, ℤ, pos, negsuc, Outcome, ok,
  out_of_fuel, ◌>>=◌, ◌>>◌, assert,
}
use lab.Links.{Links, list_next}
use lab.Vmm.{Mm, Vma, e_no_mem, page_size, any_of, mm_create}
use lab.Paging.{Machine, is_zero, in_memory, alloc_pages, free_pages}
use lab.Space.{
  Space, mm_count_inc, lock_mm, unlock_mm, dup_mmap, exit_mmap, mm_destroy, setup_pgdir, put_pgdir,
}
use lab.Proc.{uninit, Proc, Kernel, null, proc_list, set_proc, set_links}
use lab.Sched.{wakeup_proc}
use lab.Pid.{max_process, Pids, get_pid}
use lab.Wait.{HashList, hash_proc}
use lab.Task.{
  kstack_pages, Trapframe, Thread, Memory, World, Heap, alloc_proc, set_machine, setup_kstack,
  put_kstack, copy_thread,
}

-- E_NO_FREE_PROC of libs/error.h.
abbrev pub e_no_free_proc : ℤ
e_no_free_proc = negsuc 4

-- CLONE_VM of libs/unistd.h.
abbrev pub clone_vm : ℕ
clone_vm = 0x100

abbrev pub put_space : ℕ → Space → Machine → Memory → Memory
put_space mm space m memory = record memory { machine = m; spaces = update memory.spaces mm space }

-- `bad_dup_cleanup_mmap` and what follows.
unfoldable pub drop_space : ℕ → ℤ → ℕ → Memory → Outcome (ℤ × Memory)
drop_space fuel ret mm memory = do
  m₁ ← exit_mmap fuel (memory.spaces mm) memory.machine
  m₂ ← put_pgdir fuel (memory.spaces mm) m₁
  space ← mm_destroy (memory.spaces mm)
  ok (ret, put_space mm space m₂ memory)

-- `copy_mm` once the new space `mm` has its page directory.
unfoldable pub fill_space : ℕ → (Vma → Bool) → ℕ → ℕ → Memory → Outcome (ℤ × Memory)
unfolding drop_space
fill_space fuel vma_ok mm oldmm memory = do
  locked ← lock_mm (memory.spaces oldmm)
  (ret, space, m) ← dup_mmap fuel vma_ok (memory.spaces mm) locked memory.machine
  old ← unlock_mm locked
  let memory' = put_space oldmm old m (put_space mm space m memory)
  if is_zero ret then ok (pos 0, memory') else drop_space fuel ret mm memory'

-- What `mm_create` gives.
abbrev pub new_space : Space
new_space = record {
  mm = record { mmap_list = []; mmap_cache = none; map_count = 0 };
  pgdir = 0;
  mm_count = 0;
  mm_lock = false;
}

-- A space of its own for the child; `mm` is what `mm_create` gave.
unfoldable pub dup_space : ℕ → (Vma → Bool) → ℕ → ℕ → Memory → Outcome (ℤ × Memory)
unfolding fill_space
dup_space fuel vma_ok mm oldmm memory = do
  (ret, space, m) ← setup_pgdir fuel memory.boot new_space memory.machine
  let memory' = put_space mm space m memory
  if is_zero ret
      then fill_space fuel vma_ok mm oldmm memory'
      else (do s ← mm_destroy space; ok (e_no_mem, put_space mm s m memory'))

-- The address space for the child: shared, or a copy.
unfoldable pub find_mm : ℕ → Heap → ℕ → ℕ → Memory → Outcome (ℤ × ℕ × Memory)
unfolding dup_space
find_mm fuel heap clone_flags oldmm memory =
    if any_of clone_flags clone_vm then ok (pos 0, oldmm, memory) else elim heap.mm_at [
      | none ↦ ok (e_no_mem, null, memory)
      | some mm ↦ (do
        (ret, memory') ← dup_space fuel heap.vma_ok mm oldmm memory
        ok (ret, mm, memory'))
    ]

-- `good_mm`
unfoldable pub take_mm : ℕ → ℕ → World → World
take_mm proc mm w =
    let space = mm_count_inc (w.memory.spaces mm) in
    record w {
      memory = put_space mm space w.memory.machine w.memory;
      threads = update w.threads proc (record (w.threads proc) { mm = mm });
      kernel =
          set_proc w.kernel proc (record (w.kernel.procs proc) { pgdir = space.pgdir * page_size });
    }

unfoldable pub copy_mm : ℕ → Heap → ℕ → ℕ → World → Outcome (ℤ × World)
unfolding find_mm take_mm
copy_mm fuel heap clone_flags proc w =
    let oldmm = (w.threads w.kernel.current).mm in
    if oldmm == null then ok (pos 0, w) else (do
      (ret, mm, memory) ← find_mm fuel heap clone_flags oldmm w.memory
      let w' = record w { memory = memory }
      if is_zero ret then ok (pos 0, take_mm proc mm w') else ok (ret, w'))

-- The processes on `proc_list`, as `get_pid` walks over it.
unfoldable pub walk_list : ℕ → Links → ℕ → Outcome (List ℕ)
unfolding list_next
walk_list zero links le = out_of_fuel
walk_list (suc fuel) links le =
    let le' = list_next le links in
    let rest = (do ps ← walk_list fuel links le'; ok (le' ∷ ps)) in
    if le' == proc_list then ok [] else rest

-- The part of `do_fork` without interrupts: the pid, the hash list and the links.
unfoldable pub enter_proc : ℕ → ℕ → World → Outcome World
unfolding walk_list
enter_proc fuel proc w = do
  listed ← walk_list fuel w.kernel.links proc_list
  pids ← get_pid fuel (map (λ p. (w.kernel.procs p).pid) listed) w.pids
  let k = set_proc w.kernel proc (record (w.kernel.procs proc) { pid = pos pids.last_pid })
  ok (record w { kernel = set_links proc k; hash = hash_proc proc k w.hash; pids = pids })

-- The end of `do_fork`: the result is the pid of the child.
unfoldable pub start_child : ℕ → ℕ → ℕ → Trapframe → World → Outcome (ℤ × World)
unfolding copy_thread enter_proc
start_child fuel proc stack tf w = do
  w₁ ← enter_proc fuel proc (copy_thread proc stack tf w)
  k ← wakeup_proc proc w₁.kernel
  ok ((k.procs proc).pid, record w₁ { kernel = k })

-- `do_fork` with the structure of the child.
unfoldable pub fork_at : ℕ → Heap → ℕ → ℕ → ℕ → Trapframe → World → Outcome (ℤ × World)
unfolding alloc_proc setup_kstack copy_mm put_kstack start_child
fork_at fuel heap clone_flags proc stack tf w = do
  let blank = alloc_proc proc w
  let k = blank.kernel
  let w₁ = record blank { kernel = set_proc k proc (record (k.procs proc) { parent = k.current }) }
  assert ((w₁.kernel.procs k.current).wait_state == 0)
  (ret, w₂) ← setup_kstack fuel proc w₁
  if not (is_zero ret) then ok (e_no_mem, w₂) else (do
    (ret', w₃) ← copy_mm fuel heap clone_flags proc w₂
    if is_zero ret'
        then start_child fuel proc stack tf w₃
        else (do w₄ ← put_kstack fuel proc w₃; ok (e_no_mem, w₄)))

-- `nr_process >= MAX_PROCESS`, of an `int`.
abbrev pub too_many : World → Bool
too_many w = leb max_process w.kernel.nr_process && ltb w.kernel.nr_process (2 ^ 31)

unfoldable pub do_fork : ℕ → Heap → ℕ → ℕ → Trapframe → World → Outcome (ℤ × World)
unfolding fork_at
do_fork fuel heap clone_flags stack tf w =
    if too_many w then ok (e_no_free_proc, w) else elim heap.proc_at [
      | none ↦ ok (e_no_mem, w)
      | some proc ↦ fork_at fuel heap clone_flags proc stack tf w
    ]
