-- ===== src/Fork/Errors.antt =====
-- The ways in which `do_fork` fails before the child has an address space.
use lab.Base.{ℕ, ◌≤◌, ◌<◌, ◌^◌, ◌≡◌, ◌≢◌, ℤ, none, some, ok}
use lab.Vmm.{e_no_mem}
use lab.Pid.{max_process}
use lab.Paging.{Machine, alloc_pages}
use lab.Task.{World, Heap, kstack_pages}
use lab.Fork.{e_no_free_proc}

-- What is missing, and the return code: room for a process, memory for its structure, or (with the
-- structure at `p`) pages for its kernel stack.
pub data Lacks (fuel p : ℕ) (heap : Heap) (w : World) : ℤ → Type 0 where
  room :
      max_process ≤ w.kernel.nr_process
      → w.kernel.nr_process < 2 ^ 31
      → Lacks fuel p heap w e_no_free_proc
  structure : w.kernel.nr_process < max_process → heap.proc_at ≡ none → Lacks fuel p heap w e_no_mem
  stack_pages :
      (m : Machine)
      → w.kernel.nr_process < max_process
      → heap.proc_at ≡ some p
      → w.kernel.current ≢ p
      → (w.kernel.procs w.kernel.current).wait_state ≡ 0
      → alloc_pages fuel kstack_pages w.memory.machine ≡ ok (none, m)
      → Lacks fuel p heap w e_no_mem

-- No process but `p` is changed, and no list, no count and no pid.
pub record Untouched (p : ℕ) (w w' : World) : Type 0 where
  pub others : (q : ℕ) → q ≢ p → w'.kernel.procs q ≡ w.kernel.procs q
  pub links : w'.kernel.links ≡ w.kernel.links
  pub counted : w'.kernel.nr_process ≡ w.kernel.nr_process
  pub pids : w'.pids ≡ w.pids
  pub hash : w'.hash ≡ w.hash
