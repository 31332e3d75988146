-- ===== src/Trap/Kills.antt =====
-- A page fault that cannot be resolved ends the process.
use lab.Base.{
  ℕ, ◌≡◌, ◌≢◌, ◌∙◌, Bool, false, ◌==◌, ne→not_eq, if◌then◌else◌, if_false, run_ok, some, List, ok,
}
use lab.Vmm.{Mm, e_inval}
use lab.Proc.{null}
use lab.Fault.{pf_write, do_pgfault}
use lab.Fault.Refused.{Refused, do_pgfault-e_inval}
use lab.Exit.Loop.{rev_onto}
use lab.Exit.Done.{CanExit, Exited}
use lab.Wait.{e_killed}
use lab.Task.{Memory, World}
use lab.Release.Ended.{Left, exit_process-Exited}
use lab.Trap.{after_fault, page_fault}

-- PF_WRITE for a store.
abbrev pub error_code : Bool → ℕ
error_code store = if store then pf_write else 0

-- A user program of the current process, which has an address space, faults at an address where do_pgfault
-- refuses to help: outside of its areas, or at a page that is not copy-on-write, or not by a write, or
-- in an area that is not writable. The process may exit, and its address space can be left as do_exit
-- leaves it. Then the process is a zombie with the exit code -E_KILLED and without an address space, its
-- children are given to init, a waiting parent is awake, another process runs, and the memory is what is
-- left of the address space, in which only the area that was found last is remembered.
pub page_fault-kills :
    (fuel addr : ℕ) (store : Bool) (w : World) (areas : Mm) (memory' : Memory) (cs is l r : List ℕ)
    → (w.threads w.kernel.current).mm ≢ null
    → Refused
        (w.memory.spaces (w.threads w.kernel.current).mm).mm
        areas
        (w.memory.spaces (w.threads w.kernel.current).mm).pgdir
        (error_code store)
        addr
        w.memory.machine
    → CanExit w.kernel fuel cs is l r
    → Left fuel
        (w.threads w.kernel.current).mm
        (after_fault
          (w.threads w.kernel.current).mm
          (some (areas, (w.memory.spaces (w.threads w.kernel.current).mm).pgdir))
          w.memory.machine
          w.memory)
        memory'
    → (w' : World) × (page_fault fuel false store addr w ≡ ok w')
      × Exited w.kernel e_killed (rev_onto cs is) w'.kernel
      × ((w'.threads w.kernel.current).mm ≡ null)
      × (w'.memory ≡ memory')
unfolding page_fault
page_fault-kills fuel addr store w areas memory' cs is l r ne refused can left =
    let mm = (w.threads w.kernel.current).mm in
    let space = w.memory.spaces mm in
    let m = w.memory.machine in
    let w₁ : World = record w { memory = after_fault mm (some (areas, space.pgdir)) m w.memory } in
    let (w', run, exited, no_mm, rest) =
      exit_process-Exited fuel e_killed w₁ memory' cs is l r can left in
    (
      w',
      if_false (mm == null) _ _ (ne→not_eq mm null ne)
          ∙ run_ok (do_pgfault fuel (some (space.mm, space.pgdir)) (error_code store) addr m)
              (e_inval, some (areas, space.pgdir), m) _
              (do_pgfault-e_inval fuel space.mm areas space.pgdir (error_code store) addr m refused)
          ∙ run,
      exited,
      no_mm,
      rest,
    )
