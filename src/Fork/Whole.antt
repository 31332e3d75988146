-- ===== src/Fork/Whole.antt =====
-- `do_fork` as a whole.
use lab.Base.{
  ℕ, ◌+◌, ◌%◌, ◌^◌, ◌<◌, ◌≡◌, ◌≢◌, ◌∙◌, ap, subst, false, ◌==◌, ne→not_eq, lt→ltb, if_false, run_ok,
  update, List, assert, pos, none, some, ok, arith,
}
use lab.Vmm.{e_no_mem}
use lab.Pid.Clear.{Unused}
use lab.Pid.{max_process}
use lab.Proc.{Proc}
use lab.Paging.{Machine, alloc_pages, in_memory}
use lab.Task.{Trapframe, Thread, World, Heap, kstack_pages, alloc_proc, set_machine, setup_kstack}
use lab.Fork.Child.{Forked, start_child-Forked}
use lab.Fork.Made.{
  IsFree, HasMm, pids_of-Made, Made-IsReady, with_parent, with_parent-Made, Made-memory,
  copy_mm-Made,
}
use lab.Fork.{too_many, copy_mm, fork_at, do_fork}

-- `setup_kstack` with the pages at `s`.
abbrev with_stack : ℕ → ℕ → Machine → World → World
with_stack p s m w =
    set_machine m (record w { threads = update w.threads p (record (w.threads p) { kstack = s }) })

setup_kstack-some :
    (fuel p s : ℕ) (m : Machine) (w : World)
    → alloc_pages fuel kstack_pages w.memory.machine ≡ ok (some s, m)
    → s < m.npage
    → setup_kstack fuel p w ≡ ok (pos 0, with_stack p s m w)
unfolding setup_kstack
setup_kstack-some fuel p s m w run lt =
    run_ok (alloc_pages fuel kstack_pages w.memory.machine) (some s, m) _ run
    ∙ run_ok (in_memory s m) tt _ (ap assert (lt→ltb s m.npage lt))

same_mm :
    (p s : ℕ) (m : Machine) (w : World)
    → w.kernel.current ≢ p
    → ((with_stack p s m (with_parent p w)).threads w.kernel.current).mm
      ≡ (w.threads w.kernel.current).mm
unfolding alloc_proc
same_mm p s m w ne =
    let c = w.kernel.current in
    ap (λ (x : Thread). x.mm) (if_false (c == p) _ _ (ne→not_eq c p ne))
    ∙ ap (λ (x : Thread). x.mm) (if_false (c == p) _ (w.threads c) (ne→not_eq c p ne))

pub not_too_many : (w : World) → w.kernel.nr_process < max_process → too_many w ≡ false
not_too_many w lt = ground arith

pub waits_not :
    (p : ℕ) (w : World)
    → w.kernel.current ≢ p
    → (w.kernel.procs w.kernel.current).wait_state ≡ 0
    → assert (((with_parent p w).kernel.procs w.kernel.current).wait_state == 0) ≡ ok tt
waits_not p w ne e =
    let made = with_parent-Made p w in
    ap (λ x. assert (x == 0))
      (ap (λ (x : Proc). x.wait_state) (made.others w.kernel.current ne) ∙ e)

-- There is room for a process and kmalloc gives it the address p, which is no process on proc_list and
-- no child of the current process; the current process does not wait; the allocator gives pages for the
-- kernel stack; and the parent has no address space, or copy_mm gets one for the child, shared or
-- copied. Then do_fork returns a pid from 1 on and below MAX_PID that no process on the list had, and
-- under which find_proc finds p. The child p may run and is the youngest child of the current process,
-- before the children it had; p is in front on proc_list and counted; and p's trap frame is the
-- parent's, with 0 in a0 and the given stack, if it is not 0. The parent goes on to run, and the trap
-- frames, stacks and address spaces of the other processes are those of before.
pub do_fork-Forked :
    (fuel p s clone_flags stack : ℕ) (heap : Heap) (cs ps : List ℕ) (tf : Trapframe) (w : World)
    (m : Machine)
    → IsFree fuel p cs ps w
    → w.kernel.nr_process < max_process
    → heap.proc_at ≡ some p
    → (w.kernel.procs w.kernel.current).wait_state ≡ 0
    → alloc_pages fuel kstack_pages w.memory.machine ≡ ok (some s, m)
    → s < m.npage
    → HasMm fuel heap clone_flags (w.threads w.kernel.current).mm (record w.memory { machine = m })
    → (pid : ℕ) × (w' : World) × (do_fork fuel heap clone_flags stack tf w ≡ ok (pos pid, w'))
      × Forked p w.kernel.current pid stack cs ps tf w w'
unfolding do_fork fork_at alloc_proc
do_fork-Forked fuel p s clone_flags stack heap cs ps tf w m f room e idle stack_pages lt has =
    let c = w.kernel.current in
    let w₁ = with_parent p w in
    let made₁ = with_parent-Made p w in
    let w₂ = with_stack p s m w₁ in
    let made₂ =
      Made-memory p c w w₁ w₂.memory w₂.threads made₁
        (λ q ne. if_false (q == p) _ (w₁.threads q) (ne→not_eq q p ne)) in
    let (w₃, run₃, made₃) =
      copy_mm-Made fuel clone_flags p c (w.threads c).mm heap w w₂ made₂
        (same_mm p s m w f.not_current) has in
    let (pid, w', run, forked) =
      start_child-Forked fuel p c stack cs ps tf w₃ (Made-IsReady fuel p cs ps w w₃ f made₃) in
    (
      pid,
      w',
      if_false (too_many w) _ _ (not_too_many w room)
          ∙ ap
              (λ o. elim o [
                | none ↦ ok (e_no_mem, w)
                | some q ↦ fork_at fuel heap clone_flags q stack tf w
              ])
              e
          ∙ run_ok (assert ((w₁.kernel.procs c).wait_state == 0)) tt _
              (waits_not p w f.not_current idle)
          ∙ run_ok (setup_kstack fuel p w₁) (pos 0, w₂) _
              (setup_kstack-some fuel p s m w₁ stack_pages lt)
          ∙ run_ok (copy_mm fuel heap clone_flags p w₂) (pos 0, w₃) _ run₃
          ∙ run,
      record {
        low = forked.low;
        high = forked.high;
        unused = subst (Unused pid) (pids_of-Made p c w w₃ ps made₃ f.not_listed.1) forked.unused;
        found = forked.found;
        can_run = forked.can_run;
        youngest = forked.youngest;
        listed = forked.listed;
        counted = forked.counted ∙ ap (λ n. (n + 1) % 2 ^ 32) made₃.counted;
        frame = forked.frame;
        current = forked.current ∙ made₃.current;
        others = λ q ne. forked.others q ne ∙ made₃.threads q ne;
      },
    )
