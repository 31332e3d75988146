-- ===== src/Fork/Examples.antt =====
-- Process 4 of the sample kernel forks.
use lab.Base.{ℕ, ◌≡◌, refl, inl, inr, true, false, none, some, [], ◌∷◌, pos, ok, arith}
use lab.Proc.Samples.{sample, sample_list, sample_Ring, sample-Family}
use lab.Pmm.{take_pages, default_alloc_pages}
use lab.Pid.{max_pid}
use lab.Paging.{Machine, zero_pte, alloc_pages}
use lab.Paging.Samples.{memory, full}
use lab.Space.{Space}
use lab.Task.{Trapframe, World, Heap, blank_thread, kstack_pages}
use lab.Fork.Child.{Forked}
use lab.Fork.Made.{IsFree}
use lab.Fork.Whole.{do_fork-Forked}
use lab.Fork.{clone_vm, find_mm, do_fork}

abbrev space : Space
space = record {
  mm = record { mmap_list = []; mmap_cache = none; map_count = 0 };
  pgdir = 10;
  mm_count = 1;
  mm_lock = false;
}

abbrev world : World
world = record {
  kernel = sample;
  hash = λ h. [];
  pids = record { last_pid = max_pid; next_safe = max_pid };
  threads = λ p. record blank_thread { mm = 1 };
  memory = record { machine = memory zero_pte 1; spaces = λ a. space; boot = 1 };
}

abbrev heap : Heap
heap = record { proc_at = some 9; mm_at = none; vma_ok = λ v. true }

abbrev frame : Trapframe
frame = record { gpr = λ r. r; status = 0; epc = 0x800020; tval = 0; cause = 8 }

world-IsFree : IsFree 60000 9 (6 ∷ 5 ∷ []) sample_list world
world-IsFree = record {
  not_null = omega arith;
  not_current = omega arith;
  children = sample-Family;
  not_child = omega arith;
  listed = sample_Ring;
  not_listed = omega arith;
  valid = record {
    high = omega arith;
    clear = (
      inl (omega arith),
      (inl (omega arith), (inl (omega arith), (inl (omega arith), (inl (omega arith), tt)))),
    );
  };
  few = omega arith;
  enough = omega arith;
}

abbrev stacked : Machine
stacked = record (memory zero_pte 1) { area = take_pages 20 2 (memory zero_pte 1).area }

gives_stack : alloc_pages 60000 kstack_pages (memory zero_pte 1) ≡ ok (some 20, stacked)
unfolding alloc_pages default_alloc_pages
gives_stack = refl

shares_mm :
    find_mm 60000 heap clone_vm 1 (record world.memory { machine = stacked })
    ≡ ok (pos 0, 1, record world.memory { machine = stacked })
unfolding find_mm
shares_mm = refl

do_fork-Forked_example :
    (pid : ℕ) × (w' : World) × (do_fork 60000 heap clone_vm 0x7FFF0000 frame world
      ≡ ok (pos pid, w'))
    × Forked 9 4 pid 0x7FFF0000 (6 ∷ 5 ∷ []) sample_list frame world w'
do_fork-Forked_example =
    do_fork-Forked 60000 9 20 clone_vm 0x7FFF0000 heap (6 ∷ 5 ∷ []) sample_list frame world stacked
      world-IsFree (omega arith) refl refl gives_stack (omega arith)
      (inr (1, record world.memory { machine = stacked }, omega arith, shares_mm))

-- No page is free for the stack.
abbrev full_world : World
full_world = record world { memory = record world.memory { machine = full zero_pte 1 } }
