-- ===== src/Trap/Examples.antt =====
-- Process 4 of the sample kernel reads at an address where it has no area; another process uses its
-- address space too.
use lab.Exit.Samples.{sample-CanExit}
use lab.Base.{
  ℕ, ◌≡◌, ◌==◌, if◌then◌else◌, refl, inl, [], ◌∷◌, none, some, true, false, ok, panic, inr, update,
  Outcome, out_of_fuel, ℤ, pos, arith,
}
use lab.Proc.Samples.{sample, sample_list, sample_Ring, sample-Family}
use lab.Pmm.{take_pages, default_alloc_pages, first_fit, split_block}
use lab.Vmm.{Mm, Vma, find_vma, insert_vma_struct}
use lab.Pid.{max_pid}
use lab.Paging.{
  Machine, Pte, no_perm, pte_create, zero_pte, alloc_pages, get_pte, next_level, page_insert,
  insert_at, pte2page,
}
use lab.Ranges.{copy_range, copy_pages, copy_page, share_page}
use lab.Paging.Samples.{memory, pages_of, page_of}
use lab.Exit.Loop.{rev_onto}
use lab.Exit.Done.{Exited}
use lab.Fault.Refused.{Refused, no_area}
use lab.Wait.{e_killed}
use lab.Space.{Space, setup_pgdir, dup_mmap, dup_vmas}
use lab.Task.{Trapframe, Memory, World, Heap, blank_thread, kstack_pages}
use lab.Fork.Made.{IsFree}
use lab.Fork.{put_space, find_mm, dup_space, fill_space}
use lab.Release.Ended.{Left, still_used}
use lab.Syscall.{Outside}
use lab.Trap.Dispatch.{Machinery, comes_back, exception_handler}
use lab.Trap.Forks.{Twice, exception_handler-Twice}
use lab.Trap.Kills.{page_fault-kills}
use lab.Trap.{after_fault, page_fault}

abbrev data_area : Vma
data_area = record { vm_start = 0x803000; vm_end = 0x805000; vm_flags = 3 }

abbrev user_mm : Mm
user_mm = record { mmap_list = data_area ∷ []; mmap_cache = none; map_count = 1 }

abbrev space : ℕ → Space
space mm_count = record { mm = user_mm; pgdir = 10; mm_count = mm_count; mm_lock = false }

abbrev world : World
world = record {
  kernel = sample;
  hash = λ h. [];
  pids = record { last_pid = max_pid; next_safe = max_pid };
  threads = λ p. record blank_thread { mm = 1 };
  memory = record { machine = memory zero_pte 1; spaces = λ a. space 2; boot = 1 };
}

abbrev faulted : Memory
faulted = after_fault 1 (some (user_mm, 10)) world.memory.machine world.memory

abbrev one_user_less : Memory
one_user_less = put_space 1 (record (faulted.spaces 1) { mm_count = 1 }) faulted.machine faulted

world-Left : Left 9 1 faulted one_user_less
world-Left = still_used (omega arith) (omega arith) (omega arith)

world-Refused : Refused user_mm user_mm 10 0 0x900000 (memory zero_pte 1)
unfolding find_vma
world-Refused = no_area refl

page_fault-kills_example :
    (w' : World) × (page_fault 9 false false 0x900000 world ≡ ok w')
    × Exited sample e_killed (rev_onto (6 ∷ 5 ∷ []) (3 ∷ [])) w'.kernel
    × ((w'.threads 4).mm ≡ 0)
    × (w'.memory ≡ one_user_less)
page_fault-kills_example =
    page_fault-kills 9 0x900000 false world user_mm one_user_less (6 ∷ 5 ∷ []) (3 ∷ []) (6 ∷ 5 ∷ [])
      (3 ∷ 2 ∷ []) (omega arith) world-Refused sample-CanExit world-Left

-- The program of process 4 executes an illegal instruction.
abbrev illegal : Trapframe
illegal = record { gpr = λ r. 17; status = 0; epc = 0x800020; tval = 0; cause = 2 }

abbrev machinery : Machinery
machinery = record { world = world; ticks = 5; bytes = λ a. 7 }

abbrev heap : Heap
heap = record { proc_at = some 9; mm_at = some 2; vma_ok = λ v. true }

abbrev outside : Outside
outside = record { heap = heap; area_ok = λ a. true; at_address = λ a i. 0 }

-- It forks. Its data area has one page, 13, and there are pages enough for the child's stack and tables.
abbrev forking : Trapframe
forking = record {
  gpr = λ r. if r == 10 then 2 else 0x7FFF0000;
  status = 0;
  epc = 0x800020;
  tval = 0;
  cause = 8;
}

abbrev data_pte : Pte
data_pte = pte_create 13 (record no_perm { read = true; write = true; user = true })

abbrev roomy : Machine
roomy = record (memory data_pte 1) {
  area = record (memory data_pte 1).area {
    pages = update (pages_of 1) 20 (record (page_of 0) { pg_property = true; property = 8 });
    nr_free = 8;
  };
}

abbrev user_world : World
user_world = record world { memory = record world.memory { machine = roomy } }

abbrev stacked : Machine
stacked = record roomy { area = take_pages 20 2 roomy.area }

gives_stack : alloc_pages 60000 kstack_pages roomy ≡ ok (some 20, stacked)
unfolding alloc_pages default_alloc_pages
gives_stack = refl

-- The child's address space, with the data page shared copy-on-write.
abbrev memory_of : Outcome (ℤ × ℕ × Memory) → Memory
memory_of (ok (ret, mm, memory)) = memory
memory_of panic = user_world.memory
memory_of out_of_fuel = user_world.memory

abbrev copied : Outcome (ℤ × ℕ × Memory)
copied = find_mm 60000 heap 0 1 (record user_world.memory { machine = stacked })

copies_mm :
    (copied ≡ ok (pos 0, 2, memory_of copied))
    × (((memory_of copied).machine.area.pages 13).ref ≡ 2)
unfolding find_mm dup_space fill_space setup_pgdir dup_mmap dup_vmas copy_range copy_pages copy_page
    share_page get_pte next_level page_insert insert_at pte2page alloc_pages default_alloc_pages
    first_fit split_block take_pages insert_vma_struct find_vma
copies_mm = (refl, refl)

world-IsFree : IsFree 60000 9 (6 ∷ 5 ∷ []) sample_list user_world
world-IsFree = record {
  not_null = omega arith;
  not_current = omega arith;
  children = sample-Family;
  not_child = omega arith;
  listed = sample_Ring;
  not_listed = omega arith;
  valid = record {
    high = omega arith;
    clear = (
      inl (omega arith),
      (inl (omega arith), (inl (omega arith), (inl (omega arith), (inl (omega arith), tt)))),
    );
  };
  few = omega arith;
  enough = omega arith;
}

exception_handler-Twice_example :
    (pid : ℕ) × (c' : Machinery) × (exception_handler 2 60000 outside forking
        (record machinery { world = user_world })
      ≡ ok (comes_back c'))
    × Twice 9 4 pid forking c'.world
exception_handler-Twice_example =
    exception_handler-Twice 2 60000 9 20 outside (6 ∷ 5 ∷ []) sample_list forking
      (record machinery { world = user_world }) stacked refl refl (omega arith) world-IsFree
      (omega arith) refl refl gives_stack (omega arith)
      (inr (2, memory_of copied, omega arith, copies_mm.0))
