-- ===== src/Exec/Examples.antt =====
-- Process 4 of the sample kernel, without an address space, starts a program that has no segments, and
-- tries to start a file without a magic number.
use lab.Exit.Samples.{sample-CanExit}
use lab.Base.{
  ℕ, ◌≡◌, refl, true, false, none, some, Option, [], ◌∷◌, Outcome, ok, ℤ, if◌then◌else◌, ◌==◌,
  arith,
}
use lab.Proc.Samples.{sample}
use lab.Pmm.{default_alloc_pages, default_free_pages}
use lab.Pid.{max_pid}
use lab.Vmm.{user_mem_check}
use lab.Paging.{Machine, zero_pte, alloc_pages, free_pages, copy_frame}
use lab.Paging.Samples.{memory, page_of}
use lab.Exit.Loop.{rev_onto}
use lab.Exit.Done.{Exited}
use lab.Space.{Bytes, put_pgdir}
use lab.Task.{Trapframe, Memory, World, blank_thread}
use lab.Fork.{new_space, put_space}
use lab.Release.Ended.{no_space}
use lab.Load.{Image, elf_header, e_inval_elf}
use lab.Exec.Starts.{blank_image, space_at}
use lab.Exec.Fails.{Breaks, no_magic, memory_with, do_execve-Exited}
use lab.Exec.{build_stack, ended, do_execve}

-- Sixteen free pages at 20.
abbrev roomy : Machine
roomy = record (memory zero_pte 1) {
  area = record (memory zero_pte 1).area {
    pages = λ p.
        if p == 20 then record (page_of 0) { pg_property = true; property = 16 } else page_of 0;
    nr_free = 16;
  };
}

abbrev frame : Trapframe
frame = record { gpr = λ r. r; status = 0x100; epc = 0; tval = 0; cause = 3 }

abbrev world : World
world = record {
  kernel = sample;
  hash = λ h. [];
  pids = record { last_pid = max_pid; next_safe = max_pid };
  threads = λ p. record blank_thread { tf = some frame };
  memory = record { machine = roomy; spaces = λ a. new_space; boot = 1 };
}

abbrev machine_of : Outcome (Option ℕ × Machine) → Machine
machine_of (ok (page, m)) = m
machine_of o = roomy

abbrev with_page : Machine
with_page = machine_of (alloc_pages 9 1 roomy)

abbrev image_of : Outcome (ℤ × Image) → Image
image_of (ok (ret, i)) = i
image_of o = blank_image 1 20 with_page (λ a. 7)

abbrev before_stack : Image
before_stack = blank_image 1 20 with_page (λ a. 7)

abbrev stacked : Image
stacked = image_of (build_stack 9 (λ a. true) 20 before_stack)

-- A file of zeros.
abbrev zeros : Bytes
zeros i = 0

abbrev freed_of : Outcome Machine → Machine
freed_of (ok m) = m
freed_of o = roomy

abbrev freed : Machine
freed = freed_of (put_pgdir 9 (space_at 20) (copy_frame with_page 20 1))

abbrev after_failure : Memory
after_failure = put_space 1 (space_at 20) freed (memory_with 1 20 with_page world.memory)

breaks : Breaks 2 9 (some 1) (λ a. true) zeros (λ a. 7) world.memory e_inval_elf after_failure
unfolding alloc_pages default_alloc_pages free_pages default_free_pages put_pgdir elf_header
breaks = no_magic 1 20 with_page freed refl refl (omega arith) (omega arith) refl refl refl

-- The name is in the kernel's memory.
name_allowed : user_mem_check 9 none 0xFFFFFFFFC0300000 5 false ≡ ok (true, none)
unfolding user_mem_check
name_allowed = refl

do_execve-Exited_example :
    (w' : World) × (do_execve 2 9 (some 1) (λ a. true) 0xFFFFFFFFC0300000 5 zeros (λ a. 7) world
      ≡ ok (ended w'))
    × Exited sample e_inval_elf (rev_onto (6 ∷ 5 ∷ []) (3 ∷ [])) w'.kernel
    × ((w'.threads 4).mm ≡ 0)
    × (w'.memory ≡ after_failure)
do_execve-Exited_example =
    do_execve-Exited 2 9 (some 1) (λ a. true) 0xFFFFFFFFC0300000 5 zeros (λ a. 7) world none
      world.memory after_failure e_inval_elf (6 ∷ 5 ∷ []) (3 ∷ []) (6 ∷ 5 ∷ []) (3 ∷ 2 ∷ [])
      sample-CanExit name_allowed (no_space refl) breaks
