-- ===== src/Lib.antt =====
-- Verification library of the teaching kernel under Code/.
--
-- Parts, from the bottom up. Paths are from the repository's root.
--
-- Links models Code/libs/list.h, the circular lists of the kernel. The `prev` and `next` fields of
-- all entries are two stores, and each function (list_init, list_add, list_add_before, list_del, ...)
-- is a function on them under the C name; `__list_add` and `__list_del` are list_add_between and
-- list_del_between. Links/Ring says when the stores hold a given list.
--
-- Pmm models Code/kern/mm/default_pmm.c, the first-fit allocator of physical pages, on pointers: the
-- page array and the links of Links. A page is its index in `pages`. Its operations are
-- default_init, default_init_memmap, default_alloc_pages, default_free_pages and
-- default_nr_free_pages; loops in them are functions of their own (claim_pages, first_fit,
-- insert_scan, reset_pages). Pmm/Blocks and Pmm/Rep relate the pointers to a list of free blocks,
-- and the other files follow the operations. Loops over the free list run on fuel; one more than
-- the number of free blocks is enough to allocate and to free, and two more to free behind the
-- last block.
--
-- Vmm models the areas of an address space in Code/kern/mm/vmm.c (vma_create, find_vma,
-- insert_vma_struct, mm_map, user_mem_check). The list of areas is a list here, and the cache holds
-- an area. Whether kmalloc gives memory is an argument. The loop of user_mem_check runs on fuel;
-- one more than the number of areas is enough. The fields of `struct mm_struct` for page tables and
-- sharing (pgdir, sm_priv, mm_count, mm_lock) are not part of this model.
--
-- Proc models the processes of Code/kern/process/proc.c and proc.h: a process is an address, `procs`
-- is the store of `struct proc_struct`, and `Kernel` holds it with the variables current, idleproc,
-- initproc and nr_process and with the links of proc_list. Its operations are set_links,
-- remove_links, proc_run and do_yield. Proc/Family says when the pointers cptr, yptr and optr hold a
-- list of children. The other parts of proc.c use it: Pid models get_pid, with its static variables
-- as a record; Exit models do_exit, which uses schedule and wakeup_proc; Wait models the hash lists,
-- find_proc, do_kill and do_wait. In do_wait the process may sleep: wait_round ends with the other
-- process that runs, and wait_resume is what the process does when it runs again. Sched models
-- Code/kern/schedule/sched.c on the pointers of proc_list, and hash32 of Code/libs/hash.c is in Wait.
-- Fuel: get_pid needs MAX_PID walks over the list, schedule one walk and one step more, do_exit and
-- do_wait one more than the children. The stack, the trap frame, the registers and the
-- address space of a process are in Task, and its name is not in the model. Interrupts are off in
-- these functions, so each is one step.
--
-- Paging models the page tables of Code/kern/mm/pmm.c, pmm.h and mmu.h: physical memory is the words
-- of each page, read as page table entries, and a page is named by its physical page number. Its
-- operations are get_pte, get_page, page_insert, page_remove, pgdir_alloc_page and the helpers of pmm.h
-- (pte_create, pte2page, page_ref_inc, page_ref_dec, ...); pages come from the allocator of Pmm. Ranges
-- models unmap_range, exit_range and copy_range on them, and Fault models do_pgfault of
-- Code/kern/mm/vmm.c, which resolves a write to a page that is shared copy-on-write, with the page lock
-- of Code/kern/sync/sync.h. A lock that is held is where another process runs, and the model stops
-- there; fault_locked is what follows, on whatever memory that process has left. The TLB, memory
-- barriers and messages are not in the model.
--
-- Space joins the areas of Vmm with page directories: dup_mmap, exit_mmap, mm_destroy, copy_from_user
-- and copy_to_user of Code/kern/mm/vmm.c, and setup_pgdir and put_pgdir of Code/kern/process/proc.c.
-- Task has the parts of a process that fork makes (alloc_proc, setup_kstack, put_kstack, copy_thread)
-- and World, the state of all parts together; Fork models copy_mm and do_fork on it, and Release
-- do_exit with the address space that the process leaves. Which addresses
-- kmalloc gives is an argument. For do_fork the fuel that get_pid needs is enough; memory that is given
-- back to kmalloc is forgotten.
--
-- Load models the part of load_icode in Code/kern/process/proc.c that fills the segments of a program,
-- with the headers of Code/libs/elf.h: the bytes of memory are a store by physical address beside the
-- words that the page tables are made of, and the file is a store too. Its two loops over pages are
-- fill_pages, which takes the file or zeros as the source, and the part between them is clear_rest; one
-- round more than the pages of the segment is enough. The check in page2kva that the page is in memory is
-- left out, since pages come from the allocator. Exec models the rest of load_icode, with its
-- error paths, and do_execve. Syscall models Code/kern/syscall/syscall.c on World, with the part of
-- do_wait that gives a kernel stack back; a call that sleeps or ends its process answers `elsewhere`.
--
-- Trap models the timer interrupt, the page faults of user programs and the end of a trap in
-- Code/kern/trap/trap.c, and Trap/Dispatch joins them with the system calls: interrupt_handler,
-- exception_handler, trap_dispatch and trap. A trap returns to its trap frame, or waits for it while
-- another process runs, or does not return.
--
-- Strings models Code/libs/string.c on a memory of bytes under the C names; a loop up to the zero of a
-- string runs on fuel, and one more than the characters is enough. Print models
-- Code/libs/printfmt.c: printnum and vprintfmt, which print a list of characters, with the arguments
-- as a list (Print/Format), and sprintputch and vsnprintf (Print/Buffer). The fuel of printnum is that
-- of 64 bits in base 2, and vprintfmt needs one more than the characters of the format. printfmt and
-- snprintf only pass their arguments on.
--
-- Kmalloc models Code/kern/mm/kmalloc.c, with the blocks in stores by their addresses, which count units
-- of 16 bytes, and big blocks in a list; fuel bounds the walks over the free list. The other parts take
-- what kmalloc gives as an argument.
--
-- Dtb models Code/kern/driver/dtb.c, which takes the size of physical memory from the device tree, on
-- the bytes of memory; Dtb/Tree says what a tree is as a list of tokens. The loop runs on fuel, and one
-- round more than the tokens is enough. Rand models Code/libs/rand.c.
-- Boot models init_pmm_manager and page_init of Code/kern/mm/pmm.c, which make the free list of Pmm from
-- what Dtb found.
--
-- Not modelled at all: the rest of the start of the kernel, the other drivers, the assembly, the user
-- programs.
--
-- Base holds what the parts share: tests on numbers, lists, and `Outcome`, the result of code with
-- assertions: a value, a failed assertion (panic), or a loop that ran out of fuel.
mod Base
pub mod Links
pub mod Pmm
pub mod Vmm
pub mod Proc
pub mod Sched
pub mod Pid
pub mod Exit
pub mod Wait
pub mod Paging
pub mod Ranges
pub mod Fault
pub mod Space
pub mod Task
pub mod Fork
pub mod Strings
pub mod Print
pub mod Release
pub mod Load
pub mod Exec
pub mod Syscall
pub mod Rand
pub mod Boot
pub mod Dtb
pub mod Kmalloc
pub mod Trap
