-- ===== src/Exec/Fails.antt =====
-- `do_execve` when the program cannot be loaded.
use lab.Base.{
  ℕ, Bool, true, false, ◌*◌, ◌<◌, ◌≡◌, ◌≢◌, refl, sym, ap, subst, ◌∙◌, ◌==◌, ==_iff, ne→not_eq,
  ==_refl, inl, inr, if◌then◌else◌, if_true, if_false, run_ok, update, not, List, Option, none,
  some, ℤ, pos, Outcome, ok, ◌>>=◌,
}
use lab.Vmm.{Mm, e_no_mem, page_size, user_mem_check}
use lab.Paging.{Machine, is_zero, copy_frame, alloc_pages}
use lab.Proc.{null}
use lab.Exit.Loop.{rev_onto}
use lab.Exit.Done.{CanExit, Exited}
use lab.Space.{Bytes, Space, setup_pgdir, put_pgdir, mm_destroy}
use lab.Task.{Thread, Memory, World}
use lab.Fork.{new_space, put_space, drop_space}
use lab.Release.Ended.{
  Left, leave_space-Left, same_memory, null_cases, CanExit-satp, Exited-satp, exit_process-Exited,
  no_space,
}
use lab.Release.{leave_space, leave_mm, exit_process}
use lab.Load.{e_inval_elf, elf_magic, elf_header, Image, load_segments}
use lab.Exec.Starts.{space_at, blank_image, with_space, with_space-spaces, load_icode-Opens}
use lab.Exec.{
  put_image, load_program, load_icode, Executed, returned, ended, areas_of, put_areas, do_execve,
}

-- The memory with the new space `mm` and its page directory `p`.
abbrev pub memory_with : ℕ → ℕ → Machine → Memory → Memory
memory_with mm p m memory = put_space mm (space_at p) (copy_frame m p memory.boot) memory

-- Why `load_icode` fails with the code `ret`, and the memory that it leaves: there is no memory for the
-- space, no page for its directory, the file has no magic number, or a segment cannot be loaded and
-- exit_mmap, put_pgdir and mm_destroy take apart what has been loaded.
pub data Breaks (rounds fuel : ℕ) (mm_at : Option ℕ) (kmalloc_ok : ℕ → Bool) (binary bytes : Bytes)
    (memory : Memory) (ret : ℤ) (memory' : Memory) : Type 0 where
  no_mm :
      mm_at ≡ none
      → ret ≡ e_no_mem
      → memory' ≡ memory
      → Breaks rounds fuel mm_at kmalloc_ok binary bytes memory ret memory'
  no_directory :
      (mm : ℕ) (m : Machine)
      → mm_at ≡ some mm
      → alloc_pages fuel 1 memory.machine ≡ ok (none, m)
      → ret ≡ e_no_mem
      → memory' ≡ put_space mm new_space m memory
      → Breaks rounds fuel mm_at kmalloc_ok binary bytes memory ret memory'
  no_magic :
      (mm p : ℕ) (m m' : Machine)
      → mm_at ≡ some mm
      → alloc_pages fuel 1 memory.machine ≡ ok (some p, m)
      → p < m.npage
      → (elf_header binary).e_magic ≢ elf_magic
      → put_pgdir fuel (space_at p) (copy_frame m p memory.boot) ≡ ok m'
      → ret ≡ e_inval_elf
      → memory' ≡ put_space mm (space_at p) m' (memory_with mm p m memory)
      → Breaks rounds fuel mm_at kmalloc_ok binary bytes memory ret memory'
  bad_segment :
      (mm p : ℕ) (m : Machine) (i : Image)
      → mm_at ≡ some mm
      → alloc_pages fuel 1 memory.machine ≡ ok (some p, m)
      → p < m.npage
      → (elf_header binary).e_magic ≡ elf_magic
      → load_segments
          (elf_header binary).e_phnum
          rounds
          fuel
          kmalloc_ok
          p
          binary
          (elf_header binary).e_phoff
          (blank_image memory.boot p m bytes)
        ≡ ok (ret, i)
      → is_zero ret ≡ false
      → drop_space fuel ret mm (put_image mm i (memory_with mm p m memory)) ≡ ok (ret, memory')
      → Breaks rounds fuel mm_at kmalloc_ok binary bytes memory ret memory'

-- The bytes that are left are those of the segments before.
abbrev Stops : ℕ → ℕ → Option ℕ → (ℕ → Bool) → Bytes → Bytes → World → ℤ → Memory → Type 0
Stops rounds fuel mm_at kmalloc_ok binary bytes w ret memory' =
    (bytes' : Bytes) × (load_icode rounds fuel mm_at kmalloc_ok binary bytes w
      ≡ ok (ret, record w { memory = memory' }, bytes'))
    × (is_zero ret ≡ false)

load_icode-none :
    (rounds fuel : ℕ) (kmalloc_ok : ℕ → Bool) (binary bytes : Bytes) (w : World)
    → (w.threads w.kernel.current).mm ≡ null
    → load_icode rounds fuel none kmalloc_ok binary bytes w ≡ ok (e_no_mem, w, bytes)
unfolding load_icode
load_icode-none rounds fuel kmalloc_ok binary bytes w e =
    if_false (not ((w.threads w.kernel.current).mm == null)) _ _
      (ap not ((==_iff (w.threads w.kernel.current).mm null).1 e))

load_icode-no_directory :
    (rounds fuel mm : ℕ) (kmalloc_ok : ℕ → Bool) (binary bytes : Bytes) (w : World) (m : Machine)
    → (w.threads w.kernel.current).mm ≡ null
    → alloc_pages fuel 1 w.memory.machine ≡ ok (none, m)
    → load_icode rounds fuel (some mm) kmalloc_ok binary bytes w
      ≡ ok (e_no_mem, record w { memory = put_space mm new_space m w.memory }, bytes)
unfolding load_icode setup_pgdir mm_destroy
load_icode-no_directory rounds fuel mm kmalloc_ok binary bytes w m e none_left =
    if_false (not ((w.threads w.kernel.current).mm == null)) _ _
      (ap not ((==_iff (w.threads w.kernel.current).mm null).1 e))
    ∙ run_ok (setup_pgdir fuel w.memory.boot new_space w.memory.machine) (e_no_mem, new_space, m) _
        (run_ok (alloc_pages fuel 1 w.memory.machine) (none, m) _ none_left)

module _ (rounds fuel mm p : ℕ) (kmalloc_ok : ℕ → Bool) (binary bytes : Bytes) (w : World)
    (e : w.memory.spaces mm ≡ space_at p) where
  load_program-no_magic :
      (m' : Machine)
      → (elf_header binary).e_magic ≢ elf_magic
      → put_pgdir fuel (space_at p) w.memory.machine ≡ ok m'
      → load_program rounds fuel kmalloc_ok mm binary bytes w
        ≡ ok (e_inval_elf, record w { memory = put_space mm (space_at p) m' w.memory }, bytes)
  unfolding load_program mm_destroy
  load_program-no_magic m' magic put =
      if_true (not ((elf_header binary).e_magic == elf_magic)) _ _
        (ap not (ne→not_eq (elf_header binary).e_magic elf_magic magic))
      ∙ run_ok (put_pgdir fuel (w.memory.spaces mm) w.memory.machine) m' _
          (ap (λ s. put_pgdir fuel s w.memory.machine) e ∙ put)
      ∙ run_ok (mm_destroy (w.memory.spaces mm)) (space_at p) _ (ap mm_destroy e)

  load_program-bad_segment :
      (ret : ℤ) (i : Image) (memory' : Memory)
      → (elf_header binary).e_magic ≡ elf_magic
      → load_segments
          (elf_header binary).e_phnum
          rounds
          fuel
          kmalloc_ok
          p
          binary
          (elf_header binary).e_phoff
          (record { mm = new_space.mm; machine = w.memory.machine; bytes = bytes })
        ≡ ok (ret, i)
      → is_zero ret ≡ false
      → drop_space fuel ret mm (put_image mm i w.memory) ≡ ok (ret, memory')
      → load_program rounds fuel kmalloc_ok mm binary bytes w
        ≡ ok (ret, record w { memory = memory' }, i.bytes)
  unfolding load_program
  load_program-bad_segment ret i memory' magic segments bad drop =
      let elf = elf_header binary in
      let space = w.memory.spaces mm in
      if_false (not (elf.e_magic == elf_magic)) _ _
        (ap not ((==_iff elf.e_magic elf_magic).1 magic))
      ∙ run_ok
          (load_segments elf.e_phnum rounds fuel kmalloc_ok space.pgdir binary elf.e_phoff
            (record { mm = space.mm; machine = w.memory.machine; bytes = bytes }))
          (ret, i) _
          (ap
              (λ (x : Space).
                load_segments elf.e_phnum rounds fuel kmalloc_ok x.pgdir binary elf.e_phoff
                  (record { mm = x.mm; machine = w.memory.machine; bytes = bytes }))
              e
            ∙ segments)
      ∙ if_true (not (is_zero ret)) _ _ (ap not bad)
      ∙ run_ok (drop_space fuel ret mm (put_image mm i w.memory)) (ret, memory') _ drop

-- What the four causes have in common.
load_icode-Breaks :
    (rounds fuel : ℕ) (mm_at : Option ℕ) (kmalloc_ok : ℕ → Bool) (binary bytes : Bytes) (w : World)
    (ret : ℤ) (memory' : Memory)
    → (w.threads w.kernel.current).mm ≡ null
    → Breaks rounds fuel mm_at kmalloc_ok binary bytes w.memory ret memory'
    → Stops rounds fuel mm_at kmalloc_ok binary bytes w ret memory'
load_icode-Breaks rounds fuel mm_at kmalloc_ok binary bytes w ret memory' free (no_mm at er em) = (
  bytes,
  ap (λ o. load_icode rounds fuel o kmalloc_ok binary bytes w) at
      ∙ load_icode-none rounds fuel kmalloc_ok binary bytes w free
      ∙ ap (λ r. ok (r, w, bytes)) (sym er)
      ∙ ap (λ x. ok (ret, record w { memory = x }, bytes)) (sym em),
  ap is_zero er,
)
load_icode-Breaks rounds fuel mm_at kmalloc_ok binary bytes w ret memory' free
      (no_directory mm m at alloc er em) =
    (
      bytes,
      ap (λ o. load_icode rounds fuel o kmalloc_ok binary bytes w) at
          ∙ load_icode-no_directory rounds fuel mm kmalloc_ok binary bytes w m free alloc
          ∙ ap (λ r. ok (r, record w { memory = put_space mm new_space m w.memory }, bytes))
              (sym er)
          ∙ ap (λ x. ok (ret, record w { memory = x }, bytes)) (sym em),
      ap is_zero er,
    )
load_icode-Breaks rounds fuel mm_at kmalloc_ok binary bytes w ret memory' free
      (no_magic mm p m m' at alloc known magic put er em) =
    (
      bytes,
      ap (λ o. load_icode rounds fuel o kmalloc_ok binary bytes w) at
          ∙ load_icode-Opens rounds fuel mm p kmalloc_ok binary bytes w m free
              (record { directory = alloc; known = known })
          ∙ load_program-no_magic rounds fuel mm p kmalloc_ok binary bytes (with_space mm p m w)
              (with_space-spaces mm p m w) m' magic put
          ∙ ap
              (λ r. ok (
                r,
                record w { memory = put_space mm (space_at p) m' (memory_with mm p m w.memory) },
                bytes,
              ))
              (sym er)
          ∙ ap (λ x. ok (ret, record w { memory = x }, bytes)) (sym em),
      ap is_zero er,
    )
load_icode-Breaks rounds fuel mm_at kmalloc_ok binary bytes w ret memory' free
      (bad_segment mm p m i at alloc known magic segments bad drop) =
    (
      i.bytes,
      ap (λ o. load_icode rounds fuel o kmalloc_ok binary bytes w) at
          ∙ load_icode-Opens rounds fuel mm p kmalloc_ok binary bytes w m free
              (record { directory = alloc; known = known })
          ∙ load_program-bad_segment rounds fuel mm p kmalloc_ok binary bytes (with_space mm p m w)
              (with_space-spaces mm p m w) ret i memory' magic segments bad drop,
      bad,
    )

-- The current process leaves its address space, if it has one.
record Leaves (w : World) (memory' : Memory) (w' : World) : Type 0 where
  memory : w'.memory ≡ memory'
  no_space_left : (w'.threads w.kernel.current).mm ≡ null
  kernel : w'.kernel ≡ record w.kernel { satp = w'.kernel.satp }

leave_mm-Left :
    (fuel : ℕ) (w : World) (memory' : Memory)
    → Left fuel (w.threads w.kernel.current).mm w.memory memory'
    → (w' : World) × (leave_mm fuel w ≡ ok w') × Leaves w memory' w'
unfolding leave_mm
leave_mm-Left fuel w memory' left =
    let c = w.kernel.current in
    let mm = (w.threads c).mm in
    elim (null_cases mm) [
      | inl none_there ↦ (
        w,
        if_true (mm == null) _ _ ((==_iff mm null).1 none_there),
        record {
          memory = same_memory fuel mm w.memory memory' none_there left;
          no_space_left = none_there;
          kernel = refl;
        },
      )
      | inr there ↦ (
        record w {
          kernel = record w.kernel { satp = w.memory.boot * page_size };
          threads = update w.threads c (record (w.threads c) { mm = null });
          memory = memory';
        },
        if_false (mm == null) _ _ (ne→not_eq mm null there)
            ∙ run_ok (leave_space fuel mm w.memory) memory' _
                (leave_space-Left fuel mm w.memory memory' there left),
        record {
          memory = refl;
          no_space_left =
              ap (λ (x : Thread). x.mm)
                (if_true (c == c) (record (w.threads c) { mm = null }) (w.threads c) (==_refl c));
          kernel = refl;
        },
      )
    ]

-- `do_execve` from the call of `load_icode` on.
abbrev loads_or_exits : ℕ → ℕ → Option ℕ → (ℕ → Bool) → Bytes → Bytes → World → Outcome Executed
loads_or_exits rounds fuel mm_at kmalloc_ok binary bytes w₂ = do
  (ret, w₃, bytes') ← load_icode rounds fuel mm_at kmalloc_ok binary bytes w₂
  if is_zero ret
      then ok (returned (pos 0) w₃ bytes')
      else (do w₄ ← exit_process fuel ret w₃; ok (ended w₄))

loads_or_exits-Exited :
    (rounds fuel : ℕ) (mm_at : Option ℕ) (kmalloc_ok : ℕ → Bool) (binary bytes : Bytes)
    (w w₂ : World) (left memory' : Memory) (ret : ℤ) (cs is l r : List ℕ)
    → CanExit w.kernel fuel cs is l r
    → Leaves w left w₂
    → Breaks rounds fuel mm_at kmalloc_ok binary bytes left ret memory'
    → (w' : World) × (loads_or_exits rounds fuel mm_at kmalloc_ok binary bytes w₂ ≡ ok (ended w'))
      × Exited w.kernel ret (rev_onto cs is) w'.kernel
      × ((w'.threads w.kernel.current).mm ≡ null)
      × (w'.memory ≡ memory')
loads_or_exits-Exited rounds fuel mm_at kmalloc_ok binary bytes w w₂ left memory' ret cs is l r can
      leaves breaks =
    let current : w₂.kernel.current ≡ w.kernel.current = ap (λ k. k.current) leaves.kernel in
    let free : (w₂.threads w₂.kernel.current).mm ≡ null =
      ap (λ q. (w₂.threads q).mm) current ∙ leaves.no_space_left in
    let (bytes', run, bad) =
      load_icode-Breaks rounds fuel mm_at kmalloc_ok binary bytes w₂ ret memory' free (
        subst (λ x. Breaks rounds fuel mm_at kmalloc_ok binary bytes x ret memory')
          (sym leaves.memory) breaks) in
    let (w', exits, exited, unmapped, rest) =
      exit_process-Exited fuel ret (record w₂ { memory = memory' }) memory' cs is l r
        (subst (λ k. CanExit k fuel cs is l r) (sym leaves.kernel)
          (CanExit-satp w.kernel fuel w₂.kernel.satp cs is l r can))
        (no_space free) in
    (
      w',
      run_ok (load_icode rounds fuel mm_at kmalloc_ok binary bytes w₂)
            (ret, record w₂ { memory = memory' }, bytes') _ run
          ∙ if_false (is_zero ret) _ _ bad
          ∙ run_ok (exit_process fuel ret (record w₂ { memory = memory' })) w' _ exits,
      Exited-satp w.kernel w'.kernel ret w₂.kernel.satp (rev_onto cs is)
          (subst (λ k. Exited k ret (rev_onto cs is) w'.kernel) leaves.kernel exited),
      ap (λ q. (w'.threads q).mm) (sym current) ∙ unmapped,
      rest,
    )

-- The current process, which may exit as do_exit asks, may read the name; it has no address space, or
-- leaves it as do_exit would; and load_icode fails: no memory for the new space, no page for its directory, no magic
-- number in the file, or a segment that cannot be loaded, with what has been loaded taken apart without
-- a failure. Then do_execve ends the process: it is a zombie with the error code of load_icode as its exit
-- code and without an address space, its children are given to init, a waiting parent is awake, another process
-- runs, and the memory is what load_icode leaves.
pub do_execve-Exited :
    (rounds fuel : ℕ) (mm_at : Option ℕ) (kmalloc_ok : ℕ → Bool) (name len : ℕ)
    (binary bytes : Bytes) (w : World) (areas : Option Mm) (left memory' : Memory) (ret : ℤ)
    (cs is l r : List ℕ)
    → CanExit w.kernel fuel cs is l r
    → user_mem_check fuel (areas_of (w.threads w.kernel.current).mm w.memory) name len false
      ≡ ok (true, areas)
    → Left fuel
        (w.threads w.kernel.current).mm
        (put_areas (w.threads w.kernel.current).mm areas w.memory)
        left
    → Breaks rounds fuel mm_at kmalloc_ok binary bytes left ret memory'
    → (w' : World) × (do_execve rounds fuel mm_at kmalloc_ok name len binary bytes w
        ≡ ok (ended w'))
      × Exited w.kernel ret (rev_onto cs is) w'.kernel
      × ((w'.threads w.kernel.current).mm ≡ null)
      × (w'.memory ≡ memory')
unfolding do_execve
do_execve-Exited rounds fuel mm_at kmalloc_ok name len binary bytes w areas left memory' ret cs is l
      r can check leaves breaks =
    let w₁ : World = record w {
      memory = put_areas (w.threads w.kernel.current).mm areas w.memory;
    } in
    let (w₂, run, gone) = leave_mm-Left fuel w₁ left leaves in
    let (w', ends, exited, unmapped, rest) =
      loads_or_exits-Exited rounds fuel mm_at kmalloc_ok binary bytes w₁ w₂ left memory' ret cs is l
        r can gone breaks in
    (
      w',
      run_ok
            (user_mem_check fuel (areas_of (w.threads w.kernel.current).mm w.memory) name len false)
            (true, areas) _ check
          ∙ run_ok (leave_mm fuel w₁) w₂ _ run
          ∙ ends,
      exited,
      unmapped,
      rest,
    )
