-- ===== src/Exec/Starts.antt =====
-- `load_icode` when all its steps succeed.
use lab.Base.{
  ℕ, Bool, ◌<◌, lt→ltb, assert, ◌*◌, ◌≡◌, ◌≢◌, ap, ◌∙◌, ◌==◌, ==_refl, if_true, if_false, run_ok,
  not, some, pos, ok, ==_iff,
}
use lab.Vmm.{page_size}
use lab.Paging.{Machine, copy_frame, alloc_pages, in_memory}
use lab.Proc.{Proc, null}
use lab.Space.{Bytes, Space, setup_pgdir}
use lab.Task.{Trapframe, World, reg_sp}
use lab.Fork.{new_space, put_space}
use lab.Load.{elf_magic, elf_header, Image, load_segments}
use lab.Exec.{ustack_top, user_status, build_stack, load_program, load_icode}

-- The new space with the page directory `p`, and what is loaded before the first segment.
abbrev pub space_at : ℕ → Space
space_at p = record new_space { pgdir = p }

abbrev pub blank_image : ℕ → ℕ → Machine → Bytes → Image
blank_image boot p m bytes = record {
  mm = new_space.mm;
  machine = copy_frame m p boot;
  bytes = bytes;
}

-- The page directory and the header of the file are there.
pub record Opens (fuel p : ℕ) (binary : Bytes) (w : World) (m : Machine) : Type 0 where
  pub directory : alloc_pages fuel 1 w.memory.machine ≡ ok (some p, m)
  pub known : p < m.npage

-- So are the segments, and the stack: `i` is what is loaded.
pub record Loads (rounds fuel p : ℕ) (kmalloc_ok : ℕ → Bool) (binary bytes : Bytes) (w : World)
    (m : Machine) (i₁ i : Image) : Type 0 where
  pub opens : Opens fuel p binary w m
  pub magic : (elf_header binary).e_magic ≡ elf_magic
  pub segments :
      load_segments
        (elf_header binary).e_phnum
        rounds
        fuel
        kmalloc_ok
        p
        binary
        (elf_header binary).e_phoff
        (blank_image w.memory.boot p m bytes)
      ≡ ok (pos 0, i₁)
  pub stack : build_stack fuel kmalloc_ok p i₁ ≡ ok (pos 0, i)

-- The current process runs the program from `entry` on, in the space `mm`.
pub record Started (mm entry pgdir : ℕ) (tf : Trapframe) (i : Image) (w w' : World) : Type 0 where
  pub own_mm : (w'.threads w.kernel.current).mm ≡ mm
  pub frame :
      (t : Trapframe) × ((w'.threads w.kernel.current).tf ≡ some t)
      × (t.epc ≡ entry)
      × (t.gpr reg_sp ≡ ustack_top)
      × ((r : ℕ) → r ≢ reg_sp → t.gpr r ≡ 0)
      × (t.status ≡ user_status tf.status)
  pub paged : w'.kernel.satp ≡ pgdir * page_size
  pub later_paged : (w'.kernel.procs w.kernel.current).pgdir ≡ pgdir * page_size
  pub areas : (w'.memory.spaces mm).mm ≡ i.mm
  pub directory : (w'.memory.spaces mm).pgdir ≡ pgdir
  pub one_user : (w'.memory.spaces mm).mm_count ≡ 1
  pub machine : w'.memory.machine ≡ i.machine
  pub others : (q : ℕ) → q ≢ w.kernel.current → w'.kernel.procs q ≡ w.kernel.procs q
  pub same_process : w'.kernel.current ≡ w.kernel.current

-- The world with the new space.
abbrev pub with_space : ℕ → ℕ → Machine → World → World
with_space mm p m w = record w {
  memory = put_space mm (space_at p) (copy_frame m p w.memory.boot) w.memory;
}

setup_pgdir-gives :
    (fuel p boot : ℕ) (m m' : Machine)
    → alloc_pages fuel 1 m ≡ ok (some p, m')
    → p < m'.npage
    → setup_pgdir fuel boot new_space m ≡ ok (pos 0, space_at p, copy_frame m' p boot)
unfolding setup_pgdir
setup_pgdir-gives fuel p boot m m' e lt =
    run_ok (alloc_pages fuel 1 m) (some p, m') _ e
    ∙ run_ok (in_memory p m') tt _ (ap assert (lt→ltb p m'.npage lt))

pub load_icode-Opens :
    (rounds fuel mm p : ℕ) (kmalloc_ok : ℕ → Bool) (binary bytes : Bytes) (w : World) (m : Machine)
    → (w.threads w.kernel.current).mm ≡ null
    → Opens fuel p binary w m
    → load_icode rounds fuel (some mm) kmalloc_ok binary bytes w
      ≡ load_program rounds fuel kmalloc_ok mm binary bytes (with_space mm p m w)
unfolding load_icode
load_icode-Opens rounds fuel mm p kmalloc_ok binary bytes w m e o =
    if_false (not ((w.threads w.kernel.current).mm == null)) _ _
      (ap not ((==_iff (w.threads w.kernel.current).mm null).1 e))
    ∙ run_ok (setup_pgdir fuel w.memory.boot new_space w.memory.machine)
        (pos 0, space_at p, copy_frame m p w.memory.boot) _
        (setup_pgdir-gives fuel p w.memory.boot w.memory.machine m o.directory o.known)

pub with_space-spaces :
    (mm p : ℕ) (m : Machine) (w : World) → (with_space mm p m w).memory.spaces mm ≡ space_at p
with_space-spaces mm p m w = if_true (mm == mm) (space_at p) (w.memory.spaces mm) (==_refl mm)

-- `load_program` in a space that has the page directory `p`.
module _ (rounds fuel mm p : ℕ) (kmalloc_ok : ℕ → Bool) (binary bytes : Bytes) (w : World)
    (e : w.memory.spaces mm ≡ space_at p) where
  abbrev pub blank : Image
  blank = record { mm = new_space.mm; machine = w.memory.machine; bytes = bytes }
