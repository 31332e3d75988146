-- ===== src/Space.antt =====
-- The address spaces of kern/mm/vmm.c and vmm.h with their page tables: dup_mmap, exit_mmap,
-- mm_destroy, the copies from and to user memory, and setup_pgdir and put_pgdir of
-- kern/process/proc.c. `sm_priv` is not in the model, and `kfree` does nothing in it.
pub mod Copies
mod Examples
use lab.Base.{
  ℕ, suc, ◌+◌, ◌-◌, ◌%◌, ◌^◌, Bool, true, false, not, ltb, ◌&&◌, ◌==◌, if◌then◌else◌, update,
  Option, none, some, List, [], ◌∷◌, ◌++◌, ℤ, pos, Outcome, ok, out_of_fuel, ◌>>=◌, ◌>>◌, assert,
}
use lab.Vmm.{Mm, Vma, e_no_mem, vma_create, insert_vma_struct, user_mem_check}
use lab.Paging.{Machine, copy_frame, int_mod, is_zero, in_memory, alloc_pages, free_pages}
use lab.Ranges.{unmap_range, exit_range, copy_range}

-- `struct mm_struct`: the areas, with the page directory, the number of processes that use it, and
-- its lock.
pub record Space : Type 0 where
  pub mm : Mm
  pub pgdir : ℕ
  pub mm_count : ℕ
  pub mm_lock : Bool

abbrev pub mm_count_inc : Space → Space
mm_count_inc space = record space { mm_count = (space.mm_count + 1) % int_mod }

abbrev pub mm_count_dec : Space → Space
mm_count_dec space = record space { mm_count = (space.mm_count + int_mod - 1) % int_mod }

abbrev pub lock_mm : Space → Outcome Space
lock_mm space = if space.mm_lock then out_of_fuel else ok (record space { mm_lock = true })

abbrev pub unlock_mm : Space → Outcome Space
unlock_mm space = do assert space.mm_lock; ok (record space { mm_lock = false })

-- The list from its end, as `list_prev` walks.
abbrev pub backwards : List Vma → List Vma
backwards [] = []
backwards (v ∷ vs) = backwards vs ++ v ∷ []

-- The loop of `dup_mmap`; `kmalloc_ok` tells of each area whether `vma_create` gets its memory.
unfoldable pub dup_vmas :
    ℕ → (Vma → Bool) → List Vma → ℕ → ℕ → Mm → Machine → Outcome (ℤ × Mm × Machine)
unfolding vma_create insert_vma_struct
dup_vmas fuel kmalloc_ok [] to from mm m = ok (pos 0, mm, m)
dup_vmas fuel kmalloc_ok (vma ∷ vmas) to from mm m =
    elim (vma_create (kmalloc_ok vma) vma.vm_start vma.vm_end vma.vm_flags) [
      | none ↦ ok (e_no_mem, mm, m)
      | some nvma ↦ (do
        mm' ← insert_vma_struct mm nvma
        (ret, m') ← copy_range fuel to from vma.vm_start vma.vm_end m
        let rest = dup_vmas fuel kmalloc_ok vmas to from mm' m'
        if is_zero ret then rest else ok (e_no_mem, mm', m'))
    ]

unfoldable pub dup_mmap : ℕ → (Vma → Bool) → Space → Space → Machine → Outcome (ℤ × Space × Machine)
dup_mmap fuel kmalloc_ok to from m = do
  (ret, mm, m') ← dup_vmas fuel kmalloc_ok (backwards from.mm.mmap_list) to.pgdir from.pgdir to.mm m
  ok (ret, record to { mm = mm }, m')

-- The two loops of `exit_mmap`.
unfoldable pub unmap_vmas : ℕ → List Vma → ℕ → Machine → Outcome Machine
unmap_vmas fuel [] pgdir m = ok m
unmap_vmas fuel (vma ∷ vmas) pgdir m = do
  m' ← unmap_range fuel pgdir vma.vm_start vma.vm_end m
  unmap_vmas fuel vmas pgdir m'

unfoldable pub exit_vmas : ℕ → List Vma → ℕ → Machine → Outcome Machine
exit_vmas fuel [] pgdir m = ok m
exit_vmas fuel (vma ∷ vmas) pgdir m = do
  m' ← exit_range fuel pgdir vma.vm_start vma.vm_end m
  exit_vmas fuel vmas pgdir m'

unfoldable pub exit_mmap : ℕ → Space → Machine → Outcome Machine
unfolding unmap_vmas exit_vmas
exit_mmap fuel space m = do
  assert (space.mm_count == 0)
  m₁ ← unmap_vmas fuel space.mm.mmap_list space.pgdir m
  exit_vmas fuel space.mm.mmap_list space.pgdir m₁

unfoldable pub mm_destroy : Space → Outcome Space
mm_destroy space = do
  assert (space.mm_count == 0)
  ok (record space { mm = record space.mm { mmap_list = [] } })

-- `boot` is the page of boot_pgdir_va. The result is the return code.
unfoldable pub setup_pgdir : ℕ → ℕ → Space → Machine → Outcome (ℤ × Space × Machine)
setup_pgdir fuel boot space m = do
  (page, m₁) ← alloc_pages fuel 1 m
  elim page [
    | none ↦ ok (e_no_mem, space, m₁)
    | some p ↦ (do in_memory p m₁; ok (pos 0, record space { pgdir = p }, copy_frame m₁ p boot))
  ]

unfoldable pub put_pgdir : ℕ → Space → Machine → Outcome Machine
put_pgdir fuel space m = do in_memory space.pgdir m; free_pages fuel space.pgdir 1 m

-- Bytes of memory; `memcpy` of `len` bytes.
abbrev pub Bytes : Type 0
Bytes = ℕ → ℕ

abbrev pub copy_bytes : ℕ → ℕ → ℕ → Bytes → Bytes
copy_bytes dst src len mem =
    λ a. if (not (ltb a dst)) && ltb a (dst + len) then mem (a - dst + src) else mem a

unfoldable pub copy_from_user :
    ℕ → Option Mm → ℕ → ℕ → ℕ → Bool → Bytes → Outcome (Bool × Option Mm × Bytes)
copy_from_user fuel mm dst src len writable mem = do
  (allowed, mm') ← user_mem_check fuel mm src len writable
  ok (allowed, mm', if allowed then copy_bytes dst src len mem else mem)

unfoldable pub copy_to_user : ℕ → Option Mm → ℕ → ℕ → ℕ → Bytes → Outcome (Bool × Option Mm × Bytes)
copy_to_user fuel mm dst src len mem = do
  (allowed, mm') ← user_mem_check fuel mm dst len true
  ok (allowed, mm', if allowed then copy_bytes dst src len mem else mem)
