-- ===== src/Vmm.antt =====
-- kern/mm/vmm.c: the virtual memory areas of an address space. The list `mmap_list` is a list of
-- areas (libs/list.h is modelled by itself in `Links`); an area is not changed once it is linked, so
-- `mmap_cache` holds the area itself. That `kmalloc` gives memory is an argument.
pub mod Areas
pub mod Insert
pub mod Map
pub mod Access
mod Examples
use Prim.Native.Nat.{bit_and}
use lab.Base.{
  ℕ, zero, suc, ◌+◌, ◌-◌, ◌*◌, ◌%◌, ◌^◌, Bool, true, false, ◌&&◌, ◌||◌, not, Option, none, some,
  List, [], ◌∷◌, ltb, leb, ◌==◌, if◌then◌else◌, ℤ, pos, negsuc, Outcome, ok, out_of_fuel, ◌>>=◌,
  ◌>>◌, assert,
}

pub record Vma : Type 0 where
  pub vm_start : ℕ
  pub vm_end : ℕ
  pub vm_flags : ℕ

pub record Mm : Type 0 where
  pub mmap_list : List Vma
  pub mmap_cache : Option Vma
  pub map_count : ℕ

-- VM_READ, VM_WRITE and VM_STACK.
abbrev pub vm_read : ℕ
vm_read = 0x1

abbrev pub vm_write : ℕ
vm_write = 0x2

abbrev pub vm_stack : ℕ
vm_stack = 0x8

-- `flags & mask`, as a condition.
abbrev pub any_of : ℕ → ℕ → Bool
any_of flags mask = not (bit_and flags mask == 0)

-- Error codes of libs/error.h, negated as the kernel returns them.
abbrev pub e_inval : ℤ
e_inval = negsuc 2

abbrev pub e_no_mem : ℤ
e_no_mem = negsuc 3

-- PGSIZE and the range of `uintptr_t`.
abbrev pub page_size : ℕ
page_size = 4096

abbrev pub word : ℕ
word = 2 ^ 64

unfoldable pub round_down : ℕ → ℕ → ℕ
round_down a n = a - a % n

unfoldable pub round_up : ℕ → ℕ → ℕ
unfolding round_down
round_up a n = round_down ((a + n - 1) % word) n

-- USER_ACCESS and KERN_ACCESS.
abbrev pub user_base : ℕ
user_base = 0x00200000

abbrev pub user_top : ℕ
user_top = 0x80000000

abbrev pub kern_base : ℕ
kern_base = 0xFFFFFFFFC0200000

abbrev pub kern_top : ℕ
kern_top = kern_base + 0x7E00000

abbrev pub user_access : ℕ → ℕ → Bool
user_access start end = leb user_base start && (ltb start end && leb end user_top)

abbrev pub kern_access : ℕ → ℕ → Bool
kern_access start end = leb kern_base start && (ltb start end && leb end kern_top)

unfoldable pub mm_create : Bool → Option Mm
mm_create true = some (record { mmap_list = []; mmap_cache = none; map_count = 0 })
mm_create false = none

unfoldable pub vma_create : Bool → ℕ → ℕ → ℕ → Option Vma
vma_create true vm_start vm_end vm_flags =
    some (record { vm_start = vm_start; vm_end = vm_end; vm_flags = vm_flags })
vma_create false vm_start vm_end vm_flags = none

-- `vma->vm_start <= addr && addr < vma->vm_end`
abbrev pub contains : Vma → ℕ → Bool
contains v addr = leb v.vm_start addr && ltb addr v.vm_end

-- The loop of `find_vma` over the list.
unfoldable pub scan_vma : List Vma → ℕ → Option Vma
scan_vma [] addr = none
scan_vma (v ∷ vs) addr = if contains v addr then some v else scan_vma vs addr

abbrev pub cache_hit : Option Vma → ℕ → Bool
cache_hit none addr = false
cache_hit (some v) addr = contains v addr

abbrev pub remember : Mm → Option Vma → Option Vma × Mm
remember mm none = (none, mm)
remember mm (some v) = (some v, record mm { mmap_cache = some v })

-- `find_vma` at an address space that is not NULL.
unfoldable pub find_vma : Mm → ℕ → Option Vma × Mm
unfolding scan_vma
find_vma mm addr =
    if cache_hit mm.mmap_cache addr
    then remember mm mm.mmap_cache
    else remember mm (scan_vma mm.mmap_list addr)

unfoldable pub check_vma_overlap : Vma → Vma → Outcome (Unit {0})
check_vma_overlap prev next = do
  assert (ltb prev.vm_start prev.vm_end)
  assert (leb prev.vm_end next.vm_start)
  assert (ltb next.vm_start next.vm_end)

-- The check of the new area against `le_prev`, if that is an area.
abbrev check_prev : Option Vma → Vma → Outcome (Unit {0})
check_prev none vma = ok tt
check_prev (some prev) vma = check_vma_overlap prev vma

-- The walk of `insert_vma_struct` behind `le_prev`, its two checks and the link.
unfoldable pub link_vma : Option Vma → List Vma → Vma → Outcome (List Vma)
unfolding check_vma_overlap
link_vma le_prev [] vma = do check_prev le_prev vma; ok (vma ∷ [])
link_vma le_prev (v ∷ vs) vma =
    let rest = (do vs' ← link_vma (some v) vs vma; ok (v ∷ vs')) in
    if ltb vma.vm_start v.vm_start
    then (do check_prev le_prev vma; check_vma_overlap vma v; ok (vma ∷ v ∷ vs))
    else rest

unfoldable pub insert_vma_struct : Mm → Vma → Outcome Mm
unfolding link_vma
insert_vma_struct mm vma = do
  assert (ltb vma.vm_start vma.vm_end)
  vmas ← link_vma none mm.mmap_list vma
  ok (record mm { mmap_list = vmas; map_count = mm.map_count + 1 })

abbrev overlaps : Option Vma → ℕ → Bool
overlaps none end = false
overlaps (some v) end = ltb v.vm_start end

-- The part of `mm_map` behind the allocation of the area.
abbrev map_vma : Mm → Option Vma → Outcome (ℤ × Mm)
map_vma mm none = ok (e_no_mem, mm)
map_vma mm (some vma) = do mm' ← insert_vma_struct mm vma; ok (pos 0, mm')

-- `kmalloc_ok` tells whether `vma_create` gets its memory.
unfoldable pub mm_map : Bool → Mm → ℕ → ℕ → ℕ → Outcome (ℤ × Mm)
mm_map kmalloc_ok mm addr len vm_flags =
    let start = round_down addr page_size in
    let end = round_up ((addr + len) % word) page_size in
    if not (user_access start end)
    then ok (e_inval, mm)
    else (let (vma, mm') = find_vma mm start in
        if overlaps vma end
        then ok (e_inval, mm')
        else map_vma mm' (vma_create kmalloc_ok start end vm_flags))

-- May the area be used from `start` on? A write below the first page of a stack may not.
unfoldable pub may_access : Vma → ℕ → Bool → Bool
may_access vma start write =
    any_of vma.vm_flags (if write then vm_write else vm_read)
    && not
        (write && (any_of vma.vm_flags vm_stack && ltb start ((vma.vm_start + page_size) % word)))

-- The loop of `user_mem_check`.
unfoldable pub mem_check : ℕ → Mm → ℕ → ℕ → Bool → Outcome (Bool × Mm)
mem_check zero mm start end write = out_of_fuel
mem_check (suc fuel) mm start end write = elim (find_vma mm start).0 [
  | none ↦ if ltb start end then ok (false, (find_vma mm start).1) else ok (true, mm)
  | some vma ↦
      let rest = mem_check fuel (find_vma mm start).1 vma.vm_end end write in
      if ltb start end
      then (if ltb start vma.vm_start || not (may_access vma start write)
          then ok (false, (find_vma mm start).1)
          else rest)
      else ok (true, mm)
]

unfoldable pub user_mem_check : ℕ → Option Mm → ℕ → ℕ → Bool → Outcome (Bool × Option Mm)
user_mem_check fuel none addr len write = ok (kern_access addr ((addr + len) % word), none)
user_mem_check fuel (some mm) addr len write =
    let end = (addr + len) % word in
    if not (user_access addr end)
    then ok (false, some mm)
    else (do (allowed, mm') ← mem_check fuel mm addr end write; ok (allowed, some mm'))
