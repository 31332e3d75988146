-- ===== src/Fault.antt =====
-- `do_pgfault` of kern/mm/vmm.c: a write to a page that is shared copy-on-write. A page lock that is
-- held is waited for by `schedule`, where the model stops (`out_of_fuel`). `fault_locked` is the part
-- under the lock, on whatever other processes have left when the lock is free. The checks that a page
-- is not NULL are left out, since `pte2page` never gives NULL.
pub mod Cow
pub mod Sole
pub mod Copy
pub mod Shared
pub mod Refused
mod Examples
use lab.Base.{
  ℕ, ◌+◌, ◌-◌, ◌%◌, ◌^◌, Bool, true, false, ◌&&◌, ◌||◌, not, ltb, ◌==◌, if◌then◌else◌, update,
  Option, none, some, ℤ, pos, Outcome, ok, out_of_fuel, ◌>>=◌, ◌>>◌, assert,
}
use lab.Vmm.{Mm, Vma, e_inval, e_no_mem, page_size, round_down, any_of, vm_write, find_vma}
use lab.Paging.{
  Perm, Pte, Machine, Slot, entry, set_entry, set_page, copy_frame, page_ref, is_zero, in_memory,
  pte2page, get_pte, page_insert, alloc_pages, free_pages,
}

-- `lock(&(page->page_lock))` and `unlock`.
abbrev pub lock : ℕ → Machine → Outcome Machine
lock page m =
    if (m.area.pages page).page_lock
    then out_of_fuel
    else ok (set_page m page (record (m.area.pages page) { page_lock = true }))

abbrev pub unlock : ℕ → Machine → Outcome Machine
unlock page m = do
  assert (m.area.pages page).page_lock
  ok (set_page m page (record (m.area.pages page) { page_lock = false }))

-- `unlock(&(page->page_lock)); return ret;`
abbrev pub leave : ℕ → ℤ → Machine → Outcome (ℤ × Machine)
leave page ret m = do m' ← unlock page m; ok (ret, m')

-- `(*ptep & PTE_V) && (*ptep & PTE_COW)`
abbrev pub is_cow : Slot → Machine → Bool
is_cow slot m = (entry m slot).valid && (entry m slot).perm.cow

-- `page_ref(page) > 1`, of an `int`.
abbrev pub is_shared : ℕ → Machine → Bool
is_shared page m = ltb 1 (page_ref m page) && ltb (page_ref m page) (2 ^ 31)

-- `(*ptep & ~PTE_COW) | PTE_W`
abbrev pub make_writable : Pte → Pte
make_writable e = record e { perm = record e.perm { cow = false; write = true } }

abbrev pub restore_write : Slot → Machine → Machine
restore_write slot m = set_entry m slot (make_writable (entry m slot))

-- The check of the new mapping behind `page_insert`.
abbrev pub is_private : Pte → Bool
is_private e = e.valid && (e.perm.write && not e.perm.cow)

unfoldable pub check_mapped : ℕ → ℕ → Option Slot → Machine → Outcome (ℤ × Machine)
check_mapped page npage none m = leave page e_inval m
check_mapped page npage (some slot) m =
    if is_private (entry m slot)
    then (do
      mapped ← pte2page (entry m slot) m
      if mapped == npage then leave page (pos 0) m else leave page e_inval m)
    else leave page e_inval m

-- With a new page that holds a copy: the mapping is changed to it.
unfoldable pub map_copy : ℕ → ℕ → ℕ → ℕ → ℕ → Perm → Machine → Outcome (ℤ × Machine)
map_copy fuel pgdir la page npage perm m = do
  (ret, m₁) ← page_insert fuel pgdir npage la perm m
  if not (is_zero ret)
      then (do m₂ ← free_pages fuel npage 1 m₁; leave page ret m₂)
      else (do (ptep, m₂) ← get_pte fuel pgdir la false m₁; check_mapped page npage ptep m₂)

-- A page with more than one reference.
unfoldable pub copy_on_write : ℕ → ℕ → ℕ → Slot → ℕ → Perm → Machine → Outcome (ℤ × Machine)
unfolding map_copy
copy_on_write fuel pgdir la slot page perm m = do
  (npage, m₁) ← alloc_pages fuel 1 m
  elim npage [
    | none ↦ leave page e_no_mem m₁
    | some n ↦ (do
      in_memory n m₁
      in_memory page m₁
      let m₂ = copy_frame m₁ n page
      if is_shared page m₂
          then map_copy fuel pgdir la page n perm m₂
          else (do m₃ ← free_pages fuel n 1 m₂; leave page (pos 0) (restore_write slot m₃)))
  ]

-- From the check of the reference count on, with the lock of `page`.
unfoldable pub resolve : ℕ → ℕ → ℕ → Slot → ℕ → Machine → Outcome (ℤ × Machine)
unfolding copy_on_write
resolve fuel pgdir la slot page m =
    if is_shared page m
    then copy_on_write fuel pgdir la slot page (make_writable (entry m slot)).perm m
    else leave page (pos 0) (restore_write slot m)

-- The entry maps another page than the one that is locked: the lock is taken again.
unfoldable pub relock : ℕ → ℕ → ℕ → ℕ → ℕ → Machine → Outcome (ℤ × Machine)
unfolding resolve
relock fuel pgdir la page current m = do
  m₁ ← unlock page m
  m₂ ← lock current m₁
  (ptep, m₃) ← get_pte fuel pgdir la false m₂
  elim ptep [
    | none ↦ leave current e_inval m₃
    | some slot ↦ if not (is_cow slot m₃) then leave current e_inval m₃ else (do
      now ← pte2page (entry m₃ slot) m₃
      if now == current then resolve fuel pgdir la slot current m₃ else leave current e_no_mem m₃)
  ]

-- Under the lock of `page` the entry is read again.
unfoldable pub fault_locked : ℕ → ℕ → ℕ → ℕ → Machine → Outcome (ℤ × Machine)
unfolding resolve relock
fault_locked fuel pgdir la page m = do
  (ptep, m₁) ← get_pte fuel pgdir la false m
  elim ptep [
    | none ↦ leave page e_inval m₁
    | some slot ↦ if not (is_cow slot m₁) then leave page e_inval m₁ else (do
      current ← pte2page (entry m₁ slot) m₁
      if current == page
          then resolve fuel pgdir la slot page m₁
          else relock fuel pgdir la page current m₁)
  ]

-- PF_WRITE.
abbrev pub pf_write : ℕ
pf_write = 2

-- In an area, up to the lock.
unfoldable pub fault_in : ℕ → Vma → ℕ → ℕ → ℕ → Machine → Outcome (ℤ × Machine)
unfolding round_down fault_locked
fault_in fuel vma pgdir error_code addr m = do
  let la = round_down addr page_size
  (ptep, m₁) ← get_pte fuel pgdir la false m
  elim ptep [
    | none ↦ ok (e_inval, m₁)
    | some slot ↦
        if is_cow slot m₁ && (any_of error_code pf_write && any_of vma.vm_flags vm_write)
        then (do
          page ← pte2page (entry m₁ slot) m₁
          m₂ ← lock page m₁
          fault_locked fuel pgdir la page m₂)
        else ok (e_inval, m₁)
  ]

-- `pgfault_num` counts the calls and is not in the model.
unfoldable pub do_pgfault :
    ℕ → Option (Mm × ℕ) → ℕ → ℕ → Machine → Outcome (ℤ × Option (Mm × ℕ) × Machine)
unfolding fault_in
do_pgfault fuel none error_code addr m = ok (e_inval, none, m)
do_pgfault fuel (some (mm, pgdir)) error_code addr m =
    let (vma, mm') = find_vma mm addr in
    elim vma [
      | none ↦ ok (e_inval, some (mm', pgdir), m)
      | some v ↦ if ltb addr v.vm_start then ok (e_inval, some (mm', pgdir), m) else (do
        (ret, m') ← fault_in fuel v pgdir error_code addr m
        ok (ret, some (mm', pgdir), m'))
    ]
