-- ===== src/Ranges.antt =====
-- The functions of kern/mm/pmm.c on a range of addresses: unmap_range, exit_range and copy_range.
-- Their loops run on fuel. `fuel` of the functions called is the same.
pub mod Share
pub mod Exit
mod Examples
use lab.Base.{
  ℕ, zero, suc, ◌+◌, ◌-◌, ◌*◌, ◌%◌, Bool, true, false, ◌&&◌, ◌||◌, not, ltb, ◌==◌, if◌then◌else◌,
  Option, none, some, ℤ, pos, Outcome, ok, out_of_fuel, ◌>>=◌, ◌>>◌, assert,
}
use lab.Vmm.{e_no_mem, page_size, word, round_down, user_access}
use lab.Paging.{
  Perm, Pte, Machine, Slot, no_perm, zero_pte, pte_create, pdx1, pdx0, entry, set_entry, in_memory,
  pte2page, is_zero, get_pte, page_remove_pte, page_insert, free_pages,
}

-- PTSIZE and PDSIZE.
abbrev pub pt_size : ℕ
pt_size = page_size * 512

abbrev pub pd_size : ℕ
pd_size = pt_size * 512

-- The first two lines of each of the functions.
abbrev pub check_range : ℕ → ℕ → Outcome (Unit {0})
check_range start end = do
  assert ((start % page_size == 0) && (end % page_size == 0))
  assert (user_access start end)

-- `ROUNDDOWN(start + PTSIZE, PTSIZE)`
abbrev pub next_table : ℕ → ℕ
next_table start = round_down ((start + pt_size) % word) pt_size

abbrev pub next_page : ℕ → ℕ
next_page start = (start + page_size) % word

-- `start != 0 && start < end`
abbrev pub goes_on : ℕ → ℕ → Bool
goes_on start end = not (start == 0) && ltb start end

-- `*ptep == 0`
abbrev pub is_zero_perm : Perm → Bool
is_zero_perm p = not (
    p.read
    || (p.write
        || (p.exec || (p.user || (p.global || (p.accessed || (p.dirty || (p.cow || p.soft))))))))

abbrev pub is_zero_pte : Pte → Bool
is_zero_pte e = not e.valid && (is_zero_perm e.perm && (e.page == 0))

-- A round of `unmap_range`: the next address.
unfoldable pub unmap_page : ℕ → ℕ → ℕ → Machine → Outcome (ℕ × Machine)
unfolding round_down
unmap_page fuel pgdir start m = do
  (ptep, m₁) ← get_pte fuel pgdir start false m
  elim ptep [
    | none ↦ ok (next_table start, m₁)
    | some slot ↦
        if is_zero_pte (entry m₁ slot)
        then ok (next_page start, m₁)
        else (do m₂ ← page_remove_pte fuel slot m₁; ok (next_page start, m₂))
  ]

unfoldable pub unmap_pages : ℕ → ℕ → ℕ → ℕ → Machine → Outcome Machine
unmap_pages zero pgdir start end m = out_of_fuel
unmap_pages (suc fuel) pgdir start end m = do
  (start', m') ← unmap_page fuel pgdir start m
  let rest = unmap_pages fuel pgdir start' end m'
  if goes_on start' end then rest else ok m'

unfoldable pub unmap_range : ℕ → ℕ → ℕ → ℕ → Machine → Outcome Machine
unmap_range fuel pgdir start end m = do check_range start end; unmap_pages fuel pgdir start end m

-- The inner `for`: no entry of the page table is valid.
unfoldable pub no_valid : ℕ → (ℕ → Pte) → Bool
no_valid zero pt = true
no_valid (suc n) pt = not (pt n).valid && no_valid n pt

-- An entry of a level 0 directory in `exit_range`; the Boolean is `free_pd0`.
unfoldable pub exit_entry : ℕ → ℕ → ℕ → Bool → Machine → Outcome (Bool × Machine)
unfolding no_valid
exit_entry fuel pd0 d0start free m =
    let slot : Slot = (pd0, pdx0 d0start) in
    let pde0 = entry m slot in
    let pt = pde0.page in
    if not pde0.valid then ok (false, m) else (do
      in_memory pt m
      if no_valid 512 (m.frames pt)
          then (do m₁ ← free_pages fuel pt 1 m; ok (free, set_entry m₁ slot zero_pte))
          else ok (free, m))

-- The loop over a level 0 directory: where it stops, and `free_pd0`.
unfoldable pub exit_entries : ℕ → ℕ → ℕ → ℕ → ℕ → Bool → Machine → Outcome (Bool × Machine)
exit_entries zero pd0 d0start d1start end free m = out_of_fuel
exit_entries (suc fuel) pd0 d0start d1start end free m = do
  (free', m') ← exit_entry fuel pd0 d0start free m
  let d0start' = (d0start + pt_size) % word
  let rest = exit_entries fuel pd0 d0start' d1start end free' m'
  if goes_on d0start' end && ltb d0start' ((d1start + pd_size) % word) then rest else ok (free', m')

-- An entry of the level 1 directory.
unfoldable pub exit_directory : ℕ → ℕ → ℕ → ℕ → ℕ → Machine → Outcome Machine
exit_directory fuel pgdir d0start d1start end m =
    let slot : Slot = (pgdir, pdx1 d1start) in
    let pde1 = entry m slot in
    let pd0 = pde1.page in
    if not pde1.valid then ok m else (do
      in_memory pd0 m
      (free, m₁) ← exit_entries fuel pd0 d0start d1start end true m
      if free then (do m₂ ← free_pages fuel pd0 1 m₁; ok (set_entry m₂ slot zero_pte)) else ok m₁)

unfoldable pub exit_directories : ℕ → ℕ → ℕ → ℕ → ℕ → Machine → Outcome Machine
exit_directories zero pgdir d0start d1start end m = out_of_fuel
exit_directories (suc fuel) pgdir d0start d1start end m = do
  m' ← exit_directory fuel pgdir d0start d1start end m
  let d1start' = (d1start + pd_size) % word
  let rest = exit_directories fuel pgdir d1start' d1start' end m'
  if goes_on d1start' end then rest else ok m'

unfoldable pub exit_range : ℕ → ℕ → ℕ → ℕ → Machine → Outcome Machine
unfolding round_down
exit_range fuel pgdir start end m = do
  check_range start end
  exit_directories fuel pgdir (round_down start pt_size) (round_down start pd_size) end m

-- `(perm & ~PTE_W) | PTE_COW`
abbrev pub cow_perm : Perm → Perm
cow_perm perm = record perm { write = false; cow = true }

-- The part of `copy_range` behind a valid entry `slot` of the parent.
unfoldable pub share_page : ℕ → ℕ → ℕ → Slot → Machine → Outcome (ℤ × Machine)
share_page fuel to start slot m = do
  (nptep, m₁) ← get_pte fuel to start true m
  elim nptep [
    | none ↦ ok (e_no_mem, m₁)
    | some nslot ↦ (do
      page ← pte2page (entry m₁ slot) m₁
      let perm = (entry m₁ slot).perm
      (ret, m₂) ← page_insert fuel to page start (if perm.write then cow_perm perm else perm) m₁
      let downgraded = set_entry m₂ slot (pte_create page (cow_perm perm))
      ok (ret, if is_zero ret && perm.write then downgraded else m₂))
  ]

-- A round of `copy_range`: the return code, and the next address.
unfoldable pub copy_page : ℕ → ℕ → ℕ → ℕ → Machine → Outcome (ℤ × ℕ × Machine)
unfolding round_down
copy_page fuel to from start m = do
  (ptep, m₁) ← get_pte fuel from start false m
  elim ptep [
    | none ↦ ok (pos 0, next_table start, m₁)
    | some slot ↦
        if (entry m₁ slot).valid
        then (do (ret, m₂) ← share_page fuel to start slot m₁; ok (ret, next_page start, m₂))
        else ok (pos 0, next_page start, m₁)
  ]

unfoldable pub copy_pages : ℕ → ℕ → ℕ → ℕ → ℕ → Machine → Outcome (ℤ × Machine)
copy_pages zero to from start end m = out_of_fuel
copy_pages (suc fuel) to from start end m = do
  (ret, start', m') ← copy_page fuel to from start m
  let rest = copy_pages fuel to from start' end m'
  if is_zero ret && goes_on start' end then rest else ok (ret, m')

-- `share` is not used.
unfoldable pub copy_range : ℕ → ℕ → ℕ → ℕ → ℕ → Machine → Outcome (ℤ × Machine)
copy_range fuel to from start end m = do check_range start end; copy_pages fuel to from start end m
