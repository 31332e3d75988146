-- ===== src/Fault/Refused.antt =====
-- The faults that `do_pgfault` does not resolve.
use lab.Base.{
  ℕ, ◌<◌, ◌≤◌, ◌≡◌, ◌∙◌, ap, false, ◌&&◌, ltb, lt→ltb, le→not_ltb, if_true, if_false, run_ok, none,
  some, ok,
}
use lab.Vmm.{Mm, Vma, e_inval, page_size, round_down, any_of, vm_write, find_vma}
use lab.Paging.{Machine, ptx, get_pte}
use lab.Paging.Walk.{Walks, get_pte-Walks}
use lab.Fault.{is_cow, fault_in, do_pgfault, pf_write}

-- A fault outside of every area, below the area that is found, or in an area at a page that is not
-- copy-on-write, or not by a write, or in an area without VM_WRITE.
pub data Refused (mm mm' : Mm) (pgdir error_code addr : ℕ) (m : Machine) : Type 0 where
  no_area : find_vma mm addr ≡ (none, mm') → Refused mm mm' pgdir error_code addr m
  below :
      (v : Vma)
      → find_vma mm addr ≡ (some v, mm')
      → addr < v.vm_start
      → Refused mm mm' pgdir error_code addr m
  not_cow :
      (v : Vma) (pd0 pt : ℕ)
      → find_vma mm addr ≡ (some v, mm')
      → v.vm_start ≤ addr
      → Walks m pgdir (round_down addr page_size) pd0 pt
      → (is_cow (pt, ptx (round_down addr page_size)) m
          && (any_of error_code pf_write && any_of v.vm_flags vm_write))
        ≡ false
      → Refused mm mm' pgdir error_code addr m

-- The fault is outside of every area, or below the area that find_vma gives, or in an area at an
-- address for which there are page tables, but the entry is not valid and copy-on-write, or the access
-- is not a write, or the area is not writable. Then do_pgfault returns -E_INVAL and changes no memory.
pub do_pgfault-e_inval :
    (fuel : ℕ) (mm mm' : Mm) (pgdir error_code addr : ℕ) (m : Machine)
    → Refused mm mm' pgdir error_code addr m
    → do_pgfault fuel (some (mm, pgdir)) error_code addr m ≡ ok (e_inval, some (mm', pgdir), m)
unfolding do_pgfault fault_in
do_pgfault-e_inval fuel mm mm' pgdir error_code addr m (no_area f) =
    rw (do_pgfault, f) (ap (λ x. ok (e_inval, some (x.1, pgdir), m)) f)
do_pgfault-e_inval fuel mm mm' pgdir error_code addr m (below v f lt) =
    rw (do_pgfault, f)
      (if_true (ltb addr v.vm_start) _ _ (lt→ltb addr v.vm_start lt)
        ∙ ap (λ x. ok (e_inval, some (x.1, pgdir), m)) f)
do_pgfault-e_inval fuel mm mm' pgdir error_code addr m (not_cow v pd0 pt f le path test) =
    let la = round_down addr page_size in
    rw (do_pgfault, f)
      (if_false (ltb addr v.vm_start) _ _ (le→not_ltb addr v.vm_start le)
        ∙ run_ok (fault_in fuel v pgdir error_code addr m) (e_inval, m) _
            (run_ok (get_pte fuel pgdir la false m) _ _
                (get_pte-Walks fuel pgdir la false m pd0 pt path)
              ∙ if_false _ _ _ test)
        ∙ ap (λ x. ok (e_inval, some (x.1, pgdir), m)) f)
