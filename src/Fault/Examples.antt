-- ===== src/Fault/Examples.antt =====
-- A write fault of a process after `fork`.
use lab.Base.{ℕ, ◌≡◌, ◌≢◌, ◌⊎◌, refl, true, none, some, [], ◌∷◌, pos, ok, arith}
use lab.Pmm.{take_pages, default_alloc_pages}
use lab.Pmm.Kept.{SameRefs}
use lab.Vmm.{Mm, Vma, e_no_mem, round_down, find_vma}
use lab.Paging.{Machine, pte_create, page_ref, alloc_pages}
use lab.Paging.Samples.{cow_pte, words, memory, full, words-Walks}
use lab.Fault.Cow.{CowFault, set_lock}
use lab.Fault.Sole.{do_pgfault-sole}
use lab.Fault.Copy.{Apart, do_pgfault-no_mem}
use lab.Fault.Shared.{do_pgfault-copies}
use lab.Fault.{make_writable, do_pgfault}

abbrev data_area : Vma
data_area = record { vm_start = 0x803000; vm_end = 0x805000; vm_flags = 3 }

abbrev user_mm : Mm
user_mm = record { mmap_list = data_area ∷ []; mmap_cache = none; map_count = 1 }

abbrev user_mm' : Mm
user_mm' = record user_mm { mmap_cache = some data_area }

memory-CowFault :
    (ref : ℕ) → CowFault user_mm user_mm' data_area 10 2 0x803010 11 12 13 (memory cow_pte ref)
unfolding find_vma round_down
memory-CowFault ref = record {
  found = refl;
  start = omega arith;
  by_write = refl;
  in_writable = refl;
  path = words-Walks cow_pte (memory cow_pte ref).area;
  mapped = record { valid = refl; cow = refl; page = refl; known = omega arith };
  unlocked = refl;
}

full-CowFault : CowFault user_mm user_mm' data_area 10 2 0x803010 11 12 13 (full cow_pte 2)
unfolding find_vma round_down
full-CowFault = record {
  found = refl;
  start = omega arith;
  by_write = refl;
  in_writable = refl;
  path = words-Walks cow_pte (full cow_pte 2).area;
  mapped = record { valid = refl; cow = refl; page = refl; known = omega arith };
  unlocked = refl;
}

-- The allocator gives page 20.
abbrev given : Machine
given =
    let held = set_lock true 13 (memory cow_pte 2) in
    record held { area = take_pages 20 1 held.area }

gives_page : alloc_pages 3 1 (set_lock true 13 (memory cow_pte 2)) ≡ ok (some 20, given)
unfolding alloc_pages default_alloc_pages
gives_page = refl

gives_none :
    alloc_pages 3 1 (set_lock true 13 (full cow_pte 2))
    ≡ ok (none, set_lock true 13 (full cow_pte 2))
unfolding alloc_pages default_alloc_pages
gives_none = refl

page-Apart : Apart (memory cow_pte 2) 20 13 10 11 12
page-Apart = record {
  known = omega arith;
  not_page = omega arith;
  not_pgdir = omega arith;
  not_pd0 = omega arith;
  not_pt = omega arith;
  pt_pgdir = omega arith;
  pt_pd0 = omega arith;
}

do_pgfault-sole_example :
    (m' : Machine) × (do_pgfault 3 (some (user_mm, 10)) 2 0x803010 (memory cow_pte 1)
      ≡ ok (pos 0, some (user_mm', 10), m'))
    × (m'.frames 12 3 ≡ make_writable cow_pte)
    × ((t i : ℕ) → (t ≢ 12) ⊎ (i ≢ 3) → m'.frames t i ≡ words cow_pte t i)
    × SameRefs (memory cow_pte 1).area m'.area
unfolding round_down
do_pgfault-sole_example =
    do_pgfault-sole 3 user_mm user_mm' data_area 10 2 0x803010 11 12 13 (memory cow_pte 1)
      (memory-CowFault 1) (omega arith)

do_pgfault-no_mem_example :
    (m' : Machine) × (do_pgfault 3 (some (user_mm, 10)) 2 0x803010 (full cow_pte 2)
      ≡ ok (e_no_mem, some (user_mm', 10), m'))
    × (m'.frames ≡ words cow_pte)
    × SameRefs (full cow_pte 2).area m'.area
do_pgfault-no_mem_example =
    do_pgfault-no_mem 3 user_mm user_mm' data_area 10 2 0x803010 11 12 13 (full cow_pte 2)
      (set_lock true 13 (full cow_pte 2)) full-CowFault (omega arith) (omega arith) gives_none

do_pgfault-copies_example :
    (m' : Machine) × (do_pgfault 3 (some (user_mm, 10)) 2 0x803010 (memory cow_pte 2)
      ≡ ok (pos 0, some (user_mm', 10), m'))
    × (m'.frames 12 3 ≡ pte_create 20 (make_writable cow_pte).perm)
    × ((i : ℕ) → m'.frames 20 i ≡ words cow_pte 13 i)
    × ((t i : ℕ) → t ≢ 20 → (t ≢ 12) ⊎ (i ≢ 3) → m'.frames t i ≡ words cow_pte t i)
    × (page_ref m' 13 ≡ 1)
    × (page_ref m' 20 ≡ 1)
    × ((q : ℕ) → q ≢ 13 → q ≢ 20 → page_ref m' q ≡ page_ref (memory cow_pte 2) q)
    × ((q : ℕ) → (m'.area.pages q).page_lock ≡ ((memory cow_pte 2).area.pages q).page_lock)
unfolding round_down
do_pgfault-copies_example =
    do_pgfault-copies 3 user_mm user_mm' data_area 10 2 0x803010 11 12 13 20 (memory cow_pte 2)
      given (memory-CowFault 2) (omega arith) (omega arith) gives_page page-Apart
