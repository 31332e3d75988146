-- ===== src/Space/Examples.antt =====
-- A child gets the data area of its parent.
use lab.Base.{◌≡◌, refl, true, [], ◌∷◌, none, pos, ok, arith}
use lab.Vmm.{Vma}
use lab.Paging.{
  Pte, Machine, no_perm, pte_create, set_entry, page_ref_inc, get_pte, next_level, page_insert,
  insert_at, pte2page,
}
use lab.Paging.Samples.{memory}
use lab.Ranges.{copy_range, copy_pages, copy_page, share_page, cow_perm}
use lab.Space.{Space, dup_mmap}
use lab.Space.Copies.{dup_mmap-areas}

abbrev data_pte : Pte
data_pte = pte_create 13 (record no_perm { read = true; write = true; user = true })

abbrev one_page : Vma
one_page = record { vm_start = 0x803000; vm_end = 0x804000; vm_flags = 3 }

abbrev parent_space : Space
parent_space = record {
  mm = record { mmap_list = one_page ∷ []; mmap_cache = none; map_count = 1 };
  pgdir = 10;
  mm_count = 1;
  mm_lock = true;
}

abbrev child_space : Space
child_space = record {
  mm = record { mmap_list = []; mmap_cache = none; map_count = 0 };
  pgdir = 14;
  mm_count = 0;
  mm_lock = true;
}

-- Both entries map page 13 copy-on-write.
abbrev both_map : Machine
both_map =
    let pte = pte_create 13 (cow_perm data_pte.perm) in
    set_entry (set_entry (page_ref_inc 13 (memory data_pte 1)) (16, 3) pte) (12, 3) pte

copies_page : copy_range 3 14 10 0x803000 0x804000 (memory data_pte 1) ≡ ok (pos 0, both_map)
unfolding copy_range copy_pages copy_page share_page get_pte next_level page_insert insert_at
    pte2page
copies_page = refl

dup_mmap-areas_example :
    (to' : Space) × (dup_mmap 3 (λ v. true) child_space parent_space (memory data_pte 1)
      ≡ ok (pos 0, to', both_map))
    × (to'.mm.mmap_list ≡ one_page ∷ [])
    × (to'.mm.map_count ≡ 1)
    × (to'.pgdir ≡ 14)
dup_mmap-areas_example =
    dup_mmap-areas 3 child_space parent_space (memory data_pte 1) both_map
      (omega arith, omega arith, tt) refl refl (both_map, copies_page, refl)
