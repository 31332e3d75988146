-- ===== src/Vmm/Examples.antt =====
-- The theorems on vmm.c at a small address space.
use lab.Base.{
  ℕ, ◌+◌, ◌%◌, ◌≤◌, ◌<◌, ◌≡◌, ◌↔◌, ◌⊎◌, inl, inr, refl, Bool, true, false, some, [], ◌∷◌, ok, panic,
  pos, arith,
}
use lab.Vmm.Areas.{Holds, IsValid, find_vma-exact}
use lab.Vmm.Insert.{insert_vma_struct-insert}
use lab.Vmm.Map.{area, mm_map-maps, mm_map-panic}
use lab.Vmm.Access.{Allowed, user_mem_check-exact}
use lab.Vmm.{
  Vma, round_down, round_up, Mm, contains, word, e_no_mem, find_vma, insert_vma_struct, mm_map,
  user_mem_check,
}

-- Text, data and stack of a user process.
abbrev text : Vma
text = record { vm_start = 0x800000; vm_end = 0x803000; vm_flags = 5 }

abbrev data_area : Vma
data_area = record { vm_start = 0x803000; vm_end = 0x805000; vm_flags = 3 }

abbrev stack : Vma
stack = record { vm_start = 0x7FF00000; vm_end = 0x80000000; vm_flags = 11 }

abbrev user_mm : Mm
user_mm = record {
  mmap_list = text ∷ data_area ∷ stack ∷ [];
  mmap_cache = some data_area;
  map_count = 3;
}

user_IsValid : IsValid user_mm
user_IsValid = record {
  sorted = (omega arith, omega arith, (omega arith, omega arith, (omega arith, omega arith, tt)));
  cached = inr (inl refl);
}

find_vma-exact_example :
    (((find_vma user_mm 0x802000).0 ≡ some text)
      ↔ (Holds text user_mm.mmap_list × (contains text 0x802000 ≡ true)))
    × ((find_vma user_mm 0x802000).1.mmap_list ≡ user_mm.mmap_list)
    × IsValid (find_vma user_mm 0x802000).1
find_vma-exact_example = find_vma-exact user_mm 0x802000 text user_IsValid

-- One page between the data and the stack.
abbrev heap : Vma
heap = record { vm_start = 0x900000; vm_end = 0x901000; vm_flags = 3 }

insert_vma_struct-insert_example :
    (mm' : Mm) × (insert_vma_struct user_mm heap ≡ ok mm')
    × IsValid mm'
    × ((v : Vma) → Holds v mm'.mmap_list ↔ ((v ≡ heap) ⊎ Holds v user_mm.mmap_list))
    × (mm'.map_count ≡ 4)
insert_vma_struct-insert_example =
    insert_vma_struct-insert user_mm heap user_IsValid (omega arith)
      (inl (omega arith), (inl (omega arith), (inr (omega arith), tt)))

-- Two pages across the end of the data.
abbrev crossing : Vma
crossing = record { vm_start = 0x804000; vm_end = 0x806000; vm_flags = 3 }

mm_map-maps_example :
    ((mm' : Mm) × (mm_map true user_mm 0x900010 20 3 ≡ ok (pos 0, mm'))
      × IsValid mm'
      × ((v : Vma)
          → Holds v mm'.mmap_list ↔ ((v ≡ area 0x900010 20 3) ⊎ Holds v user_mm.mmap_list)))
    × ((mm' : Mm) × (mm_map false user_mm 0x900010 20 3 ≡ ok (e_no_mem, mm'))
        × (mm'.mmap_list ≡ user_mm.mmap_list))
unfolding round_down round_up
mm_map-maps_example =
    mm_map-maps user_mm 0x900010 20 3 user_IsValid refl
      (inl (omega arith), (inl (omega arith), (inr (omega arith), tt)))

-- Three pages from below the text: the start is free, the end is not.
mm_map-panic_example : mm_map true user_mm 0x7FE000 0x3000 3 ≡ panic
unfolding round_down round_up
mm_map-panic_example =
    mm_map-panic user_mm 0x7FE000 0x3000 3 text user_IsValid refl free (inl refl) (omega arith)
      (omega arith)
  where
    free : (v : Vma) → Holds v user_mm.mmap_list → contains v 0x7FE000 ≡ false
    free v h = ground arith

-- A read of text and data together.
user_mem_check-exact_example :
    (b : Bool) × (mm' : Mm) × (user_mem_check 4 (some user_mm) 0x802F00 0x200 false
      ≡ ok (b, some mm'))
    × ((b ≡ true) ↔ (
        (a : ℕ) → 0x802F00 ≤ a → a < (0x802F00 + 0x200) % word → Allowed user_mm.mmap_list false a))
    × (mm'.mmap_list ≡ user_mm.mmap_list)
    × IsValid mm'
user_mem_check-exact_example =
    user_mem_check-exact 4 user_mm 0x802F00 0x200 false user_IsValid (omega arith) refl
