-- ===== src/Vmm/Map.antt =====
-- `mm_map`: its error codes, its success, and the ranges on which it stops the kernel.
use lab.Base.{
  ℕ, ◌+◌, ◌%◌, ◌<◌, ◌≡◌, ◌↔◌, refl, sym, ◌∙◌, ◌⊎◌, inl, inr, Bool, true, false, none, some, List,
  [], ◌∷◌, All, subst, Bool-cases, Option-cases, pos, ok, panic, arith,
}
use lab.Vmm.Areas.{Holds, IsValid, find_vma-exact, find_vma-list, find_vma-IsValid}
use lab.Vmm.Insert.{Disjoint, insert_vma_struct-insert, insert_vma_struct-panic}
use lab.Vmm.{
  Vma, Mm, word, page_size, contains, user_access, e_inval, e_no_mem, round_down, round_up,
  vma_create, map_vma, find_vma, mm_map,
}

-- The pages from which `mm_map` takes its range.
abbrev pub first_page : ℕ → ℕ
first_page addr = round_down addr page_size

abbrev pub end_page : ℕ → ℕ → ℕ
end_page addr len = round_up ((addr + len) % word) page_size

abbrev pub area : ℕ → ℕ → ℕ → Vma
area addr len flags = record {
  vm_start = first_page addr;
  vm_end = end_page addr len;
  vm_flags = flags;
}

-- The range starts in an area of the address space.
abbrev pub StartTaken : Mm → ℕ → Type 0
StartTaken mm addr = (w : Vma) × Holds w mm.mmap_list × (contains w (first_page addr) ≡ true)

module _ (kmalloc_ok : Bool) (mm : Mm) (addr len flags : ℕ) where
  mm_map-found :
      (w : Vma)
      → user_access (first_page addr) (end_page addr len) ≡ true
      → (find_vma mm (first_page addr)).0 ≡ some w
      → contains w (first_page addr) ≡ true
      → mm_map kmalloc_ok mm addr len flags ≡ ok (e_inval, (find_vma mm (first_page addr)).1)
  unfolding mm_map
  mm_map-found w ua e inside = ground arith

  mm_map-not_found :
      user_access (first_page addr) (end_page addr len) ≡ true
      → (find_vma mm (first_page addr)).0 ≡ none
      → mm_map kmalloc_ok mm addr len flags
        ≡ map_vma
            (find_vma mm (first_page addr)).1
            (vma_create kmalloc_ok (first_page addr) (end_page addr len) flags)
  unfolding mm_map
  mm_map-not_found ua e = rw (ua, e)

find_vma-none :
    (mm : Mm) (addr : ℕ)
    → IsValid mm
    → ((v : Vma) → Holds v mm.mmap_list → contains v addr ≡ false)
    → (find_vma mm addr).0 ≡ none
find_vma-none mm addr valid out = elim (Option-cases (find_vma mm addr).0) [
  | inl e ↦ e
  | inr (v, e) ↦
      let h = (find_vma-exact mm addr v valid).0.0 e in let no = out v h.0 in cc (h.1, no)
]

apart-free :
    (w : Vma) (vs : List Vma)
    → w.vm_start < w.vm_end
    → All (Disjoint w) vs
    → (v : Vma) → Holds v vs
    → contains v w.vm_start ≡ false
apart-free w [] lt d v h = elim h [ ]
apart-free w (x ∷ vs) lt d v (inl e) = ground (arith, d.0)
apart-free w (x ∷ vs) lt d v (inr h) = apart-free w vs lt d.1 v h

-- In a well-formed address space `mm_map` answers -E_INVAL for a range outside user space and for
-- one that starts in an area, and keeps all areas.
pub mm_map-e_inval :
    (kmalloc_ok : Bool) (mm : Mm) (addr len flags : ℕ)
    → IsValid mm
    → (user_access (first_page addr) (end_page addr len) ≡ false) ⊎ StartTaken mm addr
    → (mm' : Mm) × (mm_map kmalloc_ok mm addr len flags ≡ ok (e_inval, mm'))
      × (mm'.mmap_list ≡ mm.mmap_list)
      × IsValid mm'
unfolding mm_map
mm_map-e_inval kmalloc_ok mm addr len flags valid (inl e) = (mm, rw e, refl, valid)
mm_map-e_inval kmalloc_ok mm addr len flags valid (inr (w, held, inside)) =
    elim (Bool-cases (user_access (first_page addr) (end_page addr len))) [
      | inl ua ↦ (
        (find_vma mm (first_page addr)).1,
        mm_map-found kmalloc_ok mm addr len flags w ua
            ((find_vma-exact mm (first_page addr) w valid).0.1 (held, inside)) inside,
        find_vma-list mm (first_page addr),
        find_vma-IsValid mm (first_page addr) valid,
      )
      | inr e ↦ (mm, rw e, refl, valid)
    ]

-- A range of user space that is apart from all areas is mapped if `kmalloc` gives memory: the areas
-- are then those before and the new one. If it gives none, the answer is -E_NO_MEM.
pub mm_map-maps :
    (mm : Mm) (addr len flags : ℕ)
    → IsValid mm
    → user_access (first_page addr) (end_page addr len) ≡ true
    → All (Disjoint (area addr len flags)) mm.mmap_list
    → ((mm' : Mm) × (mm_map true mm addr len flags ≡ ok (pos 0, mm'))
        × IsValid mm'
        × ((v : Vma) → Holds v mm'.mmap_list ↔ ((v ≡ area addr len flags) ⊎ Holds v mm.mmap_list)))
      × ((mm' : Mm) × (mm_map false mm addr len flags ≡ ok (e_no_mem, mm'))
          × (mm'.mmap_list ≡ mm.mmap_list))
unfolding vma_create
mm_map-maps mm addr len flags valid ua apart =
    let start = first_page addr in
    let none_there : (find_vma mm start).0 ≡ none =
      find_vma-none mm start valid (apart-free (area addr len flags) mm.mmap_list nonempty apart) in
    let (mm', e, valid', holds, count) =
      insert_vma_struct-insert (find_vma mm start).1 (area addr len flags)
        (find_vma-IsValid mm start valid) nonempty
        (subst (All (Disjoint (area addr len flags))) (sym (find_vma-list mm start)) apart) in
    (
      (
        mm',
        mm_map-not_found true mm addr len flags ua none_there ∙ rw e,
        valid',
        subst (λ vs. (v : Vma) → Holds v mm'.mmap_list ↔ ((v ≡ area addr len flags) ⊎ Holds v vs))
            (find_vma-list mm start) holds,
      ),
      (
        (find_vma mm start).1,
        mm_map-not_found false mm addr len flags ua none_there,
        find_vma-list mm start,
      ),
    )
  where
    nonempty : first_page addr < end_page addr len
    nonempty = ground arith

-- A range of user space that starts outside all areas but reaches into one is not refused: with
-- memory from `kmalloc` an assertion of `insert_vma_struct` fails and the kernel stops.
pub mm_map-panic :
    (mm : Mm) (addr len flags : ℕ) (w : Vma)
    → IsValid mm
    → user_access (first_page addr) (end_page addr len) ≡ true
    → ((v : Vma) → Holds v mm.mmap_list → contains v (first_page addr) ≡ false)
    → Holds w mm.mmap_list
    → first_page addr < w.vm_end
    → w.vm_start < end_page addr len
    → mm_map true mm addr len flags ≡ panic
unfolding vma_create
mm_map-panic mm addr len flags w valid ua free held a b =
    let start = first_page addr in
    let mm₁ = (find_vma mm start).1 in
    let held₁ : Holds w mm₁.mmap_list = subst (Holds w) (sym (find_vma-list mm start)) held in
    mm_map-not_found true mm addr len flags ua (find_vma-none mm start valid free)
    ∙ rw (
        insert_vma_struct-panic mm₁ (area addr len flags) w (find_vma-IsValid mm start valid) held₁
          b a)
