-- ===== src/Vmm/Insert.antt =====
-- `insert_vma_struct` links an area in order, and stops in an assertion exactly if it overlaps.
use lab.Base.{
  ℕ, ◌+◌, ◌≤◌, ◌<◌, ◌≡◌, ◌↔◌, refl, ◌⊎◌, inl, inr, Option, none, some, List, [], ◌∷◌, All, ltb,
  if◌then◌else◌, Bool-cases, lt→ltb, ok, panic, arith,
}
use lab.Vmm.Areas.{Sorted, Holds, Cached, IsValid}
use lab.Vmm.{Vma, Mm, check_vma_overlap, check_prev, link_vma, insert_vma_struct}

-- Two areas with no address in common.
abbrev pub Disjoint : Vma → Vma → Type 0
Disjoint v w = (w.vm_end ≤ v.vm_start) ⊎ (v.vm_end ≤ w.vm_start)

-- The list with the area at its place.
pub insert_sorted : Vma → List Vma → List Vma
insert_sorted vma [] = vma ∷ []
insert_sorted vma (v ∷ vs) =
    if ltb vma.vm_start v.vm_start then vma ∷ v ∷ vs else v ∷ insert_sorted vma vs

insert_sorted-Sorted :
    (lo : ℕ) (vma : Vma) (vs : List Vma)
    → Sorted lo vs
    → lo ≤ vma.vm_start
    → vma.vm_start < vma.vm_end
    → All (Disjoint vma) vs
    → Sorted lo (insert_sorted vma vs)
unfolding insert_sorted
insert_sorted-Sorted lo vma [] s le lt d = (le, lt, tt)
insert_sorted-Sorted lo vma (v ∷ vs) s le lt d =
    ground (arith, insert_sorted-Sorted v.vm_end vma vs s.2, d.0, d.1)

insert_sorted-Holds :
    (vma : Vma) (vs : List Vma) (v : Vma)
    → Holds v (insert_sorted vma vs) ↔ ((v ≡ vma) ⊎ Holds v vs)
unfolding insert_sorted
insert_sorted-Holds vma [] v = ((λ h. h), λ h. h)
insert_sorted-Holds vma (w ∷ vs) v =
    let ih = insert_sorted-Holds vma vs v in
    elim (Bool-cases (ltb vma.vm_start w.vm_start)) [
      | inl first ↦ rw first ((λ h. h), λ h. h)
      | inr later ↦ rw later (
        (λ h. elim h [
          | inl e ↦ inr (inl e)
          | inr t ↦ elim (ih.0 t) [ inl e ↦ inl e | inr k ↦ inr (inr k) ]
        ]),
        λ h. elim h [
          | inl e ↦ inr (ih.1 (inl e))
          | inr t ↦ elim t [ inl e ↦ inl e | inr k ↦ inr (ih.1 (inr k)) ]
        ],
      )
    ]

-- `le_prev` ends before the new area.
abbrev After : Option Vma → Vma → Type 0
After none vma = Unit {0}
After (some p) vma = (p.vm_start < p.vm_end) × (p.vm_end ≤ vma.vm_start)

check_prev-ok :
    (p : Option Vma) (vma : Vma)
    → After p vma
    → vma.vm_start < vma.vm_end
    → check_prev p vma ≡ ok tt
unfolding check_vma_overlap
check_prev-ok none vma h lt = refl
check_prev-ok (some p) vma h lt = ground arith

link_vma-insert :
    (lo : ℕ) (p : Option Vma) (vs : List Vma) (vma : Vma)
    → After p vma
    → Sorted lo vs
    → vma.vm_start < vma.vm_end
    → All (Disjoint vma) vs
    → link_vma p vs vma ≡ ok (insert_sorted vma vs)
unfolding link_vma insert_sorted
link_vma-insert lo p [] vma h s lt d = rw (check_prev-ok p vma h lt)
link_vma-insert lo p (v ∷ vs) vma h s lt d = elim (Bool-cases (ltb vma.vm_start v.vm_start)) [
  | inl first ↦ rw (first, check_prev-ok p vma h lt) (ground arith)
  | inr later ↦ rw (later, link_vma-insert v.vm_end (some v) vs vma (s.1, ground arith) s.2 lt d.1)
]

check-panic : (v w : Vma) → w.vm_start < v.vm_end → check_vma_overlap v w ≡ panic
unfolding check_vma_overlap
check-panic v w lt = ground arith

check_prev-cases :
    (p : Option Vma) (vma : Vma) → (check_prev p vma ≡ ok tt) ⊎ (check_prev p vma ≡ panic)
unfolding check_vma_overlap
check_prev-cases none vma = inl refl
check_prev-cases (some p) vma = ground arith

link_vma-prev :
    (v : Vma) (vs : List Vma) (vma : Vma)
    → Sorted v.vm_end vs
    → vma.vm_start < v.vm_end
    → link_vma (some v) vs vma ≡ panic
unfolding link_vma
link_vma-prev v [] vma s lt = rw (check-panic v vma lt)
link_vma-prev v (x ∷ vs) vma s lt =
    rw (lt→ltb vma.vm_start x.vm_start (omega (arith, s.0)), check-panic v vma lt)

Holds-start : (lo : ℕ) (vs : List Vma) (w : Vma) → Sorted lo vs → Holds w vs → lo ≤ w.vm_start
Holds-start lo [] w s h = elim h [ ]
Holds-start lo (v ∷ vs) w s (inl e) = ground arith
Holds-start lo (v ∷ vs) w s (inr h) = omega (arith, s.0, s.1, Holds-start v.vm_end vs w s.2 h)

-- An area that overlaps one of the list fails an assertion.
link_vma-panic :
    (lo : ℕ) (p : Option Vma) (vs : List Vma) (vma w : Vma)
    → Sorted lo vs
    → Holds w vs
    → w.vm_start < vma.vm_end
    → vma.vm_start < w.vm_end
    → link_vma p vs vma ≡ panic
unfolding link_vma
link_vma-panic lo p [] vma w s h a b = elim h [ ]
link_vma-panic lo p (v ∷ vs) vma w s h a b = elim (Bool-cases (ltb vma.vm_start v.vm_start)) [
  | inl first ↦
      let late : v.vm_start ≤ w.vm_start =
        Holds-start v.vm_start (v ∷ vs) w (omega arith, s.1, s.2) h in
      elim (check_prev-cases p vma) [
        | inl e ↦ rw (first, e, check-panic vma v (omega arith))
        | inr e ↦ rw (first, e)
      ]
  | inr later ↦ rw (later, behind h (λ k. link_vma-panic v.vm_end (some v) vs vma w s.2 k a b))
]
  where
    behind :
        Holds w (v ∷ vs)
        → (Holds w vs → link_vma (some v) vs vma ≡ panic)
        → link_vma (some v) vs vma ≡ panic
    behind (inl e) ih = link_vma-prev v vs vma s.2 (ground arith)
    behind (inr k) ih = ih k

-- A new area that is not empty and overlaps none of a well-formed address space is linked in order:
-- the result is well formed, holds exactly the areas it held and the new one, and counts one more.
pub insert_vma_struct-insert :
    (mm : Mm) (vma : Vma)
    → IsValid mm
    → vma.vm_start < vma.vm_end
    → All (Disjoint vma) mm.mmap_list
    → (mm' : Mm) × (insert_vma_struct mm vma ≡ ok mm')
      × IsValid mm'
      × ((v : Vma) → Holds v mm'.mmap_list ↔ ((v ≡ vma) ⊎ Holds v mm.mmap_list))
      × (mm'.map_count ≡ mm.map_count + 1)
unfolding insert_vma_struct
insert_vma_struct-insert mm vma valid lt d = (
  record mm { mmap_list = insert_sorted vma mm.mmap_list; map_count = mm.map_count + 1 },
  rw (
    lt→ltb vma.vm_start vma.vm_end lt,
    link_vma-insert 0 none mm.mmap_list vma tt valid.sorted lt d,
  ),
  record {
    sorted = insert_sorted-Sorted 0 vma mm.mmap_list valid.sorted (omega arith) lt d;
    cached = still mm.mmap_cache valid.cached;
  },
  insert_sorted-Holds vma mm.mmap_list,
  refl,
)
  where
    still : (c : Option Vma) → Cached c mm.mmap_list → Cached c (insert_sorted vma mm.mmap_list)
    still none h = tt
    still (some v) h = (insert_sorted-Holds vma mm.mmap_list v).1 (inr h)

-- If the new area starts before the end of an area of a well-formed address space and ends behind
-- the start of that area, an assertion fails.
pub insert_vma_struct-panic :
    (mm : Mm) (vma w : Vma)
    → IsValid mm
    → Holds w mm.mmap_list
    → w.vm_start < vma.vm_end
    → vma.vm_start < w.vm_end
    → insert_vma_struct mm vma ≡ panic
unfolding insert_vma_struct
insert_vma_struct-panic mm vma w valid h a b = elim (Bool-cases (ltb vma.vm_start vma.vm_end)) [
  | inl lt ↦ rw (lt, link_vma-panic 0 none mm.mmap_list vma w valid.sorted h a b)
  | inr empty ↦ rw empty
]
