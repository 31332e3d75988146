-- ===== src/Vmm/Areas.antt =====
-- Well-formed lists of areas, and what `find_vma` and `insert_vma_struct` make of them.
use lab.Base.{
  ℕ, ◌≤◌, ◌<◌, ◌≡◌, ◌↔◌, refl, sym, ◌∙◌, ◌⊎◌, inl, inr, true, Option, none, some, List, [], ◌∷◌,
  Bool-cases, Option-cases, arith,
}
use lab.Vmm.{Vma, Mm, contains, scan_vma, cache_hit, remember, find_vma}

-- From `lo` on: in address order, apart and not empty.
abbrev pub Sorted : ℕ → List Vma → Type 0
Sorted lo [] = Unit {0}
Sorted lo (v ∷ vs) = (lo ≤ v.vm_start) × (v.vm_start < v.vm_end) × Sorted v.vm_end vs

-- `v` is one of the areas.
abbrev pub Holds : Vma → List Vma → Type 0
Holds v [] = ⊥
Holds v (w ∷ vs) = (v ≡ w) ⊎ Holds v vs

abbrev pub Cached : Option Vma → List Vma → Type 0
Cached none vs = Unit {0}
Cached (some v) vs = Holds v vs

pub record IsValid (mm : Mm) : Type 0 where
  pub sorted : Sorted 0 mm.mmap_list
  pub cached : Cached mm.mmap_cache mm.mmap_list

-- Addresses below the list are in none of its areas.
scan_vma-below : (lo addr : ℕ) (vs : List Vma) → Sorted lo vs → addr < lo → scan_vma vs addr ≡ none
unfolding scan_vma
scan_vma-below lo addr [] s h = refl
scan_vma-below lo addr (v ∷ vs) s h = ground (arith, scan_vma-below v.vm_end addr vs s.2)

-- Only one area of a sorted list contains an address: the one that the scan finds.
pub scan_vma-Holds :
    (lo addr : ℕ) (vs : List Vma) (v : Vma)
    → Sorted lo vs
    → Holds v vs
    → contains v addr ≡ true
    → scan_vma vs addr ≡ some v
unfolding scan_vma
scan_vma-Holds lo addr [] v s h c = elim h [ ]
scan_vma-Holds lo addr (w ∷ vs) v s (inl e) c = ground arith
scan_vma-Holds lo addr (w ∷ vs) v s (inr h) c =
    ground (arith, scan_vma-Holds w.vm_end addr vs v s.2 h c, scan_vma-below w.vm_end addr vs s.2)

pub scan_vma-some :
    (addr : ℕ) (vs : List Vma) (v : Vma)
    → scan_vma vs addr ≡ some v
    → Holds v vs × (contains v addr ≡ true)
unfolding scan_vma
scan_vma-some addr [] v e = cc
scan_vma-some addr (w ∷ vs) v e = elim (Bool-cases (contains w addr)) [
  | inl hit ↦ (inl (ground arith), ground arith)
  | inr miss ↦ let r = scan_vma-some addr vs v (ground arith) in (inr r.0, r.1)
]

cache_hit-some :
    (c : Option Vma) (addr : ℕ) (vs : List Vma)
    → Cached c vs
    → cache_hit c addr ≡ true
    → (v : Vma) × (c ≡ some v) × Holds v vs × (contains v addr ≡ true)
cache_hit-some none addr vs h e = cc
cache_hit-some (some v) addr vs h e = (v, refl, h, e)

-- The cache never changes the answer.
find_vma-scan :
    (mm : Mm) (addr : ℕ) → IsValid mm → (find_vma mm addr).0 ≡ scan_vma mm.mmap_list addr
unfolding find_vma
find_vma-scan mm addr valid = elim (Bool-cases (cache_hit mm.mmap_cache addr)) [
  | inl hit ↦
      let (v, e, held, inside) = cache_hit-some mm.mmap_cache addr mm.mmap_list valid.cached hit in
      ground (arith, scan_vma-Holds 0 addr mm.mmap_list v valid.sorted held inside)
  | inr miss ↦ ground arith
]

-- It is only a cache: the list stays, and so does well-formedness.
pub find_vma-list : (mm : Mm) (addr : ℕ) → (find_vma mm addr).1.mmap_list ≡ mm.mmap_list
unfolding find_vma
find_vma-list mm addr = ground arith

remember-IsValid :
    (mm : Mm) (c : Option Vma) → IsValid mm → Cached c mm.mmap_list → IsValid (remember mm c).1
remember-IsValid mm none valid h = valid
remember-IsValid mm (some v) valid h = record { sorted = valid.sorted; cached = h }

scan-Cached : (vs : List Vma) (addr : ℕ) → Cached (scan_vma vs addr) vs
scan-Cached vs addr = elim (Option-cases (scan_vma vs addr)) [
  | inl e ↦ rw e tt
  | inr (v, e) ↦ rw e (scan_vma-some addr vs v e).0
]

pub find_vma-IsValid : (mm : Mm) (addr : ℕ) → IsValid mm → IsValid (find_vma mm addr).1
unfolding find_vma
find_vma-IsValid mm addr valid = elim (Bool-cases (cache_hit mm.mmap_cache addr)) [
  | inl hit ↦ rw hit (remember-IsValid mm mm.mmap_cache valid valid.cached)
  | inr miss ↦ rw miss (remember-IsValid mm _ valid (scan-Cached mm.mmap_list addr))
]

-- In a well-formed address space `find_vma` finds an area exactly if it is on the list and contains
-- the address; it changes neither the list nor well-formedness.
pub find_vma-exact :
    (mm : Mm) (addr : ℕ) (v : Vma)
    → IsValid mm
    → (((find_vma mm addr).0 ≡ some v) ↔ (Holds v mm.mmap_list × (contains v addr ≡ true)))
      × ((find_vma mm addr).1.mmap_list ≡ mm.mmap_list)
      × IsValid (find_vma mm addr).1
find_vma-exact mm addr v valid = (
  (
    (λ e. scan_vma-some addr mm.mmap_list v (sym (find_vma-scan mm addr valid) ∙ e)),
    λ h. find_vma-scan mm addr valid ∙ scan_vma-Holds 0 addr mm.mmap_list v valid.sorted h.0 h.1,
  ),
  find_vma-list mm addr,
  find_vma-IsValid mm addr valid,
)
