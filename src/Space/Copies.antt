-- ===== src/Space/Copies.antt =====
-- `dup_mmap` gives the child the areas of the parent.
use lab.Base.{
  ℕ, ◌+◌, ◌<◌, ◌≡◌, refl, sym, ◌∙◌, ap, subst, true, lt→ltb, le→leb, run_ok, none, List, [], ◌∷◌,
  ◌++◌, append_assoc, append-nil, length, length-append, pos, ok, arith, assert,
}
use lab.Vmm.{Mm, Vma, link_vma, check_vma_overlap, insert_vma_struct}
use lab.Vmm.Areas.{Sorted}
use lab.Paging.{Machine}
use lab.Ranges.{copy_range}
use lab.Space.{Space, backwards, dup_vmas, dup_mmap}

-- One after the other, `copy_range` copies the areas, from `m` to `m'`.
abbrev pub Copied : ℕ → ℕ → ℕ → List Vma → Machine → Machine → Type 0
Copied fuel to from [] m m' = m ≡ m'
Copied fuel to from (v ∷ vs) m m' =
    (m₁ : Machine) × (copy_range fuel to from v.vm_start v.vm_end m ≡ ok (pos 0, m₁))
    × Copied fuel to from vs m₁ m'

backwards-append : (us vs : List Vma) → backwards (us ++ vs) ≡ backwards vs ++ backwards us
backwards-append [] vs = sym (append-nil (backwards vs))
backwards-append (u ∷ us) vs =
    ap (λ ws. ws ++ u ∷ []) (backwards-append us vs)
    ∙ append_assoc (backwards vs) (backwards us) (u ∷ [])

backwards-twice : (vs : List Vma) → backwards (backwards vs) ≡ vs
backwards-twice [] = refl
backwards-twice (v ∷ vs) =
    backwards-append (backwards vs) (v ∷ []) ∙ ap (◌∷◌ v) (backwards-twice vs)

length-backwards : (vs : List Vma) → length (backwards vs) ≡ length vs
length-backwards [] = refl
length-backwards (v ∷ vs) =
    omega (arith, length-append (backwards vs) (v ∷ []), length-backwards vs)

Sorted-split :
    (lo : ℕ) (us : List Vma) (v : Vma) (vs : List Vma)
    → Sorted lo (us ++ v ∷ vs)
    → (v.vm_start < v.vm_end) × Sorted v.vm_end vs
Sorted-split lo [] v vs s = (s.1, s.2)
Sorted-split lo (u ∷ us) v vs s = Sorted-split u.vm_end us v vs s.2

-- An area below all others is linked in front of them.
insert-front :
    (mm : Mm) (vma : Vma)
    → vma.vm_start < vma.vm_end
    → Sorted vma.vm_end mm.mmap_list
    → insert_vma_struct mm vma
      ≡ ok (record mm { mmap_list = vma ∷ mm.mmap_list; map_count = mm.map_count + 1 })
unfolding insert_vma_struct link_vma check_vma_overlap
insert-front mm vma lt s =
    run_ok (assert _) tt _ (ap assert (lt→ltb vma.vm_start vma.vm_end lt))
    ∙ run_ok (link_vma none mm.mmap_list vma) (vma ∷ mm.mmap_list) _ (front mm.mmap_list s)
  where
    front : (vs : List Vma) → Sorted vma.vm_end vs → link_vma none vs vma ≡ ok (vma ∷ vs)
    front [] h = refl
    front (v ∷ vs) h =
        rw
          (
            lt→ltb vma.vm_start v.vm_start (omega (arith, lt, h.0)),
            lt→ltb vma.vm_start vma.vm_end lt,
            le→leb vma.vm_end v.vm_start h.0,
            lt→ltb v.vm_start v.vm_end h.1,
          )
          refl

dup_vmas-Copied :
    (fuel to from : ℕ) (us : List Vma) (mm : Mm) (m m' : Machine)
    → Sorted 0 (backwards us ++ mm.mmap_list)
    → Copied fuel to from us m m'
    → dup_vmas fuel (λ v. true) us to from mm m
      ≡ ok (
        pos 0,
        record mm {
          mmap_list = backwards us ++ mm.mmap_list;
          map_count = mm.map_count + length us;
        },
        m',
      )
unfolding dup_vmas
dup_vmas-Copied fuel to from [] mm m m' s e =
    let c : mm.map_count ≡ mm.map_count + 0 = omega arith in
    ap (λ x. ok (pos 0, record mm { map_count = x }, m)) c
    ∙ ap (λ x. ok (pos 0, record mm { map_count = mm.map_count + 0 }, x)) e
dup_vmas-Copied fuel to from (v ∷ us) mm m m' s (m₁, run, rest) =
    let assoc = append_assoc (backwards us) (v ∷ []) mm.mmap_list in
    let s' = subst (Sorted 0) assoc s in
    let (lt, behind) = Sorted-split 0 (backwards us) v mm.mmap_list s' in
    let mm₁ : Mm = record mm { mmap_list = v ∷ mm.mmap_list; map_count = mm.map_count + 1 } in
    let count : mm₁.map_count + length us ≡ mm.map_count + length (v ∷ us) = omega arith in
    run_ok (insert_vma_struct mm v) mm₁ _ (insert-front mm v lt behind)
    ∙ run_ok (copy_range fuel to from v.vm_start v.vm_end m) (pos 0, m₁) _ run
    ∙ dup_vmas-Copied fuel to from us mm₁ m₁ m' s' rest
    ∙ ap (λ vs. ok (pos 0, record mm { mmap_list = vs; map_count = mm₁.map_count + length us }, m'))
        (sym assoc)
    ∙ ap
        (λ c.
          ok (
            pos 0,
            record mm { mmap_list = backwards (v ∷ us) ++ mm.mmap_list; map_count = c },
            m',
          ))
        count

-- The parent's areas are in order, apart and not empty, the child has none yet, kmalloc gives memory,
-- and copy_range succeeds for the areas from the last to the first, with the page directories of both.
-- Then dup_mmap returns 0, the child has exactly the areas of the parent, in the same order, and counts
-- them, and keeps its page directory.
pub dup_mmap-areas :
    (fuel : ℕ) (to from : Space) (m m' : Machine)
    → Sorted 0 from.mm.mmap_list
    → to.mm.mmap_list ≡ []
    → to.mm.map_count ≡ 0
    → Copied fuel to.pgdir from.pgdir (backwards from.mm.mmap_list) m m'
    → (to' : Space) × (dup_mmap fuel (λ v. true) to from m ≡ ok (pos 0, to', m'))
      × (to'.mm.mmap_list ≡ from.mm.mmap_list)
      × (to'.mm.map_count ≡ length from.mm.mmap_list)
      × (to'.pgdir ≡ to.pgdir)
unfolding dup_mmap
dup_mmap-areas fuel to from m m' s empty none_yet copied =
    let us = backwards from.mm.mmap_list in
    let all : backwards us ++ to.mm.mmap_list ≡ from.mm.mmap_list =
      ap (λ vs. backwards us ++ vs) empty
      ∙ append-nil (backwards us)
      ∙ backwards-twice from.mm.mmap_list in
    let mm' : Mm = record to.mm {
      mmap_list = backwards us ++ to.mm.mmap_list;
      map_count = to.mm.map_count + length us;
    } in
    (
      record to { mm = mm' },
      run_ok (dup_vmas fuel (λ v. true) us to.pgdir from.pgdir to.mm m) (pos 0, mm', m') _
          (dup_vmas-Copied fuel to.pgdir from.pgdir us to.mm m m' (subst (Sorted 0) (sym all) s)
            copied),
      all,
      omega (arith, none_yet, length-backwards from.mm.mmap_list),
      refl,
    )
