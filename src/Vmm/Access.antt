-- ===== src/Vmm/Access.antt =====
-- `user_mem_check` allows a user range exactly if each of its addresses may be accessed.
use lab.Base.{
  ℕ, zero, suc, ◌+◌, ◌%◌, ◌≤◌, ◌<◌, ◌≡◌, ◌↔◌, refl, sym, ◌∙◌, inl, inr, Bool, true, false, none,
  some, List, [], ◌∷◌, length, subst, ltb, if◌then◌else◌, Bool-cases, Option-cases, lt→ltb,
  le→not_ltb, Outcome, ok, arith,
}
use lab.Vmm.Areas.{Holds, IsValid, find_vma-exact, find_vma-list, find_vma-IsValid}
use lab.Vmm.{Vma, Mm, word, contains, user_access, may_access, find_vma, mem_check, user_mem_check}

-- Some area contains the address and has the permission; a write keeps off the first page of a stack.
abbrev pub Allowed : List Vma → Bool → ℕ → Type 0
Allowed vs write a = (v : Vma) × Holds v vs × (contains v a ≡ true) × (may_access v a write ≡ true)

-- How many areas end above an address: the rounds that are left.
above : ℕ → List Vma → ℕ
above a [] = 0
above a (v ∷ vs) = (if ltb a v.vm_end then 1 else 0) + above a vs

above-le-length : (a : ℕ) (vs : List Vma) → above a vs ≤ length vs
unfolding above
above-le-length a [] = omega arith
above-le-length a (v ∷ vs) = ground (arith, above-le-length a vs)

above_mono : (a b : ℕ) (vs : List Vma) → a ≤ b → above b vs ≤ above a vs
unfolding above
above_mono a b [] h = omega arith
above_mono a b (v ∷ vs) h = ground (arith, above_mono a b vs h)

above-lt :
    (a : ℕ) (v : Vma) (vs : List Vma) → Holds v vs → a < v.vm_end → above v.vm_end vs < above a vs
unfolding above
above-lt a v [] h lt = elim h [ ]
above-lt a v (w ∷ vs) (inl e) lt = ground (arith, above_mono a v.vm_end vs)
above-lt a v (w ∷ vs) (inr h) lt = ground (arith, above-lt a v vs h lt)

-- The permission at an address holds further up in the area.
may_access_mono :
    (v : Vma) (a b : ℕ) (write : Bool)
    → a ≤ b
    → may_access v a write ≡ true
    → may_access v b write ≡ true
unfolding may_access
may_access_mono v a b write le h = ground arith

module _ (f : ℕ) (mm : Mm) (start end : ℕ) (write : Bool) where
  check_done : end ≤ start → mem_check (suc f) mm start end write ≡ ok (true, mm)
  unfolding mem_check
  check_done le = elim (Option-cases (find_vma mm start).0) [
    | inl e ↦ rw (e, mem_check, le→not_ltb start end le)
    | inr (v, e) ↦ rw (e, mem_check, le→not_ltb start end le)
  ]

  check_hole :
      start < end
      → (find_vma mm start).0 ≡ none
      → mem_check (suc f) mm start end write ≡ ok (false, (find_vma mm start).1)
  unfolding mem_check
  check_hole lt e = rw (e, mem_check, lt→ltb start end lt)

  check_denied :
      (v : Vma)
      → start < end
      → (find_vma mm start).0 ≡ some v
      → contains v start ≡ true
      → may_access v start write ≡ false
      → mem_check (suc f) mm start end write ≡ ok (false, (find_vma mm start).1)
  unfolding mem_check
  check_denied v lt e inside deny =
      rw (e, mem_check, lt→ltb start end lt, le→not_ltb start v.vm_start (ground arith), deny)

  check_next :
      (v : Vma)
      → start < end
      → (find_vma mm start).0 ≡ some v
      → contains v start ≡ true
      → may_access v start write ≡ true
      → mem_check (suc f) mm start end write ≡ mem_check f (find_vma mm start).1 v.vm_end end write
  unfolding mem_check
  check_next v lt e inside allow =
      rw (e, mem_check, lt→ltb start end lt, le→not_ltb start v.vm_start (ground arith), allow)

-- What the loop answers from `start` on.
abbrev Answers : Mm → ℕ → ℕ → Bool → Outcome (Bool × Mm) → Type 0
Answers mm start end write o =
    (b : Bool) × (mm' : Mm) × (o ≡ ok (b, mm'))
    × ((b ≡ true) ↔ ((a : ℕ) → start ≤ a → a < end → Allowed mm.mmap_list write a))
    × (mm'.mmap_list ≡ mm.mmap_list)
    × IsValid mm'

mem_check-Answers :
    (fuel : ℕ) (mm : Mm) (start end : ℕ) (write : Bool)
    → IsValid mm
    → above start mm.mmap_list < fuel
    → Answers mm start end write (mem_check fuel mm start end write)
mem_check-Answers zero mm start end write valid enough = absurd (omega arith)
mem_check-Answers (suc f) mm start end write valid enough = elim (Bool-cases (ltb start end)) [
  | inr done ↦ (
    true,
    mm,
    check_done f mm start end write (ground arith),
    ((λ _ a lo hi. absurd (ground arith)), λ _. refl),
    refl,
    valid,
  )
  | inl more ↦ elim (Option-cases (find_vma mm start).0) [
    | inl e ↦ (
      false,
      (find_vma mm start).1,
      check_hole f mm start end write (ground arith) e,
      (
        (λ e'. cc),
        λ all.
            let (v, held, inside, may) = all start (omega arith) (ground arith) in
            let e' = (find_vma-exact mm start v valid).0.1 (held, inside) in cc (e, e'),
      ),
      find_vma-list mm start,
      find_vma-IsValid mm start valid,
    )
    | inr (v, e) ↦ elim (Bool-cases (may_access v start write)) [
      | inr deny ↦ (
        false,
        (find_vma mm start).1,
        check_denied f mm start end write v (ground arith) e
            ((find_vma-exact mm start v valid).0.0 e).1 deny,
        (
          (λ e'. cc),
          λ all.
              let (w, held, inside, may) = all start (omega arith) (ground arith) in
              let e' = (find_vma-exact mm start w valid).0.1 (held, inside) in
              cc (e, e', may, deny),
        ),
        find_vma-list mm start,
        find_vma-IsValid mm start valid,
      )
      | inl allow ↦
          let (held, inside) = (find_vma-exact mm start v valid).0.0 e in
          let less : above v.vm_end (find_vma mm start).1.mmap_list < f =
            subst (λ vs. above v.vm_end vs < f) (sym (find_vma-list mm start))
              (omega (arith, above-lt start v mm.mmap_list held (ground arith), enough)) in
          let (b, mm', run, iff, same, valid') =
            mem_check-Answers f (find_vma mm start).1 v.vm_end end write
              (find_vma-IsValid mm start valid) less in
          (
            b,
            mm',
            check_next f mm start end write v (ground arith) e inside allow ∙ run,
            (
              (λ yes a lo hi. elim (Bool-cases (ltb a v.vm_end)) [
                | inl here ↦ (v, held, ground arith, may_access_mono v start a write lo allow)
                | inr there ↦
                    subst (λ vs. Allowed vs write a) (find_vma-list mm start)
                      (iff.0 yes a (ground arith) hi)
              ]),
              λ all. iff.1 (λ a lo hi.
                  subst (λ vs. Allowed vs write a) (sym (find_vma-list mm start))
                    (all a (ground arith) hi)),
            ),
            same ∙ find_vma-list mm start,
            valid',
          )
    ]
  ]
]

-- On a well-formed address space of fewer areas than the fuel, `user_mem_check` allows a range of
-- user space exactly if each of its addresses is in an area with the permission (which for a write
-- keeps off the first page of a stack). It keeps the areas and well-formedness.
pub user_mem_check-exact :
    (fuel : ℕ) (mm : Mm) (addr len : ℕ) (write : Bool)
    → IsValid mm
    → length mm.mmap_list < fuel
    → user_access addr ((addr + len) % word) ≡ true
    → (b : Bool) × (mm' : Mm) × (user_mem_check fuel (some mm) addr len write ≡ ok (b, some mm'))
      × ((b ≡ true) ↔ ((a : ℕ) → addr ≤ a → a < (addr + len) % word → Allowed mm.mmap_list write a))
      × (mm'.mmap_list ≡ mm.mmap_list)
      × IsValid mm'
unfolding user_mem_check
user_mem_check-exact fuel mm addr len write valid enough ua =
    let (b, mm', run, iff, same, valid') =
      mem_check-Answers fuel mm addr ((addr + len) % word) write valid
        (omega (arith, above-le-length addr mm.mmap_list)) in
    (b, mm', rw (ua, run), iff, same, valid')
