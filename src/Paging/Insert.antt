-- ===== src/Paging/Insert.antt =====
-- `page_insert` once the entry is there.
use lab.Base.{
  ℕ, ◌<◌, ◌≡◌, ◌≢◌, refl, ◌∙◌, ap, true, false, false, lt→ltb, ◌==◌, ne→not_eq, if_true, if_false,
  run_ok, pos, Outcome, ok, ◌>>=◌, arith,
}
use lab.Paging.Walk.{Walks, get_pte-Walks}
use lab.Paging.{
  Perm, Pte, Machine, Slot, zero_pte, pte_create, entry, set_entry, page_ref, page_ref_inc,
  page_ref_dec, int_mod, pte2page, put_page, page_remove_pte, insert_at, page_insert, ptx, get_pte,
}

pub pte2page-valid :
    (e : Pte) (m : Machine) (p : ℕ)
    → e.valid ≡ true
    → e.page ≡ p
    → p < m.npage
    → pte2page e m ≡ ok p
unfolding pte2page
pte2page-valid e m p v eq lt = rw (v, eq, lt→ltb p m.npage lt) refl

-- More than one reference: one is taken away.
put_page-shared :
    (fuel p : ℕ) (m : Machine)
    → 1 < page_ref m p
    → page_ref m p < int_mod
    → put_page fuel p m ≡ ok (page_ref_dec p m)
unfolding put_page
put_page-shared fuel p m one small = ground arith

page_remove_pte-shared :
    (fuel : ℕ) (slot : Slot) (p : ℕ) (m : Machine)
    → (entry m slot).valid ≡ true
    → (entry m slot).page ≡ p
    → p < m.npage
    → 1 < page_ref m p
    → page_ref m p < int_mod
    → page_remove_pte fuel slot m ≡ ok (set_entry (page_ref_dec p m) slot zero_pte)
unfolding page_remove_pte
page_remove_pte-shared fuel slot p m v e lt one small =
    rw (pte2page-valid (entry m slot) m p v e lt, v, put_page-shared fuel p m one small) refl

-- Another page takes the place of `p`, which has more references.
abbrev pub replaced : ℕ → ℕ → Slot → Perm → Machine → Machine
replaced page p slot perm m =
    set_entry (set_entry (page_ref_dec p (page_ref_inc page m)) slot zero_pte) slot
      (pte_create page perm)

insert_at-replace :
    (fuel page p : ℕ) (slot : Slot) (perm : Perm) (m : Machine)
    → (entry m slot).valid ≡ true
    → (entry m slot).page ≡ p
    → p < m.npage
    → p ≢ page
    → 1 < page_ref m p
    → page_ref m p < int_mod
    → insert_at fuel page slot perm m ≡ ok (replaced page p slot perm m)
unfolding insert_at
insert_at-replace fuel page p slot perm m v e lt ne one small =
    let m₁ = page_ref_inc page m in
    let same : page_ref m₁ p ≡ page_ref m p = ground arith in
    let finish : Machine → Outcome Machine = λ m₂. ok (set_entry m₂ slot (pte_create page perm)) in
    run_ok _ (set_entry (page_ref_dec p m₁) slot zero_pte) finish (
      if_true (entry m₁ slot).valid _ (ok m₁) v
      ∙ run_ok (pte2page (entry m slot) m₁) p _ (pte2page-valid (entry m slot) m₁ p v e lt)
      ∙ if_false (p == page) _ _ (ne→not_eq p page ne)
      ∙ page_remove_pte-shared fuel slot p m₁ v e lt (rw same one) (rw same small))

pub page_insert-replace :
    (fuel pgdir page la pd0 pt p : ℕ) (perm : Perm) (m : Machine)
    → Walks m pgdir la pd0 pt
    → (m.frames pt (ptx la)).valid ≡ true
    → (m.frames pt (ptx la)).page ≡ p
    → p < m.npage
    → p ≢ page
    → 1 < page_ref m p
    → page_ref m p < int_mod
    → page_insert fuel pgdir page la perm m ≡ ok (pos 0, replaced page p (pt, ptx la) perm m)
unfolding page_insert
page_insert-replace fuel pgdir page la pd0 pt p perm m path v e lt ne one small =
    rw
      (
        get_pte-Walks fuel pgdir la true m pd0 pt path,
        insert_at-replace fuel page p (pt, ptx la) perm m v e lt ne one small,
      )
      refl

-- A free entry: the page has one more reference, and is mapped.
pub page_insert-fresh :
    (fuel pgdir page la pd0 pt : ℕ) (perm : Perm) (m : Machine)
    → Walks m pgdir la pd0 pt
    → (m.frames pt (ptx la)).valid ≡ false
    → page_insert fuel pgdir page la perm m
      ≡ ok (pos 0, set_entry (page_ref_inc page m) (pt, ptx la) (pte_create page perm))
unfolding page_insert insert_at
page_insert-fresh fuel pgdir page la pd0 pt perm m path v =
    run_ok (get_pte fuel pgdir la true m) _ _ (get_pte-Walks fuel pgdir la true m pd0 pt path)
    ∙ ap
        (λ o. (o >>= λ m₂. ok (set_entry m₂ (pt, ptx la) (pte_create page perm))) >>= λ m₂.
          ok (pos 0, m₂))
        (if_false (m.frames pt (ptx la)).valid _ (ok (page_ref_inc page m)) v)
