-- ===== src/Ranges/Share.antt =====
-- `copy_range` on one page: parent and child share it.
use lab.Base.{
  ℕ, ◌+◌, ◌%◌, ◌^◌, ◌<◌, ◌≡◌, ◌≢◌, ◌⊎◌, sym, ◌∙◌, ap, Bool, true, false, Bool-cases, inl, inr,
  if◌then◌else◌, if_true, if_false, run_ok, pos, ok,
}
use lab.Paging.{
  Machine, Perm, Slot, entry, set_entry, page_ref, page_ref_inc, ptx, pte_create, get_pte, pte2page,
  page_insert,
}
use lab.Paging.Walk.{Walks, get_pte-Walks}
use lab.Paging.Insert.{pte2page-valid, page_insert-fresh}
use lab.Paging.Frames.{entry-set_entry, frames-set_entry, page_ref-set, pages-set_other}
use lab.Ranges.{cow_perm, share_page, copy_page, next_page}

-- The permissions that both have.
abbrev pub shared_perm : Perm → Perm
shared_perm perm = if perm.write then cow_perm perm else perm

-- The machine when the child's entry is there.
abbrev mapped : ℕ → Perm → Slot → Machine → Machine
mapped p perm t m = set_entry (page_ref_inc p m) t (pte_create p (shared_perm perm))

-- The machine when page `p` is shared by the entries `s` of the parent and `t` of the child.
abbrev shared : ℕ → Slot → Slot → Machine → Machine
shared p s t m =
    let perm = (entry m s).perm in
    if perm.write
    then set_entry (mapped p perm t m) s (pte_create p (cow_perm perm))
    else mapped p perm t m

share_page-fresh :
    (fuel to start cd0 ct p : ℕ) (s : Slot) (m : Machine)
    → Walks m to start cd0 ct
    → (entry m s).valid ≡ true
    → (entry m s).page ≡ p
    → p < m.npage
    → (m.frames ct (ptx start)).valid ≡ false
    → share_page fuel to start s m ≡ ok (pos 0, shared p s (ct, ptx start) m)
unfolding share_page
share_page-fresh fuel to start cd0 ct p s m path v e lt free =
    let perm = (entry m s).perm in
    run_ok (get_pte fuel to start true m) _ _ (get_pte-Walks fuel to start true m cd0 ct path)
    ∙ run_ok (pte2page (entry m s) m) p _ (pte2page-valid (entry m s) m p v e lt)
    ∙ run_ok (page_insert fuel to p start (shared_perm perm) m) _ _
        (page_insert-fresh fuel to p start cd0 ct (shared_perm perm) m path free)

module _ (p ft ct i : ℕ) (m : Machine) (ne : ft ≢ ct) where
  shared-child :
      (shared p (ft, i) (ct, i) m).frames ct i ≡ pte_create p (shared_perm (m.frames ft i).perm)
  shared-child = go (m.frames ft i).perm.write
    where
      m₁ : Machine
      m₁ = mapped p (m.frames ft i).perm (ct, i) m

      go :
          (w : Bool)
          → (if w
                then set_entry m₁ (ft, i) (pte_create p (cow_perm (m.frames ft i).perm))
                else m₁).frames
              ct i
            ≡ pte_create p (shared_perm (m.frames ft i).perm)
      go true =
          frames-set_entry m₁ (ft, i) _ ct i (inl (λ e. ne (sym e)))
          ∙ entry-set_entry (page_ref_inc p m) (ct, i) _
      go false = entry-set_entry (page_ref_inc p m) (ct, i) _

  shared-parent :
      (m.frames ft i).valid ≡ true
      → (m.frames ft i).page ≡ p
      → (shared p (ft, i) (ct, i) m).frames ft i ≡ pte_create p (shared_perm (m.frames ft i).perm)
  shared-parent v e = elim (Bool-cases (m.frames ft i).perm.write) [
    | inl w ↦
        ap (λ (x : Machine). x.frames ft i) (if_true (m.frames ft i).perm.write _ _ w)
        ∙ entry-set_entry (mapped p (m.frames ft i).perm (ct, i) m) (ft, i)
            (pte_create p (cow_perm (m.frames ft i).perm))
        ∙ ap (pte_create p) (sym (if_true (m.frames ft i).perm.write _ (m.frames ft i).perm w))
    | inr w ↦
        ap (λ (x : Machine). x.frames ft i) (if_false (m.frames ft i).perm.write _ _ w)
        ∙ frames-set_entry (page_ref_inc p m) (ct, i) _ ft i (inl ne)
        ∙ same v e
        ∙ ap (pte_create p)
            (sym (if_false (m.frames ft i).perm.write (cow_perm (m.frames ft i).perm) _ w))
  ]
    where
      same :
          (m.frames ft i).valid ≡ true
          → (m.frames ft i).page ≡ p
          → m.frames ft i ≡ pte_create p (m.frames ft i).perm
      same v' e' j = record { valid = v' j; perm = (m.frames ft i).perm; page = e' j }

  shared-frames :
      (t j : ℕ)
      → ((t ≢ ft) × (t ≢ ct)) ⊎ (j ≢ i)
      → (shared p (ft, i) (ct, i) m).frames t j ≡ m.frames t j
  shared-frames t j other = go (m.frames ft i).perm.write
    where
      m₁ : Machine
      m₁ = mapped p (m.frames ft i).perm (ct, i) m

      first : m₁.frames t j ≡ m.frames t j
      first = elim other [
        | inl h ↦ frames-set_entry (page_ref_inc p m) (ct, i) _ t j (inl h.1)
        | inr h ↦ frames-set_entry (page_ref_inc p m) (ct, i) _ t j (inr h)
      ]

      go :
          (w : Bool)
          → (if w
                then set_entry m₁ (ft, i) (pte_create p (cow_perm (m.frames ft i).perm))
                else m₁).frames
              t j
            ≡ m.frames t j
      go true = elim other [
        | inl h ↦ frames-set_entry m₁ (ft, i) _ t j (inl h.0) ∙ first
        | inr h ↦ frames-set_entry m₁ (ft, i) _ t j (inr h) ∙ first
      ]
      go false = first

  shared-area : (shared p (ft, i) (ct, i) m).area ≡ (page_ref_inc p m).area
  shared-area = elim (Bool-cases (m.frames ft i).perm.write) [
    | inl w ↦ ap (λ (x : Machine). x.area) (if_true (m.frames ft i).perm.write _ _ w)
    | inr w ↦ ap (λ (x : Machine). x.area) (if_false (m.frames ft i).perm.write _ _ w)
  ]

-- The parent's tables map page p at an address, and the child's tables reach the address but map
-- nothing there, in another page table. Then the round of copy_range for the address returns 0 and goes
-- to the next page; both entries map p with the same permissions, which are the parent's, but without
-- PTE_W and with PTE_COW if the parent could write; p has one reference more; and all other words of
-- memory and all other pages' records are unchanged.
pub copy_page-shares :
    (fuel to from start fd0 ft cd0 ct p : ℕ) (m : Machine)
    → Walks m from start fd0 ft
    → Walks m to start cd0 ct
    → ft ≢ ct
    → (m.frames ft (ptx start)).valid ≡ true
    → (m.frames ft (ptx start)).page ≡ p
    → p < m.npage
    → (m.frames ct (ptx start)).valid ≡ false
    → (m' : Machine) × (copy_page fuel to from start m ≡ ok (pos 0, next_page start, m'))
      × (m'.frames ft (ptx start) ≡ pte_create p (shared_perm (m.frames ft (ptx start)).perm))
      × (m'.frames ct (ptx start) ≡ pte_create p (shared_perm (m.frames ft (ptx start)).perm))
      × (page_ref m' p ≡ (page_ref m p + 1) % 2 ^ 32)
      × ((t i : ℕ) → ((t ≢ ft) × (t ≢ ct)) ⊎ (i ≢ ptx start) → m'.frames t i ≡ m.frames t i)
      × ((q : ℕ) → q ≢ p → m'.area.pages q ≡ m.area.pages q)
unfolding copy_page
copy_page-shares fuel to from start fd0 ft cd0 ct p m path path' ne v e lt free =
    let s : Slot = (ft, ptx start) in
    let area = shared-area p ft ct (ptx start) m ne in
    (
      shared p s (ct, ptx start) m,
      run_ok (get_pte fuel from start false m) _ _
            (get_pte-Walks fuel from start false m fd0 ft path)
          ∙ if_true (m.frames ft (ptx start)).valid _ _ v
          ∙ run_ok (share_page fuel to start s m) _ _
              (share_page-fresh fuel to start cd0 ct p s m path' v e lt free),
      shared-parent p ft ct (ptx start) m ne v e,
      shared-child p ft ct (ptx start) m ne,
      ap (λ a. (a.pages p).ref) area ∙ page_ref-set p _ m,
      shared-frames p ft ct (ptx start) m ne,
      (λ q other. ap (λ a. a.pages q) area ∙ pages-set_other p _ q m other),
    )
