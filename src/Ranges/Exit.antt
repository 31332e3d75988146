-- ===== src/Ranges/Exit.antt =====
-- `exit_range` frees a directory that is in use.
use lab.Base.{
  ℕ, zero, suc, ◌+◌, ◌%◌, ◌<◌, ◌≡◌, refl, sym, ◌∙◌, ap, Bool, true, false, Bool-cases, ◌&&◌, not,
  ltb, lt→ltb, ◌==◌, inl, inr, if◌then◌else◌, if_false, run_ok, assert, ok, ◌>>=◌, ◌>>◌, arith,
}
use lab.Vmm.{word}
use lab.Paging.{Machine, Pte, set_entry, zero_pte, pdx1, pdx0, free_pages, in_memory}
use lab.Ranges.{pt_size, pd_size, goes_on, no_valid, exit_entry, exit_entries, exit_directory}

no_valid-used : (n i : ℕ) (pt : ℕ → Pte) → i < n → (pt i).valid ≡ true → no_valid n pt ≡ false
unfolding no_valid
no_valid-used zero i pt lt v = ground arith
no_valid-used (suc n) i pt lt v = elim (Bool-cases (n == i)) [
  | inl e ↦
      let same : i ≡ n = ground arith in
      ap (λ b. not b && no_valid n pt) (ap (λ x. (pt x).valid) (sym same) ∙ v)
  | inr e ↦
      let lt' : i < n = ground arith in
      ap (λ b. not (pt n).valid && b) (no_valid-used n i pt lt' v) ∙ and_false (not (pt n).valid)
]
  where
    and_false : (b : Bool) → (b && false) ≡ false
    and_false true = refl
    and_false false = refl

exit_entry-used :
    (fuel pd0 d0start pt i : ℕ) (m : Machine)
    → (m.frames pd0 (pdx0 d0start)).valid ≡ true
    → (m.frames pd0 (pdx0 d0start)).page ≡ pt
    → pt < m.npage
    → i < 512
    → (m.frames pt i).valid ≡ true
    → exit_entry fuel pd0 d0start true m ≡ ok (true, m)
unfolding exit_entry
exit_entry-used fuel pd0 d0start pt i m v e lt small used =
    if_false (not (m.frames pd0 (pdx0 d0start)).valid) _ _ (ap not v)
    ∙ run_ok (in_memory (m.frames pd0 (pdx0 d0start)).page m) tt _
        (ap (λ x. in_memory x m) e ∙ ap assert (lt→ltb pt m.npage lt))
    ∙ if_false (no_valid 512 (m.frames (m.frames pd0 (pdx0 d0start)).page)) _ _
        (ap (λ x. no_valid 512 (m.frames x)) e ∙ no_valid-used 512 i (m.frames pt) small used)

-- An entry of the level 1 directory leads to the directory pd0, of which the range has one entry; that
-- entry leads to the page table pt, which still maps a page. Then exit_range gives pd0 back to the
-- allocator and clears the entry of the level 1 directory, so that pt and what it maps are lost.
pub exit_directory-in_use :
    (fuel pgdir d0start d1start end pd0 pt i : ℕ) (m m₁ : Machine)
    → (m.frames pgdir (pdx1 d1start)).valid ≡ true
    → (m.frames pgdir (pdx1 d1start)).page ≡ pd0
    → pd0 < m.npage
    → goes_on ((d0start + pt_size) % word) end ≡ false
    → (m.frames pd0 (pdx0 d0start)).valid ≡ true
    → (m.frames pd0 (pdx0 d0start)).page ≡ pt
    → pt < m.npage
    → i < 512
    → (m.frames pt i).valid ≡ true
    → free_pages (suc fuel) pd0 1 m ≡ ok m₁
    → exit_directory (suc fuel) pgdir d0start d1start end m
      ≡ ok (set_entry m₁ (pgdir, pdx1 d1start) zero_pte)
unfolding exit_directory exit_entries
exit_directory-in_use fuel pgdir d0start d1start end pd0 pt i m m₁ v1 e1 lt1 stop v0 e0 lt0 small
      used free =
    let d0start' = (d0start + pt_size) % word in
    let once : exit_entries (suc fuel) pd0 d0start d1start end true m ≡ ok (true, m) =
      run_ok (exit_entry fuel pd0 d0start true m) (true, m) _
        (exit_entry-used fuel pd0 d0start pt i m v0 e0 lt0 small used)
      ∙ if_false _ _ _ (ap (λ b. b && ltb d0start' ((d1start + pd_size) % word)) stop) in
    if_false (not (m.frames pgdir (pdx1 d1start)).valid) _ _ (ap not v1)
    ∙ ap
        (λ x.
          in_memory x m
          >> (exit_entries (suc fuel) x d0start d1start end true m >>= λ r.
              if r.0
              then (free_pages (suc fuel) x 1 r.1 >>= λ m₂.
                  ok (set_entry m₂ (pgdir, pdx1 d1start) zero_pte))
              else ok r.1))
        e1
    ∙ run_ok (in_memory pd0 m) tt _ (ap assert (lt→ltb pd0 m.npage lt1))
    ∙ run_ok (exit_entries (suc fuel) pd0 d0start d1start end true m) (true, m) _ once
    ∙ run_ok (free_pages (suc fuel) pd0 1 m) m₁ _ free
