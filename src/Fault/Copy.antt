-- ===== src/Fault/Copy.antt =====
-- `do_pgfault` on a copy-on-write page that is mapped elsewhere too: it is copied.
use lab.Base.{
  ℕ, ◌+◌, ◌-◌, ◌%◌, ◌^◌, ◌<◌, ◌≡◌, ◌≢◌, refl, sym, ◌∙◌, ap, true, false, ◌==◌, ==_refl, if_true,
  run_ok, none, some, pos, ok, arith, inl,
}
use lab.Vmm.{Mm, Vma, e_no_mem, page_size, round_down}
use lab.Pmm.Kept.{SameRefs}
use lab.Paging.{
  Machine, Slot, entry, set_entry, page_ref, page_ref_inc, page_ref_dec, int_mod, ptx, copy_frame,
  alloc_pages, pte_create, zero_pte, get_pte, page_insert, pte2page,
}
use lab.Paging.Alloc.{alloc_pages-kept}
use lab.Paging.Walk.{Walks, Walks-frame, get_pte-Walks}
use lab.Paging.Insert.{replaced, page_insert-replace, pte2page-valid}
use lab.Paging.Frames.{entry-set_entry, frames-set_entry, frames-copy_frame, page_lock-set}
use lab.Fault.Cow.{CowFault, IsCow, set_lock, do_pgfault-CowFault}
use lab.Fault.Sole.{lock-set_lock, ref-set_lock, leave-locked, set_lock-SameRefs}
use lab.Fault.{
  is_shared, is_private, check_mapped, make_writable, resolve, map_copy, copy_on_write, do_pgfault,
}

-- There is no memory for a copy: do_pgfault returns -E_NO_MEM.
resolve-none :
    (fuel pgdir la p : ℕ) (slot : Slot) (m m₁ : Machine)
    → 1 < page_ref m p
    → page_ref m p < 2 ^ 31
    → (m.area.pages p).page_lock ≡ true
    → alloc_pages fuel 1 m ≡ ok (none, m₁)
    → resolve fuel pgdir la slot p m ≡ ok (e_no_mem, set_lock false p m₁)
unfolding resolve copy_on_write
resolve-none fuel pgdir la p slot m m₁ one small held run =
    let shared : is_shared p m ≡ true = ground arith in
    if_true (is_shared p m) _ _ shared
    ∙ run_ok (alloc_pages fuel 1 m) _ _ run
    ∙ leave-locked p e_no_mem m₁ (((alloc_pages-kept fuel 1 m m₁ none run).2 p).1 ∙ held)

-- A write faults on page p, which the tables map copy-on-write, in a writable area, with the lock of p
-- free; p has more than one reference, and no page is free for the copy. Then do_pgfault returns
-- -E_NO_MEM, and all words of memory and the reference counts and locks of all pages are unchanged.
pub do_pgfault-no_mem :
    (fuel : ℕ) (mm mm' : Mm) (v : Vma) (pgdir error_code addr pd0 pt p : ℕ) (m m₁ : Machine)
    → CowFault mm mm' v pgdir error_code addr pd0 pt p m
    → 1 < page_ref m p
    → page_ref m p < 2 ^ 31
    → alloc_pages fuel 1 (set_lock true p m) ≡ ok (none, m₁)
    → (m' : Machine) × (do_pgfault fuel (some (mm, pgdir)) error_code addr m
        ≡ ok (e_no_mem, some (mm', pgdir), m'))
      × (m'.frames ≡ m.frames)
      × SameRefs m.area m'.area
do_pgfault-no_mem fuel mm mm' v pgdir error_code addr pd0 pt p m m₁ h one small run =
    let la = round_down addr page_size in
    let held = set_lock true p m in
    let same = ref-set_lock true p p m in
    let kept = alloc_pages-kept fuel 1 held m₁ none run in
    (
      set_lock false p m₁,
      do_pgfault-CowFault fuel mm mm' v pgdir error_code addr pd0 pt p m _ e_no_mem h (
          resolve-none fuel pgdir la p (pt, ptx la) held m₁ (rw same one) (rw same small)
            (lock-set_lock true p m) run),
      kept.0,
      set_lock-SameRefs p m m₁ h.unlocked kept.2,
    )

-- The page `n` is memory, and is neither the shared page `p` nor one of the tables, which are three.
pub record Apart (m : Machine) (n p pgdir pd0 pt : ℕ) : Type 0 where
  pub known : n < m.npage
  pub not_page : n ≢ p
  pub not_pgdir : n ≢ pgdir
  pub not_pd0 : n ≢ pd0
  pub not_pt : n ≢ pt
  pub pt_pgdir : pt ≢ pgdir
  pub pt_pd0 : pt ≢ pd0

pub minus_one : (r : ℕ) → 0 < r → r < int_mod → (r + int_mod - 1) % int_mod ≡ r - 1
minus_one r pos_r small = omega arith

-- What the copy leaves in memory.
abbrev pub copied_to : ℕ → ℕ → Slot → Machine → Machine
copied_to n p s m = replaced n p s (make_writable (entry m s)).perm (copy_frame m n p)

Walks-copied :
    (m : Machine) (n p pgdir la pd0 pt : ℕ)
    → Apart m n p pgdir pd0 pt
    → Walks m pgdir la pd0 pt
    → Walks (copied_to n p (pt, ptx la) m) pgdir la pd0 pt
Walks-copied m n p pgdir la pd0 pt a path =
    let s : Slot = (pt, ptx la) in
    let m₂ = copy_frame m n p in
    let m₃ = page_ref_dec p (page_ref_inc n m₂) in
    let perm = (make_writable (entry m s)).perm in
    let kept : (t i : ℕ) → n ≢ t → pt ≢ t → (copied_to n p s m).frames t i ≡ m.frames t i =
      λ t i ne ne'.
        frames-set_entry (set_entry m₃ s zero_pte) s (pte_create n perm) t i
          (inl (λ e. ne' (sym e)))
        ∙ frames-set_entry m₃ s zero_pte t i (inl (λ e. ne' (sym e)))
        ∙ frames-copy_frame m n p t i (λ e. ne (sym e)) in
    Walks-frame m (copied_to n p s m) pgdir la pd0 pt (kept pgdir _ a.not_pgdir a.pt_pgdir)
      (kept pd0 _ a.not_pd0 a.pt_pd0) refl path

pub map_copy-maps :
    (fuel pgdir la pd0 pt p n : ℕ) (m : Machine)
    → Walks m pgdir la pd0 pt
    → IsCow m (pt, ptx la) p
    → Apart m n p pgdir pd0 pt
    → 1 < page_ref m p
    → page_ref m p < 2 ^ 31
    → (m.area.pages p).page_lock ≡ true
    → map_copy fuel pgdir la p n (make_writable (entry m (pt, ptx la))).perm (copy_frame m n p)
      ≡ ok (pos 0, set_lock false p (copied_to n p (pt, ptx la) m))
unfolding map_copy check_mapped
map_copy-maps fuel pgdir la pd0 pt p n m path h a one small held =
    let s : Slot = (pt, ptx la) in
    let perm = (make_writable (entry m s)).perm in
    let m₂ = copy_frame m n p in
    let m₃ = copied_to n p s m in
    let kept : (t i : ℕ) → n ≢ t → m₂.frames t i ≡ m.frames t i =
      λ t i ne. frames-copy_frame m n p t i (λ e. ne (sym e)) in
    let path₂ =
      Walks-frame m m₂ pgdir la pd0 pt (kept pgdir _ a.not_pgdir) (kept pd0 _ a.not_pd0) refl
        path in
    let insert =
      page_insert-replace fuel pgdir n la pd0 pt p perm m₂ path₂
        (ap (λ e. e.valid) (kept pt _ a.not_pt) ∙ h.valid)
        (ap (λ e. e.page) (kept pt _ a.not_pt) ∙ h.page) h.known (λ e. a.not_page (sym e)) one
        (omega (arith, small)) in
    let new =
      entry-set_entry (set_entry (page_ref_dec p (page_ref_inc n m₂)) s zero_pte) s
        (pte_create n perm) in
    let private : is_private (entry m₃ s) ≡ true = ap is_private new in
    run_ok (page_insert fuel pgdir n la perm m₂) (pos 0, m₃) _ insert
    ∙ run_ok (get_pte fuel pgdir la false m₃) _ _
        (get_pte-Walks fuel pgdir la false m₃ pd0 pt (Walks-copied m n p pgdir la pd0 pt a path))
    ∙ if_true (is_private (entry m₃ s)) _ _ private
    ∙ run_ok (pte2page (entry m₃ s) m₃) n _
        (pte2page-valid (entry m₃ s) m₃ n (ap (λ e. e.valid) new) (ap (λ e. e.page) new) a.known)
    ∙ if_true (n == n) _ _ (==_refl n)
    ∙ leave-locked p (pos 0) m₃
        (page_lock-set p _ p (page_ref_inc n m₂) ∙ page_lock-set n _ p m₂ ∙ held)
