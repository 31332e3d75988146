-- ===== src/Fault/Shared.antt =====
-- `do_pgfault` with a page for the copy.
use lab.Base.{
  ℕ, ◌+◌, ◌-◌, ◌%◌, ◌^◌, ◌<◌, ◌≡◌, ◌≢◌, ◌⊎◌, refl, sym, ◌∙◌, ap, true, false, lt→ltb, inl, if_true,
  run_ok, some, pos, ok, assert, arith,
}
use lab.Vmm.{Mm, Vma, page_size, round_down}
use lab.Paging.{
  Machine, set_entry, page_ref, page_ref_inc, page_ref_dec, int_mod, ptx, copy_frame, alloc_pages,
  pte_create, zero_pte, in_memory,
}
use lab.Paging.Alloc.{alloc_pages-kept}
use lab.Paging.Walk.{Walks, Walks-frame}
use lab.Paging.Frames.{
  entry-set_entry, frames-set_entry, frames-copy_frame, copied, page_ref-set, pages-set_other,
  page_lock-set,
}
use lab.Fault.Cow.{CowFault, IsCow, set_lock, do_pgfault-CowFault}
use lab.Fault.Sole.{lock-set_lock, ref-set_lock, set_lock-restored}
use lab.Fault.Copy.{Apart, minus_one, copied_to, map_copy-maps}
use lab.Fault.{is_shared, make_writable, resolve, copy_on_write, map_copy, do_pgfault}

resolve-copies :
    (fuel pgdir la pd0 pt p n : ℕ) (m m₁ : Machine)
    → alloc_pages fuel 1 m ≡ ok (some n, m₁)
    → Walks m pgdir la pd0 pt
    → IsCow m (pt, ptx la) p
    → Apart m n p pgdir pd0 pt
    → 1 < page_ref m p
    → page_ref m p < 2 ^ 31
    → (m.area.pages p).page_lock ≡ true
    → resolve fuel pgdir la (pt, ptx la) p m
      ≡ ok (pos 0, set_lock false p (copied_to n p (pt, ptx la) m₁))
unfolding resolve copy_on_write
resolve-copies fuel pgdir la pd0 pt p n m m₁ run path h a one small held =
    let kept = alloc_pages-kept fuel 1 m m₁ (some n) run in
    let f : (t i : ℕ) → m₁.frames t i ≡ m.frames t i = λ t i. ap (λ g. g t i) kept.0 in
    let e = f pt (ptx la) in
    let path₁ = Walks-frame m m₁ pgdir la pd0 pt (f pgdir _) (f pd0 _) kept.1 path in
    let h₁ : IsCow m₁ (pt, ptx la) p = record {
      valid = ap (λ x. x.valid) e ∙ h.valid;
      cow = ap (λ x. x.perm.cow) e ∙ h.cow;
      page = ap (λ x. x.page) e ∙ h.page;
      known = rw (kept.1) h.known;
    } in
    let a₁ : Apart m₁ n p pgdir pd0 pt = record {
      known = rw (kept.1) a.known;
      not_page = a.not_page;
      not_pgdir = a.not_pgdir;
      not_pd0 = a.not_pd0;
      not_pt = a.not_pt;
      pt_pgdir = a.pt_pgdir;
      pt_pd0 = a.pt_pd0;
    } in
    let r = (kept.2 p).0 in
    let one₁ : 1 < page_ref m₁ p = rw r one in
    let small₁ : page_ref m₁ p < 2 ^ 31 = rw r small in
    let shared : is_shared p m ≡ true = ground arith in
    let shared₁ : is_shared p (copy_frame m₁ n p) ≡ true = ground arith in
    if_true (is_shared p m) _ _ shared
    ∙ run_ok (alloc_pages fuel 1 m) (some n, m₁) _ run
    ∙ run_ok (in_memory n m₁) tt _ (ap assert (lt→ltb n m₁.npage a₁.known))
    ∙ run_ok (in_memory p m₁) tt _ (ap assert (lt→ltb p m₁.npage h₁.known))
    ∙ if_true (is_shared p (copy_frame m₁ n p)) _ _ shared₁
    ∙ ap (λ x. map_copy fuel pgdir la p n (make_writable x).perm (copy_frame m₁ n p)) (sym e)
    ∙ map_copy-maps fuel pgdir la pd0 pt p n m₁ path₁ h₁ a₁ one₁ small₁ ((kept.2 p).1 ∙ held)

-- What is in the copy's machine, entry by entry and page by page.
module _ (n p pt i : ℕ) (m : Machine) where
  copied-entry :
      (copied_to n p (pt, i) m).frames pt i ≡ pte_create n (make_writable (m.frames pt i)).perm
  copied-entry =
      entry-set_entry
        (set_entry (page_ref_dec p (page_ref_inc n (copy_frame m n p))) (pt, i) zero_pte) (pt, i)
        (pte_create n (make_writable (m.frames pt i)).perm)

  copied-frames :
      (t j : ℕ)
      → (t ≢ pt) ⊎ (j ≢ i)
      → (copied_to n p (pt, i) m).frames t j ≡ (copy_frame m n p).frames t j
  copied-frames t j ne =
      let m₃ = page_ref_dec p (page_ref_inc n (copy_frame m n p)) in
      frames-set_entry (set_entry m₃ (pt, i) zero_pte) (pt, i)
        (pte_create n (make_writable (m.frames pt i)).perm) t j ne
      ∙ frames-set_entry m₃ (pt, i) zero_pte t j ne

  copied-ref-old :
      n ≢ p
      → 1 < page_ref m p
      → page_ref m p < 2 ^ 31
      → page_ref (copied_to n p (pt, i) m) p ≡ page_ref m p - 1
  copied-ref-old ne one small =
      let m₂ = page_ref_inc n m in
      let same : page_ref m₂ p ≡ page_ref m p =
        ap (λ x. x.ref) (pages-set_other n _ p m (λ e. ne (sym e))) in
      page_ref-set p _ m₂
      ∙ ap (λ r. (r + int_mod - 1) % int_mod) same
      ∙ minus_one (page_ref m p) (omega (arith, one)) (omega (arith, small))

  copied-ref-new : n ≢ p → page_ref (copied_to n p (pt, i) m) n ≡ (page_ref m n + 1) % int_mod
  copied-ref-new ne =
      ap (λ x. x.ref) (pages-set_other p _ n (page_ref_inc n m) ne) ∙ page_ref-set n _ m

  copied-other : (q : ℕ) → q ≢ p → q ≢ n → (copied_to n p (pt, i) m).area.pages q ≡ m.area.pages q
  copied-other q ne ne' = pages-set_other p _ q (page_ref_inc n m) ne ∙ pages-set_other n _ q m ne'

  copied-lock :
      (q : ℕ) → ((copied_to n p (pt, i) m).area.pages q).page_lock ≡ (m.area.pages q).page_lock
  copied-lock q = page_lock-set p _ q (page_ref_inc n m) ∙ page_lock-set n _ q m

-- A write faults on page p, which the tables map copy-on-write, in a writable area, with the lock of p
-- free; p has more than one reference, and the allocator gives a page n apart from p and from the three
-- tables. Then do_pgfault returns 0. The entry maps n, writable and not copy-on-write, with the other
-- permissions as before; n holds what p held; every other word of memory is unchanged; p has one
-- reference less, n one more, all other pages as many as before; and the lock of every page is as it
-- was.
pub do_pgfault-copies :
    (fuel : ℕ) (mm mm' : Mm) (v : Vma) (pgdir error_code addr pd0 pt p n : ℕ) (m m₁ : Machine)
    → CowFault mm mm' v pgdir error_code addr pd0 pt p m
    → 1 < page_ref m p
    → page_ref m p < 2 ^ 31
    → alloc_pages fuel 1 (set_lock true p m) ≡ ok (some n, m₁)
    → Apart m n p pgdir pd0 pt
    → (m' : Machine) × (do_pgfault fuel (some (mm, pgdir)) error_code addr m
        ≡ ok (pos 0, some (mm', pgdir), m'))
      × (m'.frames pt (ptx (round_down addr page_size))
          ≡ pte_create n (make_writable (m.frames pt (ptx (round_down addr page_size)))).perm)
      × ((i : ℕ) → m'.frames n i ≡ m.frames p i)
      × ((t i : ℕ)
          → t ≢ n
          → (t ≢ pt) ⊎ (i ≢ ptx (round_down addr page_size))
          → m'.frames t i ≡ m.frames t i)
      × (page_ref m' p ≡ page_ref m p - 1)
      × (page_ref m' n ≡ (page_ref m n + 1) % 2 ^ 32)
      × ((q : ℕ) → q ≢ p → q ≢ n → page_ref m' q ≡ page_ref m q)
      × ((q : ℕ) → (m'.area.pages q).page_lock ≡ (m.area.pages q).page_lock)
do_pgfault-copies fuel mm mm' v pgdir error_code addr pd0 pt p n m m₁ h one small run a =
    let la = round_down addr page_size in
    let held = set_lock true p m in
    let same = ref-set_lock true p p m in
    let kept = alloc_pages-kept fuel 1 held m₁ (some n) run in
    let f : (t i : ℕ) → m₁.frames t i ≡ m.frames t i = λ t i. ap (λ g. g t i) kept.0 in
    let refs : (q : ℕ) → page_ref m₁ q ≡ page_ref m q =
      λ q. (kept.2 q).0 ∙ ref-set_lock true p q m in
    let cow : IsCow held (pt, ptx la) p = record {
      valid = h.mapped.valid;
      cow = h.mapped.cow;
      page = h.mapped.page;
      known = h.mapped.known;
    } in
    let apart : Apart held n p pgdir pd0 pt = record {
      known = a.known;
      not_page = a.not_page;
      not_pgdir = a.not_pgdir;
      not_pd0 = a.not_pd0;
      not_pt = a.not_pt;
      pt_pgdir = a.pt_pgdir;
      pt_pd0 = a.pt_pd0;
    } in
    let path = Walks-frame m held pgdir la pd0 pt refl refl refl h.path in
    let m₂ = copied_to n p (pt, ptx la) m₁ in
    let free : (q : ℕ) → page_ref (set_lock false p m₂) q ≡ page_ref m₂ q =
      λ q. ref-set_lock false p q m₂ in
    (
      set_lock false p m₂,
      do_pgfault-CowFault fuel mm mm' v pgdir error_code addr pd0 pt p m _ (pos 0) h (
          resolve-copies fuel pgdir la pd0 pt p n held m₁ run path cow apart (rw same one)
            (rw same small) (lock-set_lock true p m)),
      copied-entry n p pt (ptx la) m₁ ∙ ap (λ e. pte_create n (make_writable e).perm) (f pt _),
      (λ i. copied-frames n p pt (ptx la) m₁ n i (inl a.not_pt) ∙ copied m₁ n p i ∙ f p i),
      (λ t i ne ne'.
          copied-frames n p pt (ptx la) m₁ t i ne' ∙ frames-copy_frame m₁ n p t i ne ∙ f t i),
      free p
          ∙ copied-ref-old n p pt (ptx la) m₁ a.not_page (rw (refs p) one) (rw (refs p) small)
          ∙ ap (λ r. r - 1) (refs p),
      free n ∙ copied-ref-new n p pt (ptx la) m₁ a.not_page ∙ ap (λ r. (r + 1) % int_mod) (refs n),
      (λ q ne ne'. free q ∙ ap (λ x. x.ref) (copied-other n p pt (ptx la) m₁ q ne ne') ∙ refs q),
      set_lock-restored p m m₂ h.unlocked (λ q. copied-lock n p pt (ptx la) m₁ q ∙ (kept.2 q).1),
    )
