-- ===== src/Load/Rounds.antt =====
-- The rounds of the loops of `load_icode`: each fills a page, or the first part of one.
use lab.Base.{
  ℕ, zero, suc, Bool-cases, subst, ◌+◌, ◌-◌, ◌*◌, ◌%◌, ◌^◌, ◌≤◌, ◌<◌, ◌≡◌, refl, sym, ap, ◌∙◌, ◌⊎◌,
  inl, inr, ltb, if◌then◌else◌, if_true, if_false, run_ok, lt→ltb, ltb→lt, not_ltb→le, le→not_ltb,
  some, pos, ok, arith,
}
use lab.Vmm.{page_size, word}
use lab.Paging.{Perm, Machine, pgdir_alloc_page}
use lab.Space.{Bytes}
use lab.Load.Pages.{Pages, Loaded, write_bytes-Loaded, after_write}
use lab.Load.{write_bytes, Fill, chunk, fill_page, fill_pages, rest_size}

-- The end of what a round writes: the end of the page or of the part.
abbrev pub upto : ℕ → ℕ → ℕ
upto la end = if ltb end la then end else la

offset : (start la : ℕ) → la ≤ start → start < 2 ^ 63 → (start + word - la) % word ≡ start - la
offset start la le lt = omega arith

chunk_lem :
    (start la end : ℕ)
    → la ≤ start
    → start < end
    → start < la + 4096
    → end < 2 ^ 63
    → chunk ((start + word - la) % word) ((la + page_size) % word) end
      ≡ upto (la + 4096) end - start
chunk_lem start la end le lt near hi = ground arith

pub rest_lem :
    (start la end : ℕ)
    → start < la
    → la < start + 4096
    → start < end
    → end < 2 ^ 63
    → la < 2 ^ 63
    → rest_size start la end ≡ upto la end - start
rest_lem start la end lt near more hi hi' = ground arith

pub rest_offset :
    (start la : ℕ)
    → start < la
    → la < start + 4096
    → la < 2 ^ 63
    → (start + page_size + word - la) % word ≡ start + 4096 - la
rest_offset start la lt near hi = omega arith

-- One number is the other's bound, and a page's number is below `n` if its address is.
below : (la n k start end : ℕ) → la + 4096 * k ≤ start → start < end → end ≤ la + 4096 * n → k < n
below la n k start end a b c = omega arith

module _ (fuel pgdir la n va : ℕ) (perm : Perm) (pg : ℕ → ℕ) (ms : ℕ → Machine) (image : ℕ → ℕ)
    (old : Bytes) (pages : Pages fuel pgdir la n perm pg ms)
    (first_page : (la ≤ va) × (va < la + 4096)) (small : la + 4096 * n < 2 ^ 63) where
  -- How far the loops have come with `k` pages used.
  pub record At (k : ℕ) (s : Fill) : Type 0 where
    pub at_la : s.la ≡ la + 4096 * k
    pub at_machine : s.machine ≡ ms k
    pub at_page : 0 < k → s.page ≡ pg (k - 1)
    pub at_start :
        ((k ≡ 0) × (s.start ≡ va))
        ⊎ ((0 < k) × (s.start ≤ la + 4096 * k) × (la + 4096 * k < s.start + 4096) × (va ≤ s.start))
    pub at_bytes : Loaded la n pg image va s.start old s.bytes

  -- `source` has the bytes of the image from the start to the end of a part.
  abbrev pub Agrees : Bytes → ℕ → ℕ → ℕ → Type 0
  Agrees source from start end = (i : ℕ) → start + i < end → source (from + i) ≡ image (start + i)

  -- A part is over, or it goes on in a new page.
  abbrev pub Begins : ℕ → ℕ → ℕ → Type 0
  Begins k start end = (start ≡ end) ⊎ ((start < end) × (la + 4096 * k ≤ start))

  pub from_va : (k : ℕ) (s : Fill) → At k s → va ≤ s.start
  from_va k s at = ground (arith, at.at_start)

  near_page : (k : ℕ) (s : Fill) → At k s → la + 4096 * k ≤ s.start → s.start < la + 4096 * k + 4096
  near_page k s at h = ground (arith, at.at_start, first_page)

  -- A round that is made in the page `k`.
  module _ (k end : ℕ) (source : Bytes) (s : Fill) (at : At k s) (lt : s.start < end)
      (le : la + 4096 * k ≤ s.start) (hi : end ≤ la + 4096 * n) where
    size_at :
        chunk ((s.start + word - s.la) % word) ((s.la + page_size) % word) end
        ≡ upto (la + 4096 * k + 4096) end - s.start
    size_at =
        ap (λ l. chunk ((s.start + word - l) % word) ((l + page_size) % word) end) at.at_la
        ∙ chunk_lem s.start (la + 4096 * k) end le lt (near_page k s at le) (omega (arith, hi))

    offset_at : (s.start + word - s.la) % word ≡ s.start - (la + 4096 * k)
    offset_at = omega (arith, at.at_la)

    upto_bounds :
        (s.start < upto (la + 4096 * k + 4096) end)
        × (upto (la + 4096 * k + 4096) end ≤ la + 4096 * k + 4096)
        × (upto (la + 4096 * k + 4096) end ≤ end)
    upto_bounds = ground (arith, near_page k s at le)

    fill_page-start :
        (fill_page (pg k) source end (ms (k + 1)) s).start ≡ upto (la + 4096 * k + 4096) end
    fill_page-start = ap (λ x. (s.start + x) % word) size_at ∙ omega (arith, upto_bounds, hi, small)

    fill_page-At :
        Agrees source s.from s.start end → At (k + 1) (fill_page (pg k) source end (ms (k + 1)) s)
    unfolding after_write
    fill_page-At agree =
        let kn = below la n k s.start end le lt hi in
        let stop = upto (la + 4096 * k + 4096) end in
        record {
          at_la = omega (arith, at.at_la, small, kn);
          at_machine = refl;
          at_page = λ h. ap pg (omega arith);
          at_start = inr (
            omega arith,
            omega (arith, fill_page-start, upto_bounds),
            omega (arith, fill_page-start, upto_bounds),
            omega (arith, fill_page-start, upto_bounds, from_va k s at),
          );
          at_bytes =
              subst
                (λ x.
                  Loaded la n pg image va x old (fill_page (pg k) source end (ms (k + 1)) s).bytes)
                (sym fill_page-start)
                (subst
                  (λ x. Loaded la n pg image va stop old (
                    write_bytes (pg k * 4096 + x)
                      (chunk ((s.start + word - s.la) % word) ((s.la + page_size) % word) end)
                      (λ i. source (s.from + i)) s.bytes))
                  (sym offset_at)
                  (subst
                    (λ x. Loaded la n pg image va stop old (
                      write_bytes (pg k * 4096 + (s.start - (la + 4096 * k))) x
                        (λ i. source (s.from + i)) s.bytes))
                    (sym size_at)
                    (write_bytes-Loaded fuel pgdir la n va perm pg ms image old pages k s.start stop
                      s.bytes (λ i. source (s.from + i)) at.at_bytes kn le
                      (omega (arith, upto_bounds)) upto_bounds.1 (from_va k s at)
                      (λ i h. agree i (omega (arith, upto_bounds))))));
        }

  no_rounds : (k : ℕ) (s : Fill) → At k s → s.start ≤ la + 4096 * n → n < k + 0 → ⊥
  no_rounds k s at hi enough = ground (arith, at.at_start)

  mapped :
      (k : ℕ) (s : Fill)
      → At k s
      → k < n
      → pgdir_alloc_page fuel pgdir s.la perm s.machine ≡ ok (some (pg k), ms (k + 1))
  mapped k s at kn =
      ap (λ l. pgdir_alloc_page fuel pgdir l perm s.machine) at.at_la
      ∙ ap (pgdir_alloc_page fuel pgdir (la + 4096 * k) perm) at.at_machine
      ∙ pages.given k kn

  pub begins_at :
      (k end start : ℕ) → start ≡ la + 4096 * k → la + 4096 * k ≤ end → Begins k start end
  begins_at k end start e le = elim (Bool-cases (ltb (la + 4096 * k) end)) [
    | inl more ↦ inr (omega (arith, e, ltb→lt _ _ more), omega (arith, e))
    | inr over ↦ inl (omega (arith, e, not_ltb→le _ _ over))
  ]

  same_source :
      (k end : ℕ) (source : Bytes) (s : Fill)
      → At k s
      → s.start < end
      → la + 4096 * k ≤ s.start
      → end ≤ la + 4096 * n
      → Agrees source s.from s.start end
      → Agrees source
          (fill_page (pg k) source end (ms (k + 1)) s).from
          (fill_page (pg k) source end (ms (k + 1)) s).start
          end
  same_source k end source s at lt le hi agree i h =
      let stop = fill_page-start k end source s at lt le hi in
      let size = size_at k end source s at lt le hi in
      let bounds = upto_bounds k end source s at lt le hi in
      let moved = upto (la + 4096 * k + 4096) end - s.start in
      ap source (omega (arith, size))
      ∙ agree (moved + i) (omega (arith, stop, bounds))
      ∙ ap image (omega (arith, stop, bounds))

  goes_on :
      (k end : ℕ) (source : Bytes) (s : Fill)
      → At k s
      → s.start < end
      → la + 4096 * k ≤ s.start
      → end ≤ la + 4096 * n
      → Begins (k + 1) (fill_page (pg k) source end (ms (k + 1)) s).start end
  goes_on k end source s at lt le hi =
      let stop = fill_page-start k end source s at lt le hi in
      elim (Bool-cases (ltb end (la + 4096 * k + 4096))) [
        | inl last ↦ inl (stop ∙ if_true _ end _ last)
        | inr more ↦
            begins_at (k + 1) end _ (stop ∙ if_false _ end _ more ∙ omega arith)
              (omega (arith, not_ltb→le _ _ more))
      ]

  -- A loop, with rounds for the pages that are left.
  pub fill_pages-At :
      (rounds k end : ℕ) (source : Bytes) (s : Fill)
      → At k s
      → Begins k s.start end
      → end ≤ la + 4096 * n
      → n < k + rounds
      → Agrees source s.from s.start end
      → (k' : ℕ) × (s' : Fill) × (fill_pages rounds fuel pgdir perm source end s ≡ ok (pos 0, s'))
        × At k' s'
        × (s'.start ≡ end)
  unfolding fill_pages
  fill_pages-At zero k end source s at (inl e) hi enough agree =
      absurd (no_rounds k s at (omega (arith, e)) enough)
  fill_pages-At zero k end source s at (inr (lt, le)) hi enough agree =
      absurd (omega (arith, below la n k s.start end le lt hi))
  fill_pages-At (suc r) k end source s at (inl e) hi enough agree =
      (k, s, if_false (ltb s.start end) _ _ (le→not_ltb s.start end (omega (arith, e))), at, e)
  fill_pages-At (suc r) k end source s at (inr (lt, le)) hi enough agree =
      let kn = below la n k s.start end le lt hi in
      let next = fill_page (pg k) source end (ms (k + 1)) s in
      let next_at = fill_page-At k end source s at lt le hi agree in
      let (k', s', run, at', e) =
        fill_pages-At r (k + 1) end source next next_at (goes_on k end source s at lt le hi) hi
          (omega arith) (same_source k end source s at lt le hi agree) in
      (
        k',
        s',
        if_true (ltb s.start end) _ _ (lt→ltb s.start end lt)
            ∙ run_ok (pgdir_alloc_page fuel pgdir s.la perm s.machine) (some (pg k), ms (k + 1)) _
                (mapped k s at kn)
            ∙ run,
        at',
        e,
      )
