-- ===== src/Load/Contents.antt =====
-- What the pages of a segment hold when `load_icode` has filled them.
use lab.Base.{
  ℕ, ◌+◌, ◌-◌, ◌*◌, ◌%◌, ◌^◌, ◌≤◌, ◌<◌, ◌≡◌, refl, sym, ap, subst, ◌∙◌, inl, inr, Bool-cases, ltb,
  ltb→lt, not_ltb→le, lt→ltb, le→not_ltb, if◌then◌else◌, if_true, if_false, run_ok, pos, ok, arith,
}
use lab.Vmm.{page_size, word, round_down}
use lab.Paging.{Machine}
use lab.Space.{Bytes}
use lab.Load.Pages.{Pages, Loaded}
use lab.Load.Rounds.{At, Begins, fill_pages-At}
use lab.Load.Segment.{clear_rest-At}
use lab.Load.{ProgHdr, segment_perm, segment_flags, Fill, fill_pages, clear_rest, fill_segment}

-- The bytes that a segment is to have: the file's, and zeros behind them.
abbrev pub segment_image : Bytes → ProgHdr → ℕ → ℕ
segment_image binary ph a =
    if ltb a (ph.p_va + ph.p_filesz) then binary (ph.p_offset + (a - ph.p_va)) else 0

-- The segment's area has the `n` pages from `la` on and is not empty.
pub record Spans (ph : ProgHdr) (la n : ℕ) : Type 0 where
  pub page : la ≡ round_down ph.p_va page_size
  pub part : ph.p_filesz ≤ ph.p_memsz
  pub some_bytes : 0 < ph.p_memsz
  pub covered : ph.p_va + ph.p_memsz ≤ la + 4096 * n
  pub needed : la + 4096 * n < ph.p_va + ph.p_memsz + 4096
  pub small : la + 4096 * n < 2 ^ 63

first_page_of : (va la : ℕ) → la ≡ round_down va page_size → (la ≤ va) × (va < la + 4096)
unfolding round_down
first_page_of va la e = omega (arith, e)

module _ (rounds fuel pgdir la n : ℕ) (binary old : Bytes) (ph : ProgHdr) (pg : ℕ → ℕ)
    (ms : ℕ → Machine) (spans : Spans ph la n)
    (pages : Pages fuel pgdir la n (segment_perm (segment_flags ph.p_flags)) pg ms)
    (enough : n < rounds) where
  abbrev va : ℕ
  va = ph.p_va

  abbrev Now : ℕ → Fill → Type 0
  Now k s =
      At fuel pgdir la n va (segment_perm (segment_flags ph.p_flags)) pg ms
        (segment_image binary ph) old pages (first_page_of va la spans.page) spans.small k s

  abbrev begun : Fill
  begun = record {
    page = 0;
    start = va;
    la = round_down va page_size;
    from = ph.p_offset;
    machine = ms 0;
    bytes = old;
  }

  begun-At : Now 0 begun
  begun-At = record {
    at_la = sym spans.page ∙ omega arith;
    at_machine = refl;
    at_page = λ h. absurd (omega arith);
    at_start = inl (refl, refl);
    at_bytes = record {
      inside = λ j o jn lt a b. absurd (omega arith);
      around = λ j o jn lt out. refl;
      elsewhere = λ a off. refl;
    };
  }

  of_file :
      (i : ℕ)
      → va + i < va + ph.p_filesz
      → binary (ph.p_offset + i) ≡ segment_image binary ph (va + i)
  of_file i lt =
      ap binary (omega arith)
      ∙ sym (
          if_true (ltb (va + i) (va + ph.p_filesz)) (binary (ph.p_offset + (va + i - va))) 0
            (lt→ltb (va + i) (va + ph.p_filesz) lt))

  of_zeros : (a : ℕ) → va + ph.p_filesz ≤ a → 0 ≡ segment_image binary ph a
  of_zeros a le = sym (
      if_false (ltb a (va + ph.p_filesz)) (binary (ph.p_offset + (a - va))) 0
        (le→not_ltb a (va + ph.p_filesz) le))

  file_begins :
      Begins fuel pgdir la n va
        (segment_perm (segment_flags ph.p_flags))
        pg
        ms
        (segment_image binary ph)
        old
        pages
        (first_page_of va la spans.page)
        spans.small
        0
        va
        (va + ph.p_filesz)
  file_begins = elim (Bool-cases (ltb 0 ph.p_filesz)) [
    | inl more ↦ inr (omega (arith, ltb→lt _ _ more), omega (arith, first_page_of va la spans.page))
    | inr none_there ↦ inl (omega (arith, not_ltb→le _ _ none_there))
  ]

  all_pages : (k : ℕ) (s : Fill) → Now k s → s.start ≡ va + ph.p_memsz → k ≡ n
  all_pages k s at e = ground (arith, at.at_start, spans.some_bytes, spans.covered, spans.needed)

  fill_segment-runs :
      va + ph.p_filesz < word
      → va + ph.p_memsz < word
      → (s₁ s₂ s₃ : Fill)
      → fill_pages rounds fuel pgdir
          (segment_perm (segment_flags ph.p_flags))
          binary
          (va + ph.p_filesz)
          begun
        ≡ ok (pos 0, s₁)
      → clear_rest (va + ph.p_memsz) s₁ ≡ ok s₂
      → fill_pages rounds fuel pgdir
          (segment_perm (segment_flags ph.p_flags))
          (λ a. 0)
          (va + ph.p_memsz)
          s₂
        ≡ ok (pos 0, s₃)
      → fill_segment rounds fuel pgdir binary ph (ms 0) old ≡ ok (pos 0, s₃.machine, s₃.bytes)
  unfolding fill_segment
  fill_segment-runs file_small small s₁ s₂ s₃ run₁ run₂ run₃ =
      let perm = segment_perm (segment_flags ph.p_flags) in
      let file_end : (va + ph.p_filesz) % word ≡ va + ph.p_filesz = omega arith in
      let end : (va + ph.p_memsz) % word ≡ va + ph.p_memsz = omega arith in
      run_ok (fill_pages rounds fuel pgdir perm binary ((va + ph.p_filesz) % word) begun)
        (pos 0, s₁) _ (ap (λ e. fill_pages rounds fuel pgdir perm binary e begun) file_end ∙ run₁)
      ∙ run_ok (clear_rest ((va + ph.p_memsz) % word) s₁) s₂ _
          (ap (λ e. clear_rest e s₁) end ∙ run₂)
      ∙ run_ok (fill_pages rounds fuel pgdir perm (λ a. 0) ((va + ph.p_memsz) % word) s₂)
          (pos 0, s₃) _ (ap (λ e. fill_pages rounds fuel pgdir perm (λ a. 0) e s₂) end ∙ run₃)

  abbrev IsLoaded : Bytes → Type 0
  IsLoaded new = Loaded la n pg (segment_image binary ph) va (va + ph.p_memsz) old new

  loaded :
      (s₁ s₂ s₃ : Fill) (k : ℕ)
      → fill_pages rounds fuel pgdir
          (segment_perm (segment_flags ph.p_flags))
          binary
          (va + ph.p_filesz)
          begun
        ≡ ok (pos 0, s₁)
      → clear_rest (va + ph.p_memsz) s₁ ≡ ok s₂
      → fill_pages rounds fuel pgdir
          (segment_perm (segment_flags ph.p_flags))
          (λ a. 0)
          (va + ph.p_memsz)
          s₂
        ≡ ok (pos 0, s₃)
      → Now k s₃
      → s₃.start ≡ va + ph.p_memsz
      → (new : Bytes) × (fill_segment rounds fuel pgdir binary ph (ms 0) old
          ≡ ok (pos 0, ms n, new))
        × IsLoaded new
  loaded s₁ s₂ s₃ k run₁ run₂ run₃ at e = (
    s₃.bytes,
    fill_segment-runs (omega (arith, spans.covered, spans.part, spans.small))
          (omega (arith, spans.covered, spans.small)) s₁ s₂ s₃ run₁ run₂ run₃
        ∙ ap (λ m. ok (pos 0, m, s₃.bytes)) (at.at_machine ∙ ap ms (all_pages k s₃ at e)),
    subst (λ x. Loaded la n pg (segment_image binary ph) va x old s₃.bytes) e at.at_bytes,
  )

  -- A segment that is not empty, with no more bytes in the file than in memory, in an area of n pages
  -- from the page of p_va on and below 2^63; pgdir_alloc_page maps each of these pages in turn, and no two
  -- are the same page of memory. Then the loops of load_icode end, with more rounds than pages, and return 0 with the
  -- memory after the last of these calls. The bytes of the pages for the addresses from p_va on are the
  -- p_filesz bytes of the file at p_offset and then zeros up to p_va + p_memsz; every other byte of memory
  -- is as it was.
  pub fill_segment-Loaded :
      (new : Bytes) × (fill_segment rounds fuel pgdir binary ph (ms 0) old ≡ ok (pos 0, ms n, new))
      × Loaded la n pg (segment_image binary ph) va (va + ph.p_memsz) old new
  fill_segment-Loaded =
      let perm = segment_perm (segment_flags ph.p_flags) in
      let image = segment_image binary ph in
      let first_page = first_page_of va la spans.page in
      let (k₁, s₁, run₁, at₁, e₁) =
        fill_pages-At fuel pgdir la n va perm pg ms image old pages first_page spans.small rounds 0
          (va + ph.p_filesz) binary begun begun-At file_begins
          (omega (arith, spans.covered, spans.part)) (omega arith) of_file in
      let (s₂, run₂, at₂, goes, le, ge) =
        clear_rest-At fuel pgdir la n va perm pg ms image old pages first_page spans.small k₁
          (va + ph.p_memsz) s₁ at₁ (omega (arith, e₁, spans.part)) (omega (arith, spans.covered))
          (λ i h. of_zeros (s₁.start + i) (omega (arith, e₁))) in
      let (k₃, s₃, run₃, at₃, e₃) =
        fill_pages-At fuel pgdir la n va perm pg ms image old pages first_page spans.small rounds k₁
          (va + ph.p_memsz) (λ a. 0) s₂ at₂ goes (omega (arith, spans.covered)) (omega arith)
          (λ i h. of_zeros (s₂.start + i) (omega (arith, e₁, ge))) in
      loaded s₁ s₂ s₃ k₃ run₁ run₂ run₃ at₃ e₃
