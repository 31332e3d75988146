-- ===== src/Load/Wrapped.antt =====
-- A segment whose end wraps around below its start, in the same page: the memset behind the file's part.
use lab.Base.{
  ℕ, zero, suc, ◌+◌, ◌-◌, ◌*◌, ◌%◌, ◌^◌, ◌≤◌, ◌<◌, ◌≡◌, refl, ap, ◌∙◌, inl, inr, ltb, lt→ltb, ◌==◌,
  ne→not_eq, if◌then◌else◌, if_false, run_ok, not, panic, if_true, subst, sym, ◌>>=◌, some, pos, ok,
  arith,
}
use lab.Vmm.{Vma, word, round_down, user_base, user_top}
use lab.Vmm.Map.{first_page, area}
use lab.Paging.{Perm, Machine, pgdir_alloc_page}
use lab.Space.{Bytes}
use lab.Load.Pages.{Pages}
use lab.Load.Rounds.{At, fill_pages-At}
use lab.Load.{
  ProgHdr, segment_perm, segment_flags, Fill, fill_pages, rest_size, clear_rest, fill_segment,
}

-- The end of the segment in memory is `k` bytes below its start, in the same page; its part in the file
-- ends in that page too.
pub record Wraps (ph : ProgHdr) (k : ℕ) : Type 0 where
  pub some_back : 0 < k
  pub same_page : k < ph.p_va % 4096
  pub around : ph.p_memsz ≡ 2 ^ 64 - k
  pub some_bytes : 0 < ph.p_filesz
  pub short : ph.p_va % 4096 + ph.p_filesz < 4096
  pub in_user : user_base ≤ ph.p_va
  pub below_top : ph.p_va + 4096 ≤ user_top

-- The size that is cleared.
wrapped_size :
    (va filesz k la : ℕ)
    → 0 < k
    → la ≤ va
    → k ≤ va - la
    → va - la + filesz < 4096
    → va < 2 ^ 32
    → rest_size (va + filesz) (la + 4096) (va - k) ≡ 2 ^ 64 - k - filesz
wrapped_size va filesz k la h le back short small = ground arith

-- What is left of the page of the file's part is cleared, with a size that has wrapped around.
clear_rest-faults :
    (ph : ProgHdr) (k : ℕ) (s : Fill)
    → Wraps ph k
    → s.start ≡ ph.p_va + ph.p_filesz
    → s.la ≡ ph.p_va - ph.p_va % 4096 + 4096
    → clear_rest (ph.p_va - k) s ≡ panic
unfolding clear_rest
clear_rest-faults ph k s w es el =
    let end = ph.p_va - k in
    let size : rest_size s.start s.la end ≡ 2 ^ 64 - k - ph.p_filesz =
      ap (λ a. rest_size a s.la end) es
      ∙ ap (λ l. rest_size (ph.p_va + ph.p_filesz) l end) el
      ∙ wrapped_size ph.p_va ph.p_filesz k (ph.p_va - ph.p_va % 4096) w.some_back (omega arith)
          (omega (arith, w.same_page)) (omega (arith, w.short)) (omega (arith, w.below_top)) in
    let huge : 2 ^ 39 < rest_size s.start s.la end =
      subst (λ x. 2 ^ 39 < x) (sym size) (omega (arith, w.same_page, w.short)) in
    if_false (not (ltb s.start s.la)) (ok s) _
      (ap not (lt→ltb s.start s.la (omega (arith, es, el, w.short))))
    ∙ if_false (s.start == end) (ok s) _ (ne→not_eq s.start end (omega (arith, es, w.some_bytes)))
    ∙ if_true (ltb (2 ^ 39) (rest_size s.start s.la end)) panic _
        (lt→ltb (2 ^ 39) (rest_size s.start s.la end) huge)

module _ (rounds fuel pgdir p k : ℕ) (binary old : Bytes) (ph : ProgHdr) (m m₁ : Machine)
    (w : Wraps ph k)
    (given : pgdir_alloc_page fuel pgdir
        (first_page ph.p_va)
        (segment_perm (segment_flags ph.p_flags))
        m
      ≡ ok (some p, m₁)) where
  abbrev la : ℕ
  la = first_page ph.p_va

  abbrev perm : Perm
  perm = segment_perm (segment_flags ph.p_flags)

  abbrev ms : ℕ → Machine
  ms j = if j == 0 then m else m₁

  page_given :
      (j : ℕ)
      → j < 1
      → pgdir_alloc_page fuel pgdir (la + 4096 * j) perm (ms j) ≡ ok (some p, ms (j + 1))
  page_given zero lt = ap (λ l. pgdir_alloc_page fuel pgdir l perm m) (omega arith) ∙ given
  page_given (suc j) lt = absurd (omega arith)

  one_page : Pages fuel pgdir la 1 perm (λ j. p) ms
  one_page = record { given = page_given; apart = λ i j a b e. omega arith }

  abbrev begun : Fill
  begun = record {
    page = 0;
    start = ph.p_va;
    la = la;
    from = ph.p_offset;
    machine = m;
    bytes = old;
  }

  abbrev image : ℕ → ℕ
  image a = binary (ph.p_offset + (a - ph.p_va))

  in_first : (la ≤ ph.p_va) × (ph.p_va < la + 4096)
  unfolding round_down
  in_first = omega arith

  one_small : la + 4096 * 1 < 2 ^ 63
  unfolding round_down
  one_small = omega (arith, w.below_top)

  abbrev Now : ℕ → Fill → Type 0
  Now j s = At fuel pgdir la 1 ph.p_va perm (λ j. p) ms image old one_page in_first one_small j s

  begun-At : Now 0 begun
  begun-At = record {
    at_la = omega arith;
    at_machine = refl;
    at_page = λ h. absurd (omega arith);
    at_start = inl (refl, refl);
    at_bytes = record {
      inside = λ j o jn lt a b. absurd (omega arith);
      around = λ j o jn lt out. refl;
      elsewhere = λ a off. refl;
    };
  }

  file_part :
      (j : ℕ) × (s : Fill) × (fill_pages
          (suc (suc rounds))
          fuel
          pgdir
          perm
          binary
          (ph.p_va + ph.p_filesz)
          begun
        ≡ ok (pos 0, s))
      × Now j s
      × (s.start ≡ ph.p_va + ph.p_filesz)
  unfolding round_down
  file_part =
      fill_pages-At fuel pgdir la 1 ph.p_va perm (λ j. p) ms image old one_page in_first one_small
        (suc (suc rounds)) 0 (ph.p_va + ph.p_filesz) binary begun begun-At
        (inr (omega (arith, w.some_bytes), omega arith)) (omega (arith, w.short)) (omega arith)
        (λ i h. ap binary (omega arith))

  used_page : (j : ℕ) (s : Fill) → Now j s → s.start ≡ ph.p_va + ph.p_filesz → j ≡ 1
  unfolding round_down
  used_page j s at e = ground (arith, at.at_start, w.some_bytes, w.short)

  after_file :
      (j : ℕ) (s : Fill)
      → fill_pages (suc (suc rounds)) fuel pgdir perm binary (ph.p_va + ph.p_filesz) begun
        ≡ ok (pos 0, s)
      → Now j s
      → s.start ≡ ph.p_va + ph.p_filesz
      → fill_segment (suc (suc rounds)) fuel pgdir binary ph m old ≡ panic
  unfolding fill_segment round_down
  after_file j s run at e =
      let file_end : (ph.p_va + ph.p_filesz) % word ≡ ph.p_va + ph.p_filesz =
        omega (arith, w.short, w.below_top) in
      let end : (ph.p_va + ph.p_memsz) % word ≡ ph.p_va - k =
        omega (arith, w.around, w.same_page, w.below_top) in
      let behind : s.la ≡ ph.p_va - ph.p_va % 4096 + 4096 =
        at.at_la ∙ omega (arith, used_page j s at e) in
      let rest = λ (s₂ : Fill). (do
        (ret, s₃) ←
            fill_pages (suc (suc rounds)) fuel pgdir perm (λ a. 0) ((ph.p_va + ph.p_memsz) % word)
              s₂
        ok (ret, s₃.machine, s₃.bytes)) in
      run_ok
        (fill_pages (suc (suc rounds)) fuel pgdir perm binary ((ph.p_va + ph.p_filesz) % word)
          begun)
        (pos 0, s) _
        (ap (λ x. fill_pages (suc (suc rounds)) fuel pgdir perm binary x begun) file_end ∙ run)
      ∙ ap (λ o. o >>= rest) (ap (λ x. clear_rest x s) end ∙ clear_rest-faults ph k s w e behind)

  pub fill_segment-faults : fill_segment (suc (suc rounds)) fuel pgdir binary ph m old ≡ panic
  fill_segment-faults = let (j, s, run, at, e) = file_part in after_file j s run at e

-- The area that mm_map makes for a segment.
abbrev pub segment_area : ProgHdr → Vma
segment_area ph = area ph.p_va ph.p_memsz (segment_flags ph.p_flags)
