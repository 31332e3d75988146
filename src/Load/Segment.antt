-- ===== src/Load/Segment.antt =====
-- `load_icode` fills the pages of a segment: the parts one after the other.
use lab.Base.{
  ℕ, Bool-cases, subst, ◌+◌, ◌-◌, ◌*◌, ◌%◌, ◌^◌, ◌≤◌, ◌<◌, ◌≡◌, sym, ap, ◌∙◌, inl, inr, true, ◌&&◌,
  ◌||◌, not, ltb, leb, ◌==◌, if_true, if_false, run_ok, lt→ltb, ltb→lt, not_ltb→le, le→not_ltb,
  ==_iff, ne→not_eq, Outcome, ok, panic, if◌then◌else◌, assert, ◌>>◌, arith,
}
use lab.Vmm.{page_size, word}
use lab.Paging.{Perm, Machine}
use lab.Space.{Bytes}
use lab.Load.Pages.{Pages, Loaded, write_bytes-Loaded, after_write}
use lab.Load.Rounds.{At, Begins, upto, rest_lem, rest_offset, begins_at}
use lab.Load.{write_bytes, Fill, rest_size, clear_rest}

-- What `clear_rest` leaves if it clears up to `stop`.
abbrev cleared : ℕ → Fill → Fill
cleared stop s = record s {
  start = stop;
  bytes =
      write_bytes (s.page * page_size + (s.start + 4096 - s.la)) (stop - s.start) (λ i. 0) s.bytes;
}

checked :
    (la end : ℕ)
    → ((ltb end la && (upto la end == end)) || (leb la end && (upto la end == la))) ≡ true
checked la end = ground arith

-- The end of `clear_rest`.
abbrev cleared_by : ℕ → Fill → ℕ → ℕ → ℕ → Outcome Fill
cleared_by end s off size stop = if ltb (2 ^ 39) size then panic else (do
  assert ((ltb end s.la && (stop == end)) || (leb s.la end && (stop == s.la)))
  ok (record s {
    start = stop;
    bytes = write_bytes (s.page * page_size + off) size (λ i. 0) s.bytes;
  }))

fits_page : (start la end : ℕ) → start < la → la < start + 4096 → upto la end - start ≤ 2 ^ 39
fits_page start la end lt near = ground arith

clear_rest-clears :
    (end : ℕ) (s : Fill)
    → s.start < s.la
    → s.la < s.start + 4096
    → s.start < end
    → end < 2 ^ 63
    → s.la < 2 ^ 63
    → clear_rest end s ≡ ok (cleared (upto s.la end) s)
unfolding clear_rest
clear_rest-clears end s lt near more hi hi' =
    let size = rest_lem s.start s.la end lt near more hi hi' in
    if_false (not (ltb s.start s.la)) (ok s) _ (ap not (lt→ltb s.start s.la lt))
    ∙ if_false (s.start == end) (ok s) _ (ne→not_eq s.start end (omega arith))
    ∙ ap
        (λ off.
          cleared_by end s off (rest_size s.start s.la end)
            ((s.start + rest_size s.start s.la end) % word))
        (rest_offset s.start s.la lt near hi')
    ∙ ap (λ x. cleared_by end s (s.start + 4096 - s.la) x ((s.start + x) % word)) size
    ∙ ap (cleared_by end s (s.start + 4096 - s.la) (upto s.la end - s.start))
        (stop_at s.start s.la end lt more hi hi')
    ∙ if_false (ltb (2 ^ 39) (upto s.la end - s.start)) panic _
        (le→not_ltb (2 ^ 39) (upto s.la end - s.start) (fits_page s.start s.la end lt near))
    ∙ run_ok
        (assert
          ((ltb end s.la && (upto s.la end == end)) || (leb s.la end && (upto s.la end == s.la))))
        tt _ (ap assert (checked s.la end))
  where
    stop_at :
        (start la end : ℕ)
        → start < la
        → start < end
        → end < 2 ^ 63
        → la < 2 ^ 63
        → (start + (upto la end - start)) % word ≡ upto la end
    stop_at start la end a b c d = ground arith

clear_rest-over : (end : ℕ) (s : Fill) → s.start ≡ end → clear_rest end s ≡ ok s
unfolding clear_rest
clear_rest-over end s e = elim (Bool-cases (ltb s.start s.la)) [
  | inl in_page ↦
      if_false (not (ltb s.start s.la)) (ok s) _ (ap not in_page)
      ∙ if_true (s.start == end) (ok s) _ ((==_iff s.start end).1 e)
  | inr at_page ↦ if_true (not (ltb s.start s.la)) (ok s) _ (ap not at_page)
]

clear_rest-none : (end : ℕ) (s : Fill) → s.la ≤ s.start → clear_rest end s ≡ ok s
unfolding clear_rest
clear_rest-none end s le =
    if_true (not (ltb s.start s.la)) (ok s) _ (ap not (le→not_ltb s.start s.la le))

module _ (fuel pgdir la n va : ℕ) (perm : Perm) (pg : ℕ → ℕ) (ms : ℕ → Machine) (image : ℕ → ℕ)
    (old : Bytes) (pages : Pages fuel pgdir la n perm pg ms)
    (first_page : (la ≤ va) × (va < la + 4096)) (small : la + 4096 * n < 2 ^ 63) where
  abbrev Now : ℕ → Fill → Type 0
  Now k s = At fuel pgdir la n va perm pg ms image old pages first_page small k s

  abbrev Goes : ℕ → ℕ → ℕ → Type 0
  Goes k start end =
      Begins fuel pgdir la n va perm pg ms image old pages first_page small k start end

  in_page_of :
      (k : ℕ) (s : Fill)
      → Now k s
      → s.start < s.la
      → (0 < k) × (la + 4096 * k < s.start + 4096) × (va ≤ s.start)
  in_page_of k s at lt = ground (arith, at.at_start, at.at_la)

  upto_bounds :
      (to end start : ℕ)
      → start < to
      → start < end
      → (start < upto to end) × (upto to end ≤ to) × (upto to end ≤ end)
  upto_bounds to end start a b = ground arith

  next_part : (k end : ℕ) (s : Fill) → Now k s → Goes k (upto s.la end) end
  next_part k end s at = elim (Bool-cases (ltb end s.la)) [
    | inl last ↦ inl (if_true (ltb end s.la) end s.la last)
    | inr more ↦
        begins_at fuel pgdir la n va perm pg ms image old pages first_page small k end
          (upto s.la end) (if_false (ltb end s.la) end s.la more ∙ at.at_la)
          (omega (arith, not_ltb→le end s.la more, at.at_la))
  ]

  cleared-At :
      (k end : ℕ) (s : Fill)
      → Now k s
      → s.start < s.la
      → s.start < end
      → end ≤ la + 4096 * n
      → ((i : ℕ) → s.start + i < end → 0 ≡ image (s.start + i))
      → Now k (cleared (upto s.la end) s)
  unfolding after_write
  cleared-At k end s at lt ne hi zeros =
      let in_k = in_page_of k s at lt in
      let stop = upto_bounds s.la end s.start lt ne in
      record {
        at_la = at.at_la;
        at_machine = at.at_machine;
        at_page = at.at_page;
        at_start = inr (
          in_k.0,
          omega (arith, stop, at.at_la),
          omega (arith, stop, in_k),
          omega (arith, stop, in_k),
        );
        at_bytes =
            subst
              (λ x.
                Loaded la n pg image va (upto s.la end) old
                  (write_bytes x (upto s.la end - s.start) (λ i. 0) s.bytes))
              (ap (λ p. p * 4096 + (s.start - (la + 4096 * (k - 1)))) (sym (at.at_page in_k.0))
                ∙ omega (arith, at.at_la, in_k))
              (write_bytes-Loaded fuel pgdir la n va perm pg ms image old pages (k - 1) s.start
                (upto s.la end) s.bytes (λ i. 0) at.at_bytes (omega (arith, in_k, hi, ne))
                (omega (arith, in_k)) (omega (arith, stop)) (omega (arith, stop, at.at_la, in_k))
                in_k.2 (λ i h. zeros i (omega (arith, stop))));
      }

  pub clear_rest-At :
      (k end : ℕ) (s : Fill)
      → Now k s
      → s.start ≤ end
      → end ≤ la + 4096 * n
      → ((i : ℕ) → s.start + i < end → 0 ≡ image (s.start + i))
      → (s' : Fill) × (clear_rest end s ≡ ok s')
        × Now k s'
        × Goes k s'.start end
        × (s'.start ≤ end)
        × (s.start ≤ s'.start)
  unfolding after_write
  clear_rest-At k end s at le hi zeros = elim (Bool-cases (s.start == end)) [
    | inl over ↦ (
      s,
      clear_rest-over end s ((==_iff s.start end).0 over),
      at,
      inl ((==_iff s.start end).0 over),
      le,
      omega arith,
    )
    | inr more ↦ elim (Bool-cases (ltb s.start s.la)) [
      | inr at_page ↦ (
        s,
        clear_rest-none end s (not_ltb→le s.start s.la at_page),
        at,
        inr (ground (arith, at.at_la), omega (arith, at.at_la, not_ltb→le s.start s.la at_page)),
        le,
        omega arith,
      )
      | inl in_page ↦
          let lt = ltb→lt s.start s.la in_page in
          let ne : s.start < end = ground arith in
          let in_k = in_page_of k s at lt in
          let stop = upto_bounds s.la end s.start lt ne in
          (
            cleared (upto s.la end) s,
            clear_rest-clears end s lt (omega (arith, in_k, at.at_la)) ne (omega arith)
                (omega (arith, at.at_la, in_k, hi)),
            cleared-At k end s at lt ne hi zeros,
            next_part k end s at,
            stop.2,
            omega (arith, stop),
          )
    ]
  ]
