-- ===== src/Pmm/Tail.antt =====
-- Freeing above all free blocks: the loop of `default_free_pages` goes on after it has linked the
-- block at the end, and links it once more after itself.
use lab.Base.{
  ℕ, zero, suc, ◌+◌, ◌≤◌, ◌<◌, ◌≡◌, ◌≢◌, ◌∙◌, List, [], ◌∷◌, ◌++◌, length, ok, arith, last,
}
use lab.Links.{Links, list_add, list_next}
use lab.Links.Ring.{Seg}
use lab.Pmm.Blocks.{Block, entries}
use lab.Pmm.Insert.{Below}
use lab.Pmm.{free_list, insert_scan}

-- One round at the last entry, and the round that finds the end.
scan_at_last :
    (f base le x : ℕ) (s : Links)
    → s.next le ≡ x + 1
    → x ≤ base
    → s.next (x + 1) ≡ free_list
    → insert_scan (suc f) base le s ≡ insert_scan f base (x + 1) (list_add (x + 1) (base + 1) s)
unfolding insert_scan
scan_at_last f base le x s e lt last =
    let not_head : list_next le s ≢ free_list = omega (arith, e) in ground arith

scan_at_end :
    (f base le : ℕ) (s : Links) → s.next le ≡ free_list → insert_scan (suc f) base le s ≡ ok s
unfolding insert_scan
scan_at_end f base le s e = ground arith

scan_past :
    (f base le x : ℕ) (s : Links)
    → s.next le ≡ x + 1
    → x ≤ base
    → s.next (x + 1) ≢ free_list
    → insert_scan (suc f) base le s ≡ insert_scan f base (x + 1) s
unfolding insert_scan
scan_past f base le x s e lt more = ground arith

-- The three rounds from the last entry on.
last_rounds :
    (f base le q : ℕ) (s : Links)
    → s.next le ≡ q + 1
    → q < base
    → s.next (q + 1) ≡ free_list
    → insert_scan (suc (suc (suc f))) base le s
      ≡ ok (list_add (base + 1) (base + 1) (list_add (q + 1) (base + 1) s))
unfolding list_add
last_rounds f base le q s e lt last =
    scan_at_last (suc (suc f)) base le q s e (omega arith) last
    ∙ (scan_at_last (suc f) base (q + 1) base (list_add (q + 1) (base + 1) s) (ground arith)
          (omega arith) (ground arith)
        ∙ scan_at_end f base (base + 1) _ (ground arith))

-- The loop past blocks that all begin below `base`.
pub insert_scan-last :
    (fuel base le : ℕ) (s : Links) (l : List Block) (q m : ℕ)
    → Seg s le (entries (l ++ (q, m) ∷ [])) free_list
    → Below base l
    → q < base
    → length l + 2 < fuel
    → insert_scan fuel base le s
      ≡ ok (list_add (base + 1) (base + 1) (list_add (q + 1) (base + 1) s))
insert_scan-last zero base le s l q m h below lt fuel = absurd (omega arith)
insert_scan-last (suc zero) base le s l q m h below lt fuel = absurd (omega arith)
insert_scan-last (suc (suc zero)) base le s l q m h below lt fuel = absurd (omega arith)
insert_scan-last (suc (suc (suc f))) base le s [] q m h below lt fuel =
    last_rounds f base le q s h.0 lt h.2.0
insert_scan-last (suc (suc (suc f))) base le s ((p, k) ∷ []) q m h below lt fuel =
    scan_past (suc (suc f)) base le p s h.0 below.0 (omega (arith, h.2.0))
    ∙ insert_scan-last (suc (suc f)) base (p + 1) s [] q m h.2 tt lt (omega arith)
insert_scan-last (suc (suc (suc f))) base le s ((p, k) ∷ (x, y) ∷ l) q m h below lt fuel =
    scan_past (suc (suc f)) base le p s h.0 below.0 (omega (arith, h.2.0))
    ∙ insert_scan-last (suc (suc f)) base (p + 1) s ((x, y) ∷ l) q m h.2 below.1 lt (omega arith)
