-- ===== src/Pmm/Insert.antt =====
-- The loop of `default_free_pages` and `default_init_memmap` that links a block in address order.
use lab.Base.{
  ℕ, zero, suc, ◌+◌, ◌≤◌, ◌<◌, ◌≡◌, refl, sym, subst, false, List, [], ◌∷◌, ◌++◌, Absent, length,
  Outcome, ok, arith,
}
use lab.Links.{Links, list_add_before, list_empty}
use lab.Links.Ring.{Ring, Seg, list_add-Ring, list_add_before-Ring, list_empty_iff}
use lab.Pmm.Blocks.{Block, entries, entries-append, Apart}
use lab.Pmm.{free_list, insert_scan, insert_block}

-- The blocks of `l` begin at or below `b`.
abbrev pub Below : ℕ → List Block → Type 0
Below b [] = Unit {0}
Below b ((p, k) ∷ l) = (p ≤ b) × Below b l

-- The loop passes the blocks below `base` and links it before the first one above.
insert_scan-before :
    (fuel base le : ℕ) (s : Links) (l : List Block) (q m : ℕ) (r : List Block)
    → Seg s le (entries (l ++ (q, m) ∷ r)) free_list
    → Below base l
    → base < q
    → length l < fuel
    → insert_scan fuel base le s ≡ ok (list_add_before (q + 1) (base + 1) s)
unfolding insert_scan
insert_scan-before zero base le s l q m r h below lt fuel = absurd (omega arith)
insert_scan-before (suc f) base le s [] q m r h below lt fuel = ground arith
insert_scan-before (suc f) base le s ((p, k) ∷ []) q m r h below lt fuel =
    ground (arith, insert_scan-before f base (p + 1) s [] q m r h.2 tt lt)
insert_scan-before (suc f) base le s ((p, k) ∷ (x, y) ∷ l) q m r h below lt fuel =
    ground (arith, insert_scan-before f base (p + 1) s ((x, y) ∷ l) q m r h.2 below.1 lt)

-- Put on an empty list, or below some block of the list, a block comes to stand in its place.
abbrev pub Linked : ℕ → Links → List Block → List Block → Outcome Links → Type 0
Linked base s l r o =
    (s' : Links) × (o ≡ ok s') × Ring s' free_list (entries l ++ (base + 1) ∷ entries r)

insert_block-empty :
    (fuel base : ℕ) (s : Links)
    → Ring s free_list []
    → Linked base s [] [] (insert_block fuel base s)
unfolding insert_block
insert_block-empty fuel base s h =
    rw ((list_empty_iff [] h).1 refl)
      (_, refl, list_add-Ring (base + 1) free_list [] [] h (omega arith, tt) refl)

pub not_empty :
    (s : Links) (l : List Block) (x : ℕ) (r : List Block)
    → Ring s free_list (entries l ++ (x + 1) ∷ entries r)
    → list_empty free_list s ≡ false
unfolding list_empty
not_empty s [] x r h = ground (arith, h.seg)
not_empty s ((p, k) ∷ l) x r h = ground (arith, h.seg)

insert_block-before :
    (fuel base : ℕ) (s : Links) (l : List Block) (q m : ℕ) (r : List Block)
    → Ring s free_list (entries l ++ entries ((q, m) ∷ r))
    → Absent (base + 1) (entries l ++ entries ((q, m) ∷ r))
    → Below base l
    → base < q
    → length l < fuel
    → Linked base s l ((q, m) ∷ r) (insert_block fuel base s)
unfolding insert_block
insert_block-before fuel base s l q m r h out below lt enough = rw run (
  _,
  refl,
  list_add_before-Ring (base + 1) (q + 1) (entries l) (entries ((q, m) ∷ r)) h (omega arith, out)
      refl,
)
  where
    full : list_empty free_list s ≡ false
    full = not_empty s l q r h

    run : insert_block fuel base s ≡ ok (list_add_before (q + 1) (base + 1) s)
    run = rw (full) (
        insert_scan-before fuel base free_list s l q m r
          (subst (λ xs. Seg s free_list xs free_list) (sym (entries-append l ((q, m) ∷ r))) h.seg)
          below lt enough)

-- The block after which `base` comes is below it, the one before which it comes is not.
pub insert_block-Linked :
    (fuel base n : ℕ) (s : Links) (l r : List Block)
    → Ring s free_list (entries l ++ entries r)
    → Absent (base + 1) (entries l ++ entries r)
    → Below base l
    → Apart (base + n) r
    → 0 < n
    → (r ≡ [] → l ≡ [])
    → length l < fuel
    → Linked base s l r (insert_block fuel base s)
insert_block-Linked fuel base n s l [] h out below above pos empty enough = rw (empty refl) (
    insert_block-empty fuel base s (subst (λ k. Ring s free_list (entries k ++ [])) (empty refl) h))
insert_block-Linked fuel base n s l ((q, m) ∷ r) h out below above pos empty enough =
    insert_block-before fuel base s l q m r h out below (omega (arith, above.0)) enough
