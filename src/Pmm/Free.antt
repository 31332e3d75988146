-- ===== src/Pmm/Free.antt =====
-- `default_free_pages` puts a block back among the free blocks.
use lab.Base.{
  ℕ, ◌+◌, ◌≤◌, ◌<◌, ◌≡◌, refl, sym, ap, ◌∙◌, subst, ◌⊎◌, inl, inr, true, List, [], ◌∷◌, ◌++◌,
  Absent-append, length, length-append, lt→ltb, snoc-cases, append_assoc, ok, arith,
}
use lab.Links.{Links}
use lab.Links.Ring.{Ring}
use lab.Pmm.Blocks.{
  Block, entries, entries-append, total, total-append, end_of, Apart, Apart-split, Apart-append,
  Absent-below, Absent-above, end_of-append,
}
use lab.Pmm.Rep.{Rep, Sized-split, Sized-append}
use lab.Pmm.FreeInto.{free_into, free_into-above, free_into-after}
use lab.Pmm.Reset.{
  InUse, cleared, cleared-outside, reset_pages-cleared, Sized-below, Sized-from, Below-Apart,
}
use lab.Pmm.Merge.{merge_both-first, merge_both-after}
use lab.Pmm.Insert.{Linked, insert_block-Linked}
use lab.Pmm.{Area, free_list, uint_mod, make_head, insert_block, merge_both, default_free_pages}

-- The block `[base, base + n)` lies in the gap between `l` and `r`.
module _ (fuel base n : ℕ) (a : Area) (l r : List Block) (rep : Rep a (l ++ r)) (pos : 0 < n)
    (gap : end_of 0 l ≤ base) (above : Apart (base + n) r) (used : InUse a.pages base n)
    (small : total (l ++ r) + n < uint_mod) (empty : r ≡ [] → l ≡ [])
    (enough : length (l ++ r) < fuel) where
  reset : Area
  reset = record a { pages = cleared n base a.pages }

  headed : Area
  headed = make_head base n reset

  l-Apart : Apart 0 l
  l-Apart = (Apart-split 0 l r rep.apart).0

  total_eq : total (l ++ (base, n) ∷ r) ≡ total (l ++ r) + n
  total_eq = omega (arith, total-append l ((base, n) ∷ r), total-append l r)

  elsewhere : (q : ℕ) → (q < base) ⊎ (base + n ≤ q) → headed.pages q ≡ a.pages q
  unfolding headed make_head reset
  elsewhere q out = ground (arith, cleared-outside n base a.pages q out)

  head_page : ((headed.pages base).property ≡ n) × ((headed.pages base).pg_property ≡ true)
  unfolding headed make_head
  head_page = ground arith

  count : headed.nr_free ≡ a.nr_free + n
  unfolding headed make_head reset
  count = omega (arith, rep.count)

  same_links : headed.links ≡ a.links
  unfolding headed make_head reset
  same_links = refl

  linked : Linked base headed.links l r (insert_block fuel base headed.links)
  linked = rw same_links (
      insert_block-Linked fuel base n a.links l r
        (subst (Ring a.links free_list) (entries-append l r) rep.ring)
        (Absent-append (base + 1) (entries l) (entries r) (Absent-above base 0 l l-Apart gap)
          (Absent-below base (base + n) r above (omega arith)))
        (Below-Apart 0 base l l-Apart gap) above pos empty (omega (arith, length-append l r)))

  inserted : Links → Area
  inserted s = record headed { links = s }

  inserted-Rep :
      (s : Links)
      → Ring s free_list (entries l ++ (base + 1) ∷ entries r)
      → Rep (inserted s) (l ++ (base, n) ∷ r)
  unfolding inserted
  inserted-Rep s ring = record {
    ring = subst (Ring s free_list) (sym (entries-append l ((base, n) ∷ r))) ring;
    sized =
        Sized-append headed.pages l ((base, n) ∷ r)
          (Sized-below a.pages headed.pages 0 base l (λ q lt. elsewhere q (inl lt)) l-Apart gap
            (Sized-split a.pages l r rep.sized).0)
          (
            head_page.0,
            head_page.1,
            Sized-from a.pages headed.pages (base + n) r (λ q le. elsewhere q (inr le)) above
                (Sized-split a.pages l r rep.sized).1,
          );
    apart = Apart-append 0 l _ l-Apart (gap, pos, above);
    count = omega (arith, count, rep.count, total_eq);
    small = omega (arith, small, total_eq);
  }

  free_run :
      (s : Links)
      → insert_block fuel base headed.links ≡ ok s
      → default_free_pages fuel base n a ≡ ok (merge_both base (inserted s))
  unfolding default_free_pages inserted headed reset
  free_run s e = rw (lt→ltb 0 n pos, reset_pages-cleared n base a used, e)

ap_end : (l l' : List Block) (p k : ℕ) → l ≡ l' ++ (p, k) ∷ [] → end_of 0 l ≡ p + k
ap_end l l' p k e = ap (end_of 0) e ∙ end_of-append 0 l' p k

-- The blocks of `l` end below `base`: the last of them, if any, is looked at for merging.
merge_both-free_into :
    (base n : ℕ) (l r : List Block) (a : Area)
    → 0 < n
    → Apart 0 (l ++ r)
    → end_of 0 l ≤ base
    → Apart (base + n) r
    → Rep a (l ++ (base, n) ∷ r)
    → Rep (merge_both base a) (free_into (base, n) (l ++ r))
merge_both-free_into base n l r a pos ap gap above rep = elim (snoc-cases l) [
  | inl nil ↦
      rw (nil, free_into-above base n r pos above)
        (merge_both-first base n r a (subst (λ k. Rep a (k ++ (base, n) ∷ r)) nil rep))
  | inr (l', (p, k), e) ↦
      rw (e, append_assoc)
        (rw
          (free_into-after base n 0 l' p k r pos
            (rw append_assoc at (subst (λ x. Apart 0 (x ++ r)) e ap))
            (omega (arith, gap, ap_end l l' p k e)) above)
          (merge_both-after base n p k l' r a (subst (λ x. Rep a (x ++ (base, n) ∷ r)) e rep)))
]

-- Pages that are in use, in the gap between two neighbours of a well-formed free list, below it or
-- with an empty one, but not above all free blocks, with fuel and while the number of free pages
-- stays below 2^32: freeing them succeeds, and gives the free list with their block in address order
-- and joined with the neighbours that it touches.
pub default_free_pages-free_into :
    (fuel base n : ℕ) (a : Area) (l r : List Block)
    → Rep a (l ++ r)
    → 0 < n
    → end_of 0 l ≤ base
    → Apart (base + n) r
    → InUse a.pages base n
    → total (l ++ r) + n < uint_mod
    → (r ≡ [] → l ≡ [])
    → length (l ++ r) < fuel
    → (a' : Area) × (default_free_pages fuel base n a ≡ ok a')
      × Rep a' (free_into (base, n) (l ++ r))
default_free_pages-free_into fuel base n a l r rep pos gap above used small empty enough =
    let (s, e, ring) = linked fuel base n a l r rep pos gap above used small empty enough in
    (
      merge_both base (inserted fuel base n a l r rep pos gap above used small empty enough s),
      free_run fuel base n a l r rep pos gap above used small empty enough s e,
      merge_both-free_into base n l r _ pos rep.apart gap above
          (inserted-Rep fuel base n a l r rep pos gap above used small empty enough s ring),
    )
