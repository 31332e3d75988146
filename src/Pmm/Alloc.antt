-- ===== src/Pmm/Alloc.antt =====
-- `default_alloc_pages` takes from the first block that is large enough.

use lab.Base.{
  ℕ, zero, suc, ◌+◌, ◌-◌, ◌≤◌, ◌<◌, ◌≡◌, ◌≢◌, refl, sym, ap, ◌∙◌, inl, inr, true, List, [], ◌∷◌,
  ◌++◌, Option, none, some, Absent, Absent-append, ltb, leb, if◌then◌else◌, Bool-cases,
  Option-cases, length, Outcome, ok, arith, subst,
}
use lab.Links.{list_del, list_add, list_prev}
use lab.Links.Ring.{Ring, Seg, list_del-Ring, list_add-Ring, prev-of}
use lab.Pmm.Blocks.{
  Block, entries, entries-append, total, total-append, end_of, Apart, Apart-split, Apart-append,
  Apart-weaken, Absent-below, Absent-above,
}
use lab.Pmm.Rep.{Rep, Sized, Sized-split, Sized-append, Sized-frame}
use lab.Pmm.{Area, free_list, first_fit, take_pages, default_alloc_pages}

-- A block of the list with what stands before and behind it.
pub record Fit : Type 0 where
  pub before : List Block
  pub page : ℕ
  pub size : ℕ
  pub after : List Block

abbrev behind : Block → Option Fit → Option Fit
behind b none = none
behind b (some f) = some (record f { before = b ∷ f.before })

abbrev page_of : Option Fit → Option ℕ
page_of none = none
page_of (some f) = some f.page

-- The first block of at least `n` pages.
pub find_fit : ℕ → List Block → Option Fit
find_fit n [] = none
find_fit n ((p, k) ∷ bs) =
    if leb n k
    then some (record { before = []; page = p; size = k; after = bs })
    else behind (p, k) (find_fit n bs)

-- The free blocks once `n` pages are taken from the front of that block.
pub remaining : ℕ → Fit → List Block
remaining n f = f.before ++ (if ltb n f.size then (f.page + n, f.size - n) ∷ f.after else f.after)

find_fit-some :
    (n : ℕ) (bs : List Block) (f : Fit)
    → find_fit n bs ≡ some f
    → (bs ≡ f.before ++ (f.page, f.size) ∷ f.after) × (n ≤ f.size)
unfolding find_fit
find_fit-some n [] f e = cc
find_fit-some n ((p, k) ∷ bs) f e = elim (Bool-cases (leb n k)) [
  | inl fits ↦ ground arith
  | inr small ↦ elim (Option-cases (find_fit n bs)) [
    | inl gone ↦ ground arith
    | inr (g, got) ↦ let ih = find_fit-some n bs g got in ground arith
  ]
]

-- The scan finds the head of that block.
first_fit-find_fit :
    (fuel n le : ℕ) (a : Area) (bs : List Block)
    → Seg a.links le (entries bs) free_list
    → Sized a.pages bs
    → length bs < fuel
    → first_fit fuel n le a ≡ ok (page_of (find_fit n bs))
unfolding first_fit find_fit
first_fit-find_fit zero n le a bs h s lt = absurd (omega arith)
first_fit-find_fit (suc fuel) n le a [] h s lt = ground arith
first_fit-find_fit (suc fuel) n le a ((p, k) ∷ bs) h s lt =
    ground (arith, first_fit-find_fit fuel n (p + 1) a bs h.2 s.2)

-- The request is served from the block `(p, k)` between `l` and `r`.
module _ (n p k : ℕ) (l r : List Block) (a : Area) (rep : Rep a (l ++ (p, k) ∷ r)) (pos : 0 < n)
    (fits : n ≤ k) where
  l-Apart : Apart 0 l
  l-Apart = (Apart-split 0 l ((p, k) ∷ r) rep.apart).0

  block-Apart : Apart (end_of 0 l) ((p, k) ∷ r)
  block-Apart = (Apart-split 0 l ((p, k) ∷ r) rep.apart).1

  block-Sized : Sized a.pages ((p, k) ∷ r)
  block-Sized = (Sized-split a.pages l ((p, k) ∷ r) rep.sized).1

  l-Sized : Sized a.pages l
  l-Sized = (Sized-split a.pages l ((p, k) ∷ r) rep.sized).0

  whole-Ring : Ring a.links free_list (entries l ++ (p + 1) ∷ entries r)
  whole-Ring = subst (Ring a.links free_list) (entries-append l ((p, k) ∷ r)) rep.ring

  total_eq : total (l ++ (p, k) ∷ r) ≡ total l + (k + total r)
  total_eq = total-append l ((p, k) ∷ r)

  l-Absent : Absent (p + 1) (entries l)
  l-Absent = Absent-above p 0 l l-Apart block-Apart.0

  r-Absent : Absent (p + 1) (entries r)
  r-Absent = Absent-below p (p + k) r block-Apart.2 (omega (arith, block-Apart.1))

  l-Absent' : Absent (p + n + 1) (entries l)
  l-Absent' = Absent-above (p + n) 0 l l-Apart (omega (arith, block-Apart.0))

  r-Absent' : n < k → Absent (p + n + 1) (entries r)
  r-Absent' lt = Absent-below (p + n) (p + k) r block-Apart.2 (omega arith)

  rest-Absent : n < k → Absent (p + n + 1) (0 ∷ entries l ++ entries r)
  rest-Absent lt = (omega arith, Absent-append _ (entries l) (entries r) l-Absent' (r-Absent' lt))

  taken : Area
  taken = take_pages p n a

  exact_elsewhere : n ≡ k → (q : ℕ) → q ≢ p → q ≢ p → taken.pages q ≡ a.pages q
  unfolding taken take_pages
  exact_elsewhere e q np _ = ground (arith, block-Sized.0)

  same_elsewhere : (q : ℕ) → q ≢ p → q ≢ p + n → taken.pages q ≡ a.pages q
  unfolding taken take_pages
  same_elsewhere q np nr = ground arith

  count : taken.nr_free ≡ a.nr_free - n
  unfolding taken take_pages
  count = ground arith

  links : n ≡ k → taken.links ≡ list_del (p + 1) a.links
  unfolding taken take_pages list_del
  links e = ground (arith, block-Sized.0)

  links_split :
      n < k
      → taken.links ≡ list_add (list_prev (p + 1) a.links) (p + n + 1) (list_del (p + 1) a.links)
  unfolding taken take_pages list_del list_prev list_add
  links_split lt = ground (arith, block-Sized.0)

  rest_page :
      n < k → ((taken.pages (p + n)).property ≡ k - n) × ((taken.pages (p + n)).pg_property ≡ true)
  unfolding taken take_pages
  rest_page lt = ground (arith, block-Sized.0)

  l-Sized' : Sized taken.pages l
  l-Sized' = Sized-frame a.pages taken.pages p (p + n) l l-Absent l-Absent' same_elsewhere l-Sized

  take_pages-exact : n ≡ k → Rep taken (l ++ r)
  take_pages-exact e = record {
    ring = rw links (
        subst (Ring _ free_list) (sym (entries-append l r))
          (list_del-Ring (p + 1) (entries l) (entries r) whole-Ring));
    sized =
        Sized-append taken.pages l r l-Sized' (
          Sized-frame a.pages taken.pages p p r r-Absent r-Absent (exact_elsewhere e)
            block-Sized.2);
    apart = Apart-append 0 l r l-Apart (Apart-weaken r (omega (arith, block-Apart)) block-Apart.2);
    count = omega (arith, count, rep.count, total_eq, total-append l r);
    small = omega (arith, rep.small, total_eq, total-append l r);
  }

  take_pages-split : n < k → Rep taken (l ++ (p + n, k - n) ∷ r)
  unfolding list_prev
  take_pages-split lt = record {
    ring = rw (links_split lt) (
        subst (Ring _ free_list) (sym (entries-append l ((p + n, k - n) ∷ r))) (
          list_add-Ring (p + n + 1) _ (entries l) (entries r)
            (list_del-Ring (p + 1) (entries l) (entries r) whole-Ring) (rest-Absent lt)
            (prev-of (p + 1) (entries l) (entries r) whole-Ring)));
    sized = Sized-append taken.pages l ((p + n, k - n) ∷ r) l-Sized' (
      (rest_page lt).0,
      (rest_page lt).1,
      Sized-frame a.pages taken.pages p (p + n) r r-Absent (r-Absent' lt) same_elsewhere
          block-Sized.2,
    );
    apart =
        Apart-append 0 l _ l-Apart
          (omega (arith, block-Apart), omega arith, Apart-weaken r (omega arith) block-Apart.2);
    count = omega (arith, count, rep.count, total_eq, total-append l ((p + n, k - n) ∷ r));
    small = omega (arith, rep.small, total_eq, total-append l ((p + n, k - n) ∷ r));
  }

take_pages-Rep :
    (n : ℕ) (f : Fit) (a : Area)
    → Rep a (f.before ++ (f.page, f.size) ∷ f.after)
    → 0 < n
    → n ≤ f.size
    → Rep (take_pages f.page n a) (remaining n f)
unfolding remaining taken
take_pages-Rep n f a rep pos fits = elim (Bool-cases (ltb n f.size)) [
  | inl more ↦
      rw more (take_pages-split n f.page f.size f.before f.after a rep pos fits (ground arith))
  | inr same ↦
      rw same (take_pages-exact n f.page f.size f.before f.after a rep pos fits (ground arith))
]

-- A request for more pages than are free finds no block.
find_fit-none : (n : ℕ) (bs : List Block) → total bs < n → find_fit n bs ≡ none
unfolding find_fit
find_fit-none n [] h = refl
find_fit-none n ((p, k) ∷ bs) h = ground (arith, find_fit-none n bs)

-- What a request for `n` pages gives, from the first block that fits.
abbrev pub Allocated : ℕ → Area → Option Fit → Outcome (Option ℕ × Area) → Type 0
Allocated n a none r = r ≡ ok (none, a)
Allocated n a (some f) r = (a' : Area) × (r ≡ ok (some f.page, a')) × Rep a' (remaining n f)

-- On a well-formed free list, with fuel for every block, a request for at least one page takes the
-- pages at the front of the first block that is large enough and leaves the rest of that block in
-- its place on the list; if there is none, it returns NULL and changes nothing.
pub default_alloc_pages-first_fit :
    (fuel n : ℕ) (a : Area) (bs : List Block)
    → Rep a bs
    → 0 < n
    → length bs < fuel
    → Allocated n a (find_fit n bs) (default_alloc_pages fuel n a)
unfolding default_alloc_pages
default_alloc_pages-first_fit fuel n a bs rep pos enough = elim (Option-cases (find_fit n bs)) [
  | inl gone ↦ ground (arith, scan)
  | inr (f, got) ↦
      let found = find_fit-some n bs f got in
      rw got (
        take_pages f.page n a,
        run f got found.0 found.1,
        take_pages-Rep n f a (subst (Rep a) found.0 rep) pos found.1,
      )
]
  where
    scan : first_fit fuel n free_list a ≡ ok (page_of (find_fit n bs))
    scan = first_fit-find_fit fuel n free_list a bs rep.ring.seg rep.sized enough

    run :
        (f : Fit)
        → find_fit n bs ≡ some f
        → bs ≡ f.before ++ (f.page, f.size) ∷ f.after
        → n ≤ f.size
        → default_alloc_pages fuel n a ≡ ok (some f.page, take_pages f.page n a)
    run f got e fits =
        let whole : total bs ≡ total f.before + (f.size + total f.after) =
          ap total e ∙ total-append f.before _ in
        let some_free : n ≤ a.nr_free = omega (arith, rep.count) in ground (arith, scan)
