-- ===== src/Pmm/Rep.antt =====
-- When the page array and the list of default_pmm.c stand for a list of free blocks.
use lab.Base.{ℕ, ◌+◌, ◌<◌, ◌≡◌, ◌≢◌, true, List, [], ◌∷◌, ◌++◌, Absent, arith}
use lab.Links.Ring.{Ring}
use lab.Pmm.Blocks.{Block, entries, total, Apart}
use lab.Pmm.{Area, Page, free_list, uint_mod}

-- The pages of `bs` carry its sizes.
abbrev pub Sized : (ℕ → Page) → List Block → Type 0
Sized pages [] = Unit {0}
Sized pages ((p, k) ∷ bs) =
    ((pages p).property ≡ k) × ((pages p).pg_property ≡ true) × Sized pages bs

pub record Rep (a : Area) (bs : List Block) : Type 0 where
  pub ring : Ring a.links free_list (entries bs)
  pub sized : Sized a.pages bs
  pub apart : Apart 0 bs
  pub count : a.nr_free ≡ total bs
  pub small : total bs < uint_mod

module _ (pages : ℕ → Page) where
  pub Sized-split : (l r : List Block) → Sized pages (l ++ r) → Sized pages l × Sized pages r
  Sized-split [] r h = (tt, h)
  Sized-split ((p, k) ∷ l) r h = let t = Sized-split l r h.2 in ((h.0, h.1, t.0), t.1)

  pub Sized-append : (l r : List Block) → Sized pages l → Sized pages r → Sized pages (l ++ r)
  Sized-append [] r h g = g
  Sized-append ((p, k) ∷ l) r h g = (h.0, h.1, Sized-append l r h.2 g)

-- Pages that head no block of the list may change.
pub Sized-frame :
    (pages pages' : ℕ → Page) (x y : ℕ) (bs : List Block)
    → Absent (x + 1) (entries bs)
    → Absent (y + 1) (entries bs)
    → ((q : ℕ) → q ≢ x → q ≢ y → pages' q ≡ pages q)
    → Sized pages bs
    → Sized pages' bs
Sized-frame pages pages' x y [] fx fy same h = tt
Sized-frame pages pages' x y ((p, k) ∷ bs) fx fy same h =
    let e : pages' p ≡ pages p = same p (omega arith) (omega arith) in
    (ground arith, ground arith, Sized-frame pages pages' x y bs fx.1 fy.1 same h.2)
