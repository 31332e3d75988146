-- ===== src/Pmm/Examples.antt =====
-- The theorems on default_pmm.c at small free lists, and runs of the code.
use lab.Base.{ℕ, ◌≡◌, refl, true, List, [], ◌∷◌, some, update, ok, arith}
use lab.Links.{Links}
use lab.Pmm.Blocks.{Block}
use lab.Pmm.Rep.{Rep, Sized}
use lab.Pmm.Alloc.{Allocated, find_fit, default_alloc_pages-first_fit}
use lab.Pmm.FreeInto.{free_into}
use lab.Pmm.Free.{default_free_pages-free_into}
use lab.Pmm.DoubleAlloc.{default_free_pages-last, default_alloc_pages-twice}
use lab.Pmm.{Area, Page, blank, default_alloc_pages, default_free_pages}

abbrev head_of : ℕ → Page
head_of k = record blank { pg_property = true; property = k }

-- Blocks of 2 pages from page 1 on, and of 3 pages from page 5 on.
abbrev two_blocks : List Block
two_blocks = (1, 2) ∷ (5, 3) ∷ []

abbrev two_links : Links
two_links = record {
  next = update (update (update (λ _. 0) 0 2) 2 6) 6 0;
  prev = update (update (update (λ _. 0) 2 0) 6 2) 0 6;
}

abbrev two_area : Area
two_area = record {
  pages = update (update (λ _. blank) 1 (head_of 2)) 5 (head_of 3);
  links = two_links;
  nr_free = 5;
}

two_Rep : Rep two_area two_blocks
two_Rep = record {
  ring = record { seg = (refl, refl, (refl, refl, (refl, refl))); distinct = omega arith };
  sized = (refl, refl, (refl, refl, tt));
  apart = omega arith;
  count = refl;
  small = omega arith;
}

default_alloc_pages-first_fit_example :
    Allocated 3 two_area (find_fit 3 two_blocks) (default_alloc_pages 3 3 two_area)
default_alloc_pages-first_fit_example =
    default_alloc_pages-first_fit 3 3 two_area two_blocks two_Rep (omega arith) (omega arith)

-- The two pages between the blocks come back: one block of seven pages is left.
default_free_pages-free_into_example :
    (a : Area) × (default_free_pages 4 3 2 two_area ≡ ok a) × Rep a (free_into (3, 2) two_blocks)
default_free_pages-free_into_example =
    default_free_pages-free_into 4 3 2 two_area ((1, 2) ∷ []) ((5, 3) ∷ []) two_Rep (omega arith)
      (omega arith) (omega arith) (λ q lo hi. ground arith) (omega arith) (λ e. cc) (omega arith)

seven_pages : free_into (3, 2) two_blocks ≡ (1, 7) ∷ []
unfolding free_into
seven_pages = refl

-- Two pages above the two blocks come back; they touch the last block and stay apart.
default_free_pages-last_example :
    (a : Area) × (default_free_pages 4 8 2 two_area ≡ ok a)
    × (a.links.prev 9 ≡ 9)
    × (a.links.next 6 ≡ 9)
    × Sized a.pages two_blocks
    × ((a.pages 8).property ≡ 2)
default_free_pages-last_example =
    default_free_pages-last 4 2 8 5 3 ((1, 2) ∷ []) two_area two_Rep (omega arith) (omega arith)
      (λ q lo hi. ground arith) (omega arith) (omega arith)

-- Single pages 1 and 5 are free, and the two pages from page 6 on come back.
abbrev single_area : Area
single_area = record {
  pages = update (update (λ _. blank) 1 (head_of 1)) 5 (head_of 1);
  links = two_links;
  nr_free = 2;
}

single_Rep : Rep single_area ((1, 1) ∷ (5, 1) ∷ [])
single_Rep = record {
  ring = record { seg = (refl, refl, (refl, refl, (refl, refl))); distinct = omega arith };
  sized = (refl, refl, (refl, refl, tt));
  apart = omega arith;
  count = refl;
  small = omega arith;
}

default_alloc_pages-twice_example :
    (a₁ a₂ a₃ : Area) × (default_free_pages 4 6 2 single_area ≡ ok a₁)
    × (default_alloc_pages 4 2 a₁ ≡ ok (some 6, a₂))
    × (default_alloc_pages 4 2 a₂ ≡ ok (some 6, a₃))
default_alloc_pages-twice_example =
    default_alloc_pages-twice 4 2 6 5 1 ((1, 1) ∷ []) single_area single_Rep (omega arith)
      (omega arith) (λ q lo hi. ground arith) (omega arith) (omega arith) (omega arith)
      (omega arith)
