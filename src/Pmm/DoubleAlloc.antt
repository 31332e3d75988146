-- ===== src/Pmm/DoubleAlloc.antt =====
-- What freeing above all free blocks leads to: the freed block stays on the list when it is
-- allocated, and is handed out a second time.
use lab.Base.{ℕ, ◌+◌, ◌≤◌, ◌<◌, ◌≡◌, List, [], ◌∷◌, ◌++◌, some, length, length-append, ok, arith}
use lab.Pmm.Blocks.{Block, total}
use lab.Pmm.Rep.{Rep, Sized}
use lab.Pmm.Reset.{InUse}
use lab.Pmm.{Area, uint_mod, default_free_pages, default_alloc_pages}
use lab.Pmm.Stuck.{Smaller, alloc-Stuck}
use lab.Pmm.TailFree.{freed, freed-Stuck, bs_end, freed_next, freed_nr_free, free_run}

-- Freeing `n` pages in use above all blocks of a well-formed free list that is not empty, with fuel
-- and room in the counter, succeeds, but never joins them with the block before, also if they touch:
-- that block keeps its size and leads to the new block, which has size `n` and is its own predecessor.
pub default_free_pages-last :
    (fuel n base q m : ℕ) (l : List Block) (a : Area)
    → Rep a (l ++ (q, m) ∷ [])
    → 0 < n
    → q + m ≤ base
    → InUse a.pages base n
    → total (l ++ (q, m) ∷ []) + n < uint_mod
    → length l + 2 < fuel
    → (a' : Area) × (default_free_pages fuel base n a ≡ ok a')
      × (a'.links.prev (base + 1) ≡ base + 1)
      × (a'.links.next (q + 1) ≡ base + 1)
      × Sized a'.pages (l ++ (q, m) ∷ [])
      × ((a'.pages base).property ≡ n)
default_free_pages-last fuel n base q m l a rep pos gap used room enough =
    let st = freed-Stuck fuel n base q m l a rep pos gap used room enough in
    (
      freed fuel n base q m l a rep pos gap used room enough,
      free_run fuel n base q m l a rep pos gap used room enough,
      st.looped,
      freed_next fuel n base q m l a rep pos gap used room enough,
      st.sized,
      st.size,
    )

-- Pages that are in use above all blocks of a well-formed free list that is not empty, with fuel
-- and room in the counter: if all free blocks are smaller than `n` but together hold `n` pages,
-- then freeing `n` such pages and two requests for `n` pages all succeed, and both requests get the
-- freed pages.
pub default_alloc_pages-twice :
    (fuel n base q m : ℕ) (l : List Block) (a : Area)
    → Rep a (l ++ (q, m) ∷ [])
    → 0 < n
    → q + m ≤ base
    → InUse a.pages base n
    → total (l ++ (q, m) ∷ []) + n < uint_mod
    → length l + 2 < fuel
    → Smaller n (l ++ (q, m) ∷ [])
    → n ≤ total (l ++ (q, m) ∷ [])
    → (a₁ a₂ a₃ : Area) × (default_free_pages fuel base n a ≡ ok a₁)
      × (default_alloc_pages fuel n a₁ ≡ ok (some base, a₂))
      × (default_alloc_pages fuel n a₂ ≡ ok (some base, a₃))
default_alloc_pages-twice fuel n base q m l a rep pos gap used room enough small many =
    let st = freed-Stuck fuel n base q m l a rep pos gap used room enough in
    let count = freed_nr_free fuel n base q m l a rep pos gap used room enough in
    let gap' = bs_end fuel n base q m l a rep pos gap used room enough in
    let short : length (l ++ (q, m) ∷ []) < fuel = omega (arith, length-append l ((q, m) ∷ [])) in
    let (a₂, run₂, st₂, count₂) =
      alloc-Stuck fuel n base _ _ st pos gap' rep.apart small (omega (arith, count)) short in
    let (a₃, run₃, st₃, count₃) =
      alloc-Stuck fuel n base _ a₂ st₂ pos gap' rep.apart small (omega (arith, count, count₂))
        short in
    (
      freed fuel n base q m l a rep pos gap used room enough,
      a₂,
      a₃,
      free_run fuel n base q m l a rep pos gap used room enough,
      run₂,
      run₃,
    )
