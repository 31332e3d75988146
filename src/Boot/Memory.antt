-- ===== src/Boot/Memory.antt =====
-- The free list after the start.
use lab.Base.{
  ℕ, zero, suc, ◌+◌, ◌-◌, ◌*◌, ◌/◌, ◌%◌, ◌^◌, ◌≤◌, ◌<◌, ◌≡◌, refl, sym, ap, ◌∙◌, true, false, not,
  ltb, leb, ◌==◌, if_true, if_false, lt→ltb, Bool-cases, inl, inr, le→not_ltb, ne→not_eq, run_ok,
  ok, [], ◌∷◌, ◌>>=◌, ◌>>◌, assert, panic, arith,
}
use lab.Vmm.{round_down, round_up}
use lab.Pmm.Rep.{Rep}
use lab.Pmm.Memmap.{default_init_memmap-Rep}
use lab.Pmm.{Area, Page, set_page, default_init, default_init_memmap}
use lab.Dtb.{PhysicalMemory, physical_memory_offset}
use lab.Boot.{
  pgsize, dram_base, nbase, kernbase, kerntop, page_bytes, pa2page, reserve_pages, count_pages,
  array_end, give_range, give_memory, page_init, init_memory,
}

reserve_pages-kept :
    (n p q : ℕ) (a : Area)
    → (a.pages q).pg_reserved ≡ true
    → ((reserve_pages n p a).pages q).pg_reserved ≡ true
unfolding reserve_pages
reserve_pages-kept zero p q a h = h
reserve_pages-kept (suc n) p q a h = reserve_pages-kept n (p + 1) q _ (ground (arith, h))

reserve_pages-Reserved :
    (n p q : ℕ) (a : Area) → p ≤ q → q < p + n → ((reserve_pages n p a).pages q).pg_reserved ≡ true
unfolding reserve_pages
reserve_pages-Reserved zero p q a lo hi = ground (arith, lo, hi)
reserve_pages-Reserved (suc n) p q a lo hi = elim (Bool-cases (q == p)) [
  | inl t ↦
      let first = set_page a p (record (a.pages p) { pg_reserved = true }) in
      reserve_pages-kept n (p + 1) q first (
        ap (λ (x : Page). x.pg_reserved)
          (if_true (q == p) (record (a.pages p) { pg_reserved = true }) (a.pages q) t))
  | inr f ↦ reserve_pages-Reserved n (p + 1) q _ (ground (arith, lo, f)) (omega (arith, hi))
]

-- Reserving pages changes no link and no count, so it may as well come before default_init.
reserve_pages-default_init :
    (n p : ℕ) (a : Area) → reserve_pages n p (default_init a) ≡ default_init (reserve_pages n p a)
unfolding reserve_pages default_init
reserve_pages-default_init zero p a = refl
reserve_pages-default_init (suc n) p a = reserve_pages-default_init n (p + 1) _

not_leb : (a b : ℕ) → b < a → leb a b ≡ false
not_leb a b h = ground (arith, h)

-- The range from the page `first` on up to the page `n`, both counted from DRAM_BASE.
give_memory-run :
    (fuel n first freemem mem_end : ℕ) (a : Area)
    → dram_base ≤ freemem
    → nbase + first ≡ (freemem + 4095) / pgsize
    → nbase + n ≡ mem_end / pgsize
    → first < n
    → mem_end < 2 ^ 44
    → give_memory fuel (nbase + n) freemem mem_end a
      ≡ (default_init_memmap fuel first (n - first) a >>= (λ area. ok (nbase + n, area)))
unfolding give_memory give_range round_up round_down
give_memory-run fuel n first freemem mem_end a low from up room small =
    let start : round_up freemem pgsize ≡ (nbase + first) * pgsize = omega arith in
    let stop : round_down mem_end pgsize ≡ (nbase + n) * pgsize = omega arith in
    let size : ((nbase + n) * pgsize + 2 ^ 64 - (nbase + first) * pgsize) % 2 ^ 64 / pgsize
        ≡ n - first =
      omega arith in
    let page : ((nbase + first) * pgsize / pgsize + 2 ^ 64 - nbase) % 2 ^ 64 ≡ first =
      omega arith in
    let inside : leb (nbase + n) ((nbase + first) * pgsize / pgsize) ≡ false =
      not_leb (nbase + n) ((nbase + first) * pgsize / pgsize) (omega arith) in
    let more : ltb freemem (round_down mem_end pgsize) ≡ true =
      lt→ltb freemem (round_down mem_end pgsize) (omega arith) in
    if_true (ltb freemem (round_down mem_end pgsize)) _ (ok (nbase + n, a)) more
    ∙ ap (λ b. give_range fuel (nbase + n) b (round_down mem_end pgsize) a) start
    ∙ ap (λ e. give_range fuel (nbase + n) ((nbase + first) * pgsize) e a) stop
    ∙ run_ok (pa2page (nbase + n) ((nbase + first) * pgsize)) first _
        (if_false (leb (nbase + n) ((nbase + first) * pgsize / pgsize)) panic _ inside ∙ ap ok page)
    ∙ ap (λ k. default_init_memmap fuel first k a >>= (λ area. ok (nbase + n, area))) size

array_end-ok :
    (end n : ℕ)
    → kernbase ≤ end
    → end + pgsize + page_bytes * n + pgsize < 2 ^ 64
    → array_end end n
      ≡ ok ((end + 4095) / pgsize * pgsize + page_bytes * n - physical_memory_offset)
unfolding array_end round_up round_down
array_end-ok end n low high =
    let at = (round_up end pgsize + page_bytes * n) % 2 ^ 64 in
    let here : at ≡ (end + 4095) / pgsize * pgsize + page_bytes * n = omega (arith, low, high) in
    if_false (ltb at kernbase) panic _ (le→not_ltb at kernbase (omega (arith, here, low)))
    ∙ ap (λ x. ok (x - physical_memory_offset)) here

page_init-run :
    (fuel end n freemem : ℕ) (mem : PhysicalMemory) (a : Area)
    → 0 < mem.memory_size
    → mem.memory_base + mem.memory_size < 2 ^ 44
    → nbase + n ≡ (mem.memory_base + mem.memory_size) / pgsize
    → array_end end n ≡ ok freemem
    → page_init fuel end mem a
      ≡ give_memory fuel
          (nbase + n)
          freemem
          (mem.memory_base + mem.memory_size)
          (reserve_pages n 0 a)
unfolding page_init
page_init-run fuel end n freemem mem a some_memory high pages array =
    let sum = mem.memory_base + mem.memory_size in
    let rest = λ (mem_end npage : ℕ).
      let k = (npage + 2 ^ 64 - nbase) % 2 ^ 64 in
      array_end end k >>= (λ f. give_memory fuel npage f mem_end (reserve_pages k 0 a)) in
    let top : sum % 2 ^ 64 ≡ sum = omega (arith, high) in
    let counted : count_pages sum ≡ nbase + n =
      ap (λ x. x / pgsize)
        (if_false (ltb kerntop sum) kerntop sum (le→not_ltb kerntop sum (omega (arith, high))))
      ∙ sym pages in
    let count : (nbase + n + 2 ^ 64 - nbase) % 2 ^ 64 ≡ n = omega (arith, pages, high) in
    ap (λ b. assert (not b) >> rest (sum % 2 ^ 64) (count_pages (sum % 2 ^ 64)))
      (ne→not_eq mem.memory_size 0 (λ e. omega (arith, e, some_memory)))
    ∙ ap (λ m. rest m (count_pages m)) top
    ∙ ap (rest sum) counted
    ∙ ap (λ k. array_end end k >>= (λ f. give_memory fuel (nbase + n) f sum (reserve_pages k 0 a)))
        count
    ∙ run_ok (array_end end n) freemem _ array

-- Sizes for which no address wraps around: memory is from DRAM_BASE up to `top`, below 16 TB; the kernel ends at `end`, and
-- a whole page is free behind the page array.
pub record Fits (end : ℕ) (mem : PhysicalMemory) (n first : ℕ) : Type 0 where
  pub not_empty : 0 < mem.memory_size
  pub low : dram_base ≤ mem.memory_base
  pub high : mem.memory_base + mem.memory_size < 2 ^ 44
  pub kernel : kernbase ≤ end
  pub pages : n ≡ (mem.memory_base + mem.memory_size) / pgsize - nbase
  pub array : end + pgsize + page_bytes * n + pgsize < 2 ^ 64
  pub behind :
      first
      ≡ (((end + 4095) / pgsize * pgsize + page_bytes * n - physical_memory_offset) + 4095) / pgsize
        - nbase
  pub room : first < n

-- If the sizes fit, and with fuel, init_memory counts the pages up to the end of memory, and the free list is one block:
-- all the pages from the first whole one behind the page array up to the end of memory.
pub init_memory-Rep :
    (fuel end n first : ℕ) (mem : PhysicalMemory) (a : Area)
    → Fits end mem n first
    → 0 < fuel
    → (a' : Area) × (init_memory fuel end mem a ≡ ok (nbase + n, a'))
      × Rep a' ((first, n - first) ∷ [])
unfolding init_memory
init_memory-Rep fuel end n first mem a fits enough =
    let sum = mem.memory_base + mem.memory_size in
    let freemem = (end + 4095) / pgsize * pgsize + page_bytes * n - physical_memory_offset in
    let pages : nbase + n ≡ sum / pgsize = omega (arith, fits.pages, fits.room) in
    let low : dram_base ≤ freemem = omega (arith, fits.kernel) in
    let from : nbase + first ≡ (freemem + 4095) / pgsize = omega (arith, fits.behind, low) in
    let (a', run, rep) =
      default_init_memmap-Rep fuel first (n - first) (reserve_pages n 0 a)
        (omega (arith, fits.room)) (omega (arith, pages, fits.high))
        (λ q lo hi. reserve_pages-Reserved n 0 q a (omega arith) (omega (arith, hi, fits.room)))
        enough in
    (
      a',
      page_init-run fuel end n freemem mem (default_init a) fits.not_empty fits.high pages
            (array_end-ok end n fits.kernel fits.array)
          ∙ give_memory-run fuel n first freemem sum (reserve_pages n 0 (default_init a)) low from
              pages fits.room fits.high
          ∙ ap
              (λ x. default_init_memmap fuel first (n - first) x >>= (λ area. ok (nbase + n, area)))
              (reserve_pages-default_init n 0 a)
          ∙ run_ok (default_init_memmap fuel first (n - first) (default_init (reserve_pages n 0 a)))
              a' _ run,
      rep,
    )
